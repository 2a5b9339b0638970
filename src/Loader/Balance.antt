-- ===== src/Loader/Balance.antt =====
-- The library handles of src/app/lib_loader/LibLoader.cpp, from their opening to the destructor.
use mavlink_hub.Base.{
  ℕ, ◌+◌, ◌≤◌, String, ◌≡◌, refl, Bool, true, false, Option, none, some, List, [], ◌∷◌, arith,
  if◌then◌else◌,
}
use mavlink_hub.Base.Dict
use mavlink_hub.Base.Dict.{Dict, lookup}
use mavlink_hub.Sdk.{Sdk}
use mavlink_hub.Manager.Frame.{has}
use mavlink_hub.Registry.Admin.{AgentRegistry}
use mavlink_hub.Loader.{
  DynamicLibraries, DlCall, opened, closed, LibLoader, LibInfo, load_agent_lib, load_transport_lib,
  close_all, destroy_loader,
}
use mavlink_hub.Loader.Laws.{loading, missing, no_symbol, no_definition, provided}

abbrev bit : Bool → ℕ
bit true = 1
bit false = 0

module _ {H : Type 0} (chosen : H → Bool) where
  -- How often a handle of the chosen ones was opened, closed, is held.
  unfoldable pub opens : List (DlCall H) → ℕ
  opens [] = 0
  opens (opened h ∷ calls) = bit (chosen h) + opens calls
  opens (closed h ∷ calls) = opens calls

  unfoldable pub closes : List (DlCall H) → ℕ
  closes [] = 0
  closes (opened h ∷ calls) = closes calls
  closes (closed h ∷ calls) = bit (chosen h) + closes calls

  unfoldable pub held : Dict H → ℕ
  held [] = 0
  held ((name, h) ∷ handles) = bit (chosen h) + held handles

  held-insert :
      (name : String) (h : H) (handles : Dict H)
      → lookup name handles ≡ none
      → held (Dict.insert name h handles) ≡ bit (chosen h) + held handles
  unfolding held lookup Dict.insert
  held-insert name h [] e = refl
  held-insert name h ((n, first) ∷ handles) e = ground (arith, held-insert name h handles)

  held-emplace :
      (name : String) (h : H) (handles : Dict H)
      → held (Dict.emplace name h handles)
        ≡ (if has name handles then held handles else bit (chosen h) + held handles)
  unfolding Dict.emplace
  held-emplace name h handles = ground (arith, held-insert name h handles)

pub data Load : Type 0 where
  agent_lib transport_lib : LibInfo → Load

module _ {S : Sdk} (L : DynamicLibraries S) (registry : AgentRegistry) where
  abbrev pub load : Load → LibLoader L → LibLoader L
  load (agent_lib info) l = (load_agent_lib L registry info l).0
  load (transport_lib info) l = (load_transport_lib L info l).0

  -- Several loads, one after the other.
  unfoldable pub load_all : List Load → LibLoader L → LibLoader L
  load_all [] l = l
  load_all (one ∷ loads) l = load_all loads (load one l)

module _ {S : Sdk} (L : DynamicLibraries S) (chosen : L.LibHandle → Bool) where
  opens-close_all :
      (handles : Dict L.LibHandle) (calls : List (DlCall L.LibHandle))
      → opens chosen (close_all L handles calls) ≡ opens chosen calls
  unfolding opens close_all
  opens-close_all [] calls = refl
  opens-close_all ((name, h) ∷ handles) calls = opens-close_all handles (closed h ∷ calls)

  closes-close_all :
      (handles : Dict L.LibHandle) (calls : List (DlCall L.LibHandle))
      → closes chosen (close_all L handles calls) ≡ held chosen handles + closes chosen calls
  unfolding closes close_all held
  closes-close_all [] calls = omega arith
  closes-close_all ((name, h) ∷ handles) calls =
      ground (arith, closes-close_all handles (closed h ∷ calls))

  -- The handle of the library that is loaded, if the load succeeds.
  abbrev handle_of : {D : Type 0} → (L.Symbol → Option D) → LibInfo → Option L.LibHandle
  handle_of get info = elim (L.dlopen info.path) [
    | none ↦ none
    | some handle ↦ elim (L.dlsym handle info.sym) [
      | none ↦ none
      | some symbol ↦ elim (get symbol) [ none ↦ none | some definition ↦ some handle ]
    ]
  ]

  abbrev bit_of : Option L.LibHandle → ℕ
  bit_of none = 0
  bit_of (some handle) = bit (chosen handle)

  -- A successful load under a name that the loader has already loses its handle.
  abbrev pub lost : Load → LibLoader L → ℕ
  lost (agent_lib info) l =
      if has info.name l.agent_lib_handles
      then bit_of (handle_of L.get_agent_definition info)
      else 0
  lost (transport_lib info) l =
      if has info.name l.transport_lib_handles
      then bit_of (handle_of L.get_transport_definition info)
      else 0

  abbrev balance : LibLoader L → ℕ
  balance l =
      closes chosen l.dl_calls
      + held chosen l.agent_lib_handles
      + held chosen l.transport_lib_handles

  module _ (registry : AgentRegistry) where
    load-balance :
        (one : Load) (l : LibLoader L)
        → opens chosen (load L registry one l).dl_calls + balance l
          ≡ opens chosen l.dl_calls + (balance (load L registry one l) + lost one l)
    unfolding load_agent_lib load_transport_lib opens closes
    load-balance (agent_lib info) l = elim (loading L info l L.get_agent_definition) [
      | missing e ↦ ground arith
      | no_symbol handle e f ↦ ground arith
      | no_definition handle symbol e f g ↦ ground arith
      | provided handle symbol definition e f g ↦
          ground (arith, held-emplace chosen info.name handle l.agent_lib_handles)
    ]
    load-balance (transport_lib info) l = elim (loading L info l L.get_transport_definition) [
      | missing e ↦ ground arith
      | no_symbol handle e f ↦ ground arith
      | no_definition handle symbol e f g ↦ ground arith
      | provided handle symbol definition e f g ↦
          ground (arith, held-emplace chosen info.name handle l.transport_lib_handles)
    ]

    -- How many handles several loads lose.
    unfoldable pub all_lost : List Load → LibLoader L → ℕ
    all_lost [] l = 0
    all_lost (one ∷ loads) l = lost one l + all_lost loads (load L registry one l)

    load_all-balance :
        (loads : List Load) (l : LibLoader L)
        → opens chosen (load_all L registry loads l).dl_calls + balance l
          ≡ opens chosen l.dl_calls + (balance (load_all L registry loads l) + all_lost loads l)
    unfolding load_all all_lost
    load_all-balance [] l = omega arith
    load_all-balance (one ∷ loads) l =
        omega (arith, load-balance one l, load_all-balance loads (load L registry one l))

    -- Meanwhile every handle has been opened as often as it was closed and is held, at least.
    pub load_all-held :
        (loads : List Load) (l : LibLoader L)
        → l.agent_lib_handles ≡ []
        → l.transport_lib_handles ≡ []
        → l.dl_calls ≡ []
        → let n = load_all L registry loads l in
          held chosen n.agent_lib_handles
            + held chosen n.transport_lib_handles
            + closes chosen n.dl_calls
          ≤ opens chosen n.dl_calls
    unfolding opens closes held
    load_all-held loads l a t e = ground (arith, load_all-balance loads l, a, t, e)

    -- Whatever libraries a loader that starts with nothing loads: at the end of its destructor every
    -- handle was closed as often as it was opened, but for the opens of the successful loads under a
    -- name that the loader had a handle for.
    pub destroy_loader-balance :
        (loads : List Load) (l : LibLoader L)
        → l.agent_lib_handles ≡ []
        → l.transport_lib_handles ≡ []
        → l.dl_calls ≡ []
        → let calls = destroy_loader L (load_all L registry loads l) in
          opens chosen calls ≡ closes chosen calls + all_lost loads l
    unfolding destroy_loader opens closes held
    destroy_loader-balance loads l a t e =
        let n = load_all L registry loads l in
        ground (
          arith,
          load_all-balance loads l,
          a,
          t,
          e,
          opens-close_all n.transport_lib_handles (close_all L n.agent_lib_handles n.dl_calls),
          closes-close_all n.transport_lib_handles (close_all L n.agent_lib_handles n.dl_calls),
          opens-close_all n.agent_lib_handles n.dl_calls,
          closes-close_all n.agent_lib_handles n.dl_calls,
        )
