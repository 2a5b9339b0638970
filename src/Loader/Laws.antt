-- ===== src/Loader/Laws.antt =====
-- What src/app/lib_loader/LibLoader.cpp registers, stores and closes.
use mavlink_hub.Base.{
  String, ◌≡◌, ◌↔◌, true, false, ◌==◌, eq_iff, ◌&&◌, not, ◌⊎◌, inl, inr, Option, none, some, ◌∷◌,
  if◌then◌else◌, arith, is_some, Option-cases,
}
use mavlink_hub.Base.Dict
use mavlink_hub.Base.Dict.{lookup, lookup-emplace}
use mavlink_hub.Sdk.{Sdk}
use mavlink_hub.Registry.Admin.{AgentRegistry, create_user, add_agent_definition}
use mavlink_hub.Registry.User
use mavlink_hub.Registry.Laws.{view-add}
use mavlink_hub.Loader.{
  DynamicLibraries, LibLoader, LibInfo, opened, closed, load_agent_lib, load_transport_lib,
}

module _ {S : Sdk} (L : DynamicLibraries S) (info : LibInfo) (l : LibLoader L) where
  -- The library opens, has the symbol, and the getter gives a definition.
  abbrev pub Provides : L.LibHandle → S.AgentDefinition → Type 0
  Provides handle definition =
      (symbol : L.Symbol) × (L.dlopen info.path ≡ some handle)
      × (L.dlsym handle info.sym ≡ some symbol)
      × (L.get_agent_definition symbol ≡ some definition)

  abbrev pub ProvidesTransport : L.LibHandle → S.TransportDefinition → Type 0
  ProvidesTransport handle definition =
      (symbol : L.Symbol) × (L.dlopen info.path ≡ some handle)
      × (L.dlsym handle info.sym ≡ some symbol)
      × (L.get_transport_definition symbol ≡ some definition)

  -- How far the three calls get.
  pub data Loading {D : Type 0} (get : L.Symbol → Option D) : Type 0 where
    missing : L.dlopen info.path ≡ none → Loading get
    no_symbol :
        (handle : L.LibHandle)
        → L.dlopen info.path ≡ some handle
        → L.dlsym handle info.sym ≡ none
        → Loading get
    no_definition :
        (handle : L.LibHandle) (symbol : L.Symbol)
        → L.dlopen info.path ≡ some handle
        → L.dlsym handle info.sym ≡ some symbol
        → get symbol ≡ none
        → Loading get
    provided :
        (handle : L.LibHandle) (symbol : L.Symbol) (definition : D)
        → L.dlopen info.path ≡ some handle
        → L.dlsym handle info.sym ≡ some symbol
        → get symbol ≡ some definition
        → Loading get

  pub loading : {D : Type 0} (get : L.Symbol → Option D) → Loading get
  loading get = elim (Option-cases (L.dlopen info.path)) [
    | inl e ↦ missing e
    | inr (handle, e) ↦ elim (Option-cases (L.dlsym handle info.sym)) [
      | inl f ↦ no_symbol handle e f
      | inr (symbol, f) ↦ elim (Option-cases (get symbol)) [
        | inl g ↦ no_definition handle symbol e f g
        | inr (definition, g) ↦ provided handle symbol definition e f g
      ]
    ]
  ]

  -- Loading an agent library reports a success exactly when the library provides a definition.
  pub load_agent_lib_iff :
      (registry : AgentRegistry)
      → ((load_agent_lib L registry info l).1.success ≡ true)
        ↔ ((handle : L.LibHandle) × (definition : S.AgentDefinition) × Provides handle definition)
  unfolding load_agent_lib
  load_agent_lib_iff registry = elim (loading L.get_agent_definition) [
    | missing e ↦
        (λ h. absurd (ground arith), λ (handle, definition, (symbol, o, t, g)). ground arith)
    | no_symbol handle e f ↦
        (λ h. absurd (ground arith), λ (handle', definition, (symbol, o, t, g)). ground arith)
    | no_definition handle s e f g' ↦
        (λ h. absurd (ground arith), λ (handle', definition, (symbol, o, t, g)). ground arith)
    | provided handle symbol definition e f g ↦
        (λ h. (handle, definition, (symbol, e, f, g)), λ h. ground arith)
  ]

  -- A failed load of an agent library changes neither the registries nor the stored handles, and
  -- closes the library again if it was opened.
  pub load_agent_lib_failed :
      (registry : AgentRegistry)
      → (load_agent_lib L registry info l).1.success ≡ false
      → ((load_agent_lib L registry info l).0 ≡ l)
        ⊎ ((handle : L.LibHandle) × ((load_agent_lib L registry info l).0
              ≡ record l { dl_calls = closed handle ∷ opened handle ∷ l.dl_calls }))
  unfolding load_agent_lib
  load_agent_lib_failed registry h = elim (loading L.get_agent_definition) [
    | missing e ↦ inl (ground arith)
    | no_symbol handle e f ↦ inr (handle, ground arith)
    | no_definition handle symbol e f g ↦ inr (handle, ground arith)
    | provided handle symbol definition e f g ↦ absurd (ground arith)
  ]

  -- A successful load of an agent library: every view of the registry shows the definition under
  -- the name if the name was free there, and is as before otherwise; the handle is stored if the
  -- loader had none under the name, and in no case closed.
  pub load_agent_lib_loaded :
      (registry : AgentRegistry) (handle : L.LibHandle) (definition : S.AgentDefinition)
      (j : String)
      → Provides handle definition
      → let view = create_user registry in
        let after = (load_agent_lib L registry info l).0 in
        (User.at view after.memory j ≡ (
          if info.name == j && not (User.is_registered view l.memory info.name)
          then some definition
          else User.at view l.memory j))
        × (lookup j after.agent_lib_handles ≡ (
            if info.name == j && not (is_some (lookup info.name l.agent_lib_handles))
            then some handle
            else lookup j l.agent_lib_handles))
        × (after.dl_calls ≡ opened handle ∷ l.dl_calls)
  unfolding load_agent_lib
  load_agent_lib_loaded registry handle definition j (symbol, o, s, g) = ground (
    arith,
    eq_iff info.name j,
    view-add registry info.name l.memory definition j,
    lookup-emplace info.name j handle l.agent_lib_handles,
  )

  -- Loading an agent library under a name that the registry and the loader already have reports a
  -- success, though no definition is registered, and the handle is neither stored nor closed.
  pub load_agent_lib_taken :
      (registry : AgentRegistry) (handle : L.LibHandle) (definition : S.AgentDefinition)
      → Provides handle definition
      → User.is_registered (create_user registry) l.memory info.name ≡ true
      → is_some (lookup info.name l.agent_lib_handles) ≡ true
      → ((load_agent_lib L registry info l).1.success ≡ true)
        × ((load_agent_lib L registry info l).0
            ≡ record l { dl_calls = opened handle ∷ l.dl_calls })
  unfolding load_agent_lib create_user User.is_registered add_agent_definition Dict.emplace
  load_agent_lib_taken registry handle definition (symbol, o, s, g) taken stored = ground arith

  -- The same of transport libraries: the result is a success exactly when a definition is provided;
  -- a failed load changes nothing but the log, where an opened library is closed again.
  pub load_transport_lib_iff :
      (((load_transport_lib L info l).1.success ≡ true) ↔ (
        (handle : L.LibHandle) × (definition : S.TransportDefinition) × ProvidesTransport handle
          definition))
      × (((load_transport_lib L info l).1.success ≡ true)
          ⊎ ((load_transport_lib L info l).0 ≡ l)
          ⊎ ((handle : L.LibHandle) × ((load_transport_lib L info l).0
                ≡ record l { dl_calls = closed handle ∷ opened handle ∷ l.dl_calls })))
  unfolding load_transport_lib
  load_transport_lib_iff = elim (loading L.get_transport_definition) [
    | missing e ↦ (
      (λ h. absurd (ground arith), λ (handle', definition, (symbol, o, t, g)). ground arith),
      inr (inl (ground arith)),
    )
    | no_symbol handle e f ↦ (
      (λ h. absurd (ground arith), λ (handle', definition, (symbol, o, t, g)). ground arith),
      inr (inr (handle, ground arith)),
    )
    | no_definition handle s e f g' ↦ (
      (λ h. absurd (ground arith), λ (handle', definition, (symbol, o, t, g)). ground arith),
      inr (inr (handle, ground arith)),
    )
    | provided handle symbol definition e f g ↦
        ((λ h. (handle, definition, (symbol, e, f, g)), λ h. ground arith), inl (ground arith))
  ]
