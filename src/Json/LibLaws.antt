-- ===== src/Json/LibLaws.antt =====
-- What the reader of library lists in src/common/json_utils/JsonUtils.cpp gives.
use mavlink_hub.Base.{
  String, ◌≡◌, refl, Bool, true, not, ◌&&◌, List, [], ◌∷◌, if◌then◌else◌, is_some, arith, eq_iff,
}
use mavlink_hub.Base.Dict
use mavlink_hub.Base.Dict.{Dict, lookup, lookup-insert, lookup-nil}
use mavlink_hub.Loader.{LibInfo}
use mavlink_hub.Json.Api.{JsonApi, nothing, just}
use mavlink_hub.Json.Config.{read_lib_entries, json_to_lib_list}
use mavlink_hub.Json.PlanLaws.{store}

-- No two entries have the same name.
abbrev pub no_repeats : Dict LibInfo → Bool
no_repeats [] = true
no_repeats ((name, info) ∷ rest) = not (is_some (lookup name rest)) && no_repeats rest

-- No entry of the first has a name of the second.
abbrev disjoint : Dict LibInfo → Dict LibInfo → Bool
disjoint [] list = true
disjoint ((name, info) ∷ rest) list = not (is_some (lookup name list)) && disjoint rest list

disjoint-insert :
    (es : Dict LibInfo) (name : String) (info : LibInfo) (list : Dict LibInfo)
    → disjoint es (Dict.insert name info list)
      ≡ (not (is_some (lookup name es)) && disjoint es list)
unfolding lookup
disjoint-insert [] name info list = ground (arith, lookup-nil {V = LibInfo} name)
disjoint-insert ((k, v) ∷ es) name info list = ground (
  arith,
  disjoint-insert es name info list,
  lookup-insert name k info list,
  eq_iff name k,
  eq_iff k name,
)

disjoint-nil : (es : Dict LibInfo) → disjoint es [] ≡ true
disjoint-nil [] = refl
disjoint-nil ((k, v) ∷ es) = ground (arith, disjoint-nil es, lookup-nil {V = LibInfo} k)

module _ (J : JsonApi) where
  -- The library that an element describes.
  abbrev pub library_of : J.Json → LibInfo
  library_of e = record {
    name = J.as_string (J.at e "name");
    path = J.as_string (J.at e "path");
    sym = J.as_string (J.at e "sym");
  }

  -- An element that has all three fields.
  abbrev pub is_complete : J.Json → Bool
  is_complete e = J.contains e "name" && (J.contains e "path" && J.contains e "sym")

  -- The elements by their names, in order.
  abbrev pub lib_entries : List J.Json → Dict LibInfo
  lib_entries [] = []
  lib_entries (e ∷ es) = (J.as_string (J.at e "name"), library_of e) ∷ lib_entries es

  abbrev pub all_complete : List J.Json → Bool
  all_complete [] = true
  all_complete (e ∷ es) = is_complete e && all_complete es

  read_lib_entries_lem :
      (es : List J.Json) (list : Dict LibInfo)
      → read_lib_entries J es list ≡ (
          if all_complete es && (disjoint (lib_entries es) list && no_repeats (lib_entries es))
          then just (store (lib_entries es) list)
          else nothing)
  unfolding read_lib_entries
  read_lib_entries_lem [] list = refl
  read_lib_entries_lem (e ∷ es) list =
      let name = J.as_string (J.at e "name") in
      ground (
        arith,
        read_lib_entries_lem es (Dict.insert name (library_of e) list),
        disjoint-insert (lib_entries es) name (library_of e) list,
      )

  -- A library list is read exactly when it is an array, each of its elements has a name, a path and a
  -- symbol, and no two have the same name; the list then has the elements by their names.
  pub json_to_lib_list_lem :
      (j : J.Json)
      → let es = J.array_range j in
        json_to_lib_list J j ≡ (
          if J.is_array j && (all_complete es && no_repeats (lib_entries es))
          then just (store (lib_entries es) [])
          else nothing)
  unfolding json_to_lib_list
  json_to_lib_list_lem j = ground (
    arith,
    read_lib_entries_lem (J.array_range j) [],
    disjoint-nil (lib_entries (J.array_range j)),
  )
