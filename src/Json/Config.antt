-- ===== src/Json/Config.antt =====
-- The readers of library lists and of the app config in src/common/json_utils/JsonUtils.cpp.
use mavlink_hub.Base.{
  String, Bool, true, false, not, ◌||◌, none, some, List, [], ◌∷◌, if◌then◌else◌, is_some,
}
use mavlink_hub.Base.Dict
use mavlink_hub.Base.Dict.{Dict}
use mavlink_hub.Loader.{LibInfo}
use mavlink_hub.Json.Api.{JsonApi, Decoded, nothing, just, ◌>>=◌, call}

-- src/app/types/AppConfig.h
pub record AppConfig : Type 0 where
  pub agent_lib_list : Dict LibInfo
  pub transport_lib_list : Dict LibInfo
  pub path_to_extra_lib_list : String
  pub path_to_startup_user_plan : String
  pub apply_user_plan_on_startup : Bool

module _ (J : JsonApi) where
  abbrev pub lib_info_of : J.Json → LibInfo
  lib_info_of e = record {
    name = J.as_string (J.at e "name");
    path = J.as_string (J.at e "path");
    sym = J.as_string (J.at e "sym");
  }

  abbrev pub is_lib_entry : J.Json → Bool
  is_lib_entry e =
      not (not (J.contains e "name") || not (J.contains e "path") || not (J.contains e "sym"))

  unfoldable pub read_lib_entries : List J.Json → Dict LibInfo → Decoded (Dict LibInfo)
  read_lib_entries [] lib_list = just lib_list
  read_lib_entries (e ∷ es) lib_list = elim (is_lib_entry e) [
    | false ↦ nothing
    | true ↦ elim (is_some (Dict.lookup (lib_info_of e).name lib_list)) [
      | true ↦ nothing
      | false ↦ read_lib_entries es (Dict.insert (lib_info_of e).name (lib_info_of e) lib_list)
    ]
  ]

  unfoldable pub json_to_lib_list : J.Json → Decoded (Dict LibInfo)
  json_to_lib_list j = if not (J.is_array j) then nothing else read_lib_entries (J.array_range j) []

  -- `fstreamToLibList` on the text of the stream.
  unfoldable pub text_to_lib_list : String → Decoded (Dict LibInfo)
  text_to_lib_list text = elim (J.parse text) [ none ↦ nothing | some j ↦ json_to_lib_list j ]

  -- A section of the config that may be missing, and then keeps what the field holds.
  unfoldable pub optional {ℓ} :
      {A : Type ℓ} → J.Json → String → A → (J.Json → Decoded A) → Decoded A
  optional j key old read = if J.contains j key then read (J.at j key) else just old

  -- `uninit` is what `apply_user_plan_on_startup` of a fresh `AppConfig` happens to hold.
  unfoldable pub json_to_app_config : Bool → J.Json → Decoded AppConfig
  unfolding optional
  json_to_app_config uninit j = do
    agent_lib_list ← optional j "agent_lib_list" [] json_to_lib_list
    transport_lib_list ← optional j "transport_lib_list" [] json_to_lib_list
    extra ← optional j "path_to_extra_lib_list" "" (λ v. call (J.weakly_canonical (J.as_string v)))
    plan ←
        optional j "path_to_startup_user_plan" "" (λ v. call (J.weakly_canonical (J.as_string v)))
    apply ← optional j "apply_user_plan_on_startup" uninit (λ v. call (J.as_bool v))
    just (record {
      agent_lib_list = agent_lib_list;
      transport_lib_list = transport_lib_list;
      path_to_extra_lib_list = extra;
      path_to_startup_user_plan = plan;
      apply_user_plan_on_startup = apply;
    })

  -- `fstreamToAppConfig` on the text of the stream.
  unfoldable pub text_to_app_config : Bool → String → Decoded AppConfig
  text_to_app_config uninit text = elim (J.parse text) [
    | none ↦ nothing
    | some j ↦ json_to_app_config uninit j
  ]
