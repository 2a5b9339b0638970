-- ===== src/Json/ConfigLaws.antt =====
-- What `fstreamToAppConfig` of src/common/json_utils/JsonUtils.cpp reads from the text of a config.
use mavlink_hub.Base.{
  String, ◌≡◌, refl, sym, subst, ◌∙◌, ap, ◌↔◌, ◌⊎◌, inl, inr, Bool, true, false, Bool-cases, Option,
  Option-cases, none, some, [],
}
use mavlink_hub.Base.Dict.{Dict}
use mavlink_hub.Loader.{LibInfo}
use mavlink_hub.Json.Api.{JsonApi, Decoded, thrown, nothing, just, ◌>>=◌, call}
use mavlink_hub.Json.Config.{
  AppConfig, optional, json_to_lib_list, json_to_app_config, text_to_app_config,
}

bind_iff {ℓ κ} :
    {A : Type ℓ} {B : Type κ} (m : Decoded A) (f : A → Decoded B) (b : B)
    → ((m >>= f) ≡ just b) ↔ ((a : A) × (m ≡ just a) × (f a ≡ just b))
bind_iff thrown f b = (λ e. cc, λ (a, e, g). cc)
bind_iff nothing f b = (λ e. cc, λ (a, e, g). cc)
bind_iff (just a) f b = (λ e. (a, refl, e), λ (a', e, g). cc)

just-injective {ℓ} : {A : Type ℓ} (a b : A) → ◌≡◌ {A = Decoded A} (just a) (just b) → a ≡ b
just-injective a b e = cc

call_iff {ℓ} : {A : Type ℓ} (o : Option A) (a : A) → (call o ≡ just a) ↔ (o ≡ some a)
call_iff none a = (λ e. cc, λ e. cc)
call_iff (some b) a = (λ e. cc, λ e. cc)

module _ (J : JsonApi) where
  -- A section of the document: it is there and reads as the value, or it is missing and the value is
  -- the one that the field started with.
  abbrev pub Section {ℓ} : {A : Type ℓ} → J.Json → String → A → (J.Json → A → Type ℓ) → A → Type ℓ
  Section j key old ReadsAs value =
      ((J.contains j key ≡ true) × ReadsAs (J.at j key) value)
      ⊎ ((J.contains j key ≡ false) × (value ≡ old))

  optional_there {ℓ} :
      {A : Type ℓ} (j : J.Json) (key : String) (old : A) (read : J.Json → Decoded A)
      → J.contains j key ≡ true
      → optional J j key old read ≡ read (J.at j key)
  unfolding optional
  optional_there j key old read there = rw (there, optional) refl

  optional_missing {ℓ} :
      {A : Type ℓ} (j : J.Json) (key : String) (old : A) (read : J.Json → Decoded A)
      → J.contains j key ≡ false
      → optional J j key old read ≡ just old
  unfolding optional
  optional_missing j key old read missing = rw (missing, optional) refl

  optional_iff {ℓ} :
      {A : Type ℓ} (j : J.Json) (key : String) (old : A) (read : J.Json → Decoded A)
      (ReadsAs : J.Json → A → Type ℓ) (value : A)
      → ((v : J.Json) → (read v ≡ just value) ↔ ReadsAs v value)
      → (optional J j key old read ≡ just value) ↔ Section j key old ReadsAs value
  optional_iff j key old read ReadsAs value r = elim (Bool-cases (J.contains j key)) [
    | inl there ↦
        let same = optional_there j key old read there in
        (
          λ e. inl (there, (r (J.at j key)).0 (sym same ∙ e)),
          λ h. elim h [ inl (c, v) ↦ same ∙ (r (J.at j key)).1 v | inr (c, e) ↦ cc (there, c) ],
        )
    | inr missing ↦
        let same = optional_missing j key old read missing in
        (
          λ e. inr (missing, sym (just-injective old value (sym same ∙ e))),
          λ h. elim h [ inl (c, v) ↦ cc (missing, c) | inr (c, e) ↦ same ∙ ap just (sym e) ],
        )
  ]

  -- The library lists, the paths and the flag of a config.
  abbrev pub ReadsLibs : J.Json → Dict LibInfo → Type 0
  ReadsLibs v list = json_to_lib_list J v ≡ just list

  abbrev pub ReadsPath : J.Json → String → Type 0
  ReadsPath v path = J.weakly_canonical (J.as_string v) ≡ some path

  abbrev pub ReadsFlag : J.Json → Bool → Type 0
  ReadsFlag v flag = J.as_bool v ≡ some flag

  -- The document reads as the config.
  pub record IsConfigOf (uninit : Bool) (j : J.Json) (config : AppConfig) : Type 0 where
    pub agent_libs : Section j "agent_lib_list" [] ReadsLibs config.agent_lib_list
    pub transport_libs : Section j "transport_lib_list" [] ReadsLibs config.transport_lib_list
    pub extra_path : Section j "path_to_extra_lib_list" "" ReadsPath config.path_to_extra_lib_list
    pub plan_path :
        Section j "path_to_startup_user_plan" "" ReadsPath config.path_to_startup_user_plan
    pub apply_flag :
        Section j "apply_user_plan_on_startup" uninit ReadsFlag config.apply_user_plan_on_startup

  libs_iff :
      (j : J.Json) (key : String) (value : Dict LibInfo)
      → (optional J j key [] (json_to_lib_list J) ≡ just value) ↔ Section j key [] ReadsLibs value
  libs_iff j key value =
      optional_iff j key [] (json_to_lib_list J) ReadsLibs value (λ v. (λ e. e, λ e. e))

  path_iff :
      (j : J.Json) (key value : String)
      → (optional J j key "" (λ v. call (J.weakly_canonical (J.as_string v))) ≡ just value)
        ↔ Section j key "" ReadsPath value
  path_iff j key value =
      optional_iff j key "" (λ v. call (J.weakly_canonical (J.as_string v))) ReadsPath value
        (λ v. call_iff (J.weakly_canonical (J.as_string v)) value)

  flag_iff :
      (j : J.Json) (key : String) (old value : Bool)
      → (optional J j key old (λ v. call (J.as_bool v)) ≡ just value)
        ↔ Section j key old ReadsFlag value
  flag_iff j key old value =
      optional_iff j key old (λ v. call (J.as_bool v)) ReadsFlag value
        (λ v. call_iff (J.as_bool v) value)

  read-IsConfigOf :
      (uninit : Bool) (j : J.Json) (config : AppConfig)
      → json_to_app_config J uninit j ≡ just config
      → IsConfigOf uninit j config
  unfolding json_to_app_config
  read-IsConfigOf uninit j config e =
      let (agents, a, e1) = (bind_iff _ _ _).0 e in
      let (transports, t, e2) = (bind_iff _ _ _).0 e1 in
      let (extra, x, e3) = (bind_iff _ _ _).0 e2 in
      let (plan, p, e4) = (bind_iff _ _ _).0 e3 in
      let (apply, f, e5) = (bind_iff _ _ _).0 e4 in
      subst (IsConfigOf uninit j) (just-injective _ _ e5) (record {
        agent_libs = (libs_iff j "agent_lib_list" agents).0 a;
        transport_libs = (libs_iff j "transport_lib_list" transports).0 t;
        extra_path = (path_iff j "path_to_extra_lib_list" extra).0 x;
        plan_path = (path_iff j "path_to_startup_user_plan" plan).0 p;
        apply_flag = (flag_iff j "apply_user_plan_on_startup" uninit apply).0 f;
      })

  IsConfigOf-read :
      (uninit : Bool) (j : J.Json) (config : AppConfig)
      → IsConfigOf uninit j config
      → json_to_app_config J uninit j ≡ just config
  unfolding json_to_app_config
  IsConfigOf-read uninit j config c =
      let a = (libs_iff j "agent_lib_list" config.agent_lib_list).1 c.agent_libs in
      let t = (libs_iff j "transport_lib_list" config.transport_lib_list).1 c.transport_libs in
      let x = (path_iff j "path_to_extra_lib_list" config.path_to_extra_lib_list).1 c.extra_path in
      let p =
        (path_iff j "path_to_startup_user_plan" config.path_to_startup_user_plan).1 c.plan_path in
      let f =
        (flag_iff j "apply_user_plan_on_startup" uninit config.apply_user_plan_on_startup).1
          c.apply_flag in
      rw (a, t, x, p, f) refl

  unparsed :
      (uninit : Bool) (text : String)
      → J.parse text ≡ none
      → text_to_app_config J uninit text ≡ nothing
  unfolding text_to_app_config
  unparsed uninit text e = rw (e, text_to_app_config) refl

  parsed :
      (uninit : Bool) (text : String) (j : J.Json)
      → J.parse text ≡ some j
      → text_to_app_config J uninit text ≡ json_to_app_config J uninit j
  unfolding text_to_app_config
  parsed uninit text j e = rw (e, text_to_app_config) refl

  -- The text of a config file reads as a config exactly when it parses and each section of the
  -- document either reads as the config's field, the library lists as lists of libraries and the paths
  -- as what the file system makes of them, or is missing: then the lists and the paths are empty, and
  -- the flag is what an uninitialised field holds.
  pub text_to_app_config_iff :
      (uninit : Bool) (text : String) (config : AppConfig)
      → (text_to_app_config J uninit text ≡ just config)
        ↔ ((j : J.Json) × (J.parse text ≡ some j) × IsConfigOf uninit j config)
  text_to_app_config_iff uninit text config = elim (Option-cases (J.parse text)) [
    | inl e ↦ (λ h. cc (unparsed uninit text e, h), λ (j, e', c). cc (e, e'))
    | inr (j, e) ↦
        let same = parsed uninit text j e in
        (
          λ h. (j, e, read-IsConfigOf uninit j config (sym same ∙ h)),
          λ (j', e', c). parsed uninit text j' e' ∙ IsConfigOf-read uninit j' config c,
        )
  ]
