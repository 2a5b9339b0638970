-- ===== src/Startup/Args.antt =====
-- src/app/startup/ArgsParser.cpp, `parseArgs`. What CLI11 makes of the arguments, the canonical path
-- of the file system and the files are parameters.
use mavlink_hub.Base.{
  String, ◌==◌, ◌≡◌, ◌≢◌, ◌↔◌, ◌⊎◌, refl, subst, eq_iff, true, Bool-cases, Option, Option-cases,
  none, some, [], inl, inr, if◌then◌else◌, arith, is_some,
}
use mavlink_hub.Base.Count.{ℤ, pos}
use mavlink_hub.Json.Api.{JsonApi, Decoded, thrown, nothing, just}
use mavlink_hub.Json.Config.{AppConfig, text_to_app_config}
use mavlink_hub.Service.Execute.{Outside}

pub data Status : Type 0 where
  ok show_help fatal_error : Status

pub record ParseResult : Type 0 where
  pub status : Status
  pub exit_code : ℤ
  pub config : Option AppConfig

-- What `app.parse` does: it throws, and then `app.exit` gives an exit code, or it leaves the value of
-- the option, which is empty where the option is missing.
pub data Arguments : Type 0 where
  refused : ℤ → Arguments
  given : String → Arguments

-- `AppConfig app_cfg;`
abbrev pub default_config : Outside → AppConfig
default_config outside = record {
  agent_lib_list = [];
  transport_lib_list = [];
  path_to_extra_lib_list = "";
  path_to_startup_user_plan = "";
  apply_user_plan_on_startup = outside.uninit_apply;
}

abbrev pub fatal : ParseResult
fatal = record { status = fatal_error; exit_code = pos 1; config = none }

abbrev pub succeeded : AppConfig → ParseResult
succeeded config = record { status = ok; exit_code = pos 0; config = some config }

module _ (J : JsonApi) (outside : Outside) (canonical : String → Option String) where
  -- `none` is an exception that leaves `parseArgs`.
  unfoldable pub keep_config : Decoded AppConfig → Option ParseResult
  keep_config thrown = none
  keep_config nothing = some fatal
  keep_config (just config) = some (succeeded config)

  unfoldable pub read_config_file : Option String → Option ParseResult
  unfolding keep_config
  read_config_file none = some fatal
  read_config_file (some text) = keep_config (text_to_app_config J outside.uninit_apply text)

  unfoldable pub open_config_file : Option String → Option ParseResult
  unfolding read_config_file
  open_config_file none = some fatal
  open_config_file (some path) = read_config_file (outside.open_file path)

  unfoldable pub parse_args : Arguments → Option ParseResult
  unfolding open_config_file
  parse_args (refused code) = some (record { status = show_help; exit_code = code; config = none })
  parse_args (given path) =
      if path == ""
      then some (succeeded (default_config outside))
      else open_config_file (canonical path)

  -- The three outcomes.
  abbrev pub IsResult : ParseResult → Type 0
  IsResult r =
      ((code : ℤ) × (r ≡ record { status = show_help; exit_code = code; config = none }))
      ⊎ (r ≡ fatal)
      ⊎ ((config : AppConfig) × (r ≡ succeeded config))

  abbrev Results : Option ParseResult → Type 0
  Results none = Unit {0}
  Results (some r) = IsResult r

  open_config_file-Results : (file : Option String) → Results (open_config_file file)
  unfolding open_config_file
  open_config_file-Results none = inr (inl refl)
  open_config_file-Results (some path) = read (outside.open_file path)
    where
      keep : (d : Decoded AppConfig) → Results (keep_config d)
      keep thrown = tt
      keep nothing = inr (inl refl)
      keep (just config) = inr (inr (config, refl))

      read : (text : Option String) → Results (read_config_file text)
      read none = inr (inl refl)
      read (some text) = keep (text_to_app_config J outside.uninit_apply text)

  all-Results : (args : Arguments) → Results (parse_args args)
  unfolding parse_args
  all-Results (refused code) = inl (code, refl)
  all-Results (given path) = elim (Bool-cases (path == "")) [
    | inl e ↦ rw (e, Results, parse_args) (inr (inr (default_config outside, refl)))
    | inr e ↦ rw (e, Results, parse_args) (open_config_file-Results (canonical path))
  ]

  pub parse_args-IsResult :
      (args : Arguments) (r : ParseResult) → parse_args args ≡ some r → IsResult r
  parse_args-IsResult args r e = subst Results e (all-Results args)

  keep_config_iff :
      (d : Decoded AppConfig) (config : AppConfig)
      → (keep_config d ≡ some (succeeded config)) ↔ (d ≡ just config)
  unfolding keep_config
  keep_config_iff thrown config = ground arith
  keep_config_iff nothing config = ground arith
  keep_config_iff (just c) config = ground arith

  -- A result has a configuration exactly when its status is Ok, so `App::run`, which returns for the
  -- other two, finds one.
  pub parse_args-HasConfig :
      (args : Arguments) (r : ParseResult)
      → parse_args args ≡ some r
      → (r.status ≡ ok) ↔ (is_some r.config ≡ true)
  parse_args-HasConfig args r e = elim (parse_args-IsResult args r e) [
    | inl (code, h) ↦ ground (arith, h)
    | inr (inl h) ↦ ground (arith, h)
    | inr (inr (config, h)) ↦ ground (arith, h)
  ]

  -- With a config path, a result has the status Ok and a given configuration exactly when the path
  -- has a canonical form, the file opens, and its text decodes to that configuration.
  pub parse_args_iff :
      (path : String) (config : AppConfig)
      → path ≢ ""
      → (parse_args (given path) ≡ some (succeeded config)) ↔ (
          (file : String) × (text : String) × (canonical path ≡ some file)
          × (outside.open_file file ≡ some text)
          × (text_to_app_config J outside.uninit_apply text ≡ just config))
  unfolding parse_args open_config_file read_config_file keep_config
  parse_args_iff path config n = elim (Option-cases (canonical path)) [
    | inl e ↦ ground (arith, eq_iff path "")
    | inr (file, e) ↦ elim (Option-cases (outside.open_file file)) [
      | inl f ↦ ground (arith, eq_iff path "")
      | inr (text, f) ↦ (
        λ h. (
          file,
          text,
          e,
          f,
          (keep_config_iff (text_to_app_config J outside.uninit_apply text) config).0
              (ground (arith, eq_iff path "")),
        ),
        λ (file', text', e', f', d). ground (arith, eq_iff path ""),
      )
    ]
  ]
