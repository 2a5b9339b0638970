-- ===== src/Startup/Begin.antt =====
-- src/app/App.cpp, `App::run` up to the start of the threads: the arguments are read, and their
-- configuration is applied to the parts.
use mavlink_hub.Base.{
  String, ◌≡◌, ◌↔◌, ◌⊎◌, refl, ap, sym, ◌∙◌, Option, Option-cases, none, some, inl, inr, arith,
}
use mavlink_hub.Base.Count.{ℤ, pos}
use mavlink_hub.Common.{OperationResult}
use mavlink_hub.Sdk.{Sdk}
use mavlink_hub.Registry.Admin.{AgentRegistry}
use mavlink_hub.Loader.{DynamicLibraries}
use mavlink_hub.Json.Api.{JsonApi}
use mavlink_hub.Json.Config.{AppConfig}
use mavlink_hub.Service.Execute.{Outside}
use mavlink_hub.Startup.{Hub, Applied, apply_config}
use mavlink_hub.Startup.Args.{
  Status, ok, show_help, fatal_error, ParseResult, Arguments, succeeded, parse_args,
  parse_args-IsResult,
}

module _ {S : Sdk} (J : JsonApi) (L : DynamicLibraries S) (outside : Outside)
    (registry : AgentRegistry) (canonical : String → Option String) where
  -- `run` returns an exit code, or goes on with the parts as the configuration leaves them.
  pub data Begun : Type 0 where
    exits : ℤ → Begun
    goes_on : Hub J L outside registry → Begun

  -- The result of `applyConfig` is not looked at.
  unfoldable pub keep_hub : Applied J L outside registry → Option Begun
  keep_hub none = none
  keep_hub (some (hub, result)) = some (goes_on hub)

  -- `parse_result.config.value()` throws without a value. `none` is an exception that leaves `run`.
  unfoldable pub apply_parsed : Option AppConfig → Hub J L outside registry → Option Begun
  unfolding keep_hub
  apply_parsed none hub = none
  apply_parsed (some config) hub = keep_hub (apply_config J L outside registry config hub)

  abbrev pub after_parse : Status → ParseResult → Hub J L outside registry → Option Begun
  after_parse show_help r hub = some (exits r.exit_code)
  after_parse fatal_error r hub = some (exits r.exit_code)
  after_parse ok r hub = apply_parsed r.config hub

  unfoldable pub begin_run : Arguments → Hub J L outside registry → Option Begun
  unfolding apply_parsed
  begin_run args hub = elim (parse_args J outside canonical args) [
    | none ↦ none
    | some r ↦ after_parse r.status r hub
  ]

  -- The configuration that is applied, and what that leaves.
  abbrev pub Applies : Arguments → Hub J L outside registry → Applied J L outside registry → Type 0
  Applies args hub applied =
      (config : AppConfig) × (parse_args J outside canonical args ≡ some (succeeded config))
      × (apply_config J L outside registry config hub ≡ applied)

  keep_hub-none : (a : Applied J L outside registry) → (keep_hub a ≡ none) → a ≡ none
  unfolding keep_hub
  keep_hub-none none e = refl
  keep_hub-none (some (hub, result)) e = ground arith

  keep_hub-some :
      (a : Applied J L outside registry) (hub : Hub J L outside registry)
      → keep_hub a ≡ some (goes_on hub)
      → (result : OperationResult) × (a ≡ some (hub, result))
  unfolding keep_hub
  keep_hub-some none hub e = ground arith
  keep_hub-some (some (hub', result)) hub e = (result, ground arith)

  begin_run-result :
      (args : Arguments) (hub : Hub J L outside registry) (r : ParseResult)
      → parse_args J outside canonical args ≡ some r
      → begin_run args hub ≡ after_parse r.status r hub
  unfolding begin_run
  begin_run-result args hub r e = rw (e, begin_run) refl

  begin_run-succeeded :
      (args : Arguments) (hub : Hub J L outside registry) (config : AppConfig)
      → parse_args J outside canonical args ≡ some (succeeded config)
      → begin_run args hub ≡ keep_hub (apply_config J L outside registry config hub)
  unfolding apply_parsed
  begin_run-succeeded args hub config e = begin_run-result args hub (succeeded config) e

  begin_run-cases :
      (args : Arguments) (hub : Hub J L outside registry)
      → ((parse_args J outside canonical args ≡ none) × (begin_run args hub ≡ none))
        ⊎ ((code : ℤ) × (begin_run args hub ≡ some (exits code)))
        ⊎ ((config : AppConfig) × (parse_args J outside canonical args ≡ some (succeeded config)))
  unfolding begin_run
  begin_run-cases args hub = elim (Option-cases (parse_args J outside canonical args)) [
    | inl e ↦ inl (e, rw (e, begin_run) refl)
    | inr (r, e) ↦ elim (parse_args-IsResult J outside canonical args r e) [
      | inl (code, h) ↦ inr (inl (code, rw (e, h, begin_run) refl))
      | inr (inl h) ↦ inr (inl (pos 1, rw (e, h, begin_run) refl))
      | inr (inr (config, h)) ↦ inr (inr (config, e ∙ ap some h))
    ]
  ]

  begin_run-applied :
      (args : Arguments) (hub : Hub J L outside registry) (applied : Applied J L outside registry)
      → Applies args hub applied
      → begin_run args hub ≡ keep_hub applied
  begin_run-applied args hub applied (config, p, a) =
      begin_run-succeeded args hub config p ∙ ap keep_hub a

  begin_run-throws :
      (args : Arguments) (hub : Hub J L outside registry)
      → begin_run args hub ≡ none
      → (parse_args J outside canonical args ≡ none) ⊎ Applies args hub none
  begin_run-throws args hub b = elim (begin_run-cases args hub) [
    | inl (p, b') ↦ inl p
    | inr (inl (code, b')) ↦ ground (arith, b')
    | inr (inr (config, p)) ↦
        inr (config, p, keep_hub-none _ (sym (begin_run-succeeded args hub config p) ∙ b))
  ]

  begin_run-goes_on :
      (args : Arguments) (hub after : Hub J L outside registry)
      → begin_run args hub ≡ some (goes_on after)
      → (result : OperationResult) × Applies args hub (some (after, result))
  begin_run-goes_on args hub after b = elim (begin_run-cases args hub) [
    | inl (p, b') ↦ ground (arith, b')
    | inr (inl (code, b')) ↦ ground (arith, b')
    | inr (inr (config, p)) ↦
        let kept = keep_hub-some _ after (sym (begin_run-succeeded args hub config p) ∙ b) in
        (kept.0, (config, p, kept.1))
  ]

  -- Before `run` starts the signal handler, it is left by an exception exactly when the reading of the
  -- arguments is, or the application of the configuration that they lead to: there is always a value
  -- for it to apply. It gets to that start with the parts exactly as that application leaves them,
  -- whatever result it reports. What the start itself throws is not part of this.
  pub begin_run_iff :
      (args : Arguments) (hub : Hub J L outside registry)
      → ((begin_run args hub ≡ none)
          ↔ ((parse_args J outside canonical args ≡ none) ⊎ Applies args hub none))
        × ((after : Hub J L outside registry)
            → (begin_run args hub ≡ some (goes_on after))
              ↔ ((result : OperationResult) × Applies args hub (some (after, result))))
  unfolding keep_hub begin_run
  begin_run_iff args hub = (
    (
      begin_run-throws args hub,
      λ h. elim h [
        | inl e ↦ rw (e, begin_run) refl
        | inr applies ↦ begin_run-applied args hub none applies
      ],
    ),
    λ after.
        (begin_run-goes_on args hub after, λ h. begin_run-applied args hub (some (after, h.0)) h.1),
  )
