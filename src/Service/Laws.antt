-- ===== src/Service/Laws.antt =====
-- The commands of src/app/app_service/AppService.cpp, `executeCommand`.
use mavlink_hub.Base.{
  String, ◌≡◌, refl, ◌∙◌, ap, subst, eq_iff, true, false, Option, Option-cases, is_some, none, some,
  List, [], ◌∷◌, ◌≢◌, ◌↔◌, inl, inr, arith,
}
use mavlink_hub.Base.Dict.{NodupKeys, lookup}
use mavlink_hub.Sdk.{Sdk}
use mavlink_hub.Manager.Types.{discard, UserPlan}
use mavlink_hub.Manager.State.{Registries}
use mavlink_hub.Manager.Frame.{has}
use mavlink_hub.Manager.Queries
use mavlink_hub.Manager.Execute.{execute_plan}
use mavlink_hub.Manager.Discard.{HasInvalid, execute_plan_atomic}
use mavlink_hub.Json.Api.{JsonApi, thrown, nothing, just, Decoded}
use mavlink_hub.Json.Decode.{string_to_user_plan}
use mavlink_hub.Json.PlanKeys.{json_to_user_plan-NodupKeys}
use mavlink_hub.Service.Commands.{
  AppServiceCommandType, load_plan_from_path, load_plan_from_json_text, apply_current_plan,
  delete_current_plan, get_agent_status,
}
use mavlink_hub.Service.Execute.{
  CommandResult, AppServiceCommand, AppService, Outside, Response, keep_plan, load_from_path,
  apply_plan, query, run_case, execute_command,
}

-- Several commands, one after the other; an exception ends the run.
abbrev pub execute_commands :
    (S : Sdk) (J : JsonApi)
    → Outside
    → Registries S
    → List AppServiceCommand
    → AppService S
    → Option (AppService S)
execute_commands S J outside reg [] service = some service
execute_commands S J outside reg (cmd ∷ cmds) service =
    elim (execute_command S J outside reg cmd service) [
      | none ↦ none
      | some answered ↦ execute_commands S J outside reg cmds answered.0
    ]

abbrev pub load_and_apply : String → List AppServiceCommand
load_and_apply text =
    record { cmd_type = load_plan_from_json_text; payload = text }
    ∷ record { cmd_type = apply_current_plan; payload = "" }
    ∷ []

-- A predicate of the answer, when there is one.
abbrev pub Answers {ℓ} : {A : Type ℓ} → (A → Type 0) → Option A → Type 0
Answers P none = Unit {0}
Answers P (some a) = P a

pub Answers-elim {ℓ} :
    {A : Type ℓ} (P : A → Type 0) (o : Option A) (a : A) → Answers P o → o ≡ some a → P a
Answers-elim P o a h e = subst (Answers P) e h

module _ (S : Sdk) (J : JsonApi) (outside : Outside) (reg : Registries S) where
  -- What a command that answered with failure did to the service.
  abbrev KeepsOnFailure : AppService S → AppService S × CommandResult → Type 0
  KeepsOnFailure service answered = answered.1.success ≡ false → answered.0 ≡ service

  keep_plan-KeepsOnFailure :
      (service : AppService S) (plan : Decoded UserPlan)
      → Answers (KeepsOnFailure service) (keep_plan S J service plan)
  unfolding keep_plan
  keep_plan-KeepsOnFailure service thrown = tt
  keep_plan-KeepsOnFailure service nothing = λ h. refl
  keep_plan-KeepsOnFailure service (just plan) = λ h. cc

  load_from_path-KeepsOnFailure :
      (path : String) (service : AppService S)
      → Answers (KeepsOnFailure service) (load_from_path S J outside path service)
  unfolding load_from_path
  load_from_path-KeepsOnFailure path service = elim (Option-cases (outside.open_file path)) [
    | inl e ↦ rw (e, Answers, load_from_path) (λ h. refl)
    | inr (text, e) ↦ rw (e, Answers, load_from_path) (keep_plan-KeepsOnFailure service _)
  ]

  apply_plan-KeepsOnFailure :
      (service : AppService S) → KeepsOnFailure service (apply_plan S J reg service)
  unfolding apply_plan
  apply_plan-KeepsOnFailure service = elim (Option-cases service.current_plan) [
    | inl e ↦ rw e (λ h. refl)
    | inr (plan, e) ↦ rw e (λ h. cc)
  ]

  run_case-KeepsOnFailure :
      (type : AppServiceCommandType) (payload : String) (service : AppService S)
      → Answers (KeepsOnFailure service) (run_case S J outside reg type payload service)
  unfolding run_case
  run_case-KeepsOnFailure load_plan_from_path payload service =
      load_from_path-KeepsOnFailure payload service
  run_case-KeepsOnFailure load_plan_from_json_text payload service =
      keep_plan-KeepsOnFailure service _
  run_case-KeepsOnFailure apply_current_plan payload service = apply_plan-KeepsOnFailure service
  run_case-KeepsOnFailure delete_current_plan payload service = λ h. cc
  run_case-KeepsOnFailure type payload service = λ h. refl

  -- A command that answers with failure leaves the service as it was, its plan and its manager.
  pub execute_command_failed :
      (cmd : AppServiceCommand) (service service' : AppService S) (result : CommandResult)
      → execute_command S J outside reg cmd service ≡ some (service', result)
      → result.success ≡ false
      → service' ≡ service
  unfolding execute_command
  execute_command_failed cmd service service' result e =
      Answers-elim (KeepsOnFailure service) _ (service', result)
        (run_case-KeepsOnFailure cmd.cmd_type cmd.payload service) e

  abbrev KeepsManager : AppService S → AppService S × CommandResult → Type 0
  KeepsManager service answered = answered.0.manager ≡ service.manager

  keep_plan-KeepsManager :
      (service : AppService S) (plan : Decoded UserPlan)
      → Answers (KeepsManager service) (keep_plan S J service plan)
  unfolding keep_plan
  keep_plan-KeepsManager service thrown = tt
  keep_plan-KeepsManager service nothing = refl
  keep_plan-KeepsManager service (just plan) = refl

  load_from_path-KeepsManager :
      (path : String) (service : AppService S)
      → Answers (KeepsManager service) (load_from_path S J outside path service)
  unfolding load_from_path
  load_from_path-KeepsManager path service = elim (Option-cases (outside.open_file path)) [
    | inl e ↦ rw (e, Answers, load_from_path) refl
    | inr (text, e) ↦ rw (e, Answers, load_from_path) (keep_plan-KeepsManager service _)
  ]

  pub run_case-KeepsManager :
      (type : AppServiceCommandType) (payload : String) (service : AppService S)
      → type ≢ apply_current_plan
      → Answers (KeepsManager service) (run_case S J outside reg type payload service)
  unfolding run_case
  run_case-KeepsManager load_plan_from_path payload service n =
      load_from_path-KeepsManager payload service
  run_case-KeepsManager load_plan_from_json_text payload service n =
      keep_plan-KeepsManager service _
  run_case-KeepsManager apply_current_plan payload service n = absurd (n refl)
  run_case-KeepsManager type payload service n = refl

  -- No command but apply_current_plan changes the manager.
  pub execute_command-manager :
      (cmd : AppServiceCommand) (service service' : AppService S) (result : CommandResult)
      → cmd.cmd_type ≢ apply_current_plan
      → execute_command S J outside reg cmd service ≡ some (service', result)
      → service'.manager ≡ service.manager
  unfolding execute_command
  execute_command-manager cmd service service' result n e =
      Answers-elim (KeepsManager service) _ (service', result)
        (run_case-KeepsManager cmd.cmd_type cmd.payload service n) e

  -- The two commands load_plan_from_json_text and apply_current_plan together execute the plan that
  -- the text decodes to, and no other; the service keeps it.
  pub load_and_apply_lem :
      (text : String) (plan : UserPlan) (service : AppService S)
      → string_to_user_plan J outside.uninit_policy text ≡ just plan
      → execute_commands S J outside reg (load_and_apply text) service
        ≡ some (record {
          current_plan = some plan;
          manager = (execute_plan S reg plan service.manager).0;
        })
  unfolding execute_command run_case keep_plan apply_plan
  load_and_apply_lem text plan service e =
      ap
        (λ d. elim (keep_plan S J service d) [
          | none ↦ none
          | some answered ↦
              execute_commands S J outside reg
                (record { cmd_type = apply_current_plan; payload = "" } ∷ []) answered.0
        ])
        e

  string_to_user_plan-NodupKeys :
      (text : String) (plan : UserPlan)
      → string_to_user_plan J outside.uninit_policy text ≡ just plan
      → NodupKeys plan.endpoint_list × NodupKeys plan.agent_list
  unfolding string_to_user_plan
  string_to_user_plan-NodupKeys text plan e = elim (Option-cases (J.parse text)) [
    | inl h ↦ cc
    | inr (j, h) ↦ json_to_user_plan-NodupKeys J outside.uninit_policy j plan (cc)
  ]

  -- Loading and applying the text of a plan under DISCARD with an invalid entry leaves the manager
  -- as it was: no endpoint is added and no agent is created.
  pub load_and_apply_discarded :
      (text : String) (plan : UserPlan) (service : AppService S)
      → string_to_user_plan J outside.uninit_policy text ≡ just plan
      → plan.policy ≡ discard
      → HasInvalid S reg plan service.manager
      → execute_commands S J outside reg (load_and_apply text) service
        ≡ some (record { current_plan = some plan; manager = service.manager })
  load_and_apply_discarded text plan service e p bad =
      let u = string_to_user_plan-NodupKeys text plan e in
      load_and_apply_lem text plan service e
      ∙ ap (λ m. some (record { current_plan = some plan; manager = m }))
          (execute_plan_atomic S reg plan service.manager p u.0 u.1 bad).0

  -- The command was answered, with success.
  abbrev pub Succeeds : Response S J → Type 0
  Succeeds none = false ≡ true
  Succeeds (some answered) = answered.1.success ≡ true

  query-success :
      (what kind name : String) (found : Option String)
      → ((query S J what kind name found).success ≡ true) ↔ (name ≢ "") × (is_some found ≡ true)
  unfolding query
  query-success what kind name none = ground (arith, eq_iff name "")
  query-success what kind name (some text) = ground (arith, eq_iff name "")

  -- The status of an agent is retrieved exactly when a name is given and the manager has an agent of
  -- that name.
  pub get_agent_status_iff :
      (name : String) (service : AppService S)
      → Succeeds (
          execute_command S J outside reg
            (record { cmd_type = get_agent_status; payload = name })
            service)
        ↔ (name ≢ "") × (has name service.manager.agents ≡ true)
  unfolding execute_command run_case Queries.get_agent_state
  get_agent_status_iff name service = elim (Option-cases (lookup name service.manager.agents)) [
    | inl e ↦ rw e (query-success "Agent status" "agent" name none)
    | inr (agent, e) ↦ rw e (query-success "Agent status" "agent" name (some _))
  ]
