-- ===== src/Manager/Validity.antt =====
-- What `validatePlan` of src/manager/Manager.cpp reports of each entry of a plan.
use mavlink_hub.Base.{
  String, ◌≡◌, refl, ◌↔◌, true, eq_iff, Option, none, some, List, [], ◌∷◌, arith,
}
use mavlink_hub.Base.Dict
use mavlink_hub.Base.Dict.{Dict, NodupKeys, lookup, lookup-insert}
use mavlink_hub.Common.{OperationResult}
use mavlink_hub.Sdk.{Sdk, accepted}
use mavlink_hub.Manager.Types.{MavlinkEndpointEntry, AgentEntry, UserPlan}
use mavlink_hub.Manager.State.{Manager, Registries}
use mavlink_hub.Manager.Agents.{definition_of}
use mavlink_hub.Manager.Plan.{
  validate_endpoint, validate_agent, validate_endpoints, validate_agents, validate_plan, result_at,
}

-- What the report has for an entry of the plan, or for a name that the plan lacks.
abbrev pub ReportsOn {ℓ} : {V : Type ℓ} → (V → Type 0) → Option V → Option OperationResult → Type 0
ReportsOn P none r = r ≡ none
ReportsOn P (some spec) none = ⊥
ReportsOn P (some spec) (some r) = (r.success ≡ true) ↔ P spec

module _ (S : Sdk) (reg : Registries S) (m : Manager S) where
  -- The name is free, the type is registered, and its parser accepts the config.
  abbrev pub EndpointIsValid : String → MavlinkEndpointEntry → Type 0
  EndpointIsValid name spec =
      (lookup name m.endpoint_db ≡ none)
      × ((definition : S.TransportDefinition) × (config : S.TransportConfig) × (messages : List
            String)
          × (S.transport_at reg.transport_registry spec.type ≡ some definition)
          × (S.parse_transport_config definition spec.config ≡ accepted config messages))

  abbrev pub AgentIsValid : String → AgentEntry → Type 0
  AgentIsValid name spec =
      (lookup name m.agents ≡ none)
      × ((definition : S.AgentDefinition) × (config : S.AgentConfig) × (messages : List String)
          × (definition_of S reg spec.type ≡ some definition)
          × (S.parse_agent_config definition spec.config ≡ accepted config messages))

  pub validate_endpoint_iff :
      (name : String) (spec : MavlinkEndpointEntry)
      → ((validate_endpoint S reg m name spec).success ≡ true) ↔ EndpointIsValid name spec
  unfolding validate_endpoint
  validate_endpoint_iff name spec = ground arith

  pub validate_agent_iff :
      (name : String) (spec : AgentEntry)
      → ((validate_agent S reg m name spec).success ≡ true) ↔ AgentIsValid name spec
  unfolding validate_agent
  validate_agent_iff name spec = ground arith

  -- The map of results holds one result for each entry, on top of those that it held.
  pub validate_endpoints-lookup :
      (name : String) (plan : Dict MavlinkEndpointEntry) (results : Dict OperationResult)
      → NodupKeys plan
      → lookup name (validate_endpoints S reg m plan results) ≡ elim (lookup name plan) [
        | none ↦ lookup name results
        | some spec ↦ some (validate_endpoint S reg m name spec)
      ]
  unfolding validate_endpoints lookup
  validate_endpoints-lookup name [] results u = refl
  validate_endpoints-lookup name ((n, s) ∷ plan) results u = ground (
    arith,
    eq_iff n name,
    lookup-insert n name (validate_endpoint S reg m n s) results,
    validate_endpoints-lookup name plan (Dict.insert n (validate_endpoint S reg m n s) results) u.1,
  )

  pub validate_agents-lookup :
      (name : String) (plan : Dict AgentEntry) (results : Dict OperationResult)
      → NodupKeys plan
      → lookup name (validate_agents S reg m plan results) ≡ elim (lookup name plan) [
        | none ↦ lookup name results
        | some spec ↦ some (validate_agent S reg m name spec)
      ]
  unfolding validate_agents lookup
  validate_agents-lookup name [] results u = refl
  validate_agents-lookup name ((n, s) ∷ plan) results u = ground (
    arith,
    eq_iff n name,
    lookup-insert n name (validate_agent S reg m n s) results,
    validate_agents-lookup name plan (Dict.insert n (validate_agent S reg m n s) results) u.1,
  )

  -- The validity that `executePlan` reads for an entry of the plan.
  pub validity_of_endpoint :
      (plan : UserPlan) (name : String) (spec : MavlinkEndpointEntry)
      → NodupKeys plan.endpoint_list
      → lookup name plan.endpoint_list ≡ some spec
      → result_at name (validate_plan S reg plan m).endpoint_plan_result
        ≡ validate_endpoint S reg m name spec
  unfolding validate_plan result_at
  validity_of_endpoint plan name spec u e =
      ground (arith, validate_endpoints-lookup name plan.endpoint_list [] u)

  pub validity_of_agent :
      (plan : UserPlan) (name : String) (spec : AgentEntry)
      → NodupKeys plan.agent_list
      → lookup name plan.agent_list ≡ some spec
      → result_at name (validate_plan S reg plan m).agent_plan_result
        ≡ validate_agent S reg m name spec
  unfolding validate_plan result_at
  validity_of_agent plan name spec u e =
      ground (arith, validate_agents-lookup name plan.agent_list [] u)

  -- For every name: a plan's entry has a result, which is a success exactly when the entry is
  -- valid, and a name that the plan lacks has none. So for endpoints and for agents; the names of
  -- each list of the plan are distinct.
  pub validate_plan-ReportsOn :
      (plan : UserPlan) (name : String)
      → NodupKeys plan.endpoint_list
      → NodupKeys plan.agent_list
      → ReportsOn
          (EndpointIsValid name)
          (lookup name plan.endpoint_list)
          (lookup name (validate_plan S reg plan m).endpoint_plan_result)
        × ReportsOn
            (AgentIsValid name)
            (lookup name plan.agent_list)
            (lookup name (validate_plan S reg plan m).agent_plan_result)
  unfolding validate_plan lookup
  validate_plan-ReportsOn plan name ue ua = (
    rw (validate_endpoints-lookup name plan.endpoint_list [] ue)
        (endpoint (lookup name plan.endpoint_list)),
    rw (validate_agents-lookup name plan.agent_list [] ua) (agent (lookup name plan.agent_list)),
  )
    where
      endpoint :
          (o : Option MavlinkEndpointEntry)
          → ReportsOn
              (EndpointIsValid name)
              o
              (elim o [ none ↦ none | some spec ↦ some (validate_endpoint S reg m name spec) ])
      endpoint none = refl
      endpoint (some spec) = validate_endpoint_iff name spec

      agent :
          (o : Option AgentEntry)
          → ReportsOn
              (AgentIsValid name)
              o
              (elim o [ none ↦ none | some spec ↦ some (validate_agent S reg m name spec) ])
      agent none = refl
      agent (some spec) = validate_agent_iff name spec
