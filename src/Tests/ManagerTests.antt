-- ===== src/Tests/ManagerTests.antt =====
-- src/manager, src/agent_registry: the theorems at concrete inputs.
use mavlink_hub.Base.{◌≡◌, refl, ◌↔◌, ◌⊎◌, true, some, [], ◌∷◌, inl, inr, arith, eq_iff}
use mavlink_hub.Base.Dict
use mavlink_hub.Base.Dict.{NodupKeys, lookup}
use mavlink_hub.Sdk.{done, request_mavlink_endpoint, release, Calls}
use mavlink_hub.Registry.User
use mavlink_hub.Manager.Types.{MavlinkEndpointEntry}
use mavlink_hub.Manager.Requests.{perform}
use mavlink_hub.Manager.Plan.{validate_plan}
use mavlink_hub.Manager.Execute.{execute_plan}
use mavlink_hub.Manager.Handles.{destroy_user}
use mavlink_hub.Manager.Users.{get_mavlink_endpoint_user_list, create_mavlink_endpoint_user}
use mavlink_hub.Manager.Frame.{has}
use mavlink_hub.Manager.Validity.{EndpointIsValid, AgentIsValid, ReportsOn, validate_plan-ReportsOn}
use mavlink_hub.Manager.Discard.{AllFailed, HasInvalid, execute_plan_atomic}
use mavlink_hub.Manager.Applied.{execute_plan-endpoints}
use mavlink_hub.Manager.Reports.{backed, execute_plan-backed}
use mavlink_hub.Manager.History.{World, IsCounted, releases, Reach, here, next}
use mavlink_hub.Manager.Preserved.{Reach-IsCounted}
use mavlink_hub.Manager.Scripts.{IsHonest, live_after, perform-IsCounted}
use mavlink_hub.Manager.Stale.{replaced, stale_release}
use mavlink_hub.Tests.Fixtures.{
  demo_sdk, demo_registries, good_plan, bad_plan, demo_agent, hub, handle,
}

bad_endpoints-NodupKeys : NodupKeys bad_plan.endpoint_list
unfolding lookup
bad_endpoints-NodupKeys = (refl, tt)

bad_agents-NodupKeys : NodupKeys bad_plan.agent_list
unfolding lookup
bad_agents-NodupKeys = (refl, tt)

good_endpoints-NodupKeys : NodupKeys good_plan.endpoint_list
unfolding lookup
good_endpoints-NodupKeys = (refl, tt)

good_agents-NodupKeys : NodupKeys good_plan.agent_list
unfolding lookup
good_agents-NodupKeys = (refl, tt)

bad_plan-HasInvalid : HasInvalid demo_sdk demo_registries bad_plan hub
unfolding lookup User.at
bad_plan-HasInvalid =
    inr ("log", demo_agent "camera", refl, λ (free, (definition, config, messages, at, parsed)). cc)

execute_plan_atomic_example :
    ((execute_plan demo_sdk demo_registries bad_plan hub).0 ≡ hub)
    × AllFailed (execute_plan demo_sdk demo_registries bad_plan hub).1.endpoint_plan_result
    × AllFailed (execute_plan demo_sdk demo_registries bad_plan hub).1.agent_plan_result
execute_plan_atomic_example =
    execute_plan_atomic demo_sdk demo_registries bad_plan hub refl bad_endpoints-NodupKeys
      bad_agents-NodupKeys bad_plan-HasInvalid

execute_plan-endpoints_example :
    (has "radio" (execute_plan demo_sdk demo_registries good_plan hub).0.endpoint_db ≡ true) ↔ (
      (has "radio" hub.endpoint_db ≡ true)
      ⊎ ((spec : MavlinkEndpointEntry) × (lookup "radio" good_plan.endpoint_list ≡ some spec)
          × EndpointIsValid demo_sdk demo_registries hub "radio" spec))
execute_plan-endpoints_example =
    execute_plan-endpoints demo_sdk demo_registries good_plan hub good_endpoints-NodupKeys
      good_agents-NodupKeys "radio" (inl refl)

validate_plan-ReportsOn_example :
    ReportsOn
      (EndpointIsValid demo_sdk demo_registries hub "radio")
      (lookup "radio" bad_plan.endpoint_list)
      (lookup "radio" (validate_plan demo_sdk demo_registries bad_plan hub).endpoint_plan_result)
    × ReportsOn
        (AgentIsValid demo_sdk demo_registries hub "radio")
        (lookup "radio" bad_plan.agent_list)
        (lookup "radio" (validate_plan demo_sdk demo_registries bad_plan hub).agent_plan_result)
validate_plan-ReportsOn_example =
    validate_plan-ReportsOn demo_sdk demo_registries hub bad_plan "radio" bad_endpoints-NodupKeys
      bad_agents-NodupKeys

execute_plan-backed_example :
    let done = execute_plan demo_sdk demo_registries good_plan hub in
    (backed (has "log" done.0.endpoint_db) (lookup "log" done.1.endpoint_plan_result) ≡ true)
    × (backed (has "log" done.0.agents) (lookup "log" done.1.agent_plan_result) ≡ true)
execute_plan-backed_example = execute_plan-backed demo_sdk demo_registries good_plan hub "log"

old-agent : has "old" hub.agents ≡ true
unfolding lookup
old-agent = refl

-- A script that asks for an endpoint twice and gives one handle back.
abbrev script : Calls demo_sdk (Unit {0})
script = request_mavlink_endpoint "serial" (λ first. release handle (done tt))

-- One handle is alive, and the manager counts it.
abbrev world : World demo_sdk
world = record { manager = hub; live = handle ∷ [] }

world-IsCounted : IsCounted world
unfolding lookup
world-IsCounted = record {
  distinct = (refl, tt);
  tracks = λ ep user entry e. ground (arith, eq_iff "serial" ep, eq_iff "log" user);
}

script-IsHonest : IsHonest "log" script world
unfolding lookup Dict.insert create_mavlink_endpoint_user
script-IsHonest = ([], handle ∷ [], refl, tt)

perform-IsCounted_example : IsCounted (record {
  manager = (perform demo_sdk "log" script hub).0;
  live = live_after "log" script world script-IsHonest;
})
perform-IsCounted_example = perform-IsCounted "log" script world script-IsHonest world-IsCounted

released : Reach demo_sdk world (record { manager = destroy_user demo_sdk handle hub; live = [] })
released = next here (releases hub [] [] handle)

Reach-IsCounted_example :
    IsCounted (record { manager = destroy_user demo_sdk handle hub; live = [] })
Reach-IsCounted_example = Reach-IsCounted released world-IsCounted

stale_release_example :
    let now = replaced demo_sdk demo_registries handle.endpoint_name handle.user_name hub in
    (get_mavlink_endpoint_user_list demo_sdk handle.endpoint_name
        (destroy_user demo_sdk handle now.0)
      ≡ some [])
    × (now.1
        ≡ some (record {
          endpoint = hub.next_id;
          endpoint_name = handle.endpoint_name;
          user_name = handle.user_name;
        }))
stale_release_example = stale_release demo_sdk demo_registries handle hub
