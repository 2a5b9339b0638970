-- ===== src/Tests/LifetimeTests.antt =====
-- The lifetime of a handle of src/manager: the theorems at a concrete history.
use mavlink_hub.Base.{ℕ, ◌≤◌, ◌<◌, ◌^◌, arith, [], ◌∷◌, String, ◌≡◌, refl, some, none}
use mavlink_hub.Base.Dict
use mavlink_hub.Base.Length.{length}
use mavlink_hub.Base.Count.{pos}
use mavlink_hub.Manager.History
use mavlink_hub.Manager.History.{World, Reach, after_create}
use mavlink_hub.Manager.Range.{counters_fit}
use mavlink_hub.Base.Dict.{lookup}
use mavlink_hub.Sdk.{MavlinkEndpointUser, disconnected}
use mavlink_hub.Manager.State.{Manager, EndpointEntry, empty_manager}
use mavlink_hub.Manager.Users.{create_mavlink_endpoint_user, count_up}
use mavlink_hub.Manager.Handles
use mavlink_hub.Manager.Endpoints.{add_mavlink_endpoint, remove_mavlink_endpoint}
use mavlink_hub.Manager.Calls.{Calls, here, next, adds, writes}
use mavlink_hub.Manager.Agents.{remove_agent}
use mavlink_hub.Manager.Execute.{execute_plan}
use mavlink_hub.Manager.Identity.{IsIdentified}
use mavlink_hub.Manager.Operations.{
  none_yet, then_one, calls, removes_agent, executes_plan, Operations-IsIdentified,
}
use mavlink_hub.Manager.Lifetime.{handle_expires}
use mavlink_hub.Tests.Fixtures.{demo_sdk, demo_registries, good_plan}

-- The endpoint is added, and "log" gets a handle on it.
abbrev opened : Manager demo_sdk
opened = (add_mavlink_endpoint demo_sdk demo_registries "radio" (empty_manager demo_sdk)).0

abbrev radio_handle : MavlinkEndpointUser
radio_handle = record { endpoint = 0; endpoint_name = "radio"; user_name = "log" }

abbrev held : Manager demo_sdk
held = (create_mavlink_endpoint_user demo_sdk "radio" "log" opened).0

opened-Calls : Calls demo_sdk (empty_manager demo_sdk) opened
opened-Calls = next here (adds (empty_manager demo_sdk) demo_registries "radio")

radio_handle-created :
    (create_mavlink_endpoint_user demo_sdk "radio" "log" opened).1 ≡ some radio_handle
unfolding create_mavlink_endpoint_user add_mavlink_endpoint lookup Dict.emplace Dict.insert
radio_handle-created = refl

-- The handle is used, the endpoint removed, and another added under its name.
abbrev written : Manager demo_sdk
written = (Handles.write_message demo_sdk radio_handle "heartbeat" held).0

abbrev removed : Manager demo_sdk
removed = (remove_mavlink_endpoint demo_sdk "radio" written).0

abbrev reopened : Manager demo_sdk
reopened = (add_mavlink_endpoint demo_sdk demo_registries "radio" removed).0

written-Calls : Calls demo_sdk held written
written-Calls = next here (writes held radio_handle "heartbeat")

reopened-Calls : Calls demo_sdk removed reopened
reopened-Calls = next here (adds removed demo_registries "radio")

handle_expires_example :
    (Handles.get_state demo_sdk radio_handle reopened ≡ none)
    × ((Handles.get_num_of_listener demo_sdk radio_handle reopened ≡ none)
        × (((listener : String)
              → Handles.create_listener demo_sdk radio_handle listener reopened ≡ (reopened, none))
            × ((msg : String)
                → Handles.write_message demo_sdk radio_handle msg reopened ≡ (reopened, none))))
handle_expires_example =
    handle_expires demo_sdk "radio" "log" radio_handle opened written reopened opened-Calls
      radio_handle-created written-Calls reopened-Calls

-- The manager alone: a plan, an endpoint added by hand, an agent that is refused, one removed.
abbrev planned : Manager demo_sdk
planned = (execute_plan demo_sdk demo_registries good_plan (empty_manager demo_sdk)).0

abbrev widened : Manager demo_sdk
widened = (add_mavlink_endpoint demo_sdk demo_registries "serial" planned).0

abbrev shrunk : Manager demo_sdk
shrunk = (remove_agent demo_sdk "log" widened).0

Operations-IsIdentified_example : IsIdentified demo_sdk shrunk
Operations-IsIdentified_example = Operations-IsIdentified demo_sdk shrunk (
    then_one
      (then_one
        (then_one none_yet (executes_plan (empty_manager demo_sdk) demo_registries good_plan))
        (calls (adds planned demo_registries "serial")))
      (removes_agent widened "log"))

-- "log" gets two handles.
abbrev first_world : World demo_sdk
first_world = record { manager = opened; live = [] }

abbrev twice : World demo_sdk
twice = after_create "radio" "log" (after_create "radio" "log" first_world)

twice-Reach : Reach demo_sdk (record { manager = empty_manager demo_sdk; live = [] }) twice
twice-Reach =
    History.next
      (History.next
        (History.next History.here (
          History.adds (record { manager = empty_manager demo_sdk; live = [] }) demo_registries
            "radio" (λ user. refl)))
        (History.creates first_world "radio" "log"))
      (History.creates (after_create "radio" "log" first_world) "radio" "log")

abbrev counted_twice : EndpointEntry demo_sdk
counted_twice = record { id = 0; endpoint = disconnected; user_count = ("log", pos 2) ∷ [] }

two_handles : length twice.live ≡ 2
unfolding create_mavlink_endpoint_user add_mavlink_endpoint lookup Dict.emplace Dict.insert
two_handles = refl

there_twice : lookup "radio" twice.manager.endpoint_db ≡ some counted_twice
unfolding create_mavlink_endpoint_user add_mavlink_endpoint lookup Dict.emplace Dict.insert count_up
there_twice = refl

counter_two : lookup "log" counted_twice.user_count ≡ some (pos 2)
unfolding lookup
counter_two = refl

counters_fit_example : (n : ℕ) × (pos 2 ≡ pos n) × (1 ≤ n) × (n < 2 ^ 31)
counters_fit_example =
    counters_fit demo_sdk twice "radio" "log" counted_twice (pos 2) twice-Reach
      (omega (arith, two_handles)) there_twice counter_two
