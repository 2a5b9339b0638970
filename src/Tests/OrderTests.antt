-- ===== src/Tests/OrderTests.antt =====
-- Plans of src/manager in two orders: the theorem at concrete plans.
use mavlink_hub.Base.{String, ◌≡◌, refl, [], ◌∷◌}
use mathlib.Core.Quot
use mavlink_hub.Base.Dict.{NodupKeys, lookup}
use mavlink_hub.Manager.Types.{UserPlan, discard}
use mavlink_hub.Manager.Plan.{validate_plan}
use mavlink_hub.Manager.Execute.{discards, execute_plan}
use mavlink_hub.Manager.Frame.{has}
use mavlink_hub.Manager.Order.{
  swap-SameEntries, KeyedPlan, SamePlan, UnorderedPlan, execute_plan_unordered,
}
use mavlink_hub.Tests.Fixtures.{demo_sdk, demo_registries, demo_endpoint, demo_agent, hub}

abbrev one_order : UserPlan
one_order = record {
  endpoint_list = ("radio", demo_endpoint "udp") ∷ ("video", demo_endpoint "usb") ∷ [];
  agent_list = ("log", demo_agent "logger") ∷ [];
  policy = discard;
}

abbrev other_order : UserPlan
other_order = record {
  endpoint_list = ("video", demo_endpoint "usb") ∷ ("radio", demo_endpoint "udp") ∷ [];
  agent_list = ("log", demo_agent "logger") ∷ [];
  policy = discard;
}

one_order-NodupKeys : NodupKeys one_order.endpoint_list × NodupKeys one_order.agent_list
unfolding lookup
one_order-NodupKeys = ((refl, (refl, tt)), (refl, tt))

other_order-NodupKeys : NodupKeys other_order.endpoint_list × NodupKeys other_order.agent_list
unfolding lookup
other_order-NodupKeys = ((refl, (refl, tt)), (refl, tt))

abbrev one_keyed : KeyedPlan
one_keyed = (one_order, one_order-NodupKeys.0, one_order-NodupKeys.1)

abbrev other_keyed : KeyedPlan
other_keyed = (other_order, other_order-NodupKeys.0, other_order-NodupKeys.1)

orders-SamePlan : SamePlan one_keyed other_keyed
orders-SamePlan = (
  refl,
  swap-SameEntries "radio" "video" (demo_endpoint "udp") (demo_endpoint "usb") [] refl,
  λ k. refl,
)

execute_plan_unordered_example :
    ◌≡◌ {A = UnorderedPlan} (Quot.mk one_keyed) (Quot.mk other_keyed)
    × (discards demo_sdk demo_registries one_order hub
        ≡ discards demo_sdk demo_registries other_order hub)
    × ((k : String)
        → (lookup k (validate_plan demo_sdk demo_registries one_order hub).endpoint_plan_result
            ≡ lookup k
                (validate_plan demo_sdk demo_registries other_order hub).endpoint_plan_result)
          × (lookup k (validate_plan demo_sdk demo_registries one_order hub).agent_plan_result
              ≡ lookup k (validate_plan demo_sdk demo_registries other_order hub).agent_plan_result)
          × (has k (execute_plan demo_sdk demo_registries one_order hub).0.endpoint_db
              ≡ has k (execute_plan demo_sdk demo_registries other_order hub).0.endpoint_db))
execute_plan_unordered_example =
    execute_plan_unordered demo_sdk demo_registries hub one_keyed other_keyed orders-SamePlan
