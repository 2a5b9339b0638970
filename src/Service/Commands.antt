-- ===== src/Service/Commands.antt =====
-- src/app/app_service/AppServiceCommandDescriptor.h and .cpp: the command set and its table.
use mavlink_hub.Base.{
  ℕ, zero, suc, String, ◌≡◌, refl, Bool, true, false, Option, none, some, List, [], ◌∷◌,
}

pub data AppServiceCommandType : Type 0 where
  load_plan_from_path load_plan_from_json_text get_current_plan check_current_plan
        apply_current_plan delete_current_plan get_status add_mavlink_endpoint edit_mavlink_endpoint
        connect_mavlink_endpoint disconnect_mavlink_endpoint remove_mavlink_endpoint
        get_endpoint_list get_endpoint_status get_endpoint_status_all add_agent edit_agent
        start_agent stop_agent remove_agent get_agent_list get_agent_status get_agent_status_all
        get_agent_report get_agent_report_all :
      AppServiceCommandType

pub record AppServiceCommandDescriptor : Type 0 where
  pub type : AppServiceCommandType
  pub name : String
  pub requires_payload : Bool
  pub payload_hint : String

abbrev row : AppServiceCommandType → String → Bool → String → AppServiceCommandDescriptor
row type name requires_payload hint = record {
  type = type;
  name = name;
  requires_payload = requires_payload;
  payload_hint = hint;
}

-- `kCommands`, which `appServiceCommandDescriptors` returns.
unfoldable pub commands : List AppServiceCommandDescriptor
commands =
    row load_plan_from_path "load_plan_from_path" true "path to .json plan"
    ∷ row load_plan_from_json_text "load_plan_from_json_text" true "plan JSON text"
    ∷ row get_current_plan "get_current_plan" false ""
    ∷ row check_current_plan "check_current_plan" false ""
    ∷ row apply_current_plan "apply_current_plan" false ""
    ∷ row delete_current_plan "delete_current_plan" false ""
    ∷ row get_status "get_status" false ""
    ∷ row add_mavlink_endpoint "add_mavlink_endpoint" true "endpoint JSON"
    ∷ row edit_mavlink_endpoint "edit_mavlink_endpoint" true "endpoint JSON"
    ∷ row connect_mavlink_endpoint "connect_mavlink_endpoint" true "endpoint name"
    ∷ row disconnect_mavlink_endpoint "disconnect_mavlink_endpoint" true "endpoint name"
    ∷ row remove_mavlink_endpoint "remove_mavlink_endpoint" true "endpoint name"
    ∷ row get_endpoint_list "get_endpoint_list" false ""
    ∷ row get_endpoint_status "get_endpoint_status" true "endpoint name"
    ∷ row get_endpoint_status_all "get_endpoint_status_all" false ""
    ∷ row add_agent "add_agent" true "agent JSON"
    ∷ row edit_agent "edit_agent" true "agent JSON"
    ∷ row start_agent "start_agent" true "agent name"
    ∷ row stop_agent "stop_agent" true "agent name"
    ∷ row remove_agent "remove_agent" true "agent name"
    ∷ row get_agent_list "get_agent_list" false ""
    ∷ row get_agent_status "get_agent_status" true "agent name"
    ∷ row get_agent_status_all "get_agent_status_all" false ""
    ∷ row get_agent_report "get_agent_report" true "agent name"
    ∷ row get_agent_report_all "get_agent_report_all" false ""
    ∷ []

-- `static_cast<std::size_t>(type)`: the position of the enumerator.
unfoldable pub index : AppServiceCommandType → ℕ
index load_plan_from_path = 0
index load_plan_from_json_text = 1
index get_current_plan = 2
index check_current_plan = 3
index apply_current_plan = 4
index delete_current_plan = 5
index get_status = 6
index add_mavlink_endpoint = 7
index edit_mavlink_endpoint = 8
index connect_mavlink_endpoint = 9
index disconnect_mavlink_endpoint = 10
index remove_mavlink_endpoint = 11
index get_endpoint_list = 12
index get_endpoint_status = 13
index get_endpoint_status_all = 14
index add_agent = 15
index edit_agent = 16
index start_agent = 17
index stop_agent = 18
index remove_agent = 19
index get_agent_list = 20
index get_agent_status = 21
index get_agent_status_all = 22
index get_agent_report = 23
index get_agent_report_all = 24

unfoldable pub get_elem? {ℓ} : {A : Type ℓ} → List A → ℕ → Option A
get_elem? [] i = none
get_elem? (x ∷ xs) zero = some x
get_elem? (x ∷ xs) (suc i) = get_elem? xs i

abbrev pub type_at : Option AppServiceCommandDescriptor → Option AppServiceCommandType
type_at none = none
type_at (some d) = some d.type

-- The table has the row of every command at the position of its enumerator.
pub commands-index : (t : AppServiceCommandType) → type_at (get_elem? commands (index t)) ≡ some t
unfolding commands index get_elem?
commands-index load_plan_from_path = refl
commands-index t = refl
