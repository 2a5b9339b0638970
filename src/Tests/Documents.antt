-- ===== src/Tests/Documents.antt =====
-- A JSON library whose documents are terms, and whose parser is given. The text of an object
-- is the key that was set last, which is enough to tell the objects below apart.
use mavlink_hub.Base.{
  ◌≡◌, refl, String, Bool, true, false, ◌==◌, ◌||◌, Option, some, List, [], ◌∷◌, ◌++◌,
  if◌then◌else◌, is_some,
}
use mavlink_hub.Sdk.{AgentState, EndpointState, idle, disconnected}
use mavlink_hub.Json.Api.{JsonApi}
use mavlink_hub.Json.RoundTrip.{IsLawful}
use mavlink_hub.Json.PlanLaws.{ReadsBools}

pub data Document : Type 0 where
  null nil empty : Document
  text : String → Document
  flag : Bool → Document
  agent : AgentState → Document
  endpoint : EndpointState → Document
  snoc : Document → Document → Document
  field : Document → String → Document → Document

abbrev is_array : Document → Bool
is_array nil = true
is_array (snoc a v) = true
is_array d = false

abbrev is_object : Document → Bool
is_object empty = true
is_object (field d k v) = true
is_object d = false

abbrev is_bool : Document → Bool
is_bool (flag b) = true
is_bool d = false

abbrev is_string : Document → Bool
is_string (text s) = true
is_string d = false

abbrev is_number : Document → Bool
is_number (agent s) = true
is_number (endpoint s) = true
is_number d = false

abbrev contains : Document → String → Bool
contains (field d k v) i = k == i || contains d i
contains d i = false

abbrev at : Document → String → Document
at (field d k v) i = if k == i then v else at d i
at d i = null

abbrev as_string : Document → String
as_string (text s) = s
as_string (field d k v) = k
as_string d = "{}"

abbrev as_bool : Document → Option Bool
as_bool (flag b) = some b
as_bool d = Option.none

abbrev as_agent_state : Document → AgentState
as_agent_state (agent s) = s
as_agent_state d = idle

abbrev as_endpoint_state : Document → EndpointState
as_endpoint_state (endpoint s) = s
as_endpoint_state d = disconnected

abbrev array_range : Document → List Document
array_range (snoc a v) = array_range a ++ v ∷ []
array_range d = []

abbrev object_range : Document → List (String × Document)
object_range (field d k v) = object_range d ++ (k, v) ∷ []
object_range d = []

abbrev pub demo_json : (String → Document) → JsonApi
demo_json parsed = record {
  Json = Document;
  parse = λ s. some (parsed s);
  is_array = is_array;
  is_object = is_object;
  is_bool = is_bool;
  is_string = is_string;
  is_number = is_number;
  contains = contains;
  at = at;
  as_string = as_string;
  as_bool = as_bool;
  as_agent_state = as_agent_state;
  as_endpoint_state = as_endpoint_state;
  array_range = array_range;
  object_range = object_range;
  empty_object = empty;
  empty_array = nil;
  set = field;
  push_back = snoc;
  of_string = text;
  of_bool = flag;
  of_agent_state = agent;
  of_endpoint_state = endpoint;
  weakly_canonical = some;
}

pub demo_json-IsLawful : (d : String → Document) → IsLawful (demo_json d)
demo_json-IsLawful d = record {
  is_object-empty_object = refl;
  is_object-set = λ j k v. refl;
  contains-set = λ j k i v o. refl;
  at-set = λ j k i v o. refl;
  is_array-empty_array = refl;
  is_array-push_back = λ a v h. refl;
  array_range-empty_array = refl;
  array_range-push_back = λ a v h. refl;
  is_string-of_string = λ s. refl;
  as_string-of_string = λ s. refl;
  is_number-of_agent_state = λ s. refl;
  as_agent_state-of_agent_state = λ s. refl;
  is_number-of_endpoint_state = λ s. refl;
  as_endpoint_state-of_endpoint_state = λ s. refl;
}

pub demo_json-ReadsBools : (d : String → Document) → ReadsBools (demo_json d)
demo_json-ReadsBools d = record { as_bool = reads }
  where
    reads : (j : Document) → is_bool j ≡ true → is_some (as_bool j) ≡ true
    reads (flag b) h = refl
    reads j h = cc

-- The document of a plan under DISCARD whose one agent has an unregistered type.
abbrev pub plan_document : Document
plan_document =
    field (field (field empty "policy" (text "discard")) "endpoint_list" nil) "agent_list" (
      snoc nil (
        field
          (field (field (field empty "name" (text "log")) "type" (text "camera")) "config" empty)
          "start_on_create" (flag true)))

-- No policy, and an endpoint list that is no array.
abbrev pub unset_document : Document
unset_document = field empty "endpoint_list" (text "radio")

-- A plan with one endpoint and one agent.
abbrev pub good_document : Document
good_document =
    field
      (field (field empty "policy" (text "best_effort")) "endpoint_list" (
        snoc nil (
          field
            (field (field (field empty "name" (text "radio")) "type" (text "udp")) "config" empty)
            "connect_on_create" (flag true))))
      "agent_list"
      (snoc nil (
        field
          (field (field (field empty "name" (text "log")) "type" (text "logger")) "config" empty)
          "start_on_create" (flag true)))
