-- ===== src/Json/RoundTrip.antt =====
-- Status lists written by src/common/json_utils/JsonUtils.cpp are read back by it.
use mavlink_hub.Base.{
  String, ◌≡◌, refl, ◌∙◌, true, ◌||◌, ◌==◌, eq_iff, Option, some, List, [], ◌∷◌, ◌++◌,
  if◌then◌else◌, arith,
}
use mathlib.Core.List.{append-nil, append_assoc}
use mavlink_hub.Base.Dict.{Dict}
use mavlink_hub.Sdk.{AgentState, EndpointState}
use mavlink_hub.Json.Api.{JsonApi}
use mavlink_hub.Json.Encode.{
  agent_state_to_string, endpoint_state_to_string, push_into, status_entry, push_agent_statuses,
  agent_status_document, agent_status_list_to_json_string, push_endpoint_statuses,
  endpoint_status_document, endpoint_status_list_to_json_string,
}
use mavlink_hub.Json.Status.{
  is_status_entry, read_agent_statuses, read_endpoint_statuses, read_status_list,
  agent_status_list_from_json_string, endpoint_status_list_from_json_string,
}

-- What jsoncons documents of objects, arrays and scalars; enumerators are numbers.
pub record IsLawful (J : JsonApi) : Type 0 where
  pub is_object-empty_object : J.is_object J.empty_object ≡ true
  pub is_object-set : (j : J.Json) (k : String) (v : J.Json) → J.is_object (J.set j k v) ≡ true
  pub contains-set :
      (j : J.Json) (k i : String) (v : J.Json)
      → J.is_object j ≡ true
      → J.contains (J.set j k v) i ≡ (k == i || J.contains j i)
  pub at-set :
      (j : J.Json) (k i : String) (v : J.Json)
      → J.is_object j ≡ true
      → J.at (J.set j k v) i ≡ (if k == i then v else J.at j i)
  pub is_array-empty_array : J.is_array J.empty_array ≡ true
  pub is_array-push_back :
      (a v : J.Json) → J.is_array a ≡ true → J.is_array (J.push_back a v) ≡ true
  pub array_range-empty_array : J.array_range J.empty_array ≡ []
  pub array_range-push_back :
      (a v : J.Json)
      → J.is_array a ≡ true
      → J.array_range (J.push_back a v) ≡ J.array_range a ++ v ∷ []
  pub is_string-of_string : (s : String) → J.is_string (J.of_string s) ≡ true
  pub as_string-of_string : (s : String) → J.as_string (J.of_string s) ≡ s
  pub is_number-of_agent_state : (s : AgentState) → J.is_number (J.of_agent_state s) ≡ true
  pub as_agent_state-of_agent_state : (s : AgentState) → J.as_agent_state (J.of_agent_state s) ≡ s
  pub is_number-of_endpoint_state : (s : EndpointState) → J.is_number (J.of_endpoint_state s) ≡ true
  pub as_endpoint_state-of_endpoint_state :
      (s : EndpointState) → J.as_endpoint_state (J.of_endpoint_state s) ≡ s

-- The rows that a reader gets of a map: each name with the word for its state.
abbrev pub texts : {A : Type 0} → (A → String) → Dict A → Dict String
texts word [] = []
texts word ((name, s) ∷ list) = (name, word s) ∷ texts word list

module _ (J : JsonApi) (L : IsLawful J) where
  -- A document with an array of these elements under the key.
  record Holds (key : String) (elements : List J.Json) (j : J.Json) : Type 0 where
    object : J.is_object j ≡ true
    contains : J.contains j key ≡ true
    array : J.is_array (J.at j key) ≡ true
    range : J.array_range (J.at j key) ≡ elements

  Holds-empty : (key : String) → Holds key [] (J.set J.empty_object key J.empty_array)
  Holds-empty key = record {
    object = L.is_object-set _ _ _;
    contains = ground (
      arith,
      L.contains-set J.empty_object key key J.empty_array L.is_object-empty_object,
      eq_iff key key,
    );
    array = ground (
      arith,
      L.at-set J.empty_object key key J.empty_array L.is_object-empty_object,
      eq_iff key key,
      L.is_array-empty_array,
    );
    range = ground (
      arith,
      L.at-set J.empty_object key key J.empty_array L.is_object-empty_object,
      eq_iff key key,
      L.array_range-empty_array,
    );
  }

  Holds-push_into :
      (key : String) (elements : List J.Json) (j v : J.Json)
      → Holds key elements j
      → Holds key (elements ++ v ∷ []) (push_into J j key v)
  Holds-push_into key elements j v h =
      let pushed = J.push_back (J.at j key) v in
      record {
        object = L.is_object-set _ _ _;
        contains = ground (arith, L.contains-set j key key pushed h.object, eq_iff key key);
        array = ground (
          arith,
          L.at-set j key key pushed h.object,
          eq_iff key key,
          L.is_array-push_back (J.at j key) v h.array,
        );
        range = ground (
          arith,
          L.at-set j key key pushed h.object,
          eq_iff key key,
          L.array_range-push_back (J.at j key) v h.array,
          h.range,
        );
      }

  read_status_list-Holds :
      (key : String) (read : List J.Json → Option (Dict String)) (elements : List J.Json)
      (j : J.Json)
      → Holds key elements j
      → read_status_list J key read j ≡ read elements
  unfolding read_status_list
  read_status_list-Holds key read elements j h = simp (h.object, h.contains, h.array, h.range)

  status_entry_lem :
      (name : String) (status : J.Json)
      → J.is_number status ≡ true
      → (is_status_entry J (status_entry J name status) ≡ true)
        × (J.as_string (J.at (status_entry J name status) "name") ≡ name)
        × (J.at (status_entry J name status) "status" ≡ status)
  status_entry_lem name status n =
      let inner = J.set J.empty_object "name" (J.of_string name) in
      ground (
        arith,
        eq_iff "name" "name",
        eq_iff "status" "status",
        eq_iff "status" "name",
        L.is_object-set J.empty_object "name" (J.of_string name),
        L.is_object-set inner "status" status,
        L.contains-set inner "status" "name" status (L.is_object-set _ _ _),
        L.contains-set inner "status" "status" status (L.is_object-set _ _ _),
        L.contains-set J.empty_object "name" "name" (J.of_string name) L.is_object-empty_object,
        L.at-set inner "status" "name" status (L.is_object-set _ _ _),
        L.at-set inner "status" "status" status (L.is_object-set _ _ _),
        L.at-set J.empty_object "name" "name" (J.of_string name) L.is_object-empty_object,
        L.is_string-of_string name,
        L.as_string-of_string name,
      )

  abbrev agent_elements : Dict AgentState → List J.Json
  agent_elements [] = []
  agent_elements ((name, s) ∷ list) = status_entry J name (J.of_agent_state s) ∷ agent_elements list

  abbrev endpoint_elements : Dict EndpointState → List J.Json
  endpoint_elements [] = []
  endpoint_elements ((name, s) ∷ list) =
      status_entry J name (J.of_endpoint_state s) ∷ endpoint_elements list

  push_agent_statuses-Holds :
      (list : Dict AgentState) (elements : List J.Json) (j : J.Json)
      → Holds "agent_status_list" elements j
      → Holds "agent_status_list" (elements ++ agent_elements list) (push_agent_statuses J list j)
  unfolding push_agent_statuses
  push_agent_statuses-Holds [] elements j h = rw append-nil h
  push_agent_statuses-Holds ((name, s) ∷ list) elements j h =
      let e = status_entry J name (J.of_agent_state s) in
      rw (← append_assoc elements (e ∷ []) (agent_elements list)) (
        push_agent_statuses-Holds list (elements ++ e ∷ []) (push_into J j "agent_status_list" e)
          (Holds-push_into "agent_status_list" elements j e h))

  push_endpoint_statuses-Holds :
      (list : Dict EndpointState) (elements : List J.Json) (j : J.Json)
      → Holds "endpoint_status_list" elements j
      → Holds "endpoint_status_list"
          (elements ++ endpoint_elements list)
          (push_endpoint_statuses J list j)
  unfolding push_endpoint_statuses
  push_endpoint_statuses-Holds [] elements j h = rw append-nil h
  push_endpoint_statuses-Holds ((name, s) ∷ list) elements j h =
      let e = status_entry J name (J.of_endpoint_state s) in
      rw (← append_assoc elements (e ∷ []) (endpoint_elements list)) (
        push_endpoint_statuses-Holds list (elements ++ e ∷ [])
          (push_into J j "endpoint_status_list" e)
          (Holds-push_into "endpoint_status_list" elements j e h))

  read_agent_statuses-elements :
      (list : Dict AgentState)
      → read_agent_statuses J (agent_elements list) ≡ some (texts agent_state_to_string list)
  unfolding read_agent_statuses
  read_agent_statuses-elements [] = refl
  read_agent_statuses-elements ((name, s) ∷ list) = ground (
    arith,
    status_entry_lem name (J.of_agent_state s) (L.is_number-of_agent_state s),
    L.as_agent_state-of_agent_state s,
    read_agent_statuses-elements list,
  )

  read_endpoint_statuses-elements :
      (list : Dict EndpointState)
      → read_endpoint_statuses J (endpoint_elements list)
        ≡ some (texts endpoint_state_to_string list)
  unfolding read_endpoint_statuses
  read_endpoint_statuses-elements [] = refl
  read_endpoint_statuses-elements ((name, s) ∷ list) = ground (
    arith,
    status_entry_lem name (J.of_endpoint_state s) (L.is_number-of_endpoint_state s),
    L.as_endpoint_state-of_endpoint_state s,
    read_endpoint_statuses-elements list,
  )

  -- The text of a map of agent states is read back as the map's names with the words for the states,
  -- in order, if the parser gives back the document that was written; jsoncons is lawful.
  pub agent_status_list_round_trip :
      (list : Dict AgentState)
      → J.parse (agent_status_list_to_json_string J list) ≡ some (agent_status_document J list)
      → agent_status_list_from_json_string J (agent_status_list_to_json_string J list)
        ≡ some (texts agent_state_to_string list)
  unfolding agent_status_list_from_json_string agent_status_document
  agent_status_list_round_trip list p =
      rw (p, agent_status_list_from_json_string)
        (read_status_list-Holds "agent_status_list" (read_agent_statuses J) (agent_elements list) _
            (push_agent_statuses-Holds list [] _ (Holds-empty "agent_status_list"))
          ∙ read_agent_statuses-elements list)

  -- The same of a map of endpoint states.
  pub endpoint_status_list_round_trip :
      (list : Dict EndpointState)
      → J.parse (endpoint_status_list_to_json_string J list)
        ≡ some (endpoint_status_document J list)
      → endpoint_status_list_from_json_string J (endpoint_status_list_to_json_string J list)
        ≡ some (texts endpoint_state_to_string list)
  unfolding endpoint_status_list_from_json_string endpoint_status_document
  endpoint_status_list_round_trip list p =
      rw (p, endpoint_status_list_from_json_string)
        (read_status_list-Holds "endpoint_status_list" (read_endpoint_statuses J)
            (endpoint_elements list) _
            (push_endpoint_statuses-Holds list [] _ (Holds-empty "endpoint_status_list"))
          ∙ read_endpoint_statuses-elements list)
