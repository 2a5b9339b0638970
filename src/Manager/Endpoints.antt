-- ===== src/Manager/Endpoints.antt =====
-- The endpoint operations of src/manager/Manager.cpp.
use mavlink_hub.Base.{
  String, ◌<>◌, true, false, none, some, [], ◌∷◌, ◌++◌, if◌then◌else◌, is_some, suc,
}
use mavlink_hub.Base.Dict
use mavlink_hub.Base.Dict.{Dict}
use mavlink_hub.Common.{OperationResult, report_of}
use mavlink_hub.Sdk.{Sdk, accepted, rejected}
use mavlink_hub.Manager.State.{Manager, EndpointEntry, Registries, Outcome}

module _ (S : Sdk) where
  unfoldable pub validate_mavlink_endpoint_config :
      Registries S → String → Dict String → OperationResult
  validate_mavlink_endpoint_config reg type config =
      elim (S.transport_at reg.transport_registry type) [
        | none ↦ report_of false (
            "[Manager] : Failed to validate a mavlink endpoint config with type: " <> type
            <> ". The type does not exist.")
        | some definition ↦ elim (S.parse_transport_config definition config) [
          | accepted parsed messages ↦ record { success = true; messages = messages }
          | rejected messages ↦ record {
            success = false;
            messages =
                messages
                ++ ("[Manager] : Failed to validate the given mavlink endpoint config with type: "
                    <> type)
                  ∷ [];
          }
        ]
      ]

  unfoldable pub add_mavlink_endpoint : Registries S → String → Manager S → Outcome S
  add_mavlink_endpoint reg name m =
      if is_some (Dict.lookup name m.endpoint_db)
      then (
        m,
        report_of false (
            "[Manager] : Failed to add a mavlink endpoint with name: " <> name
            <> ". It already exists."),
      )
      else (
        record m {
          endpoint_db =
              Dict.emplace name
                (record {
                  id = m.next_id;
                  endpoint = S.create_endpoint reg.transport_registry;
                  user_count = [];
                })
                m.endpoint_db;
          next_id = suc m.next_id;
        },
        report_of true ("[Manager] : Mavlink Endpoint is created with name: " <> name),
      )

  abbrev pub set_endpoint : String → EndpointEntry S → S.Endpoint → Manager S → Manager S
  set_endpoint name entry endpoint m = record m {
    endpoint_db = Dict.insert name (record entry { endpoint = endpoint }) m.endpoint_db;
  }

  unfoldable pub connect_mavlink_endpoint : String → String → Dict String → Manager S → Outcome S
  connect_mavlink_endpoint endpoint_name type config m =
      elim (Dict.lookup endpoint_name m.endpoint_db) [
        | none ↦ (
          m,
          report_of false (
              "[Manager] : Failed to connect to mavlink endpoint: " <> endpoint_name
              <> ". It does not exist."),
        )
        | some entry ↦
            let connected = S.connect entry.endpoint type config in
            (
              set_endpoint endpoint_name entry connected.0 m,
              if connected.1
                  then report_of true (
                      "[Manager] : Mavlink endpoint [" <> endpoint_name <> "] is connected to ["
                      <> type <> "]")
                  else report_of false (
                      "[Manager] : Failed to connect to mavlink endpoint: " <> endpoint_name
                      <> ". Please check the config."),
            )
      ]

  unfoldable pub disconnect_mavlink_endpoint : String → Manager S → Outcome S
  disconnect_mavlink_endpoint endpoint_name m = elim (Dict.lookup endpoint_name m.endpoint_db) [
    | none ↦ (m, report_of false ("[Manager] : Cannot find mavlink endpoint: " <> endpoint_name))
    | some entry ↦
        let disconnected = S.disconnect entry.endpoint in
        (
          set_endpoint endpoint_name entry disconnected.0 m,
          if disconnected.1
              then report_of true (
                  "[Manager] : Mavlink endpoint [" <> endpoint_name
                  <> "] is successfully disconnected")
              else report_of false
                  ("[Manager] : Failed to disconnect to mavlink endpoint: " <> endpoint_name),
        )
  ]

  unfoldable pub remove_mavlink_endpoint : String → Manager S → Outcome S
  remove_mavlink_endpoint endpoint_name m =
      if is_some (Dict.lookup endpoint_name m.endpoint_db)
      then (
        record m { endpoint_db = Dict.erase endpoint_name m.endpoint_db },
        report_of true
            ("[Manager] : Mavlink endpoint [" <> endpoint_name <> "] is successfully removed"),
      )
      else (m, report_of false ("[Manager] : Cannot find mavlink endpoint: " <> endpoint_name))
