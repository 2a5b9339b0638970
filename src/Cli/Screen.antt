-- ===== src/Cli/Screen.antt =====
-- src/app/ui_handler/CliUiHandler.cpp, `generateUserInterface`: the whole screen, as a function of the
-- controller, of the widths that the user has dragged, of the button that has the focus, and of
-- whether the tables were empty when the interface was made.
use mavlink_hub.Base.{ℕ, String, ◌<>◌, Bool, true, false, List, [], ◌∷◌, map, if◌then◌else◌}
use mavlink_hub.Cli.Controller.{CliUiController, OverviewRow, command_descriptors}
use mavlink_hub.Cli.Events.{ActionButton, execute_command, clear_payload, clear_result}
use mavlink_hub.Cli.View.{
  Ftxui, selected_line, payload_line, max_command_info_len, col_body, make_col, result_content,
}

pub record Widths : Type 0 where
  pub agent_name_w : ℕ
  pub agent_name_type_w : ℕ
  pub agent_name_type_status_w : ℕ
  pub ep_type_status_w : ℕ
  pub ep_status_w : ℕ
  pub overview_agent_width : ℕ

-- The values that they start with.
abbrev pub initial_widths : Widths
initial_widths = record {
  agent_name_w = 12;
  agent_name_type_w = 24;
  agent_name_type_status_w = 36;
  ep_type_status_w = 22;
  ep_status_w = 14;
  overview_agent_width = 70;
}

-- What the screen depends on besides the controller: `focused` tells of each button whether it has
-- the focus, `agent_empty` and `endpoint_empty` are those of the time when the interface was made.
pub record Interface : Type 0 where
  pub widths : Widths
  pub focused : ActionButton → Bool
  pub agent_empty : Bool
  pub endpoint_empty : Bool
  pub app_status : String

module _ (F : Ftxui) where
  abbrev title : String → F.Element
  title s = F.bold (F.center (F.text s))

  abbrev heading : String → F.Element
  heading s = F.center (F.bold (F.text s))

  unfoldable pub command_menu_complete : CliUiController → F.Element
  command_menu_complete c = F.vbox (
      title "Command Lists"
      ∷ F.separator
      ∷ F.frame (
          F.vscroll_indicator (
            F.hbox
              (F.menu (map (λ d. d.name) command_descriptors) c.selected_command ∷ F.filler ∷ [])))
      ∷ [])

  unfoldable pub payload_complete : CliUiController → F.Element
  payload_complete c =
      F.vbox (title "Payload" ∷ F.separator ∷ F.input c.payload_text "command payload (JSON)" ∷ [])

  unfoldable pub command_info : CliUiController → F.Element
  command_info c = F.vbox (F.bold (F.text (selected_line c)) ∷ F.dim (F.text (payload_line c)) ∷ [])

  -- `action_button_options.transform`
  unfoldable pub action_button : Bool → String → F.Element
  action_button focused label =
      let e = F.hbox (F.text "[" ∷ F.filler ∷ F.text label ∷ F.filler ∷ F.text "]" ∷ []) in
      if focused then F.inverted e else e

  unfoldable pub action_menu : Interface → F.Element
  unfolding action_button
  action_menu ui = F.vertical (
      action_button (ui.focused execute_command) "Execute Command"
      ∷ action_button (ui.focused clear_payload) "Clear Payload"
      ∷ action_button (ui.focused clear_result) "Clear Result"
      ∷ [])

  abbrev pub executing_sign : F.Element
  executing_sign = F.bgcolor F.orange1 (F.color F.black (F.center (F.text "Executing...")))

  abbrev pub ready_sign : F.Element
  ready_sign = F.bgcolor F.green (F.color F.white (F.center (F.text "Ready")))

  unfoldable pub action_status : CliUiController → F.Element
  action_status c = if c.executing then executing_sign else ready_sign

  unfoldable pub action_pane : Interface → CliUiController → F.Element
  unfolding action_menu action_status
  action_pane ui c =
      F.vbox (heading "Action" ∷ F.separator ∷ action_menu ui ∷ F.separator ∷ action_status c ∷ [])

  unfoldable pub command_pane : Interface → CliUiController → F.Element
  unfolding command_menu_complete payload_complete command_info action_pane
  command_pane ui c = F.vbox (
      F.flex (F.hbox (command_menu_complete c ∷ F.separator ∷ F.flex (payload_complete c) ∷ []))
      ∷ F.separator
      ∷ F.notflex (
          F.hbox (
            F.size_width_greater_than max_command_info_len (command_info c)
            ∷ F.separator
            ∷ action_pane ui c
            ∷ []))
      ∷ [])

  unfoldable pub command_result_pane : CliUiController → F.Element
  unfolding result_content
  command_result_pane c = F.vbox (
      heading "Command Result"
      ∷ F.separator
      ∷ F.vscroll_indicator (F.frame (F.vbox (result_content F c)))
      ∷ [])

  abbrev column : Bool → List OverviewRow → String → (OverviewRow → String) → Bool → F.Element
  column empty rows header field is_marker_col =
      make_col F header (col_body rows field is_marker_col) empty

  unfoldable pub agent_split : Interface → List OverviewRow → F.Element
  unfolding col_body make_col
  agent_split ui rows =
      let empty = ui.agent_empty in
      F.resizable_split_left
        (F.resizable_split_left
          (F.resizable_split_left (column empty rows "Name" (λ row. row.row_name) true)
            (column empty rows "Type" (λ row. row.row_type) false) ui.widths.agent_name_w)
          (column empty rows "Status" (λ row. row.row_status) false) ui.widths.agent_name_type_w)
        (column empty rows "Report" (λ row. row.row_report) false)
        ui.widths.agent_name_type_status_w

  unfoldable pub endpoint_split : Interface → List OverviewRow → F.Element
  unfolding col_body make_col
  endpoint_split ui rows =
      let empty = ui.endpoint_empty in
      F.resizable_split_right
        (F.resizable_split_right (column empty rows "Status" (λ row. row.row_status) false)
          (column empty rows "Type" (λ row. row.row_type) false) ui.widths.ep_status_w)
        (column empty rows "Name" (λ row. row.row_name) true) ui.widths.ep_type_status_w

  unfoldable pub overview_split : Interface → CliUiController → F.Element
  unfolding agent_split endpoint_split
  overview_split ui c =
      F.resizable_split_left
        (F.border (F.vbox (heading "Agent List" ∷ F.separator ∷ agent_split ui c.agent_rows ∷ [])))
        (F.border
          (F.vbox (heading "Endpoint List" ∷ F.separator ∷ endpoint_split ui c.endpoint_rows ∷ [])))
        ui.widths.overview_agent_width

  unfoldable pub layout : Interface → CliUiController → F.Element
  unfolding command_pane command_result_pane overview_split
  layout ui c = F.border (
      F.vbox (
        F.border (F.center (F.bold (F.text "Mavlink Hub UI")))
        ∷ F.flex
            (F.hbox (F.border (command_pane ui c) ∷ F.border (F.flex (command_result_pane c)) ∷ []))
        ∷ overview_split ui c
        ∷ F.notflex (F.border (F.text ("Application Status: " <> ui.app_status)))
        ∷ []))
