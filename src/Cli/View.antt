-- ===== src/Cli/View.antt =====
-- src/app/ui_handler/CliUiHandler.cpp: what the terminal interface shows of the controller's state.
use Prim.Native.Nat.{max, ◌%◌}
use Prim.Native.String.{len}
use mavlink_hub.Base.{
  ℕ, ◌+◌, ◌-◌, String, ◌<>◌, Bool, true, false, Option, none, some, List, [], ◌∷◌, ◌++◌, map,
  if◌then◌else◌, ◌==◌,
}
use mavlink_hub.Base.Count.{ℤ, pos, negsuc}
use mavlink_hub.Base.Length.{length}
use mavlink_hub.Service.Commands.{AppServiceCommandDescriptor, get_elem?}
use mavlink_hub.Cli.Controller.{CliUiController, OverviewRow, command_descriptors, ltb}

-- The elements of FTXUI that the view is made of. A decorator that follows `|` is a function; the
-- last fields are what its own components render, of what they are given.
pub record Ftxui : Type 1 where
  pub Element : Type 0
  pub Color : Type 0
  pub text : String → Element
  pub separator : Element
  pub filler : Element
  pub vbox : List Element → Element
  pub hbox : List Element → Element
  pub bold : Element → Element
  pub dim : Element → Element
  pub center : Element → Element
  pub border : Element → Element
  pub flex : Element → Element
  pub notflex : Element → Element
  pub frame : Element → Element
  pub vscroll_indicator : Element → Element
  pub inverted : Element → Element
  pub bgcolor : Color → Element → Element
  pub color : Color → Element → Element
  pub size_width_greater_than : ℕ → Element → Element
  pub orange1 : Color
  pub green : Color
  pub black : Color
  pub white : Color
  pub menu : List String → ℤ → Element
  pub vertical : List Element → Element
  pub input : String → String → Element
  pub resizable_split_left : Element → Element → ℕ → Element
  pub resizable_split_right : Element → Element → ℕ → Element

abbrev pub command_info_selected_label : String
command_info_selected_label = " Selected Command: "

abbrev pub command_info_payload_hint_label : String
command_info_payload_hint_label = "          Payload: "

-- The loop of the constructor: `max_command_name_len`.
unfoldable pub widest_name : ℕ → List AppServiceCommandDescriptor → ℕ
widest_name width [] = width
widest_name width (d ∷ descriptors) = widest_name (max width (len d.name)) descriptors

unfoldable pub max_command_info_len : ℕ
unfolding widest_name
max_command_info_len =
    widest_name 0 command_descriptors
    + max (len command_info_selected_label) (len command_info_payload_hint_label)

-- `descriptors[committed_command]`, behind the test of the view that the index is in range.
unfoldable pub shown_descriptor : CliUiController → Option AppServiceCommandDescriptor
shown_descriptor c = elim c.committed_command [
  | pos n ↦ if ltb n (length command_descriptors) then get_elem? command_descriptors n else none
  | negsuc n ↦ none
]

abbrev pub selected_name : Option AppServiceCommandDescriptor → String
selected_name none = "none"
selected_name (some descriptor) = descriptor.name

abbrev pub shown_hint : Option AppServiceCommandDescriptor → String
shown_hint none = "-"
shown_hint (some descriptor) = if descriptor.requires_payload then "required" else "not required"

-- The two lines of the info box.
unfoldable pub selected_line : CliUiController → String
selected_line c = command_info_selected_label <> selected_name (shown_descriptor c)

unfoldable pub payload_line : CliUiController → String
payload_line c = command_info_payload_hint_label <> shown_hint (shown_descriptor c)

-- `stop`, while a command is under way.
abbrev pub waiting_for : Option AppServiceCommandDescriptor → String
waiting_for none = "a command"
waiting_for (some descriptor) = descriptor.name

unfoldable pub exiting_status : CliUiController → String
exiting_status c = "Exiting - waiting for: " <> waiting_for (shown_descriptor c)

-- Body cells of one column. An empty table has one row, marked in its first column.
unfoldable pub col_body : List OverviewRow → (OverviewRow → String) → Bool → List String
col_body [] field is_marker_col = (if is_marker_col then "(empty)" else "") ∷ []
col_body (row ∷ rows) field is_marker_col = map field (row ∷ rows)

-- The columns of the two tables, from the left, with their headers.
unfoldable pub agent_columns : List OverviewRow → List (String × List String)
agent_columns rows =
    ("Name", col_body rows (λ row. row.row_name) true)
    ∷ ("Type", col_body rows (λ row. row.row_type) false)
    ∷ ("Status", col_body rows (λ row. row.row_status) false)
    ∷ ("Report", col_body rows (λ row. row.row_report) false)
    ∷ []

-- The status and type columns stand to the right of the name column.
unfoldable pub endpoint_columns : List OverviewRow → List (String × List String)
endpoint_columns rows =
    ("Name", col_body rows (λ row. row.row_name) true)
    ∷ ("Type", col_body rows (λ row. row.row_type) false)
    ∷ ("Status", col_body rows (λ row. row.row_status) false)
    ∷ []

module _ (F : Ftxui) where
  abbrev pub cells : Bool → List String → List F.Element
  cells dim_bodies [] = []
  cells dim_bodies (v ∷ body) =
      let rest = cells dim_bodies body in (if dim_bodies then F.dim (F.text v) else F.text v) ∷ rest

  unfoldable pub make_col : String → List String → Bool → F.Element
  make_col header body dim_bodies =
      F.vbox (F.center (F.bold (F.text header)) ∷ F.separator ∷ cells dim_bodies body)

  -- The content of the result pane.
  unfoldable pub result_content : CliUiController → List F.Element
  result_content c = elim c.command_result [
    | none ↦ F.dim (F.text "(empty)") ∷ []
    | some result ↦
        F.bold (F.text c.executed_command)
          ∷ F.bold (F.text (if result.success then "SUCCESS" else "FAILED"))
          ∷ map F.text result.message
        ++ data_lines result.result_data
  ]
    where
      data_lines : String → List F.Element
      data_lines extra = if extra == "" then [] else F.separator ∷ F.dim (F.text extra) ∷ []

-- `static_cast<std::size_t>` of an int.
abbrev pub size_t_of : ℤ → ℕ
size_t_of (pos n) = n
size_t_of (negsuc n) = 18446744073709551615 - n

-- The first box that has the focus, or the first box.
unfoldable pub focused_index : List Bool → ℕ
focused_index boxes = elim (find_from 0 boxes) [ none ↦ 0 | some i ↦ i ]
  where
    find_from : ℕ → List Bool → Option ℕ
    find_from i [] = none
    find_from i (here ∷ rest) = let later = find_from (i + 1) rest in if here then some i else later

-- The box that takes the focus next, with the sums wrapped around at 2 ^ 64.
unfoldable pub focus_next_box : ℤ → List Bool → ℕ
focus_next_box direction boxes =
    ((focused_index boxes + size_t_of direction) % 18446744073709551616 + length boxes)
    % 18446744073709551616
    % length boxes
