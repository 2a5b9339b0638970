-- ===== src/Cli/ViewLaws.antt =====
-- The view of src/app/ui_handler/CliUiHandler.cpp agrees with the controller.
use Prim.Native.Nat.{max}
use native.Mathlib.Nat.{suc-max-suc, zero-max}
use mavlink_hub.Base.{
  ℕ, zero, suc, ◌+◌, ◌<◌, String, ◌≡◌, refl, sym, ap, ◌∙◌, Bool, true, false, Option, none, some,
  List, [], ◌∷◌, map, same, ◌-◌, if◌then◌else◌, arith, ◌⊎◌, inl, inr, Option-cases,
}
use mavlink_hub.Base.Count.{ℤ, pos, negsuc}
use mavlink_hub.Base.Length.{length}
use mavlink_hub.Service.Commands.{AppServiceCommandDescriptor, get_elem?}
use mavlink_hub.Cli.Controller.{
  CliUiController, OverviewRow, execute_current_command, launch, running, ltb, committed_descriptor,
  valid_committed_command, command_descriptors,
}
use mavlink_hub.Cli.View.{
  focused_index, focus_next_box, agent_columns, endpoint_columns, col_body, shown_descriptor,
  selected_name,
}

-- Tab and the reverse tab, on the three boxes of the interface: the focus goes to the next box, in
-- the cyclic order, and to the previous one. The unsigned sums do not disturb this, though -1 is
-- 2 ^ 64 - 1 there.
pub focus_next_box_cyclic :
    (boxes : List Bool)
    → length boxes ≡ 3
    → (focus_next_box (pos 1) boxes
        ≡ (if same (focused_index boxes) 2 then 0 else focused_index boxes + 1))
      × (focus_next_box (negsuc 0) boxes
          ≡ (if same (focused_index boxes) 0 then 2 else focused_index boxes - 1))
      × (focused_index boxes < 3)
unfolding focus_next_box focused_index
focus_next_box_cyclic (true ∷ b ∷ c ∷ []) e = (refl, refl, omega arith)
focus_next_box_cyclic (false ∷ true ∷ c ∷ []) e = (refl, refl, omega arith)
focus_next_box_cyclic (false ∷ false ∷ true ∷ []) e = (refl, refl, omega arith)
focus_next_box_cyclic (false ∷ false ∷ false ∷ []) e = (refl, refl, omega arith)
focus_next_box_cyclic [] e = ground arith
focus_next_box_cyclic (a ∷ []) e = ground arith
focus_next_box_cyclic (a ∷ b ∷ []) e = ground arith
focus_next_box_cyclic (a ∷ b ∷ c ∷ d ∷ boxes) e = ground arith

-- The view and the controller each test the committed index and take the row at it.
shown_descriptor-committed :
    (c : CliUiController)
    → shown_descriptor c ≡ (if valid_committed_command c then committed_descriptor c else none)
unfolding shown_descriptor valid_committed_command committed_descriptor command_descriptors
shown_descriptor-committed c = go c.committed_command
  where
    go :
        (i : ℤ)
        → elim i [
          | pos n ↦
              if ltb n (length command_descriptors) then get_elem? command_descriptors n else none
          | negsuc n ↦ none
        ]
          ≡ (if elim i [ pos n ↦ ltb n 8 | negsuc n ↦ false ]
              then elim i [ pos n ↦ get_elem? command_descriptors n | negsuc n ↦ none ]
              else none)
    go (pos n) = refl
    go (negsuc n) = refl

-- While no command is under way, the Execute button starts the command that the info box shows, with
-- the payload that is typed in; where the box shows "none", it changes nothing.
pub execute_starts_shown :
    (c : CliUiController)
    → c.executing ≡ false
    → let after = execute_current_command c in
      ((shown_descriptor c ≡ none) × ((selected_name (shown_descriptor c) ≡ "none") × (after ≡ c)))
      ⊎ ((d : AppServiceCommandDescriptor) × (shown_descriptor c ≡ some d)
          × (after.execute_thread
              ≡ running (record { cmd_type = d.type; payload = c.payload_text }))
          × (after.executing ≡ true)
          × (after.executed_command ≡ selected_name (shown_descriptor c)))
unfolding execute_current_command launch
execute_starts_shown c e =
    let agree = shown_descriptor-committed c in
    elim (Option-cases (shown_descriptor c)) [
      | inl nothing ↦ inl (nothing, (ground (arith, nothing), ground (arith, agree, nothing)))
      | inr (d, shown) ↦ inr (
        d,
        shown,
        ground (arith, agree, shown),
        ground (arith, agree, shown),
        ground (arith, agree, shown),
      )
    ]

get_elem?-map :
    (field : OverviewRow → String) (rows : List OverviewRow) (i : ℕ) (row : OverviewRow)
    → get_elem? rows i ≡ some row
    → get_elem? (map field rows) i ≡ some (field row)
unfolding get_elem?
get_elem?-map field [] i row e = cc
get_elem?-map field (x ∷ rows) zero row e = ground arith
get_elem?-map field (x ∷ rows) (suc i) row e = get_elem?-map field rows i row e

length-map :
    (field : OverviewRow → String) (rows : List OverviewRow) → length (map field rows) ≡ length rows
length-map field [] = refl
length-map field (x ∷ rows) = ap suc (length-map field rows)

col_body-cell :
    (rows : List OverviewRow) (field : OverviewRow → String) (marker : Bool) (i : ℕ)
    (row : OverviewRow)
    → get_elem? rows i ≡ some row
    → get_elem? (col_body rows field marker) i ≡ some (field row)
unfolding col_body get_elem?
col_body-cell [] field marker i row e = cc
col_body-cell (x ∷ rows) field marker i row e = get_elem?-map field (x ∷ rows) i row e

col_body-length :
    (rows : List OverviewRow) (field : OverviewRow → String) (marker : Bool)
    → length (col_body rows field marker) ≡ max 1 (length rows)
unfolding col_body
col_body-length [] field marker = refl
col_body-length (x ∷ rows) field marker =
    ap suc (length-map field rows)
    ∙ sym (suc-max-suc 0 (length rows) ∙ ap suc (zero-max (length rows)))

-- What every column of a table has in the row `i`, and how long its column is.
abbrev pub row_cells : ℕ → List (String × List String) → List (Option String)
row_cells i columns = map (λ column. get_elem? column.1 i) columns

abbrev pub AllLong : ℕ → List (String × List String) → Type 0
AllLong n [] = Unit {0}
AllLong n (column ∷ columns) = (length column.1 ≡ n) × AllLong n columns

-- In both tables every column has as many cells as the controller's list has rows, or one over an
-- empty list, and the cells at one height are the fields of one row, in the order of the list.
pub tables_show_rows :
    (rows : List OverviewRow)
    → AllLong (max 1 (length rows)) (agent_columns rows)
      × AllLong (max 1 (length rows)) (endpoint_columns rows)
      × ((i : ℕ) (row : OverviewRow)
          → get_elem? rows i ≡ some row
          → (row_cells i (agent_columns rows)
              ≡ some row.row_name
                ∷ some row.row_type
                ∷ some row.row_status
                ∷ some row.row_report
                ∷ [])
            × (row_cells i (endpoint_columns rows)
                ≡ some row.row_name ∷ some row.row_type ∷ some row.row_status ∷ []))
unfolding agent_columns endpoint_columns
tables_show_rows rows = (
  (long _ _, (long _ _, (long _ _, (long _ _, tt)))),
  (long _ _, (long _ _, (long _ _, tt))),
  λ i row e.
      let name = col_body-cell rows (λ r. r.row_name) true i row e in
      let type = col_body-cell rows (λ r. r.row_type) false i row e in
      let status = col_body-cell rows (λ r. r.row_status) false i row e in
      let report = col_body-cell rows (λ r. r.row_report) false i row e in (cc, cc),
)
  where
    long :
        (field : OverviewRow → String) (marker : Bool)
        → length (col_body rows field marker) ≡ max 1 (length rows)
    long = col_body-length rows
