-- ===== src/Cli/InfoBox.antt =====
-- The width of the info box of src/app/ui_handler/CliUiHandler.cpp.
use Prim.Native.Nat.{max}
use Prim.Native.String.{len}
use native.Mathlib.Nat.{le-max_left, le-max_right}
use text.Mathlib.TextPositions.{len-append}
use mavlink_hub.Base.{
  ℕ, zero, suc, ◌≤◌, String, ◌<>◌, ◌≡◌, refl, Bool, true, false, Option, none, some, List, [], ◌∷◌,
  if◌then◌else◌, arith,
}
use mavlink_hub.Base.Count.{ℤ, pos, negsuc}
use mavlink_hub.Service.Commands.{AppServiceCommandDescriptor, get_elem?}
use mavlink_hub.Base.Length.{length}
use mavlink_hub.Cli.Controller.{CliUiController, command_descriptors, ltb}
use mavlink_hub.Cli.View.{
  shown_descriptor, selected_name, shown_hint, selected_line, payload_line, max_command_info_len,
  widest_name, command_info_selected_label, command_info_payload_hint_label,
}

widest_name-bound :
    (width : ℕ) (ds : List AppServiceCommandDescriptor)
    → (width ≤ widest_name width ds)
      × ((i : ℕ) (d : AppServiceCommandDescriptor)
          → get_elem? ds i ≡ some d
          → len d.name ≤ widest_name width ds)
unfolding widest_name get_elem?
widest_name-bound width [] = (omega arith, λ i d e. cc)
widest_name-bound width (x ∷ ds) =
    let rest = widest_name-bound (max width (len x.name)) ds in
    (omega (arith, rest.0, le-max_left width (len x.name)), λ i d e. within i d e rest)
  where
    within :
        (i : ℕ) (d : AppServiceCommandDescriptor)
        → get_elem? (x ∷ ds) i ≡ some d
        → (max width (len x.name) ≤ widest_name (max width (len x.name)) ds)
          × ((k : ℕ) (d' : AppServiceCommandDescriptor)
              → get_elem? ds k ≡ some d'
              → len d'.name ≤ widest_name (max width (len x.name)) ds)
        → len d.name ≤ widest_name (max width (len x.name)) ds
    within zero d e rest = ground (arith, rest.0, le-max_right width (len x.name))
    within (suc i) d e rest = rest.1 i d e

abbrev widest : ℕ
widest = widest_name 0 command_descriptors

shown_descriptor-fits :
    (c : CliUiController) (d : AppServiceCommandDescriptor)
    → shown_descriptor c ≡ some d
    → len d.name ≤ widest
unfolding shown_descriptor
shown_descriptor-fits c d e = go c.committed_command e
  where
    go :
        (i : ℤ)
        → elim i [
          | pos n ↦
              if ltb n (length command_descriptors) then get_elem? command_descriptors n else none
          | negsuc n ↦ none
        ]
          ≡ some d
        → len d.name ≤ widest
    go (pos n) h = ground (arith, (widest_name-bound 0 command_descriptors).1 n d)
    go (negsuc n) h = cc

twelve-fits : 12 ≤ widest
unfolding widest_name command_descriptors
twelve-fits = omega arith

texts-fit :
    (o : Option AppServiceCommandDescriptor)
    → ((d : AppServiceCommandDescriptor) → o ≡ some d → len d.name ≤ widest)
    → (len (selected_name o) ≤ widest) × (len (shown_hint o) ≤ widest)
texts-fit none f = (omega (arith, twelve-fits), omega (arith, twelve-fits))
texts-fit (some d) f = (f d refl, hint d.requires_payload)
  where
    hint : (b : Bool) → len (if b then "required" else "not required") ≤ widest
    hint true = omega (arith, twelve-fits)
    hint false = twelve-fits

-- Both lines of the info box fit into the width that the constructor computes for it, whatever
-- command is committed, and when none is.
pub info_lines_fit :
    (c : CliUiController)
    → (len (selected_line c) ≤ max_command_info_len) × (len (payload_line c) ≤ max_command_info_len)
unfolding selected_line payload_line max_command_info_len
info_lines_fit c =
    let fits = texts-fit (shown_descriptor c) (shown_descriptor-fits c) in
    (
      line command_info_selected_label _ fits.0 (omega arith),
      line command_info_payload_hint_label _ fits.1 (omega arith),
    )
  where
    line :
        (label shown : String)
        → len shown ≤ widest
        → len label ≤ max (len command_info_selected_label) (len command_info_payload_hint_label)
        → len (label <> shown) ≤ max_command_info_len
    line label shown w l = rw len-append (omega (arith, w, l))
