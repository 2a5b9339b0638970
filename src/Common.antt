-- ===== src/Common.antt =====
-- src/common/types/OperationResult.h: a success flag with messages, and how results combine.
use mavlink_hub.Base.{◌≡◌, ◌↔◌, Bool, true, ◌&&◌, String, List, [], ◌∷◌, ◌++◌, arith}
use mathlib.Core.List.{append_assoc, append-nil}

pub record OperationResult : Type 0 where
  pub success : Bool
  pub messages : List String

-- `OperationResult result;`
abbrev pub fresh : OperationResult
fresh = record { success = true; messages = [] }

-- `this.merge(other)`
abbrev pub merge : OperationResult → OperationResult → OperationResult
merge this other = record {
  success = this.success && other.success;
  messages = this.messages ++ other.messages;
}

-- `result.success = ok; result.messages.push_back(message);` on a fresh result.
abbrev pub report_of : Bool → String → OperationResult
report_of ok message = record { success = ok; messages = message ∷ [] }

-- The results merged in order into `this`, as the loops over sub-operations do.
pub merge_all : OperationResult → List OperationResult → OperationResult
merge_all this [] = this
merge_all this (r ∷ rs) = merge_all (merge this r) rs

abbrev AllSucceed : List OperationResult → Type 0
AllSucceed [] = Unit {0}
AllSucceed (r ∷ rs) = (r.success ≡ true) × AllSucceed rs

abbrev all_messages : List OperationResult → List String
all_messages [] = []
all_messages (r ∷ rs) = r.messages ++ all_messages rs

merge_all-success :
    (this : OperationResult) (rs : List OperationResult)
    → ((merge_all this rs).success ≡ true) ↔ ((this.success ≡ true) × AllSucceed rs)
unfolding merge_all
merge_all-success this [] = (λ h. (h, tt), λ h. h.0)
merge_all-success this (r ∷ rs) = ground (arith, merge_all-success (merge this r) rs)

merge_all-messages :
    (this : OperationResult) (rs : List OperationResult)
    → (merge_all this rs).messages ≡ this.messages ++ all_messages rs
unfolding merge_all
merge_all-messages this [] = rw append-nil
merge_all-messages this (r ∷ rs) = rw (merge_all-messages (merge this r) rs, append_assoc)
