-- ===== src/Suggest/Operations.antt =====
-- The claims of internal/suggest/operation.go on an accepted operation.
use Prim.Native.String.{String}
use text.Mathlib.Text.{◌==◌ as str_eq}
use torana_edge.Prelude.{
  ℕ, List, [], ◌∷◌, Bool, true, false, ◌&&◌, ◌||◌, not, Option, none, some, leb, if◌then◌else◌,
}
use torana_edge.Prelude.Assoc.{lookup, insert, remove}
use torana_edge.Suggest.{Suggestion, OperationRecord, ChangeStatus, ChangeRecord, Record, not_found}
use torana_edge.Suggest.Records.{is_accepted}
use torana_edge.Suggest.Creation.{Outcome, ok, err}

-- The operation is there, not claimed, and not past its time.
unfoldable pub claimable : ℕ → Option OperationRecord → Bool
claimable now none = false
claimable now (some operation) = not (operation.applying || leb operation.expires_at now)

unfoldable pub has_accepted : String → List Suggestion → Bool
has_accepted id [] = false
has_accepted id (item ∷ items) =
    (str_eq item.id id && is_accepted item.status) || has_accepted id items

abbrev pub intent_of : Option OperationRecord → String
intent_of none = ""
intent_of (some operation) = operation.sealed_intent

unfoldable pub accepted_operation_intent : String → ℕ → Record → Outcome String
accepted_operation_intent id now current =
    let operation = lookup id current.operations in
    if claimable now operation && has_accepted id current.suggestions
    then ok (intent_of operation)
    else err not_found

unfoldable pub start_applying :
    String
    → Option OperationRecord
    → List (String × OperationRecord)
    → List (String × OperationRecord)
start_applying id none operations = operations
start_applying id (some operation) operations =
    insert id (record operation { applying = true }) operations

-- `ClaimOperation`'s change, with the sealed intent that the call returns.
unfoldable pub claim_operation : String → ℕ → Record → Outcome (Record × String)
unfolding start_applying
claim_operation id now current =
    let operation = lookup id current.operations in
    if has_accepted id current.suggestions && claimable now operation
    then ok (
      record current { operations = start_applying id operation current.operations },
      intent_of operation,
    )
    else err not_found

-- What an operation may end with; any other text is refused.
pub data OperationOutcome : Type 0 where
  applied failed conflict : OperationOutcome

abbrev pub change_status : OperationOutcome → ChangeStatus
change_status OperationOutcome.applied = ChangeStatus.applied
change_status OperationOutcome.failed = ChangeStatus.failed
change_status OperationOutcome.conflict = ChangeStatus.conflict

abbrev pub outcome_text : OperationOutcome → String
outcome_text OperationOutcome.applied = "applied"
outcome_text OperationOutcome.failed = "failed"
outcome_text OperationOutcome.conflict = "conflict"

abbrev pub undo_after : OperationOutcome → String → String
undo_after OperationOutcome.applied undo = undo
undo_after _ undo = ""

unfoldable pub set_outcome : String → OperationOutcome → List Suggestion → List Suggestion
set_outcome id outcome [] = []
set_outcome id outcome (item ∷ items) =
    let rest = set_outcome id outcome items in
    if str_eq item.id id && is_accepted item.status
    then record item { outcome = outcome_text outcome } ∷ items
    else item ∷ rest

unfoldable pub finish_change :
    String → OperationOutcome → List (String × ChangeRecord) → List (String × ChangeRecord)
finish_change id outcome changes = elim (lookup id changes) [
  | none ↦ changes
  | some change ↦
      insert id
        (record change {
          status = change_status outcome;
          sealed_undo = undo_after outcome change.sealed_undo;
        })
        changes
]

abbrev pub is_applying : Option OperationRecord → Bool
is_applying none = false
is_applying (some operation) = operation.applying

-- `FinishOperation`'s change.
unfoldable pub finish_operation : String → OperationOutcome → Record → Outcome Record
unfolding set_outcome finish_change
finish_operation id outcome current =
    if is_applying (lookup id current.operations) && has_accepted id current.suggestions
    then ok (record current {
      suggestions = set_outcome id outcome current.suggestions;
      changes = finish_change id outcome current.changes;
      operations = remove id current.operations;
    })
    else err not_found
