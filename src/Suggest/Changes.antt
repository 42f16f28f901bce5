-- ===== src/Suggest/Changes.antt =====
-- The undo history of internal/suggest/changes.go.
use Prim.Native.String.{String}
use text.Mathlib.Text.{◌==◌ as str_eq}
use torana_edge.Prelude.{
  ℕ, List, [], ◌∷◌, Bool, true, false, ◌&&◌, not, Option, none, some, leb, ltb, length,
  if◌then◌else◌,
}
use torana_edge.Prelude.Assoc.{lookup, insert, remove}
use torana_edge.Suggest.{
  Suggestion, ChangeStatus, prepared, applied, undoing, ChangeRecord, Record, not_found, limit,
  state_conflict, max_changes,
}
use torana_edge.Suggest.Records.{is_accepted}
use torana_edge.Suggest.Creation.{Outcome, ok, err}
use torana_edge.Suggest.Operations.{claimable, has_accepted, intent_of, start_applying}

abbrev pub is_open : ChangeStatus → Bool
is_open prepared = true
is_open undoing = true
is_open _ = false

-- The code of the accepted item that the operation belongs to.
unfoldable pub accepted_code : String → List Suggestion → String
accepted_code id [] = ""
accepted_code id (item ∷ items) =
    let rest = accepted_code id items in
    if str_eq item.id id && is_accepted item.status then item.code else rest

-- The oldest change that may go, over the entries of the map in some order; the earlier of two that
-- are as old stays chosen.
unfoldable pub oldest_closed :
    Option (String × ChangeRecord) → List (String × ChangeRecord) → Option (String × ChangeRecord)
oldest_closed chosen [] = chosen
oldest_closed none ((key, change) ∷ changes) =
    oldest_closed (if is_open change.status then none else some (key, change)) changes
oldest_closed (some (k, c)) ((key, change) ∷ changes) =
    oldest_closed
      (if not (is_open change.status) && ltb change.created_at c.created_at
        then some (key, change)
        else some (k, c))
      changes

-- The history with room for one more change.
unfoldable pub room_for_change :
    List (String × ChangeRecord) → Outcome (List (String × ChangeRecord))
unfolding oldest_closed
room_for_change changes =
    if leb max_changes (length changes)
    then elim (oldest_closed none changes) [
      | none ↦ err limit
      | some (key, change) ↦ ok (remove key changes)
    ]
    else ok changes

-- `PrepareOperationChange`'s change, with the sealed intent that the call returns.
unfoldable pub prepare_operation_change :
    String → String → String → ℕ → Record → Outcome (Record × String)
prepare_operation_change id sealed_undo post_revision now current =
    let operation = lookup id current.operations in
    let code = accepted_code id current.suggestions in
    if claimable now operation && has_accepted id current.suggestions
    then elim (room_for_change current.changes) [
      | err e ↦ err e
      | ok changes ↦ ok (
        record current {
          changes =
              insert id
                (record {
                  id = id;
                  status = prepared;
                  created_at = now;
                  code = code;
                  sealed_undo = sealed_undo;
                  revision = post_revision;
                })
                changes;
          operations = start_applying id operation current.operations;
        },
        intent_of operation,
      )
    ]
    else err not_found

abbrev pub is_applied : ChangeStatus → Bool
is_applied applied = true
is_applied _ = false

abbrev pub is_undoing : ChangeStatus → Bool
is_undoing undoing = true
is_undoing _ = false

-- `ClaimUndo`'s change, with the sealed snapshot that the call returns.
unfoldable pub claim_undo : String → String → Record → Outcome (Record × String)
claim_undo change_id actual_revision current = elim (lookup change_id current.changes) [
  | none ↦ err not_found
  | some change ↦
      if not (is_applied change.status)
      then err not_found
      else if not (str_eq actual_revision change.revision)
      then err state_conflict
      else ok (
        record current {
          changes = insert change_id (record change { status = undoing }) current.changes;
        },
        change.sealed_undo,
      )
]

-- What an undo may end with; any other text is refused.
pub data UndoOutcome : Type 0 where
  undone failed conflict : UndoOutcome

abbrev pub undo_status : UndoOutcome → ChangeStatus
undo_status UndoOutcome.undone = ChangeStatus.undone
undo_status UndoOutcome.failed = ChangeStatus.failed
undo_status UndoOutcome.conflict = ChangeStatus.conflict

-- `FinishUndo`'s change.
unfoldable pub finish_undo : String → UndoOutcome → Record → Outcome Record
finish_undo id outcome current = elim (lookup id current.changes) [
  | none ↦ err not_found
  | some change ↦
      if is_undoing change.status
      then ok (record current {
        changes =
            insert id (record change { status = undo_status outcome; sealed_undo = "" })
              current.changes;
      })
      else err not_found
]
