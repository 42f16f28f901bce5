-- ===== src/Suggest/Calls.antt =====
-- Every change that internal/suggest makes to a stored record, as one function of the call. A call
-- that is refused leaves the record, since `update` then writes nothing.
use Prim.Native.String.{String}
use torana_edge.Suggest.Hint.{HintCall, hint_change}
use torana_edge.Prelude.{ℕ, Bool, List, [], ◌∷◌, Option}
use torana_edge.Suggest.{OperationRecord, Record}
use torana_edge.Suggest.Records.{
  Resolution, status_of, expire, resolve, by_id, by_code, accept_harness_switch_via,
  observe_adapter_switch, claim_hook_announcement, disable_notices, observe_user_turn,
}
use torana_edge.Suggest.Creation.{SuggestArgs, Outcome, ok, err, create}
use torana_edge.Suggest.Operations.{claim_operation, OperationOutcome, finish_operation}
use torana_edge.Suggest.Changes.{prepare_operation_change, claim_undo, UndoOutcome, finish_undo}

pub data Call : Type 0 where
  list : ℕ → ℕ → Call
  resolve_id : String → Resolution → String → ℕ → ℕ → Call
  resolve_code : String → Resolution → String → ℕ → ℕ → Call
  switch_via : String → String → ℕ → ℕ → Call
  adapter_switch : String → String → ℕ → ℕ → Call
  announce : ℕ → ℕ → Call
  disable : Call
  user_turn : String → Call
  add :
      (ℕ → String) → String → String → String → SuggestArgs → Option OperationRecord → ℕ → ℕ → Call
  claim : String → ℕ → Call
  finish : String → OperationOutcome → Call
  prepare : String → String → String → ℕ → Call
  undo : String → String → Call
  finish_undoing : String → UndoOutcome → Call
  hint : HintCall → String → String → Call

abbrev pub after : Record → Outcome Record → Record
after r (ok r') = r'
after r (err e) = r

abbrev pub after_with {ℓ} : {A : Type ℓ} → Record → Outcome (Record × A) → Record
after_with r (ok (r', a)) = r'
after_with r (err e) = r

abbrev pub after_change {ℓ} : {A : Type ℓ} → Record → Outcome (Record × Bool × A) → Record
after_change r (ok (r', changed, a)) = r'
after_change r (err e) = r

unfoldable pub apply : Call → Record → Record
apply (list now turn) r = (expire now turn r).0
apply (resolve_id id to via now turn) r = (resolve (by_id id) (status_of to) via now turn r).0
apply (resolve_code code to via now turn) r =
    (resolve (by_code code) (status_of to) via now turn r).0
apply (switch_via model via now turn) r = (accept_harness_switch_via model via now turn r).0
apply (adapter_switch model source now turn) r = (observe_adapter_switch model source now turn r).0
apply (announce now turn) r = (claim_hook_announcement now turn r).0
apply disable r = (disable_notices r).0
apply (user_turn signature) r = (observe_user_turn signature r).0
apply (add candidate id conversation plugin args operation now turn) r =
    after_with r (create candidate id conversation plugin args operation now turn r)
apply (claim id now) r = after_with r (claim_operation id now r)
apply (finish id outcome) r = after r (finish_operation id outcome r)
apply (prepare id sealed_undo revision now) r =
    after_with r (prepare_operation_change id sealed_undo revision now r)
apply (undo id revision) r = after_with r (claim_undo id revision r)
apply (finish_undoing id outcome) r = after r (finish_undo id outcome r)
apply (hint call name id) r = after_change r (hint_change call name id "" r)

abbrev pub apply_all : List Call → Record → Record
apply_all [] r = r
apply_all (c ∷ cs) r = apply_all cs (apply c r)
