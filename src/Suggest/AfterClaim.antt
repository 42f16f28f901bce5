-- ===== src/Suggest/AfterClaim.antt =====
-- Every call of internal/suggest on a record keeps an operation spent: not pending, and claimed if
-- it is still there.
use Prim.Native.String.{String}
use text.Mathlib.Text.{◌==◌ as str_eq}
use text.Mathlib.TextEquality.{eq_iff}
use torana_edge.Prelude.{
  ℕ, ◌≡◌, List, [], ◌∷◌, ◌++◌, true, false, Option, some, arith, Bool-cases, Option-cases, inl, inr,
  leb, length,
}
use torana_edge.Prelude.Assoc.{lookup}
use torana_edge.Suggest.{OperationRecord, Record, not_found, max_records}
use torana_edge.Suggest.Records.{expire, by_id, by_code, disable_notices, observe_user_turn}
use torana_edge.Suggest.Creation.{
  SuggestArgs, err, prune_operation_payloads, find_refresh, supersede_all, make_room, pick_code,
  add_suggestion, refresh_suggestion, create, id_at, new_suggestion, suggestion_codes, change_codes,
}
use torana_edge.Suggest.Operations.{claimable, claim_operation, finish_operation, OperationOutcome}
use torana_edge.Suggest.Changes.{prepare_operation_change, claim_undo, finish_undo, UndoOutcome}
use torana_edge.Suggest.Hint.{HintCall, setup_suggestion, hint_change}
use torana_edge.Suggest.Calls.{
  Call, list, resolve_id, resolve_code, switch_via, adapter_switch, announce, disable, user_turn,
  add, claim, finish, prepare, undo, finish_undoing, hint, after_change, after, after_with, apply,
  apply_all,
}
use torana_edge.Suggest.Spent

-- A call that adds a suggestion does so under an identifier of its own.
abbrev pub IsFreshFor : String → Call → Type 0
IsFreshFor id (add candidate new conversation plugin args operation now turn) =
    str_eq new id ≡ false
IsFreshFor id (hint call name new) = str_eq new id ≡ false
IsFreshFor id _ = Unit {0}

abbrev pub AllFreshFor : String → List Call → Type 0
AllFreshFor id [] = Unit
AllFreshFor id (c ∷ cs) = IsFreshFor id c × AllFreshFor id cs

module _ (id : String) where
  refresh-IsSpent :
      (plugin : String) (args : SuggestArgs) (o : Option OperationRecord) (turn i : ℕ) (r : Record)
      → Spent.IsSpent id r
      → find_refresh plugin args o r.operations 0 r.suggestions ≡ some i
      → Spent.IsSpent id (refresh_suggestion i plugin args o turn r).0
  unfolding refresh_suggestion
  refresh-IsSpent plugin args o turn i r s f = record {
    settled = Spent.refresh_at-settled id plugin args o turn i r.suggestions s.settled;
    spent =
        Spent.put_operation-claimed id (id_at i r.suggestions) o r.operations
          (Spent.find_refresh-other id plugin args o r.operations 0 i i r.suggestions s.settled
            (omega arith) f)
          s.spent;
  }

  add-IsSpent :
      (candidate : ℕ → String) (new conversation plugin : String) (args : SuggestArgs)
      (o : Option OperationRecord) (now turn : ℕ) (r base : Record)
      → str_eq new id ≡ false
      → Spent.IsSpent id base
      → Spent.IsSpent id r
      → Spent.IsSpent id
          (after_with base (add_suggestion candidate new conversation plugin args o now turn r))
  unfolding add_suggestion
  add-IsSpent candidate new conversation plugin args o now turn r base n b s =
      let kept = make_room r.operations (supersede_all plugin args o r.suggestions) in
      let used = change_codes r.changes ++ suggestion_codes r.suggestions in
      elim (Bool-cases (leb max_records (length kept))) [
        | inl full ↦ rw full b
        | inr room ↦ elim (Option-cases (pick_code candidate used 0 16)) [
          | inl taken ↦ rw (room, taken) b
          | inr (code, picked) ↦
              rw (room, picked)
                (Spent.prune-IsSpent id _ (record {
                  settled =
                      Spent.append-settled id kept
                        (new_suggestion new code plugin conversation args now turn)
                        (Spent.make_room-settled id r.operations _
                          (Spent.supersede_all-settled id plugin args o r.suggestions s.settled))
                        n;
                  spent = Spent.put_operation-claimed id new o r.operations n s.spent;
                }))
        ]
      ]

  create-IsSpent :
      (candidate : ℕ → String) (new conversation plugin : String) (args : SuggestArgs)
      (o : Option OperationRecord) (now turn : ℕ) (r : Record)
      → str_eq new id ≡ false
      → Spent.IsSpent id r
      → Spent.IsSpent id (after_with r (create candidate new conversation plugin args o now turn r))
  unfolding create
  create-IsSpent candidate new conversation plugin args o now turn r n s =
      let fresh = prune_operation_payloads (expire now turn r).0 in
      let kept = Spent.prune-IsSpent id _ (Spent.expire-IsSpent id now turn r s) in
      elim (Option-cases (find_refresh plugin args o fresh.operations 0 fresh.suggestions)) [
        | inl new_intent ↦
            rw (new_intent, after_with)
              (add-IsSpent candidate new conversation plugin args o now turn fresh r n s kept)
        | inr (i, found) ↦
            rw (found, after_with) (refresh-IsSpent plugin args o turn i fresh kept found)
      ]

  pub claim_operation-refused :
      (now : ℕ) (r : Record) → Spent.IsSpent id r → claim_operation id now r ≡ err not_found
  unfolding claim_operation
  claim_operation-refused now r s =
      ground (arith, Spent.claimable-all_claimed id now r.operations s.spent)

  pub prepare_operation_change-refused :
      (undo_text revision : String) (now : ℕ) (r : Record)
      → Spent.IsSpent id r
      → prepare_operation_change id undo_text revision now r ≡ err not_found
  unfolding prepare_operation_change
  prepare_operation_change-refused undo_text revision now r s =
      ground (arith, Spent.claimable-all_claimed id now r.operations s.spent)

  claimable-spent :
      (k : String) (now : ℕ) (r : Record)
      → Spent.IsSpent id r
      → str_eq k id ≡ true
      → claimable now (lookup k r.operations) ≡ false
  claimable-spent k now r s e =
      rw ((eq_iff k id).0 e) (Spent.claimable-all_claimed id now r.operations s.spent)

  claim-IsSpent :
      (k : String) (now : ℕ) (r : Record)
      → Spent.IsSpent id r
      → Spent.IsSpent id (after_with r (claim_operation k now r))
  unfolding claim_operation
  claim-IsSpent k now r s = record {
    settled = ground (arith, s.settled);
    spent = ground (
      arith,
      s.spent,
      claimable-spent k now r s,
      Spent.start_applying-claimed id k (lookup k r.operations) r.operations,
    );
  }

  prepare-IsSpent :
      (k undo_text revision : String) (now : ℕ) (r : Record)
      → Spent.IsSpent id r
      → Spent.IsSpent id (after_with r (prepare_operation_change k undo_text revision now r))
  unfolding prepare_operation_change
  prepare-IsSpent k undo_text revision now r s = record {
    settled = ground (arith, s.settled);
    spent = ground (
      arith,
      s.spent,
      claimable-spent k now r s,
      Spent.start_applying-claimed id k (lookup k r.operations) r.operations,
    );
  }

  finish-IsSpent :
      (k : String) (outcome : OperationOutcome) (r : Record)
      → Spent.IsSpent id r
      → Spent.IsSpent id (after r (finish_operation k outcome r))
  unfolding finish_operation
  finish-IsSpent k outcome r s = record {
    settled = ground (arith, s.settled, Spent.set_outcome-settled id k outcome r.suggestions);
    spent = ground (arith, s.spent, Spent.all_claimed-remove id k r.operations);
  }

  undo-IsSpent :
      (k revision : String) (r : Record)
      → Spent.IsSpent id r
      → Spent.IsSpent id (after_with r (claim_undo k revision r))
  unfolding claim_undo
  undo-IsSpent k revision r s = record {
    settled = ground (arith, s.settled);
    spent = ground (arith, s.spent);
  }

  finish_undo-IsSpent :
      (k : String) (outcome : UndoOutcome) (r : Record)
      → Spent.IsSpent id r
      → Spent.IsSpent id (after r (finish_undo k outcome r))
  unfolding finish_undo
  finish_undo-IsSpent k outcome r s = record {
    settled = ground (arith, s.settled);
    spent = ground (arith, s.spent);
  }

  hint-IsSpent :
      (call : HintCall) (name new created : String) (r : Record)
      → str_eq new id ≡ false
      → Spent.IsSpent id r
      → Spent.IsSpent id (after_change r (hint_change call name new created r))
  unfolding hint_change
  hint-IsSpent call name new created r n s = record {
    settled = ground (
      arith,
      s.settled,
      Spent.append-settled id r.suggestions (setup_suggestion call name new) s.settled n,
    );
    spent = ground (arith, s.spent);
  }

  apply-IsSpent :
      (c : Call) (r : Record) → IsFreshFor id c → Spent.IsSpent id r → Spent.IsSpent id (apply c r)
  unfolding apply disable_notices observe_user_turn
  apply-IsSpent (list now turn) r n s = Spent.expire-IsSpent id now turn r s
  apply-IsSpent (resolve_id k to via now turn) r n s =
      Spent.resolve-IsSpent id (by_id k) to via now turn r s
  apply-IsSpent (resolve_code code to via now turn) r n s =
      Spent.resolve-IsSpent id (by_code code) to via now turn r s
  apply-IsSpent (switch_via model via now turn) r n s =
      Spent.switch_via-IsSpent id model via now turn r s
  apply-IsSpent (adapter_switch model source now turn) r n s =
      Spent.adapter_switch-IsSpent id model source now turn r s
  apply-IsSpent (announce now turn) r n s = Spent.announce-IsSpent id now turn r s
  apply-IsSpent disable r n s = record {
    settled = ground (arith, s.settled);
    spent = ground (arith, s.spent);
  }
  apply-IsSpent (user_turn signature) r n s = record {
    settled = ground (arith, s.settled);
    spent = ground (arith, s.spent);
  }
  apply-IsSpent (add candidate new conversation plugin args operation now turn) r n s =
      create-IsSpent candidate new conversation plugin args operation now turn r n s
  apply-IsSpent (claim k now) r n s = claim-IsSpent k now r s
  apply-IsSpent (finish k outcome) r n s = finish-IsSpent k outcome r s
  apply-IsSpent (prepare k undo_text revision now) r n s =
      prepare-IsSpent k undo_text revision now r s
  apply-IsSpent (undo k revision) r n s = undo-IsSpent k revision r s
  apply-IsSpent (finish_undoing k outcome) r n s = finish_undo-IsSpent k outcome r s
  apply-IsSpent (hint call name new) r n s = hint-IsSpent call name new "" r n s

  pub apply_all-IsSpent :
      (cs : List Call) (r : Record)
      → AllFreshFor id cs
      → Spent.IsSpent id r
      → Spent.IsSpent id (apply_all cs r)
  apply_all-IsSpent [] r n s = s
  apply_all-IsSpent (c ∷ cs) r n s = apply_all-IsSpent cs (apply c r) n.1 (apply-IsSpent c r n.0 s)
