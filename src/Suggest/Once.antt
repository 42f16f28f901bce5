-- ===== src/Suggest/Once.antt =====
-- A confirmed operation runs at most once: what is claimed can never be claimed again, whatever
-- calls come in between, even after it has finished.
use Prim.Native.String.{String}
use text.Mathlib.Text.{◌==◌ as str_eq}
use torana_edge.Prelude.{
  ℕ, ◌+◌, ◌≤◌, ◌≡◌, refl, List, [], ◌∷◌, true, false, Option, none, some, arith, if◌then◌else◌,
}
use torana_edge.Prelude.Assoc.{lookup, insert}
use torana_edge.Suggest.{OperationRecord, Record, not_found}
use torana_edge.Suggest.Creation.{ok, err}
use torana_edge.Suggest.Operations.{claimable, start_applying, claim_operation}
use torana_edge.Suggest.Changes.{prepare_operation_change}
use torana_edge.Suggest.Calls.{Call, apply_all}
use torana_edge.Suggest.Spent
use torana_edge.Suggest.AfterClaim.{
  AllFreshFor, claim_operation-refused, prepare_operation_change-refused, apply_all-IsSpent,
}

-- The entries of a map under a key; a Go map has at most one.
abbrev pub key_count {ℓ} : {V : Type ℓ} → String → List (String × V) → ℕ
key_count k [] = 0
key_count k ((j, v) ∷ m) = (if str_eq j k then 1 else 0) + key_count k m

absent-claimed :
    (id : String) (m : List (String × OperationRecord))
    → key_count id m ≤ 0
    → Spent.all_claimed id m ≡ true
absent-claimed id [] u = refl
absent-claimed id ((k, v) ∷ m) u = ground (arith, absent-claimed id m)

insert-claimed :
    (id : String) (v : OperationRecord) (m : List (String × OperationRecord))
    → v.applying ≡ true
    → key_count id m ≤ 1
    → Spent.all_claimed id (insert id v m) ≡ true
unfolding insert
insert-claimed id v [] a u = ground arith
insert-claimed id v ((k, w) ∷ m) a u = ground (arith, absent-claimed id m, insert-claimed id v m a)

started-claimed :
    (id : String) (o : Option OperationRecord) (now : ℕ) (m : List (String × OperationRecord))
    → claimable now o ≡ true
    → key_count id m ≤ 1
    → Spent.all_claimed id (start_applying id o m) ≡ true
unfolding claimable start_applying
started-claimed id none now m c u = cc
started-claimed id (some v) now m c u = insert-claimed id (record v { applying = true }) m refl u

claimed-IsSpent :
    (id intent : String) (now : ℕ) (r r' : Record)
    → Spent.has_pending id r.suggestions ≡ false
    → key_count id r.operations ≤ 1
    → claim_operation id now r ≡ ok (r', intent)
    → Spent.IsSpent id r'
unfolding claim_operation
claimed-IsSpent id intent now r r' p u h = record {
  settled = ground (arith, p);
  spent = ground (arith, started-claimed id (lookup id r.operations) now r.operations);
}

-- After an operation was claimed under an identifier that no pending item has, from a record that
-- holds at most one operation under it, no later claim of it succeeds and no change is prepared for
-- it, whatever calls come in between, its end included, as long as new suggestions get identifiers of
-- their own.
pub claim_operation-once :
    (id intent : String) (now later : ℕ) (r r' : Record) (cs : List Call)
    → Spent.has_pending id r.suggestions ≡ false
    → key_count id r.operations ≤ 1
    → claim_operation id now r ≡ ok (r', intent)
    → AllFreshFor id cs
    → (claim_operation id later (apply_all cs r') ≡ err not_found)
      × ((undo_text revision : String)
          → prepare_operation_change id undo_text revision later (apply_all cs r') ≡ err not_found)
claim_operation-once id intent now later r r' cs p u h n =
    let s = apply_all-IsSpent id cs r' n (claimed-IsSpent id intent now r r' p u h) in
    (
      claim_operation-refused id later (apply_all cs r') s,
      λ undo_text revision.
          prepare_operation_change-refused id undo_text revision later (apply_all cs r') s,
    )
