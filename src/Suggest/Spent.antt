-- ===== src/Suggest/Spent.antt =====
-- When the operation of an identifier is used up, and that the changes of internal/suggest keep it
-- so.
use Prim.Native.String.{String}
use text.Mathlib.Text.{◌==◌ as str_eq}
use torana_edge.Prelude.{
  ℕ, zero, suc, ◌+◌, ◌≤◌, ◌≡◌, refl, List, [], ◌∷◌, ◌++◌, Bool, true, false, ◌&&◌, ◌||◌, not,
  Option, none, some, arith, if◌then◌else◌,
}
use torana_edge.Prelude.Assoc.{lookup, insert, remove}
use torana_edge.Suggest.{Suggestion, OperationRecord, Record}
use torana_edge.Suggest.Records.{
  is_pending, runs_out, expire_items, expire, resolve_first, resolve, accept_items,
  accept_harness_switch, accept_harness_switch_via, observe_adapter_switch, announce_first,
  claim_hook_announcement, Resolution, status_of,
}
use torana_edge.Suggest.Creation.{
  SuggestArgs, prune_operations, prune_operation_payloads, find_refresh, refresh_at, supersede_all,
  keep_live, make_room, id_at, put_operation,
}
use torana_edge.Suggest.Operations.{claimable, start_applying, set_outcome, OperationOutcome}

abbrev pub has_pending : String → List Suggestion → Bool
has_pending id [] = false
has_pending id (item ∷ items) =
    (str_eq item.id id && is_pending item.status) || has_pending id items

-- No operation that is stored under the identifier can still be claimed.
abbrev pub all_claimed : String → List (String × OperationRecord) → Bool
all_claimed id [] = true
all_claimed id ((k, operation) ∷ operations) =
    (not (str_eq k id) || operation.applying) && all_claimed id operations

-- The identifier is used up: its operation is gone or claimed, and no item with it waits for an
-- answer.
pub record IsSpent (id : String) (r : Record) : Type 0 where
  pub settled : has_pending id r.suggestions ≡ false
  pub spent : all_claimed id r.operations ≡ true

module _ (id : String) where
  pub all_claimed-remove :
      (k : String) (m : List (String × OperationRecord))
      → all_claimed id m ≡ true
      → all_claimed id (remove k m) ≡ true
  unfolding remove
  all_claimed-remove k [] h = refl
  all_claimed-remove k ((j, v) ∷ m) h = ground (arith, all_claimed-remove k m)

  pub all_claimed-insert :
      (k : String) (v : OperationRecord) (m : List (String × OperationRecord))
      → str_eq k id ≡ false
      → all_claimed id m ≡ true
      → all_claimed id (insert k v m) ≡ true
  unfolding insert
  all_claimed-insert k v [] n h = ground arith
  all_claimed-insert k v ((j, w) ∷ m) n h = ground (arith, all_claimed-insert k v m n)

  pub all_claimed-prune :
      (items : List Suggestion) (m : List (String × OperationRecord))
      → all_claimed id m ≡ true
      → all_claimed id (prune_operations items m) ≡ true
  unfolding prune_operations
  all_claimed-prune items [] h = refl
  all_claimed-prune items ((k, v) ∷ m) h = ground (arith, all_claimed-prune items m)

  pub claimable-all_claimed :
      (now : ℕ) (m : List (String × OperationRecord))
      → all_claimed id m ≡ true
      → claimable now (lookup id m) ≡ false
  unfolding claimable lookup
  claimable-all_claimed now [] h = refl
  claimable-all_claimed now ((k, v) ∷ m) h = ground (arith, claimable-all_claimed now m)

  pub expire_items-settled :
      (now turn : ℕ) (m : List (String × OperationRecord)) (items : List Suggestion)
      → has_pending id items ≡ false
      → has_pending id (expire_items now turn m items).items ≡ false
  unfolding expire_items
  expire_items-settled now turn m [] h = refl
  expire_items-settled now turn m (item ∷ items) h = ground (
    arith,
    expire_items-settled now turn
        (if runs_out now turn (lookup item.id m) item then remove item.id m else m) items,
  )

  pub expire_items-spent :
      (now turn : ℕ) (m : List (String × OperationRecord)) (items : List Suggestion)
      → all_claimed id m ≡ true
      → all_claimed id (expire_items now turn m items).operations ≡ true
  unfolding expire_items
  expire_items-spent now turn m [] h = h
  expire_items-spent now turn m (item ∷ items) h = ground (
    arith,
    all_claimed-remove item.id m h,
    expire_items-spent now turn m items,
    expire_items-spent now turn (remove item.id m) items,
  )

  pub resolve_first-settled :
      (names : Suggestion → Bool) (to : Resolution) (via : String) (items : List Suggestion)
      → has_pending id items ≡ false
      → has_pending id (resolve_first names (status_of to) via items).0 ≡ false
  unfolding resolve_first
  resolve_first-settled names to via [] h = refl
  resolve_first-settled names to via (item ∷ items) h =
      ground (arith, resolve_first-settled names to via items)

  pub accept_items-settled :
      (model via : String) (items : List Suggestion)
      → has_pending id items ≡ false
      → has_pending id (accept_items model via items).0 ≡ false
  unfolding accept_items
  accept_items-settled model via [] h = refl
  accept_items-settled model via (item ∷ items) h =
      ground (arith, accept_items-settled model via items)

  pub announce_first-settled :
      (items : List Suggestion)
      → has_pending id items ≡ false
      → has_pending id (announce_first items).0 ≡ false
  unfolding announce_first
  announce_first-settled [] h = refl
  announce_first-settled (item ∷ items) h = ground (arith, announce_first-settled items)

  pub set_outcome-settled :
      (k : String) (o : OperationOutcome) (items : List Suggestion)
      → has_pending id items ≡ false
      → has_pending id (set_outcome k o items) ≡ false
  unfolding set_outcome
  set_outcome-settled k o [] h = refl
  set_outcome-settled k o (item ∷ items) h = ground (arith, set_outcome-settled k o items)

  pub supersede_all-settled :
      (plugin : String) (args : SuggestArgs) (o : Option OperationRecord) (items : List Suggestion)
      → has_pending id items ≡ false
      → has_pending id (supersede_all plugin args o items) ≡ false
  unfolding supersede_all
  supersede_all-settled plugin args o [] h = refl
  supersede_all-settled plugin args o (item ∷ items) h =
      ground (arith, supersede_all-settled plugin args o items)

  pub refresh_at-settled :
      (plugin : String) (args : SuggestArgs) (o : Option OperationRecord) (turn i : ℕ)
      (items : List Suggestion)
      → has_pending id items ≡ false
      → has_pending id (refresh_at plugin args o turn i items) ≡ false
  unfolding refresh_at
  refresh_at-settled plugin args o turn i [] h = refl
  refresh_at-settled plugin args o turn zero (item ∷ items) h =
      ground (arith, supersede_all-settled plugin args o items)
  refresh_at-settled plugin args o turn (suc i) (item ∷ items) h =
      ground (arith, refresh_at-settled plugin args o turn i items)

  pub find_refresh-le :
      (plugin : String) (args : SuggestArgs) (o : Option OperationRecord)
      (m : List (String × OperationRecord)) (i k : ℕ) (items : List Suggestion)
      → find_refresh plugin args o m i items ≡ some k
      → i ≤ k
  unfolding find_refresh
  find_refresh-le plugin args o m i k [] f = cc
  find_refresh-le plugin args o m i k (item ∷ items) f =
      ground (arith, find_refresh-le plugin args o m (suc i) k items)

  -- The item that is refreshed is pending, so it is another one.
  pub find_refresh-other :
      (plugin : String) (args : SuggestArgs) (o : Option OperationRecord)
      (m : List (String × OperationRecord)) (i j k : ℕ) (items : List Suggestion)
      → has_pending id items ≡ false
      → i + j ≡ k
      → find_refresh plugin args o m i items ≡ some k
      → str_eq (id_at j items) id ≡ false
  unfolding find_refresh
  find_refresh-other plugin args o m i j k [] h e f = cc
  find_refresh-other plugin args o m i zero k (item ∷ items) h e f =
      ground (arith, find_refresh-le plugin args o m (suc i) k items)
  find_refresh-other plugin args o m i (suc j) k (item ∷ items) h e f =
      ground (arith, find_refresh-other plugin args o m (suc i) j k items)

  pub keep_live-settled :
      (m : List (String × OperationRecord)) (items : List Suggestion)
      → has_pending id items ≡ false
      → has_pending id (keep_live m items) ≡ false
  unfolding keep_live
  keep_live-settled m [] h = refl
  keep_live-settled m (item ∷ items) h = ground (arith, keep_live-settled m items)

  pub make_room-settled :
      (m : List (String × OperationRecord)) (items : List Suggestion)
      → has_pending id items ≡ false
      → has_pending id (make_room m items) ≡ false
  unfolding make_room
  make_room-settled m items h = ground (arith, keep_live-settled m items)

  pub append-settled :
      (items : List Suggestion) (item : Suggestion)
      → has_pending id items ≡ false
      → str_eq item.id id ≡ false
      → has_pending id (items ++ item ∷ []) ≡ false
  append-settled [] item h n = ground arith
  append-settled (x ∷ items) item h n = ground (arith, append-settled items item)

  pub put_operation-claimed :
      (k : String) (o : Option OperationRecord) (m : List (String × OperationRecord))
      → str_eq k id ≡ false
      → all_claimed id m ≡ true
      → all_claimed id (put_operation k o m) ≡ true
  put_operation-claimed k none m n h = h
  put_operation-claimed k (some v) m n h = all_claimed-insert k v m n h

  pub start_applying-claimed :
      (k : String) (o : Option OperationRecord) (m : List (String × OperationRecord))
      → str_eq k id ≡ false
      → all_claimed id m ≡ true
      → all_claimed id (start_applying k o m) ≡ true
  unfolding start_applying
  start_applying-claimed k none m n h = h
  start_applying-claimed k (some v) m n h =
      all_claimed-insert k (record v { applying = true }) m n h

  pub expire-IsSpent : (now turn : ℕ) (r : Record) → IsSpent id r → IsSpent id (expire now turn r).0
  unfolding expire
  expire-IsSpent now turn r s = record {
    settled = expire_items-settled now turn r.operations r.suggestions s.settled;
    spent = expire_items-spent now turn r.operations r.suggestions s.spent;
  }

  pub prune-IsSpent : (r : Record) → IsSpent id r → IsSpent id (prune_operation_payloads r)
  unfolding prune_operation_payloads
  prune-IsSpent r s = record {
    settled = s.settled;
    spent = all_claimed-prune r.suggestions r.operations s.spent;
  }

  pub resolve-IsSpent :
      (names : Suggestion → Bool) (to : Resolution) (via : String) (now turn : ℕ) (r : Record)
      → IsSpent id r
      → IsSpent id (resolve names (status_of to) via now turn r).0
  unfolding resolve
  resolve-IsSpent names to via now turn r s =
      let fresh = expire-IsSpent now turn r s in
      record {
        settled = ground (
          arith,
          fresh.settled,
          resolve_first-settled names to via (expire now turn r).0.suggestions,
        );
        spent = ground (arith, fresh.spent);
      }

  pub switch_via-IsSpent :
      (model via : String) (now turn : ℕ) (r : Record)
      → IsSpent id r
      → IsSpent id (accept_harness_switch_via model via now turn r).0
  unfolding accept_harness_switch_via accept_harness_switch
  switch_via-IsSpent model via now turn r s =
      let fresh = expire-IsSpent now turn r s in
      record {
        settled = ground (
          arith,
          fresh.settled,
          accept_items-settled model via (expire now turn r).0.suggestions,
        );
        spent = ground (arith, fresh.spent);
      }

  pub adapter_switch-IsSpent :
      (model source : String) (now turn : ℕ) (r : Record)
      → IsSpent id r
      → IsSpent id (observe_adapter_switch model source now turn r).0
  unfolding observe_adapter_switch accept_harness_switch
  adapter_switch-IsSpent model source now turn r s =
      let fresh = expire-IsSpent now turn r s in
      record {
        settled = ground (
          arith,
          fresh.settled,
          accept_items-settled model "adapter" (expire now turn r).0.suggestions,
        );
        spent = ground (arith, fresh.spent);
      }

  pub announce-IsSpent :
      (now turn : ℕ) (r : Record) → IsSpent id r → IsSpent id (claim_hook_announcement now turn r).0
  unfolding claim_hook_announcement
  announce-IsSpent now turn r s =
      let fresh = expire-IsSpent now turn r s in
      record {
        settled =
            ground (arith, fresh.settled, announce_first-settled (expire now turn r).0.suggestions);
        spent = ground (arith, fresh.spent);
      }
