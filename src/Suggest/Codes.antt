-- ===== src/Suggest/Codes.antt =====
-- The confirmation codes of a record stay apart, and the record stays within its size.
use Prim.Native.String.{String}
use text.Mathlib.TextEquality.{eq_iff}
use torana_edge.Prelude.{
  ℕ, zero, suc, ◌≤◌, ◌<◌, ◌≡◌, refl, ◌∙◌, ap, sym, List, [], ◌∷◌, ◌++◌, Bool, true, false, ◌&&◌,
  ◌||◌, not, Option, some, arith, length, length-append, if◌then◌else◌,
}
use torana_edge.Prelude.Assoc.{lookup, remove}
use torana_edge.Suggest.{Suggestion, OperationRecord, Record, max_records}
use torana_edge.Suggest.Records.{runs_out, expire_items, expire}
use torana_edge.Suggest.Creation.{
  SuggestArgs, ok, prune_operation_payloads, refresh_at, supersede_all, keep_live, make_room,
  suggestion_codes, change_codes, is_used, pick_code, new_suggestion, add_suggestion,
  refresh_suggestion,
}

-- No two of the codes are equal.
abbrev pub distinct : List String → Bool
distinct [] = true
distinct (c ∷ cs) = not (is_used c cs) && distinct cs

pub is_used-append :
    (c : String) (as' bs : List String) → is_used c (as' ++ bs) ≡ is_used c as' || is_used c bs
unfolding is_used
is_used-append c [] bs = refl
is_used-append c (a ∷ as') bs = ground (arith, is_used-append c as' bs)

distinct-append_new :
    (cs : List String) (c : String)
    → distinct cs ≡ true
    → is_used c cs ≡ false
    → distinct (cs ++ c ∷ []) ≡ true
unfolding is_used
distinct-append_new [] c d n = refl
distinct-append_new (a ∷ cs) c d n =
    ground (arith, distinct-append_new cs c, is_used-append a cs (c ∷ []), eq_iff a c, eq_iff c a)

pub pick_code-unused :
    (candidate : ℕ → String) (used : List String) (attempt left : ℕ) {code : String}
    → pick_code candidate used attempt left ≡ some code
    → is_used code used ≡ false
unfolding pick_code
pick_code-unused candidate used attempt zero h = cc
pick_code-unused candidate used attempt (suc left) {code} h =
    ground (arith, pick_code-unused candidate used (suc attempt) left {code = code})

pub codes-expire_items :
    (now turn : ℕ) (m : List (String × OperationRecord)) (items : List Suggestion)
    → suggestion_codes (expire_items now turn m items).items ≡ suggestion_codes items
unfolding expire_items suggestion_codes
codes-expire_items now turn m [] = refl
codes-expire_items now turn m (item ∷ items) = ground (
  arith,
  codes-expire_items now turn m items,
  codes-expire_items now turn (remove item.id m) items,
)

pub codes-supersede_all :
    (plugin : String) (args : SuggestArgs) (o : Option OperationRecord) (items : List Suggestion)
    → suggestion_codes (supersede_all plugin args o items) ≡ suggestion_codes items
unfolding supersede_all suggestion_codes
codes-supersede_all plugin args o [] = refl
codes-supersede_all plugin args o (item ∷ items) =
    ground (arith, codes-supersede_all plugin args o items)

pub codes-refresh_at :
    (plugin : String) (args : SuggestArgs) (o : Option OperationRecord) (turn i : ℕ)
    (items : List Suggestion)
    → suggestion_codes (refresh_at plugin args o turn i items) ≡ suggestion_codes items
unfolding refresh_at suggestion_codes
codes-refresh_at plugin args o turn i [] = refl
codes-refresh_at plugin args o turn zero (item ∷ items) =
    ground (arith, codes-supersede_all plugin args o items)
codes-refresh_at plugin args o turn (suc i) (item ∷ items) =
    ground (arith, codes-refresh_at plugin args o turn i items)

is_used-keep_live :
    (c : String) (m : List (String × OperationRecord)) (items : List Suggestion)
    → is_used c (suggestion_codes items) ≡ false
    → is_used c (suggestion_codes (keep_live m items)) ≡ false
unfolding is_used suggestion_codes keep_live
is_used-keep_live c m [] h = refl
is_used-keep_live c m (item ∷ items) h = ground (arith, is_used-keep_live c m items)

distinct-keep_live :
    (m : List (String × OperationRecord)) (items : List Suggestion)
    → distinct (suggestion_codes items) ≡ true
    → distinct (suggestion_codes (keep_live m items)) ≡ true
unfolding suggestion_codes keep_live
distinct-keep_live m [] h = refl
distinct-keep_live m (item ∷ items) h =
    ground (arith, distinct-keep_live m items, is_used-keep_live item.code m items)

pub codes-append :
    (items : List Suggestion) (item : Suggestion)
    → suggestion_codes (items ++ item ∷ []) ≡ suggestion_codes items ++ item.code ∷ []
unfolding suggestion_codes
codes-append [] item = refl
codes-append (x ∷ items) item = ap (◌∷◌ x.code) (codes-append items item)

-- What an invariant of the record's suggestions says.
pub record IsOrderly (r : Record) : Type 0 where
  pub apart : distinct (suggestion_codes r.suggestions) ≡ true
  pub sized : length r.suggestions ≤ max_records

length-expire_items :
    (now turn : ℕ) (m : List (String × OperationRecord)) (items : List Suggestion)
    → length (expire_items now turn m items).items ≡ length items
unfolding expire_items
length-expire_items now turn m [] = refl
length-expire_items now turn m (item ∷ items) = ap suc (
    length-expire_items now turn
      (if runs_out now turn (lookup item.id m) item then remove item.id m else m) items)

length-supersede_all :
    (plugin : String) (args : SuggestArgs) (o : Option OperationRecord) (items : List Suggestion)
    → length (supersede_all plugin args o items) ≡ length items
unfolding supersede_all
length-supersede_all plugin args o [] = refl
length-supersede_all plugin args o (item ∷ items) =
    ap suc (length-supersede_all plugin args o items)

length-refresh_at :
    (plugin : String) (args : SuggestArgs) (o : Option OperationRecord) (turn i : ℕ)
    (items : List Suggestion)
    → length (refresh_at plugin args o turn i items) ≡ length items
unfolding refresh_at
length-refresh_at plugin args o turn i [] = refl
length-refresh_at plugin args o turn zero (item ∷ items) =
    ap suc (length-supersede_all plugin args o items)
length-refresh_at plugin args o turn (suc i) (item ∷ items) =
    ap suc (length-refresh_at plugin args o turn i items)

pub expire-IsOrderly :
    (now turn : ℕ) (r : Record)
    → IsOrderly r
    → IsOrderly (prune_operation_payloads (expire now turn r).0)
unfolding expire prune_operation_payloads
expire-IsOrderly now turn r k = record {
  apart = ap distinct (codes-expire_items now turn r.operations r.suggestions) ∙ k.apart;
  sized = omega (arith, length-expire_items now turn r.operations r.suggestions, k.sized);
}

pub is_used-make_room :
    (c : String) (m : List (String × OperationRecord)) (items : List Suggestion)
    → is_used c (suggestion_codes items) ≡ false
    → is_used c (suggestion_codes (make_room m items)) ≡ false
unfolding make_room
is_used-make_room c m items h = ground (arith, is_used-keep_live c m items)

distinct-make_room :
    (m : List (String × OperationRecord)) (items : List Suggestion)
    → distinct (suggestion_codes items) ≡ true
    → distinct (suggestion_codes (make_room m items)) ≡ true
unfolding make_room
distinct-make_room m items h = ground (arith, distinct-keep_live m items)

module _ (plugin : String) (args : SuggestArgs) (o : Option OperationRecord) (r : Record) where
  unfoldable pub kept : List Suggestion
  kept = make_room r.operations (supersede_all plugin args o r.suggestions)

  unfoldable pub used : List String
  used = change_codes r.changes ++ suggestion_codes r.suggestions

  kept-apart :
      (code : String)
      → IsOrderly r
      → is_used code used ≡ false
      → distinct (suggestion_codes kept ++ code ∷ []) ≡ true
  unfolding kept used
  kept-apart code k n =
      let same = codes-supersede_all plugin args o r.suggestions in
      distinct-append_new (suggestion_codes kept) code
        (distinct-make_room r.operations _ (ap distinct same ∙ k.apart))
        (is_used-make_room code r.operations _ (
          ap (is_used code) same
          ∙ ground (
            arith,
            is_used-append code (change_codes r.changes) (suggestion_codes r.suggestions),
          )))

  -- What a record looks like to which a suggestion was added.
  pub added-parts :
      (candidate : ℕ → String) (new conversation : String) (now turn : ℕ) (r' : Record)
      (id : String)
      → add_suggestion candidate new conversation plugin args o now turn r ≡ ok (r', id)
      → (code : String) × (pick_code candidate used 0 16 ≡ some code)
        × (length kept < max_records)
        × (r'.suggestions ≡ kept ++ new_suggestion new code plugin conversation args now turn ∷ [])
  unfolding add_suggestion prune_operation_payloads kept used
  added-parts candidate new conversation now turn r' id h = ground arith

pub add-IsOrderly :
    (candidate : ℕ → String) (new conversation plugin : String) (args : SuggestArgs)
    (o : Option OperationRecord) (now turn : ℕ) (r r' : Record) (id : String)
    → IsOrderly r
    → add_suggestion candidate new conversation plugin args o now turn r ≡ ok (r', id)
    → IsOrderly r'
add-IsOrderly candidate new conversation plugin args o now turn r r' id k h =
    let (code, picked, room, same) =
      added-parts plugin args o r candidate new conversation now turn r' id h in
    let item = new_suggestion new code plugin conversation args now turn in
    let fresh = pick_code-unused candidate (used plugin args o r) 0 16 picked in
    record {
      apart =
          ap (λ l. distinct (suggestion_codes l)) same
          ∙ ap distinct (codes-append (kept plugin args o r) item)
          ∙ kept-apart plugin args o r code k fresh;
      sized = omega (arith, ap length same, length-append (kept plugin args o r) (item ∷ []), room);
    }

pub refresh-IsOrderly :
    (i : ℕ) (plugin : String) (args : SuggestArgs) (o : Option OperationRecord) (turn : ℕ)
    (r r' : Record) (id : String)
    → IsOrderly r
    → refresh_suggestion i plugin args o turn r ≡ (r', id)
    → IsOrderly r'
unfolding refresh_suggestion
refresh-IsOrderly i plugin args o turn r r' id k h =
    let same : refresh_at plugin args o turn i r.suggestions ≡ r'.suggestions =
      ap (λ p. p.0.suggestions) h in
    record {
      apart =
          ap (λ l. distinct (suggestion_codes l)) (sym same)
          ∙ ap distinct (codes-refresh_at plugin args o turn i r.suggestions)
          ∙ k.apart;
      sized =
          omega
            (arith, ap length same, length-refresh_at plugin args o turn i r.suggestions, k.sized);
    }
