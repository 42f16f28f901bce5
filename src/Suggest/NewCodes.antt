-- ===== src/Suggest/NewCodes.antt =====
-- The confirmation code that internal/suggest/store.go gives to a new suggestion.
use Prim.Native.String.{String}
use text.Mathlib.TextEquality.{eq_iff}
use torana_edge.Prelude.{
  ℕ, ◌≡◌, ◌∙◌, ap, sym, [], ◌∷◌, ◌++◌, Bool, true, false, ◌||◌, not, Option, arith, Option-cases,
  Bool-cases, inl, inr,
}
use torana_edge.Suggest.{OperationRecord, Record}
use torana_edge.Suggest.Records.{expire}
use torana_edge.Suggest.Creation.{
  SuggestArgs, ok, prune_operation_payloads, find_refresh, refresh_at, supersede_all,
  suggestion_codes, change_codes, is_used, new_suggestion, add_suggestion, refresh_suggestion,
  create,
}
use torana_edge.Suggest.Codes.{
  IsOrderly, expire-IsOrderly, add-IsOrderly, refresh-IsOrderly, added-parts, kept, used,
  pick_code-unused, is_used-make_room, codes-supersede_all, codes-append, codes-refresh_at,
  codes-expire_items, is_used-append,
}

abbrev IsNew : Record → Record → Type 0
IsNew r r' =
    (c : String)
    → is_used c (suggestion_codes r.suggestions) ≡ false
    → is_used c (suggestion_codes r'.suggestions) ≡ true
    → is_used c (change_codes r.changes) ≡ false

kept-unused :
    (c plugin : String) (args : SuggestArgs) (o : Option OperationRecord) (r : Record)
    → is_used c (suggestion_codes r.suggestions) ≡ false
    → is_used c (suggestion_codes (kept plugin args o r)) ≡ false
unfolding kept
kept-unused c plugin args o r h =
    is_used-make_room c r.operations (supersede_all plugin args o r.suggestions)
      (ap (is_used c) (codes-supersede_all plugin args o r.suggestions) ∙ h)

add-IsNew :
    (candidate : ℕ → String) (new conversation plugin : String) (args : SuggestArgs)
    (o : Option OperationRecord) (now turn : ℕ) (r r' : Record) (id : String)
    → add_suggestion candidate new conversation plugin args o now turn r ≡ ok (r', id)
    → IsNew r r'
unfolding used is_used
add-IsNew candidate new conversation plugin args o now turn r r' id h c absent present =
    let (code, picked, room, same) =
      added-parts plugin args o r candidate new conversation now turn r' id h in
    let item = new_suggestion new code plugin conversation args now turn in
    let fresh = pick_code-unused candidate (used plugin args o r) 0 16 picked in
    let codes : suggestion_codes r'.suggestions
        ≡ suggestion_codes (kept plugin args o r) ++ code ∷ [] =
      ap suggestion_codes same ∙ codes-append (kept plugin args o r) item in
    let place : is_used c (suggestion_codes (kept plugin args o r) ++ code ∷ []) ≡ true =
      ap (is_used c) (sym codes) ∙ present in
    let is_code : code ≡ c = ground (
      arith,
      place,
      is_used-append c (suggestion_codes (kept plugin args o r)) (code ∷ []),
      kept-unused c plugin args o r absent,
      eq_iff code c,
      eq_iff c code,
    ) in
    ground (
      arith,
      ap (λ x. is_used x (used plugin args o r)) (sym is_code),
      fresh,
      is_used-append c (change_codes r.changes) (suggestion_codes r.suggestions),
    )

refresh-IsNew :
    (i : ℕ) (plugin : String) (args : SuggestArgs) (o : Option OperationRecord) (turn : ℕ)
    (r r' : Record) (id : String)
    → refresh_suggestion i plugin args o turn r ≡ (r', id)
    → IsNew r r'
unfolding refresh_suggestion
refresh-IsNew i plugin args o turn r r' id h c absent present =
    let same : refresh_at plugin args o turn i r.suggestions ≡ r'.suggestions =
      ap (λ p. p.0.suggestions) h in
    absurd (
      ground (
        arith,
        absent,
        present,
        ap (λ l. is_used c (suggestion_codes l)) same,
        ap (is_used c) (codes-refresh_at plugin args o turn i r.suggestions),
      ))

expired-IsNew :
    (now turn : ℕ) (r r' : Record)
    → IsNew (prune_operation_payloads (expire now turn r).0) r'
    → IsNew r r'
unfolding expire prune_operation_payloads
expired-IsNew now turn r r' h c absent present =
    h c (ap (is_used c) (codes-expire_items now turn r.operations r.suggestions) ∙ absent) present

-- Whether a code, if a suggestion of the later record has it, is one of the earlier record's, or no
-- recorded change's.
abbrev pub is_fair : Record → Record → String → Bool
is_fair r r' c =
    not (is_used c (suggestion_codes r'.suggestions))
    || is_used c (suggestion_codes r.suggestions)
    || not (is_used c (change_codes r.changes))

fair_lem : (r r' : Record) → IsNew r r' → (c : String) → is_fair r r' c ≡ true
fair_lem r r' new c = elim (Bool-cases (is_used c (suggestion_codes r.suggestions))) [
  | inl before ↦ ground (arith, before)
  | inr absent ↦ elim (Bool-cases (is_used c (suggestion_codes r'.suggestions))) [
    | inl present ↦ ground (arith, new c absent present)
    | inr gone ↦ ground (arith, gone)
  ]
]

-- Creating or refreshing a suggestion keeps the confirmation codes of the record's suggestions
-- distinct from each other, the record at no more than its 128 suggestions, and gives a suggestion
-- no new code that one of the record's recorded changes has.
pub create-IsOrderly :
    (candidate : ℕ → String) (new conversation plugin : String) (args : SuggestArgs)
    (o : Option OperationRecord) (now turn : ℕ) (r r' : Record) (id : String)
    → IsOrderly r
    → create candidate new conversation plugin args o now turn r ≡ ok (r', id)
    → IsOrderly r' × ((c : String) → is_fair r r' c ≡ true)
unfolding create
create-IsOrderly candidate new conversation plugin args o now turn r r' id k h =
    let fresh = prune_operation_payloads (expire now turn r).0 in
    let orderly = expire-IsOrderly now turn r k in
    elim (Option-cases (find_refresh plugin args o fresh.operations 0 fresh.suggestions)) [
      | inl new_intent ↦
          let added : add_suggestion candidate new conversation plugin args o now turn fresh
              ≡ ok (r', id) =
            ground (arith, new_intent) in
          (
            add-IsOrderly candidate new conversation plugin args o now turn fresh r' id orderly
                added,
            fair_lem r r' (
                expired-IsNew now turn r r'
                  (add-IsNew candidate new conversation plugin args o now turn fresh r' id added)),
          )
      | inr (i, found) ↦
          let refreshed : refresh_suggestion i plugin args o turn fresh ≡ (r', id) =
            ground (arith, found) in
          (
            refresh-IsOrderly i plugin args o turn fresh r' id orderly refreshed,
            fair_lem r r' (
                expired-IsNew now turn r r'
                  (refresh-IsNew i plugin args o turn fresh r' id refreshed)),
          )
    ]
