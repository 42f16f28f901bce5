-- ===== src/Stream/Bindings.antt =====
-- `verifySignatureDeltaBindings` and `verifyUnpairedBinding` of internal/plugin/streamverify.go: the
-- signature deltas of a returned stream against those of the accepted one.
use Prim.Native.String.{String}
use package.text.Mathlib.Text.{◌==◌ as str_eq}
use torana_edge.Prelude.{
  ℕ, ◌+◌, List, [], ◌∷◌, Bool, true, false, ◌&&◌, ◌||◌, not, Option, none, some, ◌==◌,
  if◌then◌else◌, length, get_elem?,
}
use torana_edge.Prelude.Int.{ℤ, pos, decrement, is_positive, is_zero}
use torana_edge.Stream.Consume.{Flagged, unconsumed, count, consume_first, exact_pass}
use torana_edge.Stream.ToolScopes.{stream_write_grant}
use torana_edge.Stream.Content.{
  TypedContent, equals, content_is_empty, content_same_kind, SigBindingKind, current, trailing,
  unbound, same_binding_kind, SigBinding, StreamSignatureView,
}

pub data BindingFault : Type 0 where
  forged added stale dropped : SigBindingKind → BindingFault
  ambiguous : SigBindingKind → ℕ → BindingFault
  suppressed_block uncovered : BindingFault

-- The occurrences of one kind, in stream order.
unfoldable pub of_kind : SigBindingKind → List SigBinding → List SigBinding
of_kind kind [] = []
of_kind kind (b ∷ bs) =
    let rest = of_kind kind bs in if same_binding_kind b.kind kind then b ∷ rest else rest

abbrev pub is_signed : SigBinding → Bool
is_signed b = not (str_eq b.signature "")

-- Phase 1's test of an accepted occurrence against a returned one.
unfoldable pub same_occurrence : SigBinding → SigBinding → Bool
unfolding equals
same_occurrence a r = is_signed r && str_eq a.signature r.signature && equals a.content r.content

-- The unconsumed accepted occurrences that satisfy a test.
unfoldable pub token_candidates : (SigBinding → Bool) → List (Flagged SigBinding) → List SigBinding
token_candidates p [] = []
token_candidates p ((used, a) ∷ m) =
    let rest = token_candidates p m in if not used && p a then a ∷ rest else rest

unfoldable pub all_cover : TypedContent → List SigBinding → Bool
unfolding equals
all_cover c [] = true
all_cover c (b ∷ bs) = let rest = all_cover c bs in if equals b.content c then rest else false

-- The verdict on a returned token that no accepted occurrence covers exactly.
unfoldable pub judge_unmatched :
    SigBindingKind → SigBinding → List (Flagged SigBinding) → BindingFault
unfolding token_candidates all_cover
judge_unmatched kind r accepted =
    elim (token_candidates (λ a. str_eq a.signature r.signature) accepted) [
      | [] ↦ elim (token_candidates (λ a. true) accepted) [
        | [] ↦ added kind
        | a ∷ others ↦ forged kind
      ]
      | first ∷ others ↦
          if all_cover first.content others then stale kind else ambiguous kind (length others + 1)
    ]

-- Phase 2: the first returned token that phase 1 left over.
unfoldable pub unmatched :
    SigBindingKind → List (Flagged SigBinding) → List (Flagged SigBinding) → Option BindingFault
unfolding judge_unmatched
unmatched kind [] accepted = none
unmatched kind ((used, r) ∷ flags) accepted =
    let later = unmatched kind flags accepted in
    if not (is_signed r) || used then later else some (judge_unmatched kind r accepted)

abbrev pub same_span : Option ℕ → Option ℕ → Bool
same_span none none = true
same_span (some i) (some j) = i == j
same_span _ _ = false

-- The two maps of phase 3, from typed contents.
pub record Survivors : Type 0 where
  pub remaining : TypedContent → ℤ
  pub twin_survived : TypedContent → Bool

abbrev pub take_one : TypedContent → Survivors → Survivors
unfolding equals
take_one c v = record v {
  remaining = λ d. if equals c d then decrement (v.remaining d) else v.remaining d;
}

unfoldable pub count_spans : List TypedContent → TypedContent → ℤ
unfolding equals
count_spans spans c = pos (count (λ s. equals s c) spans)

abbrev pub span_at : List TypedContent → Option ℕ → Option TypedContent
span_at spans none = none
span_at spans (some o) = get_elem? spans o

abbrev pub take_owned : Option TypedContent → Survivors → Survivors
take_owned none v = v
take_owned (some c) v = take_one c v

-- The spans of the exact matches are set aside.
unfoldable pub reserve : List TypedContent → List (Flagged SigBinding) → Survivors → Survivors
reserve spans [] v = v
reserve spans ((used, r) ∷ flags) v =
    reserve spans flags (if used then take_owned (span_at spans r.span) v else v)

unfoldable pub signed_ordinal : List SigBinding → ℕ → Bool
signed_ordinal [] o = false
signed_ordinal (b ∷ bs) o = is_signed b && same_span b.span (some o) || signed_ordinal bs o

-- The accepted spans that no token covers claim the spans that are left, from ordinal `o` on.
unfoldable pub claim_twins : (ℕ → Bool) → ℕ → List TypedContent → Survivors → Survivors
unfolding equals
claim_twins covered o [] v = v
claim_twins covered o (s ∷ spans) v = claim_twins covered (o + 1) spans (
    if covered o || is_zero (v.remaining s)
    then v
    else record (take_one s v) { twin_survived = λ d. equals s d || v.twin_survived d })

unfoldable pub survivors :
    StreamSignatureView
    → StreamSignatureView
    → List SigBinding
    → List (Flagged SigBinding)
    → Survivors
unfolding count_spans reserve signed_ordinal claim_twins
survivors av rv acc flags = claim_twins (signed_ordinal acc) 0 av.spans (
    reserve rv.spans flags
      (record { remaining = count_spans rv.spans; twin_survived = λ c. false }))

abbrev pub without_grant : (String → Bool) → Option BindingFault
without_grant can_write = if can_write stream_write_grant then none else some suppressed_block

-- At an ordinal that holds no span the block is gone; an empty scope over a span of the other kind
-- is gone too, and over one of its own kind it is dropped.
unfoldable pub unpaired_current :
    SigBinding → StreamSignatureView → (String → Bool) → Option BindingFault
unfolding content_is_empty content_same_kind
unpaired_current ab rv can_write = elim ab.span [
  | none ↦ if content_is_empty ab.content then some (dropped current) else none
  | some o ↦ elim (get_elem? rv.spans o) [
    | none ↦ without_grant can_write
    | some c ↦
        if content_is_empty ab.content
        then (if not (content_same_kind c ab.content)
            then without_grant can_write
            else some (dropped current))
        else none
  ]
]

unfoldable pub verify_unpaired_binding :
    SigBindingKind → SigBinding → StreamSignatureView → (String → Bool) → Option BindingFault
unfolding equals content_is_empty unpaired_current
verify_unpaired_binding trailing ab rv can_write =
    if equals rv.closed ab.content
    then some (dropped trailing)
    else if content_is_empty rv.closed && not rv.saw_content
    then without_grant can_write
    else none
verify_unpaired_binding kind ab rv can_write = unpaired_current ab rv can_write

abbrev pub is_current : SigBindingKind → Bool
is_current current = true
is_current _ = false

abbrev pub is_trailing : SigBindingKind → Bool
is_trailing trailing = true
is_trailing _ = false

pub data Settled : Type 0 where
  go_on : List (Flagged SigBinding) → Settled
  stop : BindingFault → Settled

abbrev pub go_on_unless : Option BindingFault → List (Flagged SigBinding) → Settled
go_on_unless none markers = go_on markers
go_on_unless (some f) markers = stop f

-- Phase 3 for one accepted token that is not in the returned stream; `markers` are the returned
-- occurrences with an empty token.
unfoldable pub settle :
    SigBindingKind
    → StreamSignatureView
    → Survivors
    → (String → Bool)
    → SigBinding
    → List (Flagged SigBinding)
    → Settled
unfolding equals content_is_empty consume_first verify_unpaired_binding
settle kind rv v can_write a markers =
    let unpaired = verify_unpaired_binding kind a rv can_write in
    if (if is_trailing kind
      then equals rv.closed a.content
      else is_positive (v.remaining a.content))
    then stop (dropped kind)
    else elim (consume_first (λ m. equals m.content a.content) markers) [
      | some (m, taken) ↦ stop (dropped kind)
      | none ↦ elim (consume_first (λ m. same_span m.span a.span) markers) [
        | some (m, taken) ↦
            if content_is_empty a.content then go_on_unless unpaired taken else go_on taken
        | none ↦
            if is_current kind && v.twin_survived a.content
            then go_on_unless (without_grant can_write) markers
            else go_on_unless unpaired markers
      ]
    ]

unfoldable pub settle_all :
    SigBindingKind
    → StreamSignatureView
    → Survivors
    → (String → Bool)
    → List (Flagged SigBinding)
    → List (Flagged SigBinding)
    → Option BindingFault
unfolding settle
settle_all kind rv v can_write [] markers = none
settle_all kind rv v can_write ((used, a) ∷ m) markers =
    if used || not (is_signed a)
    then settle_all kind rv v can_write m markers
    else elim (settle kind rv v can_write a markers) [
      | stop f ↦ some f
      | go_on left ↦ settle_all kind rv v can_write m left
    ]

unfoldable pub empty_tokens : List SigBinding → List SigBinding
empty_tokens [] = []
empty_tokens (r ∷ rs) = let rest = empty_tokens rs in if is_signed r then rest else r ∷ rest

-- One round of the loop over the two kinds.
unfoldable pub verify_kind :
    SigBindingKind
    → StreamSignatureView
    → StreamSignatureView
    → (String → Bool)
    → Option BindingFault
unfolding of_kind same_occurrence exact_pass unmatched survivors settle_all empty_tokens
verify_kind kind av rv can_write =
    let acc = of_kind kind av.bindings in
    let ret = of_kind kind rv.bindings in
    let (accepted, flags) = exact_pass same_occurrence ret (unconsumed acc) in
    elim (unmatched kind flags accepted) [
      | some f ↦ some f
      | none ↦
          settle_all kind rv (survivors av rv acc flags) can_write accepted
            (unconsumed (empty_tokens ret))
    ]

unfoldable pub has_unbound : List SigBinding → Bool
has_unbound [] = false
has_unbound (b ∷ bs) =
    let later = has_unbound bs in if same_binding_kind b.kind unbound then true else later

unfoldable pub verify_signature_delta_bindings :
    StreamSignatureView → StreamSignatureView → (String → Bool) → Option BindingFault
unfolding verify_kind has_unbound
verify_signature_delta_bindings av rv can_write = elim (verify_kind current av rv can_write) [
  | some f ↦ some f
  | none ↦ elim (verify_kind trailing av rv can_write) [
    | some f ↦ some f
    | none ↦ if has_unbound rv.bindings then some uncovered else none
  ]
]
