-- ===== src/Stream/Untouched.antt =====
-- What `verifySignatureDeltaBindings` must not refuse: a stream that repeats the accepted tokens.
use Prim.Native.String.{String}
use package.text.Mathlib.TextEquality.{eq_iff}
use torana_edge.Prelude.{
  ◌≤◌, ◌≡◌, refl, List, [], ◌∷◌, Bool, true, false, none, arith, Option-cases, inl, inr,
}
use torana_edge.Stream.Consume.{
  Flagged, unconsumed, count, free, consume_first, exact_pass, free-unconsumed, free-missing,
  free-exact_pass, count-after_first,
}
use torana_edge.Stream.ToolScopes.{same_flag}
use torana_edge.Stream.Content.{
  TypedContent, equals, SigBindingKind, current, trailing, SigBinding, StreamSignatureView,
}
use torana_edge.Stream.Bindings.{
  of_kind, is_signed, same_occurrence, unmatched, Survivors, survivors, empty_tokens, settle_all,
  verify_kind, has_unbound, verify_signature_delta_bindings,
}
use torana_edge.Stream.BindingMinting.{same_occurrence-eq, same_occurrence-signed}

same_flag_refl : (b : Bool) → same_flag b b ≡ true
same_flag_refl true = refl
same_flag_refl false = refl

equals_refl : (c : TypedContent) → equals c c ≡ true
unfolding equals
equals_refl c = ground (
  arith,
  eq_iff c.text c.text,
  eq_iff c.thinking c.thinking,
  same_flag_refl c.text_seen,
  same_flag_refl c.thinking_seen,
)

same_occurrence_refl : (a : SigBinding) → is_signed a ≡ true → same_occurrence a a ≡ true
unfolding same_occurrence
same_occurrence_refl a h = ground (arith, eq_iff a.signature a.signature, equals_refl a.content)

-- Phase 1 finds each signed occurrence that the accepted stream has enough of.
free-signed-exact_pass :
    (rs : List SigBinding) (m : List (Flagged SigBinding))
    → ((s : SigBinding) → count (λ a. same_occurrence a s) rs ≤ free (λ a. same_occurrence a s) m)
    → free is_signed (exact_pass same_occurrence rs m).1 ≡ 0
unfolding exact_pass
free-signed-exact_pass [] m h = refl
free-signed-exact_pass (r ∷ rs) m h =
    elim (Option-cases (consume_first (λ a. same_occurrence a r) m)) [
      | inl missing ↦ ground (
        arith,
        missing,
        h r,
        free-missing (λ a. same_occurrence a r) m missing,
        same_occurrence_refl r,
        free-signed-exact_pass rs m (λ s. omega (arith, h s)),
      )
      | inr ((x, rest), found) ↦ ground (
        arith,
        found,
        free-signed-exact_pass rs rest (λ s. omega (
          arith,
          h s,
          count-after_first same_occurrence (λ a. same_occurrence a s) (same_occurrence-eq s) r rs m
              found,
        )),
      )
    ]

free-signed-nothing_free :
    (m : List (Flagged SigBinding))
    → ((s : SigBinding) → free (λ a. same_occurrence a s) m ≡ 0)
    → free is_signed m ≡ 0
free-signed-nothing_free [] h = refl
free-signed-nothing_free ((true, a) ∷ m) h =
    omega (arith, free-signed-nothing_free m (λ s. omega (arith, h s)))
free-signed-nothing_free ((false, a) ∷ m) h =
    ground
      (arith, h a, same_occurrence_refl a, free-signed-nothing_free m (λ s. omega (arith, h s)))

free-occurrence-le :
    (s : SigBinding) (m : List (Flagged SigBinding))
    → free (λ a. same_occurrence a s) m ≤ free is_signed m
free-occurrence-le s [] = omega arith
free-occurrence-le s ((used, a) ∷ m) =
    ground (arith, free-occurrence-le s m, same_occurrence-signed a s)

unmatched-none :
    (kind : SigBindingKind) (flags accepted : List (Flagged SigBinding))
    → free is_signed flags ≡ 0
    → unmatched kind flags accepted ≡ none
unfolding unmatched
unmatched-none kind [] accepted h = refl
unmatched-none kind ((used, r) ∷ flags) accepted h =
    ground (arith, unmatched-none kind flags accepted)

settle_all-none :
    (kind : SigBindingKind) (rv : StreamSignatureView) (v : Survivors) (can_write : String → Bool)
    (m markers : List (Flagged SigBinding))
    → free is_signed m ≡ 0
    → settle_all kind rv v can_write m markers ≡ none
unfolding settle_all
settle_all-none kind rv v can_write [] markers h = refl
settle_all-none kind rv v can_write ((used, a) ∷ m) markers h =
    ground (arith, settle_all-none kind rv v can_write m markers)

pub verify_kind-same_counts :
    (kind : SigBindingKind) (av rv : StreamSignatureView) (can_write : String → Bool)
    → ((s : SigBinding)
        → count (λ a. same_occurrence a s) (of_kind kind rv.bindings)
          ≡ count (λ a. same_occurrence a s) (of_kind kind av.bindings))
    → verify_kind kind av rv can_write ≡ none
unfolding verify_kind
verify_kind-same_counts kind av rv can_write h =
    let acc = of_kind kind av.bindings in
    let ret = of_kind kind rv.bindings in
    let (accepted, flags) = exact_pass same_occurrence ret (unconsumed acc) in
    let matched =
      free-signed-exact_pass ret (unconsumed acc)
        (λ s. omega (arith, h s, free-unconsumed (λ a. same_occurrence a s) acc)) in
    let nothing_free = free-signed-nothing_free accepted (λ s. omega (
      arith,
      h s,
      matched,
      free-occurrence-le s flags,
      free-unconsumed (λ a. same_occurrence a s) acc,
      free-exact_pass same_occurrence (λ a. same_occurrence a s) (same_occurrence-eq s) ret
          (unconsumed acc),
    )) in
    ground (
      arith,
      unmatched-none kind flags accepted matched,
      settle_all-none kind rv (survivors av rv acc flags) can_write accepted
          (unconsumed (empty_tokens ret)) nothing_free,
    )

-- A stream with the accepted signature deltas, in their order, none of which stands where it covers
-- nothing.
pub verify_signature_delta_bindings-kept :
    (av rv : StreamSignatureView) (can_write : String → Bool)
    → rv.bindings ≡ av.bindings
    → has_unbound av.bindings ≡ false
    → verify_signature_delta_bindings av rv can_write ≡ none
unfolding verify_signature_delta_bindings
verify_signature_delta_bindings-kept av rv can_write same bound = ground (
  arith,
  verify_kind-same_counts current av rv can_write (λ s. rw same refl),
  verify_kind-same_counts trailing av rv can_write (λ s. rw same refl),
)
