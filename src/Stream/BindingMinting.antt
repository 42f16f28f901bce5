-- ===== src/Stream/BindingMinting.antt =====
-- What `verifySignatureDeltaBindings` lets through: no token is minted.
use Prim.Native.String.{String}
use package.text.Mathlib.TextEquality.{eq_iff}
use torana_edge.Prelude.{
  ℕ, ◌≤◌, ◌≡◌, refl, List, [], ◌∷◌, Bool, true, false, ◌&&◌, ◌⊎◌, none, arith, Option-cases, inl,
  inr,
}
use torana_edge.Stream.Consume.{
  Flagged, unconsumed, count, free, exact_pass, free-unconsumed, free-exact_pass,
}
use torana_edge.Stream.Minting.{same_flag-eq}
use torana_edge.Stream.Content.{
  TypedContent, equals, SigBindingKind, current, trailing, unbound, same_binding_kind, SigBinding,
  StreamSignatureView,
}
use torana_edge.Stream.Bindings.{
  of_kind, is_signed, same_occurrence, unmatched, verify_kind, has_unbound,
  verify_signature_delta_bindings,
}

pub equals-eq : (a b c : TypedContent) → equals a b ≡ true → equals a c ≡ equals b c
unfolding equals
equals-eq a b c h = ground (
  arith,
  eq_iff a.text b.text,
  eq_iff a.thinking b.thinking,
  same_flag-eq a.text_seen b.text_seen,
  same_flag-eq a.thinking_seen b.thinking_seen,
)

-- Occurrences that match exactly match the same occurrences.
pub same_occurrence-eq :
    (s a b : SigBinding) → same_occurrence a b ≡ true → same_occurrence a s ≡ same_occurrence b s
unfolding same_occurrence
same_occurrence-eq s a b h =
    ground (arith, eq_iff a.signature b.signature, equals-eq a.content b.content s.content)

pub same_occurrence-signed : (a s : SigBinding) → same_occurrence a s ≡ true → is_signed a ≡ true
unfolding same_occurrence
same_occurrence-signed a s h =
    ground (arith, eq_iff a.signature s.signature, eq_iff a.signature "", eq_iff s.signature "")

-- The occurrences of a kind whose token and typed content are those of a given one.
abbrev pub occurrences : SigBinding → List SigBinding → ℕ
occurrences s = count (λ a. same_binding_kind a.kind s.kind && same_occurrence a s)

pub count-of_kind :
    (kind : SigBindingKind) (p : SigBinding → Bool) (bs : List SigBinding)
    → count p (of_kind kind bs) ≡ count (λ a. same_binding_kind a.kind kind && p a) bs
unfolding of_kind
count-of_kind kind p [] = refl
count-of_kind kind p (b ∷ bs) = ground (arith, count-of_kind kind p bs)

pub free-unmatched :
    (kind : SigBindingKind) (s : SigBinding) (flags accepted : List (Flagged SigBinding))
    → unmatched kind flags accepted ≡ none
    → free (λ a. same_occurrence a s) flags ≡ 0
unfolding unmatched
free-unmatched kind s [] accepted h = refl
free-unmatched kind s ((used, r) ∷ flags) accepted h =
    ground (arith, free-unmatched kind s flags accepted, same_occurrence-signed r s)

count-verify_kind :
    (kind : SigBindingKind) (av rv : StreamSignatureView) (can_write : String → Bool)
    (s : SigBinding)
    → verify_kind kind av rv can_write ≡ none
    → count (λ a. same_occurrence a s) (of_kind kind rv.bindings)
      ≤ count (λ a. same_occurrence a s) (of_kind kind av.bindings)
unfolding verify_kind
count-verify_kind kind av rv can_write s h =
    let p = λ (a : SigBinding). same_occurrence a s in
    let acc = of_kind kind av.bindings in
    let ret = of_kind kind rv.bindings in
    let (accepted, flags) = exact_pass same_occurrence ret (unconsumed acc) in
    elim (Option-cases (unmatched kind flags accepted)) [
      | inr (f, found) ↦ absurd (ground (arith, found))
      | inl fine ↦ omega (
        arith,
        free-unmatched kind s flags accepted fine,
        free-unconsumed p acc,
        free-exact_pass same_occurrence p (same_occurrence-eq s) ret (unconsumed acc),
      )
    ]

count-no_unbound :
    (s : SigBinding) (bs : List SigBinding)
    → has_unbound bs ≡ false
    → s.kind ≡ unbound
    → occurrences s bs ≡ 0
unfolding has_unbound
count-no_unbound s [] h e = refl
count-no_unbound s (b ∷ bs) h e = ground (arith, count-no_unbound s bs)

occurrences-of_kind :
    (av rv : StreamSignatureView) (can_write : String → Bool) (s : SigBinding)
    → verify_kind s.kind av rv can_write ≡ none
    → occurrences s rv.bindings ≤ occurrences s av.bindings
occurrences-of_kind av rv can_write s h = omega (
  arith,
  count-of_kind s.kind (λ a. same_occurrence a s) av.bindings,
  count-of_kind s.kind (λ a. same_occurrence a s) rv.bindings,
  count-verify_kind s.kind av rv can_write s h,
)

kind-cases : (k : SigBindingKind) → (k ≡ current) ⊎ ((k ≡ trailing) ⊎ (k ≡ unbound))
kind-cases current = inl refl
kind-cases trailing = inr (inl refl)
kind-cases unbound = inr (inr refl)

-- No token of a signature delta is minted: in a returned stream that passes, whatever the grants,
-- each token that is not empty occurs over given typed content, in a block or trailing, at most as
-- often as in the accepted stream; and no returned token stands where it covers nothing.
pub occurrences-verify_signature_delta_bindings :
    (av rv : StreamSignatureView) (can_write : String → Bool) (s : SigBinding)
    → verify_signature_delta_bindings av rv can_write ≡ none
    → (occurrences s rv.bindings ≤ occurrences s av.bindings) × (has_unbound rv.bindings ≡ false)
unfolding verify_signature_delta_bindings
occurrences-verify_signature_delta_bindings av rv can_write s h =
    elim (Option-cases (verify_kind current av rv can_write)) [
      | inr (f, found) ↦ absurd (ground (arith, found))
      | inl fine ↦ elim (Option-cases (verify_kind trailing av rv can_write)) [
        | inr (f, found) ↦ absurd (ground (arith, fine, found))
        | inl good ↦
            let closed : has_unbound rv.bindings ≡ false = ground (arith, fine, good) in
            (
              elim (kind-cases s.kind) [
                | inl e ↦ occurrences-of_kind av rv can_write s (rw e fine)
                | inr (inl e) ↦ occurrences-of_kind av rv can_write s (rw e good)
                | inr (inr e) ↦ omega (arith, count-no_unbound s rv.bindings closed e)
              ],
              closed,
            )
      ]
    ]
