-- ===== src/Stream/PassThrough.antt =====
-- What `verifyToolScopes` must not refuse, and what it refuses without the grant.
use Prim.Native.String.{String}
use package.text.Mathlib.TextEquality.{eq_iff}
use torana_edge.Prelude.{
  ◌≤◌, ◌≡◌, refl, List, [], ◌∷◌, Bool, true, false, none, arith, Option-cases, inl, inr,
}
use torana_edge.Stream.{ToolInvocationKind, function, freeform, other}
use torana_edge.Stream.Consume.{
  Flagged, unconsumed, consume_first, exact_pass, all_used, free-unconsumed, free-all_used,
  free-missing, free-exact_pass, count-after_first,
}
use torana_edge.Stream.ToolScopes.{
  ToolCallScope, tool_call_covered_content_equal, is_exact, pass, correlate_all, suppressed,
  verify_tool_scopes, same_kind,
}
use torana_edge.Stream.Minting.{copies, free_copies, is_exact-eq}

same_kind_refl : (k : ToolInvocationKind) → same_kind k k ≡ true
same_kind_refl function = refl
same_kind_refl freeform = refl
same_kind_refl (other i) = ground arith

is_exact_refl : (a : ToolCallScope) → is_exact a a ≡ true
unfolding is_exact tool_call_covered_content_equal
is_exact_refl a =
    rw
      (
        (eq_iff a.signature a.signature).1 refl,
        (eq_iff a.id a.id).1 refl,
        (eq_iff a.name a.name).1 refl,
        same_kind_refl a.kind,
        (eq_iff a.arguments a.arguments).1 refl,
        (eq_iff a.input a.input).1 refl,
      )
      (ground arith)

all_used-exact_pass :
    (rs : List ToolCallScope) (m : List (Flagged ToolCallScope))
    → ((s : ToolCallScope) → copies s rs ≤ free_copies s m)
    → all_used (exact_pass is_exact rs m).1 ≡ true
unfolding exact_pass
all_used-exact_pass [] m h = refl
all_used-exact_pass (r ∷ rs) m h = elim (Option-cases (consume_first (λ a. is_exact a r) m)) [
  | inl missing ↦
      absurd (ground (arith, h r, free-missing (λ a. is_exact a r) m missing, is_exact_refl r))
  | inr ((x, rest), found) ↦ ground (
    arith,
    found,
    all_used-exact_pass rs rest (λ s. omega (
      arith,
      h s,
      count-after_first is_exact (λ a. is_exact a s) (λ a b. is_exact-eq a b s) r rs m found,
    )),
  )
]

module _ {Class : Type 0} (classify : String → String → Bool → Class) (allowed : Class → Bool) where
  correlate_all-all_used :
      (can_write : String → Bool) (flags m : List (Flagged ToolCallScope))
      → all_used flags ≡ true
      → correlate_all classify allowed can_write flags m ≡ pass m
  unfolding correlate_all
  correlate_all-all_used can_write [] m h = refl
  correlate_all-all_used can_write ((true, r) ∷ flags) m h =
      correlate_all-all_used can_write flags m h
  correlate_all-all_used can_write ((false, r) ∷ flags) m h = cc

  suppressed-nothing_free :
      (can_write : String → Bool) (m : List (Flagged ToolCallScope))
      → ((s : ToolCallScope) → free_copies s m ≡ 0)
      → suppressed {Class = Class} classify allowed can_write m ≡ none
  unfolding suppressed
  suppressed-nothing_free can_write [] h = refl
  suppressed-nothing_free can_write ((true, a) ∷ m) h =
      suppressed-nothing_free can_write m (λ s. omega (arith, h s))
  suppressed-nothing_free can_write ((false, a) ∷ m) h =
      absurd (ground (arith, h a, is_exact_refl a))

  -- A stream whose tool blocks are the accepted ones, moved to other indices or put in another order
  -- at most, passes whatever the grants and whatever the verdicts on mutations.
  pub verify_tool_scopes-copies :
      (accepted returned : List ToolCallScope) (can_write : String → Bool)
      → ((s : ToolCallScope) → copies s returned ≡ copies s accepted)
      → verify_tool_scopes classify allowed accepted returned can_write ≡ none
  unfolding verify_tool_scopes
  verify_tool_scopes-copies accepted returned can_write h =
      let (after, flags) = exact_pass is_exact returned (unconsumed accepted) in
      let used =
        all_used-exact_pass returned (unconsumed accepted)
          (λ s. omega (arith, h s, free-unconsumed (λ a. is_exact a s) accepted)) in
      let nothing_free = suppressed-nothing_free can_write after (λ s. omega (
        arith,
        h s,
        free-unconsumed (λ a. is_exact a s) accepted,
        free-exact_pass is_exact (λ a. is_exact a s) (λ a b. is_exact-eq a b s) returned
            (unconsumed accepted),
        free-all_used (λ a. is_exact a s) flags used,
      )) in
      ground (arith, correlate_all-all_used can_write flags after used, nothing_free)
