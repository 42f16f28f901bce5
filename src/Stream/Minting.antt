-- ===== src/Stream/Minting.antt =====
-- What `verifyToolScopes` lets through: no signature is minted, nothing moves without the grant, and
-- an untouched stream passes.
use Prim.Native.String.{String}
use package.text.Mathlib.Text.{◌==◌ as str_eq}
use package.text.Mathlib.TextEquality.{eq_iff}
use torana_edge.Prelude.{
  ℕ, ◌+◌, ◌≤◌, ◌≡◌, refl, sym, List, [], ◌∷◌, Bool, true, false, not, none, some, arith,
  Option-cases, Bool-cases, inl, inr, ◌⊎◌,
}
use torana_edge.Stream.{ToolInvocationKind, function, freeform, other}
use torana_edge.Stream.Consume.{
  Flagged, one_if, count, free, unconsumed, consume_first, exact_pass, consume_first-fits,
  free-consume_first, free-exact_pass, free-unconsumed,
}
use torana_edge.Stream.ToolScopes.{
  ToolCallScope, tool_call_covered_content_equal, tool_call_content_changed, is_exact, consume_at,
  pass, fail, invent, correlate, correlate_all, verify_tool_scopes, same_kind, same_flag, judge,
}

-- How many scopes of a stream have the signature and the covered content of a given one.
abbrev pub copies : ToolCallScope → List ToolCallScope → ℕ
copies s = count (λ a. is_exact a s)

-- The copies among the scopes that are not consumed.
abbrev pub free_copies : ToolCallScope → List (Flagged ToolCallScope) → ℕ
free_copies s = free (λ a. is_exact a s)

pub same_kind-eq : (k l : ToolInvocationKind) → same_kind k l ≡ true → k ≡ l
same_kind-eq function function h = refl
same_kind-eq freeform freeform h = refl
same_kind-eq (other i) (other j) h = ground arith
same_kind-eq function freeform h = cc
same_kind-eq function (other j) h = cc
same_kind-eq freeform function h = cc
same_kind-eq freeform (other j) h = cc
same_kind-eq (other i) function h = cc
same_kind-eq (other i) freeform h = cc

pub same_flag-eq : (a b : Bool) → same_flag a b ≡ true → a ≡ b
same_flag-eq true b h = sym h
same_flag-eq false b h = ground arith

-- Scopes with the same facts are exact repeats of the same scopes.
pub is_exact-eq : (a b s : ToolCallScope) → is_exact a b ≡ true → is_exact a s ≡ is_exact b s
unfolding is_exact tool_call_covered_content_equal
is_exact-eq a b s h = ground (
  arith,
  eq_iff a.signature b.signature,
  eq_iff a.id b.id,
  eq_iff a.name b.name,
  eq_iff a.arguments b.arguments,
  eq_iff a.input b.input,
  same_kind-eq a.kind b.kind,
  same_flag-eq a.input_seen b.input_seen,
)

pub free-consume_at :
    (s : ToolCallScope) (index : ℕ) (m : List (Flagged ToolCallScope)) {x : ToolCallScope}
    {after : List (Flagged ToolCallScope)}
    → consume_at index m ≡ some (x, after)
    → free_copies s m ≡ one_if (is_exact x s) + free_copies s after
unfolding consume_at
free-consume_at s index [] h = cc
free-consume_at s index ((used, a) ∷ m) {x} {after} h = elim (Option-cases (consume_at index m)) [
  | inl missing ↦ ground arith
  | inr ((y, rest), found) ↦ ground (arith, free-consume_at s index m {x = y} {after = rest} found)
]

-- The documented verdicts of the kit: a mutation is allowed when the signature is gone, or when it
-- is the accepted one over content that did not change.
abbrev pub KeepsSignatures :
    {Class : Type 0} → (String → String → Bool → Class) → (Class → Bool) → Type 0
KeepsSignatures classify allowed =
    (old signature : String) (changed : Bool)
    → allowed (classify old signature changed) ≡ true
    → (signature ≡ "") ⊎ ((signature ≡ old) × (changed ≡ false))

covered-content_changed :
    (a b : ToolCallScope)
    → tool_call_content_changed a b ≡ not (tool_call_covered_content_equal a b)
unfolding tool_call_content_changed tool_call_covered_content_equal
covered-content_changed a b = ground arith

module _ {Class : Type 0} (classify : String → String → Bool → Class) (allowed : Class → Bool)
    (keeps : KeepsSignatures classify allowed) where
  -- A verdict that lets a signed scope through found its accepted original.
  judge-IsExact :
      (index : ℕ) (a r : ToolCallScope) (changed : Bool)
      (taken after : List (Flagged ToolCallScope))
      → (changed ≡ false → tool_call_covered_content_equal a r ≡ true)
      → judge classify allowed index a r.signature changed taken ≡ pass after
      → (after ≡ taken) × ((str_eq r.signature "" ≡ true) ⊎ (is_exact a r ≡ true))
  unfolding is_exact
  judge-IsExact index a r changed taken after covered h =
      elim (Bool-cases (allowed (classify a.signature r.signature changed))) [
        | inr refused ↦ absurd (ground (arith, refused))
        | inl fine ↦ (
          ground (arith, fine),
          elim (keeps a.signature r.signature changed fine) [
            | inl gone ↦ inl ((eq_iff r.signature "").1 gone)
            | inr (same, unchanged) ↦
                inr (rw ((eq_iff a.signature r.signature).1 (sym same)) (covered unchanged))
          ],
        )
      ]

  unsigned-copy :
      (r s : ToolCallScope)
      → str_eq s.signature "" ≡ false
      → str_eq r.signature "" ≡ true
      → is_exact r s ≡ false
  unfolding is_exact
  unsigned-copy r s n e = ground (arith, eq_iff r.signature "", eq_iff r.signature s.signature)

  spend :
      (s a r : ToolCallScope) (f g : ℕ)
      → str_eq s.signature "" ≡ false
      → (str_eq r.signature "" ≡ true) ⊎ (is_exact a r ≡ true)
      → f ≡ one_if (is_exact a s) + g
      → one_if (is_exact r s) + g ≤ f
  spend s a r f g n (inl unsigned) e = ground (arith, unsigned-copy r s n unsigned)
  spend s a r f g n (inr exact) e = ground (arith, is_exact-eq a r s exact)

  -- A returned scope that passes pays for each signed copy with one accepted copy.
  free-correlate :
      (can_write : String → Bool) (s r : ToolCallScope) (m after : List (Flagged ToolCallScope))
      → str_eq s.signature "" ≡ false
      → correlate classify allowed can_write r m ≡ pass after
      → one_if (is_exact r s) + free_copies s after ≤ free_copies s m
  unfolding correlate invent
  free-correlate can_write s r m after n h = elim (Option-cases (consume_at r.index m)) [
    | inr ((a, taken), found) ↦
        let (same, exact) =
          judge-IsExact r.index a r (tool_call_content_changed a r) taken after
            (λ u. ground (arith, covered-content_changed a r)) (ground (arith, found)) in
        rw same (
          spend s a r (free_copies s m) (free_copies s taken) n exact
            (free-consume_at s r.index m found))
    | inl elsewhere ↦
        let fits = λ (a : ToolCallScope). tool_call_covered_content_equal a r in
        elim (Option-cases (consume_first fits m)) [
          | inr ((a, taken), found) ↦
              let (same, exact) =
                judge-IsExact r.index a r false taken after (λ u. consume_first-fits fits m found)
                  (ground (arith, elsewhere, found)) in
              rw same (
                spend s a r (free_copies s m) (free_copies s taken) n exact
                  (free-consume_first fits (λ a. is_exact a s) m found))
          | inl missing ↦ ground (arith, elsewhere, missing, unsigned-copy r s n)
        ]
  ]

  free-correlate_all :
      (can_write : String → Bool) (s : ToolCallScope) (flags m after : List (Flagged ToolCallScope))
      → str_eq s.signature "" ≡ false
      → correlate_all classify allowed can_write flags m ≡ pass after
      → free_copies s flags + free_copies s after ≤ free_copies s m
  unfolding correlate_all
  free-correlate_all can_write s [] m after n h = ground arith
  free-correlate_all can_write s ((true, r) ∷ flags) m after n h =
      ground (arith, free-correlate_all can_write s flags m after n h)
  free-correlate_all can_write s ((false, r) ∷ flags) m after n h =
      elim (correlate classify allowed can_write r m)
          as (λ j.
            correlate classify allowed can_write r m ≡ j
            → free_copies s ((false, r) ∷ flags) + free_copies s after ≤ free_copies s m) [
              | fail f ↦ λ e. absurd (ground (arith, e))
              | pass taken ↦ λ e. ground (
                arith,
                free-correlate can_write s r m taken n e,
                free-correlate_all can_write s flags taken after n (ground (arith, e)),
              )
            ]
        refl

  -- No signature is minted: if the kit allows a mutation only where the signature is gone, or is the
  -- accepted one over unchanged content, then in a stream that passes, whatever the grants, each
  -- signature that is not empty occurs over given content at most as often as in the accepted stream.
  pub copies-verify_tool_scopes :
      (accepted returned : List ToolCallScope) (can_write : String → Bool) (s : ToolCallScope)
      → str_eq s.signature "" ≡ false
      → verify_tool_scopes classify allowed accepted returned can_write ≡ none
      → copies s returned ≤ copies s accepted
  unfolding verify_tool_scopes
  copies-verify_tool_scopes accepted returned can_write s n h =
      let (after, flags) = exact_pass is_exact returned (unconsumed accepted) in
      elim (correlate_all classify allowed can_write flags after)
          as (λ j.
            correlate_all classify allowed can_write flags after ≡ j
            → copies s returned ≤ copies s accepted) [
              | fail f ↦ λ e. absurd (ground (arith, e))
              | pass rest ↦ λ e. ground (
                arith,
                free-correlate_all can_write s flags after rest n e,
                free-exact_pass is_exact (λ a. is_exact a s) (λ a b. is_exact-eq a b s) returned
                    (unconsumed accepted),
                free-unconsumed (λ a. is_exact a s) accepted,
              )
            ]
        refl
