-- ===== src/Stream/Cardinality.antt =====
-- Tool blocks are neither added nor, if signed, left out by a plugin that lacks the stream grant.
use Prim.Native.String.{String}
use package.text.Mathlib.Text.{◌==◌ as str_eq}
use torana_edge.Prelude.{
  ℕ, ◌+◌, ◌≤◌, ◌≡◌, refl, List, [], ◌∷◌, Bool, true, false, ◌&&◌, not, none, some, arith,
  Option-cases, inl, inr, length,
}
use torana_edge.Stream.Consume.{Flagged, one_if, unconsumed, consume_first, exact_pass}
use torana_edge.Stream.ToolScopes.{
  ToolCallScope, tool_call_covered_content_equal, is_exact, consume_at, pass, fail, invent,
  correlate, correlate_all, suppressed, verify_tool_scopes, stream_write_grant,
}

abbrev used_count : List (Flagged ToolCallScope) → ℕ
used_count [] = 0
used_count ((used, a) ∷ m) = one_if used + used_count m

-- The scopes that carry a signature.
abbrev pub signed_count : List ToolCallScope → ℕ
signed_count [] = 0
signed_count (a ∷ xs) = one_if (not (str_eq a.signature "")) + signed_count xs

abbrev signed_flagged : List (Flagged ToolCallScope) → ℕ
signed_flagged [] = 0
signed_flagged ((used, a) ∷ m) = one_if (not (str_eq a.signature "")) + signed_flagged m

abbrev signed_free : List (Flagged ToolCallScope) → ℕ
signed_free [] = 0
signed_free ((used, a) ∷ m) = one_if (not used && not (str_eq a.signature "")) + signed_free m

-- The second list has as many more scopes consumed, and is otherwise like the first.
record Consumes (m after : List (Flagged ToolCallScope)) (n : ℕ) : Type 0 where
  more : used_count after ≡ used_count m + n
  signed : signed_flagged after ≡ signed_flagged m
  sized : length after ≡ length m

consume_first-Consumes :
    (fits : ToolCallScope → Bool) (m : List (Flagged ToolCallScope)) {x : ToolCallScope}
    {after : List (Flagged ToolCallScope)}
    → consume_first fits m ≡ some (x, after)
    → Consumes m after 1
unfolding consume_first
consume_first-Consumes fits [] h = cc
consume_first-Consumes fits ((used, a) ∷ m) {x} {after} h =
    elim (Option-cases (consume_first fits m)) [
      | inl missing ↦ record { more = ground arith; signed = ground arith; sized = ground arith }
      | inr ((y, rest), found) ↦
          let c = consume_first-Consumes fits m {x = y} {after = rest} found in
          record {
            more = ground (arith, c.more);
            signed = ground (arith, c.signed);
            sized = ground (arith, c.sized);
          }
    ]

consume_at-Consumes :
    (index : ℕ) (m : List (Flagged ToolCallScope)) {x : ToolCallScope}
    {after : List (Flagged ToolCallScope)}
    → consume_at index m ≡ some (x, after)
    → Consumes m after 1
unfolding consume_at
consume_at-Consumes index [] h = cc
consume_at-Consumes index ((used, a) ∷ m) {x} {after} h = elim (Option-cases (consume_at index m)) [
  | inl missing ↦ record { more = ground arith; signed = ground arith; sized = ground arith }
  | inr ((y, rest), found) ↦
      let c = consume_at-Consumes index m {x = y} {after = rest} found in
      record {
        more = ground (arith, c.more);
        signed = ground (arith, c.signed);
        sized = ground (arith, c.sized);
      }
]

Consumes-trans :
    {m m' after : List (Flagged ToolCallScope)} {n k : ℕ}
    → Consumes m m' n
    → Consumes m' after k
    → Consumes m after (n + k)
Consumes-trans c d = record {
  more = omega (arith, c.more, d.more);
  signed = ground (arith, c.signed, d.signed);
  sized = omega (arith, c.sized, d.sized);
}

exact_pass-Consumes :
    (rs : List ToolCallScope) (m : List (Flagged ToolCallScope))
    → Consumes m (exact_pass is_exact rs m).0 (used_count (exact_pass is_exact rs m).1)
      × (length (exact_pass is_exact rs m).1 ≡ length rs)
unfolding exact_pass
exact_pass-Consumes [] m = (record { more = omega arith; signed = refl; sized = refl }, refl)
exact_pass-Consumes (r ∷ rs) m = elim (Option-cases (consume_first (λ a. is_exact a r) m)) [
  | inl missing ↦
      let (c, l) = exact_pass-Consumes rs m in
      (
        record {
          more = ground (arith, missing, c.more);
          signed = ground (arith, missing, c.signed);
          sized = ground (arith, missing, c.sized);
        },
        ground (arith, missing, l),
      )
  | inr ((x, rest), found) ↦
      let (c, l) = exact_pass-Consumes rs rest in
      let d = consume_first-Consumes (λ a. is_exact a r) m found in
      (
        record {
          more = ground (arith, found, c.more, d.more);
          signed = ground (arith, found, c.signed, d.signed);
          sized = ground (arith, found, c.sized, d.sized);
        },
        ground (arith, found, l),
      )
]

signed-used : (m : List (Flagged ToolCallScope)) → signed_flagged m ≤ signed_free m + used_count m
signed-used [] = omega arith
signed-used ((true, a) ∷ m) = ground (arith, signed-used m)
signed-used ((false, a) ∷ m) = ground (arith, signed-used m)

used_count-le : (m : List (Flagged ToolCallScope)) → used_count m ≤ length m
used_count-le [] = omega arith
used_count-le ((true, a) ∷ m) = omega (arith, used_count-le m)
used_count-le ((false, a) ∷ m) = omega (arith, used_count-le m)

unconsumed-Consumes :
    (xs : List ToolCallScope)
    → (used_count (unconsumed xs) ≡ 0)
      × (signed_flagged (unconsumed xs) ≡ signed_count xs)
      × (length (unconsumed xs) ≡ length xs)
unconsumed-Consumes [] = (refl, refl, refl)
unconsumed-Consumes (x ∷ xs) =
    let (u, s, l) = unconsumed-Consumes xs in (omega (arith, u), omega (arith, s), omega (arith, l))

module _ {Class : Type 0} (classify : String → String → Bool → Class) (allowed : Class → Bool)
    (can_write : String → Bool) (no_grant : can_write stream_write_grant ≡ false) where
  correlate-Consumes :
      (r : ToolCallScope) (m after : List (Flagged ToolCallScope))
      → correlate classify allowed can_write r m ≡ pass after
      → Consumes m after 1
  unfolding correlate invent
  correlate-Consumes r m after h = elim (Option-cases (consume_at r.index m)) [
    | inr ((a, taken), found) ↦
        let c = consume_at-Consumes r.index m found in
        record {
          more = ground (arith, found, c.more);
          signed = ground (arith, found, c.signed);
          sized = ground (arith, found, c.sized);
        }
    | inl elsewhere ↦
        let fits = λ (a : ToolCallScope). tool_call_covered_content_equal a r in
        elim (Option-cases (consume_first fits m)) [
          | inl missing ↦ absurd (ground (arith, elsewhere, missing, no_grant))
          | inr ((a, taken), found) ↦
              let c = consume_first-Consumes fits m found in
              record {
                more = ground (arith, elsewhere, found, c.more);
                signed = ground (arith, elsewhere, found, c.signed);
                sized = ground (arith, elsewhere, found, c.sized);
              }
        ]
  ]

  correlate_all-Consumes :
      (flags m after : List (Flagged ToolCallScope))
      → correlate_all classify allowed can_write flags m ≡ pass after
      → (used_count after + used_count flags ≡ used_count m + length flags)
        × (signed_flagged after ≡ signed_flagged m)
        × (length after ≡ length m)
  unfolding correlate_all
  correlate_all-Consumes [] m after h = (ground arith, ground arith, ground arith)
  correlate_all-Consumes ((true, r) ∷ flags) m after h =
      let (u, s, l) = correlate_all-Consumes flags m after h in (omega (arith, u), s, l)
  correlate_all-Consumes ((false, r) ∷ flags) m after h =
      elim (correlate classify allowed can_write r m)
          as (λ j.
            correlate classify allowed can_write r m ≡ j
            → (used_count after + used_count ((false, r) ∷ flags)
                ≡ used_count m + length ((false, r) ∷ flags))
              × (signed_flagged after ≡ signed_flagged m)
              × (length after ≡ length m)) [
                | fail f ↦ λ e. absurd (ground (arith, e))
                | pass taken ↦ λ e.
                    let c = correlate-Consumes r m taken e in
                    let (u, s, l) = correlate_all-Consumes flags taken after (ground (arith, e)) in
                    (
                      omega (arith, u, c.more),
                      ground (arith, s, c.signed),
                      omega (arith, l, c.sized),
                    )
              ]
        refl

  suppressed-signed_free :
      (m : List (Flagged ToolCallScope))
      → suppressed {Class = Class} classify allowed can_write m ≡ none
      → signed_free m ≡ 0
  unfolding suppressed
  suppressed-signed_free [] h = refl
  suppressed-signed_free ((used, a) ∷ m) h = ground (arith, no_grant, suppressed-signed_free m)

  -- Without the stream grant, the number of tool blocks of a stream that passes is at most that of the
  -- accepted one, and at least that of the signed ones there.
  pub length-verify_tool_scopes :
      (accepted returned : List ToolCallScope)
      → verify_tool_scopes classify allowed accepted returned can_write ≡ none
      → (length returned ≤ length accepted) × (signed_count accepted ≤ length returned)
  unfolding verify_tool_scopes
  length-verify_tool_scopes accepted returned h =
      let (after, flags) = exact_pass is_exact returned (unconsumed accepted) in
      elim (correlate_all classify allowed can_write flags after)
          as (λ j.
            correlate_all classify allowed can_write flags after ≡ j
            → (length returned ≤ length accepted) × (signed_count accepted ≤ length returned)) [
              | fail f ↦ λ e. absurd (ground (arith, e))
              | pass rest ↦ λ e.
                  let (c, r) = exact_pass-Consumes returned (unconsumed accepted) in
                  let (u, s, l) = correlate_all-Consumes flags after rest e in
                  let (u0, s0, l0) = unconsumed-Consumes accepted in
                  let kept = suppressed-signed_free rest (ground (arith, e)) in
                  (
                    omega (arith, c.more, c.sized, r, u, l, u0, l0, used_count-le rest),
                    omega (arith, c.more, c.signed, r, u, s, u0, s0, kept, signed-used rest),
                  )
            ]
        refl
