-- ===== src/Stream/Consume.antt =====
-- The `consumed` arrays of internal/plugin/streamverify.go: an accepted stream's items, each marked
-- when a returned item is paired with it, and the first phase of both verifiers.
use torana_edge.Prelude.{
  ℕ, ◌+◌, ◌≡◌, ◌≤◌, refl, List, [], ◌∷◌, Bool, true, false, ◌&&◌, not, Option, none, some, arith,
  if◌then◌else◌, Option-cases, inl, inr,
}

-- An item with its place in the `consumed` array.
abbrev pub Flagged {ℓ} : Type ℓ → Type ℓ
Flagged A = Bool × A

abbrev pub one_if : Bool → ℕ
one_if true = 1
one_if false = 0

module _ {ℓ} {A : Type ℓ} where
  abbrev pub unconsumed : List A → List (Flagged A)
  unconsumed [] = []
  unconsumed (s ∷ ss) = (false, s) ∷ unconsumed ss

  abbrev pub keep_before : Flagged A → Option (A × List (Flagged A)) → Option (A × List (Flagged A))
  keep_before a none = none
  keep_before a (some (x, rest)) = some (x, a ∷ rest)

  -- The first item that is not consumed and fits, and the items with it consumed.
  unfoldable pub consume_first : (A → Bool) → List (Flagged A) → Option (A × List (Flagged A))
  consume_first fits [] = none
  consume_first fits ((used, a) ∷ rest) =
      let later = keep_before (used, a) (consume_first fits rest) in
      if not used && fits a then some (a, (true, a) ∷ rest) else later

  -- Phase 1, over all returned items: the accepted ones and the returned ones after it.
  unfoldable pub exact_pass :
      (A → A → Bool) → List A → List (Flagged A) → List (Flagged A) × List (Flagged A)
  unfolding consume_first
  exact_pass same [] accepted = (accepted, [])
  exact_pass same (r ∷ rs) accepted = elim (consume_first (λ a. same a r) accepted) [
    | none ↦ let (after, flags) = exact_pass same rs accepted in (after, (false, r) ∷ flags)
    | some (x, taken) ↦ let (after, flags) = exact_pass same rs taken in (after, (true, r) ∷ flags)
  ]

  abbrev pub count : (A → Bool) → List A → ℕ
  count p [] = 0
  count p (a ∷ rest) = one_if (p a) + count p rest

  -- The items that are not consumed and satisfy a test.
  abbrev pub free : (A → Bool) → List (Flagged A) → ℕ
  free p [] = 0
  free p ((used, a) ∷ rest) = one_if (not used && p a) + free p rest

  abbrev pub all_used : List (Flagged A) → Bool
  all_used [] = true
  all_used ((used, a) ∷ m) = used && all_used m

  pub free-unconsumed : (p : A → Bool) (xs : List A) → free p (unconsumed xs) ≡ count p xs
  free-unconsumed p [] = refl
  free-unconsumed p (a ∷ xs) = ground (arith, free-unconsumed p xs)

  pub free-all_used : (p : A → Bool) (m : List (Flagged A)) → all_used m ≡ true → free p m ≡ 0
  free-all_used p [] h = refl
  free-all_used p ((used, a) ∷ m) h = ground (arith, free-all_used p m)

  pub consume_first-fits :
      (fits : A → Bool) (m : List (Flagged A)) {x : A} {after : List (Flagged A)}
      → consume_first fits m ≡ some (x, after)
      → fits x ≡ true
  unfolding consume_first
  consume_first-fits fits [] h = cc
  consume_first-fits fits ((used, a) ∷ m) {x} {after} h =
      elim (Option-cases (consume_first fits m)) [
        | inl missing ↦ ground arith
        | inr ((y, rest), found) ↦
            ground (arith, consume_first-fits fits m {x = y} {after = rest} found)
      ]

  pub free-consume_first :
      (fits p : A → Bool) (m : List (Flagged A)) {x : A} {after : List (Flagged A)}
      → consume_first fits m ≡ some (x, after)
      → free p m ≡ one_if (p x) + free p after
  unfolding consume_first
  free-consume_first fits p [] h = cc
  free-consume_first fits p ((used, a) ∷ m) {x} {after} h =
      elim (Option-cases (consume_first fits m)) [
        | inl missing ↦ ground arith
        | inr ((y, rest), found) ↦
            ground (arith, free-consume_first fits p m {x = y} {after = rest} found)
      ]

  abbrev pub every : (A → Bool) → List (Flagged A) → Bool
  every p [] = true
  every p ((used, a) ∷ m) = p a && every p m

  pub every-consume_first :
      (fits p : A → Bool) (m : List (Flagged A)) {x : A} {after : List (Flagged A)}
      → consume_first fits m ≡ some (x, after)
      → every p m ≡ true
      → (p x ≡ true) × (every p after ≡ true)
  unfolding consume_first
  every-consume_first fits p [] h e = cc
  every-consume_first fits p ((used, a) ∷ m) {x} {after} h e =
      elim (Option-cases (consume_first fits m)) [
        | inl missing ↦ (ground arith, ground arith)
        | inr ((y, rest), found) ↦
            let (l, r) = every-consume_first fits p m {x = y} {after = rest} found (ground arith) in
            (ground (arith, l), ground (arith, l, r))
      ]

  pub free-exact_pass-le :
      (same : A → A → Bool) (p : A → Bool) (rs : List A) (m : List (Flagged A))
      → free p (exact_pass same rs m).0 ≤ free p m
  unfolding exact_pass
  free-exact_pass-le same p [] m = omega arith
  free-exact_pass-le same p (r ∷ rs) m = elim (Option-cases (consume_first (λ a. same a r) m)) [
    | inl missing ↦ ground (arith, missing, free-exact_pass-le same p rs m)
    | inr ((x, rest), found) ↦ ground (
      arith,
      found,
      free-exact_pass-le same p rs rest,
      free-consume_first (λ a. same a r) p m found,
    )
  ]

  pub free-missing :
      (fits : A → Bool) (m : List (Flagged A)) → consume_first fits m ≡ none → free fits m ≡ 0
  unfolding consume_first
  free-missing fits [] h = refl
  free-missing fits ((used, a) ∷ m) h =
      ground (arith, Option-cases (consume_first fits m), free-missing fits m)

-- What phase 1 leaves, for a test that does not tell items with the same facts apart: each exact
-- repeat consumed one accepted item.
module _ {ℓ} {A : Type ℓ} (same : A → A → Bool) (p : A → Bool)
    (alike : (a b : A) → same a b ≡ true → p a ≡ p b) where
  pub free-exact_pass :
      (rs : List A) (m : List (Flagged A))
      → free p m + free p (exact_pass same rs m).1 ≡ count p rs + free p (exact_pass same rs m).0
  unfolding exact_pass
  free-exact_pass [] m = omega arith
  free-exact_pass (r ∷ rs) m = elim (Option-cases (consume_first (λ a. same a r) m)) [
    | inl missing ↦ ground (arith, missing, free-exact_pass rs m)
    | inr ((x, rest), found) ↦ ground (
      arith,
      found,
      free-exact_pass rs rest,
      free-consume_first (λ a. same a r) p m found,
      alike x r (consume_first-fits (λ a. same a r) m found),
    )
  ]

  pub count-after_first :
      (r : A) (rs : List A) (m : List (Flagged A)) {x : A} {rest : List (Flagged A)}
      → consume_first (λ a. same a r) m ≡ some (x, rest)
      → free p m + count p rs ≡ free p rest + count p (r ∷ rs)
  count-after_first r rs m {x} {rest} found = ground (
    arith,
    free-consume_first (λ a. same a r) p m found,
    alike x r (consume_first-fits (λ a. same a r) m found),
  )
