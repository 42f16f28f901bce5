-- ===== src/Feed/Ring.antt =====
-- The ring buffer keeps the newest events, newest first.
use mathlib.Core.Path.{◌≡⟨◌⟩◌, ◌∎}
use mathlib.Core.List.{reverse, reverse-cons, append_assoc}
use native.Mathlib.Nat.{mod-lt, mod-eq_of_lt, mod-eq-sub-mod}
use torana_edge.Prelude.{
  ℕ, zero, suc, ◌+◌, ◌-◌, ◌%◌, ◌≤◌, ◌<◌, ◌≡◌, refl, ap, ap₂, ◌∙◌, ◌≢◌, inl, inr, List, [], ◌∷◌,
  ◌++◌, length, set, get_or, take, take_of_length-le, take-append-take, true, false, sym, arith,
  length-set, Bool-cases, ltb,
}
use torana_edge.Feed.{RequestFeed, add, snapshot_from, snapshot}

module _ {ℓ} {E : Type ℓ} where
  pub record IsValid (f : RequestFeed E) : Type ℓ where
    pub positive : 0 < f.cap
    pub head_inside : f.head < f.cap
    pub count_capped : f.count ≤ f.cap
    pub buffer : length f.buf ≡ f.cap

  get_or-set_self : (xs : List E) (i : ℕ) (v z : E) → i < length xs → get_or (set xs i v) i z ≡ v
  get_or-set_self [] i v z h = absurd (omega arith)
  get_or-set_self (x ∷ xs) zero v z h = refl
  get_or-set_self (x ∷ xs) (suc i) v z h = get_or-set_self xs i v z (omega arith)

  get_or-set_ne :
      (xs : List E) (i j : ℕ) (v z : E) → i ≢ j → get_or (set xs i v) j z ≡ get_or xs j z
  get_or-set_ne [] i j v z h = refl
  get_or-set_ne (x ∷ xs) zero zero v z h = absurd (h refl)
  get_or-set_ne (x ∷ xs) zero (suc j) v z h = refl
  get_or-set_ne (x ∷ xs) (suc i) zero v z h = refl
  get_or-set_ne (x ∷ xs) (suc i) (suc j) v z h = get_or-set_ne xs i j v z (λ e. h (ap suc e))

mod_below : (a cap : ℕ) → a < cap → a % cap ≡ a
mod_below a cap h = mod-eq_of_lt h

mod_wrapped : (a cap : ℕ) → cap ≤ a → a < cap + cap → a % cap ≡ a - cap
mod_wrapped a cap h k = mod-eq-sub-mod h ∙ mod-eq_of_lt (omega arith)

-- The slot before the advanced head is the one just written.
slot_newest : (head cap : ℕ) → head < cap → ((head + 1) % cap + cap - 1 - 0) % cap ≡ head
slot_newest head cap h = grind (arith, mod_below, mod_wrapped)

-- One slot further back is where the previous head was one slot nearer.
slot_older :
    (head cap i : ℕ)
    → head < cap
    → suc i < cap
    → (((head + 1) % cap + cap - 1 - suc i) % cap ≡ (head + cap - 1 - i) % cap)
      × (head ≢ (head + cap - 1 - i) % cap)
slot_older head cap i h k =
    (grind (arith, mod_below, mod_wrapped), grind (arith, mod_below, mod_wrapped))

reverse-middle {ℓ} :
    {E : Type ℓ} (es : List E) (ev : E) (rest : List E)
    → reverse es ++ ev ∷ rest ≡ reverse (ev ∷ es) ++ rest
reverse-middle es ev rest = simp (reverse-cons, append_assoc)

module _ {ℓ} {E : Type ℓ} where
  pub add-IsValid : (ev : E) {f : RequestFeed E} → IsValid f → IsValid (add ev f)
  unfolding add
  add-IsValid ev {f} v = record {
    positive = v.positive;
    head_inside = mod-lt _ v.positive;
    count_capped = ground arith;
    buffer = length-set f.buf f.head ev ∙ v.buffer;
  }

  length-snapshot_from : (z : E) (f : RequestFeed E) (i n : ℕ) → length (snapshot_from z f i n) ≡ n
  unfolding snapshot_from
  length-snapshot_from z f i zero = refl
  length-snapshot_from z f i (suc n) = ap suc (length-snapshot_from z f (suc i) n)

  take-snapshot_from :
      (z : E) (f : RequestFeed E) (i n m : ℕ)
      → n ≤ m
      → take n (snapshot_from z f i m) ≡ snapshot_from z f i n
  unfolding snapshot_from
  take-snapshot_from z f i zero m h = refl
  take-snapshot_from z f i (suc n) zero h = absurd (omega arith)
  take-snapshot_from z f i (suc n) (suc m) h =
      ap (◌∷◌ (get_or f.buf ((f.head + f.cap - 1 - i) % f.cap) z))
        (take-snapshot_from z f (suc i) n m (omega arith))

  -- What was at distance `i` from the head is at distance `i + 1` after a write.
  snapshot_from-add :
      (z ev : E) (f : RequestFeed E)
      → IsValid f
      → (i n : ℕ) → i + n < f.cap
      → snapshot_from z (add ev f) (suc i) n ≡ snapshot_from z f i n
  unfolding snapshot_from add
  snapshot_from-add z ev f v i zero h = refl
  snapshot_from-add z ev f v i (suc n) h =
      let (same, other) = slot_older f.head f.cap i v.head_inside (omega arith) in
      ap₂ ◌∷◌
        (ap (λ j. get_or (set f.buf f.head ev) j z) same ∙ get_or-set_ne f.buf f.head _ ev z other)
        (snapshot_from-add z ev f v (suc i) n (omega arith))

  snapshot_from-add_newest :
      (z ev : E) (f : RequestFeed E)
      → IsValid f
      → (k : ℕ) → k < f.cap
      → snapshot_from z (add ev f) 0 (suc k) ≡ ev ∷ snapshot_from z f 0 k
  unfolding snapshot_from add
  snapshot_from-add_newest z ev f v k h =
      ap₂ ◌∷◌
        (ap (λ j. get_or (set f.buf f.head ev) j z) (slot_newest f.head f.cap v.head_inside)
          ∙ get_or-set_self f.buf f.head ev z (omega (arith, v.head_inside, v.buffer)))
        (snapshot_from-add z ev f v 0 k (omega arith))

  count_room :
      (ev : E) (f : RequestFeed E) → ltb f.count f.cap ≡ true → (add ev f).count ≡ suc f.count
  unfolding add
  count_room ev f h = ground arith

  count_full : (ev : E) (f : RequestFeed E) → ltb f.count f.cap ≡ false → (add ev f).count ≡ f.count
  unfolding add
  count_full ev f h = ground arith

  count_eq : (f : RequestFeed E) → IsValid f → ltb f.count f.cap ≡ false → f.count ≡ f.cap
  count_eq f v h = ground (arith, v.count_capped)

  snapshot_short :
      (z : E) (f : RequestFeed E) (c : ℕ) → f.count ≤ c → length (snapshot_from z f 0 f.count) ≤ c
  snapshot_short z f c h = omega (arith, length-snapshot_from z f 0 f.count)

  snapshot-capped : (z : E) (f : RequestFeed E) → IsValid f → length (snapshot z f) ≤ f.cap
  unfolding snapshot
  snapshot-capped z f v = omega (arith, length-snapshot_from z f 0 f.count, v.count_capped)

  snapshot-add_at :
      (z ev : E) (f : RequestFeed E)
      → IsValid f
      → (c : ℕ) → f.cap ≡ suc c
      → snapshot z (add ev f) ≡ ev ∷ take c (snapshot z f)
  unfolding snapshot
  snapshot-add_at z ev f v c e = elim (Bool-cases (ltb f.count f.cap)) [
    | inl room ↦
        ap (snapshot_from z (add ev f) 0) (count_room ev f room)
        ∙ snapshot_from-add_newest z ev f v f.count (ground arith)
        ∙ ap (◌∷◌ ev) (sym (take_of_length-le c _ (snapshot_short z f c (ground arith))))
    | inr full ↦
        ap (snapshot_from z (add ev f) 0) (count_full ev f full ∙ count_eq f v full ∙ e)
        ∙ snapshot_from-add_newest z ev f v c (omega arith)
        ∙ ap (◌∷◌ ev) (sym (take-snapshot_from z f 0 c f.count (ground (arith, v.count_capped))))
  ]

  snapshot-add :
      (z ev : E) (f : RequestFeed E)
      → IsValid f
      → snapshot z (add ev f) ≡ take f.cap (ev ∷ snapshot z f)
  unfolding snapshot
  snapshot-add z ev f v =
      let e : f.cap ≡ suc (f.cap - 1) = omega (arith, v.positive) in
      snapshot-add_at z ev f v (f.cap - 1) e ∙ ap (λ n. take n (ev ∷ snapshot z f)) (sym e)

  -- The events of `es` are added one after another.
  abbrev pub add_all : List E → RequestFeed E → RequestFeed E
  add_all [] f = f
  add_all (ev ∷ es) f = add_all es (add ev f)

  cap-add : (ev : E) (f : RequestFeed E) → (add ev f).cap ≡ f.cap
  unfolding add
  cap-add ev f = refl

  -- Once events were added to a feed, its snapshot is these events and those of the feed before,
  -- newest first, cut at the capacity: nothing recent is lost, repeated or put out of order.
  pub snapshot-add_all :
      (z : E) (es : List E) (f : RequestFeed E)
      → IsValid f
      → snapshot z (add_all es f) ≡ take f.cap (reverse es ++ snapshot z f)
  snapshot-add_all z [] f v = sym (take_of_length-le f.cap (snapshot z f) (snapshot-capped z f v))
  snapshot-add_all z (ev ∷ es) f v =
      snapshot z (add_all es (add ev f))
      ≡⟨ snapshot-add_all z es (add ev f) (add-IsValid ev v) ⟩
        take (add ev f).cap (reverse es ++ snapshot z (add ev f))
      ≡⟨ ap₂ (λ n l. take n (reverse es ++ l)) (cap-add ev f) (snapshot-add z ev f v) ⟩
        take f.cap (reverse es ++ take f.cap (ev ∷ snapshot z f))
      ≡⟨ take-append-take f.cap f.cap (reverse es) (ev ∷ snapshot z f) (omega arith) ⟩
        take f.cap (reverse es ++ ev ∷ snapshot z f)
      ≡⟨ ap (take f.cap) (reverse-middle es ev (snapshot z f)) ⟩
        take f.cap (reverse (ev ∷ es) ++ snapshot z f) ∎
