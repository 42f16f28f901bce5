-- ===== src/Cache/Eviction.antt =====
-- The loop of internal/cache/cache.go that gives up the least recently used entries ends within the
-- limits, and keeps what a bounded list of recent entries would keep.
use text.Mathlib.TextEquality.{eq_iff}
use torana_edge.Prelude.{
  ℕ, zero, suc, ◌+◌, ◌<◌, ◌≡◌, ◌≢◌, refl, List, [], ◌∷◌, Bool, true, false, ◌&&◌, ◌||◌, none, some,
  length, ltb, arith, if◌then◌else◌, Option-cases, Bool-cases, inl, inr, sym, subst,
}
use torana_edge.Cache.{
  CacheEntry, LocalCache, unlink, remove_locked, back, is_over, evict_loop, evict_bounds_locked,
}
use torana_edge.Cache.Coherence.{
  find, total_size, length-unlink, has_distinct_keys, IsCoherent, remove_locked-IsCoherent,
}

-- A bounded list of recent entries: so many entries, and so many bytes, where a limit is given.
abbrev exceeds : ℕ → ℕ → ℕ → ℕ → Bool
exceeds max_entries max_bytes count used =
    ltb 0 max_entries && ltb max_entries count || ltb 0 max_bytes && ltb max_bytes used

-- The entries from the front on that fit, with `count` entries and `used` bytes before them.
abbrev pub fitting : ℕ → ℕ → ℕ → ℕ → List CacheEntry → List CacheEntry
fitting max_entries max_bytes count used [] = []
fitting max_entries max_bytes count used (e ∷ es) =
    let rest = fitting max_entries max_bytes (count + 1) (used + e.size) es in
    if exceeds max_entries max_bytes (count + 1) (used + e.size) then [] else e ∷ rest

back-none : (es : List CacheEntry) → back es ≡ none → es ≡ []
unfolding back
back-none [] h = refl
back-none (e ∷ es) h = absurd (ground (arith, Option-cases (back es)))

find-back :
    (es : List CacheEntry) {b : CacheEntry}
    → has_distinct_keys es ≡ true
    → back es ≡ some b
    → find b.key es ≡ some b
unfolding back
find-back [] d h = cc
find-back (e ∷ es) {b} d h = elim (Option-cases (back es)) [
  | inl alone ↦ ground (arith, alone, eq_iff e.key b.key)
  | inr (c, last) ↦ ground (arith, last, find-back es {b = b}, eq_iff e.key b.key)
]

-- Without its last entry a list fits as before, unless the whole of it fits.
fitting-unlink :
    (max_entries max_bytes count used : ℕ) (es : List CacheEntry) {b : CacheEntry}
    → has_distinct_keys es ≡ true
    → back es ≡ some b
    → exceeds max_entries max_bytes (count + length es) (used + total_size es) ≡ true
    → fitting max_entries max_bytes count used es
      ≡ fitting max_entries max_bytes count used (unlink b.key es)
unfolding back unlink
fitting-unlink max_entries max_bytes count used [] d h o = cc
fitting-unlink max_entries max_bytes count used (e ∷ []) {b} d h o =
    ground (arith, eq_iff e.key b.key, eq_iff e.key e.key)
fitting-unlink max_entries max_bytes count used (e ∷ f ∷ es) {b} d h o =
    let later : back (f ∷ es) ≡ some b = ground (arith, Option-cases (back es)) in
    ground (
      arith,
      eq_iff e.key b.key,
      find-back (f ∷ es) {b = b} (ground (arith, d)) later,
      fitting-unlink max_entries max_bytes (count + 1) (used + e.size) (f ∷ es) {b = b}
          (ground (arith, d)) later (ground (arith, o)),
    )

fitting-all :
    (max_entries max_bytes count used : ℕ) (es : List CacheEntry)
    → exceeds max_entries max_bytes (count + length es) (used + total_size es) ≡ false
    → fitting max_entries max_bytes count used es ≡ es
fitting-all max_entries max_bytes count used [] h = refl
fitting-all max_entries max_bytes count used (e ∷ es) h =
    ground (arith, fitting-all max_entries max_bytes (count + 1) (used + e.size) es)

-- What the loop leaves.
record Evicted (l l' : LocalCache) : Type 0 where
  coherent : IsCoherent l'
  kept : l'.lru ≡ fitting l.max_entries l.max_bytes 0 0 l.lru
  within : is_over l' ≡ false

is_over-exceeds :
    (l : LocalCache)
    → IsCoherent l
    → (b : Bool) → is_over l ≡ b
    → exceeds l.max_entries l.max_bytes (0 + length l.lru) (0 + total_size l.lru) ≡ b
unfolding is_over
is_over-exceeds l c b h = ground (arith, h, c.sized, c.counted)

is_over-empty : (l : LocalCache) → IsCoherent l → l.lru ≡ [] → is_over l ≢ true
unfolding is_over
is_over-empty l c h over = ground (arith, h, over, c.sized, c.counted)

fewer :
    (l : LocalCache) (e : CacheEntry) (fuel : ℕ)
    → find e.key l.lru ≡ some e
    → length l.lru < suc fuel
    → length (remove_locked e l).lru < fuel
unfolding remove_locked
fewer l e fuel listed h = omega (arith, length-unlink e.key l.lru listed)

after_removal :
    (l : LocalCache) (e : CacheEntry) (l' : LocalCache)
    → IsCoherent l
    → back l.lru ≡ some e
    → is_over l ≡ true
    → l'.lru
      ≡ fitting
          (remove_locked e l).max_entries
          (remove_locked e l).max_bytes
          0
          0
          (remove_locked e l).lru
    → l'.lru ≡ fitting l.max_entries l.max_bytes 0 0 l.lru
unfolding remove_locked
after_removal l e l' c last over kept = ground (
  arith,
  kept,
  fitting-unlink l.max_entries l.max_bytes 0 0 l.lru {b = e} c.distinct last
      (is_over-exceeds l c true over),
)

evict_loop-Evicted :
    (fuel : ℕ) (l : LocalCache)
    → IsCoherent l
    → length l.lru < fuel
    → (l' : LocalCache) × (evict_loop fuel l ≡ some l') × Evicted l l'
unfolding evict_loop
evict_loop-Evicted zero l c h = absurd (omega (arith, h))
evict_loop-Evicted (suc fuel) l c h = elim (Bool-cases (is_over l)) [
  | inr fits ↦ (
    l,
    ground (arith, fits),
    record {
      coherent = c;
      kept = sym (fitting-all l.max_entries l.max_bytes 0 0 l.lru (is_over-exceeds l c false fits));
      within = fits;
    },
  )
  | inl over ↦ elim (Option-cases (back l.lru)) [
    | inl empty ↦ absurd (is_over-empty l c (back-none l.lru empty) over)
    | inr (e, last) ↦
        let listed = find-back l.lru {b = e} c.distinct last in
        let (l', done, ev) =
          evict_loop-Evicted fuel (remove_locked e l) (remove_locked-IsCoherent l e c listed)
            (fewer l e fuel listed h) in
        (
          l',
          ground (arith, over, last, done),
          record {
            coherent = ev.coherent;
            kept = after_removal l e l' c last over ev.kept;
            within = ev.within;
          },
        )
  ]
]

-- The loop ends: with one round for each entry and one more it reaches its end, within the limits.
pub evict_loop-ends :
    (l : LocalCache)
    → IsCoherent l
    → (l' : LocalCache) × (evict_loop (length l.lru + 1) l ≡ some l')
      × (evict_bounds_locked l ≡ l')
      × (is_over l' ≡ false)
unfolding evict_bounds_locked
evict_loop-ends l c =
    let (l', done, ev) = evict_loop-Evicted (length l.lru + 1) l c (omega arith) in
    (l', done, ground (arith, done), ev.within)

pub evict_bounds_locked-IsCoherent :
    (l : LocalCache)
    → IsCoherent l
    → IsCoherent (evict_bounds_locked l)
      × ((evict_bounds_locked l).lru ≡ fitting l.max_entries l.max_bytes 0 0 l.lru)
      × (is_over (evict_bounds_locked l) ≡ false)
unfolding evict_bounds_locked
evict_bounds_locked-IsCoherent l c =
    let (l', done, ev) = evict_loop-Evicted (length l.lru + 1) l c (omega arith) in
    let same : evict_bounds_locked l ≡ l' = ground (arith, done) in
    subst
      (λ r.
        IsCoherent r × (r.lru ≡ fitting l.max_entries l.max_bytes 0 0 l.lru) × (is_over r ≡ false))
      (sym same) (ev.coherent, ev.kept, ev.within)
