-- ===== src/Cache/Expiry.antt =====
-- The periodic eviction of internal/cache/cache.go.
use Prim.Native.String.{String}
use text.Mathlib.Text.{◌==◌ as str_eq}
use text.Mathlib.TextEquality.{eq_iff}
use torana_edge.Prelude.{
  ℕ, ◌≡◌, refl, List, [], ◌∷◌, true, not, Option, none, some, ltb, arith, if◌then◌else◌, Bool-cases,
  inl, inr, sym, subst,
}
use torana_edge.Prelude.Assoc.{lookup, lookup-remove}
use torana_edge.Cache.{CacheEntry, LocalCache, remove_locked, evict, evict_each}
use torana_edge.Cache.Coherence.{
  find, IsCoherent, remove_locked-IsCoherent, stored, has_distinct_names, is_none,
}

-- The entry, if it has not expired.
abbrev pub live : ℕ → Option CacheEntry → Option CacheEntry
live now none = none
live now (some e) = if ltb now e.expires_at then some e else none

-- The pairs of a list are in the cache.
abbrev pub Holds : List (String × CacheEntry) → LocalCache → Type 0
Holds rest l =
    (key : String) (e : CacheEntry) → lookup key rest ≡ some e → lookup key l.entries ≡ some e

abbrev pub step_out : ℕ → CacheEntry → LocalCache → LocalCache
step_out now e l = if not (ltb now e.expires_at) then remove_locked e l else l

module _ (now : ℕ) (name : String) (e : CacheEntry) (rest : List (String × CacheEntry))
    (l : LocalCache) (c : IsCoherent l) (distinct : has_distinct_names ((name, e) ∷ rest) ≡ true)
    (held : Holds ((name, e) ∷ rest) l) where
  pub here : (e.key ≡ name) × (find e.key l.lru ≡ some e)
  unfolding lookup
  here = stored l name e c (held name e (ground (arith, eq_iff name name)))

  pub step_out-IsCoherent : IsCoherent (step_out now e l)
  step_out-IsCoherent = elim (Bool-cases (ltb now e.expires_at)) [
    | inl alive ↦
        let same : step_out now e l ≡ l = ground (arith, alive) in subst IsCoherent (sym same) c
    | inr over ↦
        let same : step_out now e l ≡ remove_locked e l = ground (arith, over) in
        subst IsCoherent (sym same) (remove_locked-IsCoherent l e c here.1)
  ]

  pub lookup-step_out :
      (key : String)
      → lookup key (step_out now e l).entries
        ≡ (if str_eq name key then live now (lookup key l.entries) else lookup key l.entries)
  unfolding remove_locked lookup
  lookup-step_out key = ground (
    arith,
    here.0,
    lookup-remove e.key key l.entries,
    held name e,
    eq_iff name name,
    eq_iff name key,
  )

  pub step_out-Holds : Holds rest (step_out now e l)
  unfolding lookup
  step_out-Holds key a h =
      ground (arith, lookup-step_out key, held key a, eq_iff name key, distinct, h)

evict_each-IsCoherent :
    (now : ℕ) (rest : List (String × CacheEntry)) (l : LocalCache)
    → IsCoherent l
    → has_distinct_names rest ≡ true
    → Holds rest l
    → IsCoherent (evict_each now rest l)
unfolding evict_each
evict_each-IsCoherent now [] l c d h = c
evict_each-IsCoherent now ((name, e) ∷ rest) l c d h =
    evict_each-IsCoherent now rest (step_out now e l) (step_out-IsCoherent now name e rest l c d h)
      (ground (arith, d)) (step_out-Holds now name e rest l c d h)

lookup-evict_each :
    (now : ℕ) (rest : List (String × CacheEntry)) (l : LocalCache)
    → IsCoherent l
    → has_distinct_names rest ≡ true
    → Holds rest l
    → (key : String)
    → lookup key (evict_each now rest l).entries ≡ (
        if is_none (lookup key rest) then lookup key l.entries else live now (lookup key l.entries))
unfolding evict_each lookup
lookup-evict_each now [] l c d h key = refl
lookup-evict_each now ((name, e) ∷ rest) l c d h key = ground (
  arith,
  d,
  lookup-step_out now name e rest l c d h key,
  lookup-evict_each now rest (step_out now e l) (step_out-IsCoherent now name e rest l c d h)
      (ground (arith, d)) (step_out-Holds now name e rest l c d h) key,
  eq_iff name key,
)

pub evict-IsCoherent : (now : ℕ) (l : LocalCache) → IsCoherent l → IsCoherent (evict now l)
unfolding evict
evict-IsCoherent now l c = evict_each-IsCoherent now l.entries l c c.names (λ key e h. h)

-- A tick removes exactly the entries that have expired by then.
pub lookup-evict :
    (now : ℕ) (l : LocalCache) (key : String)
    → IsCoherent l
    → lookup key (evict now l).entries ≡ live now (lookup key l.entries)
unfolding evict
lookup-evict now l key c =
    ground (arith, lookup-evict_each now l.entries l c c.names (λ key e h. h) key)
