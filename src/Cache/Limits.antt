-- ===== src/Cache/Limits.antt =====
-- What a write to the local cache of internal/cache/cache.go does, and the limits that every call
-- keeps.
use Prim.Native.String.{String, len}
use text.Mathlib.TextEquality.{eq_iff}
use torana_edge.Prelude.{
  ℕ, ◌+◌, ◌<◌, ◌≡◌, ◌≢◌, ◌⊎◌, refl, List, [], ◌∷◌, Bool, true, false, ◌&&◌, none, some, ltb, arith,
  Option-cases, Bool-cases, inl, inr, sym, subst,
}
use torana_edge.Prelude.Int.{ℤ}
use torana_edge.Prelude.Assoc.{lookup}
use torana_edge.Cache.{
  CacheEntry, LocalCache, CacheError, unlink, remove_locked, evict_bounds_locked, drop_old,
  push_front, entry_for, set, lifetime, get,
}
use torana_edge.Cache.Coherence.{
  find, IsCoherent, drop_old-IsCoherent, push_front-IsCoherent, stored,
}
use torana_edge.Cache.Eviction.{fitting, evict_bounds_locked-IsCoherent}

unlink-absent : (key : String) (es : List CacheEntry) → find key es ≡ none → unlink key es ≡ es
unfolding unlink
unlink-absent key [] h = refl
unlink-absent key (e ∷ es) h = ground (arith, unlink-absent key es)

-- The recency list without a key's entry, and the limits as they were.
pub lru-drop_old :
    (key : String) (l : LocalCache)
    → IsCoherent l
    → ((drop_old key l).lru ≡ unlink key l.lru)
      × ((drop_old key l).max_entries ≡ l.max_entries)
      × ((drop_old key l).max_bytes ≡ l.max_bytes)
      × ((drop_old key l).ttl ≡ l.ttl)
unfolding drop_old remove_locked
lru-drop_old key l c = elim (Option-cases (lookup key l.entries)) [
  | inl missing ↦ (
    ground (arith, missing, c.found key, unlink-absent key l.lru),
    ground (arith, missing),
    ground (arith, missing),
    ground (arith, missing),
  )
  | inr (e, held) ↦ (
    ground (arith, held, (stored l key e c held).0),
    ground (arith, held),
    ground (arith, held),
    ground (arith, held),
  )
]

-- A write that succeeds, and one that does not.
pub set-cases :
    (now : ℕ) (done : Bool) (key value : String) (ttl : ℤ) (l : LocalCache)
    → ((set now done key value ttl l).0 ≡ l) × ((set now done key value ttl l).1 ≢ none)
      ⊎ ((lasts : ℕ) × (done ≡ false)
          × (lifetime ttl l ≡ some lasts)
          × ((ltb 0 l.max_bytes && ltb l.max_bytes (len key + len value)) ≡ false)
          × (set now done key value ttl l ≡ (
            evict_bounds_locked (push_front (entry_for now lasts key value) (drop_old key l)),
            none,
          )))
unfolding set
set-cases now true key value ttl l = inl (refl, λ e. cc)
set-cases now false key value ttl l = elim (Option-cases (lifetime ttl l)) [
  | inl negative ↦ inl (ground (arith, negative), ground (arith, negative))
  | inr (lasts, e) ↦
      elim (Bool-cases (ltb 0 l.max_bytes && ltb l.max_bytes (len key + len value))) [
        | inl large ↦ inl (ground (arith, e, large), ground (arith, e, large))
        | inr fits ↦ inr (lasts, refl, e, fits, ground (arith, e, fits))
      ]
]

-- The pushed entry of a write, and what the cache is after it.
pub written-IsCoherent :
    (now lasts : ℕ) (key value : String) (l : LocalCache)
    → IsCoherent l
    → IsCoherent (push_front (entry_for now lasts key value) (drop_old key l))
written-IsCoherent now lasts key value l c =
    let (dropped, absent) = drop_old-IsCoherent l key c in
    push_front-IsCoherent (drop_old key l) (entry_for now lasts key value) dropped absent

pub set-IsCoherent :
    (now : ℕ) (done : Bool) (key value : String) (ttl : ℤ) (l : LocalCache)
    → IsCoherent l
    → IsCoherent (set now done key value ttl l).0
set-IsCoherent now done key value ttl l c = elim (set-cases now done key value ttl l) [
  | inl (same, failed) ↦ subst IsCoherent (sym same) c
  | inr (lasts, there, e, fits, same) ↦
      subst (λ r. IsCoherent r.0) (sym same)
        (evict_bounds_locked-IsCoherent
          (push_front (entry_for now lasts key value) (drop_old key l))
          (written-IsCoherent now lasts key value l c)).0
]

-- A write that fails leaves the cache as it was: the caller had gone, the duration is negative, or
-- the entry is too large for the cache.
pub set-failed :
    (now : ℕ) (done : Bool) (key value : String) (ttl : ℤ) (l : LocalCache) (error : CacheError)
    → (set now done key value ttl l).1 ≡ some error
    → (set now done key value ttl l).0 ≡ l
set-failed now done key value ttl l error h = elim (set-cases now done key value ttl l) [
  | inl (same, failed) ↦ same
  | inr (lasts, there, e, fits, same) ↦ absurd (ground (arith, same, h))
]

-- A write that succeeds makes the list what a bounded list of recent entries is: the new entry, then
-- the others without the old one of its key, as far as they fit.
pub lru-set :
    (now : ℕ) (done : Bool) (key value : String) (ttl : ℤ) (l : LocalCache)
    → IsCoherent l
    → (set now done key value ttl l).1 ≡ none
    → (lasts : ℕ) × (lifetime ttl l ≡ some lasts)
      × ((set now done key value ttl l).0.lru
          ≡ fitting l.max_entries l.max_bytes 0 0
              (entry_for now lasts key value ∷ unlink key l.lru))
unfolding push_front
lru-set now done key value ttl l c h = elim (set-cases now done key value ttl l) [
  | inl (same, failed) ↦ absurd (failed h)
  | inr (lasts, there, e, fits, same) ↦
      let new = entry_for now lasts key value in
      let (others, entries, bytes, own) = lru-drop_old key l c in
      (
        lasts,
        e,
        ground (
          arith,
          same,
          others,
          entries,
          bytes,
          (evict_bounds_locked-IsCoherent (push_front new (drop_old key l))
              (written-IsCoherent now lasts key value l c)).1,
        ),
      )
]

pub lookup-set :
    (now : ℕ) (done : Bool) (key value : String) (ttl : ℤ) (l : LocalCache) (lasts : ℕ)
    → IsCoherent l
    → (set now done key value ttl l).1 ≡ none
    → lifetime ttl l ≡ some lasts
    → lookup key (set now done key value ttl l).0.entries ≡ some (entry_for now lasts key value)
lookup-set now done key value ttl l lasts c h e = elim (set-cases now done key value ttl l) [
  | inl (same, failed) ↦ absurd (failed h)
  | inr (lasts', there, e', fits, same) ↦
      let (lasts'', e'', kept) = lru-set now done key value ttl l c h in
      ground (
        arith,
        e,
        e'',
        fits,
        kept,
        (set-IsCoherent now done key value ttl l c).found key,
        eq_iff key key,
      )
]

-- What was written is found by a read of the key that comes next, with no call in between, before the
-- entry expires.
pub get-set :
    (now later : ℕ) (key value : String) (ttl : ℤ) (l : LocalCache) (lasts : ℕ)
    → IsCoherent l
    → (set now false key value ttl l).1 ≡ none
    → lifetime ttl l ≡ some lasts
    → later < now + lasts
    → (get later false key (set now false key value ttl l).0).1 ≡ some value
unfolding get
get-set now later key value ttl l lasts c h e live =
    ground (arith, lookup-set now false key value ttl l lasts c h e)
