-- ===== src/Cache/Bounds.antt =====
-- The limits of internal/cache/cache.go hold after any calls, and the cache stays coherent.
use Prim.Native.String.{String}
use torana_edge.Prelude.{
  ℕ, ◌≤◌, ◌<◌, ◌≡◌, refl, List, [], ◌∷◌, Bool, true, false, some, ltb, arith, Option-cases,
  Bool-cases, inl, inr, sym, subst,
}
use torana_edge.Prelude.Int.{ℤ}
use torana_edge.Prelude.Assoc.{lookup}
use torana_edge.Cache.{
  CacheEntry, LocalCache, remove_locked, is_over, evict_bounds_locked, drop_old, push_front,
  entry_for, set, get, delete, evict, evict_each, entry_count, move_to_front, CacheCall, set_call,
  get_call, delete_call, evict_call, apply_call, new_local_cache,
}
use torana_edge.Cache.Coherence.{
  find, IsCoherent, get-IsCoherent, get-cases, delete-IsCoherent, stored, length-remove,
  has_distinct_names,
}
use torana_edge.Cache.Eviction.{evict_bounds_locked-IsCoherent}
use torana_edge.Cache.Limits.{set-cases, set-IsCoherent, written-IsCoherent}
use torana_edge.Cache.Expiry.{
  Holds, step_out, step_out-IsCoherent, step_out-Holds, here, evict-IsCoherent,
}

pub apply_call-IsCoherent :
    (call : CacheCall) (l : LocalCache) → IsCoherent l → IsCoherent (apply_call call l)
unfolding apply_call
apply_call-IsCoherent (set_call now done key value ttl) l c =
    set-IsCoherent now done key value ttl l c
apply_call-IsCoherent (get_call now done key) l c = get-IsCoherent now done key l c
apply_call-IsCoherent (delete_call done key) l c = delete-IsCoherent done key l c
apply_call-IsCoherent (evict_call now) l c = evict-IsCoherent now l c

abbrev pub apply_all : List CacheCall → LocalCache → LocalCache
apply_all [] l = l
apply_all (call ∷ calls) l = apply_all calls (apply_call call l)

-- The limits on entries and bytes, where there are any.
pub record IsWithin (l : LocalCache) : Type 0 where
  pub entries : 0 < l.max_entries → entry_count l ≤ l.max_entries
  pub bytes : 0 < l.max_bytes → l.bytes ≤ l.max_bytes

is_over-IsWithin : (l : LocalCache) → is_over l ≡ false → IsWithin l
unfolding is_over entry_count
is_over-IsWithin l h = record {
  entries = λ some_limit. ground arith;
  bytes = λ some_limit. ground arith;
}

remove_locked-IsWithin :
    (l : LocalCache) (e : CacheEntry)
    → IsCoherent l
    → find e.key l.lru ≡ some e
    → IsWithin l
    → IsWithin (remove_locked e l)
unfolding remove_locked entry_count
remove_locked-IsWithin l e c listed w =
    let held : lookup e.key l.entries ≡ some e = ground (arith, c.found e.key, listed) in
    record {
      entries = λ some_limit.
          omega (arith, w.entries some_limit, length-remove e.key l.entries c.names held);
      bytes = λ some_limit. omega (arith, w.bytes some_limit);
    }

move_to_front-IsWithin :
    (l : LocalCache) (e : CacheEntry) → IsWithin l → IsWithin (move_to_front e l)
unfolding move_to_front entry_count
move_to_front-IsWithin l e w = record { entries = w.entries; bytes = w.bytes }

get-IsWithin :
    (now : ℕ) (done : Bool) (key : String) (l : LocalCache)
    → IsCoherent l
    → IsWithin l
    → IsWithin (get now done key l).0
get-IsWithin now done key l c w = elim (get-cases now done key l) [
  | inl same ↦ subst IsWithin (sym same) w
  | inr (e, held, inl same) ↦
      subst IsWithin (sym same) (remove_locked-IsWithin l e c (stored l key e c held).1 w)
  | inr (e, held, inr same) ↦ subst IsWithin (sym same) (move_to_front-IsWithin l e w)
]

delete-IsWithin :
    (done : Bool) (key : String) (l : LocalCache)
    → IsCoherent l
    → IsWithin l
    → IsWithin (delete done key l).0
unfolding delete drop_old
delete-IsWithin true key l c w = w
delete-IsWithin false key l c w = elim (Option-cases (lookup key l.entries)) [
  | inl missing ↦
      let same : drop_old key l ≡ l = ground (arith, missing) in subst IsWithin (sym same) w
  | inr (e, held) ↦
      let same : drop_old key l ≡ remove_locked e l = ground (arith, held) in
      subst IsWithin (sym same) (remove_locked-IsWithin l e c (stored l key e c held).1 w)
]

evict_each-IsWithin :
    (now : ℕ) (rest : List (String × CacheEntry)) (l : LocalCache)
    → IsCoherent l
    → has_distinct_names rest ≡ true
    → Holds rest l
    → IsWithin l
    → IsWithin (evict_each now rest l)
unfolding evict_each
evict_each-IsWithin now [] l c d h w = w
evict_each-IsWithin now ((name, e) ∷ rest) l c d h w =
    evict_each-IsWithin now rest (step_out now e l) (step_out-IsCoherent now name e rest l c d h)
      (ground (arith, d)) (step_out-Holds now name e rest l c d h)
      (elim (Bool-cases (ltb now e.expires_at)) [
        | inl alive ↦
            let same : step_out now e l ≡ l = ground (arith, alive) in subst IsWithin (sym same) w
        | inr over ↦
            let same : step_out now e l ≡ remove_locked e l = ground (arith, over) in
            subst IsWithin (sym same)
              (remove_locked-IsWithin l e c (here now name e rest l c d h).1 w)
      ])

set-IsWithin :
    (now : ℕ) (done : Bool) (key value : String) (ttl : ℤ) (l : LocalCache)
    → IsCoherent l
    → IsWithin l
    → IsWithin (set now done key value ttl l).0
set-IsWithin now done key value ttl l c w = elim (set-cases now done key value ttl l) [
  | inl (same, failed) ↦ subst IsWithin (sym same) w
  | inr (lasts, there, e, fits, same) ↦
      let pushed = push_front (entry_for now lasts key value) (drop_old key l) in
      subst (λ r. IsWithin r.0) (sym same)
        (is_over-IsWithin (evict_bounds_locked pushed)
          (evict_bounds_locked-IsCoherent pushed (written-IsCoherent now lasts key value l c)).2)
]

apply_call-IsWithin :
    (call : CacheCall) (l : LocalCache) → IsCoherent l → IsWithin l → IsWithin (apply_call call l)
unfolding apply_call evict
apply_call-IsWithin (set_call now done key value ttl) l c w =
    set-IsWithin now done key value ttl l c w
apply_call-IsWithin (get_call now done key) l c w = get-IsWithin now done key l c w
apply_call-IsWithin (delete_call done key) l c w = delete-IsWithin done key l c w
apply_call-IsWithin (evict_call now) l c w =
    evict_each-IsWithin now l.entries l c c.names (λ key e h. h) w

-- A new cache is coherent, and so it is after any calls: the map and the list hold the same entries,
-- each once, the byte count is the sum of their sizes, and the limits on entries and bytes hold.
pub apply_all-IsCoherent :
    (calls : List CacheCall) (l : LocalCache)
    → IsCoherent l
    → IsWithin l
    → IsCoherent (apply_all calls l) × IsWithin (apply_all calls l)
apply_all-IsCoherent [] l c w = (c, w)
apply_all-IsCoherent (call ∷ calls) l c w =
    apply_all-IsCoherent calls (apply_call call l) (apply_call-IsCoherent call l c)
      (apply_call-IsWithin call l c w)

pub new_local_cache-IsCoherent :
    (ttl max_entries max_bytes : ℕ)
    → IsCoherent (new_local_cache ttl max_entries max_bytes)
      × IsWithin (new_local_cache ttl max_entries max_bytes)
unfolding new_local_cache entry_count lookup
new_local_cache-IsCoherent ttl max_entries max_bytes = (
  record { found = λ key. refl; distinct = refl; names = refl; sized = refl; counted = refl },
  record { entries = λ some_limit. omega arith; bytes = λ some_limit. omega arith },
)
