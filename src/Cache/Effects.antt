-- ===== src/Cache/Effects.antt =====
-- What each call to the local cache of internal/cache/cache.go leaves under the other keys, and what
-- no call changes.
use Prim.Native.String.{String}
use text.Mathlib.Text.{◌==◌ as str_eq}
use text.Mathlib.TextEquality.{eq_iff}
use torana_edge.Prelude.{
  ℕ, zero, suc, ◌+◌, ◌≡◌, refl, List, [], ◌∷◌, Bool, true, false, not, none, some, length, ltb,
  arith, if◌then◌else◌, Option-cases, inl, inr,
}
use torana_edge.Prelude.Int.{ℤ}
use torana_edge.Prelude.Assoc.{lookup, lookup-remove}
use torana_edge.Cache.{
  CacheEntry, LocalCache, unlink, remove_locked, drop_old, push_front, entry_for, evict_loop, back,
  evict_each, set, get, delete, evict, move_to_front, CacheCall, set_call, get_call, delete_call,
  evict_call, apply_call,
}
use torana_edge.Cache.Coherence.{find, IsCoherent, get-cases, stored, find-unlink}
use torana_edge.Cache.Eviction.{fitting, evict_loop-ends}
use torana_edge.Cache.Limits.{written-IsCoherent, set-cases, set-IsCoherent, lru-set}

find-fitting :
    (max_entries max_bytes count used : ℕ) (key : String) (es : List CacheEntry) {e : CacheEntry}
    → find key (fitting max_entries max_bytes count used es) ≡ some e
    → find key es ≡ some e
find-fitting max_entries max_bytes count used key [] h = h
find-fitting max_entries max_bytes count used key (a ∷ es) {e} h =
    ground (arith, find-fitting max_entries max_bytes (count + 1) (used + a.size) key es {e = e})

pub lookup-set_other :
    (now : ℕ) (done : Bool) (key other value : String) (ttl : ℤ) (l : LocalCache) {e : CacheEntry}
    → IsCoherent l
    → str_eq key other ≡ false
    → lookup other (set now done key value ttl l).0.entries ≡ some e
    → lookup other l.entries ≡ some e
lookup-set_other now done key other value ttl l {e} c ne h =
    elim (set-cases now done key value ttl l) [
      | inl (same, failed) ↦ ground (arith, same, h)
      | inr (lasts, there, ok, fits, same) ↦
          let (lasts', ok', kept) = lru-set now done key value ttl l c (ground (arith, same)) in
          let found = (set-IsCoherent now done key value ttl l c).found other in
          ground (
            arith,
            ne,
            h,
            kept,
            found,
            c.found other,
            find-unlink key other l.lru c.distinct,
            find-fitting l.max_entries l.max_bytes 0 0 other
                (entry_for now lasts' key value ∷ unlink key l.lru) {e = e},
          )
    ]

pub lookup-get :
    (now : ℕ) (done : Bool) (key other : String) (l : LocalCache) {e : CacheEntry}
    → lookup other (get now done key l).0.entries ≡ some e
    → lookup other l.entries ≡ some e
unfolding remove_locked move_to_front
lookup-get now done key other l {e} h = elim (get-cases now done key l) [
  | inl same ↦ ground (arith, same, h)
  | inr (a, held, inl same) ↦ ground (arith, same, h, lookup-remove a.key other l.entries)
  | inr (a, held, inr same) ↦ ground (arith, same, h)
]

pub lookup-drop_old :
    (key other : String) (l : LocalCache)
    → IsCoherent l
    → lookup other (drop_old key l).entries
      ≡ (if str_eq key other then none else lookup other l.entries)
unfolding drop_old remove_locked
lookup-drop_old key other l c = elim (Option-cases (lookup key l.entries)) [
  | inl missing ↦ ground (arith, missing, eq_iff key other)
  | inr (e, held) ↦
      ground (arith, held, (stored l key e c held).0, lookup-remove e.key other l.entries)
]

-- The cache's own duration and its limit on bytes never change.
abbrev pub Steady : LocalCache → LocalCache → Type 0
Steady l l' = (l'.ttl ≡ l.ttl) × (l'.max_bytes ≡ l.max_bytes)

evict_loop-Steady :
    (fuel : ℕ) (l : LocalCache) {l' : LocalCache} → evict_loop fuel l ≡ some l' → Steady l l'
unfolding evict_loop remove_locked
evict_loop-Steady zero l h = cc
evict_loop-Steady (suc fuel) l {l'} h = elim (Option-cases (back l.lru)) [
  | inl missing ↦ (ground (arith, missing), ground (arith, missing))
  | inr (e, last) ↦
      let again = evict_loop-Steady fuel (remove_locked e l) {l' = l'} in
      (ground (arith, last, again), ground (arith, last, again))
]

drop_old-Steady : (key : String) (l : LocalCache) → Steady l (drop_old key l)
unfolding drop_old remove_locked
drop_old-Steady key l = (
  ground (arith, Option-cases (lookup key l.entries)),
  ground (arith, Option-cases (lookup key l.entries)),
)

set-Steady :
    (now : ℕ) (done : Bool) (key value : String) (ttl : ℤ) (l : LocalCache)
    → IsCoherent l
    → Steady l (set now done key value ttl l).0
unfolding push_front
set-Steady now done key value ttl l c = elim (set-cases now done key value ttl l) [
  | inl (same, failed) ↦ (ground (arith, same), ground (arith, same))
  | inr (lasts, there, ok, fits, same) ↦
      let pushed = push_front (entry_for now lasts key value) (drop_old key l) in
      let (l', done_at, whole, within) =
        evict_loop-ends pushed (written-IsCoherent now lasts key value l c) in
      let (own, limit) = evict_loop-Steady (length pushed.lru + 1) pushed done_at in
      let (own', limit') = drop_old-Steady key l in
      (ground (arith, same, whole, own, own'), ground (arith, same, whole, limit, limit'))
]

get-Steady :
    (now : ℕ) (done : Bool) (key : String) (l : LocalCache) → Steady l (get now done key l).0
unfolding remove_locked move_to_front
get-Steady now done key l = elim (get-cases now done key l) [
  | inl same ↦ (ground (arith, same), ground (arith, same))
  | inr (e, held, inl same) ↦ (ground (arith, same), ground (arith, same))
  | inr (e, held, inr same) ↦ (ground (arith, same), ground (arith, same))
]

evict_each-Steady :
    (now : ℕ) (rest : List (String × CacheEntry)) (l : LocalCache)
    → Steady l (evict_each now rest l)
unfolding evict_each remove_locked
evict_each-Steady now [] l = (refl, refl)
evict_each-Steady now ((name, e) ∷ rest) l =
    let l' = if not (ltb now e.expires_at) then remove_locked e l else l in
    let (own, limit) = evict_each-Steady now rest l' in (ground (arith, own), ground (arith, limit))

pub apply_call-Steady :
    (call : CacheCall) (l : LocalCache) → IsCoherent l → Steady l (apply_call call l)
unfolding apply_call evict delete
apply_call-Steady (set_call now done key value ttl) l c = set-Steady now done key value ttl l c
apply_call-Steady (get_call now done key) l c = get-Steady now done key l
apply_call-Steady (delete_call true key) l c = (refl, refl)
apply_call-Steady (delete_call false key) l c = drop_old-Steady key l
apply_call-Steady (evict_call now) l c = evict_each-Steady now l.entries l
