-- ===== src/Cache/Freshness.antt =====
-- What a read of the local cache of internal/cache/cache.go returns, in terms of the calls before it.
use Prim.Native.String.{String, len}
use text.Mathlib.Text.{◌==◌ as str_eq}
use text.Mathlib.TextEquality.{eq_iff}
use torana_edge.Prelude.{
  ℕ, ◌+◌, ◌<◌, ◌≡◌, refl, List, [], ◌∷◌, Bool, true, false, ◌&&◌, ◌||◌, not, Option, none, some,
  ltb, leb, ◌==◌, arith, if◌then◌else◌, Option-cases, Bool-cases, inl, inr, sym, subst,
}
use torana_edge.Prelude.Int.{ℤ, pos, negsuc}
use torana_edge.Prelude.Assoc.{lookup}
use torana_edge.Cache.{
  CacheEntry, LocalCache, lifetime, set, get, delete, CacheCall, set_call, get_call, delete_call,
  evict_call, apply_call, new_local_cache,
}
use torana_edge.Cache.Coherence.{IsCoherent}
use torana_edge.Cache.Limits.{lookup-set}
use torana_edge.Cache.Expiry.{lookup-evict}
use torana_edge.Cache.Bounds.{apply_call-IsCoherent, new_local_cache-IsCoherent}
use torana_edge.Cache.Effects.{lookup-set_other, lookup-get, lookup-drop_old, apply_call-Steady}

-- A cache after its calls, the latest first.
abbrev pub after : List CacheCall → LocalCache → LocalCache
after [] l = l
after (call ∷ h) l = apply_call call (after h l)

-- How long a write lasts in a cache with a duration of its own.
abbrev pub lasting : ℕ → ℤ → Option ℕ
lasting own (negsuc n) = none
lasting own (pos ttl) = some (if ttl == 0 then own else ttl)

abbrev pub fits_in : ℕ → String → String → Bool
fits_in limit key value = limit == 0 || leb (len key + len value) limit

abbrev pub expiring : String → ℕ → Option ℕ → Option (String × ℕ) → Option (String × ℕ)
expiring value now none earlier = earlier
expiring value now (some lasts) earlier = some (value, now + lasts)

-- The value that the calls left under a key, with its expiry, in a cache that forgets nothing: the
-- last write that the cache could make, unless the key was deleted after it.
abbrev pub written : ℕ → ℕ → String → List CacheCall → Option (String × ℕ)
written own limit key [] = none
written own limit key (set_call now done name value ttl ∷ h) =
    let earlier = written own limit key h in
    if str_eq name key && not done && fits_in limit name value
    then expiring value now (lasting own ttl) earlier
    else earlier
written own limit key (delete_call done name ∷ h) =
    let earlier = written own limit key h in if str_eq name key && not done then none else earlier
written own limit key (get_call now done name ∷ h) = written own limit key h
written own limit key (evict_call now ∷ h) = written own limit key h

-- What the cache holds is what was written last.
record Remembers (own limit : ℕ) (h : List CacheCall) (l : LocalCache) : Type 0 where
  coherent : IsCoherent l
  last :
      (key : String) (e : CacheEntry)
      → lookup key l.entries ≡ some e
      → written own limit key h ≡ some (e.value, e.expires_at)
  own_ttl : l.ttl ≡ own
  byte_limit : l.max_bytes ≡ limit

lifetime-lasting : (ttl : ℤ) (l : LocalCache) → lifetime ttl l ≡ lasting l.ttl ttl
unfolding lifetime
lifetime-lasting (pos n) l = refl
lifetime-lasting (negsuc n) l = refl

not_too_large :
    (limit : ℕ) (key value : String)
    → (ltb 0 limit && ltb limit (len key + len value)) ≡ not (fits_in limit key value)
not_too_large limit key value = ground arith

-- A write under the key itself.
set-last_own :
    (own limit : ℕ) (h : List CacheCall) (l : LocalCache)
    → Remembers own limit h l
    → (now : ℕ) (done : Bool) (name value : String) (ttl : ℤ) (e : CacheEntry)
    → lookup name (set now done name value ttl l).0.entries ≡ some e
    → written own limit name (set_call now done name value ttl ∷ h) ≡ some (e.value, e.expires_at)
unfolding set
set-last_own own limit h l r now true name value ttl e found = ground (arith, r.last name e found)
set-last_own own limit h l r now false name value ttl e found =
    let large = not_too_large l.max_bytes name value in
    let long = lifetime-lasting ttl l in
    elim (Option-cases (lifetime ttl l)) [
      | inl negative ↦ ground (arith, negative, long, r.own_ttl, found, r.last name e)
      | inr (lasts, ok) ↦ elim (Bool-cases (fits_in l.max_bytes name value)) [
        | inr over ↦ ground (arith, ok, over, large, r.byte_limit, found, r.last name e)
        | inl fits ↦ ground (
          arith,
          ok,
          fits,
          large,
          long,
          r.own_ttl,
          r.byte_limit,
          found,
          eq_iff name name,
          lookup-set now false name value ttl l lasts r.coherent,
        )
      ]
    ]

set-last :
    (own limit : ℕ) (h : List CacheCall) (l : LocalCache)
    → Remembers own limit h l
    → (now : ℕ) (done : Bool) (name value : String) (ttl : ℤ) (key : String) (e : CacheEntry)
    → lookup key (set now done name value ttl l).0.entries ≡ some e
    → written own limit key (set_call now done name value ttl ∷ h) ≡ some (e.value, e.expires_at)
set-last own limit h l r now done name value ttl key e found = elim (Bool-cases (str_eq name key)) [
  | inr other ↦ ground (
    arith,
    other,
    r.last key e (lookup-set_other now done name key value ttl l r.coherent other found),
  )
  | inl same ↦
      let named = (eq_iff name key).0 same in
      subst
        (λ k.
          written own limit k (set_call now done name value ttl ∷ h) ≡ some (e.value, e.expires_at))
        named
        (set-last_own own limit h l r now done name value ttl e (
          subst (λ k. lookup k (set now done name value ttl l).0.entries ≡ some e) (sym named)
            found))
]

apply_call-last :
    (own limit : ℕ) (h : List CacheCall) (l : LocalCache)
    → Remembers own limit h l
    → (call : CacheCall) (key : String) (e : CacheEntry)
    → lookup key (apply_call call l).entries ≡ some e
    → written own limit key (call ∷ h) ≡ some (e.value, e.expires_at)
unfolding apply_call delete
apply_call-last own limit h l r (set_call now done name value ttl) key e found =
    set-last own limit h l r now done name value ttl key e found
apply_call-last own limit h l r (get_call now done name) key e found =
    r.last key e (lookup-get now done name key l found)
apply_call-last own limit h l r (delete_call done name) key e found =
    ground (arith, found, lookup-drop_old name key l r.coherent, r.last key e)
apply_call-last own limit h l r (evict_call now) key e found =
    ground (arith, found, lookup-evict now l key r.coherent, r.last key e)

after-Remembers :
    (own entries limit : ℕ) (h : List CacheCall)
    → Remembers own limit h (after h (new_local_cache own entries limit))
unfolding new_local_cache lookup
after-Remembers own entries limit [] = record {
  coherent = (new_local_cache-IsCoherent own entries limit).0;
  last = λ key e found. cc;
  own_ttl = refl;
  byte_limit = refl;
}
after-Remembers own entries limit (call ∷ h) =
    let r = after-Remembers own entries limit h in
    let l = after h (new_local_cache own entries limit) in
    let (same_ttl, same_limit) = apply_call-Steady call l r.coherent in
    record {
      coherent = apply_call-IsCoherent call l r.coherent;
      last = apply_call-last own limit h l r call;
      own_ttl = ground (arith, same_ttl, r.own_ttl);
      byte_limit = ground (arith, same_limit, r.byte_limit);
    }

-- A read never returns a value that was overwritten, was deleted or has expired: what it returns was
-- written by the last write to the key, which no deletion followed, and has not expired.
pub get-written :
    (own entries limit : ℕ) (h : List CacheCall) (now : ℕ) (key value : String)
    → (get now false key (after h (new_local_cache own entries limit))).1 ≡ some value
    → (until : ℕ) × (written own limit key h ≡ some (value, until)) × (now < until)
unfolding get
get-written own entries limit h now key value found =
    let l = after h (new_local_cache own entries limit) in
    elim (Option-cases (lookup key l.entries)) [
      | inl missing ↦ absurd (ground (arith, missing, found))
      | inr (e, held) ↦
          let last = (after-Remembers own entries limit h).last key e held in
          (e.expires_at, ground (arith, held, found, last), ground (arith, held, found))
    ]
