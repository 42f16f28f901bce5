-- ===== src/Cache/Coherence.antt =====
-- The map, the recency list and the byte count of internal/cache/cache.go agree.
use Prim.Native.String.{String}
use text.Mathlib.Text.{◌==◌ as str_eq}
use text.Mathlib.TextEquality.{eq_iff}
use torana_edge.Prelude.{
  ℕ, ◌+◌, ◌≡◌, refl, List, [], ◌∷◌, Bool, true, false, ◌&&◌, Option, none, some, length, ltb, arith,
  if◌then◌else◌, Option-cases, Bool-cases, inl, inr, ◌⊎◌, sym, subst,
}
use torana_edge.Prelude.Assoc.{lookup, insert, remove, lookup-remove, lookup-insert}
use torana_edge.Cache.{
  CacheEntry, LocalCache, unlink, remove_locked, drop_old, push_front, move_to_front, get, delete,
}

abbrev pub is_none {ℓ} : {A : Type ℓ} → Option A → Bool
is_none none = true
is_none (some a) = false

abbrev pub find : String → List CacheEntry → Option CacheEntry
find key [] = none
find key (e ∷ es) = let later = find key es in if str_eq e.key key then some e else later

abbrev pub total_size : List CacheEntry → ℕ
total_size [] = 0
total_size (e ∷ es) = e.size + total_size es

abbrev pub has_distinct_keys : List CacheEntry → Bool
has_distinct_keys [] = true
has_distinct_keys (e ∷ es) = is_none (find e.key es) && has_distinct_keys es

abbrev pub has_distinct_names : List (String × CacheEntry) → Bool
has_distinct_names [] = true
has_distinct_names ((name, e) ∷ m) = is_none (lookup name m) && has_distinct_names m

-- The map and the list hold the same entries, each once, and the byte count is theirs.
pub record IsCoherent (l : LocalCache) : Type 0 where
  pub found : (key : String) → lookup key l.entries ≡ find key l.lru
  pub distinct : has_distinct_keys l.lru ≡ true
  pub names : has_distinct_names l.entries ≡ true
  pub sized : length l.entries ≡ length l.lru
  pub counted : l.bytes ≡ total_size l.lru

pub find-unlink :
    (gone key : String) (es : List CacheEntry)
    → has_distinct_keys es ≡ true
    → find key (unlink gone es) ≡ (if str_eq gone key then none else find key es)
unfolding unlink
find-unlink gone key [] h = ground arith
find-unlink gone key (e ∷ es) h =
    ground (arith, find-unlink gone key es, eq_iff gone key, eq_iff e.key gone, eq_iff e.key key)

pub has_distinct_keys-unlink :
    (gone : String) (es : List CacheEntry)
    → has_distinct_keys es ≡ true
    → has_distinct_keys (unlink gone es) ≡ true
unfolding unlink
has_distinct_keys-unlink gone [] h = refl
has_distinct_keys-unlink gone (e ∷ es) h =
    ground (arith, has_distinct_keys-unlink gone es, find-unlink gone e.key es)

pub length-unlink :
    (key : String) (es : List CacheEntry) {e : CacheEntry}
    → find key es ≡ some e
    → length es ≡ length (unlink key es) + 1
unfolding unlink
length-unlink key [] h = cc
length-unlink key (a ∷ es) {e} h = ground (arith, length-unlink key es {e = e})

pub total_size-unlink :
    (key : String) (es : List CacheEntry) {e : CacheEntry}
    → find key es ≡ some e
    → total_size es ≡ e.size + total_size (unlink key es)
unfolding unlink
total_size-unlink key [] h = cc
total_size-unlink key (a ∷ es) {e} h = ground (arith, total_size-unlink key es {e = e})

pub find-key :
    (key : String) (es : List CacheEntry) {e : CacheEntry} → find key es ≡ some e → e.key ≡ key
find-key key [] h = cc
find-key key (a ∷ es) {e} h = ground (arith, find-key key es {e = e}, eq_iff a.key key)

lookup-none-remove :
    (gone : String) (m : List (String × CacheEntry))
    → lookup gone m ≡ none
    → length (remove gone m) ≡ length m
unfolding lookup remove
lookup-none-remove gone [] h = refl
lookup-none-remove gone ((name, a) ∷ m) h = ground (arith, lookup-none-remove gone m)

pub length-remove :
    (gone : String) (m : List (String × CacheEntry)) {e : CacheEntry}
    → has_distinct_names m ≡ true
    → lookup gone m ≡ some e
    → length m ≡ length (remove gone m) + 1
unfolding lookup remove
length-remove gone [] d h = cc
length-remove gone ((name, a) ∷ m) {e} d h =
    ground (arith, length-remove gone m {e = e}, lookup-none-remove gone m, eq_iff name gone)

has_distinct_names-remove :
    (gone : String) (m : List (String × CacheEntry))
    → has_distinct_names m ≡ true
    → has_distinct_names (remove gone m) ≡ true
unfolding remove
has_distinct_names-remove gone [] h = refl
has_distinct_names-remove gone ((name, a) ∷ m) h =
    ground (arith, has_distinct_names-remove gone m, lookup-remove gone name m)

has_distinct_names-insert :
    (new : String) (e : CacheEntry) (m : List (String × CacheEntry))
    → has_distinct_names m ≡ true
    → has_distinct_names (insert new e m) ≡ true
unfolding insert lookup
has_distinct_names-insert new e [] h = refl
has_distinct_names-insert new e ((name, a) ∷ m) h = ground (
  arith,
  has_distinct_names-insert new e m,
  lookup-insert new name e m,
  eq_iff name new,
  eq_iff new name,
)

length-insert :
    (new : String) (e : CacheEntry) (m : List (String × CacheEntry))
    → lookup new m ≡ none
    → length (insert new e m) ≡ length m + 1
unfolding insert lookup
length-insert new e [] h = refl
length-insert new e ((name, a) ∷ m) h = ground (arith, length-insert new e m)

pub remove_locked-IsCoherent :
    (l : LocalCache) (e : CacheEntry)
    → IsCoherent l
    → find e.key l.lru ≡ some e
    → IsCoherent (remove_locked e l)
unfolding remove_locked
remove_locked-IsCoherent l e c h = record {
  found = λ key. ground (
    arith,
    c.found key,
    lookup-remove e.key key l.entries,
    find-unlink e.key key l.lru,
    c.distinct,
  );
  distinct = has_distinct_keys-unlink e.key l.lru c.distinct;
  names = has_distinct_names-remove e.key l.entries c.names;
  sized = ground (
    arith,
    c.sized,
    c.found e.key,
    length-remove e.key l.entries {e = e} c.names,
    length-unlink e.key l.lru {e = e} h,
  );
  counted = ground (arith, c.counted, total_size-unlink e.key l.lru {e = e} h);
}

-- What the map holds under a key is the list's entry of that key.
pub stored :
    (l : LocalCache) (key : String) (e : CacheEntry)
    → IsCoherent l
    → lookup key l.entries ≡ some e
    → (e.key ≡ key) × (find e.key l.lru ≡ some e)
stored l key e c h =
    let listed : find key l.lru ≡ some e = ground (arith, c.found key, h) in
    let same = find-key key l.lru listed in
    (same, subst (λ name. find name l.lru ≡ some e) (sym same) listed)

pub drop_old-IsCoherent :
    (l : LocalCache) (key : String)
    → IsCoherent l
    → IsCoherent (drop_old key l) × (find key (drop_old key l).lru ≡ none)
unfolding drop_old remove_locked
drop_old-IsCoherent l key c = elim (Option-cases (lookup key l.entries)) [
  | inl missing ↦
      let same : drop_old key l ≡ l = ground (arith, missing) in
      subst (λ r. IsCoherent r × (find key r.lru ≡ none)) (sym same)
        (c, ground (arith, c.found key, missing))
  | inr (e, held) ↦
      let (named, listed) = stored l key e c held in
      let same : drop_old key l ≡ remove_locked e l = ground (arith, held) in
      subst (λ r. IsCoherent r × (find key r.lru ≡ none)) (sym same)
        (
          remove_locked-IsCoherent l e c listed,
          ground (arith, named, find-unlink e.key key l.lru c.distinct, eq_iff e.key key),
        )
]

pub push_front-IsCoherent :
    (l : LocalCache) (e : CacheEntry)
    → IsCoherent l
    → find e.key l.lru ≡ none
    → IsCoherent (push_front e l)
unfolding push_front
push_front-IsCoherent l e c h = record {
  found = λ key. ground (arith, c.found key, lookup-insert e.key key e l.entries);
  distinct = ground (arith, h, c.distinct);
  names = has_distinct_names-insert e.key e l.entries c.names;
  sized = ground (arith, c.sized, c.found e.key, length-insert e.key e l.entries);
  counted = omega (arith, c.counted);
}

move_to_front-IsCoherent :
    (l : LocalCache) (e : CacheEntry)
    → IsCoherent l
    → find e.key l.lru ≡ some e
    → IsCoherent (move_to_front e l)
unfolding move_to_front
move_to_front-IsCoherent l e c h = record {
  found = λ key.
      ground (arith, c.found key, find-unlink e.key key l.lru c.distinct, eq_iff e.key key, h);
  distinct = ground (
    arith,
    find-unlink e.key e.key l.lru c.distinct,
    eq_iff e.key e.key,
    has_distinct_keys-unlink e.key l.lru c.distinct,
  );
  names = c.names;
  sized = omega (arith, c.sized, length-unlink e.key l.lru h);
  counted = omega (arith, c.counted, total_size-unlink e.key l.lru h);
}

-- What a read does to the cache.
pub get-cases :
    (now : ℕ) (done : Bool) (key : String) (l : LocalCache)
    → ((get now done key l).0 ≡ l)
      ⊎ ((e : CacheEntry) × (lookup key l.entries ≡ some e)
          × (((get now done key l).0 ≡ remove_locked e l)
              ⊎ ((get now done key l).0 ≡ move_to_front e l)))
unfolding get
get-cases now true key l = inl refl
get-cases now false key l = elim (Option-cases (lookup key l.entries)) [
  | inl missing ↦ inl (ground (arith, missing))
  | inr (e, held) ↦ inr (
    e,
    held,
    elim (Bool-cases (ltb now e.expires_at)) [
      | inl live ↦ inr (ground (arith, held, live))
      | inr over ↦ inl (ground (arith, held, over))
    ],
  )
]

pub get-IsCoherent :
    (now : ℕ) (done : Bool) (key : String) (l : LocalCache)
    → IsCoherent l
    → IsCoherent (get now done key l).0
get-IsCoherent now done key l c = elim (get-cases now done key l) [
  | inl same ↦ subst IsCoherent (sym same) c
  | inr (e, held, inl same) ↦
      subst IsCoherent (sym same) (remove_locked-IsCoherent l e c (stored l key e c held).1)
  | inr (e, held, inr same) ↦
      subst IsCoherent (sym same) (move_to_front-IsCoherent l e c (stored l key e c held).1)
]

pub delete-IsCoherent :
    (done : Bool) (key : String) (l : LocalCache) → IsCoherent l → IsCoherent (delete done key l).0
unfolding delete
delete-IsCoherent true key l c = c
delete-IsCoherent false key l c = (drop_old-IsCoherent l key c).0
