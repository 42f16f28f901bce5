-- ===== src/Cache.antt =====
-- The local cache of internal/cache/cache.go: a store with expiry and with limits on entries and
-- bytes, the least recently used entries being given up first. Instants and durations are whole
-- nanoseconds, and a limit that is not positive is 0.
use Prim.Native.String.{String, len}
use text.Mathlib.Text.{◌==◌ as str_eq}
use torana_edge.Prelude.{
  ℕ, zero, suc, ◌+◌, ◌-◌, List, [], ◌∷◌, Bool, true, false, ◌&&◌, ◌||◌, not, Option, none, some,
  length, ltb, leb, ◌==◌, if◌then◌else◌,
}
use torana_edge.Prelude.Int.{ℤ, pos, negsuc}
use torana_edge.Prelude.Assoc.{lookup, insert, remove}
pub mod Coherence
pub mod Eviction
pub mod Limits
pub mod Expiry
pub mod Bounds
pub mod Effects
pub mod Freshness

pub record CacheEntry : Type 0 where
  pub key : String
  pub value : String
  pub expires_at : ℕ
  pub size : ℕ

-- The elements of `lru` stand front first; an element's value is its entry.
pub record LocalCache : Type 0 where
  pub entries : List (String × CacheEntry)
  pub lru : List CacheEntry
  pub ttl : ℕ
  pub max_entries : ℕ
  pub max_bytes : ℕ
  pub bytes : ℕ

pub data CacheError : Type 0 where
  context_done negative_ttl too_large : CacheError

unfoldable pub new_local_cache : ℕ → ℕ → ℕ → LocalCache
new_local_cache ttl max_entries max_bytes = record {
  entries = [];
  lru = [];
  ttl = ttl;
  max_entries = max_entries;
  max_bytes = max_bytes;
  bytes = 0;
}

-- `lru.Remove(e.element)`: the element of the entry with this key.
unfoldable pub unlink : String → List CacheEntry → List CacheEntry
unlink key [] = []
unlink key (e ∷ es) = let rest = unlink key es in if str_eq e.key key then es else e ∷ rest

unfoldable pub remove_locked : CacheEntry → LocalCache → LocalCache
unfolding remove unlink
remove_locked e l = record l {
  entries = remove e.key l.entries;
  lru = unlink e.key l.lru;
  bytes = l.bytes - e.size;
}

unfoldable pub back : List CacheEntry → Option CacheEntry
back [] = none
back (e ∷ es) = let last = back es in elim last [ none ↦ some e | some b ↦ some b ]

unfoldable pub is_over : LocalCache → Bool
is_over l =
    ltb 0 l.max_entries && ltb l.max_entries (length l.entries)
    || ltb 0 l.max_bytes && ltb l.max_bytes l.bytes

-- The loop that gives up the least recently used entries; `none` is a loop cut short.
unfoldable pub evict_loop : ℕ → LocalCache → Option LocalCache
unfolding is_over back remove_locked
evict_loop zero l = none
evict_loop (suc fuel) l =
    let again = λ (l' : LocalCache). evict_loop fuel l' in
    if not (is_over l)
    then some l
    else elim (back l.lru) [ none ↦ some l | some e ↦ again (remove_locked e l) ]

-- One round for each element, and one to see that nothing is left.
unfoldable pub evict_bounds_locked : LocalCache → LocalCache
unfolding evict_loop
evict_bounds_locked l = elim (evict_loop (length l.lru + 1) l) [ none ↦ l | some l' ↦ l' ]

unfoldable pub drop_old : String → LocalCache → LocalCache
unfolding lookup remove_locked
drop_old key l = elim (lookup key l.entries) [ none ↦ l | some old ↦ remove_locked old l ]

unfoldable pub push_front : CacheEntry → LocalCache → LocalCache
unfolding insert
push_front e l = record l {
  entries = insert e.key e l.entries;
  lru = e ∷ l.lru;
  bytes = l.bytes + e.size;
}

-- The expiry of a write: a duration of 0 is the cache's own.
unfoldable pub lifetime : ℤ → LocalCache → Option ℕ
lifetime (negsuc n) l = none
lifetime (pos ttl) l = some (if ttl == 0 then l.ttl else ttl)

abbrev pub entry_for : ℕ → ℕ → String → String → CacheEntry
entry_for now ttl key value = record {
  key = key;
  value = value;
  expires_at = now + ttl;
  size = len key + len value;
}

-- `done` says that the caller's context has ended.
unfoldable pub set : ℕ → Bool → String → String → ℤ → LocalCache → LocalCache × Option CacheError
unfolding lifetime drop_old push_front evict_bounds_locked
set now done key value ttl l = if done then (l, some context_done) else elim (lifetime ttl l) [
  | none ↦ (l, some negative_ttl)
  | some lasts ↦
      if ltb 0 l.max_bytes && ltb l.max_bytes (len key + len value)
      then (l, some too_large)
      else (evict_bounds_locked (push_front (entry_for now lasts key value) (drop_old key l)), none)
]

unfoldable pub move_to_front : CacheEntry → LocalCache → LocalCache
unfolding unlink
move_to_front e l = record l { lru = e ∷ unlink e.key l.lru }

-- The value, if it is there and not expired.
unfoldable pub get : ℕ → Bool → String → LocalCache → LocalCache × Option String × Option CacheError
unfolding lookup remove_locked move_to_front
get now done key l = if done then (l, none, some context_done) else elim (lookup key l.entries) [
  | none ↦ (l, none, none)
  | some e ↦
      if not (ltb now e.expires_at)
      then (remove_locked e l, none, none)
      else (move_to_front e l, some e.value, none)
]

unfoldable pub delete : Bool → String → LocalCache → LocalCache × Option CacheError
unfolding drop_old
delete done key l = if done then (l, some context_done) else (drop_old key l, none)

unfoldable pub entry_count : LocalCache → ℕ
entry_count l = length l.entries

unfoldable pub evict_each : ℕ → List (String × CacheEntry) → LocalCache → LocalCache
unfolding remove_locked
evict_each now [] l = l
evict_each now ((key, e) ∷ rest) l =
    evict_each now rest (if not (ltb now e.expires_at) then remove_locked e l else l)

-- A tick of the eviction loop, over the entries there are.
unfoldable pub evict : ℕ → LocalCache → LocalCache
unfolding evict_each
evict now l = evict_each now l.entries l

-- What is asked of a cache, with the reading of the clock at which it happens.
pub data CacheCall : Type 0 where
  set_call : ℕ → Bool → String → String → ℤ → CacheCall
  get_call : ℕ → Bool → String → CacheCall
  delete_call : Bool → String → CacheCall
  evict_call : ℕ → CacheCall

unfoldable pub apply_call : CacheCall → LocalCache → LocalCache
unfolding set get delete evict
apply_call (set_call now done key value ttl) l = (set now done key value ttl l).0
apply_call (get_call now done key) l = (get now done key l).0
apply_call (delete_call done key) l = (delete done key l).0
apply_call (evict_call now) l = evict now l
