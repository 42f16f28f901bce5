-- ===== src/Tests/CacheRuns.antt =====
-- The local cache of internal/cache/cache.go with room for two entries of ten bytes in all.
use torana_edge.Prelude.{ℕ, ◌≡◌, ◌<◌, ◌+◌, refl, List, [], ◌∷◌, none, some, false, length, arith}
use torana_edge.Prelude.Int.{pos}
use torana_edge.Prelude.Assoc.{lookup}
use torana_edge.Cache.{
  LocalCache, new_local_cache, unlink, is_over, evict_loop, evict_bounds_locked, push_front,
  entry_for, lifetime, set, get, evict, too_large, set_call, get_call, evict_call, apply_call,
  CacheCall,
}
use torana_edge.Cache.Coherence.{IsCoherent, push_front-IsCoherent}
use torana_edge.Cache.Eviction.{fitting, evict_loop-ends}
use torana_edge.Cache.Limits.{set-failed, lru-set, get-set}
use torana_edge.Cache.Expiry.{live, lookup-evict}
use torana_edge.Cache.Bounds.{IsWithin, apply_all, apply_all-IsCoherent, new_local_cache-IsCoherent}
use torana_edge.Cache.Freshness.{after, written, get-written}

abbrev small : LocalCache
small = new_local_cache 60 2 10

-- The latest call stands first.
abbrev three_writes : List CacheCall
three_writes =
    set_call 3 false "c" "z" (pos 5)
    ∷ get_call 2 false "a"
    ∷ set_call 1 false "b" "y" (pos 0)
    ∷ set_call 0 false "a" "x" (pos 0)
    ∷ []

small-IsCoherent : IsCoherent small
small-IsCoherent = (new_local_cache-IsCoherent 60 2 10).0

small-IsWithin : IsWithin small
small-IsWithin = (new_local_cache-IsCoherent 60 2 10).1

-- The entry that was not read lately is given up for the third.
least_recent : (get 4 false "b" (after three_writes small)).1 ≡ none
unfolding get apply_call new_local_cache
least_recent = refl

kept_recent : (get 4 false "a" (after three_writes small)).1 ≡ some "x"
unfolding get apply_call new_local_cache
kept_recent = refl

expired : (get 8 false "c" (after three_writes small)).1 ≡ none
unfolding get apply_call new_local_cache
expired = refl

get-written_example :
    (until : ℕ) × (written 60 10 "a" three_writes ≡ some ("x", until)) × (4 < until)
get-written_example = get-written 60 2 10 three_writes 4 "a" "x" kept_recent

abbrev forward : List CacheCall
forward = set_call 0 false "a" "x" (pos 0) ∷ set_call 1 false "b" "y" (pos 0) ∷ evict_call 70 ∷ []

apply_all-IsCoherent_example :
    IsCoherent (apply_all forward small) × IsWithin (apply_all forward small)
apply_all-IsCoherent_example = apply_all-IsCoherent forward small small-IsCoherent small-IsWithin

too_large_write : (set 0 false "key" "too long a value" (pos 0) small).1 ≡ some too_large
unfolding set new_local_cache
too_large_write = refl

set-failed_example : (set 0 false "key" "too long a value" (pos 0) small).0 ≡ small
set-failed_example =
    set-failed 0 false "key" "too long a value" (pos 0) small too_large too_large_write

written_once : (set 0 false "a" "x" (pos 0) small).1 ≡ none
unfolding set new_local_cache
written_once = refl

lru-set_example :
    (lasts : ℕ) × (lifetime (pos 0) small ≡ some lasts)
    × ((set 0 false "a" "x" (pos 0) small).0.lru
        ≡ fitting 2 10 0 0 (entry_for 0 lasts "a" "x" ∷ unlink "a" small.lru))
unfolding new_local_cache
lru-set_example = lru-set 0 false "a" "x" (pos 0) small small-IsCoherent written_once

get-set_example : (get 59 false "a" (set 0 false "a" "x" (pos 0) small).0).1 ≡ some "x"
unfolding lifetime new_local_cache
get-set_example =
    get-set 0 59 "a" "x" (pos 0) small 60 small-IsCoherent written_once refl (omega arith)

-- One entry too many, as the loop finds it.
abbrev one_pushed : LocalCache
one_pushed = push_front (entry_for 0 60 "a" "x") small

abbrev two_pushed : LocalCache
two_pushed = push_front (entry_for 1 60 "b" "y") one_pushed

abbrev crowded : LocalCache
crowded = push_front (entry_for 2 60 "c" "z") two_pushed

crowded-IsCoherent : IsCoherent crowded
unfolding push_front new_local_cache
crowded-IsCoherent =
    push_front-IsCoherent two_pushed (entry_for 2 60 "c" "z")
      (push_front-IsCoherent one_pushed (entry_for 1 60 "b" "y")
        (push_front-IsCoherent small (entry_for 0 60 "a" "x") small-IsCoherent refl) refl)
      refl

evict_loop-ends_example :
    (l' : LocalCache) × (evict_loop (length crowded.lru + 1) crowded ≡ some l')
    × (evict_bounds_locked crowded ≡ l')
    × (is_over l' ≡ false)
evict_loop-ends_example = evict_loop-ends crowded crowded-IsCoherent

lookup-evict_example :
    lookup "a" (evict 70 (apply_all forward small)).entries
    ≡ live 70 (lookup "a" (apply_all forward small).entries)
lookup-evict_example = lookup-evict 70 (apply_all forward small) "a" apply_all-IsCoherent_example.0
