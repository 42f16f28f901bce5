-- ===== src/PluginState/Bytes.antt =====
-- The bytes that the memory backend of internal/pluginstate/store.go holds: those of each key and its
-- value.
use Prim.Native.String.{String, len}
use text.Mathlib.TextEquality.{eq_iff}
use torana_edge.Prelude.{
  ℕ, ◌+◌, ◌≤◌, ◌≡◌, List, [], ◌∷◌, Option, none, some, arith, true, false, Bool,
}
use torana_edge.Prelude.Assoc.{lookup, insert, remove}
use torana_edge.PluginState.{bucket, entry, entry_size, old_size, drop_entry}

abbrev pub bucket_bytes : List (String × String) → ℕ
bucket_bytes [] = 0
bucket_bytes ((key, value) ∷ rest) = len key + len value + bucket_bytes rest

abbrev pub held_bytes : List (String × List (String × String)) → ℕ
held_bytes [] = 0
held_bytes ((plugin, values) ∷ rest) = bucket_bytes values + held_bytes rest

-- What an entry takes, if it is there.
abbrev entry_bytes : String → Option String → ℕ
entry_bytes key none = 0
entry_bytes key (some value) = len key + len value

bytes-insert :
    (k v : String) (m : List (String × String))
    → bucket_bytes (insert k v m) + entry_bytes k (lookup k m) ≡ bucket_bytes m + (len k + len v)
unfolding insert lookup
bytes-insert k v [] = omega arith
bytes-insert k v ((j, w) ∷ m) = ground (arith, bytes-insert k v m, eq_iff j k)

bytes-remove :
    (k : String) (m : List (String × String))
    → bucket_bytes (remove k m) + entry_bytes k (lookup k m) ≤ bucket_bytes m
unfolding remove lookup
bytes-remove k [] = omega arith
bytes-remove k ((j, w) ∷ m) = ground (arith, bytes-remove k m, eq_iff j k)

held-insert :
    (p : String) (b : List (String × String)) (m : List (String × List (String × String)))
    → held_bytes (insert p b m) + bucket_bytes (bucket p m) ≡ held_bytes m + bucket_bytes b
unfolding insert lookup
held-insert p b [] = omega arith
held-insert p b ((q, c) ∷ m) = ground (arith, held-insert p b m)

held-remove :
    (p : String) (m : List (String × List (String × String)))
    → held_bytes (remove p m) + bucket_bytes (bucket p m) ≤ held_bytes m
unfolding remove lookup
held-remove p [] = omega arith
held-remove p ((q, c) ∷ m) = ground (arith, held-remove p m)

-- A write takes the bytes of its entry and gives back those of the one it replaces, as the source
-- counts both.
pub held-write :
    (p k v : String) (m : List (String × List (String × String)))
    → held_bytes (insert p (insert k v (bucket p m)) m) + old_size k (entry p k m)
      ≡ held_bytes m + entry_size k v
unfolding entry_size
held-write p k v m =
    ground (arith, held-insert p (insert k v (bucket p m)) m, bytes-insert k v (bucket p m))

pub held-drop_entry :
    (p k v : String) (m : List (String × List (String × String))) (last : Bool)
    → entry p k m ≡ some v
    → held_bytes (drop_entry p k m last) + entry_size k v ≤ held_bytes m
unfolding entry_size drop_entry
held-drop_entry p k v m true present =
    ground (arith, present, held-remove p m, bytes-remove k (bucket p m))
held-drop_entry p k v m false present =
    ground (arith, present, held-insert p (remove k (bucket p m)) m, bytes-remove k (bucket p m))
