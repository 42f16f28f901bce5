-- ===== src/PluginState/Limits.antt =====
-- The limits of the memory backend of internal/pluginstate/store.go, and that every call keeps them.
use Prim.Native.String.{String}
use text.Mathlib.TextEquality.{eq_iff}
use torana_edge.Prelude.{
  ℕ, ◌+◌, ◌-◌, ◌≤◌, ◌≡◌, refl, sym, subst, List, [], ◌∷◌, Bool, true, false, ◌&&◌, ◌||◌, not,
  Option, none, some, arith, if◌then◌else◌, ◌⊎◌, Bool-cases, Option-cases, inl, inr, ltb, leb,
  length,
}
use torana_edge.Prelude.Assoc.{lookup, insert, remove, lookup-insert, lookup-remove}
use torana_edge.PluginState.{
  Store, bucket, entry, is_some, write, set_memory, set, drop_entry, erase, delete,
  compare_and_delete, is_empty, validate_write, entry_size, old_size,
}
use torana_edge.PluginState.Bytes.{held_bytes, held-write, held-drop_entry}
use torana_edge.PluginState.Entries.{
  Op, put, drop, drop_if, apply, apply_all, set_memory-cases, erase-together, values-write,
  versions-write,
}

length-insert :
    (k v : String) (m : List (String × String))
    → length (insert k v m) ≡ (if is_some (lookup k m) then length m else length m + 1)
unfolding insert lookup
length-insert k v [] = omega arith
length-insert k v ((j, w) ∷ m) = ground (arith, length-insert k v m)

length-remove : (k : String) (m : List (String × String)) → length (remove k m) ≤ length m
unfolding remove
length-remove k [] = omega arith
length-remove k ((j, w) ∷ m) = ground (arith, length-remove k m)

lookup-nil : (k : String) → lookup {V = String} k [] ≡ none
unfolding lookup
lookup-nil k = refl

-- The bytes of all keys and values, of which none is left out of the count, and the keys of every
-- plugin are within the limits; a version stands by a value.
pub record IsWithin (s : Store) : Type 0 where
  pub counted : held_bytes s.values ≤ s.total
  pub total : s.total ≤ s.max_total_bytes
  pub versioned :
      (plugin key : String)
      → not (is_some (entry plugin key s.versions)) || is_some (entry plugin key s.values) ≡ true
  pub keys : (plugin : String) → length (bucket plugin s.values) ≤ s.max_keys_per_plugin

module _ (format : ℕ → String) where
  write-keys :
      (p k v : String) (s : Store) (q : String)
      → IsWithin s
      → not (is_some (entry p k s.values)) && leb s.max_keys_per_plugin (length (bucket p s.values))
        ≡ false
      → length (bucket q (write format p k v s).values) ≤ s.max_keys_per_plugin
  unfolding write
  write-keys p k v s q h room = ground (
    arith,
    h.keys p,
    h.keys q,
    lookup-insert p q (insert k v (bucket p s.values)) s.values,
    length-insert k v (bucket p s.values),
  )

  write-IsWithin :
      (p k v : String) (s : Store)
      → IsWithin s
      → not (is_some (entry p k s.values)) && leb s.max_keys_per_plugin (length (bucket p s.values))
        ≡ false
      → s.total + entry_size k v - old_size k (entry p k s.values) ≤ s.max_total_bytes
      → IsWithin (write format p k v s)
  unfolding write
  write-IsWithin p k v s h room fits = record {
    counted = omega (arith, h.counted, held-write p k v s.values);
    total = fits;
    versioned = λ q j. ground (
      arith,
      h.versioned q j,
      values-write format p k v q j s,
      versions-write format p k v q j s,
    );
    keys = λ q. write-keys p k v s q h room;
  }

  set_memory-IsWithin :
      (p k v : String) (expected : Option String) (conditional : Bool) (s : Store)
      → IsWithin s
      → IsWithin (set_memory format p k v expected conditional s).0
  unfolding set_memory
  set_memory-IsWithin p k v expected conditional s h =
      let full =
        not (is_some (entry p k s.values))
        && leb s.max_keys_per_plugin (length (bucket p s.values)) in
      let total = s.total + entry_size k v - old_size k (entry p k s.values) in
      elim (set_memory-cases format p k v expected conditional s) [
        | inl same ↦ subst IsWithin (sym same) h
        | inr wrote ↦ elim (Bool-cases full) [
          | inl refused ↦
              let same : (set_memory format p k v expected conditional s).0 ≡ s =
                ground (arith, refused) in
              subst IsWithin (sym same) h
          | inr room ↦ elim (Bool-cases (ltb s.max_total_bytes total)) [
            | inl refused ↦
                let same : (set_memory format p k v expected conditional s).0 ≡ s =
                  ground (arith, refused) in
                subst IsWithin (sym same) h
            | inr fits ↦
                subst IsWithin (sym wrote) (write-IsWithin p k v s h room (ground (arith, fits)))
          ]
        ]
      ]

  erase-keys :
      (p k v : String) (s : Store) (q : String)
      → IsWithin s
      → length (bucket q (erase p k v s).values) ≤ s.max_keys_per_plugin
  unfolding erase drop_entry
  erase-keys p k v s q h = ground (
    arith,
    h.keys q,
    h.keys p,
    lookup-remove p q s.values,
    lookup-insert p q (remove k (bucket p s.values)) s.values,
    length-remove k (bucket p s.values),
  )

  erase-IsWithin :
      (p k v : String) (s : Store)
      → IsWithin s
      → entry p k s.values ≡ some v
      → IsWithin (erase p k v s)
  unfolding erase
  erase-IsWithin p k v s h present =
      let last = is_empty (remove k (bucket p s.values)) in
      let dropped = held-drop_entry p k v s.values last present in
      record {
        counted = omega (arith, h.counted, dropped);
        total = omega (arith, h.total);
        versioned = λ q j. elim (erase-together format p k v q j s) [
          | inl (gone, unversioned) ↦ ground (arith, gone, unversioned)
          | inr (kept, version) ↦ ground (arith, kept, version, h.versioned q j)
        ];
        keys = λ q. erase-keys p k v s q h;
      }

  kept-or-erased :
      (p k v : String) (s s' : Store)
      → IsWithin s
      → IsWithin (erase p k v s)
      → (s' ≡ s) ⊎ (s' ≡ erase p k v s)
      → IsWithin s'
  kept-or-erased p k v s s' h erased (inl same) = subst IsWithin (sym same) h
  kept-or-erased p k v s s' h erased (inr gone) = subst IsWithin (sym gone) erased

  apply-IsWithin : (op : Op) (s : Store) → IsWithin s → IsWithin (apply format op s)
  unfolding set delete compare_and_delete
  apply-IsWithin (put p k v expected conditional) s h =
      elim (Option-cases (validate_write s p k v)) [
        | inl fine ↦
            let same : apply format (put p k v expected conditional) s
                ≡ (set_memory format p k v expected conditional s).0 =
              ground (arith, fine) in
            subst IsWithin (sym same) (set_memory-IsWithin p k v expected conditional s h)
        | inr (e, refused) ↦
            let same : apply format (put p k v expected conditional) s ≡ s =
              ground (arith, refused) in
            subst IsWithin (sym same) h
      ]
  apply-IsWithin (drop p k) s h = elim (Option-cases (entry p k s.values)) [
    | inl missing ↦
        let same : apply format (drop p k) s ≡ s = ground (arith, missing) in
        subst IsWithin (sym same) h
    | inr (v, present) ↦
        let erased = erase-IsWithin p k v s h present in
        let cases : (apply format (drop p k) s ≡ s) ⊎ (apply format (drop p k) s ≡ erase p k v s) =
          ground (arith, present) in
        kept-or-erased p k v s _ h erased cases
  ]
  apply-IsWithin (drop_if p k expected) s h = elim (Option-cases (entry p k s.values)) [
    | inl missing ↦
        let same : apply format (drop_if p k expected) s ≡ s =
          ground (arith, missing, h.versioned p k, eq_iff "" expected, eq_iff expected "") in
        subst IsWithin (sym same) h
    | inr (v, present) ↦
        let erased = erase-IsWithin p k v s h present in
        let cases : (apply format (drop_if p k expected) s ≡ s)
            ⊎ (apply format (drop_if p k expected) s ≡ erase p k v s) =
          ground (arith, present) in
        kept-or-erased p k v s _ h erased cases
  ]

  -- The bytes of all keys and values that the store holds, and the number of each plugin's keys, stay
  -- within the limits, whatever it is asked to write or delete, from a store in which they are, the
  -- bytes are all counted, and a version stands by a value.
  pub apply_all-IsWithin :
      (ops : List Op) (s : Store) → IsWithin s → IsWithin (apply_all format ops s)
  apply_all-IsWithin [] s h = h
  apply_all-IsWithin (op ∷ ops) s h =
      apply_all-IsWithin ops (apply format op s) (apply-IsWithin op s h)
