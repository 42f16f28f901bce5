-- ===== src/PluginState/Entries.antt =====
-- What the writes and deletions of the memory backend of internal/pluginstate/store.go do to each
-- entry of its two maps.
use Prim.Native.String.{String}
use text.Mathlib.Text.{◌==◌ as str_eq}
use text.Mathlib.TextEquality.{eq_iff}
use torana_edge.Prelude.{
  ℕ, ◌+◌, ◌≤◌, ◌≡◌, ◌⊎◌, refl, ◌∙◌, List, [], ◌∷◌, Bool, true, false, ◌&&◌, ◌||◌, not, Option, none,
  some, arith, if◌then◌else◌, Bool-cases, Option-cases, inl, inr,
}
use torana_edge.Prelude.Assoc.{lookup, insert, remove, lookup-insert, lookup-remove}
use torana_edge.PluginState.{
  Store, bucket, entry, is_some, text_or_empty, write, set_memory, set, drop_entry, erase, delete,
  compare_and_delete, is_empty, validate_write,
}

entry-insert :
    (p k p' k' v : String) (b : List (String × String)) (m : List (String × List (String × String)))
    → entry p' k' (insert p (insert k v b) m)
      ≡ (if str_eq p p' then (if str_eq k k' then some v else lookup k' b) else entry p' k' m)
entry-insert p k p' k' v b m =
    ground (arith, lookup-insert p p' (insert k v b) m, lookup-insert k k' v b)

entry-bucket :
    (p k : String) (m : List (String × List (String × String)))
    (o : Option (List (String × String)))
    → lookup p m ≡ o
    → entry p k m ≡ lookup k (elim o [ none ↦ [] | some b ↦ b ])
entry-bucket p k m o e = rw (← e) refl

lookup-nil : (k : String) → lookup {V = String} k [] ≡ none
unfolding lookup
lookup-nil k = refl

entry-drop_entry :
    (p k p' k' : String) (m : List (String × List (String × String))) (last : Bool)
    → entry p' k' (drop_entry p k m last)
      ≡ (if str_eq p p' && (last || str_eq k k') then none else entry p' k' m)
unfolding drop_entry
entry-drop_entry p k p' k' m true =
    entry-bucket p' k' (remove p m) _ (lookup-remove p p' m) ∙ ground (arith, lookup-nil k')
entry-drop_entry p k p' k' m false =
    entry-bucket p' k' (insert p (remove k (bucket p m)) m) _
      (lookup-insert p p' (remove k (bucket p m)) m)
    ∙ ground (arith, eq_iff p p', lookup-remove k k' (bucket p m))

pub data Op : Type 0 where
  put : String → String → String → Option String → Bool → Op
  drop : String → String → Op
  drop_if : String → String → String → Op

module _ (format : ℕ → String) where
  abbrev pub apply : Op → Store → Store
  apply (put plugin key value expected conditional) s =
      (set format plugin key value expected conditional s).0
  apply (drop plugin key) s = (delete plugin key s).0
  apply (drop_if plugin key expected) s = (compare_and_delete plugin key expected s).0

  abbrev pub apply_all : List Op → Store → Store
  apply_all [] s = s
  apply_all (op ∷ ops) s = apply_all ops (apply op s)

  pub values-write :
      (p k v p' k' : String) (s : Store)
      → entry p' k' (write format p k v s).values
        ≡ (if str_eq p p' && str_eq k k' then some v else entry p' k' s.values)
  unfolding write
  values-write p k v p' k' s =
      ground (arith, eq_iff p p', entry-insert p k p' k' v (bucket p s.values) s.values)

  -- A plugin that had no values loses what versions it had.
  pub versions-write :
      (p k v p' k' : String) (s : Store)
      → entry p' k' (write format p k v s).versions ≡ (
          if str_eq p p' && str_eq k k'
          then some (format (s.counter + 1))
          else if str_eq p p' && not (is_some (lookup p s.values))
          then none
          else entry p' k' s.versions)
  unfolding write
  versions-write p k v p' k' s = elim (Bool-cases (is_some (lookup p s.values))) [
    | inl known ↦ ground (
      arith,
      known,
      eq_iff p p',
      entry-insert p k p' k' (format (s.counter + 1)) (bucket p s.versions) s.versions,
    )
    | inr new ↦ ground (
      arith,
      new,
      eq_iff p p',
      lookup-nil k',
      entry-insert p k p' k' (format (s.counter + 1)) [] s.versions,
    )
  ]

pub delete-cases :
    (p k : String) (s : Store)
    → ((delete p k s).0 ≡ s) ⊎ ((delete p k s).0 ≡ erase p k (text_or_empty (entry p k s.values)) s)
unfolding delete
delete-cases p k s = elim (Option-cases (entry p k s.values)) [
  | inl missing ↦ ground (arith, missing)
  | inr (v, present) ↦ ground (arith, present)
]

pub compare_and_delete-cases :
    (p k expected : String) (s : Store)
    → ((compare_and_delete p k expected s).0 ≡ s)
      ⊎ ((compare_and_delete p k expected s).0 ≡ erase p k (text_or_empty (entry p k s.values)) s)
unfolding compare_and_delete
compare_and_delete-cases p k expected s = ground arith

module _ (format : ℕ → String) where
  pub set_memory-cases :
      (p k v : String) (expected : Option String) (conditional : Bool) (s : Store)
      → ((set_memory format p k v expected conditional s).0 ≡ s)
        ⊎ ((set_memory format p k v expected conditional s).0 ≡ write format p k v s)
  unfolding set_memory
  set_memory-cases p k v expected conditional s = ground arith

  pub apply-cases :
      (op : Op) (s : Store)
      → (apply format op s ≡ s)
        ⊎ ((p : String) × (k : String) × (v : String) × ((apply format op s ≡ write format p k v s)
              ⊎ (apply format op s ≡ erase p k v s)))
  unfolding set
  apply-cases (put p k v expected conditional) s =
      elim (set_memory-cases p k v expected conditional s) [
        | inl same ↦ inl (ground (arith, same))
        | inr wrote ↦ elim (Option-cases (validate_write s p k v)) [
          | inl fine ↦ inr (p, k, v, inl (ground (arith, fine, wrote)))
          | inr (e, refused) ↦ inl (ground (arith, refused))
        ]
      ]
  apply-cases (drop p k) s = elim (delete-cases p k s) [
    | inl same ↦ inl same
    | inr gone ↦ inr (p, k, text_or_empty (entry p k s.values), inr gone)
  ]
  apply-cases (drop_if p k expected) s = elim (compare_and_delete-cases p k expected s) [
    | inl same ↦ inl same
    | inr gone ↦ inr (p, k, text_or_empty (entry p k s.values), inr gone)
  ]

  -- An entry of the values and its version go together.
  pub erase-together :
      (p k v p' k' : String) (s : Store)
      → ((entry p' k' (erase p k v s).values ≡ none)
          × (entry p' k' (erase p k v s).versions ≡ none))
        ⊎ ((entry p' k' (erase p k v s).values ≡ entry p' k' s.values)
            × (entry p' k' (erase p k v s).versions ≡ entry p' k' s.versions))
  unfolding erase
  erase-together p k v p' k' s =
      let last = is_empty (remove k (bucket p s.values)) in
      elim (Bool-cases (str_eq p p' && (last || str_eq k k'))) [
        | inl gone ↦ inl (
          ground (arith, gone, entry-drop_entry p k p' k' s.values last),
          ground (arith, gone, entry-drop_entry p k p' k' s.versions last),
        )
        | inr kept ↦ inr (
          ground (arith, kept, entry-drop_entry p k p' k' s.values last),
          ground (arith, kept, entry-drop_entry p k p' k' s.versions last),
        )
      ]

  -- A plugin without values has no entry.
  pub unknown-entry :
      (p k : String) (m : List (String × List (String × String)))
      → is_some (lookup p m) ≡ false
      → entry p k m ≡ none
  unknown-entry p k m h = elim (Option-cases (lookup p m)) [
    | inl missing ↦ entry-bucket p k m none missing ∙ lookup-nil k
    | inr (b, found) ↦ absurd (ground (arith, found))
  ]

  pub written_counter :
      (p k v : String) (s : Store) → s.counter + 1 ≤ (write format p k v s).counter
  unfolding write
  written_counter p k v s = omega arith

  -- What a write leaves of another entry.
  pub write-other :
      (p k v p' k' : String) (s : Store)
      → str_eq p p' && str_eq k k' ≡ false
      → is_some (entry p' k' s.values) ≡ true
      → (entry p' k' (write format p k v s).values ≡ entry p' k' s.values)
        × (entry p' k' (write format p k v s).versions ≡ entry p' k' s.versions)
  write-other p k v p' k' s apart present = (
    ground (arith, apart, values-write format p k v p' k' s),
    ground (
      arith,
      apart,
      present,
      eq_iff p p',
      versions-write format p k v p' k' s,
      unknown-entry p' k' s.values,
    ),
  )
