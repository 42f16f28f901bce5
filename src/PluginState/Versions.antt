-- ===== src/PluginState/Versions.antt =====
-- Versions of the memory backend of internal/pluginstate/store.go: a version that a caller has read
-- names the value it read for as long as the store lives.
use Prim.Native.String.{String}
use text.Mathlib.Text.{◌==◌ as str_eq}
use torana_edge.Prelude.{
  ℕ, ◌+◌, ◌≤◌, ◌≡◌, refl, ◌∙◌, sym, ap, subst, List, [], ◌∷◌, true, ◌&&◌, some, arith, Bool-cases,
  inl, inr,
}
use torana_edge.PluginState.{Store, ok, entry, is_some, get_versioned, write, erase}
use torana_edge.PluginState.Entries.{
  Op, apply, apply_all, erase-together, written_counter, apply-cases, write-other, values-write,
  versions-write,
}

-- The version of a present key was issued, and no version is above the counter.
abbrev pub IsVersioned : (ℕ → String) → Store → Type 0
IsVersioned format s =
    (p k : String)
    → is_some (entry p k s.values) ≡ true
    → (n : ℕ) × (n ≤ s.counter) × (entry p k s.versions ≡ some (format n))

module _ (format : ℕ → String) where
  write-IsVersioned :
      (p k v : String) (s : Store)
      → IsVersioned format s
      → IsVersioned format (write format p k v s)
  write-IsVersioned p k v s h p' k' present = elim (Bool-cases (str_eq p p' && str_eq k k')) [
    | inl same ↦ (
      s.counter + 1,
      written_counter format p k v s,
      ground (arith, same, versions-write format p k v p' k' s),
    )
    | inr apart ↦
        let before : is_some (entry p' k' s.values) ≡ true =
          ground (arith, apart, present, values-write format p k v p' k' s) in
        let (kept, version) = write-other format p k v p' k' s apart before in
        let (n, bound, issued) = h p' k' before in
        (n, omega (arith, bound, written_counter format p k v s), version ∙ issued)
  ]

  erase-IsVersioned :
      (p k v : String) (s : Store) → IsVersioned format s → IsVersioned format (erase p k v s)
  unfolding erase
  erase-IsVersioned p k v s h p' k' some_entry = elim (erase-together format p k v p' k' s) [
    | inl (gone, _) ↦ absurd (ground (arith, gone))
    | inr (kept, version) ↦
        let (n, bound, issued) = h p' k' (ap is_some (sym kept) ∙ some_entry) in
        (n, bound, version ∙ issued)
  ]

  erased_counter : (p k v : String) (s : Store) → s.counter ≡ (erase p k v s).counter
  unfolding erase
  erased_counter p k v s = refl

  pub apply-IsVersioned :
      (op : Op) (s : Store) → IsVersioned format s → IsVersioned format (apply format op s)
  apply-IsVersioned op s h = elim (apply-cases format op s) [
    | inl same ↦ subst (IsVersioned format) (sym same) h
    | inr (p, k, v, inl wrote) ↦
        subst (IsVersioned format) (sym wrote) (write-IsVersioned p k v s h)
    | inr (p, k, v, inr erased) ↦
        subst (IsVersioned format) (sym erased) (erase-IsVersioned p k v s h)
  ]

  pub apply_all-IsVersioned :
      (ops : List Op) (s : Store)
      → IsVersioned format s
      → IsVersioned format (apply_all format ops s)
  apply_all-IsVersioned [] s h = h
  apply_all-IsVersioned (op ∷ ops) s h =
      apply_all-IsVersioned ops (apply format op s) (apply-IsVersioned op s h)

  module _ (distinct : (i j : ℕ) → format i ≡ format j → i ≡ j) (p' k' v' : String) (n : ℕ) where
    -- The version names the value, in a store that has come as far as the version.
    record IsNamed (s : Store) : Type 0 where
      issued : n ≤ s.counter
      named :
          is_some (entry p' k' s.values) ≡ true
          → entry p' k' s.versions ≡ some (format n)
          → entry p' k' s.values ≡ some v'

    write-IsNamed : (p k v : String) (s : Store) → IsNamed s → IsNamed (write format p k v s)
    write-IsNamed p k v s h = record {
      issued = omega (arith, h.issued, written_counter format p k v s);
      named = λ present version. elim (Bool-cases (str_eq p p' && str_eq k k')) [
        | inl same ↦
            let again : format (s.counter + 1) ≡ format n =
              ground (arith, same, version, versions-write format p k v p' k' s) in
            absurd (omega (arith, h.issued, distinct (s.counter + 1) n again))
        | inr apart ↦
            let before : is_some (entry p' k' s.values) ≡ true =
              ground (arith, apart, present, values-write format p k v p' k' s) in
            let (kept, old) = write-other format p k v p' k' s apart before in
            kept ∙ h.named before (sym old ∙ version)
      ];
    }

    erase-IsNamed : (p k v : String) (s : Store) → IsNamed s → IsNamed (erase p k v s)
    erase-IsNamed p k v s h = record {
      issued = omega (arith, h.issued, erased_counter p k v s);
      named = λ present version. elim (erase-together format p k v p' k' s) [
        | inl (gone, _) ↦ absurd (ground (arith, gone, present))
        | inr (kept, old) ↦ kept ∙ h.named (ap is_some (sym kept) ∙ present) (sym old ∙ version)
      ];
    }

    apply_all-IsNamed : (ops : List Op) (s : Store) → IsNamed s → IsNamed (apply_all format ops s)
    apply_all-IsNamed [] s h = h
    apply_all-IsNamed (op ∷ ops) s h =
        apply_all-IsNamed ops (apply format op s) (elim (apply-cases format op s) [
          | inl same ↦ subst IsNamed (sym same) h
          | inr (p, k, v, inl wrote) ↦ subst IsNamed (sym wrote) (write-IsNamed p k v s h)
          | inr (p, k, v, inr erased) ↦ subst IsNamed (sym erased) (erase-IsNamed p k v s h)
        ])

  get_versioned-entry :
      (s : Store) (p k v ver : String)
      → IsVersioned format s
      → get_versioned s p k ≡ ok (some (v, ver))
      → (n : ℕ) × (n ≤ s.counter)
        × (entry p k s.versions ≡ some (format n))
        × (ver ≡ format n)
        × (entry p k s.values ≡ some v)
  unfolding get_versioned
  get_versioned-entry s p k v ver h got =
      let present : entry p k s.values ≡ some v = ground arith in
      let (n, bound, issued) = h p k (ground (arith, present)) in
      (n, bound, issued, ground (arith, present, issued), present)

  -- The same key with the same version has the same value, however many writes and deletes of it and
  -- of others, conditional or not, stand between the two reads, from a store whose versions were
  -- issued by its counter, if different numbers are written as different versions.
  pub get_versioned-stable :
      (distinct : (i j : ℕ) → format i ≡ format j → i ≡ j) (s : Store) (ops : List Op)
      (p k v v' version : String)
      → IsVersioned format s
      → get_versioned s p k ≡ ok (some (v, version))
      → get_versioned (apply_all format ops s) p k ≡ ok (some (v', version))
      → v ≡ v'
  get_versioned-stable distinct s ops p k v v' version h got got' =
      let (n, bound, issued, named, value) = get_versioned-entry s p k v version h got in
      let (m, _, issued', named', value') =
        get_versioned-entry (apply_all format ops s) p k v' version (apply_all-IsVersioned ops s h)
          got' in
      let start : IsNamed distinct p k v n s = record { issued = bound; named = λ _ _. value } in
      let later = apply_all-IsNamed distinct p k v n ops s start in
      let held = later.named (ground (arith, value')) (issued' ∙ ap some (sym named' ∙ named)) in
      ground (arith, held, value')
