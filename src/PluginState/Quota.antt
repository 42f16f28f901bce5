-- ===== src/PluginState/Quota.antt =====
-- Conditional writes of the memory backend of internal/pluginstate/store.go.
use Prim.Native.String.{String}
use text.Mathlib.Text.{◌==◌ as str_eq}
use text.Mathlib.TextEquality.{eq_iff}
use torana_edge.Prelude.{
  ℕ, ◌+◌, ◌≡◌, refl, ◌∙◌, ap, true, false, ◌&&◌, ◌||◌, Option, none, some, arith, Bool-cases,
  Option-cases, inl, inr,
}
use torana_edge.PluginState.{
  Store, ok, entry, is_some, text_or_empty, get_versioned, write, set_memory, set, mismatch,
  compare_and_set, validate_write, unavailable,
}
use torana_edge.PluginState.Entries.{write-other, values-write, versions-write}

module _ (format : ℕ → String) where
  -- What an applied conditional write says of the call.
  record WasApplied (p k v version : String) (expected : Option String) (s s' : Store)
      : Type 0 where
    after : s' ≡ write format p k v s
    issued : version ≡ format (s.counter + 1)
    named : str_eq p "" || str_eq k "" ≡ false
    available : unavailable s ≡ false
    matched : mismatch s p k expected ≡ false

  compare_and_set-WasApplied :
      (p k v version : String) (expected : Option String) (s s' : Store)
      → compare_and_set format p k v expected s ≡ (s', ok (true, version))
      → WasApplied p k v version expected s s'
  unfolding compare_and_set set set_memory validate_write
  compare_and_set-WasApplied p k v version expected s s' h = record {
    after = ground arith;
    issued = ground arith;
    named = ground arith;
    available = ground arith;
    matched = ground arith;
  }

  get_versioned-of :
      (s : Store) (p k : String)
      → str_eq p "" || str_eq k "" ≡ false
      → unavailable s ≡ false
      → get_versioned s p k
        ≡ ok (elim (entry p k s.values) [
          | none ↦ none
          | some value ↦ some (value, text_or_empty (entry p k s.versions))
        ])
  unfolding get_versioned
  get_versioned-of s p k n a = ground arith

  -- The expectation of a conditional write: no value, or one of the version.
  abbrev pub FoundAs : Option String → Option (String × String) → Type 0
  FoundAs none got = got ≡ none
  FoundAs (some version) got = (v : String) × (got ≡ some (v, version))

  matched-FoundAs :
      (s : Store) (p k : String) (expected : Option String)
      → mismatch s p k expected ≡ false
      → FoundAs expected (elim (entry p k s.values) [
        | none ↦ none
        | some value ↦ some (value, text_or_empty (entry p k s.versions))
      ])
  unfolding mismatch
  matched-FoundAs s p k none m = ground arith
  matched-FoundAs s p k (some e) m = elim (Option-cases (entry p k s.values)) [
    | inl missing ↦ absurd (ground (arith, missing))
    | inr (v, present) ↦
        (v, ground (arith, present, eq_iff (text_or_empty (entry p k s.versions)) e))
  ]

  write-unavailable :
      (p k v : String) (s : Store) → unavailable (write format p k v s) ≡ unavailable s
  unfolding write
  write-unavailable p k v s = refl

  get_versioned-other :
      (p k v p' k' : String) (s : Store)
      → str_eq p p' && str_eq k k' ≡ false
      → get_versioned (write format p k v s) p' k' ≡ get_versioned s p' k'
  unfolding get_versioned
  get_versioned-other p k v p' k' s apart = elim (Bool-cases (is_some (entry p' k' s.values))) [
    | inl present ↦
        let (kept, version) = write-other format p k v p' k' s apart present in
        ground (arith, kept, version, write-unavailable p k v s)
    | inr missing ↦
        ground (arith, missing, apart, values-write format p k v p' k' s, write-unavailable p k v s)
  ]

  -- A conditional write that is applied found what it expected; after it the key reads as the value
  -- under the version that was returned, and every other key reads as before.
  pub get_versioned-compare_and_set :
      (p k v version : String) (expected : Option String) (s s' : Store)
      → compare_and_set format p k v expected s ≡ (s', ok (true, version))
      → ((got : Option (String × String)) × (get_versioned s p k ≡ ok got) × FoundAs expected got)
        × (get_versioned s' p k ≡ ok (some (v, version)))
        × ((p' k' : String)
            → str_eq p p' && str_eq k k' ≡ false
            → get_versioned s' p' k' ≡ get_versioned s p' k')
  get_versioned-compare_and_set p k v version expected s s' h =
      let w = compare_and_set-WasApplied p k v version expected s s' h in
      let after = write format p k v s in
      (
        (_, get_versioned-of s p k w.named w.available, matched-FoundAs s p k expected w.matched),
        ground (
          arith,
          w.after,
          w.issued,
          get_versioned-of after p k w.named (write-unavailable p k v s ∙ w.available),
          values-write format p k v p k s,
          versions-write format p k v p k s,
          eq_iff p p,
          eq_iff k k,
        ),
        λ p' k' apart.
            ap (λ x. get_versioned x p' k') w.after ∙ get_versioned-other p k v p' k' s apart,
      )
