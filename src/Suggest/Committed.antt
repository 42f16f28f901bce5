-- ===== src/Suggest/Committed.antt =====
-- An update of a conversation's suggestions, internal/suggest/store.go, on the memory backend of
-- internal/pluginstate/store.go, while others use the same store.
use Prim.Native.String.{String}
use text.Mathlib.Text.{◌==◌ as str_eq}
use torana_edge.Prelude.{
  ℕ, ◌≡◌, refl, ◌∙◌, sym, ap, List, Bool, true, false, ◌&&◌, Option, none, some, ◌⊎◌, inl, inr,
}
use torana_edge.PluginState.{ok as done, get_versioned, compare_and_set}
use torana_edge.PluginState.Entries.{Op}
use torana_edge.PluginState.Quota.{get_versioned-compare_and_set}
use torana_edge.Suggest.{Record, Error}
use torana_edge.Suggest.Creation.{Outcome, ok}
use torana_edge.Suggest.Update.{current, read, update}
use torana_edge.Suggest.Atomic.{Applied, Idle, update-atomic}
use torana_edge.Suggest.OnStore.{
  state_namespace, VersionedStore, after_calls, Reached, on_store, applied-compare_and_set,
}

module _ (format : ℕ → String) (key : String) (distinct : (i j : ℕ) → format i ≡ format j → i ≡ j)
    (encode : Record → Option String) (decode : String → Option Record) (conversation : String)
    {Captured : Type 0} (change : Captured → Record → Outcome (Record × Bool × Captured))
    (others_write others_read : ℕ → List Op) where
  abbrev pub update_stored :
      VersionedStore format → Captured → VersionedStore format × Captured × Option Error
  update_stored s c =
      update (on_store format key distinct) encode decode conversation change
        (λ n. after_calls format (others_write n)) (λ n. after_calls format (others_read n)) s c

  -- The change was made to the record that the plugin state held, and stored in its place.
  pub record IsCommitted (s : VersionedStore format) (c : Captured) : Type 0 where
    pub at : VersionedStore format
    pub seen : Record
    pub expected : Option String
    pub with_captured : Captured
    pub result : Record
    pub text : String
    pub version : String
    pub held :
        read (on_store format key distinct) encode decode conversation at ≡ current seen expected
    pub changed : change with_captured seen ≡ ok (result, true, c)
    pub encoded : encode result ≡ some text
    pub called :
        compare_and_set format state_namespace key text expected at.0 ≡ (s.0, done (true, version))
    pub stored : get_versioned s.0 state_namespace key ≡ done (some (text, version))
    pub others :
        (plugin other : String)
        → str_eq state_namespace plugin && str_eq key other ≡ false
        → get_versioned s.0 plugin other ≡ get_versioned at.0 plugin other

  pub reached :
      (n : ℕ) (s : VersionedStore format) → Reached format s (after_calls format (others_write n) s)
  reached n s = (others_write n, refl)

  update_stored-IsCommitted :
      (s : VersionedStore format) (c : Captured)
      → Applied
          (on_store format key distinct)
          encode
          decode
          conversation
          change
          (λ n. after_calls format (others_write n))
          (λ n. after_calls format (others_read n))
          reached
          s
          c
      → IsCommitted s c
  update_stored-IsCommitted s c a =
      let (version, call) = applied-compare_and_set format key a.text a.expected a.at a.accepted in
      let call' : compare_and_set format state_namespace key a.text a.expected a.at.0
          ≡ (s.0, done (true, version)) =
        call ∙ ap (λ x. (x.0, done (true, version))) (sym a.written) in
      let (_, now, apart) =
        get_versioned-compare_and_set format state_namespace key a.text version a.expected a.at.0
          s.0 call' in
      record {
        at = a.at;
        seen = a.seen;
        expected = a.expected;
        with_captured = a.with_captured;
        result = a.result;
        text = a.text;
        version = version;
        held = a.held;
        changed = a.changed;
        encoded = a.encoded;
        called = call';
        stored = now;
        others = apart;
      }

  -- An update of a conversation's suggestions on the memory backend, with calls of others on the
  -- same store before each of its writes and reads: if it succeeds, its change was made to the
  -- record that the store held when the conditional write was applied, the key then reads as the
  -- changed record and every other key as just before; or the change asked for no write. It
  -- needs versions that differ for different numbers.
  pub update_stored-atomic :
      (s s' : VersionedStore format) (c c' : Captured)
      → update_stored s c ≡ (s', c', none)
      → IsCommitted s' c'
        ⊎ Idle
            (on_store format key distinct)
            encode
            decode
            conversation
            change
            (λ n. after_calls format (others_write n))
            (λ n. after_calls format (others_read n))
            reached
            s'
            c'
  update_stored-atomic s s' c c' h =
      elim (update-atomic (on_store format key distinct) encode decode conversation change
        (λ n. after_calls format (others_write n)) (λ n. after_calls format (others_read n)) reached
        s s' c c' h) [ inl a ↦ inl (update_stored-IsCommitted s' c' a) | inr i ↦ inr i ]
