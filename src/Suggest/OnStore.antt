-- ===== src/Suggest/OnStore.antt =====
-- The suggestion store of internal/suggest/store.go on the memory backend of
-- internal/pluginstate/store.go, as internal/proxy/server.go puts them together: the `State` that
-- `update` works on is the plugin state at one key of the suggestions' namespace. `format` stands
-- for `strconv.FormatUint`, `key` for the key that is hashed from the conversation's name.
use Prim.Native.String.{String}
use text.Mathlib.Text.{◌==◌ as str_eq}
use text.Mathlib.TextEquality.{eq_iff}
use mathlib.Core.HLevel.{Σ_prop_path, hedberg}
use mathlib.Core.Logic.{∥∥₁_elim, ∥∥₁_map, ∥∥₁_prop}
use torana_edge.Prelude.{
  ℕ, ◌≡◌, ◌≢◌, refl, ◌∙◌, ap, List, Bool, true, false, Option, none, some, inl, inr, arith,
  Bool-cases,
}
use torana_edge.PluginState.{
  Store, Result as StoreResult, ok as done, err as fault, get_versioned, set_memory, set,
  compare_and_set,
}
use torana_edge.PluginState.Entries.{Op, put, apply_all}
use torana_edge.PluginState.Versions.{
  IsVersioned, apply-IsVersioned, apply_all-IsVersioned, get_versioned-stable,
}
use torana_edge.PluginState.Quota.{get_versioned-compare_and_set}
use torana_edge.Suggest.Update.{
  State, Fetched, failed, missing, found, Reply, applied, refused, broken,
}

string_discrete : Discrete String
string_discrete x y = elim (Bool-cases (str_eq x y)) [
  | inl same ↦ yes ((eq_iff x y).0 same)
  | inr apart ↦ no (λ e. absurd (ground (arith, apart, (eq_iff x y).1 e)))
]

string_set : IsSet String
string_set = hedberg string_discrete

abbrev pub state_namespace : String
state_namespace = "@torana/suggestions"

-- What `read` goes on with after `GetVersioned`.
abbrev pub fetched_of : StoreResult (Option (String × String)) → Fetched String
fetched_of (fault e) = failed
fetched_of (done none) = missing
fetched_of (done (some (value, version))) = found value version

-- What `update` goes on with after `CompareAndSet`.
abbrev pub reply_of : StoreResult (Bool × String) → Reply
reply_of (fault e) = broken
reply_of (done (false, version)) = refused
reply_of (done (true, version)) = applied

fetched_of-missing :
    (r : StoreResult (Option (String × String))) → r ≡ done none → fetched_of r ≡ missing
fetched_of-missing r h = ap fetched_of h

fetched_of-found :
    (r : StoreResult (Option (String × String))) (t v : String)
    → fetched_of r ≡ found t v
    → r ≡ done (some (t, v))
fetched_of-found (fault e) t v h = absurd (ground arith)
fetched_of-found (done none) t v h = absurd (ground arith)
fetched_of-found (done (some (t', v'))) t v h = ground arith

reply_of-applied :
    (r : StoreResult (Bool × String))
    → reply_of r ≡ applied
    → (version : String) × (r ≡ done (true, version))
reply_of-applied (fault e) h = absurd (ground arith)
reply_of-applied (done (false, v)) h = absurd (ground arith)
reply_of-applied (done (true, v)) h = (v, refl)

module _ (format : ℕ → String) where
  -- A store whose versions were issued by its counter.
  abbrev pub VersionedStore : Type 0
  VersionedStore = (s : Store) × ∥ IsVersioned format s ∥₁

  -- The calls of others.
  abbrev pub after_calls : List Op → VersionedStore → VersionedStore
  after_calls ops (s, h) = (apply_all format ops s, ∥∥₁_map h (apply_all-IsVersioned format ops s))

  -- The other store is what calls have made of the one.
  abbrev pub Reached : VersionedStore → VersionedStore → Type 0
  Reached s s' = (ops : List Op) × (apply_all format ops s.0 ≡ s'.0)

  module _ (key : String) where
    abbrev pub fetch : VersionedStore → Fetched String
    fetch s = fetched_of (get_versioned s.0 state_namespace key)

    pub compare_and_set-IsVersioned :
        (text : String) (expected : Option String) (s : Store)
        → IsVersioned format s
        → IsVersioned format (compare_and_set format state_namespace key text expected s).0
    unfolding compare_and_set
    compare_and_set-IsVersioned text expected s h =
        apply-IsVersioned format (put state_namespace key text expected true) s h

    abbrev pub write_if : String → Option String → VersionedStore → VersionedStore × Reply
    write_if text expected s =
        let r = compare_and_set format state_namespace key text expected s.0 in
        ((r.0, ∥∥₁_map s.1 (compare_and_set-IsVersioned text expected s.0)), reply_of r.1)

    -- What the memory backend promises of a write that it reports as applied.
    pub applied-compare_and_set :
        (t : String) (e : Option String) (s : VersionedStore)
        → (write_if t e s).1 ≡ applied
        → (version : String) × (compare_and_set format state_namespace key t e s.0
            ≡ ((write_if t e s).0.0, done (true, version)))
    applied-compare_and_set t e s a =
        let r = compare_and_set format state_namespace key t e s.0 in
        let (version, reply) = reply_of-applied r.1 a in (version, ap (λ x. (r.0, x)) reply)

    pub write_if-applied_new :
        (t : String) (s : VersionedStore) → (write_if t none s).1 ≡ applied → fetch s ≡ missing
    write_if-applied_new t s a =
        let (version, call) = applied-compare_and_set t none s a in
        let ((got, seen, absent), _, _) =
          get_versioned-compare_and_set format state_namespace key t version none s.0
            (write_if t none s).0.0 call in
        fetched_of-missing (get_versioned s.0 state_namespace key) (seen ∙ ap done absent)

    pub write_if-applied_to :
        (t v : String) (s : VersionedStore)
        → (write_if t (some v) s).1 ≡ applied
        → (t' : String) × (fetch s ≡ found t' v)
    write_if-applied_to t v s a =
        let (version, call) = applied-compare_and_set t (some v) s a in
        let ((got, seen, (t', there)), _, _) =
          get_versioned-compare_and_set format state_namespace key t version (some v) s.0
            (write_if t (some v) s).0.0 call in
        (t', ap fetched_of (seen ∙ ap done there))

    pub write_if-stored :
        (t : String) (e : Option String) (s : VersionedStore)
        → (write_if t e s).1 ≡ applied
        → (v : String) × (fetch (write_if t e s).0 ≡ found t v)
    write_if-stored t e s a =
        let (version, call) = applied-compare_and_set t e s a in
        let (_, now, _) =
          get_versioned-compare_and_set format state_namespace key t version e s.0
            (write_if t e s).0.0 call in
        (version, ap fetched_of now)

    compare_and_set-untouched :
        (t : String) (e : Option String) (s : Store)
        → reply_of (compare_and_set format state_namespace key t e s).1 ≢ applied
        → (compare_and_set format state_namespace key t e s).0 ≡ s
    unfolding compare_and_set set set_memory
    compare_and_set-untouched t e s n = ground arith

    pub write_if-untouched :
        (t : String) (e : Option String) (s : VersionedStore)
        → (write_if t e s).1 ≢ applied
        → (write_if t e s).0 ≡ s
    write_if-untouched t e s n = Σ_prop_path (λ x. ∥∥₁_prop) (compare_and_set-untouched t e s.0 n)

    module _ (distinct : (i j : ℕ) → format i ≡ format j → i ≡ j) where
      pub fetch-stable :
          (s s' : VersionedStore) (t t' v : String)
          → Reached s s'
          → fetch s ≡ found t v
          → fetch s' ≡ found t' v
          → t ≡ t'
      fetch-stable s s' t t' v (ops, r) e e' = ∥∥₁_elim s.1 (string_set t t') λ h.
          get_versioned-stable format distinct s.0 ops state_namespace key t t' v h
            (fetched_of-found (get_versioned s.0 state_namespace key) t v e)
            (ap (λ x. get_versioned x state_namespace key) r
              ∙ fetched_of-found (get_versioned s'.0 state_namespace key) t' v e')

      abbrev pub on_store : State
      on_store = record {
        S = VersionedStore;
        Version = String;
        get = fetch;
        cas = write_if;
        Later = Reached;
        stable = fetch-stable;
        applied_to = write_if-applied_to;
        applied_new = write_if-applied_new;
        stored = write_if-stored;
        untouched = write_if-untouched;
      }
