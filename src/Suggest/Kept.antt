-- ===== src/Suggest/Kept.antt =====
-- What an update of internal/suggest/store.go keeps of the store it works on, however it ends; on the
-- memory backend of internal/pluginstate/store.go, that is its limits.
use Prim.Native.String.{String}
use torana_edge.Prelude.{
  ℕ, zero, suc, ◌≡◌, refl, sym, subst, List, [], ◌∷◌, Bool, true, false, Option, none, some, arith,
}
use torana_edge.PluginState.{compare_and_set}
use torana_edge.PluginState.Entries.{Op, put}
use torana_edge.PluginState.Limits.{IsWithin, apply_all-IsWithin}
use torana_edge.Suggest.{Record}
use torana_edge.Suggest.Creation.{Outcome, ok, err}
use torana_edge.Suggest.Update.{
  State, Attempt, over, again, unreadable, current, applied, refused, broken, read, write_back,
  change_read, attempt, update_loop, update,
}
use torana_edge.Suggest.OnStore.{state_namespace, VersionedStore, after_calls, on_store}
use torana_edge.Suggest.Committed.{update_stored}

-- The state that an attempt leaves.
abbrev left_by : {S Captured : Type 0} → Attempt S Captured → S
left_by (over s c e) = s
left_by (again s c) = s

module _ (state : State) (encode : Record → Option String) (decode : String → Option Record)
    (conversation : String) {Captured : Type 0}
    (change : Captured → Record → Outcome (Record × Bool × Captured))
    (before_write before_read : ℕ → state.S → state.S) (P : state.S → Type 0)
    (cas_keeps : (t : String) (e : Option state.Version) (s : state.S)
      → P s
      → P (state.cas t e s).0)
    (write_keeps : (n : ℕ) (s : state.S) → P s → P (before_write n s))
    (read_keeps : (n : ℕ) (s : state.S) → P s → P (before_read n s)) where
  write_back-kept :
      (left : ℕ) (o : Option String) (e : Option state.Version) (s : state.S) (c : Captured)
      → P s
      → P (
          left_by (
            write_back state encode decode conversation change before_write before_read left o e s
              c))
  unfolding write_back
  write_back-kept left none e s c h = h
  write_back-kept left (some t) e s c h =
      let s1 = (state.cas t e (before_write left s)).0 in
      let kept : P s1 = cas_keeps t e (before_write left s) (write_keeps left s h) in
      let call =
        write_back state encode decode conversation change before_write before_read left (some t) e
          s c in
      elim (state.cas t e (before_write left s)).1
          as (λ r. (state.cas t e (before_write left s)).1 ≡ r → P (left_by call)) [
            | broken ↦
                λ q. let same : left_by call ≡ s1 = ground (arith, q) in subst P (sym same) kept
            | applied ↦
                λ q. let same : left_by call ≡ s1 = ground (arith, q) in subst P (sym same) kept
            | refused ↦ λ q.
                let same : left_by call ≡ before_read left s1 = ground (arith, q) in
                subst P (sym same) (read_keeps left s1 kept)
          ]
        refl

  change_read-kept :
      (left : ℕ) (o : Outcome (Record × Bool × Captured)) (e : Option state.Version) (s : state.S)
      (c : Captured)
      → P s
      → P (
          left_by (
            change_read state encode decode conversation change before_write before_read left o e s
              c))
  unfolding change_read
  change_read-kept left (err x) e s c h = h
  change_read-kept left (ok (r, false, c')) e s c h = h
  change_read-kept left (ok (r, true, c')) e s c h = write_back-kept left (encode r) e s c' h

  attempt-kept :
      (left : ℕ) (s : state.S) (c : Captured)
      → P s
      → P (
          left_by
            (attempt state encode decode conversation change before_write before_read left s c))
  unfolding attempt
  attempt-kept left s c h =
      let call =
        attempt state encode decode conversation change before_write before_read left s c in
      elim (read state encode decode conversation s)
          as (λ r. read state encode decode conversation s ≡ r → P (left_by call)) [
            | unreadable x ↦
                λ q. let same : left_by call ≡ s = ground (arith, q) in subst P (sym same) h
            | current r expected ↦ λ q.
                let next =
                  change_read state encode decode conversation change before_write before_read left
                    (change c r) expected s c in
                let same : left_by call ≡ left_by next = ground (arith, q) in
                subst P (sym same) (change_read-kept left (change c r) expected s c h)
          ]
        refl

  update_loop-kept :
      (left : ℕ) (s : state.S) (c : Captured)
      → P s
      → P (update_loop state encode decode conversation change before_write before_read left s c).0
  unfolding update_loop
  update_loop-kept zero s c h = h
  update_loop-kept (suc left) s c h =
      let loop =
        update_loop state encode decode conversation change before_write before_read (suc left) s
          c in
      elim (attempt state encode decode conversation change before_write before_read left s c)
          as (λ a.
            attempt state encode decode conversation change before_write before_read left s c ≡ a
            → P (left_by a)
            → P loop.0) [
              | over s' c' e ↦
                  λ q kept. let same : loop.0 ≡ s' = ground (arith, q) in subst P (sym same) kept
              | again s' c' ↦ λ q kept.
                  let rest =
                    update_loop state encode decode conversation change before_write before_read
                      left s' c' in
                  let same : loop.0 ≡ rest.0 = ground (arith, q) in
                  subst P (sym same) (update_loop-kept left s' c' kept)
            ]
        refl (attempt-kept left s c h)

  update-kept :
      (s : state.S) (c : Captured)
      → P s
      → P (update state encode decode conversation change before_write before_read s c).0
  unfolding update
  update-kept s c h = update_loop-kept 8 s c h

module _ (format : ℕ → String) (key : String) (distinct : (i j : ℕ) → format i ≡ format j → i ≡ j)
    (encode : Record → Option String) (decode : String → Option Record) (conversation : String)
    {Captured : Type 0} (change : Captured → Record → Outcome (Record × Bool × Captured))
    (others_write others_read : ℕ → List Op) where
  compare_and_set-IsWithin :
      (t : String) (e : Option String) (s : VersionedStore format)
      → IsWithin s.0
      → IsWithin (compare_and_set format state_namespace key t e s.0).0
  unfolding compare_and_set
  compare_and_set-IsWithin t e s h =
      apply_all-IsWithin format (put state_namespace key t e true ∷ []) s.0 h

  -- A memory backend that is within its limits on bytes and keys is within them after an update of
  -- a conversation's suggestions, whether the update succeeds, fails or gives up, with any calls of
  -- others on the same store before each of its writes and reads.
  pub update_stored-IsWithin :
      (s : VersionedStore format) (c : Captured)
      → IsWithin s.0
      → IsWithin
          (update_stored format key distinct encode decode conversation change others_write
            others_read s c).0.0
  update_stored-IsWithin s c h =
      update-kept (on_store format key distinct) encode decode conversation change
        (λ n. after_calls format (others_write n)) (λ n. after_calls format (others_read n))
        (λ x. IsWithin x.0) compare_and_set-IsWithin
        (λ n x. apply_all-IsWithin format (others_write n) x.0)
        (λ n x. apply_all-IsWithin format (others_read n) x.0) s c h
