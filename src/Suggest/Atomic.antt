-- ===== src/Suggest/Atomic.antt =====
-- `update` is atomic: a call that succeeds made its change to the record that the store held at that
-- very moment, whatever other callers did in between.
use Prim.Native.String.{String}
use torana_edge.Prelude.{
  ℕ, zero, suc, ◌≡◌, ◌≢◌, refl, ◌∙◌, sym, ap, subst, Bool, true, false, Option, none, some, ◌⊎◌,
  inl, inr, arith,
}
use torana_edge.Suggest.{Record}
use torana_edge.Suggest.Creation.{Outcome, ok, err}
use torana_edge.Suggest.Update.{
  State, failed, missing, found, applied, refused, broken, unreadable, current, over, again,
  checked, read, write_back, change_read, attempt, update_loop, update,
}

module _ (state : State) (encode : Record → Option String) (decode : String → Option Record)
    (conversation : String) where
  read-get :
      (s s' : state.S)
      → state.get s ≡ state.get s'
      → read state encode decode conversation s ≡ read state encode decode conversation s'
  unfolding read
  read-get s s' e = rw e refl

  checked-version :
      (o : Option Record) (v w : state.Version) (r : Record)
      → checked state encode decode conversation o v ≡ current r (some w)
      → v ≡ w
  checked-version none v w r h = cc
  checked-version (some r') v w r h = ground arith

  checked-none :
      (o : Option Record) (v : state.Version) (r : Record)
      → checked state encode decode conversation o v ≢ current r none
  checked-none none v r h = cc
  checked-none (some r') v r h = ground arith

  read-new :
      (s : state.S) (r : Record)
      → read state encode decode conversation s ≡ current r none
      → state.get s ≡ missing
  unfolding read
  read-new s r h =
      elim (state.get s) as (λ f. state.get s ≡ f → f ≡ missing) [
        | failed ↦ λ e. absurd (ground (arith, e))
        | missing ↦ λ e. refl
        | found t v ↦ λ e. absurd (ground (arith, e, checked-none (decode t) v r))
      ]
        refl

  read-version :
      (s : state.S) (r : Record) (v : state.Version)
      → read state encode decode conversation s ≡ current r (some v)
      → (t : String) × (state.get s ≡ found t v)
  unfolding read
  read-version s r v h =
      elim (state.get s) as (λ f. state.get s ≡ f → (t : String) × (state.get s ≡ found t v)) [
        | failed ↦ λ e. absurd (ground (arith, e))
        | missing ↦ λ e. absurd (ground (arith, e))
        | found t w ↦ λ e. (t, ground (arith, e, checked-version (decode t) w v r))
      ]
        refl

  -- What a reader saw is still there when its conditional write is applied.
  read-applied :
      (s s' : state.S) (r : Record) (expected : Option state.Version) (t : String)
      → state.Later s s'
      → read state encode decode conversation s ≡ current r expected
      → (state.cas t expected s').1 ≡ applied
      → read state encode decode conversation s' ≡ current r expected
  read-applied s s' r none t later h a =
      read-get s' s (state.applied_new t s' a ∙ sym (read-new s r h)) ∙ h
  read-applied s s' r (some v) t later h a =
      let (t0, before) = read-version s r v h in
      let (t1, now) = state.applied_to t v s' a in
      let same = state.stable s s' t0 t1 v later before now in
      read-get s' s (now ∙ ap (λ x. found x v) (sym same) ∙ sym before) ∙ h

  module _ {Captured : Type 0} (change : Captured → Record → Outcome (Record × Bool × Captured))
      (before_write before_read : ℕ → state.S → state.S)
      (later : (n : ℕ) (s : state.S) → state.Later s (before_write n s)) where
    -- The change was made to what the store held, and its result is what the store holds after.
    pub record Applied (s : state.S) (c : Captured) : Type 0 where
      pub at : state.S
      pub seen : Record
      pub expected : Option state.Version
      pub with_captured : Captured
      pub result : Record
      pub text : String
      pub held : read state encode decode conversation at ≡ current seen expected
      pub changed : change with_captured seen ≡ ok (result, true, c)
      pub encoded : encode result ≡ some text
      pub accepted : (state.cas text expected at).1 ≡ applied
      pub written : s ≡ (state.cas text expected at).0
      pub holds : (v : state.Version) × (state.get s ≡ found text v)

    -- The change asked for nothing to be written.
    pub record Idle (s : state.S) (c : Captured) : Type 0 where
      pub seen : Record
      pub expected : Option state.Version
      pub with_captured : Captured
      pub result : Record
      pub held : read state encode decode conversation s ≡ current seen expected
      pub unchanged : change with_captured seen ≡ ok (result, false, c)

    write_back-Applied :
        (left : ℕ) (s s' : state.S) (r r' : Record) (expected : Option state.Version)
        (c0 c c' : Captured) (o : Option String)
        → read state encode decode conversation s ≡ current r expected
        → change c0 r ≡ ok (r', true, c)
        → encode r' ≡ o
        → write_back state encode decode conversation change before_write before_read left o
            expected s c
          ≡ over s' c' none
        → Applied s' c'
    unfolding write_back
    write_back-Applied left s s' r r' expected c0 c c' none h m n w = absurd (ground arith)
    write_back-Applied left s s' r r' expected c0 c c' (some t) h m n w =
        elim (state.cas t expected (before_write left s)).1
            as (λ a. (state.cas t expected (before_write left s)).1 ≡ a → Applied s' c') [
              | broken ↦ λ e. absurd (ground (arith, e))
              | refused ↦ λ e. absurd (ground (arith, e))
              | applied ↦ λ e.
                  let same : (state.cas t expected (before_write left s)).0 ≡ s' =
                    ground (arith, e) in
                  let (v, kept) = state.stored t expected (before_write left s) e in
                  record {
                    at = before_write left s;
                    seen = r;
                    expected = expected;
                    with_captured = c0;
                    result = r';
                    text = t;
                    held = read-applied s (before_write left s) r expected t (later left s) h e;
                    changed = ground (arith, e);
                    encoded = n;
                    accepted = e;
                    written = sym same;
                    holds = (v, subst (λ x. state.get x ≡ found t v) same kept);
                  }
            ]
          refl

    change_read-atomic :
        (left : ℕ) (s s' : state.S) (r : Record) (expected : Option state.Version)
        (c0 c' : Captured) (o : Outcome (Record × Bool × Captured))
        → read state encode decode conversation s ≡ current r expected
        → change c0 r ≡ o
        → change_read state encode decode conversation change before_write before_read left o
            expected s c0
          ≡ over s' c' none
        → Applied s' c' ⊎ Idle s' c'
    unfolding change_read
    change_read-atomic left s s' r expected c0 c' (err e) h m w = absurd (ground arith)
    change_read-atomic left s s' r expected c0 c' (ok (r', false, c)) h m w =
        let same : s ≡ s' = ground arith in
        inr (record {
          seen = r;
          expected = expected;
          with_captured = c0;
          result = r';
          held = subst (λ x. read state encode decode conversation x ≡ current r expected) same h;
          unchanged = ground arith;
        })
    change_read-atomic left s s' r expected c0 c' (ok (r', true, c)) h m w =
        inl (write_back-Applied left s s' r r' expected c0 c c' (encode r') h m refl w)

    attempt-atomic :
        (left : ℕ) (s s' : state.S) (c c' : Captured)
        → attempt state encode decode conversation change before_write before_read left s c
          ≡ over s' c' none
        → Applied s' c' ⊎ Idle s' c'
    unfolding attempt
    attempt-atomic left s s' c c' w =
        elim (read state encode decode conversation s)
            as (λ x. read state encode decode conversation s ≡ x → Applied s' c' ⊎ Idle s' c') [
              | unreadable e ↦ λ h. absurd (ground (arith, h))
              | current r expected ↦ λ h.
                  change_read-atomic left s s' r expected c c' (change c r) h refl
                    (ground (arith, h))
            ]
          refl

    update_loop-atomic :
        (left : ℕ) (s s' : state.S) (c c' : Captured)
        → update_loop state encode decode conversation change before_write before_read left s c
          ≡ (s', c', none)
        → Applied s' c' ⊎ Idle s' c'
    unfolding update_loop
    update_loop-atomic zero s s' c c' w = absurd (ground arith)
    update_loop-atomic (suc left) s s' c c' w =
        elim (attempt state encode decode conversation change before_write before_read left s c)
            as (λ x.
              attempt state encode decode conversation change before_write before_read left s c ≡ x
              → Applied s' c' ⊎ Idle s' c') [
                | over s1 c1 e ↦ λ h. attempt-atomic left s s' c c' (ground (arith, h))
                | again s1 c1 ↦ λ h. update_loop-atomic left s1 s' c1 c' (ground (arith, h))
              ]
          refl

    -- A call that succeeds made its change, once, to the record that the store held when the write
    -- was applied, and the store then holds the result; or its change asked for no write. Other
    -- callers may write before each of its writes and reads.
    pub update-atomic :
        (s s' : state.S) (c c' : Captured)
        → update state encode decode conversation change before_write before_read s c
          ≡ (s', c', none)
        → Applied s' c' ⊎ Idle s' c'
    unfolding update
    update-atomic s s' c c' w = update_loop-atomic 8 s s' c c' w
