-- ===== src/Suggest/HintSteps.antt =====
-- What one call for a setup hint, internal/suggest/setup.go, does to the cooldowns in memory.
use Prim.Native.String.{String, ◌++◌ as str_append}
use text.Mathlib.Text.{◌==◌ as str_eq}
use text.Mathlib.TextEquality.{eq_iff}
use torana_edge.Prelude.{
  ℕ, ◌+◌, ◌<◌, ◌≡◌, ◌⊎◌, inl, inr, refl, ◌∙◌, ap, false, ◌||◌, Option, none, some, if◌then◌else◌,
  ltb, arith, if-both,
}
use torana_edge.Prelude.Assoc.{lookup, lookup-insert}
use torana_edge.Suggest.{Record, Error, invalid}
use torana_edge.Suggest.Update.{
  Read, unreadable, current, Fetched, failed, missing, found, Reply, applied, refused, broken, read,
}
use torana_edge.Suggest.OnStore.{VersionedStore, after_calls, fetch, write_if, on_store}
use torana_edge.Suggest.Hint.{HintCall}
use torana_edge.Suggest.Setup.{
  Setup, Hinted, harness_name, minute, week, cool, is_before, is_seen, remember_setup_seen,
  add_hint, end_with, claim_cooldown, check_cooldown, after_read, setup_hint,
}

cooldown-remember_setup_seen :
    (conversation : String) (setup : Setup)
    → (remember_setup_seen conversation setup).cooldown ≡ setup.cooldown
unfolding remember_setup_seen
cooldown-remember_setup_seen conversation setup = refl

option-both {ℓ κ} :
    {A : Type 0} {B : Type ℓ} (P : B → Type κ) (o : Option A) {x : B} {f : A → B}
    → P x
    → ((a : A) → P (f a))
    → P (elim o [ none ↦ x | some a ↦ f a ])
option-both P none px pf = px
option-both P (some a) px pf = pf a

reply-all {ℓ κ} :
    {B : Type ℓ} (P : B → Type κ) (r : Reply) {x y z : B}
    → P x
    → P y
    → P z
    → P (elim r [ broken ↦ x | refused ↦ y | applied ↦ z ])
reply-all P broken px py pz = px
reply-all P refused px py pz = py
reply-all P applied px py pz = pz

module _ (format : ℕ → String) (distinct : (i j : ℕ) → format i ≡ format j → i ≡ j)
    (key_of : String → String) (encode : Record → Option String) (decode : String → Option Record)
    (encode_time : ℕ → Option String) (decode_time : String → Option ℕ) where
  module _ (call : HintCall) where
    -- A step for one harness leaves the cooldowns of the others; with a hint, its own is a week.
    pub record IsStep (name : String) (setup : Setup) (r : Hinted (VersionedStore format))
        : Type 0 where
      pub others :
          (other : String)
          → str_eq name other ≡ false
          → lookup other r.setup.cooldown ≡ lookup other setup.cooldown
      pub given : (r.id ≡ "") ⊎ (lookup name r.setup.cooldown ≡ some (call.now + week))

    cooldown-add_hint :
        (name id : String) (s : VersionedStore format) (setup : Setup)
        → (add_hint format distinct key_of encode decode encode_time decode_time call name id s
            setup).setup.cooldown
          ≡ setup.cooldown
    unfolding add_hint
    cooldown-add_hint name id s setup =
        ground (arith, cooldown-remember_setup_seen call.conversation setup)

    lookup-cool :
        (name other : String) (t : ℕ) (setup : Setup)
        → lookup other (cool name t setup).cooldown
          ≡ (if str_eq name other then some t else lookup other setup.cooldown)
    lookup-cool name other t setup = lookup-insert name other t setup.cooldown

    end_with-IsStep :
        (name : String) (e : Option Error) (s : VersionedStore format) (setup : Setup)
        → IsStep name setup
            (end_with format distinct key_of encode decode encode_time decode_time call e s setup)
    end_with-IsStep name e s setup = record { others = λ other apart. refl; given = inl refl }

    add_hint-IsStep :
        (name id : String) (s : VersionedStore format) (setup : Setup)
        → IsStep name setup (
            add_hint format distinct key_of encode decode encode_time decode_time call name id s
              (cool name (call.now + week) setup))
    add_hint-IsStep name id s setup =
        let same = cooldown-add_hint name id s (cool name (call.now + week) setup) in
        record {
          others = λ other apart.
              ground (arith, apart, same, lookup-cool name other (call.now + week) setup);
          given = inr (
              ground
                (arith, same, eq_iff name name, lookup-cool name name (call.now + week) setup));
        }

    claim_cooldown-IsStep :
        (name id : String) (expected : Option String) (s : VersionedStore format) (setup : Setup)
        → IsStep name setup (
            claim_cooldown format distinct key_of encode decode encode_time decode_time call name id
              expected s setup)
    unfolding claim_cooldown
    claim_cooldown-IsStep name id expected s setup =
        option-both (IsStep name setup) (encode_time call.now)
          (end_with-IsStep name (some (invalid "encode")) s setup)
          (λ text.
            let (s', reply) =
              write_if format (str_append "setup-cooldown/" name) text expected
                (after_calls format call.before_claim s) in
            reply-all (IsStep name setup) reply
              (end_with-IsStep name (some (invalid "state")) s' setup)
              (end_with-IsStep name none s' setup) (add_hint-IsStep name id s' setup))

    cool-IsStep :
        (name : String) (t : ℕ) (setup : Setup) (r : Hinted (VersionedStore format))
        → IsStep name (cool name t setup) r
        → IsStep name setup r
    cool-IsStep name t setup r step = record {
      others = λ other apart.
          step.others other apart ∙ ground (arith, apart, lookup-cool name other t setup);
      given = step.given;
    }

    check_cooldown-IsStep :
        (name id : String) (f : Fetched String) (s : VersionedStore format) (setup : Setup)
        → IsStep name setup (
            check_cooldown format distinct key_of encode decode encode_time decode_time call name id
              f s setup)
    unfolding check_cooldown
    check_cooldown-IsStep name id failed s setup =
        end_with-IsStep name (some (invalid "state")) s setup
    check_cooldown-IsStep name id missing s setup = claim_cooldown-IsStep name id none s setup
    check_cooldown-IsStep name id (found text version) s setup =
        option-both (IsStep name setup) (decode_time text)
          (end_with-IsStep name (some (invalid "decode setup cooldown")) s setup)
          (λ previous.
            if-both (IsStep name setup) (ltb call.now (previous + week))
              (λ early.
                cool-IsStep name (previous + week) setup _
                  (end_with-IsStep name none s (cool name (previous + week) setup)))
              (λ late. claim_cooldown-IsStep name id (some version) s setup))

    after_read-IsStep :
        (name : String) (r : Read String) (s : VersionedStore format) (setup : Setup)
        → IsStep name setup (
            after_read format distinct key_of encode decode encode_time decode_time call name r s
              setup)
    unfolding after_read
    after_read-IsStep name (unreadable e) s setup = end_with-IsStep name (some e) s setup
    after_read-IsStep name (current r expected) s setup =
        if-both (IsStep name setup) r.setup_hint_seen
          (λ already. record {
            others = λ other apart.
                ap (lookup other) (cooldown-remember_setup_seen call.conversation setup);
            given = inl refl;
          })
          (λ unseen.
            option-both (IsStep name setup) call.random_id
              (end_with-IsStep name (some (invalid "random")) s setup)
              (λ id.
                let s' = after_calls format call.before_fetch s in
                check_cooldown-IsStep name id (fetch format (str_append "setup-cooldown/" name) s')
                  s' setup))

    pub setup_hint-IsStep :
        (name : String) (s : VersionedStore format) (setup : Setup)
        → harness_name call.source ≡ some name
        → IsStep name setup
            (setup_hint format distinct key_of encode decode encode_time decode_time call s setup)
    unfolding setup_hint
    setup_hint-IsStep name s setup known =
        rw (known, setup_hint)
          (if-both (IsStep name setup)
            (is_seen (lookup call.conversation setup.seen)
              || is_before call.now (lookup name setup.cooldown))
            (λ early. end_with-IsStep name none s setup)
            (λ due. cool-IsStep name (call.now + minute) setup _ (
              after_read-IsStep name
                (read (on_store format (key_of call.conversation) distinct) encode decode
                  call.conversation s)
                s (cool name (call.now + minute) setup))))

    -- A call for a harness that is cooling down does nothing.
    pub setup_hint-cooling :
        (name : String) (t : ℕ) (s : VersionedStore format) (setup : Setup)
        → harness_name call.source ≡ some name
        → lookup name setup.cooldown ≡ some t
        → call.now < t
        → setup_hint format distinct key_of encode decode encode_time decode_time call s setup
          ≡ end_with format distinct key_of encode decode encode_time decode_time call none s setup
    unfolding setup_hint
    setup_hint-cooling name t s setup known cooling early = ground (arith, known, cooling, early)

    pub setup_hint-unknown :
        (s : VersionedStore format) (setup : Setup)
        → harness_name call.source ≡ none
        → setup_hint format distinct key_of encode decode encode_time decode_time call s setup
          ≡ end_with format distinct key_of encode decode encode_time decode_time call none s setup
    unfolding setup_hint
    setup_hint-unknown s setup unknown = ground (arith, unknown)
