-- ===== src/Suggest/Setup.antt =====
-- The setup hints of internal/suggest/setup.go: which harness a request came from, and the cooldowns in
-- memory and in the plugin state. Times are seconds; the JSON codecs and the random identifier are parameters, and others may use the
-- store before each access.
use Prim.Native.String.{String, ◌++◌ as str_append}
use text.Mathlib.Text.{◌==◌ as str_eq}
use torana_edge.Prelude.{
  ℕ, ◌+◌, ◌≡◌, List, [], Bool, true, false, ◌||◌, Option, none, some, if◌then◌else◌, ltb, leb,
  length,
}
use torana_edge.Prelude.Assoc.{lookup, insert}
use torana_edge.Suggest.{Record, Error, invalid}
use torana_edge.Suggest.Update.{
  Read, unreadable, current, Fetched, failed, missing, found, applied, refused, broken, read,
  update,
}
use torana_edge.Suggest.Hint.{HintCall, hint_change}
use torana_edge.Suggest.OnStore.{VersionedStore, after_calls, fetch, write_if, on_store}

unfoldable pub harness_name : String → Option String
harness_name source =
    if str_eq source "claude-code-session"
    then some "claude-code"
    else if str_eq source "codex-thread"
        || str_eq source "codex-session"
        || str_eq source "codex-client-thread"
    then some "codex"
    else if str_eq source "gemini-code-assist-session"
    then some "antigravity"
    else none

abbrev pub minute : ℕ
minute = 60

abbrev pub week : ℕ
week = 604800

-- The fields `setupCooldown` and `setupSeen` of the store.
pub record Setup : Type 0 where
  pub cooldown : List (String × ℕ)
  pub seen : List (String × Bool)

-- `now.Before(cooldown[name])`, where a name that is missing has the zero time.
abbrev pub is_before : ℕ → Option ℕ → Bool
is_before now none = false
is_before now (some t) = ltb now t

abbrev pub is_seen : Option Bool → Bool
is_seen none = false
is_seen (some b) = b

abbrev pub cool : String → ℕ → Setup → Setup
cool name t setup = record setup { cooldown = insert name t setup.cooldown }

unfoldable pub remember_setup_seen : String → Setup → Setup
remember_setup_seen conversation setup =
    let kept = if leb 4096 (length setup.seen) then [] else setup.seen in
    record setup { seen = insert conversation true kept }

-- The store after a call, the fields after it, and what it returns: the identifier of the hint, or
-- the empty text, and the error.
pub record Hinted (Store : Type 0) : Type 0 where
  pub store : Store
  pub setup : Setup
  pub id : String
  pub error : Option Error

module _ (format : ℕ → String) (distinct : (i j : ℕ) → format i ≡ format j → i ≡ j)
    (key_of : String → String) (encode : Record → Option String) (decode : String → Option Record)
    (encode_time : ℕ → Option String) (decode_time : String → Option ℕ) (call : HintCall) where
  -- The update of the conversation's record, when the cooldown is claimed.
  unfoldable pub add_hint :
      String → String → VersionedStore format → Setup → Hinted (VersionedStore format)
  add_hint name id s setup =
      let (s', created, e) =
        update (on_store format (key_of call.conversation) distinct) encode decode call.conversation
          (hint_change call name id) (λ n. after_calls format (call.before_write n))
          (λ n. after_calls format (call.before_read n)) s "" in
      record {
        store = s';
        setup = elim e [ none ↦ remember_setup_seen call.conversation setup | some x ↦ setup ];
        id = created;
        error = e;
      }

  abbrev pub end_with :
      Option Error → VersionedStore format → Setup → Hinted (VersionedStore format)
  end_with e s setup = record { store = s; setup = setup; id = ""; error = e }

  unfoldable pub claim_cooldown :
      String
      → String
      → Option String
      → VersionedStore format
      → Setup
      → Hinted (VersionedStore format)
  claim_cooldown name id expected s setup = elim (encode_time call.now) [
    | none ↦ end_with (some (invalid "encode")) s setup
    | some text ↦
        let (s', reply) =
          write_if format (str_append "setup-cooldown/" name) text expected
            (after_calls format call.before_claim s) in
        elim reply [
          | broken ↦ end_with (some (invalid "state")) s' setup
          | refused ↦ end_with none s' setup
          | applied ↦ add_hint name id s' (cool name (call.now + week) setup)
        ]
  ]

  unfoldable pub check_cooldown :
      String
      → String
      → Fetched String
      → VersionedStore format
      → Setup
      → Hinted (VersionedStore format)
  check_cooldown name id failed s setup = end_with (some (invalid "state")) s setup
  check_cooldown name id missing s setup = claim_cooldown name id none s setup
  check_cooldown name id (found text version) s setup = elim (decode_time text) [
    | none ↦ end_with (some (invalid "decode setup cooldown")) s setup
    | some previous ↦
        if ltb call.now (previous + week)
        then end_with none s (cool name (previous + week) setup)
        else claim_cooldown name id (some version) s setup
  ]

  unfoldable pub after_read :
      String → Read String → VersionedStore format → Setup → Hinted (VersionedStore format)
  after_read name (unreadable e) s setup = end_with (some e) s setup
  after_read name (current r expected) s setup =
      if r.setup_hint_seen
      then end_with none s (remember_setup_seen call.conversation setup)
      else elim call.random_id [
        | none ↦ end_with (some (invalid "random")) s setup
        | some id ↦
            let s' = after_calls format call.before_fetch s in
            check_cooldown name id (fetch format (str_append "setup-cooldown/" name) s') s' setup
      ]

  unfoldable pub setup_hint : VersionedStore format → Setup → Hinted (VersionedStore format)
  setup_hint s setup = elim (harness_name call.source) [
    | none ↦ end_with none s setup
    | some name ↦
        if is_seen (lookup call.conversation setup.seen)
          || is_before call.now (lookup name setup.cooldown)
        then end_with none s setup
        else after_read name
            (read (on_store format (key_of call.conversation) distinct) encode decode
              call.conversation s)
            s (cool name (call.now + minute) setup)
  ]
