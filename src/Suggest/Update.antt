-- ===== src/Suggest/Update.antt =====
-- `read` and `update` of internal/suggest/store.go: a read of the stored record, a change of it, and
-- a conditional write, at most eight times. The store is an interface, as in the source, at the one
-- key of the conversation; the JSON codec is a parameter. Other callers may act before each write
-- and before each new read.
use Prim.Native.String.{String}
use text.Mathlib.Text.{◌==◌ as str_eq}
use torana_edge.Prelude.{
  ℕ, zero, suc, ◌≡◌, [], Bool, true, false, Option, none, some, if◌then◌else◌, ◌≢◌,
}
use torana_edge.Suggest.{Record, Error, state_conflict, invalid}
use torana_edge.Suggest.Creation.{Outcome, ok, err}

pub data Fetched (Version : Type 0) : Type 0 where
  failed missing : Fetched Version
  found : String → Version → Fetched Version

pub data Reply : Type 0 where
  applied refused broken : Reply

-- `GetVersioned` and `CompareAndSet` at one key, and what callers rely on: a write is applied to
-- what the caller saw or not at all, and a version names one value for good.
pub record State : Type 1 where
  pub S : Type 0
  pub Version : Type 0
  pub get : S → Fetched Version
  pub cas : String → Option Version → S → S × Reply
  pub Later : S → S → Type 0
  pub stable :
      (s s' : S) (t t' : String) (v : Version)
      → Later s s'
      → get s ≡ found t v
      → get s' ≡ found t' v
      → t ≡ t'
  pub applied_to :
      (t : String) (v : Version) (s : S)
      → (cas t (some v) s).1 ≡ applied
      → (t' : String) × (get s ≡ found t' v)
  pub applied_new : (t : String) (s : S) → (cas t none s).1 ≡ applied → get s ≡ missing
  pub stored :
      (t : String) (e : Option Version) (s : S)
      → (cas t e s).1 ≡ applied
      → (v : Version) × (get (cas t e s).0 ≡ found t v)
  pub untouched :
      (t : String) (e : Option Version) (s : S) → (cas t e s).1 ≢ applied → (cas t e s).0 ≡ s

abbrev pub empty_record : String → Record
empty_record conversation = record {
  conversation = conversation;
  user_turns = 0;
  last_user_signature = "";
  notice_disabled = false;
  setup_hint_seen = false;
  suggestions = [];
  operations = [];
  changes = [];
  last_harness_model = "";
  last_harness_switch_source = "";
}

pub data Read (Version : Type 0) : Type 0 where
  unreadable : Error → Read Version
  current : Record → Option Version → Read Version

-- The end of a call, with the variables that its change captures, or another attempt.
pub data Attempt (S Captured : Type 0) : Type 0 where
  over : S → Captured → Option Error → Attempt S Captured
  again : S → Captured → Attempt S Captured

module _ (state : State) (encode : Record → Option String) (decode : String → Option Record)
    (conversation : String) where
  abbrev pub checked : Option Record → state.Version → Read state.Version
  checked none v = unreadable (invalid "decode suggestion state")
  checked (some r) v =
      if str_eq r.conversation conversation
      then current r (some v)
      else unreadable (invalid "suggestion conversation key collision")

  -- The record and the version that a conditional write expects.
  unfoldable pub read : state.S → Read state.Version
  read s =
      if str_eq conversation ""
      then unreadable (invalid "suggestion store and conversation are required")
      else elim (state.get s) [
        | failed ↦ unreadable (invalid "state")
        | missing ↦ current (empty_record conversation) none
        | found t v ↦ checked (decode t) v
      ]

  module _ {Captured : Type 0} (change : Captured → Record → Outcome (Record × Bool × Captured))
      (before_write before_read : ℕ → state.S → state.S) where
    unfoldable pub write_back :
        ℕ → Option String → Option state.Version → state.S → Captured → Attempt state.S Captured
    write_back left none expected s c = over s c (some (invalid "encode"))
    write_back left (some t) expected s c =
        let (s', reply) = state.cas t expected (before_write left s) in
        elim reply [
          | broken ↦ over s' c (some (invalid "state"))
          | applied ↦ over s' c none
          | refused ↦ again (before_read left s') c
        ]

    unfoldable pub change_read :
        ℕ
        → Outcome (Record × Bool × Captured)
        → Option state.Version
        → state.S
        → Captured
        → Attempt state.S Captured
    unfolding write_back
    change_read left (err e) expected s c = over s c (some e)
    change_read left (ok (r, false, c')) expected s c = over s c' none
    change_read left (ok (r, true, c')) expected s c = write_back left (encode r) expected s c'

    -- One round of the loop, with the number of rounds that are left after it.
    unfoldable pub attempt : ℕ → state.S → Captured → Attempt state.S Captured
    unfolding change_read
    attempt left s c = elim (read s) [
      | unreadable e ↦ over s c (some e)
      | current r expected ↦ change_read left (change c r) expected s c
    ]

    unfoldable pub update_loop : ℕ → state.S → Captured → state.S × Captured × Option Error
    unfolding attempt
    update_loop zero s c = (s, c, some state_conflict)
    update_loop (suc left) s c = elim (attempt left s c) [
      | over s' c' e ↦ (s', c', e)
      | again s' c' ↦ update_loop left s' c'
    ]

    unfoldable pub update : state.S → Captured → state.S × Captured × Option Error
    unfolding update_loop
    update s c = update_loop 8 s c
