-- ===== src/Tests/HintRuns.antt =====
-- The setup hints of internal/suggest/setup.go at one store: a hint, a call for another harness, and a
-- second call for the first harness.
use Prim.Native.String.{String}
use text.Mathlib.Text.{◌==◌ as str_eq}
use torana_edge.Prelude.{
  ℕ, ◌≡◌, ◌≢◌, refl, ◌∙◌, sym, ap, List, [], ◌∷◌, true, false, none, some, Option, arith,
}
use torana_edge.Prelude.Assoc.{lookup, insert, remove}
use torana_edge.PluginState.{
  get_versioned, compare_and_set, set, set_memory, write, mismatch, validate_write, entry_size,
}
use torana_edge.Suggest.Update.{update, update_loop, attempt, change_read, write_back, read}
use torana_edge.Suggest.Hint.{HintCall, hint_change}
use torana_edge.Suggest.Setup.{
  Setup, harness_name, remember_setup_seen, add_hint, end_with, claim_cooldown, check_cooldown,
  after_read, setup_hint,
}
use torana_edge.Suggest.Quiet.{hint_all, setup_hint-quiet}
use torana_edge.Tests.StateRuns.{tally, tally-distinct}
use torana_edge.Tests.UpdateRuns.{encode, decode}
use torana_edge.Tests.CommitRuns.{start}

abbrev key_of : String → String
key_of conversation = "k"

abbrev encode_time : ℕ → Option String
encode_time t = some "now"

abbrev decode_time : String → Option ℕ
decode_time t = none

abbrev hint_call : String → String → ℕ → HintCall
hint_call conversation source now = record {
  conversation = conversation;
  source = source;
  turn = 1;
  now = now;
  random_id = some "sg_2";
  before_fetch = [];
  before_claim = [];
  before_write = λ n. [];
  before_read = λ n. [];
}

abbrev fresh : Setup
fresh = record { cooldown = []; seen = [] }

hinted :
    (setup_hint tally tally-distinct key_of encode decode encode_time decode_time
      (hint_call "c" "codex-thread" 50)
      start
      fresh).id
    ≡ "sg_2"
unfolding setup_hint harness_name after_read check_cooldown claim_cooldown add_hint hint_change
    remember_setup_seen update update_loop attempt change_read write_back read lookup insert remove
    get_versioned compare_and_set set set_memory write mismatch validate_write entry_size
hinted = refl

nonempty : (x : String) → x ≡ "sg_2" → x ≢ ""
nonempty x h e =
    let impossible : false ≡ true = ap (λ y. str_eq y "") (sym h ∙ e) in absurd (ground arith)

abbrev between : List HintCall
between = hint_call "d" "gemini-code-assist-session" 60 ∷ hint_call "e" "other" 70 ∷ []

setup_hint-quiet_example :
    setup_hint tally tally-distinct key_of encode decode encode_time decode_time
      (hint_call "e" "codex-session" 604000)
      (hint_all tally tally-distinct key_of encode decode encode_time decode_time
        (hint_call "c" "codex-thread" 50 ∷ between)
        start
        fresh).0
      (hint_all tally tally-distinct key_of encode decode encode_time decode_time
        (hint_call "c" "codex-thread" 50 ∷ between)
        start
        fresh).1
    ≡ end_with tally tally-distinct key_of encode decode encode_time decode_time
        (hint_call "e" "codex-session" 604000)
        none
        (hint_all tally tally-distinct key_of encode decode encode_time decode_time
          (hint_call "c" "codex-thread" 50 ∷ between)
          start
          fresh).0
        (hint_all tally tally-distinct key_of encode decode encode_time decode_time
          (hint_call "c" "codex-thread" 50 ∷ between)
          start
          fresh).1
unfolding harness_name
setup_hint-quiet_example =
    setup_hint-quiet tally tally-distinct key_of encode decode encode_time decode_time
      (hint_call "c" "codex-thread" 50) (hint_call "e" "codex-session" 604000) between "codex" start
      fresh refl refl (nonempty _ hinted) (omega arith, (omega arith, tt)) (omega arith)
