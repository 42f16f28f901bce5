-- ===== src/Suggest/Hint.antt =====
-- The change of a conversation's record that internal/suggest/setup.go makes for a setup hint, with the
-- suggestion that it adds once.
use Prim.Native.String.{String, ◌++◌ as str_append}
use text.Mathlib.Text.{◌==◌ as str_eq}
use torana_edge.Prelude.{
  ℕ, List, [], ◌∷◌, ◌++◌, Bool, true, false, Option, none, if◌then◌else◌, leb, length,
}
use torana_edge.PluginState.Entries.{Op}
use torana_edge.Suggest.{Record, Suggestion, pending, default_expiry, max_records}
use torana_edge.Suggest.Creation.{Outcome, ok}

abbrev pub setup_body : String → String
setup_body name =
    if str_eq name "antigravity"
    then "Connect Torana's MCP server to inspect plugins and propose changes from your harness. See the Torana harness setup guide for generic stdio configuration."
    else str_append
        "Connect Torana's MCP server to inspect plugins and propose changes from your harness. Preview with torana harness setup "
        (str_append name " --dry-run, then run it without --dry-run to review and apply.")

-- One call: its arguments, the clock, the random identifier, and what others do before its reads of
-- the cooldown, its claim, and the writes and reads of its update.
pub record HintCall : Type 0 where
  pub conversation : String
  pub source : String
  pub turn : ℕ
  pub now : ℕ
  pub random_id : Option String
  pub before_fetch : List Op
  pub before_claim : List Op
  pub before_write : ℕ → List Op
  pub before_read : ℕ → List Op

abbrev pub setup_suggestion : HintCall → String → String → Suggestion
setup_suggestion call name id = record {
  id = id;
  code = "";
  plugin = "torana";
  conversation = call.conversation;
  kind = "torana_setup";
  dedupe_key = str_append "setup/" name;
  title = "Connect Torana to your harness";
  body = setup_body name;
  actions = record { id = "dismiss"; label = "Dismiss" } ∷ [];
  cost_usd = none;
  harness_target_model = "";
  created_at = call.now;
  created_turn = call.turn;
  expires_after_user_turns = default_expiry;
  status = pending;
  via = "";
  action = none;
  outcome = "";
  hook_announced = false;
}

-- The change of the conversation's record, with the variable `created` that it captures.
unfoldable pub hint_change :
    HintCall → String → String → String → Record → Outcome (Record × Bool × String)
hint_change call name id created r =
    if r.setup_hint_seen
    then ok (r, false, created)
    else let marked = record r { setup_hint_seen = true } in
      if leb max_records (length r.suggestions)
      then ok (marked, true, created)
      else ok (
        record marked { suggestions = r.suggestions ++ setup_suggestion call name id ∷ [] },
        true,
        id,
      )
