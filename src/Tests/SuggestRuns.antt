-- ===== src/Tests/SuggestRuns.antt =====
-- internal/suggest on a small record.
use Prim.Native.String.{String}
use torana_edge.Prelude.{◌≡◌, refl, List, [], ◌∷◌, none, some, true, false, ℕ, zero, suc, arith}
use torana_edge.Prelude.Assoc.{lookup, insert}
use torana_edge.Suggest.{Suggestion, Record, accepted, not_found}
use torana_edge.Suggest.Records.{expire, expire_items, runs_out}
use torana_edge.Suggest.Creation.{
  SuggestArgs, ok, err, create, new_suggestion, prune_operation_payloads, prune_operations, is_kept,
  find_refresh, add_suggestion, make_room, supersede_all, gives_way, pick_code, is_used,
  change_codes, suggestion_codes, same_suggestion_intent,
}
use torana_edge.Suggest.Operations.{
  claim_operation, claimable, has_accepted, start_applying, OperationOutcome,
}
use torana_edge.Suggest.Changes.{prepare_operation_change}
use torana_edge.Suggest.Calls.{Call, apply_all, finish, claim, user_turn}
use torana_edge.Suggest.Once.{claim_operation-once}
use torana_edge.Suggest.Codes.{IsOrderly}
use torana_edge.Suggest.NewCodes.{is_fair, create-IsOrderly}

abbrev switch_model : Suggestion
switch_model = record {
  id = "sg_1";
  code = "k7mn";
  plugin = "torana";
  conversation = "c";
  kind = "torana_routing";
  dedupe_key = "route";
  title = "Use the small model";
  body = "";
  actions = [];
  cost_usd = none;
  harness_target_model = "";
  created_at = 10;
  created_turn = 1;
  expires_after_user_turns = 3;
  status = accepted;
  via = "control_plane";
  action = some accepted;
  outcome = "";
  hook_announced = false;
}

abbrev one_accepted : Record
one_accepted = record {
  conversation = "c";
  user_turns = 1;
  last_user_signature = "a";
  notice_disabled = false;
  setup_hint_seen = false;
  suggestions = switch_model ∷ [];
  operations =
      (
        "sg_1",
        record {
          sealed_intent = "sealed";
          expires_at = 900;
          applying = false;
          intent_digest = "d";
        },
      )
      ∷ [];
  changes = [];
  last_harness_model = "";
  last_harness_switch_source = "";
}

abbrev claimed : Record
claimed = record one_accepted {
  operations =
      (
        "sg_1",
        record { sealed_intent = "sealed"; expires_at = 900; applying = true; intent_digest = "d" },
      )
      ∷ [];
}

claimed_once : claim_operation "sg_1" 20 one_accepted ≡ ok (claimed, "sealed")
unfolding claim_operation claimable has_accepted lookup insert start_applying
claimed_once = refl

-- The operation ends, a second claim is tried, and the user goes on.
abbrev later_calls : List Call
later_calls = finish "sg_1" OperationOutcome.applied ∷ claim "sg_1" 30 ∷ user_turn "b" ∷ []

claim_operation-once_example :
    (claim_operation "sg_1" 40 (apply_all later_calls claimed) ≡ err not_found)
    × ((undo_text revision : String)
        → prepare_operation_change "sg_1" undo_text revision 40 (apply_all later_calls claimed)
          ≡ err not_found)
claim_operation-once_example =
    claim_operation-once "sg_1" "sealed" 20 40 one_accepted claimed later_calls refl (omega arith)
      claimed_once (tt, (tt, (tt, tt)))

abbrev advice_args : SuggestArgs
advice_args = record {
  kind = "model";
  dedupe_key = "route";
  title = "Use the small model";
  body = "";
  actions = [];
  cost_usd = none;
  harness_target_model = none;
  expires_after_user_turns = 0;
}

-- The first candidate is a code in use.
abbrev codes_to_try : ℕ → String
codes_to_try zero = "k7mn"
codes_to_try (suc n) = "abcd"

abbrev with_advice : Record
with_advice = record one_accepted {
  suggestions = switch_model ∷ new_suggestion "sg_2" "abcd" "router" "c" advice_args 20 1 ∷ [];
}

advice_created :
    create codes_to_try "sg_2" "c" "router" advice_args none 20 1 one_accepted
    ≡ ok (with_advice, "sg_2")
unfolding create expire expire_items runs_out lookup insert prune_operation_payloads
    prune_operations is_kept find_refresh add_suggestion make_room supersede_all gives_way pick_code
    is_used change_codes suggestion_codes same_suggestion_intent
advice_created = refl

one_accepted-IsOrderly : IsOrderly one_accepted
unfolding suggestion_codes is_used
one_accepted-IsOrderly = record { apart = refl; sized = omega arith }

create-IsOrderly_example :
    IsOrderly with_advice × ((c : String) → is_fair one_accepted with_advice c ≡ true)
create-IsOrderly_example =
    create-IsOrderly codes_to_try "sg_2" "c" "router" advice_args none 20 1 one_accepted with_advice
      "sg_2" one_accepted-IsOrderly advice_created
