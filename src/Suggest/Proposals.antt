-- ===== src/Suggest/Proposals.antt =====
-- What stands before `create` in internal/suggest/store.go and operation.go, and the listings of a
-- record. The kit's validation of arguments is a parameter, and `now` the clock.
use Prim.Native.String.{String, len, compare}
use Prim.Native.Nat.{lt}
use text.Mathlib.Text.{◌==◌ as str_eq, starts_with}
use torana_edge.Prelude.{
  ℕ, ◌*◌, List, [], ◌∷◌, Bool, true, false, ◌||◌, not, Option, none, some, ◌==◌, leb, ltb,
  if◌then◌else◌,
}
use torana_edge.Suggest.{OperationRecord, ChangeStatus, ChangeRecord, Record, invalid}
use torana_edge.Suggest.Creation.{SuggestArgs, Outcome, err, create}

pub record OperationProposal : Type 0 where
  pub intent_key : String
  pub intent_digest : String
  pub title : String
  pub body : String
  pub sealed_intent : String
  pub expires_at : ℕ

module _ (validate : SuggestArgs → Bool) (candidate : ℕ → String) (id conversation : String)
    (now turn : ℕ) where
  -- `create` with its checks of the arguments.
  unfoldable pub create_checked :
      String → SuggestArgs → Option OperationRecord → Record → Outcome (Record × String)
  create_checked plugin args operation current =
      if str_eq plugin ""
      then err (invalid "plugin and suggestion are required")
      else if not (validate args)
      then err (invalid "arguments")
      else create candidate id conversation plugin args operation now turn current

  -- `Create`, which plugins call.
  unfoldable pub create_for_plugin : String → SuggestArgs → Record → Outcome (Record × String)
  unfolding create_checked
  create_for_plugin plugin args current =
      if str_eq plugin "torana" || starts_with args.kind "torana_"
      then err (invalid "host suggestion kinds are reserved")
      else create_checked plugin args none current

  unfoldable pub create_operation : OperationProposal → Record → Outcome (Record × String)
  unfolding create_checked
  create_operation proposal current =
      if str_eq proposal.intent_digest ""
        || ltb 128 (len proposal.intent_digest)
        || not (starts_with proposal.sealed_intent "enc:")
        || ltb (128 * 1024) (len proposal.sealed_intent)
        || leb proposal.expires_at now
      then err (invalid "sealed operation intent and a future expiry are required")
      else create_checked "torana"
          (record {
            kind = "torana_operation";
            dedupe_key = proposal.intent_key;
            title = proposal.title;
            body = proposal.body;
            actions = [];
            cost_usd = none;
            harness_target_model = none;
            expires_after_user_turns = 100;
          })
          (some (record {
            sealed_intent = proposal.sealed_intent;
            expires_at = proposal.expires_at;
            applying = false;
            intent_digest = proposal.intent_digest;
          }))
          current

-- What a listing shows of a change.
pub record Change : Type 0 where
  pub id : String
  pub status : ChangeStatus
  pub created_at : ℕ

abbrev is_less : String → String → Bool
is_less a b = elim (compare a b) [ lt ↦ true | _ ↦ false ]

abbrev comes_before : Change → Change → Bool
comes_before a b =
    if a.created_at == b.created_at then is_less a.id b.id else ltb a.created_at b.created_at

unfoldable pub insert_change : Change → List Change → List Change
insert_change c [] = c ∷ []
insert_change c (d ∷ ds) =
    let later = insert_change c ds in if comes_before d c then d ∷ later else c ∷ d ∷ ds

unfoldable pub list_changes : List (String × ChangeRecord) → List Change
unfolding insert_change
list_changes [] = []
list_changes ((key, change) ∷ changes) =
    insert_change
      (record { id = change.id; status = change.status; created_at = change.created_at })
      (list_changes changes)

unfoldable pub notices_disabled : Record → Bool
notices_disabled current = current.notice_disabled
