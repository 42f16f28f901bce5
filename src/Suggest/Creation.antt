-- ===== src/Suggest/Creation.antt =====
-- `create` of internal/suggest/store.go: the closure that adds or refreshes a suggestion. Random
-- codes come from a function of the attempt, and the validation of the arguments, which is the
-- plugin kit's, has happened.
use Prim.Native.String.{String}
use text.Mathlib.Text.{◌==◌ as str_eq}
use torana_edge.Prelude.{
  ℕ, zero, suc, List, [], ◌∷◌, ◌++◌, Bool, true, false, ◌&&◌, ◌||◌, Option, none, some, length, leb,
  ◌==◌, if◌then◌else◌,
}
use torana_edge.Prelude.Assoc.{lookup, insert}
use torana_edge.Suggest.{
  pending, superseded, Action, Suggestion, OperationRecord, ChangeRecord, Record, Error, limit,
  state_conflict, max_records, default_expiry,
}
use torana_edge.Suggest.Records.{is_pending, is_accepted, expire}

pub record SuggestArgs : Type 0 where
  pub kind : String
  pub dedupe_key : String
  pub title : String
  pub body : String
  pub actions : List Action
  pub cost_usd : Option String
  pub harness_target_model : Option String
  pub expires_after_user_turns : ℕ

pub data Outcome {ℓ} (A : Type ℓ) : Type ℓ where
  ok : A → Outcome A
  err : Error → Outcome A

abbrev pub text_or_empty : Option String → String
text_or_empty none = ""
text_or_empty (some s) = s

unfoldable pub same_actions : List Action → List Action → Bool
same_actions [] [] = true
same_actions (a ∷ as') (b ∷ bs) = str_eq a.id b.id && str_eq a.label b.label && same_actions as' bs
same_actions _ _ = false

unfoldable pub same_suggestion_intent : Suggestion → SuggestArgs → Bool
unfolding same_actions
same_suggestion_intent item args =
    str_eq item.kind args.kind
    && str_eq item.harness_target_model (text_or_empty args.harness_target_model)
    && same_actions item.actions args.actions

-- The payloads that are kept belong to an item that is pending or accepted.
unfoldable pub is_kept : String → List Suggestion → Bool
is_kept id [] = false
is_kept id (item ∷ items) =
    (str_eq item.id id && (is_pending item.status || is_accepted item.status)) || is_kept id items

unfoldable pub prune_operations :
    List Suggestion → List (String × OperationRecord) → List (String × OperationRecord)
unfolding is_kept
prune_operations items [] = []
prune_operations items ((id, operation) ∷ operations) =
    let rest = prune_operations items operations in
    if is_kept id items then (id, operation) ∷ rest else rest

unfoldable pub prune_operation_payloads : Record → Record
unfolding prune_operations
prune_operation_payloads current = record current {
  operations = prune_operations current.suggestions current.operations;
}

abbrev pub digest_of : Option OperationRecord → String
digest_of none = ""
digest_of (some operation) = operation.intent_digest

abbrev pub same_digest :
    Option OperationRecord → List (String × OperationRecord) → Suggestion → Bool
same_digest none operations item = true
same_digest (some operation) operations item =
    str_eq (digest_of (lookup item.id operations)) operation.intent_digest

-- The position of the live suggestion that the arguments repeat.
unfoldable pub find_refresh :
    String
    → SuggestArgs
    → Option OperationRecord
    → List (String × OperationRecord)
    → ℕ
    → List Suggestion
    → Option ℕ
unfolding same_suggestion_intent
find_refresh plugin args operation operations i [] = none
find_refresh plugin args operation operations i (item ∷ items) =
    if same_digest operation operations item
      && is_pending item.status
      && str_eq item.plugin plugin
      && str_eq item.dedupe_key args.dedupe_key
      && same_suggestion_intent item args
    then some i
    else find_refresh plugin args operation operations (suc i) items

abbrev pub same_scope : Option OperationRecord → Suggestion → SuggestArgs → Bool
same_scope none item args = true
same_scope (some operation) item args = str_eq item.dedupe_key args.dedupe_key

-- Whether a suggestion gives way to the one that is created.
unfoldable pub gives_way : String → SuggestArgs → Option OperationRecord → Suggestion → Bool
gives_way plugin args operation item =
    is_pending item.status && str_eq item.plugin plugin && same_scope operation item args

abbrev pub expiry_of : SuggestArgs → ℕ
expiry_of args =
    if args.expires_after_user_turns == 0 then default_expiry else args.expires_after_user_turns

abbrev pub refreshed : ℕ → SuggestArgs → Suggestion → Suggestion
refreshed turn args item = record item {
  title = args.title;
  body = args.body;
  cost_usd = args.cost_usd;
  created_turn = turn;
  expires_after_user_turns = expiry_of args;
}

-- The loop that marks what gives way.
unfoldable pub supersede_all :
    String → SuggestArgs → Option OperationRecord → List Suggestion → List Suggestion
unfolding gives_way
supersede_all plugin args operation [] = []
supersede_all plugin args operation (item ∷ items) =
    (if gives_way plugin args operation item then record item { status = superseded } else item)
    ∷ supersede_all plugin args operation items

-- The loop of the refresh: the item at the position is renewed, the others give way.
unfoldable pub refresh_at :
    String → SuggestArgs → Option OperationRecord → ℕ → ℕ → List Suggestion → List Suggestion
unfolding gives_way supersede_all
refresh_at plugin args operation turn i [] = []
refresh_at plugin args operation turn zero (item ∷ items) =
    refreshed turn args item ∷ supersede_all plugin args operation items
refresh_at plugin args operation turn (suc i) (item ∷ items) =
    (if gives_way plugin args operation item then record item { status = superseded } else item)
    ∷ refresh_at plugin args operation turn i items

unfoldable pub suggestion_codes : List Suggestion → List String
suggestion_codes [] = []
suggestion_codes (item ∷ items) = item.code ∷ suggestion_codes items

unfoldable pub change_codes : List (String × ChangeRecord) → List String
change_codes [] = []
change_codes ((_, change) ∷ changes) = change.code ∷ change_codes changes

unfoldable pub is_used : String → List String → Bool
is_used code [] = false
is_used code (c ∷ cs) = str_eq c code || is_used code cs

-- The sixteen attempts at a code that is not used.
unfoldable pub pick_code : (ℕ → String) → List String → ℕ → ℕ → Option String
unfolding is_used
pick_code candidate used attempt zero = none
pick_code candidate used attempt (suc left) =
    if is_used (candidate attempt) used
    then pick_code candidate used (suc attempt) left
    else some (candidate attempt)

-- The suggestions that stay when the record is full.
unfoldable pub keep_live : List (String × OperationRecord) → List Suggestion → List Suggestion
keep_live operations [] = []
keep_live operations (item ∷ items) =
    let rest = keep_live operations items in
    elim (lookup item.id operations) [
      | none ↦ if is_pending item.status then item ∷ rest else rest
      | some operation ↦
          if is_pending item.status || is_accepted item.status then item ∷ rest else rest
    ]

unfoldable pub make_room : List (String × OperationRecord) → List Suggestion → List Suggestion
unfolding keep_live
make_room operations items =
    if leb max_records (length items) then keep_live operations items else items

abbrev pub put_operation :
    String
    → Option OperationRecord
    → List (String × OperationRecord)
    → List (String × OperationRecord)
put_operation id none operations = operations
put_operation id (some operation) operations = insert id operation operations

abbrev pub new_suggestion : String → String → String → String → SuggestArgs → ℕ → ℕ → Suggestion
new_suggestion id code plugin conversation args now turn = record {
  id = id;
  code = code;
  plugin = plugin;
  conversation = conversation;
  kind = args.kind;
  dedupe_key = args.dedupe_key;
  title = args.title;
  body = args.body;
  actions = args.actions;
  cost_usd = args.cost_usd;
  harness_target_model = text_or_empty args.harness_target_model;
  created_at = now;
  created_turn = turn;
  expires_after_user_turns = expiry_of args;
  status = pending;
  via = "";
  action = none;
  outcome = "";
  hook_announced = false;
}

abbrev pub id_at : ℕ → List Suggestion → String
id_at i [] = ""
id_at zero (item ∷ items) = item.id
id_at (suc i) (item ∷ items) = id_at i items

-- The branch that adds a new suggestion to a record that is expired and pruned.
unfoldable pub add_suggestion :
    (ℕ → String)
    → String
    → String
    → String
    → SuggestArgs
    → Option OperationRecord
    → ℕ
    → ℕ
    → Record
    → Outcome (Record × String)
add_suggestion candidate id conversation plugin args operation now turn current =
    let used = change_codes current.changes ++ suggestion_codes current.suggestions in
    let kept =
      make_room current.operations (supersede_all plugin args operation current.suggestions) in
    if leb max_records (length kept) then err limit else elim (pick_code candidate used 0 16) [
      | none ↦ err state_conflict
      | some code ↦ ok (
        prune_operation_payloads (record current {
          suggestions = kept ++ new_suggestion id code plugin conversation args now turn ∷ [];
          operations = put_operation id operation current.operations;
        }),
        id,
      )
    ]

unfoldable pub refresh_suggestion :
    ℕ → String → SuggestArgs → Option OperationRecord → ℕ → Record → Record × String
unfolding refresh_at
refresh_suggestion i plugin args operation turn current =
    let id = id_at i current.suggestions in
    (
      record current {
        suggestions = refresh_at plugin args operation turn i current.suggestions;
        operations = put_operation id operation current.operations;
      },
      id,
    )

unfoldable pub create :
    (ℕ → String)
    → String
    → String
    → String
    → SuggestArgs
    → Option OperationRecord
    → ℕ
    → ℕ
    → Record
    → Outcome (Record × String)
create candidate id conversation plugin args operation now turn current =
    let fresh = prune_operation_payloads (expire now turn current).0 in
    elim (find_refresh plugin args operation fresh.operations 0 fresh.suggestions) [
      | some i ↦ ok (refresh_suggestion i plugin args operation turn fresh)
      | none ↦ add_suggestion candidate id conversation plugin args operation now turn fresh
    ]
