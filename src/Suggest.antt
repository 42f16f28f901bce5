-- ===== src/Suggest.antt =====
-- The suggestions of one conversation, as internal/suggest keeps them: the stored record of
-- store.go, operation.go and changes.go with the texts that only a few values are ever written to
-- as enumerations. Times are seconds; a price is its text, since it is only copied.
use Prim.Native.String.{String}
use torana_edge.Prelude.{ℕ, List, Bool, Option}
pub mod Records
pub mod Creation
pub mod Operations
pub mod Changes
pub mod Codes
pub mod NewCodes
pub mod Proposals
pub mod Calls
pub mod Spent
pub mod AfterClaim
pub mod Once
pub mod Update
pub mod Atomic
pub mod Reports
pub mod OnStore
pub mod Committed
pub mod Kept
pub mod Hint
pub mod Setup
pub mod HintSteps
pub mod Quiet

abbrev pub max_records : ℕ
max_records = 128

abbrev pub default_expiry : ℕ
default_expiry = 3

abbrev pub max_changes : ℕ
max_changes = 16

pub data Status : Type 0 where
  pending accepted dismissed expired superseded : Status

pub record Action : Type 0 where
  pub id : String
  pub label : String

pub record Suggestion : Type 0 where
  pub id : String
  pub code : String
  pub plugin : String
  pub conversation : String
  pub kind : String
  pub dedupe_key : String
  pub title : String
  pub body : String
  pub actions : List Action
  pub cost_usd : Option String
  pub harness_target_model : String
  pub created_at : ℕ
  pub created_turn : ℕ
  pub expires_after_user_turns : ℕ
  pub status : Status
  pub via : String
  pub action : Option Status
  pub outcome : String
  pub hook_announced : Bool

-- `applying` is the execution that is claimed.
pub record OperationRecord : Type 0 where
  pub sealed_intent : String
  pub expires_at : ℕ
  pub applying : Bool
  pub intent_digest : String

pub data ChangeStatus : Type 0 where
  prepared applied failed conflict undoing undone : ChangeStatus

pub record ChangeRecord : Type 0 where
  pub id : String
  pub status : ChangeStatus
  pub created_at : ℕ
  pub code : String
  pub sealed_undo : String
  pub revision : String

pub record Record : Type 0 where
  pub conversation : String
  pub user_turns : ℕ
  pub last_user_signature : String
  pub notice_disabled : Bool
  pub setup_hint_seen : Bool
  pub suggestions : List Suggestion
  pub operations : List (String × OperationRecord)
  pub changes : List (String × ChangeRecord)
  pub last_harness_model : String
  pub last_harness_switch_source : String

-- The errors that callers tell apart, and the texts of the others.
pub data Error : Type 0 where
  not_found state_conflict limit : Error
  invalid : String → Error
