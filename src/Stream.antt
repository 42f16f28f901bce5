-- ===== src/Stream.antt =====
-- Stream events as internal/plugin reads them: the arms of the plugin protocol's `StreamEvent`, with
-- the payload that the verifiers of streamverify.go and stream_enforce.go look at. The protocol's
-- types are of the plugin kit; a `oneof` that is not set is `unset`. An `int32` index is only ever
-- compared, and stands here as a natural number.
use Prim.Native.String.{String}
use torana_edge.Prelude.{ℕ, Option}
pub mod Discipline
pub mod Accepted
pub mod History
pub mod Tracking
pub mod Balance
pub mod Consume
pub mod ToolScopes
pub mod Minting
pub mod PassThrough
pub mod Cardinality
pub mod Content
pub mod Scan
pub mod Bindings
pub mod Verify
pub mod BindingMinting
pub mod Untouched
pub mod Scanned
pub mod Suppression
pub mod Assembled
pub mod ToolStarts
pub mod Deltas
pub mod Verified

pub data ToolInvocationKind : Type 0 where
  function freeform : ToolInvocationKind
  other : ℕ → ToolInvocationKind

pub record ToolCallRef : Type 0 where
  pub id : String
  pub name : String
  pub signature : String
  pub invocation_kind : ToolInvocationKind

pub data Block : Type 0 where
  text thinking provider unset : Block
  tool_call : ToolCallRef → Block

pub record ToolCallDelta : Type 0 where
  pub index : ℕ
  pub arguments_delta : String
  pub input_text_delta : Option String

pub data StreamEvent : Type 0 where
  error usage message_start message_stop unset : StreamEvent
  block_start : ℕ → Block → StreamEvent
  block_stop : ℕ → StreamEvent
  text_delta thinking_delta signature_delta : String → StreamEvent
  tool_call_delta : ToolCallDelta → StreamEvent
