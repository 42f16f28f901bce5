-- ===== src/Stream/Verify.antt =====
-- `verifyStream` and `verifyStreamPrefix` of internal/plugin/streamverify.go: the accepted stream is
-- judged, both streams are scanned, and the two kinds of signatures are verified in turn.
use Prim.Native.String.{String}
use torana_edge.Prelude.{List, Bool, false, Option, none, some}
use torana_edge.Stream.{StreamEvent}
use torana_edge.Stream.Discipline.{Fault, new_walker, walk_all}
use torana_edge.Stream.Accepted.{validate_accepted_stream}
use torana_edge.Stream.ToolScopes.{ToolFault, verify_tool_scopes}
use torana_edge.Stream.Scan.{scan_stream_signatures}
use torana_edge.Stream.Bindings.{BindingFault, verify_signature_delta_bindings}

-- `accepted` is the host's own defect, the others are the plugin's.
pub data StreamFault (Class : Type 0) : Type 0 where
  accepted_stream : Fault → StreamFault Class
  tool_signature : ToolFault Class → StreamFault Class
  delta_signature : BindingFault → StreamFault Class

-- A missing lookup holds no grant.
abbrev pub grants : Option (String → Bool) → String → Bool
grants none name = false
grants (some can_write) name = can_write name

module _ {Class : Type 0} (classify : String → String → Bool → Class) (allowed : Class → Bool) where
  -- What follows the check of the accepted side in both.
  unfoldable pub verify_signatures :
      List StreamEvent → List StreamEvent → (String → Bool) → Option (StreamFault Class)
  unfolding verify_tool_scopes verify_signature_delta_bindings scan_stream_signatures
  verify_signatures accepted returned can_write =
      let av = scan_stream_signatures accepted in
      let rv = scan_stream_signatures returned in
      elim (verify_tool_scopes classify allowed av.tool_scopes rv.tool_scopes can_write) [
        | some f ↦ some (tool_signature f)
        | none ↦ elim (verify_signature_delta_bindings av rv can_write) [
          | some f ↦ some (delta_signature f)
          | none ↦ none
        ]
      ]

  unfoldable pub verify_stream :
      List StreamEvent → List StreamEvent → Option (String → Bool) → Option (StreamFault Class)
  unfolding verify_signatures
  verify_stream accepted returned can_write = elim (validate_accepted_stream accepted) [
    | some f ↦ some (accepted_stream f)
    | none ↦ verify_signatures accepted returned (grants can_write)
  ]

  unfoldable pub verify_stream_prefix :
      List StreamEvent → List StreamEvent → Option (String → Bool) → Option (StreamFault Class)
  unfolding verify_signatures
  verify_stream_prefix accepted returned can_write = elim (walk_all accepted new_walker).1 [
    | some f ↦ some (accepted_stream f)
    | none ↦ verify_signatures accepted returned (grants can_write)
  ]
