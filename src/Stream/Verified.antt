-- ===== src/Stream/Verified.antt =====
-- The two verifications of a returned stream together, as `verifyStream` of
-- internal/plugin/streamverify.go runs them.
use Prim.Native.String.{String}
use package.text.Mathlib.Text.{◌==◌ as str_eq}
use torana_edge.Prelude.{
  ◌≤◌, ◌≡◌, List, Bool, false, Option, none, arith, Option-cases, length, ◌&&◌,
}
use torana_edge.Stream.{StreamEvent}
use torana_edge.Stream.Discipline.{new_walker, walk_all}
use torana_edge.Stream.Accepted.{validate_accepted_stream, validate_accepted_stream-walk_all}
use torana_edge.Stream.Consume.{count}
use torana_edge.Stream.ToolScopes.{ToolCallScope, stream_write_grant, verify_tool_scopes}
use torana_edge.Stream.Minting.{copies}
use torana_edge.Stream.PassThrough.{verify_tool_scopes-copies}
use torana_edge.Stream.Content.{SigBinding, current, same_binding_kind}
use torana_edge.Stream.Scan.{scan_stream_signatures}
use torana_edge.Stream.Scanned.{has_unbound-scan_stream_signatures}
use torana_edge.Stream.Bindings.{same_occurrence, verify_kind, verify_signature_delta_bindings}
use torana_edge.Stream.BindingMinting.{count-of_kind}
use torana_edge.Stream.Untouched.{verify_signature_delta_bindings-kept}
use torana_edge.Stream.Suppression.{
  displaced, displaced-verify_kind, all_placed-scan_stream_signatures,
}
use torana_edge.Stream.Verify.{grants, verify_stream_prefix, verify_stream}

-- A stream that is accepted as a whole is taken event by event.
walked :
    (evs : List StreamEvent)
    → validate_accepted_stream evs ≡ none
    → (walk_all evs new_walker).1 ≡ none
walked evs h = ground (arith, validate_accepted_stream-walk_all evs)

module _ {Class : Type 0} (classify : String → String → Bool → Class) (allowed : Class → Bool) where
  -- A plugin that returns exactly the accepted stream's tool blocks, signed or not, in any order and at
  -- any index, and all its signature deltas over the same content at the same ordinals of spans,
  -- passes without any grant, provided that the accepted stream is well formed.
  pub verify_stream-kept :
      (accepted returned : List StreamEvent) (can_write : Option (String → Bool))
      → validate_accepted_stream accepted ≡ none
      → ((s : ToolCallScope)
          → copies s (scan_stream_signatures returned).tool_scopes
            ≡ copies s (scan_stream_signatures accepted).tool_scopes)
      → (scan_stream_signatures returned).bindings ≡ (scan_stream_signatures accepted).bindings
      → verify_stream classify allowed accepted returned can_write ≡ none
  unfolding verify_stream
  verify_stream-kept accepted returned can_write fine tools same =
      let av = scan_stream_signatures accepted in
      let rv = scan_stream_signatures returned in
      ground (
        arith,
        fine,
        verify_tool_scopes-copies classify allowed av.tool_scopes rv.tool_scopes (grants can_write)
            tools,
        verify_signature_delta_bindings-kept av rv (grants can_write) same
            (has_unbound-scan_stream_signatures accepted (walked accepted fine)),
      )

  passes :
      (accepted returned : List StreamEvent) (can_write : Option (String → Bool))
      → verify_stream classify allowed accepted returned can_write ≡ none
      → (validate_accepted_stream accepted ≡ none)
        × (verify_tool_scopes classify allowed
              (scan_stream_signatures accepted).tool_scopes
              (scan_stream_signatures returned).tool_scopes
              (grants can_write)
            ≡ none)
        × (verify_signature_delta_bindings
              (scan_stream_signatures accepted)
              (scan_stream_signatures returned)
              (grants can_write)
            ≡ none)
  unfolding verify_stream
  passes accepted returned can_write h =
      let av = scan_stream_signatures accepted in
      let rv = scan_stream_signatures returned in
      let fine : validate_accepted_stream accepted ≡ none =
        ground (arith, Option-cases (validate_accepted_stream accepted)) in
      let tools : verify_tool_scopes classify allowed av.tool_scopes rv.tool_scopes
            (grants can_write)
          ≡ none =
        ground (arith, fine) in
      (fine, tools, ground (arith, fine, tools))

  -- Without the stream grant, each token that is not empty keeps its place: the accepted occurrences
  -- of it, over given content, whose block no longer has a span at its ordinal are at most as many as
  -- the occurrences of it, over that content, in blocks of the returned stream.
  pub displaced-verify_stream :
      (accepted returned : List StreamEvent) (can_write : Option (String → Bool)) (s : SigBinding)
      → grants can_write stream_write_grant ≡ false
      → verify_stream classify allowed accepted returned can_write ≡ none
      → displaced
          (length (scan_stream_signatures returned).spans)
          s
          (scan_stream_signatures accepted).bindings
        ≤ count
            (λ a. same_binding_kind a.kind current && same_occurrence a s)
            (scan_stream_signatures returned).bindings
  unfolding verify_signature_delta_bindings
  displaced-verify_stream accepted returned can_write s no_grant h =
      let av = scan_stream_signatures accepted in
      let rv = scan_stream_signatures returned in
      let (fine, tools, deltas) = passes accepted returned can_write h in
      let first : verify_kind current av rv (grants can_write) ≡ none =
        ground (arith, deltas, Option-cases (verify_kind current av rv (grants can_write))) in
      omega (
        arith,
        displaced-verify_kind av rv (grants can_write) no_grant
            (all_placed-scan_stream_signatures returned) s first,
        count-of_kind current (λ a. same_occurrence a s) rv.bindings,
      )

  -- For an accepted stream that is complete, the check of a live prefix gives the same verdict.
  pub verify_stream-verify_stream_prefix :
      (accepted returned : List StreamEvent) (can_write : Option (String → Bool))
      → validate_accepted_stream accepted ≡ none
      → verify_stream classify allowed accepted returned can_write
        ≡ verify_stream_prefix classify allowed accepted returned can_write
  unfolding verify_stream verify_stream_prefix
  verify_stream-verify_stream_prefix accepted returned can_write fine =
      ground (arith, fine, walked accepted fine)
