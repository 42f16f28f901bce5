-- ===== src/Tests/VerifyRuns.antt =====
-- `scanStreamSignatures` and `verifyStream` of internal/plugin/streamverify.go on a turn with a
-- signed thought, a text and a signed call.
use Prim.Native.String.{String}
use torana_edge.Prelude.{
  ◌≡◌, ◌≤◌, ◌+◌, refl, List, [], ◌∷◌, none, some, true, false, ℕ, length, get_elem?, ◌&&◌,
}
use torana_edge.Stream.{
  function, StreamEvent, block_start, block_stop, tool_call, tool_call_delta, thinking, text_delta,
  thinking_delta, signature_delta,
}
use torana_edge.Stream.Discipline.{
  new_walker, walk_all, walk, walk_event, has_seen, lookup_tool, insert_tool, delete_tool,
  validate_stream_tool_delta_family,
}
use torana_edge.Stream.Accepted.{validate_accepted_stream}
use torana_edge.Stream.Consume.{exact_pass, consume_first, count}
use torana_edge.Stream.ToolScopes.{
  ToolCallScope, tool_call_scope_of, verify_tool_scopes, consume_at, correlate_all, correlate,
  is_exact, tool_call_covered_content_equal, tool_call_content_changed, suppressed, invent,
}
use torana_edge.Stream.Minting.{copies}
use torana_edge.Stream.Content.{
  current, equals, content_is_empty, content_same_kind, SigBinding, same_binding_kind,
}
use torana_edge.Stream.Scan.{
  scan_stream_signatures, find_builder, drop_builder, open_builder, write_builder,
}
use torana_edge.Stream.ToolStarts.{tool_starts, length-scan_stream_signatures}
use torana_edge.Stream.Deltas.{tokens, signature_tokens, bound-scan_stream_signatures}
use torana_edge.Stream.Assembled.{scan_stream_signatures-tool_call_scope_of}
use torana_edge.Stream.Bindings.{
  verify_kind, of_kind, unmatched, judge_unmatched, token_candidates, all_cover, survivors,
  count_spans, reserve, signed_ordinal, claim_twins, settle_all, settle, verify_unpaired_binding,
  unpaired_current, empty_tokens, has_unbound, verify_signature_delta_bindings, dropped, forged,
  suppressed_block, same_occurrence,
}
use torana_edge.Stream.Suppression.{displaced}
use torana_edge.Stream.Verify.{
  verify_stream, verify_stream_prefix, verify_signatures, delta_signature,
}
use torana_edge.Stream.Verified.{
  verify_stream-verify_stream_prefix, verify_stream-kept, displaced-verify_stream,
}
use torana_edge.Tests.ToolRuns.{keeps_or_clears, verdict, call_to}

abbrev called : ℕ → String → List StreamEvent → List StreamEvent
called index signature rest =
    block_start index (
      tool_call
        (record { id = "t"; name = "search"; signature = signature; invocation_kind = function }))
    ∷ tool_call_delta (record { index = index; arguments_delta = "{}"; input_text_delta = none })
    ∷ block_stop index
    ∷ rest

abbrev thought : String → String → List StreamEvent → List StreamEvent
thought words token rest =
    block_start 0 thinking ∷ thinking_delta words ∷ signature_delta token ∷ block_stop 0 ∷ rest

abbrev turn : List StreamEvent
turn = thought "hm" "k" (text_delta "so" ∷ called 1 "s" [])

-- The call at another index, and another text.
abbrev reworded : List StreamEvent
reworded = thought "hm" "k" (text_delta "thus" ∷ called 4 "s" [])

abbrev thought_binding : SigBinding
thought_binding = record {
  kind = current;
  signature = "k";
  content = record { text = ""; thinking = "hm"; text_seen = false; thinking_seen = true };
  span = some 0;
}

scanned : (scan_stream_signatures turn).bindings ≡ thought_binding ∷ []
unfolding scan_stream_signatures find_builder drop_builder write_builder open_builder
scanned = refl

scanned_tools : (scan_stream_signatures turn).tool_scopes ≡ call_to 1 "search" "s" ∷ []
unfolding scan_stream_signatures find_builder drop_builder write_builder open_builder
scanned_tools = refl

-- The token is left out beside the thought that it signs.
stripped :
    verify_stream keeps_or_clears verdict turn
      (thought "hm" "" (text_delta "so" ∷ called 1 "s" []))
      none
    ≡ some (delta_signature (dropped current))
unfolding verify_stream verify_signatures validate_accepted_stream has_seen lookup_tool insert_tool
    delete_tool validate_stream_tool_delta_family scan_stream_signatures find_builder drop_builder
    write_builder open_builder verify_tool_scopes exact_pass consume_first consume_at correlate_all
    correlate is_exact tool_call_covered_content_equal tool_call_content_changed suppressed invent
    verify_signature_delta_bindings verify_kind has_unbound of_kind same_occurrence equals unmatched
    judge_unmatched token_candidates all_cover survivors count_spans reserve signed_ordinal
    claim_twins settle_all settle verify_unpaired_binding unpaired_current content_is_empty
    content_same_kind empty_tokens
stripped = refl

-- The token is moved to other words.
moved :
    verify_stream keeps_or_clears verdict turn
      (thought "hm" "j" (text_delta "so" ∷ called 1 "s" []))
      none
    ≡ some (delta_signature (forged current))
unfolding verify_stream verify_signatures validate_accepted_stream has_seen lookup_tool insert_tool
    delete_tool validate_stream_tool_delta_family scan_stream_signatures find_builder drop_builder
    write_builder open_builder verify_tool_scopes exact_pass consume_first consume_at correlate_all
    correlate is_exact tool_call_covered_content_equal tool_call_content_changed suppressed invent
    verify_signature_delta_bindings verify_kind has_unbound of_kind same_occurrence equals unmatched
    judge_unmatched token_candidates all_cover survivors count_spans reserve signed_ordinal
    claim_twins settle_all settle verify_unpaired_binding unpaired_current content_is_empty
    content_same_kind empty_tokens
moved = refl

-- Rewritten words with an empty token.
cleared :
    verify_stream keeps_or_clears verdict turn
      (thought "oh" "" (text_delta "so" ∷ called 1 "s" []))
      none
    ≡ none
unfolding verify_stream verify_signatures validate_accepted_stream has_seen lookup_tool insert_tool
    delete_tool validate_stream_tool_delta_family scan_stream_signatures find_builder drop_builder
    write_builder open_builder verify_tool_scopes exact_pass consume_first consume_at correlate_all
    correlate is_exact tool_call_covered_content_equal tool_call_content_changed suppressed invent
    verify_signature_delta_bindings verify_kind has_unbound of_kind same_occurrence equals unmatched
    judge_unmatched token_candidates all_cover survivors count_spans reserve signed_ordinal
    claim_twins settle_all settle verify_unpaired_binding unpaired_current content_is_empty
    content_same_kind empty_tokens
cleared = refl

-- The signed thought and all text are left out.
silenced :
    verify_stream keeps_or_clears verdict turn (called 1 "s" []) none
    ≡ some (delta_signature suppressed_block)
unfolding verify_stream verify_signatures validate_accepted_stream has_seen lookup_tool insert_tool
    delete_tool validate_stream_tool_delta_family scan_stream_signatures find_builder drop_builder
    write_builder open_builder verify_tool_scopes exact_pass consume_first consume_at correlate_all
    correlate is_exact tool_call_covered_content_equal tool_call_content_changed suppressed invent
    verify_signature_delta_bindings verify_kind has_unbound of_kind same_occurrence equals unmatched
    judge_unmatched token_candidates all_cover survivors count_spans reserve signed_ordinal
    claim_twins settle_all settle verify_unpaired_binding unpaired_current content_is_empty
    content_same_kind empty_tokens
silenced = refl

reworded_passes : verify_stream keeps_or_clears verdict turn reworded none ≡ none
unfolding verify_stream verify_signatures validate_accepted_stream has_seen lookup_tool insert_tool
    delete_tool validate_stream_tool_delta_family scan_stream_signatures find_builder drop_builder
    write_builder open_builder verify_tool_scopes exact_pass consume_first consume_at correlate_all
    correlate is_exact tool_call_covered_content_equal tool_call_content_changed suppressed invent
    verify_signature_delta_bindings verify_kind has_unbound of_kind same_occurrence equals unmatched
    judge_unmatched token_candidates all_cover survivors count_spans reserve signed_ordinal
    claim_twins settle_all settle verify_unpaired_binding unpaired_current content_is_empty
    content_same_kind empty_tokens
reworded_passes = refl

turn_accepted : validate_accepted_stream turn ≡ none
unfolding validate_accepted_stream has_seen lookup_tool insert_tool delete_tool
    validate_stream_tool_delta_family
turn_accepted = refl

same_calls :
    (s : ToolCallScope)
    → copies s (scan_stream_signatures reworded).tool_scopes
      ≡ copies s (scan_stream_signatures turn).tool_scopes
unfolding scan_stream_signatures find_builder drop_builder write_builder open_builder is_exact
    tool_call_covered_content_equal
same_calls s = refl

same_tokens : (scan_stream_signatures reworded).bindings ≡ (scan_stream_signatures turn).bindings
unfolding scan_stream_signatures find_builder drop_builder write_builder open_builder
same_tokens = refl

verify_stream-kept_example : verify_stream keeps_or_clears verdict turn reworded none ≡ none
verify_stream-kept_example =
    verify_stream-kept keeps_or_clears verdict turn reworded none turn_accepted same_calls
      same_tokens

displaced-verify_stream_example :
    displaced
      (length (scan_stream_signatures reworded).spans)
      thought_binding
      (scan_stream_signatures turn).bindings
    ≤ count
        (λ a. same_binding_kind a.kind current && same_occurrence a thought_binding)
        (scan_stream_signatures reworded).bindings
displaced-verify_stream_example =
    displaced-verify_stream keeps_or_clears verdict turn reworded none thought_binding refl
      reworded_passes

turn_taken : (walk_all turn new_walker).1 ≡ none
unfolding walk_all walk walk_event has_seen lookup_tool insert_tool delete_tool
    validate_stream_tool_delta_family
turn_taken = refl

bound-scan_stream_signatures_example :
    (tokens (scan_stream_signatures turn).bindings ≡ signature_tokens turn)
    × (has_unbound (scan_stream_signatures turn).bindings ≡ false)
bound-scan_stream_signatures_example = bound-scan_stream_signatures turn turn_taken

length-scan_stream_signatures_example :
    length (scan_stream_signatures turn).tool_scopes
      + length (walk_all turn new_walker).0.open_tools
    ≡ tool_starts turn
length-scan_stream_signatures_example = length-scan_stream_signatures turn turn_taken

first_call : get_elem? (scan_stream_signatures turn).tool_scopes 0 ≡ some (call_to 1 "search" "s")
unfolding scan_stream_signatures find_builder drop_builder write_builder open_builder
first_call = refl

scan_stream_signatures-tool_call_scope_of_example :
    call_to 1 "search" "s" ≡ tool_call_scope_of turn 1
scan_stream_signatures-tool_call_scope_of_example =
    scan_stream_signatures-tool_call_scope_of turn 0 (call_to 1 "search" "s") turn_taken first_call

verify_stream-verify_stream_prefix_example :
    verify_stream keeps_or_clears verdict turn (called 1 "s" []) none
    ≡ verify_stream_prefix keeps_or_clears verdict turn (called 1 "s" []) none
verify_stream-verify_stream_prefix_example =
    verify_stream-verify_stream_prefix keeps_or_clears verdict turn (called 1 "s" []) none
      turn_accepted
