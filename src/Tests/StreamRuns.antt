-- ===== src/Tests/StreamRuns.antt =====
-- internal/plugin's stream discipline on small streams.
use torana_edge.Prelude.{◌≡◌, refl, List, [], ◌∷◌, none, some}
use torana_edge.Stream.{
  StreamEvent, message_start, message_stop, block_start, block_stop, text_delta, signature_delta,
  tool_call_delta, text, tool_call, function, usage,
}
use torana_edge.Stream.Discipline.{
  new_walker, names_no_block, validate_stream_tool_delta_family, lookup_tool, insert_tool,
  delete_tool, has_seen,
}
use torana_edge.Stream.Accepted.{
  validate_accepted_stream, walk_to_end, validate_accepted_stream-walk_all,
}
use torana_edge.Stream.Balance.{IsBalanced, validate_accepted_stream-IsBalanced}

abbrev search_call : StreamEvent
search_call =
    block_start 1 (
      tool_call (record { id = "t"; name = "search"; signature = "s"; invocation_kind = function }))

-- A text block and a tool block, one after the other.
abbrev answer : List StreamEvent
answer =
    message_start
    ∷ block_start 0 text
    ∷ text_delta "hi"
    ∷ signature_delta "x"
    ∷ block_stop 0
    ∷ search_call
    ∷ tool_call_delta (record { index = 1; arguments_delta = "{}"; input_text_delta = none })
    ∷ block_stop 1
    ∷ message_stop
    ∷ usage
    ∷ []

answer_accepted : validate_accepted_stream answer ≡ none
unfolding validate_accepted_stream lookup_tool insert_tool delete_tool has_seen
    validate_stream_tool_delta_family
answer_accepted = refl

wrong_stop :
    validate_accepted_stream (block_start 3 text ∷ block_stop 9 ∷ []) ≡ some (names_no_block 1)
unfolding validate_accepted_stream lookup_tool has_seen
wrong_stop = refl

validate_accepted_stream-walk_all_example :
    validate_accepted_stream answer ≡ walk_to_end answer new_walker
validate_accepted_stream-walk_all_example = validate_accepted_stream-walk_all answer

validate_accepted_stream-IsBalanced_example : IsBalanced [] answer
validate_accepted_stream-IsBalanced_example =
    validate_accepted_stream-IsBalanced answer answer_accepted
