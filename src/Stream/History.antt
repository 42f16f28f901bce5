-- ===== src/Stream/History.antt =====
-- What a stream's past says, without the walker's state: pasts are lists of events, latest first.
use torana_edge.Prelude.{
  ℕ, List, [], ◌∷◌, Bool, true, false, ◌||◌, Option, none, some, ◌==◌, if◌then◌else◌,
}
use torana_edge.Stream.{
  ToolInvocationKind, Block, text, thinking, provider, tool_call, StreamEvent, error, message_stop,
  block_start, block_stop,
}
use torana_edge.Stream.Discipline.{
  OpenBlockKind, text_block_open, thinking_block_open, provider_block_open,
}

-- The block that was started at an index.
unfoldable pub block_of : ℕ → List StreamEvent → Option Block
block_of i [] = none
block_of i (block_start j b ∷ h) = if j == i then some b else block_of i h
block_of i (_ ∷ h) = block_of i h

unfoldable pub stopped : ℕ → List StreamEvent → Bool
stopped i [] = false
stopped i (block_stop j ∷ h) = j == i || stopped i h
stopped i (_ ∷ h) = stopped i h

unfoldable pub has_error : List StreamEvent → Bool
has_error [] = false
has_error (error ∷ h) = true
has_error (_ ∷ h) = has_error h

unfoldable pub has_message_stop : List StreamEvent → Bool
has_message_stop [] = false
has_message_stop (message_stop ∷ h) = true
has_message_stop (_ ∷ h) = has_message_stop h

unfoldable pub tool_kind : Option Block → Option ToolInvocationKind
tool_kind (some (tool_call ref)) = some ref.invocation_kind
tool_kind _ = none

unfoldable pub non_tool_kind : Option Block → Option OpenBlockKind
non_tool_kind (some text) = some text_block_open
non_tool_kind (some thinking) = some thinking_block_open
non_tool_kind (some provider) = some provider_block_open
non_tool_kind _ = none

-- The tool block, or the other block, that was started at an index and not stopped.
unfoldable pub live_tool : ℕ → List StreamEvent → Option ToolInvocationKind
unfolding stopped tool_kind block_of
live_tool i h = if stopped i h then none else tool_kind (block_of i h)

unfoldable pub live_non_tool : ℕ → List StreamEvent → Option OpenBlockKind
unfolding stopped non_tool_kind block_of
live_non_tool i h = if stopped i h then none else non_tool_kind (block_of i h)
