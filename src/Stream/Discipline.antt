-- ===== src/Stream/Discipline.antt =====
-- The incremental stream discipline of internal/plugin/stream_enforce.go (`streamDisciplineWalker`):
-- one event at a time, with the walker's state after it, a refused event included.
use package.text.Mathlib.Text.{◌==◌ as str_eq}
use torana_edge.Prelude.{
  ℕ, ◌+◌, List, [], ◌∷◌, Bool, true, false, ◌&&◌, ◌||◌, not, Option, none, some, ◌==◌,
  if◌then◌else◌,
}
use torana_edge.Stream.{
  ToolInvocationKind, function, freeform, other, Block, text, thinking, provider, tool_call,
  ToolCallDelta, StreamEvent, error, usage, message_start, message_stop, block_start, block_stop,
  text_delta, thinking_delta, signature_delta, tool_call_delta,
}

pub data OpenBlockKind : Type 0 where
  text_block_open thinking_block_open provider_block_open : OpenBlockKind

pub record OpenNonTool : Type 0 where
  pub index : ℕ
  pub kind : OpenBlockKind

pub data FamilyFault : Type 0 where
  function_with_input freeform_wrong_family unknown_kind : FamilyFault

-- What the error texts say, with the positions and the indices in them.
pub data Fault : Type 0 where
  event_after_error event_after_stop stop_while_open : ℕ → Fault
  index_reused : ℕ → ℕ → Fault
  non_tool_inside : ℕ → OpenBlockKind → Fault
  non_tool_beside_tool tool_inside_non_tool names_no_block : ℕ → Fault
  text_inside thinking_inside : ℕ → OpenBlockKind → Fault
  text_beside_tool thinking_beside_tool : ℕ → Fault
  uncovered_signature missing_stop : Fault
  names_no_tool : ℕ → ℕ → Fault
  wrong_family : ℕ → FamilyFault → Fault

pub record Walker : Type 0 where
  pub non_tool : Option OpenNonTool
  pub open_tools : List (ℕ × ToolInvocationKind)
  pub seen : List ℕ
  pub saw_error : Bool
  pub message_stopped : Bool
  pub span_open : Bool
  pub saw_text : Bool
  pub pos : ℕ

abbrev pub new_walker : Walker
new_walker = record {
  non_tool = none;
  open_tools = [];
  seen = [];
  saw_error = false;
  message_stopped = false;
  span_open = false;
  saw_text = false;
  pos = 0;
}

unfoldable pub lookup_tool : ℕ → List (ℕ × ToolInvocationKind) → Option ToolInvocationKind
lookup_tool idx [] = none
lookup_tool idx ((i, k) ∷ m) = if i == idx then some k else lookup_tool idx m

-- `openTools[idx] = kind`
unfoldable pub insert_tool :
    ℕ → ToolInvocationKind → List (ℕ × ToolInvocationKind) → List (ℕ × ToolInvocationKind)
insert_tool idx kind [] = (idx, kind) ∷ []
insert_tool idx kind ((i, k) ∷ m) =
    if i == idx then (idx, kind) ∷ m else (i, k) ∷ insert_tool idx kind m

unfoldable pub delete_tool : ℕ → List (ℕ × ToolInvocationKind) → List (ℕ × ToolInvocationKind)
delete_tool idx [] = []
delete_tool idx ((i, k) ∷ m) = if i == idx then delete_tool idx m else (i, k) ∷ delete_tool idx m

unfoldable pub has_seen : ℕ → List ℕ → Bool
has_seen idx [] = false
has_seen idx (i ∷ is) = i == idx || has_seen idx is

abbrev pub is_some {ℓ} : {A : Type ℓ} → Option A → Bool
is_some none = false
is_some (some _) = true

abbrev pub some_open {ℓ} : {A : Type ℓ} → List A → Bool
some_open [] = false
some_open (_ ∷ _) = true

unfoldable pub validate_stream_tool_delta_family :
    ToolInvocationKind → ToolCallDelta → Option FamilyFault
validate_stream_tool_delta_family function d =
    if is_some d.input_text_delta then some function_with_input else none
validate_stream_tool_delta_family freeform d =
    if not (is_some d.input_text_delta) || not (str_eq d.arguments_delta "")
    then some freeform_wrong_family
    else none
validate_stream_tool_delta_family (other n) d = some unknown_kind

abbrev pub is_textual : OpenBlockKind → Bool
is_textual provider_block_open = false
is_textual _ = true

abbrev pub is_text : OpenBlockKind → Bool
is_text text_block_open = true
is_text _ = false

abbrev pub is_thinking : OpenBlockKind → Bool
is_thinking thinking_block_open = true
is_thinking _ = false

abbrev pub open_is : (OpenBlockKind → Bool) → Option OpenNonTool → Bool
open_is p none = false
open_is p (some open_block) = p open_block.kind

-- A start of a block that is no tool's.
unfoldable pub walk_non_tool : ℕ → ℕ → OpenBlockKind → Walker → Walker × Option Fault
walk_non_tool pos idx kind w = elim w.non_tool [
  | some open_block ↦ (w, some (non_tool_inside pos open_block.kind))
  | none ↦
      if some_open w.open_tools
      then (w, some (non_tool_beside_tool pos))
      else (record w { non_tool = some (record { index = idx; kind = kind }) }, none)
]

unfoldable pub walk_block : ℕ → ℕ → Block → Walker → Walker × Option Fault
unfolding walk_non_tool
walk_block pos idx text w = walk_non_tool pos idx text_block_open w
walk_block pos idx thinking w = walk_non_tool pos idx thinking_block_open w
walk_block pos idx provider w = walk_non_tool pos idx provider_block_open w
walk_block pos idx (tool_call ref) w =
    if is_some w.non_tool
    then (w, some (tool_inside_non_tool pos))
    else (record w { open_tools = insert_tool idx ref.invocation_kind w.open_tools }, none)
walk_block pos idx Block.unset w = (w, none)

unfoldable pub walk_stop : ℕ → ℕ → Walker → Walker × Option Fault
walk_stop pos idx w =
    if is_some (lookup_tool idx w.open_tools)
    then (record w { open_tools = delete_tool idx w.open_tools }, none)
    else elim w.non_tool [
      | none ↦ (w, some (names_no_block pos))
      | some open_block ↦
          if open_block.index == idx
          then (record w { non_tool = none; span_open = false }, none)
          else (w, some (names_no_block pos))
    ]

-- The `switch` of `walk`; `pos` is the position of the event.
unfoldable pub walk_event : ℕ → StreamEvent → Walker → Walker × Option Fault
unfolding walk_block walk_stop
walk_event pos error w = (record w { saw_error = true }, none)
walk_event pos usage w = (w, none)
walk_event pos message_start w = (w, none)
walk_event pos message_stop w =
    if is_some w.non_tool || some_open w.open_tools
    then (w, some (stop_while_open pos))
    else (record w { message_stopped = true }, none)
walk_event pos (block_start idx block) w =
    if has_seen idx w.seen
    then (record w { span_open = false }, some (index_reused idx pos))
    else walk_block pos idx block (record w { span_open = false; seen = idx ∷ w.seen })
walk_event pos (block_stop idx) w = walk_stop pos idx w
walk_event pos (text_delta s) w = elim w.non_tool [
  | some open_block ↦
      if is_text open_block.kind
      then (record w { span_open = true; saw_text = true }, none)
      else (w, some (text_inside pos open_block.kind))
  | none ↦
      if some_open w.open_tools
      then (w, some (text_beside_tool pos))
      else (record w { span_open = true; saw_text = true }, none)
]
walk_event pos (thinking_delta s) w = elim w.non_tool [
  | some open_block ↦
      if is_thinking open_block.kind
      then (record w { span_open = true; saw_text = true }, none)
      else (w, some (thinking_inside pos open_block.kind))
  | none ↦
      if some_open w.open_tools
      then (w, some (thinking_beside_tool pos))
      else (record w { span_open = true; saw_text = true }, none)
]
walk_event pos (signature_delta s) w =
    if w.span_open || open_is is_textual w.non_tool
    then (record w { span_open = false }, none)
    else if open_is (λ k. not (is_textual k)) w.non_tool || some_open w.open_tools || not w.saw_text
    then (w, some uncovered_signature)
    else (w, none)
walk_event pos (tool_call_delta d) w = elim (lookup_tool d.index w.open_tools) [
  | none ↦ (w, some (names_no_tool pos d.index))
  | some kind ↦ elim (validate_stream_tool_delta_family kind d) [
    | none ↦ (w, none)
    | some f ↦ (w, some (wrong_family pos f))
  ]
]
walk_event pos StreamEvent.unset w = (w, none)

abbrev pub after_stop : StreamEvent → Bool
after_stop usage = true
after_stop error = true
after_stop _ = false

unfoldable pub walk : StreamEvent → Walker → Walker × Option Fault
walk ev w =
    let pos = w.pos in
    let w' = record w { pos = pos + 1 } in
    if w.saw_error
    then (w', some (event_after_error pos))
    else if w.message_stopped && not (after_stop ev)
    then (w', some (event_after_stop pos))
    else walk_event pos ev w'

unfoldable pub end : Walker → Option Fault
end w =
    if not w.saw_error && (is_some w.non_tool || some_open w.open_tools)
    then some missing_stop
    else none

-- The walker over a whole stream: its state, or the first fault, as `verifyStreamPrefix` drives it.
unfoldable pub walk_all : List StreamEvent → Walker → Walker × Option Fault
walk_all [] w = (w, none)
walk_all (ev ∷ evs) w =
    let (w', fault) = walk ev w in
    let rest = walk_all evs w' in elim fault [ none ↦ rest | some f ↦ (w', some f) ]
