-- ===== src/Stream/Accepted.antt =====
-- `validateAcceptedStream` of internal/plugin/streamverify.go, which judges a whole stream at once,
-- and its agreement with the incremental walker of stream_enforce.go.
use torana_edge.Prelude.{
  ℕ, ◌+◌, ◌≡◌, refl, List, [], ◌∷◌, Bool, true, false, ◌&&◌, ◌||◌, not, Option, none, some, ◌==◌,
  if◌then◌else◌, arith,
}
use torana_edge.Stream.{
  ToolInvocationKind, Block, text, thinking, provider, tool_call, StreamEvent, error, usage,
  message_start, message_stop, block_start, block_stop, text_delta, thinking_delta, signature_delta,
  tool_call_delta,
}
use torana_edge.Stream.Discipline.{
  OpenBlockKind, text_block_open, thinking_block_open, provider_block_open, OpenNonTool, Fault,
  event_after_error, event_after_stop, stop_while_open, index_reused, non_tool_inside,
  non_tool_beside_tool, tool_inside_non_tool, names_no_block, text_inside, thinking_inside,
  text_beside_tool, thinking_beside_tool, uncovered_signature, missing_stop, names_no_tool,
  wrong_family, Walker, new_walker, lookup_tool, insert_tool, delete_tool, has_seen, is_some,
  some_open, validate_stream_tool_delta_family, is_textual, is_text, is_thinking, open_is,
  walk_block, walk_event, walk, after_stop, end, walk_all,
}

-- The local variables of the loop.
pub record Accepting : Type 0 where
  pub non_tool : Option OpenNonTool
  pub open_tools : List (ℕ × ToolInvocationKind)
  pub seen : List ℕ
  pub saw_error : Bool
  pub message_stopped : Bool
  pub span_open : Bool
  pub saw_text : Bool

pub data Checked {ℓ} (A : Type ℓ) : Type ℓ where
  ok : A → Checked A
  reject : Fault → Checked A

infixl 5 ◌>>=◌ ◌>>◌
abbrev pub ◌>>=◌ {ℓ κ} : {A : Type ℓ} {B : Type κ} → Checked A → (A → Checked B) → Checked B
ok a >>= f = f a
reject e >>= f = reject e

abbrev pub ◌>>◌ {ℓ} : {B : Type ℓ} → Checked (Unit {0}) → Checked B → Checked B
m >> k = m >>= λ _. k

-- `if bad { return &acceptedStreamError{...} }`
abbrev pub refuse_if : Bool → Fault → Checked (Unit {0})
refuse_if true f = reject f
refuse_if false f = ok tt

abbrev refuse_open : Option OpenNonTool → (OpenBlockKind → Fault) → Checked (Unit {0})
refuse_open none f = ok tt
refuse_open (some open_block) f = reject (f open_block.kind)

abbrev refuse_other_kind :
    (OpenBlockKind → Bool) → Option OpenNonTool → (OpenBlockKind → Fault) → Checked (Unit {0})
refuse_other_kind same none f = ok tt
refuse_other_kind same (some open_block) f =
    refuse_if (not (same open_block.kind)) (f open_block.kind)

accept_non_tool : ℕ → ℕ → OpenBlockKind → Accepting → Checked Accepting
accept_non_tool pos idx kind v = do
  refuse_open v.non_tool (non_tool_inside pos)
  refuse_if (some_open v.open_tools) (non_tool_beside_tool pos)
  ok (record v { non_tool = some (record { index = idx; kind = kind }) })

accept_block : ℕ → ℕ → Block → Accepting → Checked Accepting
unfolding accept_non_tool
accept_block pos idx text v = accept_non_tool pos idx text_block_open v
accept_block pos idx thinking v = accept_non_tool pos idx thinking_block_open v
accept_block pos idx provider v = accept_non_tool pos idx provider_block_open v
accept_block pos idx (tool_call ref) v = do
  refuse_if (is_some v.non_tool) (tool_inside_non_tool pos)
  ok (record v { open_tools = insert_tool idx ref.invocation_kind v.open_tools })
accept_block pos idx Block.unset v = ok v

abbrev names_open : ℕ → Option OpenNonTool → Bool
names_open idx none = false
names_open idx (some open_block) = open_block.index == idx

-- The `switch` of the loop body.
accept_event : ℕ → StreamEvent → Accepting → Checked Accepting
unfolding accept_block
accept_event pos error v = ok (record v { saw_error = true })
accept_event pos usage v = ok v
accept_event pos message_start v = ok v
accept_event pos message_stop v = do
  refuse_if (is_some v.non_tool || some_open v.open_tools) (stop_while_open pos)
  ok (record v { message_stopped = true })
accept_event pos (block_start idx block) v = do
  refuse_if (has_seen idx v.seen) (index_reused idx pos)
  accept_block pos idx block (record v { span_open = false; seen = idx ∷ v.seen })
accept_event pos (block_stop idx) v =
    if is_some (lookup_tool idx v.open_tools)
    then ok (record v { open_tools = delete_tool idx v.open_tools })
    else if names_open idx v.non_tool
    then ok (record v { non_tool = none; span_open = false })
    else reject (names_no_block pos)
accept_event pos (text_delta s) v = do
  refuse_other_kind is_text v.non_tool (text_inside pos)
  refuse_if (not (is_some v.non_tool) && some_open v.open_tools) (text_beside_tool pos)
  ok (record v { span_open = true; saw_text = true })
accept_event pos (thinking_delta s) v = do
  refuse_other_kind is_thinking v.non_tool (thinking_inside pos)
  refuse_if (not (is_some v.non_tool) && some_open v.open_tools) (thinking_beside_tool pos)
  ok (record v { span_open = true; saw_text = true })
accept_event pos (signature_delta s) v =
    if v.span_open || open_is is_textual v.non_tool then ok (record v { span_open = false }) else do
      refuse_if
          (open_is (λ k. not (is_textual k)) v.non_tool || some_open v.open_tools || not v.saw_text)
          uncovered_signature
      ok v
accept_event pos (tool_call_delta d) v = elim (lookup_tool d.index v.open_tools) [
  | none ↦ reject (names_no_tool pos d.index)
  | some kind ↦ elim (validate_stream_tool_delta_family kind d) [
    | none ↦ ok v
    | some f ↦ reject (wrong_family pos f)
  ]
]
accept_event pos StreamEvent.unset v = ok v

accept_next : ℕ → StreamEvent → Accepting → Checked Accepting
accept_next pos ev v = do
  refuse_if v.saw_error (event_after_error pos)
  refuse_if (v.message_stopped && not (after_stop ev)) (event_after_stop pos)
  accept_event pos ev v

accept_end : Accepting → Option Fault
accept_end v =
    if not v.saw_error && (is_some v.non_tool || some_open v.open_tools)
    then some missing_stop
    else none

accept_from : ℕ → List StreamEvent → Accepting → Option Fault
unfolding accept_end
accept_from pos [] v = accept_end v
accept_from pos (ev ∷ evs) v =
    let rest = λ (v' : Accepting). accept_from (pos + 1) evs v' in
    elim (accept_next pos ev v) [ ok v' ↦ rest v' | reject f ↦ some f ]

abbrev start : Accepting
start = record {
  non_tool = none;
  open_tools = [];
  seen = [];
  saw_error = false;
  message_stopped = false;
  span_open = false;
  saw_text = false;
}

-- `none` is acceptance.
unfoldable pub validate_accepted_stream : List StreamEvent → Option Fault
unfolding accept_from accept_next accept_event
validate_accepted_stream events = accept_from 0 events start

abbrev view : Walker → Accepting
view w = record {
  non_tool = w.non_tool;
  open_tools = w.open_tools;
  seen = w.seen;
  saw_error = w.saw_error;
  message_stopped = w.message_stopped;
  span_open = w.span_open;
  saw_text = w.saw_text;
}

abbrev outcome : Walker × Option Fault → Checked Accepting
outcome (w, none) = ok (view w)
outcome (w, some f) = reject f

-- One event means the same to both.
accept_event-walk_event :
    (ev : StreamEvent) (w : Walker) (pos : ℕ)
    → accept_event pos ev (view w) ≡ outcome (walk_event pos ev w)
unfolding accept_event walk_event
accept_event-walk_event (block_start idx text) w pos = ground arith
accept_event-walk_event (block_start idx thinking) w pos = ground arith
accept_event-walk_event (block_start idx provider) w pos = ground arith
accept_event-walk_event (block_start idx (tool_call ref)) w pos = ground arith
accept_event-walk_event (block_start idx Block.unset) w pos = ground arith
accept_event-walk_event error w pos = refl
accept_event-walk_event ev w pos = ground arith

accept_next-walk :
    (ev : StreamEvent) (w : Walker) → accept_next w.pos ev (view w) ≡ outcome (walk ev w)
unfolding accept_next walk
accept_next-walk ev w =
    ground (arith, accept_event-walk_event ev (record w { pos = w.pos + 1 }) w.pos)

walk_block-pos : (pos idx : ℕ) (b : Block) (w : Walker) → (walk_block pos idx b w).0.pos ≡ w.pos
unfolding walk_block
walk_block-pos pos idx text w = ground arith
walk_block-pos pos idx b w = ground arith

walk_event-pos : (pos : ℕ) (ev : StreamEvent) (w : Walker) → (walk_event pos ev w).0.pos ≡ w.pos
unfolding walk_event
walk_event-pos pos error w = refl
walk_event-pos pos (block_start idx b) w =
    ground (arith, walk_block-pos pos idx b (record w { span_open = false; seen = idx ∷ w.seen }))
walk_event-pos pos ev w = ground arith

walk-pos : (ev : StreamEvent) (w : Walker) → (walk ev w).0.pos ≡ w.pos + 1
unfolding walk
walk-pos ev w = ground (arith, walk_event-pos w.pos ev (record w { pos = w.pos + 1 }))

-- The walker over the whole stream and then its end.
abbrev pub walk_to_end : List StreamEvent → Walker → Option Fault
walk_to_end evs w =
    let (w', fault) = walk_all evs w in elim fault [ none ↦ end w' | some f ↦ some f ]

accept_from-walk_all :
    (evs : List StreamEvent) (w : Walker) → accept_from w.pos evs (view w) ≡ walk_to_end evs w
unfolding accept_from walk_all end
accept_from-walk_all [] w = refl
accept_from-walk_all (ev ∷ evs) w =
    ground (arith, accept_next-walk ev w, walk-pos ev w, accept_from-walk_all evs (walk ev w).0)

-- The judgement of the whole stream is that of the incremental walker followed by its rule for the
-- end: the same streams are accepted, and a refused one gets the same first fault.
pub validate_accepted_stream-walk_all :
    (evs : List StreamEvent) → validate_accepted_stream evs ≡ walk_to_end evs new_walker
unfolding validate_accepted_stream
validate_accepted_stream-walk_all evs = accept_from-walk_all evs new_walker
