-- ===== src/Stream/Scan.antt =====
-- `scanStreamSignatures` of internal/plugin/streamverify.go: the single pass over a stream that
-- assembles the scopes of its tool calls and the typed scopes of its signature deltas.
use Prim.Native.String.{String}
use Prim.Native.String.{◌++◌ as str_append}
use package.text.Mathlib.Text.{◌==◌ as str_eq}
use torana_edge.Prelude.{
  ℕ, List, [], ◌∷◌, ◌++◌, Bool, true, false, ◌&&◌, ◌||◌, not, Option, none, some, ◌==◌,
  if◌then◌else◌, length,
}
use torana_edge.Stream.{
  Block, text, thinking, provider, tool_call, ToolCallRef, StreamEvent, block_start, block_stop,
  text_delta, thinking_delta, signature_delta, tool_call_delta, ToolCallDelta,
}
use torana_edge.Stream.Discipline.{some_open}
use torana_edge.Stream.ToolScopes.{ToolCallScope, no_scope, add_input}
use torana_edge.Stream.Content.{
  TypedContent, no_content, SigBinding, current, trailing, unbound, StreamSignatureView,
}

-- The variables of the pass; the builders of the open tool blocks hold the scope so far.
pub record Scanning : Type 0 where
  pub block_open : Bool
  pub block_text : Bool
  pub block_saw_span : Bool
  pub span_open : Bool
  pub span : TypedContent
  pub closed : TypedContent
  pub saw_text : Bool
  pub open_tools : List ToolCallScope
  pub tool_scopes : List ToolCallScope
  pub bindings : List SigBinding
  pub spans : List TypedContent

abbrev pub new_scan : Scanning
new_scan = record {
  block_open = false;
  block_text = false;
  block_saw_span = false;
  span_open = false;
  span = no_content;
  closed = no_content;
  saw_text = false;
  open_tools = [];
  tool_scopes = [];
  bindings = [];
  spans = [];
}

unfoldable pub find_builder : ℕ → List ToolCallScope → Option ToolCallScope
find_builder idx [] = none
find_builder idx (b ∷ bs) =
    let later = find_builder idx bs in if b.index == idx then some b else later

-- `delete(openTools, idx)`
unfoldable pub drop_builder : ℕ → List ToolCallScope → List ToolCallScope
drop_builder idx [] = []
drop_builder idx (b ∷ bs) =
    let rest = drop_builder idx bs in if b.index == idx then rest else b ∷ rest

abbrev pub builder : ℕ → ToolCallRef → ToolCallScope
builder idx ref = record (no_scope idx) {
  found = true;
  signature = ref.signature;
  id = ref.id;
  name = ref.name;
  kind = ref.invocation_kind;
}

-- A builder is made only for an index that has none.
unfoldable pub open_builder : ℕ → ToolCallRef → List ToolCallScope → List ToolCallScope
open_builder idx ref [] = builder idx ref ∷ []
open_builder idx ref (b ∷ bs) =
    let rest = open_builder idx ref bs in if b.index == idx then b ∷ bs else b ∷ rest

abbrev pub write_delta : ToolCallDelta → ToolCallScope → ToolCallScope
write_delta d b =
    add_input d.input_text_delta (record b { arguments = str_append b.arguments d.arguments_delta })

unfoldable pub write_builder : ToolCallDelta → List ToolCallScope → List ToolCallScope
write_builder d [] = []
write_builder d (b ∷ bs) =
    let rest = write_builder d bs in if b.index == d.index then write_delta d b ∷ bs else b ∷ rest

unfoldable pub reset_span_state : Scanning → Scanning
reset_span_state s = record s { span = no_content; span_open = false }

-- The closed content with one more span.
abbrev pub and_closed : TypedContent → TypedContent → TypedContent
and_closed closed tc = record {
  text = str_append closed.text tc.text;
  thinking = str_append closed.thinking tc.thinking;
  text_seen = closed.text_seen || tc.text_seen;
  thinking_seen = closed.thinking_seen || tc.thinking_seen;
}

unfoldable pub materialize_span : Scanning → Scanning
unfolding reset_span_state
materialize_span s =
    let s' =
      reset_span_state
        (record s { closed = and_closed s.closed s.span; spans = s.spans ++ (s.span ∷ []) }) in
    record s' { block_saw_span = s.block_open && s.block_text || s.block_saw_span }

unfoldable pub close_span : Scanning → Scanning
unfolding materialize_span reset_span_state
close_span s = if s.span_open then materialize_span s else reset_span_state s

abbrev pub bind : SigBinding → Scanning → Scanning
bind b s = record s { bindings = s.bindings ++ (b ∷ []) }

unfoldable pub scan_block : ℕ → Block → Scanning → Scanning
scan_block idx text s = record s {
  block_open = true;
  block_text = true;
  block_saw_span = false;
  span = record s.span { text_seen = true };
}
scan_block idx thinking s = record s {
  block_open = true;
  block_text = true;
  block_saw_span = false;
  span = record s.span { thinking_seen = true };
}
scan_block idx (tool_call ref) s = record s { open_tools = open_builder idx ref s.open_tools }
scan_block idx provider s = record s { block_open = true; block_text = false }
scan_block idx Block.unset s = s

-- An explicit text or thinking block that is stopped without a span has an empty one.
unfoldable pub scan_stop : Scanning → Scanning
unfolding materialize_span close_span
scan_stop s =
    let s' =
      if s.block_open && s.block_text && not s.block_saw_span && not s.span_open
      then materialize_span s
      else s in
    record (close_span s') { block_open = false; block_text = false; block_saw_span = false }

-- The occurrence in an open span or block, over nothing, and after closed content.
abbrev pub in_span : String → Scanning → SigBinding
in_span token s = record {
  kind = current;
  signature = token;
  content = s.span;
  span = some (length s.spans);
}

abbrev pub over_nothing : String → SigBinding
over_nothing token = record { kind = unbound; signature = token; content = no_content; span = none }

abbrev pub after_closed : String → Scanning → SigBinding
after_closed token s = record {
  kind =
      if str_eq s.closed.text "" && str_eq s.closed.thinking "" && not s.saw_text
      then unbound
      else trailing;
  signature = token;
  content = s.closed;
  span = none;
}

unfoldable pub scan_signature : String → Scanning → Scanning
unfolding materialize_span close_span
scan_signature token s =
    if s.span_open || s.block_open && s.block_text
    then bind (in_span token s) (
        if not s.span_open && s.block_open && s.block_text
        then materialize_span s
        else close_span s)
    else if s.block_open || some_open s.open_tools
    then bind (over_nothing token) s
    else bind (after_closed token s) s

-- The `switch` of the loop.
unfoldable pub scan_event : StreamEvent → Scanning → Scanning
unfolding close_span scan_block scan_stop scan_signature
scan_event (block_start idx block) s = scan_block idx block (close_span s)
scan_event (block_stop idx) s = elim (find_builder idx s.open_tools) [
  | some b ↦ record s {
    open_tools = drop_builder idx s.open_tools;
    tool_scopes = s.tool_scopes ++ (b ∷ []);
  }
  | none ↦ scan_stop s
]
scan_event (tool_call_delta d) s = record s { open_tools = write_builder d s.open_tools }
scan_event (text_delta token) s =
    if s.block_open && not s.block_text || some_open s.open_tools then s else record s {
      saw_text = true;
      span = record s.span { text_seen = true; text = str_append s.span.text token };
      span_open = true;
    }
scan_event (thinking_delta token) s =
    if s.block_open && not s.block_text || some_open s.open_tools then s else record s {
      saw_text = true;
      span = record s.span { thinking_seen = true; thinking = str_append s.span.thinking token };
      span_open = true;
    }
scan_event (signature_delta token) s = scan_signature token s
scan_event ev s = s

unfoldable pub scan_from : List StreamEvent → Scanning → Scanning
unfolding scan_event
scan_from [] s = s
scan_from (ev ∷ evs) s = scan_from evs (scan_event ev s)

abbrev pub view_of : Scanning → StreamSignatureView
view_of s = record {
  tool_scopes = s.tool_scopes;
  bindings = s.bindings;
  spans = s.spans;
  closed = s.closed;
  saw_content = s.saw_text;
}

unfoldable pub scan_stream_signatures : List StreamEvent → StreamSignatureView
unfolding scan_from close_span
scan_stream_signatures events = view_of (close_span (scan_from events new_scan))
