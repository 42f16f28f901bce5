-- ===== src/Stream/Tracking.antt =====
-- The walker's state, and what the past of the stream says of the same blocks.
use torana_edge.Prelude.{
  ℕ, ◌≡◌, refl, ◌∙◌, ap, List, [], ◌∷◌, Bool, true, false, ◌||◌, not, Option, none, some, ◌==◌,
  if◌then◌else◌, arith,
}
use torana_edge.Stream.{
  ToolInvocationKind, Block, text, tool_call, StreamEvent, block_start, block_stop,
}
use torana_edge.Stream.Discipline.{
  OpenBlockKind, OpenNonTool, Walker, lookup_tool, insert_tool, delete_tool, has_seen, is_some,
  some_open, is_textual, open_is, walk_event,
}
use torana_edge.Stream.History.{
  block_of, stopped, has_error, has_message_stop, live_tool, live_non_tool,
}

pub lookup-insert_tool :
    (i j : ℕ) (k : ToolInvocationKind) (m : List (ℕ × ToolInvocationKind))
    → lookup_tool j (insert_tool i k m) ≡ (if i == j then some k else lookup_tool j m)
unfolding lookup_tool insert_tool
lookup-insert_tool i j k [] = refl
lookup-insert_tool i j k ((a, b) ∷ m) = ground (arith, lookup-insert_tool i j k m)

pub lookup-delete_tool :
    (i j : ℕ) (m : List (ℕ × ToolInvocationKind))
    → lookup_tool j (delete_tool i m) ≡ (if i == j then none else lookup_tool j m)
unfolding lookup_tool delete_tool
lookup-delete_tool i j [] = ground arith
lookup-delete_tool i j ((a, b) ∷ m) = ground (arith, lookup-delete_tool i j m)

pub lookup-closed :
    (i : ℕ) (m : List (ℕ × ToolInvocationKind)) → some_open m ≡ false → lookup_tool i m ≡ none
unfolding lookup_tool
lookup-closed i [] h = refl
lookup-closed i (e ∷ m) h = cc

abbrev pub open_at : ℕ → Option OpenNonTool → Option OpenBlockKind
open_at i none = none
open_at i (some o) = if o.index == i then some o.kind else none

-- The walker's state says of the past what the past says itself.
pub record Tracks (w : Walker) (h : List StreamEvent) : Type 0 where
  pub seen : (i : ℕ) → has_seen i w.seen ≡ is_some (block_of i h)
  pub tools : (i : ℕ) → lookup_tool i w.open_tools ≡ live_tool i h
  pub non_tool : (i : ℕ) → open_at i w.non_tool ≡ live_non_tool i h
  pub started : (i : ℕ) → stopped i h ≡ true → is_some (block_of i h) ≡ true
  pub errors : w.saw_error ≡ has_error h
  pub stops : w.message_stopped ≡ has_message_stop h
  pub exclusive : is_some w.non_tool ≡ true → some_open w.open_tools ≡ false
  pub covered :
      w.span_open ≡ true
      → (some_open w.open_tools ≡ false) × (open_is (λ k. not (is_textual k)) w.non_tool ≡ false)

start_seen :
    (pos i : ℕ) (b : Block) (w : Walker) (h : List StreamEvent)
    → Tracks w h
    → (walk_event pos (block_start i b) w).1 ≡ none
    → (j : ℕ)
    → has_seen j (walk_event pos (block_start i b) w).0.seen
      ≡ is_some (block_of j (block_start i b ∷ h))
unfolding walk_event block_of has_seen
start_seen pos i text w h t e j = ground (arith, t.seen j)
start_seen pos i b w h t e j = ground (arith, t.seen j)

start_tools :
    (pos i : ℕ) (b : Block) (w : Walker) (h : List StreamEvent)
    → Tracks w h
    → (walk_event pos (block_start i b) w).1 ≡ none
    → (j : ℕ)
    → lookup_tool j (walk_event pos (block_start i b) w).0.open_tools
      ≡ live_tool j (block_start i b ∷ h)
unfolding walk_event live_tool
start_tools pos i (tool_call ref) w h t e j = ground (
  arith,
  t.tools j,
  t.seen i,
  t.started i,
  lookup-insert_tool i j ref.invocation_kind w.open_tools,
)
start_tools pos i b w h t e j = ground (arith, t.tools j, t.seen i, t.started i)

start_non_tool :
    (pos i : ℕ) (b : Block) (w : Walker) (h : List StreamEvent)
    → Tracks w h
    → (walk_event pos (block_start i b) w).1 ≡ none
    → (j : ℕ)
    → open_at j (walk_event pos (block_start i b) w).0.non_tool
      ≡ live_non_tool j (block_start i b ∷ h)
unfolding walk_event live_non_tool
start_non_tool pos i text w h t e j = ground (arith, t.non_tool j, t.seen i, t.started i)
start_non_tool pos i b w h t e j = ground (arith, t.non_tool j, t.seen i, t.started i)

stop_tools :
    (pos i : ℕ) (w : Walker) (h : List StreamEvent)
    → Tracks w h
    → (walk_event pos (block_stop i) w).1 ≡ none
    → (j : ℕ)
    → lookup_tool j (walk_event pos (block_stop i) w).0.open_tools ≡ live_tool j (block_stop i ∷ h)
unfolding walk_event live_tool
stop_tools pos i w h t e j =
    ground (arith, t.tools j, t.tools i, lookup-delete_tool i j w.open_tools)

stop_non_tool :
    (pos i : ℕ) (w : Walker) (h : List StreamEvent)
    → Tracks w h
    → (walk_event pos (block_stop i) w).1 ≡ none
    → (j : ℕ)
    → open_at j (walk_event pos (block_stop i) w).0.non_tool ≡ live_non_tool j (block_stop i ∷ h)
unfolding walk_event live_tool live_non_tool
stop_non_tool pos i w h t e j = ground (arith, t.non_tool j, t.non_tool i, t.tools i, t.tools j)

start_exclusive :
    (pos i : ℕ) (b : Block) (w : Walker) (h : List StreamEvent)
    → Tracks w h
    → (walk_event pos (block_start i b) w).1 ≡ none
    → is_some (walk_event pos (block_start i b) w).0.non_tool ≡ true
    → some_open (walk_event pos (block_start i b) w).0.open_tools ≡ false
unfolding walk_event
start_exclusive pos i text w h t e n = ground (arith, t.exclusive)
start_exclusive pos i b w h t e n = ground (arith, t.exclusive)

start_span :
    (pos i : ℕ) (b : Block) (w : Walker) (h : List StreamEvent)
    → (walk_event pos (block_start i b) w).1 ≡ none
    → (walk_event pos (block_start i b) w).0.span_open ≡ false
unfolding walk_event
start_span pos i text w h e = ground arith
start_span pos i b w h e = ground arith

start_flags :
    (pos i : ℕ) (b : Block) (w : Walker)
    → ((walk_event pos (block_start i b) w).0.saw_error ≡ w.saw_error)
      × ((walk_event pos (block_start i b) w).0.message_stopped ≡ w.message_stopped)
unfolding walk_event
start_flags pos i text w = ground arith
start_flags pos i b w = ground arith

started-start :
    (i : ℕ) (b : Block) (h : List StreamEvent)
    → ((j : ℕ) → stopped j h ≡ true → is_some (block_of j h) ≡ true)
    → (j : ℕ) → stopped j (block_start i b ∷ h) ≡ true
    → is_some (block_of j (block_start i b ∷ h)) ≡ true
unfolding stopped block_of
started-start i b h t j e = ground (arith, t j)

Tracks-start :
    (pos i : ℕ) (b : Block) (w : Walker) (h : List StreamEvent)
    → Tracks w h
    → (walk_event pos (block_start i b) w).1 ≡ none
    → Tracks (walk_event pos (block_start i b) w).0 (block_start i b ∷ h)
unfolding has_error has_message_stop
Tracks-start pos i b w h t e = record {
  seen = start_seen pos i b w h t e;
  tools = start_tools pos i b w h t e;
  non_tool = start_non_tool pos i b w h t e;
  started = started-start i b h t.started;
  errors = (start_flags pos i b w).0 ∙ t.errors;
  stops = (start_flags pos i b w).1 ∙ t.stops;
  exclusive = start_exclusive pos i b w h t e;
  covered = λ s. cc (start_span pos i b w h e);
}

some_open-delete_tool :
    (i : ℕ) (m : List (ℕ × ToolInvocationKind))
    → some_open m ≡ false
    → some_open (delete_tool i m) ≡ false
unfolding delete_tool
some_open-delete_tool i [] h = refl
some_open-delete_tool i (e ∷ m) h = cc

stop_exclusive :
    (pos i : ℕ) (w : Walker) (h : List StreamEvent)
    → Tracks w h
    → (walk_event pos (block_stop i) w).1 ≡ none
    → is_some (walk_event pos (block_stop i) w).0.non_tool ≡ true
    → some_open (walk_event pos (block_stop i) w).0.open_tools ≡ false
unfolding walk_event
stop_exclusive pos i w h t e n = ground (arith, t.exclusive, some_open-delete_tool i w.open_tools)

stop_covered :
    (pos i : ℕ) (w : Walker) (h : List StreamEvent)
    → Tracks w h
    → (walk_event pos (block_stop i) w).1 ≡ none
    → (walk_event pos (block_stop i) w).0.span_open ≡ true
    → (some_open (walk_event pos (block_stop i) w).0.open_tools ≡ false)
      × (open_is (λ k. not (is_textual k)) (walk_event pos (block_stop i) w).0.non_tool ≡ false)
unfolding walk_event
stop_covered pos i w h t e n = ground (arith, t.covered, some_open-delete_tool i w.open_tools)

-- A stop that is not refused names a block that was started and not stopped.
pub stop-live :
    (pos i : ℕ) (w : Walker) (h : List StreamEvent)
    → Tracks w h
    → (walk_event pos (block_stop i) w).1 ≡ none
    → is_some (live_tool i h) || is_some (live_non_tool i h) ≡ true
unfolding walk_event
stop-live pos i w h t e = ground (arith, t.tools i, t.non_tool i)

live-started :
    (i : ℕ) (h : List StreamEvent)
    → is_some (live_tool i h) || is_some (live_non_tool i h) ≡ true
    → is_some (block_of i h) ≡ true
unfolding live_tool live_non_tool
live-started i h e = ground arith

stop_flags :
    (pos i : ℕ) (w : Walker)
    → ((walk_event pos (block_stop i) w).0.saw_error ≡ w.saw_error)
      × ((walk_event pos (block_stop i) w).0.message_stopped ≡ w.message_stopped)
      × ((walk_event pos (block_stop i) w).0.seen ≡ w.seen)
unfolding walk_event
stop_flags pos i w = ground arith

stop_started :
    (i : ℕ) (h : List StreamEvent)
    → ((j : ℕ) → stopped j h ≡ true → is_some (block_of j h) ≡ true)
    → is_some (block_of i h) ≡ true
    → (j : ℕ) → stopped j (block_stop i ∷ h) ≡ true
    → is_some (block_of j (block_stop i ∷ h)) ≡ true
unfolding stopped block_of
stop_started i h t b j s = ground (arith, t j)

Tracks-stop :
    (pos i : ℕ) (w : Walker) (h : List StreamEvent)
    → Tracks w h
    → (walk_event pos (block_stop i) w).1 ≡ none
    → Tracks (walk_event pos (block_stop i) w).0 (block_stop i ∷ h)
unfolding has_error has_message_stop block_of
Tracks-stop pos i w h t e =
    let (same_error, same_stop, same_seen) = stop_flags pos i w in
    record {
      seen = λ j. ap (has_seen j) same_seen ∙ t.seen j;
      tools = stop_tools pos i w h t e;
      non_tool = stop_non_tool pos i w h t e;
      started = stop_started i h t.started (live-started i h (stop-live pos i w h t e));
      errors = same_error ∙ t.errors;
      stops = same_stop ∙ t.stops;
      exclusive = stop_exclusive pos i w h t e;
      covered = stop_covered pos i w h t e;
    }

abbrev is_boundary : StreamEvent → Bool
is_boundary (block_start i b) = true
is_boundary (block_stop i) = true
is_boundary _ = false

Tracks-other :
    (pos : ℕ) (ev : StreamEvent) (w : Walker) (h : List StreamEvent)
    → Tracks w h
    → is_boundary ev ≡ false
    → (walk_event pos ev w).1 ≡ none
    → Tracks (walk_event pos ev w).0 (ev ∷ h)
unfolding walk_event has_error has_message_stop live_tool live_non_tool
Tracks-other pos (block_start i b) w h t n e = cc
Tracks-other pos (block_stop i) w h t n e = cc
Tracks-other pos ev w h t n e = record {
  seen = λ i. ground (arith, t.seen i);
  tools = λ i. ground (arith, t.tools i);
  non_tool = λ i. ground (arith, t.non_tool i);
  started = λ i s. ground (arith, t.started i);
  errors = ground (arith, t.errors);
  stops = ground (arith, t.stops);
  exclusive = λ n. ground (arith, t.exclusive);
  covered = λ n. ground (arith, t.covered);
}

-- Every event that is not refused keeps the state and the past in step.
pub Tracks-walk_event :
    (pos : ℕ) (ev : StreamEvent) (w : Walker) (h : List StreamEvent)
    → Tracks w h
    → (walk_event pos ev w).1 ≡ none
    → Tracks (walk_event pos ev w).0 (ev ∷ h)
Tracks-walk_event pos (block_start i b) w h t e = Tracks-start pos i b w h t e
Tracks-walk_event pos (block_stop i) w h t e = Tracks-stop pos i w h t e
Tracks-walk_event pos ev w h t e = Tracks-other pos ev w h t refl e
