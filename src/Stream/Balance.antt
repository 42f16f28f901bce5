-- ===== src/Stream/Balance.antt =====
-- What acceptance by the stream discipline means for a stream, read off its past alone.
use torana_edge.Prelude.{
  ℕ, ◌+◌, ◌≡◌, refl, ◌∙◌, sym, ◌⊎◌, ◌≢◌, subst, inl, inr, Option-cases, List, [], ◌∷◌, true, false,
  ◌||◌, none, some, arith,
}
use torana_edge.Stream.{
  ToolInvocationKind, Block, text, thinking, provider, tool_call, StreamEvent, error, usage,
  message_start, message_stop, block_start, block_stop, text_delta, thinking_delta, signature_delta,
  tool_call_delta,
}
use torana_edge.Stream.Discipline.{
  OpenBlockKind, text_block_open, thinking_block_open, provider_block_open, Walker, new_walker,
  lookup_tool, has_seen, is_some, some_open, validate_stream_tool_delta_family, walk_event, walk,
  after_stop, end, walk_all,
}
use torana_edge.Stream.Accepted.{
  validate_accepted_stream, walk_to_end, validate_accepted_stream-walk_all,
}
use torana_edge.Stream.Tracking.{Tracks, lookup-closed, stop-live, Tracks-walk_event}
use torana_edge.Stream.History.{
  block_of, stopped, has_error, has_message_stop, live_tool, live_non_tool,
}

-- No tool block is live after a past, and no block of another kind than those allowed.
abbrev NoTool : List StreamEvent → Type 0
NoTool h = (j : ℕ) → live_tool j h ≡ none

abbrev NoOther : List StreamEvent → Type 0
NoOther h = (j : ℕ) → live_non_tool j h ≡ none

abbrev OnlyKind : OpenBlockKind → List StreamEvent → Type 0
OnlyKind k h = (j : ℕ) → (live_non_tool j h ≡ none) ⊎ (live_non_tool j h ≡ some k)

-- When an event may follow a past.
abbrev pub MayStart : Block → List StreamEvent → Type 0
MayStart text h = NoTool h × NoOther h
MayStart thinking h = NoTool h × NoOther h
MayStart provider h = NoTool h × NoOther h
MayStart (tool_call ref) h = NoOther h
MayStart Block.unset h = Unit {0}

abbrev pub MayFollow : List StreamEvent → StreamEvent → Type 0
MayFollow h (block_start i b) = (block_of i h ≡ none) × MayStart b h
MayFollow h (block_stop i) = is_some (live_tool i h) || is_some (live_non_tool i h) ≡ true
MayFollow h (tool_call_delta d) =
    (k : ToolInvocationKind) × (live_tool d.index h ≡ some k)
    × (validate_stream_tool_delta_family k d ≡ none)
MayFollow h (text_delta s) = NoTool h × OnlyKind text_block_open h
MayFollow h (thinking_delta s) = NoTool h × OnlyKind thinking_block_open h
MayFollow h (signature_delta s) =
    NoTool h × ((j : ℕ) → live_non_tool j h ≢ some provider_block_open)
MayFollow h message_stop = NoTool h × NoOther h
MayFollow h _ = Unit {0}

-- Every event of the stream may follow what came before it, none follows an error, only usage or an
-- error follows the end of the message, and in the end no block is live unless an error cut it off.
abbrev pub IsBalanced : List StreamEvent → List StreamEvent → Type 0
IsBalanced h [] = has_error h ≡ false → NoTool h × NoOther h
IsBalanced h (ev ∷ evs) =
    (has_error h ≡ false)
    × (has_message_stop h ≡ true → after_stop ev ≡ true)
    × MayFollow h ev
    × IsBalanced (ev ∷ h) evs

module _ (w : Walker) (h : List StreamEvent) (t : Tracks w h) where
  no_tool : some_open w.open_tools ≡ false → NoTool h
  no_tool e j = sym (t.tools j) ∙ lookup-closed j w.open_tools e

  no_other : is_some w.non_tool ≡ false → NoOther h
  no_other e j = ground (arith, t.non_tool j)

  walk-MayStart :
      (pos i : ℕ) (b : Block) → (walk_event pos (block_start i b) w).1 ≡ none → MayStart b h
  unfolding walk_event
  walk-MayStart pos i text e = (no_tool (ground arith), no_other (ground arith))
  walk-MayStart pos i thinking e = (no_tool (ground arith), no_other (ground arith))
  walk-MayStart pos i provider e = (no_tool (ground arith), no_other (ground arith))
  walk-MayStart pos i (tool_call ref) e = no_other (ground arith)
  walk-MayStart pos i Block.unset e = tt

  walk-fresh :
      (pos i : ℕ) (b : Block) → (walk_event pos (block_start i b) w).1 ≡ none → block_of i h ≡ none
  unfolding walk_event
  walk-fresh pos i b e = ground (arith, t.seen i)

  walk-MayFollow : (pos : ℕ) (ev : StreamEvent) → (walk_event pos ev w).1 ≡ none → MayFollow h ev
  unfolding walk_event
  walk-MayFollow pos (block_start i b) e = (walk-fresh pos i b e, walk-MayStart pos i b e)
  walk-MayFollow pos (block_stop i) e = stop-live pos i w h t e
  walk-MayFollow pos (tool_call_delta d) e = ground (arith, t.tools d.index)
  walk-MayFollow pos (text_delta s) e =
      (no_tool (ground (arith, t.exclusive)), λ j. ground (arith, t.non_tool j))
  walk-MayFollow pos (thinking_delta s) e =
      (no_tool (ground (arith, t.exclusive)), λ j. ground (arith, t.non_tool j))
  walk-MayFollow pos (signature_delta s) e = (
    no_tool (ground (arith, t.exclusive, t.covered)),
    λ j. ground (arith, t.non_tool j, t.covered),
  )
  walk-MayFollow pos message_stop e = (no_tool (ground arith), no_other (ground arith))
  walk-MayFollow pos error e = tt
  walk-MayFollow pos usage e = tt
  walk-MayFollow pos message_start e = tt
  walk-MayFollow pos StreamEvent.unset e = tt

walk-event :
    (ev : StreamEvent) (w : Walker)
    → (walk ev w).1 ≡ none
    → (w.saw_error ≡ false)
      × (w.message_stopped ≡ true → after_stop ev ≡ true)
      × (walk ev w ≡ walk_event w.pos ev (record w { pos = w.pos + 1 }))
unfolding walk
walk-event ev w e = ground arith

Tracks-pos :
    (w : Walker) (h : List StreamEvent) (n : ℕ) → Tracks w h → Tracks (record w { pos = n }) h
Tracks-pos w h n t = record {
  seen = t.seen;
  tools = t.tools;
  non_tool = t.non_tool;
  started = t.started;
  errors = t.errors;
  stops = t.stops;
  exclusive = t.exclusive;
  covered = t.covered;
}

end-NoneLive :
    (w : Walker) (h : List StreamEvent)
    → Tracks w h
    → end w ≡ none
    → has_error h ≡ false
    → NoTool h × NoOther h
unfolding end
end-NoneLive w h t e n =
    (no_tool w h t (ground (arith, t.errors)), no_other w h t (ground (arith, t.errors)))

walk_to_end-IsBalanced :
    (evs : List StreamEvent) (w : Walker) (h : List StreamEvent)
    → Tracks w h
    → walk_to_end evs w ≡ none
    → IsBalanced h evs
unfolding walk_all
walk_to_end-IsBalanced [] w h t e = end-NoneLive w h t e
walk_to_end-IsBalanced (ev ∷ evs) w h t e = elim (Option-cases (walk ev w).1) [
  | inl fine ↦
      let (no_error, stopped, same) = walk-event ev w fine in
      let w' = record w { pos = w.pos + 1 } in
      let t' = Tracks-pos w h (w.pos + 1) t in
      let fine' : (walk_event w.pos ev w').1 ≡ none = subst (λ r. r.1 ≡ none) same fine in
      (
        sym t.errors ∙ no_error,
        λ m. stopped (t.stops ∙ m),
        walk-MayFollow w' h t' w.pos ev fine',
        walk_to_end-IsBalanced evs (walk ev w).0 (ev ∷ h)
            (subst (λ r. Tracks r.0 (ev ∷ h)) (sym same) (Tracks-walk_event w.pos ev w' h t' fine'))
            (ground arith),
      )
  | inr (f, refused) ↦ absurd (ground arith)
]

new_walker-Tracks : Tracks new_walker []
unfolding has_seen block_of lookup_tool live_tool live_non_tool has_error has_message_stop
new_walker-Tracks = record {
  seen = λ i. refl;
  tools = λ i. refl;
  non_tool = λ i. refl;
  started = λ i s. cc;
  errors = refl;
  stops = refl;
  exclusive = λ n. refl;
  covered = λ n. (refl, refl);
}

-- An accepted stream is balanced: each block starts at an index of its own, deltas and stops name
-- blocks that are live and of their kind, text and thinking run outside tool blocks, the message
-- ends with no block open, and in the end every block is stopped unless an error cut it off.
pub validate_accepted_stream-IsBalanced :
    (evs : List StreamEvent) → validate_accepted_stream evs ≡ none → IsBalanced [] evs
validate_accepted_stream-IsBalanced evs e =
    walk_to_end-IsBalanced evs new_walker [] new_walker-Tracks
      (sym (validate_accepted_stream-walk_all evs) ∙ e)
