-- ===== src/Stream/Scanned.antt =====
-- What the scan finds in a stream that the incremental walker accepts.
use Prim.Native.String.{String}
use torana_edge.Prelude.{
  sym, subst, Option-cases, ◌+◌, ℕ, ◌≡◌, refl, List, [], ◌∷◌, ◌++◌, Bool, true, false, ◌&&◌, ◌||◌,
  not, none, ◌==◌, arith,
}
use torana_edge.Stream.{
  ToolInvocationKind, tool_call, ToolCallRef, ToolCallDelta, StreamEvent, block_start, block_stop,
  signature_delta, tool_call_delta,
}
use torana_edge.Stream.Discipline.{
  Walker, new_walker, lookup_tool, insert_tool, delete_tool, is_some, some_open, is_textual,
  open_is, walk_event, walk, walk_all,
}
use torana_edge.Stream.Tracking.{lookup-closed}
use torana_edge.Stream.ToolScopes.{ToolCallScope}
use torana_edge.Stream.Content.{SigBinding, unbound, same_binding_kind}
use torana_edge.Stream.Scan.{
  Scanning, new_scan, find_builder, drop_builder, open_builder, write_builder, in_span,
  after_closed, scan_event, scan_from, scan_stream_signatures, scan_signature,
}
use torana_edge.Stream.Bindings.{has_unbound}

-- The walker's open tools and the scan's builders stand at the same indices.
abbrev aligned : List (ℕ × ToolInvocationKind) → List ToolCallScope → Bool
aligned [] [] = true
aligned ((i, k) ∷ m) (b ∷ bs) = i == b.index && aligned m bs
aligned _ _ = false

aligned-open :
    (idx : ℕ) (ref : ToolCallRef) (m : List (ℕ × ToolInvocationKind)) (bs : List ToolCallScope)
    → aligned m bs ≡ true
    → aligned (insert_tool idx ref.invocation_kind m) (open_builder idx ref bs) ≡ true
unfolding insert_tool open_builder
aligned-open idx ref [] [] h = ground arith
aligned-open idx ref ((i, k) ∷ m) (b ∷ bs) h = ground (arith, aligned-open idx ref m bs)
aligned-open idx ref [] (b ∷ bs) h = cc
aligned-open idx ref ((i, k) ∷ m) [] h = cc

aligned-drop :
    (idx : ℕ) (m : List (ℕ × ToolInvocationKind)) (bs : List ToolCallScope)
    → aligned m bs ≡ true
    → aligned (delete_tool idx m) (drop_builder idx bs) ≡ true
unfolding delete_tool drop_builder
aligned-drop idx [] [] h = ground arith
aligned-drop idx ((i, k) ∷ m) (b ∷ bs) h = ground (arith, aligned-drop idx m bs)
aligned-drop idx [] (b ∷ bs) h = cc
aligned-drop idx ((i, k) ∷ m) [] h = cc

aligned-write :
    (d : ToolCallDelta) (m : List (ℕ × ToolInvocationKind)) (bs : List ToolCallScope)
    → aligned m bs ≡ true
    → aligned m (write_builder d bs) ≡ true
unfolding write_builder
aligned-write d [] [] h = refl
aligned-write d ((i, k) ∷ m) (b ∷ bs) h = ground (arith, aligned-write d m bs)
aligned-write d [] (b ∷ bs) h = cc
aligned-write d ((i, k) ∷ m) [] h = cc

aligned-find :
    (idx : ℕ) (m : List (ℕ × ToolInvocationKind)) (bs : List ToolCallScope)
    → aligned m bs ≡ true
    → is_some (find_builder idx bs) ≡ is_some (lookup_tool idx m)
unfolding find_builder lookup_tool
aligned-find idx [] [] h = refl
aligned-find idx ((i, k) ∷ m) (b ∷ bs) h = ground (arith, aligned-find idx m bs)
aligned-find idx [] (b ∷ bs) h = cc
aligned-find idx ((i, k) ∷ m) [] h = cc

aligned-some_open :
    (m : List (ℕ × ToolInvocationKind)) (bs : List ToolCallScope)
    → aligned m bs ≡ true
    → some_open bs ≡ some_open m
aligned-some_open [] [] h = refl
aligned-some_open (e ∷ m) (b ∷ bs) h = refl
aligned-some_open [] (b ∷ bs) h = cc
aligned-some_open (e ∷ m) [] h = cc

has_unbound-append :
    (bs : List SigBinding) (b : SigBinding)
    → has_unbound (bs ++ (b ∷ [])) ≡ (has_unbound bs || same_binding_kind b.kind unbound)
unfolding has_unbound
has_unbound-append [] b = ground arith
has_unbound-append (c ∷ bs) b = ground (arith, has_unbound-append bs b)

-- A delta with a span, an open block of text or closed content to cover is bound.
has_unbound-scan_signature :
    (token : String) (s : Scanning)
    → (s.span_open
        || s.block_open && s.block_text
        || not (s.block_open || some_open s.open_tools) && s.saw_text)
      ≡ true
    → has_unbound (scan_signature token s).bindings ≡ has_unbound s.bindings
unfolding scan_signature
has_unbound-scan_signature token s h = ground (
  arith,
  has_unbound-append s.bindings (in_span token s),
  has_unbound-append s.bindings (after_closed token s),
)

-- The scan's variables say what the walker's state says.
record Follows (w : Walker) (s : Scanning) : Type 0 where
  spans : s.span_open ≡ w.span_open
  texts : s.saw_text ≡ w.saw_text
  blocks : s.block_open ≡ is_some w.non_tool
  textual : (s.block_open && s.block_text) ≡ open_is is_textual w.non_tool
  tools : aligned w.open_tools s.open_tools ≡ true
  exclusive : is_some w.non_tool ≡ true → some_open w.open_tools ≡ false
  bound : has_unbound s.bindings ≡ false

follow_spans :
    (pos : ℕ) (ev : StreamEvent) (w : Walker) (s : Scanning)
    → Follows w s
    → (walk_event pos ev w).1 ≡ none
    → (scan_event ev s).span_open ≡ (walk_event pos ev w).0.span_open
unfolding walk_event scan_event
follow_spans pos (block_stop idx) w s f h =
    ground (arith, f.spans, f.texts, f.textual, aligned-find idx w.open_tools s.open_tools f.tools)
follow_spans pos ev w s f h = ground (arith, f.spans, f.texts, f.textual)

follow_texts :
    (pos : ℕ) (ev : StreamEvent) (w : Walker) (s : Scanning)
    → Follows w s
    → (walk_event pos ev w).1 ≡ none
    → (scan_event ev s).saw_text ≡ (walk_event pos ev w).0.saw_text
unfolding walk_event scan_event
follow_texts pos (block_stop idx) w s f h = ground (
  arith,
  f.spans,
  f.texts,
  f.blocks,
  f.textual,
  f.exclusive,
  aligned-some_open w.open_tools s.open_tools f.tools,
  aligned-find idx w.open_tools s.open_tools f.tools,
)
follow_texts pos ev w s f h = ground (
  arith,
  f.spans,
  f.texts,
  f.blocks,
  f.textual,
  f.exclusive,
  aligned-some_open w.open_tools s.open_tools f.tools,
)

follow_blocks :
    (pos : ℕ) (ev : StreamEvent) (w : Walker) (s : Scanning)
    → Follows w s
    → (walk_event pos ev w).1 ≡ none
    → (scan_event ev s).block_open ≡ is_some (walk_event pos ev w).0.non_tool
unfolding walk_event scan_event
follow_blocks pos (block_stop idx) w s f h = ground (
  arith,
  f.spans,
  f.texts,
  f.blocks,
  f.textual,
  f.exclusive,
  aligned-some_open w.open_tools s.open_tools f.tools,
  aligned-find idx w.open_tools s.open_tools f.tools,
)
follow_blocks pos ev w s f h = ground (
  arith,
  f.spans,
  f.texts,
  f.blocks,
  f.textual,
  f.exclusive,
  aligned-some_open w.open_tools s.open_tools f.tools,
)

follow_textual :
    (pos : ℕ) (ev : StreamEvent) (w : Walker) (s : Scanning)
    → Follows w s
    → (walk_event pos ev w).1 ≡ none
    → ((scan_event ev s).block_open && (scan_event ev s).block_text)
      ≡ open_is is_textual (walk_event pos ev w).0.non_tool
unfolding walk_event scan_event
follow_textual pos (block_stop idx) w s f h = ground (
  arith,
  f.spans,
  f.texts,
  f.blocks,
  f.textual,
  f.exclusive,
  aligned-some_open w.open_tools s.open_tools f.tools,
  aligned-find idx w.open_tools s.open_tools f.tools,
)
follow_textual pos ev w s f h = ground (
  arith,
  f.spans,
  f.texts,
  f.blocks,
  f.textual,
  f.exclusive,
  aligned-some_open w.open_tools s.open_tools f.tools,
)

follow_tools :
    (pos : ℕ) (ev : StreamEvent) (w : Walker) (s : Scanning)
    → Follows w s
    → (walk_event pos ev w).1 ≡ none
    → aligned (walk_event pos ev w).0.open_tools (scan_event ev s).open_tools ≡ true
unfolding walk_event scan_event
follow_tools pos (block_start idx (tool_call ref)) w s f h =
    ground (arith, f.tools, aligned-open idx ref w.open_tools s.open_tools)
follow_tools pos (tool_call_delta d) w s f h =
    ground (arith, f.tools, aligned-write d w.open_tools s.open_tools)
follow_tools pos (block_stop idx) w s f h = ground (
  arith,
  f.tools,
  aligned-drop idx w.open_tools s.open_tools,
  aligned-find idx w.open_tools s.open_tools f.tools,
)
follow_tools pos ev w s f h = ground (arith, f.tools)

follow_exclusive :
    (pos : ℕ) (ev : StreamEvent) (w : Walker) (s : Scanning)
    → Follows w s
    → (walk_event pos ev w).1 ≡ none
    → is_some (walk_event pos ev w).0.non_tool ≡ true
    → some_open (walk_event pos ev w).0.open_tools ≡ false
unfolding walk_event scan_event
follow_exclusive pos (block_stop idx) w s f h open_block =
    ground (arith, f.exclusive, lookup-closed idx w.open_tools)
follow_exclusive pos ev w s f h open_block = ground (arith, f.exclusive, f.blocks)

follow_bound :
    (pos : ℕ) (ev : StreamEvent) (w : Walker) (s : Scanning)
    → Follows w s
    → (walk_event pos ev w).1 ≡ none
    → has_unbound (scan_event ev s).bindings ≡ false
unfolding walk_event scan_event
follow_bound pos (signature_delta token) w s f h = ground (
  arith,
  f.bound,
  f.spans,
  f.texts,
  f.blocks,
  f.textual,
  f.exclusive,
  aligned-some_open w.open_tools s.open_tools f.tools,
  has_unbound-scan_signature token s,
)
follow_bound pos (block_stop idx) w s f h = ground (
  arith,
  f.bound,
  f.spans,
  f.texts,
  f.blocks,
  f.textual,
  f.exclusive,
  aligned-some_open w.open_tools s.open_tools f.tools,
  aligned-find idx w.open_tools s.open_tools f.tools,
)
follow_bound pos ev w s f h = ground (
  arith,
  f.bound,
  f.spans,
  f.texts,
  f.blocks,
  f.textual,
  f.exclusive,
  aligned-some_open w.open_tools s.open_tools f.tools,
)

scan_event-Follows :
    (pos : ℕ) (ev : StreamEvent) (w : Walker) (s : Scanning)
    → Follows w s
    → (walk_event pos ev w).1 ≡ none
    → Follows (walk_event pos ev w).0 (scan_event ev s)
scan_event-Follows pos ev w s f h = record {
  spans = follow_spans pos ev w s f h;
  texts = follow_texts pos ev w s f h;
  blocks = follow_blocks pos ev w s f h;
  textual = follow_textual pos ev w s f h;
  tools = follow_tools pos ev w s f h;
  exclusive = follow_exclusive pos ev w s f h;
  bound = follow_bound pos ev w s f h;
}

-- An event that the walker takes is judged by its kind alone, and the rest of the stream after it.
pub walk-taken :
    (ev : StreamEvent) (w : Walker)
    → (walk ev w).1 ≡ none
    → walk ev w ≡ walk_event w.pos ev (record w { pos = w.pos + 1 })
unfolding walk
walk-taken ev w h = ground arith

pub walk_all-taken :
    (ev : StreamEvent) (evs : List StreamEvent) (w : Walker)
    → (walk_all (ev ∷ evs) w).1 ≡ none
    → ((walk ev w).1 ≡ none) × (walk_all (ev ∷ evs) w ≡ walk_all evs (walk ev w).0)
unfolding walk_all
walk_all-taken ev evs w h =
    let fine : (walk ev w).1 ≡ none = ground (arith, Option-cases (walk ev w).1) in
    (fine, ground (arith, fine))

walk-Follows :
    (ev : StreamEvent) (w : Walker) (s : Scanning)
    → Follows w s
    → (walk ev w).1 ≡ none
    → Follows (walk ev w).0 (scan_event ev s)
walk-Follows ev w s f h =
    let w' = record w { pos = w.pos + 1 } in
    let counted : Follows w' s = record {
      spans = f.spans;
      texts = f.texts;
      blocks = f.blocks;
      textual = f.textual;
      tools = f.tools;
      exclusive = f.exclusive;
      bound = f.bound;
    } in
    let same = walk-taken ev w h in
    subst (λ r. Follows r.0 (scan_event ev s)) (sym same)
      (scan_event-Follows w.pos ev w' s counted (ground (arith, same)))

walk_all-Follows :
    (evs : List StreamEvent) (w : Walker) (s : Scanning)
    → Follows w s
    → (walk_all evs w).1 ≡ none
    → Follows (walk_all evs w).0 (scan_from evs s)
unfolding scan_from walk_all
walk_all-Follows [] w s f h = f
walk_all-Follows (ev ∷ evs) w s f h =
    let (fine, same) = walk_all-taken ev evs w h in
    subst (λ r. Follows r.0 (scan_from evs (scan_event ev s))) (sym same)
      (walk_all-Follows evs (walk ev w).0 (scan_event ev s) (walk-Follows ev w s f fine)
        (ground (arith, same)))

-- In a stream that the walker takes, each signature delta covers something.
pub has_unbound-scan_stream_signatures :
    (evs : List StreamEvent)
    → (walk_all evs new_walker).1 ≡ none
    → has_unbound (scan_stream_signatures evs).bindings ≡ false
unfolding scan_stream_signatures has_unbound
has_unbound-scan_stream_signatures evs h =
    let started : Follows new_walker new_scan = record {
      spans = refl;
      texts = refl;
      blocks = refl;
      textual = refl;
      tools = refl;
      exclusive = λ open_block. refl;
      bound = refl;
    } in
    let f = walk_all-Follows evs new_walker new_scan started h in ground (arith, f.bound)
