-- ===== src/Stream/ToolStarts.antt =====
-- How many tool blocks the scan of internal/plugin/streamverify.go records.
use torana_edge.Prelude.{
  ℕ, ◌+◌, ◌≡◌, refl, ◌∙◌, sym, subst, List, [], ◌∷◌, Bool, true, false, ◌&&◌, not, none, arith,
  length, length-append, if◌then◌else◌, Option-cases, inl, inr,
}
use torana_edge.Stream.{ToolInvocationKind, tool_call, StreamEvent, block_start, block_stop}
use torana_edge.Stream.Discipline.{
  Walker, new_walker, lookup_tool, insert_tool, delete_tool, walk_event, walk, walk_all, is_some,
}
use torana_edge.Stream.Scanned.{walk-taken, walk_all-taken}
use torana_edge.Stream.Tracking.{lookup-insert_tool, lookup-delete_tool}
use torana_edge.Stream.ToolScopes.{ToolCallScope, no_scope, scope_event}
use torana_edge.Stream.Scan.{
  Scanning, new_scan, find_builder, scan_event, scan_from, scan_stream_signatures, close_span,
  materialize_span, reset_span_state, scan_stop,
}
use torana_edge.Stream.Assembled.{Built, moved-Built, new-Built, walk-Built}

-- How many tool blocks a stream starts.
abbrev pub tool_starts : List StreamEvent → ℕ
tool_starts [] = 0
tool_starts (block_start idx (tool_call ref) ∷ evs) = tool_starts evs + 1
tool_starts (_ ∷ evs) = tool_starts evs

-- Each index is open once.
abbrev open_once : List (ℕ × ToolInvocationKind) → Bool
open_once [] = true
open_once ((i, k) ∷ m) = not (is_some (lookup_tool i m)) && open_once m

length-insert_tool :
    (i : ℕ) (k : ToolInvocationKind) (m : List (ℕ × ToolInvocationKind))
    → is_some (lookup_tool i m) ≡ false
    → length (insert_tool i k m) ≡ length m + 1
unfolding lookup_tool insert_tool
length-insert_tool i k [] h = refl
length-insert_tool i k ((j, l) ∷ m) h = ground (arith, h, length-insert_tool i k m)

once-insert_tool :
    (i : ℕ) (k : ToolInvocationKind) (m : List (ℕ × ToolInvocationKind))
    → is_some (lookup_tool i m) ≡ false
    → open_once m ≡ true
    → open_once (insert_tool i k m) ≡ true
unfolding lookup_tool insert_tool
once-insert_tool i k [] h o = refl
once-insert_tool i k ((j, l) ∷ m) h o =
    ground (arith, h, o, once-insert_tool i k m, lookup-insert_tool i j k m)

length-delete_tool :
    (i : ℕ) (m : List (ℕ × ToolInvocationKind))
    → open_once m ≡ true
    → length (delete_tool i m) + (if is_some (lookup_tool i m) then 1 else 0) ≡ length m
unfolding lookup_tool delete_tool
length-delete_tool i [] o = refl
length-delete_tool i ((j, l) ∷ m) o = ground (arith, o, length-delete_tool i m)

once-delete_tool :
    (i : ℕ) (m : List (ℕ × ToolInvocationKind))
    → open_once m ≡ true
    → open_once (delete_tool i m) ≡ true
unfolding lookup_tool delete_tool
once-delete_tool i [] o = refl
once-delete_tool i ((j, l) ∷ m) o =
    ground (arith, o, once-delete_tool i m, lookup-delete_tool i j m)

scopes-scan_stop : (s : Scanning) → (scan_stop s).tool_scopes ≡ s.tool_scopes
unfolding scan_stop close_span materialize_span reset_span_state
scopes-scan_stop s = ground arith

scopes-close_span : (s : Scanning) → (close_span s).tool_scopes ≡ s.tool_scopes
unfolding close_span materialize_span reset_span_state
scopes-close_span s = ground arith

-- The tool blocks so far are recorded or open.
record Counted (w : Walker) (s : Scanning) (n : ℕ) : Type 0 where
  once : open_once w.open_tools ≡ true
  all : length s.tool_scopes + length w.open_tools ≡ n

module _ (pos : ℕ) (w : Walker) (s : Scanning) (c : ℕ → ToolCallScope) (f : Built w s c) (n : ℕ)
    (k : Counted w s n) where
  count_once :
      (ev : StreamEvent)
      → (walk_event pos ev w).1 ≡ none
      → open_once (walk_event pos ev w).0.open_tools ≡ true
  unfolding walk_event
  count_once (block_start idx (tool_call ref)) h =
      ground (arith, k.once, f.begun idx, once-insert_tool idx ref.invocation_kind w.open_tools)
  count_once (block_stop idx) h = ground (arith, k.once, once-delete_tool idx w.open_tools)
  count_once ev h = ground (arith, k.once)

  count_all :
      (ev : StreamEvent)
      → (walk_event pos ev w).1 ≡ none
      → length (scan_event ev s).tool_scopes + length (walk_event pos ev w).0.open_tools
        ≡ n + tool_starts (ev ∷ [])
  unfolding walk_event scan_event
  count_all (block_start idx (tool_call ref)) h =
      ground (arith, k.all, f.begun idx, length-insert_tool idx ref.invocation_kind w.open_tools)
  count_all (block_stop idx) h = elim (Option-cases (find_builder idx s.open_tools)) [
    | inl missing ↦ ground (
      arith,
      missing,
      k.all,
      f.live idx,
      scopes-scan_stop s,
      length-delete_tool idx w.open_tools k.once,
    )
    | inr (b, found) ↦ ground (
      arith,
      found,
      k.all,
      f.live idx,
      length-append s.tool_scopes (b ∷ []),
      length-delete_tool idx w.open_tools k.once,
    )
  ]
  count_all ev h = ground (arith, k.all)

walk-Counted :
    (ev : StreamEvent) (w : Walker) (s : Scanning) (c : ℕ → ToolCallScope) (n : ℕ)
    → Built w s c
    → Counted w s n
    → (walk ev w).1 ≡ none
    → Counted (walk ev w).0 (scan_event ev s) (n + tool_starts (ev ∷ []))
walk-Counted ev w s c n f k h =
    let w' = record w { pos = w.pos + 1 } in
    let same = walk-taken ev w h in
    let f' : Built w' s c = moved-Built (w.pos + 1) w s c f in
    let k' : Counted w' s n = record { once = k.once; all = k.all } in
    let fine : (walk_event w.pos ev w').1 ≡ none = ground (arith, same) in
    subst (λ r. Counted r.0 (scan_event ev s) (n + tool_starts (ev ∷ []))) (sym same)
      (record {
        once = count_once w.pos w' s c f' n k' ev fine;
        all = count_all w.pos w' s c f' n k' ev fine;
      })

tool_starts-cons :
    (n : ℕ) (ev : StreamEvent) (evs : List StreamEvent)
    → (n + tool_starts (ev ∷ [])) + tool_starts evs ≡ n + tool_starts (ev ∷ evs)
tool_starts-cons n ev evs = ground arith

scan_from-Counted :
    (evs : List StreamEvent) (w : Walker) (s : Scanning) (c : ℕ → ToolCallScope) (n : ℕ)
    → Built w s c
    → Counted w s n
    → (walk_all evs w).1 ≡ none
    → Counted (walk_all evs w).0 (scan_from evs s) (n + tool_starts evs)
unfolding walk_all scan_from
scan_from-Counted [] w s c n f k h = record { once = k.once; all = omega (arith, k.all) }
scan_from-Counted (ev ∷ evs) w s c n f k h =
    let (fine, same) = walk_all-taken ev evs w h in
    let later =
      scan_from-Counted evs (walk ev w).0 (scan_event ev s) (λ i. scope_event ev (c i))
        (n + tool_starts (ev ∷ [])) (walk-Built ev w s c f fine) (walk-Counted ev w s c n f k fine)
        (ground (arith, same)) in
    subst (λ r. Counted r.0 (scan_from evs (scan_event ev s)) (n + tool_starts (ev ∷ evs)))
      (sym same) (record { once = later.once; all = later.all ∙ tool_starts-cons n ev evs })

-- Of a stream that the incremental walker takes, the scan records as many tool blocks as the stream
-- starts, less those that the walker has open in the end.
pub length-scan_stream_signatures :
    (evs : List StreamEvent)
    → (walk_all evs new_walker).1 ≡ none
    → length (scan_stream_signatures evs).tool_scopes
        + length (walk_all evs new_walker).0.open_tools
      ≡ tool_starts evs
unfolding scan_stream_signatures
length-scan_stream_signatures evs h =
    let start : Counted new_walker new_scan 0 = record { once = refl; all = refl } in
    let k = scan_from-Counted evs new_walker new_scan (λ i. no_scope i) 0 new-Built start h in
    ground (arith, scopes-close_span (scan_from evs new_scan), k.all)
