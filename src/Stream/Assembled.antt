-- ===== src/Stream/Assembled.antt =====
-- The scan assembles the scopes of tool calls as `toolCallScopeOf` of internal/plugin/streamverify.go
-- reads them, one index at a time.
use torana_edge.Prelude.{
  ℕ, zero, suc, ◌≡◌, refl, sym, subst, ◌⊎◌, inl, inr, ◌+◌, List, [], ◌∷◌, ◌++◌, true, false, Option,
  none, some, ◌==◌, arith, Option-cases, get_elem?, if◌then◌else◌,
}
use torana_edge.Stream.{
  tool_call, ToolCallRef, ToolCallDelta, StreamEvent, block_start, block_stop, tool_call_delta,
}
use torana_edge.Stream.Discipline.{
  Walker, new_walker, lookup_tool, has_seen, walk_event, walk, walk_all, is_some,
}
use torana_edge.Stream.Scanned.{walk-taken, walk_all-taken}
use torana_edge.Stream.Tracking.{lookup-insert_tool, lookup-delete_tool}
use torana_edge.Stream.ToolScopes.{
  ToolCallScope, no_scope, scope_event, scope_from, tool_call_scope_of,
}
use torana_edge.Stream.Scan.{
  Scanning, new_scan, find_builder, drop_builder, open_builder, write_builder, write_delta, builder,
  scan_event, scan_from, scan_stream_signatures,
}

get_elem?-snoc :
    {A : Type 0} (xs : List A) (x : A) (n : ℕ) {y : A}
    → get_elem? (xs ++ (x ∷ [])) n ≡ some y
    → (get_elem? xs n ≡ some y) ⊎ (y ≡ x)
get_elem?-snoc [] x zero h = inr (ground arith)
get_elem?-snoc [] x (suc n) h = cc
get_elem?-snoc (z ∷ xs) x zero h = inl h
get_elem?-snoc (z ∷ xs) x (suc n) h = get_elem?-snoc xs x n h

find-open_builder :
    (idx i : ℕ) (ref : ToolCallRef) (bs : List ToolCallScope)
    → find_builder idx bs ≡ none
    → find_builder i (open_builder idx ref bs)
      ≡ (if idx == i then some (builder idx ref) else find_builder i bs)
unfolding find_builder open_builder
find-open_builder idx i ref [] h = ground arith
find-open_builder idx i ref (b ∷ bs) h = ground (arith, find-open_builder idx i ref bs)

find-drop_builder :
    (idx i : ℕ) (bs : List ToolCallScope)
    → find_builder i (drop_builder idx bs) ≡ (if idx == i then none else find_builder i bs)
unfolding find_builder drop_builder
find-drop_builder idx i [] = ground arith
find-drop_builder idx i (b ∷ bs) = ground (arith, find-drop_builder idx i bs)

abbrev written : ToolCallDelta → Option ToolCallScope → Option ToolCallScope
written d none = none
written d (some b) = some (write_delta d b)

find-write_builder :
    (d : ToolCallDelta) (i : ℕ) (bs : List ToolCallScope)
    → find_builder i (write_builder d bs)
      ≡ (if d.index == i then written d (find_builder i bs) else find_builder i bs)
unfolding find_builder write_builder
find-write_builder d i [] = ground arith
find-write_builder d i (b ∷ bs) = ground (arith, find-write_builder d i bs)

find-index :
    (i : ℕ) (bs : List ToolCallScope) {b : ToolCallScope} → find_builder i bs ≡ some b → b.index ≡ i
unfolding find_builder
find-index i [] h = cc
find-index i (a ∷ bs) {b} h = ground (arith, find-index i bs {b = b})

-- A scope that is finished is the one at its index, and nothing reopens it.
record Finished (w : Walker) (c : ℕ → ToolCallScope) (b : ToolCallScope) : Type 0 where
  same : b ≡ c b.index
  closed : lookup_tool b.index w.open_tools ≡ none
  begun : has_seen b.index w.seen ≡ true

-- The builders, and the scopes that are finished, against the scope `c i` read at each index.
pub record Built (w : Walker) (s : Scanning) (c : ℕ → ToolCallScope) : Type 0 where
  opens : (i : ℕ) (b : ToolCallScope) → find_builder i s.open_tools ≡ some b → b ≡ c i
  pub live : (i : ℕ) → is_some (find_builder i s.open_tools) ≡ is_some (lookup_tool i w.open_tools)
  pub begun : (i : ℕ) → is_some (lookup_tool i w.open_tools) ≡ true → has_seen i w.seen ≡ true
  ended : (n : ℕ) (b : ToolCallScope) → get_elem? s.tool_scopes n ≡ some b → Finished w c b
  fresh : (i : ℕ) → has_seen i w.seen ≡ false → c i ≡ no_scope i
  index : (i : ℕ) → (c i).index ≡ i

module _ (pos : ℕ) (w : Walker) (s : Scanning) (c : ℕ → ToolCallScope) (f : Built w s c) where
  build_opens :
      (ev : StreamEvent)
      → (walk_event pos ev w).1 ≡ none
      → (i : ℕ) (b : ToolCallScope) → find_builder i (scan_event ev s).open_tools ≡ some b
      → b ≡ scope_event ev (c i)
  unfolding walk_event scan_event scope_event
  build_opens (block_start idx (tool_call ref)) h i b e = ground (
    arith,
    f.opens i b,
    f.live idx,
    f.begun idx,
    f.fresh i,
    f.index i,
    find-open_builder idx i ref s.open_tools,
  )
  build_opens (block_stop idx) h i b e =
      ground (arith, f.opens i b, find-drop_builder idx i s.open_tools)
  build_opens (tool_call_delta d) h i b e = elim (Option-cases (find_builder i s.open_tools)) [
    | inl missing ↦ absurd (ground (arith, missing, find-write_builder d i s.open_tools))
    | inr (a, found) ↦
        ground (arith, found, find-write_builder d i s.open_tools, f.opens i a found, f.index i)
  ]
  build_opens ev h i b e = ground (arith, f.opens i b)

  build_live :
      (ev : StreamEvent)
      → (walk_event pos ev w).1 ≡ none
      → (i : ℕ)
      → is_some (find_builder i (scan_event ev s).open_tools)
        ≡ is_some (lookup_tool i (walk_event pos ev w).0.open_tools)
  unfolding walk_event scan_event
  build_live (block_start idx (tool_call ref)) h i = ground (
    arith,
    f.live i,
    f.live idx,
    f.begun idx,
    find-open_builder idx i ref s.open_tools,
    lookup-insert_tool idx i ref.invocation_kind w.open_tools,
  )
  build_live (block_stop idx) h i = ground (
    arith,
    f.live i,
    f.live idx,
    find-drop_builder idx i s.open_tools,
    lookup-delete_tool idx i w.open_tools,
  )
  build_live (tool_call_delta d) h i = ground (arith, f.live i, find-write_builder d i s.open_tools)
  build_live ev h i = ground (arith, f.live i)

  build_begun :
      (ev : StreamEvent)
      → (walk_event pos ev w).1 ≡ none
      → (i : ℕ) → is_some (lookup_tool i (walk_event pos ev w).0.open_tools) ≡ true
      → has_seen i (walk_event pos ev w).0.seen ≡ true
  unfolding walk_event has_seen
  build_begun (block_start idx (tool_call ref)) h i e =
      ground (arith, f.begun i, lookup-insert_tool idx i ref.invocation_kind w.open_tools)
  build_begun (block_stop idx) h i e =
      ground (arith, f.begun i, lookup-delete_tool idx i w.open_tools)
  build_begun ev h i e = ground (arith, f.begun i)

  build_fresh :
      (ev : StreamEvent)
      → (walk_event pos ev w).1 ≡ none
      → (i : ℕ) → has_seen i (walk_event pos ev w).0.seen ≡ false
      → scope_event ev (c i) ≡ no_scope i
  unfolding walk_event scope_event has_seen
  build_fresh ev h i e = ground (arith, f.fresh i, f.begun i, f.index i)

  build_index : (ev : StreamEvent) (i : ℕ) → (scope_event ev (c i)).index ≡ i
  unfolding scope_event
  build_index ev i = ground (arith, f.index i)

  keep_closed :
      (ev : StreamEvent) (b : ToolCallScope)
      → (walk_event pos ev w).1 ≡ none
      → Finished w c b
      → lookup_tool b.index (walk_event pos ev w).0.open_tools ≡ none
  unfolding walk_event has_seen
  keep_closed (block_start idx (tool_call ref)) b h d =
      ground
        (arith, d.closed, d.begun, lookup-insert_tool idx b.index ref.invocation_kind w.open_tools)
  keep_closed (block_stop idx) b h d =
      ground (arith, d.closed, lookup-delete_tool idx b.index w.open_tools)
  keep_closed ev b h d = ground (arith, d.closed)

  -- Nothing is added to a scope that is finished.
  keep_ended :
      (ev : StreamEvent) (b : ToolCallScope)
      → (walk_event pos ev w).1 ≡ none
      → Finished w c b
      → Finished (walk_event pos ev w).0 (λ i. scope_event ev (c i)) b
  unfolding walk_event scope_event has_seen
  keep_ended ev b h d = record {
    same = ground (arith, d.same, d.closed, d.begun, f.index b.index);
    closed = keep_closed ev b h d;
    begun = ground (arith, d.begun);
  }

  stop-ended :
      (idx : ℕ) (b : ToolCallScope)
      → find_builder idx s.open_tools ≡ some b
      → Finished (walk_event pos (block_stop idx) w).0 (λ i. scope_event (block_stop idx) (c i)) b
  unfolding walk_event scope_event
  stop-ended idx b found =
      let there = find-index idx s.open_tools {b = b} found in
      let live = f.live idx in
      record {
        same = ground (arith, there, f.opens idx b found);
        closed = ground (arith, there, lookup-delete_tool idx b.index w.open_tools, live, found);
        begun = ground (arith, there, live, found, f.begun idx);
      }

  build_ended :
      (ev : StreamEvent)
      → (walk_event pos ev w).1 ≡ none
      → (n : ℕ) (b : ToolCallScope) → get_elem? (scan_event ev s).tool_scopes n ≡ some b
      → Finished (walk_event pos ev w).0 (λ i. scope_event ev (c i)) b
  unfolding scan_event
  build_ended (block_stop idx) h n b e = elim (Option-cases (find_builder idx s.open_tools)) [
    | inl missing ↦ keep_ended (block_stop idx) b h (f.ended n b (ground (arith, missing)))
    | inr (a, found) ↦ elim (get_elem?-snoc s.tool_scopes a n (ground (arith, found))) [
      | inl before ↦ keep_ended (block_stop idx) b h (f.ended n b before)
      | inr now ↦ stop-ended idx b (ground (arith, found, now))
    ]
  ]
  build_ended ev h n b e = keep_ended ev b h (f.ended n b (ground arith))

  scan_event-Built :
      (ev : StreamEvent)
      → (walk_event pos ev w).1 ≡ none
      → Built (walk_event pos ev w).0 (scan_event ev s) (λ i. scope_event ev (c i))
  scan_event-Built ev h = record {
    opens = build_opens ev h;
    live = build_live ev h;
    begun = build_begun ev h;
    ended = build_ended ev h;
    fresh = build_fresh ev h;
    index = build_index ev;
  }

pub moved-Built :
    (pos : ℕ) (w : Walker) (s : Scanning) (c : ℕ → ToolCallScope)
    → Built w s c
    → Built (record w { pos = pos }) s c
moved-Built pos w s c f = record {
  opens = f.opens;
  live = f.live;
  begun = f.begun;
  ended = λ n b e.
      let d = f.ended n b e in record { same = d.same; closed = d.closed; begun = d.begun };
  fresh = f.fresh;
  index = f.index;
}

pub walk-Built :
    (ev : StreamEvent) (w : Walker) (s : Scanning) (c : ℕ → ToolCallScope)
    → Built w s c
    → (walk ev w).1 ≡ none
    → Built (walk ev w).0 (scan_event ev s) (λ i. scope_event ev (c i))
walk-Built ev w s c f h =
    let w' = record w { pos = w.pos + 1 } in
    let counted = moved-Built (w.pos + 1) w s c f in
    let same = walk-taken ev w h in
    subst (λ r. Built r.0 (scan_event ev s) (λ i. scope_event ev (c i))) (sym same)
      (scan_event-Built w.pos w' s c counted ev (ground (arith, same)))

scan_from-Built :
    (evs : List StreamEvent) (w : Walker) (s : Scanning) (c : ℕ → ToolCallScope)
    → Built w s c
    → (walk_all evs w).1 ≡ none
    → Built (walk_all evs w).0 (scan_from evs s) (λ i. scope_from evs (c i))
unfolding walk_all scan_from scope_from
scan_from-Built [] w s c f h = f
scan_from-Built (ev ∷ evs) w s c f h =
    let (fine, same) = walk_all-taken ev evs w h in
    subst
      (λ r.
        Built r.0 (scan_from evs (scan_event ev s)) (λ i. scope_from evs (scope_event ev (c i))))
      (sym same)
      (scan_from-Built evs (walk ev w).0 (scan_event ev s) (λ i. scope_event ev (c i))
        (walk-Built ev w s c f fine) (ground (arith, same)))

pub new-Built : Built new_walker new_scan (λ i. no_scope i)
unfolding find_builder lookup_tool
new-Built = record {
  opens = λ i b e. ground arith;
  live = λ i. refl;
  begun = λ i e. ground arith;
  ended = λ n b e. cc;
  fresh = λ i e. refl;
  index = λ i. refl;
}

-- In a stream that the walker takes, the scopes that the single pass assembles are those that the
-- reference reads at their indices.
pub scan_stream_signatures-tool_call_scope_of :
    (evs : List StreamEvent) (n : ℕ) (b : ToolCallScope)
    → (walk_all evs new_walker).1 ≡ none
    → get_elem? (scan_stream_signatures evs).tool_scopes n ≡ some b
    → b ≡ tool_call_scope_of evs b.index
unfolding scan_stream_signatures tool_call_scope_of find_builder lookup_tool
scan_stream_signatures-tool_call_scope_of evs n b h e =
    let d = (scan_from-Built evs new_walker new_scan (λ i. no_scope i) new-Built h).ended in
    (d n b (ground arith)).same
