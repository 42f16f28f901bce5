-- ===== src/Stream/ToolScopes.antt =====
-- The bound signatures of tool-call blocks in internal/plugin/streamverify.go: the scope of a block
-- and `verifyToolScopes`. The kit's `ClassifySignatureMutation` and its `Allowed` are parameters.
use Prim.Native.String.{String}
use Prim.Native.String.{◌++◌ as str_append}
use package.text.Mathlib.Text.{◌==◌ as str_eq}
use torana_edge.Prelude.{
  ℕ, List, [], ◌∷◌, Bool, true, false, ◌&&◌, ◌||◌, not, Option, none, some, ◌==◌, if◌then◌else◌,
}
use torana_edge.Stream.Consume.{Flagged, unconsumed, keep_before, consume_first, exact_pass}
use torana_edge.Stream.{
  ToolInvocationKind, function, freeform, other, tool_call, StreamEvent, block_start,
  tool_call_delta,
}

abbrev pub stream_write_grant : String
stream_write_grant = "ir.stream.write"

pub record ToolCallScope : Type 0 where
  pub index : ℕ
  pub found : Bool
  pub signature : String
  pub id : String
  pub name : String
  pub kind : ToolInvocationKind
  pub arguments : String
  pub input : String
  pub input_seen : Bool

abbrev pub no_scope : ℕ → ToolCallScope
no_scope index = record {
  index = index;
  found = false;
  signature = "";
  id = "";
  name = "";
  kind = function;
  arguments = "";
  input = "";
  input_seen = false;
}

abbrev pub add_input : Option String → ToolCallScope → ToolCallScope
add_input none s = s
add_input (some text) s = record s { input_seen = true; input = str_append s.input text }

-- One event of the loop of `toolCallScopeOf`.
unfoldable pub scope_event : StreamEvent → ToolCallScope → ToolCallScope
scope_event (block_start idx (tool_call ref)) s =
    if idx == s.index
    then record s {
      found = true;
      signature = ref.signature;
      id = ref.id;
      name = ref.name;
      kind = ref.invocation_kind;
    }
    else s
scope_event (tool_call_delta d) s =
    if d.index == s.index
    then add_input d.input_text_delta
        (record s { arguments = str_append s.arguments d.arguments_delta })
    else s
scope_event ev s = s

unfoldable pub scope_from : List StreamEvent → ToolCallScope → ToolCallScope
unfolding scope_event
scope_from [] s = s
scope_from (ev ∷ evs) s = scope_from evs (scope_event ev s)

unfoldable pub tool_call_scope_of : List StreamEvent → ℕ → ToolCallScope
unfolding scope_from
tool_call_scope_of events index = scope_from events (no_scope index)

abbrev pub same_kind : ToolInvocationKind → ToolInvocationKind → Bool
same_kind function function = true
same_kind freeform freeform = true
same_kind (other i) (other j) = i == j
same_kind _ _ = false

abbrev pub same_flag : Bool → Bool → Bool
same_flag true b = b
same_flag false b = not b

unfoldable pub tool_call_covered_content_equal : ToolCallScope → ToolCallScope → Bool
tool_call_covered_content_equal a b =
    str_eq a.id b.id
    && str_eq a.name b.name
    && same_kind a.kind b.kind
    && str_eq a.arguments b.arguments
    && same_flag a.input_seen b.input_seen
    && str_eq a.input b.input

unfoldable pub tool_call_content_changed : ToolCallScope → ToolCallScope → Bool
tool_call_content_changed a b =
    not (str_eq a.id b.id)
    || not (str_eq a.name b.name)
    || not (same_kind a.kind b.kind)
    || not (str_eq a.arguments b.arguments)
    || not (same_flag a.input_seen b.input_seen)
    || not (str_eq a.input b.input)

-- The complete facts of a scope: the signature and what it covers.
unfoldable pub is_exact : ToolCallScope → ToolCallScope → Bool
unfolding tool_call_covered_content_equal
is_exact a b = str_eq a.signature b.signature && tool_call_covered_content_equal a b

-- The first scope at the index, unless it is consumed.
unfoldable pub consume_at :
    ℕ → List (Flagged ToolCallScope) → Option (ToolCallScope × List (Flagged ToolCallScope))
consume_at index [] = none
consume_at index ((used, a) ∷ rest) =
    let later = keep_before (used, a) (consume_at index rest) in
    if a.index == index then (if used then none else some (a, (true, a) ∷ rest)) else later

pub data ToolFault (Class : Type 0) : Type 0 where
  signature_mutation : ℕ → Class → ToolFault Class
  invented_signed invented suppressed_signed : ℕ → ToolFault Class

pub data Judged (Class : Type 0) : Type 0 where
  pass : List (Flagged ToolCallScope) → Judged Class
  fail : ToolFault Class → Judged Class

module _ {Class : Type 0} (classify : String → String → Bool → Class) (allowed : Class → Bool) where
  abbrev pub judge : ℕ → ToolCallScope → String → Bool → List (Flagged ToolCallScope) → Judged Class
  judge index a signature changed taken =
      let class = classify a.signature signature changed in
      if allowed class then pass taken else fail (signature_mutation index class)

  -- Phase 3: a block with no accepted counterpart.
  unfoldable pub invent :
      (String → Bool) → ToolCallScope → List (Flagged ToolCallScope) → Judged Class
  invent can_write r accepted =
      if not (str_eq r.signature "")
      then fail (invented_signed r.index)
      else if not (can_write stream_write_grant)
      then fail (invented r.index)
      else pass accepted

  -- Phases 2 and 2b, and phase 3 when they find nothing.
  unfoldable pub correlate :
      (String → Bool) → ToolCallScope → List (Flagged ToolCallScope) → Judged Class
  unfolding consume_at consume_first invent tool_call_content_changed
  correlate can_write r accepted = elim (consume_at r.index accepted) [
    | some (a, taken) ↦ judge r.index a r.signature (tool_call_content_changed a r) taken
    | none ↦ elim (consume_first (λ a. tool_call_covered_content_equal a r) accepted) [
      | some (a, taken) ↦ judge r.index a r.signature false taken
      | none ↦ invent can_write r accepted
    ]
  ]

  -- The loop over the returned scopes.
  unfoldable pub correlate_all :
      (String → Bool) → List (Flagged ToolCallScope) → List (Flagged ToolCallScope) → Judged Class
  unfolding correlate
  correlate_all can_write [] accepted = pass accepted
  correlate_all can_write ((true, r) ∷ rs) accepted = correlate_all can_write rs accepted
  correlate_all can_write ((false, r) ∷ rs) accepted = elim (correlate can_write r accepted) [
    | fail f ↦ fail f
    | pass taken ↦ correlate_all can_write rs taken
  ]

  -- Phase 4.
  unfoldable pub suppressed :
      (String → Bool) → List (Flagged ToolCallScope) → Option (ToolFault Class)
  suppressed can_write [] = none
  suppressed can_write ((used, a) ∷ rest) =
      let later = suppressed can_write rest in
      if used || str_eq a.signature ""
      then later
      else if not (can_write stream_write_grant)
      then some (suppressed_signed a.index)
      else later

  -- `none` is a stream whose bound signatures are kept.
  unfoldable pub verify_tool_scopes :
      List ToolCallScope → List ToolCallScope → (String → Bool) → Option (ToolFault Class)
  unfolding is_exact exact_pass correlate_all suppressed
  verify_tool_scopes accepted returned can_write =
      let (after, flags) = exact_pass is_exact returned (unconsumed accepted) in
      elim (correlate_all can_write flags after) [
        | fail f ↦ some f
        | pass rest ↦ suppressed can_write rest
      ]
