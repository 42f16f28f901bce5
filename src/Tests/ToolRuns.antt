-- ===== src/Tests/ToolRuns.antt =====
-- `verifyToolScopes` of internal/plugin/streamverify.go on two signed calls.
use Prim.Native.String.{String}
use text.Mathlib.Text.{◌==◌ as str_eq}
use text.Mathlib.TextEquality.{eq_iff}
use torana_edge.Prelude.{
  ◌≡◌, ◌≤◌, refl, ◌⊎◌, inl, inr, List, [], ◌∷◌, none, some, Bool, true, false, ◌&&◌, ◌||◌, not, ℕ,
  arith, length, if◌then◌else◌,
}
use torana_edge.Stream.{function, block_start, block_stop, tool_call, tool_call_delta}
use torana_edge.Stream.Consume.{exact_pass, consume_first}
use torana_edge.Stream.ToolScopes.{
  ToolCallScope, verify_tool_scopes, tool_call_scope_of, scope_from, scope_event, consume_at,
  correlate_all, correlate, is_exact, tool_call_covered_content_equal, tool_call_content_changed,
  suppressed, invent, signature_mutation,
}
use torana_edge.Stream.Minting.{KeepsSignatures, copies, copies-verify_tool_scopes}
use torana_edge.Stream.PassThrough.{verify_tool_scopes-copies}
use torana_edge.Stream.Cardinality.{signed_count, length-verify_tool_scopes}

-- A signature goes with its content or is the accepted one over the same content.
abbrev pub keeps_or_clears : String → String → Bool → Bool
keeps_or_clears old signature changed =
    if str_eq signature "" then changed || str_eq old "" else str_eq signature old && not changed

abbrev pub verdict : Bool → Bool
verdict b = b

pub keeps_or_clears-KeepsSignatures : KeepsSignatures keeps_or_clears verdict
keeps_or_clears-KeepsSignatures old signature changed h =
    elim (str_eq signature "")
        as (λ b.
          str_eq signature "" ≡ b → (signature ≡ "") ⊎ ((signature ≡ old) × (changed ≡ false))) [
            | true ↦ λ e. inl ((eq_iff signature "").0 e)
            | false ↦ λ e. inr ((eq_iff signature old).0 (ground (arith, e)), ground (arith, e))
          ]
      refl

abbrev pub call_to : ℕ → String → String → ToolCallScope
call_to index name signature = record {
  index = index;
  found = true;
  signature = signature;
  id = "t";
  name = name;
  kind = function;
  arguments = "{}";
  input = "";
  input_seen = false;
}

abbrev two_calls : List ToolCallScope
two_calls = call_to 0 "search" "s" ∷ call_to 1 "fetch" "f" ∷ []

abbrev swapped : List ToolCallScope
swapped = call_to 0 "fetch" "f" ∷ call_to 1 "search" "s" ∷ []

abbrev no_grants : String → Bool
no_grants grant = false

assembled :
    tool_call_scope_of
      (block_start 0 (
          tool_call
            (record { id = "t"; name = "search"; signature = "s"; invocation_kind = function }))
        ∷ tool_call_delta (record { index = 0; arguments_delta = "{"; input_text_delta = none })
        ∷ tool_call_delta (record { index = 0; arguments_delta = "}"; input_text_delta = none })
        ∷ block_stop 0
        ∷ [])
      0
    ≡ call_to 0 "search" "s"
unfolding tool_call_scope_of scope_from scope_event
assembled = refl

-- A signature that is moved to another call is refused.
moved_signature :
    verify_tool_scopes keeps_or_clears verdict two_calls
      (call_to 0 "search" "f" ∷ call_to 1 "fetch" "s" ∷ [])
      no_grants
    ≡ some (signature_mutation 0 false)
unfolding verify_tool_scopes exact_pass consume_first consume_at correlate_all correlate is_exact
    tool_call_covered_content_equal tool_call_content_changed suppressed invent
moved_signature = refl

swapped_passes : verify_tool_scopes keeps_or_clears verdict two_calls swapped no_grants ≡ none
unfolding verify_tool_scopes exact_pass consume_first consume_at correlate_all correlate is_exact
    tool_call_covered_content_equal tool_call_content_changed suppressed invent
swapped_passes = refl

copies-verify_tool_scopes_example :
    copies (call_to 7 "fetch" "f") swapped ≤ copies (call_to 7 "fetch" "f") two_calls
copies-verify_tool_scopes_example =
    copies-verify_tool_scopes keeps_or_clears verdict keeps_or_clears-KeepsSignatures two_calls
      swapped no_grants (call_to 7 "fetch" "f") refl swapped_passes

swapped-copies : (s : ToolCallScope) → copies s swapped ≡ copies s two_calls
unfolding is_exact tool_call_covered_content_equal
swapped-copies s = omega arith

verify_tool_scopes-copies_example :
    verify_tool_scopes keeps_or_clears verdict two_calls swapped no_grants ≡ none
verify_tool_scopes-copies_example =
    verify_tool_scopes-copies keeps_or_clears verdict two_calls swapped no_grants swapped-copies

length-verify_tool_scopes_example :
    (length swapped ≤ length two_calls) × (signed_count two_calls ≤ length swapped)
length-verify_tool_scopes_example =
    length-verify_tool_scopes keeps_or_clears verdict no_grants refl two_calls swapped
      swapped_passes
