-- ===== src/Suggest/Records.antt =====
-- The changes that internal/suggest/store.go makes to the suggestions of a record, each of them the
-- closure that it hands to `update`.
use Prim.Native.String.{String}
use text.Mathlib.Text.{◌==◌ as str_eq}
use torana_edge.Prelude.{
  ℕ, ◌+◌, ◌-◌, ◌%◌, ◌^◌, List, [], ◌∷◌, Bool, true, false, ◌&&◌, ◌||◌, not, Option, none, some, leb,
  if◌then◌else◌,
}
use torana_edge.Prelude.Assoc.{lookup, remove}
use torana_edge.Suggest.{
  Status, pending, accepted, dismissed, expired, Suggestion, OperationRecord, Record,
}

abbrev pub is_pending : Status → Bool
is_pending pending = true
is_pending _ = false

abbrev pub is_accepted : Status → Bool
is_accepted accepted = true
is_accepted _ = false

-- The test of the loop of `expire`, on one item and its operation if it has one.
unfoldable pub runs_out : ℕ → ℕ → Option OperationRecord → Suggestion → Bool
runs_out now turn none item =
    is_pending item.status
    && (leb item.created_turn turn && leb item.expires_after_user_turns (turn - item.created_turn))
runs_out now turn (some operation) item =
    (is_pending item.status || (is_accepted item.status && not operation.applying))
    && leb operation.expires_at now

pub record Expiry : Type 0 where
  pub items : List Suggestion
  pub operations : List (String × OperationRecord)
  pub changed : Bool

unfoldable pub expire_items : ℕ → ℕ → List (String × OperationRecord) → List Suggestion → Expiry
unfolding runs_out
expire_items now turn operations [] = record {
  items = [];
  operations = operations;
  changed = false;
}
expire_items now turn operations (item ∷ items) =
    let out = runs_out now turn (lookup item.id operations) item in
    let rest =
      expire_items now turn (if out then remove item.id operations else operations) items in
    record rest {
      items = (if out then record item { status = expired } else item) ∷ rest.items;
      changed = out || rest.changed;
    }

unfoldable pub expire : ℕ → ℕ → Record → Record × Bool
unfolding expire_items
expire now turn current =
    let e = expire_items now turn current.operations current.suggestions in
    (record current { suggestions = e.items; operations = e.operations }, e.changed)

-- What a resolution may be: `accepted`, `dismissed`, or a text that is refused.
pub data Resolution : Type 0 where
  accept dismiss other : Resolution

abbrev pub status_of : Resolution → Status
status_of accept = accepted
status_of _ = dismissed

-- The loop of `ResolveID` and `ResolveCode`: the first pending item that the test names.
unfoldable pub resolve_first :
    (Suggestion → Bool) → Status → String → List Suggestion → List Suggestion × Option Suggestion
resolve_first names to via [] = ([], none)
resolve_first names to via (item ∷ items) =
    let resolved = record item { status = to; action = some to; via = via } in
    let (rest, found) = resolve_first names to via items in
    if names item && is_pending item.status
    then (resolved ∷ items, some resolved)
    else (item ∷ rest, found)

-- The record, whether it changed, and the item that was resolved, if any.
unfoldable pub resolve :
    (Suggestion → Bool) → Status → String → ℕ → ℕ → Record → Record × Bool × Option Suggestion
resolve names to via now turn current =
    let (fresh, changed) = expire now turn current in
    let (items, found) = resolve_first names to via fresh.suggestions in
    elim found [
      | none ↦ (fresh, changed, none)
      | some item ↦ (record fresh { suggestions = items }, true, some item)
    ]

abbrev pub by_id : String → Suggestion → Bool
by_id id item = str_eq item.id id

abbrev pub by_code : String → Suggestion → Bool
by_code code item = str_eq item.code code

-- `acceptHarnessSwitch`: the items after it, and the accepted ones.
unfoldable pub accept_items : String → String → List Suggestion → List Suggestion × List Suggestion
accept_items model via [] = ([], [])
accept_items model via (item ∷ items) =
    let taken = record item { status = accepted; action = some accepted; via = via } in
    let (rest, others) = accept_items model via items in
    if is_pending item.status && (str_eq item.harness_target_model model && not (str_eq model ""))
    then (taken ∷ rest, taken ∷ others)
    else (item ∷ rest, others)

unfoldable pub accept_harness_switch : String → String → Record → Record × List Suggestion
accept_harness_switch model via current =
    let (items, taken) = accept_items model via current.suggestions in
    (record current { suggestions = items }, taken)

abbrev pub some_taken : List Suggestion → Bool
some_taken [] = false
some_taken (_ ∷ _) = true

-- `AcceptHarnessSwitchVia`'s change.
unfoldable pub accept_harness_switch_via :
    String → String → ℕ → ℕ → Record → Record × Bool × List Suggestion
accept_harness_switch_via model via now turn current =
    let (fresh, changed) = expire now turn current in
    let (after, taken) = accept_harness_switch model via fresh in
    if str_eq via "harness_switch" && not (str_eq fresh.last_harness_switch_source "")
    then (fresh, changed, [])
    else (after, changed || some_taken taken, taken)

-- `ObserveAdapterSwitch`'s change.
unfoldable pub observe_adapter_switch :
    String → String → ℕ → ℕ → Record → Record × Bool × List Suggestion
observe_adapter_switch model source now turn current =
    let (fresh, changed) = expire now turn current in
    let moved =
      not (str_eq fresh.last_harness_model model)
      || not (str_eq fresh.last_harness_switch_source source) in
    let noted = record fresh { last_harness_model = model; last_harness_switch_source = source } in
    let (after, taken) = accept_harness_switch model "adapter" noted in
    if str_eq source "auto" || str_eq source "resume"
    then (noted, changed || moved, [])
    else (after, changed || moved || some_taken taken, taken)

-- The loop of `ClaimHookAnnouncement`.
unfoldable pub announce_first : List Suggestion → List Suggestion × Option Suggestion
announce_first [] = ([], none)
announce_first (item ∷ items) =
    let claimed = record item { hook_announced = true } in
    let (rest, found) = announce_first items in
    if is_pending item.status && not item.hook_announced
    then (claimed ∷ items, some claimed)
    else (item ∷ rest, found)

unfoldable pub claim_hook_announcement : ℕ → ℕ → Record → Record × Bool × Option Suggestion
claim_hook_announcement now turn current =
    let (fresh, changed) = expire now turn current in
    let (items, found) = announce_first fresh.suggestions in
    elim found [
      | none ↦ (fresh, changed, none)
      | some item ↦ (record fresh { suggestions = items }, true, some item)
    ]

unfoldable pub disable_notices : Record → Record × Bool
disable_notices current =
    if current.notice_disabled
    then (current, false)
    else (record current { notice_disabled = true }, true)

-- `ObserveUserTurn`'s change, for a signature that is not empty; the counter is a `uint64`.
unfoldable pub observe_user_turn : String → Record → Record × Bool × ℕ
observe_user_turn signature current =
    let turns = (current.user_turns + 1) % 2 ^ 64 in
    if str_eq current.last_user_signature signature
    then (current, false, current.user_turns)
    else (record current { user_turns = turns; last_user_signature = signature }, true, turns)

-- The items that `List` returns.
unfoldable pub of_plugin : String → List Suggestion → List Suggestion
of_plugin plugin [] = []
of_plugin plugin (item ∷ items) =
    let rest = of_plugin plugin items in
    if str_eq plugin "" || str_eq item.plugin plugin then item ∷ rest else rest
