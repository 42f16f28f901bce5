-- ===== src/Suggest/Reports.antt =====
-- What the calls of internal/suggest/store.go report to their callers when `update` goes round more
-- than once: `ClaimHookAnnouncement` clears what it selected at each round, `ResolveID` and
-- `ResolveCode` do not.
use Prim.Native.String.{String}
use text.Mathlib.Text.{◌==◌ as str_eq}
use torana_edge.Prelude.{
  ℕ, ◌≡◌, ◌≢◌, Bool, true, false, Option, none, some, inl, inr, if◌then◌else◌, arith,
}
use torana_edge.Suggest.{Suggestion, Record, Error, not_found, invalid}
use torana_edge.Suggest.Records.{
  Resolution, accept, other, status_of, resolve, by_id, by_code, claim_hook_announcement,
}
use torana_edge.Suggest.Creation.{Outcome, ok, err}
use torana_edge.Suggest.Update.{
  State, refused, current, read, write_back, change_read, attempt, update_loop, update,
}
use torana_edge.Suggest.Atomic.{Applied, update-atomic}

-- The closure of `ClaimHookAnnouncement`: `selected` is cleared first.
unfoldable pub announce_change :
    ℕ → ℕ → Option Suggestion → Record → Outcome (Record × Bool × Option Suggestion)
announce_change now turn selected r = ok (claim_hook_announcement now turn r)

abbrev keep_resolved : Option Suggestion → Option Suggestion → Option Suggestion
keep_resolved resolved none = resolved
keep_resolved resolved (some item) = some item

-- The closure of `ResolveID` and `ResolveCode`: `resolved` is only ever set.
unfoldable pub resolve_change :
    (Suggestion → Bool)
    → Resolution
    → String
    → ℕ
    → ℕ
    → Option Suggestion
    → Record
    → Outcome (Record × Bool × Option Suggestion)
resolve_change names to via now turn resolved r =
    let (r', changed, found) = resolve names (status_of to) via now turn r in
    ok (r', changed, keep_resolved resolved found)

abbrev pub report : Option Suggestion → Option Error → Outcome Suggestion
report resolved (some e) = err e
report none none = err not_found
report (some item) none = ok item

module _ (state : State) (encode : Record → Option String) (decode : String → Option Record)
    (conversation : String) (before_write before_read : ℕ → state.S → state.S) where
  unfoldable pub announce_call : ℕ → ℕ → state.S → state.S × Option Suggestion × Option Error
  announce_call now turn s =
      update state encode decode conversation (announce_change now turn) before_write before_read s
        none

  unfoldable pub resolve_call :
      (Suggestion → Bool) → Resolution → String → ℕ → ℕ → state.S → state.S × Outcome Suggestion
  resolve_call names other via now turn s = (s, err (invalid "invalid suggestion action"))
  resolve_call names to via now turn s =
      let (s', resolved, e) =
        update state encode decode conversation (resolve_change names to via now turn) before_write
          before_read s none in
      (s', report resolved e)

  unfoldable pub resolve_code_call :
      String → Resolution → String → ℕ → ℕ → state.S → state.S × Outcome Suggestion
  unfolding resolve_call
  resolve_code_call code to via now turn s = resolve_call (by_code code) to via now turn s

  unfoldable pub resolve_id_call :
      String → Resolution → String → ℕ → ℕ → state.S → state.S × Outcome Suggestion
  unfolding resolve_call
  resolve_id_call id other via now turn s = (s, err (invalid "invalid suggestion action"))
  resolve_id_call id to via now turn s =
      if str_eq id "" then (s, err not_found) else resolve_call (by_id id) to via now turn s

  announce_change-writes :
      (now turn : ℕ) (c : Option Suggestion) (r r' : Record) (item : Suggestion)
      → announce_change now turn c r ≢ ok (r', false, some item)
  unfolding announce_change claim_hook_announcement
  announce_change-writes now turn c r r' item h = ground arith

  -- An announcement that is handed out was marked in the store by this very call: the record that the
  -- store held when the write was applied offered it, and the marked record is what was stored.
  pub announce_call-Applied :
      (later : (n : ℕ) (s : state.S) → state.Later s (before_write n s)) (now turn : ℕ)
      (s s' : state.S) (item : Suggestion)
      → announce_call now turn s ≡ (s', some item, none)
      → Applied state encode decode conversation
          (announce_change now turn)
          before_write
          before_read
          later
          s'
          (some item)
  unfolding announce_call
  announce_call-Applied later now turn s s' item h =
      elim (update-atomic state encode decode conversation (announce_change now turn) before_write
        before_read later s s' none (some item) h) [
          | inl done ↦ done
          | inr idle ↦ absurd (
              announce_change-writes now turn idle.with_captured idle.seen idle.result item
                idle.unchanged)
        ]

  -- A resolution that lost its first write, and then finds nothing to resolve, still reports success
  -- with the item it had wanted to write, though it wrote nothing.
  pub resolve_id_call-lost :
      (id via : String) (now turn : ℕ) (s : state.S) (r r' r2 r2' : Record)
      (e e2 : Option state.Version) (t : String) (item : Suggestion)
      → str_eq id "" ≡ false
      → read state encode decode conversation s ≡ current r e
      → resolve (by_id id) (status_of accept) via now turn r ≡ (r', true, some item)
      → encode r' ≡ some t
      → (state.cas t e (before_write 7 s)).1 ≡ refused
      → read state encode decode conversation (before_read 7 (state.cas t e (before_write 7 s)).0)
        ≡ current r2 e2
      → resolve (by_id id) (status_of accept) via now turn r2 ≡ (r2', false, none)
      → resolve_id_call id accept via now turn s
        ≡ (before_read 7 (state.cas t e (before_write 7 s)).0, ok item)
  unfolding resolve_id_call resolve_call update update_loop attempt change_read write_back
      resolve_change
  resolve_id_call-lost id via now turn s r r' r2 r2' e e2 t item n h f w l h2 f2 =
      ground (arith, n, h, f, w, l, h2, f2)
