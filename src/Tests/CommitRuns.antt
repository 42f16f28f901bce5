-- ===== src/Tests/CommitRuns.antt =====
-- The announcement of internal/suggest/store.go on the memory backend of
-- internal/pluginstate/store.go, with another plugin's calls in between.
use torana_edge.Prelude.{
  ℕ, ◌≡◌, ◌⊎◌, refl, List, [], ◌∷◌, true, false, none, some, Option, if◌then◌else◌, ◌==◌,
}
use torana_edge.Prelude.Assoc.{lookup, insert, remove}
use torana_edge.PluginState.{
  get_versioned, compare_and_set, set, set_memory, write, mismatch, validate_write, entry_size,
}
use torana_edge.PluginState.Entries.{Op, put, drop}
use torana_edge.Suggest.{Suggestion, Error, pending}
use torana_edge.Suggest.Records.{
  expire, expire_items, runs_out, announce_first, claim_hook_announcement,
}
use torana_edge.Suggest.Update.{update, update_loop, attempt, change_read, write_back, read}
use torana_edge.Suggest.Atomic.{Idle}
use torana_edge.Suggest.Reports.{announce_change}
use torana_edge.Suggest.OnStore.{state_namespace, VersionedStore, after_calls, on_store}
use torana_edge.PluginState.Limits.{IsWithin, apply_all-IsWithin}
use torana_edge.Suggest.Kept.{update_stored-IsWithin}
use torana_edge.Suggest.Committed.{update_stored, IsCommitted, reached, update_stored-atomic}
use torana_edge.Tests.StateRuns.{
  tally, tally-distinct, empty_store, empty_store-IsVersioned, empty_store-IsWithin,
}
use torana_edge.Tests.UpdateRuns.{advice, encode, decode}

-- One pending suggestion is stored.
abbrev pub start : VersionedStore tally
start =
    after_calls tally (put state_namespace "k" "pending" none false ∷ [])
      (empty_store, ∣ empty_store-IsVersioned ∣₁)

-- Another plugin writes before the first write and deletes before the next read.
abbrev writes : ℕ → List Op
writes n = if n == 7 then put "p" "j" "w" none false ∷ [] else []

abbrev deletes : ℕ → List Op
deletes n = drop "p" "j" ∷ []

abbrev announce : VersionedStore tally → VersionedStore tally × Option Suggestion × Option Error
announce s =
    update_stored tally "k" tally-distinct encode decode "c" (announce_change 20 1) writes deletes s
      none

announced : announce start ≡ ((announce start).0, some (advice pending true), none)
unfolding update update_loop attempt change_read write_back read announce_change
    claim_hook_announcement announce_first expire expire_items runs_out lookup insert remove
    get_versioned compare_and_set set set_memory write mismatch validate_write entry_size
announced = refl

update_stored-atomic_example :
    IsCommitted tally "k" tally-distinct encode decode "c"
      (announce_change 20 1)
      writes
      deletes
      (announce start).0
      (some (advice pending true))
    ⊎ Idle
        (on_store tally "k" tally-distinct)
        encode
        decode
        "c"
        (announce_change 20 1)
        (λ n. after_calls tally (writes n))
        (λ n. after_calls tally (deletes n))
        (reached tally "k" tally-distinct encode decode "c" (announce_change 20 1) writes deletes)
        (announce start).0
        (some (advice pending true))
update_stored-atomic_example =
    update_stored-atomic tally "k" tally-distinct encode decode "c" (announce_change 20 1) writes
      deletes start (announce start).0 none (some (advice pending true)) announced

start-IsWithin : IsWithin start.0
start-IsWithin =
    apply_all-IsWithin tally (put state_namespace "k" "pending" none false ∷ []) empty_store
      empty_store-IsWithin

update_stored-IsWithin_example : IsWithin (announce start).0.0
update_stored-IsWithin_example =
    update_stored-IsWithin tally "k" tally-distinct encode decode "c" (announce_change 20 1) writes
      deletes start none start-IsWithin
