-- ===== src/Tests/FeedRuns.antt =====
-- internal/metrics/feed.go at small capacities.
use mathlib.Core.List.{reverse}
use torana_edge.Prelude.{true, false, ℕ, ◌≡◌, refl, [], ◌∷◌, ◌++◌, some, take, arith}
use torana_edge.Prelude.Int.{pos}
use torana_edge.Feed.{
  RequestFeed, subscriber_buf_size, new_request_feed, add, snapshot, broadcast,
  subscribe_with_snapshot, unsubscribe,
}
use torana_edge.Feed.Ring.{IsValid, add_all, snapshot-add_all}
use torana_edge.Feed.Subscribers.{channel, subscribe_with_snapshot-add_all}

-- Three slots, the newest event 4 over the oldest one.
abbrev full : RequestFeed ℕ
full = record {
  buf = 4 ∷ 2 ∷ 3 ∷ [];
  head = 1;
  count = 3;
  cap = 3;
  subscribers = [];
  next_sub_id = 0;
}

full_reached : add_all (1 ∷ 2 ∷ 3 ∷ 4 ∷ []) (new_request_feed 0 (pos 3)) ≡ full
unfolding new_request_feed add broadcast
full_reached = refl

full-snapshot : snapshot 0 full ≡ 4 ∷ 3 ∷ 2 ∷ []
unfolding snapshot
full-snapshot = refl

full-IsValid : IsValid full
full-IsValid = omega arith

snapshot-add_all_example : snapshot 0 (add_all (5 ∷ 6 ∷ []) full) ≡ take 3 (6 ∷ 5 ∷ snapshot 0 full)
snapshot-add_all_example = snapshot-add_all 0 (5 ∷ 6 ∷ []) full full-IsValid

subscribe_with_snapshot-add_all_example :
    let (snap, id, f) = subscribe_with_snapshot 0 full in
    (channel id (add_all (5 ∷ 6 ∷ []) f).subscribers ≡ some (take subscriber_buf_size (5 ∷ 6 ∷ [])))
    × (snapshot 0 (add_all (5 ∷ 6 ∷ []) f) ≡ take 3 (reverse (5 ∷ 6 ∷ []) ++ snap))
subscribe_with_snapshot-add_all_example =
    subscribe_with_snapshot-add_all 0 (5 ∷ 6 ∷ []) full full-IsValid

abbrev watched : RequestFeed ℕ
watched = record full {
  subscribers = record { id = 0; ch = 3 ∷ 4 ∷ [] } ∷ record { id = 1; ch = 4 ∷ [] } ∷ [];
  next_sub_id = 2;
}

-- Unsubscribing twice takes off one channel and closes it once.
unsubscribed :
    (let (sub, f) = unsubscribe (record { id = 0; once_done = false; closed = false }) watched in
      unsubscribe sub f)
    ≡ (
      record { id = 0; once_done = true; closed = true },
      record watched { subscribers = record { id = 1; ch = 4 ∷ [] } ∷ [] },
    )
unfolding unsubscribe
unsubscribed = refl
