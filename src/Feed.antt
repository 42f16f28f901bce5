-- ===== src/Feed.antt =====
-- The recent-request feed of internal/metrics/feed.go: a ring buffer of events, and the buffered
-- channels of its subscribers. The feed only copies events, so their type, its zero value and the
-- conversation that an event belongs to are parameters.
use Prim.Native.String.{String}
use text.Mathlib.Text.{◌==◌ as str_eq}
use torana_edge.Prelude.{
  ℕ, zero, suc, ◌+◌, ◌-◌, ◌%◌, ◌^◌, Bool, true, List, [], ◌∷◌, ◌++◌, length, set, get_or, replicate,
  ltb, ◌==◌, if◌then◌else◌,
}
use torana_edge.Prelude.Int.{ℤ, pos, negsuc}
pub mod Ring
pub mod Subscribers

abbrev pub default_feed_capacity : ℕ
default_feed_capacity = 200

abbrev pub subscriber_buf_size : ℕ
subscriber_buf_size = 64

-- A subscriber's channel: the events that wait in it, oldest first.
pub record Subscriber {ℓ} (E : Type ℓ) : Type ℓ where
  pub id : ℕ
  pub ch : List E

pub record RequestFeed {ℓ} (E : Type ℓ) : Type ℓ where
  pub buf : List E
  pub head : ℕ
  pub count : ℕ
  pub cap : ℕ
  pub subscribers : List (Subscriber E)
  pub next_sub_id : ℕ

-- What an unsubscribe closure holds: the identifier, whether its `once` has run, and whether the
-- channel is closed. A receiver still drains what waits in a closed channel.
pub record Subscription : Type 0 where
  pub id : ℕ
  pub once_done : Bool
  pub closed : Bool

abbrev capacity_of : ℤ → ℕ
capacity_of (pos n) = if n == 0 then default_feed_capacity else n
capacity_of (negsuc n) = default_feed_capacity

module _ {ℓ} {E : Type ℓ} where
  unfoldable pub new_request_feed : E → ℤ → RequestFeed E
  new_request_feed zero_event capacity = record {
    buf = replicate (capacity_of capacity) zero_event;
    head = 0;
    count = 0;
    cap = capacity_of capacity;
    subscribers = [];
    next_sub_id = 0;
  }

  -- `select { case sub.ch <- ev: default: }`
  unfoldable pub send : E → Subscriber E → Subscriber E
  send ev sub =
      if ltb (length sub.ch) subscriber_buf_size then record sub { ch = sub.ch ++ ev ∷ [] } else sub

  unfoldable pub broadcast : E → List (Subscriber E) → List (Subscriber E)
  broadcast ev [] = []
  broadcast ev (sub ∷ subs) = send ev sub ∷ broadcast ev subs

  unfoldable pub add : E → RequestFeed E → RequestFeed E
  add ev f = record f {
    buf = set f.buf f.head ev;
    head = (f.head + 1) % f.cap;
    count = if ltb f.count f.cap then f.count + 1 else f.count;
    subscribers = broadcast ev f.subscribers;
  }

  -- The loop of `Snapshot` from `i` on, for `n` more rounds. The Go expression `head - 1 - i + cap`
  -- is not negative, since `i < count ≤ cap`.
  unfoldable pub snapshot_from : E → RequestFeed E → ℕ → ℕ → List E
  snapshot_from zero_event f i zero = []
  snapshot_from zero_event f i (suc n) =
      get_or f.buf ((f.head + f.cap - 1 - i) % f.cap) zero_event
      ∷ snapshot_from zero_event f (suc i) n

  unfoldable pub snapshot : E → RequestFeed E → List E
  unfolding snapshot_from
  snapshot zero_event f = snapshot_from zero_event f 0 f.count

  unfoldable pub of_conversation : (E → String) → String → List E → List E
  of_conversation conversation_id id [] = []
  of_conversation conversation_id id (ev ∷ evs) =
      let rest = of_conversation conversation_id id evs in
      if str_eq (conversation_id ev) id then ev ∷ rest else rest

  unfoldable pub snapshot_for_conversation : E → (E → String) → RequestFeed E → String → List E
  unfolding of_conversation
  snapshot_for_conversation zero_event conversation_id f id =
      if str_eq id "" then [] else of_conversation conversation_id id (snapshot zero_event f)

  -- `f.subscribers[id] = sub`
  unfoldable pub put_subscriber : Subscriber E → List (Subscriber E) → List (Subscriber E)
  put_subscriber new [] = new ∷ []
  put_subscriber new (sub ∷ subs) =
      let rest = put_subscriber new subs in if sub.id == new.id then new ∷ subs else sub ∷ rest

  -- The snapshot, the identifier that the unsubscribe closure captures, and the feed.
  unfoldable pub subscribe_with_snapshot : E → RequestFeed E → List E × ℕ × RequestFeed E
  unfolding put_subscriber
  subscribe_with_snapshot zero_event f = (
    snapshot zero_event f,
    f.next_sub_id,
    record f {
      subscribers = put_subscriber (record { id = f.next_sub_id; ch = [] }) f.subscribers;
      next_sub_id = (f.next_sub_id + 1) % 2 ^ 64;
    },
  )

  unfoldable pub remove_subscriber : ℕ → List (Subscriber E) → List (Subscriber E)
  remove_subscriber id [] = []
  remove_subscriber id (sub ∷ subs) =
      let rest = remove_subscriber id subs in if sub.id == id then rest else sub ∷ rest

  -- The unsubscribe closure: its first call takes the channel off the feed and closes it, and a later
  -- one does nothing.
  unfoldable pub unsubscribe : Subscription → RequestFeed E → Subscription × RequestFeed E
  unfolding remove_subscriber
  unsubscribe sub f = if sub.once_done then (sub, f) else (
    record sub { once_done = true; closed = true },
    record f { subscribers = remove_subscriber sub.id f.subscribers },
  )
