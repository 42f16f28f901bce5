-- ===== src/Feed/Subscribers.antt =====
-- What a subscriber of the feed receives.
use mathlib.Core.List.{reverse, append-nil, append_assoc}
use torana_edge.Prelude.{
  ℕ, zero, suc, ◌≤◌, ◌≡◌, refl, ap, sym, ◌∙◌, List, [], ◌∷◌, ◌++◌, Option, none, some, length, take,
  take_of_length-le, take-append_of_length, length-append, arith, ltb, ◌==◌, if◌then◌else◌,
  Bool-cases, inl, inr,
}
use torana_edge.Feed.{
  RequestFeed, Subscriber, subscriber_buf_size, send, broadcast, add, snapshot_from, snapshot,
  subscribe_with_snapshot, put_subscriber,
}
use torana_edge.Feed.Ring.{IsValid, add_all, snapshot-add_all}

module _ {ℓ} {E : Type ℓ} where
  -- The channel of the subscriber with an identifier.
  abbrev pub channel : ℕ → List (Subscriber E) → Option (List E)
  channel id [] = none
  channel id (sub ∷ subs) = if sub.id == id then some sub.ch else channel id subs

  deliver : E → List E → List E
  deliver ev ch = if ltb (length ch) subscriber_buf_size then ch ++ ev ∷ [] else ch

  deliver_all : List E → List E → List E
  deliver_all [] ch = ch
  deliver_all (ev ∷ es) ch = deliver_all es (deliver ev ch)

  channel-broadcast :
      (ev : E) (id : ℕ) (subs : List (Subscriber E)) (ch : List E)
      → channel id subs ≡ some ch
      → channel id (broadcast ev subs) ≡ some (deliver ev ch)
  unfolding broadcast send deliver
  channel-broadcast ev id [] ch h = cc
  channel-broadcast ev id (sub ∷ subs) ch h = ground (arith, channel-broadcast ev id subs ch)

  channel-broadcast-none :
      (ev : E) (id : ℕ) (subs : List (Subscriber E))
      → channel id subs ≡ none
      → channel id (broadcast ev subs) ≡ none
  unfolding broadcast send
  channel-broadcast-none ev id [] h = refl
  channel-broadcast-none ev id (sub ∷ subs) h = ground (arith, channel-broadcast-none ev id subs)

  channel-add_all :
      (es : List E) (id : ℕ) (f : RequestFeed E) (ch : List E)
      → channel id f.subscribers ≡ some ch
      → channel id (add_all es f).subscribers ≡ some (deliver_all es ch)
  unfolding add deliver_all
  channel-add_all [] id f ch h = h
  channel-add_all (ev ∷ es) id f ch h =
      channel-add_all es id (add ev f) (deliver ev ch) (channel-broadcast ev id f.subscribers ch h)

  deliver_all-take :
      (es ch : List E)
      → length ch ≤ subscriber_buf_size
      → deliver_all es ch ≡ take subscriber_buf_size (ch ++ es)
  unfolding deliver_all deliver
  deliver_all-take [] ch h = rw append-nil (sym (take_of_length-le subscriber_buf_size ch h))
  deliver_all-take (ev ∷ es) ch h = elim (Bool-cases (ltb (length ch) subscriber_buf_size)) [
    | inl room ↦ rw room (
        deliver_all-take es (ch ++ ev ∷ []) (ground (arith, length-append ch (ev ∷ [])))
        ∙ ap (take subscriber_buf_size) (append_assoc ch (ev ∷ []) es))
    | inr full ↦ rw full (
        deliver_all-take es ch h
        ∙ take-append_of_length subscriber_buf_size ch es (ground arith)
        ∙ sym (take-append_of_length subscriber_buf_size ch (ev ∷ es) (ground arith)))
  ]

  channel-put_subscriber :
      (new : Subscriber E) (subs : List (Subscriber E))
      → channel new.id (put_subscriber new subs) ≡ some new.ch
  unfolding put_subscriber
  channel-put_subscriber new [] = ground arith
  channel-put_subscriber new (sub ∷ subs) = ground (arith, channel-put_subscriber new subs)

  -- The ring does not depend on who listens.
  snapshot_from-subscribers :
      (z : E) (f : RequestFeed E) (subs : List (Subscriber E)) (next i n : ℕ)
      → snapshot_from z (record f { subscribers = subs; next_sub_id = next }) i n
        ≡ snapshot_from z f i n
  unfolding snapshot_from
  snapshot_from-subscribers z f subs next i zero = refl
  snapshot_from-subscribers z f subs next i (suc n) =
      rw (snapshot_from-subscribers z f subs next (suc i) n)

  snapshot-subscribers :
      (z : E) (f : RequestFeed E) (subs : List (Subscriber E)) (next : ℕ)
      → snapshot z (record f { subscribers = subs; next_sub_id = next }) ≡ snapshot z f
  unfolding snapshot
  snapshot-subscribers z f subs next = snapshot_from-subscribers z f subs next 0 f.count

  subscribed-IsValid :
      (f : RequestFeed E)
      → IsValid f
      → (subs : List (Subscriber E)) (next : ℕ)
      → IsValid (record f { subscribers = subs; next_sub_id = next })
  subscribed-IsValid f v subs next = record {
    positive = v.positive;
    head_inside = v.head_inside;
    count_capped = v.count_capped;
    buffer = v.buffer;
  }

  -- A new subscriber gets the snapshot of the moment, and then each later event in order, as far as
  -- its channel's buffer reaches; the snapshot followed by those events is what the feed holds
  -- later, so that no event is missed in between or seen twice.
  pub subscribe_with_snapshot-add_all :
      (z : E) (es : List E) (f : RequestFeed E)
      → IsValid f
      → let (snap, id, f') = subscribe_with_snapshot z f in
        (channel id (add_all es f').subscribers ≡ some (take subscriber_buf_size es))
        × (snapshot z (add_all es f') ≡ take f.cap (reverse es ++ snap))
  unfolding subscribe_with_snapshot
  subscribe_with_snapshot-add_all z es f v = (
    channel-add_all es f.next_sub_id _ []
          (channel-put_subscriber (record { id = f.next_sub_id; ch = [] }) f.subscribers)
        ∙ ap some (deliver_all-take es [] (omega arith)),
    snapshot-add_all z es _ (subscribed-IsValid f v _ _)
        ∙ ap (λ snap. take f.cap (reverse es ++ snap)) (snapshot-subscribers z f _ _),
  )
