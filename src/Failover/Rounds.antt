-- ===== src/Failover/Rounds.antt =====
-- The shape of the round trip of internal/proxy/failover.go: what holds before the first exchange, and
-- is kept by each exchange, holds of what is handed over.
use torana_edge.Prelude.{
  ℕ, ◌+◌, ◌≤◌, ◌≡◌, refl, List, [], ◌∷◌, ◌++◌, true, false, not, Option, none, length, take, drop,
  ltb, arith, if◌then◌else◌, if-both, take-append-drop, take_of_length-le, length-take, sym, subst,
  Bool-cases, Option-cases, ◌⊎◌, Bool, true, false, none, some, Option, inl, inr,
}
use Prim.Native.String.{String}
use torana_edge.Failover.{
  Outcome, Sent, Response, Turn, Returned, read_failed, release, close_last, hand_over, exchange,
  Surroundings, usable, accepted_status, try_fallbacks, attempt_first, attempt_buffered,
  RequestBody, absent, content, RouteContext, block_of, round_trip, extract_fallbacks, synthetic,
}

-- What a fallback is sent: the body that the bridge makes for it, or the bytes.
abbrev pub retry_for : Surroundings → List ℕ → String → List ℕ
retry_for e body name = if e.bridged then e.bridge_body name else body

-- The bytes of the request's body, and whether reading it fails after them.
abbrev pub whole : RequestBody → List ℕ
whole (content body breaks) = body
whole absent = []

abbrev pub breaks_off : RequestBody → Bool
breaks_off (content body breaks) = breaks
breaks_off absent = false

read_whole :
    (limit : ℕ) (body : List ℕ)
    → ltb limit (length (take (limit + 1) body)) ≡ false
    → length body ≤ limit + 1
read_whole limit body h = ground (arith, length-take (limit + 1) body)

-- A property `Start` of the world before the first exchange, `P` of the last response and the world
-- after one, for a first exchange that sends what is `Whole` and later ones that send
-- what is `Allowed`, and `Q` of the result.
module _ (e : Surroundings) (answer : ℕ → Outcome) (primary : String)
    (Whole Allowed : Sent → Type 0) (Start : Turn → Type 0) (P : Option Response → Turn → Type 0)
    (Q : Turn × Returned → Type 0)
    (finish : (last : Option Response) (t : Turn) → P last t → Q (hand_over last t))
    (first : (s : Sent) (t : Turn)
      → Whole s
      → s.target ≡ primary
      → Start t
      → P (exchange answer s t).1 (exchange answer s t).0)
    (again : (s : Sent) (last : Option Response) (t : Turn)
      → Allowed s
      → accepted_status last ≡ false
      → P last t
      → P
          (exchange answer s (record t { provider = s.target })).1
          (close_last last (exchange answer s (record t { provider = s.target })).0)) where
  try_fallbacks-ends :
      (body : List ℕ) (look : ℕ) (names : List String) (last : Option Response) (t : Turn)
      → ((name : String)
          → Allowed (record { target = name; body = retry_for e body name; broken_off = false }))
      → accepted_status last ≡ false
      → P last t
      → Q (try_fallbacks e answer primary body look names last t)
  unfolding try_fallbacks
  try_fallbacks-ends body look [] last t allowed bad p = finish last t p
  try_fallbacks-ends body look (name ∷ names) last t allowed bad p =
      let s : Sent = record { target = name; body = retry_for e body name; broken_off = false } in
      let p' = again s last t (allowed name) bad p in
      let (sent, response) = exchange answer s (record t { provider = name }) in
      if-both Q (not (usable e (e.cfg (look + 1)) primary name))
        (λ unusable. try_fallbacks-ends body (look + 1) names last t allowed bad p)
        (λ fine.
          if-both Q (accepted_status response) (λ good. finish response (close_last last sent) p')
            (λ worse.
              try_fallbacks-ends body (look + 1) names response (close_last last sent) allowed worse
                p'))

  attempt_first-alone :
      (body retry_body : List ℕ) (breaks : Bool) (t : Turn)
      → Whole (record { target = primary; body = body; broken_off = breaks })
      → Start t
      → Q (attempt_first e answer primary body breaks [] retry_body t)
  unfolding attempt_first
  attempt_first-alone body retry_body breaks t ok p =
      let s : Sent = record { target = primary; body = body; broken_off = breaks } in
      let p' = first s t ok refl p in
      let (sent, response) = exchange answer s t in
      if-both Q (accepted_status response) (λ good. finish response sent p')
        (λ bad. finish response sent p')

  attempt_first-ends :
      (body : List ℕ) (fallbacks : List String) (t : Turn)
      → Whole (record { target = primary; body = body; broken_off = false })
      → ((name : String)
          → Allowed (record { target = name; body = retry_for e body name; broken_off = false }))
      → Start t
      → Q (attempt_first e answer primary body false fallbacks body t)
  unfolding attempt_first
  attempt_first-ends body [] t ok allowed p = attempt_first-alone body body false t ok p
  attempt_first-ends body (name ∷ names) t ok allowed p =
      let s : Sent = record { target = primary; body = body; broken_off = false } in
      let p' = first s t ok refl p in
      let (sent, response) = exchange answer s t in
      if-both Q (accepted_status response) (λ good. finish response sent p')
        (λ bad. try_fallbacks-ends body 0 (name ∷ names) response sent allowed bad p')

  -- `Start` says nothing of the request's own body, which is closed when it has been read.
  module _ (read_body : (t : Turn) → Start t → Start (record t { request_closed = true }))
      (unread_body : (t : Turn)
        → Start t
        → Q (release (record t { request_closed = true }), read_failed)) where
    -- The body is within the limit: it cannot be read, or is sent and may be sent again.
    buffered-ends :
        (body : List ℕ) (breaks : Bool) (fallbacks : List String) (t : Turn)
        → Whole (record { target = primary; body = body; broken_off = breaks })
        → (breaks ≡ false
            → (name : String)
            → Allowed (record { target = name; body = retry_for e body name; broken_off = false }))
        → Start t
        → Q (
            if breaks
            then (release (record t { request_closed = true }), read_failed)
            else attempt_first e answer primary body false fallbacks body
                (record t { request_closed = true }))
    buffered-ends body true fallbacks t ok allowed p = unread_body t p
    buffered-ends body false fallbacks t ok allowed p =
        attempt_first-ends body fallbacks (record t { request_closed = true }) ok (allowed refl)
          (read_body t p)

    pub attempt_buffered-ends :
        (max_body_size : ℕ) (fallbacks : List String) (body : RequestBody) (t : Turn)
        → Whole (record { target = primary; body = whole body; broken_off = breaks_off body })
        → (breaks_off body ≡ false
            → (name : String)
            → Allowed (record {
              target = name;
              body = retry_for e (whole body) name;
              broken_off = false;
            }))
        → Start t
        → Q (attempt_buffered e answer max_body_size primary fallbacks body t)
    unfolding attempt_buffered
    attempt_buffered-ends max_body_size fallbacks absent t ok allowed p =
        attempt_first-ends [] fallbacks t ok (allowed refl) p
    attempt_buffered-ends max_body_size [] (content body breaks) t ok allowed p =
        attempt_first-alone body [] breaks t ok p
    attempt_buffered-ends max_body_size (name ∷ names) (content body breaks) t ok allowed p =
        let read = take (max_body_size + 1) body in
        let rest = drop (max_body_size + 1) body in
        elim (Bool-cases (ltb max_body_size (length read))) [
          | inl large ↦
              let same : attempt_buffered e answer max_body_size primary (name ∷ names)
                    (content body breaks) t
                  ≡ attempt_first e answer primary (read ++ rest) breaks [] [] t =
                ground (arith, large) in
              let all = take-append-drop (max_body_size + 1) body in
              subst Q (sym same) (
                subst (λ b. Q (attempt_first e answer primary b breaks [] [] t)) (sym all)
                  (attempt_first-alone body [] breaks t ok p))
          | inr fits ↦
              let t' = record t { request_closed = true } in
              let end_with = λ (b : List ℕ).
                if breaks
                then (release t', read_failed)
                else attempt_first e answer primary b false (name ∷ names) b t' in
              let same : attempt_buffered e answer max_body_size primary (name ∷ names)
                    (content body breaks) t
                  ≡ end_with read =
                ground (arith, fits) in
              let all =
                take_of_length-le (max_body_size + 1) body (read_whole max_body_size body fits) in
              subst Q (sym same) (
                subst (λ b. Q (end_with b)) (sym all)
                  (buffered-ends body breaks (name ∷ names) t ok allowed p))
        ]

abbrev pub takes_lease : Option RouteContext → Bool → Bool
takes_lease rc admitted = elim (block_of rc) [ none ↦ admitted | some b ↦ false ]

-- A request that is blocked or refused gets an answer of the program's own; any other is attempted.
pub round_trip-cases :
    (e : Surroundings) (answer : ℕ → Outcome) (max_body_size : ℕ) (rc : Option RouteContext)
    (admitted : Bool) (body : RequestBody) (t : Turn)
    → ((status : ℕ) × (takes_lease rc admitted ≡ false)
        × (round_trip e answer max_body_size rc admitted body t ≡ (t, synthetic status)))
      ⊎ ((takes_lease rc admitted ≡ true)
          × (round_trip e answer max_body_size rc admitted body t
              ≡ attempt_buffered e answer max_body_size
                  (extract_fallbacks rc (e.cfg 0)).0
                  (extract_fallbacks rc (e.cfg 0)).1
                  body
                  t))
unfolding round_trip
round_trip-cases e answer max_body_size rc admitted body t = elim (Option-cases (block_of rc)) [
  | inr (b, blocked) ↦ inl (b.status, ground (arith, blocked), ground (arith, blocked))
  | inl open_road ↦ elim (Bool-cases admitted) [
    | inr refused ↦
        inl (429, ground (arith, open_road, refused), ground (arith, open_road, refused))
    | inl granted ↦ inr (ground (arith, open_road, granted), ground (arith, open_road, granted))
  ]
]
