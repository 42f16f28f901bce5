-- ===== src/Failover/Accounting.antt =====
-- Every body that the round trip of internal/proxy/failover.go opens is closed, once, and its lease
-- is released, once.
use Prim.Native.String.{String}
use torana_edge.Prelude.{
  ℕ, zero, suc, ◌+◌, ◌≡◌, refl, List, [], ◌∷◌, Bool, false, ◌&&◌, Option, none, some, length, ltb,
  ◌==◌, arith, if◌then◌else◌, inl, inr, sym, subst,
}
use torana_edge.Failover.Rounds.{attempt_buffered-ends, takes_lease, round_trip-cases}
use torana_edge.Failover.{
  Outcome, Response, bare, answered, broken, Sent, Turn, Returned, synthetic, leased, failed,
  read_failed, has_run, close_leased, close_returned, close_last, hand_over, exchange, Surroundings,
  attempt_buffered, RequestBody, RouteContext, round_trip, new_turn, extract_fallbacks,
}

-- How often a body is closed, and how often it was opened: once for each exchange that was answered
-- with a body.
abbrev pub closings : ℕ → List ℕ → ℕ
closings body [] = 0
closings body (b ∷ bs) = let rest = closings body bs in if b == body then rest + 1 else rest

abbrev pub is_answered : Outcome → Bool
is_answered (answered has_body status) = has_body
is_answered broken = false

abbrev pub openings : (ℕ → Outcome) → ℕ → ℕ → ℕ
openings answer body exchanges = if ltb body exchanges && is_answered (answer body) then 1 else 0

-- What the last response still holds open.
abbrev held : ℕ → Option Response → ℕ
held body none = 0
held body (some (b, has_body, status)) = if has_body && b == body then 1 else 0

-- Between the exchanges: the lease is not released, no leased body is closed, and what was opened is
-- closed, but for the last response.
record Balanced (answer : ℕ → Outcome) (last : Option Response) (t : Turn) : Type 0 where
  lease : t.released ≡ 0
  fresh : t.once_run ≡ []
  bodies :
      (body : ℕ) → closings body t.closed + held body last ≡ openings answer body (length t.sent)

-- At the end, when what was returned is closed.
record Settled (answer : ℕ → Outcome) (t : Turn) : Type 0 where
  lease : t.released ≡ 1
  bodies : (body : ℕ) → closings body t.closed ≡ openings answer body (length t.sent)

abbrev closed_after : Turn × Returned → Turn
closed_after (t, r) = close_returned r t

hand_over-Settled :
    (answer : ℕ → Outcome) (last : Option Response) (t : Turn)
    → Balanced answer last t
    → Settled answer (close_returned (hand_over last t).1 (hand_over last t).0)
unfolding hand_over close_returned close_leased has_run
hand_over-Settled answer none t b = record {
  lease = omega (arith, b.lease);
  bodies = λ body. omega (arith, b.bodies body);
}
hand_over-Settled answer (some (body, has_body, status)) t b = record {
  lease = ground (arith, b.lease, b.fresh);
  bodies = λ other. ground (arith, b.fresh, b.bodies other);
}

exchange-Balanced :
    (answer : ℕ → Outcome) (s : Sent) (last : Option Response) (t : Turn)
    → Balanced answer last t
    → Balanced answer (exchange answer s t).1 (close_last last (exchange answer s t).0)
unfolding exchange
exchange-Balanced answer s last t b = record {
  lease = ground (arith, b.lease);
  fresh = ground (arith, b.fresh);
  bodies = λ body. ground (arith, b.bodies body);
}

-- A caller that closes what it got, any number of times.
abbrev pub close_times : ℕ → Returned → Turn → Turn
close_times zero r t = t
close_times (suc n) r t = close_returned r (close_times n r t)

close_returned-again :
    (r : Returned) (t : Turn) → close_returned r (close_returned r t) ≡ close_returned r t
unfolding close_returned close_leased has_run
close_returned-again (leased body has_body status) t = ground arith
close_returned-again (bare status) t = refl
close_returned-again (synthetic status) t = refl
close_returned-again failed t = refl
close_returned-again read_failed t = refl

close_times-once : (n : ℕ) (r : Returned) (t : Turn) → close_times (suc n) r t ≡ close_returned r t
close_times-once zero r t = refl
close_times-once (suc n) r t = ground (arith, close_times-once n r t, close_returned-again r t)

-- The world once the caller has closed what it got, at least once.
abbrev pub settled_turn :
    ℕ → Surroundings → (ℕ → Outcome) → ℕ → Option RouteContext → Bool → RequestBody → String → Turn
settled_turn closes e answer max_body_size rc admitted body provider =
    let (t, r) = round_trip e answer max_body_size rc admitted body (new_turn provider) in
    close_times (suc closes) r t

admitted-Settled :
    (e : Surroundings) (answer : ℕ → Outcome) (max_body_size : ℕ) (primary provider : String)
    (fallbacks : List String) (body : RequestBody)
    → Settled answer (
        closed_after
          (attempt_buffered e answer max_body_size primary fallbacks body (new_turn provider)))
unfolding close_returned
admitted-Settled e answer max_body_size primary provider fallbacks body =
    attempt_buffered-ends e answer primary (λ s. Unit {0}) (λ s. Unit {0}) (Balanced answer none)
      (Balanced answer) (λ r. Settled answer (closed_after r)) (hand_over-Settled answer)
      (λ s t ok same b. exchange-Balanced answer s none t b)
      (λ s last t ok bad b.
        exchange-Balanced answer s last (record t { provider = s.target })
          (record { lease = b.lease; fresh = b.fresh; bodies = b.bodies }))
      (λ t b. record { lease = b.lease; fresh = b.fresh; bodies = b.bodies })
      (λ t b. record {
        lease = omega (arith, b.lease);
        bodies = λ other. omega (arith, b.bodies other);
      })
      max_body_size fallbacks body (new_turn provider) tt (λ fine name. tt)
      (record { lease = refl; fresh = refl; bodies = λ other. ground arith })

abbrev Accounted : ℕ → (ℕ → Outcome) → Turn → Type 0
Accounted leases answer t =
    (t.released ≡ leases)
    × ((opened : ℕ) → closings opened t.closed ≡ openings answer opened (length t.sent))

Accounted-again :
    (closes leases : ℕ) (answer : ℕ → Outcome) (rt : Turn × Returned)
    → Accounted leases answer (closed_after rt)
    → Accounted leases answer (close_times (suc closes) rt.1 rt.0)
Accounted-again closes leases answer (t, r) a =
    subst (Accounted leases answer) (sym (close_times-once closes r t)) a

refused-Accounted :
    (answer : ℕ → Outcome) (provider : String) (status : ℕ)
    → Accounted 0 answer (closed_after (new_turn provider, synthetic status))
unfolding close_returned
refused-Accounted answer provider status = (refl, λ opened. ground arith)

admitted-Accounted :
    (e : Surroundings) (answer : ℕ → Outcome) (max_body_size : ℕ) (primary provider : String)
    (fallbacks : List String) (body : RequestBody)
    → Accounted 1 answer (
        closed_after
          (attempt_buffered e answer max_body_size primary fallbacks body (new_turn provider)))
admitted-Accounted e answer max_body_size primary provider fallbacks body =
    let s = admitted-Settled e answer max_body_size primary provider fallbacks body in
    (s.lease, s.bodies)

-- When the caller has closed what it got, once or more often, the lease of an admitted request has
-- been released exactly once, whichever attempts failed, were retried or skipped, and a request that
-- a plugin blocked or the limiter refused has released none; and each body that the transport opened
-- has been closed exactly once.
pub round_trip-settled :
    (closes : ℕ) (e : Surroundings) (answer : ℕ → Outcome) (max_body_size : ℕ)
    (rc : Option RouteContext) (admitted : Bool) (body : RequestBody) (provider : String)
    → ((settled_turn closes e answer max_body_size rc admitted body provider).released
        ≡ (if takes_lease rc admitted then 1 else 0))
      × ((opened : ℕ)
          → closings opened
              (settled_turn closes e answer max_body_size rc admitted body provider).closed
            ≡ openings answer opened (
                length (settled_turn closes e answer max_body_size rc admitted body provider).sent))
round_trip-settled closes e answer max_body_size rc admitted body provider =
    let leases : ℕ = if takes_lease rc admitted then 1 else 0 in
    let t = new_turn provider in
    Accounted-again closes leases answer (round_trip e answer max_body_size rc admitted body t)
      (elim (round_trip-cases e answer max_body_size rc admitted body t) [
        | inl (status, untaken, same) ↦
            rw (same, untaken) (refused-Accounted answer provider status)
        | inr (taken, same) ↦
            rw (same, taken)
              (admitted-Accounted e answer max_body_size (extract_fallbacks rc (e.cfg 0)).0 provider
                (extract_fallbacks rc (e.cfg 0)).1 body)
      ])
