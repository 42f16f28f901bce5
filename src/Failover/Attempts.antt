-- ===== src/Failover/Attempts.antt =====
-- What the attempts of internal/proxy/failover.go send, and which response they hand over.
use Prim.Native.String.{String}
use torana_edge.Prelude.{
  ℕ, zero, suc, ◌+◌, ◌<◌, ◌≡◌, refl, List, [], ◌∷◌, Bool, true, false, Option, none, some, length,
  get_elem?, arith, Bool-cases, inl, inr, sym, subst, ◌∙◌, if-both, not, ◌&&◌, ◌==◌, if◌then◌else◌,
}
use torana_edge.Failover.{
  Outcome, Response, answered, Sent, Turn, Returned, leased, read_failed, should_retry, release,
  close_last, hand_over, exchange, Surroundings, accepted_status, RequestBody, RouteContext,
  round_trip, new_turn, extract_fallbacks,
}
use torana_edge.Failover.Rounds.{
  attempt_buffered-ends, retry_for, whole, breaks_off, round_trip-cases,
}

-- What the n-th of so many exchanges, the latest first, is to send: the first one the request's body,
-- a later one what the bridge makes for its target, or the request's body.
abbrev pub body_due : Surroundings → RequestBody → ℕ → ℕ → String → List ℕ
body_due e body n exchanges target =
    if n + 1 == exchanges then whole body else retry_for e (whole body) target

-- All that was sent is what is due.
abbrev SentWhole : Surroundings → RequestBody → List Sent → Type 0
SentWhole e body sent =
    (n : ℕ) (s : Sent)
    → get_elem? sent n ≡ some s
    → (s.body ≡ body_due e body n (length sent) s.target) × (s.broken_off ≡ breaks_off body)

-- Between exchanges there has been one.
abbrev SentOnce : Surroundings → RequestBody → Turn → Type 0
SentOnce e body t = SentWhole e body t.sent × (0 < length t.sent)

sent-exchange :
    (answer : ℕ → Outcome) (s : Sent) (t : Turn) → (exchange answer s t).0.sent ≡ s ∷ t.sent
unfolding exchange
sent-exchange answer s t = ground arith

sent-close_last : (last : Option Response) (t : Turn) → (close_last last t).sent ≡ t.sent
sent-close_last none t = refl
sent-close_last (some (b, true, status)) t = refl
sent-close_last (some (b, false, status)) t = refl

whole-first :
    (e : Surroundings) (body : RequestBody) (s : Sent) (sent : List Sent)
    → (s.body ≡ whole body) × (s.broken_off ≡ breaks_off body)
    → sent ≡ []
    → SentWhole e body (s ∷ sent)
whole-first e body s sent ok fresh zero s' q =
    (ground (arith, q, ok.0, fresh), ground (arith, q, ok.1))
whole-first e body s sent ok fresh (suc n) s' q = absurd (ground (arith, q, fresh))

whole-again :
    (e : Surroundings) (body : RequestBody) (s : Sent) (sent : List Sent)
    → (s.body ≡ retry_for e (whole body) s.target) × (s.broken_off ≡ breaks_off body)
    → 0 < length sent
    → SentWhole e body sent
    → SentWhole e body (s ∷ sent)
whole-again e body s sent ok once h zero s' q =
    (ground (arith, q, ok.0, once), ground (arith, q, ok.1))
whole-again e body s sent ok once h (suc n) s' q = (ground (arith, (h n s' q).0), (h n s' q).1)

first-SentOnce :
    (answer : ℕ → Outcome) (e : Surroundings) (body : RequestBody) (s : Sent) (t : Turn)
    → (s.body ≡ whole body) × (s.broken_off ≡ breaks_off body)
    → t.sent ≡ []
    → SentOnce e body (exchange answer s t).0
first-SentOnce answer e body s t ok fresh =
    let same = sent-exchange answer s t in
    (
      subst (SentWhole e body) (sym same) (whole-first e body s t.sent ok fresh),
      ground (arith, same),
    )

again-SentOnce :
    (answer : ℕ → Outcome) (e : Surroundings) (body : RequestBody) (s : Sent)
    (last : Option Response) (t : Turn)
    → (s.body ≡ retry_for e (whole body) s.target) × (s.broken_off ≡ breaks_off body)
    → SentOnce e body t
    → SentOnce e body (close_last last (exchange answer s t).0)
again-SentOnce answer e body s last t ok (h, once) =
    let same = sent-close_last last (exchange answer s t).0 ∙ sent-exchange answer s t in
    (
      subst (SentWhole e body) (sym same) (whole-again e body s t.sent ok once h),
      ground (arith, same),
    )

hand_over-SentWhole :
    (e : Surroundings) (body : RequestBody) (last : Option Response) (t : Turn)
    → SentWhole e body t.sent
    → SentWhole e body (hand_over last t).0.sent
unfolding hand_over
hand_over-SentWhole e body none t h = h
hand_over-SentWhole e body (some (b, has_body, status)) t h =
    if-both (λ (rt : Turn × Returned). SentWhole e body rt.0.sent)
      (not has_body && should_retry status) (λ bad. h) (λ fine. h)

-- Every attempt sends a whole body: the first the request's own, and each retry the request's own,
-- or, through the bridge, the one that the bridge makes for that fallback; although at most so many
-- bytes are buffered. What cannot be read to its end is sent up to there, and breaks off there.
pub round_trip-whole :
    (e : Surroundings) (answer : ℕ → Outcome) (max_body_size : ℕ) (rc : Option RouteContext)
    (admitted : Bool) (body : RequestBody) (provider : String) (n : ℕ) (s : Sent)
    → get_elem? (round_trip e answer max_body_size rc admitted body (new_turn provider)).0.sent n
      ≡ some s
    → (s.body
        ≡ body_due e body n
            (length (round_trip e answer max_body_size rc admitted body (new_turn provider)).0.sent)
            s.target)
      × (s.broken_off ≡ breaks_off body)
round_trip-whole e answer max_body_size rc admitted body provider =
    let t = new_turn provider in
    let primary = (extract_fallbacks rc (e.cfg 0)).0 in
    let fallbacks = (extract_fallbacks rc (e.cfg 0)).1 in
    elim (round_trip-cases e answer max_body_size rc admitted body t) [
      | inl (status, untaken, same) ↦
          subst (λ rt. SentWhole e body rt.0.sent) (sym same) (λ n s q. cc)
      | inr (taken, same) ↦
          subst (λ rt. SentWhole e body rt.0.sent) (sym same)
            (attempt_buffered-ends e answer primary
              (λ s. (s.body ≡ whole body) × (s.broken_off ≡ breaks_off body))
              (λ s. (s.body ≡ retry_for e (whole body) s.target) × (s.broken_off ≡ breaks_off body))
              (λ t. t.sent ≡ []) (λ last t. SentOnce e body t) (λ rt. SentWhole e body rt.0.sent)
              (λ last t h. hand_over-SentWhole e body last t h.0)
              (λ s t ok named h. first-SentOnce answer e body s t ok h)
              (λ s last t ok bad h.
                again-SentOnce answer e body s last (record t { provider = s.target }) ok h)
              (λ t h. h) (λ t h n s q. absurd (ground (arith, h, q))) max_body_size fallbacks body t
              (refl, refl) (λ fine name. (refl, sym fine)) refl)
    ]

-- The target of the latest exchange, or the one that stands before any.
abbrev pub latest_target : String → List Sent → String
latest_target provider [] = provider
latest_target provider (s ∷ sent) = s.target

-- Between exchanges: the last response answers the latest exchange, whose target the request state
-- names, and every earlier answer was bad.
record Tried (answer : ℕ → Outcome) (primary : String) (last : Option Response) (t : Turn)
    : Type 0 where
  named : t.provider ≡ latest_target primary t.sent
  answering :
      (body : ℕ) (has_body : Bool) (status : ℕ)
      → last ≡ some (body, has_body, status)
      → (body + 1 ≡ length t.sent) × (answer body ≡ answered has_body status)
  good :
      (n : ℕ) (has_body : Bool) (status : ℕ)
      → n < length t.sent
      → answer n ≡ answered has_body status
      → should_retry status ≡ false
      → (n + 1 ≡ length t.sent) × (last ≡ some (n, has_body, status))

exchange-Tried :
    (answer : ℕ → Outcome) (primary : String) (s : Sent) (last : Option Response) (t : Turn)
    → t.provider ≡ s.target
    → ((n : ℕ) (has_body : Bool) (status : ℕ)
        → n < length t.sent
        → answer n ≡ answered has_body status
        → should_retry status ≡ true)
    → Tried answer primary (exchange answer s t).1 (close_last last (exchange answer s t).0)
unfolding exchange
exchange-Tried answer primary s last t named bad = record {
  named = ground (arith, named);
  answering = λ body has_body status q. (ground (arith, q), ground (arith, q));
  good = λ n has_body status lt q fine.
      let same : n ≡ length t.sent = ground (arith, lt, bad n has_body status, q, fine) in
      (ground (arith, same), ground (arith, same, q));
}

-- No answer before was good.
all_bad :
    (answer : ℕ → Outcome) (primary : String) (last : Option Response) (t : Turn)
    → Tried answer primary last t
    → accepted_status last ≡ false
    → (n : ℕ) (has_body : Bool) (status : ℕ) → n < length t.sent
    → answer n ≡ answered has_body status
    → should_retry status ≡ true
all_bad answer primary last t p bad n has_body status lt q =
    elim (Bool-cases (should_retry status)) [
      | inl yes_bad ↦ yes_bad
      | inr fine ↦ absurd (ground (arith, (p.good n has_body status lt q fine).1, bad, fine))
    ]

-- What is handed over answers the latest exchange, and is the only good answer if there is one.
record Latest (answer : ℕ → Outcome) (primary : String) (rt : Turn × Returned) : Type 0 where
  named : rt.0.provider ≡ latest_target primary rt.0.sent
  answering :
      (body : ℕ) (has_body : Bool) (status : ℕ)
      → rt.1 ≡ leased body has_body status
      → (body + 1 ≡ length rt.0.sent) × (answer body ≡ answered has_body status)
  good :
      (n : ℕ) (has_body : Bool) (status : ℕ)
      → n < length rt.0.sent
      → answer n ≡ answered has_body status
      → should_retry status ≡ false
      → rt.1 ≡ leased n has_body status

hand_over-Latest :
    (answer : ℕ → Outcome) (primary : String) (last : Option Response) (t : Turn)
    → Tried answer primary last t
    → Latest answer primary (hand_over last t)
unfolding hand_over
hand_over-Latest answer primary none t p = record {
  named = p.named;
  answering = λ body has_body status q. cc;
  good = λ n has_body status lt q fine.
      absurd (ground (arith, (p.good n has_body status lt q fine).1));
}
hand_over-Latest answer primary (some (b, has, st)) t p =
    if-both (Latest answer primary) (not has && should_retry st)
      (λ bad. record {
        named = p.named;
        answering = λ body has_body status q. cc;
        good = λ n has_body status lt q fine.
            absurd (ground (arith, (p.good n has_body status lt q fine).1, bad, fine));
      })
      (λ whole_response. record {
        named = p.named;
        answering = λ body has_body status q. p.answering body has_body status (ground (arith, q));
        good =
            λ n has_body status lt q fine. ground (arith, (p.good n has_body status lt q fine).1);
      })

abbrev Starting : String → Turn → Type 0
Starting primary t = (t.sent ≡ []) × (t.provider ≡ primary)

first-Tried :
    (answer : ℕ → Outcome) (primary : String) (s : Sent) (t : Turn)
    → s.target ≡ primary
    → Starting primary t
    → Tried answer primary (exchange answer s t).1 (exchange answer s t).0
first-Tried answer primary s t named (fresh, same) =
    exchange-Tried answer primary s none t (ground (arith, named, same))
      (λ n has_body status lt q. absurd (ground (arith, fresh, lt)))

unread-Latest :
    (answer : ℕ → Outcome) (primary : String) (t : Turn)
    → Starting primary t
    → Latest answer primary (release (record t { request_closed = true }), read_failed)
unread-Latest answer primary t (fresh, same) = record {
  named = ground (arith, fresh, same);
  answering = λ body has_body status q. cc;
  good = λ n has_body status lt q fine. absurd (ground (arith, fresh, lt));
}

-- The round trip, with the provider of the route in the request state.
abbrev pub routed :
    Surroundings → (ℕ → Outcome) → ℕ → Option RouteContext → Bool → RequestBody → Turn × Returned
routed e answer max_body_size rc admitted body =
    round_trip e answer max_body_size rc admitted body (new_turn (extract_fallbacks rc (e.cfg 0)).0)

round_trip-Latest :
    (e : Surroundings) (answer : ℕ → Outcome) (max_body_size : ℕ) (rc : Option RouteContext)
    (admitted : Bool) (body : RequestBody)
    → Latest answer (extract_fallbacks rc (e.cfg 0)).0 (
        round_trip e answer max_body_size rc admitted body
          (new_turn (extract_fallbacks rc (e.cfg 0)).0))
round_trip-Latest e answer max_body_size rc admitted body =
    let primary = (extract_fallbacks rc (e.cfg 0)).0 in
    let fallbacks = (extract_fallbacks rc (e.cfg 0)).1 in
    let t = new_turn primary in
    elim (round_trip-cases e answer max_body_size rc admitted body t) [
      | inl (status, untaken, same) ↦ subst (Latest answer primary) (sym same) (record {
        named = refl;
        answering = λ b has st q. cc;
        good = λ n has st lt q fine. absurd (omega (arith, lt));
      })
      | inr (taken, same) ↦ subst (Latest answer primary) (sym same) (
          attempt_buffered-ends e answer primary (λ s. Unit {0}) (λ s. Unit {0}) (Starting primary)
            (Tried answer primary) (Latest answer primary) (hand_over-Latest answer primary)
            (λ s t ok named p. first-Tried answer primary s t named p)
            (λ s last t ok bad p.
              exchange-Tried answer primary s last (record t { provider = s.target }) refl
                (all_bad answer primary last t p bad))
            (λ t p. p) (λ t p. unread-Latest answer primary t p) max_body_size fallbacks body t tt
            (λ fine name. tt) (refl, refl))
    ]

-- Once an answer is good, which is to say neither 429 nor 500 or more, it is the response that is
-- handed over, no exchange follows it, and the request state names the provider that gave it; before
-- the round trip the request state names the provider of the route.
pub round_trip-latest :
    (e : Surroundings) (answer : ℕ → Outcome) (max_body_size : ℕ) (rc : Option RouteContext)
    (admitted : Bool) (body : RequestBody) (n : ℕ) (has_body : Bool) (status : ℕ)
    → n < length (routed e answer max_body_size rc admitted body).0.sent
    → answer n ≡ answered has_body status
    → should_retry status ≡ false
    → ((routed e answer max_body_size rc admitted body).1 ≡ leased n has_body status)
      × (n + 1 ≡ length (routed e answer max_body_size rc admitted body).0.sent)
      × ((routed e answer max_body_size rc admitted body).0.provider
          ≡ latest_target
              (extract_fallbacks rc (e.cfg 0)).0
              (routed e answer max_body_size rc admitted body).0.sent)
round_trip-latest e answer max_body_size rc admitted body n has_body status lt q fine =
    let l = round_trip-Latest e answer max_body_size rc admitted body in
    let got = l.good n has_body status lt q fine in
    (got, (l.answering n has_body status got).0, l.named)
