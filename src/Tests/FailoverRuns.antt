-- ===== src/Tests/FailoverRuns.antt =====
-- The round trip of internal/proxy/failover.go with a primary provider, a fallback in another format
-- and one in the same.
use Prim.Native.String.{String}
use torana_edge.Prelude.{
  ℕ, zero, suc, ◌≡◌, ◌<◌, refl, List, [], ◌∷◌, true, false, Option, none, some, length, get_elem?,
  arith,
}
use torana_edge.Failover.{
  Provider, Config, RouteContext, Outcome, answered, Surroundings, content, round_trip, new_turn,
  extract_fallbacks, should_retry, leased, read_failed, RequestBody,
}
use torana_edge.Failover.Accounting.{settled_turn, closings, openings, round_trip-settled}
use torana_edge.Failover.Rounds.{breaks_off}
use torana_edge.Failover.Attempts.{
  body_due, routed, latest_target, round_trip-whole, round_trip-latest,
}

abbrev provider_of : String → List String → Provider
provider_of format fallback = record {
  format = format;
  has_bridge = false;
  url = "https";
  fallback = fallback;
}

abbrev providers : Config
providers =
    ("main", provider_of "chat" ("odd" ∷ "spare" ∷ "last" ∷ []))
    ∷ ("odd", provider_of "messages" [])
    ∷ ("spare", provider_of "chat" [])
    ∷ ("last", provider_of "chat" [])
    ∷ []

abbrev calm : Surroundings
calm = record {
  bridged = false;
  cfg = λ look. providers;
  url_parses = λ url. true;
  bridge_represents = λ name. true;
  bridge_body = λ name. [];
  credential_available = λ name. true;
}

abbrev to_main : Option RouteContext
to_main = some (record { provider_name = "main"; block = none })

-- The first answers 503, the second, a fallback, 200.
abbrev busy_once : ℕ → Outcome
busy_once zero = answered true 503
busy_once (suc n) = answered true 200

abbrev prompt : RequestBody
prompt = content (7 ∷ 8 ∷ 9 ∷ []) false

falls_back : (routed calm busy_once 10 to_main true prompt).1 ≡ leased 1 true 200
unfolding round_trip extract_fallbacks
falls_back = refl

falls_back_to :
    (routed calm busy_once 10 to_main true prompt).0.sent
    ≡ record { target = "spare"; body = 7 ∷ 8 ∷ 9 ∷ []; broken_off = false }
      ∷ record { target = "main"; body = 7 ∷ 8 ∷ 9 ∷ []; broken_off = false }
      ∷ []
unfolding round_trip extract_fallbacks
falls_back_to = refl

-- A body beyond the limit is sent once.
too_long_to_retry : (routed calm busy_once 2 to_main true prompt).1 ≡ leased 0 true 503
unfolding round_trip extract_fallbacks
too_long_to_retry = refl

unreadable_body : (routed calm busy_once 10 to_main true (content (7 ∷ []) true)).1 ≡ read_failed
unfolding round_trip extract_fallbacks
unreadable_body = refl

round_trip-settled_example :
    ((settled_turn 1 calm busy_once 10 to_main true prompt "main").released ≡ 1)
    × ((opened : ℕ)
        → closings opened (settled_turn 1 calm busy_once 10 to_main true prompt "main").closed
          ≡ openings busy_once opened
              (length (settled_turn 1 calm busy_once 10 to_main true prompt "main").sent))
round_trip-settled_example = round_trip-settled 1 calm busy_once 10 to_main true prompt "main"

sent_to_spare :
    get_elem? (round_trip calm busy_once 10 to_main true prompt (new_turn "main")).0.sent 0
    ≡ some (record { target = "spare"; body = 7 ∷ 8 ∷ 9 ∷ []; broken_off = false })
unfolding round_trip extract_fallbacks
sent_to_spare = refl

asked_twice : 1 < length (routed calm busy_once 10 to_main true prompt).0.sent
unfolding round_trip extract_fallbacks
asked_twice = omega arith

good_status : should_retry 200 ≡ false
unfolding should_retry
good_status = refl

round_trip-whole_example :
    (7 ∷ 8 ∷ 9 ∷ []
      ≡ body_due calm prompt 0
          (length (round_trip calm busy_once 10 to_main true prompt (new_turn "main")).0.sent)
          "spare")
    × (false ≡ breaks_off prompt)
round_trip-whole_example =
    round_trip-whole calm busy_once 10 to_main true prompt "main" 0
      (record { target = "spare"; body = 7 ∷ 8 ∷ 9 ∷ []; broken_off = false }) sent_to_spare

round_trip-latest_example :
    ((routed calm busy_once 10 to_main true prompt).1 ≡ leased 1 true 200)
    × (2 ≡ length (routed calm busy_once 10 to_main true prompt).0.sent)
    × ((routed calm busy_once 10 to_main true prompt).0.provider
        ≡ latest_target
            (extract_fallbacks to_main providers).0
            (routed calm busy_once 10 to_main true prompt).0.sent)
round_trip-latest_example =
    round_trip-latest calm busy_once 10 to_main true prompt 1 true 200 asked_twice refl good_status
