-- ===== src/Tests/LimiterRuns.antt =====
-- internal/proxy/ratelimit.go over a few calls.
use Prim.Native.String.{String}
use torana_edge.Prelude.{◌≤◌, ◌≡◌, refl, List, [], ◌∷◌, some, arith, ltb, true}
use torana_edge.Prelude.Assoc.{lookup, insert}
use torana_edge.Prelude.Float64.{one, of_int, float_add, float_mul, float_div}
use torana_edge.RateLimit.{
  Limiter, refilled, seconds, new_rate_limiter, find_limiter, admit, admit_found,
}
use torana_edge.RateLimit.Calls.{run_lease, Call, acquire_lease, release, tick, call, calls}
use torana_edge.RateLimit.Leases.{outstanding, start, active-outstanding, lookup-tick_held}
use torana_edge.RateLimit.Concurrency.{outstanding-le-max_conn}

abbrev plain : String → String
plain s = s

-- An empty bucket has less than one token after half a minute at one a minute.
abbrev drained : Limiter
drained = record { tokens = 0; last_refill = 0; last_seen = 0; active = 0 }

half_a_token : ltb (refilled 1 30_000_000_000 drained) one ≡ true
unfolding refilled of_int float_add float_mul float_div seconds
half_a_token = refl

-- Two requests of one caller, a third refused, the first released twice.
abbrev traffic : List Call
traffic =
    acquire_lease "a" 0 ∷ acquire_lease "a" 1 ∷ acquire_lease "a" 2 ∷ release 2 3 ∷ release 2 4 ∷ []

traffic_active : ((calls plain traffic (start 0 2)).limiter.heap 0).active ≡ 1
unfolding call find_limiter admit admit_found run_lease new_rate_limiter lookup insert
traffic_active = refl

active-outstanding_example :
    ((calls plain traffic (start 0 2)).limiter.heap 0).active
    ≡ outstanding 0 (calls plain traffic (start 0 2)).leases
active-outstanding_example = active-outstanding plain 0 2 traffic 0

traffic_mapped : lookup "a" (calls plain traffic (start 0 2)).limiter.limits ≡ some 0
unfolding call find_limiter admit admit_found run_lease new_rate_limiter lookup insert
traffic_mapped = refl

traffic_held : 1 ≤ outstanding 0 (calls plain traffic (start 0 2)).leases
unfolding call find_limiter admit admit_found run_lease new_rate_limiter lookup insert
traffic_held = omega arith

lookup-tick_held_example :
    lookup "a"
      (call plain (tick 3_600_000_000_000) (calls plain traffic (start 0 2))).limiter.limits
    ≡ some 0
lookup-tick_held_example =
    lookup-tick_held plain 0 2 3_600_000_000_000 traffic "a" 0 traffic_mapped traffic_held

outstanding-le-max_conn_example : outstanding 0 (calls plain traffic (start 0 2)).leases ≤ 2
outstanding-le-max_conn_example = outstanding-le-max_conn plain 0 2 traffic 0 (omega arith) tt
