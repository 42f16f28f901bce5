-- ===== src/RateLimit/Concurrency.antt =====
-- The concurrency limit, while no reload changes it.
use Prim.Native.String.{String}
use torana_edge.Prelude.{
  ℕ, ◌≤◌, ◌<◌, ◌≡◌, refl, List, [], ◌∷◌, Option, none, some, arith, get_elem?, Option-cases, inl,
  inr,
}
use torana_edge.RateLimit.{RateLimiter, Limiter, find_limiter, admit, admit_found, new_rate_limiter}
use torana_edge.RateLimit.Calls.{
  Lease, World, run_lease, Call, acquire_lease, release, reload, tick, call, calls,
}
use torana_edge.RateLimit.Leases.{outstanding, start, active-outstanding}

abbrev pub NoReload : List Call → Type 0
NoReload [] = Unit
NoReload (acquire_lease identity now ∷ cs) = NoReload cs
NoReload (release i now ∷ cs) = NoReload cs
NoReload (reload rpm max_conn now ∷ cs) = ⊥
NoReload (tick now ∷ cs) = NoReload cs

record IsBounded (max_conn : ℕ) (rl : RateLimiter) : Type 0 where
  limit : rl.max_conn ≡ max_conn
  bounded : (p : ℕ) → (rl.heap p).active ≤ max_conn

admit-bounded :
    (rpm max_conn now : ℕ) (l : Limiter)
    → 0 < max_conn
    → l.active ≤ max_conn
    → (admit rpm max_conn now l).0.active ≤ max_conn
unfolding admit
admit-bounded rpm max_conn now l h k = ground arith

find_limiter-IsBounded :
    (max_conn now : ℕ) (key : String) (rl : RateLimiter)
    → IsBounded max_conn rl
    → IsBounded max_conn (find_limiter key now rl).1
unfolding find_limiter
find_limiter-IsBounded max_conn now key rl b = record {
  limit = ground (arith, b.limit);
  bounded = λ p. ground (arith, b.bounded p);
}

admit_found-IsBounded :
    (max_conn now : ℕ) (found : Option ℕ) (rl : RateLimiter)
    → 0 < max_conn
    → IsBounded max_conn rl
    → IsBounded max_conn (admit_found now found rl).0
unfolding admit_found
admit_found-IsBounded max_conn now none rl h b = b
admit_found-IsBounded max_conn now (some q) rl h b = record {
  limit = b.limit;
  bounded = λ p.
      ground (
        arith,
        b.bounded p,
        b.bounded q,
        b.limit,
        admit-bounded rl.rpm rl.max_conn now (rl.heap q),
      );
}

run_lease-IsBounded :
    (max_conn now : ℕ) (l : Lease) (rl : RateLimiter)
    → IsBounded max_conn rl
    → IsBounded max_conn (run_lease now l rl)
unfolding run_lease
run_lease-IsBounded max_conn now l rl b = record {
  limit = ground (arith, b.limit);
  bounded = λ p. ground (arith, b.bounded p);
}

release-IsBounded :
    (hash : String → String) (max_conn i now : ℕ) (w : World)
    → IsBounded max_conn w.limiter
    → IsBounded max_conn (call hash (release i now) w).limiter
unfolding call
release-IsBounded hash max_conn i now w b = elim (Option-cases (get_elem? w.leases i)) [
  | inl missing ↦ rw (missing, call) b
  | inr (l, found) ↦ rw (found, call) (run_lease-IsBounded max_conn now l w.limiter b)
]

calls-IsBounded :
    (hash : String → String) (max_conn : ℕ) (cs : List Call) (w : World)
    → 0 < max_conn
    → NoReload cs
    → IsBounded max_conn w.limiter
    → IsBounded max_conn (calls hash cs w).limiter
unfolding call
calls-IsBounded hash max_conn [] w h n b = b
calls-IsBounded hash max_conn (acquire_lease identity now ∷ cs) w h n b =
    calls-IsBounded hash max_conn cs (call hash (acquire_lease identity now) w) h n (
      admit_found-IsBounded max_conn now (find_limiter (hash identity) now w.limiter).0 _ h
        (find_limiter-IsBounded max_conn now (hash identity) w.limiter b))
calls-IsBounded hash max_conn (release i now ∷ cs) w h n b =
    calls-IsBounded hash max_conn cs (call hash (release i now) w) h n
      (release-IsBounded hash max_conn i now w b)
calls-IsBounded hash max_conn (reload rpm other now ∷ cs) w h n b = elim n [ ]
calls-IsBounded hash max_conn (tick now ∷ cs) w h n b =
    calls-IsBounded hash max_conn cs (call hash (tick now) w) h n
      (record { limit = b.limit; bounded = b.bounded })

start-IsBounded : (rpm max_conn : ℕ) → IsBounded max_conn (start rpm max_conn).limiter
unfolding new_rate_limiter
start-IsBounded rpm max_conn = record { limit = refl; bounded = λ p. omega arith }

-- Under a positive concurrency limit that no reload changes, at most that many leases of one bucket
-- are out at any time.
pub outstanding-le-max_conn :
    (hash : String → String) (rpm max_conn : ℕ) (cs : List Call) (p : ℕ)
    → 0 < max_conn
    → NoReload cs
    → outstanding p (calls hash cs (start rpm max_conn)).leases ≤ max_conn
outstanding-le-max_conn hash rpm max_conn cs p h n = omega (
  arith,
  active-outstanding hash rpm max_conn cs p,
  (calls-IsBounded hash max_conn cs (start rpm max_conn) h n (start-IsBounded rpm max_conn)).bounded
      p,
)
