-- ===== src/RateLimit/Calls.antt =====
-- The calls on the limiter of internal/proxy/ratelimit.go with the leases that it hands out: what
-- `acquireLease` returns, its release function, `Update` and the janitor.
use Prim.Native.String.{String}
use torana_edge.Prelude.{
  ℕ, List, [], ◌∷◌, Bool, true, false, Option, none, some, get_elem?, set, if◌then◌else◌,
}
use torana_edge.RateLimit.{RateLimiter, write, update, janitor_tick, acquire, release_limiter}

-- What `acquireLease` returns: the limiter that the closure captures, and whether `sync.OnceFunc`
-- has run it.
pub record Lease : Type 0 where
  pub limiter : Option ℕ
  pub released : Bool

pub record World : Type 0 where
  pub limiter : RateLimiter
  pub leases : List Lease

unfoldable pub release_pointer : ℕ → ℕ → RateLimiter → RateLimiter
unfolding write release_limiter
release_pointer now p rl = write p (release_limiter now (rl.heap p)) rl

-- Calling the release function of a lease.
unfoldable pub run_lease : ℕ → Lease → RateLimiter → RateLimiter
unfolding release_pointer
run_lease now l rl =
    if l.released then rl else elim l.limiter [ none ↦ rl | some p ↦ release_pointer now p rl ]

pub data Call : Type 0 where
  acquire_lease : String → ℕ → Call
  release : ℕ → ℕ → Call
  reload : ℕ → ℕ → ℕ → Call
  tick : ℕ → Call

unfoldable pub call : (String → String) → Call → World → World
unfolding acquire update janitor_tick
call hash (acquire_lease identity now) w =
    let (rl, found, admitted) = acquire hash identity now w.limiter in
    record { limiter = rl; leases = record { limiter = found; released = false } ∷ w.leases }
call hash (release i now) w = elim (get_elem? w.leases i) [
  | none ↦ w
  | some l ↦ record {
    limiter = run_lease now l w.limiter;
    leases = set w.leases i (record l { released = true });
  }
]
call hash (reload rpm max_conn now) w = record w { limiter = update rpm max_conn now w.limiter }
call hash (tick now) w = record w { limiter = janitor_tick now w.limiter }

abbrev pub calls : (String → String) → List Call → World → World
calls hash [] w = w
calls hash (c ∷ cs) w = calls hash cs (call hash c w)
