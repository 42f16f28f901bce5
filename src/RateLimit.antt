-- ===== src/RateLimit.antt =====
-- The admission limiter of internal/proxy/ratelimit.go: one token bucket and one counter of open
-- requests for each caller identity, shared by pointer between the map and the leases.
-- Instants are nanoseconds of the monotonic clock, which an operation reads once. Tokens are floats,
-- rounded by each operation. Limits are natural numbers.
use Prim.Native.String.{String}
use torana_edge.Prelude.{
  ℕ, ◌+◌, ◌-◌, ◌/◌, ◌%◌, List, [], ◌∷◌, Bool, true, false, ◌&&◌, ◌||◌, Option, none, some, ltb, leb,
  ◌==◌, if◌then◌else◌,
}
use torana_edge.Prelude.Assoc.{lookup, insert}
use torana_edge.Prelude.Float64.{Float64, one, of_int, float_add, float_sub, float_mul, float_div}
pub mod Calls
pub mod Leases
pub mod Concurrency

-- Ten minutes.
abbrev pub limiter_idle_ttl : ℕ
limiter_idle_ttl = 600_000_000_000

pub record Limiter : Type 0 where
  pub tokens : Float64
  pub last_refill : ℕ
  pub last_seen : ℕ
  pub active : ℕ

-- `limits` maps a hashed identity to a pointer, an index of `heap`; `next` is the next free one.
pub record RateLimiter : Type 0 where
  pub limits : List (String × ℕ)
  pub heap : ℕ → Limiter
  pub next : ℕ
  pub rpm : ℕ
  pub max_conn : ℕ

abbrev pub blank_limiter : Limiter
blank_limiter = record { tokens = 0; last_refill = 0; last_seen = 0; active = 0 }

unfoldable pub new_rate_limiter : ℕ → ℕ → RateLimiter
new_rate_limiter rpm max_conn = record {
  limits = [];
  heap = λ p. blank_limiter;
  next = 0;
  rpm = rpm;
  max_conn = max_conn;
}

unfoldable pub write : ℕ → Limiter → RateLimiter → RateLimiter
write p l rl = record rl { heap = λ q. if p == q then l else rl.heap q }

-- The body of `Update`'s loop.
unfoldable pub update_limiter : ℕ → ℕ → ℕ → Limiter → Limiter
update_limiter previous_rpm rpm now l = record l {
  tokens =
      if rpm == 0
      then 0
      else if previous_rpm == 0 || ltb (of_int rpm) l.tokens
      then of_int rpm
      else l.tokens;
  last_refill = now;
  last_seen = now;
}

unfoldable pub update_all : ℕ → ℕ → ℕ → List (String × ℕ) → RateLimiter → RateLimiter
update_all previous_rpm rpm now [] rl = rl
update_all previous_rpm rpm now ((_, p) ∷ limits) rl =
    update_all previous_rpm rpm now limits
      (write p (update_limiter previous_rpm rpm now (rl.heap p)) rl)

unfoldable pub update : ℕ → ℕ → ℕ → RateLimiter → RateLimiter
update rpm max_conn now rl =
    update_all rl.rpm rpm now rl.limits (record rl { rpm = rpm; max_conn = max_conn })

unfoldable pub is_idle : ℕ → Limiter → Bool
is_idle now l = l.active == 0 && ltb (l.last_seen + limiter_idle_ttl) now

-- One tick of the janitor over the entries of the map.
unfoldable pub keep_busy : ℕ → (ℕ → Limiter) → List (String × ℕ) → List (String × ℕ)
unfolding is_idle
keep_busy now heap [] = []
keep_busy now heap ((key, p) ∷ limits) =
    let rest = keep_busy now heap limits in if is_idle now (heap p) then rest else (key, p) ∷ rest

unfoldable pub janitor_tick : ℕ → RateLimiter → RateLimiter
janitor_tick now rl = record rl { limits = keep_busy now rl.heap rl.limits }

unfoldable pub get_limiter_locked : String → ℕ → RateLimiter → ℕ × RateLimiter
unfolding write
get_limiter_locked key now rl = elim (lookup key rl.limits) [
  | some p ↦ (p, rl)
  | none ↦ (
    rl.next,
    write rl.next
        (record { tokens = of_int rl.rpm; last_refill = now; last_seen = now; active = 0 })
        (record rl { limits = insert key rl.next rl.limits; next = rl.next + 1 }),
  )
]

-- `Duration.Seconds`
unfoldable pub seconds : ℕ → Float64
seconds elapsed =
    float_add (of_int (elapsed / 1_000_000_000))
      (float_div (of_int (elapsed % 1_000_000_000)) (of_int 1_000_000_000))

-- The refill: the balance after the time that has passed, cut at the capacity.
unfoldable pub refilled : ℕ → ℕ → Limiter → Float64
unfolding seconds
refilled rpm now l =
    let rate = float_div (of_int rpm) (of_int 60) in
    let tokens = float_add l.tokens (float_mul (seconds (now - l.last_refill)) rate) in
    if ltb (of_int rpm) tokens then of_int rpm else tokens

-- What `acquire` does to a limiter under its lock, and whether the request is admitted.
unfoldable pub admit : ℕ → ℕ → ℕ → Limiter → Limiter × Bool
unfolding refilled
admit rpm max_conn now l =
    if ltb 0 max_conn && leb max_conn l.active
    then (record l { last_seen = now }, false)
    else if ltb 0 rpm
    then (if ltb (refilled rpm now l) one
        then (record l { tokens = refilled rpm now l; last_refill = now; last_seen = now }, false)
        else (
          record l {
            tokens = float_sub (refilled rpm now l) one;
            last_refill = now;
            last_seen = now;
            active = l.active + 1;
          },
          true,
        ))
    else (record l { last_seen = now; active = l.active + 1 }, true)

-- The limiter that `acquire` works on, when there is one.
unfoldable pub find_limiter : String → ℕ → RateLimiter → Option ℕ × RateLimiter
unfolding get_limiter_locked
find_limiter key now rl =
    if ltb 0 rl.rpm || ltb 0 rl.max_conn
    then (let (p, rl') = get_limiter_locked key now rl in (some p, rl'))
    else (lookup key rl.limits, rl)

-- The rest of `acquire`: the limiter to release later, if one counts this request, and whether the
-- request is admitted.
unfoldable pub admit_found : ℕ → Option ℕ → RateLimiter → RateLimiter × Option ℕ × Bool
unfolding write
admit_found now none rl = (rl, none, true)
admit_found now (some p) rl =
    let (l, admitted) = admit rl.rpm rl.max_conn now (rl.heap p) in
    (write p l rl, if admitted then some p else none, admitted)

unfoldable pub acquire :
    (String → String) → String → ℕ → RateLimiter → RateLimiter × Option ℕ × Bool
acquire hash identity now rl =
    let (found, rl') = find_limiter (hash identity) now rl in admit_found now found rl'

unfoldable pub release_limiter : ℕ → Limiter → Limiter
release_limiter now l = record l { last_seen = now; active = l.active - 1 }
