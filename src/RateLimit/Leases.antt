-- ===== src/RateLimit/Leases.antt =====
-- Leases: the counter of a limiter is the number of requests that hold it, whatever is admitted,
-- released twice, evicted or reconfigured in between.
use Prim.Native.String.{String}
use torana_edge.Prelude.{
  ℕ, zero, suc, ◌+◌, ◌≤◌, ◌<◌, ◌≡◌, refl, sym, ◌∙◌, subst, List, [], ◌∷◌, true, false, Option, none,
  some, arith, Option-cases, inl, inr, get_elem?, set, ◌==◌, if◌then◌else◌,
}
use torana_edge.Prelude.Assoc.{lookup, insert}
use torana_edge.RateLimit.{
  new_rate_limiter, Limiter, RateLimiter, write, update_limiter, update_all, keep_busy, admit,
  admit_found, find_limiter,
}
use torana_edge.RateLimit.Calls.{
  Lease, World, run_lease, Call, acquire_lease, release, reload, tick, call, calls,
}

abbrev holds : ℕ → Lease → ℕ
holds p l = if l.released then 0 else elim l.limiter [ none ↦ 0 | some q ↦ if q == p then 1 else 0 ]

-- How many leases on a limiter are still out.
abbrev pub outstanding : ℕ → List Lease → ℕ
outstanding p [] = 0
outstanding p (l ∷ ls) = holds p l + outstanding p ls

abbrev pub AllMapped : ℕ → List (String × ℕ) → Type 0
AllMapped n [] = Unit
AllMapped n ((_, p) ∷ m) = (p < n) × AllMapped n m

pub record IsConsistent (w : World) : Type 0 where
  pub counted : (p : ℕ) → (w.limiter.heap p).active ≡ outstanding p w.leases
  pub mapped : AllMapped w.limiter.next w.limiter.limits
  pub blank : (p : ℕ) → w.limiter.next ≤ p → (w.limiter.heap p).active ≡ 0

lookup-mapped :
    (n : ℕ) (k : String) (m : List (String × ℕ)) (p : ℕ)
    → AllMapped n m
    → lookup k m ≡ some p
    → p < n
unfolding lookup
lookup-mapped n k [] p a h = cc
lookup-mapped n k ((j, q) ∷ m) p a h = ground (arith, lookup-mapped n k m p a.1)

AllMapped-suc : (n : ℕ) (m : List (String × ℕ)) → AllMapped n m → AllMapped (n + 1) m
AllMapped-suc n [] a = a
AllMapped-suc n (e ∷ m) a = (omega (arith, a.0), AllMapped-suc n m a.1)

insert-mapped :
    (n : ℕ) (k : String) (m : List (String × ℕ)) → AllMapped n m → AllMapped (n + 1) (insert k n m)
unfolding insert
insert-mapped n k [] a = omega arith
insert-mapped n k ((j, q) ∷ m) a = ground (arith, insert-mapped n k m a.1, AllMapped-suc n m a.1)

-- Looking for the limiter of a call keeps every counter, and finds one that is allocated.
find_limiter-active :
    (key : String) (now : ℕ) (rl : RateLimiter) (p : ℕ)
    → ((q : ℕ) → rl.next ≤ q → (rl.heap q).active ≡ 0)
    → ((find_limiter key now rl).1.heap p).active ≡ (rl.heap p).active
unfolding find_limiter
find_limiter-active key now rl p blank = ground (arith, blank p)

find_limiter-mapped :
    (key : String) (now : ℕ) (rl : RateLimiter)
    → AllMapped rl.next rl.limits
    → AllMapped (find_limiter key now rl).1.next (find_limiter key now rl).1.limits
unfolding find_limiter
find_limiter-mapped key now rl mapped = ground (arith, insert-mapped rl.next key rl.limits mapped)

find_limiter-next :
    (key : String) (now : ℕ) (rl : RateLimiter) → rl.next ≤ (find_limiter key now rl).1.next
unfolding find_limiter
find_limiter-next key now rl = ground arith

find_limiter-found :
    (key : String) (now : ℕ) (rl : RateLimiter) (p : ℕ)
    → AllMapped rl.next rl.limits
    → (find_limiter key now rl).0 ≡ some p
    → p < (find_limiter key now rl).1.next
unfolding find_limiter
find_limiter-found key now rl p mapped h =
    ground (arith, lookup-mapped rl.next key rl.limits p mapped)

lookup-keep_busy :
    (now : ℕ) (heap : ℕ → Limiter) (key : String) (m : List (String × ℕ)) (p : ℕ)
    → lookup key m ≡ some p
    → 0 < (heap p).active
    → lookup key (keep_busy now heap m) ≡ some p
unfolding lookup keep_busy
lookup-keep_busy now heap key [] p h k = cc
lookup-keep_busy now heap key ((j, q) ∷ m) p h k = ground (arith, lookup-keep_busy now heap key m p)

keep_busy-mapped :
    (n now : ℕ) (heap : ℕ → Limiter) (m : List (String × ℕ))
    → AllMapped n m
    → AllMapped n (keep_busy now heap m)
unfolding keep_busy
keep_busy-mapped n now heap [] a = a
keep_busy-mapped n now heap ((j, q) ∷ m) a = ground (arith, keep_busy-mapped n now heap m a.1)

update_all-active :
    (old rpm now : ℕ) (m : List (String × ℕ)) (rl : RateLimiter) (p : ℕ)
    → ((update_all old rpm now m rl).heap p).active ≡ (rl.heap p).active
unfolding update_all update_limiter write
update_all-active old rpm now [] rl p = refl
update_all-active old rpm now ((j, q) ∷ m) rl p =
    ground (
      arith,
      update_all-active old rpm now m (write q (update_limiter old rpm now (rl.heap q)) rl) p,
    )

update_all-next :
    (old rpm now : ℕ) (m : List (String × ℕ)) (rl : RateLimiter)
    → ((update_all old rpm now m rl).next ≡ rl.next)
      × ((update_all old rpm now m rl).limits ≡ rl.limits)
unfolding update_all write
update_all-next old rpm now [] rl = (refl, refl)
update_all-next old rpm now ((j, q) ∷ m) rl =
    update_all-next old rpm now m (write q (update_limiter old rpm now (rl.heap q)) rl)

outstanding-set :
    (p i : ℕ) (ls : List Lease) (l : Lease)
    → get_elem? ls i ≡ some l
    → outstanding p (set ls i (record l { released = true })) + holds p l ≡ outstanding p ls
outstanding-set p i [] l h = cc
outstanding-set p zero (l' ∷ ls) l h = ground arith
outstanding-set p (suc i) (l' ∷ ls) l h = omega (arith, outstanding-set p i ls l h)

admit-active :
    (rpm max_conn now : ℕ) (l : Limiter)
    → (admit rpm max_conn now l).0.active
      ≡ (if (admit rpm max_conn now l).1 then l.active + 1 else l.active)
unfolding admit
admit-active rpm max_conn now l = ground arith

admit_found-active :
    (now : ℕ) (found : Option ℕ) (rl : RateLimiter) (ls : List Lease) (p : ℕ)
    → (rl.heap p).active ≡ outstanding p ls
    → ((admit_found now found rl).0.heap p).active
      ≡ holds p (record { limiter = (admit_found now found rl).1; released = false })
        + outstanding p ls
unfolding admit_found
admit_found-active now none rl ls p h = omega arith
admit_found-active now (some q) rl ls p h =
    ground (arith, admit-active rl.rpm rl.max_conn now (rl.heap q))

admit_found-other :
    (now : ℕ) (found : Option ℕ) (rl : RateLimiter) (p : ℕ)
    → (found ≡ some p → ⊥)
    → ((admit_found now found rl).0.heap p).active ≡ (rl.heap p).active
unfolding admit_found
admit_found-other now none rl p h = refl
admit_found-other now (some q) rl p h = ground arith

admit_found-frame :
    (now : ℕ) (found : Option ℕ) (rl : RateLimiter)
    → ((admit_found now found rl).0.next ≡ rl.next)
      × ((admit_found now found rl).0.limits ≡ rl.limits)
unfolding admit_found
admit_found-frame now none rl = (refl, refl)
admit_found-frame now (some q) rl = (refl, refl)

acquire-IsConsistent :
    (hash : String → String) (identity : String) (now : ℕ) (w : World)
    → IsConsistent w
    → IsConsistent (call hash (acquire_lease identity now) w)
unfolding call
acquire-IsConsistent hash identity now w c =
    let key = hash identity in
    let found = (find_limiter key now w.limiter).0 in
    let rl = (find_limiter key now w.limiter).1 in
    let (same_next, same_limits) = admit_found-frame now found rl in
    record {
      counted = λ p.
          admit_found-active now found rl w.leases p
            (find_limiter-active key now w.limiter p c.blank ∙ c.counted p);
      mapped =
          subst (λ n. AllMapped n (admit_found now found rl).0.limits) (sym same_next)
            (subst (AllMapped rl.next) (sym same_limits)
              (find_limiter-mapped key now w.limiter c.mapped));
      blank = λ p h.
          admit_found-other now found rl p
            (λ e. omega (arith, find_limiter-found key now w.limiter p c.mapped e, same_next))
          ∙ find_limiter-active key now w.limiter p c.blank
          ∙ c.blank p (omega (arith, find_limiter-next key now w.limiter, same_next));
    }

run_lease-active :
    (now i : ℕ) (w : World) (l : Lease) (p : ℕ)
    → get_elem? w.leases i ≡ some l
    → (w.limiter.heap p).active ≡ outstanding p w.leases
    → ((run_lease now l w.limiter).heap p).active
      ≡ outstanding p (set w.leases i (record l { released = true }))
unfolding run_lease
run_lease-active now i w l p h k = ground (arith, outstanding-set p i w.leases l h)

run_lease-frame :
    (now : ℕ) (l : Lease) (rl : RateLimiter)
    → ((run_lease now l rl).next ≡ rl.next) × ((run_lease now l rl).limits ≡ rl.limits)
unfolding run_lease
run_lease-frame now l rl = ground arith

run_lease-blank :
    (now : ℕ) (l : Lease) (rl : RateLimiter) (p : ℕ)
    → (rl.heap p).active ≡ 0
    → ((run_lease now l rl).heap p).active ≡ 0
unfolding run_lease
run_lease-blank now l rl p h = ground arith

released-IsConsistent :
    (now i : ℕ) (w : World) (l : Lease)
    → get_elem? w.leases i ≡ some l
    → IsConsistent w
    → IsConsistent (record {
      limiter = run_lease now l w.limiter;
      leases = set w.leases i (record l { released = true });
    })
released-IsConsistent now i w l found k =
    let (same_next, same_limits) = run_lease-frame now l w.limiter in
    record {
      counted = λ p. run_lease-active now i w l p found (k.counted p);
      mapped = rw (same_next, same_limits) k.mapped;
      blank = λ p h. run_lease-blank now l w.limiter p (k.blank p (omega (arith, same_next)));
    }

call-IsConsistent :
    (hash : String → String) (c : Call) (w : World) → IsConsistent w → IsConsistent (call hash c w)
unfolding call
call-IsConsistent hash (acquire_lease identity now) w k = acquire-IsConsistent hash identity now w k
call-IsConsistent hash (release i now) w k = elim (Option-cases (get_elem? w.leases i)) [
  | inl missing ↦ rw (missing, call) k
  | inr (l, found) ↦ rw (found, call) (released-IsConsistent now i w l found k)
]
call-IsConsistent hash (reload rpm max_conn now) w k =
    let rl = record w.limiter { rpm = rpm; max_conn = max_conn } in
    let old = w.limiter.rpm in
    let (same_next, same_limits) = update_all-next old rpm now rl.limits rl in
    record {
      counted = λ p. update_all-active old rpm now rl.limits rl p ∙ k.counted p;
      mapped = rw (same_next, same_limits) k.mapped;
      blank = λ p h.
          update_all-active old rpm now rl.limits rl p ∙ k.blank p (omega (arith, same_next));
    }
call-IsConsistent hash (tick now) w k = record {
  counted = k.counted;
  mapped = keep_busy-mapped w.limiter.next now w.limiter.heap w.limiter.limits k.mapped;
  blank = k.blank;
}

calls-IsConsistent :
    (hash : String → String) (cs : List Call) (w : World)
    → IsConsistent w
    → IsConsistent (calls hash cs w)
calls-IsConsistent hash [] w k = k
calls-IsConsistent hash (c ∷ cs) w k =
    calls-IsConsistent hash cs (call hash c w) (call-IsConsistent hash c w k)

abbrev pub start : ℕ → ℕ → World
start rpm max_conn = record { limiter = new_rate_limiter rpm max_conn; leases = [] }

start-IsConsistent : (rpm max_conn : ℕ) → IsConsistent (start rpm max_conn)
unfolding new_rate_limiter
start-IsConsistent rpm max_conn = record { counted = λ p. refl; mapped = tt; blank = λ p h. refl }

-- After any calls on a new limiter, in any order and with leases released any number of times, the
-- counter of every bucket is the number of leases on that very bucket that were not released.
pub active-outstanding :
    (hash : String → String) (rpm max_conn : ℕ) (cs : List Call) (p : ℕ)
    → let w = calls hash cs (start rpm max_conn) in
      (w.limiter.heap p).active ≡ outstanding p w.leases
active-outstanding hash rpm max_conn cs p =
    (calls-IsConsistent hash cs (start rpm max_conn) (start-IsConsistent rpm max_conn)).counted p

-- The janitor evicts no bucket that a request still holds: after any calls, a key whose bucket has
-- an unreleased lease leads to the same bucket after a tick.
pub lookup-tick_held :
    (hash : String → String) (rpm max_conn now : ℕ) (cs : List Call) (key : String) (p : ℕ)
    → let w = calls hash cs (start rpm max_conn) in
      lookup key w.limiter.limits ≡ some p
      → 0 < outstanding p w.leases
      → lookup key (call hash (tick now) w).limiter.limits ≡ some p
unfolding call
lookup-tick_held hash rpm max_conn now cs key p found held =
    let w = calls hash cs (start rpm max_conn) in
    lookup-keep_busy now w.limiter.heap key w.limiter.limits p found
      (omega (arith, active-outstanding hash rpm max_conn cs p))
