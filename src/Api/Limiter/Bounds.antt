-- ===== src/Api/Limiter/Bounds.antt =====
-- How many connections are open: never more than the limit, and never fewer while one waits.
use chocobofix.Prelude.{
  ℕ, ◌+◌, ◌≤◌, ◌≡◌, refl, ◌⊎◌, inl, true, List, [], ◌∷◌, arith, length, length-append, any, eqb,
}
use chocobofix.Api.Limiter.{
  Connections, Event, arrive, abort, finish, max_concurrent, without, step, run, idle,
}

-- `active` counts the requests that hold a connection, the limit holds, and requests wait only
-- when every connection is taken.
pub record IsBounded (c : Connections) : Type 0 where
  pub counted : c.limiter.active ≡ length c.holding
  pub limited : c.limiter.active ≤ max_concurrent
  pub busy : (c.limiter.waiting ≡ []) ⊎ (c.limiter.active ≡ max_concurrent)

length-without :
    (r : ℕ) (rs : List ℕ) → any (eqb r) rs ≡ true → length (without r rs) + 1 ≡ length rs
unfolding without
length-without r [] h = ground arith
length-without r (x ∷ xs) h = ground (arith, length-without r xs)

without-nil : (r : ℕ) (rs : List ℕ) → rs ≡ [] → without r rs ≡ []
unfolding without
without-nil r [] h = refl
without-nil r (x ∷ xs) h = ground arith

pub step-IsBounded : (c : Connections) (e : Event) → IsBounded c → IsBounded (step c e)
unfolding step
step-IsBounded c (arrive r aborted) v = ground (arith, length-append c.holding (r ∷ []))
step-IsBounded c (abort r) v = ground (arith, without-nil r c.limiter.waiting)
step-IsBounded c (finish r) v = grind (arith, length-without r c.holding, length-append)

run-IsBounded : (c : Connections) (es : List Event) → IsBounded c → IsBounded (run c es)
unfolding run
run-IsBounded c [] v = v
run-IsBounded c (e ∷ es) v = run-IsBounded (step c e) es (step-IsBounded c e v)

pub idle-IsBounded : IsBounded idle
idle-IsBounded = record { counted = refl; limited = omega arith; busy = inl refl }

-- After any sequence of requests, aborts and completions, `active` is the number of requests that
-- hold a connection, it is at most four, and a request waits only while all four are taken.
pub run-idle-IsBounded : (es : List Event) → IsBounded (run idle es)
run-idle-IsBounded es = run-IsBounded idle es idle-IsBounded
