-- ===== src/Api/Limiter/Queue.antt =====
-- The limiter as one queue in the order of arrival, of which the first four hold a connection.
use mathlib.Core.List.{append_assoc, append-nil}
use chocobofix.Prelude.{
  ℕ, zero, suc, ◌≤◌, ◌≡◌, refl, sym, ap, ◌⊎◌, inl, inr, true, false, List, [], ◌∷◌, ◌++◌, arith,
  length, take, drop, any, eqb, Bool-cases,
}
use chocobofix.Api.Limiter.{
  Connections, Event, arrive, abort, finish, max_concurrent, without, shift, release, hand_over,
  step, run, idle,
}
use chocobofix.Api.Limiter.Bounds.{IsBounded, step-IsBounded, idle-IsBounded}

-- What a request asks of one queue: to join it at the end, to leave it while it waits, to leave it
-- when it holds a connection. Nothing counts connections here.
abbrev turn : List ℕ → Event → List ℕ
turn queue (arrive r false) = queue ++ r ∷ []
turn queue (arrive r true) = queue
turn queue (abort r) = take max_concurrent queue ++ without r (drop max_concurrent queue)
turn queue (finish r) = without r (take max_concurrent queue) ++ drop max_concurrent queue

unfoldable pub turns : List ℕ → List Event → List ℕ
turns queue [] = queue
turns queue (e ∷ es) = turns (turn queue e) es

-- The connections that show a queue.
pub record Shows (c : Connections) (queue : List ℕ) : Type 0 where
  pub first : c.holding ≡ take max_concurrent queue
  pub rest : c.limiter.waiting ≡ drop max_concurrent queue

abbrev queue_of : Connections → List ℕ
queue_of c = c.holding ++ c.limiter.waiting

take_all : (n : ℕ) (xs : List ℕ) → length xs ≤ n → take n (xs ++ []) ≡ xs
take_all zero [] h = refl
take_all zero (x ∷ xs) h = absurd (omega arith)
take_all (suc n) [] h = refl
take_all (suc n) (x ∷ xs) h = ap (λ zs. x ∷ zs) (take_all n xs (omega arith))

drop_all : (n : ℕ) (xs : List ℕ) → length xs ≤ n → drop n (xs ++ []) ≡ []
drop_all zero [] h = refl
drop_all zero (x ∷ xs) h = absurd (omega arith)
drop_all (suc n) [] h = refl
drop_all (suc n) (x ∷ xs) h = drop_all n xs (omega arith)

take_exact : (n : ℕ) (xs ys : List ℕ) → length xs ≡ n → take n (xs ++ ys) ≡ xs
take_exact zero [] ys h = refl
take_exact zero (x ∷ xs) ys h = absurd (omega arith)
take_exact (suc n) [] ys h = absurd (omega arith)
take_exact (suc n) (x ∷ xs) ys h = ap (λ zs. x ∷ zs) (take_exact n xs ys (omega arith))

drop_exact : (n : ℕ) (xs ys : List ℕ) → length xs ≡ n → drop n (xs ++ ys) ≡ ys
drop_exact zero [] ys h = refl
drop_exact zero (x ∷ xs) ys h = absurd (omega arith)
drop_exact (suc n) [] ys h = absurd (omega arith)
drop_exact (suc n) (x ∷ xs) ys h = drop_exact n xs ys (omega arith)

without_absent : (r : ℕ) (rs : List ℕ) → any (eqb r) rs ≡ false → without r rs ≡ rs
unfolding without
without_absent r [] h = refl
without_absent r (x ∷ xs) h = ground (arith, without_absent r xs)

holding_first :
    (hs ws : List ℕ) → length hs ≤ 4 → (ws ≡ []) ⊎ (length hs ≡ 4) → take 4 (hs ++ ws) ≡ hs
holding_first hs ws h (inl none_waits) = rw none_waits (take_all 4 hs h)
holding_first hs ws h (inr full) = take_exact 4 hs ws full

waiting_last :
    (hs ws : List ℕ) → length hs ≤ 4 → (ws ≡ []) ⊎ (length hs ≡ 4) → drop 4 (hs ++ ws) ≡ ws
waiting_last hs ws h (inl none_waits) = rw none_waits (drop_all 4 hs h)
waiting_last hs ws h (inr full) = drop_exact 4 hs ws full

queue_of-Shows : (c : Connections) → IsBounded c → Shows c (queue_of c)
queue_of-Shows c v = record {
  first = sym (holding_first c.holding c.limiter.waiting (omega arith) (ground arith));
  rest = sym (waiting_last c.holding c.limiter.waiting (omega arith) (ground arith));
}

handed_on :
    (hs : List ℕ) (active : ℕ) (ws : List ℕ)
    → hs ++ ws ≡ queue_of (hand_over hs (release (record { active = active; waiting = ws })))
unfolding hand_over release shift
handed_on hs active [] = refl
handed_on hs active (next ∷ rest) = sym (append_assoc hs (next ∷ []) rest)

turn-step : (c : Connections) (e : Event) → IsBounded c → turn (queue_of c) e ≡ queue_of (step c e)
unfolding step
turn-step c (arrive r true) v = refl
turn-step c (arrive r false) v = ground (
  arith,
  append_assoc c.holding c.limiter.waiting (r ∷ []),
  append-nil c.holding,
  append-nil (c.holding ++ r ∷ []),
)
turn-step c (abort r) v = let s = queue_of-Shows c v in rw (← s.first, ← s.rest) refl
turn-step c (finish r) v =
    let s = queue_of-Shows c v in
    rw (← s.first, ← s.rest)
      elim (Bool-cases (any (eqb r) c.holding)) [
        | inl held ↦ rw held (handed_on (without r c.holding) c.limiter.active c.limiter.waiting)
        | inr absent ↦ rw (absent, without_absent r c.holding absent) refl
      ]

turns-run :
    (c : Connections) (es : List Event) → IsBounded c → Shows (run c es) (turns (queue_of c) es)
unfolding run turns
turns-run c [] v = queue_of-Shows c v
turns-run c (e ∷ es) v = rw (turn-step c e v) (turns-run (step c e) es (step-IsBounded c e v))

-- The limiter, with its counter, its queue of promises and its hand-over, implements one queue in
-- the order of arrival: after any sequence of requests, aborts and completions the requests that
-- hold a connection are the first four of that queue and the waiting ones are the others, in order.
pub run-Shows : (es : List Event) → Shows (run idle es) (turns [] es)
run-Shows es = turns-run idle es idle-IsBounded
