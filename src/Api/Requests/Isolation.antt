-- ===== src/Api/Requests/Isolation.antt =====
-- No session sees a value that was fetched for another: the invariant along any sequence of calls,
-- replies, aborts, timeouts and changes of token.
use chocobofix.Prelude.{
  ℕ, ◌≡◌, Bool, true, false, Option, none, some, List, [], ◌∷◌, All, find-All, find_holds, String,
  string_eq, arith, Bool-cases, Option-cases, inl, inr, eqb, refl, not, ◌||◌, subst, sym, eqb_iff,
}
use chocobofix.Prelude.JsMap.{get-All}
use chocobofix.Api.Requests.{
  value, failure, Failure, abort_error, Reply, response, network_error, fetch_aborted, Stage,
  fetching, returned, Pending, Client, cached, Options, found_cached, found_inflight, present,
  request_key, start, cached_or_send, join_or_start, request,
}
use chocobofix.Api.Requests.Replies.{
  Event, call, reply, resume, abort, time_out, token, clear, Effect, answered, settled, raw,
  timeout_error, caught, expires, expire, conclude, store, step, run, initial, pending_of, replied,
  finish_raw, after_expiry, deliver, resumed, answer,
}
use chocobofix.Api.Requests.Invariant.{
  IsIsolated, IsCarried, set_token-IsIsolated, clear_cache-IsIsolated, request-IsIsolated,
  conclude-IsIsolated, update-All, update-All_found, store-own, store-small,
}

module _ {V : Type 0} (P : ℕ → V → Type 0) where
  -- A successful response carries a value of the session that its request was sent in.
  abbrev pub IsGoodReply : Option (Pending V) → Reply V → Type 0
  IsGoodReply (some p) (response true status v error text) = P p.scope v
  IsGoodReply _ _ = Unit

  abbrev pub IsHonest : Client V → Event V → Type 0
  IsHonest c (reply n r) = IsGoodReply (pending_of n c) r
  IsHonest c _ = Unit

  abbrev pub AreHonest : Client V → List (Event V) → Type 0
  AreHonest c [] = Unit
  AreHonest c (e ∷ es) = IsHonest c e × AreHonest (step c e).0 es

  -- A value that a caller is given belongs to the session.
  abbrev pub EffectIn : ℕ → Effect V → Type 0
  EffectIn n (answered (cached v)) = P n v
  EffectIn n (settled promise (value v)) = P n v
  EffectIn n _ = Unit

  abbrev IsSound : Client V × Effect V → Type 0
  IsSound r = IsIsolated P r.0 × EffectIn r.0.epoch r.1

  expire-IsIsolated : (b : Bool) (c : Client V) → IsIsolated P c → IsIsolated P (after_expiry b c)
  unfolding expire
  expire-IsIsolated true c v = clear_cache-IsIsolated P "" _ (set_token-IsIsolated P none c v)
  expire-IsIsolated false c v = v

  failed-IsSound :
      (p : Pending V) (c : Client V) (e : Failure)
      → IsIsolated P c
      → IsSound (finish_raw p c (failure e))
  failed-IsSound p c e v = (conclude-IsIsolated P p c v, tt)

  caught-failure : (p : Pending V) (e : Failure) → (f : Failure) × (caught p e ≡ failure f)
  unfolding caught
  caught-failure p e = elim (Bool-cases p.timed_out) [
    | inl late ↦ (timeout_error, simp late)
    | inr soon ↦ (e, simp soon)
  ]

  caught-IsSound :
      (p : Pending V) (c : Client V) (e : Failure)
      → IsIsolated P c
      → IsSound (finish_raw p c (caught p e))
  caught-IsSound p c e v = let (f, is_f) = caught-failure p e in rw is_f (failed-IsSound p c f v)

  returned-IsSound :
      (p : Pending V) (c : Client V) (w : V)
      → pending_of p.promise c ≡ some p
      → P p.scope w
      → IsIsolated P c
      → IsSound (finish_raw p c (value w))
  returned-IsSound p c w found good v = (
    record {
      own = v.own;
      small = v.small;
      current = v.current;
      carried = update-All_found (IsCarried P) _ p.promise c.pending found good v.carried;
    },
    tt,
  )

  deliver-IsSound :
      (p : Pending V) (c : Client V) (w : V)
      → P p.scope w
      → IsIsolated P c
      → IsSound (deliver p w c)
  unfolding conclude
  deliver-IsSound p c w good v = elim (Bool-cases (eqb p.scope c.epoch)) [
    | inl same ↦ rw same (conclude-IsIsolated P p _ (kept (own_scope same)), own_scope same)
    | inr other ↦ rw other (conclude-IsIsolated P p c v, tt)
  ]
    where
      own_scope : eqb p.scope c.epoch ≡ true → P c.epoch w
      own_scope same = subst (λ n. P n w) ((eqb_iff p.scope c.epoch).0 same) good

      kept : P c.epoch w → IsIsolated P (record c { immutable = store p.cache_key w c.immutable })
      kept own = record {
        own = store-own P p.cache_key w c.epoch c.immutable own v.own;
        small = store-small P p.cache_key w c.immutable v.small;
        current = v.current;
        carried = v.carried;
      }

  replied-IsSound :
      (p : Pending V) (c : Client V) (r : Reply V)
      → pending_of p.promise c ≡ some p
      → IsGoodReply (some p) r
      → IsIsolated P c
      → IsSound (finish_raw p (after_expiry (expires c.epoch p r) c) (raw c.epoch p r))
  unfolding raw expires
  replied-IsSound p c network_error found good v = caught-IsSound p c _ v
  replied-IsSound p c fetch_aborted found good v = caught-IsSound p c _ v
  replied-IsSound p c (response false status w error text) found good v =
      elim (Bool-cases (not (eqb p.scope c.epoch) || p.aborted)) [
        | inl stale ↦ rw stale (caught-IsSound p c abort_error v)
        | inr live ↦ rw live (caught-IsSound p _ _ (expire-IsIsolated _ c v))
      ]
  replied-IsSound p c (response true status w error text) found good v =
      elim (Bool-cases (not (eqb p.scope c.epoch) || p.aborted)) [
        | inl stale ↦ rw stale (caught-IsSound p c abort_error v)
        | inr live ↦ rw live (returned-IsSound p c w found good v)
      ]

  found_cached-in :
      (k : Option String) (n : ℕ) (m : List (String × V)) {w : V}
      → All (λ b. P n b.1) m
      → found_cached k m ≡ some w
      → P n w
  found_cached-in none n m {w} h e = cc
  found_cached-in (some k) n m {w} h e = get-All (P n) k m h e

  answer-IsSound : (o : Options) (c : Client V) → IsIsolated P c → IsSound (answer (request o c))
  unfolding request start
  answer-IsSound o c v = (rw answer_state (request-IsIsolated P o c v), from_cache)
    where
      answer_state : (answer (request o c)).0 ≡ (request o c).0
      answer_state = refl

      from_cache : EffectIn (answer (request o c)).0.epoch (answer (request o c)).1
      from_cache = elim (Bool-cases o.signal_aborted) [
        | inl gone ↦ rw (gone, request) tt
        | inr there ↦ elim (Option-cases (found_cached (present o.cache_key) c.immutable)) [
          | inr (w, hit) ↦
              rw (there, request)
                (rw (hit, cached_or_send)
                  (found_cached-in (present o.cache_key) c.epoch c.immutable v.own hit))
          | inl miss ↦ elim (Option-cases (found_inflight (request_key c.epoch o) c.inflight)) [
            | inr (n, same) ↦
                rw (there, request) (rw (miss, cached_or_send) (rw (same, join_or_start) tt))
            | inl new ↦ rw (there, request) (rw (miss, cached_or_send) (rw (new, join_or_start) tt))
          ]
        ]
      ]

  pending_at :
      (n : ℕ) (c : Client V) {p : Pending V}
      → pending_of n c ≡ some p
      → pending_of p.promise c ≡ some p
  pending_at n c {p} e =
      subst (λ m. pending_of m c ≡ some p)
        (sym ((eqb_iff p.promise n).0 (find_holds (λ q. eqb q.promise n) c.pending e))) e

  step-IsSound : (c : Client V) (e : Event V) → IsHonest c e → IsIsolated P c → IsSound (step c e)
  unfolding step
  step-IsSound c (call o) h v = answer-IsSound o c v
  step-IsSound c (reply n r) h v = elim (Option-cases (pending_of n c)) [
    | inl gone ↦ rw (gone, replied) (v, tt)
    | inr (p, found) ↦ rw (found, replied) (at_stage p p.stage refl found (rw found at h))
  ]
    where
      at_stage :
          (p : Pending V) (s : Stage V)
          → p.stage ≡ s
          → pending_of n c ≡ some p
          → IsGoodReply (some p) r
          → IsSound (replied r c (some p))
      at_stage p fetching is_s found good =
          rw (is_s, replied) (replied-IsSound p c r (pending_at n c found) good v)
      at_stage p (returned w) is_s found good = rw (is_s, replied) (v, tt)
  step-IsSound c (resume n) h v = elim (Option-cases (pending_of n c)) [
    | inl gone ↦ rw (gone, resumed) (v, tt)
    | inr (p, found) ↦ rw (found, resumed) (at_stage p p.stage refl found)
  ]
    where
      at_stage :
          (p : Pending V) (s : Stage V)
          → p.stage ≡ s
          → pending_of n c ≡ some p
          → IsSound (resumed c (some p))
      at_stage p fetching is_s found = rw (is_s, resumed) (v, tt)
      at_stage p (returned w) is_s found =
          rw (is_s, resumed)
            (deliver-IsSound p c w
              (rw is_s at (find-All (IsCarried P) (λ q. eqb q.promise n) c.pending v.carried found))
              v)
  step-IsSound c (abort n) h v = (
    record {
      own = v.own;
      small = v.small;
      current = v.current;
      carried = update-All (IsCarried P) _ n c.pending (λ p q. q) v.carried;
    },
    tt,
  )
  step-IsSound c (time_out n) h v = (
    record {
      own = v.own;
      small = v.small;
      current = v.current;
      carried = update-All (IsCarried P) _ n c.pending (λ p q. q) v.carried;
    },
    tt,
  )
  step-IsSound c (token t) h v = (set_token-IsIsolated P t c v, tt)
  step-IsSound c (clear prefix) h v = (clear_cache-IsIsolated P prefix c v, tt)

  run_from :
      (c : Client V) (es : List (Event V))
      → AreHonest c es
      → IsIsolated P c
      → IsIsolated P (run c es)
  unfolding run
  run_from c [] h v = v
  run_from c (e ∷ es) h v = run_from (step c e).0 es h.1 (step-IsSound c e h.0 v).0

  initial-IsIsolated : IsIsolated P initial
  initial-IsIsolated = record { own = tt; small = omega arith; current = tt; carried = tt }

  -- If each successful response carries a value of the session that its request was sent in, then
  -- after any sequence of calls, replies, aborts, timeouts and changes of token the cache holds
  -- values of the present session only and at most 64 of them, and every read that is shared was
  -- started in the present session.
  pub run-IsIsolated : (es : List (Event V)) → AreHonest initial es → IsIsolated P (run initial es)
  run-IsIsolated es h = run_from initial es h initial-IsIsolated

  -- Under the same condition on the responses, a value that a caller is given after such a
  -- sequence, from the cache or by its promise, is one of the session at that time: a reply that
  -- arrives for an earlier session is never delivered.
  pub delivered-EffectIn :
      (es : List (Event V)) (e : Event V)
      → AreHonest initial es
      → IsHonest (run initial es) e
      → EffectIn (step (run initial es) e).0.epoch (step (run initial es) e).1
  delivered-EffectIn es e h k = (step-IsSound (run initial es) e k (run-IsIsolated es h)).1
