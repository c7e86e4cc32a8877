-- ===== src/Resource/Outlives.antt =====
-- A reload is not aborted when the resource is disabled.
use chocobofix.Prelude.{
  ℕ, ◌+◌, ◌≤◌, ◌<◌, ◌≡◌, ◌≢◌, refl, ap, ◌∙◌, Bool, true, false, Option, none, some, List, [], ◌∷◌,
  arith, eqb, not, ◌&&◌, any, eqb_iff, if◌then◌else◌, All, All-map,
}
use chocobofix.Resource.{
  Outcome, loaded, failed, cancelled, Resource, Event, change, reload, reply, initially, fetch,
  fetch_if, is_current, settle, step, steps, abort,
}

abort-numbers :
    (c : Option ℕ) (aborted : List ℕ) (top : ℕ)
    → All (λ n. n ≤ top) aborted
    → ((n : ℕ) → c ≡ some n → n ≤ top)
    → All (λ n. n ≤ top) (abort c aborted)
abort-numbers none aborted top h k = h
abort-numbers (some n) aborted top h k = (k n refl, h)

raised : (ns : List ℕ) (top : ℕ) → All (λ n. n ≤ top) ns → All (λ n. n ≤ top + 1) ns
raised ns top h = All-map _ _ (λ n k. omega (arith, k)) ns h

not_aborted : (n top : ℕ) (ns : List ℕ) → All (λ k. k ≤ top) ns → top < n → any (eqb n) ns ≡ false
not_aborted n top [] h l = refl
not_aborted n top (k ∷ ns) h l = ground (arith, not_aborted n top ns h.1 l)

module _ {D E : Type 0} where
  -- The numbers of aborted runs, and of the one that the cleanup aborts, are numbers of runs.
  abbrev IsNumbered : Resource D E → Type 0
  IsNumbered s = All (λ n. n ≤ s.seq) s.aborted × ((n : ℕ) → s.cleanup ≡ some n → n ≤ s.seq)

  settle-IsNumbered :
      (mine : ℕ) (o : Outcome D E) (s : Resource D E) → IsNumbered s → IsNumbered (settle mine o s)
  unfolding settle
  settle-IsNumbered mine cancelled s h = h
  settle-IsNumbered mine (failed x) s h = by_current (is_current mine s)
    where
      by_current :
          (b : Bool)
          → IsNumbered
              (if b then record s { content = none; error = some x; loading = false } else s)
      by_current true = h
      by_current false = h
  settle-IsNumbered mine (loaded x) s h = by_current (is_current mine s)
    where
      by_current :
          (b : Bool)
          → IsNumbered
              (if b then record s { content = some x; error = none; loading = false } else s)
      by_current true = h
      by_current false = h

  step-IsNumbered : (s : Resource D E) (e : Event D E) → IsNumbered s → IsNumbered (step s e)
  unfolding step fetch
  step-IsNumbered s (change true) h = (
    raised _ s.seq (abort-numbers s.cleanup s.aborted s.seq h.0 h.1),
    λ n e. let same : s.seq + 1 ≡ n = cc in omega (arith, same),
  )
  step-IsNumbered s (change false) h = (abort-numbers s.cleanup s.aborted s.seq h.0 h.1, λ n e. cc)
  step-IsNumbered s reload h = by_enabled s.enabled
    where
      by_enabled : (b : Bool) → IsNumbered (fetch_if b s).0
      by_enabled true = (raised s.aborted s.seq h.0, λ n e. let k = h.1 n e in omega (arith, k))
      by_enabled false = h
  step-IsNumbered s (reply mine o) h = settle-IsNumbered mine o s h

  steps-IsNumbered :
      (s : Resource D E) (es : List (Event D E)) → IsNumbered s → IsNumbered (steps s es)
  unfolding steps
  steps-IsNumbered s [] h = h
  steps-IsNumbered s (e ∷ es) h = steps-IsNumbered (step s e) es (step-IsNumbered s e h)

  -- Replies to other runs.
  abbrev pub AreOthers : ℕ → List (Event D E) → Type 0
  AreOthers n [] = Unit
  AreOthers n (reply m o ∷ es) = (m ≢ n) × AreOthers n es
  AreOthers n (_ ∷ es) = ⊥

  settle_other : (m : ℕ) (o : Outcome D E) (s : Resource D E) → m ≢ s.seq → settle m o s ≡ s
  unfolding settle
  settle_other m cancelled s h = refl
  settle_other m (loaded x) s h = rw (not_same) refl
    where
      not_same : eqb m s.seq && not (any (eqb m) s.aborted) ≡ false
      not_same = ground (arith, eqb_iff m s.seq)
  settle_other m (failed x) s h = rw (not_same) refl
    where
      not_same : eqb m s.seq && not (any (eqb m) s.aborted) ≡ false
      not_same = ground (arith, eqb_iff m s.seq)

  steps-others : (s : Resource D E) (es : List (Event D E)) → AreOthers s.seq es → steps s es ≡ s
  unfolding steps step
  steps-others s [] h = refl
  steps-others s (change b ∷ es) h = absurd h
  steps-others s (reload ∷ es) h = absurd h
  steps-others s (reply m o ∷ es) h =
      ap (λ r. steps r es) (settle_other m o s h.0) ∙ steps-others s es h.1

  reloaded : Resource D E → Resource D E
  reloaded s = record s { loading = true; error = none; seq = s.seq + 1 }

  disabled : Resource D E → Resource D E
  disabled s = record s {
    enabled = false;
    aborted = abort s.cleanup s.aborted;
    content = none;
    error = none;
    loading = false;
    cleanup = none;
  }

  step-reload : (s : Resource D E) → s.enabled ≡ true → step s reload ≡ reloaded s
  unfolding step fetch reloaded
  step-reload s on = ap (λ b. (fetch_if b s).0) on

  step-change : (s : Resource D E) → step s (change false) ≡ disabled s
  unfolding step fetch disabled
  step-change s = refl

  step-answer :
      (s : Resource D E) (d : D)
      → IsNumbered s
      → let last = step (disabled (reloaded s)) (reply (s.seq + 1) (loaded d)) in
        (last.enabled ≡ false) × (last.content ≡ some d)
  unfolding step settle disabled reloaded
  step-answer s d h = rw current (refl, refl)
    where
      fresh : any (eqb (s.seq + 1)) (abort s.cleanup s.aborted) ≡ false
      fresh =
          not_aborted (s.seq + 1) s.seq _ (abort-numbers s.cleanup s.aborted s.seq h.0 h.1)
            (omega arith)

      current :
          eqb (s.seq + 1) (s.seq + 1) && not (any (eqb (s.seq + 1)) (abort s.cleanup s.aborted))
          ≡ true
      current = rw fresh (ground arith)

  outlives :
      (s : Resource D E) (before after : List (Event D E)) (d : D)
      → IsNumbered s
      → s.enabled ≡ true
      → AreOthers (s.seq + 1) before
      → AreOthers (s.seq + 1) after
      → let off = step (steps (step s reload) before) (change false) in
        let last = step (steps off after) (reply (s.seq + 1) (loaded d)) in
        (last.enabled ≡ false) × (last.content ≡ some d)
  unfolding reloaded disabled
  outlives s before after d h on b a = rw (step-reload s on) (
      rw (steps-others (reloaded s) before b) (
        rw (step-change (reloaded s))
          (rw (steps-others (disabled (reloaded s)) after a) (step-answer s d h))))

  -- Whatever happened before: when an enabled resource is reloaded and then disabled while that reload
  -- is the latest run and under way, the reload's reply is shown although the resource is disabled,
  -- whichever replies to other runs come before and after it was disabled.
  pub reload-outlives :
      (enabled : Bool) (past before after : List (Event D E)) (d : D)
      → (steps (initially enabled) past).enabled ≡ true
      → AreOthers ((steps (initially enabled) past).seq + 1) before
      → AreOthers ((steps (initially enabled) past).seq + 1) after
      → let s = steps (initially enabled) past in
        let off = step (steps (step s reload) before) (change false) in
        let last = step (steps off after) (reply (s.seq + 1) (loaded d)) in
        (last.enabled ≡ false) × (last.content ≡ some d)
  reload-outlives enabled past before after d on b a =
      outlives (steps (initially enabled) past) before after d
        (steps-IsNumbered (initially enabled) past (tt, λ n e. cc)) on b a
