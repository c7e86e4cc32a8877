-- ===== src/Jobs/Lost.antt =====
-- A generation whose last poll gets no answer.
use chocobofix.Prelude.{
  ◌-◌, ◌≡◌, refl, sym, ◌∙◌, ap, subst, string_eq, ℕ, zero, suc, ◌+◌, Bool, true, false, not, ◌||◌,
  Option, none, if◌then◌else◌, some, List, [], ◌∷◌, eqb_iff,
}
use chocobofix.Jobs.{
  Poll, Generation, Event, clicked, created, create_failed, polled, poll_failed, note_created,
  reschedule, poll_of, note_polled, note_poll_failed, with_poll, if_creating, complete_if, begin,
  idle, step, steps,
}

-- The events without a click on the button that starts a generation.
abbrev pub HasNoClick : List Event → Type 0
HasNoClick [] = Unit
HasNoClick (clicked _ ∷ es) = ⊥
HasNoClick (_ ∷ es) = HasNoClick es

quiet :
    (g : Generation) (es : List Event)
    → g.polls ≡ []
    → g.creating ≡ 0
    → HasNoClick es
    → steps g es ≡ g
unfolding steps step poll_of
quiet g [] p c n = refl
quiet g (clicked has_instance ∷ es) p c n = absurd n
quiet g (created d ∷ es) p c n =
    ap (λ k. steps (if_creating k (note_created d) g) es) c ∙ quiet g es p c n
quiet g (create_failed ∷ es) p c n =
    ap
      (λ k.
        steps (if_creating k (λ h. record h { is_running = false; creating = h.creating - 1 }) g)
          es)
      c
    ∙ quiet g es p c n
quiet g (polled id state ∷ es) p c n =
    ap (λ ps. steps (with_poll (poll_of id ps) (note_polled id state) g) es) p ∙ quiet g es p c n
quiet g (poll_failed id ∷ es) p c n =
    ap (λ ps. steps (with_poll (poll_of id ps) (note_poll_failed id) g) es) p ∙ quiet g es p c n

-- A generation that runs is not shown as finished.
abbrev IsOpen : Generation → Type 0
IsOpen g = g.is_running ≡ true → g.is_finished ≡ false

step-IsOpen : (g : Generation) (e : Event) → IsOpen g → IsOpen (step g e)
unfolding step begin note_created note_polled note_poll_failed
step-IsOpen g (clicked has_instance) h = by_test (not has_instance || g.is_running)
  where
    by_test :
        (b : Bool)
        → IsOpen (
            if b then g else record g {
              jobs = [];
              is_running = true;
              is_finished = false;
              creating = g.creating + 1;
            })
    by_test true = h
    by_test false = λ r. refl
step-IsOpen g (created c) h = by_count g.creating
  where
    by_count : (n : ℕ) → IsOpen (if_creating n (note_created c) g)
    by_count zero = h
    by_count (suc n) = h
step-IsOpen g create_failed h = by_count g.creating
  where
    by_count :
        (n : ℕ)
        → IsOpen (if_creating n (λ k. record k { is_running = false; creating = k.creating - 1 }) g)
    by_count zero = h
    by_count (suc n) = λ r. cc
step-IsOpen g (polled id state) h = by_poll (poll_of id g.polls)
  where
    by_end : (b : Bool) (k : Generation) → IsOpen k → IsOpen (complete_if b k)
    by_end true k open_still = λ r. cc
    by_end false k open_still = open_still

    by_poll : (o : Option Poll) → IsOpen (with_poll o (note_polled id state) g)
    by_poll none = h
    by_poll (some p) = by_end _ _ h
step-IsOpen g (poll_failed id) h = by_poll (poll_of id g.polls)
  where
    by_poll : (o : Option Poll) → IsOpen (with_poll o (note_poll_failed id) g)
    by_poll none = h
    by_poll (some p) = λ r. cc

steps-IsOpen : (g : Generation) (es : List Event) → IsOpen g → IsOpen (steps g es)
unfolding steps
steps-IsOpen g [] h = h
steps-IsOpen g (e ∷ es) h = steps-IsOpen (step g e) es (step-IsOpen g e h)

failed-stops :
    (g : Generation) (p : Poll) (es : List Event)
    → g.polls ≡ p ∷ []
    → g.creating ≡ 0
    → HasNoClick es
    → let last = steps (step g (poll_failed p.job_id)) es in
      (last.is_running ≡ false)
      × (last.is_finished ≡ g.is_finished)
      × (last.completed ≡ g.completed)
unfolding step note_poll_failed poll_of reschedule
failed-stops g p es q c n =
    subst
      (λ h. (h.is_running ≡ false) × (h.is_finished ≡ g.is_finished) × (h.completed ≡ g.completed))
      (sym (ap (λ h. steps h es) stopped ∙ quiet (note_poll_failed p.job_id p g) es none_left c n))
      (refl, refl, refl)
  where
    found : poll_of p.job_id (p ∷ []) ≡ some p
    found = rw ((eqb_iff p.job_id p.job_id).1 refl) refl

    stopped : step g (poll_failed p.job_id) ≡ note_poll_failed p.job_id p g
    stopped = ap (λ o. with_poll o (note_poll_failed p.job_id) g) (ap (poll_of p.job_id) q ∙ found)

    none_left : (note_poll_failed p.job_id p g).polls ≡ []
    none_left = ap (reschedule false p.job_id) q ∙ rw ((eqb_iff p.job_id p.job_id).1 refl) refl

-- Whatever happened before: if a generation runs, no creation is open and the only poll that is left
-- gets no answer, then the generation stops running, and unless it is started again it is never shown
-- as finished and `onDone` is not called any more, whatever the other jobs came to.
pub poll_failed-lost :
    (past : List Event) (p : Poll) (es : List Event)
    → (steps idle past).is_running ≡ true
    → (steps idle past).polls ≡ p ∷ []
    → (steps idle past).creating ≡ 0
    → HasNoClick es
    → let last = steps (step (steps idle past) (poll_failed p.job_id)) es in
      (last.is_running ≡ false)
      × (last.is_finished ≡ false)
      × (last.completed ≡ (steps idle past).completed)
poll_failed-lost past p es running q c n =
    let (stopped, same, called) = failed-stops (steps idle past) p es q c n in
    (stopped, same ∙ steps-IsOpen idle past (λ r. refl) running, called)
