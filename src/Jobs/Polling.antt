-- ===== src/Jobs/Polling.antt =====
-- A generation that runs goes on, and its polls keep their pace.
use chocobofix.Prelude.{
  ℕ, zero, suc, ◌+◌, ◌-◌, ◌≤◌, ◌≡◌, ◌≢◌, refl, ◌∙◌, ap, subst, String, string_eq, eq_iff, Bool,
  true, false, not, ◌||◌, ◌&&◌, Option, none, some, List, [], ◌∷◌, ◌⊎◌, inl, inr, arith, All,
  All-append, every, Bool-cases, if◌then◌else◌, ◌===◌,
}
use chocobofix.Prelude.JsMap.{set, get-set}
use chocobofix.Jobs.{
  scenarios, JobState, is_live, ended, Poll, Generation, Created, Event, clicked, created,
  create_failed, polled, poll_failed, has_ended, begin, note_created, reschedule, poll_of,
  complete_if, note_polled, note_poll_failed, with_poll, if_creating, step, steps, idle,
}
use chocobofix.Jobs.Polls.{
  IsPaced, reschedule-IsPaced, HasPoll, HasPoll-append_right, HasPoll-reschedule, HasPoll-poll_of,
  not_empty,
}

-- Each scenario's job has ended or is polled.
abbrev IsCovered : Generation → String → Type 0
IsCovered g s = (has_ended g.jobs s ≡ true) ⊎ HasPoll s g.polls

-- What holds at every moment: the polls keep their pace, and while a generation runs, a creation
-- is open or each scenario's job has ended or is polled, and some poll is left.
abbrev pub IsAlive : Generation → Type 0
IsAlive g =
    All IsPaced g.polls
    × (g.is_running ≡ true → (1 ≤ g.creating) ⊎ (All (IsCovered g) scenarios × (g.polls ≢ [])))

begin-IsAlive : (has_instance : Bool) (g : Generation) → IsAlive g → IsAlive (begin has_instance g)
unfolding begin
begin-IsAlive has_instance g h = by_guard (not has_instance || g.is_running)
  where
    by_guard :
        (b : Bool)
        → IsAlive (
            if b then g else record g {
              jobs = [];
              is_running = true;
              is_finished = false;
              creating = g.creating + 1;
            })
    by_guard true = h
    by_guard false = (h.0, λ r. inl (omega arith))

note_created-IsAlive : (c : Created) (g : Generation) → IsAlive g → IsAlive (note_created c g)
unfolding note_created
note_created-IsAlive c g h = (
  All-append IsPaced g.polls _ h.0
      ((omega arith, omega arith), ((omega arith, omega arith), ((omega arith, omega arith), tt))),
  λ r. inr (
    (
      inr (HasPoll-append_right "A" g.polls _ (inl refl)),
      (
        inr (HasPoll-append_right "B" g.polls _ (inr (inl refl))),
        (inr (HasPoll-append_right "C" g.polls _ (inr (inr (inl refl)))), tt),
      ),
    ),
    not_empty "A" _ (HasPoll-append_right "A" g.polls _ (inl refl)),
  ),
)

module _ (g : Generation) (id : ℕ) (p : Poll) (state : JobState)
    (found : poll_of id g.polls ≡ some p) where
  abbrev after : Generation
  after = record g {
    jobs = set p.scenario state g.jobs;
    polls = reschedule (is_live state) id g.polls;
  }

  ended_now : (s : String) → p.scenario ≡ s → is_live state ≡ false → has_ended after.jobs s ≡ true
  ended_now s e l =
      ap ended (get-set p.scenario s state g.jobs) ∙ (rw ((eq_iff p.scenario s).1 e) (rw l refl))

  still_ended :
      (s : String) → p.scenario ≢ s → has_ended g.jobs s ≡ true → has_ended after.jobs s ≡ true
  still_ended s n h =
      ap ended (get-set p.scenario s state g.jobs) ∙ (rw (other (Bool-cases (p.scenario === s))) h)
    where
      other :
          ((p.scenario === s) ≡ true) ⊎ ((p.scenario === s) ≡ false) → (p.scenario === s) ≡ false
      other (inl same) = absurd (n ((eq_iff p.scenario s).0 same))
      other (inr h) = h

  live_kept : is_live state ≡ true → HasPoll p.scenario (reschedule (is_live state) id g.polls)
  live_kept l =
      elim (HasPoll-reschedule p.scenario (is_live state) id g.polls {p = p} found
        (HasPoll-poll_of id g.polls found)) [ inl h ↦ h | inr (m, e) ↦ cc ]

  IsCovered-after : (s : String) → IsCovered g s → IsCovered after s
  IsCovered-after s h = elim (Bool-cases (p.scenario === s)) [
    | inl same ↦ at_scenario ((eq_iff p.scenario s).0 same) (Bool-cases (is_live state))
    | inr other ↦ elsewhere (λ e. absurd_true other ((eq_iff p.scenario s).1 e)) h
  ]
    where
      absurd_true : {b : Bool} → b ≡ false → b ≡ true → ⊥
      absurd_true {b} q r = cc

      at_scenario :
          p.scenario ≡ s → (is_live state ≡ true) ⊎ (is_live state ≡ false) → IsCovered after s
      at_scenario e (inl l) = inr (subst (λ t. HasPoll t after.polls) e (live_kept l))
      at_scenario e (inr l) = inl (ended_now s e l)

      elsewhere : p.scenario ≢ s → IsCovered g s → IsCovered after s
      elsewhere n (inl e) = inl (still_ended s n e)
      elsewhere n (inr i) = elim (HasPoll-reschedule s (is_live state) id g.polls {p = p} found i) [
        | inl j ↦ inr j
        | inr (m, e) ↦ absurd (n e)
      ]

  all_ended :
      after.polls ≡ []
      → All (IsCovered after) scenarios
      → every (has_ended after.jobs) scenarios ≡ true
  all_ended none_left (a, (b, (c, t))) = rw (over "A" a) (rw (over "B" b) (rw (over "C" c) refl))
    where
      over : (s : String) → IsCovered after s → has_ended after.jobs s ≡ true
      over s (inl e) = e
      over s (inr i) = absurd (not_empty s after.polls i none_left)

  note_polled-IsAlive : IsAlive g → IsAlive (note_polled id state p g)
  unfolding note_polled
  note_polled-IsAlive h =
      by_end (not (is_live state) && every (has_ended after.jobs) scenarios) refl
    where
      paced : All IsPaced after.polls
      paced = reschedule-IsPaced (is_live state) id g.polls h.0

      goes_on :
          not (is_live state) && every (has_ended after.jobs) scenarios ≡ false
          → (is_live state ≡ true) ⊎ (is_live state ≡ false)
          → All (IsCovered after) scenarios
          → after.polls ≢ []
      goes_on b (inl l) cover = not_empty p.scenario after.polls (live_kept l)
      goes_on b (inr l) cover = λ none_left. let all = all_ended none_left cover in ground arith

      by_end :
          (b : Bool)
          → not (is_live state) && every (has_ended after.jobs) scenarios ≡ b
          → IsAlive (complete_if b after)
      by_end true q = (paced, λ r. cc)
      by_end false q = (
        paced,
        λ r. elim (h.1 r) [
          | inl more ↦ inl more
          | inr (cover, some_left) ↦
              let cover' : All (IsCovered after) scenarios = (
                IsCovered-after "A" cover.0,
                (IsCovered-after "B" cover.1.0, (IsCovered-after "C" cover.1.1.0, tt)),
              ) in
              inr (cover', goes_on q (Bool-cases (is_live state)) cover')
        ],
      )

step-IsAlive : (g : Generation) (e : Event) → IsAlive g → IsAlive (step g e)
unfolding step note_poll_failed
step-IsAlive g (clicked has_instance) h = begin-IsAlive has_instance g h
step-IsAlive g (created c) h = by_creating g.creating
  where
    by_creating : (n : ℕ) → IsAlive (if_creating n (note_created c) g)
    by_creating zero = h
    by_creating (suc n) = note_created-IsAlive c g h
step-IsAlive g create_failed h = by_creating g.creating
  where
    by_creating :
        (n : ℕ)
        → IsAlive
            (if_creating n (λ g. record g { is_running = false; creating = g.creating - 1 }) g)
    by_creating zero = h
    by_creating (suc n) = (h.0, λ r. cc)
step-IsAlive g (polled id state) h = by_poll (poll_of id g.polls) refl
  where
    by_poll :
        (o : Option Poll) → poll_of id g.polls ≡ o → IsAlive (with_poll o (note_polled id state) g)
    by_poll none f = h
    by_poll (some p) f = note_polled-IsAlive g id p state f h
step-IsAlive g (poll_failed id) h = by_poll (poll_of id g.polls)
  where
    by_poll : (o : Option Poll) → IsAlive (with_poll o (note_poll_failed id) g)
    by_poll none = h
    by_poll (some p) = (reschedule-IsPaced false id g.polls h.0, λ r. cc)

-- Whatever is clicked and whatever is answered in whatever order, the time of a poll's next timer
-- is between 120 ms and 2 s; and while the generation is shown as running, a creation is open or a
-- poll is left and each scenario's job has ended or is polled, so that it never hangs with nothing
-- under way.
pub steps-IsAlive : (es : List Event) → IsAlive (steps idle es)
unfolding steps
steps-IsAlive es = from idle es (tt, λ r. cc)
  where
    from : (g : Generation) (es : List Event) → IsAlive g → IsAlive (steps g es)
    from g [] h = h
    from g (e ∷ es) h = from (step g e) es (step-IsAlive g e h)
