-- ===== src/Jobs/Finish.antt =====
-- A generation whose jobs all end is finished, once.
use chocobofix.Prelude.{
  ℕ, suc, ◌+◌, ◌≡◌, ◌≢◌, refl, ap, ◌∙◌, inr, string_eq, true, false, not, List, [], ◌∷◌, arith,
  if◌then◌else◌,
}
use chocobofix.Jobs.{
  JobState, is_live, Generation, Created, clicked, created, begin, note_created, step, steps,
}
use chocobofix.Jobs.Three.{Three, is_over, IsAt, answers, over_of, replies, is_told_end}
use chocobofix.Jobs.Answers.{answers-IsAt, answers-a, answers-b, answers-c}

-- The jobs as they were created.
abbrev at_first : Created → (i j k n : ℕ) → Three i j k n
at_first cr i j k n = record {
  a = cr.first.1;
  b = cr.second.1;
  c = cr.third.1;
  wait_a = 120;
  wait_b = 120;
  wait_c = 120;
}

-- Nothing runs, no creation is open and no poll is left.
pub record IsQuiet (g : Generation) : Type 0 where
  pub rests : g.is_running ≡ false
  pub uncreated : g.creating ≡ 0
  pub unpolled : g.polls ≡ []

-- Three different jobs that have not ended.
pub record AreNew (cr : Created) : Type 0 where
  pub first_second : cr.first.0 ≢ cr.second.0
  pub first_third : cr.first.0 ≢ cr.third.0
  pub second_third : cr.second.0 ≢ cr.third.0
  pub live :
      (is_live cr.first.1 ≡ true) × (is_live cr.second.1 ≡ true) × (is_live cr.third.1 ≡ true)

-- Each job is at some time shown to have ended.
pub record AllEnd (cr : Created) (es : List (ℕ × JobState)) : Type 0 where
  pub first : is_told_end cr.first.0 es ≡ true
  pub second : is_told_end cr.second.0 es ≡ true
  pub third : is_told_end cr.third.0 es ≡ true

begun :
    (g : Generation)
    → g.is_running ≡ false
    → begin true g
      ≡ record g { jobs = []; is_running = true; is_finished = false; creating = g.creating + 1 }
unfolding begin
begun g h = ap (λ b. if b then g else started) h
  where
    started : Generation
    started = record g {
      jobs = [];
      is_running = true;
      is_finished = false;
      creating = g.creating + 1;
    }

created-IsAt :
    (g : Generation) (cr : Created)
    → IsQuiet g
    → AreNew cr
    → IsAt _ _ _ _
        (at_first cr cr.first.0 cr.second.0 cr.third.0 g.completed)
        (step (step g (clicked true)) (created cr))
unfolding step note_created
created-IsAt g cr q new =
    let (live_a, live_b, live_c) = new.live in
    let more : g.creating + 1 ≡ suc g.creating = omega arith in
    rw (begun g q.rests, more)
      (record {
        jobs = refl;
        polls = rw (q.unpolled, live_a, live_b, live_c) refl;
        running = rw live_a refl;
        finished = rw live_a refl;
        completed = rw live_a refl;
      })

-- A click on a quiet page whose three jobs are made, whose polls are all answered without failure,
-- in any order and however often, and which are each shown to have ended at some time, ends the
-- generation: it no longer runs, it is shown as finished, and `onDone` was called exactly once.
pub steps-finished :
    (g : Generation) (cr : Created) (es : List (ℕ × JobState))
    → IsQuiet g
    → AreNew cr
    → AllEnd cr es
    → let last = steps g (clicked true ∷ created cr ∷ replies es) in
      (last.is_running ≡ false) × (last.is_finished ≡ true) × (last.completed ≡ g.completed + 1)
unfolding steps
steps-finished g cr es q new ends =
    let i = cr.first.0 in
    let j = cr.second.0 in
    let k = cr.third.0 in
    let n = g.completed in
    let t = at_first cr i j k n in
    let v =
      answers-IsAt i j k n new.first_second new.first_third new.second_third t es _
        (created-IsAt g cr q new) in
    let over : is_over i j k n (answers i j k n t es) ≡ true =
      over_of i j k n (answers i j k n t es) (answers-a i j k n t es (inr ends.first))
        (answers-b i j k n t es (inr ends.second)) (answers-c i j k n t es (inr ends.third)) in
    (
      v.running ∙ ap not over,
      v.finished ∙ over,
      v.completed ∙ ap (λ b. if b then n + 1 else n) over,
    )
