-- ===== src/Jobs/Tests.antt =====
-- A generation of which one poll gets no answer.
use chocobofix.Prelude.{ℕ, ◌+◌, arith, ◌≡◌, refl, true, false, List, [], ◌∷◌, string_eq}
use chocobofix.Prelude.JsMap.{get, set}
use chocobofix.Jobs.{
  JobState, queued, running, done, failed, cancelled, Created, Poll, Event, clicked, created,
  polled, poll_failed, begin, note_created, reschedule, poll_of, note_polled, step, steps,
  Generation, idle,
}
use chocobofix.Jobs.Polling.{IsAlive, steps-IsAlive}
use chocobofix.Jobs.Lost.{poll_failed-lost}
use chocobofix.Jobs.Three.{replies}
use chocobofix.Jobs.Finish.{IsQuiet, AreNew, AllEnd, steps-finished}

abbrev two_done : List Event
two_done =
    clicked true
    ∷ created (record { first = (4, queued); second = (5, queued); third = (6, running) })
    ∷ polled 4 done
    ∷ polled 6 running
    ∷ polled 5 done
    ∷ []

steps-IsAlive_example : IsAlive (steps idle two_done)
steps-IsAlive_example = steps-IsAlive two_done

abbrev last_poll : Poll
last_poll = record { job_id = 6; scenario = "C"; wait = 192 }

abbrev all_but_c : Generation
all_but_c = record {
  jobs = ("A", done) ∷ ("B", done) ∷ ("C", running) ∷ [];
  is_running = true;
  is_finished = false;
  creating = 0;
  polls = last_poll ∷ [];
  completed = 0;
}

two_done_end : steps idle two_done ≡ all_but_c
unfolding steps step begin note_created poll_of note_polled reschedule get set
two_done_end = refl

two_done_left :
    let g = steps idle two_done in
    (g.is_running ≡ true) × (g.polls ≡ last_poll ∷ []) × (g.creating ≡ 0)
two_done_left = rw two_done_end (refl, refl, refl)

poll_failed-lost_example :
    let last = steps (step (steps idle two_done) (poll_failed 6)) (polled 6 done ∷ []) in
    (last.is_running ≡ false)
    × (last.is_finished ≡ false)
    × (last.completed ≡ (steps idle two_done).completed)
poll_failed-lost_example =
    poll_failed-lost two_done last_poll (polled 6 done ∷ []) two_done_left.0 two_done_left.1
      two_done_left.2 tt

abbrev three_jobs : Created
three_jobs = record { first = (4, queued); second = (5, queued); third = (6, running) }

abbrev late_answers : List (ℕ × JobState)
late_answers = (6, running) ∷ (5, done) ∷ (4, failed) ∷ (4, done) ∷ (6, cancelled) ∷ []

idle-IsQuiet : IsQuiet idle
idle-IsQuiet = record { rests = refl; uncreated = refl; unpolled = refl }

three_jobs-AreNew : AreNew three_jobs
three_jobs-AreNew = record {
  first_second = omega arith;
  first_third = omega arith;
  second_third = omega arith;
  live = (refl, refl, refl);
}

late_answers-AllEnd : AllEnd three_jobs late_answers
late_answers-AllEnd = record { first = refl; second = refl; third = refl }

steps-finished_example :
    let last = steps idle (clicked true ∷ created three_jobs ∷ replies late_answers) in
    (last.is_running ≡ false) × (last.is_finished ≡ true) × (last.completed ≡ idle.completed + 1)
steps-finished_example =
    steps-finished idle three_jobs late_answers idle-IsQuiet three_jobs-AreNew late_answers-AllEnd
