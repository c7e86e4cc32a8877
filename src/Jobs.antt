-- ===== src/Jobs.antt =====
-- The generation of the three plans: `Generate` of client/src/routes/ProjectDetail.jsx, which
-- creates a job for each scenario and polls each until it ends.
pub mod Polls
pub mod Polling
pub mod Lost
pub mod Three
pub mod Answers
pub mod Finish
mod Tests
use chocobofix.Prelude.{
  ℕ, zero, suc, ◌+◌, ◌-◌, ◌*◌, ◌/◌, String, string_eq, Bool, true, false, not, ◌&&◌, ◌||◌, Option,
  none, some, List, [], ◌∷◌, ◌++◌, map, every, eqb, min, if◌then◌else◌, ◌===◌,
}
use chocobofix.Prelude.JsMap.{get, set}

abbrev pub scenarios : List String
scenarios = "A" ∷ "B" ∷ "C" ∷ []

pub data JobState : Type 0 where
  queued running done failed cancelled : JobState

-- `['queued', 'running'].includes(state)`.
abbrev pub is_live : JobState → Bool
is_live queued = true
is_live running = true
is_live _ = false

-- A poll: the job it asks for, its scenario and its variable `wait`, the time of its next timer.
pub record Poll : Type 0 where
  pub job_id : ℕ
  pub scenario : String
  pub wait : ℕ

-- `creating` counts the creations that have not been answered, `completed` the calls of `onDone`.
pub record Generation : Type 0 where
  pub jobs : List (String × JobState)
  pub is_running : Bool
  pub is_finished : Bool
  pub creating : ℕ
  pub polls : List Poll
  pub completed : ℕ

-- The three jobs that were created, with their states.
pub record Created : Type 0 where
  pub first : ℕ × JobState
  pub second : ℕ × JobState
  pub third : ℕ × JobState

pub data Event : Type 0 where
  clicked : (has_instance : Bool) → Event
  created : Created → Event
  create_failed : Event
  polled : (job_id : ℕ) → JobState → Event
  poll_failed : (job_id : ℕ) → Event

-- `Math.min(Math.round(wait * 1.6), 2000)`.
abbrev pub next_wait : ℕ → ℕ
next_wait wait = min ((wait * 16 + 5) / 10) 2000

abbrev pub ended : Option JobState → Bool
ended none = false
ended (some state) = not (is_live state)

abbrev pub has_ended : List (String × JobState) → String → Bool
has_ended jobs s = ended (get s jobs)

abbrev pub new_poll : String → ℕ × JobState → Poll
new_poll s j = record { job_id = j.0; scenario = s; wait = 120 }

pub begin : Bool → Generation → Generation
begin has_instance g =
    if not has_instance || g.is_running
    then g
    else record g { jobs = []; is_running = true; is_finished = false; creating = g.creating + 1 }

pub note_created : Created → Generation → Generation
note_created c g = record g {
  jobs = ("A", c.first.1) ∷ ("B", c.second.1) ∷ ("C", c.third.1) ∷ [];
  creating = g.creating - 1;
  polls = g.polls ++ new_poll "A" c.first ∷ new_poll "B" c.second ∷ new_poll "C" c.third ∷ [];
}

abbrev pub waits : Poll → Poll
waits p = record p { wait = next_wait p.wait }

-- The timer of the poll of that job, set again or not.
abbrev pub again : Bool → Poll → List Poll → List Poll
again true p ps = waits p ∷ ps
again false p ps = ps

pub reschedule : Bool → ℕ → List Poll → List Poll
reschedule b id [] = []
reschedule b id (p ∷ ps) = if eqb p.job_id id then again b p ps else p ∷ reschedule b id ps

pub poll_of : ℕ → List Poll → Option Poll
poll_of id [] = none
poll_of id (p ∷ ps) = if eqb p.job_id id then some p else poll_of id ps

abbrev pub complete_if : Bool → Generation → Generation
complete_if true g = record g {
  is_running = false;
  is_finished = true;
  completed = g.completed + 1;
}
complete_if false g = g

pub note_polled : ℕ → JobState → Poll → Generation → Generation
unfolding reschedule
note_polled id state p g =
    let jobs = set p.scenario state g.jobs in
    complete_if (not (is_live state) && every (has_ended jobs) scenarios)
      (record g { jobs = jobs; polls = reschedule (is_live state) id g.polls })

pub note_poll_failed : ℕ → Poll → Generation → Generation
unfolding reschedule
note_poll_failed id p g = record g {
  jobs = set p.scenario failed g.jobs;
  is_running = false;
  polls = reschedule false id g.polls;
}

abbrev pub with_poll : Option Poll → (Poll → Generation → Generation) → Generation → Generation
with_poll none f g = g
with_poll (some p) f g = f p g

abbrev pub if_creating : ℕ → (Generation → Generation) → Generation → Generation
if_creating zero f g = g
if_creating (suc n) f g = f g

pub step : Generation → Event → Generation
unfolding begin note_created poll_of note_polled note_poll_failed
step g (clicked has_instance) = begin has_instance g
step g (created c) = if_creating g.creating (note_created c) g
step g create_failed =
    if_creating g.creating (λ h. record h { is_running = false; creating = h.creating - 1 }) g
step g (polled id state) = with_poll (poll_of id g.polls) (note_polled id state) g
step g (poll_failed id) = with_poll (poll_of id g.polls) (note_poll_failed id) g

pub steps : Generation → List Event → Generation
unfolding step
steps g [] = g
steps g (e ∷ es) = steps (step g e) es

abbrev pub idle : Generation
idle = record {
  jobs = [];
  is_running = false;
  is_finished = false;
  creating = 0;
  polls = [];
  completed = 0;
}
