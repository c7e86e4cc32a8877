-- ===== src/Jobs/Three.antt =====
-- The three jobs of a generation as one state, and the generation that has it.
use chocobofix.Prelude.{
  ℕ, ◌+◌, ◌≡◌, refl, ap, ◌∙◌, String, string_eq, Bool, true, false, not, ◌&&◌, List, [], ◌∷◌, arith,
  eqb, every, any, if◌then◌else◌,
}
use chocobofix.Prelude.JsMap.{get}
use chocobofix.Jobs.{
  scenarios, JobState, is_live, Poll, Generation, Event, polled, has_ended, next_wait, complete_if,
}

-- The replies to polls, and whether one of them shows that a job has ended.
abbrev pub replies : List (ℕ × JobState) → List Event
replies [] = []
replies ((id, state) ∷ es) = polled id state ∷ replies es

abbrev pub is_told_end : ℕ → List (ℕ × JobState) → Bool
is_told_end id es = any (λ e. eqb e.0 id && not (is_live e.1)) es

-- The three jobs by their numbers, with their last states and the waits of their polls.
module _ (i j k : ℕ) (n : ℕ) where
  pub record Three : Type 0 where
    pub a : JobState
    pub b : JobState
    pub c : JobState
    pub wait_a : ℕ
    pub wait_b : ℕ
    pub wait_c : ℕ

  abbrev pub poll_if : Bool → Poll → List Poll → List Poll
  poll_if true p ps = p ∷ ps
  poll_if false p ps = ps

  abbrev pub poll_a : Three → Poll
  poll_a t = record { job_id = i; scenario = "A"; wait = t.wait_a }

  abbrev pub poll_b : Three → Poll
  poll_b t = record { job_id = j; scenario = "B"; wait = t.wait_b }

  abbrev pub poll_c : Three → Poll
  poll_c t = record { job_id = k; scenario = "C"; wait = t.wait_c }

  abbrev pub polls_of : Three → List Poll
  polls_of t =
      poll_if (is_live t.a) (poll_a t)
        (poll_if (is_live t.b) (poll_b t) (poll_if (is_live t.c) (poll_c t) []))

  abbrev pub jobs_of : Three → List (String × JobState)
  jobs_of t = ("A", t.a) ∷ ("B", t.b) ∷ ("C", t.c) ∷ []

  abbrev pub is_over : Three → Bool
  is_over t = not (is_live t.a) && not (is_live t.b) && not (is_live t.c)

  -- A job's state after a reply, unless it had ended.
  abbrev pub said : Bool → JobState → JobState → JobState
  said mine new old = if mine && is_live old then new else old

  abbrev pub later : Bool → JobState → ℕ → ℕ
  later mine old wait = if mine && is_live old then next_wait wait else wait

  abbrev pub answer : Three → ℕ → JobState → Three
  answer t id state = record {
    a = said (eqb id i) state t.a;
    b = said (eqb id j) state t.b;
    c = said (eqb id k) state t.c;
    wait_a = later (eqb id i) t.a t.wait_a;
    wait_b = later (eqb id j) t.b t.wait_b;
    wait_c = later (eqb id k) t.c t.wait_c;
  }

  unfoldable pub answers : Three → List (ℕ × JobState) → Three
  answers t [] = t
  answers t ((id, state) ∷ es) = answers (answer t id state) es

  -- The generation that has these jobs: it runs until all have ended, and then is finished.
  pub record IsAt (t : Three) (g : Generation) : Type 0 where
    pub jobs : g.jobs ≡ jobs_of t
    pub polls : g.polls ≡ polls_of t
    pub running : g.is_running ≡ not (is_over t)
    pub finished : g.is_finished ≡ is_over t
    pub completed : g.completed ≡ (if is_over t then n + 1 else n)

  pub every_ended : (t : Three) → every (has_ended (jobs_of t)) scenarios ≡ is_over t
  unfolding get
  every_ended t = ground arith

  pub over_of :
      (t : Three)
      → is_live t.a ≡ false
      → is_live t.b ≡ false
      → is_live t.c ≡ false
      → is_over t ≡ true
  over_of t a b c = rw (a, b, c) refl

  pub complete_if-IsAt :
      (b : Bool) (t : Three) (g : Generation)
      → g.jobs ≡ jobs_of t
      → g.polls ≡ polls_of t
      → g.is_running ≡ true
      → g.is_finished ≡ false
      → g.completed ≡ n
      → b ≡ is_over t
      → IsAt t (complete_if b g)
  complete_if-IsAt true t g jobs polls running finished completed over = record {
    jobs = jobs;
    polls = polls;
    running = ground arith;
    finished = over;
    completed = rw (← over) (omega arith);
  }
  complete_if-IsAt false t g jobs polls running finished completed over = record {
    jobs = jobs;
    polls = polls;
    running = ground arith;
    finished = finished ∙ over;
    completed = rw (← over) completed;
  }

  -- The condition of the handler, once the job's state is noted.
  pub over_when :
      (state : JobState) (t : Three) (g : List (String × JobState))
      → g ≡ jobs_of t
      → (is_live state ≡ true → is_over t ≡ false)
      → (not (is_live state) && every (has_ended g) scenarios) ≡ is_over t
  over_when state t g e live = rw (e, every_ended t) (ground arith)

  pub still :
      (t : Three) (g : Generation)
      → IsAt t g
      → is_over t ≡ false
      → (g.is_running ≡ true) × (g.is_finished ≡ false) × (g.completed ≡ n)
  still t g v h =
      (v.running ∙ ap not h, v.finished ∙ h, v.completed ∙ ap (λ b. if b then n + 1 else n) h)
