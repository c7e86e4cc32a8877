-- ===== src/Jobs/Answers.antt =====
-- Replies to the polls of the three jobs, in any order.
use chocobofix.Prelude.{
  ℕ, ◌≡◌, ◌≢◌, sym, ap, ◌∙◌, ◌⊎◌, inl, inr, string_eq, true, false, Option, none, some, List, [],
  ◌∷◌, arith, eqb, eqb_iff, Bool-cases, if◌then◌else◌,
}
use chocobofix.Prelude.JsMap.{set}
use chocobofix.Jobs.{
  JobState, is_live, Poll, Generation, polled, next_wait, reschedule, poll_of, note_polled,
  with_poll, step, steps,
}
use chocobofix.Jobs.Three.{
  Three, polls_of, jobs_of, poll_a, poll_b, poll_c, IsAt, answer, answers, complete_if-IsAt,
  over_when, still, replies, is_told_end,
}

module _ (i j k n : ℕ) where
  module _ (ij : i ≢ j) (ik : i ≢ k) (jk : j ≢ k) where
    poll_of-a :
        (t : Three i j k n)
        → poll_of i (polls_of i j k n t) ≡ (if is_live t.a then some (poll_a i j k n t) else none)
    unfolding poll_of
    poll_of-a t = ground arith

    poll_of-b :
        (t : Three i j k n)
        → poll_of j (polls_of i j k n t) ≡ (if is_live t.b then some (poll_b i j k n t) else none)
    unfolding poll_of
    poll_of-b t = ground arith

    poll_of-c :
        (t : Three i j k n)
        → poll_of k (polls_of i j k n t) ≡ (if is_live t.c then some (poll_c i j k n t) else none)
    unfolding poll_of
    poll_of-c t = ground arith

    poll_of-other :
        (id : ℕ) (t : Three i j k n)
        → eqb id i ≡ false
        → eqb id j ≡ false
        → eqb id k ≡ false
        → poll_of id (polls_of i j k n t) ≡ none
    unfolding poll_of
    poll_of-other id t ni nj nk = ground arith

    reschedule-a :
        (t : Three i j k n) (state : JobState)
        → is_live t.a ≡ true
        → reschedule (is_live state) i (polls_of i j k n t)
          ≡ polls_of i j k n (record t { a = state; wait_a = next_wait t.wait_a })
    unfolding reschedule
    reschedule-a t state h = ground arith

    reschedule-b :
        (t : Three i j k n) (state : JobState)
        → is_live t.b ≡ true
        → reschedule (is_live state) j (polls_of i j k n t)
          ≡ polls_of i j k n (record t { b = state; wait_b = next_wait t.wait_b })
    unfolding reschedule
    reschedule-b t state h = ground arith

    reschedule-c :
        (t : Three i j k n) (state : JobState)
        → is_live t.c ≡ true
        → reschedule (is_live state) k (polls_of i j k n t)
          ≡ polls_of i j k n (record t { c = state; wait_c = next_wait t.wait_c })
    unfolding reschedule
    reschedule-c t state h = ground arith

    note_polled-a :
        (t : Three i j k n) (state : JobState) (g : Generation)
        → IsAt i j k n t g
        → is_live t.a ≡ true
        → IsAt i j k n
            (record t { a = state; wait_a = next_wait t.wait_a })
            (note_polled i state (poll_a i j k n t) g)
    unfolding note_polled set
    note_polled-a t state g v live =
        let next = record t { a = state; wait_a = next_wait t.wait_a } in
        let jobs : set "A" state g.jobs ≡ jobs_of i j k n next = ap (set "A" state) v.jobs in
        let (running, finished, completed) = still i j k n t g v (ground arith) in
        complete_if-IsAt i j k n _ next _ jobs
          (ap (reschedule (is_live state) i) v.polls ∙ reschedule-a t state live) running finished
          completed (over_when i j k n state next (set "A" state g.jobs) jobs (λ h. ground arith))

    note_polled-b :
        (t : Three i j k n) (state : JobState) (g : Generation)
        → IsAt i j k n t g
        → is_live t.b ≡ true
        → IsAt i j k n
            (record t { b = state; wait_b = next_wait t.wait_b })
            (note_polled j state (poll_b i j k n t) g)
    unfolding note_polled set
    note_polled-b t state g v live =
        let next = record t { b = state; wait_b = next_wait t.wait_b } in
        let jobs : set "B" state g.jobs ≡ jobs_of i j k n next = ap (set "B" state) v.jobs in
        let (running, finished, completed) = still i j k n t g v (ground arith) in
        complete_if-IsAt i j k n _ next _ jobs
          (ap (reschedule (is_live state) j) v.polls ∙ reschedule-b t state live) running finished
          completed (over_when i j k n state next (set "B" state g.jobs) jobs (λ h. ground arith))

    note_polled-c :
        (t : Three i j k n) (state : JobState) (g : Generation)
        → IsAt i j k n t g
        → is_live t.c ≡ true
        → IsAt i j k n
            (record t { c = state; wait_c = next_wait t.wait_c })
            (note_polled k state (poll_c i j k n t) g)
    unfolding note_polled set
    note_polled-c t state g v live =
        let next = record t { c = state; wait_c = next_wait t.wait_c } in
        let jobs : set "C" state g.jobs ≡ jobs_of i j k n next = ap (set "C" state) v.jobs in
        let (running, finished, completed) = still i j k n t g v (ground arith) in
        complete_if-IsAt i j k n _ next _ jobs
          (ap (reschedule (is_live state) k) v.polls ∙ reschedule-c t state live) running finished
          completed (over_when i j k n state next (set "C" state g.jobs) jobs (λ h. ground arith))

    unlike : (x y : ℕ) → x ≢ y → eqb x y ≡ false
    unlike x y h = ground arith

    same_id : (id : ℕ) → eqb id id ≡ true
    same_id id = ground arith

    polled-a :
        (t : Three i j k n) (state : JobState) (g : Generation) (o : Option Poll)
        → IsAt i j k n t g
        → o ≡ (if is_live t.a then some (poll_a i j k n t) else none)
        → IsAt i j k n (answer i j k n t i state) (with_poll o (note_polled i state) g)
    polled-a t state g o v e = elim (Bool-cases (is_live t.a)) [
      | inl live ↦
          rw (e, live, same_id i, unlike i j ij, unlike i k ik) (note_polled-a t state g v live)
      | inr done ↦ rw (e, done, same_id i, unlike i j ij, unlike i k ik) v
    ]

    polled-b :
        (t : Three i j k n) (state : JobState) (g : Generation) (o : Option Poll)
        → IsAt i j k n t g
        → o ≡ (if is_live t.b then some (poll_b i j k n t) else none)
        → IsAt i j k n (answer i j k n t j state) (with_poll o (note_polled j state) g)
    polled-b t state g o v e = elim (Bool-cases (is_live t.b)) [
      | inl live ↦
          rw (e, live, same_id j, unlike j i (λ e. ij (sym e)), unlike j k jk)
            (note_polled-b t state g v live)
      | inr done ↦ rw (e, done, same_id j, unlike j i (λ e. ij (sym e)), unlike j k jk) v
    ]

    polled-c :
        (t : Three i j k n) (state : JobState) (g : Generation) (o : Option Poll)
        → IsAt i j k n t g
        → o ≡ (if is_live t.c then some (poll_c i j k n t) else none)
        → IsAt i j k n (answer i j k n t k state) (with_poll o (note_polled k state) g)
    polled-c t state g o v e = elim (Bool-cases (is_live t.c)) [
      | inl live ↦
          rw (e, live, same_id k, unlike k i (λ e. ik (sym e)), unlike k j (λ e. jk (sym e)))
            (note_polled-c t state g v live)
      | inr done ↦
          rw (e, done, same_id k, unlike k i (λ e. ik (sym e)), unlike k j (λ e. jk (sym e))) v
    ]

    pub polled-IsAt :
        (t : Three i j k n) (id : ℕ) (state : JobState) (g : Generation)
        → IsAt i j k n t g
        → IsAt i j k n (answer i j k n t id state) (step g (polled id state))
    unfolding step
    polled-IsAt t id state g v = elim (Bool-cases (eqb id i)) [
      | inl mine ↦ at_a ((eqb_iff id i).0 mine)
      | inr other_a ↦ elim (Bool-cases (eqb id j)) [
        | inl mine ↦ at_b ((eqb_iff id j).0 mine)
        | inr other_b ↦ elim (Bool-cases (eqb id k)) [
          | inl mine ↦ at_c ((eqb_iff id k).0 mine)
          | inr other_c ↦ nobodys other_a other_b other_c
        ]
      ]
    ]
      where
        at_a :
            id ≡ i
            → IsAt i j k n
                (answer i j k n t id state)
                (with_poll (poll_of id g.polls) (note_polled id state) g)
        at_a e = rw e (polled-a t state g _ v (ap (poll_of i) v.polls ∙ poll_of-a t))

        at_b :
            id ≡ j
            → IsAt i j k n
                (answer i j k n t id state)
                (with_poll (poll_of id g.polls) (note_polled id state) g)
        at_b e = rw e (polled-b t state g _ v (ap (poll_of j) v.polls ∙ poll_of-b t))

        at_c :
            id ≡ k
            → IsAt i j k n
                (answer i j k n t id state)
                (with_poll (poll_of id g.polls) (note_polled id state) g)
        at_c e = rw e (polled-c t state g _ v (ap (poll_of k) v.polls ∙ poll_of-c t))

        gone : (o : Option Poll) → o ≡ none → IsAt i j k n t (with_poll o (note_polled id state) g)
        gone o e = rw e v

        nobodys :
            eqb id i ≡ false
            → eqb id j ≡ false
            → eqb id k ≡ false
            → IsAt i j k n
                (answer i j k n t id state)
                (with_poll (poll_of id g.polls) (note_polled id state) g)
        nobodys a b c =
            rw (a, b, c)
              (gone (poll_of id g.polls) (ap (poll_of id) v.polls ∙ poll_of-other id t a b c))

    pub answers-IsAt :
        (t : Three i j k n) (es : List (ℕ × JobState)) (g : Generation)
        → IsAt i j k n t g
        → IsAt i j k n (answers i j k n t es) (steps g (replies es))
    unfolding steps answers
    answers-IsAt t [] g v = v
    answers-IsAt t ((id, state) ∷ es) g v =
        answers-IsAt (answer i j k n t id state) es (step g (polled id state))
          (polled-IsAt t id state g v)

  -- A job that ended, or is shown to end, has ended.
  pub answers-a :
      (t : Three i j k n) (es : List (ℕ × JobState))
      → (is_live t.a ≡ false) ⊎ (is_told_end i es ≡ true)
      → is_live (answers i j k n t es).a ≡ false
  unfolding answers
  answers-a t [] h = ground arith
  answers-a t ((id, state) ∷ es) h = answers-a (answer i j k n t id state) es (ground arith)

  pub answers-b :
      (t : Three i j k n) (es : List (ℕ × JobState))
      → (is_live t.b ≡ false) ⊎ (is_told_end j es ≡ true)
      → is_live (answers i j k n t es).b ≡ false
  unfolding answers
  answers-b t [] h = ground arith
  answers-b t ((id, state) ∷ es) h = answers-b (answer i j k n t id state) es (ground arith)

  pub answers-c :
      (t : Three i j k n) (es : List (ℕ × JobState))
      → (is_live t.c ≡ false) ⊎ (is_told_end k es ≡ true)
      → is_live (answers i j k n t es).c ≡ false
  unfolding answers
  answers-c t [] h = ground arith
  answers-c t ((id, state) ∷ es) h = answers-c (answer i j k n t id state) es (ground arith)
