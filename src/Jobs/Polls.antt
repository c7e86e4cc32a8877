-- ===== src/Jobs/Polls.antt =====
-- The polls of a generation: their pace, and which scenarios have one.
use chocobofix.Prelude.{
  ℕ, ◌≤◌, ◌≡◌, ◌≢◌, refl, sym, ◌∙◌, ap, subst, String, string_eq, Bool, true, false, some, List, [],
  ◌∷◌, ◌++◌, ◌⊎◌, inl, inr, arith, All, eqb, Bool-cases,
}
use chocobofix.Jobs.{Poll, again, reschedule, poll_of}

abbrev pub IsPaced : Poll → Type 0
IsPaced p = (120 ≤ p.wait) × (p.wait ≤ 2000)

pub reschedule-IsPaced :
    (b : Bool) (id : ℕ) (ps : List Poll) → All IsPaced ps → All IsPaced (reschedule b id ps)
unfolding reschedule
reschedule-IsPaced b id [] h = tt
reschedule-IsPaced b id (p ∷ ps) h = elim (Bool-cases (eqb p.job_id id)) [
  | inl here ↦ rw here (at_poll b)
  | inr later ↦ rw later (h.0, reschedule-IsPaced b id ps h.1)
]
  where
    at_poll : (b : Bool) → All IsPaced (again b p ps)
    at_poll true = ((omega (arith, h.0.0, h.0.1), omega arith), h.1)
    at_poll false = h.1

-- Whether a poll of the scenario is there.
abbrev pub HasPoll : String → List Poll → Type 0
HasPoll s [] = ⊥
HasPoll s (p ∷ ps) = (p.scenario ≡ s) ⊎ HasPoll s ps

pub HasPoll-append_left : (s : String) (ps qs : List Poll) → HasPoll s ps → HasPoll s (ps ++ qs)
HasPoll-append_left s [] qs h = absurd h
HasPoll-append_left s (p ∷ ps) qs (inl e) = inl e
HasPoll-append_left s (p ∷ ps) qs (inr h) = inr (HasPoll-append_left s ps qs h)

pub HasPoll-append_right : (s : String) (ps qs : List Poll) → HasPoll s qs → HasPoll s (ps ++ qs)
HasPoll-append_right s [] qs h = h
HasPoll-append_right s (p ∷ ps) qs h = inr (HasPoll-append_right s ps qs h)

pub HasPoll-reschedule :
    (s : String) (b : Bool) (id : ℕ) (ps : List Poll) {p : Poll}
    → poll_of id ps ≡ some p
    → HasPoll s ps
    → HasPoll s (reschedule b id ps) ⊎ ((b ≡ false) × (p.scenario ≡ s))
unfolding poll_of reschedule
HasPoll-reschedule s b id [] {p} e h = absurd h
HasPoll-reschedule s b id (q ∷ ps) {p} e h = elim (Bool-cases (eqb q.job_id id)) [
  | inl here ↦
      let x : some q ≡ some p = rw here at e in let same : q ≡ p = cc in rw here (at_poll b same h)
  | inr later ↦
      let x : poll_of id ps ≡ some p = rw later at e in
      rw later (further h (λ i. HasPoll-reschedule s b id ps {p = p} x i))
]
  where
    at_poll :
        (b : Bool)
        → q ≡ p
        → HasPoll s (q ∷ ps)
        → HasPoll s (again b q ps) ⊎ ((b ≡ false) × (p.scenario ≡ s))
    at_poll true same h = inl h
    at_poll false same (inl f) = inr (refl, sym (ap (λ r. r.scenario) same) ∙ f)
    at_poll false same (inr h) = inl h

    further :
        HasPoll s (q ∷ ps)
        → (HasPoll s ps → HasPoll s (reschedule b id ps) ⊎ ((b ≡ false) × (p.scenario ≡ s)))
        → HasPoll s (q ∷ reschedule b id ps) ⊎ ((b ≡ false) × (p.scenario ≡ s))
    further (inl f) rest = inl (inl f)
    further (inr h) rest = elim (rest h) [ inl i ↦ inl (inr i) | inr n ↦ inr n ]

pub not_empty : (s : String) (ps : List Poll) → HasPoll s ps → ps ≢ []
not_empty s ps h e = subst (HasPoll s) e h

pub HasPoll-poll_of :
    (id : ℕ) (ps : List Poll) {p : Poll} → poll_of id ps ≡ some p → HasPoll p.scenario ps
unfolding poll_of
HasPoll-poll_of id [] {p} e = cc
HasPoll-poll_of id (q ∷ ps) {p} e = elim (Bool-cases (eqb q.job_id id)) [
  | inl here ↦
      let x : some q ≡ some p = rw here at e in
      let same : q ≡ p = cc in inl (ap (λ r. r.scenario) same)
  | inr later ↦ inr (HasPoll-poll_of id ps {p = p} (rw later at e))
]
