-- ===== src/Wizard/Polling.antt =====
-- The loop of `pollJob` ends with the job.
use mathlib.Core.List.{append-nil}
use chocobofix.Prelude.{
  ℕ, zero, suc, ◌<◌, ◌≡◌, refl, ◌∙◌, String, string_eq, false, ◌⊎◌, inl, inr, none, some, List, [],
  ◌∷◌, ◌++◌, arith,
}
use chocobofix.Language.{translate}
use chocobofix.Wizard.{
  Failure, or_else, Reply, answered, thrown, Job, Report, on_state, Polled, has_ended, logged,
  settled, round, poll_job,
}

-- A reply after which the loop sleeps: a job that has not ended.
abbrev pub IsUnderWay : Reply Job → Type 0
IsUnderWay (thrown e) = ⊥
IsUnderWay (answered j) = has_ended j.state ≡ false

-- The error of a failed job: its own text, or the one for a failed generation.
abbrev pub job_failure : String → Job → Failure
job_failure lang j = record {
  message = or_else j.error (translate lang "gen_failed");
  status = none;
  has_body = false;
}

-- How a reply ends the loop: what the request threw is thrown, a failed job's error is, and a job
-- that is done or cancelled is returned.
abbrev pub Ends : String → Reply Job → Reply Job → Type 0
Ends lang (thrown e) outcome = thrown e ≡ outcome
Ends lang (answered j) outcome =
    ((j.state ≡ "failed") × (thrown (job_failure lang j) ≡ outcome))
    ⊎ (((j.state ≡ "done") ⊎ (j.state ≡ "cancelled")) × (answered j ≡ outcome))

-- What the rounds from `i` on report, `n` of them.
abbrev reported : Reply Job → Reply String → List Report
reported (thrown e) log = []
reported (answered j) log = on_state j.state ∷ logged log

pub told : (ℕ → Reply Job) → (ℕ → Reply String) → ℕ → ℕ → List Report
told jobs logs zero i = []
told jobs logs (suc n) i = reported (jobs i) (logs i) ++ told jobs logs n (suc i)

-- The reply of round `i + n` is the first that does not leave the job under way.
unfoldable pub EndsIn : String → (ℕ → Reply Job) → Reply Job → ℕ → ℕ → Type 0
EndsIn lang jobs outcome zero i = Ends lang (jobs i) outcome
EndsIn lang jobs outcome (suc n) i = IsUnderWay (jobs i) × EndsIn lang jobs outcome n (suc i)

round-Ends :
    (lang : String) (reply outcome : Reply Job) (log : Reply String) (rest : Polled)
    → Ends lang reply outcome
    → round lang reply log rest
      ≡ record { reports = reported reply log ++ []; sleeps = 0; outcome = some outcome }
unfolding settled
round-Ends lang (thrown e) outcome log rest h = rw h refl
round-Ends lang (answered j) outcome log rest (inl (failed, same)) =
    rw (← same, append-nil (logged log)) (rw failed refl)
round-Ends lang (answered j) outcome log rest (inr (inl done, same)) =
    rw (← same, append-nil (logged log)) (rw done refl)
round-Ends lang (answered j) outcome log rest (inr (inr cancelled, same)) =
    rw (← same, append-nil (logged log)) (rw cancelled refl)

round-sleeps :
    (lang : String) (reply : Reply Job) (log : Reply String) (rest : Polled)
    → IsUnderWay reply
    → round lang reply log rest ≡ record {
      reports = reported reply log ++ rest.reports;
      sleeps = suc rest.sleeps;
      outcome = rest.outcome;
    }
round-sleeps lang (thrown e) log rest h = absurd h
round-sleeps lang (answered j) log rest h = rw h refl

poll_job-from :
    (lang : String) (jobs : ℕ → Reply Job) (logs : ℕ → Reply String) (outcome : Reply Job)
    (n fuel i : ℕ)
    → EndsIn lang jobs outcome n i
    → n < fuel
    → poll_job lang jobs logs fuel i
      ≡ record { reports = told jobs logs (suc n) i; sleeps = n; outcome = some outcome }
unfolding poll_job told EndsIn
poll_job-from lang jobs logs outcome n zero i h m = absurd (omega arith)
poll_job-from lang jobs logs outcome zero (suc fuel) i h m =
    round-Ends lang (jobs i) outcome (logs i) (poll_job lang jobs logs fuel (suc i)) h
poll_job-from lang jobs logs outcome (suc n) (suc fuel) i h m =
    round-sleeps lang (jobs i) (logs i) (poll_job lang jobs logs fuel (suc i)) h.0
    ∙ rw (poll_job-from lang jobs logs outcome n fuel (suc i) h.1 (omega arith)) refl

-- The loop ends: when the reply to the request of round `n` is the first that throws or shows an
-- ended job, every fuel above `n` is enough. The loop then has slept `n` times, has reported every
-- state that it was shown and every log that it could read, in order, and it throws what the
-- request threw or the failed job's error, or returns the job.
pub poll_job-told :
    (lang : String) (jobs : ℕ → Reply Job) (logs : ℕ → Reply String) (outcome : Reply Job)
    (n fuel : ℕ)
    → EndsIn lang jobs outcome n 0
    → n < fuel
    → poll_job lang jobs logs fuel 0
      ≡ record { reports = told jobs logs (suc n) 0; sleeps = n; outcome = some outcome }
poll_job-told lang jobs logs outcome n fuel = poll_job-from lang jobs logs outcome n fuel 0
