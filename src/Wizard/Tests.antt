-- ===== src/Wizard/Tests.antt =====
-- A job that runs for two rounds, and one that fails.
use chocobofix.Prelude.{
  ℕ, zero, suc, ◌≡◌, inl, inr, refl, String, string_eq, true, none, some, List, [], ◌∷◌, arith,
  take,
}
use chocobofix.Plan.{Version}
use chocobofix.Wizard.{Reply, answered, thrown, Job, review, poll_job, generate}
use chocobofix.Wizard.Polling.{EndsIn, job_failure, told, poll_job-told}
use chocobofix.Wizard.Review.{generate-first_three}

abbrev job_in : String → List ℕ → Job
job_in state versions = record { job_id = "j1"; state = state; error = ""; version_ids = versions }

abbrev two_rounds : ℕ → Reply Job
two_rounds zero = answered (job_in "queued" [])
two_rounds (suc zero) = answered (job_in "running" [])
two_rounds (suc (suc i)) = answered (job_in "done" (4 ∷ []))

abbrev no_log : ℕ → Reply String
no_log i = thrown (record { message = "no log"; status = some 404; has_body = true })

abbrev fails : ℕ → Reply Job
fails zero = answered (job_in "running" [])
fails (suc i) = answered (record (job_in "failed" []) { error = "no plan" })

two_rounds-EndsIn : EndsIn "en" two_rounds (answered (job_in "done" (4 ∷ []))) 2 0
unfolding EndsIn
two_rounds-EndsIn = (refl, (refl, inr (inl refl, refl)))

poll_job-told_example : poll_job "en" two_rounds no_log 9 0 ≡ record {
  reports = told two_rounds no_log 3 0;
  sleeps = 2;
  outcome = some (answered (job_in "done" (4 ∷ [])));
}
poll_job-told_example =
    poll_job-told "en" two_rounds no_log (answered (job_in "done" (4 ∷ []))) 2 9 two_rounds-EndsIn
      (omega arith)

abbrev version : ℕ → Version
version id = record {
  id = id;
  version_no = id;
  scenario = "A";
  status = "draft";
  approved_at = none;
  feasible = true;
  violations = 0;
  approvable = true;
}

abbrev four_versions : List Version
four_versions = version 4 ∷ version 3 ∷ version 2 ∷ version 1 ∷ []

generate-first_three_example :
    generate "en"
      (answered (job_in "queued" []))
      (λ id. two_rounds)
      (λ id. no_log)
      (answered four_versions)
      9
    ≡ some (review (take 3 four_versions))
generate-first_three_example =
    generate-first_three "en" (job_in "queued" []) (λ id. two_rounds) (λ id. no_log) 2 9
      (job_in "done" (4 ∷ [])) four_versions refl two_rounds-EndsIn (omega arith)

fails-EndsIn :
    EndsIn "en" fails
      (thrown (job_failure "en" (record (job_in "failed" []) { error = "no plan" })))
      1
      0
unfolding EndsIn
fails-EndsIn = (refl, inl (refl, refl))
