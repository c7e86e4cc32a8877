-- ===== src/Wizard/Review.antt =====
-- What the wizard shows after the poll.
use chocobofix.Prelude.{
  ℕ, ◌<◌, ◌≡◌, refl, ap, ◌∙◌, String, string_eq, false, some, List, [], ◌∷◌, take, keep,
}
use chocobofix.Plan.{Version}
use chocobofix.Language.{translate}
use chocobofix.Wizard.{
  Reply, answered, thrown, Job, review, error_note, caught, made_by, or_latest, after_poll,
  after_polled, generate, or_else,
}
use chocobofix.Wizard.Polling.{EndsIn, job_failure, poll_job-told}

module _ (lang : String) (job : Job) (jobs : String → ℕ → Reply Job)
    (logs : String → ℕ → Reply String) (n fuel : ℕ) where
  generate-polled :
      (outcome : Reply Job) (versions : Reply (List Version))
      → EndsIn lang (jobs job.job_id) outcome n 0
      → n < fuel
      → generate lang (answered job) jobs logs versions fuel
        ≡ some (after_poll job versions outcome)
  unfolding generate
  generate-polled outcome versions h m =
      ap (λ p. after_polled job versions p.outcome)
        (poll_job-told lang (jobs job.job_id) (logs job.job_id) outcome n fuel h m)

keep_nothing : {A : Type 0} (xs : List A) → keep (λ _. false) xs ≡ []
keep_nothing [] = refl
keep_nothing (x ∷ xs) = keep_nothing xs

made_by_none :
    (job : Job) (versions : List Version) → job.version_ids ≡ [] → made_by job versions ≡ []
unfolding made_by
made_by_none job versions h = rw h (keep_nothing versions)

-- The versions that the review shows are chosen by the reply to the request that made the job,
-- which lists no versions yet, and not by the job that the poll returns: when the poll ends well,
-- the review shows the first three versions of the project, whichever the job has made.
pub generate-first_three :
    (lang : String) (job : Job) (jobs : String → ℕ → Reply Job) (logs : String → ℕ → Reply String)
    (n fuel : ℕ) (ended : Job) (versions : List Version)
    → job.version_ids ≡ []
    → EndsIn lang (jobs job.job_id) (answered ended) n 0
    → n < fuel
    → generate lang (answered job) jobs logs (answered versions) fuel
      ≡ some (review (take 3 versions))
generate-first_three lang job jobs logs n fuel ended versions none_yet h m =
    generate-polled lang job jobs logs n fuel (answered ended) (answered versions) h m
    ∙ ap (λ vs. some (review (or_latest vs versions))) (made_by_none job versions none_yet)

-- When the poll throws a failed job's error, the handler ends with the job's error, or with the text for a failed
-- generation where the job has none; it shows no versions, whatever the service would list.
pub generate-failed :
    (lang : String) (job : Job) (jobs : String → ℕ → Reply Job) (logs : String → ℕ → Reply String)
    (n fuel : ℕ) (ended : Job) (versions : Reply (List Version))
    → EndsIn lang (jobs job.job_id) (thrown (job_failure lang ended)) n 0
    → n < fuel
    → generate lang (answered job) jobs logs versions fuel
      ≡ some (error_note (or_else ended.error (translate lang "gen_failed")))
unfolding caught
generate-failed lang job jobs logs n fuel ended versions h m =
    generate-polled lang job jobs logs n fuel (thrown (job_failure lang ended)) versions h m
