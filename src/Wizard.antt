-- ===== src/Wizard.antt =====
-- The wizard's generation of plans in web/app.js: `pollJob` and the handler `runBtn.onclick` of
-- `stageGenerate`. What the service replies is an argument, `Reply`; the texts are Language's.
pub mod Polling
pub mod Review
mod Tests
use chocobofix.Prelude.{
  ℕ, zero, suc, ◌+◌, String, string_eq, Bool, true, false, ◌&&◌, Option, none, some, List, [], ◌∷◌,
  ◌++◌, eqb, any, keep, take, is_some, if◌then◌else◌, ◌===◌,
}
use chocobofix.Language.{translate}
use chocobofix.Plan.{Version}

-- What `api` throws: `offline` has no status and no body.
pub record Failure : Type 0 where
  pub message : String
  pub status : Option ℕ
  pub has_body : Bool

pub data Reply (A : Type 0) : Type 0 where
  answered : A → Reply A
  thrown : Failure → Reply A

-- A job's record; an error that is missing is the empty text.
pub record Job : Type 0 where
  pub job_id : String
  pub state : String
  pub error : String
  pub version_ids : List ℕ

-- The calls of `onState` and `onLog`.
pub data Report : Type 0 where
  on_state : String → Report
  on_log : String → Report

-- What the rounds of the loop have reported, how often they have slept, and how the loop ended.
pub record Polled : Type 0 where
  pub reports : List Report
  pub sleeps : ℕ
  pub outcome : Option (Reply Job)

-- `['done','failed','cancelled'].includes(j.state)`.
abbrev pub has_ended : String → Bool
has_ended state = any (λ s. s === state) ("done" ∷ "failed" ∷ "cancelled" ∷ [])

abbrev pub or_else : String → String → String
or_else s t = if s === "" then t else s

abbrev pub logged : Reply String → List Report
logged (answered text) = on_log text ∷ []
logged (thrown e) = []

-- The job is returned, or its error thrown.
pub settled : String → Job → Reply Job
settled lang j =
    if j.state === "failed"
    then thrown (record {
      message = or_else j.error (translate lang "gen_failed");
      status = none;
      has_body = false;
    })
    else answered j

abbrev pub end_or_sleep : Bool → List Report → Reply Job → Polled → Polled
end_or_sleep true reports outcome rest = record {
  reports = reports;
  sleeps = 0;
  outcome = some outcome;
}
end_or_sleep false reports outcome rest = record {
  reports = reports ++ rest.reports;
  sleeps = suc rest.sleeps;
  outcome = rest.outcome;
}

-- One round at the reply to its request, and the rounds after it.
abbrev pub round : String → Reply Job → Reply String → Polled → Polled
round lang (thrown e) log rest = record { reports = []; sleeps = 0; outcome = some (thrown e) }
round lang (answered j) log rest =
    end_or_sleep (has_ended j.state) (on_state j.state ∷ logged log) (settled lang j) rest

-- The loop from round `i` on, with the service's replies by round.
pub poll_job : String → (ℕ → Reply Job) → (ℕ → Reply String) → ℕ → ℕ → Polled
poll_job lang jobs logs zero i = record { reports = []; sleeps = 0; outcome = none }
poll_job lang jobs logs (suc fuel) i =
    let rest = poll_job lang jobs logs fuel (suc i) in round lang (jobs i) (logs i) rest

-- How the handler ends: the next stage with the versions it shows, the note that another planner
-- was faster, or the error's message.
pub data Ended : Type 0 where
  review : (versions : List Version) → Ended
  conflict : Ended
  error_note : (message : String) → Ended

abbrev pub is_conflict : Failure → Bool
is_conflict e = elim e.status [ some n ↦ eqb n 409 | none ↦ false ] && e.has_body

pub caught : Failure → Ended
caught e = if is_conflict e then conflict else error_note e.message

pub made_by : Job → List Version → List Version
made_by job versions = keep (λ v. any (eqb v.id) job.version_ids) versions

abbrev pub or_latest : List Version → List Version → List Version
or_latest [] versions = take 3 versions
or_latest (v ∷ vs) versions = v ∷ vs

-- After the poll: `await refreshVersions()` and the choice of `w.versions`.
abbrev pub refreshed : Job → Reply (List Version) → Ended
refreshed job (thrown e) = caught e
refreshed job (answered versions) = review (or_latest (made_by job versions) versions)

abbrev pub after_poll : Job → Reply (List Version) → Reply Job → Ended
after_poll job versions (thrown e) = caught e
after_poll job versions (answered j) = refreshed job versions

abbrev pub after_polled : Job → Reply (List Version) → Option (Reply Job) → Option Ended
after_polled job versions none = none
after_polled job versions (some outcome) = some (after_poll job versions outcome)

-- `created` is the reply to the request that makes the job; the replies to the poll depend on the
-- job's number. The job that the poll returns is awaited and dropped.
pub generate :
    String
    → Reply Job
    → (String → ℕ → Reply Job)
    → (String → ℕ → Reply String)
    → Reply (List Version)
    → ℕ
    → Option Ended
unfolding caught made_by poll_job
generate lang (thrown e) jobs logs versions fuel = some (caught e)
generate lang (answered job) jobs logs versions fuel =
    after_polled job versions (poll_job lang (jobs job.job_id) (logs job.job_id) fuel 0).outcome
