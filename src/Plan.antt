-- ===== src/Plan.antt =====
-- Which plan a project shows and how it is labelled: client/src/lib/planChoice.js, the version
-- table of client/src/routes/Project.jsx, and the same questions in web/app.js.
pub mod Choice
pub mod Comparison
pub mod State
mod Tests
use chocobofix.Prelude.{
  ℕ, String, string_eq, Bool, true, false, not, ◌||◌, ◌&&◌, Option, none, some, List, [], ◌∷◌, ltb,
  eqb, find, keep, is_some, if◌then◌else◌, ◌===◌,
}
use chocobofix.Prelude.JsMap
use chocobofix.Prelude.Decimal.{decimal}
use chocobofix.Prelude.Sort.{sort}
use chocobofix.Prelude.Text.{Text-eq, is_empty}

-- A row of `GET /projects/:pid/versions`. A date that is null or missing is `none`.
pub record Version : Type 0 where
  pub id : ℕ
  pub version_no : ℕ
  pub scenario : String
  pub status : String
  pub approved_at : Option String
  pub feasible : Bool
  pub violations : ℕ
  pub approvable : Bool

abbrev pub truthy : Option String → Bool
truthy none = false
truthy (some s) = not (s === "")

abbrev pub is_published : Version → Bool
is_published v = v.status === "approved" || truthy v.approved_at

-- The comparators, `b.version_no - a.version_no` and with `b.id - a.id` on a tie.
abbrev pub newer_number : Version → Version → Bool
newer_number a b = ltb b.version_no a.version_no

abbrev pub newer : Version → Version → Bool
newer a b = ltb b.version_no a.version_no || (eqb a.version_no b.version_no && ltb b.id a.id)

abbrev pub first {ℓ} : {A : Type ℓ} → List A → Option A
first [] = none
first (x ∷ xs) = some x

abbrev pub or_first : Option Version → Option Version → Option Version
or_first (some v) w = some v
or_first none w = w

-- `prefer` is what a select element holds, the text of an id; the empty text is falsy.
pub exact : Option (List ℕ) → List Version → Option Version
exact none versions = none
exact (some p) versions = if is_empty p then none else find (λ v. decimal v.id === p) versions

pub choose_plan : List Version → Option (List ℕ) → Option Version
unfolding exact
choose_plan versions prefer = or_first (exact prefer versions) (
    or_first (first (sort newer_number (keep is_published versions))) (first (sort newer versions)))

pub record PlanState : Type 0 where
  pub published : Bool
  pub label : String
  pub failed : Bool

-- Without a plan `failed` is undefined, which is falsy.
pub plan_state : Option Version → PlanState
plan_state none = record { published = false; label = "No plan yet"; failed = false }
plan_state (some v) = record {
  published = is_published v;
  label = if is_published v then "Published" else "Draft";
  failed = not v.feasible || ltb 0 v.violations;
}

-- client/src/routes/Project.jsx, `Review`: the latest version of each scenario.
abbrev pub is_later : Version → Option Version → Bool
is_later v none = true
is_later v (some w) = ltb w.version_no v.version_no

pub latest_from : List (String × Version) → List Version → List (String × Version)
latest_from latest [] = latest
latest_from latest (v ∷ vs) =
    latest_from
      (if is_later v (JsMap.get v.scenario latest) then JsMap.set v.scenario v latest else latest)
      vs

pub latest : List Version → List (String × Version)
unfolding latest_from
latest versions = latest_from [] versions

-- web/app.js: `stateOf`, with the keys of its labels.
pub data PillKind : Type 0 where
  idle ok bad info : PillKind

pub state_of : Option Version → PillKind × String
state_of none = (idle, "state_none")
state_of (some v) =
    if v.status === "approved"
    then (ok, "state_published")
    else if v.status === "superseded"
    then (idle, "state_superseded")
    else if v.status === "invalidated"
    then (bad, "state_outdated")
    else if not v.feasible
    then (bad, "state_failed")
    else (info, "state_checked")

-- web/app.js: `currentVersion`, and `byScen` of the overview.
pub current_version : String → List Version → Option Version
current_version scenario versions =
    let for_scenario = keep (λ v. v.scenario === scenario) versions in
    or_first (find (λ v. v.status === "approved") for_scenario) (first for_scenario)

pub data NextAction : Type 0 where
  approve_draft : (scenario : String) → NextAction
  await_approval : NextAction
  failed_plan : NextAction
  nothing_next : NextAction

-- web/app.js: `nextAction`.
pub next_action : Bool → List Version → NextAction
next_action can_approve versions = elim (find (λ v. v.approvable) versions) [
  | some draft ↦ if can_approve then approve_draft draft.scenario else await_approval
  | none ↦ if is_some (find (λ v. not v.feasible) versions) then failed_plan else nothing_next
]
