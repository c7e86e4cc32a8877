-- ===== src/Desk.antt =====
-- The opened project of the first interface, the record `S` of web/app.js: `openProject`,
-- `refreshVersions`, `useInstance`, `loadResult` and `signOutLocal`. An awaited call is a flow, its
-- reply an event. `D` is the type of an instance's detail.
pub mod Asked
pub mod Owned
mod Tests
use chocobofix.Prelude.{
  ℕ, ◌+◌, Bool, true, false, Option, none, some, List, [], ◌∷◌, ◌++◌, eqb, if◌then◌else◌, number_eq,
}
use chocobofix.Prelude.JsMap.{get, set}
use chocobofix.Csv.Quoted.{parse_csv}
use chocobofix.Plan.{Version}

pub record Project : Type 0 where
  pub id : ℕ
  pub revision : ℕ

pub data View : Type 0 where
  projects overview elsewhere : View

-- What is kept of a version: three tables, the validation as text, and the three files (`raw`).
pub record Result : Type 0 where
  pub access : List (List (List ℕ × List ℕ))
  pub occupancy : List (List (List ℕ × List ℕ))
  pub results : List (List (List ℕ × List ℕ))
  pub validation : List ℕ
  pub raw_access : List ℕ
  pub raw_occupancy : List ℕ
  pub raw_results : List ℕ

pub record Files : Type 0 where
  pub access : List ℕ
  pub occupancy : List ℕ
  pub results : List ℕ
  pub validation : List ℕ

-- Where a function waits: `openProject` for the versions, the instances and the detail; any other
-- caller of `refreshVersions`; `loadResult` for the four files.
pub data Waits : Type 0 where
  open_versions : (pid : ℕ) → Waits
  open_instances : (pid : ℕ) → Waits
  open_detail : (iid : ℕ) → Waits
  refresh : (pid : ℕ) → Waits
  load_result : (vid : ℕ) → Waits

pub record Flow : Type 0 where
  pub promise : ℕ
  pub waits : Waits

pub record Desk (D : Type 0) : Type 0 where
  pub project : Option Project
  pub instances : List ℕ
  pub instance_id : Option ℕ
  pub detail : Option D
  pub versions : List Version
  pub results : List (ℕ × Result)
  pub selected_activity : Option (List ℕ)
  pub compare_to : Option ℕ
  pub week : ℕ
  pub view : View
  pub flows : List Flow
  pub next : ℕ

pub data Reply (D : Type 0) : Type 0 where
  versions_are : List Version → (revision : ℕ) → Reply D
  instances_are : List ℕ → Reply D
  detail_is : D → Reply D
  files_are : Files → Reply D
  failed : Reply D

pub take_flow : ℕ → List Flow → Option Flow
take_flow p [] = none
take_flow p (f ∷ fs) = if eqb f.promise p then some f else take_flow p fs

pub drop_flow : ℕ → List Flow → List Flow
drop_flow p [] = []
drop_flow p (f ∷ fs) = if eqb f.promise p then fs else f ∷ drop_flow p fs

pub parsed : Files → Result
parsed f = record {
  access = parse_csv f.access;
  occupancy = parse_csv f.occupancy;
  results = parse_csv f.results;
  validation = f.validation;
  raw_access = f.access;
  raw_occupancy = f.occupancy;
  raw_results = f.results;
}

-- `S.versions = r.versions; S.project.revision = r.revision`; without a project the second throws.
abbrev pub note_revision : ℕ → Option Project → Option Project
note_revision r none = none
note_revision r (some p) = some (record p { revision = r })

module _ {D : Type 0} where
  abbrev pub wait : Waits → Desk D → Desk D
  wait w s = record s {
    flows = s.flows ++ record { promise = s.next; waits = w } ∷ [];
    next = s.next + 1;
  }

  -- `openProject`, up to its first reply.
  pub open_project : Project → Desk D → Desk D
  open_project p s = wait (open_versions p.id) (record s {
    project = some p;
    instance_id = none;
    detail = none;
    versions = [];
    results = [];
    selected_activity = none;
    compare_to = none;
  })

  -- `refreshVersions` for a caller that does nothing after it.
  abbrev refresh_of : Option Project → Desk D → Desk D
  refresh_of none s = s
  refresh_of (some p) s = wait (refresh p.id) s

  pub refresh_versions : Desk D → Desk D
  refresh_versions s = refresh_of s.project s

  -- `useInstance`, up to its reply.
  pub use_instance : ℕ → Desk D → Desk D
  use_instance iid s = wait (open_detail iid) (record s { instance_id = some iid })

  abbrev has_result : Option Result → ℕ → Desk D → Desk D
  has_result (some r) vid s = s
  has_result none vid s = wait (load_result vid) s

  pub load_result_of : ℕ → Desk D → Desk D
  load_result_of vid s = has_result (get vid s.results) vid s

  pub note_versions : List Version → ℕ → Desk D → Desk D
  note_versions vs r s = record s { versions = vs; project = note_revision r s.project }

  abbrev next_instances : Option Project → ℕ → Desk D → Desk D
  next_instances none pid s = s
  next_instances (some p) pid s = wait (open_instances pid) s

  abbrev pub first_instance : List ℕ → Desk D → Desk D
  first_instance [] s = record s { view = overview }
  first_instance (iid ∷ ids) s = use_instance iid s

  -- What each function does with its reply.
  pub resume : Waits → Reply D → Desk D → Desk D
  unfolding note_versions use_instance parsed
  resume (open_versions pid) (versions_are vs r) s =
      next_instances s.project pid (note_versions vs r s)
  resume (open_instances pid) (instances_are ids) s =
      first_instance ids (record s { instances = ids })
  resume (open_detail iid) (detail_is d) s = record s { detail = some d; week = 1; view = overview }
  resume (refresh pid) (versions_are vs r) s = note_versions vs r s
  resume (load_result vid) (files_are f) s = record s { results = set vid (parsed f) s.results }
  resume w reply s = s

  pub sign_out_local : Desk D → Desk D
  sign_out_local s = record s { project = none; versions = []; detail = none }

  abbrev pub after_wait : Option Flow → Reply D → Desk D → Desk D
  after_wait none reply s = s
  after_wait (some f) reply s =
      resume f.waits reply (record s { flows = drop_flow f.promise s.flows })

-- What happens to the page, in any order.
pub data Event (D : Type 0) : Type 0 where
  opened : Project → Event D
  refreshed : Event D
  shown : (vid : ℕ) → Event D
  signed_out : Event D
  replied : (promise : ℕ) → Reply D → Event D

module _ {D : Type 0} where
  pub step : Desk D → Event D → Desk D
  unfolding open_project refresh_versions load_result_of sign_out_local take_flow drop_flow resume
  step s (opened p) = open_project p s
  step s refreshed = refresh_versions s
  step s (shown vid) = load_result_of vid s
  step s signed_out = sign_out_local s
  step s (replied p reply) = after_wait (take_flow p s.flows) reply s

  pub steps : Desk D → List (Event D) → Desk D
  unfolding step
  steps s [] = s
  steps s (e ∷ es) = steps (step s e) es

  abbrev pub at_start : Desk D
  at_start = record {
    project = none;
    instances = [];
    instance_id = none;
    detail = none;
    versions = [];
    results = [];
    selected_activity = none;
    compare_to = none;
    week = 1;
    view = projects;
    flows = [];
    next = 0;
  }
