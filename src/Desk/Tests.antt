-- ===== src/Desk/Tests.antt =====
-- A project that is opened, and two that are opened one after the other.
use chocobofix.Prelude.{ℕ, ◌≡◌, refl, String, true, none, some, List, [], ◌∷◌}
use chocobofix.Plan.{Version}
use chocobofix.Desk.{
  Project, Files, Event, opened, replied, versions_are, instances_are, detail_is, take_flow,
  drop_flow, open_project, resume, note_versions, use_instance, step, steps, at_start,
}
use chocobofix.Desk.Owned.{IsOwned, AreAllowed, steps-IsOwned}

abbrev version : ℕ → Version
version id = record {
  id = id;
  version_no = id;
  scenario = "A";
  status = "draft";
  approved_at = none;
  feasible = true;
  violations = 0;
  approvable = true;
}

-- The service of the tests: project n has version n and instance n.
abbrev VersionsOf : ℕ → List Version → Type 0
VersionsOf pid vs = vs ≡ version pid ∷ []

abbrev InstanceOf : ℕ → ℕ → Type 0
InstanceOf pid iid = iid ≡ pid

abbrev FilesOf : ℕ → Files → Type 0
FilesOf vid f = Unit

abbrev first_project : Project
first_project = record { id = 1; revision = 0 }

abbrev second_project : Project
second_project = record { id = 2; revision = 0 }

abbrev one_opening : List (Event String)
one_opening =
    opened first_project
    ∷ replied 0 (versions_are (version 1 ∷ []) 4)
    ∷ replied 1 (instances_are (1 ∷ []))
    ∷ replied 2 (detail_is "detail")
    ∷ opened second_project
    ∷ []

one_opening-AreAllowed : AreAllowed VersionsOf InstanceOf FilesOf at_start one_opening
unfolding step open_project resume note_versions use_instance take_flow drop_flow
one_opening-AreAllowed = (tt, (refl, ((refl, tt), (tt, (tt, tt)))))

steps-IsOwned_example : IsOwned VersionsOf InstanceOf FilesOf (steps at_start one_opening)
steps-IsOwned_example =
    steps-IsOwned VersionsOf InstanceOf FilesOf one_opening one_opening-AreAllowed

-- The late reply for the first project is shown under the second.
abbrev two_openings : List (Event String)
two_openings =
    opened first_project
    ∷ opened second_project
    ∷ replied 1 (versions_are (version 2 ∷ []) 4)
    ∷ replied 0 (versions_are (version 1 ∷ []) 9)
    ∷ []

two_openings_mixed :
    let s = steps at_start two_openings in
    (s.project ≡ some (record { id = 2; revision = 9 })) × (s.versions ≡ version 1 ∷ [])
unfolding steps step open_project resume note_versions use_instance take_flow drop_flow
two_openings_mixed = (refl, refl)
