-- ===== src/Plan/Tests.antt =====
-- The choice of a plan on concrete versions.
use chocobofix.Prelude.{◌≡◌, ◌≢◌, ◌↔◌, refl, true, false, none, some, List, [], ◌∷◌, ◌⊎◌, In, All}
use chocobofix.Prelude.{string_eq}
use chocobofix.Prelude.Sort.{sort}
use chocobofix.Prelude.Decimal.{decimal}
use chocobofix.Plan.{
  Version, exact, choose_plan, plan_state, state_of, idle, current_version, next_action,
  approve_draft,
}
use chocobofix.Plan.Choice.{IsExact, IsDefault, choose_plan-total}
use chocobofix.Plan.State.{plan_state-passed, current_version-IsCurrent}

abbrev old : Version
old = record {
  id = 3;
  version_no = 1;
  scenario = "baseline";
  status = "superseded";
  approved_at = some "2026-01-05";
  feasible = true;
  violations = 0;
  approvable = false;
}

abbrev draft : Version
draft = record {
  id = 14;
  version_no = 2;
  scenario = "baseline";
  status = "draft";
  approved_at = none;
  feasible = true;
  violations = 0;
  approvable = true;
}

abbrev both : List Version
both = draft ∷ old ∷ []

choose_plan-total_example :
    (v : Version) × (choose_plan both (some (decimal 14)) ≡ some v)
    × ((In v both × IsExact (some (decimal 14)) v)
        ⊎ (All (λ w. ¬ IsExact (some (decimal 14)) w) both × IsDefault both v))
choose_plan-total_example = choose_plan-total draft (old ∷ []) (some (decimal 14))

plan_state-passed_example :
    ((plan_state (some draft)).failed ≡ false) ↔ ((draft.feasible ≡ true) × (draft.violations ≡ 0))
plan_state-passed_example = plan_state-passed draft

-- The superseded plan keeps the date of its approval: the two interfaces label it differently.
old_differs : ((plan_state (some old)).published ≡ true) × ((state_of (some old)).0 ≡ idle)
unfolding plan_state state_of
old_differs = (refl, refl)

current_version-IsCurrent_example :
    ((v : Version) × (current_version "baseline" both ≡ some v)
      × In v both
      × (v.scenario ≡ "baseline")
      × ((w : Version)
          → In w both
          → w.scenario ≡ "baseline"
          → w.status ≡ "approved"
          → v.status ≡ "approved"))
    ⊎ ((current_version "baseline" both ≡ none) × All (λ w. w.scenario ≢ "baseline") both)
current_version-IsCurrent_example = current_version-IsCurrent "baseline" both

advised : next_action true both ≡ approve_draft "baseline"
unfolding next_action
advised = refl

-- Without a preference the old published plan is shown, although the draft is newer.
old_is_chosen : choose_plan both none ≡ some old
unfolding choose_plan exact sort
old_is_chosen = refl
