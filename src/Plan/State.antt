-- ===== src/Plan/State.antt =====
-- How a version is labelled, in both interfaces.
use chocobofix.Prelude.{
  ◌≡◌, ◌≢◌, ◌↔◌, refl, String, string_eq, Bool, true, false, Option, none, some, List, [], ◌∷◌, ◌⊎◌,
  inl, inr, arith, Option-cases, ◌===◌, eq_iff, find, keep, In, find-In, find_holds, In-keep,
  keep-In, In-All, find-none, keep-nil, All-map, All, if◌then◌else◌, is_some, not,
}
use chocobofix.Plan.{
  Version, truthy, plan_state, state_of, ok, current_version, first, or_first, next_action,
  approve_draft, await_approval, failed_plan, nothing_next,
}

-- A plan that is not shown as failed passed: it is feasible and no check is violated.
pub plan_state-passed :
    (v : Version)
    → ((plan_state (some v)).failed ≡ false) ↔ ((v.feasible ≡ true) × (v.violations ≡ 0))
unfolding plan_state
plan_state-passed v = ground arith

date_iff : (o : Option String) → (truthy o ≡ true) ↔ ((o ≢ none) × (o ≢ some ""))
date_iff none = ground arith
date_iff (some s) = ground (arith, eq_iff s "")

approved_ok : (v : Version) → ((state_of (some v)).0 ≡ ok) ↔ (v.status ≡ "approved")
unfolding state_of
approved_ok v = ground (arith, eq_iff v.status "approved")

published_iff :
    (v : Version)
    → ((plan_state (some v)).published ≡ true)
      ↔ ((v.status ≡ "approved") ⊎ (truthy v.approved_at ≡ true))
unfolding plan_state
published_iff v = ground (arith, eq_iff v.status "approved")

-- The new client labels a version as published that the first interface does not show as
-- published exactly when the version is not approved but keeps the date of an approval.
pub published_differs_iff :
    (v : Version)
    → (((plan_state (some v)).published ≡ true) × ((state_of (some v)).0 ≢ ok))
      ↔ ((v.status ≢ "approved") × (v.approved_at ≢ none) × (v.approved_at ≢ some ""))
published_differs_iff v = (
  λ h. elim ((published_iff v).0 h.0) [
    | inl approved ↦ absurd (h.1 ((approved_ok v).1 approved))
    | inr dated ↦
        let (some_date, not_empty) = (date_iff v.approved_at).0 dated in
        (λ a. h.1 ((approved_ok v).1 a), some_date, not_empty)
  ],
  λ k. (
    (published_iff v).1 (inr ((date_iff v.approved_at).1 (k.1, k.2))),
    λ o. k.0 ((approved_ok v).0 o),
  ),
)

first-In : (vs : List Version) {v : Version} → first vs ≡ some v → In v vs
first-In [] {v} e = cc
first-In (w ∷ vs) {v} e = let same : v ≡ w = cc in inl same

first-none : (vs : List Version) → first vs ≡ none → vs ≡ []
first-none [] e = refl
first-none (w ∷ vs) e = cc

-- The first interface shows an approved version of the scenario if there is one; what it shows is
-- always a version of the scenario, and it shows none only where the scenario has none.
pub current_version-IsCurrent :
    (s : String) (vs : List Version)
    → ((v : Version) × (current_version s vs ≡ some v)
        × In v vs
        × (v.scenario ≡ s)
        × ((w : Version)
            → In w vs
            → w.scenario ≡ s
            → w.status ≡ "approved"
            → v.status ≡ "approved"))
      ⊎ ((current_version s vs ≡ none) × All (λ w. w.scenario ≢ s) vs)
unfolding current_version
current_version-IsCurrent s vs =
    elim (Option-cases (find (λ v. v.status === "approved") (keep (λ v. v.scenario === s) vs))) [
      | inr (v, e) ↦
          let (i, h) = In-keep (λ w. w.scenario === s) v vs (find-In _ _ e) in
          inl (
            v,
            rw (e, or_first) refl,
            i,
            (eq_iff v.scenario s).0 h,
            λ w j k a.
                (eq_iff v.status "approved").0
                  (find_holds (λ w. w.status === "approved") (keep (λ w. w.scenario === s) vs) e),
          )
      | inl e ↦ elim (Option-cases (first (keep (λ v. v.scenario === s) vs))) [
        | inr (v, f) ↦
            let (i, h) = In-keep (λ w. w.scenario === s) v vs (first-In _ f) in
            inl (
              v,
              rw (e, or_first) f,
              i,
              (eq_iff v.scenario s).0 h,
              λ w j k a. absurd (none_approved e w j k a),
            )
        | inl f ↦ inr (
          rw (e, or_first) f,
          All-map _ _ (λ w h. elsewhere w h) vs
              (keep-nil (λ w. w.scenario === s) vs (first-none _ f)),
        )
      ]
    ]
  where
    elsewhere : (w : Version) → (w.scenario === s) ≡ false → w.scenario ≢ s
    elsewhere w h = ground (arith, eq_iff w.scenario s)

    none_approved :
        find (λ v. v.status === "approved") (keep (λ v. v.scenario === s) vs) ≡ none
        → (w : Version) → In w vs
        → w.scenario ≡ s
        → w.status ≡ "approved"
        → ⊥
    none_approved e w j k a =
        let there = keep-In (λ v. v.scenario === s) w vs j ((eq_iff w.scenario s).1 k) in
        let no_status =
          In-All (λ v. (v.status === "approved") ≡ false) w _ there (find-none _ _ e) in
        ground (arith, eq_iff w.status "approved")

-- The advice to approve goes only to who may approve, and is about a version of the project that
-- the service calls approvable; the advice to wait goes to the others.
pub next_action-approves :
    (can_approve : Bool) (vs : List Version) (s : String)
    → next_action can_approve vs ≡ approve_draft s
    → (can_approve ≡ true) × ((v : Version) × In v vs × (v.approvable ≡ true) × (v.scenario ≡ s))
unfolding next_action
next_action-approves can vs s e = elim (Option-cases (find (λ v. v.approvable) vs)) [
  | inr (v, f) ↦ allowed v f can refl (rw (f, next_action) at e)
  | inl f ↦ absurd (no_draft (is_some (find (λ v. not v.feasible) vs)) (rw (f, next_action) at e))
]
  where
    no_draft : (b : Bool) → (if b then failed_plan else nothing_next) ≡ approve_draft s → ⊥
    no_draft true h = cc
    no_draft false h = cc

    allowed :
        (v : Version)
        → find (λ v. v.approvable) vs ≡ some v
        → (b : Bool) → can ≡ b
        → (if b then approve_draft v.scenario else await_approval) ≡ approve_draft s
        → (can ≡ true) × ((v : Version) × In v vs × (v.approvable ≡ true) × (v.scenario ≡ s))
    allowed v f true is_true h =
        (is_true, (v, find-In _ vs f, find_holds (λ v. v.approvable) vs f, ground arith))
    allowed v f false is_true h = cc
