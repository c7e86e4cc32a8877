-- ===== src/Pages/Window.antt =====
-- The weeks that the timeline shows.
use chocobofix.Prelude.{
  ℕ, zero, suc, ◌+◌, ◌-◌, ◌≤◌, ◌<◌, ◌≡◌, refl, ap, ◌∙◌, true, false, none, some, List, min, max,
  length, arith, ◌⊎◌, inl, inr, eqb, leb, Bool-cases, ◌↔◌, In,
}
use chocobofix.Pages.{first_week, week_count, count_from, weeks, earlier, later}

In-count_from : (w first n : ℕ) → In w (count_from first n) ↔ ((first ≤ w) × (w < first + n))
In-count_from w first zero = (λ i. absurd i, λ h. absurd (omega arith))
In-count_from w first (suc n) = (
  λ i. elim i [
    | inl e ↦ (omega (arith, e), omega (arith, e))
    | inr j ↦
        let h = (In-count_from w (first + 1) n).0 j in (omega (arith, h.0), omega (arith, h.1))
  ],
  λ h. elim (Bool-cases (eqb w first)) [
    | inl here ↦ inl (at_first here)
    | inr after ↦ inr ((In-count_from w (first + 1) n).1 (beyond after h.0, omega (arith, h.1)))
  ],
)
  where
    at_first : eqb w first ≡ true → w ≡ first
    at_first here = ground arith

    beyond : eqb w first ≡ false → first ≤ w → first + 1 ≤ w
    beyond after l = ground arith

-- A week is shown exactly when it lies in the run from the first one on that the window allows.
weeks-In :
    (size last start w : ℕ)
    → In w (weeks size last start)
      ↔ ((first_week size last start ≤ w) × (w ≤ last) × (w < first_week size last start + size))
unfolding weeks
weeks-In size last start w =
    let run = In-count_from w (first_week size last start) (week_count size last start) in
    (
      λ i. let h = run.0 i in (h.0, omega (arith, h.0, h.1), omega (arith, h.0, h.1)),
      λ h. run.1 (h.0, omega (arith, h.0, h.1, h.2)),
    )

length-count_from : (first n : ℕ) → length (count_from first n) ≡ n
length-count_from first zero = refl
length-count_from first (suc n) = ap suc (length-count_from (first + 1) n)

-- The weeks from `first` on, as many as the window is wide or, if there are fewer, as there are. They
-- begin with `start`, or, where fewer than that would follow, as late as that many do.
pub record IsWindow (size last start : ℕ) (shown : List ℕ) : Type 0 where
  pub first : ℕ
  pub fits : (1 ≤ first) × (first + min size last ≤ last + 1)
  pub at_start : start + min size last ≤ last + 1 → first ≡ start
  pub at_end : last + 1 < start + min size last → first + min size last ≡ last + 1
  pub runs : (w : ℕ) → In w shown ↔ ((first ≤ w) × (w < first + min size last))
  pub once : length shown ≡ min size last

-- From a start of at least 1, the timeline of a window of any width shows as many weeks as the window
-- is wide, or all where it is wider than there are weeks, each once and none before the first or after
-- the last week. They begin at the start; where fewer than that follow it, they end at the last week.
pub weeks-IsWindow :
    (size last start : ℕ) → 1 ≤ last → 1 ≤ start → IsWindow size last start (weeks size last start)
unfolding weeks
weeks-IsWindow size last start l p = record {
  first = first_week size last start;
  fits = (omega arith, omega arith);
  at_start = λ h. omega (arith, h);
  at_end = λ h. omega (arith, h);
  runs = λ w.
      let run = In-count_from w (first_week size last start) (week_count size last start) in
      (
        λ i. let h = run.0 i in (h.0, omega (arith, h.0, h.1)),
        λ h. run.1 (h.0, omega (arith, h.0, h.1)),
      );
  once = length-count_from (first_week size last start) (week_count size last start) ∙ omega arith;
}

module _ (size last start : ℕ) (s : 1 ≤ size) (l : 1 ≤ last) (p : 1 ≤ start) where
  -- The button for later weeks is disabled only where the last week is shown; otherwise it goes
  -- to a later run that shows the week after the shown ones, so that no week is skipped.
  pub later-next :
      ((later size last start ≡ none) × In last (weeks size last start))
      ⊎ ((t : ℕ) × (later size last start ≡ some t)
          × (1 ≤ t)
          × (first_week size last start < first_week size last t)
          × In (first_week size last start + week_count size last start) (weeks size last t))
  unfolding later
  later-next =
      elim (Bool-cases (leb last (first_week size last start + week_count size last start - 1))) [
        | inl end ↦
            let h = at_end end in
            inl (
              rw end refl,
              (weeks-In size last start last).1 (omega (arith, h), omega arith, omega (arith, h)),
            )
        | inr more ↦
            let h = before_end more in
            let t = first_week size last start + size in
            inr (
              t,
              rw more refl,
              omega arith,
              omega (arith, h),
              (weeks-In size last t (first_week size last start + week_count size last start)).1
                  (omega (arith, h), omega (arith, h), omega (arith, h)),
            )
      ]
    where
      at_end :
          leb last (first_week size last start + week_count size last start - 1) ≡ true
          → last ≤ first_week size last start + week_count size last start - 1
      at_end end = ground arith

      before_end :
          leb last (first_week size last start + week_count size last start - 1) ≡ false
          → first_week size last start + week_count size last start - 1 < last
      before_end more = ground arith

  -- The button for earlier weeks is disabled only where week 1 is shown; otherwise it goes to an
  -- earlier run that shows the week before the shown ones.
  pub earlier-next :
      ((earlier size last start ≡ none) × In 1 (weeks size last start))
      ⊎ ((t : ℕ) × (earlier size last start ≡ some t)
          × (1 ≤ t)
          × (first_week size last t < first_week size last start)
          × In (first_week size last start - 1) (weeks size last t))
  unfolding earlier
  earlier-next = elim (Bool-cases (eqb (first_week size last start) 1)) [
    | inl at_start ↦
        let h = is_one at_start in
        inl
          (rw at_start refl, (weeks-In size last start 1).1 (omega (arith, h), l, omega (arith, h)))
    | inr after ↦
        let h = not_one after in
        let t = max 1 (first_week size last start - size) in
        inr (
          t,
          rw after refl,
          omega arith,
          omega (arith, h),
          (weeks-In size last t (first_week size last start - 1)).1
              (omega (arith, h), omega (arith, h), omega (arith, h)),
        )
  ]
    where
      is_one : eqb (first_week size last start) 1 ≡ true → first_week size last start ≡ 1
      is_one at_start = ground arith

      not_one : eqb (first_week size last start) 1 ≡ false → 1 < first_week size last start
      not_one after = ground arith
