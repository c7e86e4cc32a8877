-- ===== src/Plan/Choice.antt =====
-- Which version `choosePlan` returns.
use chocobofix.Prelude.{
  ℕ, ◌≤◌, ◌≡◌, refl, Bool, true, false, Option, none, some, List, [], ◌∷◌, ◌⊎◌, inl, inr, arith,
  All, All-map, In, In-keep, keep-In, keep-nil, find-none, ap, sym, ◌∙◌, find-In, In-All, All-of_In,
  find_holds, keep, Option-cases, Bool-cases, subst, find, ◌===◌,
}
use chocobofix.Prelude.Decimal.{decimal, is_empty-decimal}
use chocobofix.Prelude.Text.{Text-eq, text_eq_iff, is_empty}
use chocobofix.Prelude.Sort.{insert, sort, IsOrder, IsSorted, sort-IsSorted, sort-In, sort-All_rev}
use chocobofix.Plan.{
  Version, is_published, newer_number, newer, first, or_first, exact, choose_plan,
}

newer_number-IsOrder : IsOrder newer_number
newer_number-IsOrder = record {
  asym = λ a b h. ground arith;
  later_trans = λ a b c h k. ground arith;
}

newer-IsOrder : IsOrder newer
newer-IsOrder = record { asym = λ a b h. ground arith; later_trans = λ a b c h k. ground arith }

module _ (before : Version → Version → Bool) (o : IsOrder before) where
  not_before_self : (v : Version) → before v v ≡ false
  not_before_self v = elim (Bool-cases (before v v)) [ inl h ↦ o.asym v v h | inr h ↦ h ]

  first_of_sorted :
      (ws : List Version) (v : Version)
      → IsSorted before ws
      → first ws ≡ some v
      → In v ws × All (λ w. before w v ≡ false) ws
  first_of_sorted [] v s e = cc
  first_of_sorted (w ∷ ws) v s e =
      let same : w ≡ v = cc in
      subst (λ x. In x (w ∷ ws) × All (λ y. before y x ≡ false) (w ∷ ws)) same
        (inl refl, (not_before_self w, s.0))

  first_sorted :
      (vs : List Version) (v : Version)
      → first (sort before vs) ≡ some v
      → In v vs × All (λ w. before w v ≡ false) vs
  first_sorted vs v e =
      let (i, h) = first_of_sorted (sort before vs) v (sort-IsSorted before o vs) e in
      (sort-In before v vs i, sort-All_rev before (λ w. before w v ≡ false) vs h)

module _ (before : Version → Version → Bool) where
  first-insert :
      (x : Version) (ys : List Version) → (v : Version) × (first (insert before x ys) ≡ some v)
  unfolding insert
  first-insert x [] = (x, refl)
  first-insert x (y ∷ ys) = elim (Bool-cases (before y x)) [
    | inl later ↦ (y, rw later)
    | inr earlier ↦ (x, rw earlier)
  ]

  first_sorted_none : (vs : List Version) → first (sort before vs) ≡ none → vs ≡ []
  unfolding sort
  first_sorted_none [] e = refl
  first_sorted_none (x ∷ xs) e = let (v, f) = first-insert x (sort before xs) in cc

-- With no exact preference the plan is a published one of the highest number, and only where none
-- is published the newest of all.
abbrev pub IsDefault : List Version → Version → Type 0
IsDefault vs v =
    In v vs
    × (((is_published v ≡ true) × All (λ w. is_published w ≡ true → w.version_no ≤ v.version_no) vs)
        ⊎ (All (λ w. is_published w ≡ false) vs
            × All (λ w. (w.version_no ≤ v.version_no) × (w.version_no ≡ v.version_no → w.id ≤ v.id))
                vs))

published_best :
    (vs : List Version) (v : Version)
    → first (sort newer_number (keep is_published vs)) ≡ some v
    → IsDefault vs v
published_best vs v e =
    let (i, h) = first_sorted newer_number newer_number-IsOrder (keep is_published vs) v e in
    let (j, p) = In-keep is_published v vs i in
    (j, inl (p, All-of_In _ vs λ w k q. numbers w (In-All _ w _ (keep-In is_published w vs k q) h)))
  where
    numbers : (w : Version) → newer_number w v ≡ false → w.version_no ≤ v.version_no
    numbers w h = ground arith

newest_best :
    (vs : List Version) (v : Version)
    → All (λ w. is_published w ≡ false) vs
    → first (sort newer vs) ≡ some v
    → IsDefault vs v
newest_best vs v n e =
    let (i, h) = first_sorted newer newer-IsOrder vs v e in (i, inr (n, All-map _ _ numbers vs h))
  where
    numbers :
        (w : Version)
        → newer w v ≡ false
        → (w.version_no ≤ v.version_no) × (w.version_no ≡ v.version_no → w.id ≤ v.id)
    numbers w h = ground arith

-- The version whose id `prefer` is the text of.
abbrev pub IsExact : Option (List ℕ) → Version → Type 0
IsExact none v = ⊥
IsExact (some p) v = decimal v.id ≡ p

exact-IsExact :
    (prefer : Option (List ℕ)) (vs : List Version) {v : Version}
    → exact prefer vs ≡ some v
    → In v vs × IsExact prefer v
unfolding exact
exact-IsExact none vs {v} e = cc
exact-IsExact (some p) vs {v} e = elim (Bool-cases (is_empty p)) [
  | inl empty ↦ let h : none ≡ some v = rw empty at e in cc
  | inr filled ↦ found (rw filled at e)
]
  where
    found : find (λ w. decimal w.id === p) vs ≡ some v → In v vs × (decimal v.id ≡ p)
    found h = (find-In _ vs h, (text_eq_iff _ _).0 (find_holds (λ w. decimal w.id === p) vs h))

exact-none :
    (prefer : Option (List ℕ)) (vs : List Version)
    → exact prefer vs ≡ none
    → All (λ w. ¬ IsExact prefer w) vs
unfolding exact
exact-none none vs e = All-of_In _ vs (λ w i h. h)
exact-none (some p) vs e = elim (Bool-cases (is_empty p)) [
  | inl empty ↦
      All-of_In _ vs (λ w i h.
        let filled : is_empty p ≡ false = ap is_empty (sym h) ∙ is_empty-decimal w.id in cc)
  | inr filled ↦ All-map _ _ other vs (find-none (λ w. decimal w.id === p) vs (rw filled at e))
]
  where
    other : (w : Version) → (decimal w.id === p) ≡ false → ¬ (decimal w.id ≡ p)
    other w h same = let true_too = (text_eq_iff (decimal w.id) p).1 same in cc

-- A project with versions always shows one of them: the one whose id the text `prefer` is, and
-- only where no version has such an id a published one of the highest number, or, only if none is
-- published, the newest of all.
pub choose_plan-total :
    (x : Version) (xs : List Version) (prefer : Option (List ℕ))
    → (v : Version) × (choose_plan (x ∷ xs) prefer ≡ some v)
      × ((In v (x ∷ xs) × IsExact prefer v)
          ⊎ (All (λ w. ¬ IsExact prefer w) (x ∷ xs) × IsDefault (x ∷ xs) v))
unfolding choose_plan
choose_plan-total x xs prefer = elim (Option-cases (exact prefer (x ∷ xs))) [
  | inr (v, e) ↦ (v, rw (e, or_first) refl, inl (exact-IsExact prefer (x ∷ xs) e))
  | inl e ↦ elim (Option-cases (first (sort newer_number (keep is_published (x ∷ xs))))) [
    | inr (v, p) ↦ (
      v,
      rw (e, or_first) (rw (p, or_first) refl),
      inr (exact-none prefer (x ∷ xs) e, published_best (x ∷ xs) v p),
    )
    | inl p ↦ elim (Option-cases (first (sort newer (x ∷ xs)))) [
      | inr (v, n) ↦ (
        v,
        rw (e, or_first) (rw (p, or_first) n),
        inr (
          exact-none prefer (x ∷ xs) e,
          newest_best (x ∷ xs) v
              (keep-nil is_published (x ∷ xs) (first_sorted_none newer_number _ p)) n,
        ),
      )
      | inl n ↦ let h = first_sorted_none newer (x ∷ xs) n in cc
    ]
  ]
]
