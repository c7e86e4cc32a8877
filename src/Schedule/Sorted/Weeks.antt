-- ===== src/Schedule/Sorted/Weeks.antt =====
-- The list in the order of the weeks.
use mathlib.Core.List.{Perm}
use chocobofix.Prelude.{
  ℕ, ◌<◌, ◌≡◌, refl, sym, ap, subst, ◌∙◌, ◌⊎◌, Bool, true, false, Option, none, some, List, [], ◌∷◌,
  arith, All, All-map,
}
use chocobofix.Prelude.Sort.{insert, sort, sort-perm, sort-All, IsOrder, IsSorted, sort-IsSorted}
use chocobofix.Schedule.Activities.{Named}
use chocobofix.Schedule.Sorted.{
  Order, week, Direction, ascending, descending, difference, turned, or_next, is_less, compare_rows,
  sort_rows,
}

module _ {A : Type 0} (before also : A → A → Bool) (P : A → Type 0)
    (agree : (a b : A) → P a → P b → before a b ≡ also a b) where
  insert_agree : (x : A) (ys : List A) → P x → All P ys → insert before x ys ≡ insert also x ys
  unfolding insert
  insert_agree x [] p h = refl
  insert_agree x (y ∷ ys) p h = rw (agree y x h.0 p) (rw (insert_agree x ys p h.1) refl)

  sort_agree : (xs : List A) → All P xs → sort before xs ≡ sort also xs
  unfolding sort
  sort_agree [] h = refl
  sort_agree (x ∷ xs) h =
      insert_agree x (sort before xs) h.0 (sort-All before P xs h.1)
      ∙ ap (insert also x) (sort_agree xs h.1)

-- The week is a number.
abbrev pub HasWeek : Named → Type 0
HasWeek r = (w : ℕ) × (r.row.week ≡ some w)

abbrev pub week_number : Option ℕ → ℕ
week_number none = 0
week_number (some w) = w

-- The order of two rows with weeks.
abbrev week_order : (plain : List ℕ → List ℕ → Order) → Direction → Named → Named → Order
week_order plain d a b =
    or_next (turned d (difference (some (week_number a.row.week)) (some (week_number b.row.week))))
      (plain a.id b.id)

module _ (plain : List ℕ → List ℕ → Order) (o : IsOrder (λ s t. is_less (plain s t))) where
  week_order-IsOrder : (d : Direction) → IsOrder (λ a b. is_less (week_order plain d a b))
  week_order-IsOrder d = record {
    asym = λ a b.
        asym_at d (week_number a.row.week) (week_number b.row.week) (plain a.id b.id)
          (plain b.id a.id) (o.asym a.id b.id);
    later_trans = λ a b c.
        trans_at d (week_number a.row.week) (week_number b.row.week) (week_number c.row.week)
          (plain a.id b.id) (plain b.id c.id) (plain a.id c.id) (o.later_trans a.id b.id c.id);
  }
    where
      asym_at :
          (d : Direction) (x y : ℕ) (p q : Order)
          → (is_less p ≡ true → is_less q ≡ false)
          → is_less (or_next (turned d (difference (some x) (some y))) p) ≡ true
          → is_less (or_next (turned d (difference (some y) (some x))) q) ≡ false
      asym_at ascending x y p q h e = ground arith
      asym_at descending x y p q h e = ground arith

      trans_at :
          (d : Direction) (x y z : ℕ) (p q r : Order)
          → (is_less p ≡ false → is_less q ≡ false → is_less r ≡ false)
          → is_less (or_next (turned d (difference (some x) (some y))) p) ≡ false
          → is_less (or_next (turned d (difference (some y) (some z))) q) ≡ false
          → is_less (or_next (turned d (difference (some x) (some z))) r) ≡ false
      trans_at ascending x y z p q r h e f = ground arith
      trans_at descending x y z p q r h e f = ground arith

-- The earlier week comes first, or in the descending order the later one.
abbrev pub Leads : Direction → ℕ → ℕ → Type 0
Leads ascending x y = x < y
Leads descending x y = y < x

module _ (plain : List ℕ → List ℕ → Order) (d : Direction) where
  -- Two rows, the first of which may stand before the second.
  abbrev pub InOrder : Named → Named → Type 0
  InOrder a b =
      Leads d (week_number a.row.week) (week_number b.row.week)
      ⊎ ((week_number a.row.week ≡ week_number b.row.week) × (is_less (plain b.id a.id) ≡ false))

  abbrev pub AreInOrder : List Named → Type 0
  AreInOrder [] = Unit
  AreInOrder (a ∷ rows) = All (InOrder a) rows × AreInOrder rows

difference-Leads :
    (d : Direction) (x y : ℕ) (q : Order)
    → is_less (or_next (turned d (difference (some y) (some x))) q) ≡ false
    → Leads d x y ⊎ ((x ≡ y) × (is_less q ≡ false))
difference-Leads ascending x y q h = ground arith
difference-Leads descending x y q h = ground arith

IsSorted-AreInOrder :
    (plain : List ℕ → List ℕ → Order) (d : Direction) (rows : List Named)
    → IsSorted (λ a b. is_less (week_order plain d a b)) rows
    → AreInOrder plain d rows
IsSorted-AreInOrder plain d [] h = tt
IsSorted-AreInOrder plain d (a ∷ rows) h = (
  All-map _ _
      (λ b k.
        difference-Leads d (week_number a.row.week) (week_number b.row.week) (plain b.id a.id) k)
      rows h.0,
  IsSorted-AreInOrder plain d rows h.1,
)

-- The columns decide alike once both weeks are numbers.
compare_weeks :
    (numeric plain : List ℕ → List ℕ → Order) (d : Direction) (a b : Named)
    → HasWeek a
    → HasWeek b
    → is_less (compare_rows numeric plain week d a b) ≡ is_less (week_order plain d a b)
compare_weeks numeric plain d a b (v, at_a) (w, at_b) = rw at_a (rw at_b refl)

-- When every row's week is a number and the comparison of two ids is an order, the list sorted by week
-- has the rows that were there, each as often; an earlier week stands first, a later one when the
-- direction is descending, and within a week the ids ascend in both directions.
pub sort_rows-AreInOrder :
    (numeric plain : List ℕ → List ℕ → Order) (d : Direction) (rows : List Named)
    → IsOrder (λ s t. is_less (plain s t))
    → All HasWeek rows
    → Perm (sort_rows numeric plain rows week d) rows
      × AreInOrder plain d (sort_rows numeric plain rows week d)
unfolding sort_rows
sort_rows-AreInOrder numeric plain d rows o weeks = (
  sort-perm (λ a b. is_less (compare_rows numeric plain week d a b)) rows,
  subst (AreInOrder plain d)
      (sym (sort_agree _ _ HasWeek (compare_weeks numeric plain d) rows weeks))
      (IsSorted-AreInOrder plain d _ (
        sort-IsSorted (λ a b. is_less (week_order plain d a b)) (week_order-IsOrder plain o d)
          rows)),
)
