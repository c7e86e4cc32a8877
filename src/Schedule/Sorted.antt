-- ===== src/Schedule/Sorted.antt =====
-- `sortRows` of client/src/lib/scheduleModel.js.
pub mod Weeks
mod Tests
use chocobofix.Prelude.{
  ℕ, Bool, true, false, ◌&&◌, Option, none, some, List, [], ltb, if◌then◌else◌,
}
use chocobofix.Prelude.Decimal.{decimal}
use chocobofix.Prelude.Sort.{sort}
use chocobofix.Prelude.Text.{units}
use chocobofix.Schedule.Activities.{Named}

-- The sign of what a comparison returns.
pub data Order : Type 0 where
  less same greater : Order

-- The columns that the view sorts by.
pub data Field : Type 0 where
  week activity_id priority : Field

pub data Direction : Type 0 where
  ascending descending : Direction

-- `a[field] ?? ''`; a number that is `none` is NaN.
pub data Cell : Type 0 where
  number : Option ℕ → Cell
  text : List ℕ → Cell

-- A week is a number, NaN at worst; a priority may be undefined.
abbrev pub cell : Field → Named → Cell
cell week r = number r.row.week
cell activity_id r = text r.id
cell priority r = elim r.row.priority [ some p ↦ number (some p) | none ↦ text [] ]

-- `x - y`. NaN is falsy, so that the second comparison decides, as if the numbers were the same.
abbrev pub difference : Option ℕ → Option ℕ → Order
difference (some x) (some y) = if ltb x y then less else if ltb y x then greater else same
difference _ _ = same

-- `String(x)`.
abbrev pub number_text : Option ℕ → List ℕ
number_text none = units "NaN"
number_text (some n) = decimal n

abbrev pub cell_text : Cell → List ℕ
cell_text (number n) = number_text n
cell_text (text s) = s

abbrev pub negated : Order → Order
negated less = greater
negated same = same
negated greater = less

abbrev pub turned : Direction → Order → Order
turned ascending o = o
turned descending o = negated o

-- `first || second`.
abbrev pub or_next : Order → Order → Order
or_next same next = next
or_next o next = o

abbrev pub is_less : Order → Bool
is_less less = true
is_less _ = false

-- `numeric` is `localeCompare` with numeric collation, `plain` the one without.
module _ (numeric plain : List ℕ → List ℕ → Order) where
  abbrev pub compare_cells : Cell → Cell → Order
  compare_cells (number x) (number y) = difference x y
  compare_cells x y = numeric (cell_text x) (cell_text y)

  abbrev pub compare_rows : Field → Direction → Named → Named → Order
  compare_rows field direction a b =
      or_next (turned direction (compare_cells (cell field a) (cell field b))) (plain a.id b.id)

  pub sort_rows : List Named → Field → Direction → List Named
  sort_rows rows field direction = sort (λ a b. is_less (compare_rows field direction a b)) rows
