-- ===== src/Schedule/Sorted/Tests.antt =====
-- Three accesses in the order of the weeks, and by activity.
use mathlib.Core.List.{Perm}
use chocobofix.Prelude.{
  ℕ, ◌≡◌, refl, String, false, none, some, List, [], ◌∷◌, arith, All, ltb, length, if◌then◌else◌,
}
use chocobofix.Prelude.Sort.{IsOrder, sort, insert}
use chocobofix.Prelude.Text.{units}
use chocobofix.Schedule.Activities.{Named, activity_rows}
use chocobofix.Schedule.Activities.Whole.{IsWhole, AreAll, activity_rows-IsWhole}
use chocobofix.Schedule.Sorted.{Order, less, same, greater, week, descending, is_less, sort_rows}
use chocobofix.Schedule.Sorted.Weeks.{AreInOrder, sort_rows-AreInOrder}

abbrev access_of : String → ℕ → Named
access_of id w = record {
  row = record {
    key = units id;
    project_id = 1;
    project_name = units "north";
    horizon_start = none;
    activity_id = some (units id);
    week = some w;
    access_seq = some 1;
    eclo = false;
    access_night = some 1;
    contract = units "C1";
    contract_info = none;
    priority = some 2;
    origin = units "A";
    destination = units "B";
    location = units "SEC:L1:A_B:UP";
    all_locations = [];
    coordinator = none;
  };
  id = units id;
  named = refl;
}

abbrev three_rows : List Named
three_rows = access_of "X10" 3 ∷ access_of "X1" 4 ∷ access_of "X1" 3 ∷ []

-- A comparison of the tests: the shorter text first.
abbrev by_length : List ℕ → List ℕ → Order
by_length s t =
    if ltb (length s) (length t) then less else if ltb (length t) (length s) then greater else same

by_length-IsOrder : IsOrder (λ s t. is_less (by_length s t))
by_length-IsOrder = record { asym = λ s t h. ground arith; later_trans = λ s t u h k. ground arith }

three_rows_sorted :
    sort_rows by_length by_length three_rows week descending
    ≡ access_of "X1" 4 ∷ access_of "X1" 3 ∷ access_of "X10" 3 ∷ []
unfolding sort_rows sort insert
three_rows_sorted = refl

sort_rows-AreInOrder_example :
    Perm (sort_rows by_length by_length three_rows week descending) three_rows
    × AreInOrder by_length descending (sort_rows by_length by_length three_rows week descending)
sort_rows-AreInOrder_example =
    sort_rows-AreInOrder by_length by_length descending three_rows by_length-IsOrder
      ((3, refl), ((4, refl), ((3, refl), tt)))

activity_rows-IsWhole_example :
    All (IsWhole three_rows) (activity_rows (λ s t. is_less (by_length s t)) three_rows)
    × AreAll three_rows (activity_rows (λ s t. is_less (by_length s t)) three_rows)
activity_rows-IsWhole_example = activity_rows-IsWhole (λ s t. is_less (by_length s t)) three_rows
