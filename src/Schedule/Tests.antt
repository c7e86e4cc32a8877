-- ===== src/Schedule/Tests.antt =====
-- Three accesses of two activities.
use mathlib.Core.List.{Perm}
use chocobofix.Prelude.{
  ℕ, ◌+◌, String, ◌≡◌, ◌↔◌, refl, Bool, true, false, ◌&&◌, if◌then◌else◌, Option, none, some, List,
  [], ◌∷◌, ◌++◌, map, leb, ltb, eqb, All, In,
}
use chocobofix.Prelude.Decimal.{value}
use chocobofix.Prelude.Text.{units, Text-eq, starts_with}
use chocobofix.Schedule.{Row, Coordinator, Filters, filter_rows, person, label_of, group_rows}
use chocobofix.Csv.Plain.{parse_csv}
use chocobofix.Schedule.Join.{Detail, Assignment, occupancy_lines, schedule_rows}
use chocobofix.Schedule.Join.Scans.{scanned, schedule_rows-scanned}
use chocobofix.Schedule.Filter.{assigned_to, everyone, filter_rows-mine}
use chocobofix.Schedule.Groups.{flat, IsGroup, group_rows-Perm, group_rows-IsGroup}

abbrev ada : Coordinator
ada = record { coordinator_id = some 12; coordinator = some (units "ada") }

abbrev access_of : String → ℕ → Option Coordinator → Row
access_of id week c = record {
  key = units id;
  project_id = 1;
  project_name = units "north";
  horizon_start = none;
  activity_id = some (units id);
  week = some week;
  access_seq = some 1;
  eclo = false;
  access_night = some 1;
  contract = units "C1";
  contract_info = none;
  priority = some 2;
  origin = units "A";
  destination = units "B";
  location = units "SEC:L1:A_B:UP";
  all_locations = [];
  coordinator = c;
}

abbrev three_rows : List Row
three_rows = access_of "X2" 3 (some ada) ∷ access_of "X1" 1 none ∷ access_of "X2" 4 (some ada) ∷ []

abbrev mine : Filters
mine = record {
  query = units " x";
  person = units "me:";
  week = [];
  access = units "standard";
  priority = units "2";
  me_id = some 12;
}

-- The instances of the language's functions: digits, ASCII letters, the order of code units.
abbrev read_number : List ℕ → Option ℕ
read_number s = some (value 0 s)

abbrev lower_ascii : List ℕ → List ℕ
lower_ascii s = map (λ c. if leb 65 c && leb c 90 then c + 32 else c) s

abbrev comes_before : List ℕ → List ℕ → Bool
comes_before s [] = false
comes_before [] (d ∷ t) = true
comes_before (c ∷ s) (d ∷ t) = if eqb c d then comes_before s t else ltb c d

says_me : starts_with (units "me:") (units "me:") ≡ true
unfolding starts_with
says_me = refl

filter_rows-mine_example :
    In (access_of "X2" 3 (some ada)) (filter_rows read_number lower_ascii three_rows mine) ↔ (
      (assigned_to (some ada) ≡ some 12)
      × In
          (access_of "X2" 3 (some ada))
          (filter_rows read_number lower_ascii three_rows (everyone mine)))
filter_rows-mine_example =
    filter_rows-mine read_number lower_ascii three_rows mine 12 (access_of "X2" 3 (some ada))
      says_me refl

group_rows-Perm_example : Perm (flat (group_rows comes_before three_rows person)) three_rows
group_rows-Perm_example = group_rows-Perm comes_before three_rows person

group_rows-IsGroup_example :
    All (IsGroup (label_of person) three_rows) (group_rows comes_before three_rows person)
group_rows-IsGroup_example = group_rows-IsGroup comes_before three_rows person

abbrev one_detail : Detail
one_detail = record {
  activities =
      record {
        id = units "X1";
        contract = units "C1";
        priority = some 2;
        origin = units "A";
        destination = units "B";
      }
      ∷ [];
  contracts = record { number = units "C1"; planned_week = some 9 } ∷ [];
  horizon_start = none;
}

abbrev access_file : List ℕ
access_file = units "activity_id,week" ++ 10 ∷ units "X1,3"

abbrev occupancy_file : List ℕ
occupancy_file =
    units "activity_id,week,location_id" ++ 10 ∷ units "X1,3,S1" ++ 10 ∷ units "X1,4,S2"

abbrev one_assignment : List Assignment
one_assignment = record { activity_id = units "X1"; assigned = ada } ∷ []

schedule_rows-scanned_example :
    schedule_rows read_number 1
      (units "north")
      access_file
      (some occupancy_file)
      one_detail
      one_assignment
    ≡ map
        (scanned read_number 1
          (units "north")
          (occupancy_lines (some occupancy_file))
          one_detail
          one_assignment)
        (parse_csv access_file)
schedule_rows-scanned_example =
    schedule_rows-scanned read_number 1 (units "north") access_file (some occupancy_file) one_detail
      one_assignment
