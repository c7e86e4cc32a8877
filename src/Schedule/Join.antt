-- ===== src/Schedule/Join.antt =====
-- client/src/lib/useProjectSchedule.js: the rows of a project, joined from the access file, the
-- occupancy file, the instance's detail and the assignments.
pub mod Scans
use chocobofix.Prelude.{
  ℕ, Bool, true, false, Option, none, some, List, [], ◌∷◌, ◌++◌, map, if◌then◌else◌, number_eq,
}
use chocobofix.Prelude.JsMap
use chocobofix.Prelude.JsMap.{get}
use chocobofix.Prelude.Decimal.{decimal}
use chocobofix.Prelude.Text.{units, Text-eq, text_eq, is_empty}
use chocobofix.Csv.Plain.{parse_csv, column}
use chocobofix.Schedule.{Coordinator, Contract, Row, or_empty, ensure}

-- An activity of the detail.
pub record Activity : Type 0 where
  pub id : List ℕ
  pub contract : List ℕ
  pub priority : Option ℕ
  pub origin : List ℕ
  pub destination : List ℕ

pub record Detail : Type 0 where
  pub activities : List Activity
  pub contracts : List Contract
  pub horizon_start : Option (List ℕ)

pub record Assignment : Type 0 where
  pub activity_id : List ℕ
  pub assigned : Coordinator

-- A record of a file: its columns by name.
abbrev pub Line : Type 0
Line = List (List ℕ × Option (List ℕ))

-- `new Map(list.map(a => [key, a]))`: a later entry replaces an earlier one of its key.
module _ {A V : Type 0} (key_of : A → List ℕ) (value_of : A → V) where
  pub map_from : List (List ℕ × V) → List A → List (List ℕ × V)
  map_from m [] = m
  map_from m (a ∷ xs) = map_from (JsMap.set (key_of a) (value_of a) m) xs

-- `map.get(key)`, with an undefined key.
module _ {V : Type 0} where
  abbrev pub look_up : Option (List ℕ) → List (List ℕ × V) → Option V
  look_up none m = none
  look_up (some k) m = get k m

  abbrev pub field_of : (Activity → V) → V → Option Activity → V
  field_of f missing none = missing
  field_of f missing (some a) = f a

-- An undefined value in a template.
abbrev pub text_of : Option (List ℕ) → List ℕ
text_of none = units "undefined"
text_of (some s) = s

-- `activity_id + ':' + week`.
abbrev pub week_key : Line → List ℕ
week_key o = text_of (column (units "activity_id") o) ++ 58 ∷ text_of (column (units "week") o)

abbrev pub location_of : Line → Option (List ℕ)
location_of o = column (units "location_id") o

abbrev pub add_location :
    Line → List (List ℕ × List (Option (List ℕ))) → List (List ℕ × List (Option (List ℕ)))
add_location o m =
    let ensured = ensure (week_key o) m in
    JsMap.set (week_key o) (or_empty (get (week_key o) ensured) ++ location_of o ∷ []) ensured

-- `locByKey`.
pub locations_by_key :
    List (List ℕ × List (Option (List ℕ))) → List Line → List (List ℕ × List (Option (List ℕ)))
locations_by_key m [] = m
locations_by_key m (o ∷ os) = locations_by_key (add_location o m) os

-- `parseCsv(occupancy.data)`, where the file has come.
abbrev pub occupancy_lines : Option (List ℕ) → List Line
occupancy_lines none = []
occupancy_lines (some text) = if is_empty text then [] else parse_csv text

abbrev pub contract_of : Option Activity → Option (List ℕ)
contract_of none = none
contract_of (some a) = some a.contract

-- `a?.from || locs[0] || ''`.
abbrev pub location_in : List ℕ → List (Option (List ℕ)) → List ℕ
location_in [] [] = []
location_in [] (l ∷ locs) = or_empty l
location_in (c ∷ s) locs = c ∷ s

abbrev pub is_one : Option (List ℕ) → Bool
is_one none = false
is_one (some s) = text_eq s (units "1")

-- `Number(text)` is the language's; `Number(undefined)` is NaN.
module _ (number : List ℕ → Option ℕ) where
  abbrev pub number_of : Option (List ℕ) → Option ℕ
  number_of none = none
  number_of (some s) = number s

  abbrev pub row_of :
      ℕ
      → List ℕ
      → Detail
      → Option Contract
      → Option Activity
      → List (Option (List ℕ))
      → Option Coordinator
      → Line
      → Row
  row_of project_id project_name detail contract_info a locs coordinator r = record {
    key =
        decimal project_id
        ++ 58
          ∷ (text_of (column (units "activity_id") r)
              ++ 58
                ∷ (text_of (column (units "week") r)
                    ++ 58 ∷ text_of (column (units "access_seq") r)));
    project_id = project_id;
    project_name = project_name;
    horizon_start = detail.horizon_start;
    activity_id = column (units "activity_id") r;
    week = number_of (column (units "week") r);
    access_seq = number_of (column (units "access_seq") r);
    eclo = is_one (column (units "eclo") r);
    access_night = number_of (column (units "access_night") r);
    contract = field_of (λ b. b.contract) [] a;
    contract_info = contract_info;
    priority = field_of (λ b. b.priority) none a;
    origin = field_of (λ b. b.origin) [] a;
    destination = field_of (λ b. b.destination) [] a;
    location = location_in (field_of (λ b. b.origin) [] a) locs;
    all_locations = locs;
    coordinator = coordinator;
  }

  -- The maps of the `useMemo`, and the row of a line of the access file.
  abbrev pub joined : ℕ → List ℕ → Option (List ℕ) → Detail → List Assignment → Line → Row
  joined project_id project_name occupancy detail assignments r =
      let id = column (units "activity_id") r in
      let acts = map_from (λ a. a.id) (λ a. a) [] detail.activities in
      let contracts = map_from (λ c. c.number) (λ c. c) [] detail.contracts in
      let coord = map_from (λ a. a.activity_id) (λ a. a.assigned) [] assignments in
      let locs = locations_by_key [] (occupancy_lines occupancy) in
      row_of project_id project_name detail (look_up (contract_of (look_up id acts)) contracts)
        (look_up id acts) (or_empty (get (week_key r) locs)) (look_up id coord) r

  -- `rows`, once the access file and the detail have come.
  pub schedule_rows : ℕ → List ℕ → List ℕ → Option (List ℕ) → Detail → List Assignment → List Row
  unfolding map_from locations_by_key
  schedule_rows project_id project_name access occupancy detail assignments =
      map (joined project_id project_name occupancy detail assignments) (parse_csv access)
