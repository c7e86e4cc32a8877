-- ===== src/Schedule/Activities.antt =====
-- client/src/lib/scheduleModel.js: the rows by activity and, of an activity, by week.
pub mod Whole
use chocobofix.Prelude.{
  ℕ, ◌≡◌, ◌↔◌, refl, Bool, true, false, Option, none, some, List, [], ◌∷◌, ◌++◌, arith, eqb,
  StrictEq, if◌then◌else◌, number_eq,
}
use chocobofix.Prelude.JsMap.{get, set, has}
use chocobofix.Prelude.Decimal.{decimal}
use chocobofix.Prelude.Sort.{sort}
use chocobofix.Prelude.Text.{Text-eq}
use chocobofix.Schedule.{Row, push}

-- A row with an id. Of an id that is undefined the comparisons of both functions throw.
pub record Named : Type 0 where
  pub row : Row
  pub id : List ℕ
  pub named : row.activity_id ≡ some id

pub record Activity : Type 0 where
  pub key : List ℕ
  pub first : Named
  pub by_week : List (Option ℕ × List Named)

-- The keys of the inner map: a week that is NaN is a key as any other.
abbrev pub week_same : Option ℕ → Option ℕ → Bool
week_same none none = true
week_same (some a) (some b) = eqb a b
week_same _ _ = false

pub week_same_iff : (a b : Option ℕ) → (week_same a b ≡ true) ↔ (a ≡ b)
week_same_iff none none = (λ h. refl, λ h. refl)
week_same_iff none (some b) = (λ h. cc, λ h. cc)
week_same_iff (some a) none = (λ h. cc, λ h. cc)
week_same_iff (some a) (some b) = (λ h. ground arith, λ h. ground arith)

instance abbrev pub week_eq : StrictEq (Option ℕ)
week_eq = record { same = week_same; same_iff = week_same_iff }

abbrev pub key_of : Named → List ℕ
key_of r = decimal r.row.project_id ++ 58 ∷ r.id

abbrev pub week_of : Named → Option ℕ
week_of r = r.row.week

abbrev pub new_activity : Named → Activity
new_activity r = record { key = key_of r; first = r; by_week = [] }

abbrev pub ensure_activity : Named → List (List ℕ × Activity) → List (List ℕ × Activity)
ensure_activity r groups =
    if has (key_of r) groups then groups else set (key_of r) (new_activity r) groups

abbrev pub add_slot : Named → Activity → Activity
add_slot r item = record item { by_week = push week_of r item.by_week }

-- The item that is there is changed in place.
abbrev pub update :
    List ℕ → Option Activity → Named → List (List ℕ × Activity) → List (List ℕ × Activity)
update k none r groups = groups
update k (some item) r groups = set k (add_slot r item) groups

abbrev pub push_row : Named → List (List ℕ × Activity) → List (List ℕ × Activity)
push_row r groups =
    let ensured = ensure_activity r groups in update (key_of r) (get (key_of r) ensured) r ensured

pub activities_from : List (List ℕ × Activity) → List Named → List (List ℕ × Activity)
activities_from groups [] = groups
activities_from groups (r ∷ rows) = activities_from (push_row r groups) rows

abbrev pub values : List (List ℕ × Activity) → List Activity
values [] = []
values ((k, a) ∷ m) = a ∷ values m

-- `before` is where `localeCompare` with numeric collation is negative.
module _ (before : List ℕ → List ℕ → Bool) where
  pub activity_rows : List Named → List Activity
  unfolding activities_from
  activity_rows rows = sort (λ a b. before a.first.id b.first.id) (values (activities_from [] rows))
