-- ===== src/Schedule.antt =====
-- The rows of the schedule view: client/src/lib/scheduleModel.js.
pub mod Activities
pub mod Filter
pub mod Groups
pub mod Join
pub mod Sorted
mod Tests
use chocobofix.Prelude.{
  ℕ, zero, ◌≡◌, Bool, true, false, not, ◌&&◌, ◌||◌, Option, none, some, List, [], ◌∷◌, ◌++◌, eqb,
  keep, any, if◌then◌else◌, StrictEq,
}
use chocobofix.Prelude.JsMap.{get, set, has}
use chocobofix.Prelude.Sort.{sort}
use chocobofix.Prelude.Decimal.{decimal}
use chocobofix.Prelude.Text.{units, Text-eq, text_eq, is_empty, trim, starts_with, includes}

-- An assignment; `null` is `none`.
pub record Coordinator : Type 0 where
  pub coordinator_id : Option ℕ
  pub coordinator : Option (List ℕ)

-- A contract of the instance's detail.
pub record Contract : Type 0 where
  pub number : List ℕ
  pub planned_week : Option ℕ

-- A row of the schedule. A cell that is undefined and a number that is NaN are `none`.
pub record Row : Type 0 where
  pub key : List ℕ
  pub project_id : ℕ
  pub project_name : List ℕ
  pub horizon_start : Option (List ℕ)
  pub activity_id : Option (List ℕ)
  pub week : Option ℕ
  pub access_seq : Option ℕ
  pub eclo : Bool
  pub access_night : Option ℕ
  pub contract : List ℕ
  pub contract_info : Option Contract
  pub priority : Option ℕ
  pub origin : List ℕ
  pub destination : List ℕ
  pub location : List ℕ
  pub all_locations : List (Option (List ℕ))
  pub coordinator : Option Coordinator

pub record Filters : Type 0 where
  pub query : List ℕ
  pub person : List ℕ
  pub week : List ℕ
  pub access : List ℕ
  pub priority : List ℕ
  pub me_id : Option ℕ

-- `!r.coordinator?.coordinator_id`: zero is falsy.
abbrev pub is_unassigned : Option Coordinator → Bool
is_unassigned none = true
is_unassigned (some c) = elim c.coordinator_id [ some n ↦ eqb n 0 | none ↦ true ]

-- `String(r.coordinator?.coordinator_id)`.
abbrev pub owner_text : Option Coordinator → List ℕ
owner_text none = units "undefined"
owner_text (some c) = elim c.coordinator_id [ some n ↦ decimal n | none ↦ units "null" ]

abbrev pub me_text : Option ℕ → List ℕ
me_text none = units "undefined"
me_text (some n) = decimal n

abbrev pub coordinator_name : Option Coordinator → List ℕ
coordinator_name none = []
coordinator_name (some c) = elim c.coordinator [ some name ↦ name | none ↦ [] ]

-- `===` of two numbers, `none` being NaN.
abbrev pub same_number : Option ℕ → Option ℕ → Bool
same_number (some a) (some b) = eqb a b
same_number _ _ = false

abbrev pub owner_of : Filters → List ℕ
owner_of f = if starts_with f.person (units "me:") then me_text f.me_id else f.person

abbrev pub is_owned : List ℕ → Row → Bool
is_owned owner r =
    is_empty owner
    || (if text_eq owner (units "unassigned")
        then is_unassigned r.coordinator
        else text_eq (owner_text r.coordinator) owner)

abbrev pub has_access : List ℕ → Row → Bool
has_access access r =
    is_empty access || (if text_eq access (units "eclo") then r.eclo else not r.eclo)

-- `v || ''`, and the empty list for a key that is new.
abbrev pub or_empty {ℓ} : {A : Type ℓ} → Option (List A) → List A
or_empty none = []
or_empty (some rs) = rs

-- `Number(text)` and `toLowerCase` are the language's.
module _ (number : List ℕ → Option ℕ) (lower : List ℕ → List ℕ) where
  abbrev pub is_found : List ℕ → Row → Bool
  is_found needle r =
      is_empty needle
      || any (λ v. includes (lower v) needle)
          (or_empty r.activity_id
            ∷ r.contract
            ∷ r.location
            ∷ r.origin
            ∷ r.destination
            ∷ coordinator_name r.coordinator
            ∷ [])

  abbrev pub passes_others : Filters → Row → Bool
  passes_others f r =
      (is_empty f.week || same_number r.week (number f.week))
      && has_access f.access r
      && (is_empty f.priority || same_number r.priority (number f.priority))
      && is_found (lower (trim f.query)) r

  abbrev pub passes : Filters → Row → Bool
  passes f r = is_owned (owner_of f) r && passes_others f r

  pub filter_rows : List Row → Filters → List Row
  filter_rows rows f = keep (passes f) rows

-- The loop that groups rows: a key that is new gets an empty list at the end of the map, and the
-- row is pushed on its key's list.
module _ {A K : Type 0} ⦃e : StrictEq K⦄ where
  abbrev pub ensure : K → List (K × List A) → List (K × List A)
  ensure k groups = if has k groups then groups else set k [] groups

module _ {A K : Type 0} ⦃e : StrictEq K⦄ (key_of : A → K) where
  abbrev pub push : A → List (K × List A) → List (K × List A)
  push r groups =
      let ensured = ensure (key_of r) groups in
      set (key_of r) (or_empty (get (key_of r) ensured) ++ r ∷ []) ensured

  pub group_from : List (K × List A) → List A → List (K × List A)
  group_from groups [] = groups
  group_from groups (r ∷ rows) = group_from (push r groups) rows

-- How the rows are grouped.
pub data GroupBy : Type 0 where
  person contract_number nothing : GroupBy

abbrev pub or_unassigned : List ℕ → List ℕ
or_unassigned name = if is_empty name then units "Unassigned" else name

abbrev pub label_of : GroupBy → Row → List ℕ
label_of person r = or_unassigned (coordinator_name r.coordinator)
label_of contract_number r = r.contract
label_of nothing r = units "all scheduled work"

-- `before` is where `localeCompare` with numeric collation is negative.
module _ (before : List ℕ → List ℕ → Bool) where
  pub group_rows : List Row → GroupBy → List (List ℕ × List Row)
  unfolding group_from
  group_rows rows by = sort (λ a b. before a.0 b.0) (group_from (label_of by) [] rows)
