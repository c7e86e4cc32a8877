-- ===== src/Schedule/Join/Scans.antt =====
-- Each row of a project, described by scanning the lists for it.
use mathlib.Core.List.{append-nil, append_assoc}
use chocobofix.Prelude.{
  ℕ, ◌≡◌, refl, sym, ap, ◌∙◌, Bool, true, false, Option, none, some, List, [], ◌∷◌, ◌++◌, map, keep,
  if◌then◌else◌, ◌===◌,
}
use chocobofix.Prelude.JsMap.{get, set, get-set}
use chocobofix.Prelude.Text.{units, Text-eq}
use chocobofix.Csv.Plain.{parse_csv, column}
use chocobofix.Schedule.{Contract, Row, or_empty}
use chocobofix.Schedule.Groups.{get-append}
use chocobofix.Schedule.Join.{
  Activity, Detail, Assignment, Line, map_from, look_up, week_key, location_of, add_location,
  locations_by_key, occupancy_lines, contract_of, joined, row_of, schedule_rows,
}

module _ {A V : Type 0} (key_of : A → List ℕ) (value_of : A → V) where
  -- The value of the last entry of that key, or what there was before.
  pub last_or : Option V → Option (List ℕ) → List A → Option V
  last_or before k [] = before
  last_or before none (a ∷ xs) = last_or before none xs
  last_or before (some k) (a ∷ xs) =
      last_or (if key_of a === k then some (value_of a) else before) (some k) xs

  look_up-map_from :
      (k : Option (List ℕ)) (m : List (List ℕ × V)) (xs : List A)
      → look_up k (map_from key_of value_of m xs) ≡ last_or (look_up k m) k xs
  unfolding map_from last_or
  look_up-map_from k m [] = refl
  look_up-map_from none m (a ∷ xs) = look_up-map_from none (set (key_of a) (value_of a) m) xs
  look_up-map_from (some k) m (a ∷ xs) =
      look_up-map_from (some k) (set (key_of a) (value_of a) m) xs
      ∙ ap (λ o. last_or o (some k) xs) (get-set (key_of a) k (value_of a) m)

  look_up-map_from_nil :
      (k : Option (List ℕ)) (xs : List A)
      → look_up k (map_from key_of value_of [] xs) ≡ last_or none k xs
  unfolding get
  look_up-map_from_nil none xs = look_up-map_from none [] xs
  look_up-map_from_nil (some k) xs = look_up-map_from (some k) [] xs

-- The locations of the lines with that key, in order.
abbrev pub locations_at : List ℕ → List Line → List (Option (List ℕ))
locations_at k os = map location_of (keep (λ o. week_key o === k) os)

get-add_location :
    (k : List ℕ) (o : Line) (m : List (List ℕ × List (Option (List ℕ))))
    → or_empty (get k (add_location o m))
      ≡ (if week_key o === k then or_empty (get k m) ++ location_of o ∷ [] else or_empty (get k m))
get-add_location k o m =
    ap or_empty (get-append (week_key o) k (location_of o) m) ∙ under (week_key o === k)
  where
    under :
        (b : Bool)
        → or_empty (if b then some (or_empty (get k m) ++ location_of o ∷ []) else get k m)
          ≡ (if b then or_empty (get k m) ++ location_of o ∷ [] else or_empty (get k m))
    under true = refl
    under false = refl

locations_by_key-at :
    (k : List ℕ) (m : List (List ℕ × List (Option (List ℕ)))) (os : List Line)
    → or_empty (get k (locations_by_key m os)) ≡ or_empty (get k m) ++ locations_at k os
unfolding locations_by_key
locations_by_key-at k m [] = sym (append-nil (or_empty (get k m)))
locations_by_key-at k m (o ∷ os) =
    locations_by_key-at k (add_location o m) os
    ∙ ap (λ l. l ++ locations_at k os) (get-add_location k o m)
    ∙ split (week_key o === k)
  where
    split :
        (b : Bool)
        → (if b then or_empty (get k m) ++ location_of o ∷ [] else or_empty (get k m))
            ++ locations_at k os
          ≡ or_empty (get k m)
            ++ map location_of
                (if b then o ∷ keep (λ o. week_key o === k) os else keep (λ o. week_key o === k) os)
    split true = append_assoc (or_empty (get k m)) (location_of o ∷ []) (locations_at k os)
    split false = refl

locations_by_key-nil :
    (k : List ℕ) (os : List Line) → or_empty (get k (locations_by_key [] os)) ≡ locations_at k os
unfolding get
locations_by_key-nil k os = locations_by_key-at k [] os

-- The row of a line, each of its parts found by a scan of its own.
module _ (number : List ℕ → Option ℕ) (project_id : ℕ) (project_name : List ℕ)
    (occupancy : List Line) (detail : Detail) (assignments : List Assignment) where
  pub scanned : Line → Row
  unfolding last_or
  scanned r =
      let id = column (units "activity_id") r in
      let a = last_or (λ b. b.id) (λ b. b) none id detail.activities in
      row_of number project_id project_name detail
        (last_or (λ c. c.number) (λ c. c) none (contract_of a) detail.contracts) a
        (locations_at (week_key r) occupancy)
        (last_or (λ b. b.activity_id) (λ b. b.assigned) none id assignments) r

module _ (number : List ℕ → Option ℕ) (project_id : ℕ) (project_name : List ℕ)
    (occupancy : Option (List ℕ)) (detail : Detail) (assignments : List Assignment) where
  joined-scanned :
      (r : Line)
      → joined number project_id project_name occupancy detail assignments r
        ≡ scanned number project_id project_name (occupancy_lines occupancy) detail assignments r
  unfolding scanned
  joined-scanned r =
      let id = column (units "activity_id") r in
      rw
        (
          look_up-map_from_nil (λ (a : Activity). a.id) (λ a. a) id detail.activities,
          look_up-map_from_nil (λ (a : Assignment). a.activity_id) (λ a. a.assigned) id assignments,
          look_up-map_from_nil (λ (c : Contract). c.number) (λ c. c) _ detail.contracts,
          locations_by_key-nil (week_key r) (occupancy_lines occupancy),
        )
        refl

map_same :
    {A B : Type 0} (f g : A → B) → ((a : A) → f a ≡ g a) → (xs : List A) → map f xs ≡ map g xs
map_same f g h [] = refl
map_same f g h (x ∷ xs) = let rest = map_same f g h xs in rw (h x, rest) refl

module _ (number : List ℕ → Option ℕ) where
  -- The rows of a project are the lines of the access file, one for each and in order. A row's
  -- activity is the last one of the detail with the line's id, its contract the last one with the
  -- activity's number, its coordinator the last assignment of the id; its locations are those of all
  -- occupancy lines with the same activity and week, in order.
  pub schedule_rows-scanned :
      (project_id : ℕ) (project_name access : List ℕ) (occupancy : Option (List ℕ))
      (detail : Detail) (assignments : List Assignment)
      → schedule_rows number project_id project_name access occupancy detail assignments
        ≡ map
            (scanned number project_id project_name (occupancy_lines occupancy) detail assignments)
            (parse_csv access)
  unfolding schedule_rows
  schedule_rows-scanned project_id project_name access occupancy detail assignments =
      map_same _ _ (joined-scanned number project_id project_name occupancy detail assignments)
        (parse_csv access)
