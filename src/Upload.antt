-- ===== src/Upload.antt =====
-- The eight files of a project: client/src/lib/instanceFiles.js, the guards of `upload` in
-- client/src/routes/ProjectUpload.jsx, and the wizard's `add` in web/app.js.
pub mod Placement
pub mod Conservation
pub mod Submission
pub mod Wizard
mod Tests
use chocobofix.Prelude.{
  ℕ, ◌+◌, ◌*◌, Bool, true, false, not, ◌&&◌, ◌||◌, Option, none, some, List, [], ◌∷◌, ◌++◌, map,
  ltb, leb, eqb, find, keep, is_some, if◌then◌else◌,
}
use chocobofix.Prelude.JsMap.{get, set, has}
use chocobofix.Prelude.Text.{units, Text-eq, text_eq, starts_with, is_empty}

abbrev pub instance_files : List (List ℕ)
instance_files = map units (
    "01_LINES.csv" ∷ "02_STATIONS.csv" ∷ "03_SECTORS.csv" ∷ "04_LOCATION_SUPPLY.csv"
    ∷ "05_BUFFER_LOCATION.csv" ∷ "06_PARAMETERS.csv" ∷ "07_PROJECT_DETAILS.csv"
    ∷ "08_ACTIVITY_DETAILS.csv" ∷ [])

pub record File : Type 0 where
  pub name : List ℕ
  pub size : ℕ

abbrev pub is_digit : ℕ → Bool
is_digit c = leb 48 c && leb c 57

-- `/^(\d{2})[_ ]/`: the two digits, where the name matches.
pub leading : List ℕ → Option (List ℕ)
leading (a ∷ b ∷ c ∷ rest) =
    if is_digit a && is_digit b && (eqb c 95 || eqb c 32) then some (a ∷ b ∷ []) else none
leading _ = none

-- The map of the eight names, `null` being `none`.
abbrev pub Slots : Type 0
Slots = List (List ℕ × Option File)

abbrev pub or_null : Option (Option File) → Option File
or_null none = none
or_null (some f) = f

abbrev pub held : List ℕ → Slots → Option File
held k slots = or_null (get k slots)

abbrev pub numbered : Option (List ℕ) → Option (List ℕ)
numbered none = none
numbered (some number) = find (λ n. starts_with n (number ++ 95 ∷ [])) instance_files

abbrev pub slot_of : List ℕ → Option (List ℕ)
slot_of name = numbered (leading name)

abbrev pub unless_held : Option (List ℕ) → Slots → Option (List ℕ)
unless_held none slots = none
unless_held (some slot) slots = if is_some (held slot slots) then none else some slot

abbrev pub is_vacant : List ℕ → Slots → Bool
is_vacant name slots = has name slots && not (is_some (held name slots))

-- Where the loop puts a file: its own name's slot, else its number's.
pub target : List ℕ → Slots → Option (List ℕ)
unfolding leading
target name slots = if is_vacant name slots then some name else unless_held (slot_of name) slots

abbrev pub place_at : Option (List ℕ) → File → Slots → List (List ℕ) → Slots × List (List ℕ)
place_at (some slot) f slots extra = (set slot (some f) slots, extra)
place_at none f slots extra = (slots, extra ++ f.name ∷ [])

pub place_all : List File → Slots → List (List ℕ) → Slots × List (List ℕ)
unfolding target
place_all [] slots extra = (slots, extra)
place_all (f ∷ files) slots extra =
    let next = place_at (target f.name slots) f slots extra in place_all files next.0 next.1

pub record Report : Type 0 where
  pub matched : Slots
  pub extra : List (List ℕ)
  pub missing : List (List ℕ)

abbrev pub no_files : Slots
no_files = map (λ n. (n, none)) instance_files

pub match_files : List File → Report
unfolding place_all
match_files files =
    let (matched, extra) = place_all files no_files [] in
    record {
      matched = matched;
      extra = extra;
      missing = keep (λ n. not (is_some (held n matched))) instance_files;
    }

-- What `upload` does at once. Reading a `null` file throws.
pub data Outcome : Type 0 where
  ignored : Outcome
  too_large : Outcome
  thrown : Outcome
  sent : (form : List (List ℕ × File)) → Outcome

abbrev pub then_cons {ℓ} : {A : Type ℓ} → A → Option (List A) → Option (List A)
then_cons x none = none
then_cons x (some xs) = some (x ∷ xs)

pub parts : Slots → Option (List (List ℕ × File))
parts [] = some []
parts ((n, none) ∷ slots) = none
parts ((n, some f) ∷ slots) = then_cons (n, f) (parts slots)

abbrev pub total_size : List (List ℕ × File) → ℕ
total_size [] = 0
total_size ((n, f) ∷ form) = f.size + total_size form

abbrev pub max_size : ℕ
max_size = 31 * 1024 * 1024

abbrev pub send : Option (List (List ℕ × File)) → Outcome
send none = thrown
send (some form) = if ltb max_size (total_size form) then too_large else sent form

-- `in_flight` is the reference that an earlier sending has set.
pub upload : Option Report → Bool → Outcome
unfolding parts
upload none in_flight = ignored
upload (some report) in_flight =
    if not (is_empty report.missing) || in_flight then ignored else send (parts report.matched)

-- web/app.js, the wizard's `add`: the files picked by name, and how many it ignored.
pub listed : List ℕ → Bool
listed name = is_some (find (λ n. text_eq n name) instance_files)

pub add : List File → List (List ℕ × File) → List (List ℕ × File) × ℕ
add [] picked = (picked, 0)
add (f ∷ list) picked =
    let rest = add list (if listed f.name then set f.name f picked else picked) in
    if listed f.name then rest else (rest.0, rest.1 + 1)
