-- ===== src/Csv/Plain.antt =====
-- The readers without quotes, `parseCsv` of client/src/lib/useProjectSchedule.js and of
-- client/src/components/ScheduleView.jsx, which differ in one guard: `split` gives a line in any
-- case, so that `lines.length` is never zero.
pub mod Lines
mod Tests
use chocobofix.Prelude.{
  ℕ, Bool, true, false, not, ◌&&◌, Option, none, some, List, [], ◌∷◌, map, eqb, keep, if◌then◌else◌,
}
use chocobofix.Prelude.JsMap
use chocobofix.Prelude.Text.{trim, is_empty, Text-eq}

abbrev pub onto_first : ℕ → List (List ℕ) → List (List ℕ)
onto_first c [] = (c ∷ []) ∷ []
onto_first c (s ∷ ss) = (c ∷ s) ∷ ss

-- `split(',')`.
pub fields : List ℕ → List (List ℕ)
fields [] = [] ∷ []
fields (c ∷ s) = let rest = fields s in if eqb c 44 then [] ∷ rest else onto_first c rest

abbrev pub starts_line : List ℕ → Bool
starts_line [] = false
starts_line (c ∷ s) = eqb c 10

-- `split(/\r?\n/)`: a carriage return belongs to the line feed behind it.
pub lines : List ℕ → List (List ℕ)
lines [] = [] ∷ []
lines (c ∷ s) =
    let rest = lines s in
    if eqb c 10 then [] ∷ rest else if eqb c 13 && starts_line s then rest else onto_first c rest

-- `head.forEach((h, i) => { o[h] = c[i]; })`, where a cell that is missing is undefined.
pub cells :
    List (List ℕ)
    → List (List ℕ)
    → List (List ℕ × Option (List ℕ))
    → List (List ℕ × Option (List ℕ))
cells [] c o = o
cells (h ∷ hs) [] o = cells hs [] (JsMap.set h none o)
cells (h ∷ hs) (x ∷ c) o = cells hs c (JsMap.set h (some x) o)

-- The first line is the head; empty lines behind it are dropped.
pub records : List (List ℕ) → List (List (List ℕ × Option (List ℕ)))
unfolding fields cells
records [] = []
records (head ∷ rest) =
    map (λ l. cells (fields head) (fields l) []) (keep (λ l. not (is_empty l)) rest)

pub parse_csv : List ℕ → List (List (List ℕ × Option (List ℕ)))
unfolding lines records
parse_csv text = records (lines (trim text))

-- `r[name]`.
abbrev pub column : List ℕ → List (List ℕ × Option (List ℕ)) → Option (List ℕ)
column name r = elim (JsMap.get name r) [ some cell ↦ cell | none ↦ none ]
