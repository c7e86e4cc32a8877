-- ===== src/Csv/Quoted.antt =====
-- web/app.js: `parseCsv`, the loop over the text with its variables `rows`, `row`, `cur` and `q`.
pub mod RoundTrip
mod Tests
use chocobofix.Prelude.{
  ℕ, Bool, true, false, not, ◌||◌, Option, none, some, List, [], ◌∷◌, ◌++◌, map, reverse, eqb, any,
  if◌then◌else◌,
}
use chocobofix.Prelude.JsMap
use chocobofix.Prelude.Text.{trim, is_empty, Text-eq}

abbrev pub quote : ℕ
quote = 34

abbrev pub comma : ℕ
comma = 44

abbrev pub newline : ℕ
newline = 10

abbrev pub carriage_return : ℕ
carriage_return = 13

pub record Scanner : Type 0 where
  pub rows : List (List (List ℕ))
  pub row : List (List ℕ)
  pub cur : List ℕ
  pub q : Bool

-- `if (row.some(x => x !== '')) rows.push(row)`.
abbrev pub push_row : List (List ℕ) → List (List (List ℕ)) → List (List (List ℕ))
push_row row rows = if any (λ x. not (is_empty x)) row then rows ++ row ∷ [] else rows

abbrev pub put : ℕ → Scanner → Scanner
put c s = record s { cur = s.cur ++ c ∷ [] }

abbrev pub end_field : Scanner → Scanner
end_field s = record s { row = s.row ++ s.cur ∷ []; cur = [] }

abbrev pub end_row : Scanner → Scanner
end_row s = record { rows = push_row (s.row ++ s.cur ∷ []) s.rows; row = []; cur = []; q = s.q }

-- A character outside quotes.
pub plain : ℕ → Scanner → Scanner
plain c s =
    if eqb c quote
    then record s { q = true }
    else if eqb c comma
    then end_field s
    else if eqb c newline
    then end_row s
    else if eqb c carriage_return
    then s
    else put c s

-- Whether `text[i+1]` is a quote.
abbrev pub doubled : List ℕ → Bool
doubled [] = false
doubled (d ∷ cs) = eqb d quote

-- One round of the loop at `c` before `cs`, and whether it skips the next character (`i++`).
pub round : ℕ → List ℕ → Scanner → Scanner × Bool
unfolding plain
round c cs s =
    if s.q
    then if eqb c quote
      then if doubled cs then (put quote s, true) else (record s { q = false }, false)
      else (put c s, false)
    else (plain c s, false)

pub scan : List ℕ → Bool → Scanner → Scanner
scan [] skip s = s
scan (c ∷ cs) true s = scan cs false s
scan (c ∷ cs) false s = let (s', skip) = round c cs s in scan cs skip s'

abbrev pub fresh : Scanner
fresh = record { rows = []; row = []; cur = []; q = false }

-- The rows of the text, the last one pushed after the loop.
pub table : List ℕ → List (List (List ℕ))
unfolding scan round
table text = (end_row (scan text false fresh)).rows

-- `Object.fromEntries(head.map((h, i) => [h, (r[i] ?? '').trim()]))`.
pub entries : List (List ℕ) → List (List ℕ) → List (List ℕ × List ℕ) → List (List ℕ × List ℕ)
entries [] r o = o
entries (h ∷ hs) [] o = entries hs [] (JsMap.set h (trim []) o)
entries (h ∷ hs) (x ∷ r) o = entries hs r (JsMap.set h (trim x) o)

pub records : List (List (List ℕ)) → List (List (List ℕ × List ℕ))
unfolding entries
records [] = []
records (head ∷ rows) = map (λ r. entries (map trim head) r []) rows

pub parse_csv : List ℕ → List (List (List ℕ × List ℕ))
unfolding table records
parse_csv text = records (table text)
