-- ===== src/Csv/Quoted/RoundTrip.antt =====
-- What `parse_csv` gives on a file that was written with the usual quoting.
use chocobofix.Prelude.{
  ℕ, ◌≡◌, refl, ap, sym, ◌∙◌, Bool, true, false, not, ◌||◌, List, [], ◌∷◌, ◌++◌, map, any, eqb,
  eqb_iff, All, arith, Bool-cases, inl, inr, if◌then◌else◌, length, zip, AreDistinct,
}
use mathlib.Core.List.{append_assoc, append-nil}
use chocobofix.Prelude.JsMap.{set-new, AreUnused, all_unused, AreUnused-append}
use chocobofix.Prelude.Text.{trim, is_empty, Text-eq}
use chocobofix.Csv.Quoted.{
  quote, comma, newline, carriage_return, Scanner, put, end_field, end_row, push_row, plain,
  doubled, round, scan, table, entries, records, parse_csv,
}

-- A quote inside a quoted field is written twice.
unfoldable pub escape : List ℕ → List ℕ
escape [] = []
escape (c ∷ s) = if eqb c quote then quote ∷ quote ∷ escape s else c ∷ escape s

abbrev pub is_special : ℕ → Bool
is_special c = eqb c quote || eqb c comma || eqb c newline || eqb c carriage_return

-- A writer quotes the fields that need it.
abbrev pub write_field : List ℕ → List ℕ
write_field s = if any is_special s then quote ∷ (escape s ++ quote ∷ []) else s

unfoldable pub write_row : List ℕ → List (List ℕ) → List ℕ
write_row s [] = write_field s ++ newline ∷ []
write_row s (t ∷ ts) = write_field s ++ comma ∷ write_row t ts

-- Rows are a first field and the others.
unfoldable pub write_table : List (List ℕ × List (List ℕ)) → List ℕ
unfolding write_row
write_table [] = []
write_table ((s, ts) ∷ rows) = write_row s ts ++ write_table rows

abbrev text : List ℕ → Scanner → Scanner
text s r = record r { cur = r.cur ++ s }

round_plain :
    (c : ℕ) (cs : List ℕ) (r : Scanner)
    → is_special c ≡ false
    → r.q ≡ false
    → round c cs r ≡ (put c r, false)
unfolding round plain
round_plain c cs r h q = ground arith

round_inside :
    (c : ℕ) (cs : List ℕ) (r : Scanner)
    → eqb c quote ≡ false
    → r.q ≡ true
    → round c cs r ≡ (put c r, false)
unfolding round
round_inside c cs r h q = ground arith

round_doubled :
    (cs : List ℕ) (r : Scanner) → r.q ≡ true → round quote (quote ∷ cs) r ≡ (put quote r, true)
unfolding round
round_doubled cs r q = ground arith

round_closing :
    (cs : List ℕ) (r : Scanner)
    → doubled cs ≡ false
    → r.q ≡ true
    → round quote cs r ≡ (record r { q = false }, false)
unfolding round
round_closing cs r d q = ground arith

put-text :
    (c : ℕ) (s rest : List ℕ) (r : Scanner)
    → scan rest false (text s (put c r)) ≡ scan rest false (text (c ∷ s) r)
put-text c s rest r =
    ap (λ t. scan rest false (record r { cur = t })) (append_assoc r.cur (c ∷ []) s)

scan_step :
    (c : ℕ) (cs : List ℕ) (r : Scanner) {r' : Scanner} {skip : Bool}
    → round c cs r ≡ (r', skip)
    → scan (c ∷ cs) false r ≡ scan cs skip r'
unfolding scan
scan_step c cs r e = ap (λ p. scan cs p.1 p.0) e

scan_plain :
    (s rest : List ℕ) (r : Scanner)
    → any is_special s ≡ false
    → r.q ≡ false
    → scan (s ++ rest) false r ≡ scan rest false (text s r)
scan_plain [] rest r h q = rw append-nil
scan_plain (c ∷ s) rest r h q =
    scan_step c (s ++ rest) r (round_plain c (s ++ rest) r (ground arith) q)
    ∙ scan_plain s rest (put c r) (ground arith) q
    ∙ put-text c s rest r

abbrev shut : Scanner → Scanner
shut r = record r { q = false }

put-shut :
    (c : ℕ) (s rest : List ℕ) (r : Scanner)
    → scan rest false (shut (text s (put c r))) ≡ scan rest false (shut (text (c ∷ s) r))
put-shut c s rest r =
    ap (λ t. scan rest false (record r { cur = t; q = false })) (append_assoc r.cur (c ∷ []) s)

skip_one : (c : ℕ) (cs : List ℕ) (r : Scanner) → scan (c ∷ cs) true r ≡ scan cs false r
unfolding scan
skip_one c cs r = refl

escape-quote : (c : ℕ) (s : List ℕ) → eqb c quote ≡ true → escape (c ∷ s) ≡ quote ∷ quote ∷ escape s
unfolding escape
escape-quote c s e = rw e

escape-cons : (c : ℕ) (s : List ℕ) → eqb c quote ≡ false → escape (c ∷ s) ≡ c ∷ escape s
unfolding escape
escape-cons c s e = rw e

scan_quoted :
    (s rest : List ℕ) (r : Scanner)
    → doubled rest ≡ false
    → r.q ≡ true
    → scan (escape s ++ quote ∷ rest) false r ≡ scan rest false (shut (text s r))
unfolding escape
scan_quoted [] rest r d q = scan_step quote rest r (round_closing rest r d q) ∙ rw append-nil
scan_quoted (c ∷ s) rest r d q = elim (Bool-cases (eqb c quote)) [
  | inl same ↦ rw (escape-quote c s same) (
      scan_step quote _ r (round_doubled (escape s ++ quote ∷ rest) r q)
      ∙ skip_one quote _ (put quote r)
      ∙ rw ((eqb_iff c quote).0 same)
          (scan_quoted s rest (put quote r) d q ∙ put-shut quote s rest r))
  | inr other ↦ rw (escape-cons c s other) (
      scan_step c _ r (round_inside c (escape s ++ quote ∷ rest) r other q)
      ∙ scan_quoted s rest (put c r) d q
      ∙ put-shut c s rest r)
]

abbrev at : List (List (List ℕ)) → List (List ℕ) → List ℕ → Scanner
at rows row cur = record { rows = rows; row = row; cur = cur; q = false }

round_opening :
    (cs : List ℕ) (r : Scanner) → r.q ≡ false → round quote cs r ≡ (record r { q = true }, false)
unfolding round plain
round_opening cs r q = ground arith

round-comma : (cs : List ℕ) (r : Scanner) → r.q ≡ false → round comma cs r ≡ (end_field r, false)
unfolding round plain
round-comma cs r q = ground arith

round-newline : (cs : List ℕ) (r : Scanner) → r.q ≡ false → round newline cs r ≡ (end_row r, false)
unfolding round plain
round-newline cs r q = ground arith

-- A written field is read back as it was, up to a character that does not continue it.
scan_field :
    (s rest : List ℕ) (rows : List (List (List ℕ))) (row : List (List ℕ))
    → doubled rest ≡ false
    → scan (write_field s ++ rest) false (at rows row []) ≡ scan rest false (at rows row s)
scan_field s rest rows row d = elim (Bool-cases (any is_special s)) [
  | inl special ↦
      rw (special, append_assoc)
        (scan_step quote _ (at rows row []) (round_opening _ (at rows row []) refl)
          ∙ scan_quoted s rest (record (at rows row []) { q = true }) d refl)
  | inr none_special ↦ rw none_special (scan_plain s rest (at rows row []) none_special refl)
]

scan_row :
    (s : List ℕ) (ts : List (List ℕ)) (rest : List ℕ) (rows : List (List (List ℕ)))
    (row : List (List ℕ))
    → scan (write_row s ts ++ rest) false (at rows row [])
      ≡ scan rest false (at (push_row (row ++ s ∷ ts) rows) [] [])
unfolding write_row
scan_row s [] rest rows row = rw append_assoc (
    scan_field s (newline ∷ rest) rows row refl
    ∙ scan_step newline rest (at rows row s) (round-newline rest (at rows row s) refl))
scan_row s (t ∷ ts) rest rows row = rw append_assoc (
    scan_field s (comma ∷ (write_row t ts ++ rest)) rows row refl
    ∙ scan_step comma _ (at rows row s) (round-comma _ (at rows row s) refl)
    ∙ scan_row t ts rest rows (row ++ s ∷ [])
    ∙ rw append_assoc)

abbrev pub cells : List ℕ × List (List ℕ) → List (List ℕ)
cells (s, ts) = s ∷ ts

-- Some field is not empty; the reader leaves blank rows out.
abbrev pub IsFilled : List ℕ × List (List ℕ) → Type 0
IsFilled r = any (λ x. not (is_empty x)) (cells r) ≡ true

scan_table :
    (rows : List (List ℕ × List (List ℕ))) (before : List (List (List ℕ)))
    → All IsFilled rows
    → scan (write_table rows) false (at before [] []) ≡ at (before ++ map cells rows) [] []
unfolding write_table scan
scan_table [] before h = rw append-nil
scan_table ((s, ts) ∷ rows) before h =
    scan_row s ts (write_table rows) before []
    ∙ rw h.0 (scan_table rows (before ++ (s ∷ ts) ∷ []) h.1 ∙ rw append_assoc)

-- Reading the table that a writer with the usual quoting has written gives back its rows, quotes,
-- commas and line ends inside the fields included, if each row has a field that is not empty.
pub table-write_table :
    (rows : List (List ℕ × List (List ℕ)))
    → All IsFilled rows
    → table (write_table rows) ≡ map cells rows
unfolding table
table-write_table rows h = ap (λ s. (end_row s).rows) (scan_table rows [] h)

entries-zip :
    (hs r : List (List ℕ)) (o : List (List ℕ × List ℕ))
    → AreDistinct hs
    → AreUnused hs o
    → length r ≡ length hs
    → entries hs r o ≡ o ++ zip hs (map trim r)
unfolding entries
entries-zip [] r o d n e = sym (append-nil o)
entries-zip (h ∷ hs) [] o d n e = absurd (omega arith)
entries-zip (h ∷ hs) (x ∷ r) o d n e = rw (set-new h (trim x) o n.0) (
    entries-zip hs r (o ++ (h, trim x) ∷ []) d.1 (AreUnused-append h (trim x) hs o d.0 n.1)
      (omega arith)
    ∙ rw append_assoc)

records-zip :
    (hs : List (List ℕ)) (rows : List (List ℕ × List (List ℕ)))
    → AreDistinct hs
    → All (λ r. length (cells r) ≡ length hs) rows
    → map (λ r. entries hs r []) (map cells rows) ≡ map (λ r. zip hs (map trim (cells r))) rows
records-zip hs [] d e = refl
records-zip hs (r ∷ rows) d e =
    rw (entries-zip hs (cells r) [] d (all_unused (List ℕ) hs) e.0, records-zip hs rows d e.1)

-- Where the trimmed column names differ and each row has as many fields as there are columns, each
-- record pairs the names with the trimmed fields of its row, in order.
pub parse_csv-write_table :
    (head : List ℕ × List (List ℕ)) (rows : List (List ℕ × List (List ℕ)))
    → All IsFilled (head ∷ rows)
    → AreDistinct (map trim (cells head))
    → All (λ r. length (cells r) ≡ length (map trim (cells head))) rows
    → parse_csv (write_table (head ∷ rows))
      ≡ map (λ r. zip (map trim (cells head)) (map trim (cells r))) rows
unfolding parse_csv records
parse_csv-write_table head rows f d e =
    rw (table-write_table (head ∷ rows) f) (records-zip (map trim (cells head)) rows d e)
