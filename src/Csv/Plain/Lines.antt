-- ===== src/Csv/Plain/Lines.antt =====
-- A table that is written line by line is read back.
use mathlib.Core.List.{append-nil, append_assoc}
use chocobofix.Prelude.{
  ℕ, ◌≡◌, ◌≢◌, refl, sym, ap, ◌∙◌, Bool, true, false, not, Option, none, some, List, AreDistinct,
  [], ◌∷◌, ◌++◌, map, arith, All, keep,
}
use chocobofix.Prelude.JsMap.{set-new, AreUnused, all_unused, AreUnused-append}
use chocobofix.Prelude.Text.{trim, is_empty, Text-eq}
use chocobofix.Csv.Plain.{fields, lines, cells, records, parse_csv}

-- A field without separators.
abbrev pub IsField : List ℕ → Type 0
IsField s = All (λ c. (c ≢ 44) × (c ≢ 10) × (c ≢ 13)) s

abbrev pub IsLine : List ℕ → Type 0
IsLine s = All (λ c. (c ≢ 10) × (c ≢ 13)) s

-- A row's fields with commas between them.
unfoldable pub write_row : List ℕ → List (List ℕ) → List ℕ
write_row x [] = x
write_row x (y ∷ ys) = x ++ 44 ∷ write_row y ys

fields-field : (x : List ℕ) → IsField x → fields x ≡ x ∷ []
unfolding fields
fields-field [] h = refl
fields-field (c ∷ x) h = let rest = fields-field x h.1 in ground (arith, rest, h.0)

fields-append : (x s : List ℕ) → IsField x → fields (x ++ 44 ∷ s) ≡ x ∷ fields s
unfolding fields
fields-append [] s h = refl
fields-append (c ∷ x) s h = let rest = fields-append x s h.1 in ground (arith, rest, h.0)

fields-write_row :
    (x : List ℕ) (ys : List (List ℕ))
    → IsField x
    → All IsField ys
    → fields (write_row x ys) ≡ x ∷ ys
unfolding write_row
fields-write_row x [] h k = fields-field x h
fields-write_row x (y ∷ ys) h k =
    fields-append x (write_row y ys) h ∙ ap (λ zs. x ∷ zs) (fields-write_row y ys k.0 k.1)

lines-line : (x : List ℕ) → IsLine x → lines x ≡ x ∷ []
unfolding lines
lines-line [] h = refl
lines-line (c ∷ x) h = let rest = lines-line x h.1 in ground (arith, rest, h.0)

lines-feed : (x s : List ℕ) → IsLine x → lines (x ++ 10 ∷ s) ≡ x ∷ lines s
unfolding lines
lines-feed [] s h = refl
lines-feed (c ∷ x) s h = let rest = lines-feed x s h.1 in ground (arith, rest, h.0)

lines-return : (x s : List ℕ) → IsLine x → lines (x ++ 13 ∷ 10 ∷ s) ≡ x ∷ lines s
unfolding lines
lines-return [] s h = refl
lines-return (c ∷ x) s h = let rest = lines-return x s h.1 in ground (arith, rest, h.0)

IsLine-field : (x : List ℕ) → IsField x → IsLine x
IsLine-field [] h = tt
IsLine-field (c ∷ x) h = ((h.0.1, h.0.2), IsLine-field x h.1)

IsLine-append : (x s : List ℕ) → IsLine x → IsLine s → IsLine (x ++ s)
IsLine-append [] s h k = k
IsLine-append (c ∷ x) s h k = (h.0, IsLine-append x s h.1 k)

IsLine-write_row :
    (x : List ℕ) (ys : List (List ℕ)) → IsField x → All IsField ys → IsLine (write_row x ys)
unfolding write_row
IsLine-write_row x [] h k = IsLine-field x h
IsLine-write_row x (y ∷ ys) h k =
    IsLine-append x (44 ∷ write_row y ys) (IsLine-field x h)
      ((λ e. omega (arith, e), λ e. omega (arith, e)), IsLine-write_row y ys k.0 k.1)

-- A row is its first field and the others; its line is not empty.
abbrev pub IsRow : List ℕ × List (List ℕ) → Type 0
IsRow (x, ys) = IsField x × All IsField ys × (is_empty (write_row x ys) ≡ false)

-- A row on a line of its own, after "\n" or "\r\n".
abbrev pub feed : Bool → List ℕ → List ℕ
feed false s = 10 ∷ s
feed true s = 13 ∷ 10 ∷ s

unfoldable pub write_rows : Bool → List (List ℕ × List (List ℕ)) → List ℕ
unfolding write_row
write_rows dos [] = []
write_rows dos ((x, ys) ∷ rows) = feed dos (write_row x ys ++ write_rows dos rows)

abbrev pub lines_of : List (List ℕ × List (List ℕ)) → List (List ℕ)
lines_of [] = []
lines_of ((x, ys) ∷ rows) = write_row x ys ∷ lines_of rows

lines-write_rows :
    (dos : Bool) (x : List ℕ) (rows : List (List ℕ × List (List ℕ)))
    → IsLine x
    → All IsRow rows
    → lines (x ++ write_rows dos rows) ≡ x ∷ lines_of rows
unfolding write_rows
lines-write_rows dos x [] h k = ap lines (append-nil x) ∙ lines-line x h
lines-write_rows false x ((y, ys) ∷ rows) h k =
    lines-feed x (write_row y ys ++ write_rows false rows) h
    ∙ ap (λ zs. x ∷ zs)
        (lines-write_rows false (write_row y ys) rows (IsLine-write_row y ys k.0.0 k.0.1) k.1)
lines-write_rows true x ((y, ys) ∷ rows) h k =
    lines-return x (write_row y ys ++ write_rows true rows) h
    ∙ ap (λ zs. x ∷ zs)
        (lines-write_rows true (write_row y ys) rows (IsLine-write_row y ys k.0.0 k.0.1) k.1)

-- The names and the fields of a row side by side: a name without a field has no cell, and a field
-- without a name is left out.
abbrev pub paired : List (List ℕ) → List (List ℕ) → List (List ℕ × Option (List ℕ))
paired [] row = []
paired (h ∷ hs) [] = (h, none) ∷ paired hs []
paired (h ∷ hs) (x ∷ row) = (h, some x) ∷ paired hs row

abbrev pub records_of :
    List (List ℕ) → List (List ℕ × List (List ℕ)) → List (List (List ℕ × Option (List ℕ)))
records_of head [] = []
records_of head ((x, ys) ∷ rows) = paired head (x ∷ ys) ∷ records_of head rows

cells-paired :
    (hs row : List (List ℕ)) (o : List (List ℕ × Option (List ℕ)))
    → AreDistinct hs
    → AreUnused hs o
    → cells hs row o ≡ o ++ paired hs row
unfolding cells
cells-paired [] row o d n = sym (append-nil o)
cells-paired (h ∷ hs) [] o d n = rw (set-new h none o n.0) (
    cells-paired hs [] (o ++ (h, none) ∷ []) d.1 (AreUnused-append h none hs o d.0 n.1)
    ∙ rw append_assoc)
cells-paired (h ∷ hs) (x ∷ row) o d n = rw (set-new h (some x) o n.0) (
    cells-paired hs row (o ++ (h, some x) ∷ []) d.1 (AreUnused-append h (some x) hs o d.0 n.1)
    ∙ rw append_assoc)

records-lines_of :
    (head : List (List ℕ)) (rows : List (List ℕ × List (List ℕ)))
    → AreDistinct head
    → All IsRow rows
    → map (λ l. cells head (fields l) []) (keep (λ l. not (is_empty l)) (lines_of rows))
      ≡ records_of head rows
records-lines_of head [] d k = refl
records-lines_of head ((x, ys) ∷ rows) d k =
    rw (k.0.2, fields-write_row x ys k.0.0 k.0.1)
      (rw (cells-paired head (x ∷ ys) [] d (all_unused (Option (List ℕ)) head))
        (ap (λ rs. paired head (x ∷ ys) ∷ rs) (records-lines_of head rows d k.1)))

-- A table with different column names, whose fields have no comma and no line end, written with a
-- head and one line for each row, with either kind of line end and any white space around the whole
-- text, is read as one record for each row, in order, that has each column's name, in order, with
-- the row's field in that place, or with undefined where the row is shorter; no row's line may be
-- empty.
pub parse_csv-write_rows :
    (dos : Bool) (h : List ℕ) (hs : List (List ℕ)) (rows : List (List ℕ × List (List ℕ)))
    (text : List ℕ)
    → IsField h
    → All IsField hs
    → AreDistinct (h ∷ hs)
    → All IsRow rows
    → trim text ≡ write_row h hs ++ write_rows dos rows
    → parse_csv text ≡ records_of (h ∷ hs) rows
unfolding parse_csv records
parse_csv-write_rows dos h hs rows text field others d k e =
    ap (λ t. records (lines t)) e
    ∙ ap records (lines-write_rows dos (write_row h hs) rows (IsLine-write_row h hs field others) k)
    ∙ rw (fields-write_row h hs field others) (records-lines_of (h ∷ hs) rows d k)
