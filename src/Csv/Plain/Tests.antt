-- ===== src/Csv/Plain/Tests.antt =====
-- Two accesses of a schedule's file.
use chocobofix.Prelude.{ℕ, ◌≡◌, refl, true, List, [], ◌∷◌, ◌++◌, arith, All, AreDistinct}
use chocobofix.Prelude.Text.{units, trim}
use chocobofix.Csv.Plain.{parse_csv}
use chocobofix.Csv.Plain.Lines.{IsRow, write_row, write_rows, records_of, parse_csv-write_rows}

abbrev two_accesses : List (List ℕ × List (List ℕ))
two_accesses = (units "A1", units "2" ∷ []) ∷ (units "A2", units "" ∷ []) ∷ []

abbrev file_text : List ℕ
file_text = units "id,week" ++ 13 ∷ 10 ∷ units "A1,2" ++ 13 ∷ 10 ∷ units "A2," ++ 13 ∷ 10 ∷ []

file_text-trim :
    trim file_text ≡ write_row (units "id") (units "week" ∷ []) ++ write_rows true two_accesses
unfolding trim write_row write_rows
file_text-trim = refl

two_accesses-IsRow : All IsRow two_accesses
unfolding write_row
two_accesses-IsRow = ground arith

names-AreDistinct : AreDistinct (units "id" ∷ units "week" ∷ [])
names-AreDistinct = (((λ e. cc), tt), (tt, tt))

parse_csv-write_rows_example :
    parse_csv file_text ≡ records_of (units "id" ∷ units "week" ∷ []) two_accesses
parse_csv-write_rows_example =
    parse_csv-write_rows true (units "id") (units "week" ∷ []) two_accesses file_text (ground arith)
      (ground arith) names-AreDistinct two_accesses-IsRow file_text-trim
