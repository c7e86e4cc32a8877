-- ===== src/Csv/Quoted/Tests.antt =====
-- The quoted reader on concrete texts.
use chocobofix.Prelude.{ℕ, ◌≡◌, refl, List, [], ◌∷◌, map, zip, AreDistinct}
use chocobofix.Prelude.JsMap
use chocobofix.Prelude.Text.{units, text_eq, trim}
use chocobofix.Csv.Quoted.{table, parse_csv}
use chocobofix.Csv.Quoted.RoundTrip.{
  write_table, escape, cells, table-write_table, parse_csv-write_table,
}

quoted_text :
    parse_csv (units "id, name\r\n7,\"Ada, \"\"A\"\"\"\n\n8")
    ≡ ((units "id", units "7") ∷ (units "name", units "Ada, \"A\"") ∷ [])
      ∷ ((units "id", units "8") ∷ (units "name", []) ∷ [])
      ∷ []
unfolding parse_csv JsMap.set text_eq trim
quoted_text = refl

abbrev heads : List ℕ × List (List ℕ)
heads = (units "id", units " name" ∷ [])

abbrev said : List ℕ × List (List ℕ)
said = (units "", units "say \"hi\", twice" ∷ [])

table-write_table_example : table (write_table (heads ∷ said ∷ [])) ≡ map cells (heads ∷ said ∷ [])
table-write_table_example = table-write_table (heads ∷ said ∷ []) (refl, (refl, tt))

written : write_table (said ∷ []) ≡ units ",\"say \"\"hi\"\", twice\"\n"
unfolding write_table escape
written = refl

heads-AreDistinct : AreDistinct (map trim (cells heads))
unfolding trim
heads-AreDistinct = (((λ e. cc), tt), (tt, tt))

parse_csv-write_table_example :
    parse_csv (write_table (heads ∷ said ∷ []))
    ≡ map (λ r. zip (map trim (cells heads)) (map trim (cells r))) (said ∷ [])
parse_csv-write_table_example =
    parse_csv-write_table heads (said ∷ []) (refl, (refl, tt)) heads-AreDistinct (refl, tt)
