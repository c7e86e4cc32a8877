-- ===== src/Upload/Tests.antt =====
-- The eight files, one of them chosen twice.
use mathlib.Core.List.{Perm}
use chocobofix.Prelude.{
  ℕ, ◌≤◌, ◌<◌, ◌≡◌, refl, true, false, some, List, [], ◌∷◌, ◌++◌, ◌⊎◌, map, string_eq,
}
use chocobofix.Prelude.JsMap.{get, set}
use chocobofix.Prelude.Text.{units, Text-eq, text_eq, is_empty, starts_with}
use chocobofix.Upload.{
  File, leading, held, target, place_all, match_files, parts, total_size, max_size, upload, ignored,
  sent, too_large,
}
use chocobofix.Upload.Placement.{IsWellPlaced, match_files-IsWellPlaced, match_files-held}
use chocobofix.Upload.Conservation.{names_in, match_files-Perm}
use chocobofix.Upload.Submission.{IsForm, upload-sends}

abbrev copy : File
copy = record { name = units "01_LINES (1).csv"; size = 12 }

abbrev same_name : File
same_name = record { name = units "01_LINES.csv"; size = 10 }

abbrev others : List File
others =
    map (λ n. record { name = units n; size = 20 })
      ("02_STATIONS.csv" ∷ "03_SECTORS.csv" ∷ "04_LOCATION_SUPPLY.csv" ∷ "05_BUFFER_LOCATION.csv"
        ∷ "06_PARAMETERS.csv" ∷ "07_PROJECT_DETAILS.csv" ∷ "08_ACTIVITY_DETAILS.csv" ∷ "notes.txt"
        ∷ [])

abbrev chosen : List File
chosen = copy ∷ same_name ∷ others

match_files-IsWellPlaced_example : IsWellPlaced (match_files chosen).matched
match_files-IsWellPlaced_example = match_files-IsWellPlaced chosen

match_files-Perm_example :
    Perm
      (names_in (match_files chosen).matched ++ (match_files chosen).extra)
      (map (λ f. f.name) chosen)
match_files-Perm_example = match_files-Perm chosen

upload-sends_example :
    let report = match_files chosen in
    ((upload (some report) false ≡ ignored) × ((is_empty report.missing ≡ false) ⊎ (false ≡ true)))
    ⊎ ((is_empty report.missing ≡ true)
        × (false ≡ false)
        × ((form : List (List ℕ × File)) × (parts report.matched ≡ some form)
            × IsForm form
            × (((upload (some report) false ≡ too_large) × (max_size < total_size form))
                ⊎ ((upload (some report) false ≡ sent form) × (total_size form ≤ max_size)))))
upload-sends_example = upload-sends chosen false

-- The copy that was chosen first takes the slot, and the file with the exact name is extra.
copy_first : (match_files (copy ∷ same_name ∷ [])).extra ≡ units "01_LINES.csv" ∷ []
unfolding match_files place_all target leading starts_with text_eq get set
copy_first = refl

placed_copy : held (units "01_LINES.csv") (match_files (copy ∷ [])).matched ≡ some copy
unfolding match_files place_all target leading starts_with text_eq get set
placed_copy = refl

match_files-held_example :
    held (units "01_LINES.csv") (match_files (copy ∷ same_name ∷ [])).matched ≡ some copy
match_files-held_example =
    match_files-held (copy ∷ []) (same_name ∷ []) (units "01_LINES.csv") copy placed_copy
