-- ===== src/Pages/Tests.antt =====
-- Pages, weeks and cursors on concrete numbers.
use chocobofix.Prelude.{ℕ, ◌≡◌, inl, refl, arith, some, List, [], ◌∷◌, length}
use chocobofix.Pages.{page_count, count_from, weeks, first_page, Click, back, forward, clicks}
use chocobofix.Pages.Cover.{first_pages, pages-rows}
use chocobofix.Pages.Window.{IsWindow, weeks-IsWindow}
use chocobofix.Pages.Cursors.{IsInRange, clicks-IsInRange}

abbrev sixty_rows : List ℕ
sixty_rows = count_from 1 60

pages-rows_example : first_pages 25 (page_count 25 (length sixty_rows)) sixty_rows ≡ sixty_rows
pages-rows_example = pages-rows 25 sixty_rows (inl refl)

ten_weeks_end : weeks 6 10 8 ≡ 5 ∷ 6 ∷ 7 ∷ 8 ∷ 9 ∷ 10 ∷ []
unfolding weeks
ten_weeks_end = refl

weeks-IsWindow_example : IsWindow 6 10 8 (weeks 6 10 8)
weeks-IsWindow_example = weeks-IsWindow 6 10 8 (omega arith) (omega arith)

abbrev three_clicks : List (Click ℕ)
three_clicks = forward (some 7) ∷ forward (some 9) ∷ back ∷ []

clicks-IsInRange_example : IsInRange (clicks three_clicks first_page)
clicks-IsInRange_example = clicks-IsInRange three_clicks
