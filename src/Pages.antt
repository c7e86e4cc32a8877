-- ===== src/Pages.antt =====
-- The pages of the schedule's list and the weeks of its timeline: `WorkTable`, `Pagination` and
-- `Timeline` of client/src/routes/Schedules.jsx, and the project list's cursors of
-- client/src/lib/useProjectIndex.js.
pub mod Cover
pub mod Window
pub mod Cursors
mod Tests
use chocobofix.Prelude.{
  ℕ, zero, suc, ◌+◌, ◌-◌, ◌*◌, ◌/◌, Bool, true, false, Option, none, some, List, [], ◌∷◌, ◌++◌,
  length, take, drop, min, max, eqb, leb, if◌then◌else◌,
}

-- `LIST_PAGE_SIZE`, and the page size of the timeline.
abbrev pub list_page_size : ℕ
list_page_size = 25

abbrev pub timeline_page_size : ℕ
timeline_page_size = 40

-- `Math.max(1, Math.ceil(n / size))`.
abbrev pub page_count : ℕ → ℕ → ℕ
page_count size n = max 1 ((n + (size - 1)) / size)

-- `Math.min(page, pages - 1)`.
abbrev pub current_page : ℕ → ℕ → ℕ
current_page page pages = min page (pages - 1)

module _ {ℓ} {A : Type ℓ} where
  abbrev pub slice : ℕ → ℕ → List A → List A
  slice from to xs = take (to - from) (drop from xs)

  pub page_rows : ℕ → ℕ → List A → List A
  page_rows size page rows =
      let current = current_page page (page_count size (length rows)) in
      slice (current * size) ((current + 1) * size) rows

-- The buttons: `none` where they are disabled.
pub previous_page : ℕ → Option ℕ
previous_page zero = none
previous_page (suc current) = some current

pub next_page : ℕ → ℕ → Option ℕ
next_page pages current = if eqb current (pages - 1) then none else some (current + 1)

-- The timeline. `start` is the state, `size` the width that the window allows and `last` the last
-- week.
abbrev pub first_week : ℕ → ℕ → ℕ → ℕ
first_week size last start = min start (max 1 (last + 1 - size))

abbrev pub week_count : ℕ → ℕ → ℕ → ℕ
week_count size last start = min size (last + 1 - first_week size last start)

-- `Array.from({ length }, (_, i) => first + i)`.
abbrev pub count_from : ℕ → ℕ → List ℕ
count_from first zero = []
count_from first (suc n) = first ∷ count_from (first + 1) n

pub weeks : ℕ → ℕ → ℕ → List ℕ
weeks size last start = count_from (first_week size last start) (week_count size last start)

-- `earlier` and `later`: the next `start`, `none` where the button is disabled.
pub earlier : ℕ → ℕ → ℕ → Option ℕ
earlier size last start =
    let first = first_week size last start in
    if eqb first 1 then none else some (max 1 (first - size))

pub later : ℕ → ℕ → ℕ → Option ℕ
later size last start =
    let first = first_week size last start in
    if leb last (first + week_count size last start - 1) then none else some (first + size)

-- useProjectIndex.js: the cursors of the pages visited, and the position among them.
pub record Index (C : Type 0) : Type 0 where
  pub cursors : List (Option C)
  pub position : ℕ

module _ {C : Type 0} where
  abbrev pub first_page : Index C
  first_page = record { cursors = none ∷ []; position = 0 }

  pub previous : Index C → Index C
  previous s = record { cursors = s.cursors; position = s.position - 1 }

  -- `next`, with the `next_cursor` of the reply.
  pub next : Option C → Index C → Index C
  next none s = s
  next (some cursor) s = record {
    cursors = slice 0 (s.position + 1) s.cursors ++ some cursor ∷ [];
    position = s.position + 1;
  }

pub data Click (C : Type 0) : Type 0 where
  back : Click C
  forward : (next_cursor : Option C) → Click C

module _ {C : Type 0} where
  pub click : Click C → Index C → Index C
  unfolding previous next
  click back s = previous s
  click (forward c) s = next c s

  pub clicks : List (Click C) → Index C → Index C
  unfolding click
  clicks [] s = s
  clicks (c ∷ cs) s = clicks cs (click c s)
