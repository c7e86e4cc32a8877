-- ===== src/Pages/Cursors.antt =====
-- The cursors of the project list.
use chocobofix.Prelude.{
  ℕ, ◌+◌, ◌-◌, ◌≤◌, ◌<◌, ◌≡◌, refl, ◌∙◌, subst, Option, none, some, List, [], ◌∷◌, ◌++◌, length,
  arith, get_elem?, get_elem?-append_left, get_elem?-last, get_elem?-take, length-append,
  length-take,
}
use chocobofix.Pages.{Index, slice, first_page, previous, next, Click, back, forward, click, clicks}

module _ {C : Type 0} where
  -- The cursor that the list is fetched with at a position.
  abbrev pub cursor_at : Index C → ℕ → Option (Option C)
  cursor_at s i = get_elem? s.cursors i

  abbrev pub IsInRange : Index C → Type 0
  IsInRange s = (s.position < length s.cursors) × (cursor_at s 0 ≡ some none)

  module _ (c : C) (s : Index C) (h : s.position < length s.cursors) where
    kept : List (Option C)
    kept = slice 0 (s.position + 1) s.cursors

    length-kept : length kept ≡ s.position + 1
    unfolding kept
    length-kept = length-take (s.position + 1 - 0) s.cursors (omega (arith, h)) ∙ omega arith

    next-kept : (i : ℕ) → i ≤ s.position → cursor_at (next (some c) s) i ≡ cursor_at s i
    unfolding next kept
    next-kept i l =
        get_elem?-append_left kept (some c ∷ []) i (omega (arith, length-kept))
        ∙ get_elem?-take (s.position + 1 - 0) i s.cursors (omega arith)

    next-last : cursor_at (next (some c) s) (s.position + 1) ≡ some (some c)
    unfolding next kept
    next-last =
        subst (λ i. get_elem? (kept ++ some c ∷ []) i ≡ some (some c)) length-kept
          (get_elem?-last kept (some c))

    length-next : length (next (some c) s).cursors ≡ s.position + 2
    unfolding next kept
    length-next = length-append kept (some c ∷ []) ∙ omega (arith, length-kept)

  click-IsInRange : (k : Click C) (s : Index C) → IsInRange s → IsInRange (click k s)
  unfolding click previous next
  click-IsInRange back s h = (omega (arith, h.0), h.1)
  click-IsInRange (forward none) s h = h
  click-IsInRange (forward (some c)) s h =
      (omega (arith, length-next c s h.0), next-kept c s h.0 0 (omega arith) ∙ h.1)

  -- Whatever is clicked and whatever cursors the replies bring, the position has a cursor and the
  -- first page is fetched without one.
  pub clicks-IsInRange : (ks : List (Click C)) → IsInRange (clicks ks first_page)
  unfolding clicks
  clicks-IsInRange ks = from ks first_page (omega arith, refl)
    where
      from : (ks : List (Click C)) (s : Index C) → IsInRange s → IsInRange (clicks ks s)
      from [] s h = h
      from (k ∷ ks) s h = from ks (click k s) (click-IsInRange k s h)

  -- The next page is fetched with the cursor of the reply, and going back from it fetches the
  -- page before with the cursor it had.
  pub previous-next :
      (s : Index C) (c : C)
      → IsInRange s
      → (cursor_at (next (some c) s) (next (some c) s).position ≡ some (some c))
        × ((previous (next (some c) s)).position ≡ s.position)
        × (cursor_at (previous (next (some c) s)) s.position ≡ cursor_at s s.position)
  unfolding previous next
  previous-next s c h = (next-last c s h.0, omega arith, next-kept c s h.0 s.position (omega arith))
