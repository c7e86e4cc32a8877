-- ===== src/Pages/Cover.antt =====
-- The pages together show every row once.
use native.Mathlib.Nat.{zero-mul}
use chocobofix.Prelude.{
  ℕ, zero, suc, ◌+◌, ◌-◌, ◌*◌, ◌≤◌, ◌≡◌, refl, sym, ◌∙◌, ap, subst, List, [], ◌∷◌, ◌++◌, length,
  take, drop, arith, ◌⊎◌, inl, inr,
}
use chocobofix.Pages.{
  list_page_size, timeline_page_size, page_count, current_page, slice, page_rows,
}

enough_pages : (n size : ℕ) → (size ≡ 25) ⊎ (size ≡ 40) → n ≤ page_count size n * size
enough_pages n size (inl e) = subst (λ s. n ≤ page_count s n * s) (sym e) (omega arith)
enough_pages n size (inr e) = subst (λ s. n ≤ page_count s n * s) (sym e) (omega arith)

one_more : (m n : ℕ) → suc (m + n) ≡ suc m + n
one_more m n = omega arith

module _ {ℓ} {A : Type ℓ} where
  take-add : (m n : ℕ) (xs : List A) → take m xs ++ take n (drop m xs) ≡ take (m + n) xs
  take-add zero n xs = ap (λ k. take k xs) (omega arith)
  take-add (suc m) n [] = nothing n ∙ sym (nothing (suc m + n))
    where
      nothing : (n : ℕ) → take {A = A} n [] ≡ []
      nothing zero = refl
      nothing (suc n) = refl
  take-add (suc m) n (x ∷ xs) =
      ap (λ l. x ∷ l) (take-add m n xs) ∙ ap (λ k. take k (x ∷ xs)) (one_more m n)

  take_all : (n : ℕ) (xs : List A) → length xs ≤ n → take n xs ≡ xs
  take_all zero [] h = refl
  take_all (suc n) [] h = refl
  take_all zero (x ∷ xs) h = absurd (omega arith)
  take_all (suc n) (x ∷ xs) h = ap (λ l. x ∷ l) (take_all n xs (omega arith))

  -- The rows of the first `n` pages, one page after the other.
  abbrev pub first_pages : ℕ → ℕ → List A → List A
  first_pages size zero rows = []
  first_pages size (suc n) rows = first_pages size n rows ++ page_rows size n rows

  first_pages-take :
      (size n : ℕ) (rows : List A)
      → n ≤ page_count size (length rows)
      → first_pages size n rows ≡ take (n * size) rows
  unfolding page_rows
  first_pages-take size zero rows h = ap (λ k. take k rows) (sym (zero-mul size))
  first_pages-take size (suc n) rows h =
      ap (λ l. l ++ page_rows size n rows) (first_pages-take size n rows (omega (arith, h)))
      ∙ ap (λ c. take (n * size) rows ++ slice (c * size) ((c + 1) * size) rows) current
      ∙ ap (λ k. take (n * size) rows ++ take k (drop (n * size) rows)) one_page
      ∙ take-add (n * size) size rows
      ∙ ap (λ k. take k rows) next
    where
      current : current_page n (page_count size (length rows)) ≡ n
      current = omega (arith, h)

      one_page : (n + 1) * size - n * size ≡ size
      one_page = grind arith

      next : n * size + size ≡ suc n * size
      next = grind arith

  -- The pages of the list, and those of the timeline, one after the other are all the rows in
  -- their order: every row is on one page and on no other.
  pub pages-rows :
      (size : ℕ) (rows : List A)
      → (size ≡ list_page_size) ⊎ (size ≡ timeline_page_size)
      → first_pages size (page_count size (length rows)) rows ≡ rows
  pages-rows size rows h =
      first_pages-take size (page_count size (length rows)) rows (omega arith)
      ∙ take_all (page_count size (length rows) * size) rows (enough_pages (length rows) size h)
