-- ===== src/Prelude/Sort.antt =====
-- `Array.prototype.sort` with a comparator, which the language makes stable: an insertion sort
-- over `before a b`, the test that the comparator is negative at (a, b).
use mathlib.Core.Bool.{Bool, true, false}
use mathlib.Core.Path.{◌≡◌}
use mathlib.Core.List.{List, [], ◌∷◌, Perm}
use mathlib.Core.List.Perm
use native.Mathlib.Omega.{arith}
use chocobofix.Prelude.Bools.{if◌then◌else◌, Bool-cases}
use chocobofix.Prelude.Lists.{All, All-map, In, In-All, All-of_In}
use mathlib.Core.Logic.{inl, inr}

module _ {ℓ} {A : Type ℓ} (before : A → A → Bool) where
  unfoldable pub insert : A → List A → List A
  insert x [] = x ∷ []
  insert x (y ∷ ys) = if before y x then y ∷ insert x ys else x ∷ y ∷ ys

  unfoldable pub sort : List A → List A
  unfolding insert
  sort [] = []
  sort (x ∷ xs) = insert x (sort xs)

  pub insert-perm : (x : A) (ys : List A) → Perm (insert x ys) (x ∷ ys)
  unfolding insert
  insert-perm x [] = Perm.refl (x ∷ [])
  insert-perm x (y ∷ ys) = elim (Bool-cases (before y x)) [
    | inl later ↦ rw later (Perm.trans (Perm.cons y (insert-perm x ys)) (Perm.swap x y ys))
    | inr here ↦ rw here (Perm.refl (x ∷ y ∷ ys))
  ]

  -- Sorting loses nothing and adds nothing.
  pub sort-perm : (xs : List A) → Perm (sort xs) xs
  unfolding sort
  sort-perm [] = Perm.refl []
  sort-perm (x ∷ xs) = Perm.trans (insert-perm x (sort xs)) (Perm.cons x (sort-perm xs))

  module _ {κ} (P : A → Type κ) where
    pub insert-All : (x : A) (ys : List A) → P x → All P ys → All P (insert x ys)
    unfolding insert
    insert-All x [] p h = (p, tt)
    insert-All x (y ∷ ys) p h = ground (arith, insert-All x ys p h.1)

    pub sort-All : (xs : List A) → All P xs → All P (sort xs)
    unfolding sort
    sort-All [] h = tt
    sort-All (x ∷ xs) h = insert-All x (sort xs) h.0 (sort-All xs h.1)

    pub insert-All_rev : (x : A) (ys : List A) → All P (insert x ys) → P x × All P ys
    unfolding insert
    insert-All_rev x [] h = h
    insert-All_rev x (y ∷ ys) h = elim (Bool-cases (before y x)) [
      | inl later ↦
          let h' : P y × All P (insert x ys) = rw later at h in
          let (p, q) = insert-All_rev x ys h'.1 in (p, (h'.0, q))
      | inr here ↦ rw here at h
    ]

    pub sort-All_rev : (xs : List A) → All P (sort xs) → All P xs
    unfolding sort
    sort-All_rev [] h = tt
    sort-All_rev (x ∷ xs) h = let (p, q) = insert-All_rev x (sort xs) h in (p, sort-All_rev xs q)

  -- What a comparator has to satisfy.
  pub record IsOrder : Type ℓ where
    pub asym : (a b : A) → before a b ≡ true → before b a ≡ false
    pub later_trans : (a b c : A) → before a b ≡ false → before b c ≡ false → before a c ≡ false

  abbrev pub IsSorted : List A → Type ℓ
  IsSorted [] = Unit
  IsSorted (x ∷ xs) = All (λ y. before y x ≡ false) xs × IsSorted xs

  module _ (o : IsOrder) where
    insert-IsSorted : (x : A) (ys : List A) → IsSorted ys → IsSorted (insert x ys)
    unfolding insert
    insert-IsSorted x [] h = (tt, tt)
    insert-IsSorted x (y ∷ ys) h = elim (Bool-cases (before y x)) [
      | inl later ↦ rw later (
        insert-All (λ z. before z y ≡ false) x ys (o.asym y x later) h.0,
        insert-IsSorted x ys h.1,
      )
      | inr here ↦ rw here ((here, All-map _ _ (λ z k. o.later_trans z y x k here) ys h.0), h)
    ]

    -- A sort by such a comparator leaves no element before one that should follow it.
    pub sort-IsSorted : (xs : List A) → IsSorted (sort xs)
    unfolding sort
    sort-IsSorted [] = tt
    sort-IsSorted (x ∷ xs) = insert-IsSorted x (sort xs) (sort-IsSorted xs)

module _ {A : Type 0} (before : A → A → Bool) where
  pub sort-In : (a : A) (xs : List A) → In a (sort before xs) → In a xs
  sort-In a xs i =
      In-All (λ b. In b xs) a (sort before xs) i
        (sort-All before (λ b. In b xs) xs (All-of_In (λ b. In b xs) xs (λ b j. j)))
