-- ===== src/Prelude/Lists.antt =====
-- Lists measured by native numbers, under the library's names, and predicates on their elements.
use Prim.Native.Nat.{ℕ, zero, suc, ◌+◌, ◌≤◌}
use mathlib.Core.Path.{◌≡◌, refl, sym, subst, ap}
use mathlib.Core.Bool.{Bool, true, false}
use mathlib.Core.List.{List, [], ◌∷◌, ◌++◌}
use mathlib.Core.Option.{Option, none, some}
use native.Mathlib.Omega.{arith}
use mathlib.Core.Logic.{◌⊎◌, inl, inr}
use chocobofix.Prelude.Bools.{if◌then◌else◌, Bool-cases}

module _ {ℓ} {A : Type ℓ} where
  abbrev pub length : List A → ℕ
  length [] = 0
  length (x ∷ xs) = suc (length xs)

  abbrev pub take : ℕ → List A → List A
  take zero xs = []
  take (suc n) [] = []
  take (suc n) (x ∷ xs) = x ∷ take n xs

  abbrev pub drop : ℕ → List A → List A
  drop zero xs = xs
  drop (suc n) [] = []
  drop (suc n) (x ∷ xs) = drop n xs

  -- `Array.prototype.filter`, `find`, `some` and `every` over a Boolean test.
  abbrev pub keep : (A → Bool) → List A → List A
  keep p [] = []
  keep p (x ∷ xs) = if p x then x ∷ keep p xs else keep p xs

  abbrev pub find : (A → Bool) → List A → Option A
  find p [] = none
  find p (x ∷ xs) = if p x then some x else find p xs

  abbrev pub any : (A → Bool) → List A → Bool
  any p [] = false
  any p (x ∷ xs) = if p x then true else any p xs

  abbrev pub every : (A → Bool) → List A → Bool
  every p [] = true
  every p (x ∷ xs) = if p x then every p xs else false

  abbrev pub All {κ} : (A → Type κ) → List A → Type κ
  All P [] = Unit
  All P (x ∷ xs) = P x × All P xs

  pub length-append : (xs ys : List A) → length (xs ++ ys) ≡ length xs + length ys
  length-append [] ys = omega arith
  length-append (x ∷ xs) ys = omega (arith, length-append xs ys)

  pub All-append {κ} : (Q : A → Type κ) (l m : List A) → All Q l → All Q m → All Q (l ++ m)
  All-append Q [] m h k = k
  All-append Q (a ∷ l) m h k = let rest = All-append Q l m h.1 k in (h.0, rest)

  pub All-map {κ μ} :
      (P : A → Type κ) (Q : A → Type μ) (f : (a : A) → P a → Q a) (xs : List A)
      → All P xs
      → All Q xs
  All-map P Q f [] h = tt
  All-map P Q f (x ∷ xs) h = (f x h.0, All-map P Q f xs h.1)

  pub All-map2 {κ μ ν} :
      {P : A → Type κ} {Q : A → Type μ} {R : A → Type ν} (f : (a : A) → P a → Q a → R a)
      (xs : List A)
      → All P xs
      → All Q xs
      → All R xs
  All-map2 f [] h k = tt
  All-map2 f (x ∷ xs) h k = (f x h.0 k.0, All-map2 f xs h.1 k.1)

  pub All-keep {κ} : (P : A → Type κ) (p : A → Bool) (xs : List A) → All P xs → All P (keep p xs)
  All-keep P p [] h = tt
  All-keep P p (x ∷ xs) h = ground (arith, All-keep P p xs h.1)

  pub length-keep-le : (p : A → Bool) (xs : List A) → length (keep p xs) ≤ length xs
  length-keep-le p [] = omega arith
  length-keep-le p (x ∷ xs) = ground (arith, length-keep-le p xs)

  pub find-All {κ} :
      (P : A → Type κ) (p : A → Bool) (xs : List A) {a : A} → All P xs → find p xs ≡ some a → P a
  find-All P p [] {a} h e = cc
  find-All P p (x ∷ xs) {a} h e = ground (arith, find-All P p xs {a = a} h.1)

  pub find_holds : (p : A → Bool) (xs : List A) {a : A} → find p xs ≡ some a → p a ≡ true
  find_holds p [] {a} e = cc
  find_holds p (x ∷ xs) {a} e = elim (Bool-cases (p x)) [
    | inl here ↦ subst (λ y. p y ≡ true) (first here) here
    | inr later ↦ find_holds p xs {a = a} (rw later at e)
  ]
    where
      first : p x ≡ true → x ≡ a
      first here = ground arith

module _ {ℓ κ} {A : Type ℓ} {B : Type κ} where
  abbrev pub zip : List A → List B → List (A × B)
  zip [] ys = []
  zip (x ∷ xs) [] = []
  zip (x ∷ xs) (y ∷ ys) = (x, y) ∷ zip xs ys

module _ {ℓ} {A : Type ℓ} where
  abbrev pub IsNewIn : A → List A → Type ℓ
  IsNewIn a xs = All (λ x. ¬ (x ≡ a)) xs

  abbrev pub AreDistinct : List A → Type ℓ
  AreDistinct [] = Unit
  AreDistinct (x ∷ xs) = IsNewIn x xs × AreDistinct xs

module _ {A : Type 0} where
  -- Membership with its place.
  abbrev pub In : A → List A → Type 0
  In a [] = ⊥
  In a (x ∷ xs) = (a ≡ x) ⊎ In a xs

  pub In-All {κ} : (P : A → Type κ) (a : A) (xs : List A) → In a xs → All P xs → P a
  In-All P a [] i h = absurd i
  In-All P a (x ∷ xs) (inl e) h = subst P (sym e) h.0
  In-All P a (x ∷ xs) (inr i) h = In-All P a xs i h.1

  pub All-of_In {κ} : (P : A → Type κ) (xs : List A) → ((a : A) → In a xs → P a) → All P xs
  All-of_In P [] f = tt
  All-of_In P (x ∷ xs) f = (f x (inl refl), All-of_In P xs (λ a i. f a (inr i)))

  pub In-keep : (p : A → Bool) (a : A) (xs : List A) → In a (keep p xs) → In a xs × (p a ≡ true)
  In-keep p a [] i = absurd i
  In-keep p a (x ∷ xs) i = elim (Bool-cases (p x)) [
    | inl first ↦ at_head first (In-keep p a xs) (rw first at i)
    | inr later ↦ let (j, h) = In-keep p a xs (rw later at i) in (inr j, h)
  ]
    where
      at_head :
          p x ≡ true
          → (In a (keep p xs) → In a xs × (p a ≡ true))
          → In a (x ∷ keep p xs)
          → In a (x ∷ xs) × (p a ≡ true)
      at_head first rest (inl e) = (inl e, subst (λ y. p y ≡ true) (sym e) first)
      at_head first rest (inr j) = let (k, h) = rest j in (inr k, h)

  pub keep-In : (p : A → Bool) (a : A) (xs : List A) → In a xs → p a ≡ true → In a (keep p xs)
  keep-In p a [] i h = absurd i
  keep-In p a (x ∷ xs) (inl e) h = rw (subst (λ y. p y ≡ true) e h) (inl e)
  keep-In p a (x ∷ xs) (inr i) h = elim (Bool-cases (p x)) [
    | inl here ↦ rw here (inr (keep-In p a xs i h))
    | inr later ↦ rw later (keep-In p a xs i h)
  ]

  pub find-In : (p : A → Bool) (xs : List A) {a : A} → find p xs ≡ some a → In a xs
  find-In p [] {a} e = cc
  find-In p (x ∷ xs) {a} e = elim (Bool-cases (p x)) [
    | inl here ↦ inl (sym (first here))
    | inr later ↦ inr (find-In p xs {a = a} (rw later at e))
  ]
    where
      first : p x ≡ true → x ≡ a
      first here = ground arith

module _ {ℓ} {A : Type ℓ} where
  pub find-none : (p : A → Bool) (xs : List A) → find p xs ≡ none → All (λ x. p x ≡ false) xs
  find-none p [] e = tt
  find-none p (x ∷ xs) e = ground (arith, find-none p xs)

  pub keep-nil : (p : A → Bool) (xs : List A) → keep p xs ≡ [] → All (λ x. p x ≡ false) xs
  keep-nil p [] e = tt
  keep-nil p (x ∷ xs) e = ground (arith, keep-nil p xs)

module _ {A : Type 0} where
  pub In-append_left : (a : A) (xs ys : List A) → In a xs → In a (xs ++ ys)
  In-append_left a [] ys i = absurd i
  In-append_left a (x ∷ xs) ys (inl e) = inl e
  In-append_left a (x ∷ xs) ys (inr i) = inr (In-append_left a xs ys i)

  pub In-append_right : (a : A) (xs ys : List A) → In a ys → In a (xs ++ ys)
  In-append_right a [] ys i = i
  In-append_right a (x ∷ xs) ys i = inr (In-append_right a xs ys i)

module _ {ℓ} {A : Type ℓ} where
  abbrev pub get_elem? : List A → ℕ → Option A
  get_elem? [] i = none
  get_elem? (x ∷ xs) zero = some x
  get_elem? (x ∷ xs) (suc i) = get_elem? xs i

  pub get_elem?-append_left :
      (xs ys : List A) (i : ℕ) → suc i ≤ length xs → get_elem? (xs ++ ys) i ≡ get_elem? xs i
  get_elem?-append_left [] ys i h = absurd (omega arith)
  get_elem?-append_left (x ∷ xs) ys zero h = refl
  get_elem?-append_left (x ∷ xs) ys (suc i) h = get_elem?-append_left xs ys i (omega arith)

  pub get_elem?-last : (xs : List A) (a : A) → get_elem? (xs ++ a ∷ []) (length xs) ≡ some a
  get_elem?-last [] a = refl
  get_elem?-last (x ∷ xs) a = get_elem?-last xs a

  pub get_elem?-take :
      (n i : ℕ) (xs : List A) → suc i ≤ n → get_elem? (take n xs) i ≡ get_elem? xs i
  get_elem?-take zero i xs h = absurd (omega arith)
  get_elem?-take (suc n) i [] h = refl
  get_elem?-take (suc n) zero (x ∷ xs) h = refl
  get_elem?-take (suc n) (suc i) (x ∷ xs) h = get_elem?-take n i xs (omega arith)

  pub length-take : (n : ℕ) (xs : List A) → n ≤ length xs → length (take n xs) ≡ n
  length-take zero xs h = refl
  length-take (suc n) [] h = absurd (omega arith)
  length-take (suc n) (x ∷ xs) h = ap suc (length-take n xs (omega arith))
