-- ===== src/Prelude/JsMap.antt =====
-- JavaScript's `Map`: an association list in insertion order. `set` on a key that is there
-- replaces the value and keeps its place; a new key goes to the end.
use Prim.Native.Nat.{◌+◌, ◌≤◌}
use mathlib.Core.Path.{◌≡◌, refl, sym, subst}
use mathlib.Core.Bool.{Bool, true, false}
use mathlib.Core.Logic.{inl, inr}
use mathlib.Core.Option.{Option, none, some}
use mathlib.Core.List.{List, [], ◌∷◌, ◌++◌}
use native.Mathlib.Omega.{arith}
use chocobofix.Prelude.Bools.{if◌then◌else◌, is_some, Bool-cases}
use chocobofix.Prelude.Lists.{length, All, All-append, All-map2, In, IsNewIn, AreDistinct}
use chocobofix.Prelude.Equality.{StrictEq, ◌===◌}

module _ {ℓ κ} {K : Type ℓ} {V : Type κ} ⦃e : StrictEq K⦄ where
  unfoldable pub get : K → List (K × V) → Option V
  get k [] = none
  get k ((j, v) ∷ m) = if j === k then some v else get k m

  abbrev pub has : K → List (K × V) → Bool
  has k m = is_some (get k m)

  unfoldable pub set : K → V → List (K × V) → List (K × V)
  set k v [] = (k, v) ∷ []
  set k v ((j, w) ∷ m) = if j === k then (j, v) ∷ m else (j, w) ∷ set k v m

  unfoldable pub delete : K → List (K × V) → List (K × V)
  delete k [] = []
  delete k ((j, w) ∷ m) = if j === k then m else (j, w) ∷ delete k m

  pub get-set :
      (k j : K) (v : V) (m : List (K × V))
      → get j (set k v m) ≡ (if k === j then some v else get j m)
  unfolding get set
  get-set k j v [] = refl
  get-set k j v ((i, w) ∷ m) =
      ground (arith, e.same_iff k j, e.same_iff i k, e.same_iff i j, get-set k j v m)

  pub length-set-le : (k : K) (v : V) (m : List (K × V)) → length (set k v m) ≤ length m + 1
  unfolding set
  length-set-le k v [] = omega arith
  length-set-le k v ((i, w) ∷ m) = ground (arith, length-set-le k v m)

  pub length-delete-le : (k : K) (m : List (K × V)) → length (delete k m) ≤ length m
  unfolding delete
  length-delete-le k [] = omega arith
  length-delete-le k ((i, w) ∷ m) = ground (arith, length-delete-le k m)

  -- A new key goes to the end.
  pub set-new :
      (k : K) (v : V) (m : List (K × V)) → All (λ b. ¬ (b.0 ≡ k)) m → set k v m ≡ m ++ (k, v) ∷ []
  unfolding set
  set-new k v [] h = refl
  set-new k v ((i, w) ∷ m) h = ground (arith, e.same_iff i k, set-new k v m h.1, h.0)

  -- The eviction of the oldest key.
  pub delete_head : (k : K) (v : V) (m : List (K × V)) → delete k ((k, v) ∷ m) ≡ m
  unfolding delete
  delete_head k v m = rw ((e.same_iff k k).1 refl)

  module _ {μ} (P : V → Type μ) where
    pub All-set :
        (k : K) (v : V) (m : List (K × V)) → P v → All (λ b. P b.1) m → All (λ b. P b.1) (set k v m)
    unfolding set
    All-set k v [] p h = (p, tt)
    All-set k v ((i, w) ∷ m) p h = ground (arith, All-set k v m p h.1)

    pub All-delete : (k : K) (m : List (K × V)) → All (λ b. P b.1) m → All (λ b. P b.1) (delete k m)
    unfolding delete
    All-delete k [] h = tt
    All-delete k ((i, w) ∷ m) h = ground (arith, All-delete k m h.1)

    pub get-All : (k : K) (m : List (K × V)) {v : V} → All (λ b. P b.1) m → get k m ≡ some v → P v
    unfolding get
    get-All k [] {v} h q = cc
    get-All k ((i, w) ∷ m) {v} h q = ground (arith, get-All k m {v = v} h.1)

  module _ {μ} (P : K → Type μ) where
    pub All-set_key :
        (k : K) (v : V) (m : List (K × V)) → P k → All (λ b. P b.0) m → All (λ b. P b.0) (set k v m)
    unfolding set
    All-set_key k v [] p h = (p, tt)
    All-set_key k v ((i, w) ∷ m) p h = ground (arith, All-set_key k v m p h.1)

    pub All-delete_key :
        (k : K) (m : List (K × V)) → All (λ b. P b.0) m → All (λ b. P b.0) (delete k m)
    unfolding delete
    All-delete_key k [] h = tt
    All-delete_key k ((i, w) ∷ m) h = ground (arith, All-delete_key k m h.1)

module _ {κ} {K : Type 0} {V : Type κ} ⦃e : StrictEq K⦄ where
  abbrev pub keys : List (K × V) → List K
  keys [] = []
  keys ((k, v) ∷ m) = k ∷ keys m

  -- A key that is there keeps its place.
  pub keys-set : (k : K) (v : V) (m : List (K × V)) → has k m ≡ true → keys (set k v m) ≡ keys m
  unfolding get set
  keys-set k v [] h = cc
  keys-set k v ((j, w) ∷ m) h = ground (arith, keys-set k v m)

  pub has-keys : (k : K) (m : List (K × V)) → In k (keys m) → has k m ≡ true
  unfolding get
  has-keys k [] i = absurd i
  has-keys k ((j, w) ∷ m) (inl here) = ground (arith, e.same_iff j k)
  has-keys k ((j, w) ∷ m) (inr i) = ground (arith, has-keys k m i)

  pub All-set_entry {μ} :
      (P : K × V → Type μ) (k : K) (v : V) (m : List (K × V))
      → P (k, v)
      → All P m
      → All P (set k v m)
  unfolding set
  All-set_entry P k v [] p h = (p, tt)
  All-set_entry P k v ((j, w) ∷ m) p h = elim (Bool-cases (j === k)) [
    | inl here ↦ rw here (subst (λ i. P (i, v)) (sym ((e.same_iff j k).0 here)) p, h.1)
    | inr later ↦ rw later (h.0, All-set_entry P k v m p h.1)
  ]

  pub All-delete_entry {μ} :
      (P : K × V → Type μ) (k : K) (m : List (K × V)) → All P m → All P (delete k m)
  unfolding delete
  All-delete_entry P k [] h = tt
  All-delete_entry P k ((j, w) ∷ m) h = ground (arith, All-delete_entry P k m h.1)

  pub keys-All {μ} : (P : K → Type μ) (m : List (K × V)) → All P (keys m) → All (λ b. P b.0) m
  keys-All P [] h = tt
  keys-All P ((j, w) ∷ m) h = (h.0, keys-All P m h.1)

  pub IsNewIn-set :
      (a k : K) (v : V) (m : List (K × V))
      → IsNewIn a (keys m)
      → ¬ (k ≡ a)
      → IsNewIn a (keys (set k v m))
  unfolding set
  IsNewIn-set a k v [] h n = (n, tt)
  IsNewIn-set a k v ((j, w) ∷ m) h n = ground (arith, IsNewIn-set a k v m h.1 n)

  pub set-AreDistinct :
      (k : K) (v : V) (m : List (K × V)) → AreDistinct (keys m) → AreDistinct (keys (set k v m))
  unfolding set
  set-AreDistinct k v [] d = (tt, tt)
  set-AreDistinct k v ((j, w) ∷ m) d = elim (Bool-cases (j === k)) [
    | inl here ↦ rw here d
    | inr later ↦ rw later (IsNewIn-set j k v m d.0 (other later), set-AreDistinct k v m d.1)
  ]
    where
      other : (j === k) ≡ false → ¬ (k ≡ j)
      other later q = ground (arith, e.same_iff j k)

  -- With distinct keys, each entry is what its key has.
  pub get-entries : (m : List (K × V)) → AreDistinct (keys m) → All (λ b. get b.0 m ≡ some b.1) m
  unfolding get
  get-entries [] d = tt
  get-entries ((j, w) ∷ m) d = (
    rw ((e.same_iff j j).1 refl) refl,
    All-map2 (λ b n h. behind b n h) m (keys-All (λ k. ¬ (k ≡ j)) m d.0) (get-entries m d.1),
  )
    where
      other : (b : K × V) → ¬ (b.0 ≡ j) → (j === b.0) ≡ false
      other b n = ground (arith, e.same_iff j b.0)

      behind : (b : K × V) → ¬ (b.0 ≡ j) → get b.0 m ≡ some b.1 → get b.0 ((j, w) ∷ m) ≡ some b.1
      behind b n h = rw (other b n) h

module _ {K V : Type 0} where
  -- No entry of `o` has a key of `hs`.
  abbrev pub AreUnused : List K → List (K × V) → Type 0
  AreUnused hs o = All (λ h. All (λ b. ¬ (b.0 ≡ h)) o) hs

  pub AreUnused-append :
      (h : K) (v : V) (hs : List K) (o : List (K × V))
      → IsNewIn h hs
      → AreUnused hs o
      → AreUnused hs (o ++ (h, v) ∷ [])
  AreUnused-append h v [] o new u = tt
  AreUnused-append h v (k ∷ hs) o new u = (
    All-append (λ b. ¬ (b.0 ≡ k)) o ((h, v) ∷ []) u.0 ((λ e. new.0 (sym e)), tt),
    AreUnused-append h v hs o new.1 u.1,
  )

pub all_unused : {K : Type 0} (V : Type 0) (hs : List K) → AreUnused {V = V} hs []
all_unused V [] = tt
all_unused V (h ∷ hs) = (tt, all_unused V hs)
