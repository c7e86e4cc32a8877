-- ===== src/Schedule/Groups.antt =====
-- Grouping loses no row, and a group is all the rows of its label.
use mathlib.Core.List.{Perm, append_assoc, append-nil, perm_middle}
use mathlib.Core.List.Perm
use chocobofix.Prelude.{
  ℕ, ◌≡◌, refl, sym, ◌∙◌, ap, subst, Bool, true, false, Option, none, some, List, [], ◌∷◌, ◌++◌,
  inl, inr, arith, keep, All, All-map, Bool-cases, Option-cases, ◌===◌, if◌then◌else◌, StrictEq,
  AreDistinct,
}
use chocobofix.Prelude.JsMap.{get, set, has, keys, get-set, set-AreDistinct, get-entries}
use chocobofix.Prelude.Sort.{sort, insert, sort-All}
use chocobofix.Prelude.Text.{Text-eq, is_empty}
use chocobofix.Schedule.{Row, GroupBy, label_of, or_empty, ensure, push, group_from, group_rows}

module _ {A K : Type 0} ⦃e : StrictEq K⦄ where
  -- The rows of all groups, one group after the other.
  abbrev pub flat : List (K × List A) → List A
  flat [] = []
  flat ((k, rs) ∷ groups) = rs ++ flat groups

  flat-set :
      (k : K) (l : List A) (r : A) (m : List (K × List A))
      → get k m ≡ some l
      → Perm (flat (set k (l ++ r ∷ []) m)) (r ∷ flat m)
  unfolding get set
  flat-set k l r [] h = cc
  flat-set k l r ((j, w) ∷ m) h = elim (Bool-cases (j === k)) [
    | inl here ↦
        let x : some w ≡ some l = rw here at h in let same : w ≡ l = cc in rw here (at_front same)
    | inr later ↦ let x : get k m ≡ some l = rw later at h in rw later (behind (flat-set k l r m x))
  ]
    where
      at_front : w ≡ l → Perm ((l ++ r ∷ []) ++ flat m) (r ∷ (w ++ flat m))
      at_front same =
          subst (λ v. Perm ((l ++ r ∷ []) ++ flat m) (r ∷ (v ++ flat m))) (sym same)
            (subst (λ v. Perm v (r ∷ (l ++ flat m))) (sym (append_assoc l (r ∷ []) (flat m)))
              (perm_middle l (flat m)))

      behind :
          Perm (flat (set k (l ++ r ∷ []) m)) (r ∷ flat m)
          → Perm (w ++ flat (set k (l ++ r ∷ []) m)) (r ∷ (w ++ flat m))
      behind p = Perm.trans (Perm.append_left w p) (perm_middle w (flat m))

  flat-set_new : (k : K) (m : List (K × List A)) → has k m ≡ false → flat (set k [] m) ≡ flat m
  unfolding get set
  flat-set_new k [] h = refl
  flat-set_new k ((j, w) ∷ m) h = elim (Bool-cases (j === k)) [
    | inl here ↦ let x : true ≡ false = rw here at h in cc
    | inr later ↦
        let x : has k m ≡ false = rw later at h in rw later (ap (λ l. w ++ l) (flat-set_new k m x))
  ]

  get-ensure : (k : K) (m : List (K × List A)) → get k (ensure k m) ≡ some (or_empty (get k m))
  get-ensure k m = elim (Option-cases (get k m)) [
    | inl absent ↦ ground (arith, get-set k k [] m, e.same_iff k k)
    | inr (l, there) ↦ simp there
  ]

  -- What a key has after a value is pushed on the list of a key.
  pub get-append :
      (k j : K) (a : A) (m : List (K × List A))
      → get j (set k (or_empty (get k (ensure k m)) ++ a ∷ []) (ensure k m))
        ≡ (if k === j then some (or_empty (get j m) ++ a ∷ []) else get j m)
  get-append k j a m =
      get-set k j (or_empty (get k (ensure k m)) ++ a ∷ []) (ensure k m)
      ∙ ap (λ l. if k === j then some (l ++ a ∷ []) else get j (ensure k m))
          (ap or_empty (get-ensure k m))
      ∙ elim (Bool-cases (k === j)) [
        | inl here ↦
            rw here (ap (λ i. some (or_empty (get i m) ++ a ∷ [])) ((e.same_iff k j).0 here))
        | inr other ↦ rw other (untouched other)
      ]
    where
      untouched : (k === j) ≡ false → get j (ensure k m) ≡ get j m
      untouched other = ground (arith, get-set k j [] m)

  flat-ensure : (k : K) (m : List (K × List A)) → flat (ensure k m) ≡ flat m
  flat-ensure k m = elim (Bool-cases (has k m)) [
    | inl there ↦ rw there refl
    | inr absent ↦ rw absent (flat-set_new k m absent)
  ]

  module _ (key_of : A → K) where
    push-perm : (r : A) (m : List (K × List A)) → Perm (flat (push key_of r m)) (r ∷ flat m)
    push-perm r m =
        let k = key_of r in
        let ensured = ensure k m in
        subst (λ l. Perm (flat (set k (l ++ r ∷ []) ensured)) (r ∷ flat m))
          (sym (ap or_empty (get-ensure k m)))
          (subst (λ l. Perm (flat (set k (or_empty (get k m) ++ r ∷ []) ensured)) (r ∷ l))
            (flat-ensure k m) (flat-set k (or_empty (get k m)) r ensured (get-ensure k m)))

    group_from-perm :
        (rows : List A) (m : List (K × List A))
        → Perm (flat (group_from key_of m rows)) (rows ++ flat m)
    unfolding group_from
    group_from-perm [] m = Perm.refl (flat m)
    group_from-perm (r ∷ rows) m =
        Perm.trans (group_from-perm rows (push key_of r m))
          (Perm.trans (Perm.append_left rows (push-perm r m)) (perm_middle rows (flat m)))

    -- A list of rows behind what a key has.
    abbrev behind : Option (List A) → List A → Option (List A)
    behind none [] = none
    behind none (r ∷ rows) = some (r ∷ rows)
    behind (some l) rows = some (l ++ rows)

    get-push :
        (k : K) (r : A) (m : List (K × List A))
        → get k (push key_of r m)
          ≡ (if key_of r === k then some (or_empty (get k m) ++ r ∷ []) else get k m)
    get-push k r m = get-append (key_of r) k r m

    get-group_from :
        (k : K) (rows : List A) (m : List (K × List A))
        → get k (group_from key_of m rows) ≡ behind (get k m) (keep (λ r. key_of r === k) rows)
    unfolding group_from
    get-group_from k [] m = nothing (get k m)
      where
        nothing : (o : Option (List A)) → o ≡ behind o []
        nothing none = refl
        nothing (some l) = ap some (sym (append-nil l))
    get-group_from k (r ∷ rows) m =
        get-group_from k rows (push key_of r m)
        ∙ ap (λ o. behind o (keep (λ r. key_of r === k) rows)) (get-push k r m)
        ∙ split (key_of r === k) (get k m)
      where
        split :
            (b : Bool) (o : Option (List A))
            → behind
                (if b then some (or_empty o ++ r ∷ []) else o)
                (keep (λ r. key_of r === k) rows)
              ≡ behind o (
                  if b
                  then r ∷ keep (λ r. key_of r === k) rows
                  else keep (λ r. key_of r === k) rows)
        split false o = refl
        split true none = refl
        split true (some l) = ap some (append_assoc l (r ∷ []) (keep (λ r. key_of r === k) rows))

    push-AreDistinct :
        (r : A) (m : List (K × List A))
        → AreDistinct (keys m)
        → AreDistinct (keys (push key_of r m))
    push-AreDistinct r m d =
        set-AreDistinct (key_of r) _ (ensure (key_of r) m) (ensured (has (key_of r) m))
      where
        ensured : (b : Bool) → AreDistinct (keys (if b then m else set (key_of r) [] m))
        ensured true = d
        ensured false = set-AreDistinct (key_of r) [] m d

    group_from-AreDistinct :
        (rows : List A) (m : List (K × List A))
        → AreDistinct (keys m)
        → AreDistinct (keys (group_from key_of m rows))
    unfolding group_from
    group_from-AreDistinct [] m d = d
    group_from-AreDistinct (r ∷ rows) m d =
        group_from-AreDistinct rows (push key_of r m) (push-AreDistinct r m d)

    -- A group is all the rows of its key, in their order, and has a row.
    abbrev pub IsGroup : List A → K × List A → Type 0
    IsGroup rows g = (g.1 ≡ keep (λ r. key_of r === g.0) rows) × (is_empty g.1 ≡ false)

    pub group_from-IsGroup : (rows : List A) → All (IsGroup rows) (group_from key_of [] rows)
    unfolding get
    group_from-IsGroup rows =
        All-map _ _
          (λ g h. whole g (keep (λ r. key_of r === g.0) rows) (sym h ∙ get-group_from g.0 rows []))
          (group_from key_of [] rows)
          (get-entries (group_from key_of [] rows) (group_from-AreDistinct rows [] tt))
      where
        whole :
            (g : K × List A) (kept : List A)
            → some g.1 ≡ behind none kept
            → (g.1 ≡ kept) × (is_empty g.1 ≡ false)
        whole g [] h = cc
        whole g (r ∷ kept) h = let same : g.1 ≡ r ∷ kept = cc in (same, ap is_empty same)

    pub group_from-flat : (rows : List A) → Perm (flat (group_from key_of [] rows)) rows
    group_from-flat rows =
        subst (Perm (flat (group_from key_of [] rows))) (append-nil rows) (group_from-perm rows [])

module _ {A K : Type 0} ⦃e : StrictEq K⦄ (before : K × List A → K × List A → Bool) where
  flat-insert :
      (g : K × List A) (m : List (K × List A)) → Perm (flat (insert before g m)) (g.1 ++ flat m)
  unfolding insert
  flat-insert g [] = Perm.refl (g.1 ++ [])
  flat-insert g (h ∷ m) = elim (Bool-cases (before h g)) [
    | inl later ↦
        rw later (Perm.trans (Perm.append_left h.1 (flat-insert g m)) (exchange h.1 g.1 (flat m)))
    | inr here ↦ rw here (Perm.refl (g.1 ++ (h.1 ++ flat m)))
  ]
    where
      exchange : (xs ys zs : List A) → Perm (xs ++ (ys ++ zs)) (ys ++ (xs ++ zs))
      exchange [] ys zs = Perm.refl (ys ++ zs)
      exchange (x ∷ xs) ys zs =
          Perm.trans (Perm.cons x (exchange xs ys zs)) (Perm.symm (perm_middle ys (xs ++ zs)))

  flat-sort : (m : List (K × List A)) → Perm (flat (sort before m)) (flat m)
  unfolding sort
  flat-sort [] = Perm.refl []
  flat-sort (g ∷ m) =
      Perm.trans (flat-insert g (sort before m)) (Perm.append_left g.1 (flat-sort m))

module _ (before : List ℕ → List ℕ → Bool) where
  -- However the rows are grouped, the groups together are the rows: no access is lost and none is
  -- shown twice.
  pub group_rows-Perm :
      (rows : List Row) (by : GroupBy) → Perm (flat (group_rows before rows by)) rows
  unfolding group_rows
  group_rows-Perm rows by =
      Perm.trans (flat-sort (λ a b. before a.0 b.0) (group_from (label_of by) [] rows))
        (group_from-flat (label_of by) rows)

  -- A group that is shown has a row and is all the rows of its label, in the order of the rows.
  pub group_rows-IsGroup :
      (rows : List Row) (by : GroupBy)
      → All (IsGroup (label_of by) rows) (group_rows before rows by)
  unfolding group_rows
  group_rows-IsGroup rows by =
      sort-All (λ a b. before a.0 b.0) (IsGroup (label_of by) rows)
        (group_from (label_of by) [] rows) (group_from-IsGroup (label_of by) rows)
