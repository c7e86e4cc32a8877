-- ===== src/Schedule/Activities/Whole.antt =====
-- An activity of the timeline has all its rows.
use chocobofix.Prelude.{
  ℕ, ◌≡◌, refl, sym, ◌∙◌, ap, subst, Bool, true, false, Option, none, some, List, [], ◌∷◌, inl, inr,
  keep, All, All-map, Bool-cases, Option-cases, ◌===◌, if◌then◌else◌, AreDistinct, In, In-All,
  All-of_In, In-keep, keep-In,
}
use chocobofix.Prelude.JsMap.{get, set, has, keys, get-set, set-AreDistinct, get-entries}
use chocobofix.Prelude.Sort.{sort, sort-All, sort-All_rev}
use chocobofix.Prelude.Text.{Text-eq}
use chocobofix.Schedule.{group_from}
use chocobofix.Schedule.Groups.{IsGroup, group_from-IsGroup}
use chocobofix.Schedule.Activities.{
  Named, Activity, week_eq, key_of, week_of, new_activity, ensure_activity, add_slot, update,
  push_row, activities_from, values, activity_rows,
}

-- What a row does to the activity of its key.
abbrev extended : Option Activity → Named → Activity
extended none r = add_slot r (new_activity r)
extended (some item) r = add_slot r item

abbrev extend_all : Option Activity → List Named → Option Activity
extend_all o [] = o
extend_all o (r ∷ rows) = extend_all (some (extended o r)) rows

abbrev or_new : Named → Option Activity → Activity
or_new r none = new_activity r
or_new r (some item) = item

get-ensure_activity :
    (r : Named) (m : List (List ℕ × Activity))
    → get (key_of r) (ensure_activity r m) ≡ some (or_new r (get (key_of r) m))
get-ensure_activity r m = elim (Option-cases (get (key_of r) m)) [
  | inl absent ↦ rw absent (
      get-set (key_of r) (key_of r) (new_activity r) m
      ∙ rw ((Text-eq.same_iff (key_of r) (key_of r)).1 refl) refl)
  | inr (item, there) ↦ rw there there
]

get-push_row :
    (k : List ℕ) (r : Named) (m : List (List ℕ × Activity))
    → get k (push_row r m) ≡ (if key_of r === k then some (extended (get k m) r) else get k m)
get-push_row k r m =
    ap (λ o. get k (update (key_of r) o r (ensure_activity r m))) (get-ensure_activity r m)
    ∙ get-set (key_of r) k (add_slot r (or_new r (get (key_of r) m))) (ensure_activity r m)
    ∙ elim (Bool-cases (key_of r === k)) [
      | inl here ↦ rw here (
          at_key (get (key_of r) m) (get k m)
            (ap (λ j. get j m) ((Text-eq.same_iff (key_of r) k).0 here)))
      | inr other ↦ rw other (untouched other)
    ]
  where
    at_key : (o p : Option Activity) → o ≡ p → some (add_slot r (or_new r o)) ≡ some (extended p r)
    at_key none none e = refl
    at_key none (some item) e = cc
    at_key (some item) none e = cc
    at_key (some item) (some also) e = cc

    untouched : (key_of r === k) ≡ false → get k (ensure_activity r m) ≡ get k m
    untouched other = kept (has (key_of r) m)
      where
        kept : (b : Bool) → get k (if b then m else set (key_of r) (new_activity r) m) ≡ get k m
        kept true = refl
        kept false = get-set (key_of r) k (new_activity r) m ∙ rw other refl

get-activities_from :
    (k : List ℕ) (rows : List Named) (m : List (List ℕ × Activity))
    → get k (activities_from m rows) ≡ extend_all (get k m) (keep (λ r. key_of r === k) rows)
unfolding activities_from
get-activities_from k [] m = refl
get-activities_from k (r ∷ rows) m =
    get-activities_from k rows (push_row r m)
    ∙ ap (λ o. extend_all o (keep (λ r. key_of r === k) rows)) (get-push_row k r m)
    ∙ split (key_of r === k)
  where
    split :
        (b : Bool)
        → extend_all
            (if b then some (extended (get k m) r) else get k m)
            (keep (λ r. key_of r === k) rows)
          ≡ extend_all
              (get k m)
              (if b then r ∷ keep (λ r. key_of r === k) rows else keep (λ r. key_of r === k) rows)
    split true = refl
    split false = refl

push_row-AreDistinct :
    (r : Named) (m : List (List ℕ × Activity))
    → AreDistinct (keys m)
    → AreDistinct (keys (push_row r m))
push_row-AreDistinct r m d =
    updated (get (key_of r) (ensure_activity r m)) (ensured (has (key_of r) m))
  where
    ensured : (b : Bool) → AreDistinct (keys (if b then m else set (key_of r) (new_activity r) m))
    ensured true = d
    ensured false = set-AreDistinct (key_of r) (new_activity r) m d

    updated :
        (o : Option Activity)
        → AreDistinct (keys (ensure_activity r m))
        → AreDistinct (keys (update (key_of r) o r (ensure_activity r m)))
    updated none d = d
    updated (some item) d = set-AreDistinct (key_of r) (add_slot r item) (ensure_activity r m) d

activities_from-AreDistinct :
    (rows : List Named) (m : List (List ℕ × Activity))
    → AreDistinct (keys m)
    → AreDistinct (keys (activities_from m rows))
unfolding activities_from
activities_from-AreDistinct [] m d = d
activities_from-AreDistinct (r ∷ rows) m d =
    activities_from-AreDistinct rows (push_row r m) (push_row-AreDistinct r m d)

-- An activity grown by rows: its key and first row stay, its weeks are grouped on.
extend_all-some :
    (item : Activity) (rows : List Named)
    → extend_all (some item) rows
      ≡ some (record item { by_week = group_from week_of item.by_week rows })
unfolding group_from
extend_all-some item [] = refl
extend_all-some item (r ∷ rows) = extend_all-some (add_slot r item) rows

-- The rows of an activity's key.
abbrev pub rows_of : List Named → Activity → List Named
rows_of rows a = keep (λ r. key_of r === a.key) rows

-- `first` is the first row of the key, and each week's list is all rows of the key and that week, in
-- the order of the rows, and has a row.
pub record IsWhole (rows : List Named) (a : Activity) : Type 0 where
  pub rest : List Named
  pub leads : rows_of rows a ≡ a.first ∷ rest
  pub weeks : a.by_week ≡ group_from week_of [] (rows_of rows a)
  pub slots : All (IsGroup week_of (rows_of rows a)) a.by_week

keep-head :
    (k : List ℕ) (rows : List Named) {r : Named} {rest : List Named}
    → keep (λ r. key_of r === k) rows ≡ r ∷ rest
    → key_of r ≡ k
keep-head k rows {r} {rest} e =
    (Text-eq.same_iff (key_of r) k).0
      (In-keep (λ r. key_of r === k) r rows (subst (In r) (sym e) (inl refl))).1

entry-IsWhole :
    (rows : List Named) (k : List ℕ) (a : Activity) (kept : List Named)
    → keep (λ r. key_of r === k) rows ≡ kept
    → some a ≡ extend_all none kept
    → IsWhole rows a
unfolding group_from
entry-IsWhole rows k a [] e h = cc
entry-IsWhole rows k a (r ∷ rest) e h = of_rows same
  where
    same : a ≡ record { key = key_of r; first = r; by_week = group_from week_of [] (r ∷ rest) }
    same = let found = h ∙ extend_all-some (add_slot r (new_activity r)) rest in cc

    of_rows :
        a ≡ record { key = key_of r; first = r; by_week = group_from week_of [] (r ∷ rest) }
        → IsWhole rows a
    of_rows same =
        let own : rows_of rows a ≡ r ∷ rest =
          ap (λ j. keep (λ r. key_of r === j) rows) (ap (λ a. a.key) same ∙ keep-head k rows e)
          ∙ e in
        let weeks : a.by_week ≡ group_from week_of [] (rows_of rows a) =
          ap (λ a. a.by_week) same ∙ ap (group_from week_of []) (sym own) in
        record {
          rest = rest;
          leads = own ∙ ap (λ b. b ∷ rest) (sym (ap (λ a. a.first) same));
          weeks = weeks;
          slots =
              subst (All (IsGroup week_of (rows_of rows a))) (sym weeks)
                (group_from-IsGroup week_of (rows_of rows a));
        }

All-values :
    (P : Activity → Type 0) (m : List (List ℕ × Activity)) → All (λ b. P b.1) m → All P (values m)
All-values P [] h = tt
All-values P ((k, a) ∷ m) h = (h.0, All-values P m h.1)

In-values :
    (k : List ℕ) (m : List (List ℕ × Activity)) {a : Activity} → get k m ≡ some a → In a (values m)
unfolding get
In-values k [] {a} h = cc
In-values k ((j, b) ∷ m) {a} h = elim (Bool-cases (j === k)) [
  | inl here ↦ let x : some b ≡ some a = rw here at h in inl cc
  | inr other ↦ let x : get k m ≡ some a = rw other at h in inr (In-values k m x)
]

-- Each row has an activity of its key.
abbrev pub AreAll : List Named → List Activity → Type 0
AreAll rows activities = All (λ r. (a : Activity) × In a activities × (a.key ≡ key_of r)) rows

values-of :
    (rows : List Named) (r : Named)
    → In r rows
    → (a : Activity) × In a (values (activities_from [] rows)) × (a.key ≡ key_of r)
unfolding get
values-of rows r i =
    by_kept (keep (λ x. key_of x === key_of r) rows) refl (get-activities_from (key_of r) rows [])
  where
    kept : In r (keep (λ x. key_of x === key_of r) rows)
    kept =
        keep-In (λ x. key_of x === key_of r) r rows i
          ((Text-eq.same_iff (key_of r) (key_of r)).1 refl)

    by_kept :
        (rs : List Named)
        → keep (λ x. key_of x === key_of r) rows ≡ rs
        → get (key_of r) (activities_from [] rows)
          ≡ extend_all none (keep (λ x. key_of x === key_of r) rows)
        → (a : Activity) × In a (values (activities_from [] rows)) × (a.key ≡ key_of r)
    by_kept [] e h = absurd (subst (In r) e kept)
    by_kept (x ∷ rest) e h =
        let found =
          h ∙ ap (extend_all none) e ∙ extend_all-some (add_slot x (new_activity x)) rest in
        (_, In-values (key_of r) (activities_from [] rows) found, keep-head (key_of r) rows e)

module _ (before : List ℕ → List ℕ → Bool) where
  sorted-In :
      (rows : List Named) (a : Activity)
      → In a (values (activities_from [] rows))
      → In a (activity_rows before rows)
  unfolding activity_rows
  sorted-In rows a i =
      let all = values (activities_from [] rows) in
      let order = (λ (a b : Activity). before a.first.id b.first.id) in
      In-All (λ b. In b (sort order all)) a all i
        (sort-All_rev order (λ b. In b (sort order all)) all
          (All-of_In (λ b. In b (sort order all)) (sort order all) (λ b j. j)))

  -- The timeline loses no access and shows none under another: every activity starts with the first
  -- row of its key, the text of its project's number and its id; its weeks hold all rows of that key and
  -- week in their order, no week is empty, and each row has an activity of its key.
  pub activity_rows-IsWhole :
      (rows : List Named)
      → All (IsWhole rows) (activity_rows before rows) × AreAll rows (activity_rows before rows)
  unfolding activity_rows get
  activity_rows-IsWhole rows = (
    sort-All (λ a b. before a.first.id b.first.id) (IsWhole rows) (values m)
        (All-values (IsWhole rows) m (
          All-map _ _
            (λ b h. entry-IsWhole rows b.0 b.1 _ refl (sym h ∙ get-activities_from b.0 rows [])) m
            (get-entries m (activities_from-AreDistinct rows [] tt)))),
    All-of_In _ rows
        (λ r i. let (a, there, same) = values-of rows r i in (a, sorted-In rows a there, same)),
  )
    where
      m : List (List ℕ × Activity)
      m = activities_from [] rows
