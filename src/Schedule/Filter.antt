-- ===== src/Schedule/Filter.antt =====
-- What the filters of the schedule show.
use chocobofix.Prelude.{
  ℕ, ◌≤◌, ◌≡◌, ◌≢◌, refl, sym, ap, subst, Bool, true, false, ◌&&◌, Option, none, some, List, [],
  inl, inr, arith, Bool-cases, In, In-keep, keep-In, ◌↔◌,
}
use chocobofix.Prelude.Decimal.{
  decimal, decimal-injective, decimal-AreDigits, is_empty-decimal, AreDigits,
}
use chocobofix.Prelude.Text.{units, Text-eq, text_eq, text_eq_iff, starts_with}
use chocobofix.Schedule.{
  Coordinator, Row, Filters, owner_text, owner_of, is_owned, passes, filter_rows,
}

-- The texts that stand for no number.
not_digits : (n : ℕ) (s : List ℕ) → ¬ AreDigits s → decimal n ≢ s
not_digits n s h e = h (subst AreDigits e (decimal-AreDigits n))

no_digits_unassigned : ¬ AreDigits (units "unassigned")
no_digits_unassigned h = let bad : 117 ≤ 57 = h.0.1 in omega arith

no_digits_undefined : ¬ AreDigits (units "undefined")
no_digits_undefined h = let bad : 117 ≤ 57 = h.0.1 in omega arith

no_digits_null : ¬ AreDigits (units "null")
no_digits_null h = let bad : 110 ≤ 57 = h.0.1 in omega arith

-- The id of a row's coordinator.
abbrev pub assigned_to : Option Coordinator → Option ℕ
assigned_to none = none
assigned_to (some c) = c.coordinator_id

owner_text_iff :
    (o : Option Coordinator) (n : ℕ)
    → (text_eq (owner_text o) (decimal n) ≡ true) ↔ (assigned_to o ≡ some n)
owner_text_iff none n =
    (λ h. absurd (not_digits n _ no_digits_undefined (sym ((text_eq_iff _ _).0 h))), λ h. cc)
owner_text_iff (some c) n = by_id c.coordinator_id
  where
    by_id :
        (i : Option ℕ)
        → (text_eq (elim i [ some m ↦ decimal m | none ↦ units "null" ]) (decimal n) ≡ true)
          ↔ (i ≡ some n)
    by_id none =
        (λ h. absurd (not_digits n _ no_digits_null (sym ((text_eq_iff _ _).0 h))), λ h. cc)
    by_id (some m) = (
      λ h. ap some (decimal-injective m n ((text_eq_iff _ _).0 h)),
      λ h. let same : m ≡ n = cc in (text_eq_iff _ _).1 (ap decimal same),
    )

is_owned_iff :
    (n : ℕ) (r : Row) → (is_owned (decimal n) r ≡ true) ↔ (assigned_to r.coordinator ≡ some n)
is_owned_iff n r = rw (is_empty-decimal n) (rw unlike (owner_text_iff r.coordinator n))
  where
    unlike : text_eq (decimal n) (units "unassigned") ≡ false
    unlike = elim (Bool-cases (text_eq (decimal n) (units "unassigned"))) [
      | inl same ↦ absurd (not_digits n _ no_digits_unassigned ((text_eq_iff _ _).0 same))
      | inr other ↦ other
    ]

-- The same filters for everyone's work.
abbrev pub everyone : Filters → Filters
everyone f = record {
  query = f.query;
  person = [];
  week = f.week;
  access = f.access;
  priority = f.priority;
  me_id = f.me_id;
}

module _ (number : List ℕ → Option ℕ) (lower : List ℕ → List ℕ) where
  passes-mine :
      (f : Filters) (n : ℕ) (r : Row)
      → starts_with f.person (units "me:") ≡ true
      → f.me_id ≡ some n
      → (passes number lower f r ≡ true)
        ↔ ((assigned_to r.coordinator ≡ some n) × (passes number lower (everyone f) r ≡ true))
  unfolding starts_with
  passes-mine f n r me is_n =
      both (is_owned (owner_of f) r) (passes number lower (everyone f) r)
        (rw me (rw is_n (is_owned_iff n r)))
    where
      both :
          (a b : Bool)
          → (a ≡ true) ↔ (assigned_to r.coordinator ≡ some n)
          → (a && b ≡ true) ↔ ((assigned_to r.coordinator ≡ some n) × (b ≡ true))
      both true b h = (λ q. (h.0 refl, q), λ q. q.1)
      both false b h = (λ q. cc, λ q. h.1 q.0)

  -- The filter for the own work of the user n, in whatever combination with the other filters,
  -- shows exactly those rows of the others' result that are assigned to n: no assigned row is
  -- missed and no row of another coordinator, or of none, is shown.
  pub filter_rows-mine :
      (rows : List Row) (f : Filters) (n : ℕ) (r : Row)
      → starts_with f.person (units "me:") ≡ true
      → f.me_id ≡ some n
      → In r (filter_rows number lower rows f)
        ↔ ((assigned_to r.coordinator ≡ some n) × In r (filter_rows number lower rows (everyone f)))
  unfolding filter_rows
  filter_rows-mine rows f n r me is_n = (
    λ i.
        let (j, h) = In-keep (passes number lower f) r rows i in
        let (mine, others) = (passes-mine f n r me is_n).0 h in
        (mine, keep-In (passes number lower (everyone f)) r rows j others),
    λ k.
        let (j, h) = In-keep (passes number lower (everyone f)) r rows k.1 in
        keep-In (passes number lower f) r rows j ((passes-mine f n r me is_n).1 (k.0, h)),
  )
