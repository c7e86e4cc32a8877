-- ===== src/Upload/Submission.antt =====
-- What `upload` sends.
use chocobofix.Prelude.{
  ℕ, ◌≤◌, ◌<◌, AreDistinct, IsNewIn, every, All-of_In, ◌&&◌, ◌≡◌, refl, sym, ◌∙◌, ap, subst, Bool,
  true, false, not, ◌||◌, Option, none, some, List, [], ◌∷◌, ◌⊎◌, inl, inr, arith, All, In-All,
  All-map, keep-nil, is_some, ltb, Bool-cases, Option-cases,
}
use chocobofix.Prelude.JsMap.{get, keys}
use chocobofix.Prelude.Text.{is_empty, Text-eq, text_eq, text_eq_iff}
use chocobofix.Upload.{
  instance_files, File, Slots, held, match_files, parts, then_cons, total_size, max_size, send,
  upload, ignored, sent, too_large,
}
use chocobofix.Upload.Placement.{IsFitting, IsFilledWell, match_files-IsWellPlaced}

-- A form of the eight parts in their order, each with a file that fits its part.
abbrev pub IsForm : List (List ℕ × File) → Type 0
IsForm form = (keys form ≡ instance_files) × All (λ p. IsFitting p.1.name p.0) form

parts-keys :
    (slots : Slots) {form : List (List ℕ × File)}
    → parts slots ≡ some form
    → All IsFilledWell slots
    → (keys form ≡ keys slots) × All (λ p. IsFitting p.1.name p.0) form
unfolding parts
parts-keys [] {form} e h =
    let same : [] ≡ form = cc in
    subst (λ l. (keys l ≡ []) × All (λ p. IsFitting p.1.name p.0) l) same (refl, tt)
parts-keys ((k, none) ∷ slots) {form} e h = cc
parts-keys ((k, some f) ∷ slots) {form} e h = elim (Option-cases (parts slots)) [
  | inl none_left ↦ let x : none ≡ some form = rw none_left at e in cc
  | inr (rest, r) ↦
      let (ks, fits) = parts-keys slots {form = rest} r h.1 in
      let x : some ((k, f) ∷ rest) ≡ some form = rw r at e in
      let same : (k, f) ∷ rest ≡ form = cc in
      subst (λ l. (keys l ≡ k ∷ keys slots) × All (λ p. IsFitting p.1.name p.0) l) same
        (ap (λ l. k ∷ l) ks, (h.0, fits))
]

parts-some :
    (slots : Slots)
    → AreDistinct (keys slots)
    → All (λ k. is_some (held k slots) ≡ true) (keys slots)
    → (form : List (List ℕ × File)) × (parts slots ≡ some form)
unfolding parts get
parts-some [] d h = ([], refl)
parts-some ((j, w) ∷ slots) d h =
    let (rest, r) =
      parts-some slots d.1
        (All-of_In _ (keys slots) λ k i. later k (In-All _ k _ i d.0) (In-All _ k _ i h.1)) in
    first w (own h.0) rest r
  where
    own : is_some (held j ((j, w) ∷ slots)) ≡ true → is_some w ≡ true
    own q = rw ((text_eq_iff j j).1 refl) at q

    later :
        (k : List ℕ)
        → ¬ (k ≡ j)
        → is_some (held k ((j, w) ∷ slots)) ≡ true
        → is_some (held k slots) ≡ true
    later k n q = elim (Bool-cases (text_eq j k)) [
      | inl here ↦ absurd (n (sym ((text_eq_iff j k).0 here)))
      | inr other ↦ rw other at q
    ]

    first :
        (w : Option File)
        → is_some w ≡ true
        → (rest : List (List ℕ × File)) → parts slots ≡ some rest
        → (form : List (List ℕ × File)) × (parts ((j, w) ∷ slots) ≡ some form)
    first none q rest r = cc
    first (some f) q rest r = ((j, f) ∷ rest, ap (then_cons (j, f)) r)

abbrev are_distinct : List (List ℕ) → Bool
are_distinct [] = true
are_distinct (k ∷ ks) = every (λ j. not (text_eq j k)) ks && are_distinct ks

are_distinct-AreDistinct : (ks : List (List ℕ)) → are_distinct ks ≡ true → AreDistinct ks
are_distinct-AreDistinct [] h = tt
are_distinct-AreDistinct (k ∷ ks) h =
    let (n, d) = both (every (λ j. not (text_eq j k)) ks) (are_distinct ks) h in
    (new ks n, are_distinct-AreDistinct ks d)
  where
    both : (a b : Bool) → a && b ≡ true → (a ≡ true) × (b ≡ true)
    both a b q = ground arith

    new : (js : List (List ℕ)) → every (λ j. not (text_eq j k)) js ≡ true → IsNewIn k js
    new [] q = tt
    new (j ∷ js) q = ground (arith, text_eq_iff j k, new js)

instance_files-AreDistinct : AreDistinct instance_files
unfolding text_eq
instance_files-AreDistinct = are_distinct-AreDistinct instance_files refl

missing_none :
    (files : List File)
    → is_empty (match_files files).missing ≡ true
    → All
        (λ k. is_some (held k (match_files files).matched) ≡ true)
        (keys (match_files files).matched)
unfolding match_files
missing_none files e =
    let slots = (match_files files).matched in
    subst (λ ks. All (λ k. is_some (held k slots) ≡ true) ks)
      (sym (match_files-IsWellPlaced files).0)
      (All-map _ _ (λ k h. there k h) instance_files
        (keep-nil (λ n. not (is_some (held n slots))) instance_files (nothing _ e)))
  where
    nothing : (l : List (List ℕ)) → is_empty l ≡ true → l ≡ []
    nothing [] h = refl
    nothing (x ∷ l) h = cc

    there :
        (k : List ℕ)
        → not (is_some (held k (match_files files).matched)) ≡ false
        → is_some (held k (match_files files).matched) ≡ true
    there k h = ground arith

-- Sending the files does nothing exactly when a file is missing or a sending is under way.
-- Otherwise it refuses files of more than 31 MB together and sends the others as a form of the
-- eight parts in their order, each with a file that fits it; it never reads a missing file.
pub upload-sends :
    (files : List File) (in_flight : Bool)
    → let report = match_files files in
      ((upload (some report) in_flight ≡ ignored)
        × ((is_empty report.missing ≡ false) ⊎ (in_flight ≡ true)))
      ⊎ ((is_empty report.missing ≡ true)
          × (in_flight ≡ false)
          × ((form : List (List ℕ × File)) × (parts report.matched ≡ some form)
              × IsForm form
              × (((upload (some report) in_flight ≡ too_large) × (max_size < total_size form))
                  ⊎ ((upload (some report) in_flight ≡ sent form) × (total_size form ≤ max_size)))))
unfolding upload
upload-sends files in_flight =
    let report = match_files files in
    elim (Bool-cases (not (is_empty report.missing) || in_flight)) [
      | inl guarded ↦ inl (rw guarded refl, reason (is_empty report.missing) guarded)
      | inr passed ↦
          let (none_missing, idle) = both (is_empty report.missing) passed in
          let (form, p) =
            parts-some report.matched
              (subst AreDistinct (sym (match_files-IsWellPlaced files).0)
                instance_files-AreDistinct)
              (missing_none files none_missing) in
          let (ks, fits) = parts-keys report.matched p (match_files-IsWellPlaced files).1 in
          inr (
            none_missing,
            idle,
            (
              form,
              p,
              (ks ∙ (match_files-IsWellPlaced files).0, fits),
              rw passed (rw p (limit form)),
            ),
          )
    ]
  where
    reason : (b : Bool) → not b || in_flight ≡ true → (b ≡ false) ⊎ (in_flight ≡ true)
    reason b h = ground arith

    both : (b : Bool) → not b || in_flight ≡ false → (b ≡ true) × (in_flight ≡ false)
    both b h = ground arith

    limit :
        (form : List (List ℕ × File))
        → ((send (some form) ≡ too_large) × (max_size < total_size form))
          ⊎ ((send (some form) ≡ sent form) × (total_size form ≤ max_size))
    limit form = elim (Bool-cases (ltb max_size (total_size form))) [
      | inl over ↦ inl (rw over refl, over_size over)
      | inr within ↦ inr (rw within refl, under_size within)
    ]
      where
        over_size : ltb max_size (total_size form) ≡ true → max_size < total_size form
        over_size h = ground arith

        under_size : ltb max_size (total_size form) ≡ false → total_size form ≤ max_size
        under_size h = ground arith
