-- ===== src/Upload/Placement.antt =====
-- Where the loop of `matchFiles` puts a file.
use chocobofix.Prelude.{
  ℕ, ◌≡◌, refl, sym, ◌∙◌, subst, true, false, Option, none, some, List, [], ◌∷◌, ◌++◌, ◌⊎◌, inl,
  inr, arith, is_some, In, find-In, find_holds, Bool-cases, All,
}
use chocobofix.Prelude.JsMap.{has, keys, keys-set, has-keys, get-set, All-set_entry}
use chocobofix.Prelude.Text.{Text-eq, starts_with, text_eq_iff}
use chocobofix.Upload.{
  instance_files, File, leading, Slots, held, numbered, slot_of, unless_held, is_vacant, target,
  place_at, place_all, no_files, match_files,
}

-- A file may stand in a slot: it has the slot's name, or begins with the slot's two digits and a
-- separator.
abbrev pub IsFitting : List ℕ → List ℕ → Type 0
IsFitting name slot =
    (name ≡ slot)
    ⊎ ((number : List ℕ) × (leading name ≡ some number)
        × (starts_with slot (number ++ 95 ∷ []) ≡ true))

slot_of-IsFitting :
    (name : List ℕ) (o : Option (List ℕ)) {slot : List ℕ}
    → leading name ≡ o
    → numbered o ≡ some slot
    → In slot instance_files × IsFitting name slot
slot_of-IsFitting name none {slot} leads e = cc
slot_of-IsFitting name (some number) {slot} leads e = (
  find-In (λ n. starts_with n (number ++ 95 ∷ [])) instance_files e,
  inr (number, leads, find_holds (λ n. starts_with n (number ++ 95 ∷ [])) instance_files e),
)

vacant :
    (k : List ℕ) (slots : Slots)
    → is_vacant k slots ≡ true
    → (has k slots ≡ true) × (held k slots ≡ none)
vacant k slots h = ground arith

unless_held-some :
    (o : Option (List ℕ)) (slots : Slots) {slot : List ℕ}
    → unless_held o slots ≡ some slot
    → (o ≡ some slot) × (held slot slots ≡ none)
unless_held-some none slots {slot} e = cc
unless_held-some (some n) slots {slot} e = elim (Bool-cases (is_some (held n slots))) [
  | inl taken ↦ let h : none ≡ some slot = rw taken at e in cc
  | inr free ↦
      let h : some n ≡ some slot = rw free at e in
      let same : n ≡ slot = cc in (h, subst (λ k. held k slots ≡ none) same (no_file free))
]
  where
    no_file : is_some (held n slots) ≡ false → held n slots ≡ none
    no_file free = ground arith

-- A file goes only to an empty slot of the map that it fits.
pub target-IsFitting :
    (name : List ℕ) (slots : Slots) {slot : List ℕ}
    → keys slots ≡ instance_files
    → target name slots ≡ some slot
    → (has slot slots ≡ true) × (held slot slots ≡ none) × IsFitting name slot
unfolding target
target-IsFitting name slots {slot} k e = elim (Bool-cases (is_vacant name slots)) [
  | inl own ↦
      let h : some name ≡ some slot = rw own at e in
      let same : name ≡ slot = cc in
      let (there, empty) = vacant name slots own in
      (
        subst (λ n. has n slots ≡ true) same there,
        subst (λ n. held n slots ≡ none) same empty,
        inl same,
      )
  | inr other ↦
      let (f, empty) = unless_held-some (slot_of name) slots (rw other at e) in
      let (i, fits) = slot_of-IsFitting name (leading name) refl f in
      (has-keys slot slots (subst (λ ks. In slot ks) (sym k) i), empty, fits)
]

abbrev pub IsFilledWell : List ℕ × Option File → Type 0
IsFilledWell (slot, none) = Unit
IsFilledWell (slot, some f) = IsFitting f.name slot

-- What holds of the map all through the loop: its keys are the eight names in their order, and
-- each file in it fits its slot.
abbrev pub IsWellPlaced : Slots → Type 0
IsWellPlaced slots = (keys slots ≡ instance_files) × All IsFilledWell slots

pub place_at-IsWellPlaced :
    (f : File) (slots : Slots) (extra : List (List ℕ)) (o : Option (List ℕ))
    → target f.name slots ≡ o
    → IsWellPlaced slots
    → IsWellPlaced (place_at o f slots extra).0
place_at-IsWellPlaced f slots extra none t h = h
place_at-IsWellPlaced f slots extra (some k) t (ks, h) =
    let (there, _, fits) = target-IsFitting f.name slots ks t in
    (keys-set k (some f) slots there ∙ ks, All-set_entry IsFilledWell k (some f) slots fits h)

pub place_all-IsWellPlaced :
    (files : List File) (slots : Slots) (extra : List (List ℕ))
    → IsWellPlaced slots
    → IsWellPlaced (place_all files slots extra).0
unfolding place_all
place_all-IsWellPlaced [] slots extra h = h
place_all-IsWellPlaced (f ∷ files) slots extra h =
    let next = place_at (target f.name slots) f slots extra in
    place_all-IsWellPlaced files next.0 next.1
      (place_at-IsWellPlaced f slots extra (target f.name slots) refl h)

pub no_files-IsWellPlaced : IsWellPlaced no_files
no_files-IsWellPlaced = (refl, (tt, (tt, (tt, (tt, (tt, (tt, (tt, (tt, tt)))))))))

-- The map of the report has the eight names in their order, whatever files are chosen, and a file
-- stands only in a slot that it fits, by its name or by its leading number.
pub match_files-IsWellPlaced : (files : List File) → IsWellPlaced (match_files files).matched
unfolding match_files
match_files-IsWellPlaced files = place_all-IsWellPlaced files no_files [] no_files-IsWellPlaced

held_stays :
    (f : File) (slots : Slots) (extra : List (List ℕ)) (o : Option (List ℕ))
    → target f.name slots ≡ o
    → keys slots ≡ instance_files
    → (k : List ℕ) (g : File) → held k slots ≡ some g
    → held k (place_at o f slots extra).0 ≡ some g
held_stays f slots extra none t ks k g h = h
held_stays f slots extra (some j) t ks k g h =
    let (_, empty, _) = target-IsFitting f.name slots ks t in
    ground (arith, get-set j k (some f) slots, text_eq_iff j k)

place_all-held :
    (files : List File) (slots : Slots) (extra : List (List ℕ)) (k : List ℕ) (g : File)
    → IsWellPlaced slots
    → held k slots ≡ some g
    → held k (place_all files slots extra).0 ≡ some g
unfolding place_all
place_all-held [] slots extra k g w h = h
place_all-held (f ∷ files) slots extra k g w h =
    let next = place_at (target f.name slots) f slots extra in
    place_all-held files next.0 next.1 k g
      (place_at-IsWellPlaced f slots extra (target f.name slots) refl w)
      (held_stays f slots extra (target f.name slots) refl w.0 k g h)

place_all-append :
    (files more : List File) (slots : Slots) (extra : List (List ℕ))
    → place_all (files ++ more) slots extra
      ≡ place_all more (place_all files slots extra).0 (place_all files slots extra).1
unfolding place_all
place_all-append [] more slots extra = refl
place_all-append (f ∷ files) more slots extra =
    let next = place_at (target f.name slots) f slots extra in
    place_all-append files more next.0 next.1

-- The file of a slot is never replaced by a file that follows it in the choice, not even by one
-- that has exactly the slot's name.
pub match_files-held :
    (files more : List File) (k : List ℕ) (g : File)
    → held k (match_files files).matched ≡ some g
    → held k (match_files (files ++ more)).matched ≡ some g
unfolding match_files
match_files-held files more k g h =
    let (slots, extra) = place_all files no_files [] in
    subst (λ r. held k r.0 ≡ some g) (sym (place_all-append files more no_files []))
      (place_all-held more slots extra k g
        (place_all-IsWellPlaced files no_files [] no_files-IsWellPlaced) h)
