-- ===== src/Upload/Conservation.antt =====
-- No chosen file is lost and none is used twice.
use mathlib.Core.List.{Perm, append_assoc, append-nil, perm_middle}
use mathlib.Core.List.Perm
use chocobofix.Prelude.{
  ℕ, ◌≡◌, refl, subst, true, Option, none, some, List, [], ◌∷◌, ◌++◌, inl, inr, map, Bool-cases,
  ◌===◌,
}
use chocobofix.Prelude.JsMap.{get, set, has, keys}
use chocobofix.Prelude.Text.{Text-eq}
use chocobofix.Upload.{
  instance_files, File, Slots, held, target, place_at, place_all, no_files, match_files,
}
use chocobofix.Upload.Placement.{
  target-IsFitting, IsWellPlaced, place_at-IsWellPlaced, no_files-IsWellPlaced,
}

-- The names of the files that stand in a map.
abbrev pub names_in : Slots → List (List ℕ)
names_in [] = []
names_in ((k, none) ∷ slots) = names_in slots
names_in ((k, some f) ∷ slots) = f.name ∷ names_in slots

names_in-set :
    (k : List ℕ) (f : File) (slots : Slots)
    → has k slots ≡ true
    → held k slots ≡ none
    → Perm (names_in (set k (some f) slots)) (f.name ∷ names_in slots)
unfolding get set
names_in-set k f [] h e = cc
names_in-set k f ((j, w) ∷ slots) h e = elim (Bool-cases (j === k)) [
  | inl here ↦ rw here (now w (rw here at e))
  | inr later ↦ rw later (later_on w (names_in-set k f slots (rw later at h) (rw later at e)))
]
  where
    now :
        (w : Option File)
        → w ≡ none
        → Perm (f.name ∷ names_in slots) (f.name ∷ names_in ((j, w) ∷ slots))
    now none e = Perm.refl (f.name ∷ names_in slots)
    now (some g) e = cc

    later_on :
        (w : Option File)
        → Perm (names_in (set k (some f) slots)) (f.name ∷ names_in slots)
        → Perm (names_in ((j, w) ∷ set k (some f) slots)) (f.name ∷ names_in ((j, w) ∷ slots))
    later_on none p = p
    later_on (some g) p = Perm.trans (Perm.cons g.name p) (Perm.swap f.name g.name (names_in slots))

to_front : (n : List ℕ) (l : List (List ℕ)) → Perm (l ++ n ∷ []) (n ∷ l)
to_front n l = subst (λ m. Perm (l ++ n ∷ []) (n ∷ m)) (append-nil l) (perm_middle l [])

place_at-Perm :
    (f : File) (slots : Slots) (extra : List (List ℕ)) (o : Option (List ℕ))
    → target f.name slots ≡ o
    → keys slots ≡ instance_files
    → let (next, more) = place_at o f slots extra in
      Perm (names_in next ++ more) (f.name ∷ (names_in slots ++ extra))
place_at-Perm f slots extra none t ks =
    subst (λ l. Perm l (f.name ∷ (names_in slots ++ extra)))
      (append_assoc (names_in slots) extra (f.name ∷ []))
      (to_front f.name (names_in slots ++ extra))
place_at-Perm f slots extra (some k) t ks =
    let (there, empty, _) = target-IsFitting f.name slots ks t in
    Perm.append_right extra (names_in-set k f slots there empty)

place_all-Perm :
    (files : List File) (slots : Slots) (extra : List (List ℕ))
    → IsWellPlaced slots
    → let (last, more) = place_all files slots extra in
      Perm (names_in last ++ more) (map (λ f. f.name) files ++ (names_in slots ++ extra))
unfolding place_all
place_all-Perm [] slots extra w = Perm.refl (names_in slots ++ extra)
place_all-Perm (f ∷ files) slots extra w =
    let next = place_at (target f.name slots) f slots extra in
    Perm.trans
      (place_all-Perm files next.0 next.1
        (place_at-IsWellPlaced f slots extra (target f.name slots) refl w))
      (Perm.trans
        (Perm.append_left (map (λ g. g.name) files)
          (place_at-Perm f slots extra (target f.name slots) refl w.0))
        (perm_middle (map (λ g. g.name) files) (names_in slots ++ extra)))

-- The names of the chosen files are, up to their order, those of the files in the map and those
-- that the report lists as extra: no file is lost, and none is counted twice.
pub match_files-Perm :
    (files : List File)
    → Perm
        (names_in (match_files files).matched ++ (match_files files).extra)
        (map (λ f. f.name) files)
unfolding match_files
match_files-Perm files =
    Perm.trans (place_all-Perm files no_files [] no_files-IsWellPlaced)
      (subst (Perm (map (λ f. f.name) files ++ [])) (append-nil _) (Perm.refl _))
