-- ===== src/Upload/Wizard.antt =====
-- The wizard of the first interface keeps the last file of each name.
use chocobofix.Prelude.{
  ℕ, ◌+◌, ◌∙◌, ◌≡◌, ◌∙◌, refl, ap, Bool, true, false, Option, some, List, [], ◌∷◌, inl, inr, arith,
  length, keep, not, if◌then◌else◌, Bool-cases,
}
use chocobofix.Prelude.JsMap.{get, set, get-set}
use chocobofix.Prelude.Text.{Text-eq, text_eq, text_eq_iff}
use chocobofix.Upload.{File, listed, add}

-- The last file of a name in a choice.
abbrev pub last_named : List ℕ → List File → Option File → Option File
last_named k [] before = before
last_named k (f ∷ list) before = last_named k list (if text_eq f.name k then some f else before)

module _ (k : List ℕ) (f : File) (picked : List (List ℕ × File)) where
  get-step :
      get k (if listed f.name then set f.name f picked else picked)
      ≡ (if listed k then (if text_eq f.name k then some f else get k picked) else get k picked)
  get-step = elim (Bool-cases (text_eq f.name k)) [
    | inl here ↦ at_name here (ap listed ((text_eq_iff f.name k).0 here))
    | inr other ↦ elsewhere other
  ]
    where
      at_name :
          text_eq f.name k ≡ true
          → listed f.name ≡ listed k
          → get k (if listed f.name then set f.name f picked else picked) ≡ (
              if listed k
              then (if text_eq f.name k then some f else get k picked)
              else get k picked)
      at_name here same = ground (arith, get-set f.name k f picked)

      elsewhere :
          text_eq f.name k ≡ false
          → get k (if listed f.name then set f.name f picked else picked) ≡ (
              if listed k
              then (if text_eq f.name k then some f else get k picked)
              else get k picked)
      elsewhere other = ground (arith, get-set f.name k f picked)

get-add :
    (list : List File) (picked : List (List ℕ × File)) (k : List ℕ)
    → get k (add list picked).0
      ≡ (if listed k then last_named k list (get k picked) else get k picked)
unfolding add
get-add [] picked k = ground arith
get-add (f ∷ list) picked k =
    first_of (listed f.name) (add list next)
    ∙ get-add list next k
    ∙ ap (λ o. if listed k then last_named k list o else o) (get-step k f picked)
    ∙ merged (listed k)
  where
    next : List (List ℕ × File)
    next = if listed f.name then set f.name f picked else picked

    first_of :
        (b : Bool) (r : List (List ℕ × File) × ℕ)
        → get k (if b then r else (r.0, r.1 + 1)).0 ≡ get k r.0
    first_of true r = refl
    first_of false r = refl

    merged :
        (b : Bool)
        → (let o =
              if b then (if text_eq f.name k then some f else get k picked) else get k picked in
            if b then last_named k list o else o)
          ≡ (if b then last_named k (f ∷ list) (get k picked) else get k picked)
    merged true = refl
    merged false = refl

count-add :
    (list : List File) (picked : List (List ℕ × File))
    → (add list picked).1 ≡ length (keep (λ f. not (listed f.name)) list)
unfolding add
count-add [] picked = refl
count-add (f ∷ list) picked =
    ground (arith, count-add list (if listed f.name then set f.name f picked else picked))

-- After a choice, the wizard has for each of the eight names the last file of that name in the
-- choice, or the one it had before; for every other name it has what it had before; and it
-- counts each file of another name as ignored.
pub add-latest :
    (list : List File) (picked : List (List ℕ × File))
    → ((k : List ℕ)
        → get k (add list picked).0
          ≡ (if listed k then last_named k list (get k picked) else get k picked))
      × ((add list picked).1 ≡ length (keep (λ f. not (listed f.name)) list))
unfolding add
add-latest list picked = (get-add list picked, count-add list picked)
