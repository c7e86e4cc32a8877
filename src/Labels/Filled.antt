-- ===== src/Labels/Filled.antt =====
-- No label of the settings is missing in a language.
use chocobofix.Prelude.{
  String, string_eq, ◌≡◌, ◌≢◌, refl, sym, ◌∙◌, ap, Bool, false, Option, none, some, List, [], ◌∷◌,
  All, map, inl, inr, ◌===◌, Bool-cases, eq_iff, arith,
}
use chocobofix.Prelude.JsMap.{get}
use chocobofix.Labels.{
  english_labels, malay_labels, chinese_labels, tamil_labels, strings, or_label, label_in, t,
}

-- Of each label, whether it is empty.
abbrev empties : List (String × String) → List (String × Bool)
empties texts = map (λ e. (e.0, e.1 === "")) texts

abbrev none_empty : List (String × String) → List (String × Bool)
none_empty texts = map (λ e. (e.0, false)) texts

abbrev empty_of : Option String → Option Bool
empty_of none = none
empty_of (some w) = some (w === "")

abbrev filled_of : Option String → Option Bool
filled_of none = none
filled_of (some w) = some false

get-empties :
    (k : String) (texts : List (String × String)) → get k (empties texts) ≡ empty_of (get k texts)
unfolding get
get-empties k [] = refl
get-empties k ((j, w) ∷ texts) = elim (Bool-cases (j === k)) [
  | inl here ↦ rw here refl
  | inr later ↦ rw later (get-empties k texts)
]

get-none_empty :
    (k : String) (texts : List (String × String))
    → get k (none_empty texts) ≡ filled_of (get k texts)
unfolding get
get-none_empty k [] = refl
get-none_empty k ((j, w) ∷ texts) = elim (Bool-cases (j === k)) [
  | inl here ↦ rw here refl
  | inr later ↦ rw later (get-none_empty k texts)
]

-- A language has the label, it is not empty, and `t` gives it.
abbrev pub IsLabelled : String → String → Type 0
IsLabelled k lang =
    (u : String) × (label_in k (get lang strings) ≡ some u) × (u ≢ "") × (t lang k ≡ u)

labelled :
    (lang : String) (texts : List (String × String))
    → get lang strings ≡ some texts
    → empties texts ≡ none_empty english_labels
    → (k w : String) → get k english_labels ≡ some w
    → IsLabelled k lang
unfolding t
labelled lang texts l h k w e =
    found (get k texts) refl
      (sym (get-empties k texts) ∙ ap (get k) h ∙ get-none_empty k english_labels ∙ ap filled_of e)
  where
    filled_text : (u : String) → (u === "") ≡ false → u ≢ ""
    filled_text u filled q = ground (arith, eq_iff u "")

    found : (o : Option String) → get k texts ≡ o → empty_of o ≡ some false → IsLabelled k lang
    found none f p = cc
    found (some u) f p =
        let filled : (u === "") ≡ false = cc in
        let here : label_in k (get lang strings) ≡ some u = ap (label_in k) l ∙ f in
        (
          u,
          here,
          filled_text u filled,
          ap (λ o. or_label o (or_label (get k english_labels) k)) here ∙ rw filled refl,
        )

-- Every label that English has is there in each of the four languages and is not empty, so that
-- `t` gives the language's own text.
pub t-labels :
    (k w : String)
    → get k english_labels ≡ some w
    → All (IsLabelled k) ("en" ∷ "ms" ∷ "zh" ∷ "ta" ∷ [])
unfolding get
t-labels k w e = (
  labelled "en" english_labels refl refl k w e,
  (
    labelled "ms" malay_labels refl refl k w e,
    (
      labelled "zh" chinese_labels refl refl k w e,
      (labelled "ta" tamil_labels refl refl k w e, tt),
    ),
  ),
)
