-- ===== src/Language/Completeness.antt =====
-- What `T` answers in each language.
use chocobofix.Prelude.{
  String, string_eq, ◌≡◌, refl, sym, ◌∙◌, ap, Bool, Option, none, some, List, [], ◌∷◌, All, map,
  inl, inr, ◌===◌, Bool-cases,
}
use chocobofix.Prelude.JsMap.{get}
use chocobofix.Language.{tables, own, or_text, translate, markers, mentions}
use chocobofix.Language.English.{english}
use chocobofix.Language.English.First.{english_first}
use chocobofix.Language.English.Second.{english_second}
use chocobofix.Language.English.Third.{english_third}
use chocobofix.Language.Malay.{malay}
use chocobofix.Language.Malay.First.{malay_first}
use chocobofix.Language.Malay.Second.{malay_second}
use chocobofix.Language.Malay.Third.{malay_third}
use chocobofix.Language.Tamil.{tamil}
use chocobofix.Language.Tamil.First.{tamil_first}
use chocobofix.Language.Tamil.Second.{tamil_second}
use chocobofix.Language.Tamil.Third.{tamil_third}
use chocobofix.Language.Chinese.{chinese}
use chocobofix.Language.Chinese.First.{chinese_first}
use chocobofix.Language.Chinese.Second.{chinese_second}
use chocobofix.Language.Chinese.Third.{chinese_third}

-- Of each text, which of the places it has.
abbrev places : String → List Bool
places t = map (λ m. mentions m t) markers

abbrev outline : List (String × String) → List (String × List Bool)
outline texts = map (λ e. (e.0, places e.1)) texts

malay-outline : outline malay ≡ outline english
unfolding malay malay_first malay_second malay_third english english_first english_second
    english_third
malay-outline = refl

tamil-outline : outline tamil ≡ outline english
unfolding tamil tamil_first tamil_second tamil_third english english_first english_second
    english_third
tamil-outline = refl

chinese-outline : outline chinese ≡ outline english
unfolding chinese chinese_first chinese_second chinese_third english english_first english_second
    english_third
chinese-outline = refl

abbrev places_of : Option String → Option (List Bool)
places_of none = none
places_of (some w) = some (places w)

abbrev or_no_places : List Bool → Option (List Bool) → List Bool
or_no_places bs none = bs
or_no_places bs (some cs) = cs

get-outline :
    (k : String) (texts : List (String × String)) → get k (outline texts) ≡ places_of (get k texts)
unfolding get
get-outline k [] = refl
get-outline k ((j, w) ∷ texts) = elim (Bool-cases (j === k)) [
  | inl here ↦ rw here refl
  | inr later ↦ rw later (get-outline k texts)
]

-- The four languages of the interface.
abbrev pub languages : List String
languages = "en" ∷ "ms" ∷ "ta" ∷ "zh" ∷ []

-- A text in a language agrees with the English one: it is there, `T` gives it, and it has the same
-- places to fill.
abbrev pub IsTranslated : String → String → String → Type 0
IsTranslated lang k w =
    (u : String) × (own k (get lang tables) ≡ some u)
    × (translate lang k ≡ u)
    × (places u ≡ places w)

agrees :
    (texts : List (String × String))
    → outline texts ≡ outline english
    → (k w : String) → get k english ≡ some w
    → (u : String) × (get k texts ≡ some u) × (places u ≡ places w)
agrees texts h k w e = found (get k texts) refl same
  where
    same : places_of (get k texts) ≡ some (places w)
    same = sym (get-outline k texts) ∙ ap (get k) h ∙ get-outline k english ∙ ap places_of e

    found :
        (o : Option String)
        → get k texts ≡ o
        → places_of o ≡ some (places w)
        → (u : String) × (get k texts ≡ some u) × (places u ≡ places w)
    found none f p = cc
    found (some u) f p = (u, f, ap (or_no_places (places w)) p)

translated :
    (lang k : String) {u : String} → own k (get lang tables) ≡ some u → translate lang k ≡ u
unfolding translate
translated lang k {u} e = ap (λ o. or_text o (or_text (get k english) k)) e

untranslated :
    (lang k : String) → own k (get lang tables) ≡ none → get k english ≡ none → translate lang k ≡ k
unfolding translate
untranslated lang k e f =
    ap (λ o. or_text o (or_text (get k english) k)) e ∙ ap (λ o. or_text o k) f

-- Every text that English has is there in each of the four languages, so that `T` falls back to no
-- other table, and it has the same places to fill as the English text.
pub translate_complete :
    (k w : String) → get k english ≡ some w → All (λ lang. IsTranslated lang k w) languages
unfolding tables get
translate_complete k w e = (
  (w, e, translated "en" k e, refl),
  (
    shown "ms" (agrees malay malay-outline k w e),
    (
      shown "ta" (agrees tamil tamil-outline k w e),
      (shown "zh" (agrees chinese chinese-outline k w e), tt),
    ),
  ),
)
  where
    shown :
        (lang : String)
        → ((u : String) × (own k (get lang tables) ≡ some u) × (places u ≡ places w))
        → IsTranslated lang k w
    shown lang (u, f, p) = (u, f, translated lang k f, p)

absent_also :
    (texts : List (String × String))
    → outline texts ≡ outline english
    → (k : String) → get k english ≡ none
    → get k texts ≡ none
absent_also texts h k e =
    missing (get k texts) refl
      (sym (get-outline k texts) ∙ ap (get k) h ∙ get-outline k english ∙ ap places_of e)
  where
    missing : (o : Option String) → get k texts ≡ o → places_of o ≡ none → get k texts ≡ none
    missing none f p = f
    missing (some u) f p = cc

-- A key that English does not have is shown as it is in each of the four languages.
pub translate-unknown :
    (k : String) → get k english ≡ none → All (λ lang. translate lang k ≡ k) languages
unfolding tables get
translate-unknown k e = (
  untranslated "en" k e e,
  (
    untranslated "ms" k (absent_also malay malay-outline k e) e,
    (
      untranslated "ta" k (absent_also tamil tamil-outline k e) e,
      (untranslated "zh" k (absent_also chinese chinese-outline k e) e, tt),
    ),
  ),
)

-- With no table for the language of the setting, the texts are the English ones.
pub translate-other_language :
    (lang k : String) → get lang tables ≡ none → translate lang k ≡ translate "en" k
unfolding tables get translate
translate-other_language lang k e =
    ap (λ t. or_text (own k t) (or_text (get k english) k)) e ∙ twice (get k english)
  where
    twice : (o : Option String) → or_text o k ≡ or_text o (or_text o k)
    twice none = refl
    twice (some w) = refl
