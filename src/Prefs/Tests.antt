-- ===== src/Prefs/Tests.antt =====
-- A storage with a theme that is not offered, and two choices.
use chocobofix.Prelude.{◌≡◌, refl, String, none, some, List, [], ◌∷◌, inl, inr}
use chocobofix.Prelude.JsMap
use chocobofix.Prelude.JsMap.{get}
use chocobofix.Prefs.{Stored, fields, load, written, steps, take_all}
use chocobofix.Prefs.Reload.{load-written-steps}

abbrev content : Stored
content = fields (("theme", some "pink") ∷ ("textSize", some "larger") ∷ ("motion", none) ∷ [])

content_read :
    load content
    ≡ ("theme", "light") ∷ ("textSize", "larger") ∷ ("motion", "system") ∷ ("lang", "en") ∷ []
unfolding load take_all JsMap.set get
content_read = refl

abbrev choices : List (String × String)
choices = ("theme", "dark") ∷ ("textSize", "large") ∷ []

load-written-steps_example :
    load (written (steps (load content) choices)) ≡ steps (load content) choices
load-written-steps_example =
    load-written-steps content choices
      (inl (refl, inr (inl refl)), (inr (inl (refl, inr (inl refl))), tt))
