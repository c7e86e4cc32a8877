-- ===== src/Prefs.antt =====
-- Appearance, text size and motion: client/src/state/prefs.jsx. Preferences are an object, here its
-- fields in their order; the storage holds one as JSON.
pub mod Reload
mod Tests
use chocobofix.Prelude.{
  ◌≡◌, ◌⊎◌, In, String, string_eq, Bool, true, false, Option, none, some, List, [], ◌∷◌, map, any,
  ◌===◌, if◌then◌else◌,
}
use chocobofix.Prelude.JsMap
use chocobofix.Prelude.JsMap.{get}

abbrev pub Prefs : Type 0
Prefs = List (String × String)

-- What the storage has under the key: nothing, text that is no JSON, or JSON with these fields,
-- where a field that is no text is `none` and JSON that is no object has no fields.
pub data Stored : Type 0 where
  missing : Stored
  broken : Stored
  fields : List (String × Option String) → Stored

abbrev pub defaults : Prefs
defaults = ("theme", "light") ∷ ("textSize", "normal") ∷ ("motion", "system") ∷ ("lang", "en") ∷ []

abbrev pub themes : List String
themes = "light" ∷ "dark" ∷ "system" ∷ []

abbrev pub text_sizes : List String
text_sizes = "normal" ∷ "large" ∷ "larger" ∷ []

abbrev pub motions : List String
motions = "system" ∷ "reduced" ∷ []

abbrev pub allowed : List (String × List String)
allowed = ("theme", themes) ∷ ("textSize", text_sizes) ∷ ("motion", motions) ∷ []

abbrev pub includes : List String → Option String → Bool
includes values none = false
includes values (some v) = any (λ w. w === v) values

-- `saved?.[key]`.
abbrev pub saved_at : String → List (String × Option String) → Option String
saved_at key saved = elim (get key saved) [ some v ↦ v | none ↦ none ]

abbrev pub take : String → List String → Option String → Prefs → Prefs
take key values none result = result
take key values (some v) result =
    if includes values (some v) then JsMap.set key v result else result

pub take_all : List (String × List String) → List (String × Option String) → Prefs → Prefs
take_all [] saved result = result
take_all ((key, values) ∷ rest) saved result =
    take_all rest saved (take key values (saved_at key saved) result)

pub load : Stored → Prefs
unfolding take_all
load missing = take_all allowed [] defaults
load broken = defaults
load (fields saved) = take_all allowed saved defaults

-- The effect that follows a change: `localStorage.setItem(KEY, JSON.stringify(prefs))`.
pub written : Prefs → Stored
written prefs = fields (map (λ f. (f.0, some f.1)) prefs)

pub set : String → String → Prefs → Prefs
set k v prefs = JsMap.set k v prefs

-- The options of the settings page, client/src/routes/Settings.jsx: what `set` is called with.
abbrev pub theme_options : List String
theme_options = "light" ∷ "dark" ∷ "system" ∷ []

abbrev pub text_size_options : List String
text_size_options = "normal" ∷ "large" ∷ "larger" ∷ []

abbrev pub motion_options : List String
motion_options = "system" ∷ "reduced" ∷ []

-- The name under which each is set, and a choice of one.
abbrev pub IsOffered : String × String → Type 0
IsOffered (k, v) =
    ((k ≡ "theme") × In v theme_options)
    ⊎ ((k ≡ "textSize") × In v text_size_options)
    ⊎ ((k ≡ "motion") × In v motion_options)

-- The choices of a visit.
pub steps : Prefs → List (String × String) → Prefs
unfolding set
steps prefs [] = prefs
steps prefs ((k, v) ∷ es) = steps (set k v prefs) es
