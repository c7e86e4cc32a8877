-- ===== src/Prefs/Reload.antt =====
-- What was chosen is there after a reload.
use chocobofix.Prelude.{
  ◌≡◌, refl, ◌⊎◌, inl, inr, String, string_eq, true, Option, none, some, List, [], ◌∷◌, All,
  All-map, In-All, Bool-cases,
}
use chocobofix.Prelude.JsMap
use chocobofix.Prelude.JsMap.{get}
use chocobofix.Prefs.{
  Prefs, Stored, missing, broken, fields, defaults, themes, text_sizes, motions, allowed, includes,
  saved_at, take, take_all, theme_options, text_size_options, motion_options, IsOffered, load,
  written, set, steps,
}

abbrev object : (theme size motion : String) → Prefs
object theme size motion =
    ("theme", theme) ∷ ("textSize", size) ∷ ("motion", motion) ∷ ("lang", "en") ∷ []

-- Preferences of which each has one of the values of the settings.
IsAllowed : Prefs → Type 0
IsAllowed prefs =
    (theme : String) × (size : String) × (motion : String) × (prefs ≡ object theme size motion)
    × (includes themes (some theme) ≡ true)
    × (includes text_sizes (some size) ≡ true)
    × (includes motions (some motion) ≡ true)

-- A choice that the settings offer.
abbrev IsChoice : String × String → Type 0
IsChoice (k, v) =
    ((k ≡ "theme") × (includes themes (some v) ≡ true))
    ⊎ ((k ≡ "textSize") × (includes text_sizes (some v) ≡ true))
    ⊎ ((k ≡ "motion") × (includes motions (some v) ≡ true))

set-IsAllowed :
    (k v : String) (prefs : Prefs)
    → IsChoice (k, v)
    → IsAllowed prefs
    → IsAllowed (JsMap.set k v prefs)
unfolding JsMap.set IsAllowed
set-IsAllowed k v prefs (inl (at, ok)) (t, x, m, same, a, b, c) =
    (v, x, m, rw at (rw same refl), ok, b, c)
set-IsAllowed k v prefs (inr (inl (at, ok))) (t, x, m, same, a, b, c) =
    (t, v, m, rw at (rw same refl), a, ok, c)
set-IsAllowed k v prefs (inr (inr (at, ok))) (t, x, m, same, a, b, c) =
    (t, x, v, rw at (rw same refl), a, b, ok)

take-IsAllowed :
    (k : String) (values : List String) (o : Option String) (prefs : Prefs)
    → ((v : String) → includes values (some v) ≡ true → IsChoice (k, v))
    → IsAllowed prefs
    → IsAllowed (take k values o prefs)
take-IsAllowed k values none prefs offered h = h
take-IsAllowed k values (some v) prefs offered h = elim (Bool-cases (includes values (some v))) [
  | inl ok ↦ rw ok (set-IsAllowed k v prefs (offered v ok) h)
  | inr other ↦ rw other h
]

take_all-IsAllowed :
    (saved : List (String × Option String)) → IsAllowed (take_all allowed saved defaults)
unfolding take_all IsAllowed
take_all-IsAllowed saved =
    take-IsAllowed "motion" motions (saved_at "motion" saved) _ (λ v ok. inr (inr (refl, ok)))
      (take-IsAllowed "textSize" text_sizes (saved_at "textSize" saved) _
        (λ v ok. inr (inl (refl, ok)))
        (take-IsAllowed "theme" themes (saved_at "theme" saved) _ (λ v ok. inl (refl, ok))
          ("light", "normal", "system", refl, refl, refl, refl)))

load-IsAllowed : (s : Stored) → IsAllowed (load s)
unfolding load IsAllowed
load-IsAllowed missing = take_all-IsAllowed []
load-IsAllowed broken = ("light", "normal", "system", refl, refl, refl, refl)
load-IsAllowed (fields saved) = take_all-IsAllowed saved

steps-IsAllowed :
    (prefs : Prefs) (es : List (String × String))
    → All IsChoice es
    → IsAllowed prefs
    → IsAllowed (steps prefs es)
unfolding steps set
steps-IsAllowed prefs [] choices h = h
steps-IsAllowed prefs ((k, v) ∷ es) choices h =
    steps-IsAllowed (JsMap.set k v prefs) es choices.1 (set-IsAllowed k v prefs choices.0 h)

load-written : (prefs : Prefs) → IsAllowed prefs → load (written prefs) ≡ prefs
unfolding load written take_all IsAllowed JsMap.set get
load-written prefs (t, x, m, same, a, b, c) = rw same (rw a (rw b (rw c refl)))

IsOffered-IsChoice : (c : String × String) → IsOffered c → IsChoice c
IsOffered-IsChoice (k, v) (inl (at, i)) =
    inl (
      at,
      In-All (λ w. includes themes (some w) ≡ true) v theme_options i (refl, (refl, (refl, tt))),
    )
IsOffered-IsChoice (k, v) (inr (inl (at, i))) = inr (
    inl (
      at,
      In-All (λ w. includes text_sizes (some w) ≡ true) v text_size_options i
          (refl, (refl, (refl, tt))),
    ))
IsOffered-IsChoice (k, v) (inr (inr (at, i))) =
    inr (
      inr
        (at, In-All (λ w. includes motions (some w) ≡ true) v motion_options i (refl, (refl, tt))))

-- Whatever the storage had and whichever of the options of the settings page are chosen after it was
-- read, what the last choice leaves in the storage is read back as it is.
pub load-written-steps :
    (s : Stored) (es : List (String × String))
    → All IsOffered es
    → load (written (steps (load s) es)) ≡ steps (load s) es
load-written-steps s es offered =
    load-written (steps (load s) es)
      (steps-IsAllowed (load s) es (All-map _ _ IsOffered-IsChoice es offered) (load-IsAllowed s))
