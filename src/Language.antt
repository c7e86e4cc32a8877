-- ===== src/Language.antt =====
-- The texts of the first interface: web/i18n.js and `T` of web/app.js.
mod English
mod Malay
mod Tamil
mod Chinese
mod Completeness
mod Tests
use text.Mathlib.Text.{find?}
use chocobofix.Prelude.{String, string_eq, Bool, is_some, Option, none, some, List, [], ◌∷◌}
use chocobofix.Prelude.JsMap.{get}
use English.{english}
use Malay.{malay}
use Tamil.{tamil}
use Chinese.{chinese}

-- `window.I18N`.
pub tables : List (String × List (String × String))
tables = ("en", english) ∷ ("ms", malay) ∷ ("ta", tamil) ∷ ("zh", chinese) ∷ []

abbrev pub or_text : Option String → String → String
or_text (some w) t = w
or_text none t = t

-- The texts of a language; without a table of that language `L` is undefined.
abbrev pub own : String → Option (List (String × String)) → Option String
own k none = none
own k (some texts) = get k texts

-- `T`, with `S.lang` as an argument.
pub translate : String → String → String
translate lang k = or_text (own k (get lang tables)) (or_text (get k english) k)

-- The places in a text that the views fill with `.replace`.
abbrev pub markers : List String
markers = "{n}" ∷ "{s}" ∷ "{v}" ∷ "{before}" ∷ "{after}" ∷ []

abbrev pub mentions : String → String → Bool
mentions marker t = is_some (find? t marker)
