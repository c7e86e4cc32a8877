-- ===== src/Language/Tests.antt =====
-- Two keys, one of which the tables have.
use chocobofix.Prelude.{string_eq, ◌≡◌, refl, none, some, All}
use chocobofix.Prelude.JsMap.{get}
use chocobofix.Language.{tables}
use chocobofix.Language.English.{english}
use chocobofix.Language.English.First.{english_first}
use chocobofix.Language.English.Second.{english_second}
use chocobofix.Language.English.Third.{english_third}
use chocobofix.Language.Completeness.{languages, IsTranslated, translate_complete}

has_churn : get "adjust_churn" english ≡ some "{n} job-weeks change in total."
unfolding get english english_first english_second english_third
has_churn = refl

translate_complete_example :
    All (λ lang. IsTranslated lang "adjust_churn" "{n} job-weeks change in total.") languages
translate_complete_example =
    translate_complete "adjust_churn" "{n} job-weeks change in total." has_churn

lacks_zzz : get "zzz" english ≡ none
unfolding get english english_first english_second english_third
lacks_zzz = refl

no_french : get "fr" tables ≡ none
unfolding get tables
no_french = refl
