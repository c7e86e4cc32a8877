-- ===== src/Language/English.antt =====
-- web/i18n.js, the English table.
pub mod First
pub mod Second
pub mod Third
use chocobofix.Prelude.{String, List, ◌++◌}
use First.{english_first}
use Second.{english_second}
use Third.{english_third}

unfoldable pub english : List (String × String)
english = english_first ++ english_second ++ english_third
