-- ===== src/Language/Tamil.antt =====
-- web/i18n.js, the Tamil table.
pub mod First
pub mod Second
pub mod Third
use chocobofix.Prelude.{String, List, ◌++◌}
use First.{tamil_first}
use Second.{tamil_second}
use Third.{tamil_third}

unfoldable pub tamil : List (String × String)
tamil = tamil_first ++ tamil_second ++ tamil_third
