-- ===== src/Language/Chinese.antt =====
-- web/i18n.js, the Chinese table.
pub mod First
pub mod Second
pub mod Third
use chocobofix.Prelude.{String, List, ◌++◌}
use First.{chinese_first}
use Second.{chinese_second}
use Third.{chinese_third}

unfoldable pub chinese : List (String × String)
chinese = chinese_first ++ chinese_second ++ chinese_third
