-- ===== src/Language/Malay.antt =====
-- web/i18n.js, the Malay table.
pub mod First
pub mod Second
pub mod Third
use chocobofix.Prelude.{String, List, ◌++◌}
use First.{malay_first}
use Second.{malay_second}
use Third.{malay_third}

unfoldable pub malay : List (String × String)
malay = malay_first ++ malay_second ++ malay_third
