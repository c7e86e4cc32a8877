-- ===== src/Labels/Tests.antt =====
-- One label.
use chocobofix.Prelude.{◌≡◌, refl, some, string_eq}
use chocobofix.Prelude.JsMap.{get}
use chocobofix.Labels.{english_labels}

has_motion : get "motion" english_labels ≡ some "motion"
unfolding get
has_motion = refl
