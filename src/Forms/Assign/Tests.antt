-- ===== src/Forms/Assign/Tests.antt =====
-- A coordinator that is refused and one that is taken.
use chocobofix.Prelude.{◌≡◌, refl, List, [], ◌∷◌, In}
use chocobofix.Forms.Assign.{
  Event, chosen, accepted, refused, opened_on, save, step, steps, IsSettled, steps-IsSettled,
}

-- The second choice comes while the first call is under way, and is not sent.
abbrev two_choices : List Event
two_choices = chosen (7 ∷ []) ∷ chosen (8 ∷ []) ∷ refused "No." ∷ chosen (9 ∷ []) ∷ accepted ∷ []

two_choices_shown :
    let s = steps (opened_on []) two_choices in
    (s.coordinator ≡ 9 ∷ []) × (s.stored ≡ (9 ∷ []) ∷ []) × (s.assign_err ≡ "")
unfolding steps step save
two_choices_shown = (refl, refl, refl)

steps-IsSettled_example :
    IsSettled (λ value. In (chosen value) two_choices) [] (steps (opened_on []) two_choices)
steps-IsSettled_example = steps-IsSettled [] two_choices
