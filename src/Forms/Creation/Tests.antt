-- ===== src/Forms/Creation/Tests.antt =====
-- A project that is refused once and then made.
use chocobofix.Prelude.{◌≡◌, refl, some, List, [], ◌∷◌, In}
use chocobofix.Prelude.Text.{trim, trim_start, is_space}
use chocobofix.Forms.Creation.{
  Event, typed, submitted, made_as, refused, create, step, steps, blank,
}
use chocobofix.Forms.Creation.Once.{MakesOnce, steps-MakesOnce}

-- The second submission comes while the first call is under way, the last after the success.
abbrev two_calls : List Event
two_calls =
    typed (65 ∷ 32 ∷ [])
    ∷ submitted
    ∷ submitted
    ∷ refused "No."
    ∷ submitted
    ∷ made_as 7
    ∷ typed (66 ∷ [])
    ∷ submitted
    ∷ []

two_calls_sent :
    let s = steps blank two_calls in (s.sent ≡ (65 ∷ []) ∷ (65 ∷ []) ∷ []) × (s.went_to ≡ some 7)
unfolding steps step create trim trim_start is_space
two_calls_sent = (refl, refl)

steps-MakesOnce_example : MakesOnce (λ id. In (made_as id) two_calls) (steps blank two_calls)
steps-MakesOnce_example = steps-MakesOnce two_calls
