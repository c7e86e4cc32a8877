-- ===== src/SignIn/Tests.antt =====
-- The first administrator's form: a short password, then a long one, and a refusal.
use chocobofix.Prelude.{◌≡◌, refl, true, some, List, [], ◌∷◌}
use chocobofix.Prelude.Text.{units, trim}
use chocobofix.SignIn.{Event, type_username, type_password, submitted, failed, step, steps, blank}
use chocobofix.SignIn.Guards.{IsSingle, steps-IsSingle}

abbrev attempts : List Event
attempts =
    type_username (units " ann ")
    ∷ type_password (units "short")
    ∷ submitted true
    ∷ type_password (units "long enough by far")
    ∷ submitted true
    ∷ submitted true
    ∷ failed "no" (some 400)
    ∷ []

steps-IsSingle_example : IsSingle (steps (blank true) attempts)
steps-IsSingle_example = steps-IsSingle true attempts

attempts_sent :
    (steps (blank true) attempts).sent
    ≡ record { username = units "ann"; password = units "long enough by far"; bootstrap = true }
      ∷ []
unfolding steps step trim
attempts_sent = refl
