-- ===== src/Api/Limiter/Tests.antt =====
-- The limiter on concrete inputs.
use chocobofix.Prelude.{◌≡◌, refl, true, false, List, [], ◌∷◌}
use chocobofix.Api.Limiter.{Limiter, Event, without, arrive, abort, finish, step, run, idle}
use chocobofix.Api.Limiter.Bounds.{IsBounded, run-idle-IsBounded}
use chocobofix.Api.Limiter.Queue.{Shows, turns, run-Shows}

abbrev six_requests : List Event
six_requests =
    arrive 1 false
    ∷ arrive 2 false
    ∷ arrive 3 true
    ∷ arrive 4 false
    ∷ arrive 5 false
    ∷ arrive 6 false
    ∷ abort 6
    ∷ arrive 7 false
    ∷ finish 2
    ∷ []

run-idle-IsBounded_example : IsBounded (run idle six_requests)
run-idle-IsBounded_example = run-idle-IsBounded six_requests

abbrev two_wait : Limiter
two_wait = record { active = 4; waiting = 8 ∷ 9 ∷ [] }

six_requests_end : (run idle six_requests).holding ≡ 1 ∷ 4 ∷ 5 ∷ 7 ∷ []
unfolding run step
six_requests_end = refl

run-Shows_example : Shows (run idle six_requests) (turns [] six_requests)
run-Shows_example = run-Shows six_requests

six_requests_queue : turns [] six_requests ≡ 1 ∷ 4 ∷ 5 ∷ 7 ∷ []
unfolding turns without
six_requests_queue = refl
