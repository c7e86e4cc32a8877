-- ===== src/Api/Limiter.antt =====
-- client/src/lib/api.js: `acquire` and `release`, and their use by `raw`. A request that waits is
-- its number; the promise that `acquire` returns is the request's place in `waiting` or `holding`.
pub mod Bounds
pub mod Order
pub mod Queue
mod Tests
use chocobofix.Prelude.{
  ℕ, suc, ◌+◌, ◌-◌, Bool, Option, none, some, List, [], ◌∷◌, ◌++◌, ltb, any, eqb, if◌then◌else◌,
}

abbrev pub max_concurrent : ℕ
max_concurrent = 4

pub record Limiter : Type 0 where
  pub active : ℕ
  pub waiting : List ℕ

-- What the promise of `acquire` does at once.
pub data Acquired : Type 0 where
  resolved queued rejected : Acquired

pub acquire : ℕ → Bool → Limiter → Limiter × Acquired
acquire request aborted l =
    if aborted
    then (l, rejected)
    else if ltb l.active max_concurrent
    then (record l { active = l.active + 1 }, resolved)
    else (record l { waiting = l.waiting ++ request ∷ [] }, queued)

-- `indexOf` and `splice`: the first occurrence goes.
pub without : ℕ → List ℕ → List ℕ
without request [] = []
without request (r ∷ rs) = if eqb r request then rs else r ∷ without request rs

-- `entry.cancel`, the listener of a queued entry's signal.
pub cancel : ℕ → Limiter → Limiter
unfolding without
cancel request l = record l { waiting = without request l.waiting }

shift : ℕ → List ℕ → Limiter × Option ℕ
shift active [] = (record { active = active; waiting = [] }, none)
shift active (next ∷ rest) = (record { active = active + 1; waiting = rest }, some next)

-- The request, if any, whose promise is resolved.
pub release : Limiter → Limiter × Option ℕ
unfolding shift
release l = shift (l.active - 1) l.waiting

-- The limiter with the requests whose `acquired` is true.
pub record Connections : Type 0 where
  pub limiter : Limiter
  pub holding : List ℕ

pub data Event : Type 0 where
  arrive : (request : ℕ) → (aborted : Bool) → Event
  abort : (request : ℕ) → Event
  finish : (request : ℕ) → Event

abbrev also : Option ℕ → List ℕ → List ℕ
also none rs = rs
also (some r) rs = rs ++ r ∷ []

admit : ℕ → List ℕ → Limiter × Acquired → Connections
admit request holding (l, resolved) = record { limiter = l; holding = holding ++ request ∷ [] }
admit request holding (l, _) = record { limiter = l; holding = holding }

hand_over : List ℕ → Limiter × Option ℕ → Connections
hand_over holding (l, next) = record { limiter = l; holding = also next holding }

-- `raw` releases in its `finally` exactly when it had acquired.
pub step : Connections → Event → Connections
unfolding admit hand_over acquire cancel release
step c (arrive request aborted) = admit request c.holding (acquire request aborted c.limiter)
step c (abort request) = record c { limiter = cancel request c.limiter }
step c (finish request) =
    if any (eqb request) c.holding
    then hand_over (without request c.holding) (release c.limiter)
    else c

pub run : Connections → List Event → Connections
run c [] = c
run c (e ∷ es) = run (step c e) es

abbrev pub idle : Connections
idle = record { limiter = record { active = 0; waiting = [] }; holding = [] }
