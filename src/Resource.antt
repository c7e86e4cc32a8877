-- ===== src/Resource.antt =====
-- client/src/lib/useResource.js: what a view shows of a resource that is fetched again whenever
-- its dependencies change.
pub mod Latest
pub mod Disabled
pub mod Outlives
mod Tests
use chocobofix.Prelude.{
  ℕ, ◌+◌, Bool, true, false, not, ◌&&◌, ◌||◌, Option, none, some, List, [], ◌∷◌, any, eqb,
  if◌then◌else◌,
}

-- How the promise of the fetch ends. An error with the name AbortError is `cancelled`.
pub data Outcome (D E : Type 0) : Type 0 where
  loaded : D → Outcome D E
  failed : E → Outcome D E
  cancelled : Outcome D E

-- `aborted` has the numbers of the runs whose controller is aborted, and `cleanup` the run that
-- the effect's cleanup aborts.
pub record Resource (D E : Type 0) : Type 0 where
  pub enabled : Bool
  pub content : Option D
  pub error : Option E
  pub loading : Bool
  pub seq : ℕ
  pub aborted : List ℕ
  pub cleanup : Option ℕ

pub data Event (D E : Type 0) : Type 0 where
  -- The dependencies or `enabled` changed: the cleanup of the last effect, then `run`.
  change : (enabled : Bool) → Event D E
  reload : Event D E
  reply : (mine : ℕ) → Outcome D E → Event D E

abbrev pub abort : Option ℕ → List ℕ → List ℕ
abort none aborted = aborted
abort (some n) aborted = n ∷ aborted

module _ {D E : Type 0} where
  abbrev pub initially : Bool → Resource D E
  initially enabled = record {
    enabled = enabled;
    content = none;
    error = none;
    loading = enabled;
    seq = 0;
    aborted = [];
    cleanup = none;
  }

  -- `run`, and the run that the function it returns aborts.
  abbrev pub fetch_if : Bool → Resource D E → Resource D E × Option ℕ
  fetch_if true s = (record s { loading = true; error = none; seq = s.seq + 1 }, some (s.seq + 1))
  fetch_if false s = (record s { content = none; error = none; loading = false }, none)

  pub fetch : Resource D E → Resource D E × Option ℕ
  fetch s = fetch_if s.enabled s

  abbrev pub with_cleanup : Resource D E × Option ℕ → Resource D E
  with_cleanup (s, c) = record s { cleanup = c }

  abbrev pub is_current : ℕ → Resource D E → Bool
  is_current mine s = eqb mine s.seq && not (any (eqb mine) s.aborted)

  pub settle : ℕ → Outcome D E → Resource D E → Resource D E
  settle mine (loaded d) s =
      if is_current mine s then record s { content = some d; error = none; loading = false } else s
  settle mine (failed e) s =
      if is_current mine s then record s { content = none; error = some e; loading = false } else s
  settle mine cancelled s = s

  pub step : Resource D E → Event D E → Resource D E
  unfolding fetch settle
  step s (change enabled) =
      with_cleanup (fetch (record s { enabled = enabled; aborted = abort s.cleanup s.aborted }))
  step s reload = (fetch s).0
  step s (reply mine outcome) = settle mine outcome s

  pub steps : Resource D E → List (Event D E) → Resource D E
  unfolding step
  steps s [] = s
  steps s (e ∷ es) = steps (step s e) es
