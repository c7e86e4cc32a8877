-- ===== src/SignIn/Guards.antt =====
-- What the form sends, and when.
use chocobofix.Prelude.{
  ℕ, ◌≤◌, ◌≡◌, ◌≢◌, refl, ◌⊎◌, inl, inr, Bool, true, false, List, [], ◌∷◌, arith, All, All-append,
  ltb, length,
}
use chocobofix.Prelude.Text.{trim}
use chocobofix.SignIn.{
  Credentials, Form, errors_in, send_if, no_errors, check_terms, check_flight, submit, refused,
  show_failure, is_field_error, answered, Event, type_username, type_password, accept, submitted,
  signed_in, failed, if_waiting, step, steps, blank,
}

-- A name and a password are there; the name is trimmed; the first administrator's password has
-- twelve characters.
pub record IsComplete (c : Credentials) : Type 0 where
  pub named : c.username ≢ []
  pub trimmed : (raw : List ℕ) × (c.username ≡ trim raw)
  pub secret : c.password ≢ []
  pub long : c.bootstrap ≡ true → 12 ≤ length c.password

-- One call of `signIn` at most is under way, and both flags tell whether.
pub record IsSingle (f : Form) : Type 0 where
  pub flight : ((f.in_flight ≡ true) × (f.waiting ≡ 1)) ⊎ ((f.in_flight ≡ false) × (f.waiting ≡ 0))
  pub shown : f.busy ≡ f.in_flight
  pub complete : All IsComplete f.sent

no_errors-right :
    (first : Bool) (username password : List ℕ)
    → no_errors (errors_in first username password) ≡ true
    → (username ≢ []) × (password ≢ []) × (first ≡ true → 12 ≤ length password)
no_errors-right first [] password h = cc
no_errors-right true (c ∷ cs) [] h = cc
no_errors-right false (c ∷ cs) [] h = cc
no_errors-right first (c ∷ cs) (d ∷ ds) h = (λ e. cc, λ e. cc, λ e. ground arith)

send_if-IsSingle :
    (b : Bool) (c : Credentials) (f : Form)
    → IsSingle f
    → f.in_flight ≡ false
    → (b ≡ true → IsComplete c)
    → IsSingle (send_if b c f)
send_if-IsSingle false c f v idle h = v
send_if-IsSingle true c f v idle h = record {
  flight = inl (refl, ground arith);
  shown = refl;
  complete = All-append IsComplete f.sent (c ∷ []) v.complete (h refl, tt);
}

submit-IsSingle : (first : Bool) (f : Form) → IsSingle f → IsSingle (submit first f)
unfolding submit
submit-IsSingle first f v = by_flight f.in_flight refl
  where
    by_terms : (b : Bool) → f.in_flight ≡ false → IsSingle (check_terms b first f)
    by_terms false idle = record { flight = v.flight; shown = v.shown; complete = v.complete }
    by_terms true idle =
        send_if-IsSingle (no_errors (errors_in first (trim f.username) f.password)) _
          (record f { errs = errors_in first (trim f.username) f.password; form_error = "" })
          (record { flight = v.flight; shown = v.shown; complete = v.complete }) idle
          (λ right.
            let (named, secret, long) = no_errors-right first (trim f.username) f.password right in
            record { named = named; trimmed = (f.username, refl); secret = secret; long = long })

    by_flight : (b : Bool) → f.in_flight ≡ b → IsSingle (check_flight b first f)
    by_flight true e = v
    by_flight false e = by_terms f.accepted e

answered-IsSingle : (f : Form) → IsSingle f → IsSingle (answered f)
answered-IsSingle f v = record {
  flight = inr (refl, ground arith);
  shown = refl;
  complete = v.complete;
}

step-IsSingle : (f : Form) (e : Event) → IsSingle f → IsSingle (step f e)
unfolding step refused
step-IsSingle f (type_username text) v = record {
  flight = v.flight;
  shown = v.shown;
  complete = v.complete;
}
step-IsSingle f (type_password text) v = record {
  flight = v.flight;
  shown = v.shown;
  complete = v.complete;
}
step-IsSingle f (accept b) v = record { flight = v.flight; shown = v.shown; complete = v.complete }
step-IsSingle f (submitted first) v = submit-IsSingle first f v
step-IsSingle f signed_in v = by_count (ltb 0 f.waiting)
  where
    by_count : (b : Bool) → IsSingle (if_waiting b (answered f) f)
    by_count true = answered-IsSingle f v
    by_count false = v
step-IsSingle f (failed message status) v = by_count (ltb 0 f.waiting)
  where
    shown_as :
        (b : Bool) → IsSingle (answered (record (show_failure b message f) { password = [] }))
    shown_as true =
        answered-IsSingle _ (record { flight = v.flight; shown = v.shown; complete = v.complete })
    shown_as false =
        answered-IsSingle _ (record { flight = v.flight; shown = v.shown; complete = v.complete })

    by_count : (b : Bool) → IsSingle (if_waiting b (refused message status f) f)
    by_count true = shown_as (is_field_error status)
    by_count false = v

steps-from : (f : Form) (es : List Event) → IsSingle f → IsSingle (steps f es)
unfolding steps
steps-from f [] v = v
steps-from f (e ∷ es) v = steps-from (step f e) es (step-IsSingle f e v)

-- Whatever is typed, submitted and answered, in whatever order: at most one call of `signIn` is
-- under way, both flags are set exactly while it is, and every call had a trimmed name that is not
-- empty, a password that is not empty, and for the first administrator one of twelve code units.
pub steps-IsSingle : (accepted : Bool) (es : List Event) → IsSingle (steps (blank accepted) es)
steps-IsSingle accepted es =
    steps-from (blank accepted) es
      (record { flight = inr (refl, refl); shown = refl; complete = tt })
