-- ===== src/SignIn.antt =====
-- The sign-in form of the React client: `submit` of client/src/routes/SignIn.jsx. Field values are
-- lists of code units; what `signIn` of the session comes back with is an event.
pub mod Guards
mod Tests
use chocobofix.Prelude.{
  ℕ, ◌+◌, ◌-◌, String, Bool, true, false, not, ◌&&◌, ◌||◌, Option, none, some, List, [], ◌∷◌, ◌++◌,
  ltb, eqb, length, is_some, if◌then◌else◌,
}
use chocobofix.Prelude.Text.{trim, is_empty}

pub record Credentials : Type 0 where
  pub username : List ℕ
  pub password : List ℕ
  pub bootstrap : Bool

-- The error texts under the two fields.
pub record Errors : Type 0 where
  pub username : Option String
  pub password : Option String

-- `sent` has the calls of `signIn`, `waiting` counts those that are not answered.
pub record Form : Type 0 where
  pub username : List ℕ
  pub password : List ℕ
  pub accepted : Bool
  pub errs : Errors
  pub form_error : String
  pub busy : Bool
  pub in_flight : Bool
  pub sent : List Credentials
  pub waiting : ℕ

abbrev pub username_error : List ℕ → Option String
username_error username = if is_empty username then some "Enter a username." else none

-- The later assignments to `next.password` win.
abbrev pub password_error : Bool → List ℕ → Option String
password_error first password =
    if first && not (is_empty password) && ltb (length password) 12
    then some "Use at least 12 characters."
    else if is_empty password
    then some "Enter a password."
    else none

abbrev pub errors_in : Bool → List ℕ → List ℕ → Errors
errors_in first username password = record {
  username = username_error username;
  password = password_error first password;
}

-- `signIn(username, password, { bootstrap: first })`, once the fields are right.
abbrev pub send_if : Bool → Credentials → Form → Form
send_if true c f = record f {
  busy = true;
  in_flight = true;
  sent = f.sent ++ c ∷ [];
  waiting = f.waiting + 1;
}
send_if false c f = f

abbrev pub no_errors : Errors → Bool
no_errors e = not (is_some e.username) && not (is_some e.password)

abbrev pub check_fields : Bool → List ℕ → Form → Form
check_fields first username f =
    let errs = errors_in first username f.password in
    send_if (no_errors errs)
      (record { username = username; password = f.password; bootstrap = first })
      (record f { errs = errs; form_error = "" })

abbrev pub check_terms : Bool → Bool → Form → Form
check_terms true first f = check_fields first (trim f.username) f
check_terms false first f = record f { form_error = "Read and accept the terms to continue." }

abbrev pub check_flight : Bool → Bool → Form → Form
check_flight true first f = f
check_flight false first f = check_terms f.accepted first f

-- `first` is `needsBootstrap`.
pub submit : Bool → Form → Form
submit first f = check_flight f.in_flight first f

-- The errors that blame the password.
abbrev pub is_field_error : Option ℕ → Bool
is_field_error none = false
is_field_error (some status) = eqb status 401 || eqb status 400

abbrev pub show_failure : Bool → String → Form → Form
show_failure true message f = record f {
  errs = record { username = none; password = some message };
}
show_failure false message f = record f { form_error = message }

-- The `finally` of `submit`.
abbrev pub answered : Form → Form
answered f = record f { busy = false; in_flight = false; waiting = f.waiting - 1 }

pub refused : String → Option ℕ → Form → Form
refused message status f =
    answered (record (show_failure (is_field_error status) message f) { password = [] })

pub data Event : Type 0 where
  type_username : List ℕ → Event
  type_password : List ℕ → Event
  accept : Bool → Event
  submitted : (first : Bool) → Event
  signed_in : Event
  failed : (message : String) → (status : Option ℕ) → Event

abbrev pub if_waiting : Bool → Form → Form → Form
if_waiting true f g = f
if_waiting false f g = g

pub step : Form → Event → Form
unfolding submit refused
step f (type_username text) = record f { username = text }
step f (type_password text) = record f { password = text }
step f (accept b) = record f { accepted = b }
step f (submitted first) = submit first f
step f signed_in = if_waiting (ltb 0 f.waiting) (answered f) f
step f (failed message status) = if_waiting (ltb 0 f.waiting) (refused message status f) f

pub steps : Form → List Event → Form
unfolding step
steps f [] = f
steps f (e ∷ es) = steps (step f e) es

abbrev pub blank : Bool → Form
blank accepted = record {
  username = [];
  password = [];
  accepted = accepted;
  errs = record { username = none; password = none };
  form_error = "";
  busy = false;
  in_flight = false;
  sent = [];
  waiting = 0;
}
