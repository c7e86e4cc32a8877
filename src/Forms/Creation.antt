-- ===== src/Forms/Creation.antt =====
-- `create` of client/src/routes/Projects.jsx: a project is made and its upload page is opened.
pub mod Once
mod Tests
use chocobofix.Prelude.{
  ℕ, suc, String, Bool, true, false, ◌||◌, Option, none, some, List, [], ◌∷◌, if◌then◌else◌,
}
use chocobofix.Prelude.Text.{trim, is_empty}

-- `waiting` tells whether `createProject` is under way, `sent` has the names it was called with, the
-- last one first, `made` the ids of the projects that it made, `went_to` is the project whose page was opened, and
-- `cleared` counts the calls of `clearCache`.
pub record Form : Type 0 where
  pub name : List ℕ
  pub creating : Bool
  pub create_err : String
  pub in_flight : Bool
  pub waiting : Bool
  pub sent : List (List ℕ)
  pub made : List ℕ
  pub went_to : Option ℕ
  pub cleared : ℕ

abbrev pub send_unless : Bool → Form → Form
send_unless true s = s
send_unless false s = record s {
  in_flight = true;
  creating = true;
  create_err = "";
  waiting = true;
  sent = trim s.name ∷ s.sent;
}

pub create : Form → Form
create s = send_unless (s.in_flight || is_empty (trim s.name)) s

-- The flag stays set: the page is left.
abbrev pub made_if : Bool → ℕ → Form → Form
made_if false id s = s
made_if true id s = record s {
  waiting = false;
  made = id ∷ s.made;
  cleared = suc s.cleared;
  name = [];
  went_to = some id;
}

abbrev pub failed_if : Bool → String → Form → Form
failed_if false message s = s
failed_if true message s = record s {
  waiting = false;
  create_err = message;
  creating = false;
  in_flight = false;
}

pub data Event : Type 0 where
  typed : List ℕ → Event
  submitted : Event
  made_as : (id : ℕ) → Event
  refused : (message : String) → Event

-- A reply comes only for the call under way.
pub step : Form → Event → Form
unfolding create
step s (typed text) = record s { name = text }
step s submitted = create s
step s (made_as id) = made_if s.waiting id s
step s (refused message) = failed_if s.waiting message s

pub steps : Form → List Event → Form
unfolding step
steps s [] = s
steps s (e ∷ es) = steps (step s e) es

abbrev pub blank : Form
blank = record {
  name = [];
  creating = false;
  create_err = "";
  in_flight = false;
  waiting = false;
  sent = [];
  made = [];
  went_to = none;
  cleared = 0;
}
