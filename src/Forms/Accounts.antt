-- ===== src/Forms/Accounts.antt =====
-- `AccountManagement` of client/src/routes/Settings.jsx: accounts are made and disabled. `own` is
-- `currentUser.id`.
pub mod Proper
mod Tests
use chocobofix.Prelude.{
  ℕ, String, Bool, true, false, not, ◌&&◌, ◌||◌, Option, none, some, List, [], ◌∷◌, ltb, eqb,
  length, if◌then◌else◌, number_eq,
}
use chocobofix.Prelude.Text.{trim, is_empty}

pub record Account : Type 0 where
  pub id : ℕ
  pub username : List ℕ
  pub role : String
  pub disabled : Bool

-- The two calls that change an account.
pub data Asked : Type 0 where
  create_user : (username password : List ℕ) → (role : String) → Asked
  set_user_disabled : (id : ℕ) → (disabled : Bool) → Asked

-- The two sentences that tell of a success.
pub data Success : Type 0 where
  can_sign_in : (username : List ℕ) → (role : String) → Success
  was_changed : (username : List ℕ) → (disabled : Bool) → Success

-- Where the handler waits.
pub data Waits : Type 0 where
  idle : Waits
  creating : (username : List ℕ) → (role : String) → Waits
  changing : (username : List ℕ) → (disabled : Bool) → Waits
  loading : Waits

-- `asked` has the calls, the last one first; `mounting` tells whether the list of the first render
-- is under way.
pub record Panel : Type 0 where
  pub users : List Account
  pub username : List ℕ
  pub password : List ℕ
  pub role : String
  pub busy : Bool
  pub err : String
  pub success : Option Success
  pub waits : Waits
  pub mounting : Bool
  pub asked : List Asked

abbrev pub message_in : List ℕ → List ℕ → Option String
message_in username password =
    if is_empty (trim username)
    then some "Enter a username."
    else if ltb (length password) 12
    then some "Use a password with at least 12 characters."
    else none

abbrev pub send_create : Option String → Panel → Panel
send_create (some message) s = record s { err = message; success = none }
send_create none s = record s {
  err = "";
  success = none;
  busy = true;
  waits = creating (trim s.username) s.role;
  asked = create_user (trim s.username) s.password s.role ∷ s.asked;
}

abbrev pub create_if : Bool → Panel → Panel
create_if true s = s
create_if false s = send_create (message_in s.username s.password) s

pub create_account : Panel → Panel
create_account s = create_if s.busy s

abbrev pub change_if : Bool → Account → Bool → Panel → Panel
change_if true account disabled s = s
change_if false account disabled s = record s {
  busy = true;
  err = "";
  success = none;
  waits = changing account.username disabled;
  asked = set_user_disabled account.id disabled ∷ s.asked;
}

pub set_disabled : (own : ℕ) → Account → Bool → Panel → Panel
set_disabled own account disabled s = change_if (s.busy || eqb account.id own) account disabled s

-- The reply that the handler's own call was taken: the sentence, then `load`.
pub taken : Waits → Panel → Panel
taken (creating username role) s = record s {
  success = some (can_sign_in username role);
  username = [];
  password = [];
  role = "planner";
  waits = loading;
}
taken (changing username disabled) s = record s {
  success = some (was_changed username disabled);
  waits = loading;
}
taken w s = s

-- The `catch` and the `finally`.
pub refused : Waits → String → Panel → Panel
refused (creating username role) message s = record s { err = message; busy = false; waits = idle }
refused (changing username disabled) message s = record s {
  err = message;
  busy = false;
  waits = idle;
}
refused w message s = s

-- `load` after a success, which keeps its own error, and the `finally`.
pub listed : Waits → List Account → Panel → Panel
listed loading users s = record s { users = users; busy = false; waits = idle }
listed w users s = s

pub list_failed : Waits → String → Panel → Panel
list_failed loading message s = record s { err = message; busy = false; waits = idle }
list_failed w message s = s

-- `load` of the first render.
abbrev pub mounted_if : Bool → List Account → Panel → Panel
mounted_if true users s = record s { users = users; mounting = false }
mounted_if false users s = s

abbrev pub mount_failed_if : Bool → String → Panel → Panel
mount_failed_if true message s = record s { err = message; mounting = false }
mount_failed_if false message s = s

pub data Event : Type 0 where
  type_username : List ℕ → Event
  type_password : List ℕ → Event
  choose_role : String → Event
  submitted : Event
  clicked : Account → (disabled : Bool) → Event
  accepted : Event
  rejected : (message : String) → Event
  users_are : List Account → Event
  users_failed : (message : String) → Event
  mounted : List Account → Event
  mount_failed : (message : String) → Event

pub step : (own : ℕ) → Panel → Event → Panel
unfolding create_account set_disabled taken refused listed list_failed
step own s (type_username text) = record s { username = text }
step own s (type_password text) = record s { password = text }
step own s (choose_role role) = record s { role = role }
step own s submitted = create_account s
step own s (clicked account disabled) = set_disabled own account disabled s
step own s accepted = taken s.waits s
step own s (rejected message) = refused s.waits message s
step own s (users_are users) = listed s.waits users s
step own s (users_failed message) = list_failed s.waits message s
step own s (mounted users) = mounted_if s.mounting users s
step own s (mount_failed message) = mount_failed_if s.mounting message s

pub steps : (own : ℕ) → Panel → List Event → Panel
unfolding step
steps own s [] = s
steps own s (e ∷ es) = steps own (step own s e) es

abbrev pub at_start : Panel
at_start = record {
  users = [];
  username = [];
  password = [];
  role = "planner";
  busy = false;
  err = "";
  success = none;
  waits = idle;
  mounting = true;
  asked = [];
}
