-- ===== src/Forms/Accounts/Proper.antt =====
-- What the account form asks of the service, and what it tells of it.
use chocobofix.Prelude.{
  ℕ, ◌≤◌, ◌≡◌, ◌≢◌, refl, sym, ap, subst, ◌∙◌, String, Bool, true, false, ◌||◌, Option, none, some,
  List, [], ◌∷◌, arith, All, In, All-of_In, eqb, length, number_eq,
}
use chocobofix.Prelude.Text.{trim}
use chocobofix.Forms.Accounts.{
  Account, Asked, create_user, set_user_disabled, Success, can_sign_in, was_changed, Waits, idle,
  creating, changing, loading, Panel, message_in, send_create, create_if, create_account, change_if,
  set_disabled, taken, refused, listed, list_failed, mounted_if, mount_failed_if, Event,
  type_username, type_password, choose_role, submitted, clicked, accepted, rejected, users_are,
  users_failed, mounted, mount_failed, step, steps, at_start,
}

-- A new account has a trimmed name and a password of twelve code units; the account that is disabled
-- or enabled is not one's own.
abbrev pub IsProper : ℕ → Asked → Type 0
IsProper own (create_user username password role) =
    (username ≢ []) × ((raw : List ℕ) × (username ≡ trim raw)) × (12 ≤ length password)
IsProper own (set_user_disabled id disabled) = id ≢ own

-- `Clicked account disabled` says that this account's button was clicked, for that state.
module _ (Clicked : Account → Bool → Type 0) where
  -- A sentence tells of the last call: of the new account the name and the role that were sent, of a
  -- changed one the name that the account of that id had where it was clicked, and the state sent.
  abbrev pub TellsOf : Success → List Asked → Type 0
  TellsOf (can_sign_in username role) (create_user u p r ∷ asked) = (u ≡ username) × (r ≡ role)
  TellsOf (was_changed username disabled) (set_user_disabled id d ∷ asked) =
      (d ≡ disabled)
      × ((account : Account) × Clicked account disabled
          × (account.id ≡ id)
          × (account.username ≡ username))
  TellsOf success asked = ⊥

  abbrev pub Announces : Option Success → List Asked → Type 0
  Announces none asked = Unit
  Announces (some success) asked = TellsOf success asked

  -- An event is no click, or one of those.
  abbrev pub IsKnown : Event → Type 0
  IsKnown (clicked account disabled) = Clicked account disabled
  IsKnown _ = Unit

-- The sentence that the call under way ends with.
abbrev pub outcome : Waits → Option Success
outcome (creating username role) = some (can_sign_in username role)
outcome (changing username disabled) = some (was_changed username disabled)
outcome w = none

abbrev pub is_busy : Waits → Bool
is_busy idle = false
is_busy w = true

pub record IsOrderly (Clicked : Account → Bool → Type 0) (own : ℕ) (s : Panel) : Type 0 where
  pub busy : s.busy ≡ is_busy s.waits
  pub proper : All (IsProper own) s.asked
  pub under_way : Announces Clicked (outcome s.waits) s.asked
  pub announced : Announces Clicked s.success s.asked

message_in-none :
    (username password : List ℕ)
    → message_in username password ≡ none
    → (trim username ≢ []) × (12 ≤ length password)
message_in-none username password h = ground arith

module _ (Clicked : Account → Bool → Type 0) (own : ℕ) where
  send_create-IsOrderly :
      (o : Option String) (s : Panel)
      → IsOrderly Clicked own s
      → message_in s.username s.password ≡ o
      → IsOrderly Clicked own (send_create o s)
  send_create-IsOrderly (some message) s v e = record {
    busy = v.busy;
    proper = v.proper;
    under_way = v.under_way;
    announced = tt;
  }
  send_create-IsOrderly none s v e = record {
    busy = refl;
    proper =
        let (named, long) = message_in-none s.username s.password e in
        ((named, (s.username, refl), long), v.proper);
    under_way = (refl, refl);
    announced = tt;
  }

  create_if-IsOrderly :
      (b : Bool) (s : Panel) → IsOrderly Clicked own s → IsOrderly Clicked own (create_if b s)
  create_if-IsOrderly true s v = v
  create_if-IsOrderly false s v = send_create-IsOrderly (message_in s.username s.password) s v refl

  change_if-IsOrderly :
      (b : Bool) (account : Account) (disabled : Bool) (s : Panel)
      → (b ≡ false → account.id ≢ own)
      → Clicked account disabled
      → IsOrderly Clicked own s
      → IsOrderly Clicked own (change_if b account disabled s)
  change_if-IsOrderly true account disabled s other here v = v
  change_if-IsOrderly false account disabled s other here v = record {
    busy = refl;
    proper = (other refl, v.proper);
    under_way = (refl, (account, here, refl, refl));
    announced = tt;
  }

  taken-IsOrderly :
      (w : Waits) (s : Panel)
      → s.waits ≡ w
      → IsOrderly Clicked own s
      → IsOrderly Clicked own (taken w s)
  unfolding taken
  taken-IsOrderly idle s e v = v
  taken-IsOrderly loading s e v = v
  taken-IsOrderly (creating username role) s e v = record {
    busy = v.busy ∙ ap is_busy e;
    proper = v.proper;
    under_way = tt;
    announced = subst (λ w. Announces Clicked (outcome w) s.asked) e v.under_way;
  }
  taken-IsOrderly (changing username disabled) s e v = record {
    busy = v.busy ∙ ap is_busy e;
    proper = v.proper;
    under_way = tt;
    announced = subst (λ w. Announces Clicked (outcome w) s.asked) e v.under_way;
  }

  refused-IsOrderly :
      (w : Waits) (message : String) (s : Panel)
      → IsOrderly Clicked own s
      → IsOrderly Clicked own (refused w message s)
  unfolding refused
  refused-IsOrderly idle message s v = v
  refused-IsOrderly loading message s v = v
  refused-IsOrderly (creating username role) message s v = record {
    busy = refl;
    proper = v.proper;
    under_way = tt;
    announced = v.announced;
  }
  refused-IsOrderly (changing username disabled) message s v = record {
    busy = refl;
    proper = v.proper;
    under_way = tt;
    announced = v.announced;
  }

  listed-IsOrderly :
      (w : Waits) (users : List Account) (s : Panel)
      → IsOrderly Clicked own s
      → IsOrderly Clicked own (listed w users s)
  unfolding listed
  listed-IsOrderly idle users s v = v
  listed-IsOrderly loading users s v = record {
    busy = refl;
    proper = v.proper;
    under_way = tt;
    announced = v.announced;
  }
  listed-IsOrderly (creating username role) users s v = v
  listed-IsOrderly (changing username disabled) users s v = v

  list_failed-IsOrderly :
      (w : Waits) (message : String) (s : Panel)
      → IsOrderly Clicked own s
      → IsOrderly Clicked own (list_failed w message s)
  unfolding list_failed
  list_failed-IsOrderly idle message s v = v
  list_failed-IsOrderly loading message s v = record {
    busy = refl;
    proper = v.proper;
    under_way = tt;
    announced = v.announced;
  }
  list_failed-IsOrderly (creating username role) message s v = v
  list_failed-IsOrderly (changing username disabled) message s v = v

  -- What only changes the fields, the list and the error.
  same-IsOrderly :
      (s t : Panel)
      → s.busy ≡ t.busy
      → s.waits ≡ t.waits
      → s.asked ≡ t.asked
      → s.success ≡ t.success
      → IsOrderly Clicked own s
      → IsOrderly Clicked own t
  same-IsOrderly s t b w a u v = record {
    busy = sym b ∙ v.busy ∙ ap is_busy w;
    proper = subst (All (IsProper own)) a v.proper;
    under_way =
        subst (λ o. Announces Clicked (outcome o) t.asked) w
          (subst (Announces Clicked (outcome s.waits)) a v.under_way);
    announced =
        subst (λ o. Announces Clicked o t.asked) u
          (subst (Announces Clicked s.success) a v.announced);
  }

  mounted_if-IsOrderly :
      (b : Bool) (users : List Account) (s : Panel)
      → IsOrderly Clicked own s
      → IsOrderly Clicked own (mounted_if b users s)
  mounted_if-IsOrderly false users s v = v
  mounted_if-IsOrderly true users s v = same-IsOrderly s _ refl refl refl refl v

  mount_failed_if-IsOrderly :
      (b : Bool) (message : String) (s : Panel)
      → IsOrderly Clicked own s
      → IsOrderly Clicked own (mount_failed_if b message s)
  mount_failed_if-IsOrderly false message s v = v
  mount_failed_if-IsOrderly true message s v = same-IsOrderly s _ refl refl refl refl v

  step-IsOrderly :
      (s : Panel) (e : Event)
      → IsKnown Clicked e
      → IsOrderly Clicked own s
      → IsOrderly Clicked own (step own s e)
  unfolding step create_account set_disabled
  step-IsOrderly s (type_username text) k v = same-IsOrderly s _ refl refl refl refl v
  step-IsOrderly s (type_password text) k v = same-IsOrderly s _ refl refl refl refl v
  step-IsOrderly s (choose_role role) k v = same-IsOrderly s _ refl refl refl refl v
  step-IsOrderly s submitted k v = create_if-IsOrderly s.busy s v
  step-IsOrderly s (clicked account disabled) k v =
      change_if-IsOrderly (s.busy || eqb account.id own) account disabled s (λ e. ground arith) k v
  step-IsOrderly s accepted k v = taken-IsOrderly s.waits s refl v
  step-IsOrderly s (rejected message) k v = refused-IsOrderly s.waits message s v
  step-IsOrderly s (users_are users) k v = listed-IsOrderly s.waits users s v
  step-IsOrderly s (users_failed message) k v = list_failed-IsOrderly s.waits message s v
  step-IsOrderly s (mounted users) k v = mounted_if-IsOrderly s.mounting users s v
  step-IsOrderly s (mount_failed message) k v = mount_failed_if-IsOrderly s.mounting message s v

  steps_from-IsOrderly :
      (s : Panel) (es : List Event)
      → All (IsKnown Clicked) es
      → IsOrderly Clicked own s
      → IsOrderly Clicked own (steps own s es)
  unfolding steps
  steps_from-IsOrderly s [] k v = v
  steps_from-IsOrderly s (e ∷ es) k v =
      steps_from-IsOrderly (step own s e) es k.1 (step-IsOrderly s e k.0 v)

IsKnown-In :
    (es : List Event) (e : Event)
    → In e es
    → IsKnown (λ account disabled. In (clicked account disabled) es) e
IsKnown-In es (type_username text) i = tt
IsKnown-In es (type_password text) i = tt
IsKnown-In es (choose_role role) i = tt
IsKnown-In es submitted i = tt
IsKnown-In es (clicked account disabled) i = i
IsKnown-In es accepted i = tt
IsKnown-In es (rejected message) i = tt
IsKnown-In es (users_are users) i = tt
IsKnown-In es (users_failed message) i = tt
IsKnown-In es (mounted users) i = tt
IsKnown-In es (mount_failed message) i = tt

-- After anything typed, submitted, clicked and answered, in any order: the form is busy exactly while a
-- call of its own or the `load` after it is under way; every account that was asked for had a
-- trimmed name that is not empty and a password of twelve code units, and no call was about one's
-- own account. A sentence of success, if one is shown, tells of the last call: of the name and the
-- role that were sent with a new account, or of the state that was sent and the name of the account
-- with the id that was sent, as it stood in the row that was clicked.
pub steps-IsOrderly :
    (own : ℕ) (es : List Event)
    → IsOrderly (λ account disabled. In (clicked account disabled) es) own (steps own at_start es)
steps-IsOrderly own es =
    steps_from-IsOrderly (λ account disabled. In (clicked account disabled) es) own at_start es
      (All-of_In _ es (IsKnown-In es))
      (record { busy = refl; proper = tt; under_way = tt; announced = tt })
