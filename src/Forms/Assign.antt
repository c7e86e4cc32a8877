-- ===== src/Forms/Assign.antt =====
-- `save` of client/src/components/ActivityDetail.jsx: the chosen coordinator is shown at once, and
-- the one before again when the service refuses.
mod Tests
use chocobofix.Prelude.{
  ℕ, suc, ap, ◌+◌, ◌≡◌, refl, ◌⊎◌, inl, inr, String, Bool, true, false, Option, none, some, List,
  [], ◌∷◌, sym, ◌∙◌, All, In, All-of_In,
}

-- `previous` is the variable of the call under way; `asked` and `stored` have the values of the calls
-- and those that the service took, the last one first,
-- and `notified` counts the calls of `onSaved`.
pub record Panel : Type 0 where
  pub coordinator : List ℕ
  pub previous : List ℕ
  pub in_flight : Bool
  pub saving : Bool
  pub saved : Bool
  pub assign_err : String
  pub asked : List (List ℕ)
  pub stored : List (List ℕ)
  pub notified : ℕ

abbrev start_if : Bool → List ℕ → Panel → Panel
start_if true value s = s
start_if false value s = record s {
  coordinator = value;
  previous = s.coordinator;
  in_flight = true;
  saving = true;
  saved = false;
  assign_err = "";
  asked = value ∷ s.asked;
}

pub save : List ℕ → Panel → Panel
save value s = start_if s.in_flight value s

-- The `finally`.
abbrev finished : Panel → Panel
finished s = record s { saving = false; in_flight = false }

-- The service takes the value of the call, which is the last one asked.
abbrev note_taken : List (List ℕ) → List (List ℕ) → List (List ℕ)
note_taken [] stored = stored
note_taken (value ∷ asked) stored = value ∷ stored

abbrev accept_if : Bool → Panel → Panel
accept_if false s = s
accept_if true s =
    finished
      (record s { saved = true; stored = note_taken s.asked s.stored; notified = suc s.notified })

abbrev refuse_if : Bool → String → Panel → Panel
refuse_if false message s = s
refuse_if true message s = finished (record s { coordinator = s.previous; assign_err = message })

pub data Event : Type 0 where
  chosen : List ℕ → Event
  accepted : Event
  refused : (message : String) → Event

-- A reply comes only for the call under way.
pub step : Panel → Event → Panel
unfolding save
step s (chosen value) = save value s
step s accepted = accept_if s.in_flight s
step s (refused message) = refuse_if s.in_flight message s

pub steps : Panel → List Event → Panel
unfolding step
steps s [] = s
steps s (e ∷ es) = steps (step s e) es

-- The panel that opens on a row with that coordinator.
abbrev pub opened_on : List ℕ → Panel
opened_on coordinator = record {
  coordinator = coordinator;
  previous = coordinator;
  in_flight = false;
  saving = false;
  saved = false;
  assign_err = "";
  asked = [];
  stored = [];
  notified = 0;
}

-- What the service has: the value it took last, or the one that the row came with.
abbrev at_service : List ℕ → List (List ℕ) → List ℕ
at_service initial [] = initial
at_service initial (value ∷ stored) = value

abbrev count_of : List (List ℕ) → ℕ
count_of [] = 0
count_of (value ∷ stored) = suc (count_of stored)

-- While no call is under way the panel shows what the service has; while one is, it shows the value
-- of the call and still has the service's to go back to. `Chosen` holds of the values of all calls.
module _ (Chosen : List ℕ → Type 0) (initial : List ℕ) where
  abbrev pub IsIdle : Panel → Type 0
  IsIdle s = (s.in_flight ≡ false) × (s.coordinator ≡ at_service initial s.stored)

  abbrev pub IsAsking : Panel → Type 0
  IsAsking s =
      (s.in_flight ≡ true)
      × (s.previous ≡ at_service initial s.stored)
      × ((rest : List (List ℕ)) × (s.asked ≡ s.coordinator ∷ rest))

  pub record IsSettled (s : Panel) : Type 0 where
    pub shown : IsIdle s ⊎ IsAsking s
    pub busy : s.saving ≡ s.in_flight
    pub told : s.notified ≡ count_of s.stored
    pub sent : All Chosen s.asked

  -- A choice is one of those values.
  abbrev pub IsKnown : Event → Type 0
  IsKnown (chosen value) = Chosen value
  IsKnown _ = Unit

  of_IsIdle : (s : Panel) → s.in_flight ≡ false → IsIdle s ⊎ IsAsking s → IsIdle s
  of_IsIdle s e (inl idle) = idle
  of_IsIdle s e (inr asking) = let x = asking.0 in cc

  of_IsAsking : (s : Panel) → s.in_flight ≡ true → IsIdle s ⊎ IsAsking s → IsAsking s
  of_IsAsking s e (inl idle) = let x = idle.0 in cc
  of_IsAsking s e (inr asking) = asking

  start_if-IsSettled :
      (b : Bool) (value : List ℕ) (s : Panel)
      → s.in_flight ≡ b
      → Chosen value
      → IsSettled s
      → IsSettled (start_if b value s)
  start_if-IsSettled true value s e k v = v
  start_if-IsSettled false value s e k v = record {
    shown = inr (refl, (of_IsIdle s e v.shown).1, (s.asked, refl));
    busy = refl;
    told = v.told;
    sent = (k, v.sent);
  }

  accept_if-IsSettled :
      (b : Bool) (s : Panel) → s.in_flight ≡ b → IsSettled s → IsSettled (accept_if b s)
  accept_if-IsSettled false s e v = v
  accept_if-IsSettled true s e v =
      let (flag, before, (rest, same)) = of_IsAsking s e v.shown in
      record {
        shown = inl (refl, sym (ap (λ asked. at_service initial (note_taken asked s.stored)) same));
        busy = refl;
        told = ap suc v.told ∙ sym (ap (λ asked. count_of (note_taken asked s.stored)) same);
        sent = v.sent;
      }

  refuse_if-IsSettled :
      (b : Bool) (message : String) (s : Panel)
      → s.in_flight ≡ b
      → IsSettled s
      → IsSettled (refuse_if b message s)
  refuse_if-IsSettled false message s e v = v
  refuse_if-IsSettled true message s e v = record {
    shown = inl (refl, (of_IsAsking s e v.shown).1);
    busy = refl;
    told = v.told;
    sent = v.sent;
  }

  step-IsSettled : (s : Panel) (e : Event) → IsKnown e → IsSettled s → IsSettled (step s e)
  unfolding step save
  step-IsSettled s (chosen value) k v = start_if-IsSettled s.in_flight value s refl k v
  step-IsSettled s accepted k v = accept_if-IsSettled s.in_flight s refl v
  step-IsSettled s (refused message) k v = refuse_if-IsSettled s.in_flight message s refl v

  steps_from-IsSettled :
      (s : Panel) (es : List Event) → All IsKnown es → IsSettled s → IsSettled (steps s es)
  unfolding steps
  steps_from-IsSettled s [] k v = v
  steps_from-IsSettled s (e ∷ es) k v =
      steps_from-IsSettled (step s e) es k.1 (step-IsSettled s e k.0 v)

IsKnown-In :
    (initial : List ℕ) (es : List Event) (e : Event)
    → In e es
    → IsKnown (λ value. In (chosen value) es) initial e
IsKnown-In initial es (chosen value) i = i
IsKnown-In initial es accepted i = tt
IsKnown-In initial es (refused message) i = tt

-- After any choices and replies, in any order, on a panel that opened on a coordinator: without a
-- call under way the panel shows the value of the last call that the service took, or the one it
-- opened on when it took none; with one under way it shows the value of that call and still has that
-- of the service to go back to. Each call had a value that was chosen. The form is busy exactly while
-- a call is under way, and `onSaved` was called once for each call that the service took.
pub steps-IsSettled :
    (initial : List ℕ) (es : List Event)
    → IsSettled (λ value. In (chosen value) es) initial (steps (opened_on initial) es)
steps-IsSettled initial es =
    steps_from-IsSettled (λ value. In (chosen value) es) initial (opened_on initial) es
      (All-of_In _ es (IsKnown-In initial es))
      (record { shown = inl (refl, refl); busy = refl; told = refl; sent = tt })
