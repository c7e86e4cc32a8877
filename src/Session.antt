-- ===== src/Session.antt =====
-- The session of the React client: client/src/state/auth.jsx, over the state of client/src/lib/api.js
-- (Api.Requests) and of client/src/lib/photos.js (Photos), which it tells of a change of token.
-- `U` is the type of the service's user records.
pub mod Owner
mod Tests
use chocobofix.Prelude.{
  ℕ, ◌+◌, String, string_eq, Bool, true, false, Option, none, some, List, [], ◌∷◌, ◌++◌, eqb,
  is_some, if◌then◌else◌, ◌===◌,
}
use chocobofix.Api.Requests.{Client, present}
use chocobofix.Api.Requests
use chocobofix.Photos.{Photos, forget_photos}

-- The calls of the service that the provider awaits; `health` knows whether a token was saved.
pub data Call : Type 0 where
  health : (saved : Bool) → Call
  me : Call
  bootstrap : Call
  login : Call
  logout : Call

-- A call under way, with the session's epoch and token when it was sent.
pub record Flow : Type 0 where
  pub promise : ℕ
  pub call : Call
  pub scope : ℕ
  pub auth_token : Option String

-- What a call comes back with; `aborted` is an error of that name.
pub data Reply (U : Type 0) : Type 0 where
  healthy : (needs_bootstrap : Bool) → Reply U
  user_is : U → Reply U
  token_for : String → U → Reply U
  accepted : Reply U
  failed : (aborted : Bool) → Reply U

-- `saved` is what the tab's storage has under `KEY`.
pub record Session (U V B : Type 0) : Type 0 where
  pub user : Option U
  pub ready : Bool
  pub needs_bootstrap : Bool
  pub saved : Option String
  pub client : Client V
  pub photos : Photos B
  pub mounted : Bool
  pub flows : List Flow
  pub next : ℕ

pub take_flow : ℕ → List Flow → Option Flow
take_flow p [] = none
take_flow p (f ∷ fs) = if eqb f.promise p then some f else take_flow p fs

pub drop_flow : ℕ → List Flow → List Flow
drop_flow p [] = []
drop_flow p (f ∷ fs) = if eqb f.promise p then fs else f ∷ drop_flow p fs

module _ {U : Type 0} where
  -- A value is delivered only to the session that asked for it: the request layer answers any other
  -- with an abort.
  abbrev pub delivered : Bool → Reply U → Reply U
  delivered true reply = reply
  delivered false (failed aborted) = failed aborted
  delivered false reply = failed true

module _ {U V B : Type 0} where
  -- `setToken` of api.js, whose token photos.js reads.
  pub set_token : Option String → Session U V B → Session U V B
  set_token t s = record s {
    client = Requests.set_token t s.client;
    photos = record s.photos { token = t };
  }

  abbrev pub send : Call → Session U V B → Session U V B
  send call s = record s {
    flows =
        s.flows
        ++ record {
          promise = s.next;
          call = call;
          scope = s.client.epoch;
          auth_token = s.client.token;
        }
          ∷ [];
    next = s.next + 1;
  }

  abbrev pub restore_token : Option String → Session U V B → Session U V B
  restore_token none s = send (health false) s
  restore_token (some t) s = send (health true) (set_token (some t) s)

  -- The first effect: the saved token is set, and the service is asked for its health.
  pub mount : Session U V B → Session U V B
  unfolding set_token
  mount s = restore_token (present s.saved) s

  -- The listener of an expired session, and the end of `signOut`.
  pub end_session : Session U V B → Session U V B
  unfolding set_token
  end_session s =
      let t = set_token none (record s { saved = none }) in
      record t {
        user = none;
        client = Requests.clear_cache "" t.client;
        photos = forget_photos none t.photos;
      }

  -- `finally { if (!ac.signal.aborted) setReady(true); }`.
  abbrev pub ready_if : Bool → Session U V B → Session U V B
  ready_if true s = record s { ready = true }
  ready_if false s = s

  abbrev pub now_ready : Session U V B → Session U V B
  now_ready s = ready_if s.mounted s

  abbrev pub show_if : Bool → U → Session U V B → Session U V B
  show_if true u s = record s { user = some u }
  show_if false u s = s

  pub restored : U → Session U V B → Session U V B
  restored u s = now_ready (show_if s.mounted u s)

  -- `me` failed: an abort leaves the session as it is.
  pub not_restored : Bool → Session U V B → Session U V B
  unfolding set_token
  not_restored true s = now_ready s
  not_restored false s = now_ready (set_token none (record s { saved = none }))

  pub signed_in : String → U → Session U V B → Session U V B
  unfolding set_token
  signed_in t u s =
      let r = set_token (some t) (record s { saved = some t }) in
      record r { user = some u; needs_bootstrap = false }

  abbrev pub after_health : Bool → Bool → Session U V B → Session U V B
  after_health saved needs s =
      let t = record s { needs_bootstrap = needs } in if saved then send me t else now_ready t

  -- The provider's code after each call.
  pub resume : Call → Reply U → Session U V B → Session U V B
  unfolding restored not_restored signed_in end_session
  resume (health saved) (healthy needs) s = after_health saved needs s
  resume (health saved) reply s = now_ready s
  resume me (user_is u) s = restored u s
  resume me (failed aborted) s = not_restored aborted s
  resume me reply s = s
  resume bootstrap accepted s = send login s
  resume bootstrap reply s = s
  resume login (token_for t u) s = signed_in t u s
  resume login reply s = s
  resume logout reply s = end_session s

  abbrev pub after_call : Option Flow → Reply U → Session U V B → Session U V B
  after_call none reply s = s
  after_call (some f) reply s =
      resume f.call (delivered (eqb f.scope s.client.epoch) reply)
        (record s { flows = drop_flow f.promise s.flows })

-- What happens to the provider, in any order.
pub data Event (U : Type 0) : Type 0 where
  unmounted : Event U
  expired : Event U
  sign_in : (bootstrap : Bool) → Event U
  sign_out : Event U
  replied : (promise : ℕ) → Reply U → Event U

module _ {U V B : Type 0} where
  pub step : Session U V B → Event U → Session U V B
  unfolding take_flow drop_flow resume end_session
  step s unmounted = record s { mounted = false }
  step s expired = end_session s
  step s (sign_in true) = send bootstrap s
  step s (sign_in false) = send login s
  step s sign_out = send logout s
  step s (replied p reply) = after_call (take_flow p s.flows) reply s

  pub steps : Session U V B → List (Event U) → Session U V B
  unfolding step
  steps s [] = s
  steps s (e ∷ es) = steps (step s e) es
