-- ===== src/Session/Owner.antt =====
-- Whose session it is: the user that is shown belongs to the token that is used.
use chocobofix.Prelude.{
  ℕ, ◌≤◌, ◌≡◌, refl, ap, sym, subst, ◌∙◌, ◌⊎◌, inl, inr, String, string_eq, Bool, true, false,
  Option, none, some, List, [], ◌∷◌, arith, eqb, All, All-map, All-append, Bool-cases, Option-cases,
  ◌===◌,
}
use chocobofix.Api.Requests.{Client, present, clear_cache}
use chocobofix.Api.Requests
use chocobofix.Api.Requests.Epochs.{set_token-cases, clear_cache-keeps}
use chocobofix.Photos.Forgotten.{nothing_kept, forget_photos-token}
use chocobofix.Session.{
  Call, health, me, bootstrap, login, logout, Flow, Reply, healthy, user_is, token_for, accepted,
  failed, Session, take_flow, drop_flow, set_token, send, restore_token, mount, end_session,
  ready_if, show_if, delivered, restored, not_restored, signed_in, resume, after_call, Event,
  unmounted, expired, sign_in, sign_out, replied, step, steps,
}

-- A call was sent in this session or an earlier one, and with this session's token if in this one.
module _ {V : Type 0} where
  abbrev IsOf : Client V → Flow → Type 0
  IsOf c f = (f.scope ≤ c.epoch) × (f.scope ≡ c.epoch → f.auth_token ≡ c.token)

  -- `setToken` leaves the calls of earlier sessions behind.
  set_token-IsOf :
      (t : Option String) (c : Client V) (f : Flow) → IsOf c f → IsOf (Requests.set_token t c) f
  set_token-IsOf t c f h = elim (set_token-cases t c) [
    | inl (same, now) ↦ rw same h
    | inr (later, now) ↦ (omega (arith, later, h.0), λ e. absurd (omega (arith, later, h.0, e)))
  ]

  token-set_token : (t : Option String) (c : Client V) → (Requests.set_token t c).token ≡ t
  token-set_token t c = elim (set_token-cases t c) [
    | inl (same, now) ↦ rw same now
    | inr (later, now) ↦ now
  ]

module _ (Q : Flow → Type 0) where
  All-drop_flow : (p : ℕ) (fs : List Flow) → All Q fs → All Q (drop_flow p fs)
  unfolding drop_flow
  All-drop_flow p [] h = tt
  All-drop_flow p (f ∷ fs) h = ground (arith, All-drop_flow p fs h.1)

  take_flow-All : (p : ℕ) (fs : List Flow) {f : Flow} → All Q fs → take_flow p fs ≡ some f → Q f
  unfolding take_flow
  take_flow-All p [] {f} h e = cc
  take_flow-All p (g ∷ fs) {f} h e = ground (arith, take_flow-All p fs {f = f} h.1)

-- `P t u` says that `u` is the user to whom the service gave the token `t`.
module _ {U : Type 0} (P : String → U → Type 0) where
  -- The token, if there is one, is that of the user who is shown, if one is.
  abbrev pub Owns : Option U → Option String → Type 0
  Owns none t = Unit
  Owns (some u) none = Unit
  Owns (some u) (some t) = P t u

  -- The user for whom a call was answered has the token of the call.
  abbrev IsUserOf : U → Option String → Type 0
  IsUserOf u none = ⊥
  IsUserOf u (some t) = P t u

  IsUserOf-Owns : (u : U) (t : Option String) → IsUserOf u t → Owns (some u) t
  IsUserOf-Owns u none h = tt
  IsUserOf-Owns u (some t) h = h

  Owns-none : (u : Option U) → Owns u none
  Owns-none none = tt
  Owns-none (some u) = tt

  -- What is known of the value of a call in a session with that token.
  abbrev Fits : Option String → Reply U → Type 0
  Fits token (token_for t u) = P t u
  Fits token (user_is u) = Owns (some u) token
  Fits token _ = Unit

  -- What the service may answer to a call that carried that token.
  abbrev Says : Option String → Reply U → Type 0
  Says auth_token (token_for t u) = P t u
  Says auth_token (user_is u) = IsUserOf u auth_token
  Says auth_token _ = Unit

  delivered-Fits :
      (same : Bool) (auth_token token : Option String) (reply : Reply U)
      → (same ≡ true → auth_token ≡ token)
      → Says auth_token reply
      → Fits token (delivered same reply)
  delivered-Fits true auth_token token (healthy needs) e h = tt
  delivered-Fits true auth_token token (user_is u) e h =
      subst (Owns (some u)) (e refl) (IsUserOf-Owns u auth_token h)
  delivered-Fits true auth_token token (token_for t u) e h = h
  delivered-Fits true auth_token token accepted e h = tt
  delivered-Fits true auth_token token (failed aborted) e h = tt
  delivered-Fits false auth_token token (healthy needs) e h = tt
  delivered-Fits false auth_token token (user_is u) e h = tt
  delivered-Fits false auth_token token (token_for t u) e h = tt
  delivered-Fits false auth_token token accepted e h = tt
  delivered-Fits false auth_token token (failed aborted) e h = tt

module _ {U V B : Type 0} (P : String → U → Type 0) where
  -- The storage, photos.js and api.js have one token, and the user that is shown is its owner.
  pub record IsOwned (s : Session U V B) : Type 0 where
    pub saved : present s.saved ≡ present s.client.token
    pub seen : s.photos.token ≡ s.client.token
    pub owner : Owns P s.user s.client.token
    pub flows : All (IsOf s.client) s.flows

  abbrev IsHonest : Session U V B → Event U → Type 0
  IsHonest s (replied p reply) =
      (f : Flow) → take_flow p s.flows ≡ some f → Says P f.auth_token reply
  IsHonest s _ = Unit

  -- The service answers a call with the owner of the call's token, and a login with a token and
  -- its owner.
  abbrev pub AreHonest : Session U V B → List (Event U) → Type 0
  AreHonest s [] = Unit
  AreHonest s (e ∷ es) = IsHonest s e × AreHonest (step s e) es

  send-IsOwned : (call : Call) (s : Session U V B) → IsOwned s → IsOwned (send call s)
  send-IsOwned call s v = record {
    saved = v.saved;
    seen = v.seen;
    owner = v.owner;
    flows = All-append _ s.flows _ v.flows ((omega arith, λ e. refl), tt);
  }

  end_session-IsOwned : (s : Session U V B) → All (IsOf s.client) s.flows → IsOwned (end_session s)
  unfolding end_session set_token
  end_session-IsOwned s flows =
      let t = set_token none (record s { saved = none }) in
      let (epoch, token) = clear_cache-keeps "" t.client in
      let now : (Requests.clear_cache "" t.client).token ≡ none =
        token ∙ token-set_token none s.client in
      record {
        saved = sym (ap present now);
        seen = forget_photos-token t.photos ∙ sym now;
        owner = tt;
        flows =
            All-map _ _ (λ f h. rw (epoch, token) (set_token-IsOf none s.client f h)) s.flows flows;
      }

  ready_if-IsOwned : (b : Bool) (s : Session U V B) → IsOwned s → IsOwned (ready_if b s)
  ready_if-IsOwned true s v = record {
    saved = v.saved;
    seen = v.seen;
    owner = v.owner;
    flows = v.flows;
  }
  ready_if-IsOwned false s v = v

  show_if-IsOwned :
      (b : Bool) (u : U) (s : Session U V B)
      → IsOwned s
      → Owns P (some u) s.client.token
      → IsOwned (show_if b u s)
  show_if-IsOwned true u s v h = record {
    saved = v.saved;
    seen = v.seen;
    owner = h;
    flows = v.flows;
  }
  show_if-IsOwned false u s v h = v

  not_restored-IsOwned :
      (aborted : Bool) (s : Session U V B) → IsOwned s → IsOwned (not_restored aborted s)
  unfolding not_restored set_token
  not_restored-IsOwned true s v = ready_if-IsOwned s.mounted s v
  not_restored-IsOwned false s v =
      let now = token-set_token none s.client in
      ready_if-IsOwned s.mounted (set_token none (record s { saved = none })) (record {
        saved = sym (ap present now);
        seen = sym now;
        owner = rw now (Owns-none P s.user);
        flows = All-map _ _ (set_token-IsOf none s.client) s.flows v.flows;
      })

  restored-IsOwned :
      (u : U) (s : Session U V B)
      → IsOwned s
      → Owns P (some u) s.client.token
      → IsOwned (restored u s)
  unfolding restored
  restored-IsOwned u s v h =
      let t = show_if s.mounted u s in
      ready_if-IsOwned t.mounted t (show_if-IsOwned s.mounted u s v h)

  signed_in-IsOwned :
      (t : String) (u : U) (s : Session U V B) → IsOwned s → P t u → IsOwned (signed_in t u s)
  unfolding signed_in set_token
  signed_in-IsOwned t u s v h =
      let now = token-set_token (some t) s.client in
      record {
        saved = sym (ap present now);
        seen = sym now;
        owner = rw now h;
        flows = All-map _ _ (set_token-IsOf (some t) s.client) s.flows v.flows;
      }

  resume-IsOwned :
      (call : Call) (reply : Reply U) (s : Session U V B)
      → IsOwned s
      → Fits P s.client.token reply
      → IsOwned (resume call reply s)
  unfolding resume
  resume-IsOwned (health true) (healthy needs) s v h =
      send-IsOwned me _
        (record { saved = v.saved; seen = v.seen; owner = v.owner; flows = v.flows })
  resume-IsOwned (health false) (healthy needs) s v h =
      ready_if-IsOwned s.mounted _
        (record { saved = v.saved; seen = v.seen; owner = v.owner; flows = v.flows })
  resume-IsOwned (health saved) (user_is u) s v h = ready_if-IsOwned s.mounted s v
  resume-IsOwned (health saved) (token_for t u) s v h = ready_if-IsOwned s.mounted s v
  resume-IsOwned (health saved) accepted s v h = ready_if-IsOwned s.mounted s v
  resume-IsOwned (health saved) (failed aborted) s v h = ready_if-IsOwned s.mounted s v
  resume-IsOwned me (healthy needs) s v h = v
  resume-IsOwned me (user_is u) s v h = restored-IsOwned u s v h
  resume-IsOwned me (token_for t u) s v h = v
  resume-IsOwned me accepted s v h = v
  resume-IsOwned me (failed aborted) s v h = not_restored-IsOwned aborted s v
  resume-IsOwned bootstrap (healthy needs) s v h = v
  resume-IsOwned bootstrap (user_is u) s v h = v
  resume-IsOwned bootstrap (token_for t u) s v h = v
  resume-IsOwned bootstrap accepted s v h = send-IsOwned login s v
  resume-IsOwned bootstrap (failed aborted) s v h = v
  resume-IsOwned login (healthy needs) s v h = v
  resume-IsOwned login (user_is u) s v h = v
  resume-IsOwned login (token_for t u) s v h = signed_in-IsOwned t u s v h
  resume-IsOwned login accepted s v h = v
  resume-IsOwned login (failed aborted) s v h = v
  resume-IsOwned logout reply s v h = end_session-IsOwned s v.flows

  after_call-IsOwned :
      (f : Flow) (reply : Reply U) (s : Session U V B)
      → IsOwned s
      → IsOf s.client f
      → Says P f.auth_token reply
      → IsOwned (after_call (some f) reply s)
  after_call-IsOwned f reply s v sent h =
      resume-IsOwned f.call (delivered (eqb f.scope s.client.epoch) reply) _
        (record {
          saved = v.saved;
          seen = v.seen;
          owner = v.owner;
          flows = All-drop_flow _ f.promise s.flows v.flows;
        })
        (delivered-Fits P (eqb f.scope s.client.epoch) f.auth_token s.client.token reply
          (λ e. sent.1 (ground arith)) h)

  step-IsOwned : (s : Session U V B) (e : Event U) → IsOwned s → IsHonest s e → IsOwned (step s e)
  unfolding step
  step-IsOwned s unmounted v h = record {
    saved = v.saved;
    seen = v.seen;
    owner = v.owner;
    flows = v.flows;
  }
  step-IsOwned s expired v h = end_session-IsOwned s v.flows
  step-IsOwned s (sign_in true) v h = send-IsOwned bootstrap s v
  step-IsOwned s (sign_in false) v h = send-IsOwned login s v
  step-IsOwned s sign_out v h = send-IsOwned logout s v
  step-IsOwned s (replied p reply) v h = found (Option-cases (take_flow p s.flows))
    where
      found :
          (take_flow p s.flows ≡ none) ⊎ ((f : Flow) × (take_flow p s.flows ≡ some f))
          → IsOwned (after_call (take_flow p s.flows) reply s)
      found (inl e) = rw e v
      found (inr (f, e)) =
          rw e (after_call-IsOwned f reply s v (take_flow-All _ p s.flows v.flows e) (h f e))

  steps-IsOwned :
      (s : Session U V B) (es : List (Event U)) → IsOwned s → AreHonest s es → IsOwned (steps s es)
  unfolding steps
  steps-IsOwned s [] v h = v
  steps-IsOwned s (e ∷ es) v h = steps-IsOwned (step s e) es (step-IsOwned s e v h.0) h.1

-- The tab as it is opened, with what its storage has.
module _ {U V B : Type 0} where
  abbrev pub opened : Option String → Session U V B
  opened saved = record {
    user = none;
    ready = false;
    needs_bootstrap = false;
    saved = saved;
    client = record {
      token = none;
      epoch = 0;
      immutable = [];
      inflight = [];
      pending = [];
      next = 0;
    };
    photos = nothing_kept none;
    mounted = true;
    flows = [];
    next = 0;
  }

present-present : (s : Option String) → present (present s) ≡ present s
present-present none = refl
present-present (some t) = elim (Bool-cases (t === "")) [
  | inl empty ↦ rw empty refl
  | inr full ↦ rw (full, full) refl
]

module _ {U : Type 0} (V B : Type 0) (P : String → U → Type 0) where
  mount-IsOwned : (saved : Option String) → IsOwned P (mount {V = V} {B = B} (opened saved))
  unfolding mount set_token
  mount-IsOwned saved = from (present saved) refl
    where
      from :
          (t : Option String)
          → present saved ≡ t
          → IsOwned {V = V} {B = B} P (restore_token t (opened saved))
      from none e =
          send-IsOwned P (health false) (opened saved)
            (record { saved = e; seen = refl; owner = tt; flows = tt })
      from (some t) e =
          let now = token-set_token (some t) (opened {U = U} {V = V} {B = B} saved).client in
          send-IsOwned P (health true) (set_token (some t) (opened saved)) (record {
            saved = sym (present-present saved) ∙ ap present e ∙ sym (ap present now);
            seen = sym now;
            owner = tt;
            flows = tt;
          })

  -- From the opening of the tab on, whatever calls, replies, sign-ins, sign-outs and expiries come
  -- in whatever order: the storage and photos.js have the token that api.js sends, and when a user
  -- is shown and there is a token, it is that user's. The service is supposed to answer a login
  -- with a token and its owner, and any other call only for the owner of the token it carried.
  pub steps-Owns :
      (saved : Option String) (es : List (Event U))
      → AreHonest P (mount {V = V} {B = B} (opened saved)) es
      → let s = steps (mount {V = V} {B = B} (opened saved)) es in
        (present s.saved ≡ present s.client.token)
        × (s.photos.token ≡ s.client.token)
        × Owns P s.user s.client.token
  steps-Owns saved es h =
      let v = steps-IsOwned P (mount (opened saved)) es (mount-IsOwned saved) h in
      (v.saved, v.seen, v.owner)
