-- ===== src/Api/Requests/Replies.antt =====
-- client/src/lib/api.js: the fate of a reply, in `raw` and in the handlers that `request` hangs on
-- its promise; the listener of `chocobofix:session-expired` is state/auth.jsx's.
use chocobofix.Prelude.{
  ℕ, String, Bool, true, false, not, ◌&&◌, ◌||◌, Option, none, some, List, [], ◌∷◌, eqb, leb, find,
  length, if◌then◌else◌, is_some, ◌===◌, string_eq,
}
use chocobofix.Prelude.JsMap
use chocobofix.Api.Requests.{
  Key, Key-eq, Failure, api_error, abort_error, Result, value, failure, Reply, response,
  network_error, fetch_aborted, fetching, returned, Pending, Client, Options, Answer, max_cache,
  present, update, drop_pending, set_token, clear_cache, request,
}

abbrev or_else : String → String → String
or_else a b = if a === "" then b else a

abbrev pub timeout_error : Failure
timeout_error = api_error "The request took too long. Check its status before you retry a change." 0

abbrev pub unreachable_error : Failure
unreachable_error =
    api_error "The service could not be reached or returned an invalid response. Try again." 0

abbrev pub same_promise : ℕ → Option ℕ → Bool
same_promise n none = false
same_promise n (some m) = eqb m n

-- The `finally` of `request`: a later promise under the same key stays.
abbrev pub forget_inflight : Option Key → ℕ → List (Key × ℕ) → List (Key × ℕ)
forget_inflight none n m = m
forget_inflight (some k) n m = if same_promise n (JsMap.get k m) then JsMap.delete k m else m

pub data Event (V : Type 0) : Type 0 where
  call : Options → Event V
  reply : (promise : ℕ) → Reply V → Event V
  -- The handlers of `request` run after `raw` has returned.
  resume : (promise : ℕ) → Event V
  abort : (promise : ℕ) → Event V
  time_out : (promise : ℕ) → Event V
  token : Option String → Event V
  clear : String → Event V

pub data Effect (V : Type 0) : Type 0 where
  nothing : Effect V
  answered : Answer V → Effect V
  settled : (promise : ℕ) → Result V → Effect V

module _ {V : Type 0} where
  -- The `catch` of `raw`: a request that timed out says so, whatever went wrong.
  unfoldable pub caught : Pending V → Failure → Result V
  caught p e = if p.timed_out then failure timeout_error else failure e

  -- `raw` from the reply of `fetch` to its value or exception.
  unfoldable pub raw : ℕ → Pending V → Reply V → Result V
  unfolding caught
  raw epoch p network_error = caught p unreachable_error
  raw epoch p fetch_aborted = caught p abort_error
  raw epoch p (response ok status parsed error status_text) =
      if not (eqb p.scope epoch) || p.aborted
      then caught p abort_error
      else if ok
      then value parsed
      else caught p (api_error (or_else error (or_else status_text "The request failed.")) status)

  -- Whether `raw` dispatches `chocobofix:session-expired` on its way.
  unfoldable pub expires : ℕ → Pending V → Reply V → Bool
  expires epoch p (response ok status parsed error status_text) =
      not (not (eqb p.scope epoch) || p.aborted)
      && not ok
      && eqb status 401
      && is_some (present p.auth_token)
  expires epoch p _ = false

  -- The listener: the token goes, and the cache with it.
  unfoldable pub expire : Client V → Client V
  unfolding set_token clear_cache
  expire c = clear_cache "" (set_token none c)

  unfoldable pub conclude : Pending V → Client V → Client V
  conclude p c = record c {
    inflight = forget_inflight p.key p.promise c.inflight;
    pending = drop_pending p.promise c.pending;
  }

  -- `immutable.delete(immutable.keys().next().value)`.
  abbrev pub evict : List (String × V) → List (String × V)
  evict [] = []
  evict ((k, v) ∷ m) = JsMap.delete k ((k, v) ∷ m)

  unfoldable pub store : Option String → V → List (String × V) → List (String × V)
  store none v m = m
  store (some k) v m = JsMap.set k v (if leb max_cache (length m) then evict m else m)

  abbrev pub finish_raw : Pending V → Client V → Result V → Client V × Effect V
  finish_raw p c (value v) = (
    record c { pending = update (λ q. record q { stage = returned v }) p.promise c.pending },
    nothing,
  )
  finish_raw p c (failure e) = (conclude p c, settled p.promise (failure e))

  abbrev pub after_expiry : Bool → Client V → Client V
  after_expiry b c = if b then expire c else c

  abbrev pub replied : Reply V → Client V → Option (Pending V) → Client V × Effect V
  replied r c none = (c, nothing)
  replied r c (some p) = elim p.stage [
    | fetching ↦ finish_raw p (after_expiry (expires c.epoch p r) c) (raw c.epoch p r)
    | returned v ↦ (c, nothing)
  ]

  -- `.then`: the scope is compared again, and only then is the value kept.
  abbrev pub deliver : Pending V → V → Client V → Client V × Effect V
  deliver p v c =
      if eqb p.scope c.epoch
      then (
        conclude p (record c { immutable = store p.cache_key v c.immutable }),
        settled p.promise (value v),
      )
      else (conclude p c, settled p.promise (failure abort_error))

  abbrev pub resumed : Client V → Option (Pending V) → Client V × Effect V
  resumed c none = (c, nothing)
  resumed c (some p) = elim p.stage [ fetching ↦ (c, nothing) | returned v ↦ deliver p v c ]

  abbrev pub pending_of : ℕ → Client V → Option (Pending V)
  pending_of n c = find (λ p. eqb p.promise n) c.pending

  abbrev pub answer : Client V × Answer V → Client V × Effect V
  answer (c, a) = (c, answered a)

  unfoldable pub step : Client V → Event V → Client V × Effect V
  unfolding conclude store raw expires expire request set_token clear_cache
  step c (call o) = answer (request o c)
  step c (reply n r) = replied r c (pending_of n c)
  step c (resume n) = resumed c (pending_of n c)
  step c (abort n) =
      (record c { pending = update (λ p. record p { aborted = true }) n c.pending }, nothing)
  step c (time_out n) = (
    record c { pending = update (λ p. record p { aborted = true; timed_out = true }) n c.pending },
    nothing,
  )
  step c (token t) = (set_token t c, nothing)
  step c (clear prefix) = (clear_cache prefix c, nothing)

  unfoldable pub run : Client V → List (Event V) → Client V
  run c [] = c
  run c (e ∷ es) = run (step c e).0 es

abbrev pub initial : {V : Type 0} → Client V
initial = record { token = none; epoch = 0; immutable = []; inflight = []; pending = []; next = 0 }
