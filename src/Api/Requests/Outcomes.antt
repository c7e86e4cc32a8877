-- ===== src/Api/Requests/Outcomes.antt =====
-- What becomes of one request: the error of a timeout, the end of a session by a 401, a read that
-- is shared, a value that is cached.
use chocobofix.Prelude.{
  ℕ, ◌+◌, ◌≡◌, ◌≢◌, refl, String, string_eq, true, false, none, some, List, [], arith, eqb_iff,
  eq_iff,
}
use chocobofix.Prelude.JsMap
use chocobofix.Prelude.JsMap.{get, get-set}
use chocobofix.Api.Requests.{
  Key, Key-eq, key_eq, api_error, failure, Reply, response, fetching, returned, Pending, Client,
  Options, cached, joined, started, present, request_key, cached_or_send, request, start, some_or,
}
use chocobofix.Api.Requests.Replies.{
  raw, caught, timeout_error, conclude, store, step, reply, resume, pending_of, settled, replied,
  resumed,
}

abbrev read_key : ℕ → Options → Key
read_key scope o = record {
  scope = scope;
  name = some_or (present o.cache_key) (some_or (present o.dedupe_key) o.path);
}

module _ {V : Type 0} where
  -- A request that timed out ends in the timeout's error whatever the reply, a success included;
  -- its error can be retried.
  pub raw-timed_out :
      (epoch : ℕ) (p : Pending V) (r : Reply V)
      → p.timed_out ≡ true
      → p.aborted ≡ true
      → raw epoch p r ≡ failure timeout_error
  unfolding raw caught
  raw-timed_out epoch p r t a = ground arith

  -- A 401 to a request of the signed-in session that is neither aborted nor late signs out: the
  -- token and the cache are gone, nothing is shared any more, the session has a new number, and
  -- the caller gets the server's message with the status.
  pub reply-401 :
      (c : Client V) (n : ℕ) (p : Pending V) (token message text : String) (v : V)
      → pending_of n c ≡ some p
      → p.stage ≡ fetching
      → p.aborted ≡ false
      → p.timed_out ≡ false
      → p.scope ≡ c.epoch
      → p.auth_token ≡ some token
      → c.token ≡ some token
      → token ≢ ""
      → message ≢ ""
      → let (c', effect) = step c (reply n (response false 401 v message text)) in
        (c'.token ≡ none)
        × (c'.immutable ≡ [])
        × (c'.inflight ≡ [])
        × (c'.epoch ≡ c.epoch + 1)
        × (effect ≡ settled p.promise (failure (api_error message 401)))
  unfolding step JsMap.get
  reply-401 c n p token message text v found stage ab late scope auth mine t m =
      rw (found, replied) (rw (stage, replied) (ground (arith, eq_iff token "", eq_iff message "")))

  -- A read that is started without a signal is shared: the same read asked again before anything
  -- else happens joins the same promise and sends nothing.
  pub request_twice :
      (o : Options) (c : Client V) (n : ℕ)
      → o.signal ≡ false
      → o.method ≡ none
      → (request o c).1 ≡ started n
      → request o (request o c).0 ≡ ((request o c).0, joined n)
  unfolding request start request_key
  request_twice o c n s m e = ground (
    arith,
    get-set (read_key c.epoch o) (read_key c.epoch o) c.next c.inflight,
    key_eq (read_key c.epoch o) (read_key c.epoch o),
  )

  get-store : (k : String) (v : V) (m : List (String × V)) → get k (store (some k) v m) ≡ some v
  unfolding store
  get-store k v m = simp (get-set, (eq_iff k k).1 refl)

  -- A value that `raw` has returned in the present session is kept under its cache key: the next
  -- request with that key, whatever its path, is answered from the cache and sends nothing.
  pub resume-cached :
      (c : Client V) (n : ℕ) (p : Pending V) (k : String) (v : V) (o : Options)
      → pending_of n c ≡ some p
      → p.stage ≡ returned v
      → p.scope ≡ c.epoch
      → p.cache_key ≡ some k
      → present o.cache_key ≡ some k
      → o.signal_aborted ≡ false
      → let c' = (step c (resume n)).0 in request o c' ≡ (c', cached v)
  unfolding step conclude request
  resume-cached c n p k v o found stage scope key ok live =
      rw (found, resumed)
        (rw (stage, resumed)
          (rw (scope, (eqb_iff c.epoch c.epoch).1 refl)
            (simp (live, key, ok) (rw (get-store k v c.immutable, cached_or_send) refl))))
