-- ===== src/Api/Requests.antt =====
-- client/src/lib/api.js: the state of the module, `setToken`, `clearCache` and `request`;
-- `Replies` has `raw` from the reply on, and what `request` does with its value. A promise is the number of the request that made it. What a
-- caller's values are is a parameter, `V`; the wait for a connection is `Limiter`'s and counts as
-- part of the fetch here.
pub mod Replies
pub mod Invariant
pub mod Isolation
pub mod Outcomes
pub mod Epochs
mod Tests
use text.Mathlib.Text.{starts_with}
use chocobofix.Prelude.{
  ℕ, suc, ◌+◌, ◌≡◌, String, Bool, true, false, not, ◌&&◌, ◌||◌, Option, none, some, List, [], ◌∷◌,
  ◌++◌, eqb, leb, keep, find, length, if◌then◌else◌, is_some, StrictEq, ◌===◌, string_eq, ◌↔◌,
  eq_iff, arith,
}
use chocobofix.Prelude.JsMap
use chocobofix.Prelude.JsMap.{get, has, delete}

abbrev pub max_cache : ℕ
max_cache = 64

-- `${scope}:${name}`; the scope's digits end at the first colon, so the text is this pair.
pub record Key : Type 0 where
  pub scope : ℕ
  pub name : String

pub key_eq : (a b : Key) → ((eqb a.scope b.scope && a.name === b.name) ≡ true) ↔ (a ≡ b)
key_eq a b = ground (arith, eq_iff a.name b.name)

instance abbrev pub Key-eq : StrictEq Key
Key-eq = record { same = λ a b. eqb a.scope b.scope && a.name === b.name; same_iff = key_eq }

-- `ApiError` with its message and status, or the `AbortError` of `aborted`.
pub data Failure : Type 0 where
  api_error : (message : String) → (status : ℕ) → Failure
  abort_error : Failure

abbrev pub retryable : Failure → Bool
retryable (api_error message status) = eqb status 0 || leb 500 status || eqb status 429
retryable abort_error = false

pub data Result (V : Type 0) : Type 0 where
  value : V → Result V
  failure : Failure → Result V

-- What the transport answers: a response that was read, with `parsed?.error` and `statusText`; an
-- exception of `fetch` or of the body's reader; or its abort.
pub data Reply (V : Type 0) : Type 0 where
  response : (ok : Bool) → (status : ℕ) → (parsed : V) → (error status_text : String) → Reply V
  network_error : Reply V
  fetch_aborted : Reply V

pub record Options : Type 0 where
  pub method : Option String
  pub path : String
  pub cache_key : Option String
  pub dedupe_key : Option String
  -- Whether the caller gave a signal, and whether that has been aborted.
  pub signal : Bool
  pub signal_aborted : Bool

pub data Stage (V : Type 0) : Type 0 where
  fetching : Stage V
  returned : V → Stage V

-- A request under way: the variables of `raw` and of `request`'s closure.
pub record Pending (V : Type 0) : Type 0 where
  pub promise : ℕ
  pub scope : ℕ
  pub auth_token : Option String
  pub key : Option Key
  pub cache_key : Option String
  pub aborted : Bool
  pub timed_out : Bool
  pub stage : Stage V

pub record Client (V : Type 0) : Type 0 where
  pub token : Option String
  pub epoch : ℕ
  pub immutable : List (String × V)
  pub inflight : List (Key × ℕ)
  pub pending : List (Pending V)
  pub next : ℕ

abbrev same_token : Option String → Option String → Bool
same_token none none = true
same_token (some a) (some b) = a === b
same_token _ _ = false

-- A string that is missing or empty is falsy.
abbrev pub present : Option String → Option String
present none = none
present (some s) = if s === "" then none else some s

abbrev pub some_or : Option String → String → String
some_or (some a) b = a
some_or none b = b

-- What `request` returns: a rejection, a cached value, the promise in flight, or a new one.
pub data Answer (V : Type 0) : Type 0 where
  refused : Answer V
  cached : V → Answer V
  joined : ℕ → Answer V
  started : ℕ → Answer V

abbrev pub is_read : Option String → Bool
is_read none = true
is_read (some m) = m === "GET"

pub request_key : ℕ → Options → Option Key
request_key scope o =
    if is_read (present o.method) && not o.signal
    then some (record {
      scope = scope;
      name = some_or (present o.cache_key) (some_or (present o.dedupe_key) o.path);
    })
    else none

abbrev pub found_inflight : Option Key → List (Key × ℕ) → Option ℕ
found_inflight none m = none
found_inflight (some k) m = get k m

abbrev pub note_inflight : Option Key → ℕ → List (Key × ℕ) → List (Key × ℕ)
note_inflight none n m = m
note_inflight (some k) n m = JsMap.set k n m

module _ {V : Type 0} where
  abbrev stop : Pending V → Pending V
  stop p = record p { aborted = true }

  -- Changes the request of that number.
  pub update : (Pending V → Pending V) → ℕ → List (Pending V) → List (Pending V)
  update f n [] = []
  update f n (p ∷ ps) = if eqb p.promise n then f p ∷ ps else p ∷ update f n ps

  pub stop_all : List (Pending V) → List (Pending V)
  stop_all [] = []
  stop_all (p ∷ ps) = stop p ∷ stop_all ps

  pub drop_pending : ℕ → List (Pending V) → List (Pending V)
  drop_pending n [] = []
  drop_pending n (p ∷ ps) = if eqb p.promise n then ps else p ∷ drop_pending n ps

  -- The session's controller is aborted, which every request under way listens to.
  unfoldable pub set_token : Option String → Client V → Client V
  unfolding stop_all
  set_token t c = if same_token t c.token then c else record c {
    token = t;
    epoch = c.epoch + 1;
    immutable = [];
    inflight = [];
    pending = stop_all c.pending;
  }

  unfoldable pub clear_cache : String → Client V → Client V
  clear_cache prefix c = record c {
    immutable = keep (λ b. not (starts_with b.0 prefix)) c.immutable;
  }

  abbrev pub found_cached : Option String → List (String × V) → Option V
  found_cached none m = none
  found_cached (some k) m = get k m

  pub start : Options → Option Key → Client V → Client V × Answer V
  start o key c = (
    record c {
      inflight = note_inflight key c.next c.inflight;
      pending =
          c.pending
          ++ record {
            promise = c.next;
            scope = c.epoch;
            auth_token = c.token;
            key = key;
            cache_key = present o.cache_key;
            aborted = false;
            timed_out = false;
            stage = fetching;
          }
            ∷ [];
      next = c.next + 1;
    },
    started c.next,
  )

  abbrev pub join_or_start : Options → Option Key → Client V → Option ℕ → Client V × Answer V
  join_or_start o key c (some n) = (c, joined n)
  join_or_start o key c none = start o key c

  abbrev pub cached_or_send : Options → Option Key → Client V → Option V → Client V × Answer V
  cached_or_send o key c (some v) = (c, cached v)
  cached_or_send o key c none = join_or_start o key c (found_inflight key c.inflight)

  pub request : Options → Client V → Client V × Answer V
  unfolding start request_key
  request o c =
      if o.signal_aborted
      then (c, refused)
      else cached_or_send o (request_key c.epoch o) c
          (found_cached (present o.cache_key) c.immutable)
