-- ===== src/Api/Requests/Tests.antt =====
-- The cache and the replies on concrete inputs.
use chocobofix.Prelude.{
  ℕ, ◌≡◌, ◌≢◌, refl, String, string_eq, true, false, none, some, List, [], ◌∷◌, arith, eq_iff,
}
use chocobofix.Prelude.JsMap
use chocobofix.Api.Requests.{
  Client, Options, Pending, Stage, failure, response, fetching, returned, api_error, request,
  cached, started, update, stop_all, drop_pending,
}
use chocobofix.Api.Requests.Replies.{Event, settled, call, reply, resume, token, step, run, initial}
use chocobofix.Api.Requests.Invariant.{IsIsolated}
use chocobofix.Api.Requests.Isolation.{AreHonest, EffectIn, run-IsIsolated, delivered-EffectIn}
use chocobofix.Api.Requests.Outcomes.{reply-401, resume-cached}

abbrev read : String → Options
read path = record {
  method = none;
  path = path;
  cache_key = some "instance:4";
  dedupe_key = none;
  signal = false;
  signal_aborted = false;
}

-- A value is the number of the session that it was fetched in.
abbrev OfSession : ℕ → ℕ → Type 0
OfSession n v = v ≡ n

abbrev two_sessions : List (Event ℕ)
two_sessions =
    token (some "ann")
    ∷ call (read "/a")
    ∷ token (some "bob")
    ∷ call (read "/a")
    ∷ reply 0 (response true 200 1 "" "")
    ∷ reply 1 (response true 200 2 "" "")
    ∷ resume 0
    ∷ resume 1
    ∷ []

requests : Unit {0}
unfolding step run update stop_all drop_pending JsMap.get JsMap.set JsMap.delete
requests = tt

two_sessions-AreHonest : AreHonest OfSession initial two_sessions
unfolding requests
two_sessions-AreHonest = (tt, (tt, (tt, (tt, (refl, (refl, (tt, (tt, tt))))))))

run-IsIsolated_example : IsIsolated OfSession (run initial two_sessions)
run-IsIsolated_example = run-IsIsolated OfSession two_sessions two_sessions-AreHonest

cached_for_bob : (run initial two_sessions).immutable ≡ ("instance:4", 2) ∷ []
unfolding requests
cached_for_bob = refl

delivered-EffectIn_example :
    EffectIn OfSession
      (step (run initial two_sessions) (call (read "/b"))).0.epoch
      (step (run initial two_sessions) (call (read "/b"))).1
delivered-EffectIn_example =
    delivered-EffectIn OfSession two_sessions (call (read "/b")) two_sessions-AreHonest tt

served_to_bob : (request (read "/b") (run initial two_sessions)).1 ≡ cached 2
unfolding requests
served_to_bob = refl

abbrev sent : Pending ℕ
sent = record {
  promise = 7;
  scope = 3;
  auth_token = some "ann";
  key = none;
  cache_key = some "file:2:RESULTS.csv";
  aborted = false;
  timed_out = false;
  stage = fetching;
}

abbrev signed_in : Stage ℕ → Client ℕ
signed_in s = record {
  token = some "ann";
  epoch = 3;
  immutable = ("instance:4", 9) ∷ [];
  inflight = (record { scope = 3; name = "/b" }, 8) ∷ [];
  pending = record sent { stage = s } ∷ [];
  next = 9;
}

ann_ne_empty : ◌≢◌ {A = String} "ann" ""
ann_ne_empty = ground (arith, eq_iff "ann" "")

ended_ne_empty : ◌≢◌ {A = String} "Session ended." ""
ended_ne_empty = ground (arith, eq_iff "Session ended." "")

reply-401_example :
    let (c', effect) =
      step (signed_in fetching) (reply 7 (response false 401 0 "Session ended." "Unauthorized")) in
    (c'.token ≡ none)
    × (c'.immutable ≡ [])
    × (c'.inflight ≡ [])
    × (c'.epoch ≡ 4)
    × (effect ≡ settled 7 (failure (api_error "Session ended." 401)))
reply-401_example =
    reply-401 (signed_in fetching) 7 sent "ann" "Session ended." "Unauthorized" 0 refl refl refl
      refl refl refl refl ann_ne_empty ended_ne_empty

first_is_sent : (request (read "/b") (initial {V = ℕ})).1 ≡ started 0
unfolding requests
first_is_sent = refl

resume-cached_example :
    let c = (step (signed_in (returned 5)) (resume 7)).0 in
    request (record (read "/c") { cache_key = some "file:2:RESULTS.csv" }) c ≡ (c, cached 5)
resume-cached_example =
    resume-cached (signed_in (returned 5)) 7 (record sent { stage = returned 5 })
      "file:2:RESULTS.csv" 5 (record (read "/c") { cache_key = some "file:2:RESULTS.csv" }) refl
      refl refl refl refl refl
