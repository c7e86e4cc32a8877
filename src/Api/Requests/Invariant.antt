-- ===== src/Api/Requests/Invariant.antt =====
-- What every event of the request layer keeps, one operation at a time.
use text.Mathlib.Text.{starts_with}
use chocobofix.Prelude.{
  ℕ, suc, ◌≤◌, ◌≡◌, refl, String, true, not, Option, none, some, List, [], ◌∷◌, eqb, leb, find,
  length, All, All-append, All-keep, length-keep-le, arith, Bool-cases, Option-cases, inl, inr,
  string_eq, subst, ap, sym,
}
use chocobofix.Prelude.JsMap
use chocobofix.Prelude.JsMap.{
  All-set, All-delete, length-set-le, length-delete-le, get, delete_head, All-set_key,
  All-delete_key,
}
use chocobofix.Api.Requests.{
  Key, Key-eq, Stage, fetching, returned, Pending, Client, Options, max_cache, present, update,
  stop_all, drop_pending, set_token, clear_cache, request, request_key, start, cached_or_send,
  join_or_start, found_cached, found_inflight, note_inflight,
}
use chocobofix.Api.Requests.Replies.{conclude, store, forget_inflight, same_promise}

module _ {V : Type 0} (Q : Pending V → Type 0) where
  pub update-All :
      (f : Pending V → Pending V) (n : ℕ) (ps : List (Pending V))
      → ((p : Pending V) → Q p → Q (f p))
      → All Q ps
      → All Q (update f n ps)
  unfolding update
  update-All f n [] k h = tt
  update-All f n (p ∷ ps) k h = ground (arith, update-All f n ps k h.1, k p h.0)

  -- The request that `find` shows is the one that `update` changes.
  pub update-All_found :
      (f : Pending V → Pending V) (n : ℕ) (ps : List (Pending V)) {p : Pending V}
      → find (λ q. eqb q.promise n) ps ≡ some p
      → Q (f p)
      → All Q ps
      → All Q (update f n ps)
  unfolding update
  update-All_found f n [] {p} e k h = tt
  update-All_found f n (q ∷ ps) {p} e k h = elim (Bool-cases (eqb q.promise n)) [
    | inl here ↦ rw here (subst Q (ap f (sym (first here))) k, h.1)
    | inr later ↦ rw later (h.0, update-All_found f n ps {p = p} (rw later at e) k h.1)
  ]
    where
      first : eqb q.promise n ≡ true → q ≡ p
      first here = ground arith

  pub drop_pending-All : (n : ℕ) (ps : List (Pending V)) → All Q ps → All Q (drop_pending n ps)
  unfolding drop_pending
  drop_pending-All n [] h = tt
  drop_pending-All n (p ∷ ps) h = ground (arith, drop_pending-All n ps h.1)

module _ {V : Type 0} (P : ℕ → V → Type 0) where
  abbrev pub StageIn : ℕ → Stage V → Type 0
  StageIn n fetching = Unit
  StageIn n (returned v) = P n v

  abbrev pub IsCarried : Pending V → Type 0
  IsCarried p = StageIn p.scope p.stage

  -- The cached values are the present session's, at most 64; the shared reads are the session's;
  -- a value that `raw` has returned is its own session's.
  pub record IsIsolated (c : Client V) : Type 0 where
    pub own : All (λ b. P c.epoch b.1) c.immutable
    pub small : length c.immutable ≤ max_cache
    pub current : All (λ b. b.0.scope ≡ c.epoch) c.inflight
    pub carried : All IsCarried c.pending

  stop_all-IsCarried : (ps : List (Pending V)) → All IsCarried ps → All IsCarried (stop_all ps)
  unfolding stop_all
  stop_all-IsCarried [] h = tt
  stop_all-IsCarried (p ∷ ps) h = (h.0, stop_all-IsCarried ps h.1)

  pub set_token-IsIsolated :
      (t : Option String) (c : Client V) → IsIsolated c → IsIsolated (set_token t c)
  unfolding set_token
  set_token-IsIsolated t c v = ground (arith, stop_all-IsCarried c.pending v.carried)

  pub clear_cache-IsIsolated :
      (prefix : String) (c : Client V) → IsIsolated c → IsIsolated (clear_cache prefix c)
  unfolding clear_cache
  clear_cache-IsIsolated prefix c v = record {
    own = All-keep _ _ c.immutable v.own;
    small = omega (arith, length-keep-le (λ b. not (starts_with b.0 prefix)) c.immutable);
    current = v.current;
    carried = v.carried;
  }

  pub store-own :
      (k : Option String) (v : V) (n : ℕ) (m : List (String × V))
      → P n v
      → All (λ b. P n b.1) m
      → All (λ b. P n b.1) (store k v m)
  unfolding store JsMap.set
  store-own none v n m p h = h
  store-own (some k) v n [] p h = (p, tt)
  store-own (some k) v n ((j, w) ∷ m) p h = elim (Bool-cases (leb max_cache (suc (length m)))) [
    | inl full ↦
        rw full
          (All-set (P n) k v (JsMap.delete j ((j, w) ∷ m)) p (All-delete (P n) j ((j, w) ∷ m) h))
    | inr room ↦ rw room (All-set (P n) k v ((j, w) ∷ m) p h)
  ]

  pub store-small :
      (k : Option String) (v : V) (m : List (String × V))
      → length m ≤ max_cache
      → length (store k v m) ≤ max_cache
  unfolding store JsMap.set
  store-small none v m h = h
  store-small (some k) v [] h = omega arith
  store-small (some k) v ((j, w) ∷ m) h = elim (Bool-cases (leb max_cache (suc (length m)))) [
    | inl full ↦ rw (full, delete_head j w m) (omega (arith, length-set-le k v m))
    | inr room ↦ rw room (ground (arith, length-set-le k v ((j, w) ∷ m)))
  ]

  note_inflight-current :
      (k : Option Key) (n promise : ℕ) (m : List (Key × ℕ))
      → ((j : Key) → k ≡ some j → j.scope ≡ n)
      → All (λ b. b.0.scope ≡ n) m
      → All (λ b. b.0.scope ≡ n) (note_inflight k promise m)
  note_inflight-current none n promise m s h = h
  note_inflight-current (some k) n promise m s h =
      All-set_key (λ (j : Key). j.scope ≡ n) k promise m (s k refl) h

  request_key-scope : (n : ℕ) (o : Options) (j : Key) → request_key n o ≡ some j → j.scope ≡ n
  unfolding request_key
  request_key-scope n o j e = ground arith

  start-IsIsolated :
      (o : Options) (key : Option Key) (c : Client V)
      → ((j : Key) → key ≡ some j → j.scope ≡ c.epoch)
      → IsIsolated c
      → IsIsolated (start o key c).0
  unfolding start
  start-IsIsolated o key c s v = record {
    own = v.own;
    small = v.small;
    current = note_inflight-current key c.epoch c.next c.inflight s v.current;
    carried = All-append IsCarried c.pending _ v.carried (tt, tt);
  }

  pub request-IsIsolated : (o : Options) (c : Client V) → IsIsolated c → IsIsolated (request o c).0
  unfolding request
  request-IsIsolated o c v = elim (Bool-cases o.signal_aborted) [
    | inl gone ↦ rw (gone, request) v
    | inr there ↦ elim (Option-cases (found_cached (present o.cache_key) c.immutable)) [
      | inr (w, hit) ↦ rw (there, request) (rw (hit, cached_or_send) v)
      | inl miss ↦ elim (Option-cases (found_inflight (request_key c.epoch o) c.inflight)) [
        | inr (n, same) ↦
            rw (there, request) (rw (miss, cached_or_send) (rw (same, join_or_start) v))
        | inl new ↦
            rw (there, request)
              (rw (miss, cached_or_send)
                (rw (new, join_or_start)
                  (start-IsIsolated o (request_key c.epoch o) c (request_key-scope c.epoch o) v)))
      ]
    ]
  ]

  forget_inflight-current :
      (k : Option Key) (n promise : ℕ) (m : List (Key × ℕ))
      → All (λ b. b.0.scope ≡ n) m
      → All (λ b. b.0.scope ≡ n) (forget_inflight k promise m)
  forget_inflight-current none n promise m h = h
  forget_inflight-current (some k) n promise m h =
      elim (Bool-cases (same_promise promise (get k m))) [
        | inl mine ↦ rw mine (All-delete_key (λ (j : Key). j.scope ≡ n) k m h)
        | inr later ↦ rw later h
      ]

  pub conclude-IsIsolated :
      (p : Pending V) (c : Client V) → IsIsolated c → IsIsolated (conclude p c)
  unfolding conclude
  conclude-IsIsolated p c v = record {
    own = v.own;
    small = v.small;
    current = forget_inflight-current p.key c.epoch p.promise c.inflight v.current;
    carried = drop_pending-All IsCarried p.promise c.pending v.carried;
  }
