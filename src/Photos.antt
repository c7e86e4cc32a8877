-- ===== src/Photos.antt =====
-- Profile photos: client/src/lib/photos.js, with its `cache`, `inflight` and `generation`, and the
-- token of client/src/lib/api.js that it compares. A promise is the number of the load that made
-- it; an object URL is the number of URLs created before it, and `B` is the type of the blobs.
pub mod Loads
pub mod Clean
pub mod Forgotten
mod Tests
use chocobofix.Prelude.{
  ℕ, zero, suc, ◌+◌, String, string_eq, Bool, true, false, not, ◌&&◌, ◌||◌, Option, none, some,
  List, [], ◌∷◌, ◌++◌, eqb, if◌then◌else◌, ◌===◌, number_eq,
}
use chocobofix.Api.Requests.{present}
use chocobofix.Prelude.JsMap
use chocobofix.Prelude.JsMap.{get, delete, keys}

-- `{ url }` or `{ none: true }`.
pub data Photo (B : Type 0) : Type 0 where
  shown : (url : ℕ) → (blob : B) → Photo B
  no_photo : Photo B

-- A load under way, before its response or, `is_ok`, before its blob.
pub record Load : Type 0 where
  pub promise : ℕ
  pub id : ℕ
  pub auth_token : String
  pub scope : ℕ
  pub is_ok : Bool

pub record Photos (B : Type 0) : Type 0 where
  pub token : Option String
  pub cache : List (ℕ × Photo B)
  pub inflight : List (ℕ × ℕ)
  pub generation : ℕ
  pub loads : List Load
  pub next : ℕ
  -- The object URLs: how many were created, and which were revoked.
  pub created : ℕ
  pub revoked : List ℕ

-- What `loadPhoto` returns: a promise that is resolved, one that is under way, or a new one.
pub data Answer (B : Type 0) : Type 0 where
  resolved : Option ℕ → Answer B
  joined : ℕ → Answer B
  started : ℕ → Answer B

-- `id` is not a user's number where it is missing or 0.
abbrev pub user_id : Option ℕ → Option ℕ
user_id none = none
user_id (some zero) = none
user_id (some (suc n)) = some (suc n)

pub take_load : ℕ → List Load → Option Load
take_load promise [] = none
take_load promise (l ∷ ls) = if eqb l.promise promise then some l else take_load promise ls

pub drop_load : ℕ → List Load → List Load
drop_load promise [] = []
drop_load promise (l ∷ ls) = if eqb l.promise promise then ls else l ∷ drop_load promise ls

pub expect_blob : ℕ → List Load → List Load
expect_blob promise [] = []
expect_blob promise (l ∷ ls) =
    if eqb l.promise promise then record l { is_ok = true } ∷ ls else l ∷ expect_blob promise ls

abbrev pub is_token : Option String → String → Bool
is_token none t = false
is_token (some s) t = t === s

abbrev pub delete_if : Option ℕ → ℕ → ℕ → List (ℕ × ℕ) → List (ℕ × ℕ)
delete_if none promise id m = m
delete_if (some p) promise id m = if eqb p promise then delete id m else m

module _ {B : Type 0} where
  abbrev pub url_of : Photo B → Option ℕ
  url_of (shown url blob) = some url
  url_of no_photo = none

  pub cached_photo : ℕ → Photos B → Option ℕ
  cached_photo id s = elim (get id s.cache) [ some hit ↦ url_of hit | none ↦ none ]

  -- Without a token, or with the empty one, nothing is asked for.
  abbrev pub start : ℕ → Option String → Photos B → Photos B × Answer B
  start id none s = (s, resolved none)
  start id (some t) s = (
    record s {
      inflight = JsMap.set id s.next s.inflight;
      loads =
          s.loads
          ++ record {
            promise = s.next;
            id = id;
            auth_token = t;
            scope = s.generation;
            is_ok = false;
          }
            ∷ [];
      next = s.next + 1;
    },
    started s.next,
  )

  abbrev pub join_or_start : ℕ → Option ℕ → Photos B → Photos B × Answer B
  join_or_start id (some p) s = (s, joined p)
  join_or_start id none s = start id (present s.token) s

  abbrev pub cached_or_load : ℕ → Option (Photo B) → Photos B → Photos B × Answer B
  cached_or_load id (some hit) s = (s, resolved (url_of hit))
  cached_or_load id none s = join_or_start id (get id s.inflight) s

  abbrev pub load_user : Option ℕ → Photos B → Photos B × Answer B
  load_user none s = (s, resolved none)
  load_user (some id) s = cached_or_load id (get id s.cache) s

  pub load_photo : Option ℕ → Photos B → Photos B × Answer B
  load_photo id s = load_user (user_id id) s

  -- `scope !== generation || token !== getToken()`, negated.
  abbrev pub is_current : Load → Photos B → Bool
  is_current l s = eqb l.scope s.generation && is_token s.token l.auth_token

  -- The `finally` of the load.
  pub finish : Load → Photos B → Photos B
  unfolding drop_load
  finish l s = record s {
    inflight = delete_if (get l.id s.inflight) l.promise l.id s.inflight;
    loads = drop_load l.promise s.loads;
  }

  -- The response: the load ends where it is stale or not `ok`, and else reads the blob.
  pub respond : Bool → Load → Photos B → Photos B
  unfolding finish expect_blob
  respond ok l s =
      if is_current l s
      then (if ok
          then record s { loads = expect_blob l.promise s.loads }
          else finish l (record s { cache = JsMap.set l.id no_photo s.cache }))
      else finish l s

  -- The blob: `createObjectURL` gives the next URL.
  pub keep_blob : B → Load → Photos B → Photos B
  unfolding finish
  keep_blob blob l s =
      if is_current l s
      then finish l (record s {
        cache = JsMap.set l.id (shown s.created blob) s.cache;
        created = s.created + 1;
      })
      else finish l s

  abbrev pub revoke_if : Option (Photo B) → List ℕ → List ℕ
  revoke_if (some (shown url blob)) revoked = revoked ++ url ∷ []
  revoke_if (some no_photo) revoked = revoked
  revoke_if none revoked = revoked

  abbrev pub drop_photo : ℕ → Photos B → Photos B
  drop_photo k s = record s {
    revoked = revoke_if (get k s.cache) s.revoked;
    cache = delete k s.cache;
  }

  pub drop_all : List ℕ → Photos B → Photos B
  drop_all [] s = s
  drop_all (k ∷ ks) s = drop_all ks (drop_photo k s)

  abbrev pub forget_in : Option ℕ → Photos B → Photos B
  forget_in (some id) s = drop_photo id s
  forget_in none s = drop_all (keys s.cache) s

  pub forget_photos : Option ℕ → Photos B → Photos B
  unfolding drop_all
  forget_photos id s =
      forget_in (user_id id) (record s { generation = s.generation + 1; inflight = [] })

-- What happens to the module, in any order: calls of its two functions, a change of the token, and
-- the three ways in which a load goes on.
pub data Event (B : Type 0) : Type 0 where
  load : (id : Option ℕ) → Event B
  forget : (id : Option ℕ) → Event B
  set_token : Option String → Event B
  responded : (promise : ℕ) → (ok : Bool) → Event B
  blob_read : (promise : ℕ) → (blob : B) → Event B
  rejected : (promise : ℕ) → Event B

module _ {B : Type 0} where
  abbrev pub before_blob : Bool → Option Load → Photos B → Photos B
  before_blob ok none s = s
  before_blob ok (some l) s = if l.is_ok then s else respond ok l s

  abbrev pub after_ok : B → Option Load → Photos B → Photos B
  after_ok blob none s = s
  after_ok blob (some l) s = if l.is_ok then keep_blob blob l s else s

  abbrev pub finish_if : Option Load → Photos B → Photos B
  finish_if none s = s
  finish_if (some l) s = finish l s

  pub step : Photos B → Event B → Photos B
  unfolding load_photo forget_photos respond keep_blob finish take_load
  step s (load id) = (load_photo id s).0
  step s (forget id) = forget_photos id s
  step s (set_token t) = record s { token = t }
  step s (responded promise ok) = before_blob ok (take_load promise s.loads) s
  step s (blob_read promise blob) = after_ok blob (take_load promise s.loads) s
  step s (rejected promise) = finish_if (take_load promise s.loads) s

  pub steps : Photos B → List (Event B) → Photos B
  unfolding step
  steps s [] = s
  steps s (e ∷ es) = steps (step s e) es
