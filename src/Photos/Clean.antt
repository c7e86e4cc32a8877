-- ===== src/Photos/Clean.antt =====
-- What the module keeps, whatever happens to it in whatever order.
use chocobofix.Prelude.{
  ℕ, ◌+◌, ◌≤◌, ◌≡◌, refl, subst, ◌⊎◌, inl, inr, String, string_eq, Bool, true, false, Option, none,
  some, List, [], ◌∷◌, arith, All, All-map, All-append, Bool-cases, Option-cases, if◌then◌else◌,
  number_eq,
}
use chocobofix.Api.Requests.{present}
use chocobofix.Prelude.JsMap.{get, set, keys, All-set_entry, All-delete_entry}
use chocobofix.Photos.{
  Photo, shown, no_photo, Load, Photos, Event, load, forget, set_token, responded, blob_read,
  rejected, take_load, expect_blob, user_id, is_current, finish, respond, keep_blob, drop_photo,
  drop_all, forget_in, forget_photos, load_photo, load_user, cached_or_load, join_or_start, start,
  before_blob, after_ok, finish_if, step, steps,
}
use chocobofix.Photos.Loads.{All-drop_load, All-expect_blob, take_load-All}

module _ {B : Type 0} where
  abbrev pub blob_of : Photo B → Option B
  blob_of (shown url blob) = some blob
  blob_of no_photo = none

-- `P id answer` says that `answer`, a blob or none, is one that the service may give for a user.
module _ {B : Type 0} (P : ℕ → Option B → Type 0) (n : ℕ) where
  -- The service's answers to the loads from promise `n` on are such.
  abbrev pub IsHonest : Photos B → Event B → Type 0
  IsHonest s (responded p false) = (l : Load) → take_load p s.loads ≡ some l → n ≤ p → P l.id none
  IsHonest s (blob_read p blob) =
      (l : Load) → take_load p s.loads ≡ some l → n ≤ p → P l.id (some blob)
  IsHonest s _ = Unit

  abbrev pub AreHonest : Photos B → List (Event B) → Type 0
  AreHonest s [] = Unit
  AreHonest s (e ∷ es) = IsHonest s e × AreHonest (step s e) es

-- What is known of a load in a generation: it stays true in later ones and when the response has
-- come, it holds of a new load, and with it a load of the present generation is new.
pub record Known (n : ℕ) (Q : ℕ → Load → Type 0) : Type 0 where
  pub later : (g : ℕ) (l : Load) → Q g l → Q (g + 1) l
  pub marked : (g : ℕ) (l : Load) → Q g l → Q g (record l { is_ok = true })
  pub fresh : (g : ℕ) (l : Load) → l.scope ≡ g → n ≤ l.promise → Q g l
  pub now : (g : ℕ) (l : Load) → Q g l → l.scope ≡ g → n ≤ l.promise

module _ {B : Type 0} (P : ℕ → Option B → Type 0) (n : ℕ) (Q : ℕ → Load → Type 0)
    (known : Known n Q) where
  -- Nothing but such answers is in the cache, or can come into it from the loads under way.
  pub record IsClean (s : Photos B) : Type 0 where
    pub loads : All (Q s.generation) s.loads
    pub cache : All (λ b. P b.0 (blob_of b.1)) s.cache
    pub next : n ≤ s.next

  drop_all-IsClean : (ks : List ℕ) (s : Photos B) → IsClean s → IsClean (drop_all ks s)
  unfolding drop_all
  drop_all-IsClean [] s v = v
  drop_all-IsClean (k ∷ ks) s v = drop_all-IsClean ks (drop_photo k s) (record {
    loads = v.loads;
    cache = All-delete_entry (λ b. P b.0 (blob_of b.1)) k s.cache v.cache;
    next = v.next;
  })

  forget_in-IsClean : (id : Option ℕ) (s : Photos B) → IsClean s → IsClean (forget_in id s)
  unfolding drop_all
  forget_in-IsClean none s v = drop_all-IsClean (keys s.cache) s v
  forget_in-IsClean (some k) s v = drop_all-IsClean (k ∷ []) s v

  forget-IsClean : (id : Option ℕ) (s : Photos B) → IsClean s → IsClean (forget_photos id s)
  unfolding forget_photos
  forget-IsClean id s v =
      forget_in-IsClean (user_id id) (record s { generation = s.generation + 1; inflight = [] })
        (record {
          loads = All-map _ (Q (s.generation + 1)) (known.later s.generation) s.loads v.loads;
          cache = v.cache;
          next = v.next;
        })

  start-IsClean : (id : ℕ) (t : Option String) (s : Photos B) → IsClean s → IsClean (start id t s).0
  start-IsClean id none s v = v
  start-IsClean id (some t) s v = record {
    loads = All-append _ s.loads _ v.loads (known.fresh s.generation _ refl v.next, tt);
    cache = v.cache;
    next = omega (arith, v.next);
  }

  load-IsClean : (id : Option ℕ) (s : Photos B) → IsClean s → IsClean (load_photo id s).0
  unfolding load_photo
  load-IsClean id s v = of_user (user_id id)
    where
      unless_shared : (k : ℕ) (p : Option ℕ) → IsClean (join_or_start k p s).0
      unless_shared k none = start-IsClean k (present s.token) s v
      unless_shared k (some p) = v

      unless_cached : (k : ℕ) (hit : Option (Photo B)) → IsClean (cached_or_load k hit s).0
      unless_cached k none = unless_shared k (get k s.inflight)
      unless_cached k (some hit) = v

      of_user : (k : Option ℕ) → IsClean (load_user k s).0
      of_user none = v
      of_user (some k) = unless_cached k (get k s.cache)

  finish-IsClean : (l : Load) (s : Photos B) → IsClean s → IsClean (finish l s)
  unfolding finish
  finish-IsClean l s v = record {
    loads = All-drop_load _ l.promise s.loads v.loads;
    cache = v.cache;
    next = v.next;
  }

  is_current-new :
      (l : Load) (s : Photos B) → is_current l s ≡ true → Q s.generation l → n ≤ l.promise
  is_current-new l s h q = known.now s.generation l q (ground arith)

  respond-IsClean :
      (ok : Bool) (l : Load) (s : Photos B)
      → IsClean s
      → Q s.generation l
      → (ok ≡ false → n ≤ l.promise → P l.id none)
      → IsClean (respond ok l s)
  unfolding respond
  respond-IsClean ok l s v q honest = elim (Bool-cases (is_current l s)) [
    | inl current ↦ rw current (by_status ok honest (is_current-new l s current q))
    | inr stale ↦ rw stale (finish-IsClean l s v)
  ]
    where
      by_status :
          (ok : Bool)
          → (ok ≡ false → n ≤ l.promise → P l.id none)
          → n ≤ l.promise
          → IsClean (
              if ok
              then record s { loads = expect_blob l.promise s.loads }
              else finish l (record s { cache = set l.id no_photo s.cache }))
      by_status true honest new = record {
        loads = All-expect_blob _ (known.marked s.generation) l.promise s.loads v.loads;
        cache = v.cache;
        next = v.next;
      }
      by_status false honest new = finish-IsClean l _ (record {
        loads = v.loads;
        cache = All-set_entry _ l.id no_photo s.cache (honest refl new) v.cache;
        next = v.next;
      })

  keep_blob-IsClean :
      (blob : B) (l : Load) (s : Photos B)
      → IsClean s
      → Q s.generation l
      → (n ≤ l.promise → P l.id (some blob))
      → IsClean (keep_blob blob l s)
  unfolding keep_blob
  keep_blob-IsClean blob l s v q honest = elim (Bool-cases (is_current l s)) [
    | inl current ↦ rw current (kept (is_current-new l s current q))
    | inr stale ↦ rw stale (finish-IsClean l s v)
  ]
    where
      kept :
          n ≤ l.promise
          → IsClean (
              finish l (record s {
                cache = set l.id (shown s.created blob) s.cache;
                created = s.created + 1;
              }))
      kept new = finish-IsClean l _ (record {
        loads = v.loads;
        cache = All-set_entry _ l.id (shown s.created blob) s.cache (honest new) v.cache;
        next = v.next;
      })

  step-IsClean : (s : Photos B) (e : Event B) → IsClean s → IsHonest P n s e → IsClean (step s e)
  unfolding step
  step-IsClean s (load id) v h = load-IsClean id s v
  step-IsClean s (forget id) v h = forget-IsClean id s v
  step-IsClean s (set_token t) v h = record { loads = v.loads; cache = v.cache; next = v.next }
  step-IsClean s (responded p ok) v h = found (Option-cases (take_load p s.loads))
    where
      honest : (l : Load) → take_load p s.loads ≡ some l → ok ≡ false → n ≤ p → P l.id none
      honest l e refused new = subst (λ b. IsHonest P n s (responded p b)) refused h l e new

      found :
          (take_load p s.loads ≡ none) ⊎ ((l : Load) × (take_load p s.loads ≡ some l))
          → IsClean (before_blob ok (take_load p s.loads) s)
      found (inl e) = rw e v
      found (inr (l, e)) = rw e (elim (Bool-cases l.is_ok) [
        | inl waits ↦ rw waits v
        | inr answered ↦ rw answered (
            let (q, same) = take_load-All (Q s.generation) p s.loads v.loads e in
            respond-IsClean ok l s v q (λ refused new. honest l e refused (omega arith)))
      ])
  step-IsClean s (blob_read p blob) v h = found (Option-cases (take_load p s.loads))
    where
      found :
          (take_load p s.loads ≡ none) ⊎ ((l : Load) × (take_load p s.loads ≡ some l))
          → IsClean (after_ok blob (take_load p s.loads) s)
      found (inl e) = rw e v
      found (inr (l, e)) = rw e (elim (Bool-cases l.is_ok) [
        | inl waits ↦ rw waits (
            let (q, same) = take_load-All (Q s.generation) p s.loads v.loads e in
            keep_blob-IsClean blob l s v q (λ new. h l e (omega arith)))
        | inr answered ↦ rw answered v
      ])
  step-IsClean s (rejected p) v h = found (take_load p s.loads)
    where
      found : (l : Option Load) → IsClean (finish_if l s)
      found none = v
      found (some l) = finish-IsClean l s v

  pub steps-IsClean :
      (s : Photos B) (es : List (Event B)) → IsClean s → AreHonest P n s es → IsClean (steps s es)
  unfolding steps
  steps-IsClean s [] v h = v
  steps-IsClean s (e ∷ es) v h = steps-IsClean (step s e) es (step-IsClean s e v h.0) h.1
