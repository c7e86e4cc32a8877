-- ===== src/Photos/Forgotten.antt =====
-- `forgetPhotos()` ends a session's photos: nothing that was asked for before it is kept later.
use chocobofix.Prelude.{
  ℕ, ◌+◌, ◌≤◌, ◌<◌, ◌≡◌, refl, ap, ◌∙◌, ◌⊎◌, inl, inr, String, string_eq, true, false, Option, none,
  List, [], ◌∷◌, arith, All, All-map, number_eq,
}
use chocobofix.Prelude.JsMap.{delete, keys, delete_head}
use chocobofix.Photos.{
  Photo, Photos, Event, load, forget, set_token, responded, blob_read, rejected, drop_photo,
  drop_all, forget_photos, step, steps,
}
use chocobofix.Photos.Clean.{blob_of, Known, IsClean, AreHonest, steps-IsClean}

-- Before: no load is of a later generation.
earlier : Known 0 (λ g l. l.scope ≤ g)
earlier = record {
  later = λ g l q. omega arith;
  marked = λ g l q. q;
  fresh = λ g l q new. omega arith;
  now = λ g l q same. omega arith;
}

-- After: a load is of an earlier generation or from promise `n` on.
since : (n : ℕ) → Known n (λ g l. (l.scope < g) ⊎ (n ≤ l.promise))
since n = record {
  later = λ g l q. ground arith;
  marked = λ g l q. q;
  fresh = λ g l q new. inr new;
  now = λ g l q same. ground arith;
}

module _ {B : Type 0} where
  abbrev pub nothing_kept : Option String → Photos B
  nothing_kept t = record {
    token = t;
    cache = [];
    inflight = [];
    generation = 0;
    loads = [];
    next = 0;
    created = 0;
    revoked = [];
  }

  -- Any answers at all.
  abbrev AnyAnswer : ℕ → Option B → Type 0
  AnyAnswer id answer = Unit

  all_any : (s : Photos B) (es : List (Event B)) → AreHonest AnyAnswer 0 s es
  all_any s [] = tt
  all_any s (load id ∷ es) = (tt, all_any (step s (load id)) es)
  all_any s (forget id ∷ es) = (tt, all_any (step s (forget id)) es)
  all_any s (set_token t ∷ es) = (tt, all_any (step s (set_token t)) es)
  all_any s (responded p true ∷ es) = (tt, all_any (step s (responded p true)) es)
  all_any s (responded p false ∷ es) = (λ l e new. tt, all_any (step s (responded p false)) es)
  all_any s (blob_read p blob ∷ es) = (λ l e new. tt, all_any (step s (blob_read p blob)) es)
  all_any s (rejected p ∷ es) = (tt, all_any (step s (rejected p)) es)

  drop_all-keys :
      (m : List (ℕ × Photo B)) (s : Photos B)
      → s.cache ≡ m
      → let last = drop_all (keys m) s in
        (last.cache ≡ [])
        × (last.loads ≡ s.loads)
        × (last.next ≡ s.next)
        × (last.generation ≡ s.generation)
  unfolding drop_all
  drop_all-keys [] s e = (e, refl, refl, refl)
  drop_all-keys ((k, photo) ∷ m) s e =
      drop_all-keys m (drop_photo k s) (ap (delete k) e ∙ delete_head k photo m)

  forget_photos-IsClean :
      (P : ℕ → Option B → Type 0) (s : Photos B)
      → All (λ l. l.scope ≤ s.generation) s.loads
      → IsClean P s.next _ (since s.next) (forget_photos none s)
  unfolding forget_photos
  forget_photos-IsClean P s old =
      let (gone, same, next, generation) =
        drop_all-keys s.cache (record s { generation = s.generation + 1; inflight = [] }) refl in
      record {
        loads = rw (same, generation) (All-map _ _ (λ l h. inl (omega arith)) s.loads old);
        cache = rw gone tt;
        next = omega (arith, next);
      }

  drop_all-token : (ks : List ℕ) (s : Photos B) → (drop_all ks s).token ≡ s.token
  unfolding drop_all
  drop_all-token [] s = refl
  drop_all-token (k ∷ ks) s = drop_all-token ks (drop_photo k s)

  pub forget_photos-token : (s : Photos B) → (forget_photos none s).token ≡ s.token
  unfolding forget_photos
  forget_photos-token s = drop_all-token (keys s.cache) _

  -- After `forgetPhotos()`, with any history before and after, the cache has only what the service
  -- answered to loads that began after it: a load that was under way cannot put its photo, or that
  -- there is none, into the cache.
  pub forget_photos-forgets :
      (P : ℕ → Option B → Type 0) (t : Option String) (before after : List (Event B))
      → let s = steps (nothing_kept t) before in
        AreHonest P s.next (forget_photos none s) after
        → All (λ b. P b.0 (blob_of b.1)) (steps (forget_photos none s) after).cache
  forget_photos-forgets P t before after h =
      let s = steps (nothing_kept t) before in
      let v =
        steps-IsClean AnyAnswer 0 _ earlier (nothing_kept t) before
          (record { loads = tt; cache = tt; next = omega arith })
          (all_any (nothing_kept t) before) in
      (steps-IsClean P s.next _ (since s.next) (forget_photos none s) after
        (forget_photos-IsClean P s v.loads) h).cache
