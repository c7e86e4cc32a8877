-- ===== src/Photos/Tests.antt =====
-- A photo that is under way when the session ends, and the one that the next session loads.
use chocobofix.Prelude.{ℕ, ◌≡◌, refl, String, true, Option, none, some, List, [], ◌∷◌, arith, All}
use chocobofix.Prelude.JsMap.{get, set}
use chocobofix.Photos.{
  shown, Photos, Event, load, set_token, responded, blob_read, forget_photos, step, steps,
}
use chocobofix.Photos.Clean.{AreHonest, blob_of}
use chocobofix.Photos.Forgotten.{nothing_kept, forget_photos-forgets}

abbrev before : List (Event String)
before = load (some 7) ∷ responded 0 true ∷ []

abbrev after : List (Event String)
after =
    set_token (some "second")
    ∷ load (some 7)
    ∷ blob_read 0 "old"
    ∷ responded 1 true
    ∷ blob_read 1 "new"
    ∷ []

abbrev IsNew : ℕ → Option String → Type 0
IsNew id answer = answer ≡ some "new"

one_asked : (steps (nothing_kept (some "first")) before).next ≡ 1
unfolding steps step get set
one_asked = refl

abbrev ended : Photos String
ended = forget_photos none (steps (nothing_kept (some "first")) before)

after-AreHonest : AreHonest IsNew (steps (nothing_kept (some "first")) before).next ended after
unfolding steps step forget_photos get set
after-AreHonest =
    (tt, (tt, (λ l e new. absurd (omega (arith, one_asked)), (tt, (λ l e new. refl, tt)))))

forget_photos-forgets_example : All (λ b. IsNew b.0 (blob_of b.1)) (steps ended after).cache
forget_photos-forgets_example =
    forget_photos-forgets IsNew (some "first") before after after-AreHonest

after_cache : (steps ended after).cache ≡ (7, shown 0 "new") ∷ []
unfolding steps step forget_photos get set
after_cache = refl
