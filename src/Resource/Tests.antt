-- ===== src/Resource/Tests.antt =====
-- Two runs, answered in the opposite order.
use chocobofix.Prelude.{ℕ, ◌+◌, ◌≡◌, refl, arith, true, false, some, List, [], ◌∷◌, In}
use chocobofix.Resource.{
  loaded, Event, change, reload, reply, initially, fetch, settle, step, steps,
}
use chocobofix.Resource.Latest.{steps-IsLatestReply}
use chocobofix.Resource.Outlives.{AreOthers, reload-outlives}

abbrev two_projects : List (Event ℕ ℕ)
two_projects = change true ∷ change true ∷ reply 2 (loaded 20) ∷ reply 1 (loaded 10) ∷ []

shows_second : (steps (initially true) two_projects).content ≡ some 20
unfolding steps step fetch settle
shows_second = refl

nothing_loads : (steps (initially true) two_projects).loading ≡ false
unfolding steps step fetch settle
nothing_loads = refl

steps-IsLatestReply_example :
    In (reply (steps (initially true) two_projects).seq (loaded 20)) two_projects
steps-IsLatestReply_example = steps-IsLatestReply true two_projects 20 shows_second nothing_loads

abbrev then_disabled : List (Event ℕ ℕ)
then_disabled = change true ∷ change false ∷ reply 1 (loaded 10) ∷ []

is_off : (steps (initially true) then_disabled).enabled ≡ false
unfolding steps step fetch settle
is_off = refl

-- The first run is answered late, before and after the resource is disabled.
abbrev first_reply : List (Event ℕ ℕ)
first_reply = reply 1 (loaded 10) ∷ []

once_changed : (steps (initially {D = ℕ} {E = ℕ} true) (change true ∷ [])).seq ≡ 1
unfolding steps step fetch
once_changed = refl

is_on : (steps (initially {D = ℕ} {E = ℕ} true) (change true ∷ [])).enabled ≡ true
unfolding steps step fetch
is_on = refl

first_reply-AreOthers :
    AreOthers ((steps (initially {D = ℕ} {E = ℕ} true) (change true ∷ [])).seq + 1) first_reply
first_reply-AreOthers = rw once_changed ((λ e. omega (arith, e)), tt)

reload-outlives_example :
    let s = steps (initially {D = ℕ} {E = ℕ} true) (change true ∷ []) in
    let off = step (steps (step s reload) first_reply) (change false) in
    let last = step (steps off first_reply) (reply (s.seq + 1) (loaded 7)) in
    (last.enabled ≡ false) × (last.content ≡ some 7)
reload-outlives_example =
    reload-outlives true (change true ∷ []) first_reply first_reply 7 is_on first_reply-AreOthers
      first_reply-AreOthers
