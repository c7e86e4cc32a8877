-- ===== src/Session/Tests.antt =====
-- A session that is restored, and one that expires while the service names its user.
use chocobofix.Prelude.{
  ◌≡◌, refl, subst, String, string_eq, false, Option, none, some, List, [], ◌∷◌,
}
use chocobofix.Api.Requests.{present, clear_cache}
use chocobofix.Api.Requests
use chocobofix.Session.{
  Session, Flow, set_token, drop_flow, Event, expired, sign_in, replied, healthy, user_is,
  token_for, take_flow, mount, step, steps,
}
use chocobofix.Session.Owner.{Owns, AreHonest, opened, steps-Owns}

abbrev Names : String → String → Type 0
Names t u = t ≡ u

abbrev at_start : Session String String String
at_start = mount (opened (some "ann"))

abbrev restored_then_expired : List (Event String)
restored_then_expired =
    replied 0 (healthy false)
    ∷ expired
    ∷ replied 1 (user_is "ann")
    ∷ sign_in false
    ∷ replied 2 (token_for "ben" "ben")
    ∷ []

-- The owner of the token of a call that is found.
abbrev AsksFor : String → Option Flow → Type 0
AsksFor u none = Unit
AsksFor u (some f) = f.auth_token ≡ some u

same_name :
    (u : String) (t : Option String)
    → t ≡ some u
    → elim t as (λ x. Type 0) [ none ↦ ⊥ | some t ↦ Names t u ]
same_name u t e = rw e refl

all-AreHonest : AreHonest Names at_start restored_then_expired
unfolding mount step set_token Requests.set_token clear_cache take_flow drop_flow
all-AreHonest = (
  λ f e. tt,
  (
    tt,
    (λ f e. same_name "ann" f.auth_token (subst (AsksFor "ann") e refl), (tt, (λ f e. refl, tt))),
  ),
)

steps-Owns_example :
    let s = steps at_start restored_then_expired in
    (present s.saved ≡ present s.client.token)
    × (s.photos.token ≡ s.client.token)
    × Owns Names s.user s.client.token
steps-Owns_example = steps-Owns String String Names (some "ann") restored_then_expired all-AreHonest
