-- ===== src/Api/Requests/Epochs.antt =====
-- What `setToken` and `clearCache` leave of a session.
use chocobofix.Prelude.{
  ◌+◌, ◌≡◌, refl, sym, ap, String, string_eq, eq_iff, true, Option, none, some, ◌⊎◌, inl, inr,
  Bool-cases,
}
use chocobofix.Api.Requests.{Client, same_token, set_token, clear_cache}

same_token-eq : (s t : Option String) → same_token s t ≡ true → s ≡ t
same_token-eq none none h = refl
same_token-eq none (some b) h = cc
same_token-eq (some a) none h = cc
same_token-eq (some a) (some b) h = ap some ((eq_iff a b).0 h)

module _ {V : Type 0} where
  -- Either the token is the one that the client has, and nothing changes, or a session begins.
  pub set_token-cases :
      (t : Option String) (c : Client V)
      → ((set_token t c ≡ c) × (c.token ≡ t))
        ⊎ (((set_token t c).epoch ≡ c.epoch + 1) × ((set_token t c).token ≡ t))
  unfolding set_token
  set_token-cases t c = elim (Bool-cases (same_token t c.token)) [
    | inl same ↦ inl (rw same refl, sym (same_token-eq t c.token same))
    | inr other ↦ inr (rw other refl, rw other refl)
  ]

  pub clear_cache-keeps :
      (prefix : String) (c : Client V)
      → ((clear_cache prefix c).epoch ≡ c.epoch) × ((clear_cache prefix c).token ≡ c.token)
  unfolding clear_cache
  clear_cache-keeps prefix c = (refl, refl)
