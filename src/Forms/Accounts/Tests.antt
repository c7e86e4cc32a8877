-- ===== src/Forms/Accounts/Tests.antt =====
-- An account that is made.
use chocobofix.Prelude.{◌≡◌, refl, true, false, some, List, [], ◌∷◌, In}
use chocobofix.Prelude.Text.{trim, trim_start, is_space}
use chocobofix.Forms.Accounts.{
  Account, can_sign_in, was_changed, create_user, Event, type_username, type_password, submitted,
  clicked, accepted, users_are, mounted, create_account, set_disabled, taken, refused, listed,
  list_failed, step, steps, at_start,
}
use chocobofix.Forms.Accounts.Proper.{IsOrderly, steps-IsOrderly}

abbrev own_account : Account
own_account = record { id = 1; username = 65 ∷ []; role = "administrator"; disabled = false }

-- The name has a space on either side; the click on one's own account does nothing.
abbrev one_account : List Event
one_account =
    mounted (own_account ∷ [])
    ∷ type_username (32 ∷ 66 ∷ 32 ∷ [])
    ∷ submitted
    ∷ type_password (1 ∷ 2 ∷ 3 ∷ 4 ∷ 5 ∷ 6 ∷ 7 ∷ 8 ∷ 9 ∷ 10 ∷ 11 ∷ 12 ∷ [])
    ∷ submitted
    ∷ accepted
    ∷ users_are (own_account ∷ [])
    ∷ clicked own_account true
    ∷ []

one_account_told :
    let s = steps 1 at_start one_account in
    (s.success ≡ some (can_sign_in (66 ∷ []) "planner"))
    × (s.busy ≡ false)
    × (s.asked
        ≡ create_user (66 ∷ []) (1 ∷ 2 ∷ 3 ∷ 4 ∷ 5 ∷ 6 ∷ 7 ∷ 8 ∷ 9 ∷ 10 ∷ 11 ∷ 12 ∷ []) "planner"
          ∷ [])
unfolding steps step create_account set_disabled taken refused listed list_failed trim trim_start
    is_space
one_account_told = (refl, refl, refl)

-- Another account is disabled, and the sentence has its name.
abbrev other_account : Account
other_account = record { id = 2; username = 67 ∷ []; role = "viewer"; disabled = false }

abbrev with_other : List Event
with_other = clicked own_account true ∷ clicked other_account true ∷ accepted ∷ []

with_other_told : (steps 1 at_start with_other).success ≡ some (was_changed (67 ∷ []) true)
unfolding steps step create_account set_disabled taken refused listed list_failed
with_other_told = refl

steps-IsOrderly_example :
    IsOrderly
      (λ account disabled. In (clicked account disabled) with_other)
      1
      (steps 1 at_start with_other)
steps-IsOrderly_example = steps-IsOrderly 1 with_other
