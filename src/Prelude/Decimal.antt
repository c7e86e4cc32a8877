-- ===== src/Prelude/Decimal.antt =====
-- `String(n)` of a whole number: its decimal digits, the most significant first.
use Prim.Native.Nat.{ℕ, zero, suc, ◌+◌, ◌-◌, ◌*◌, ◌/◌, ◌%◌, ◌≤◌, ◌<◌}
use mathlib.Core.Path.{◌≡◌, refl, sym, ap, ◌∙◌}
use mathlib.Core.Bool.{true, false}
use mathlib.Core.Logic.{inl, inr}
use native.Mathlib.Omega.{arith}
use mathlib.Core.List.{List, [], ◌∷◌}
use chocobofix.Prelude.Bools.{ltb, if◌then◌else◌, Bool-cases}
use chocobofix.Prelude.Lists.{All}
use chocobofix.Prelude.Text.{is_empty}

-- `n + 1` rounds are enough: each divides by ten.
pub digits_from : ℕ → ℕ → List ℕ → List ℕ
digits_from zero n after = after
digits_from (suc fuel) n after =
    let digit = 48 + n % 10 in
    let more = digits_from fuel (n / 10) (digit ∷ after) in if ltb n 10 then digit ∷ after else more

unfoldable pub decimal : ℕ → List ℕ
unfolding digits_from
decimal n = digits_from (suc n) n []

-- The number that digits stand for, after the digits of `acc`.
abbrev pub value : ℕ → List ℕ → ℕ
value acc [] = acc
value acc (c ∷ s) = value (acc * 10 + (c - 48)) s

value-digits_from :
    (fuel n : ℕ) (after : List ℕ) → n < fuel → value 0 (digits_from fuel n after) ≡ value n after
unfolding digits_from
value-digits_from zero n after h = omega arith
value-digits_from (suc fuel) n after h = elim (Bool-cases (ltb n 10)) [
  | inl last ↦ rw last (ap (λ a. value a after) (small last))
  | inr more ↦ rw more (
      value-digits_from fuel (n / 10) ((48 + n % 10) ∷ after) (fewer more)
      ∙ ap (λ a. value a after) whole)
]
  where
    small : ltb n 10 ≡ true → 0 * 10 + (48 + n % 10 - 48) ≡ n
    small last = ground arith

    fewer : ltb n 10 ≡ false → n / 10 < fuel
    fewer more = ground arith

    whole : n / 10 * 10 + (48 + n % 10 - 48) ≡ n
    whole = omega arith

-- The text of a number stands for that number.
pub value-decimal : (n : ℕ) → value 0 (decimal n) ≡ n
unfolding decimal
value-decimal n = value-digits_from (suc n) n [] (omega arith)

pub decimal-injective : (m n : ℕ) → decimal m ≡ decimal n → m ≡ n
decimal-injective m n h = sym (value-decimal m) ∙ ap (value 0) h ∙ value-decimal n

abbrev pub AreDigits : List ℕ → Type 0
AreDigits s = All (λ c. (48 ≤ c) × (c ≤ 57)) s

AreDigits-digits_from :
    (fuel n : ℕ) (after : List ℕ) → AreDigits after → AreDigits (digits_from fuel n after)
unfolding digits_from
AreDigits-digits_from zero n after h = h
AreDigits-digits_from (suc fuel) n after h = elim (Bool-cases (ltb n 10)) [
  | inl last ↦ rw last ((omega arith, omega arith), h)
  | inr more ↦
      rw more (
        AreDigits-digits_from fuel (n / 10) ((48 + n % 10) ∷ after) ((omega arith, omega arith), h))
]

pub decimal-AreDigits : (n : ℕ) → AreDigits (decimal n)
unfolding decimal
decimal-AreDigits n = AreDigits-digits_from (suc n) n [] tt

is_empty-digits_from :
    (fuel n c : ℕ) (after : List ℕ) → is_empty (digits_from fuel n (c ∷ after)) ≡ false
unfolding digits_from
is_empty-digits_from zero n c after = refl
is_empty-digits_from (suc fuel) n c after =
    ground (arith, is_empty-digits_from fuel (n / 10) (48 + n % 10) (c ∷ after))

pub is_empty-decimal : (n : ℕ) → is_empty (decimal n) ≡ false
unfolding decimal digits_from
is_empty-decimal n = ground (arith, is_empty-digits_from n (n / 10) (48 + n % 10) [])
