-- ===== src/Prelude/Equality.antt =====
-- `===` on the keys of the program, as an instance.
use Prim.Native.Nat.{ℕ}
use Prim.Native.String.{String}
use mathlib.Core.Path.{◌≡◌}
use mathlib.Core.Logic.{◌↔◌}
use mathlib.Core.Bool.{Bool, true}
use text.Mathlib.Text.{◌==◌ as str_eq}
use text.Mathlib.TextEquality.{eq_iff}
use chocobofix.Prelude.Bools.{eqb, eqb_iff}

pub record StrictEq {ℓ} (K : Type ℓ) : Type ℓ where
  pub same : K → K → Bool
  pub same_iff : (j k : K) → (same j k ≡ true) ↔ (j ≡ k)

infix 50 ◌===◌
abbrev pub ◌===◌ {ℓ} : {K : Type ℓ} ⦃q : StrictEq K⦄ → K → K → Bool
◌===◌ ⦃q⦄ = q.same

instance abbrev pub string_eq : StrictEq String
string_eq = record { same = str_eq; same_iff = eq_iff }

instance abbrev pub number_eq : StrictEq ℕ
number_eq = record { same = eqb; same_iff = eqb_iff }
