-- ===== src/Prelude/Text.antt =====
-- Texts that the program walks: lists of UTF-16 code units, with `===`, `trim` and the white space
-- that it removes.
use Prim.Native.Nat.{ℕ}
use Prim.Native.Char.{code}
use Prim.Native.String.{String}
use mathlib.Core.Path.{◌≡◌, refl}
use mathlib.Core.Logic.{◌↔◌}
use mathlib.Core.Bool.{Bool, true, false, ◌&&◌, ◌||◌}
use mathlib.Core.List.{List, [], ◌∷◌, reverse}
use native.Mathlib.Omega.{arith}
use chocobofix.Prelude.Bools.{eqb, leb, if◌then◌else◌}
use chocobofix.Prelude.Equality.{StrictEq}

-- The code units of a literal, all ASCII.
abbrev pub units : String → List ℕ
units String.[] = []
units (String.◌∷◌ unit rest) = code unit ∷ units rest

abbrev pub is_empty {ℓ} : {A : Type ℓ} → List A → Bool
is_empty [] = true
is_empty (c ∷ s) = false

unfoldable pub text_eq : List ℕ → List ℕ → Bool
text_eq [] [] = true
text_eq [] (d ∷ t) = false
text_eq (c ∷ s) [] = false
text_eq (c ∷ s) (d ∷ t) = eqb c d && text_eq s t

pub text_eq_iff : (s t : List ℕ) → (text_eq s t ≡ true) ↔ (s ≡ t)
unfolding text_eq
text_eq_iff [] [] = (λ h. refl, λ h. refl)
text_eq_iff [] (d ∷ t) = (λ h. cc, λ h. cc)
text_eq_iff (c ∷ s) [] = (λ h. cc, λ h. cc)
text_eq_iff (c ∷ s) (d ∷ t) = ground (arith, text_eq_iff s t)

instance abbrev pub Text-eq : StrictEq (List ℕ)
Text-eq = record { same = text_eq; same_iff = text_eq_iff }

-- WhiteSpace and LineTerminator of the language.
unfoldable pub is_space : ℕ → Bool
is_space c =
    (leb 9 c && leb c 13)
    || eqb c 32
    || eqb c 160
    || eqb c 0x1680
    || (leb 0x2000 c && leb c 0x200a)
    || eqb c 0x2028
    || eqb c 0x2029
    || eqb c 0x202f
    || eqb c 0x205f
    || eqb c 0x3000
    || eqb c 0xfeff

unfoldable pub trim_start : List ℕ → List ℕ
trim_start [] = []
trim_start (c ∷ s) = if is_space c then trim_start s else c ∷ s

unfoldable pub trim : List ℕ → List ℕ
unfolding trim_start is_space
trim s = reverse (trim_start (reverse (trim_start s)))

-- `startsWith` and `includes`.
unfoldable pub starts_with : List ℕ → List ℕ → Bool
starts_with s [] = true
starts_with [] (d ∷ t) = false
starts_with (c ∷ s) (d ∷ t) = eqb c d && starts_with s t

unfoldable pub includes : List ℕ → List ℕ → Bool
unfolding starts_with
includes [] t = is_empty t
includes (c ∷ s) t = starts_with (c ∷ s) t || includes s t
