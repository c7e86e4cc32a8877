-- ===== src/Photos/Loads.antt =====
-- The list of the loads under way.
use chocobofix.Prelude.{
  ℕ, ◌≡◌, inl, inr, string_eq, true, some, List, [], ◌∷◌, arith, eqb, All, Bool-cases, number_eq,
}
use chocobofix.Photos.{Load, take_load, drop_load, expect_blob}

module _ {κ} (Q : Load → Type κ) where
  pub All-drop_load : (p : ℕ) (ls : List Load) → All Q ls → All Q (drop_load p ls)
  unfolding drop_load
  All-drop_load p [] h = tt
  All-drop_load p (l ∷ ls) h = ground (arith, All-drop_load p ls h.1)

  pub All-expect_blob :
      ((l : Load) → Q l → Q (record l { is_ok = true }))
      → (p : ℕ) (ls : List Load) → All Q ls
      → All Q (expect_blob p ls)
  unfolding expect_blob
  All-expect_blob keeps p [] h = tt
  All-expect_blob keeps p (l ∷ ls) h = elim (Bool-cases (eqb l.promise p)) [
    | inl here ↦ rw here (keeps l h.0, h.1)
    | inr later ↦ rw later (h.0, All-expect_blob keeps p ls h.1)
  ]

  pub take_load-All :
      (p : ℕ) (ls : List Load) {l : Load}
      → All Q ls
      → take_load p ls ≡ some l
      → Q l × (l.promise ≡ p)
  unfolding take_load
  take_load-All p [] {l} h e = cc
  take_load-All p (k ∷ ls) {l} h e = ground (arith, take_load-All p ls {l = l} h.1)
