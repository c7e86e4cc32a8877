-- ===== src/Resource/Disabled.antt =====
-- What is shown when the resource is disabled.
use chocobofix.Prelude.{
  ℕ, ◌≤◌, ◌≡◌, refl, sym, subst, Bool, true, false, Option, none, some, List, [], ◌∷◌, inl, inr,
  arith, Bool-cases, eqb, not, ◌&&◌, any, eqb_iff, if◌then◌else◌, ◌⊎◌,
}
use chocobofix.Resource.{
  Outcome, loaded, failed, cancelled, Resource, Event, change, reload, reply, initially, fetch,
  is_current, settle, step, steps, abort,
}

-- A run that no reply settles any more: there was none, or its controller is aborted.
abbrev pub IsOver : ℕ → List ℕ → Type 0
IsOver n aborted = (n ≡ 0) ⊎ (any (eqb n) aborted ≡ true)

IsOver-abort :
    (n : ℕ) (c : Option ℕ) (aborted : List ℕ)
    → IsOver n aborted ⊎ (c ≡ some n)
    → IsOver n (abort c aborted)
IsOver-abort n none aborted (inl h) = h
IsOver-abort n (some m) aborted (inl (inl h)) = inl h
IsOver-abort n (some m) aborted (inl (inr h)) = inr (ground arith)
IsOver-abort n none aborted (inr h) = cc
IsOver-abort n (some m) aborted (inr h) = let same : m ≡ n = cc in inr (ground (arith, eqb_iff n m))

over_not_current :
    (mine n : ℕ) (aborted : List ℕ)
    → 1 ≤ mine
    → IsOver n aborted
    → eqb mine n && not (any (eqb mine) aborted) ≡ false
over_not_current mine n aborted l (inl none_yet) = ground arith
over_not_current mine n aborted l (inr gone) = elim (Bool-cases (eqb mine n)) [
  | inl same ↦
      let e = (eqb_iff mine n).0 same in
      rw same (rw (sym (subst (λ k. true ≡ any (eqb k) aborted) (sym e) (sym gone))) refl)
  | inr other ↦ rw other refl
]

module _ {D E : Type 0} where
  -- The effect's cleanup aborts the latest run unless that is over, and a disabled resource is
  -- empty and its latest run over.
  abbrev pub IsTidy : Resource D E → Type 0
  IsTidy s =
      (IsOver s.seq s.aborted ⊎ (s.cleanup ≡ some s.seq))
      × (s.enabled ≡ false → (s.content ≡ none) × IsOver s.seq s.aborted)

  -- The events without a reload; a run's number is positive.
  abbrev pub HasNoReload : List (Event D E) → Type 0
  HasNoReload [] = Unit
  HasNoReload (reload ∷ es) = ⊥
  HasNoReload (change b ∷ es) = HasNoReload es
  HasNoReload (reply n o ∷ es) = (1 ≤ n) × HasNoReload es

  settle-IsTidy :
      (mine : ℕ) (o : Outcome D E) (s : Resource D E)
      → 1 ≤ mine
      → IsTidy s
      → IsTidy (settle mine o s)
  unfolding settle
  settle-IsTidy mine cancelled s l h = h
  settle-IsTidy mine (failed x) s l h = by_current (is_current mine s)
    where
      by_current :
          (b : Bool)
          → IsTidy (if b then record s { content = none; error = some x; loading = false } else s)
      by_current true = (h.0, λ off. (refl, (h.1 off).1))
      by_current false = h
  settle-IsTidy mine (loaded x) s l h = by_current (is_current mine s) refl
    where
      by_current :
          (b : Bool)
          → is_current mine s ≡ b
          → IsTidy (if b then record s { content = some x; error = none; loading = false } else s)
      by_current true k =
          (h.0, λ off. let never = over_not_current mine s.seq s.aborted l (h.1 off).1 in cc)
      by_current false k = h

  steps-IsTidy :
      (es : List (Event D E)) (s : Resource D E) → HasNoReload es → IsTidy s → IsTidy (steps s es)
  unfolding steps step fetch
  steps-IsTidy [] s p h = h
  steps-IsTidy (reload ∷ es) s p h = absurd p
  steps-IsTidy (change true ∷ es) s p h =
      steps-IsTidy es (step s (change true)) p (inr refl, λ off. cc)
  steps-IsTidy (change false ∷ es) s p h =
      let over = IsOver-abort s.seq s.cleanup s.aborted h.0 in
      steps-IsTidy es (step s (change false)) p (inl over, λ off. (refl, over))
  steps-IsTidy (reply mine o ∷ es) s p h =
      steps-IsTidy es (settle mine o s) p.1 (settle-IsTidy mine o s p.0 h)

  -- Without reloads a disabled resource shows nothing: the reply of a run that was under way when
  -- it was disabled is not shown.
  pub steps-disabled :
      (enabled : Bool) (es : List (Event D E))
      → HasNoReload es
      → (steps (initially enabled) es).enabled ≡ false
      → (steps (initially enabled) es).content ≡ none
  steps-disabled enabled es p off =
      ((steps-IsTidy es (initially enabled) p (inl (inl refl), λ e. (refl, inl refl))).1 off).0
