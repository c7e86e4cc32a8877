-- ===== src/Api/Limiter/Order.antt =====
-- Who gets a connection that comes back.
use chocobofix.Prelude.{
  ℕ, zero, suc, ◌+◌, ◌-◌, ◌≤◌, ◌<◌, ◌≡◌, refl, Option, none, some, List, [], ◌∷◌, arith, length,
  take, drop,
}
use chocobofix.Api.Limiter.{Limiter, shift, release}

abbrev granted : Option ℕ → List ℕ → List ℕ
granted none rs = rs
granted (some r) rs = r ∷ rs

-- The requests that `n` calls of `release` let through, in turn, and the limiter after them.
pub serve : ℕ → Limiter → List ℕ × Limiter
serve zero l = ([], l)
serve (suc n) l =
    let (l', next) = release l in let (rs, last) = serve n l' in (granted next rs, last)

serve_from :
    (n active : ℕ) (ws : List ℕ)
    → 0 < active
    → n ≤ length ws
    → let (rs, last) = serve n (record { active = active; waiting = ws }) in
      (rs ≡ take n ws) × (last.waiting ≡ drop n ws) × (last.active ≡ active)
unfolding serve release shift
serve_from zero active ws a h = (refl, refl, refl)
serve_from (suc n) active [] a h = absurd (omega arith)
serve_from (suc n) active (w ∷ ws) a h =
    ground (arith, serve_from n (active - 1 + 1) ws (omega arith) (omega arith))

-- While requests wait, `n` connections that come back go to the `n` requests that have waited
-- longest, in the order of their arrival; the others stay queued in order, and as many connections
-- are open as before.
pub serve-take-drop :
    (n : ℕ) (l : Limiter)
    → 0 < l.active
    → n ≤ length l.waiting
    → let (rs, last) = serve n l in
      (rs ≡ take n l.waiting) × (last.waiting ≡ drop n l.waiting) × (last.active ≡ l.active)
serve-take-drop n l a h = serve_from n l.active l.waiting a h
