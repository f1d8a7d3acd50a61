-- ===== src/Common/Backoff.antt =====
-- The back-off that three pollers share: the delay doubles at each failure, up to a cap
-- (`Math.min(backoffMs * 2, POLL_MAX_MS)`).
use Prim.Native.Nat.{ℕ, zero, suc, ◌*◌, ◌^◌, ◌≤◌, min}
use mathlib.Core.Path.{◌≡◌, refl, ap}
use native.Mathlib.Nat.{pow-suc, mul_assoc}
use native.Mathlib.Omega.{arith}

unfoldable pub double_capped : ℕ → ℕ → ℕ
double_capped most b = min (b * 2) most

abbrev pub iterate {ℓ} : {A : Type ℓ} → ℕ → (A → A) → A → A
iterate zero f a = a
iterate (suc n) f a = f (iterate n f a)

pub iterate_shift {ℓ} :
    {A : Type ℓ} (n : ℕ) (f : A → A) (a : A) → iterate n f (f a) ≡ iterate (suc n) f a
iterate_shift zero f a = refl
iterate_shift (suc n) f a = ap f (iterate_shift n f a)

-- After k failures in a row the delay is the first one times 2 ^ k, up to the cap.
pub iterate-double_capped :
    (k most b : ℕ) → b ≤ most → iterate k (double_capped most) b ≡ min (b * 2 ^ k) most
unfolding double_capped
iterate-double_capped zero most b h = omega arith
iterate-double_capped (suc k) most b h =
    let doubled : b * 2 ^ suc k ≡ b * 2 ^ k * 2 = rw pow-suc (rw mul_assoc) in
    omega (arith, iterate-double_capped k most b h, doubled)

pub double_capped_bounds :
    (most b low : ℕ)
    → low ≤ b
    → b ≤ most
    → (low ≤ double_capped most b) × (double_capped most b ≤ most)
unfolding double_capped
double_capped_bounds most b low h k = omega arith
