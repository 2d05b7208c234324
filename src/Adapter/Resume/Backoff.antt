-- ===== src/Adapter/Resume/Backoff.antt =====
-- internal/adapter/reconnect.go: the waits between redials.
use native.Mathlib.Numerals.{towards_suc}
use peerbus.Prelude.{ℕ, zero, suc, ◌+◌, ◌*◌, ◌≤◌, ◌≡◌, ◌⊎◌, arith}
use peerbus.Adapter.Resume.{next_backoff, base_backoff, max_backoff}

-- The wait before the n-th redial.
pub backoff : ℕ → ℕ
backoff zero = base_backoff
backoff (suc n) = next_backoff (backoff n)

-- A redial doubles the wait, up to the bound.
doubles :
    (b : ℕ)
    → b ≤ max_backoff
    → (b ≤ next_backoff b)
      × (next_backoff b ≤ max_backoff)
      × ((next_backoff b ≡ max_backoff) ⊎ (next_backoff b ≡ b * 2))
unfolding next_backoff
doubles b h = ground arith

within : (n : ℕ) → (base_backoff ≤ backoff n) × (backoff n ≤ max_backoff)
unfolding backoff
within zero = omega arith
within (suc n) = omega (arith, within n, doubles (backoff n))

six : (n : ℕ) → backoff (suc (suc (suc (suc (suc (suc n)))))) ≡ max_backoff
unfolding backoff
six n =
    let b0 = backoff n in
    let b1 = next_backoff b0 in
    let b2 = next_backoff b1 in
    let b3 = next_backoff b2 in
    let b4 = next_backoff b3 in
    let b5 = next_backoff b4 in
    omega (arith, within n, doubles b0, doubles b1, doubles b2, doubles b3, doubles b4, doubles b5)

-- Every wait lies between the base and the bound, no wait is shorter than the one before, and from
-- the sixth redial on the wait is the bound.
pub backoff_bounds :
    (n : ℕ)
    → (base_backoff ≤ backoff n)
      × (backoff n ≤ max_backoff)
      × (backoff n ≤ backoff (suc n))
      × (backoff (n + 6) ≡ max_backoff)
backoff_bounds n =
    let (low, high) = within n in
    (low, high, unfold backoff in (doubles (backoff n) high).0, simp towards_suc (six n))
