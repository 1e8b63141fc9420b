-- ===== src/Ring/Index.antt =====
-- The index that follows another round the ring.
use native.Mathlib.Nat.{mod-eq_of_lt, mod-eq-sub-mod}
use native.Mathlib.Decide.{dec_lt}
use iocp_chatting.Prelude.{ℕ, ◌+◌, ◌-◌, ◌%◌, ◌<◌, ◌≤◌, ◌≡◌, ◌⊎◌, inl, inr, arith}

-- A sum below twice the size is reduced by one subtraction at most.
pub mod_cases : (k n : ℕ) → k < n + n → ((k < n) × (k % n ≡ k)) ⊎ ((n ≤ k) × (k % n ≡ k - n))
mod_cases k n h = elim (dec_lt k n) [
  | yes p ↦ inl (p, mod-eq_of_lt p)
  | no p ↦ inr (
    omega arith,
    omega (
      arith,
      mod-eq-sub-mod {n = k} {m = n} (omega arith),
      mod-eq_of_lt {n = k - n} {m = n} (omega arith),
    ),
  )
]

pub mod_add_zero : {h n : ℕ} → h < n → (h + 0) % n ≡ h
mod_add_zero {h} {n} lt = omega (arith, mod_cases (h + 0) n)
