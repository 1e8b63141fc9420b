-- ===== src/Prelude/Int.antt =====
-- Signed integers over the native numbers: the values of `int32_t`, where a negative one can occur.
use Prim.Native.Nat.{ℕ, ◌-◌, ◌^◌}
use iocp_chatting.Prelude.Tests.{ltb, leb, if◌then◌else◌}

-- `negsuc n` is -(n + 1).
pub data ℤ : Type 0 where
  pos : ℕ → ℤ
  negsuc : ℕ → ℤ

-- a - b, as an integer.
abbrev pub sub_ℕ : ℕ → ℕ → ℤ
sub_ℕ a b = if leb b a then pos (a - b) else negsuc (b - a - 1)

-- The `int32_t` with the bit pattern of a `uint32_t` below 2 ^ 32.
abbrev pub to_int32 : ℕ → ℤ
to_int32 w = if ltb w (2 ^ 31) then pos w else negsuc (2 ^ 32 - w - 1)
