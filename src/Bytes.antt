-- ===== src/Bytes.antt =====
-- Bytes in memory. A pointer is the list of the bytes from its target to the end of the allocation;
-- `none` is a read past that end, which C++ leaves undefined. Integers are little-endian.
use iocp_chatting.Prelude.{
  ℕ, ◌+◌, ◌-◌, ◌*◌, ◌%◌, ◌^◌, Bool, true, false, ◌&&◌, Option, none, some, List, [], ◌∷◌, ◌++◌,
  ◌==◌, ltb, leb, if◌then◌else◌, length, take, get_or, ℤ, pos, negsuc,
}

-- The `n` bytes at a pointer.
unfoldable pub read_bytes : ℕ → List ℕ → Option (List ℕ)
read_bytes n p = if leb n (length p) then some (take n p) else none

abbrev pub u16_of : List ℕ → ℕ → ℕ
u16_of p i = get_or p i 0 + 256 * get_or p (i + 1) 0

abbrev pub u32_of : List ℕ → ℕ → ℕ
u32_of p i = u16_of p i + 65536 * u16_of p (i + 2)

-- A `char*` taken as a string: the bytes before the first NUL of the memory in view.
unfoldable pub c_str : List ℕ → Option (List ℕ)
c_str [] = none
c_str (c ∷ p) =
    let rest = c_str p in
    if c == 0 then some [] else elim rest [ none ↦ none | some s ↦ some (c ∷ s) ]

-- Equality of strings.
unfoldable pub bytes_eq : List ℕ → List ℕ → Bool
bytes_eq [] [] = true
bytes_eq [] (y ∷ ys) = false
bytes_eq (x ∷ xs) [] = false
bytes_eq (x ∷ xs) (y ∷ ys) = x == y && bytes_eq xs ys

-- `CopyMemory` of `n` bytes from `s.c_str()`: the characters, the NUL, and what follows in memory.
unfoldable pub copy_c_str : (List ℕ → List ℕ) → ℕ → List ℕ → List ℕ
copy_c_str past_end n s = take n (s ++ (0 ∷ past_end s))

-- `static_cast<uint32_t>` of an `int32_t`.
abbrev pub to_u32 : ℤ → ℕ
to_u32 (pos n) = n % 2 ^ 32
to_u32 (negsuc n) = 2 ^ 32 - 1 - n % 2 ^ 32

-- The conversion of an `int32_t` to `uint64_t`, which extends the sign.
abbrev pub to_u64 : ℤ → ℕ
to_u64 (pos n) = n % 2 ^ 64
to_u64 (negsuc n) = 2 ^ 64 - 1 - n % 2 ^ 64

-- An `int32_t` cast to `int16_t` and then compared with a `uint32_t`: the low half, sign-extended.
abbrev pub sign_extend16 : ℤ → ℕ
sign_extend16 z = let w = to_u32 z % 2 ^ 16 in if ltb w (2 ^ 15) then w else w + (2 ^ 32 - 2 ^ 16)
