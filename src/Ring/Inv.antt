-- ===== src/Ring/Inv.antt =====
-- The representation invariant of the ring, and the sizes that it reports.
use iocp_chatting.Config.{default_ringbuffer_size}
use iocp_chatting.Prelude.{
  ℕ, ◌+◌, ◌-◌, ◌%◌, ◌≤◌, ◌<◌, ◌≡◌, true, false, List, arith, length, length-set, ap,
}
use iocp_chatting.Ring.{
  RingBuffer, init, get_size_in_use, get_free_size, is_full, put, move_front, clear_buffer,
}
use iocp_chatting.Ring.Index.{mod_cases}

-- The storage has `size_` bytes, and both indices lie in it.
pub record IsValid (r : RingBuffer) : Type 0 where
  pub storage : length r.buf ≡ r.size
  pub front_in : r.front < r.size
  pub rear_in : r.rear < r.size

pub init-IsValid : (raw : List ℕ) → length raw ≡ default_ringbuffer_size → IsValid (init raw)
unfolding init
init-IsValid raw h = ground arith

pub clear_buffer-IsValid : {r : RingBuffer} → IsValid r → IsValid (clear_buffer r)
unfolding clear_buffer
clear_buffer-IsValid v = ground arith

pub move_front-IsValid : {r : RingBuffer} (n : ℕ) → IsValid r → IsValid (move_front r n)
unfolding move_front
move_front-IsValid n v = ground arith

pub put-IsValid : {r : RingBuffer} (x : ℕ) → IsValid r → IsValid (put r x)
unfolding put
put-IsValid {r} x v = ground (arith, length-set r.buf r.rear x)

pub in_use-lt-size : {r : RingBuffer} → IsValid r → get_size_in_use r < r.size
unfolding get_size_in_use
in_use-lt-size v = ground arith

pub rear_of_in_use : {r : RingBuffer} → IsValid r → (r.front + get_size_in_use r) % r.size ≡ r.rear
unfolding get_size_in_use
rear_of_in_use {r} v = ground (arith, mod_cases (r.front + get_size_in_use r) r.size)

-- The sizes add up: one byte of the storage is never used.
pub free-add-in_use :
    {r : RingBuffer} → IsValid r → get_free_size r + get_size_in_use r + 1 ≡ r.size
unfolding get_free_size
free-add-in_use {r} v = omega (arith, in_use-lt-size v)

-- The loop's test for a full ring agrees with `GetFreeSize() == 0`.
pub is_full-free : {r : RingBuffer} → IsValid r → is_full r ≡ true → get_free_size r ≡ 0
unfolding is_full get_free_size get_size_in_use
is_full-free {r} v h = ground (arith, mod_cases (r.rear + 1) r.size)

pub not_full-free : {r : RingBuffer} → IsValid r → is_full r ≡ false → 0 < get_free_size r
unfolding is_full get_free_size get_size_in_use
not_full-free {r} v h = ground (arith, mod_cases (r.rear + 1) r.size)

pub in_use-put :
    {r : RingBuffer} (x : ℕ)
    → IsValid r
    → is_full r ≡ false
    → get_size_in_use (put r x) ≡ get_size_in_use r + 1
unfolding is_full get_size_in_use put
in_use-put {r} x v h = ground (arith, mod_cases (r.rear + 1) r.size)

pub in_use-move_front :
    {r : RingBuffer} (n : ℕ)
    → IsValid r
    → n ≤ get_size_in_use r
    → get_size_in_use (move_front r n) ≡ get_size_in_use r - n
unfolding get_size_in_use move_front
in_use-move_front {r} n v h = ground (arith, mod_cases (r.front + n) r.size)

-- The front of a cleared ring moved on: everything but the stretch it passed counts as in use.
pub in_use-move_front_cleared :
    (r : RingBuffer) (n : ℕ)
    → 0 < n
    → n < r.size
    → get_size_in_use (move_front (clear_buffer r) n) ≡ r.size - n
unfolding get_size_in_use move_front clear_buffer
in_use-move_front_cleared r n some_bytes lt = ground (arith, mod_cases n r.size)

pub move_front_none : (r : RingBuffer) → IsValid r → move_front r 0 ≡ r
unfolding move_front
move_front_none r v =
    let same : (r.front + 0) % r.size ≡ r.front =
      ground (arith, mod_cases (r.front + 0) r.size, v.front_in) in
    ap (λ k. record r { front = k }) same
