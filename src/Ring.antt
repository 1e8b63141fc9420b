-- ===== src/Ring.antt =====
-- Network/ring_buffer.h and ring_buffer.cpp: the byte ring behind each session's sends and each
-- user's received bytes. A method that changes the object returns the new object beside its result.
-- `front_` and `rear_` are never negative, so they are numbers; a result that can be negative is ℤ.
pub mod Index
pub mod Inv
pub mod Contents
pub mod Enqueue
pub mod Dequeue
pub mod Spans
use iocp_chatting.Config.{default_ringbuffer_size}
use iocp_chatting.Prelude.{
  ℕ, ◌+◌, ◌-◌, ◌%◌, List, [], ◌∷◌, ltb, ◌==◌, ◌&&◌, if◌then◌else◌, ℤ, pos, sub_ℕ, set, get_or, drop,
  length, zero, suc, Bool,
}

pub record RingBuffer : Type 0 where
  pub buf : List ℕ
  pub front : ℕ
  pub rear : ℕ
  pub size : ℕ

-- The bytes of `new char[...]` are not initialised: `raw` is what the allocation holds.
unfoldable pub init : List ℕ → RingBuffer
init raw = record { buf = raw; front = 0; rear = 0; size = default_ringbuffer_size }

unfoldable pub get_buffer_size : RingBuffer → ℕ
get_buffer_size r = r.size

unfoldable pub get_size_in_use : RingBuffer → ℕ
get_size_in_use r = if ltb r.rear r.front then r.size - (r.front - r.rear) else r.rear - r.front

unfoldable pub get_free_size : RingBuffer → ℕ
get_free_size r = r.size - get_size_in_use r - 1

-- The test `(rear_ + 1) % size_ == front_`.
unfoldable pub is_full : RingBuffer → Bool
is_full r = (r.rear + 1) % r.size == r.front

pub get_continuous_enqueue_size : RingBuffer → ℕ × RingBuffer
get_continuous_enqueue_size r =
    if r.front == r.size - 1 && r.front == r.rear
    then (r.size, record r { front = 0; rear = 0 })
    else if is_full r
    then (0, r)
    else if ltb r.rear r.front
    then (r.front - r.rear, r)
    else if r.rear == r.size - 1
    then (1, r)
    else (r.size - r.rear - 1, r)

pub get_continuous_dequeue_size : RingBuffer → ℕ
get_continuous_dequeue_size r =
    if r.front == r.rear
    then 0
    else if r.front == r.size - 1
    then 1
    else if ltb r.rear r.front
    then r.size - r.front
    else r.rear - r.front

-- One round of the loop of `Enqueue` that does not break.
unfoldable pub put : RingBuffer → ℕ → RingBuffer
put r x = record r { buf = set r.buf r.rear x; rear = (r.rear + 1) % r.size }

-- The loop of `Enqueue` over the `len` bytes at `src`.
unfoldable pub enqueue_loop : RingBuffer → List ℕ → RingBuffer
enqueue_loop r [] = r
enqueue_loop r (x ∷ xs) = let rest = enqueue_loop (put r x) xs in if is_full r then r else rest

-- The result is `rear_ - oldRear`, which is negative after a wrap.
unfoldable pub enqueue : RingBuffer → List ℕ → ℤ × RingBuffer
enqueue r src =
    if get_free_size r == 0
    then (pos 0, r)
    else let r' = enqueue_loop r src in (sub_ℕ r'.rear r.rear, r')

-- The loop of `Dequeue` for `len` rounds: the bytes written to `dest`, and the ring.
pub dequeue_loop : RingBuffer → ℕ → List ℕ × RingBuffer
dequeue_loop r zero = ([], r)
dequeue_loop r (suc len) =
    let rest = dequeue_loop (record r { front = (r.front + 1) % r.size }) len in
    if r.front == r.rear then ([], r) else (get_or r.buf r.front 0 ∷ rest.0, rest.1)

-- The result is `front_ - oldFront`, which is negative after a wrap.
pub dequeue : RingBuffer → ℕ → ℤ × List ℕ × RingBuffer
dequeue r len =
    if get_size_in_use r == 0
    then (pos 0, [], r)
    else let (out, r') = dequeue_loop r len in (sub_ℕ r'.front r.front, out, r')

-- The loop of `Peek` from the index `tmp`: the bytes written to `dest`. `value` is their number.
unfoldable pub peek_loop : RingBuffer → ℕ → ℕ → List ℕ
peek_loop r tmp zero = []
peek_loop r tmp (suc len) =
    let rest = peek_loop r ((tmp + 1) % r.size) len in
    if tmp == r.rear then [] else get_or r.buf tmp 0 ∷ rest

unfoldable pub peek : RingBuffer → ℕ → ℕ × List ℕ
peek r len = let out = peek_loop r r.front len in (length out, out)

unfoldable pub move_rear : RingBuffer → ℕ → RingBuffer
move_rear r n = record r { rear = (r.rear + n) % r.size }

unfoldable pub move_front : RingBuffer → ℕ → RingBuffer
move_front r n = record r { front = (r.front + n) % r.size }

-- A pointer into the buffer is the bytes from there to the end of the allocation.
pub get_buffer_ptr : RingBuffer → List ℕ
get_buffer_ptr r = r.buf

unfoldable pub get_front_buffer_ptr : RingBuffer → List ℕ
get_front_buffer_ptr r = drop (r.front % r.size) r.buf

unfoldable pub get_rear_buffer_ptr : RingBuffer → List ℕ
get_rear_buffer_ptr r = drop (r.rear % r.size) r.buf

unfoldable pub clear_buffer : RingBuffer → RingBuffer
clear_buffer r = record r { front = 0; rear = 0 }
