-- ===== src/Ring/Dequeue.antt =====
-- `RingBuffer::Dequeue` and `RingBuffer::Peek`: which bytes they copy, and what they return.
use iocp_chatting.Prelude.{
  ℕ, zero, suc, ltb, if◌then◌else◌, ◌+◌, ◌-◌, ◌%◌, ◌≤◌, ◌≡◌, refl, sym, ap, ◌∙◌, inl, inr, List, [],
  ◌∷◌, arith, length, take, drop, min, true, false, Bool-cases, pos, negsuc, get_or, ◌==◌,
  length-take,
}
use iocp_chatting.Ring.{
  init, clear_buffer, RingBuffer, get_size_in_use, dequeue_loop, dequeue, peek_loop, peek,
  move_front,
}
use iocp_chatting.Ring.Index.{mod_cases, mod_add_zero}
use iocp_chatting.Ring.Inv.{IsValid, move_front-IsValid, in_use-lt-size}
use iocp_chatting.Ring.Contents.{contents, contents-move_front, length-contents, step_on, window}

-- The ring after one round of the loop.
abbrev advance : RingBuffer → RingBuffer
advance r = record r { front = (r.front + 1) % r.size }

advance-IsValid : {r : RingBuffer} → IsValid r → IsValid (advance r)
advance-IsValid v = omega arith

in_use-advance :
    {r : RingBuffer}
    → IsValid r
    → (r.front == r.rear) ≡ false
    → get_size_in_use r ≡ suc (get_size_in_use (advance r))
unfolding get_size_in_use
in_use-advance {r} v h = ground (arith, mod_cases (r.front + 1) r.size)

in_use_none : {r : RingBuffer} → IsValid r → (r.front == r.rear) ≡ true → get_size_in_use r ≡ 0
unfolding get_size_in_use
in_use_none v h = ground arith

contents-advance :
    {r : RingBuffer}
    → IsValid r
    → (r.front == r.rear) ≡ false
    → contents r ≡ get_or r.buf r.front 0 ∷ contents (advance r)
contents-advance {r} v h = ap (window r.buf r.size r.front) (in_use-advance v h)

contents_none : {r : RingBuffer} → IsValid r → (r.front == r.rear) ≡ true → contents r ≡ []
contents_none {r} v h = ap (window r.buf r.size r.front) (in_use_none v h)

take_none : (n : ℕ) → take {A = ℕ} n [] ≡ []
take_none zero = refl
take_none (suc n) = refl

-- The loop copies the first bytes and moves the front past them.
dequeue_loop_bytes :
    (len : ℕ) {r : RingBuffer} → IsValid r → (dequeue_loop r len).0 ≡ take len (contents r)
unfolding dequeue_loop
dequeue_loop_bytes zero v = refl
dequeue_loop_bytes (suc len) {r} v = elim (Bool-cases (r.front == r.rear)) [
  | inl e ↦ rw (e, contents_none v e)
  | inr e ↦
      rw (e, contents-advance v e)
        (ap (◌∷◌ (get_or r.buf r.front 0)) (dequeue_loop_bytes len (advance-IsValid v)))
]

dequeue_loop_ring :
    (len : ℕ) {r : RingBuffer}
    → IsValid r
    → (dequeue_loop r len).1 ≡ move_front r (min len (get_size_in_use r))
unfolding dequeue_loop move_front
dequeue_loop_ring zero {r} v =
    ap (λ k. record r { front = k }) (ground (arith, mod_add_zero v.front_in))
dequeue_loop_ring (suc len) {r} v = elim (Bool-cases (r.front == r.rear)) [
  | inl e ↦
      rw (e, in_use_none v e)
        (ap (λ k. record r { front = k }) (ground (arith, mod_add_zero v.front_in)))
  | inr e ↦
      rw (e, in_use-advance v e)
        (dequeue_loop_ring len (advance-IsValid v)
          ∙ ap (λ k. record r { front = k })
              (ground (arith, step_on r.front (min len (get_size_in_use (advance r))) r.size)))
]

peek_loop_dequeue :
    (len : ℕ) (r : RingBuffer) (tmp : ℕ)
    → peek_loop r tmp len ≡ (dequeue_loop (record r { front = tmp }) len).0
unfolding peek_loop dequeue_loop
peek_loop_dequeue zero r tmp = refl
peek_loop_dequeue (suc len) r tmp = ground (arith, peek_loop_dequeue len r ((tmp + 1) % r.size))

min-le : (a b : ℕ) → min a b ≤ b
min-le a b = omega arith

drop_none : (n : ℕ) → drop {A = ℕ} n [] ≡ []
drop_none zero = refl
drop_none (suc n) = refl

drop-min : (len m : ℕ) (l : List ℕ) → m ≡ min len (length l) → drop m l ≡ drop len l
drop-min zero zero l e = refl
drop-min (suc len) zero [] e = refl
drop-min (suc len) (suc m) (x ∷ l) e = drop-min len m l (omega arith)
drop-min (suc len) zero (x ∷ l) e = absurd (omega arith)
drop-min zero (suc m) l e = absurd (omega arith)
drop-min (suc len) (suc m) [] e = absurd (omega arith)

contents_empty : (r : RingBuffer) → get_size_in_use r ≡ 0 → contents r ≡ []
contents_empty r = ap (window r.buf r.size r.front)

front-move_front : (r : RingBuffer) (n : ℕ) → (move_front r n).front ≡ (r.front + n) % r.size
unfolding move_front
front-move_front r n = refl

contents-dequeue_loop :
    {r : RingBuffer} (len : ℕ) → IsValid r → contents (dequeue_loop r len).1 ≡ drop len (contents r)
contents-dequeue_loop {r} len v =
    rw (dequeue_loop_ring len v, contents-move_front _ v (min-le len (get_size_in_use r)))
      (drop-min len _ (contents r) (rw (length-contents r)))

-- `Dequeue` copies the first `len` bytes of the contents, or all of them if there are fewer, takes
-- exactly those off the ring, and keeps it valid.
dequeue_takes :
    {r : RingBuffer} (len : ℕ)
    → IsValid r
    → let (result, out, r') = dequeue r len in
      (out ≡ take len (contents r)) × (contents r' ≡ drop len (contents r)) × IsValid r'
unfolding dequeue
dequeue_takes {r} len v = elim (Bool-cases (get_size_in_use r == 0)) [
  | inl e ↦
      let c : contents r ≡ [] = contents_empty r (ground arith) in
      rw e (rw c (sym (take_none len)), rw c (sym (drop_none len)), v)
  | inr e ↦ rw e (
    dequeue_loop_bytes len v,
    contents-dequeue_loop len v,
    rw (dequeue_loop_ring len v) (move_front-IsValid _ v),
  )
]

-- What `Dequeue` returns: the number of bytes taken if the read does not reach the end of the
-- storage, and that number less the size of the storage, a negative number, if it does.
pub dequeue_result :
    {r : RingBuffer} (len : ℕ)
    → IsValid r
    → let taken = min len (get_size_in_use r) in
      (dequeue r len).0
      ≡ (if ltb (r.front + taken) r.size then pos taken else negsuc (r.size - taken - 1))
unfolding dequeue
dequeue_result {r} len v = ground (
  arith,
  ap (λ s. s.front) (dequeue_loop_ring len v),
  front-move_front r (min len (get_size_in_use r)),
  mod_cases (r.front + min len (get_size_in_use r)) r.size,
  in_use-lt-size v,
)

-- `Peek` copies the first `len` bytes of the contents, or all of them if there are fewer, and
-- returns their number, also where the bytes go round the end of the storage.
pub peek_copies :
    {r : RingBuffer} (len : ℕ)
    → IsValid r
    → peek r len ≡ (min len (get_size_in_use r), take len (contents r))
unfolding peek
peek_copies {r} len v = rw (
  peek_loop_dequeue len r r.front,
  dequeue_loop_bytes len v,
  length-take len (contents r),
  length-contents r,
)

-- Nothing is copied from a ring that has been cleared.
pub peek-clear_buffer : (r : RingBuffer) (len : ℕ) → peek (clear_buffer r) len ≡ (0, [])
unfolding peek peek_loop clear_buffer
peek-clear_buffer r zero = refl
peek-clear_buffer r (suc len) = refl

-- Nor from a new ring.
pub peek-init : (raw : List ℕ) (len : ℕ) → peek (init raw) len ≡ (0, [])
unfolding peek peek_loop init
peek-init raw zero = refl
peek-init raw (suc len) = refl
