-- ===== src/Ring/Enqueue.antt =====
-- `RingBuffer::Enqueue`: which bytes it takes, and what it returns.
use iocp_chatting.Prelude.{
  ℕ, zero, suc, ◌==◌, ltb, if◌then◌else◌, ◌+◌, ◌-◌, ◌%◌, ◌<◌, ◌≡◌, refl, ap, ◌∙◌, inl, inr, List,
  [], ◌∷◌, ◌++◌, arith, length, take, min, false, Bool-cases, append-nil, append_assoc, pos, negsuc,
}
use iocp_chatting.Ring.{RingBuffer, get_free_size, is_full, put, enqueue_loop, enqueue}
use iocp_chatting.Ring.Index.{mod_cases, mod_add_zero}
use iocp_chatting.Ring.Inv.{
  IsValid, put-IsValid, is_full-free, not_full-free, in_use-put, free-add-in_use,
}
use iocp_chatting.Ring.Contents.{contents, contents-put, step_on}

take_zero : (n : ℕ) (l : List ℕ) → n ≡ 0 → take n l ≡ []
take_zero zero l h = refl
take_zero (suc n) l h = absurd (omega arith)

take_pos : (n x : ℕ) (l : List ℕ) → 0 < n → take n (x ∷ l) ≡ x ∷ take (n - 1) l
take_pos zero x l h = absurd (omega arith)
take_pos (suc n) x l h = ap (λ k. x ∷ take k l) (omega arith)

take_none : (n : ℕ) → take {A = ℕ} n [] ≡ []
take_none zero = refl
take_none (suc n) = refl

size-put : (r : RingBuffer) (x : ℕ) → (put r x).size ≡ r.size
unfolding put
size-put r x = refl

front-put : (r : RingBuffer) (x : ℕ) → (put r x).front ≡ r.front
unfolding put
front-put r x = refl

rear-put : (r : RingBuffer) (x : ℕ) → (put r x).rear ≡ (r.rear + 1) % r.size
unfolding put
rear-put r x = refl

free-put :
    {r : RingBuffer} (x : ℕ)
    → IsValid r
    → is_full r ≡ false
    → get_free_size (put r x) ≡ get_free_size r - 1
free-put {r} x v h =
    omega
      (arith, in_use-put x v h, free-add-in_use v, free-add-in_use (put-IsValid x v), size-put r x)

-- What the loop has done when it ends.
pub record Stored (r : RingBuffer) (src : List ℕ) (out : RingBuffer) : Type 0 where
  pub valid : IsValid out
  pub bytes : contents out ≡ contents r ++ take (get_free_size r) src
  pub size : out.size ≡ r.size
  pub front : out.front ≡ r.front
  pub rear : out.rear ≡ (r.rear + min (length src) (get_free_size r)) % r.size

stop-Stored :
    {r : RingBuffer} (src : List ℕ)
    → IsValid r
    → min (length src) (get_free_size r) ≡ 0
    → take (get_free_size r) src ≡ []
    → Stored r src r
stop-Stored {r} src v e t = record {
  valid = v;
  bytes = rw (t, append-nil);
  size = refl;
  front = refl;
  rear = rw (e, mod_add_zero v.rear_in);
}

more-Stored :
    {r : RingBuffer} (x : ℕ) (xs : List ℕ) {out : RingBuffer}
    → IsValid r
    → is_full r ≡ false
    → Stored (put r x) xs out
    → Stored r (x ∷ xs) out
more-Stored {r} x xs v h s = record {
  valid = s.valid;
  bytes =
      s.bytes
      ∙ rw (
        contents-put x v h,
        free-put x v h,
        take_pos (get_free_size r) x xs (not_full-free v h),
        append_assoc,
      );
  size = s.size ∙ size-put r x;
  front = s.front ∙ front-put r x;
  rear = s.rear ∙ more_rear;
}
  where
    more_rear :
        ((put r x).rear + min (length xs) (get_free_size (put r x))) % (put r x).size
        ≡ (r.rear + min (suc (length xs)) (get_free_size r)) % r.size
    more_rear = ground (
      arith,
      free-put x v h,
      not_full-free v h,
      rear-put r x,
      size-put r x,
      step_on r.rear (min (length xs) (get_free_size r - 1)) r.size,
    )

pub enqueue_loop-Stored :
    (src : List ℕ) {r : RingBuffer} → IsValid r → Stored r src (enqueue_loop r src)
unfolding enqueue_loop
enqueue_loop-Stored [] {r} v = stop-Stored [] v (omega arith) (take_none (get_free_size r))
enqueue_loop-Stored (x ∷ xs) {r} v = elim (Bool-cases (is_full r)) [
  | inl full ↦ rw full (
      stop-Stored (x ∷ xs) v (omega (arith, is_full-free v full))
        (take_zero (get_free_size r) (x ∷ xs) (is_full-free v full)))
  | inr room ↦ rw room (more-Stored x xs v room (enqueue_loop-Stored xs (put-IsValid x v)))
]

pub enqueue-Stored : {r : RingBuffer} (src : List ℕ) → IsValid r → Stored r src (enqueue r src).1
unfolding enqueue
enqueue-Stored {r} src v = elim (Bool-cases (get_free_size r == 0)) [
  | inl full ↦
      rw full (stop-Stored src v (ground arith) (take_zero (get_free_size r) src (ground arith)))
  | inr room ↦ rw room (enqueue_loop-Stored src v)
]

-- `Enqueue` keeps the ring valid and appends exactly the longest prefix of `src` that fits into the
-- free space, in order.
pub enqueue_appends :
    {r : RingBuffer} (src : List ℕ)
    → IsValid r
    → IsValid (enqueue r src).1
      × (contents (enqueue r src).1 ≡ contents r ++ take (get_free_size r) src)
enqueue_appends src v = ((enqueue-Stored src v).valid, (enqueue-Stored src v).bytes)

-- What `Enqueue` returns: the number of bytes stored if the write does not reach the end of the
-- storage, and that number less the size of the storage, a negative number, if it does.
pub enqueue_result :
    {r : RingBuffer} (src : List ℕ)
    → IsValid r
    → let stored = min (length src) (get_free_size r) in
      (enqueue r src).0
      ≡ (if ltb (r.rear + stored) r.size then pos stored else negsuc (r.size - stored - 1))
unfolding enqueue
enqueue_result {r} src v = ground (
  arith,
  (enqueue_loop-Stored src v).rear,
  mod_cases (r.rear + min (length src) (get_free_size r)) r.size,
  free-add-in_use v,
)
