-- ===== src/Ring/Spans.antt =====
-- The contiguous stretches of the storage that the ring reports to the callers of `send` and `recv`.
use native.Mathlib.Nat.{mod-eq_of_lt}
use iocp_chatting.Prelude.{
  Bool-cases, false, ℕ, zero, suc, ◌&&◌, ◌||◌, not, ◌+◌, ◌-◌, ◌%◌, ◌≤◌, ◌<◌, ◌≡◌, ◌⊎◌, refl, sym,
  ap, ap₂, ◌∙◌, inl, inr, List, [], ◌∷◌, ◌++◌, arith, length, take, drop, get_or, ltb, ◌==◌,
}
use iocp_chatting.Ring.{
  RingBuffer, get_size_in_use, get_free_size, is_full, get_continuous_dequeue_size,
  get_continuous_enqueue_size, get_front_buffer_ptr, get_buffer_ptr,
}
use iocp_chatting.Ring.Index.{mod_cases}
use iocp_chatting.Ring.Inv.{IsValid}
use iocp_chatting.Ring.Contents.{contents, length-contents, window, window-add}

drop-cons : (h : ℕ) (buf : List ℕ) → h < length buf → drop h buf ≡ get_or buf h 0 ∷ drop (h + 1) buf
drop-cons zero [] lt = absurd (omega arith)
drop-cons zero (x ∷ buf) lt = refl
drop-cons (suc h) [] lt = absurd (omega arith)
drop-cons (suc h) (x ∷ buf) lt =
    let e : suc h + 1 ≡ suc (h + 1) = omega arith in rw e (drop-cons h buf (omega arith))

-- A window that does not go round is a stretch of the storage.
window-span :
    (buf : List ℕ) (size h n : ℕ)
    → length buf ≡ size
    → h + n ≤ size
    → window buf size h n ≡ take n (drop h buf)
window-span buf size h zero e le = refl
window-span buf size h (suc zero) e le = rw (drop-cons h buf (omega arith))
window-span buf size h (suc (suc n)) e le = rw (drop-cons h buf (omega arith)) (
    ap (◌∷◌ (get_or buf h 0)) (
      rw (mod-eq_of_lt {n = h + 1} {m = size} (omega arith))
        (window-span buf size (h + 1) (suc n) e (omega arith))))

take-nil : (n : ℕ) → take {A = ℕ} n [] ≡ []
take-nil zero = refl
take-nil (suc n) = refl

drop_all : (h : ℕ) (buf : List ℕ) → length buf ≤ h → drop h buf ≡ []
drop_all zero [] le = refl
drop_all zero (x ∷ buf) le = absurd (omega arith)
drop_all (suc h) [] le = refl
drop_all (suc h) (x ∷ buf) le = drop_all h buf (omega arith)

-- What is read from index `h` on without going round is the part of the window up to the end.
window-front :
    (buf : List ℕ) (size h n : ℕ)
    → length buf ≡ size
    → h < size
    → take n (drop h buf) ≡ take (size - h) (window buf size h n)
window-front buf size h zero e lt = sym (take-nil (size - h))
window-front buf size h (suc n) e lt =
    let more : size - h ≡ suc (size - (h + 1)) = omega (arith, lt) in
    rw (drop-cons h buf (omega (arith, e, lt)), more)
      (ap (◌∷◌ (get_or buf h 0)) (elim (Bool-cases (ltb (h + 1) size)) [
        | inl on ↦
            let inside : h + 1 < size = ground (arith, on) in
            rw (mod-eq_of_lt inside) (window-front buf size (h + 1) n e inside)
        | inr off ↦
            let over : size - (h + 1) ≡ 0 = ground (arith, off) in
            rw (over, drop_all (h + 1) buf (ground (arith, off, e))) (take-nil n)
      ]))

-- The pointer to the front reads the contents up to the end of the storage.
pub front_ptr-contents :
    {r : RingBuffer}
    → IsValid r
    → take (length (contents r)) (get_front_buffer_ptr r) ≡ take (r.size - r.front) (contents r)
unfolding get_front_buffer_ptr
front_ptr-contents {r} v = rw (mod-eq_of_lt v.front_in) (
    ap (λ n. take n (drop r.front r.buf)) (length-contents r)
    ∙ window-front r.buf r.size r.front (get_size_in_use r) v.storage v.front_in)

in_use_spans :
    {r : RingBuffer}
    → IsValid r
    → (r.front + get_continuous_dequeue_size r ≤ r.size)
      × (get_continuous_dequeue_size r ≤ get_size_in_use r)
      × ((get_continuous_dequeue_size r ≡ get_size_in_use r)
          ⊎ (r.front + get_continuous_dequeue_size r ≡ r.size)
            × (get_size_in_use r - get_continuous_dequeue_size r ≤ r.size))
unfolding get_continuous_dequeue_size get_size_in_use
in_use_spans v = ground arith

second_span :
    {r : RingBuffer}
    → IsValid r
    → window r.buf r.size
        ((r.front + get_continuous_dequeue_size r) % r.size)
        (get_size_in_use r - get_continuous_dequeue_size r)
      ≡ take (get_size_in_use r - get_continuous_dequeue_size r) r.buf
second_span {r} v = elim (in_use_spans v).2 [
  | inl e ↦ let z : get_size_in_use r - get_continuous_dequeue_size r ≡ 0 = omega arith in rw z
  | inr (e, le) ↦
      let z : (r.front + get_continuous_dequeue_size r) % r.size ≡ 0 =
        omega (arith, mod_cases (r.front + get_continuous_dequeue_size r) r.size) in
      rw z (window-span r.buf r.size 0 _ v.storage (omega arith))
]

-- The two stretches that a scattered send names, the one at the front pointer and the one at the
-- start of the storage, are the contents of the ring.
pub spans-contents :
    {r : RingBuffer}
    → IsValid r
    → take (get_continuous_dequeue_size r) (get_front_buffer_ptr r)
        ++ take (get_size_in_use r - get_continuous_dequeue_size r) (get_buffer_ptr r)
      ≡ contents r
unfolding get_front_buffer_ptr get_buffer_ptr
spans-contents {r} v =
    let s = in_use_spans v in
    let e : get_size_in_use r
        ≡ get_continuous_dequeue_size r + (get_size_in_use r - get_continuous_dequeue_size r) =
      omega (arith, s.1) in
    sym (
      ap (window r.buf r.size r.front) e
      ∙ window-add r.buf r.size r.front _ _ v.front_in
      ∙ ap₂ ◌++◌ (rw (mod-eq_of_lt v.front_in) (window-span r.buf r.size r.front _ v.storage s.0))
          (second_span v))

-- The stretch that `GetContinuousEnqueueSize` offers exceeds the free space, so that filling it would
-- make a full ring look empty, exactly if the ring is not full and its free bytes lie before the
-- front index, or it is empty with both indices at the end; and then it is one byte too long.
get_continuous_enqueue_size_overrun :
    {r : RingBuffer}
    → IsValid r
    → let (span, _) = get_continuous_enqueue_size r in
      (ltb (get_free_size r) span
        ≡ ((ltb r.rear r.front && not (is_full r)) || (r.front == r.rear && r.front + 1 == r.size)))
      × (span ≤ get_free_size r + 1)
unfolding get_continuous_enqueue_size get_free_size get_size_in_use is_full
get_continuous_enqueue_size_overrun {r} v = ground (arith, mod_cases (r.rear + 1) r.size)

pub in_use_of_span :
    {r : RingBuffer}
    → IsValid r
    → ltb (get_continuous_dequeue_size r) (get_size_in_use r) ≡ false
    → get_size_in_use r - get_continuous_dequeue_size r ≡ 0
in_use_of_span v h = ground arith
