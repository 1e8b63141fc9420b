-- ===== src/Ring/Contents.antt =====
-- The bytes that a ring holds, oldest first, and how reads and writes of the storage act on them.
use native.Mathlib.Nat.{mod-add-mod, mod-eq_of_lt}
use iocp_chatting.Prelude.{
  ℕ, zero, suc, ◌+◌, ◌-◌, ◌%◌, ◌≤◌, ◌<◌, ◌≡◌, ◌≢◌, refl, sym, ap, ap₂, ◌∙◌, List, [], ◌∷◌, ◌++◌,
  arith, length, get_or, set, take, drop, false,
}
use iocp_chatting.Ring.{RingBuffer, get_size_in_use, is_full, put, move_front}
use iocp_chatting.Ring.Index.{mod_cases}
use iocp_chatting.Ring.Inv.{IsValid, in_use-lt-size, rear_of_in_use, in_use-put, in_use-move_front}

-- The `n` bytes from index `h` on, going round at `size`.
abbrev pub window : List ℕ → ℕ → ℕ → ℕ → List ℕ
window buf size h zero = []
window buf size h (suc n) = get_or buf h 0 ∷ window buf size ((h + 1) % size) n

abbrev pub contents : RingBuffer → List ℕ
contents r = window r.buf r.size r.front (get_size_in_use r)

pub length-window : (buf : List ℕ) (size h n : ℕ) → length (window buf size h n) ≡ n
length-window buf size h zero = refl
length-window buf size h (suc n) = ap suc (length-window buf size ((h + 1) % size) n)

pub length-contents : (r : RingBuffer) → length (contents r) ≡ get_size_in_use r
length-contents r = length-window r.buf r.size r.front (get_size_in_use r)

pub step_on : (h n size : ℕ) → ((h + 1) % size + n) % size ≡ (h + suc n) % size
step_on h n size = mod-add-mod (h + 1) size n ∙ ap (λ k. k % size) (omega arith)

-- A window in two parts.
pub window-add :
    (buf : List ℕ) (size h m n : ℕ)
    → h < size
    → window buf size h (m + n) ≡ window buf size h m ++ window buf size ((h + m) % size) n
window-add buf size h zero n lt =
    let e : h + 0 ≡ h = omega arith in let f : 0 + n ≡ n = omega arith in rw (e, f, mod-eq_of_lt lt)
window-add buf size h (suc m) n lt =
    let f : suc m + n ≡ suc (m + n) = omega arith in
    rw (f, ← step_on h m size)
      (ap (◌∷◌ (get_or buf h 0)) (window-add buf size ((h + 1) % size) m n (omega arith)))

-- The first bytes of a window.
pub take-window :
    (buf : List ℕ) (size h m n : ℕ) → m ≤ n → take m (window buf size h n) ≡ window buf size h m
take-window buf size h zero n le = refl
take-window buf size h (suc m) zero le = absurd (omega arith)
take-window buf size h (suc m) (suc n) le =
    ap (◌∷◌ (get_or buf h 0)) (take-window buf size ((h + 1) % size) m n (omega arith))

pub drop-window :
    (buf : List ℕ) (size h m n : ℕ)
    → h < size
    → m ≤ n
    → drop m (window buf size h n) ≡ window buf size ((h + m) % size) (n - m)
drop-window buf size h zero n lt le =
    let e : h + 0 ≡ h = omega arith in let f : n - 0 ≡ n = omega arith in rw (e, f, mod-eq_of_lt lt)
drop-window buf size h (suc m) zero lt le = absurd (omega arith)
drop-window buf size h (suc m) (suc n) lt le =
    let f : suc n - suc m ≡ n - m = omega arith in
    rw (f, ← step_on h m size)
      (drop-window buf size ((h + 1) % size) m n (omega arith) (omega arith))

get_or-set_same : (l : List ℕ) (i x : ℕ) → i < length l → get_or (set l i x) i 0 ≡ x
get_or-set_same [] i x h = absurd (omega arith)
get_or-set_same (y ∷ l) zero x h = refl
get_or-set_same (y ∷ l) (suc i) x h = get_or-set_same l i x (omega arith)

get_or-set_other : (l : List ℕ) (i j x : ℕ) → j ≢ i → get_or (set l i x) j 0 ≡ get_or l j 0
get_or-set_other [] i j x h = refl
get_or-set_other (y ∷ l) zero zero x h = absurd (h refl)
get_or-set_other (y ∷ l) zero (suc j) x h = refl
get_or-set_other (y ∷ l) (suc i) zero x h = refl
get_or-set_other (y ∷ l) (suc i) (suc j) x h = get_or-set_other l i j x (λ e. h (ap suc e))

-- A write at the index behind a window leaves the window alone.
window-set :
    (buf : List ℕ) (size h n i x : ℕ)
    → h < size
    → n < size
    → i ≡ (h + n) % size
    → window (set buf i x) size h n ≡ window buf size h n
window-set buf size h zero i x lt small e = refl
window-set buf size h (suc n) i x lt small e = ap₂ ◌∷◌ (get_or-set_other buf i h x away) (
    window-set buf size ((h + 1) % size) n i x (omega arith) (omega arith)
      (e ∙ sym (step_on h n size)))
  where
    away : h ≢ i
    away = omega (arith, mod_cases (h + suc n) size)

-- One round of `Enqueue` appends its byte.
pub contents-put :
    {r : RingBuffer} (x : ℕ)
    → IsValid r
    → is_full r ≡ false
    → contents (put r x) ≡ contents r ++ (x ∷ [])
unfolding put
contents-put {r} x v h =
    rw (in_use-put x v h, window-add _ r.size r.front (get_size_in_use r) 1 v.front_in)
      (ap₂ ◌++◌
        (window-set r.buf r.size r.front (get_size_in_use r) r.rear x v.front_in (in_use-lt-size v)
          (sym (rear_of_in_use v)))
        (rw
          (rear_of_in_use v, get_or-set_same r.buf r.rear x (omega (arith, v.rear_in, v.storage)))))

-- `MoveFront` drops bytes from the front.
pub contents-move_front :
    {r : RingBuffer} (n : ℕ)
    → IsValid r
    → n ≤ get_size_in_use r
    → contents (move_front r n) ≡ drop n (contents r)
contents-move_front {r} n v h =
    rw
      (in_use-move_front n v h, drop-window r.buf r.size r.front n (get_size_in_use r) v.front_in h)
      (unfold move_front in refl)
