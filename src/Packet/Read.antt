-- ===== src/Packet/Read.antt =====
-- What a client that lays the chat packet's struct (Content/packet.h) over the bytes reads.
use iocp_chatting.Config.{max_user_id_len, max_chat_msg_size}
use iocp_chatting.Bytes.{c_str, copy_c_str}
use iocp_chatting.Packet.{read_header, chat, room_chat_notify, set_packet_id_and_len}
use iocp_chatting.Packet.Wire.{to_bytes, body_bytes, char_array}
use iocp_chatting.Prelude.{
  ℕ, zero, suc, ◌+◌, ◌-◌, ◌<◌, ◌≤◌, ◌≡◌, refl, sym, ap, ◌∙◌, Bool, true, false, not, ◌&&◌, ◌==◌,
  some, List, [], ◌∷◌, ◌++◌, append_assoc, append-nil, length, take, drop, take_all, take-append,
  length-take, length-append, length-replicate, replicate, arith,
}

-- No byte is NUL.
abbrev pub is_text : List ℕ → Bool
is_text [] = true
is_text (x ∷ xs) = not (x == 0) && is_text xs

-- The text, and a NUL behind it.
abbrev Holds : List ℕ → List ℕ → Type 0
Holds text l = (rest : List ℕ) × (l ≡ text ++ (0 ∷ rest))

c_str-text : (text rest : List ℕ) → is_text text ≡ true → c_str (text ++ (0 ∷ rest)) ≡ some text
unfolding c_str
c_str-text [] rest h = refl
c_str-text (x ∷ xs) rest h =
    let rest_text : is_text xs ≡ true = ground (arith, h) in
    let other : (x == 0) ≡ false = ground (arith, h) in
    rw (other, c_str-text xs rest rest_text) refl

c_str-Holds : (text l : List ℕ) → is_text text ≡ true → Holds text l → c_str l ≡ some text
c_str-Holds text l h (rest, e) = ap c_str e ∙ c_str-text text rest h

take-Holds : (n : ℕ) (text l : List ℕ) → length text < n → Holds text l → Holds text (take n l)
take-Holds zero text l lt h = absurd (omega arith)
take-Holds (suc n) [] l lt (rest, e) = (take n rest, ap (take (suc n)) e)
take-Holds (suc n) (x ∷ xs) l lt (rest, e) =
    let (more, f) = take-Holds n xs (xs ++ (0 ∷ rest)) (omega arith) (rest, refl) in
    (more, ap (take (suc n)) e ∙ ap (λ k. x ∷ k) f)

append-Holds : (text l m : List ℕ) → Holds text l → Holds text (l ++ m)
append-Holds text l m (rest, e) = (rest ++ m, ap (λ k. k ++ m) e ∙ append_assoc text (0 ∷ rest) m)

char_array-Holds :
    (n : ℕ) (text l : List ℕ) → length text < n → Holds text l → Holds text (char_array n l)
char_array-Holds n text l lt h = take-Holds n text (l ++ replicate n 0) lt (append-Holds text l _ h)

length-char_array : (n : ℕ) (l : List ℕ) → length (char_array n l) ≡ n
length-char_array n l = omega (
  arith,
  length-take n (l ++ replicate n 0),
  length-append l (replicate n 0),
  length-replicate {A = ℕ} n 0,
)

drop-append : (xs ys : List ℕ) → drop (length xs) (xs ++ ys) ≡ ys
drop-append [] ys = refl
drop-append (x ∷ xs) ys = drop-append xs ys

-- The two arrays of a struct of their size are all of it.
two_arrays :
    (n a b : ℕ) (l m stale : List ℕ)
    → n ≡ a + b
    → take n ((char_array a l ++ char_array b m) ++ stale) ≡ char_array a l ++ char_array b m
two_arrays n a b l m stale e =
    let all : length (char_array a l ++ char_array b m) ≡ n = omega (
      arith,
      length-append (char_array a l) (char_array b m),
      length-char_array a l,
      length-char_array b m,
      e,
    ) in
    let whole = char_array a l ++ char_array b m in
    let kept : take n whole ≡ whole = take_all n whole (omega (arith, all)) in
    let none_left : n - length whole ≡ 0 = omega (arith, all) in
    take-append n whole stale
    ∙ ap (λ k. k ++ take (n - length k) stale) kept
    ∙ ap (λ k. whole ++ take k stale) none_left
    ∙ append-nil whole

second_array : (a b : ℕ) (l m : List ℕ) → drop a (char_array a l ++ char_array b m) ≡ char_array b m
second_array a b l m =
    ap (λ k. drop k (char_array a l ++ char_array b m)) (sym (length-char_array a l))
    ∙ drop-append (char_array a l) (char_array b m)

-- The notification of a chat message, made from a user's identifier and the message field of the
-- request: its bytes are 295, its header says so, and who lays the packet's struct over them reads the
-- identifier in its first array and the text in its second, if both are terminated within their
-- arrays. What the uninitialised memory held does not matter.
pub to_bytes-chat :
    (past_end : List ℕ → List ℕ) (type : ℕ) (stale id text tail : List ℕ)
    → is_text id ≡ true
    → is_text text ≡ true
    → length id ≤ 32
    → length text ≤ 256
    → let b = to_bytes type stale (
        set_packet_id_and_len room_chat_notify (
          chat
            (copy_c_str past_end (max_user_id_len + 1) id)
            (take (max_chat_msg_size + 1) (text ++ (0 ∷ tail))))) in
      (length b ≡ 295)
      × (read_header b ≡ record { size = 295; id = 223 })
      × (c_str (take 33 (drop 5 b)) ≡ some id)
      × (c_str (drop 38 b) ≡ some text)
unfolding to_bytes body_bytes copy_c_str
to_bytes-chat past_end type stale id text tail h k short_id short_text =
    let l = take 33 (id ++ (0 ∷ past_end id)) in
    let m = take 257 (text ++ (0 ∷ tail)) in
    let l_holds = take-Holds 33 id (id ++ (0 ∷ past_end id)) (omega arith) (past_end id, refl) in
    let m_holds = take-Holds 257 text (text ++ (0 ∷ tail)) (omega arith) (tail, refl) in
    let body : take 290 ((char_array 33 l ++ char_array 257 m) ++ stale)
        ≡ char_array 33 l ++ char_array 257 m =
      two_arrays 290 33 257 l m stale refl in
    (
      ap (λ xs. length (0 ∷ 0 ∷ 0 ∷ 0 ∷ 0 ∷ xs)) body
          ∙ omega (
            arith,
            length-append (char_array 33 l) (char_array 257 m),
            length-char_array 33 l,
            length-char_array 257 m,
          ),
      refl,
      ap (λ xs. c_str (take 33 xs)) body
          ∙ c_str-Holds id _ h (
              take-Holds 33 id _ (omega arith) (
                append-Holds id (char_array 33 l) (char_array 257 m)
                  (char_array-Holds 33 id l (omega arith) l_holds))),
      ap (λ xs. c_str (drop 33 xs)) body
          ∙ ap c_str (second_array 33 257 l m)
          ∙ c_str-Holds text _ k (char_array-Holds 257 text m (omega arith) m_holds),
    )
