-- ===== src/User/Framing.antt =====
-- How a user's ring is cut into packets: `GetPacketData`, `EnqueuePacketData`, `CompleteProcess`.
use iocp_chatting.Bytes.{u16_of, to_u32}
use iocp_chatting.Packet.{PacketInfo, packet_header_length}
use iocp_chatting.Ring
use iocp_chatting.Ring.{RingBuffer}
use iocp_chatting.Ring.Inv.{move_front-IsValid, IsValid}
use iocp_chatting.Ring.Contents.{contents, contents-move_front, length-contents}
use iocp_chatting.Ring.Spans.{front_ptr-contents}
use iocp_chatting.Ring.Dequeue.{peek_copies}
use iocp_chatting.Ring.Enqueue.{enqueue_appends, enqueue_result}
use iocp_chatting.User.{User, get_packet_data, enqueue_packet_data, complete_process}
use iocp_chatting.Prelude.{
  true, ℕ, zero, suc, ◌+◌, ◌≤◌, ◌<◌, ◌≡◌, refl, sym, ◌-◌, ap, ◌∙◌, false, ◌&&◌, none, some, List,
  [], ◌∷◌, ◌++◌, arith, leb, ◌==◌, if◌then◌else◌, length, take, drop, get_or, length-append,
}

get_or-take : (n i : ℕ) (l : List ℕ) → i < n → get_or (take n l) i 0 ≡ get_or l i 0
get_or-take zero i l h = absurd (omega arith)
get_or-take (suc n) i [] h = refl
get_or-take (suc n) zero (x ∷ l) h = refl
get_or-take (suc n) (suc i) (x ∷ l) h = get_or-take n i l (omega arith)

pub get_or-append : (i : ℕ) (l m : List ℕ) → i < length l → get_or (l ++ m) i 0 ≡ get_or l i 0
get_or-append i [] m h = absurd (omega arith)
get_or-append zero (x ∷ l) m h = refl
get_or-append (suc i) (x ∷ l) m h = get_or-append i l m (omega arith)

pub drop-append : (l m : List ℕ) → drop (length l) (l ++ m) ≡ m
drop-append [] m = refl
drop-append (x ∷ l) m = drop-append l m

pub take_all : (n : ℕ) (l : List ℕ) → length l ≤ n → take n l ≡ l
take_all zero [] h = refl
take_all zero (x ∷ l) h = absurd (omega arith)
take_all (suc n) [] h = refl
take_all (suc n) (x ∷ l) h = ap (◌∷◌ x) (take_all n l (omega arith))

-- The packet that a header in front of the bytes `c` describes.
abbrev pub packet_of : User → List ℕ → PacketInfo
packet_of u c = record {
  session_index = to_u32 u.session_idx;
  id = u16_of c 2;
  size = u16_of c 0;
  bytes = Ring.get_front_buffer_ptr u.packet_buf;
}

-- `GetPacketData` gives a packet exactly if the ring holds a whole header and at least as many bytes
-- as its size field says; the packet has the identifier and the size that the first bytes spell,
-- also where they go round the end of the storage.
pub get_packet_data_lem :
    (u : User)
    → IsValid u.packet_buf
    → let c = contents u.packet_buf in
      get_packet_data u ≡ (
        if leb packet_header_length (length c) && leb (u16_of c 0) (length c)
        then some (packet_of u c)
        else none)
unfolding get_packet_data
get_packet_data_lem u v = rw (peek_copies packet_header_length v) (
    ground (
      arith,
      length-contents u.packet_buf,
      get_or-take 5 0 (contents u.packet_buf),
      get_or-take 5 1 (contents u.packet_buf),
      get_or-take 5 2 (contents u.packet_buf),
      get_or-take 5 3 (contents u.packet_buf),
    ))

packet_buf_complete :
    (size : ℕ) (u : User)
    → (complete_process size u).1.packet_buf ≡ Ring.move_front u.packet_buf size
unfolding complete_process
packet_buf_complete size u = ground arith

complete_process-done :
    (size : ℕ) (u : User)
    → (complete_process size u).0 ≡ (length (contents (Ring.move_front u.packet_buf size)) == 0)
unfolding complete_process
complete_process-done size u = ground (arith, length-contents (Ring.move_front u.packet_buf size))

-- `CompleteProcess` takes `size` bytes off the front of a ring that holds so many, and says whether
-- the ring is empty then.
pub complete_process_takes :
    (size : ℕ) (u : User)
    → IsValid u.packet_buf
    → size ≤ length (contents u.packet_buf)
    → let (done, u') = complete_process size u in
      (contents u'.packet_buf ≡ drop size (contents u.packet_buf))
      × (done ≡ (length (contents u'.packet_buf) == 0))
complete_process_takes size u v le =
    rw (packet_buf_complete size u, complete_process-done size u)
      (contents-move_front size v (omega (arith, length-contents u.packet_buf)), refl)

packet_buf-enqueue :
    (src : List ℕ) (u : User)
    → (enqueue_packet_data src u).1.packet_buf ≡ (Ring.enqueue u.packet_buf src).1
unfolding enqueue_packet_data
packet_buf-enqueue src u = refl

-- A packet that is received whole into an empty ring, with any bytes behind it: `GetPacketData` gives
-- its identifier and its size, for the user's session. Its data pointer reads the packet, and then the
-- bytes behind it, up to the end of the storage: what goes round the end is not behind the pointer.
-- `CompleteProcess` takes exactly the packet off, and says whether nothing is left.
pub enqueue-get_packet_complete :
    (u : User) (pkt rest : List ℕ)
    → IsValid u.packet_buf
    → contents u.packet_buf ≡ []
    → packet_header_length ≤ length pkt
    → length pkt ≡ u16_of pkt 0
    → length (pkt ++ rest) ≤ Ring.get_free_size u.packet_buf
    → let u' = (enqueue_packet_data (pkt ++ rest) u).1 in
      let (done, u'') = complete_process (length pkt) u' in
      (got : PacketInfo) × (get_packet_data u' ≡ some got)
      × (got.session_index ≡ to_u32 u.session_idx)
      × (got.id ≡ u16_of pkt 2)
      × (got.size ≡ length pkt)
      × (take (length (pkt ++ rest)) got.bytes
          ≡ take (u'.packet_buf.size - u'.packet_buf.front) (pkt ++ rest))
      × (contents u''.packet_buf ≡ rest)
      × (done ≡ (length rest == 0))
unfolding enqueue_packet_data
enqueue-get_packet_complete u pkt rest v empty header whole fits = (
  packet_of u' pkt,
  ground (
    arith,
    get_packet_data_lem u' v',
    ap length held,
    length-append pkt rest,
    ap (λ c. packet_of u' c) held,
    get_or-append 0 pkt rest,
    get_or-append 1 pkt rest,
    get_or-append 2 pkt rest,
    get_or-append 3 pkt rest,
  ),
  refl,
  refl,
  sym whole,
  ap (λ c. take (length c) (Ring.get_front_buffer_ptr u'.packet_buf)) (sym held)
      ∙ front_ptr-contents v'
      ∙ ap (take (u'.packet_buf.size - u'.packet_buf.front)) held,
  left,
  (complete_process_takes (length pkt) u' v' enough).1 ∙ ap (λ c. length c == 0) left,
)
  where
    u' : User
    u' = (enqueue_packet_data (pkt ++ rest) u).1

    stored :
        IsValid (Ring.enqueue u.packet_buf (pkt ++ rest)).1
        × (contents (Ring.enqueue u.packet_buf (pkt ++ rest)).1
            ≡ contents u.packet_buf ++ take (Ring.get_free_size u.packet_buf) (pkt ++ rest))
    stored = enqueue_appends (pkt ++ rest) v

    v' : IsValid u'.packet_buf
    v' = rw (packet_buf-enqueue (pkt ++ rest) u) stored.0

    held : contents u'.packet_buf ≡ pkt ++ rest
    held = rw (packet_buf-enqueue (pkt ++ rest) u, stored.1, empty) (take_all _ (pkt ++ rest) fits)

    enough : length pkt ≤ length (contents u'.packet_buf)
    enough = omega (arith, ap length held, length-append pkt rest)

    left : contents (complete_process (length pkt) u').1.packet_buf ≡ rest
    left =
        (complete_process_takes (length pkt) u' v' enough).0
        ∙ ap (drop (length pkt)) held
        ∙ drop-append pkt rest

-- A write of bytes that all fit is reported as incomplete if it reaches the end of the storage.
enqueue_packet_data_misreports :
    (src : List ℕ) (u : User)
    → IsValid u.packet_buf
    → length src ≤ Ring.get_free_size u.packet_buf
    → u.packet_buf.size ≤ u.packet_buf.rear + length src
    → let (whole, u') = enqueue_packet_data src u in
      (whole ≡ false) × (contents u'.packet_buf ≡ contents u.packet_buf ++ src)
unfolding enqueue_packet_data
enqueue_packet_data_misreports src u v fits wraps = (
  ground (arith, enqueue_result src v),
  (enqueue_appends src v).1 ∙ ap (◌++◌ (contents u.packet_buf)) (take_all _ src fits),
)

-- If `CompleteProcess` reports that nothing is left, the user has no packet.
pub complete_process_empty :
    (size : ℕ) (u : User)
    → IsValid u.packet_buf
    → (complete_process size u).0 ≡ true
    → get_packet_data (complete_process size u).1 ≡ none
complete_process_empty size u v done =
    let buf = packet_buf_complete size u in
    get_packet_data_lem (complete_process size u).1 (rw buf (move_front-IsValid size v))
    ∙ ground (arith, ap (λ r. length (contents r)) buf, complete_process-done size u)

-- A packet carries the index of its user.
pub session_index-get_packet_data :
    (u : User) {pkt : PacketInfo}
    → get_packet_data u ≡ some pkt
    → pkt.session_index ≡ to_u32 u.session_idx
unfolding get_packet_data
session_index-get_packet_data u h = ground arith
