-- ===== src/Dispatch/Overread.antt =====
-- Packets that go round the end of a user's ring.
use iocp_chatting.Bytes.{u16_of, read_bytes}
use iocp_chatting.Packet.{
  login_request, packet_id_code, login_request_packet_size, read_login_request,
}
use iocp_chatting.Ring
use iocp_chatting.Ring.{RingBuffer}
use iocp_chatting.Ring.Inv.{IsValid}
use iocp_chatting.Ring.Contents.{contents}
use iocp_chatting.User.{User}
use iocp_chatting.Users
use iocp_chatting.Users.{user_at}
use iocp_chatting.PacketManager.{State, login_handler}
use iocp_chatting.Dispatch.{
  login, packet_handler, call_handler, dequeue_packet, process_packet, process_if,
  user_packet_round,
}
use iocp_chatting.Dispatch.Stuck.{Holds, get_packet-Holds}
use native.Mathlib.Nat.{mod-eq_of_lt}
use iocp_chatting.Prelude.{
  ℕ, ◌+◌, ◌-◌, ◌<◌, ◌≡◌, refl, ap, ◌∙◌, none, some, List, ◌∷◌, arith, length, length-drop, ℤ,
}

read_bytes_short : (n : ℕ) (b : List ℕ) → length b < n → read_bytes n b ≡ none
unfolding read_bytes
read_bytes_short n b h = ground (arith, h)

-- From the front pointer on, the allocation has the bytes up to the end of the storage.
front_pointer-length :
    (r : RingBuffer) → IsValid r → length (Ring.get_front_buffer_ptr r) ≡ r.size - r.front
unfolding Ring.get_front_buffer_ptr
front_pointer-length r v = rw (mod-eq_of_lt v.front_in, length-drop r.front r.buf, v.storage)

read_login_short : (b : List ℕ) → length b < login_request_packet_size → read_login_request b ≡ none
unfolding read_login_request
read_login_short b h = rw (read_bytes_short login_request_packet_size b h)

-- A whole packet with the identifier of a login request, so near the end of the ring's storage that
-- the struct of a login request does not fit in front of it, makes the round of the packet thread read
-- past the allocation: the handler is given a pointer to the first byte, and the rest of the packet
-- stands at the start of the storage.
pub wrapped_login_overread :
    (past_end : List ℕ → List ℕ) (s : State) (i : ℤ) (queue : List ℤ) (p : ℕ) (u : User) (size : ℕ)
    → s.incoming_packet_user_index_queue ≡ i ∷ queue
    → Users.get_user_by_index s.users i ≡ some p
    → user_at s.users p ≡ some u
    → Holds u (packet_id_code login_request) size
    → u.packet_buf.size < u.packet_buf.front + login_request_packet_size
    → user_packet_round past_end s ≡ none
unfolding user_packet_round dequeue_packet process_if process_packet call_handler login_handler
wrapped_login_overread past_end s i queue p u size eq ei eu h near =
    let handler : packet_handler (u16_of (contents u.packet_buf) 2) ≡ some login =
      ap packet_handler h.id_field ∙ (unfold packet_handler in refl) in
    let short : length (Ring.get_front_buffer_ptr u.packet_buf) < login_request_packet_size =
      omega (arith, front_pointer-length u.packet_buf h.ring, h.ring.front_in) in
    rw (eq, ei, eu, get_packet-Holds u _ size h, handler, read_login_short _ short)
