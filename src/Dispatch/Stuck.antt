-- ===== src/Dispatch/Stuck.antt =====
-- Packets that the packet thread never gets past.
use iocp_chatting.Bytes.{u16_of}
use iocp_chatting.Packet.{packet_header_length}
use iocp_chatting.Ring.Inv.{IsValid}
use iocp_chatting.Ring.Contents.{contents}
use iocp_chatting.User.{User, get_packet_data}
use iocp_chatting.User.Framing.{get_packet_data_lem, packet_of}
use iocp_chatting.Users
use iocp_chatting.Users.{user_at}
use iocp_chatting.PacketManager.{State}
use iocp_chatting.Dispatch.{
  packet_handler, dequeue_packet, process_packet, process_if, user_packet_round,
}
use iocp_chatting.Prelude.{ℕ, ◌≤◌, ◌≡◌, ap, ◌∙◌, none, some, List, ◌∷◌, arith, length, ℤ}

-- A whole packet at the front of a user's ring.
pub record Holds (u : User) (id size : ℕ) : Type 0 where
  pub ring : IsValid u.packet_buf
  pub header : packet_header_length ≤ length (contents u.packet_buf)
  pub whole : size ≤ length (contents u.packet_buf)
  pub id_field : u16_of (contents u.packet_buf) 2 ≡ id
  pub size_field : u16_of (contents u.packet_buf) 0 ≡ size

pub get_packet-Holds :
    (u : User) (id size : ℕ)
    → Holds u id size
    → get_packet_data u ≡ some (packet_of u (contents u.packet_buf))
get_packet-Holds u id size h =
    get_packet_data_lem u h.ring ∙ ground (arith, h.header, h.whole, h.size_field)

-- A whole packet with an identifier that no handler is bound to is not taken off the user's ring: the
-- round of the packet thread takes the user's index off the queue and changes nothing else. So every
-- later packet of the user finds the same packet in front of it.
pub unknown_packet_stays :
    (past_end : List ℕ → List ℕ) (s : State) (i : ℤ) (queue : List ℤ) (p : ℕ) (u : User)
    (id size : ℕ)
    → s.incoming_packet_user_index_queue ≡ i ∷ queue
    → Users.get_user_by_index s.users i ≡ some p
    → user_at s.users p ≡ some u
    → Holds u id size
    → packet_handler id ≡ none
    → user_packet_round past_end s ≡ some (record s { incoming_packet_user_index_queue = queue })
unfolding user_packet_round dequeue_packet process_if process_packet
unknown_packet_stays past_end s i queue p u id size eq ei eu h unbound =
    let handler : packet_handler (u16_of (contents u.packet_buf) 2) ≡ none =
      ap packet_handler h.id_field ∙ unbound in
    rw (eq, ei, eu, get_packet-Holds u id size h, handler)
