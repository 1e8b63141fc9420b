-- ===== src/User.antt =====
-- Content/user.h and user.cpp: one connected user, with the ring of bytes received and not yet
-- processed. A string is the list of its characters.
pub mod Framing
pub mod Quiet
use iocp_chatting.Packet.{PacketInfo, packet_header_length, read_header}
use iocp_chatting.Bytes.{to_u32}
use iocp_chatting.Ring
use iocp_chatting.Ring.{RingBuffer}
use iocp_chatting.Prelude.{
  ℕ, Bool, true, false, Option, none, some, List, [], ltb, leb, ◌==◌, if◌then◌else◌, length, ℤ, pos,
  negsuc,
}

pub data DomainState : Type 0 where
  none_state login_state room_state : DomainState

-- `==` on domain states.
abbrev pub state_eq : DomainState → DomainState → Bool
state_eq none_state none_state = true
state_eq login_state login_state = true
state_eq room_state room_state = true
state_eq _ _ = false

pub record User : Type 0 where
  pub session_idx : ℤ
  pub room_idx : ℤ
  pub user_id : List ℕ
  pub auth_token : List ℕ
  pub is_confirmed : Bool
  pub domain_state : DomainState
  pub packet_buf : RingBuffer

-- `new User()` over a storage of uninitialised bytes.
unfoldable pub new_user : List ℕ → User
new_user raw = record {
  session_idx = negsuc 0;
  room_idx = negsuc 0;
  user_id = [];
  auth_token = [];
  is_confirmed = false;
  domain_state = none_state;
  packet_buf = Ring.init raw;
}

unfoldable pub init : ℤ → User → User
init i u = record u { session_idx = i }

unfoldable pub clear : User → User
clear u = record u {
  room_idx = negsuc 0;
  user_id = [];
  is_confirmed = false;
  domain_state = none_state;
  packet_buf = Ring.clear_buffer u.packet_buf;
}

unfoldable pub set_login : List ℕ → User → User
set_login id u = record u { domain_state = login_state; user_id = id }

unfoldable pub set_user_id : List ℕ → User → User
set_user_id id u = record u { user_id = id }

unfoldable pub set_confirmed : Bool → User → User
set_confirmed b u = record u { is_confirmed = b }

unfoldable pub set_domain_state : DomainState → User → User
set_domain_state d u = record u { domain_state = d }

-- The result is true if nothing is left in the ring.
unfoldable pub complete_process : ℕ → User → Bool × User
complete_process pkt_size u =
    let buf = Ring.move_front u.packet_buf pkt_size in
    let u' : User = record u { packet_buf = buf } in
    if ltb 0 (Ring.get_size_in_use buf) then (false, u') else (true, u')

unfoldable pub enter_room : ℤ → User → User
enter_room room_idx u = record u { room_idx = room_idx; domain_state = room_state }

-- `User::LeaveRoom`, which nothing calls.
unfoldable pub leave_room : User → User
leave_room u = record u { room_idx = negsuc 0; domain_state = login_state }

-- The packet at the front of the ring, if its header and as many bytes as that states are there.
unfoldable pub get_packet_data : User → Option PacketInfo
get_packet_data u =
    let peeked = Ring.peek u.packet_buf packet_header_length in
    let header = read_header peeked.1 in
    if peeked.0 == packet_header_length
    then (if leb header.size (Ring.get_size_in_use u.packet_buf)
        then some (record {
          session_index = to_u32 u.session_idx;
          id = header.id;
          size = header.size;
          bytes = Ring.get_front_buffer_ptr u.packet_buf;
        })
        else none)
    else none

-- The result says whether `Enqueue` returned `len`.
unfoldable pub enqueue_packet_data : List ℕ → User → Bool × User
enqueue_packet_data src u =
    let (n, buf) = Ring.enqueue u.packet_buf src in
    (elim n [ pos k ↦ k == length src | negsuc k ↦ false ], record u { packet_buf = buf })
