-- ===== src/User/Quiet.antt =====
-- Which methods leave the packet at the front of a user's ring alone.
use iocp_chatting.Packet.{packet_header_length}
use iocp_chatting.Ring.Dequeue.{peek-clear_buffer, peek-init}
use iocp_chatting.User
use iocp_chatting.User.{User, DomainState, get_packet_data}
use iocp_chatting.Prelude.{ℕ, ◌≡◌, ◌⊎◌, inl, inr, refl, Bool, List, none, ℤ, arith}

-- A user has no packet, or the packet that it had before.
abbrev pub Quiet : User → User → Type 0
Quiet u w = (get_packet_data w ≡ none) ⊎ (get_packet_data w ≡ get_packet_data u)

pub Quiet-trans : (u v w : User) → Quiet u v → Quiet v w → Quiet u w
Quiet-trans u v w h k = ground arith

pub set_login-Quiet : (id : List ℕ) (u : User) → Quiet u (User.set_login id u)
unfolding get_packet_data User.set_login
set_login-Quiet id u = inr refl

pub set_user_id-Quiet : (id : List ℕ) (u : User) → Quiet u (User.set_user_id id u)
unfolding get_packet_data User.set_user_id
set_user_id-Quiet id u = inr refl

pub set_confirmed-Quiet : (b : Bool) (u : User) → Quiet u (User.set_confirmed b u)
unfolding get_packet_data User.set_confirmed
set_confirmed-Quiet b u = inr refl

pub set_domain_state-Quiet : (d : DomainState) (u : User) → Quiet u (User.set_domain_state d u)
unfolding get_packet_data User.set_domain_state
set_domain_state-Quiet d u = inr refl

pub enter_room-Quiet : (i : ℤ) (u : User) → Quiet u (User.enter_room i u)
unfolding get_packet_data User.enter_room
enter_room-Quiet i u = inr refl

pub clear-Quiet : (u : User) → Quiet u (User.clear u)
unfolding get_packet_data User.clear
clear-Quiet u = inl (rw (peek-clear_buffer u.packet_buf packet_header_length))

-- Nor does a new user have a packet.
pub new_user-idle :
    (i : ℤ) (raw : List ℕ) → get_packet_data (User.init i (User.new_user raw)) ≡ none
unfolding get_packet_data User.init User.new_user
new_user-idle i raw = rw (peek-init raw packet_header_length)
