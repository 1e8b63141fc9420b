-- ===== src/Dispatch/Complete.antt =====
-- `CompleteProcess` for a user of the pool, as the packet thread calls it.
use iocp_chatting.Packet.{PacketInfo}
use iocp_chatting.User
use iocp_chatting.User.{User, login_state}
use iocp_chatting.Users
use iocp_chatting.Users.{user_at}
use iocp_chatting.PacketManager.{State}
use iocp_chatting.Dispatch.{complete}
use iocp_chatting.Prelude.{ℕ, ◌≡◌, some, [], ◌∷◌, ◌++◌, arith, set, to_int32, if◌then◌else◌, false}

-- The user behind its own `CompleteProcess`, and the state behind the thread's.
abbrev pub taken : PacketInfo → User → User
taken pkt u = (User.complete_process pkt.size u).1

abbrev pub completed : PacketInfo → ℕ → User → State → State
completed pkt p u s =
    let s' : State = record s {
      users = record (s.users) { user_obj_pool = set s.users.user_obj_pool p (taken pkt u) };
    } in
    if (User.complete_process pkt.size u).0 then s' else record s' {
      incoming_packet_user_index_queue =
          s.incoming_packet_user_index_queue ++ (to_int32 pkt.session_index ∷ []);
    }

pub taken-domain_state : (pkt : PacketInfo) (u : User) → (taken pkt u).domain_state ≡ u.domain_state
unfolding User.complete_process
taken-domain_state pkt u = ground arith

pub taken-user_id : (pkt : PacketInfo) (u : User) → (taken pkt u).user_id ≡ u.user_id
unfolding User.complete_process
taken-user_id pkt u = ground arith

pub complete_lem :
    (pkt : PacketInfo) (s : State) (p : ℕ) (u : User)
    → Users.get_user_by_index s.users (to_int32 pkt.session_index) ≡ some p
    → user_at s.users p ≡ some u
    → complete pkt s ≡ some (completed pkt p u s)
unfolding complete Users.complete_process
complete_lem pkt s p u ei eu = rw (ei, eu)

pub completed-users :
    (pkt : PacketInfo) (p : ℕ) (u : User) (s : State)
    → (completed pkt p u s).users
      ≡ record (s.users) { user_obj_pool = set s.users.user_obj_pool p (taken pkt u) }
completed-users pkt p u s = ground arith

-- With bytes left, the user's index is queued again.
pub completed-queued :
    (pkt : PacketInfo) (p : ℕ) (u : User) (s : State)
    → (User.complete_process pkt.size u).0 ≡ false
    → (completed pkt p u s).incoming_packet_user_index_queue
      ≡ s.incoming_packet_user_index_queue ++ (to_int32 pkt.session_index ∷ [])
completed-queued pkt p u s left = ground (arith, left)

pub completed-redis :
    (pkt : PacketInfo) (p : ℕ) (u : User) (s : State) → (completed pkt p u s).redis ≡ s.redis
completed-redis pkt p u s = ground arith
