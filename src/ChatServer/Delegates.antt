-- ===== src/ChatServer/Delegates.antt =====
-- What the network's calls come to in the chat logic.
use iocp_chatting.Config.{max_user_cnt}
use iocp_chatting.Bytes.{to_u32}
use iocp_chatting.User
use iocp_chatting.User.{User, none_state, login_state}
use iocp_chatting.Users
use iocp_chatting.Users.{user_at, update_user}
use iocp_chatting.Room.Broadcast.{to_u32-slot}
use iocp_chatting.PacketManager.{State, connect_handler, disconnect_handler, forget}
use iocp_chatting.PacketManager.Sound.{IsSound}
use iocp_chatting.Dispatch.{
  enqueue_packet, enqueue_system_packet, dequeue_system_packet, system_packet_round, process_if,
  process_packet, call_handler, packet_handler,
}
use iocp_chatting.Dispatch.Reach.{enqueue_packet-IsSound}
use iocp_chatting.Network.{Event, connected, received, disconnected}
use iocp_chatting.ChatServer.{on_connect, on_recv, on_disconnect, delegate, deliver}
use iocp_chatting.Prelude.{
  ℕ, ◌%◌, ◌^◌, ◌<◌, ◌≡◌, some, List, [], ◌∷◌, arith, pos, set, to_int32, Ensures, Ensures->>=,
}

pub delegate-IsSound : (e : Event) (s : State) → IsSound s → Ensures IsSound (delegate e s)
unfolding delegate on_connect on_recv on_disconnect enqueue_system_packet
delegate-IsSound (connected i) s v = record { pool = v.pool; rooms = v.rooms }
delegate-IsSound (received i bytes) s v =
    Ensures->>= (λ r. IsSound r.1) IsSound (enqueue_packet i bytes s) _
      (enqueue_packet-IsSound i bytes s v) λ r vr. vr
delegate-IsSound (disconnected i) s v = record { pool = v.pool; rooms = v.rooms }

-- Whatever calls the network makes, in whatever order, they leave the pool and the rooms well-formed.
pub deliver-IsSound : (es : List Event) (s : State) → IsSound s → Ensures IsSound (deliver es s)
unfolding deliver
deliver-IsSound [] s v = v
deliver-IsSound (e ∷ es) s v =
    Ensures->>= IsSound IsSound (delegate e s) _ (delegate-IsSound e s v)
      λ s' v'. deliver-IsSound es s' v'

-- The index in a system packet is the session's own.
pub own_index : (p : ℕ) → p < max_user_cnt → to_int32 (to_u32 (pos p) % 2 ^ 16) ≡ pos p
own_index p h = rw (to_u32-slot p h) (ground (arith, h))

-- A connection that the network reports makes the packet thread, in its next round over an empty queue
-- of system packets, clear the user of the session's slot and change nothing else, for every session
-- index that is one of the pool.
pub connect-clears :
    (past_end : List ℕ → List ℕ) (p : ℕ) (s : State) (u : User)
    → p < max_user_cnt
    → s.system_packet_queue ≡ []
    → Users.get_user_by_index s.users (pos p) ≡ some p
    → user_at s.users p ≡ some u
    → system_packet_round past_end (on_connect (pos p) s)
      ≡ some (record s {
        users = record (s.users) { user_obj_pool = set s.users.user_obj_pool p (User.clear u) };
      })
unfolding system_packet_round on_connect enqueue_system_packet dequeue_system_packet process_if
    process_packet call_handler connect_handler update_user packet_handler
connect-clears past_end p s u h eq ei eu = rw (eq, own_index p h, ei, eu)

-- A disconnection of a user that is in no room makes the packet thread, in its next round over an empty
-- queue of system packets, erase the user's identifier from the map and change nothing else: the user
-- keeps its state, and stays logged in until a connection clears it.
pub disconnect-keeps_user :
    (past_end : List ℕ → List ℕ) (p : ℕ) (s : State) (u : User)
    → p < max_user_cnt
    → s.system_packet_queue ≡ []
    → Users.get_user_by_index s.users (pos p) ≡ some p
    → user_at s.users p ≡ some u
    → u.domain_state ≡ login_state
    → system_packet_round past_end (on_disconnect (pos p) s)
      ≡ some (record s { users = Users.delete_user_info u.user_id s.users })
unfolding system_packet_round on_disconnect enqueue_system_packet dequeue_system_packet process_if
    process_packet call_handler disconnect_handler forget packet_handler
disconnect-keeps_user past_end p s u h eq ei eu logged = rw (eq, own_index p h, ei, eu, logged)
