-- ===== src/Dispatch/Forged.antt =====
-- The handler of Redis answers is bound in the same table as the handlers of clients' packets.
use iocp_chatting.Bytes.{u16_of}
use iocp_chatting.Packet.{PacketInfo}
use iocp_chatting.Ring
use iocp_chatting.Ring.{RingBuffer}
use iocp_chatting.Ring.Contents.{contents}
use iocp_chatting.User
use iocp_chatting.User.{User, login_state}
use iocp_chatting.User.Framing.{packet_of}
use iocp_chatting.Users
use iocp_chatting.Users.{user_at}
use iocp_chatting.Redis
use iocp_chatting.Redis.{task_id_code, response_login}
use iocp_chatting.Config.{max_user_cnt}
use iocp_chatting.Room.Broadcast.{to_u32-slot}
use iocp_chatting.PacketManager.{State, login_db_res_handler}
use iocp_chatting.PacketManager.Login.{login_db_res_ok, confirmed, get_user-resize}
use iocp_chatting.Dispatch.{
  packet_handler, call_handler, dequeue_packet, process_packet, process_if, user_packet_round,
  complete, login_db_res,
}
use iocp_chatting.Dispatch.Complete.{
  taken, completed, complete_lem, completed-users, completed-redis, taken-domain_state,
  taken-user_id,
}
use iocp_chatting.Dispatch.Stuck.{Holds, get_packet-Holds}
use iocp_chatting.Prelude.{
  get_elem?-lt, ℕ, ◌<◌, ◌≡◌, refl, ap, ◌∙◌, true, some, List, ◌∷◌, arith, length-set,
  get_elem?-set_self, ℤ, pos, to_int32,
}

module _ (past_end : List ℕ → List ℕ) (s : State) (queue : List ℤ) (p : ℕ) (u : User)
    (own : p < max_user_cnt) (eq : s.incoming_packet_user_index_queue ≡ pos p ∷ queue)
    (ei : Users.get_user_by_index s.users (pos p) ≡ some p) (eu : user_at s.users p ≡ some u)
    (index : u.session_idx ≡ pos p) (h : Holds u (task_id_code response_login) 0)
    (ok : Redis.read_login_res (Ring.get_front_buffer_ptr u.packet_buf) ≡ some 0) where
  abbrev pkt : PacketInfo
  pkt = packet_of u (contents u.packet_buf)

  abbrev popped : State
  popped = record s { incoming_packet_user_index_queue = queue }

  abbrev confirmed_user : User
  confirmed_user = User.set_confirmed true (User.set_login u.user_id u)

  of_slot : to_int32 pkt.session_index ≡ pos p
  of_slot = rw (index, to_u32-slot p own) (ground (arith, own))

  handled :
      login_db_res_handler pkt.session_index pkt.bytes popped
      ≡ some (confirmed pkt.session_index p u popped)
  handled = login_db_res_ok pkt.session_index pkt.bytes popped p u (rw of_slot ei) eu ok

  finished :
      complete pkt (confirmed pkt.session_index p u popped)
      ≡ some (completed pkt p confirmed_user (confirmed pkt.session_index p u popped))
  finished =
      complete_lem pkt (confirmed pkt.session_index p u popped) p confirmed_user
        (get_user-resize s.users (confirmed pkt.session_index p u popped).users
          (to_int32 pkt.session_index) (length-set s.users.user_obj_pool p _) (rw of_slot ei))
        (get_elem?-set_self s.users.user_obj_pool p _ (get_elem?-lt s.users.user_obj_pool p eu))

  round :
      user_packet_round past_end s
      ≡ some (completed pkt p confirmed_user (confirmed pkt.session_index p u popped))
  unfolding user_packet_round dequeue_packet process_if process_packet call_handler
  round =
      let handler : packet_handler (u16_of (contents u.packet_buf) 2) ≡ some login_db_res =
        ap packet_handler h.id_field ∙ (unfold packet_handler in refl) in
      rw (eq, ei, eu, get_packet-Holds u _ 0 h, handler, handled, finished)

  -- A packet that a client sends itself, with the identifier 1002 of Redis' login answers and a size
  -- field of 0, logs the user in under whatever identifier it last asked for, although no password
  -- was checked: the packet thread's round calls the handler of Redis' answers, which reads the size
  -- field as the result. The queues of the Redis thread do not change.
  pub forged_login :
      (t : State) × (w : User) × (user_packet_round past_end s ≡ some t)
      × (user_at t.users p ≡ some w)
      × (w.domain_state ≡ login_state)
      × (w.user_id ≡ u.user_id)
      × (t.redis ≡ s.redis)
  unfolding User.set_login User.set_confirmed
  forged_login =
      let t0 = confirmed pkt.session_index p u popped in
      (
        completed pkt p confirmed_user t0,
        taken pkt confirmed_user,
        round,
        ap (λ m. user_at m p) (completed-users pkt p confirmed_user t0)
            ∙ get_elem?-set_self t0.users.user_obj_pool p _
                (rw (length-set s.users.user_obj_pool p) (get_elem?-lt s.users.user_obj_pool p eu)),
        taken-domain_state pkt confirmed_user,
        taken-user_id pkt confirmed_user,
        completed-redis pkt p confirmed_user t0,
      )
