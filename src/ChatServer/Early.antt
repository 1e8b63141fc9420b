-- ===== src/ChatServer/Early.antt =====
-- Bytes that the packet thread comes to before the notice of their connection: `OnConnect` and `OnRecv`
-- (Content/chat_server.cpp) fill two queues, and `PacketProcessThread` (Content/packet_manager.cpp)
-- reads the users' queue first.
use iocp_chatting.Config.{max_user_cnt}
use iocp_chatting.Bytes.{bytes_eq, c_str, u16_of}
use iocp_chatting.Packet.{
  PacketInfo, LoginRequestPacket, packet_id_code, login_request, sys_user_connect,
  read_login_request,
}
use iocp_chatting.Ring
use iocp_chatting.Ring.Contents.{contents}
use iocp_chatting.User
use iocp_chatting.User.{User, none_state, login_state}
use iocp_chatting.User.Framing.{packet_of}
use iocp_chatting.Users
use iocp_chatting.Users.{user_at, update_user, find}
use iocp_chatting.Users.Login.{find-insert}
use iocp_chatting.Room.Broadcast.{to_u32-slot}
use iocp_chatting.Redis
use iocp_chatting.PacketManager.{State, connect_handler, login_handler, login_db_res_handler}
use iocp_chatting.PacketManager.Login.{
  asked, confirmed, login_never_full, login_of_free, login_db_res_ok, get_user-resize,
}
use iocp_chatting.PacketManager.Sound.{IsSound}
use iocp_chatting.Dispatch.{
  packet_handler, call_handler, dequeue_packet, dequeue_system_packet, get_task_res, complete,
  process_packet, process_if, user_packet_round, system_packet_round, redis_round, process_round,
  login,
}
use iocp_chatting.Dispatch.Complete.{taken, completed, complete_lem, completed-users}
use iocp_chatting.Dispatch.Stuck.{Holds, get_packet-Holds}
use iocp_chatting.ChatServer.{system_packet}
use iocp_chatting.ChatServer.Delegates.{own_index}
use iocp_chatting.Prelude.{
  ℕ, ◌<◌, ◌≡◌, refl, ap, ◌∙◌, true, none, some, List, [], ◌∷◌, ◌++◌, length, length-set, set,
  get_elem?-lt, get_elem?-set_self, ℤ, pos, to_int32, arith,
}

-- A notice of a connection that is first in its queue.
connect_round :
    (past_end : List ℕ → List ℕ) (p : ℕ) (s : State) (u : User) (notices : List PacketInfo)
    → p < max_user_cnt
    → s.system_packet_queue ≡ system_packet sys_user_connect (pos p) ∷ notices
    → Users.get_user_by_index s.users (pos p) ≡ some p
    → user_at s.users p ≡ some u
    → system_packet_round past_end s
      ≡ some (record s {
        system_packet_queue = notices;
        users = record (s.users) { user_obj_pool = set s.users.user_obj_pool p (User.clear u) };
      })
unfolding system_packet_round dequeue_system_packet process_if process_packet call_handler
    connect_handler update_user packet_handler
connect_round past_end p s u notices own eq ei eu = rw (eq, own_index p own, ei, eu)

no_answer_round :
    (past_end : List ℕ → List ℕ) (s : State)
    → s.redis.task_res_queue ≡ []
    → redis_round past_end s ≡ some s
unfolding redis_round get_task_res process_if Redis.get_task_res
no_answer_round past_end s e = rw e refl

completed-queues :
    (pkt : PacketInfo) (p : ℕ) (u : User) (s : State)
    → ((completed pkt p u s).system_packet_queue ≡ s.system_packet_queue)
      × ((completed pkt p u s).redis ≡ s.redis)
completed-queues pkt p u s = (ground arith, ground arith)

module _ (past_end : List ℕ → List ℕ) (s : State) (queue : List ℤ) (notices : List PacketInfo)
    (p size : ℕ) (u : User) (request : LoginRequestPacket) (id ans : List ℕ)
    (own : p < max_user_cnt) (v : IsSound s)
    (eq : s.incoming_packet_user_index_queue ≡ pos p ∷ queue)
    (en : s.system_packet_queue ≡ system_packet sys_user_connect (pos p) ∷ notices)
    (ea : s.redis.task_res_queue ≡ []) (ei : Users.get_user_by_index s.users (pos p) ≡ some p)
    (eu : user_at s.users p ≡ some u) (index : u.session_idx ≡ pos p)
    (h : Holds u (packet_id_code login_request) size)
    (er : read_login_request (Ring.get_front_buffer_ptr u.packet_buf) ≡ some request)
    (ec : c_str (request.user_id ++ request.user_pw) ≡ some id)
    (ef : find id s.users.user_id_map ≡ none) (free : find [] s.users.user_id_map ≡ none)
    (ok : Redis.read_login_res ans ≡ some 0) where
  abbrev pkt : PacketInfo
  pkt = packet_of u (contents u.packet_buf)

  abbrev popped : State
  popped = record s { incoming_packet_user_index_queue = queue }

  abbrev renamed : User
  renamed = User.set_user_id id u

  abbrev asking : State
  asking = asked p request id p u popped

  abbrev behind : State
  behind = completed pkt p renamed asking

  abbrev forgotten : User
  forgotten = User.clear (taken pkt renamed)

  abbrev cleared : State
  cleared = record behind {
    system_packet_queue = notices;
    users = record (behind.users) { user_obj_pool = set behind.users.user_obj_pool p forgotten };
  }

  from_slot : pkt.session_index ≡ p
  from_slot = rw (index, to_u32-slot p own) refl

  slot : to_int32 p ≡ pos p
  slot = ground (arith, own)

  asks : login_handler pkt.session_index pkt.bytes popped ≡ some asking
  asks =
      ap (λ k. login_handler k pkt.bytes popped) from_slot
      ∙ login_never_full p pkt.bytes popped (record { pool = v.pool; rooms = v.rooms })
      ∙ rw er (login_of_free p request id popped p u (rw slot ei) eu ec ef)

  p_lt : p < length s.users.user_obj_pool
  p_lt = get_elem?-lt s.users.user_obj_pool p eu

  asking-user : user_at asking.users p ≡ some renamed
  asking-user = get_elem?-set_self s.users.user_obj_pool p renamed p_lt

  asking-slot : Users.get_user_by_index asking.users (pos p) ≡ some p
  asking-slot =
      get_user-resize s.users asking.users (pos p) (length-set s.users.user_obj_pool p renamed) ei

  finished : complete pkt asking ≡ some behind
  finished =
      complete_lem pkt asking p renamed
        (ap (λ k. Users.get_user_by_index asking.users (to_int32 k)) from_slot
          ∙ rw slot asking-slot)
        asking-user

  first_round : user_packet_round past_end s ≡ some behind
  unfolding user_packet_round dequeue_packet process_if process_packet call_handler
  first_round =
      let handler : packet_handler (u16_of (contents u.packet_buf) 2) ≡ some login =
        ap packet_handler h.id_field ∙ (unfold packet_handler in refl) in
      rw (eq, ei, eu, get_packet-Holds u _ size h, handler, asks, finished)

  behind-user : user_at behind.users p ≡ some (taken pkt renamed)
  behind-user =
      ap (λ m. user_at m p) (completed-users pkt p renamed asking)
      ∙ get_elem?-set_self asking.users.user_obj_pool p _
          (get_elem?-lt asking.users.user_obj_pool p asking-user)

  behind-slot : Users.get_user_by_index behind.users (pos p) ≡ some p
  behind-slot =
      ap (λ m. Users.get_user_by_index m (pos p)) (completed-users pkt p renamed asking)
      ∙ get_user-resize asking.users _ (pos p) (length-set asking.users.user_obj_pool p _)
          asking-slot

  cleared-user : user_at cleared.users p ≡ some forgotten
  cleared-user =
      get_elem?-set_self behind.users.user_obj_pool p forgotten
        (get_elem?-lt behind.users.user_obj_pool p behind-user)

  cleared-slot : Users.get_user_by_index cleared.users (pos p) ≡ some p
  cleared-slot =
      get_user-resize behind.users cleared.users (pos p)
        (length-set behind.users.user_obj_pool p forgotten) behind-slot

  second_round : system_packet_round past_end behind ≡ some cleared
  second_round =
      connect_round past_end p behind (taken pkt renamed) notices own
        ((completed-queues pkt p renamed asking).0 ∙ en) behind-slot behind-user

  whole_round : process_round past_end s ≡ some cleared
  unfolding process_round Redis.push_task_req
  whole_round =
      let idle =
        no_answer_round past_end cleared
          (ap (λ r. r.task_res_queue) (completed-queues pkt p renamed asking).1 ∙ ea) in
      rw (first_round, second_round) idle

  nobody_under : find [] cleared.users.user_id_map ≡ none
  nobody_under = ap (λ m. find [] m.user_id_map) (completed-users pkt p renamed asking) ∙ free

  -- A new client's login request has come in when the packet thread first looks, and the notice of the
  -- client's connection is still in its queue. The round passes the request on to Redis, and clears
  -- the user and its ring behind that. When Redis then answers that the password is right, the user is
  -- logged in under the empty identifier, and its ring is empty.
  pub early_login_anonymous :
      (t : State) × (t' : State) × (w : User) × (process_round past_end s ≡ some t)
      × (t.redis
          ≡ Redis.push_task_req
              (Redis.set_task_body p Redis.request_login
                (Redis.login_req_bytes request.user_id request.user_pw))
              s.redis)
      × (login_db_res_handler p ans t ≡ some t')
      × (user_at t'.users p ≡ some w)
      × (w.domain_state ≡ login_state)
      × (w.user_id ≡ [])
      × (find [] t'.users.user_id_map ≡ some (pos p))
      × (contents w.packet_buf ≡ [])
  unfolding User.set_login User.set_confirmed User.clear Ring.clear_buffer Ring.get_size_in_use
  early_login_anonymous = (
    cleared,
    confirmed p p forgotten cleared,
    User.set_confirmed true (User.set_login [] forgotten),
    whole_round,
    (completed-queues pkt p renamed asking).1,
    login_db_res_ok p ans cleared p forgotten (rw slot cleared-slot) cleared-user ok,
    get_elem?-set_self cleared.users.user_obj_pool p _
        (get_elem?-lt cleared.users.user_obj_pool p cleared-user),
    refl,
    refl,
    find-insert [] [] (pos p) cleared.users.user_id_map ∙ rw nobody_under (unfold bytes_eq in refl),
    refl,
  )
