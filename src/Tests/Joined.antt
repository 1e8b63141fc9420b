-- ===== src/Tests/Joined.antt =====
-- Runs of the server's threads together.
use iocp_chatting.ErrorHandler
use iocp_chatting.Config.{default_ringbuffer_size, max_session_cnt}
use iocp_chatting.ChatServer.Send
use iocp_chatting.Packet.Wire
use iocp_chatting.Packet.Wire.{to_bytes}
use iocp_chatting.User
use iocp_chatting.User.{User}
use iocp_chatting.Packet.{user_not_in_room, read_room_leave_request}
use iocp_chatting.Users
use iocp_chatting.Session
use iocp_chatting.Session.{Session, bind_accept, bind_recv, activate}
use iocp_chatting.Network
use iocp_chatting.Network.{
  Network, Completion, connected, received, worker_round, accepter_visit, terminate_msg,
}
use iocp_chatting.Network.Total.{Genuine}
use iocp_chatting.Network.Runs.{mark, filled}
use iocp_chatting.PacketManager
use iocp_chatting.PacketManager.{State, leave_response}
use iocp_chatting.Dispatch
use iocp_chatting.Bytes.{read_bytes}
use iocp_chatting.Ring
use iocp_chatting.Ring.{get_free_size}
use iocp_chatting.Ring.Contents.{contents}
use iocp_chatting.Redis
use iocp_chatting.Dispatch.{
  enqueue_packet, enqueue_system_packet, process_round, user_packet_round, system_packet_round,
  redis_round,
}
use iocp_chatting.ChatServer.{on_connect, on_recv, delegate, deliver}
use iocp_chatting.ChatServer.Runs.{
  Joined, worker_turn, packet_turn, Run, here, next, accepter, worker_accepted, worker_io,
  filled_by_system, joined_with,
}
use iocp_chatting.ChatServer.Runs.Turns.{
  worker_turn_outcome, failed_accept, genuine, packet_turn_sends,
}
use iocp_chatting.Tests.Sample.{
  get_elem?-replicate, zeros, raw_storages, raw_storages-number, raw_storages-size,
}
use iocp_chatting.Tests.Talk.{nothing_behind, slot_3}
use iocp_chatting.Tests.Pool.{
  raw_pairs, raw_pairs-number, session_3, start-at_3, under_way, offered_3, offered_session,
  offered-pending, bound_3, replies, arrival, after_arrival, arrival_run,
}
use iocp_chatting.Prelude.{
  ◌⊎◌, ℕ, ◌≡◌, refl, true, false, Option, none, some, List, [], ◌∷◌, length, length-replicate, ap,
  sym, ◌∙◌, get_elem?, set, pos, arith, replicate, ◌++◌,
}

-- No user is known to Redis.
abbrev no_users : List ℕ → Option (List ℕ)
no_users id = none

abbrev begin : Joined
begin = joined_with 5 6 raw_pairs raw_storages

-- An accept is under way for session 3.
abbrev offering : Joined
offering = record begin { system = offered_3 }

offering-Run : Run nothing_behind 0 zeros no_users begin offering
offering-Run = next here (accepter 6 under_way 3 session_3 (omega arith) start-at_3)

arrival-Genuine : Genuine arrival
arrival-Genuine = Genuine.of_accept 3 (omega arith) refl refl

worker_turn_outcome_example :
    ((failed_accept arrival ≡ true)
      × (worker_turn replies arrival offering.system.net offering.logic ≡ none))
    ⊎ (failed_accept arrival ≡ false)
      × ((n : Network) × (t : State) × (worker_turn replies arrival offering.system.net
              offering.logic
            ≡ some (true, n, t)))
unfolding terminate_msg
worker_turn_outcome_example =
    worker_turn_outcome nothing_behind 0 zeros no_users 5 6 raw_pairs raw_storages raw_pairs-number
      raw_storages-number raw_storages-size offering-Run replies arrival (genuine arrival-Genuine)

-- The client has come, and the packet thread has the notice.
abbrev arrived : Joined
arrived = record {
  system = record { net = after_arrival; pending = mark false 3 offered_3.pending };
  logic = on_connect (pos 3) begin.logic;
}

arrived_turn :
    worker_turn replies arrival offering.system.net offering.logic
    ≡ some (true, after_arrival, arrived.logic)
unfolding worker_turn Network.init_session_pool deliver delegate
arrived_turn = rw arrival_run refl

arrived-Run : Run nothing_behind 0 zeros no_users begin arrived
unfolding Session.init accepter_visit bind_accept
arrived-Run =
    next offering-Run
      (worker_accepted replies arrival 3 offered_session offered-pending bound_3 refl arrived_turn)

-- The client sends a request to leave a room.
abbrev leave_bytes : List ℕ
leave_bytes = 5 ∷ 0 ∷ 215 ∷ 0 ∷ 0 ∷ []

abbrev recv_bytes : List ℕ
recv_bytes = leave_bytes ++ replicate 16379 0

abbrev active_3 : Session
active_3 = (bind_recv replies.recv_reply (activate offered_session)).1

abbrev sent_in : Network
sent_in = filled 3 recv_bytes active_3 after_arrival

active_3-size : length recv_bytes ≡ length active_3.recv_buf
unfolding Session.init accepter_visit bind_accept bind_recv activate Session.set_recv_overlapped
active_3-size = refl

active-at_3 : get_elem? after_arrival.session_list 3 ≡ some active_3
unfolding Network.init_session_pool Network.init_sessions
active-at_3 = refl

abbrev request : Completion
request = record {
  session = some 3;
  gqcs_ret = true;
  io_size = 5;
  overlapped = some (Session.recv, pos 0);
}

abbrev sending : Session
sending = record active_3 { recv_buf = recv_bytes }

abbrev after_request : Network
after_request = record sent_in {
  session_list = set sent_in.session_list 3 (bind_recv replies.recv_reply sending).1;
  events = connected (pos 3) ∷ received (pos 3) leave_bytes ∷ [];
}

request_run : worker_round replies request sent_in ≡ some (true, after_request)
unfolding Network.worker_round Network.handle_completion Network.check_gqcs_result
    Network.session_exited Network.terminate_msg Network.has_overlapped Network.emit
    Network.init_session_pool Network.init_sessions Network.dispatch_if Network.dispatch_overlapped
    Network.recv_completed Network.recv_or_close accepter_visit bind_accept bind_recv activate
    ErrorHandler.handle_socket Session.init Session.set_recv_overlapped
request_run = refl

-- The packet thread finds the request in the ring of user 3.
abbrev asking : State
asking = record (arrived.logic) {
  users = record (begin.logic.users) {
    user_obj_pool =
        set begin.logic.users.user_obj_pool 3 (User.enqueue_packet_data leave_bytes slot_3).1;
  };
  incoming_packet_user_index_queue = pos 3 ∷ [];
}

asking_run : deliver (received (pos 3) leave_bytes ∷ []) arrived.logic ≡ some asking
unfolding deliver delegate on_recv on_connect enqueue_packet enqueue_system_packet Users.update_user
    Users.get_user_by_index PacketManager.init Users.init Users.init_pool
asking_run = refl

asked_turn : worker_turn replies request sent_in arrived.logic ≡ some (true, after_request, asking)
unfolding worker_turn Network.init_session_pool
asked_turn = rw request_run (rw asking_run refl)

abbrev asked : Joined
asked = record { system = record (arrived.system) { net = after_request }; logic = asking }

asked-Run : Run nothing_behind 0 zeros no_users begin asked
asked-Run =
    next (next arrived-Run (filled_by_system 3 recv_bytes active_3 active_3-size active-at_3))
      (worker_io replies request (λ j e. cc) asked_turn)

abbrev settled : User
settled = User.clear (User.complete_process 5 (User.enqueue_packet_data leave_bytes slot_3).1).1

-- The answer, and then the notice of the connection, which clears the user.
abbrev answered : State
answered = record (begin.logic) {
  users = record (begin.logic.users) {
    user_obj_pool =
        set
          (set asking.users.user_obj_pool 3
            (User.complete_process 5 (User.enqueue_packet_data leave_bytes slot_3).1).1)
          3 settled;
  };
  sent = (3, leave_response user_not_in_room) ∷ [];
}

answered_run : process_round nothing_behind asking ≡ some answered
unfolding process_round user_packet_round system_packet_round redis_round Dispatch.dequeue_packet
    Dispatch.process_if Dispatch.process_packet Dispatch.packet_handler Dispatch.call_handler
    Dispatch.complete Dispatch.dequeue_system_packet Dispatch.get_task_res
    PacketManager.leave_room_handler PacketManager.connect_handler PacketManager.init Users.init
    Users.init_pool Users.get_user_by_index Users.update_user Users.complete_process
    User.get_packet_data User.complete_process User.enqueue_packet_data User.clear User.init
    User.new_user Ring.peek Ring.peek_loop Ring.enqueue Ring.enqueue_loop Ring.put Ring.is_full
    Ring.move_front Ring.get_free_size Ring.clear_buffer Ring.get_size_in_use
    Ring.get_front_buffer_ptr on_connect enqueue_system_packet read_room_leave_request read_bytes
    Ring.init Redis.get_task_res
answered_run = refl

raw_pairs-size :
    (j : ℕ) (raw : List ℕ × List ℕ)
    → get_elem? raw_pairs j ≡ some raw
    → length raw.1 ≡ default_ringbuffer_size
raw_pairs-size j raw e =
    ap (λ p. length p.1) (sym (get_elem?-replicate max_session_cnt (zeros, zeros) j raw e))
    ∙ length-replicate {A = ℕ} default_ringbuffer_size 0

abbrev talker : Session
talker = (bind_recv replies.recv_reply sending).1

talker-at_3 : get_elem? after_request.session_list 3 ≡ some talker
unfolding Network.init_session_pool Network.init_sessions
talker-at_3 = refl

packet_turn_sends_example :
    (n : Network) × (s' : Session) × (packet_turn nothing_behind 0 zeros after_request asking
      ≡ some (n, answered))
    × (get_elem? n.session_list 3 ≡ some s')
    × (contents s'.send_buf ≡ 7 ∷ 0 ∷ 216 ∷ 0 ∷ 0 ∷ 13 ∷ 0 ∷ [])
unfolding on_connect enqueue_system_packet PacketManager.init Send.bytes_for to_bytes
    Wire.body_bytes Network.get_session_by_idx Session.init Ring.init Ring.get_size_in_use
    Ring.get_free_size Ring.clear_buffer accepter_visit bind_accept bind_recv activate
    ErrorHandler.handle_socket Session.set_recv_overlapped
packet_turn_sends_example =
    packet_turn_sends nothing_behind 0 zeros no_users 5 6 raw_pairs raw_storages raw_pairs-number
      raw_storages-number raw_storages-size raw_pairs-size asked-Run answered_run 3 talker
      talker-at_3
