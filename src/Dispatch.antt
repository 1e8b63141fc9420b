-- ===== src/Dispatch.antt =====
-- Content/packet_manager.cpp, the packet thread: the queues, the table of handlers, and the rounds of
-- `PacketProcessThread`, with the entry points that the other threads call.
pub mod Reach
pub mod Stuck
pub mod Complete
pub mod Forged
pub mod Awake
pub mod Overread
pub mod Reset
pub mod Flood
use iocp_chatting.Packet.{
  PacketInfo, packet_id_code, sys_user_connect, sys_user_disconnect, login_request,
  room_enter_request, room_leave_request, room_chat_request,
}
use iocp_chatting.User
use iocp_chatting.Users
use iocp_chatting.Users.{user_at}
use iocp_chatting.Redis
use iocp_chatting.Redis.{RedisTask, task_id_code, response_login, try_pop}
use iocp_chatting.PacketManager.{
  State, connect_handler, disconnect_handler, login_handler, login_db_res_handler,
  enter_room_handler, leave_room_handler, room_chat_handler,
}
use iocp_chatting.Prelude.{
  if_null, ◌>>=◌, ℕ, Bool, true, false, Option, none, some, List, [], ◌∷◌, ◌++◌, ◌==◌,
  if◌then◌else◌, ℤ, to_int32,
}

pub data Handler : Type 0 where
  connect disconnect login login_db_res enter_room leave_room room_chat : Handler

-- `packet_handlers_` as `BindHandler` fills it.
unfoldable pub packet_handler : ℕ → Option Handler
packet_handler id =
    if id == packet_id_code sys_user_connect
    then some connect
    else if id == packet_id_code sys_user_disconnect
    then some disconnect
    else if id == packet_id_code login_request
    then some login
    else if id == task_id_code response_login
    then some login_db_res
    else if id == packet_id_code room_enter_request
    then some enter_room
    else if id == packet_id_code room_leave_request
    then some leave_room
    else if id == packet_id_code room_chat_request
    then some room_chat
    else none

unfoldable pub enqueue_packet : ℤ → List ℕ → State → Option (Bool × State)
enqueue_packet session_index bytes s =
    if_null (Users.get_user_by_index s.users session_index) (some (false, s)) λ p. do
      m ← Users.update_user p (λ u. (User.enqueue_packet_data bytes u).1) s.users
      some (
        true,
        record s {
          users = m;
          incoming_packet_user_index_queue =
              s.incoming_packet_user_index_queue ++ (session_index ∷ []);
        },
      )

unfoldable pub enqueue_system_packet : PacketInfo → State → State
enqueue_system_packet pkt s = record s { system_packet_queue = s.system_packet_queue ++ (pkt ∷ []) }

unfoldable pub dequeue_packet : State → Option (Option PacketInfo × State)
dequeue_packet s = if_null (try_pop s.incoming_packet_user_index_queue) (some (none, s)) λ popped.
    let s' : State = record s { incoming_packet_user_index_queue = popped.1 } in
    if_null (Users.get_user_by_index s.users popped.0) (some (none, s'))
      λ p. do u ← user_at s.users p; some (User.get_packet_data u, s')

unfoldable pub dequeue_system_packet : State → Option PacketInfo × State
dequeue_system_packet s =
    if_null (try_pop s.system_packet_queue) (none, s)
      λ popped. (some popped.0, record s { system_packet_queue = popped.1 })

-- `CompleteProcess`, and the user's index queued again if bytes are left.
unfoldable pub complete : PacketInfo → State → Option State
complete pkt s = do
  r ← Users.complete_process (to_int32 pkt.session_index) pkt.size s.users
  let s' : State = record s { users = r.1 }
  some (
      if r.0 then s' else record s' {
        incoming_packet_user_index_queue =
            s.incoming_packet_user_index_queue ++ (to_int32 pkt.session_index ∷ []);
      })

-- `reinterpret_cast<PacketInfo&>` of a `RedisTask`: the layouts agree.
abbrev pub packet_of_task : RedisTask → PacketInfo
packet_of_task t = record { session_index = t.user_idx; id = t.id; size = t.size; bytes = t.bytes }

unfoldable pub get_task_res : State → Option PacketInfo × State
get_task_res s =
    let (task, redis) = Redis.get_task_res s.redis in
    (elim task [ none ↦ none | some t ↦ some (packet_of_task t) ], record s { redis = redis })

module _ (past_end : List ℕ → List ℕ) where
  unfoldable pub call_handler : Handler → PacketInfo → State → Option State
  call_handler connect pkt s = connect_handler pkt.session_index s
  call_handler disconnect pkt s = disconnect_handler pkt.session_index s
  call_handler login pkt s = login_handler pkt.session_index pkt.bytes s
  call_handler login_db_res pkt s = login_db_res_handler pkt.session_index pkt.bytes s
  call_handler enter_room pkt s = enter_room_handler past_end pkt.session_index pkt.bytes s
  call_handler leave_room pkt s = leave_room_handler pkt.session_index pkt.bytes s
  call_handler room_chat pkt s = room_chat_handler past_end pkt.session_index pkt.bytes s

  unfoldable pub process_packet : PacketInfo → Bool → State → Option (Bool × State)
  process_packet pkt user_pkt s = if_null (packet_handler pkt.id) (some (false, s)) λ h. do
    s' ← call_handler h pkt s
    s'' ← if user_pkt then complete pkt s' else some s'
    some (true, s'')

  -- `if (pkt.has_value()) { ProcessPacket(*pkt, user_pkt); }`. The result of `ProcessPacket` is dropped.
  unfoldable pub process_if : Option PacketInfo → Bool → State → Option State
  process_if none user_pkt s = some s
  process_if (some pkt) user_pkt s = do r ← process_packet pkt user_pkt s; some r.1

  unfoldable pub user_packet_round : State → Option State
  user_packet_round s = do d ← dequeue_packet s; process_if d.0 true d.1

  unfoldable pub system_packet_round : State → Option State
  system_packet_round s = let (pkt, s') = dequeue_system_packet s in process_if pkt false s'

  unfoldable pub redis_round : State → Option State
  redis_round s = let (pkt, s') = get_task_res s in process_if pkt false s'

  -- One round of the loop of `PacketProcessThread`.
  unfoldable pub process_round : State → Option State
  process_round s = do s₁ ← user_packet_round s; s₂ ← system_packet_round s₁; redis_round s₂
