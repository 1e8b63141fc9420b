-- ===== src/PacketManager.antt =====
-- Content/packet_manager.h and packet_manager.cpp: the state of the chat logic and the handlers of
-- the packets. `sent` records the calls of `SendPacketFunc`, oldest first. `none` is undefined
-- behaviour of the C++ program: a read past an allocation, or a null or wild pointer.

pub mod Sound
pub mod Login
pub mod Stranded
pub mod Talk
pub mod Calm
use iocp_chatting.Bytes.{c_str, to_u32}
use iocp_chatting.Packet.{
  ErrorCode, error_code, no_error, login_user_used_all_obj, login_user_already, user_not_in_room,
  enter_room_not_used_status, user_in_lobby, chat_room_invalid_room_number, PacketInfo, Packet,
  Sent, set_packet_id_and_len, login_result, enter_result, leave_result, chat_result,
  login_response, room_enter_response, room_leave_response, room_chat_response, read_login_request,
  LoginRequestPacket, read_room_enter_request, read_room_leave_request, read_room_chat_request,
}
use iocp_chatting.User
use iocp_chatting.User.{login_state, room_state, state_eq}
use iocp_chatting.Users
use iocp_chatting.Users.{UserManager, user_at}
use iocp_chatting.Room
use iocp_chatting.Room.{Room}
use iocp_chatting.Rooms
use iocp_chatting.Redis
use iocp_chatting.Redis.{RedisManager, request_login}
use iocp_chatting.Prelude.{
  if_null, ◌>>=◌, ℕ, zero, suc, Bool, true, false, Option, none, some, List, [], ◌∷◌, ◌++◌, leb,
  if◌then◌else◌, get_elem?, set, ◌==◌, ℤ, pos, negsuc, to_int32,
}

pub record State : Type 0 where
  pub users : UserManager
  pub rooms : List Room
  pub redis : RedisManager
  pub incoming_packet_user_index_queue : List ℤ
  pub system_packet_queue : List PacketInfo
  pub sent : List Sent

-- `Init`: the managers and their objects, for the uninitialised storages of the users' rings.
unfoldable pub init : List (List ℕ) → State
init raws = record {
  users = Users.init raws;
  rooms = Rooms.init;
  redis = Redis.empty;
  incoming_packet_user_index_queue = [];
  system_packet_queue = [];
  sent = [];
}

abbrev pub send_packet : ℕ → Packet → State → State
send_packet i pkt s = record s { sent = s.sent ++ ((i, pkt) ∷ []) }

abbrev pub is_minus_one : ℤ → Bool
is_minus_one (pos n) = false
is_minus_one (negsuc zero) = true
is_minus_one (negsuc (suc n)) = false

unfoldable pub connect_handler : ℕ → State → Option State
connect_handler session_idx s =
    if_null (Users.get_user_by_index s.users (to_int32 session_idx)) (some s)
      λ p. do m ← Users.update_user p User.clear s.users; some (record s { users = m })

unfoldable pub forget : ℕ → State → Option State
forget p s = do
  u ← user_at s.users p
  some (record s { users = Users.delete_user_info u.user_id s.users })

-- The part of `DisconnectHandler` for a user in a room. It returns early for an invalid index.
unfoldable pub leave_on_disconnect : ℕ → ℤ → State → Option State
leave_on_disconnect p room_idx s = if_null (Rooms.get_room_by_idx s.rooms room_idx) (some s) λ k. do
  r ← get_elem? s.rooms k
  o ← Room.leave_user_of s.users r p
  forget p (record s { rooms = set s.rooms k o.0; sent = s.sent ++ o.1 })

unfoldable pub disconnect_handler : ℕ → State → Option State
disconnect_handler session_idx s =
    if_null (Users.get_user_by_index s.users (to_int32 session_idx)) (some s) λ p. do
      u ← user_at s.users p
      if state_eq u.domain_state room_state then leave_on_disconnect p u.room_idx s else forget p s

-- The request to Redis for an identifier that is not logged in.
unfoldable pub push_login_request : ℕ → List ℕ → LoginRequestPacket → State → Option State
push_login_request session_idx id pkt s = do
  m ← Users.set_user_id (to_int32 session_idx) id s.users
  let body = Redis.login_req_bytes pkt.user_id pkt.user_pw
  some (record s {
    users = m;
    redis = Redis.push_task_req (Redis.set_task_body session_idx request_login body) s.redis;
  })

abbrev pub login_answer : ErrorCode → Packet
login_answer e = set_packet_id_and_len login_response (login_result (error_code e))

-- The part of `LoginHandler` behind its first test.
unfoldable pub login_of : ℕ → LoginRequestPacket → State → Option State
login_of session_idx pkt s = do
  id ← c_str (pkt.user_id ++ pkt.user_pw)
  if is_minus_one (Users.find_user_index_by_id id s.users)
      then push_login_request session_idx id pkt s
      else some (send_packet session_idx (login_answer login_user_already) s)

unfoldable pub login_handler : ℕ → List ℕ → State → Option State
login_handler session_idx p_data s = do
  pkt ← read_login_request p_data
  if leb Users.get_max_user_cnt (Users.get_current_user_cnt s.users)
      then some (send_packet session_idx (login_answer login_user_used_all_obj) s)
      else login_of session_idx pkt s

unfoldable pub login_db_res_handler : ℕ → List ℕ → State → Option State
login_db_res_handler session_idx p_data s = do
  result ← Redis.read_login_res p_data
  m ←
      if result == error_code no_error
      then Users.set_user_login (to_int32 session_idx) s.users
      else Users.set_user_id (to_int32 session_idx) [] s.users
  some (
      send_packet session_idx (set_packet_id_and_len login_response (login_result result))
        (record s { users = m }))

abbrev pub enter_response : ErrorCode → Packet
enter_response e = set_packet_id_and_len room_enter_response (enter_result (error_code e))

abbrev pub leave_response : ErrorCode → Packet
leave_response e = set_packet_id_and_len room_leave_response (leave_result (error_code e))

abbrev pub chat_response : ErrorCode → Packet
chat_response e = set_packet_id_and_len room_chat_response (chat_result (error_code e))

unfoldable pub leave_room_of : ℕ → ℕ → State → Option State
leave_room_of session_idx p s = do
  o ← Rooms.leave_room s.users s.rooms p
  some (
      send_packet session_idx (leave_response o.code)
        (record s { users = o.users; rooms = o.rooms; sent = s.sent ++ o.sent }))

unfoldable pub leave_room_handler : ℕ → List ℕ → State → Option State
leave_room_handler session_idx p_data s = do
  _ ← read_room_leave_request p_data
  if_null (Users.get_user_by_index s.users (to_int32 session_idx)) (some s) λ p. do
    u ← user_at s.users p
    if state_eq u.domain_state room_state
        then leave_room_of session_idx p s
        else some (send_packet session_idx (leave_response user_not_in_room) s)

module _ (past_end : List ℕ → List ℕ) where
  unfoldable pub enter_room_of : ℕ → ℕ → ℤ → State → Option State
  enter_room_of session_idx p room_number s = do
    o ← Rooms.enter_room past_end s.users s.rooms p room_number
    some (
        send_packet session_idx (enter_response o.code)
          (record s { users = o.users; rooms = o.rooms; sent = s.sent ++ o.sent }))

  unfoldable pub enter_room_handler : ℕ → List ℕ → State → Option State
  enter_room_handler session_idx p_data s = do
    room_number ← read_room_enter_request p_data
    if_null (Users.get_user_by_index s.users (to_int32 session_idx)) (some s) λ p. do
      u ← user_at s.users p
      if state_eq u.domain_state login_state
          then enter_room_of session_idx p room_number s
          else some (send_packet session_idx (enter_response enter_room_not_used_status) s)

  -- The part of `RoomChatHandler` for a user in a room.
  unfoldable pub chat_in_room : ℕ → User.User → List ℕ → State → Option State
  chat_in_room session_idx u msg s =
      if_null (Rooms.get_room_by_idx s.rooms u.room_idx)
        (some (send_packet session_idx (chat_response chat_room_invalid_room_number) s))
        λ k. do
          r ← get_elem? s.rooms k
          out ← Room.notify_chat past_end s.users r (to_u32 u.session_idx) u.user_id msg
          let s' = send_packet session_idx (chat_response no_error) s
          some (record s' { sent = s'.sent ++ out })

  unfoldable pub room_chat_handler : ℕ → List ℕ → State → Option State
  room_chat_handler session_idx p_data s = do
    msg ← read_room_chat_request p_data
    if_null (Users.get_user_by_index s.users (to_int32 session_idx))
        (some (send_packet session_idx (chat_response user_in_lobby) s))
        λ p. do
          u ← user_at s.users p
          if state_eq u.domain_state room_state
              then chat_in_room session_idx u msg s
              else some (send_packet session_idx (chat_response user_in_lobby) s)
