-- ===== src/Packet.antt =====
-- Content/packet_id.h, error_code.h, packet.h and packet_generator.h: the identifiers, the structs
-- that requests are read from, and the packets that the server sends.
-- `type_` of a header is never set or read, and has no counterpart here.
pub mod Wire
pub mod Read
use iocp_chatting.Config.{max_user_id_len, max_user_pw_len, max_chat_msg_size, room_max_user_cnt}
use iocp_chatting.Bytes.{read_bytes, u16_of, u32_of}
use iocp_chatting.Prelude.{◌>>=◌, ℕ, ◌+◌, ◌*◌, Option, some, List, take, drop, ℤ, to_int32}

pub data PacketId : Type 0 where
  sys_user_connect sys_user_disconnect sys_end : PacketId
  login_request login_response : PacketId
  room_enter_request room_enter_response room_new_user_notify room_user_list_notify : PacketId
  room_leave_request room_leave_response room_leave_user_notify : PacketId
  room_chat_request room_chat_response room_chat_notify : PacketId

abbrev pub packet_id_code : PacketId → ℕ
packet_id_code sys_user_connect = 11
packet_id_code sys_user_disconnect = 12
packet_id_code sys_end = 30
packet_id_code login_request = 201
packet_id_code login_response = 202
packet_id_code room_enter_request = 206
packet_id_code room_enter_response = 207
packet_id_code room_new_user_notify = 208
packet_id_code room_user_list_notify = 209
packet_id_code room_leave_request = 215
packet_id_code room_leave_response = 216
packet_id_code room_leave_user_notify = 217
packet_id_code room_chat_request = 221
packet_id_code room_chat_response = 222
packet_id_code room_chat_notify = 223

pub data ErrorCode : Type 0 where
  no_error : ErrorCode
  user_mgr_invalid_user_index user_mgr_invalid_user_uniqueid user_not_in_room : ErrorCode
  login_user_already login_user_used_all_obj login_user_invalid_pw : ErrorCode
  new_room_used_all_obj new_room_fail_enter : ErrorCode
  enter_room_not_finde_user enter_room_invalid_user_status : ErrorCode
  enter_room_not_used_status enter_room_full_user : ErrorCode
  room_invalid_index room_not_used room_too_many_packet : ErrorCode
  leave_room_invalid_room_index chat_room_invalid_room_number user_in_lobby : ErrorCode

abbrev pub error_code : ErrorCode → ℕ
error_code no_error = 0
error_code user_mgr_invalid_user_index = 11
error_code user_mgr_invalid_user_uniqueid = 12
error_code user_not_in_room = 13
error_code login_user_already = 31
error_code login_user_used_all_obj = 32
error_code login_user_invalid_pw = 33
error_code new_room_used_all_obj = 41
error_code new_room_fail_enter = 42
error_code enter_room_not_finde_user = 51
error_code enter_room_invalid_user_status = 52
error_code enter_room_not_used_status = 53
error_code enter_room_full_user = 54
error_code room_invalid_index = 61
error_code room_not_used = 62
error_code room_too_many_packet = 63
error_code leave_room_invalid_room_index = 71
error_code chat_room_invalid_room_number = 81
error_code user_in_lobby = 82

-- `struct PacketInfo`. The pointer `data_` is the bytes that can be read through it.
pub record PacketInfo : Type 0 where
  pub session_index : ℕ
  pub id : ℕ
  pub size : ℕ
  pub bytes : List ℕ

pub record PacketHeader : Type 0 where
  pub size : ℕ
  pub id : ℕ

-- `sizeof(PACKET_HEADER)`, packed: two `uint16_t` and the `uint8_t` `type_`.
abbrev pub packet_header_length : ℕ
packet_header_length = 5

abbrev pub read_header : List ℕ → PacketHeader
read_header p = record { size = u16_of p 0; id = u16_of p 2 }

-- The two character arrays of a login request, as they stand in memory.
pub record LoginRequestPacket : Type 0 where
  pub user_id : List ℕ
  pub user_pw : List ℕ

abbrev pub login_request_packet_size : ℕ
login_request_packet_size = packet_header_length + (max_user_id_len + 1) + (max_user_pw_len + 1)

unfoldable pub read_login_request : List ℕ → Option LoginRequestPacket
unfolding read_bytes
read_login_request p = do
  b ← read_bytes login_request_packet_size p
  some (record {
    user_id = take (max_user_id_len + 1) (drop packet_header_length b);
    user_pw = drop (packet_header_length + (max_user_id_len + 1)) b;
  })

abbrev pub room_enter_request_packet_size : ℕ
room_enter_request_packet_size = packet_header_length + 4

-- `room_number_` of a room enter request.
unfoldable pub read_room_enter_request : List ℕ → Option ℤ
unfolding read_bytes
read_room_enter_request p = do
  b ← read_bytes room_enter_request_packet_size p
  some (to_int32 (u32_of b packet_header_length))

-- A room leave request is a header alone.
unfoldable pub read_room_leave_request : List ℕ → Option (List ℕ)
unfolding read_bytes
read_room_leave_request p = read_bytes packet_header_length p

-- `msg_` of a chat request.
unfoldable pub read_room_chat_request : List ℕ → Option (List ℕ)
unfolding read_bytes
read_room_chat_request p = do
  b ← read_bytes (packet_header_length + (max_chat_msg_size + 1)) p
  some (drop packet_header_length b)

pub record UserInfo : Type 0 where
  pub user_index : ℕ
  pub id_len : ℕ
  pub user_id : List ℕ

abbrev pub user_info_size : ℕ
user_info_size = 8 + 1 + (max_user_id_len + 1)

-- What the server sends: the fields of each packet struct behind its header.
pub data Body : Type 0 where
  login_result : ℕ → Body
  enter_result : ℕ → Body
  leave_result : ℕ → Body
  chat_result : ℕ → Body
  chat : List ℕ → List ℕ → Body
  new_user : UserInfo → Body
  user_list : ℕ → List UserInfo → Body
  leave_user : ℕ → Body

-- `sizeof` of the packed structs.
abbrev pub sizeof : Body → ℕ
sizeof (login_result r) = packet_header_length + 2
sizeof (enter_result r) = packet_header_length + 2
sizeof (leave_result r) = packet_header_length + 2
sizeof (chat_result r) = packet_header_length + 2
sizeof (chat user_id msg) = packet_header_length + (max_user_id_len + 1) + (max_chat_msg_size + 1)
sizeof (new_user info) = packet_header_length + user_info_size
sizeof (user_list n infos) = packet_header_length + 1 + room_max_user_cnt * user_info_size
sizeof (leave_user i) = packet_header_length + 8

pub record Packet : Type 0 where
  pub size : ℕ
  pub id : ℕ
  pub body : Body

-- `SetPacketIdAndLen`, together with the assignments to the fields that follow it.
abbrev pub set_packet_id_and_len : PacketId → Body → Packet
set_packet_id_and_len id body = record { size = sizeof body; id = packet_id_code id; body = body }

-- A call of `SendPacketFunc`: the session and the packet. The length argument is the packet's `sizeof`.
abbrev pub Sent : Type 0
Sent = ℕ × Packet
