-- ===== src/Room.antt =====
-- Content/room.h and room.cpp: a chat room. `user_list_` holds `User*`, which are slots of the pool of
-- `Users`; every pointer comes from `EnterUser`, so that none is null. A function gives the
-- calls of `SendPacketFunc` that it makes, in order; `none` is a wild pointer or an array overrun.
-- `past_end s` stands for the memory behind the terminator of the string `s`, which `CopyMemory` of a
-- fixed length reads.
pub mod Broadcast
pub mod Calm
pub mod Leave
pub mod Enter
use iocp_chatting.Config.{max_user_id_len, max_chat_msg_size, room_max_user_cnt}
use iocp_chatting.Bytes.{copy_c_str, bytes_eq, to_u32, to_u64, sign_extend16}
use iocp_chatting.Packet.{
  ErrorCode, no_error, enter_room_full_user, Packet, Sent, UserInfo, set_packet_id_and_len, chat,
  new_user, user_list, leave_user, room_chat_notify, room_new_user_notify, room_user_list_notify,
  room_leave_user_notify,
}
use iocp_chatting.User
use iocp_chatting.User.{User}
use iocp_chatting.Users.{UserManager, user_at, update_user}
use iocp_chatting.Prelude.{
  ◌>>=◌, ℕ, ◌+◌, ◌%◌, ◌^◌, Bool, true, false, ◌&&◌, Option, none, some, List, [], ◌∷◌, ◌++◌, leb,
  ◌==◌, if◌then◌else◌, length, take, ℤ, negsuc,
}

pub record Room : Type 0 where
  pub room_idx : ℤ
  pub user_list : List ℕ
  pub max_user_cnt : ℕ
  pub current_user_cnt : ℕ

-- `new Room()`, whose fields have their initialisers' values.
abbrev pub fresh : Room
fresh = record { room_idx = negsuc 0; user_list = []; max_user_cnt = 0; current_user_cnt = 0 }

unfoldable pub init : ℤ → Room → Room
init room_idx r = record r { room_idx = room_idx; max_user_cnt = room_max_user_cnt }

-- `BroadcastMsg` to the users of a list. The test compares the index cut to 16 bits with the whole one.
pub broadcast_msg : UserManager → List ℕ → Packet → ℕ → Bool → Option (List Sent)
broadcast_msg m [] pkt pass except_me = some []
broadcast_msg m (p ∷ ps) pkt pass except_me = do
  u ← user_at m p
  rest ← broadcast_msg m ps pkt pass except_me
  some (
      if except_me && sign_extend16 u.session_idx == pass
      then rest
      else (to_u32 u.session_idx, pkt) ∷ rest)

-- The entry of a user in a packet. `user_index_` is 64 bits wide, `id_len_` 8.
unfoldable pub user_info : (List ℕ → List ℕ) → User → UserInfo
unfolding copy_c_str
user_info past_end u = record {
  user_index = to_u64 u.session_idx;
  id_len = length u.user_id % 2 ^ 8;
  user_id = copy_c_str past_end (max_user_id_len + 1) u.user_id;
}

pub notify_chat : (List ℕ → List ℕ) → UserManager → Room → ℕ → List ℕ → List ℕ → Option (List Sent)
unfolding copy_c_str
notify_chat past_end m r user_idx user_id msg =
    broadcast_msg m r.user_list
      (set_packet_id_and_len room_chat_notify (
        chat (copy_c_str past_end (max_user_id_len + 1) user_id)
          (take (max_chat_msg_size + 1) msg)))
      user_idx false

pub notify_new_user : (List ℕ → List ℕ) → UserManager → Room → ℕ → Option (List Sent)
notify_new_user past_end m r p = do
  u ← user_at m p
  broadcast_msg m r.user_list
      (set_packet_id_and_len room_new_user_notify (new_user (user_info past_end u)))
      (to_u32 u.session_idx) true

-- The entries that the loop of `NotifyUserList` writes.
pub user_infos : (List ℕ → List ℕ) → UserManager → List ℕ → Option (List UserInfo)
user_infos past_end m [] = some []
user_infos past_end m (p ∷ ps) = do
  u ← user_at m p
  rest ← user_infos past_end m ps
  some (user_info past_end u ∷ rest)

-- The packet has room for `room_max_user_cnt` entries; a write behind them is a fault.
pub notify_user_list : (List ℕ → List ℕ) → UserManager → Room → ℕ → Option (List Sent)
notify_user_list past_end m r p = do
  infos ← user_infos past_end m r.user_list
  u ← user_at m p
  if leb (length infos) room_max_user_cnt
      then some (
          (
            to_u32 u.session_idx,
            set_packet_id_and_len room_user_list_notify
                (user_list (length r.user_list % 2 ^ 8) infos),
          )
          ∷ [])
      else none

pub notify_leave_user : UserManager → Room → ℕ → Option (List Sent)
notify_leave_user m r p = do
  u ← user_at m p
  broadcast_msg m r.user_list
      (set_packet_id_and_len room_leave_user_notify (leave_user (to_u64 u.session_idx)))
      (to_u32 u.session_idx) true

-- What `EnterUser` and `LeaveUser` leave behind.
pub record Outcome : Type 0 where
  pub code : ErrorCode
  pub users : UserManager
  pub room : Room
  pub sent : List Sent

pub enter_user : (List ℕ → List ℕ) → UserManager → Room → ℕ → Option Outcome
enter_user past_end m r p =
    if leb r.max_user_cnt (length r.user_list)
    then some (record { code = enter_room_full_user; users = m; room = r; sent = [] })
    else do
      let r' : Room = record r {
        user_list = r.user_list ++ (p ∷ []);
        current_user_cnt = (r.current_user_cnt + 1) % 2 ^ 16;
      }
      m' ← update_user p (User.enter_room r.room_idx) m
      entered ← notify_new_user past_end m' r' p
      listed ← notify_user_list past_end m' r' p
      some (record { code = no_error; users = m'; room = r'; sent = entered ++ listed })

-- `std::erase_if` by the identifier of the user that leaves.
pub erase_id : UserManager → List ℕ → List ℕ → Option (List ℕ)
erase_id m id [] = some []
erase_id m id (p ∷ ps) = do
  u ← user_at m p
  rest ← erase_id m id ps
  some (if bytes_eq id u.user_id then rest else p ∷ rest)

pub leave_user_of : UserManager → Room → ℕ → Option (Room × List Sent)
leave_user_of m r p = do
  u ← user_at m p
  left ← erase_id m u.user_id r.user_list
  let r' : Room = record r { user_list = left }
  out ← notify_leave_user m r' p
  some (r', out)
