-- ===== src/Rooms.antt =====
-- Content/room_manager.h and room_manager.cpp: the rooms. A `Room*` is the number of the room in
-- `room_list_`.
pub mod Bounds
pub mod Calm
use iocp_chatting.Config.{max_room_cnt}
use iocp_chatting.Packet.{ErrorCode, no_error, room_invalid_index, Sent}
use iocp_chatting.User
use iocp_chatting.User.{login_state}
use iocp_chatting.Users.{UserManager, user_at, update_user}
use iocp_chatting.Room
use iocp_chatting.Room.{Room}
use iocp_chatting.Prelude.{
  if_null, ◌>>=◌, ℕ, zero, suc, ◌+◌, Option, none, some, List, [], ◌∷◌, ltb, if◌then◌else◌, length,
  get_elem?, set, ℤ, pos, negsuc,
}

-- The `n` rooms of the loop of `Init` from the index `i` on.
unfoldable pub init_rooms : ℕ → ℕ → List Room
init_rooms zero i = []
init_rooms (suc n) i = Room.init (pos i) Room.fresh ∷ init_rooms n (i + 1)

unfoldable pub init : List Room
init = init_rooms max_room_cnt 0

unfoldable pub get_room_by_idx : List Room → ℤ → Option ℕ
get_room_by_idx rooms (pos i) = if ltb i (length rooms) then some i else none
get_room_by_idx rooms (negsuc i) = none

-- What `EnterRoom` and `LeaveRoom` leave behind.
pub record Outcome : Type 0 where
  pub code : ErrorCode
  pub users : UserManager
  pub rooms : List Room
  pub sent : List Sent

unfoldable pub enter_room : (List ℕ → List ℕ) → UserManager → List Room → ℕ → ℤ → Option Outcome
enter_room past_end m rooms p room_idx =
    if_null (get_room_by_idx rooms room_idx)
      (some (record { code = room_invalid_index; users = m; rooms = rooms; sent = [] }))
      λ k. do
        r ← get_elem? rooms k
        o ← Room.enter_user past_end m r p
        some (record { code = o.code; users = o.users; rooms = set rooms k o.room; sent = o.sent })

unfoldable pub leave_room : UserManager → List Room → ℕ → Option Outcome
leave_room m rooms p = do
  u ← user_at m p
  if_null (get_room_by_idx rooms u.room_idx)
      (some (record { code = room_invalid_index; users = m; rooms = rooms; sent = [] }))
      λ k. do
        r ← get_elem? rooms k
        o ← Room.leave_user_of m r p
        m' ← update_user p (User.set_domain_state login_state) m
        some (record { code = no_error; users = m'; rooms = set rooms k o.0; sent = o.1 })
