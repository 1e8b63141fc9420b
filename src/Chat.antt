-- ===== src/Chat.antt =====
-- What the server promises of its rooms, without rings, packets or lists: each user is outside, in the
-- lobby, in one room, or departed, which is disconnected and not yet connected again. This is the abstract view of `RoomEnterHandler` and `RoomLeaveHandler`
-- (Content/packet_manager.cpp).
pub mod Occupants
pub mod Represents
pub mod Away
pub mod Refine
pub mod Sessions
pub mod Server
pub mod Process
pub mod Runs
pub mod Ghost
pub mod Relogin
use iocp_chatting.Config.{max_user_cnt, max_room_cnt, room_max_user_cnt}
use iocp_chatting.Packet.{
  ErrorCode, no_error, room_invalid_index, enter_room_full_user, enter_room_not_used_status,
  user_not_in_room,
}
use iocp_chatting.Prelude.{
  ℕ, zero, suc, ◌+◌, Bool, true, false, ◌==◌, ltb, if◌then◌else◌, ℤ, pos, negsuc,
}

pub data Place : Type 0 where
  outside lobby departed : Place
  inside : ℕ → Place

-- Where each user is.
abbrev pub Chat : Type 0
Chat = ℕ → Place

abbrev pub is_inside : ℕ → Place → Bool
is_inside k outside = false
is_inside k lobby = false
is_inside k departed = false
is_inside k (inside j) = k == j

abbrev pub tally : Bool → ℕ
tally b = if b then 1 else 0

-- How many of the first `n` users are in room `k`.
abbrev pub occupants_below : ℕ → Chat → ℕ → ℕ
occupants_below zero c k = 0
occupants_below (suc n) c k = tally (is_inside k (c n)) + occupants_below n c k

unfoldable pub occupants : Chat → ℕ → ℕ
occupants = occupants_below max_user_cnt

abbrev pub put : ℕ → Place → Chat → Chat
put p pl c q = if p == q then pl else c q

-- A user of the lobby enters a room that is there and has space.
abbrev pub enter_from : Place → ℕ → ℤ → Chat → ErrorCode × Chat
enter_from lobby p (pos k) c =
    if ltb k max_room_cnt
    then (if ltb (occupants c k) room_max_user_cnt
        then (no_error, put p (inside k) c)
        else (enter_room_full_user, c))
    else (room_invalid_index, c)
enter_from lobby p (negsuc k) c = (room_invalid_index, c)
enter_from outside p i c = (enter_room_not_used_status, c)
enter_from departed p i c = (enter_room_not_used_status, c)
enter_from (inside k) p i c = (enter_room_not_used_status, c)

abbrev pub enter : ℕ → ℤ → Chat → ErrorCode × Chat
enter p i c = enter_from (c p) p i c

-- A user of a room goes back to the lobby.
abbrev pub leave_from : Place → ℕ → Chat → ErrorCode × Chat
leave_from (inside k) p c = (no_error, put p lobby c)
leave_from outside p c = (user_not_in_room, c)
leave_from lobby p c = (user_not_in_room, c)
leave_from departed p c = (user_not_in_room, c)

abbrev pub leave : ℕ → Chat → ErrorCode × Chat
leave p c = leave_from (c p) p c
