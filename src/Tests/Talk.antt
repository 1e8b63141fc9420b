-- ===== src/Tests/Talk.antt =====
-- The theorems on the room handlers at work, on a server whose room 2 has the users 3 and 5.
use iocp_chatting.Bytes.{read_bytes}
use iocp_chatting.Packet.{read_room_chat_request, read_room_enter_request, read_room_leave_request}
use iocp_chatting.Ring.Inv.{init-IsValid}
use iocp_chatting.User
use iocp_chatting.User.{User}
use iocp_chatting.Users
use iocp_chatting.Users.{UserManager, user_at}
use iocp_chatting.Users.Pool.{IsSlot, set-IsPool}
use iocp_chatting.Room
use iocp_chatting.Room.{Room}
use iocp_chatting.Room.Enter.{IsRoom}
use iocp_chatting.Rooms
use iocp_chatting.Rooms.Bounds.{set-AreRooms, init-AreRooms}
use iocp_chatting.Redis
use iocp_chatting.PacketManager.{State}
use iocp_chatting.PacketManager.Sound.{IsSound}
use iocp_chatting.Tests.Sample.{zeros, fresh_pool, fresh_pool-IsPool}
use iocp_chatting.Prelude.{
  ℕ, ◌≡◌, refl, some, List, [], ◌∷◌, get_elem?, set, get_elem?-set_self, length-replicate,
  replicate, arith, pos,
}

abbrev pub nothing_behind : List ℕ → List ℕ
nothing_behind s = []

-- User 3 at the start, logged in, and in room 2.
abbrev pub slot_3 : User
slot_3 = User.init (pos 3) (User.new_user zeros)

abbrev pub guest : User
guest = User.set_login (65 ∷ []) slot_3

abbrev pub member : User
member = User.enter_room (pos 2) guest

abbrev room_2 : Room
room_2 = record {
  room_idx = pos 2;
  user_list = 3 ∷ 5 ∷ [];
  max_user_cnt = 10;
  current_user_cnt = 2;
}

room_2-IsRoom : IsRoom room_2
room_2-IsRoom = record {
  cap = refl;
  bounded = omega arith;
  members = (omega arith, (omega arith, tt));
}

pub guest-IsSlot : IsSlot 3 guest
unfolding User.init User.new_user User.set_login
guest-IsSlot = record { own_index = refl; ring = init-IsValid zeros (length-replicate {A = ℕ} _ 0) }

pub member-IsSlot : IsSlot 3 member
unfolding User.init User.new_user User.set_login User.enter_room
member-IsSlot = record {
  own_index = refl;
  ring = init-IsValid zeros (length-replicate {A = ℕ} _ 0);
}

pub fresh_pool-at_3 : user_at fresh_pool 3 ≡ some slot_3
unfolding fresh_pool Users.init Users.init_pool
fresh_pool-at_3 = refl

pub init-at_2 : get_elem? Rooms.init 2 ≡ some (Room.init (pos 2) Room.fresh)
unfolding Rooms.init Rooms.init_rooms
init-at_2 = refl

-- The server with user `u` in slot 3.
abbrev pub pool_of : User → UserManager
pool_of u = record fresh_pool { user_obj_pool = set fresh_pool.user_obj_pool 3 u }

abbrev server : User → State
server u = record {
  users = pool_of u;
  rooms = set Rooms.init 2 room_2;
  redis = Redis.empty;
  incoming_packet_user_index_queue = [];
  system_packet_queue = [];
  sent = [];
}

server-IsSound : (u : User) → IsSlot 3 u → IsSound (server u)
server-IsSound u s = record {
  pool = set-IsPool fresh_pool 3 slot_3 u fresh_pool-IsPool fresh_pool-at_3 s;
  rooms = set-AreRooms Rooms.init 2 init-AreRooms init-at_2 room_2-IsRoom;
}

slot_at_3 : (u : User) → IsSlot 3 u → Users.get_user_by_index (server u).users (pos 3) ≡ some 3
unfolding Users.get_user_by_index
slot_at_3 u s = ground (arith, (server-IsSound u s).pool.full)

user_at_3 : (u : User) → user_at (server u).users 3 ≡ some u
user_at_3 u =
    get_elem?-set_self fresh_pool.user_obj_pool 3 u (omega (arith, fresh_pool-IsPool.full))

room_at_2 : (u : User) → get_elem? (server u).rooms 2 ≡ some room_2
room_at_2 u = get_elem?-set_self Rooms.init 2 room_2 (omega (arith, init-AreRooms.number))

-- A chat request full of the letter "A".
abbrev pub chat_bytes : List ℕ
chat_bytes = replicate 262 65

abbrev pub message : List ℕ
message = replicate 257 65

pub chat_request : read_room_chat_request chat_bytes ≡ some message
unfolding read_room_chat_request read_bytes
chat_request = refl

-- A request for room 2.
abbrev pub enter_bytes : List ℕ
enter_bytes = 9 ∷ 0 ∷ 206 ∷ 0 ∷ 0 ∷ 2 ∷ 0 ∷ 0 ∷ 0 ∷ []

pub enter_request : read_room_enter_request enter_bytes ≡ some (pos 2)
unfolding read_room_enter_request read_bytes
enter_request = refl

pub leave_request :
    read_room_leave_request (5 ∷ 0 ∷ 215 ∷ 0 ∷ 0 ∷ []) ≡ some (5 ∷ 0 ∷ 215 ∷ 0 ∷ 0 ∷ [])
unfolding read_room_leave_request read_bytes
leave_request = refl

-- The guest of slot 3 enters a room with the users 5 and 7.
abbrev room_57 : Room
room_57 = record room_2 { user_list = 5 ∷ 7 ∷ [] }

room_57-IsRoom : IsRoom room_57
room_57-IsRoom = record {
  cap = refl;
  bounded = omega arith;
  members = (omega arith, (omega arith, tt));
}

abbrev entry : State
entry = record (server guest) { rooms = set Rooms.init 2 room_57 }

entry-IsSound : IsSound entry
entry-IsSound = record {
  pool = (server-IsSound guest guest-IsSlot).pool;
  rooms = set-AreRooms Rooms.init 2 init-AreRooms init-at_2 room_57-IsRoom;
}
