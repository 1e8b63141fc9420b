-- ===== src/Tests/Packets.antt =====
-- The theorems on the packet thread and the delegates at work.
use iocp_chatting.Bytes.{read_bytes}
use iocp_chatting.Packet.{
  PacketInfo, packet_id_code, sys_user_connect, user_not_in_room, read_room_leave_request,
}
use iocp_chatting.Ring
use iocp_chatting.Ring.{RingBuffer}
use iocp_chatting.User
use iocp_chatting.User.{User, none_state, login_state}
use iocp_chatting.Users
use iocp_chatting.Users.{user_at, find}
use iocp_chatting.Redis
use iocp_chatting.Redis.{
  task_id_code, response_login, read_login_res, login_res_bytes, set_task_body,
}
use iocp_chatting.PacketManager
use iocp_chatting.PacketManager.{
  State, login_of, login_handler, login_db_res_handler, send_packet, login_answer, leave_response,
}
use iocp_chatting.PacketManager.Sound.{IsSound, init-IsSound}
use iocp_chatting.Dispatch
use iocp_chatting.Dispatch.{
  user_packet_round, enqueue_system_packet, packet_handler, system_packet_round,
}
use iocp_chatting.Dispatch.Awake.{Awake}
use iocp_chatting.Dispatch.Awake.Runs.{Reach-Awake}
use iocp_chatting.Dispatch.Reach.{Step, Reach, Reach-IsSound}
use iocp_chatting.Dispatch.Stuck.{Holds, unknown_packet_stays}
use iocp_chatting.Dispatch.Overread.{wrapped_login_overread}
use iocp_chatting.Dispatch.Forged.{forged_login}
use iocp_chatting.Dispatch.Flood.{rounds, zero_size_floods}
use iocp_chatting.Dispatch.Reset.{forged_connect}
use iocp_chatting.ChatServer.{on_connect}
use iocp_chatting.ChatServer.Delegates.{connect-clears}
use iocp_chatting.Tests.Sample.{
  zeros, ring8, user_of, state_of, raw_storages, raw_storages-number, raw_storages-size,
}
use iocp_chatting.Prelude.{
  set, ◌++◌, ℕ, ◌≡◌, refl, Option, some, none, List, [], ◌∷◌, replicate, arith, pos,
}

abbrev nothing_behind : List ℕ → List ℕ
nothing_behind s = []

-- A user with a packet of the given size and identifier, both below 256 or split in two bytes.
abbrev holder : ℕ → ℕ → ℕ → User
holder size low high =
    user_of 0 none_state
      (record { buf = size ∷ 0 ∷ low ∷ high ∷ 0 ∷ replicate 11 0; front = 0; rear = 5; size = 16 })

abbrev queued : User → State
queued u = record (state_of (u ∷ [])) { incoming_packet_user_index_queue = pos 0 ∷ pos 7 ∷ [] }

slot_of : (u : User) → Users.get_user_by_index (queued u).users (pos 0) ≡ some 0
unfolding Users.get_user_by_index
slot_of u = refl

Holds-99 : Holds (holder 5 99 0) 99 5
unfolding Ring.get_size_in_use
Holds-99 = record {
  ring = record { storage = refl; front_in = omega arith; rear_in = omega arith };
  header = omega arith;
  whole = omega arith;
  id_field = refl;
  size_field = refl;
}

no_handler : packet_handler 99 ≡ none
unfolding packet_handler
no_handler = refl

unknown_packet_stays_example :
    user_packet_round nothing_behind (queued (holder 5 99 0))
    ≡ some (record (queued (holder 5 99 0)) { incoming_packet_user_index_queue = pos 7 ∷ [] })
unknown_packet_stays_example =
    unknown_packet_stays nothing_behind (queued (holder 5 99 0)) (pos 0) (pos 7 ∷ []) 0
      (holder 5 99 0) 99 5 refl (slot_of (holder 5 99 0)) refl Holds-99 no_handler

-- 1002 is 234 and 3.
Holds-1002 : Holds (holder 0 234 3) 1002 0
unfolding Ring.get_size_in_use
Holds-1002 = record {
  ring = record { storage = refl; front_in = omega arith; rear_in = omega arith };
  header = omega arith;
  whole = omega arith;
  id_field = refl;
  size_field = refl;
}

size_as_result : read_login_res (Ring.get_front_buffer_ptr (holder 0 234 3).packet_buf) ≡ some 0
unfolding read_login_res read_bytes Ring.get_front_buffer_ptr
size_as_result = refl

forged_login_example :
    (t : State) × (w : User) × (user_packet_round nothing_behind (queued (holder 0 234 3)) ≡ some t)
    × (user_at t.users 0 ≡ some w)
    × (w.domain_state ≡ login_state)
    × (w.user_id ≡ 65 ∷ [])
    × (t.redis ≡ Redis.empty)
forged_login_example =
    forged_login nothing_behind (queued (holder 0 234 3)) (pos 7 ∷ []) 0 (holder 0 234 3)
      (omega arith) refl (slot_of (holder 0 234 3)) refl refl Holds-1002 size_as_result

Holds-11 : Holds (holder 5 11 0) 11 5
unfolding Ring.get_size_in_use
Holds-11 = record {
  ring = record { storage = refl; front_in = omega arith; rear_in = omega arith };
  header = omega arith;
  whole = omega arith;
  id_field = refl;
  size_field = refl;
}

-- A request to leave of size 0.
abbrev leaver : User
leaver = holder 0 215 0

Holds-215 : Holds leaver 215 0
unfolding Ring.get_size_in_use
Holds-215 = record {
  ring = record { storage = refl; front_in = omega arith; rear_in = omega arith };
  header = omega arith;
  whole = omega arith;
  id_field = refl;
  size_field = refl;
}

leaver-header :
    read_room_leave_request (Ring.get_front_buffer_ptr leaver.packet_buf)
    ≡ some (0 ∷ 0 ∷ 215 ∷ 0 ∷ 0 ∷ [])
unfolding read_room_leave_request read_bytes Ring.get_front_buffer_ptr
leaver-header = refl

zero_size_floods_example :
    rounds nothing_behind 1000 (record (state_of (leaver ∷ [])) {
      incoming_packet_user_index_queue = pos 0 ∷ [];
      system_packet_queue = [];
      sent = [];
    })
    ≡ some (record (state_of (leaver ∷ [])) {
      incoming_packet_user_index_queue = pos 0 ∷ [];
      system_packet_queue = [];
      sent = [] ++ replicate 1000 (0, leave_response user_not_in_room);
    })
zero_size_floods_example =
    zero_size_floods nothing_behind (state_of (leaver ∷ [])) 0 leaver (0 ∷ 0 ∷ 215 ∷ 0 ∷ 0 ∷ [])
      (omega arith) (slot_of leaver) refl refl Holds-215 leaver-header refl refl 1000 []

forged_connect_example :
    (t : State) × (w : User) × (user_packet_round nothing_behind (queued (holder 5 11 0)) ≡ some t)
    × (user_at t.users 0 ≡ some w)
    × (w.domain_state ≡ none_state)
    × (Ring.get_size_in_use w.packet_buf ≡ 11)
    × (t.incoming_packet_user_index_queue ≡ pos 7 ∷ pos 0 ∷ [])
forged_connect_example =
    forged_connect nothing_behind (queued (holder 5 11 0)) (pos 7 ∷ []) 0 5 (holder 5 11 0)
      (omega arith) refl (slot_of (holder 5 11 0)) refl refl Holds-11 (omega arith)

-- A connection is reported, and the Redis thread looks into its empty queue.
abbrev connection : PacketInfo
connection = record {
  session_index = 3;
  id = packet_id_code sys_user_connect;
  size = 0;
  bytes = [];
}

-- Redis knows nobody.
abbrev no_redis : List ℕ → Option (List ℕ)
no_redis k = none

-- The state behind the packet thread's round over it, for a user `u` in slot 3.
abbrev cleared : State → User → State
cleared s u = record s {
  users = record (s.users) { user_obj_pool = set s.users.user_obj_pool 3 (User.clear u) };
}

users_idle :
    (s : State)
    → s.incoming_packet_user_index_queue ≡ []
    → user_packet_round nothing_behind s ≡ some s
unfolding user_packet_round Dispatch.dequeue_packet Dispatch.process_if
users_idle s eq = rw eq

redis_idle : (s : State) → s.redis ≡ Redis.empty → Dispatch.redis_round nothing_behind s ≡ some s
unfolding Dispatch.redis_round Dispatch.get_task_res Redis.get_task_res Dispatch.process_if
redis_idle s er = rw er

waits :
    (s : State)
    → s.incoming_packet_user_index_queue ≡ []
    → (on_connect (pos 3) s).incoming_packet_user_index_queue ≡ []
unfolding on_connect enqueue_system_packet
waits s eq = eq

connection_run :
    (s : State) (u : User)
    → s.incoming_packet_user_index_queue ≡ []
    → s.system_packet_queue ≡ []
    → s.redis ≡ Redis.empty
    → Users.get_user_by_index s.users (pos 3) ≡ some 3
    → user_at s.users 3 ≡ some u
    → Dispatch.process_round nothing_behind (on_connect (pos 3) s) ≡ some (cleared s u)
unfolding Dispatch.process_round
connection_run s u eq es er ei eu =
    rw
      (
        users_idle (on_connect (pos 3) s) (waits s eq),
        connect-clears nothing_behind 3 s u (omega arith) es ei eu,
      )
      (redis_idle (cleared s u) er)

reported_by : (s : State) → on_connect (pos 3) s ≡ enqueue_system_packet connection s
unfolding on_connect
reported_by s = refl

abbrev start : State
start = PacketManager.init raw_storages

abbrev slot_3 : User
slot_3 = User.init (pos 3) (User.new_user zeros)

start-at_3 : user_at start.users 3 ≡ some slot_3
unfolding PacketManager.init Users.init Users.init_pool
start-at_3 = refl

start-slot_3 : Users.get_user_by_index start.users (pos 3) ≡ some 3
unfolding Users.get_user_by_index
start-slot_3 =
    ground (arith, (init-IsSound raw_storages raw_storages-number raw_storages-size).pool.full)

-- Session 3 connects, and the packet thread clears its user.
run : Reach nothing_behind no_redis start (cleared start slot_3)
unfolding PacketManager.init
run =
    Reach.next (Reach.next Reach.here (Step.notice connection (reported_by start)))
      (Step.round (connection_run start slot_3 refl refl refl start-slot_3 start-at_3))

Reach-IsSound_example : IsSound (cleared start slot_3)
Reach-IsSound_example =
    Reach-IsSound nothing_behind no_redis raw_storages raw_storages-number raw_storages-size run

Reach-Awake_example : Awake (cleared start slot_3)
Reach-Awake_example =
    Reach-Awake nothing_behind no_redis raw_storages raw_storages-number raw_storages-size run

abbrev user_in : User
user_in = user_of 0 login_state ring8

slot_in : Users.get_user_by_index (state_of (user_in ∷ [])).users (pos 0) ≡ some 0
unfolding Users.get_user_by_index
slot_in = refl

-- The header of a login request of 71 bytes, of which 6 are before the end of the storage.
abbrev wrapped : User
wrapped = user_of 0 none_state (record {
  buf = replicate 90 0 ++ (71 ∷ 0 ∷ 201 ∷ 0 ∷ 0 ∷ 66 ∷ []);
  front = 90;
  rear = 70;
  size = 96;
})

Holds-login : Holds wrapped 201 71
unfolding Ring.get_size_in_use
Holds-login = record {
  ring = record { storage = refl; front_in = omega arith; rear_in = omega arith };
  header = omega arith;
  whole = omega arith;
  id_field = refl;
  size_field = refl;
}

wrapped_login_overread_example : user_packet_round nothing_behind (queued wrapped) ≡ none
wrapped_login_overread_example =
    wrapped_login_overread nothing_behind (queued wrapped) (pos 0) (pos 7 ∷ []) 0 wrapped 71 refl
      (slot_of wrapped) refl Holds-login (omega arith)
