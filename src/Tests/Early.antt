-- ===== src/Tests/Early.antt =====
-- A login request that is there before the notice of its connection is handled.
use iocp_chatting.Bytes.{read_bytes}
use iocp_chatting.Packet.{sys_user_connect, read_login_request}
use iocp_chatting.Ring
use iocp_chatting.Ring.{RingBuffer}
use iocp_chatting.Ring.Contents.{contents}
use iocp_chatting.Ring.Inv.{IsValid}
use iocp_chatting.User
use iocp_chatting.User.{User, login_state}
use iocp_chatting.Users
use iocp_chatting.Users.{user_at, find}
use iocp_chatting.Users.Pool.{IsSlot, set-IsPool}
use iocp_chatting.Rooms
use iocp_chatting.Rooms.Bounds.{init-AreRooms}
use iocp_chatting.Redis
use iocp_chatting.PacketManager.{State, login_db_res_handler}
use iocp_chatting.PacketManager.Sound.{IsSound}
use iocp_chatting.Dispatch.{process_round}
use iocp_chatting.Dispatch.Stuck.{Holds}
use iocp_chatting.ChatServer.{system_packet}
use iocp_chatting.ChatServer.Early.{early_login_anonymous}
use iocp_chatting.Tests.Sample.{fresh_pool, fresh_pool-IsPool}
use iocp_chatting.Tests.Talk.{nothing_behind, slot_3, pool_of, fresh_pool-at_3}
use iocp_chatting.Tests.Logins.{array33, request, request-id, success}
use iocp_chatting.Prelude.{
  ℕ, ◌≡◌, refl, none, some, List, [], ◌∷◌, ◌++◌, replicate, get_elem?-set_self, pos, arith,
}

-- The 71 bytes of the request at the start of a small storage.
abbrev ring96 : RingBuffer
ring96 = record {
  buf = 71 ∷ 0 ∷ 201 ∷ 0 ∷ 0 ∷ (array33 66 ++ array33 112 ++ replicate 25 0);
  front = 0;
  rear = 71;
  size = 96;
}

abbrev newcomer : User
newcomer = record slot_3 { packet_buf = ring96 }

ring96-IsValid : IsValid ring96
ring96-IsValid = record { storage = refl; front_in = omega arith; rear_in = omega arith }

newcomer-IsSlot : IsSlot 3 newcomer
unfolding User.init User.new_user
newcomer-IsSlot = record { own_index = refl; ring = ring96-IsValid }

abbrev early : State
early = record {
  users = pool_of newcomer;
  rooms = Rooms.init;
  redis = Redis.empty;
  incoming_packet_user_index_queue = pos 3 ∷ [];
  system_packet_queue = system_packet sys_user_connect (pos 3) ∷ [];
  sent = [];
}

early-IsSound : IsSound early
early-IsSound = record {
  pool = set-IsPool fresh_pool 3 slot_3 newcomer fresh_pool-IsPool fresh_pool-at_3 newcomer-IsSlot;
  rooms = init-AreRooms;
}

early-slot : Users.get_user_by_index early.users (pos 3) ≡ some 3
unfolding Users.get_user_by_index
early-slot = ground (arith, early-IsSound.pool.full)

early-user : user_at early.users 3 ≡ some newcomer
early-user =
    get_elem?-set_self fresh_pool.user_obj_pool 3 newcomer (omega (arith, fresh_pool-IsPool.full))

newcomer-Holds : Holds newcomer 201 71
unfolding Ring.get_size_in_use
newcomer-Holds = record {
  ring = ring96-IsValid;
  header = omega arith;
  whole = omega arith;
  id_field = refl;
  size_field = refl;
}

early-request : read_login_request (Ring.get_front_buffer_ptr newcomer.packet_buf) ≡ some request
unfolding read_login_request read_bytes Ring.get_front_buffer_ptr
early-request = refl

nobody : (id : List ℕ) → find id early.users.user_id_map ≡ none
unfolding find fresh_pool Users.init
nobody id = refl

early_login_anonymous_example :
    (t : State) × (t' : State) × (w : User) × (process_round nothing_behind early ≡ some t)
    × (t.redis
        ≡ Redis.push_task_req
            (Redis.set_task_body 3 Redis.request_login
              (Redis.login_req_bytes request.user_id request.user_pw))
            early.redis)
    × (login_db_res_handler 3 (0 ∷ 0 ∷ []) t ≡ some t')
    × (user_at t'.users 3 ≡ some w)
    × (w.domain_state ≡ login_state)
    × (w.user_id ≡ [])
    × (find [] t'.users.user_id_map ≡ some (pos 3))
    × (contents w.packet_buf ≡ [])
unfolding User.init User.new_user
early_login_anonymous_example =
    early_login_anonymous nothing_behind early [] [] 3 71 newcomer request (66 ∷ []) (0 ∷ 0 ∷ [])
      (omega arith) early-IsSound refl refl refl early-slot early-user refl newcomer-Holds
      early-request request-id (nobody (66 ∷ [])) (nobody []) success
