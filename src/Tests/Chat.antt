-- ===== src/Tests/Chat.antt =====
-- The theorems on the users, the rooms and the logins at work, on a pool whose users 3 and 5 have
-- the identifiers "A" and "B".
use iocp_chatting.Config.{max_user_id_len, max_chat_msg_size}
use iocp_chatting.Bytes.{copy_c_str}
use iocp_chatting.Packet.{Packet, chat, room_chat_notify, set_packet_id_and_len}
use iocp_chatting.Ring.Inv.{init-IsValid}
use iocp_chatting.User
use iocp_chatting.User.{User}
use iocp_chatting.Users
use iocp_chatting.Users.{UserManager, user_at, find, insert}
use iocp_chatting.Users.Pool.{IsPool, IsSlot, set-IsPool}
use iocp_chatting.Room
use iocp_chatting.Room.{Room}
use iocp_chatting.Room.Enter.{IsRoom, Entered, enter_user_joins}
use iocp_chatting.Tests.Sample.{zeros, fresh_pool, fresh_pool-IsPool}
use iocp_chatting.Prelude.{
  ℕ, ◌+◌, ◌≡◌, refl, ◌∙◌, some, List, [], ◌∷◌, take, set, get_elem?-set_self, get_elem?-set_ne,
  length-replicate, arith, pos,
}

-- The user of a slot at the start.
abbrev slot : ℕ → User
slot i = User.init (pos i) (User.new_user zeros)

slot-IsSlot : (i : ℕ) (id : List ℕ) → IsSlot i (User.set_user_id id (slot i))
unfolding User.init User.new_user User.set_user_id
slot-IsSlot i id = record {
  own_index = refl;
  ring = init-IsValid zeros (length-replicate {A = ℕ} _ 0);
}

fresh_pool-at_3 : user_at fresh_pool 3 ≡ some (slot 3)
unfolding fresh_pool Users.init Users.init_pool
fresh_pool-at_3 = refl

fresh_pool-at_5 : user_at fresh_pool 5 ≡ some (slot 5)
unfolding fresh_pool Users.init Users.init_pool
fresh_pool-at_5 = refl

abbrev named_3 : List ℕ → User
named_3 id = User.set_user_id id (slot 3)

abbrev named_5 : List ℕ → User
named_5 id = User.set_user_id id (slot 5)

abbrev pool_3 : List ℕ → UserManager
pool_3 a = record fresh_pool { user_obj_pool = set fresh_pool.user_obj_pool 3 (named_3 a) }

abbrev pool_35 : List ℕ → List ℕ → UserManager
pool_35 a b = record (pool_3 a) { user_obj_pool = set (pool_3 a).user_obj_pool 5 (named_5 b) }

pool_3-at_5 : (a : List ℕ) → user_at (pool_3 a) 5 ≡ some (slot 5)
pool_3-at_5 a =
    get_elem?-set_ne fresh_pool.user_obj_pool {i = 3} {j = 5} (named_3 a) (omega arith)
    ∙ fresh_pool-at_5

pool_3-IsPool : (a : List ℕ) → IsPool (pool_3 a)
pool_3-IsPool a =
    set-IsPool fresh_pool 3 (slot 3) (named_3 a) fresh_pool-IsPool fresh_pool-at_3 (slot-IsSlot 3 a)

pool_35-IsPool : (a b : List ℕ) → IsPool (pool_35 a b)
pool_35-IsPool a b =
    set-IsPool (pool_3 a) 5 (slot 5) (named_5 b) (pool_3-IsPool a) (pool_3-at_5 a) (slot-IsSlot 5 b)

pool_35-at_5 : (a b : List ℕ) → user_at (pool_35 a b) 5 ≡ some (named_5 b)
pool_35-at_5 a b =
    get_elem?-set_self (pool_3 a).user_obj_pool 5 (named_5 b)
      (omega (arith, (pool_3-IsPool a).full))

pool_35-at_3 : (a b : List ℕ) → user_at (pool_35 a b) 3 ≡ some (named_3 a)
pool_35-at_3 a b =
    get_elem?-set_ne (pool_3 a).user_obj_pool {i = 5} {j = 3} (named_5 b) (omega arith)
    ∙ get_elem?-set_self fresh_pool.user_obj_pool 3 (named_3 a)
        (omega (arith, fresh_pool-IsPool.full))

abbrev pool : UserManager
pool = pool_35 (65 ∷ []) (66 ∷ [])

-- Room 2 with users 3 and 5.
abbrev room : Room
room = record { room_idx = pos 2; user_list = 3 ∷ 5 ∷ []; max_user_cnt = 10; current_user_cnt = 2 }

room-IsRoom : IsRoom room
room-IsRoom = record {
  cap = refl;
  bounded = omega arith;
  members = (omega arith, (omega arith, tt));
}

-- No memory is read behind a string.
abbrev nothing_behind : List ℕ → List ℕ
nothing_behind s = []

abbrev hello : List ℕ
hello = 104 ∷ 105 ∷ 0 ∷ []

abbrev hello_packet : Packet
hello_packet = set_packet_id_and_len room_chat_notify (
    chat (copy_c_str nothing_behind (max_user_id_len + 1) (65 ∷ []))
      (take (max_chat_msg_size + 1) hello))

enter_user_joins_example :
    (o : Room.Outcome) × (Room.enter_user nothing_behind pool room 7 ≡ some o)
    × Entered nothing_behind pool room 7 o
enter_user_joins_example =
    enter_user_joins nothing_behind pool room 7 (pool_35-IsPool (65 ∷ []) (66 ∷ [])) room-IsRoom
      (omega arith) (omega arith)

-- Both users have the identifier "A".
