-- ===== src/Tests/Lobby.antt =====
-- The abstract chat over concrete states: user 3 in the lobby, and in room 2.
use iocp_chatting.Bytes.{bytes_eq, copy_c_str}
use iocp_chatting.Packet.{Packet, Sent, chat, no_error}
use iocp_chatting.User
use iocp_chatting.User.{User}
use iocp_chatting.Users
use iocp_chatting.Users.{user_at}
use iocp_chatting.Users.Pool.{set-IsPool}
use iocp_chatting.Room.{Room}
use iocp_chatting.Room.Enter.{IsRoom}
use iocp_chatting.Room.Leave.{count}
use iocp_chatting.Rooms
use iocp_chatting.Rooms.Bounds.{init-AreRooms, set-AreRooms}
use iocp_chatting.Redis
use iocp_chatting.PacketManager
use iocp_chatting.PacketManager.{
  State, enter_response, leave_response, chat_response, enter_room_handler, leave_room_handler,
  room_chat_handler, disconnect_handler,
}
use iocp_chatting.PacketManager.Sound.{IsSound}
use iocp_chatting.Chat.{departed, Chat, outside, lobby, inside, is_inside, tally, put, enter}
use iocp_chatting.Chat.Represents.{
  Represents, Does, placed-Represents, moved-Represents, init-Represents,
}
use iocp_chatting.Chat.Refine.{enter_room_handler-refines, room_chat_handler-reaches_occupants}
use iocp_chatting.Tests.Sample.{zeros, raw_storages, fresh_pool, fresh_pool-IsPool}
use iocp_chatting.Tests.Talk.{
  nothing_behind, slot_3, guest, member, pool_of, chat_bytes, message, enter_bytes, guest-IsSlot,
  member-IsSlot, fresh_pool-at_3, init-at_2, chat_request, enter_request,
}
use iocp_chatting.Packet.Wire.{to_bytes}
use iocp_chatting.Ring
use iocp_chatting.Ring.{get_free_size}
use iocp_chatting.Ring.Inv.{init-IsValid}
use iocp_chatting.Ring.Contents.{contents}
use iocp_chatting.Session
use iocp_chatting.Session.{Session}
use iocp_chatting.Network.{Network}
use iocp_chatting.PacketManager.Talk.{chat_packet}
use iocp_chatting.ChatServer.Send.{send_all}
use iocp_chatting.ChatServer.Delivery.{chat_delivered}
use iocp_chatting.Chat.Ghost.{disconnected_still_chats}
use iocp_chatting.Tests.Pool.{start, session_3, start-at_3}
use iocp_chatting.Tests.Wire.{start-Full}
use iocp_chatting.Room.Broadcast.{to_each}
use iocp_chatting.Prelude.{
  take, get_elem?, take, replicate, length-replicate, ℕ, ◌<◌, ◌≡◌, ◌≢◌, refl, some, false, List, [],
  ◌∷◌, ◌++◌, set, get_elem?-set_self, get_elem?-set_ne, arith, pos, if◌then◌else◌, ◌==◌,
}

abbrev pub empty_chat : Chat
empty_chat q = outside

abbrev fresh : State
fresh = record {
  users = fresh_pool;
  rooms = Rooms.init;
  redis = Redis.empty;
  incoming_packet_user_index_queue = [];
  system_packet_queue = [];
  sent = [];
}

fresh-Represents : Represents fresh empty_chat
unfolding fresh_pool PacketManager.init
fresh-Represents =
    let v = init-Represents raw_storages in
    record { places = v.places; numbers = v.numbers; lists = v.lists }

pub user_at_3 : (u : User) → user_at (pool_of u) 3 ≡ some u
user_at_3 u =
    get_elem?-set_self fresh_pool.user_obj_pool 3 u (omega (arith, fresh_pool-IsPool.full))

others_at : (u : User) (q : ℕ) → 3 ≢ q → user_at (pool_of u) q ≡ user_at fresh_pool q
others_at u q other = get_elem?-set_ne fresh_pool.user_obj_pool u other

-- User 3 in the lobby.
abbrev pub lobby_state : State
lobby_state = record fresh { users = pool_of guest }

abbrev pub lobby_chat : Chat
lobby_chat = put 3 lobby empty_chat

pub lobby_state-Represents : Represents lobby_state lobby_chat
unfolding User.set_login
lobby_state-Represents =
    placed-Represents fresh empty_chat 3 lobby guest (pool_of guest) fresh-Represents
      (user_at_3 guest) refl (others_at guest) (λ j. refl)

pub lobby_state-IsSound : IsSound lobby_state
lobby_state-IsSound = record {
  pool = set-IsPool fresh_pool 3 slot_3 guest fresh_pool-IsPool fresh_pool-at_3 guest-IsSlot;
  rooms = init-AreRooms;
}

pub lobby_slot : Users.get_user_by_index lobby_state.users (pos 3) ≡ some 3
unfolding Users.get_user_by_index
lobby_slot = ground (arith, lobby_state-IsSound.pool.full)

enter_room_handler-refines_example :
    Does 3 lobby_state
      (enter_room_handler nothing_behind 3 enter_bytes lobby_state)
      enter_response
      (enter 3 (pos 2) lobby_chat)
enter_room_handler-refines_example =
    enter_room_handler-refines nothing_behind 3 enter_bytes lobby_state lobby_chat 3 guest
      lobby_slot (user_at_3 guest) lobby_state-IsSound lobby_state-Represents (pos 2) enter_request
      (λ e. cc)

-- User 3 alone in room 2.
abbrev room_3 : Room
room_3 = record { room_idx = pos 2; user_list = 3 ∷ []; max_user_cnt = 10; current_user_cnt = 1 }

room_3-IsRoom : IsRoom room_3
room_3-IsRoom = record { cap = refl; bounded = omega arith; members = (omega arith, tt) }

abbrev pub room_state : State
room_state = record fresh { users = pool_of member; rooms = set Rooms.init 2 room_3 }

abbrev pub room_chat : Chat
room_chat = put 3 (inside 2) empty_chat

pub room_state-Represents : Represents room_state room_chat
unfolding User.enter_room
room_state-Represents =
    moved-Represents fresh empty_chat 3 2 (inside 2) member (pool_of member) room_3 []
      fresh-Represents (user_at_3 member) (refl, refl, omega arith) (others_at member) refl
      (λ q lt. ground arith) (λ j other. ground (arith, other))

pub room_state-IsSound : IsSound room_state
room_state-IsSound = record {
  pool = set-IsPool fresh_pool 3 slot_3 member fresh_pool-IsPool fresh_pool-at_3 member-IsSlot;
  rooms = set-AreRooms Rooms.init 2 init-AreRooms init-at_2 room_3-IsRoom;
}

pub room_slot : Users.get_user_by_index room_state.users (pos 3) ≡ some 3
unfolding Users.get_user_by_index
room_slot = ground (arith, room_state-IsSound.pool.full)

pub alone :
    (q : ℕ) (w : User)
    → user_at room_state.users q ≡ some w
    → 3 ≢ q
    → room_chat q ≡ room_chat 3
    → bytes_eq member.user_id w.user_id ≡ false
alone q w e other same = absurd (ground (arith, same, other))

room_chat_handler-reaches_occupants_example :
    let notify : Packet = record {
      size = 295;
      id = 223;
      body = chat (copy_c_str nothing_behind 33 member.user_id) (take 257 message);
    } in
    (qs : List ℕ) × (room_chat_handler nothing_behind 3 chat_bytes room_state
      ≡ some (record room_state {
        sent = ([] ++ ((3, chat_response no_error) ∷ [])) ++ to_each notify qs;
      }))
    × ((q : ℕ) → q < 1000 → count q qs ≡ tally (is_inside 2 (room_chat q)))
room_chat_handler-reaches_occupants_example =
    room_chat_handler-reaches_occupants nothing_behind 3 chat_bytes room_state room_chat 3 member
      room_slot (user_at_3 member) room_state-IsSound room_state-Represents message 2 chat_request
      refl

-- The answer and the message come to the send ring of session 3, which is new.
abbrev stale : List ℕ
stale = replicate 500 204

abbrev delivered : List ℕ
delivered =
    to_bytes 204 stale (chat_response no_error)
    ++ to_bytes 204 stale (chat_packet nothing_behind member message)

chat_delivered_example :
    (out : List Sent) × (n' : Network) × (s' : Session) × (room_chat_handler nothing_behind 3
        chat_bytes room_state
      ≡ some (record room_state { sent = [] ++ out }))
    × (send_all 204 stale out start.net ≡ some n')
    × (get_elem? n'.session_list 3 ≡ some s')
    × (contents s'.send_buf ≡ [] ++ take (get_free_size session_3.send_buf) delivered)
unfolding Session.init Ring.init Ring.get_size_in_use
chat_delivered_example =
    chat_delivered nothing_behind 3 chat_bytes room_state room_chat 3 member message 2 204 stale
      start.net 3 session_3 room_slot (user_at_3 member) room_state-IsSound room_state-Represents
      chat_request refl start-Full (omega arith) start-at_3
      (init-IsValid zeros (length-replicate {A = ℕ} _ 0))

disconnected_still_chats_example :
    let notify : Packet = record {
      size = 295;
      id = 223;
      body = chat (copy_c_str nothing_behind 33 member.user_id) (take 257 message);
    } in
    (t : State) × (qs : List ℕ) × (disconnect_handler 3 room_state ≡ some t)
    × (room_chat_handler nothing_behind 3 chat_bytes t
        ≡ some (record t {
          sent = (t.sent ++ ((3, chat_response no_error) ∷ [])) ++ to_each notify qs;
        }))
    × ((q : ℕ) → q < 1000 → count q qs ≡ (if 3 == q then 0 else tally (is_inside 2 (room_chat q))))
    × ((c' : Chat) → Represents t c' → c' 3 ≡ departed)
disconnected_still_chats_example =
    disconnected_still_chats nothing_behind 3 chat_bytes room_state room_chat 3 member message 2
      room_slot (user_at_3 member) room_state-IsSound room_state-Represents chat_request refl alone
