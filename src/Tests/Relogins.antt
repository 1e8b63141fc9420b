-- ===== src/Tests/Relogins.antt =====
-- The theorems on a second login at work, for the identifier "B".
use iocp_chatting.Bytes.{bytes_eq, c_str, read_bytes}
use iocp_chatting.Packet.{LoginRequestPacket, login_user_already, read_room_enter_request}
use iocp_chatting.Users
use iocp_chatting.Users.{find}
use iocp_chatting.Room
use iocp_chatting.Room.{Room}
use iocp_chatting.Room.Leave.{count}
use iocp_chatting.Rooms
use iocp_chatting.PacketManager.{
  State, send_packet, login_answer, login_of, login_db_res_handler, disconnect_handler,
  enter_room_handler,
}
use iocp_chatting.PacketManager.Stranded.{relogin_strands}
use iocp_chatting.Chat.Relogin.{relogin_in_two_rooms}
use iocp_chatting.Tests.Sample.{fresh_pool, state2, user_0}
use iocp_chatting.Tests.Talk.{nothing_behind, member}
use iocp_chatting.Tests.Lobby.{
  room_state, room_chat, room_slot, user_at_3, room_state-IsSound, room_state-Represents,
}
use iocp_chatting.Tests.Logins.{request, request-id, success}
use iocp_chatting.Prelude.{
  ℕ, ◌≡◌, ◌∙◌, refl, none, some, List, [], ◌∷◌, ◌++◌, get_elem?, get_elem?-set_ne, ◌>>=◌, pos,
  arith,
}

-- User 3, in room 2, asks for room 5.
abbrev room_5 : Room
room_5 = Room.init (pos 5) Room.fresh

init-at_5 : get_elem? Rooms.init 5 ≡ some room_5
unfolding Rooms.init Rooms.init_rooms
init-at_5 = refl

room_state-at_5 : get_elem? room_state.rooms 5 ≡ some room_5
room_state-at_5 = get_elem?-set_ne Rooms.init _ (omega arith) ∙ init-at_5

abbrev enter_5 : List ℕ
enter_5 = 9 ∷ 0 ∷ 206 ∷ 0 ∷ 0 ∷ 5 ∷ 0 ∷ 0 ∷ 0 ∷ []

asks_for_5 : read_room_enter_request enter_5 ≡ some (pos 5)
unfolding read_room_enter_request read_bytes
asks_for_5 = refl

unknown : find (66 ∷ []) room_state.users.user_id_map ≡ none
unfolding find fresh_pool Users.init
unknown = refl

relogin_in_two_rooms_example :
    (t : State) × (r' : Room) × (r'' : Room) × ((login_of 3 request room_state >>= λ s₁.
    login_db_res_handler 3 (0 ∷ 0 ∷ []) s₁ >>= λ s₂. enter_room_handler nothing_behind 3 enter_5 s₂)
      ≡ some t)
    × (get_elem? t.rooms 2 ≡ some r')
    × (count 3 r'.user_list ≡ 1)
    × (get_elem? t.rooms 5 ≡ some r'')
    × (count 3 r''.user_list ≡ 1)
unfolding Room.init
relogin_in_two_rooms_example =
    relogin_in_two_rooms nothing_behind 3 room_state room_chat 3 2 5 member room_5 request (66 ∷ [])
      (0 ∷ 0 ∷ []) enter_5 room_slot (user_at_3 member) room_state-IsSound room_state-Represents
      refl (omega arith) room_state-at_5 (omega arith) request-id unknown success asks_for_5

-- User 0 is logged in as "A".
abbrev known : State
known = record state2 { users = record (state2.users) { user_id_map = (65 ∷ [], pos 0) ∷ [] } }

known_A : find (65 ∷ []) known.users.user_id_map ≡ some (pos 0)
unfolding find bytes_eq
known_A = refl

known-slot : Users.get_user_by_index known.users (pos 0) ≡ some 0
unfolding Users.get_user_by_index
known-slot = refl

unknown_B : find (66 ∷ []) known.users.user_id_map ≡ none
unfolding find bytes_eq
unknown_B = refl

relogin_strands_example :
    (t : State) × ((login_of 0 request known >>= λ s₁.
    login_db_res_handler 0 (0 ∷ 0 ∷ []) s₁ >>= λ s₂. disconnect_handler 0 s₂)
      ≡ some t)
    × ((j : ℕ) (pkt' : LoginRequestPacket)
        → c_str (pkt'.user_id ++ pkt'.user_pw) ≡ some (65 ∷ [])
        → login_of j pkt' t ≡ some (send_packet j (login_answer login_user_already) t))
relogin_strands_example =
    relogin_strands 0 0 0 known user_0 request (66 ∷ []) (0 ∷ 0 ∷ []) known-slot refl known_A
      request-id unknown_B success
