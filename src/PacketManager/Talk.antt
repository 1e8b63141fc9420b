-- ===== src/PacketManager/Talk.antt =====
-- The handlers of room requests, for users of the pool in a well-formed state.
use iocp_chatting.Config.{max_user_id_len, max_chat_msg_size, room_max_user_cnt}
use iocp_chatting.Bytes.{copy_c_str, to_u32}
use iocp_chatting.Packet.{
  no_error, Packet, chat, room_chat_notify, set_packet_id_and_len, read_room_chat_request,
  read_room_enter_request, read_room_leave_request, Sent,
}
use iocp_chatting.User
use iocp_chatting.User.{User, room_state, login_state, state_eq}
use iocp_chatting.Users
use iocp_chatting.Users.{user_at}
use iocp_chatting.Room
use iocp_chatting.Room.{Room}
use iocp_chatting.Room.Broadcast.{to_each, notify_chat_reaches_all}
use iocp_chatting.Room.Enter.{Entered, enter_user_joins}
use iocp_chatting.Room.Leave.{Left, leave_user_of_lem}
use iocp_chatting.Rooms
use iocp_chatting.Rooms.Bounds.{get_user_by_index-lt}
use iocp_chatting.PacketManager.{
  State, send_packet, chat_response, enter_response, chat_in_room, room_chat_handler, enter_room_of,
  enter_room_handler, leave_room_of, leave_room_handler, leave_response,
}
use iocp_chatting.PacketManager.Sound.{IsSound}
use iocp_chatting.Prelude.{
  get_elem?-lt, ℕ, ◌+◌, ◌<◌, ◌≡◌, some, List, [], ◌∷◌, ◌++◌, arith, length, take, get_elem?, set,
  pos, to_int32,
}

pub get_room-at :
    (rooms : List Room) (k : ℕ) {r : Room}
    → get_elem? rooms k ≡ some r
    → Rooms.get_room_by_idx rooms (pos k) ≡ some k
unfolding Rooms.get_room_by_idx
get_room-at rooms k e = ground (arith, get_elem?-lt rooms k e)

-- The packet that the members of a room get for a message of user `u`.
abbrev pub chat_packet : (List ℕ → List ℕ) → User → List ℕ → Packet
chat_packet past_end u msg =
    set_packet_id_and_len room_chat_notify (
      chat (copy_c_str past_end (max_user_id_len + 1) u.user_id) (take (max_chat_msg_size + 1) msg))

module _ (past_end : List ℕ → List ℕ) (i : ℕ) (p_data : List ℕ) (s : State) (p : ℕ) (u : User)
    (ei : Users.get_user_by_index s.users (to_int32 i) ≡ some p)
    (eu : user_at s.users p ≡ some u) where
  -- A chat request of full length from a user in room `k`, in a sound state, is answered with success, and then the
  -- message goes once to each member of the room, the author among them, in the order of the list.
  -- Nothing else changes.
  pub room_chat_lem :
      IsSound s
      → (msg : List ℕ) (k : ℕ) (r : Room) → read_room_chat_request p_data ≡ some msg
      → u.domain_state ≡ room_state
      → u.room_idx ≡ pos k
      → get_elem? s.rooms k ≡ some r
      → room_chat_handler past_end i p_data s
        ≡ some (record s {
          sent =
              (s.sent ++ ((i, chat_response no_error) ∷ []))
              ++ to_each (chat_packet past_end u msg) r.user_list;
        })
  unfolding room_chat_handler chat_in_room
  room_chat_lem v msg k r em ed ek er = rw (
    em,
    ei,
    eu,
    ed,
    ek,
    get_room-at s.rooms k er,
    er,
    notify_chat_reaches_all past_end s.users r (to_u32 u.session_idx) u.user_id msg v.pool
        (v.rooms.each k r er).members,
  )

  -- A full request of a logged-in user for room `k` with space, in a sound state, takes the user in: the
  -- room's list grows by it, the members are told and it is told of them, and the answer, which
  -- comes last, is success.
  pub enter_room_lem :
      IsSound s
      → (k : ℕ) (r : Room) → read_room_enter_request p_data ≡ some (pos k)
      → u.domain_state ≡ login_state
      → get_elem? s.rooms k ≡ some r
      → length r.user_list < room_max_user_cnt
      → (o : Room.Outcome) × (enter_room_handler past_end i p_data s
          ≡ some (
              send_packet i (enter_response no_error) (record s {
                users = o.users;
                rooms = set s.rooms k o.room;
                sent = s.sent ++ o.sent;
              })))
        × Entered past_end s.users r p o
  unfolding enter_room_handler enter_room_of Rooms.enter_room
  enter_room_lem v k r en ed er space =
      let (o, run, entered) =
        enter_user_joins past_end s.users r p v.pool (v.rooms.each k r er) space
          (get_user_by_index-lt s.users (to_int32 i) v.pool ei) in
      (o, rw (en, ei, eu, ed, get_room-at s.rooms k er, er, run, entered.code), entered)

  -- A full leave request of a user in room `k`, in a sound state, takes the user, and whoever shares its
  -- identifier, out of the room's list, tells those that are left, puts the user back into the state
  -- of a logged-in one, and answers last, with success.
  pub leave_room_lem :
      IsSound s
      → (header : List ℕ) (k : ℕ) (r : Room) → read_room_leave_request p_data ≡ some header
      → u.domain_state ≡ room_state
      → u.room_idx ≡ pos k
      → get_elem? s.rooms k ≡ some r
      → (o : Room × List Sent) × (leave_room_handler i p_data s
          ≡ some (
              send_packet i (leave_response no_error) (record s {
                users = record (s.users) {
                  user_obj_pool = set s.users.user_obj_pool p (User.set_domain_state login_state u);
                };
                rooms = set s.rooms k o.0;
                sent = s.sent ++ o.1;
              })))
        × Left s.users r p u.user_id o
  unfolding leave_room_handler leave_room_of Rooms.leave_room Users.update_user
  leave_room_lem v header k r en ed ek er =
      let (o, run, left) =
        leave_user_of_lem s.users r p u v.pool (v.rooms.each k r er)
          (get_user_by_index-lt s.users (to_int32 i) v.pool ei) eu in
      (o, rw (en, ei, eu, ed, ek, get_room-at s.rooms k er, er, run), left)
