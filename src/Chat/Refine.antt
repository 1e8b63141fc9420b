-- ===== src/Chat/Refine.antt =====
-- The packet handlers of rooms do what the abstract chat does: `RoomEnterHandler` and
-- `RoomLeaveHandler` (Content/packet_manager.cpp) against `Chat.enter` and `Chat.leave`.
use iocp_chatting.Chat.Represents.{
  Stands, Represents, Does, moved-Represents, joined_counts, inside_other, lobby_outside_rooms,
  refused-Does, asked-Does,
}
use iocp_chatting.Config.{
  max_user_id_len, max_chat_msg_size, max_user_cnt, max_room_cnt, room_max_user_cnt,
}
use iocp_chatting.Bytes.{copy_c_str}
use iocp_chatting.Packet.{
  Packet, chat, no_error, room_invalid_index, enter_room_full_user, enter_room_not_used_status,
  user_not_in_room, read_room_enter_request, read_room_leave_request, read_room_chat_request,
}
use iocp_chatting.User
use iocp_chatting.User.{User, none_state, login_state, room_state, state_eq}
use iocp_chatting.Users
use iocp_chatting.Users.{UserManager, user_at}
use iocp_chatting.Room.{Room}
use iocp_chatting.Room.Broadcast.{to_each}
use iocp_chatting.Room.Enter.{enter_user_joins, enter_user_full}
use iocp_chatting.Room.Leave.{count}
use iocp_chatting.Rooms
use iocp_chatting.Rooms.Bounds.{get_user_by_index-lt}
use iocp_chatting.PacketManager.{
  State, send_packet, enter_response, leave_response, enter_room_handler, room_chat_handler,
  chat_response, enter_room_of, leave_room_handler,
}
use iocp_chatting.PacketManager.Sound.{IsSound}
use iocp_chatting.PacketManager.Talk.{get_room-at, leave_room_lem, room_chat_lem}
use iocp_chatting.Chat.{
  Place, outside, lobby, departed, inside, Chat, is_inside, tally, occupants, put, enter,
  enter_from, leave, leave_from,
}
use iocp_chatting.Chat.Away.{OwnIdInRoom, counts_without}
use iocp_chatting.Chat.Occupants.{length-occupants}
use iocp_chatting.Prelude.{
  ◌+◌, take, get_elem?-set_self, get_elem?-lt, get_elem?_of_lt, set-get_elem?, ℕ, ◌<◌, ◌≡◌, ◌≢◌,
  refl, sym, ap, ◌∙◌, subst, false, some, List, [], ◌∷◌, ◌++◌, ltb, length, get_elem?, set,
  get_elem?-set_ne, if◌then◌else◌, Bool-cases, inl, inr, ℤ, pos, negsuc, to_int32, arith,
}

module _ (past_end : List ℕ → List ℕ) (i : ℕ) (p_data : List ℕ) (s : State) (c : Chat) (p : ℕ)
    (u : User) (ei : Users.get_user_by_index s.users (to_int32 i) ≡ some p)
    (eu : user_at s.users p ≡ some u) (v : IsSound s) (rep : Represents s c) where
  -- A user of the lobby asks for a room that is there.
  enter_room-Does :
      (k : ℕ) (r : Room)
      → read_room_enter_request p_data ≡ some (pos k)
      → c p ≡ lobby
      → u.domain_state ≡ login_state
      → get_elem? s.rooms k ≡ some r
      → Does i s (enter_room_handler past_end i p_data s) enter_response (
          if ltb (occupants c k) room_max_user_cnt
          then (no_error, put p (inside k) c)
          else (enter_room_full_user, c))
  unfolding enter_room_handler enter_room_of Rooms.enter_room
  enter_room-Does k r en e st er =
      let vr = v.rooms.each k r er in
      let lt = get_user_by_index-lt s.users (to_int32 i) v.pool ei in
      let n = length-occupants k r.user_list c vr.members (rep.lists k r er) in
      elim (Bool-cases (ltb (occupants c k) room_max_user_cnt)) [
        | inl space ↦
            let (o, run, entered) =
              enter_user_joins past_end s.users r p v.pool vr (ground (arith, n)) lt in
            rw space (record {
              state = send_packet i (enter_response no_error) (record s {
                users = o.users;
                rooms = set s.rooms k o.room;
                sent = s.sent ++ o.sent;
              });
              out = o.sent;
              returns = rw (en, ei, eu, st, get_room-at s.rooms k er, er, run, entered.code);
              chat =
                  moved-Represents s c p k (inside k) entered.user o.users o.room _ rep
                    entered.at_slot
                    (
                      entered.in_room,
                      entered.room_number ∙ rep.numbers k r er,
                      omega (arith, get_elem?-lt s.rooms k er, v.rooms.number),
                    )
                    entered.kept (entered.number ∙ rep.numbers k r er)
                    (λ q lt'.
                      ap (count q) entered.joined
                      ∙ joined_counts c p k r.user_list e (rep.lists k r er) q lt')
                    (λ j other. inside_other j k other ∙ sym (lobby_outside_rooms c p j e));
              answered = refl;
            })
        | inr full ↦ rw full (
            asked-Does i s c rep _ enter_response enter_room_full_user (
              rw (
                en,
                ei,
                eu,
                st,
                get_room-at s.rooms k er,
                er,
                enter_user_full past_end s.users r p vr (ground (arith, n, vr.bounded)),
                set-get_elem? s.rooms k r er,
              )))
      ]

  enter_lobby-Does :
      (number : ℤ)
      → read_room_enter_request p_data ≡ some number
      → c p ≡ lobby
      → u.domain_state ≡ login_state
      → Does i s
          (enter_room_handler past_end i p_data s)
          enter_response
          (enter_from lobby p number c)
  unfolding enter_room_handler enter_room_of Rooms.enter_room Rooms.get_room_by_idx
  enter_lobby-Does (negsuc k) en e st =
      asked-Does i s c rep _ enter_response room_invalid_index (rw (en, ei, eu, st))
  enter_lobby-Does (pos k) en e st = elim (Bool-cases (ltb k max_room_cnt)) [
    | inl there ↦
        let (r, er) = get_elem?_of_lt s.rooms k (ground (arith, v.rooms.number)) in
        rw there (enter_room-Does k r en e st er)
    | inr gone ↦
        let nowhere : ltb k (length s.rooms) ≡ false = rw v.rooms.number gone in
        rw gone
          (asked-Does i s c rep _ enter_response room_invalid_index (rw (en, ei, eu, st, nowhere)))
  ]

  module _ (number : ℤ) (en : read_room_enter_request p_data ≡ some number)
      (here : c p ≢ departed) where
    enter_from-Does :
        (pl : Place)
        → c p ≡ pl
        → Stands u pl
        → Does i s
            (enter_room_handler past_end i p_data s)
            enter_response
            (enter_from pl p number c)
    unfolding enter_room_handler
    enter_from-Does outside e st =
        refused-Does i s c rep _ enter_response enter_room_not_used_status (rw (en, ei, eu, st))
    enter_from-Does departed e st = absurd (here e)
    enter_from-Does (inside k) e st =
        refused-Does i s c rep _ enter_response enter_room_not_used_status (rw (en, ei, eu, st.0))
    enter_from-Does lobby e st = enter_lobby-Does number en e st

    -- A full enter request in a sound state that holds a chat: the handler returns, its state holds the
    -- chat in which `Chat.enter` has put the user, and the last packet is the answer with the code of
    -- `Chat.enter`, whatever room number is asked for and wherever the user is, unless it has departed.
    pub enter_room_handler-refines :
        Does i s (enter_room_handler past_end i p_data s) enter_response (enter p number c)
    enter_room_handler-refines = enter_from-Does (c p) refl (rep.places p u eu)

  module _ (header : List ℕ) (en : read_room_leave_request p_data ≡ some header)
      (own : OwnIdInRoom s c p u) (here : c p ≢ departed) where
    leave_from-Does :
        (pl : Place)
        → c p ≡ pl
        → Stands u pl
        → Does i s (leave_room_handler i p_data s) leave_response (leave_from pl p c)
    unfolding leave_room_handler User.set_domain_state
    leave_from-Does outside e st =
        refused-Does i s c rep _ leave_response user_not_in_room (rw (en, ei, eu, st))
    leave_from-Does lobby e st =
        refused-Does i s c rep _ leave_response user_not_in_room (rw (en, ei, eu, st))
    leave_from-Does departed e st = absurd (here e)
    leave_from-Does (inside k) e st =
        let (r, er) = get_elem?_of_lt s.rooms k (omega (arith, v.rooms.number, st.2)) in
        let (o, run, left) =
          leave_room_lem past_end i p_data s p u ei eu v header k r en st.0 st.1 er in
        record {
          state = _;
          out = o.1;
          returns = run;
          chat =
              moved-Represents s c p k lobby (User.set_domain_state login_state u) _ o.0 _ rep
                (get_elem?-set_self s.users.user_obj_pool p _
                  (get_elem?-lt s.users.user_obj_pool p eu))
                refl (λ q other. get_elem?-set_ne s.users.user_obj_pool _ other)
                (left.number ∙ rep.numbers k r er)
                (counts_without s c p u eu v rep lobby k r o refl e er (own k e) left)
                (λ j other. sym (ap (is_inside j) e ∙ inside_other j k other));
          answered = refl;
        }

    -- The same for a full leave request and `Chat.leave`, if nobody else in the user's room has the
    -- user's identifier and the user has not departed.
    pub leave_room_handler-refines :
        Does i s (leave_room_handler i p_data s) leave_response (leave p c)
    leave_room_handler-refines = leave_from-Does (c p) refl (rep.places p u eu)

  -- A chat request of full length of a user in room `k` is answered with success, and then one packet
  -- with the user's identifier and the message goes to each user that the chat has in room `k`, the
  -- author among them, and none to anybody else.
  pub room_chat_handler-reaches_occupants :
      (msg : List ℕ) (k : ℕ)
      → read_room_chat_request p_data ≡ some msg
      → c p ≡ inside k
      → let message : Packet = record {
        size = 295;
        id = 223;
        body =
            chat
              (copy_c_str past_end (max_user_id_len + 1) u.user_id)
              (take (max_chat_msg_size + 1) msg);
      } in
        (qs : List ℕ) × (room_chat_handler past_end i p_data s
          ≡ some (record s {
            sent = (s.sent ++ ((i, chat_response no_error) ∷ [])) ++ to_each message qs;
          }))
        × ((q : ℕ) → q < max_user_cnt → count q qs ≡ tally (is_inside k (c q)))
  room_chat_handler-reaches_occupants msg k em e =
      let st = subst (Stands u) e (rep.places p u eu) in
      let (r, er) = get_elem?_of_lt s.rooms k (omega (arith, v.rooms.number, st.2)) in
      (
        r.user_list,
        room_chat_lem past_end i p_data s p u ei eu v msg k r em st.0 st.1 er,
        rep.lists k r er,
      )
