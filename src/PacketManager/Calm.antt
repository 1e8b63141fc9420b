-- ===== src/PacketManager/Calm.antt =====
-- No handler puts a packet at the front of a user's ring where there was none, and none touches the
-- queue of user indices.
use iocp_chatting.Packet.{
  read_login_request, read_room_enter_request, read_room_leave_request, read_room_chat_request,
  error_code, no_error, LoginRequestPacket,
}
use iocp_chatting.Bytes.{c_str}
use iocp_chatting.User
use iocp_chatting.User.{User, login_state, room_state, state_eq}
use iocp_chatting.User.Quiet.{clear-Quiet}
use iocp_chatting.Users
use iocp_chatting.Users.{user_at}
use iocp_chatting.Users.Calm.{
  CalmUsers, CalmUsers-refl, CalmUsers-trans, update_user-Calm, set_user_login-Calm,
  set_user_id-Calm, delete_user_info-Calm,
}
use iocp_chatting.Room
use iocp_chatting.Rooms
use iocp_chatting.Rooms.Calm.{enter_room-Calm, leave_room-Calm}
use iocp_chatting.Redis
use iocp_chatting.PacketManager.{
  State, connect_handler, disconnect_handler, leave_on_disconnect, forget, login_handler, login_of,
  push_login_request, login_db_res_handler, enter_room_handler, enter_room_of, leave_room_handler,
  leave_room_of, room_chat_handler, chat_in_room, is_minus_one,
}
use iocp_chatting.Prelude.{
  ℕ, ◌≡◌, refl, List, [], get_elem?, ◌==◌, leb, to_int32, Ensures, Ensures->>=, Ensures-of_eq,
  Ensures-if, Ensures-if_null,
}

pub record Calm (s t : State) : Type 0 where
  pub queue : t.incoming_packet_user_index_queue ≡ s.incoming_packet_user_index_queue
  pub users : CalmUsers s.users t.users

pub Calm-refl : (s : State) → Calm s s
Calm-refl s = record { queue = refl; users = CalmUsers-refl s.users }

-- The same users and queue, whatever became of the rest.
unmoved-Calm :
    (s t : State)
    → t.incoming_packet_user_index_queue ≡ s.incoming_packet_user_index_queue
    → t.users ≡ s.users
    → Calm s t
unmoved-Calm s t q e = record { queue = q; users = rw e (CalmUsers-refl s.users) }

pub connect-Calm : (i : ℕ) (s : State) → Ensures (Calm s) (connect_handler i s)
unfolding connect_handler
connect-Calm i s =
    Ensures-if_null (Calm s) (Users.get_user_by_index s.users (to_int32 i)) _ _ (Calm-refl s)
      λ p ep.
        Ensures->>= (CalmUsers s.users) (Calm s) (Users.update_user p User.clear s.users) _
          (update_user-Calm p User.clear s.users clear-Quiet)
          λ m h. record { queue = refl; users = h }

forget-Calm : (p : ℕ) (s t : State) → Calm s t → Ensures (Calm s) (forget p t)
unfolding forget
forget-Calm p s t h = Ensures-of_eq (Calm s) (user_at t.users p) _ λ u eu. record {
  queue = h.queue;
  users =
      CalmUsers-trans s.users t.users (Users.delete_user_info u.user_id t.users) h.users
        (delete_user_info-Calm u.user_id t.users);
}

pub disconnect-Calm : (i : ℕ) (s : State) → Ensures (Calm s) (disconnect_handler i s)
unfolding disconnect_handler leave_on_disconnect
disconnect-Calm i s =
    Ensures-if_null (Calm s) (Users.get_user_by_index s.users (to_int32 i)) _ _ (Calm-refl s)
      λ p ep. Ensures-of_eq (Calm s) (user_at s.users p) _ λ u eu.
        Ensures-if (Calm s) (state_eq u.domain_state room_state) _ _
          (λ _.
            Ensures-if_null (Calm s) (Rooms.get_room_by_idx s.rooms u.room_idx) _ _ (Calm-refl s)
              λ k ek. Ensures-of_eq (Calm s) (get_elem? s.rooms k) _ λ r er.
                Ensures-of_eq (Calm s) (Room.leave_user_of s.users r p) _
                  λ o eo. forget-Calm p s _ (unmoved-Calm s _ refl refl))
          (λ _. forget-Calm p s s (Calm-refl s))

push_login_request-Calm :
    (i : ℕ) (id : List ℕ) (pkt : LoginRequestPacket) (s : State)
    → Ensures (Calm s) (push_login_request i id pkt s)
unfolding push_login_request
push_login_request-Calm i id pkt s =
    Ensures->>= (CalmUsers s.users) (Calm s) (Users.set_user_id (to_int32 i) id s.users) _
      (set_user_id-Calm (to_int32 i) id s.users) λ m h. record { queue = refl; users = h }

pub login-Calm : (i : ℕ) (p_data : List ℕ) (s : State) → Ensures (Calm s) (login_handler i p_data s)
unfolding login_handler login_of
login-Calm i p_data s = Ensures-of_eq (Calm s) (read_login_request p_data) _ λ pkt ep.
    Ensures-if (Calm s) (leb Users.get_max_user_cnt (Users.get_current_user_cnt s.users)) _ _
      (λ _. unmoved-Calm s _ refl refl)
      (λ _. Ensures-of_eq (Calm s) (c_str _) _ λ id eid.
        Ensures-if (Calm s) (is_minus_one (Users.find_user_index_by_id id s.users)) _ _
          (λ _. push_login_request-Calm i id pkt s) (λ _. unmoved-Calm s _ refl refl))

pub login_db_res-Calm :
    (i : ℕ) (p_data : List ℕ) (s : State) → Ensures (Calm s) (login_db_res_handler i p_data s)
unfolding login_db_res_handler
login_db_res-Calm i p_data s = Ensures-of_eq (Calm s) (Redis.read_login_res p_data) _ λ result er.
    Ensures->>= (CalmUsers s.users) (Calm s) _ _
      (Ensures-if (CalmUsers s.users) (result == error_code no_error) _ _
        (λ _. set_user_login-Calm (to_int32 i) s.users)
        (λ _. set_user_id-Calm (to_int32 i) [] s.users))
      λ m h. record { queue = refl; users = h }

pub leave_room_handler-Calm :
    (i : ℕ) (p_data : List ℕ) (s : State) → Ensures (Calm s) (leave_room_handler i p_data s)
unfolding leave_room_handler leave_room_of
leave_room_handler-Calm i p_data s =
    Ensures-of_eq (Calm s) (read_room_leave_request p_data) _ λ _ _.
      Ensures-if_null (Calm s) (Users.get_user_by_index s.users (to_int32 i)) _ _ (Calm-refl s)
        λ p ep. Ensures-of_eq (Calm s) (user_at s.users p) _ λ u eu.
          Ensures-if (Calm s) (state_eq u.domain_state room_state) _ _
            (λ _.
              Ensures->>= _ (Calm s) (Rooms.leave_room s.users s.rooms p) _
                (leave_room-Calm s.users s.rooms p) λ o h. record { queue = refl; users = h })
            (λ _. unmoved-Calm s _ refl refl)

module _ (past_end : List ℕ → List ℕ) where
  pub enter_room_handler-Calm :
      (i : ℕ) (p_data : List ℕ) (s : State)
      → Ensures (Calm s) (enter_room_handler past_end i p_data s)
  unfolding enter_room_handler enter_room_of
  enter_room_handler-Calm i p_data s =
      Ensures-of_eq (Calm s) (read_room_enter_request p_data) _ λ number en.
        Ensures-if_null (Calm s) (Users.get_user_by_index s.users (to_int32 i)) _ _ (Calm-refl s)
          λ p ep. Ensures-of_eq (Calm s) (user_at s.users p) _ λ u eu.
            Ensures-if (Calm s) (state_eq u.domain_state login_state) _ _
              (λ _.
                Ensures->>= _ (Calm s) (Rooms.enter_room past_end s.users s.rooms p number) _
                  (enter_room-Calm past_end s.users s.rooms p number)
                  λ o h. record { queue = refl; users = h })
              (λ _. unmoved-Calm s _ refl refl)

  pub room_chat-Calm :
      (i : ℕ) (p_data : List ℕ) (s : State)
      → Ensures (Calm s) (room_chat_handler past_end i p_data s)
  unfolding room_chat_handler chat_in_room
  room_chat-Calm i p_data s = Ensures-of_eq (Calm s) (read_room_chat_request p_data) _ λ msg em.
      Ensures-if_null (Calm s) (Users.get_user_by_index s.users (to_int32 i)) _ _
        (unmoved-Calm s _ refl refl)
        λ p ep. Ensures-of_eq (Calm s) (user_at s.users p) _ λ u eu.
          Ensures-if (Calm s) (state_eq u.domain_state room_state) _ _
            (λ _.
              Ensures-if_null (Calm s) (Rooms.get_room_by_idx s.rooms u.room_idx) _ _
                (unmoved-Calm s _ refl refl)
                λ k ek. Ensures-of_eq (Calm s) (get_elem? s.rooms k) _ λ r er.
                  Ensures-of_eq (Calm s) (Room.notify_chat past_end s.users r _ u.user_id msg) _
                    λ out eo. unmoved-Calm s _ refl refl)
            (λ _. unmoved-Calm s _ refl refl)
