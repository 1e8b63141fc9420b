-- ===== src/PacketManager/Sound.antt =====
-- The invariant of the chat logic, and that every handler keeps it.
use iocp_chatting.Config.{max_user_cnt, default_ringbuffer_size}
use iocp_chatting.Bytes.{c_str}
use iocp_chatting.Packet.{
  error_code, no_error, read_login_request, read_room_enter_request, read_room_leave_request,
  read_room_chat_request, LoginRequestPacket,
}
use iocp_chatting.User
use iocp_chatting.User.{login_state, room_state, state_eq}
use iocp_chatting.Users
use iocp_chatting.Users.{user_at}
use iocp_chatting.Users.Pool.{
  IsPool, init-IsPool, update_user-IsPool, clear-Keeps, set_user_login-IsPool, set_user_id-IsPool,
  delete_user_info-IsPool,
}
use iocp_chatting.Room
use iocp_chatting.Rooms
use iocp_chatting.Rooms.Bounds.{
  AreRooms, init-AreRooms, set-AreRooms, get_user_by_index-lt, enter_room-bounds, leave_room-bounds,
  leave_user-bounds,
}
use iocp_chatting.Redis
use iocp_chatting.PacketManager.{
  State, init, is_minus_one, connect_handler, forget, leave_on_disconnect, disconnect_handler,
  push_login_request, login_of, login_handler, login_db_res_handler, enter_room_of,
  enter_room_handler, leave_room_of, leave_room_handler, chat_in_room, room_chat_handler,
}
use iocp_chatting.Prelude.{
  ℕ, ◌≡◌, ◌++◌, [], some, List, get_elem?, length, ◌==◌, leb, to_int32, Ensures, Ensures->>=,
  Ensures-of_eq, Ensures-if, Ensures-if_null,
}

-- The pool and the rooms are well-formed: every user stands in its slot with a valid ring, no login
-- is counted, and no room is over its bound.
pub record IsSound (s : State) : Type 0 where
  pub pool : IsPool s.users
  pub rooms : AreRooms s.rooms

pub init-IsSound :
    (raws : List (List ℕ))
    → length raws ≡ max_user_cnt
    → ((j : ℕ) (raw : List ℕ) → get_elem? raws j ≡ some raw → length raw ≡ default_ringbuffer_size)
    → IsSound (init raws)
unfolding init
init-IsSound raws n h = record { pool = init-IsPool raws n h; rooms = init-AreRooms }

pub connect-IsSound : (i : ℕ) (s : State) → IsSound s → Ensures IsSound (connect_handler i s)
unfolding connect_handler
connect-IsSound i s v =
    Ensures-if_null IsSound (Users.get_user_by_index s.users (to_int32 i)) _ _ v λ p ep.
      Ensures->>= IsPool IsSound (Users.update_user p User.clear s.users) _
        (update_user-IsPool p s.users clear-Keeps v.pool)
        λ m vm. record { pool = vm; rooms = v.rooms }

forget-IsSound : (p : ℕ) (s : State) → IsSound s → Ensures IsSound (forget p s)
unfolding forget
forget-IsSound p s v =
    Ensures-of_eq IsSound (user_at s.users p) _
      λ u eu. record { pool = delete_user_info-IsPool u.user_id s.users v.pool; rooms = v.rooms }

pub disconnect-IsSound : (i : ℕ) (s : State) → IsSound s → Ensures IsSound (disconnect_handler i s)
unfolding disconnect_handler leave_on_disconnect
disconnect-IsSound i s v =
    Ensures-if_null IsSound (Users.get_user_by_index s.users (to_int32 i)) _ _ v λ p ep.
      Ensures-of_eq IsSound (user_at s.users p) _ λ u eu.
        Ensures-if IsSound (state_eq u.domain_state room_state) _ _
          (λ _. Ensures-if_null IsSound (Rooms.get_room_by_idx s.rooms u.room_idx) _ _ v λ k ek.
            Ensures-of_eq IsSound (get_elem? s.rooms k) _ λ r er.
              Ensures->>= _ IsSound (Room.leave_user_of s.users r p) _
                (leave_user-bounds s.users r p v.pool (v.rooms.each k r er)
                  (get_user_by_index-lt s.users (to_int32 i) v.pool ep))
                λ o ok.
                  forget-IsSound p _
                    (record { pool = v.pool; rooms = set-AreRooms s.rooms k v.rooms er ok }))
          (λ _. forget-IsSound p s v)

push_login_request-IsSound :
    (i : ℕ) (id : List ℕ) (pkt : LoginRequestPacket) (s : State)
    → IsSound s
    → Ensures IsSound (push_login_request i id pkt s)
unfolding push_login_request
push_login_request-IsSound i id pkt s v =
    Ensures->>= IsPool IsSound (Users.set_user_id (to_int32 i) id s.users) _
      (set_user_id-IsPool (to_int32 i) id s.users v.pool)
      λ m vm. record { pool = vm; rooms = v.rooms }

pub login_of-IsSound :
    (i : ℕ) (pkt : LoginRequestPacket) (s : State) → IsSound s → Ensures IsSound (login_of i pkt s)
unfolding login_of
login_of-IsSound i pkt s v = Ensures-of_eq IsSound (c_str (pkt.user_id ++ pkt.user_pw)) _ λ id eid.
    Ensures-if IsSound (is_minus_one (Users.find_user_index_by_id id s.users)) _ _
      (λ _. push_login_request-IsSound i id pkt s v)
      (λ _. record { pool = v.pool; rooms = v.rooms })

pub login-IsSound :
    (i : ℕ) (p_data : List ℕ) (s : State) → IsSound s → Ensures IsSound (login_handler i p_data s)
unfolding login_handler
login-IsSound i p_data s v = Ensures-of_eq IsSound (read_login_request p_data) _ λ pkt ep.
    Ensures-if IsSound (leb Users.get_max_user_cnt (Users.get_current_user_cnt s.users)) _ _
      (λ _. record { pool = v.pool; rooms = v.rooms }) (λ _. login_of-IsSound i pkt s v)

pub login_db_res-IsSound :
    (i : ℕ) (p_data : List ℕ) (s : State)
    → IsSound s
    → Ensures IsSound (login_db_res_handler i p_data s)
unfolding login_db_res_handler
login_db_res-IsSound i p_data s v =
    Ensures-of_eq IsSound (Redis.read_login_res p_data) _ λ result er.
      Ensures->>= IsPool IsSound _ _
        (Ensures-if IsPool (result == error_code no_error) _ _
          (λ _. set_user_login-IsPool (to_int32 i) s.users v.pool)
          (λ _. set_user_id-IsPool (to_int32 i) [] s.users v.pool))
        λ m vm. record { pool = vm; rooms = v.rooms }

pub leave_room-IsSound :
    (i : ℕ) (p_data : List ℕ) (s : State)
    → IsSound s
    → Ensures IsSound (leave_room_handler i p_data s)
unfolding leave_room_handler leave_room_of
leave_room-IsSound i p_data s v = Ensures-of_eq IsSound (read_room_leave_request p_data) _ λ _ _.
    Ensures-if_null IsSound (Users.get_user_by_index s.users (to_int32 i)) _ _ v λ p ep.
      Ensures-of_eq IsSound (user_at s.users p) _ λ u eu.
        Ensures-if IsSound (state_eq u.domain_state room_state) _ _
          (λ _.
            Ensures->>= _ IsSound (Rooms.leave_room s.users s.rooms p) _
              (leave_room-bounds s.users s.rooms p v.pool v.rooms
                (get_user_by_index-lt s.users (to_int32 i) v.pool ep))
              λ o ok. record { pool = ok.0; rooms = ok.1 })
          (λ _. record { pool = v.pool; rooms = v.rooms })

module _ (past_end : List ℕ → List ℕ) where
  pub enter_room-IsSound :
      (i : ℕ) (p_data : List ℕ) (s : State)
      → IsSound s
      → Ensures IsSound (enter_room_handler past_end i p_data s)
  unfolding enter_room_handler enter_room_of
  enter_room-IsSound i p_data s v =
      Ensures-of_eq IsSound (read_room_enter_request p_data) _ λ number en.
        Ensures-if_null IsSound (Users.get_user_by_index s.users (to_int32 i)) _ _ v λ p ep.
          Ensures-of_eq IsSound (user_at s.users p) _ λ u eu.
            Ensures-if IsSound (state_eq u.domain_state login_state) _ _
              (λ _.
                Ensures->>= _ IsSound (Rooms.enter_room past_end s.users s.rooms p number) _
                  (enter_room-bounds past_end s.users s.rooms p number v.pool v.rooms
                    (get_user_by_index-lt s.users (to_int32 i) v.pool ep))
                  λ o ok. record { pool = ok.0; rooms = ok.1 })
              (λ _. record { pool = v.pool; rooms = v.rooms })

  pub room_chat-IsSound :
      (i : ℕ) (p_data : List ℕ) (s : State)
      → IsSound s
      → Ensures IsSound (room_chat_handler past_end i p_data s)
  unfolding room_chat_handler chat_in_room
  room_chat-IsSound i p_data s v = Ensures-of_eq IsSound (read_room_chat_request p_data) _ λ msg em.
      Ensures-if_null IsSound (Users.get_user_by_index s.users (to_int32 i)) _ _
        (record { pool = v.pool; rooms = v.rooms })
        λ p ep. Ensures-of_eq IsSound (user_at s.users p) _ λ u eu.
          Ensures-if IsSound (state_eq u.domain_state room_state) _ _
            (λ _.
              Ensures-if_null IsSound (Rooms.get_room_by_idx s.rooms u.room_idx) _ _
                (record { pool = v.pool; rooms = v.rooms })
                λ k ek. Ensures-of_eq IsSound (get_elem? s.rooms k) _ λ r er.
                  Ensures-of_eq IsSound (Room.notify_chat past_end s.users r _ u.user_id msg) _
                    λ out eo. record { pool = v.pool; rooms = v.rooms })
            (λ _. record { pool = v.pool; rooms = v.rooms })
