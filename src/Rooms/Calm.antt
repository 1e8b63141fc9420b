-- ===== src/Rooms/Calm.antt =====
-- `EnterRoom` and `LeaveRoom` leave the packets at the front of the users' rings alone.
use iocp_chatting.User
use iocp_chatting.User.{login_state}
use iocp_chatting.User.Quiet.{set_domain_state-Quiet}
use iocp_chatting.Users.{UserManager, user_at, update_user}
use iocp_chatting.Users.Calm.{CalmUsers, CalmUsers-refl, update_user-Calm}
use iocp_chatting.Room
use iocp_chatting.Room.{Room}
use iocp_chatting.Room.Calm.{enter_user-Calm}
use iocp_chatting.Rooms.{get_room_by_idx, enter_room, leave_room}
use iocp_chatting.Prelude.{
  ℕ, ℤ, List, get_elem?, Ensures, Ensures->>=, Ensures-of_eq, Ensures-if_null,
}

pub enter_room-Calm :
    (past_end : List ℕ → List ℕ) (m : UserManager) (rooms : List Room) (p : ℕ) (i : ℤ)
    → Ensures (λ o. CalmUsers m o.users) (enter_room past_end m rooms p i)
unfolding enter_room
enter_room-Calm past_end m rooms p i =
    Ensures-if_null (λ o. CalmUsers m o.users) (get_room_by_idx rooms i) _ _ (CalmUsers-refl m)
      λ k ek. Ensures-of_eq _ (get_elem? rooms k) _ λ r er.
        Ensures->>= _ _ (Room.enter_user past_end m r p) _ (enter_user-Calm past_end m r p) λ o h. h

pub leave_room-Calm :
    (m : UserManager) (rooms : List Room) (p : ℕ)
    → Ensures (λ o. CalmUsers m o.users) (leave_room m rooms p)
unfolding leave_room
leave_room-Calm m rooms p =
    Ensures-of_eq (λ o. CalmUsers m o.users) (user_at m p) _
      λ u eu.
        Ensures-if_null (λ o. CalmUsers m o.users) (get_room_by_idx rooms u.room_idx) _ _
          (CalmUsers-refl m)
          λ k ek. Ensures-of_eq _ (get_elem? rooms k) _ λ r er.
            Ensures-of_eq _ (Room.leave_user_of m r p) _ λ o eo.
              Ensures->>= (CalmUsers m) _ (update_user p (User.set_domain_state login_state) m) _
                (update_user-Calm p (User.set_domain_state login_state) m
                  (set_domain_state-Quiet login_state))
                λ m' h. h
