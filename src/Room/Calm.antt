-- ===== src/Room/Calm.antt =====
-- Entering a room leaves the packets at the front of the users' rings alone.
use iocp_chatting.User
use iocp_chatting.User.Quiet.{enter_room-Quiet}
use iocp_chatting.Users.{UserManager, update_user}
use iocp_chatting.Users.Calm.{CalmUsers, CalmUsers-refl, update_user-Calm}
use iocp_chatting.Room.{Room, enter_user, notify_new_user, notify_user_list}
use iocp_chatting.Prelude.{ℕ, List, leb, Ensures, Ensures->>=, Ensures-of_eq, Ensures-if}

pub enter_user-Calm :
    (past_end : List ℕ → List ℕ) (m : UserManager) (r : Room) (p : ℕ)
    → Ensures (λ o. CalmUsers m o.users) (enter_user past_end m r p)
unfolding enter_user
enter_user-Calm past_end m r p =
    Ensures-if (λ o. CalmUsers m o.users) (leb r.max_user_cnt _) _ _ (λ _. CalmUsers-refl m)
      (λ _.
        Ensures->>= (CalmUsers m) _ (update_user p (User.enter_room r.room_idx) m) _
          (update_user-Calm p (User.enter_room r.room_idx) m (enter_room-Quiet r.room_idx))
          λ m' h.
            Ensures-of_eq _ (notify_new_user past_end m' _ p) _
              λ _ _. Ensures-of_eq _ (notify_user_list past_end m' _ p) _ λ _ _. h)
