-- ===== src/Rooms/Bounds.antt =====
-- The list of rooms stays well-formed: ten rooms, none with more than ten users.
use mathlib.Core.Option.{some-injective}
use iocp_chatting.Config.{max_user_cnt, max_room_cnt, room_max_user_cnt}
use iocp_chatting.User.{login_state}
use iocp_chatting.Users.{UserManager, user_at, update_user, get_user_by_index}
use iocp_chatting.Users.Pool.{IsPool, update_user-IsPool, set_domain_state-Keeps}
use iocp_chatting.Room
use iocp_chatting.Room.{Room, enter_user, leave_user_of}
use iocp_chatting.Room.Enter.{IsRoom, enter_user_full, enter_user_joins}
use iocp_chatting.Room.Broadcast.{user_of_IsSlot}
use iocp_chatting.Room.Leave.{leave_user_of_lem}
use iocp_chatting.Rooms.{init_rooms, init, get_room_by_idx, enter_room, leave_room}
use iocp_chatting.Prelude.{
  get_elem?-set_cases, ℕ, zero, suc, ◌+◌, ◌<◌, ◌≡◌, refl, ◌∙◌, subst, some, List, arith, length,
  length-set, get_elem?, set, ℤ, pos, negsuc, Ensures, Ensures->>=, Ensures-of_eq, Ensures-if_null,
  Bool-cases, inl, inr, ltb,
}

pub record AreRooms (rooms : List Room) : Type 0 where
  pub number : length rooms ≡ max_room_cnt
  pub each : (k : ℕ) (r : Room) → get_elem? rooms k ≡ some r → IsRoom r

pub set-AreRooms :
    (rooms : List Room) (k : ℕ) {r r' : Room}
    → AreRooms rooms
    → get_elem? rooms k ≡ some r
    → IsRoom r'
    → AreRooms (set rooms k r')
set-AreRooms rooms k {r} {r'} v e ok = record {
  number = length-set rooms k r' ∙ v.number;
  each = λ j w ew. elim (get_elem?-set_cases rooms k j r' ew) [
    | inl (same, read) ↦ subst IsRoom read ok
    | inr (other, read) ↦ v.each j w read
  ];
}

-- A pointer that `GetUserByIndex` gives points into the pool.
pub get_user_by_index-lt :
    (m : UserManager) (i : ℤ) {p : ℕ} → IsPool m → get_user_by_index m i ≡ some p → p < max_user_cnt
unfolding get_user_by_index
get_user_by_index-lt m (pos i) v e = ground (arith, v.full)
get_user_by_index-lt m (negsuc i) v e = cc

enter_user-bounds :
    (past_end : List ℕ → List ℕ) (m : UserManager) (r : Room) (p : ℕ)
    → IsPool m
    → IsRoom r
    → p < max_user_cnt
    → Ensures (λ o. IsPool o.users × IsRoom o.room) (enter_user past_end m r p)
enter_user-bounds past_end m r p v vr lt =
    elim (Bool-cases (ltb (length r.user_list) room_max_user_cnt)) [
      | inl space ↦
          let (o, run, entered) = enter_user_joins past_end m r p v vr (ground arith) lt in
          rw run (entered.pool, entered.room)
      | inr full ↦ rw (enter_user_full past_end m r p vr (ground (arith, vr.bounded))) (v, vr)
    ]

-- `EnterRoom` keeps the pool and the rooms well-formed.
pub enter_room-bounds :
    (past_end : List ℕ → List ℕ) (m : UserManager) (rooms : List Room) (p : ℕ) (i : ℤ)
    → IsPool m
    → AreRooms rooms
    → p < max_user_cnt
    → Ensures (λ o. IsPool o.users × AreRooms o.rooms) (enter_room past_end m rooms p i)
unfolding enter_room
enter_room-bounds past_end m rooms p i v vr lt =
    Ensures-if_null _ (get_room_by_idx rooms i) _ _ (v, vr)
      λ k ek. Ensures-of_eq _ (get_elem? rooms k) _ λ r er.
        Ensures->>= _ _ (enter_user past_end m r p) _
          (enter_user-bounds past_end m r p v (vr.each k r er) lt)
          λ o ok. (ok.0, set-AreRooms rooms k vr er ok.1)

pub leave_user-bounds :
    (m : UserManager) (r : Room) (p : ℕ)
    → IsPool m
    → IsRoom r
    → p < max_user_cnt
    → Ensures (λ o. IsRoom o.0) (leave_user_of m r p)
leave_user-bounds m r p v vr lt =
    let (u, e, _) = user_of_IsSlot m p v lt in
    let (o, run, left) = leave_user_of_lem m r p u v vr lt e in rw run left.room

-- `LeaveRoom` keeps the pool and the rooms well-formed.
pub leave_room-bounds :
    (m : UserManager) (rooms : List Room) (p : ℕ)
    → IsPool m
    → AreRooms rooms
    → p < max_user_cnt
    → Ensures (λ o. IsPool o.users × AreRooms o.rooms) (leave_room m rooms p)
unfolding leave_room
leave_room-bounds m rooms p v vr lt = Ensures-of_eq _ (user_at m p) _ λ u eu.
    Ensures-if_null _ (get_room_by_idx rooms u.room_idx) _ _ (v, vr)
      λ k ek. Ensures-of_eq _ (get_elem? rooms k) _ λ r er.
        Ensures->>= _ _ (leave_user_of m r p) _ (leave_user-bounds m r p v (vr.each k r er) lt)
          λ o ok.
            Ensures->>= IsPool _ (update_user p _ m) _
              (update_user-IsPool p m (set_domain_state-Keeps login_state) v)
              λ m' v'. (v', set-AreRooms rooms k vr er ok)

fresh-IsRoom : (i : ℕ) → IsRoom (Room.init (pos i) Room.fresh)
unfolding Room.init
fresh-IsRoom i = record { cap = refl; bounded = omega arith; members = tt }

each-init_rooms : (n i k : ℕ) (r : Room) → get_elem? (init_rooms n i) k ≡ some r → IsRoom r
unfolding init_rooms
each-init_rooms zero i k r e = cc
each-init_rooms (suc n) i zero r e = subst IsRoom (some-injective _ r e) (fresh-IsRoom i)
each-init_rooms (suc n) i (suc k) r e = each-init_rooms n (i + 1) k r e

pub init-AreRooms : AreRooms init
unfolding init init_rooms
init-AreRooms = record { number = refl; each = each-init_rooms max_room_cnt 0 }
