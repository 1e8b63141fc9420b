-- ===== src/Room/Leave.antt =====
-- `Room::LeaveUser`: who is erased from the list, and who is told.
use iocp_chatting.Config.{max_user_cnt}
use iocp_chatting.Bytes.{to_u32, to_u64, bytes_eq}
use iocp_chatting.Packet.{Packet, Sent, set_packet_id_and_len, leave_user, room_leave_user_notify}
use iocp_chatting.User.{User}
use iocp_chatting.Users.{UserManager, user_at}
use iocp_chatting.Users.Pool.{IsPool}
use iocp_chatting.Room.{Room, erase_id, leave_user_of, notify_leave_user, broadcast_msg}
use iocp_chatting.Room.Broadcast.{
  InPool, user_of_IsSlot, others, to_each, broadcast_msg-others, to_u32-slot, to_u64-slot,
}
use iocp_chatting.Room.Enter.{IsRoom}
use iocp_chatting.Prelude.{
  ℕ, ◌+◌, ◌≤◌, ◌<◌, ◌≡◌, refl, ap, ◌∙◌, ap₂, true, some, List, [], ◌∷◌, arith, length, ◌==◌,
  if◌then◌else◌, Bool-cases, inl, inr,
}

-- How often a slot stands in a list.
abbrev pub count : ℕ → List ℕ → ℕ
count q [] = 0
count q (p ∷ ps) = (if p == q then 1 else 0) + count q ps

pub bytes_eq_refl : (s : List ℕ) → bytes_eq s s ≡ true
unfolding bytes_eq
bytes_eq_refl [] = refl
bytes_eq_refl (x ∷ s) = ground (arith, bytes_eq_refl s)

others_of_absent : (q : ℕ) (ps : List ℕ) → count q ps ≡ 0 → others q ps ≡ ps
others_of_absent q [] h = refl
others_of_absent q (p ∷ ps) h = ground (arith, others_of_absent q ps)

same_user :
    (m : UserManager) (id : List ℕ) (p q : ℕ) (u w : User)
    → user_at m p ≡ some u
    → user_at m q ≡ some w
    → p ≡ q
    → bytes_eq id w.user_id ≡ bytes_eq id u.user_id
same_user m id p q u w e f same = cc

-- What is left of a list when the users with the identifier `id` are erased.
module _ (m : UserManager) (id : List ℕ) where
  record Erased (ps left : List ℕ) : Type 0 where
    members : InPool left
    shorter : length left ≤ length ps
    counts :
        (q : ℕ) (u : User)
        → user_at m q ≡ some u
        → count q left ≡ (if bytes_eq id u.user_id then 0 else count q ps)

  erase_id_total :
      (ps : List ℕ)
      → IsPool m
      → InPool ps
      → (left : List ℕ) × (erase_id m id ps ≡ some left) × Erased ps left
  unfolding erase_id
  erase_id_total [] v h =
      ([], refl, record { members = tt; shorter = omega arith; counts = λ q u e. ground arith })
  erase_id_total (p ∷ ps) v h =
      let (u, e, s) = user_of_IsSlot m p v h.0 in
      let (left, f, er) = erase_id_total ps v h.1 in
      elim (Bool-cases (bytes_eq id u.user_id)) [
        | inl same ↦ (
          left,
          rw (e, f, same),
          record {
            members = er.members;
            shorter = omega (arith, er.shorter);
            counts = λ q w ew. ground (arith, er.counts q w ew, same_user m id p q u w e ew);
          },
        )
        | inr other ↦ (
          p ∷ left,
          rw (e, f, other),
          record {
            members = (h.0, er.members);
            shorter = omega (arith, er.shorter);
            counts = λ q w ew. ground (arith, er.counts q w ew, same_user m id p q u w e ew);
          },
        )
      ]

abbrev pub leave_user_packet : ℕ → Packet
leave_user_packet p = set_packet_id_and_len room_leave_user_notify (leave_user p)

notify_leave_user-others :
    (m : UserManager) (r : Room) (p : ℕ)
    → IsPool m
    → InPool r.user_list
    → p < max_user_cnt
    → notify_leave_user m r p ≡ some (to_each (leave_user_packet p) (others p r.user_list))
unfolding notify_leave_user
notify_leave_user-others m r p v h lt =
    let (u, e, s) = user_of_IsSlot m p v lt in
    let own : to_u32 u.session_idx ≡ p = ap to_u32 s.own_index ∙ to_u32-slot p lt in
    let named : to_u64 u.session_idx ≡ p = ap to_u64 s.own_index ∙ to_u64-slot p lt in
    rw e (
      ap₂ (λ j k. broadcast_msg m r.user_list (leave_user_packet j) k true) named own
      ∙ broadcast_msg-others m r.user_list (leave_user_packet p) p v h)

-- What a room leaves behind when user `p`, with the identifier `id`, goes.
module _ (m : UserManager) (r : Room) (p : ℕ) (id : List ℕ) where
  pub record Left (o : Room × List Sent) : Type 0 where
    pub room : IsRoom o.0
    pub number : o.0.room_idx ≡ r.room_idx
    pub erased :
        (q : ℕ) (u : User)
        → user_at m q ≡ some u
        → count q o.0.user_list ≡ (if bytes_eq id u.user_id then 0 else count q r.user_list)
    pub notified : o.1 ≡ to_each (leave_user_packet p) o.0.user_list

-- `LeaveUser` does not fault. It takes out of the list every user whose identifier is that of user
-- `p`, and nobody else, and each user that is left gets one packet that names `p`.
pub leave_user_of_lem :
    (m : UserManager) (r : Room) (p : ℕ) (u : User)
    → IsPool m
    → IsRoom r
    → p < max_user_cnt
    → user_at m p ≡ some u
    → (o : Room × List Sent) × (leave_user_of m r p ≡ some o) × Left m r p u.user_id o
unfolding leave_user_of
leave_user_of_lem m r p u v vr lt e =
    let (left, f, er) = erase_id_total m u.user_id r.user_list v vr.members in
    let r' : Room = record r { user_list = left } in
    let told = notify_leave_user-others m r' p v er.members lt in
    let gone : count p left ≡ 0 = ground (arith, er.counts p u e, bytes_eq_refl u.user_id) in
    (
      (r', to_each (leave_user_packet p) left),
      rw (e, f, told, others_of_absent p left gone),
      record {
        room = record {
          cap = vr.cap;
          bounded = omega (arith, er.shorter, vr.bounded);
          members = er.members;
        };
        number = refl;
        erased = er.counts;
        notified = refl;
      },
    )

-- Two users in one room with the same identifier: when one leaves, the other is taken out of the list
-- as well, although he is one of its members and his state is not touched.
leave_user_of_namesake :
    (m : UserManager) (r : Room) (p q : ℕ) (u w : User)
    → IsPool m
    → IsRoom r
    → p < max_user_cnt
    → user_at m p ≡ some u
    → user_at m q ≡ some w
    → bytes_eq u.user_id w.user_id ≡ true
    → 0 < count q r.user_list
    → (o : Room × List Sent) × (leave_user_of m r p ≡ some o) × (count q o.0.user_list ≡ 0)
leave_user_of_namesake m r p q u w v vr lt e f same here =
    let (o, run, left) = leave_user_of_lem m r p u v vr lt e in
    (o, run, ground (arith, left.erased q w f))
