-- ===== src/Room/Enter.antt =====
-- `Room::EnterUser`, on both branches.
use iocp_chatting.Config.{max_user_cnt, room_max_user_cnt}
use iocp_chatting.Bytes.{to_u32}
use iocp_chatting.Packet.{
  no_error, enter_room_full_user, Packet, UserInfo, set_packet_id_and_len, new_user, user_list,
  room_new_user_notify, room_user_list_notify,
}
use iocp_chatting.User
use iocp_chatting.User.{User, DomainState, room_state}
use iocp_chatting.Users.{UserManager, user_at, update_user}
use iocp_chatting.Users.Pool.{IsPool, set-IsPool}
use iocp_chatting.Room.{Room, Outcome, enter_user, broadcast_msg, notify_new_user, notify_user_list}
use iocp_chatting.Room.Broadcast.{
  InPool, user_of_IsSlot, others, to_each, broadcast_msg-others, user_infos-AreEntries, AreEntries,
  length-AreEntries, entry, user_info-entry, to_u32-slot,
}
use iocp_chatting.Prelude.{
  get_elem?-set_self, get_elem?-set_ne, ◌≢◌, ◌%◌, ◌^◌, ℕ, ◌+◌, ◌≤◌, ◌<◌, ◌≡◌, refl, ap, ◌∙◌, true,
  false, some, List, [], ◌∷◌, ◌++◌, arith, length, set, leb, length-append,
}

-- A room is set up with the fixed bound, holds no more users than that, and only slots of the pool.
pub record IsRoom (r : Room) : Type 0 where
  pub cap : r.max_user_cnt ≡ room_max_user_cnt
  pub bounded : length r.user_list ≤ room_max_user_cnt
  pub members : InPool r.user_list

pub InPool-append : (ps : List ℕ) (p : ℕ) → InPool ps → p < max_user_cnt → InPool (ps ++ (p ∷ []))
InPool-append [] p h lt = (lt, tt)
InPool-append (q ∷ ps) p h lt = (h.0, InPool-append ps p h.1 lt)

-- A room that is full turns the user away and changes nothing.
pub enter_user_full :
    (past_end : List ℕ → List ℕ) (m : UserManager) (r : Room) (p : ℕ)
    → IsRoom r
    → length r.user_list ≡ room_max_user_cnt
    → enter_user past_end m r p
      ≡ some (record { code = enter_room_full_user; users = m; room = r; sent = [] })
unfolding enter_user
enter_user_full past_end m r p v full = ground arith

abbrev pub new_user_packet : (List ℕ → List ℕ) → ℕ → User → Packet
new_user_packet past_end p u =
    set_packet_id_and_len room_new_user_notify (new_user (entry past_end p u))

abbrev pub user_list_packet : Room → List UserInfo → Packet
user_list_packet r infos =
    set_packet_id_and_len room_user_list_notify (user_list (length r.user_list % 2 ^ 8) infos)

notify_new_user-others :
    (past_end : List ℕ → List ℕ) (m : UserManager) (r : Room) (p : ℕ) (u : User)
    → IsPool m
    → InPool r.user_list
    → p < max_user_cnt
    → user_at m p ≡ some u
    → notify_new_user past_end m r p
      ≡ some (to_each (new_user_packet past_end p u) (others p r.user_list))
unfolding notify_new_user
notify_new_user-others past_end m r p u v h lt e =
    let pkt = new_user_packet past_end p u in
    let info = user_info-entry past_end p u lt (v.slots p u e).own_index in
    let own : to_u32 u.session_idx ≡ p = ap to_u32 (v.slots p u e).own_index ∙ to_u32-slot p lt in
    rw (e, info)
      (ap (λ k. broadcast_msg m r.user_list pkt k true) own
        ∙ broadcast_msg-others m r.user_list pkt p v h)

notify_user_list-AreEntries :
    (past_end : List ℕ → List ℕ) (m : UserManager) (r : Room) (p : ℕ)
    → IsPool m
    → IsRoom r
    → p < max_user_cnt
    → (infos : List UserInfo) × (notify_user_list past_end m r p
        ≡ some ((p, user_list_packet r infos) ∷ []))
      × AreEntries past_end m r.user_list infos
unfolding notify_user_list
notify_user_list-AreEntries past_end m r p v h lt =
    let (infos, f, entries) = user_infos-AreEntries past_end m r.user_list v h.members in
    let n = length-AreEntries past_end m r.user_list infos entries in
    let (u, e, s) = user_of_IsSlot m p v lt in
    let fits : leb (length infos) room_max_user_cnt ≡ true = ground (arith, n, h.bounded) in
    (infos, rw (f, e, fits, s.own_index, to_u32-slot p lt), entries)

module _ (past_end : List ℕ → List ℕ) (m : UserManager) (r : Room) (p : ℕ) where
  -- What a room with space leaves behind when user `p` enters.
  pub record Entered (o : Outcome) : Type 0 where
    pub code : o.code ≡ no_error
    pub joined : o.room.user_list ≡ r.user_list ++ (p ∷ [])
    pub number : o.room.room_idx ≡ r.room_idx
    pub pool : IsPool o.users
    pub kept : (q : ℕ) → p ≢ q → user_at o.users q ≡ user_at m q
    pub room : IsRoom o.room
    pub user : User
    pub at_slot : user_at o.users p ≡ some user
    pub in_room : user.domain_state ≡ room_state
    pub room_number : user.room_idx ≡ r.room_idx
    pub infos : List UserInfo
    pub listed : AreEntries past_end o.users o.room.user_list infos
    pub notified :
        o.sent
        ≡ to_each (new_user_packet past_end p user) (others p (r.user_list ++ (p ∷ [])))
          ++ ((p, user_list_packet o.room infos) ∷ [])

-- The room with one more member.
abbrev grown : Room → ℕ → Room
grown r p = record r {
  user_list = r.user_list ++ (p ∷ []);
  current_user_cnt = (r.current_user_cnt + 1) % 2 ^ 16;
}

grown-IsRoom :
    (r : Room) (p : ℕ)
    → IsRoom r
    → length r.user_list < room_max_user_cnt
    → p < max_user_cnt
    → IsRoom (grown r p)
grown-IsRoom r p v space lt = record {
  cap = v.cap;
  bounded = omega (arith, length-append r.user_list (p ∷ []));
  members = InPool-append r.user_list p v.members lt;
}

-- A room with space takes the user in and does not fault: the user stands behind the earlier members,
-- is in the room's state, each earlier member gets one packet that names him, and he gets one packet
-- with an entry for every member, in the order of the list. Nobody else is changed, and the pool and the room stay well-formed.
pub enter_user_joins :
    (past_end : List ℕ → List ℕ) (m : UserManager) (r : Room) (p : ℕ)
    → IsPool m
    → IsRoom r
    → length r.user_list < room_max_user_cnt
    → p < max_user_cnt
    → (o : Outcome) × (enter_user past_end m r p ≡ some o) × Entered past_end m r p o
unfolding enter_user update_user User.enter_room
enter_user_joins past_end m r p v vr space lt =
    let (u, e, s) = user_of_IsSlot m p v lt in
    let u' : User = User.enter_room r.room_idx u in
    let m' : UserManager = record m { user_obj_pool = set m.user_obj_pool p u' } in
    let v' = set-IsPool m p u u' v e (record { own_index = s.own_index; ring = s.ring }) in
    let vr' = grown-IsRoom r p vr space lt in
    let at : user_at m' p ≡ some u' =
      get_elem?-set_self m.user_obj_pool p u' (omega (arith, v.full)) in
    let room : leb r.max_user_cnt (length r.user_list) ≡ false = ground (arith, vr.cap) in
    let (infos, listed, entries) =
      notify_user_list-AreEntries past_end m' (grown r p) p v' vr' lt in
    let told = notify_new_user-others past_end m' (grown r p) p u' v' vr'.members lt at in
    (
      record {
        code = no_error;
        users = m';
        room = grown r p;
        sent =
            to_each (new_user_packet past_end p u') (others p (r.user_list ++ (p ∷ [])))
            ++ ((p, user_list_packet (grown r p) infos) ∷ []);
      },
      rw (room, e, told, listed),
      record {
        code = refl;
        joined = refl;
        number = refl;
        pool = v';
        kept = λ q other. get_elem?-set_ne m.user_obj_pool u' other;
        room = vr';
        user = u';
        at_slot = at;
        in_room = refl;
        room_number = refl;
        infos = infos;
        listed = entries;
        notified = refl;
      },
    )
