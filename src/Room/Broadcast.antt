-- ===== src/Room/Broadcast.antt =====
-- Whom `BroadcastMsg` and the notifications of a room reach.
use iocp_chatting.Config.{max_user_cnt, max_user_id_len, max_chat_msg_size}
use iocp_chatting.Bytes.{to_u32, to_u64, sign_extend16, copy_c_str}
use iocp_chatting.Packet.{Packet, Sent, UserInfo, set_packet_id_and_len, chat, room_chat_notify}
use iocp_chatting.User.{User}
use iocp_chatting.Users.{UserManager, user_at}
use iocp_chatting.Users.Pool.{IsPool, IsSlot}
use iocp_chatting.Room.{Room, broadcast_msg, notify_chat, user_infos, user_info}
use iocp_chatting.Prelude.{
  get_elem?_of_lt, Bool-cases, inl, inr, ℕ, suc, ◌+◌, ◌%◌, ◌^◌, ◌∙◌, ◌<◌, ◌≡◌, refl, ap, true,
  false, some, List, [], ◌∷◌, map, arith, length, take, ◌==◌, if◌then◌else◌, pos,
}

-- Every slot of the list is one of the pool.
abbrev pub InPool : List ℕ → Type 0
InPool [] = Unit {0}
InPool (p ∷ ps) = (p < max_user_cnt) × InPool ps

-- The object that a pointer into the pool points to.
pub user_of_IsSlot :
    (m : UserManager) (p : ℕ)
    → IsPool m
    → p < max_user_cnt
    → (u : User) × (user_at m p ≡ some u) × IsSlot p u
user_of_IsSlot m p v h =
    let (u, e) = get_elem?_of_lt m.user_obj_pool p (omega (arith, v.full)) in (u, e, v.slots p u e)

-- For an index in the pool no cast changes anything.
pub to_u32-slot : (p : ℕ) → p < max_user_cnt → to_u32 (pos p) ≡ p
to_u32-slot p h = omega arith

pub to_u64-slot : (p : ℕ) → p < max_user_cnt → to_u64 (pos p) ≡ p
to_u64-slot p h = omega arith

sign_extend16-slot : (p : ℕ) → p < max_user_cnt → sign_extend16 (pos p) ≡ p
sign_extend16-slot p h = ground arith

-- The members of a list other than one.
abbrev pub others : ℕ → List ℕ → List ℕ
others q [] = []
others q (p ∷ ps) = if p == q then others q ps else p ∷ others q ps

abbrev pub to_each : Packet → List ℕ → List Sent
to_each pkt = map (λ p. (p, pkt))

-- A broadcast to everybody sends the packet once to each member of the list, in order.
pub broadcast_msg_all :
    (m : UserManager) (ps : List ℕ) (pkt : Packet) (pass : ℕ)
    → IsPool m
    → InPool ps
    → broadcast_msg m ps pkt pass false ≡ some (to_each pkt ps)
unfolding broadcast_msg
broadcast_msg_all m [] pkt pass v h = refl
broadcast_msg_all m (p ∷ ps) pkt pass v h =
    let (u, e, s) = user_of_IsSlot m p v h.0 in
    rw (e, broadcast_msg_all m ps pkt pass v h.1, s.own_index, to_u32-slot p h.0)

-- A broadcast that leaves one user out sends the packet once to each other member, in order: for an
-- index in the pool the cut to 16 bits changes nothing.
pub broadcast_msg-others :
    (m : UserManager) (ps : List ℕ) (pkt : Packet) (q : ℕ)
    → IsPool m
    → InPool ps
    → broadcast_msg m ps pkt q true ≡ some (to_each pkt (others q ps))
unfolding broadcast_msg
broadcast_msg-others m [] pkt q v h = refl
broadcast_msg-others m (p ∷ ps) pkt q v h =
    let (u, e, s) = user_of_IsSlot m p v h.0 in
    rw
      (
        e,
        broadcast_msg-others m ps pkt q v h.1,
        s.own_index,
        sign_extend16-slot p h.0,
        to_u32-slot p h.0,
      )
      (elim (Bool-cases (p == q)) [ inl same ↦ rw same | inr other ↦ rw other ])

-- A chat message goes to every member of the room, its author among them, once and in order.
pub notify_chat_reaches_all :
    (past_end : List ℕ → List ℕ) (m : UserManager) (r : Room) (user_idx : ℕ) (user_id msg : List ℕ)
    → IsPool m
    → InPool r.user_list
    → notify_chat past_end m r user_idx user_id msg
      ≡ some (
          to_each
            (set_packet_id_and_len room_chat_notify (
              chat
                (copy_c_str past_end (max_user_id_len + 1) user_id)
                (take (max_chat_msg_size + 1) msg)))
            r.user_list)
unfolding notify_chat
notify_chat_reaches_all past_end m r user_idx user_id msg v h =
    broadcast_msg_all m r.user_list _ user_idx v h

-- What a packet says of the user in slot `q`: its number, the length of its identifier in 8 bits, and
-- 33 bytes from the identifier on.
abbrev pub entry : (List ℕ → List ℕ) → ℕ → User → UserInfo
entry past_end q u = record {
  user_index = q;
  id_len = length u.user_id % 2 ^ 8;
  user_id = copy_c_str past_end (max_user_id_len + 1) u.user_id;
}

-- One entry for each slot of a list, in order.
abbrev pub AreEntries : (List ℕ → List ℕ) → UserManager → List ℕ → List UserInfo → Type 0
AreEntries past_end m [] [] = Unit
AreEntries past_end m [] (x ∷ xs) = ⊥
AreEntries past_end m (q ∷ qs) [] = ⊥
AreEntries past_end m (q ∷ qs) (x ∷ xs) =
    (u : User) × (user_at m q ≡ some u) × (x ≡ entry past_end q u) × AreEntries past_end m qs xs

pub length-AreEntries :
    (past_end : List ℕ → List ℕ) (m : UserManager) (qs : List ℕ) (xs : List UserInfo)
    → AreEntries past_end m qs xs
    → length xs ≡ length qs
length-AreEntries past_end m [] [] h = refl
length-AreEntries past_end m [] (x ∷ xs) h = absurd h
length-AreEntries past_end m (q ∷ qs) [] h = absurd h
length-AreEntries past_end m (q ∷ qs) (x ∷ xs) (u, e, f, rest) =
    ap suc (length-AreEntries past_end m qs xs rest)

pub user_info-entry :
    (past_end : List ℕ → List ℕ) (q : ℕ) (u : User)
    → q < max_user_cnt
    → u.session_idx ≡ pos q
    → user_info past_end u ≡ entry past_end q u
unfolding user_info
user_info-entry past_end q u lt own =
    ap
      (λ k. record {
        user_index = k;
        id_len = length u.user_id % 2 ^ 8;
        user_id = copy_c_str past_end (max_user_id_len + 1) u.user_id;
      })
      (ap to_u64 own ∙ to_u64-slot q lt)

-- The entries of a user list packet are those of the members, in order.
pub user_infos-AreEntries :
    (past_end : List ℕ → List ℕ) (m : UserManager) (ps : List ℕ)
    → IsPool m
    → InPool ps
    → (infos : List UserInfo) × (user_infos past_end m ps ≡ some infos)
      × AreEntries past_end m ps infos
unfolding user_infos
user_infos-AreEntries past_end m [] v h = ([], refl, tt)
user_infos-AreEntries past_end m (p ∷ ps) v h =
    let (u, e, s) = user_of_IsSlot m p v h.0 in
    let (infos, f, rest) = user_infos-AreEntries past_end m ps v h.1 in
    (
      user_info past_end u ∷ infos,
      rw (e, f),
      (u, e, user_info-entry past_end p u h.0 s.own_index, rest),
    )
