-- ===== src/PacketManager/Stranded.antt =====
-- Identifiers that stay in the map of `UserManager` behind their user (Content/packet_manager.cpp).
use iocp_chatting.Bytes.{bytes_eq, c_str}
use iocp_chatting.Packet.{LoginRequestPacket, login_user_already}
use iocp_chatting.User
use iocp_chatting.User.{User}
use iocp_chatting.Users
use iocp_chatting.Users.{IdMap, UserManager, user_at, find, erase, insert}
use iocp_chatting.Users.Login.{bytes_eq_iff, find-insert}
use iocp_chatting.Redis
use iocp_chatting.PacketManager.{
  State, send_packet, login_answer, login_of, login_db_res_handler, disconnect_handler, forget,
}
use iocp_chatting.PacketManager.Login.{
  asked, confirmed, login_of_free, login_db_res_ok, get_user-resize,
}
use iocp_chatting.Prelude.{
  ℕ, ◌≡◌, refl, ap, ◌∙◌, true, false, some, none, List, [], ◌∷◌, ◌++◌, length-set, get_elem?-lt,
  get_elem?-set_self, Bool-cases, inl, inr, ◌>>=◌, ℤ, pos, to_int32,
}

find-erase : (j k : List ℕ) (m : IdMap) → bytes_eq k j ≡ false → find j (erase k m) ≡ find j m
unfolding find erase
find-erase j k [] apart = refl
find-erase j k ((x, v) ∷ m) apart = elim (Bool-cases (bytes_eq x k)) [
  | inl same ↦
      let e = (bytes_eq_iff x k).0 same in rw same (rw (ap (λ y. bytes_eq y j) e ∙ apart) refl)
  | inr other ↦ rw (other, find-erase j k m apart) refl
]

apart_of_find :
    (a b : List ℕ) (m : IdMap) {n : ℤ} → find a m ≡ some n → find b m ≡ none → bytes_eq b a ≡ false
apart_of_find a b m here absent = elim (Bool-cases (bytes_eq b a)) [
  | inl same ↦ absurd (cc (ap (λ x. find x m) ((bytes_eq_iff b a).0 same)))
  | inr other ↦ other
]

refused_of_find :
    (i n : ℕ) (pkt : LoginRequestPacket) (id : List ℕ) (t : State)
    → c_str (pkt.user_id ++ pkt.user_pw) ≡ some id
    → find id t.users.user_id_map ≡ some (pos n)
    → login_of i pkt t ≡ some (send_packet i (login_answer login_user_already) t)
unfolding login_of Users.find_user_index_by_id
refused_of_find i n pkt id t ec ef = rw (ec, Users.find_user_index_by_id, ef) refl

module _ (i p n : ℕ) (s : State) (u : User) (pkt : LoginRequestPacket) (id ans : List ℕ)
    (ei : Users.get_user_by_index s.users (to_int32 i) ≡ some p) (eu : user_at s.users p ≡ some u)
    (logged : find u.user_id s.users.user_id_map ≡ some (pos n))
    (ec : c_str (pkt.user_id ++ pkt.user_pw) ≡ some id) (ef : find id s.users.user_id_map ≡ none)
    (ea : Redis.read_login_res ans ≡ some 0) where
  abbrev renamed : User
  renamed = User.set_user_id id u

  abbrev relogged : User
  relogged = User.set_confirmed true (User.set_login id renamed)

  abbrev asking : State
  asking = asked i pkt id p u s

  abbrev answered : State
  answered = confirmed i p renamed asking

  abbrev left_behind : State
  left_behind = record answered { users = Users.delete_user_info id answered.users }

  asking-slot : Users.get_user_by_index asking.users (to_int32 i) ≡ some p
  asking-slot =
      get_user-resize s.users asking.users (to_int32 i) (length-set s.users.user_obj_pool p _) ei

  asking-user : user_at asking.users p ≡ some renamed
  asking-user =
      get_elem?-set_self s.users.user_obj_pool p renamed (get_elem?-lt s.users.user_obj_pool p eu)

  answered-slot : Users.get_user_by_index answered.users (to_int32 i) ≡ some p
  answered-slot =
      get_user-resize asking.users answered.users (to_int32 i)
        (length-set asking.users.user_obj_pool p _) asking-slot

  answered-user : user_at answered.users p ≡ some relogged
  unfolding User.set_user_id
  answered-user =
      get_elem?-set_self asking.users.user_obj_pool p relogged
        (get_elem?-lt asking.users.user_obj_pool p asking-user)

  disconnects : disconnect_handler i answered ≡ some left_behind
  unfolding disconnect_handler forget User.set_confirmed User.set_login
  disconnects = rw (answered-slot, answered-user) refl

  still_found : find u.user_id left_behind.users.user_id_map ≡ some (pos n)
  unfolding Users.delete_user_info User.set_user_id
  still_found =
      let apart = apart_of_find u.user_id id s.users.user_id_map logged ef in
      find-erase u.user_id id (insert id (pos p) s.users.user_id_map) apart
      ∙ find-insert id u.user_id (pos p) s.users.user_id_map
      ∙ rw (ef, apart) logged

  -- A user that is logged in logs in again, under an identifier that nobody is logged in under, and is
  -- then disconnected. None of this faults, and behind it every login under the first identifier is
  -- refused, whatever session asks, as for one that is in use.
  pub relogin_strands :
      (t : State) × ((login_of i pkt s >>= λ s₁.
      login_db_res_handler i ans s₁ >>= λ s₂. disconnect_handler i s₂)
        ≡ some t)
      × ((j : ℕ) (pkt' : LoginRequestPacket)
          → c_str (pkt'.user_id ++ pkt'.user_pw) ≡ some u.user_id
          → login_of j pkt' t ≡ some (send_packet j (login_answer login_user_already) t))
  relogin_strands = (
    left_behind,
    rw
        (
          login_of_free i pkt id s p u ei eu ec ef,
          login_db_res_ok i ans asking p renamed asking-slot asking-user ea,
        )
        disconnects,
    λ j pkt' ec'. refused_of_find j n pkt' u.user_id left_behind ec' still_found,
  )
