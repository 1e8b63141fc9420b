-- ===== src/Chat/Relogin.antt =====
-- A second login of a user that is in a room: `LoginHandler` and `LoginDBResHandler`
-- (Content/packet_manager.cpp) look neither at the user's state nor at its room.
use iocp_chatting.Config.{room_max_user_cnt}
use iocp_chatting.Bytes.{c_str}
use iocp_chatting.Packet.{no_error, LoginRequestPacket, read_room_enter_request}
use iocp_chatting.User
use iocp_chatting.User.{User}
use iocp_chatting.Users
use iocp_chatting.Users.{user_at, find}
use iocp_chatting.Room.{Room}
use iocp_chatting.Room.Leave.{count}
use iocp_chatting.Rooms.Bounds.{get_user_by_index-lt}
use iocp_chatting.Redis
use iocp_chatting.PacketManager.{
  State, send_packet, enter_response, login_of, login_db_res_handler, enter_room_handler,
}
use iocp_chatting.PacketManager.Login.{
  asked, confirmed, login_of_free, login_db_res_ok, get_user-resize,
}
use iocp_chatting.PacketManager.Sound.{IsSound, login_of-IsSound, login_db_res-IsSound}
use iocp_chatting.PacketManager.Talk.{enter_room_lem}
use iocp_chatting.Chat.{Chat, inside}
use iocp_chatting.Chat.Represents.{Stands, Represents, count-append, inside_other}
use iocp_chatting.Prelude.{
  ℕ, ◌<◌, ◌≡◌, ◌≢◌, refl, true, sym, ap, ◌∙◌, some, none, List, ◌++◌, length, length-set, get_elem?,
  get_elem?_of_lt, subst, get_elem?-lt, get_elem?-set_self, get_elem?-set_ne, set, ◌>>=◌, pos,
  to_int32, arith, Ensures-some,
}

module _ (past_end : List ℕ → List ℕ) (i : ℕ) (s : State) (c : Chat) (p k j : ℕ) (u : User)
    (r : Room) (pkt : LoginRequestPacket) (id ans bytes : List ℕ)
    (ei : Users.get_user_by_index s.users (to_int32 i) ≡ some p) (eu : user_at s.users p ≡ some u)
    (v : IsSound s) (rep : Represents s c) (e : c p ≡ inside k) (other : j ≢ k)
    (er : get_elem? s.rooms j ≡ some r) (space : length r.user_list < room_max_user_cnt)
    (ec : c_str (pkt.user_id ++ pkt.user_pw) ≡ some id) (ef : find id s.users.user_id_map ≡ none)
    (ea : Redis.read_login_res ans ≡ some 0)
    (en : read_room_enter_request bytes ≡ some (pos j)) where
  abbrev renamed : User
  renamed = User.set_user_id id u

  abbrev relogged : User
  relogged = User.set_confirmed true (User.set_login id renamed)

  abbrev asking : State
  asking = asked i pkt id p u s

  abbrev answered : State
  answered = confirmed i p renamed asking

  p_lt : p < length s.users.user_obj_pool
  p_lt = get_elem?-lt s.users.user_obj_pool p eu

  asks : login_of i pkt s ≡ some asking
  asks = login_of_free i pkt id s p u ei eu ec ef

  asking-slot : Users.get_user_by_index asking.users (to_int32 i) ≡ some p
  asking-slot =
      get_user-resize s.users asking.users (to_int32 i) (length-set s.users.user_obj_pool p _) ei

  asking-user : user_at asking.users p ≡ some renamed
  asking-user = get_elem?-set_self s.users.user_obj_pool p renamed p_lt

  asking-IsSound : IsSound asking
  asking-IsSound = Ensures-some IsSound (login_of i pkt s) (login_of-IsSound i pkt s v) asks

  is_answered : login_db_res_handler i ans asking ≡ some answered
  is_answered = login_db_res_ok i ans asking p renamed asking-slot asking-user ea

  answered-IsSound : IsSound answered
  answered-IsSound =
      Ensures-some IsSound (login_db_res_handler i ans asking)
        (login_db_res-IsSound i ans asking asking-IsSound) is_answered

  -- A user of room `k` asks to log in again under an identifier that nobody is logged in under, and the
  -- password is right; then it asks for another room, which has space. Then it is in the lists of
  -- both rooms.
  pub relogin_in_two_rooms :
      (t : State) × (r' : Room) × (r'' : Room) × ((login_of i pkt s >>= λ s₁.
      login_db_res_handler i ans s₁ >>= λ s₂. enter_room_handler past_end i bytes s₂)
        ≡ some t)
      × (get_elem? t.rooms k ≡ some r')
      × (count p r'.user_list ≡ 1)
      × (get_elem? t.rooms j ≡ some r'')
      × (count p r''.user_list ≡ 1)
  unfolding User.set_login User.set_confirmed User.set_user_id
  relogin_in_two_rooms =
      let lt = get_user_by_index-lt s.users (to_int32 i) v.pool ei in
      let st = subst (Stands u) e (rep.places p u eu) in
      let (r', er') = get_elem?_of_lt s.rooms k (omega (arith, v.rooms.number, st.2)) in
      let (o, run, entered) =
        enter_room_lem past_end i bytes answered p relogged
          (get_user-resize asking.users answered.users (to_int32 i)
            (length-set asking.users.user_obj_pool p _) asking-slot)
          (get_elem?-set_self asking.users.user_obj_pool p relogged
            (get_elem?-lt asking.users.user_obj_pool p asking-user))
          answered-IsSound j r en refl er space in
      (
        send_packet i (enter_response no_error) (record answered {
          users = o.users;
          rooms = set s.rooms j o.room;
          sent = answered.sent ++ o.sent;
        }),
        r',
        o.room,
        rw (asks, is_answered) run,
        get_elem?-set_ne s.rooms o.room other ∙ er',
        rep.lists k r' er' p lt ∙ ground (arith, e),
        get_elem?-set_self s.rooms j o.room (get_elem?-lt s.rooms j er),
        ap (count p) entered.joined
            ∙ count-append p r.user_list p
            ∙ ground (arith, rep.lists j r er p lt, e, inside_other j k (λ f. other (sym f))),
      )
