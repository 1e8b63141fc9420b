-- ===== src/Chat/Sessions.antt =====
-- `ConnectHandler`, `DisconnectHandler` and the login handlers (Content/packet_manager.cpp) against the
-- abstract chat: they say whose session there is, and who may enter a room.
use mathlib.Core.Path.{fun_ext}
use native.Mathlib.Decide.{ℕ_discrete}
use iocp_chatting.Bytes.{c_str}
use iocp_chatting.Packet.{
  LoginRequestPacket, login_result, login_response, set_packet_id_and_len, read_login_request,
  login_user_already,
}
use iocp_chatting.User
use iocp_chatting.User.{User, none_state, login_state, room_state}
use iocp_chatting.Users
use iocp_chatting.Users.{UserManager, user_at}
use iocp_chatting.Users.Login.{set_user_id_lem}
use iocp_chatting.Room.Leave.{leave_user_of_lem}
use iocp_chatting.Rooms.Bounds.{get_user_by_index-lt}
use iocp_chatting.Redis
use iocp_chatting.PacketManager.{
  State, send_packet, connect_handler, disconnect_handler, leave_on_disconnect, forget,
  login_handler, login_of, push_login_request, login_db_res_handler, is_minus_one, login_answer,
}
use iocp_chatting.PacketManager.Login.{asked, login_never_full, login_db_res_ok, confirmed}
use iocp_chatting.PacketManager.Sound.{IsSound}
use iocp_chatting.PacketManager.Talk.{get_room-at}
use iocp_chatting.Chat.{Place, outside, lobby, departed, inside, Chat, is_inside, put}
use iocp_chatting.Chat.Represents.{
  Stands, Represents, put_self, put_other, placed-Represents, moved-Represents, told-Represents,
  inside_other,
}
use iocp_chatting.Chat.Away.{Away, OwnIdInRoom, counts_without}
use iocp_chatting.Prelude.{
  ℕ, ◌≡◌, ◌≢◌, ◌==◌, refl, sym, ap, ◌∙◌, subst, true, false, some, List, [], ◌++◌, set,
  get_elem?_of_lt, get_elem?-lt, get_elem?-set_self, get_elem?-set_ne, Bool-cases, inl, inr,
  to_int32, arith,
}

pub put_same : (p : ℕ) (c : Chat) → put p (c p) c ≡ c
put_same p c = fun_ext λ q. elim (ℕ_discrete p q) [
  | yes e ↦ subst (λ x. put p (c p) c x ≡ c x) e (put_self p (c p) c)
  | no other ↦ put_other p (c p) c other
]

pub departed-Away : Away departed
departed-Away j = refl

-- Where an answer that the login is right takes a user that is in no room.
abbrev pub admitted : Place → Place
admitted departed = departed
admitted outside = lobby
admitted lobby = lobby
admitted (inside k) = inside k

module _ (i : ℕ) (s : State) (c : Chat) (p : ℕ) (u : User)
    (ei : Users.get_user_by_index s.users (to_int32 i) ≡ some p) (eu : user_at s.users p ≡ some u)
    (v : IsSound s) (rep : Represents s c) where
  -- The user's object is replaced, and the user stands in no room before and after.
  replaced-Represents :
      (u' : User) (pl : Place)
      → Stands u' pl
      → ((j : ℕ) → is_inside j pl ≡ is_inside j (c p))
      → Represents
          (record s { users = record (s.users) { user_obj_pool = set s.users.user_obj_pool p u' } })
          (put p pl c)
  replaced-Represents u' pl st same =
      placed-Represents s c p pl u' _ rep
        (get_elem?-set_self s.users.user_obj_pool p u' (get_elem?-lt s.users.user_obj_pool p eu)) st
        (λ q other. get_elem?-set_ne s.users.user_obj_pool u' other) same

  -- The notice of a connection of a user that is in no room, in a sound state that holds a chat, is
  -- handled, and puts the user outside.
  pub connect_handler-refines :
      Away (c p) → (t : State) × (connect_handler i s ≡ some t) × Represents t (put p outside c)
  unfolding connect_handler Users.update_user User.clear
  connect_handler-refines away = (
    record s {
      users = record (s.users) { user_obj_pool = set s.users.user_obj_pool p (User.clear u) };
    },
    rw (ei, eu) refl,
    replaced-Represents (User.clear u) outside refl (λ j. sym (away j)),
  )

  -- The user departs, and its object stays as it is.
  abbrev Departs : State → Type 0
  Departs t = Represents t (put p departed c) × (t.users.user_obj_pool ≡ s.users.user_obj_pool)

  forgotten-Departs :
      Away (c p) → Departs (record s { users = Users.delete_user_info u.user_id s.users })
  unfolding Users.delete_user_info
  forgotten-Departs away =
      (placed-Represents s c p departed u _ rep eu tt (λ q other. refl) (λ j. sym (away j)), refl)

  disconnect_from-Departs :
      (pl : Place)
      → c p ≡ pl
      → pl ≢ departed
      → OwnIdInRoom s c p u
      → Stands u pl
      → (t : State) × (disconnect_handler i s ≡ some t) × Departs t
  unfolding disconnect_handler leave_on_disconnect forget Users.delete_user_info
  disconnect_from-Departs departed e here own st = absurd (here refl)
  disconnect_from-Departs outside e here own st = (
    record s { users = Users.delete_user_info u.user_id s.users },
    rw (ei, eu, st) refl,
    forgotten-Departs (λ j. ap (is_inside j) e),
  )
  disconnect_from-Departs lobby e here own st = (
    record s { users = Users.delete_user_info u.user_id s.users },
    rw (ei, eu, st) refl,
    forgotten-Departs (λ j. ap (is_inside j) e),
  )
  disconnect_from-Departs (inside k) e here own st =
      let (r, er) = get_elem?_of_lt s.rooms k (omega (arith, v.rooms.number, st.2)) in
      let lt = get_user_by_index-lt s.users (to_int32 i) v.pool ei in
      let (o, run, left) = leave_user_of_lem s.users r p u v.pool (v.rooms.each k r er) lt eu in
      (
        record s {
          users = Users.delete_user_info u.user_id s.users;
          rooms = set s.rooms k o.0;
          sent = s.sent ++ o.1;
        },
        rw (ei, eu, st.0, st.1, get_room-at s.rooms k er, er, run) refl,
        (
          moved-Represents s c p k departed u _ o.0 _ rep eu tt (λ q other. refl)
              (left.number ∙ rep.numbers k r er)
              (counts_without s c p u eu v rep departed k r o refl e er (own k e) left)
              (λ j other. sym (ap (is_inside j) e ∙ inside_other j k other)),
          refl,
        ),
      )

  -- The notice of a disconnection of a user that has not departed, in a sound state that holds a chat, is
  -- handled, and the user departs from wherever it is, if nobody else in its room has its identifier.
  -- All user objects stay as they are.
  pub disconnect_handler-refines :
      c p ≢ departed
      → OwnIdInRoom s c p u
      → (t : State) × (disconnect_handler i s ≡ some t)
        × Represents t (put p departed c)
        × (t.users.user_obj_pool ≡ s.users.user_obj_pool)
  disconnect_handler-refines here own =
      let (t, run, done) = disconnect_from-Departs (c p) refl here own (rep.places p u eu) in
      (t, run, done.0, done.1)

  -- A method that leaves the state and the room number of the user alone.
  kept-Represents :
      (u' : User)
      → ((pl : Place) → Stands u pl → Stands u' pl)
      → Represents
          (record s { users = record (s.users) { user_obj_pool = set s.users.user_obj_pool p u' } })
          c
  kept-Represents u' stays =
      subst (Represents _) (put_same p c)
        (replaced-Represents u' (c p) (stays (c p) (rep.places p u eu)) (λ j. refl))

  set_user_id-Stands : (id : List ℕ) (pl : Place) → Stands u pl → Stands (User.set_user_id id u) pl
  unfolding User.set_user_id
  set_user_id-Stands id outside st = st
  set_user_id-Stands id lobby st = st
  set_user_id-Stands id departed st = tt
  set_user_id-Stands id (inside k) st = st

  -- A full login request with a terminated identifier moves nobody.
  pub login_handler-keeps :
      (p_data : List ℕ) (pkt : LoginRequestPacket) (id : List ℕ)
      → read_login_request p_data ≡ some pkt
      → c_str (pkt.user_id ++ pkt.user_pw) ≡ some id
      → (t : State) × (login_handler i p_data s ≡ some t) × Represents t c
  unfolding login_of push_login_request
  login_handler-keeps p_data pkt id en ec =
      elim (Bool-cases (is_minus_one (Users.find_user_index_by_id id s.users))) [
        | inl free ↦
            let kept = kept-Represents (User.set_user_id id u) (set_user_id-Stands id) in
            (
              asked i pkt id p u s,
              login_never_full i p_data s v
                  ∙ rw (en, ec, free, set_user_id_lem (to_int32 i) id s.users p u ei eu) refl,
              record { places = kept.places; numbers = kept.numbers; lists = kept.lists },
            )
        | inr taken ↦ (
          send_packet i (login_answer login_user_already) s,
          login_never_full i p_data s v ∙ rw (en, ec, taken) refl,
          told-Represents s c _ rep,
        )
      ]

  confirmed-Represents :
      (pl : Place) → c p ≡ pl → Away pl → Represents (confirmed i p u s) (put p (admitted pl) c)
  unfolding User.set_confirmed User.set_login
  confirmed-Represents outside e away =
      let w =
        replaced-Represents (User.set_confirmed true (User.set_login u.user_id u)) lobby refl
          (λ j. sym (ap (is_inside j) e)) in
      record { places = w.places; numbers = w.numbers; lists = w.lists }
  confirmed-Represents lobby e away =
      let w =
        replaced-Represents (User.set_confirmed true (User.set_login u.user_id u)) lobby refl
          (λ j. sym (ap (is_inside j) e)) in
      record { places = w.places; numbers = w.numbers; lists = w.lists }
  confirmed-Represents departed e away =
      let w =
        replaced-Represents (User.set_confirmed true (User.set_login u.user_id u)) departed tt
          (λ j. sym (ap (is_inside j) e)) in
      record { places = w.places; numbers = w.numbers; lists = w.lists }
  confirmed-Represents (inside k) e away = absurd (ground (arith, away k))

  -- An answer of Redis that the login is right takes a user that is in no room to the lobby, or leaves it
  -- departed.
  pub login_db_res_ok-refines :
      (p_data : List ℕ)
      → Redis.read_login_res p_data ≡ some 0
      → Away (c p)
      → (t : State) × (login_db_res_handler i p_data s ≡ some t)
        × Represents t (put p (admitted (c p)) c)
  login_db_res_ok-refines p_data er away = (
    confirmed i p u s,
    login_db_res_ok i p_data s p u ei eu er,
    confirmed-Represents (c p) refl away,
  )

  -- Any other answer moves nobody.
  pub login_db_res_failed-keeps :
      (p_data : List ℕ) (result : ℕ)
      → Redis.read_login_res p_data ≡ some result
      → result ≢ 0
      → (t : State) × (login_db_res_handler i p_data s ≡ some t) × Represents t c
  unfolding login_db_res_handler
  login_db_res_failed-keeps p_data result er wrong =
      let kept = kept-Represents (User.set_user_id [] u) (set_user_id-Stands []) in
      let test : (result == 0) ≡ false = ground (arith, wrong) in
      (
        send_packet i (set_packet_id_and_len login_response (login_result result)) (record s {
          users = record (s.users) {
            user_obj_pool = set s.users.user_obj_pool p (User.set_user_id [] u);
          };
        }),
        rw (er, test, set_user_id_lem (to_int32 i) [] s.users p u ei eu) refl,
        record { places = kept.places; numbers = kept.numbers; lists = kept.lists },
      )
