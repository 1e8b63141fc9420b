-- ===== src/PacketManager/Login.antt =====
-- Logins: what an answer does, and two logins under one identifier.
use iocp_chatting.Bytes.{c_str}
use iocp_chatting.Packet.{no_error, LoginRequestPacket, read_login_request}
use iocp_chatting.User
use iocp_chatting.User.{User, login_state}
use iocp_chatting.Users
use iocp_chatting.Users.{user_at, find, insert}
use iocp_chatting.Users.Login.{logged_in, set_user_login_lem, set_user_id_lem}
use iocp_chatting.Redis
use iocp_chatting.PacketManager.{
  State, send_packet, login_answer, login_of, login_handler, push_login_request,
  login_db_res_handler,
}
use iocp_chatting.PacketManager.Sound.{IsSound}
use iocp_chatting.Prelude.{
  get_elem?-lt, ℕ, ◌<◌, ◌≡◌, ◌≢◌, refl, sym, ◌∙◌, true, none, some, List, ◌++◌, set,
  get_elem?-set_self, get_elem?-set_ne, ℤ, pos, negsuc, ◌>>=◌, to_int32, length-set, length,
}

-- The state behind a request that is passed on to Redis, for user `u` of slot `p`.
abbrev pub asked : ℕ → LoginRequestPacket → List ℕ → ℕ → User → State → State
asked i pkt id p u s = record s {
  users = record (s.users) { user_obj_pool = set s.users.user_obj_pool p (User.set_user_id id u) };
  redis =
      Redis.push_task_req
        (Redis.set_task_body i Redis.request_login (Redis.login_req_bytes pkt.user_id pkt.user_pw))
        s.redis;
}

-- The state behind an answer that the login is right.
abbrev pub confirmed : ℕ → ℕ → User → State → State
confirmed i p u s =
    send_packet i (login_answer no_error) (record s { users = logged_in p u s.users })

-- An answer of Redis with the result 0, for a session whose user is in the pool, logs that user in under
-- the identifier that it has at that moment, and sends it one login response with the code for success.
pub login_db_res_ok :
    (i : ℕ) (p_data : List ℕ) (s : State) (p : ℕ) (u : User)
    → Users.get_user_by_index s.users (to_int32 i) ≡ some p
    → user_at s.users p ≡ some u
    → Redis.read_login_res p_data ≡ some 0
    → login_db_res_handler i p_data s ≡ some (confirmed i p u s)
unfolding login_db_res_handler
login_db_res_ok i p_data s p u ei eu er = rw (er, set_user_login_lem (to_int32 i) s.users p u ei eu)

not_logged_in :
    (id : List ℕ) (m : Users.UserManager)
    → find id m.user_id_map ≡ none
    → Users.find_user_index_by_id id m ≡ negsuc 0
unfolding Users.find_user_index_by_id
not_logged_in id m ef = rw (Users.find_user_index_by_id, ef)

-- A login request for an identifier that nobody is logged in under, from a session whose user is in the
-- pool, writes the identifier to the user, puts one request with the two arrays at the end of
-- Redis' queue, and sends nothing.
pub login_of_free :
    (i : ℕ) (pkt : LoginRequestPacket) (id : List ℕ) (s : State) (p : ℕ) (u : User)
    → Users.get_user_by_index s.users (to_int32 i) ≡ some p
    → user_at s.users p ≡ some u
    → c_str (pkt.user_id ++ pkt.user_pw) ≡ some id
    → find id s.users.user_id_map ≡ none
    → login_of i pkt s ≡ some (asked i pkt id p u s)
unfolding login_of push_login_request
login_of_free i pkt id s p u ei eu ec ef =
    rw (ec, not_logged_in id s.users ef, set_user_id_lem (to_int32 i) id s.users p u ei eu)

-- In a sound state a login is never refused because the server is full: nothing counts the users, so
-- the handler goes on to its second test whatever the number of users that are logged in.
pub login_never_full :
    (i : ℕ) (p_data : List ℕ) (s : State)
    → IsSound s
    → login_handler i p_data s ≡ (read_login_request p_data >>= λ pkt. login_of i pkt s)
unfolding login_handler Users.get_current_user_cnt
login_never_full i p_data s v = rw v.pool.uncounted

-- A pool of the same size has the same slots.
pub get_user-resize :
    (m m' : Users.UserManager) (k : ℤ) {p : ℕ}
    → length m'.user_obj_pool ≡ length m.user_obj_pool
    → Users.get_user_by_index m k ≡ some p
    → Users.get_user_by_index m' k ≡ some p
unfolding Users.get_user_by_index
get_user-resize m m' (pos n) e h = rw e h
get_user-resize m m' (negsuc n) e h = h

-- Two sessions that ask for one identifier before either is answered.
module _ (i j p q : ℕ) (pkt pkt' : LoginRequestPacket) (id ans ans' : List ℕ) (s : State)
    (u w : User) (ei : Users.get_user_by_index s.users (to_int32 i) ≡ some p)
    (ej : Users.get_user_by_index s.users (to_int32 j) ≡ some q) (eu : user_at s.users p ≡ some u)
    (ew : user_at s.users q ≡ some w) (ne : p ≢ q)
    (ec : c_str (pkt.user_id ++ pkt.user_pw) ≡ some id)
    (ec' : c_str (pkt'.user_id ++ pkt'.user_pw) ≡ some id) (ef : find id s.users.user_id_map ≡ none)
    (er : Redis.read_login_res ans ≡ some 0) (er' : Redis.read_login_res ans' ≡ some 0) where
  abbrev first_asked : State
  first_asked = asked i pkt id p u s

  abbrev second_asked : State
  second_asked = asked j pkt' id q w first_asked

  abbrev first_in : State
  first_in = confirmed i p (User.set_user_id id u) second_asked

  abbrev second_in : State
  second_in = confirmed j q (User.set_user_id id w) first_in

  p_lt : p < length s.users.user_obj_pool
  p_lt = get_elem?-lt s.users.user_obj_pool p eu

  q_lt : q < length s.users.user_obj_pool
  q_lt = get_elem?-lt s.users.user_obj_pool q ew

  first_asks : login_of i pkt s ≡ some first_asked
  first_asks = login_of_free i pkt id s p u ei eu ec ef

  second_asks : login_of j pkt' first_asked ≡ some second_asked
  second_asks =
      login_of_free j pkt' id first_asked q w
        (get_user-resize s.users first_asked.users (to_int32 j)
          (length-set s.users.user_obj_pool p _) ej)
        (get_elem?-set_ne s.users.user_obj_pool _ ne ∙ ew) ec' ef

  size_asked : length second_asked.users.user_obj_pool ≡ length s.users.user_obj_pool
  size_asked = length-set first_asked.users.user_obj_pool q _ ∙ length-set s.users.user_obj_pool p _

  first_confirmed : login_db_res_handler i ans second_asked ≡ some first_in
  first_confirmed =
      login_db_res_ok i ans second_asked p (User.set_user_id id u)
        (get_user-resize s.users second_asked.users (to_int32 i) size_asked ei)
        (get_elem?-set_ne first_asked.users.user_obj_pool _ (λ e. ne (sym e))
          ∙ get_elem?-set_self s.users.user_obj_pool p _ p_lt)
        er

  second_confirmed : login_db_res_handler j ans' first_in ≡ some second_in
  second_confirmed =
      login_db_res_ok j ans' first_in q (User.set_user_id id w)
        (get_user-resize s.users first_in.users (to_int32 j)
          (length-set second_asked.users.user_obj_pool p _ ∙ size_asked) ej)
        (get_elem?-set_ne second_asked.users.user_obj_pool _ ne
          ∙ get_elem?-set_self first_asked.users.user_obj_pool q _
              (rw (length-set s.users.user_obj_pool p) q_lt))
        er'

  -- Two sessions with different slots each ask to log in under an identifier that nobody is logged in
  -- under, before Redis has answered either, and both answers are that the password is right. Then
  -- both users end up logged in under the one identifier.
  pub both_logged_in :
      (t : State) × (u' : User) × (w' : User) × ((login_of i pkt s >>= λ s₁.
      login_of j pkt' s₁ >>= λ s₂.
      login_db_res_handler i ans s₂ >>= λ s₃. login_db_res_handler j ans' s₃)
        ≡ some t)
      × (user_at t.users p ≡ some u')
      × (user_at t.users q ≡ some w')
      × (u'.domain_state ≡ login_state)
      × (w'.domain_state ≡ login_state)
      × (u'.user_id ≡ id)
      × (w'.user_id ≡ id)
  unfolding User.set_login User.set_confirmed User.set_user_id
  both_logged_in = (
    second_in,
    User.set_confirmed true (User.set_login id (User.set_user_id id u)),
    User.set_confirmed true (User.set_login id (User.set_user_id id w)),
    rw (first_asks, second_asks, first_confirmed, second_confirmed) refl,
    get_elem?-set_ne first_in.users.user_obj_pool _ (λ e. ne (sym e))
        ∙ get_elem?-set_self second_asked.users.user_obj_pool p _ (rw size_asked p_lt),
    get_elem?-set_self first_in.users.user_obj_pool q _
        (rw (length-set second_asked.users.user_obj_pool p, size_asked) q_lt),
    refl,
    refl,
    refl,
    refl,
  )
