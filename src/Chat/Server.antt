-- ===== src/Chat/Server.antt =====
-- The whole table of handlers (Content/packet_manager.cpp) against the abstract chat.
use iocp_chatting.Bytes.{c_str}
use iocp_chatting.Packet.{
  ErrorCode, Packet, no_error, PacketInfo, LoginRequestPacket, read_login_request,
  read_room_enter_request, read_room_leave_request, read_room_chat_request, user_in_lobby,
  chat_room_invalid_room_number,
}
use iocp_chatting.User.{User, room_state, state_eq}
use iocp_chatting.Users
use iocp_chatting.Users.{user_at}
use iocp_chatting.Room.{Room}
use iocp_chatting.Room.Broadcast.{to_each, notify_chat_reaches_all}
use iocp_chatting.Rooms
use iocp_chatting.Redis.{read_login_res}
use iocp_chatting.PacketManager.{
  State, send_packet, chat_response, chat_in_room, room_chat_handler, login_db_res_handler,
  enter_room_handler,
}
use iocp_chatting.PacketManager.Sound.{IsSound}
use iocp_chatting.PacketManager.Talk.{chat_packet}
use iocp_chatting.Dispatch.{
  Handler, connect, disconnect, login, login_db_res, enter_room, leave_room, room_chat,
  call_handler,
}
use iocp_chatting.Chat.{outside, departed, Chat, put, enter, leave}
use iocp_chatting.Chat.Represents.{Represents, Does, told-Represents}
use iocp_chatting.Chat.Away.{Away, OwnIdInRoom}
use iocp_chatting.Chat.Refine.{enter_room_handler-refines, leave_room_handler-refines}
use iocp_chatting.Chat.Sessions.{
  admitted, connect_handler-refines, disconnect_handler-refines, login_handler-keeps,
  login_db_res_ok-refines, login_db_res_failed-keeps,
}
use iocp_chatting.Prelude.{
  ℕ, zero, suc, ◌≡◌, ◌≢◌, refl, sym, subst, Option, none, some, List, [], ◌∷◌, ◌++◌, get_elem?,
  get_elem?_of_lt, Bool-cases, Option-cases, inl, inr, ℤ, pos, negsuc, to_int32, arith,
}

-- What an answer of Redis does to the chat: 0 is success.
abbrev pub answer : Option ℕ → ℕ → Chat → Chat
answer none p c = c
answer (some zero) p c = put p (admitted (c p)) c
answer (some (suc n)) p c = c

abbrev pub enter_at : Option ℤ → ℕ → Chat → Chat
enter_at none p c = c
enter_at (some n) p c = (enter p n c).1

-- What a packet does to the chat, by its handler, the user of its session and its bytes.
module _ (p : ℕ) (bytes : List ℕ) (c : Chat) where
  abbrev pub act : Handler → Chat
  act connect = put p outside c
  act disconnect = put p departed c
  act login = c
  act login_db_res = answer (read_login_res bytes) p c
  act enter_room = enter_at (read_room_enter_request bytes) p c
  act leave_room = (leave p c).1
  act room_chat = c

-- What the handlers rely on: the packets are whole; a session is connected and logged in while its
-- user is in no room; a departed user neither enters nor leaves nor departs; and one that leaves a
-- room, or departs from it, shares its identifier with nobody else in the room.
module _ (p : ℕ) (bytes : List ℕ) (u : User) (s : State) (c : Chat) where
  abbrev pub Orderly : Handler → Type 0
  Orderly connect = Away (c p)
  Orderly disconnect = (c p ≢ departed) × OwnIdInRoom s c p u
  Orderly login =
      (pkt : LoginRequestPacket) × (id : List ℕ) × (read_login_request bytes ≡ some pkt)
      × (c_str (pkt.user_id ++ pkt.user_pw) ≡ some id)
  Orderly login_db_res = (r : ℕ) × (read_login_res bytes ≡ some r) × Away (c p)
  Orderly enter_room = (n : ℤ) × (read_room_enter_request bytes ≡ some n) × (c p ≢ departed)
  Orderly leave_room =
      (header : List ℕ) × (read_room_leave_request bytes ≡ some header)
      × (c p ≢ departed)
      × OwnIdInRoom s c p u
  Orderly room_chat = (msg : List ℕ) × (read_room_chat_request bytes ≡ some msg)

-- A handler that returns, and the chat of its state.
abbrev pub Returns : Option State → Chat → Type 0
Returns m c = (t : State) × (m ≡ some t) × Represents t c

room_at :
    (rooms : List Room) (i : ℤ) {k : ℕ}
    → Rooms.get_room_by_idx rooms i ≡ some k
    → (r : Room) × (get_elem? rooms k ≡ some r)
unfolding Rooms.get_room_by_idx
room_at rooms (pos j) {k} e = get_elem?_of_lt rooms k (ground arith)
room_at rooms (negsuc j) e = cc

module _ (past_end : List ℕ → List ℕ) (i : ℕ) (s : State) (c : Chat) (p : ℕ) (u : User)
    (ei : Users.get_user_by_index s.users (to_int32 i) ≡ some p) (eu : user_at s.users p ≡ some u)
    (v : IsSound s) (rep : Represents s c) where
  -- Chats move nobody, whatever the user's object says.
  chat_in_room-keeps : (msg : List ℕ) → Returns (chat_in_room past_end i u msg s) c
  unfolding chat_in_room
  chat_in_room-keeps msg = elim (Option-cases (Rooms.get_room_by_idx s.rooms u.room_idx)) [
    | inl e ↦ (
      send_packet i (chat_response chat_room_invalid_room_number) s,
      rw e refl,
      told-Represents s c _ rep,
    )
    | inr (k, e) ↦
        let (r, er) = room_at s.rooms u.room_idx e in
        (
          record s {
            sent =
                (s.sent ++ ((i, chat_response no_error) ∷ []))
                ++ to_each (chat_packet past_end u msg) r.user_list;
          },
          rw
              (
                e,
                er,
                notify_chat_reaches_all past_end s.users r _ u.user_id msg v.pool
                    (v.rooms.each k r er).members,
              )
              refl,
          told-Represents s c _ rep,
        )
  ]

  room_chat_handler-keeps :
      (bytes msg : List ℕ)
      → read_room_chat_request bytes ≡ some msg
      → Returns (room_chat_handler past_end i bytes s) c
  unfolding room_chat_handler
  room_chat_handler-keeps bytes msg em = elim (Bool-cases (state_eq u.domain_state room_state)) [
    | inl e ↦ rw (em, ei, eu, e) (chat_in_room-keeps msg)
    | inr e ↦ (
      send_packet i (chat_response user_in_lobby) s,
      rw (em, ei, eu, e) refl,
      told-Represents s c _ rep,
    )
  ]

  answered-refines :
      (bytes : List ℕ) (r : ℕ)
      → read_login_res bytes ≡ some r
      → Away (c p)
      → Returns (login_db_res_handler i bytes s) (answer (some r) p c)
  answered-refines bytes zero er away = login_db_res_ok-refines i s c p u ei eu v rep bytes er away
  answered-refines bytes (suc n) er away =
      login_db_res_failed-keeps i s c p u ei eu v rep bytes (suc n) er (omega arith)

returned_of-Does :
    {i : ℕ} {s : State} {m : Option State} {response : ErrorCode → Packet} {r : ErrorCode × Chat}
    → Does i s m response r
    → Returns m r.1
returned_of-Does d = (d.state, d.returns, d.chat)

-- Each handler, in a sound state that holds a chat, for a user of the pool and what handlers rely on,
-- returns, and its state holds the chat behind the handler's `act`.
pub call_handler-refines :
    (past_end : List ℕ → List ℕ) (h : Handler) (pkt : PacketInfo) (s : State) (c : Chat) (p : ℕ)
    (u : User)
    → Users.get_user_by_index s.users (to_int32 pkt.session_index) ≡ some p
    → user_at s.users p ≡ some u
    → IsSound s
    → Represents s c
    → Orderly p pkt.bytes u s c h
    → (t : State) × (call_handler past_end h pkt s ≡ some t) × Represents t (act p pkt.bytes c h)
unfolding call_handler
call_handler-refines past_end connect pkt s c p u ei eu v rep ok =
    connect_handler-refines pkt.session_index s c p u ei eu v rep ok
call_handler-refines past_end disconnect pkt s c p u ei eu v rep ok =
    let (t, run, rep', _) =
      disconnect_handler-refines pkt.session_index s c p u ei eu v rep ok.0 ok.1 in
    (t, run, rep')
call_handler-refines past_end login pkt s c p u ei eu v rep (request, id, er, eid) =
    login_handler-keeps pkt.session_index s c p u ei eu v rep pkt.bytes request id er eid
call_handler-refines past_end login_db_res pkt s c p u ei eu v rep (r, er, away) =
    subst (λ o. Returns (login_db_res_handler pkt.session_index pkt.bytes s) (answer o p c))
      (sym er) (answered-refines past_end pkt.session_index s c p u ei eu v rep pkt.bytes r er away)
call_handler-refines past_end enter_room pkt s c p u ei eu v rep (n, en, here) =
    subst
      (λ o. Returns (enter_room_handler past_end pkt.session_index pkt.bytes s) (enter_at o p c))
      (sym en)
      (returned_of-Does (
        enter_room_handler-refines past_end pkt.session_index pkt.bytes s c p u ei eu v rep n en
          here))
call_handler-refines past_end leave_room pkt s c p u ei eu v rep (header, en, here, own) =
    returned_of-Does (
      leave_room_handler-refines past_end pkt.session_index pkt.bytes s c p u ei eu v rep header en
        own here)
call_handler-refines past_end room_chat pkt s c p u ei eu v rep (msg, em) =
    room_chat_handler-keeps past_end pkt.session_index s c p u ei eu v rep pkt.bytes msg em
