-- ===== src/ChatServer/Delivery.antt =====
-- From a chat request to the send rings: the packet thread's handler (Content/packet_manager.cpp)
-- joined to `Network::SendPacket` as `SetDelegate` (Content/chat_server.cpp) joins them.
use iocp_chatting.Config.{max_user_cnt}
use iocp_chatting.Packet.{Packet, Sent, no_error, read_room_chat_request}
use iocp_chatting.Packet.Wire.{to_bytes}
use iocp_chatting.Ring.{get_free_size}
use iocp_chatting.Ring.Inv.{IsValid}
use iocp_chatting.Ring.Contents.{contents}
use iocp_chatting.User.{User}
use iocp_chatting.Users
use iocp_chatting.Users.{user_at}
use iocp_chatting.Room.Broadcast.{InPool, to_each}
use iocp_chatting.Room.Leave.{count}
use iocp_chatting.PacketManager.{State, chat_response, room_chat_handler}
use iocp_chatting.PacketManager.Sound.{IsSound}
use iocp_chatting.PacketManager.Talk.{room_chat_lem, chat_packet}
use iocp_chatting.Chat.{Chat, inside, is_inside, tally}
use iocp_chatting.Chat.Represents.{Represents, Stands}
use iocp_chatting.Session.{Session}
use iocp_chatting.Network.{Network, get_session_by_idx}
use iocp_chatting.Network.Total.{Full}
use iocp_chatting.ChatServer.Send.{send_all, send_all-appends, bytes_for}
use iocp_chatting.Users.Pool.{IsPool}
use iocp_chatting.Prelude.{
  append_assoc, ℤ, pos, negsuc, ℕ, zero, suc, ◌+◌, ◌<◌, ◌≡◌, refl, ap, ◌∙◌, subst, Bool, true,
  false, some, List, [], ◌∷◌, ◌++◌, append-nil, ◌==◌, take, get_elem?, get_elem?_of_lt,
  if◌then◌else◌, Bool-cases, inl, inr, to_int32, arith,
}

-- The same bytes some number of times.
copies : ℕ → List ℕ → List ℕ
copies zero xs = []
copies (suc n) xs = xs ++ copies n xs

session_of_slot : (p : ℕ) → p < max_user_cnt → get_session_by_idx (to_int32 p) ≡ some p
unfolding get_session_by_idx
session_of_slot p lt = ground (arith, lt)

copies-tally : (b : Bool) (xs : List ℕ) → copies (tally b) xs ≡ (if b then xs else [])
unfolding copies
copies-tally true xs = append-nil xs
copies-tally false xs = refl

bytes_for-cons :
    (type : ℕ) (stale : List ℕ) (q i : ℕ) (pkt : Packet) (xs : List Sent) {p : ℕ}
    → get_session_by_idx (to_int32 i) ≡ some p
    → bytes_for type stale q ((i, pkt) ∷ xs)
      ≡ (if p == q then to_bytes type stale pkt else []) ++ bytes_for type stale q xs
unfolding bytes_for
bytes_for-cons type stale q i pkt xs {p} e = elim (Bool-cases (p == q)) [
  | inl mine ↦ rw (e, mine) refl
  | inr other ↦ rw (e, other) refl
]

module _ (type : ℕ) (stale : List ℕ) (pkt : Packet) (q : ℕ) where
  -- A packet to each of a list goes to a session as often as its slot stands in the list.
  bytes_for-to_each :
      (ps : List ℕ)
      → InPool ps
      → bytes_for type stale q (to_each pkt ps) ≡ copies (count q ps) (to_bytes type stale pkt)
  unfolding bytes_for copies
  bytes_for-to_each [] h = refl
  bytes_for-to_each (p ∷ ps) h = elim (Bool-cases (p == q)) [
    | inl mine ↦
        let more : suc (count q ps) ≡ 1 + count q ps = omega arith in
        rw (session_of_slot p h.0, mine)
          (ap (λ xs. to_bytes type stale pkt ++ xs) (bytes_for-to_each ps h.1)
            ∙ ap (λ k. copies k (to_bytes type stale pkt)) more)
    | inr other ↦
        rw (session_of_slot p h.0, other)
          (bytes_for-to_each ps h.1 ∙ ap (λ k. copies k (to_bytes type stale pkt)) (omega arith))
  ]

session_of_user :
    (m : Users.UserManager) (j : ℤ) {p : ℕ}
    → IsPool m
    → Users.get_user_by_index m j ≡ some p
    → get_session_by_idx j ≡ some p
unfolding Users.get_user_by_index get_session_by_idx
session_of_user m (pos j) v e = ground (arith, v.full)
session_of_user m (negsuc j) v e = cc

-- A chat request of full length from a user in room `k`, in a sound state that holds a chat, gives
-- packets whose sending does not fault on any network with a full pool: the answer to the author, and
-- then the messages. Behind what it held, the send ring of a session then holds, as far as it has space
-- for them: the answer, if it is the author's session, and then the message, once, if the chat has the
-- user of the session in room `k`. So the author gets its own message, and behind the answer.
pub chat_delivered :
    (past_end : List ℕ → List ℕ) (i : ℕ) (p_data : List ℕ) (st : State) (c : Chat) (p : ℕ)
    (u : User) (msg : List ℕ) (k : ℕ) (type : ℕ) (stale : List ℕ) (n : Network) (q : ℕ)
    (s : Session)
    → Users.get_user_by_index st.users (to_int32 i) ≡ some p
    → user_at st.users p ≡ some u
    → IsSound st
    → Represents st c
    → read_room_chat_request p_data ≡ some msg
    → c p ≡ inside k
    → Full n
    → q < max_user_cnt
    → get_elem? n.session_list q ≡ some s
    → IsValid s.send_buf
    → let answer = to_bytes type stale (chat_response no_error) in
      let message = to_bytes type stale (chat_packet past_end u msg) in
      (out : List Sent) × (n' : Network) × (s' : Session) × (room_chat_handler past_end i p_data st
        ≡ some (record st { sent = st.sent ++ out }))
      × (send_all type stale out n ≡ some n')
      × (get_elem? n'.session_list q ≡ some s')
      × (contents s'.send_buf
          ≡ contents s.send_buf
            ++ take
                (get_free_size s.send_buf)
                ((if p == q then answer else []) ++ (if is_inside k (c q) then message else [])))
chat_delivered past_end i p_data st c p u msg k type stale n q s ei eu v rep em e full lt es valid =
    let place = subst (Stands u) e (rep.places p u eu) in
    let (r, er) = get_elem?_of_lt st.rooms k (omega (arith, v.rooms.number, place.2)) in
    let pkt = chat_packet past_end u msg in
    let told = to_each pkt r.user_list in
    let out = (i, chat_response no_error) ∷ told in
    let notices : bytes_for type stale q told
        ≡ (if is_inside k (c q) then to_bytes type stale pkt else []) =
      bytes_for-to_each type stale pkt q r.user_list (v.rooms.each k r er).members
      ∙ ap (λ m. copies m (to_bytes type stale pkt)) (rep.lists k r er q lt)
      ∙ copies-tally (is_inside k (c q)) (to_bytes type stale pkt) in
    let bytes =
      bytes_for-cons type stale q i (chat_response no_error) told
        (session_of_user st.users (to_int32 i) v.pool ei)
      ∙ ap (λ xs. (if p == q then to_bytes type stale (chat_response no_error) else []) ++ xs)
          notices in
    let (n', s', run, es', held) = send_all-appends type stale out q s n full es valid in
    (
      out,
      n',
      s',
      room_chat_lem past_end i p_data st p u ei eu v msg k r em place.0 place.1 er
          ∙ ap (λ xs. some (record st { sent = xs }))
              (append_assoc st.sent ((i, chat_response no_error) ∷ []) told),
      run,
      es',
      held ∙ ap (λ xs. contents s.send_buf ++ take (get_free_size s.send_buf) xs) bytes,
    )
