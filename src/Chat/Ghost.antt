-- ===== src/Chat/Ghost.antt =====
-- Packets of a user that are handled behind `DisconnectHandler` (Content/packet_manager.cpp).
use iocp_chatting.Config.{max_user_cnt, max_user_id_len, max_chat_msg_size}
use iocp_chatting.Bytes.{copy_c_str}
use iocp_chatting.Packet.{Packet, chat, no_error, read_room_chat_request}
use iocp_chatting.User.{User, room_state}
use iocp_chatting.Users
use iocp_chatting.Users.{user_at}
use iocp_chatting.Room.Broadcast.{to_each}
use iocp_chatting.Room.Leave.{count}
use iocp_chatting.Rooms.Bounds.{get_user_by_index-lt}
use iocp_chatting.PacketManager.{State, disconnect_handler, room_chat_handler, chat_response}
use iocp_chatting.PacketManager.Login.{get_user-resize}
use iocp_chatting.PacketManager.Sound.{IsSound, disconnect-IsSound}
use iocp_chatting.PacketManager.Talk.{room_chat_lem}
use iocp_chatting.Chat.{Place, outside, lobby, departed, inside, Chat, is_inside, tally}
use iocp_chatting.Chat.Represents.{Stands, Represents, put_self}
use iocp_chatting.Chat.Away.{OwnId}
use iocp_chatting.Chat.Sessions.{disconnect_handler-refines}
use iocp_chatting.Prelude.{
  ℕ, ◌<◌, ◌≡◌, ◌+◌, take, refl, ap, ◌∙◌, subst, true, some, List, [], ◌∷◌, ◌++◌, length, get_elem?,
  get_elem?_of_lt, pos, to_int32, arith, Ensures-some, if◌then◌else◌, ◌==◌, ◌⊎◌, inl, inr,
}

-- A user object that says that it is in room `k` stands there, or has departed.
only_place :
    (u : User) (k : ℕ) (pl : Place)
    → u.domain_state ≡ room_state
    → u.room_idx ≡ pos k
    → Stands u pl
    → (is_inside k pl ≡ true) ⊎ (pl ≡ departed)
only_place u k outside e ek st = cc
only_place u k lobby e ek st = cc
only_place u k departed e ek st = inr refl
only_place u k (inside j) e ek st = inl (ground (arith, st.1, ek))

-- A user in a room is disconnected, and no other member has its identifier. Then a chat request that
-- is still in its ring is handled as before: it is answered with success, and a packet with the user's
-- identifier and the message goes once to everyone that the chat has in the room but the author, and to
-- nobody else. Whatever chat the state holds has the author
-- departed.
pub disconnected_still_chats :
    (past_end : List ℕ → List ℕ) (i : ℕ) (p_data : List ℕ) (s : State) (c : Chat) (p : ℕ) (u : User)
    (msg : List ℕ) (k : ℕ)
    → Users.get_user_by_index s.users (to_int32 i) ≡ some p
    → user_at s.users p ≡ some u
    → IsSound s
    → Represents s c
    → read_room_chat_request p_data ≡ some msg
    → c p ≡ inside k
    → OwnId s c p u
    → let message : Packet = record {
      size = 295;
      id = 223;
      body =
          chat
            (copy_c_str past_end (max_user_id_len + 1) u.user_id)
            (take (max_chat_msg_size + 1) msg);
    } in
      (t : State) × (qs : List ℕ) × (disconnect_handler i s ≡ some t)
      × (room_chat_handler past_end i p_data t
          ≡ some (record t {
            sent = (t.sent ++ ((i, chat_response no_error) ∷ [])) ++ to_each message qs;
          }))
      × ((q : ℕ)
          → q < max_user_cnt
          → count q qs ≡ (if p == q then 0 else tally (is_inside k (c q))))
      × ((c' : Chat) → Represents t c' → c' p ≡ departed)
disconnected_still_chats past_end i p_data s c p u msg k ei eu v rep em e own =
    let st = subst (Stands u) e (rep.places p u eu) in
    let (t, run, rep', kept) =
      disconnect_handler-refines i s c p u ei eu v rep (λ d. cc) (λ _ _. own) in
    let v' = Ensures-some IsSound (disconnect_handler i s) (disconnect-IsSound i s v) run in
    let lt = get_user_by_index-lt s.users (to_int32 i) v.pool ei in
    let eu' : user_at t.users p ≡ some u = ap (λ l. get_elem? l p) kept ∙ eu in
    let (r, er) = get_elem?_of_lt t.rooms k (omega (arith, v'.rooms.number, st.2)) in
    (
      t,
      r.user_list,
      run,
      room_chat_lem past_end i p_data t p u
          (get_user-resize s.users t.users (to_int32 i) (ap length kept) ei) eu' v' msg k r em st.0
          st.1 er,
      λ q lq. rep'.lists k r er q lq ∙ ground arith,
      λ c' w. elim (only_place u k (c' p) st.0 st.1 (w.places p u eu')) [
        | inl here ↦
            let absent = rep'.lists k r er p lt in
            let listed = w.lists k r er p lt in
            absurd (ground (arith, here, listed, absent, put_self p departed c))
        | inr gone ↦ gone
      ],
    )
