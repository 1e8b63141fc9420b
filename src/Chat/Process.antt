-- ===== src/Chat/Process.antt =====
-- `ProcessPacket` and the arrival of bytes (Content/packet_manager.cpp) against the abstract chat.
use iocp_chatting.Packet.{PacketInfo}
use iocp_chatting.User
use iocp_chatting.User.{User}
use iocp_chatting.Users
use iocp_chatting.Users.{UserManager, user_at}
use iocp_chatting.Users.Pool.{IsPool}
use iocp_chatting.PacketManager.{State}
use iocp_chatting.PacketManager.Login.{get_user-resize}
use iocp_chatting.PacketManager.Sound.{IsSound}
use iocp_chatting.Rooms.Bounds.{get_user_by_index-lt}
use iocp_chatting.Dispatch.{
  Handler, call_handler, packet_handler, process_packet, complete, enqueue_packet,
}
use iocp_chatting.Dispatch.Complete.{taken, completed, complete_lem, taken-domain_state}
use iocp_chatting.Dispatch.Reach.{call_handler-IsSound}
use iocp_chatting.Chat.{Place, outside, lobby, departed, inside, Chat}
use iocp_chatting.Chat.Represents.{Stands, Represents, placed-Represents}
use iocp_chatting.Chat.Sessions.{put_same}
use iocp_chatting.Chat.Server.{act, Orderly, call_handler-refines}
use iocp_chatting.Prelude.{
  ℕ, ◌≡◌, refl, sym, ap, ◌∙◌, subst, Bool, true, false, none, some, List, get_elem?,
  get_elem?_of_lt, get_elem?-lt, get_elem?-set_self, get_elem?-set_ne, set, Bool-cases, inl, inr, ℤ,
  to_int32, arith, Ensures, Ensures-some, Ensures-if_null, Ensures->>=, Ensures-of_eq,
}

Stands-of_eq :
    (u w : User) (pl : Place)
    → w.domain_state ≡ u.domain_state
    → w.room_idx ≡ u.room_idx
    → Stands u pl
    → Stands w pl
Stands-of_eq u w outside e f st = e ∙ st
Stands-of_eq u w lobby e f st = e ∙ st
Stands-of_eq u w departed e f st = tt
Stands-of_eq u w (inside k) e f st = (e ∙ st.0, f ∙ st.1, st.2)

-- A user's ring changes, and nothing else of the users.
ring-Represents :
    (s : State) (c : Chat) (p : ℕ) (u w : User)
    → user_at s.users p ≡ some u
    → Represents s c
    → w.domain_state ≡ u.domain_state
    → w.room_idx ≡ u.room_idx
    → Represents
        (record s { users = record (s.users) { user_obj_pool = set s.users.user_obj_pool p w } })
        c
ring-Represents s c p u w eu rep e f = subst (Represents _) (put_same p c) (
    placed-Represents s c p (c p) w _ rep
      (get_elem?-set_self s.users.user_obj_pool p w (get_elem?-lt s.users.user_obj_pool p eu))
      (Stands-of_eq u w (c p) e f (rep.places p u eu))
      (λ q other. get_elem?-set_ne s.users.user_obj_pool w other) (λ j. refl))

-- The queues and the Redis thread do not show.
pub queued-Represents :
    (s t : State) (c : Chat)
    → t.users ≡ s.users
    → t.rooms ≡ s.rooms
    → Represents s c
    → Represents t c
queued-Represents s t c e f rep = record {
  places = λ q u eu. rep.places q u (ap (λ m. user_at m q) (sym e) ∙ eu);
  numbers = λ k r er. rep.numbers k r (ap (λ l. get_elem? l k) (sym f) ∙ er);
  lists = λ k r er. rep.lists k r (ap (λ l. get_elem? l k) (sym f) ∙ er);
}

taken-room_idx : (pkt : PacketInfo) (u : User) → (taken pkt u).room_idx ≡ u.room_idx
unfolding User.complete_process
taken-room_idx pkt u = ground arith

completed-Represents :
    (pkt : PacketInfo) (s : State) (c : Chat) (p : ℕ) (u : User)
    → user_at s.users p ≡ some u
    → Represents s c
    → Represents (completed pkt p u s) c
completed-Represents pkt s c p u eu rep =
    let kept =
      ring-Represents s c p u (taken pkt u) eu rep (taken-domain_state pkt u)
        (taken-room_idx pkt u) in
    elim (Bool-cases (User.complete_process pkt.size u).0) [
      | inl e ↦ rw e kept
      | inr e ↦ rw e (record { places = kept.places; numbers = kept.numbers; lists = kept.lists })
    ]

-- A slot of one full pool is one of another.
get_user-IsPool :
    (m m' : UserManager) (k : ℤ) {p : ℕ}
    → IsPool m
    → IsPool m'
    → Users.get_user_by_index m k ≡ some p
    → Users.get_user_by_index m' k ≡ some p
get_user-IsPool m m' k v v' e = get_user-resize m m' k (v'.full ∙ sym v.full) e

-- `CompleteProcess` behind a handler.
complete-Represents :
    (pkt : PacketInfo) (s : State) (c : Chat) (p : ℕ)
    → Users.get_user_by_index s.users (to_int32 pkt.session_index) ≡ some p
    → IsSound s
    → Represents s c
    → (t : State) × (complete pkt s ≡ some t) × Represents t c
complete-Represents pkt s c p ei v rep =
    let lt = get_user_by_index-lt s.users (to_int32 pkt.session_index) v.pool ei in
    let (u, eu) = get_elem?_of_lt s.users.user_obj_pool p (omega (arith, lt, v.pool.full)) in
    (completed pkt p u s, complete_lem pkt s p u ei eu, completed-Represents pkt s c p u eu rep)

-- A packet with a handler, from a client or not, in a sound state that holds a chat, for a user of the
-- pool and what the handlers rely on: `ProcessPacket` returns true, and the state behind it, the
-- packet taken off the ring if it is a client's, holds the chat behind the handler's `act`.
pub process_packet-refines :
    (past_end : List ℕ → List ℕ) (h : Handler) (pkt : PacketInfo) (user_pkt : Bool) (s : State)
    (c : Chat) (p : ℕ) (u : User)
    → packet_handler pkt.id ≡ some h
    → Users.get_user_by_index s.users (to_int32 pkt.session_index) ≡ some p
    → user_at s.users p ≡ some u
    → IsSound s
    → Represents s c
    → Orderly p pkt.bytes u s c h
    → (t : State) × (process_packet past_end pkt user_pkt s ≡ some (true, t))
      × Represents t (act p pkt.bytes c h)
unfolding process_packet
process_packet-refines past_end h pkt false s c p u eh ei eu v rep ok =
    let (t, run, rep') = call_handler-refines past_end h pkt s c p u ei eu v rep ok in
    (t, rw (eh, run) refl, rep')
process_packet-refines past_end h pkt true s c p u eh ei eu v rep ok =
    let (t, run, rep') = call_handler-refines past_end h pkt s c p u ei eu v rep ok in
    let v' =
      Ensures-some IsSound (call_handler past_end h pkt s) (call_handler-IsSound past_end h pkt s v)
        run in
    let (t', run', rep'') =
      complete-Represents pkt t (act p pkt.bytes c h) p
        (get_user-IsPool s.users t.users (to_int32 pkt.session_index) v.pool v'.pool ei) v' rep' in
    (t', rw (eh, run, run') refl, rep'')

pub process_packet-unknown :
    (past_end : List ℕ → List ℕ) (pkt : PacketInfo) (user_pkt : Bool) (s : State)
    → packet_handler pkt.id ≡ none
    → process_packet past_end pkt user_pkt s ≡ some (false, s)
unfolding process_packet
process_packet-unknown past_end pkt user_pkt s eh = rw eh refl

-- Bytes that arrive move nobody.
pub enqueue_packet-Represents :
    (i : ℤ) (bytes : List ℕ) (s : State) (c : Chat)
    → Represents s c
    → Ensures (λ r. Represents r.1 c) (enqueue_packet i bytes s)
unfolding enqueue_packet Users.update_user User.enqueue_packet_data
enqueue_packet-Represents i bytes s c rep =
    Ensures-if_null _ (Users.get_user_by_index s.users i) _ _ rep λ p ep.
      Ensures->>= (λ m. Represents (record s { users = m }) c) _ _ _
        (Ensures-of_eq _ (user_at s.users p) _ λ u eu. ring-Represents s c p u _ eu rep refl refl)
        λ m kept. record { places = kept.places; numbers = kept.numbers; lists = kept.lists }
