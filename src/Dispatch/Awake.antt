-- ===== src/Dispatch/Awake.antt =====
-- No packet is forgotten: a user at the front of whose ring a packet stands that a handler is bound
-- to is in the queue of the packet thread.
pub mod Round
pub mod Runs
use native.Mathlib.Decide.{ℕ_discrete}
use iocp_chatting.Config.{max_user_cnt, default_ringbuffer_size}
use iocp_chatting.Bytes.{to_u32}
use iocp_chatting.Packet.{PacketInfo, packet_header_length}
use iocp_chatting.Ring
use iocp_chatting.Ring.Dequeue.{peek-clear_buffer}
use iocp_chatting.User
use iocp_chatting.User.{User, get_packet_data}
use iocp_chatting.User.Framing.{complete_process_empty, session_index-get_packet_data}
use iocp_chatting.Users
use iocp_chatting.Users.{UserManager, user_at, init_pool}
use iocp_chatting.Users.Pool.{IsPool}
use iocp_chatting.Room.Broadcast.{to_u32-slot, user_of_IsSlot}
use iocp_chatting.Rooms.Bounds.{get_user_by_index-lt}
use iocp_chatting.PacketManager
use iocp_chatting.PacketManager.{State, init}
use iocp_chatting.PacketManager.Sound.{IsSound}
use iocp_chatting.PacketManager.Calm.{
  Calm, Calm-refl, connect-Calm, disconnect-Calm, login-Calm, login_db_res-Calm,
  leave_room_handler-Calm, enter_room_handler-Calm, room_chat-Calm,
}
use iocp_chatting.Redis.{try_pop}
use iocp_chatting.Dispatch.{
  Handler, connect, disconnect, login, login_db_res, enter_room, leave_room, room_chat,
  packet_handler, call_handler, complete, process_if, process_packet, user_packet_round,
  dequeue_packet, dequeue_system_packet, get_task_res, system_packet_round, redis_round,
  process_round, enqueue_packet, enqueue_system_packet,
}
use iocp_chatting.Dispatch.Reach.{call_handler-IsSound}
use iocp_chatting.Dispatch.Complete.{taken, completed, complete_lem, completed-users}
use mathlib.Core.Option.{some-injective}
use iocp_chatting.Prelude.{
  get_elem?-lt, ℕ, zero, suc, ◌+◌, ◌<◌, ◌≡◌, ◌≢◌, ◌⊎◌, inl, inr, refl, sym, ap, ◌∙◌, subst, Bool,
  true, false, Option, none, some, List, [], ◌∷◌, ◌++◌, ltb, length, get_elem?, set,
  get_elem?-set_self, get_elem?-set_ne, if◌then◌else◌, Bool-cases, ℤ, pos, negsuc, to_int32, ◌>>=◌,
  arith, Ensures, Ensures->>=, Ensures-of_eq, Ensures-if, if_null, Ensures-if_null, Ensures-some,
  Ensures-mono, Ensures-and, Option-cases,
}

-- An index stands in a queue.
abbrev pub In : ℤ → List ℤ → Type 0
In i [] = ⊥
In i (j ∷ js) = (j ≡ i) ⊎ In i js

pub In-append : (i : ℤ) (js ks : List ℤ) → In i js → In i (js ++ ks)
In-append i [] ks h = elim h [ ]
In-append i (j ∷ js) ks (inl e) = inl e
In-append i (j ∷ js) ks (inr h) = inr (In-append i js ks h)

pub In-last : (i : ℤ) (js : List ℤ) → In i (js ++ (i ∷ []))
In-last i [] = inl refl
In-last i (j ∷ js) = inr (In-last i js)

-- User `u` has a packet with a handler.
pub record HasWork (u : User) : Type 0 where
  pub pkt : PacketInfo
  pub handler : Handler
  pub packet : get_packet_data u ≡ some pkt
  pub bound : packet_handler pkt.id ≡ some handler

-- Each user with work, but for slot `j`, is queued.
abbrev pub AwakeBut : ℤ → State → Type 0
AwakeBut j s =
    (q : ℕ) (w : User)
    → user_at s.users q ≡ some w
    → HasWork w
    → (j ≡ pos q) ⊎ In (pos q) s.incoming_packet_user_index_queue

abbrev pub Awake : State → Type 0
Awake s =
    (q : ℕ) (w : User)
    → user_at s.users q ≡ some w
    → HasWork w
    → In (pos q) s.incoming_packet_user_index_queue

-- What is calm adds no work.
HasWork-Calm :
    (s t : State) (q : ℕ) (w : User)
    → Calm s t
    → user_at t.users q ≡ some w
    → HasWork w
    → (u : User) × (user_at s.users q ≡ some u) × HasWork u
HasWork-Calm s t q w c e h =
    let (u, eu, quiet) = c.users q w e in
    (
      u,
      eu,
      elim quiet [
        | inl nothing ↦ absurd (ground (arith, h.packet))
        | inr same ↦ record {
          pkt = h.pkt;
          handler = h.handler;
          packet = sym same ∙ h.packet;
          bound = h.bound;
        }
      ],
    )

pub Calm-Awake : (s t : State) → Calm s t → Awake s → Awake t
Calm-Awake s t c a q w e h =
    let (u, eu, work) = HasWork-Calm s t q w c e h in rw c.queue (a q u eu work)

pub Calm-AwakeBut : (j : ℤ) (s t : State) → Calm s t → AwakeBut j s → AwakeBut j t
Calm-AwakeBut j s t c a q w e h =
    let (u, eu, work) = HasWork-Calm s t q w c e h in rw c.queue (a q u eu work)

-- The pool's own view of a slot.
pub slot_index :
    (m : UserManager) (p : ℕ)
    → IsPool m
    → p < max_user_cnt
    → Users.get_user_by_index m (pos p) ≡ some p
unfolding Users.get_user_by_index
slot_index m p v h = ground (arith, v.full)

pub index_of_slot :
    (m : UserManager) (i : ℤ) {p : ℕ} → Users.get_user_by_index m i ≡ some p → i ≡ pos p
unfolding Users.get_user_by_index
index_of_slot m (pos i) e = ground arith
index_of_slot m (negsuc i) e = cc

pub own_session :
    (s : State) (p : ℕ) (u : User) (pkt : PacketInfo)
    → IsSound s
    → user_at s.users p ≡ some u
    → get_packet_data u ≡ some pkt
    → to_int32 pkt.session_index ≡ pos p
own_session s p u pkt v eu e =
    let lt : p < max_user_cnt =
      omega (arith, get_elem?-lt s.users.user_obj_pool p eu, v.pool.full) in
    ap to_int32 (
      session_index-get_packet_data u e
      ∙ ap to_u32 (v.pool.slots p u eu).own_index
      ∙ to_u32-slot p lt)
    ∙ ground (arith, lt)

-- A round's end only adds to the queue.
In-completed :
    (pkt : PacketInfo) (p : ℕ) (u : User) (s : State) (i : ℤ)
    → In i s.incoming_packet_user_index_queue
    → In i (completed pkt p u s).incoming_packet_user_index_queue
In-completed pkt p u s i h = elim (Bool-cases (User.complete_process pkt.size u).0) [
  | inl done ↦ rw done h
  | inr more ↦ rw more (In-append i s.incoming_packet_user_index_queue _ h)
]

module _ (pkt : PacketInfo) (p : ℕ) (u : User) (s : State) (v : IsSound s)
    (eu : user_at s.users p ≡ some u) (own : to_int32 pkt.session_index ≡ pos p) where
  -- The pool behind the round, slot by slot.
  written :
      (q : ℕ) (w : User)
      → user_at (completed pkt p u s).users q ≡ some w
      → get_elem? (set s.users.user_obj_pool p (taken pkt u)) q ≡ some w
  written q w e = sym (ap (λ m. user_at m q) (completed-users pkt p u s)) ∙ e

  own-Awake :
      (w : User)
      → user_at (completed pkt p u s).users p ≡ some w
      → HasWork w
      → In (pos p) (completed pkt p u s).incoming_packet_user_index_queue
  own-Awake w e h = elim (Bool-cases (User.complete_process pkt.size u).0) [
    | inl done ↦
        let same : taken pkt u ≡ w = some-injective (taken pkt u) w (
          sym (
            get_elem?-set_self s.users.user_obj_pool p (taken pkt u)
              (get_elem?-lt s.users.user_obj_pool p eu))
          ∙ written p w e) in
        let none_left = complete_process_empty pkt.size u (v.pool.slots p u eu).ring done in
        absurd (ground (arith, h.packet, none_left, ap get_packet_data same))
    | inr more ↦ rw (more, own) (In-last (pos p) s.incoming_packet_user_index_queue)
  ]

  -- The end of a round for the user of slot `p`: if bytes are left, its index is queued again.
  pub completed-Awake : AwakeBut (pos p) s → Awake (completed pkt p u s)
  completed-Awake a q w e h = elim (ℕ_discrete p q) [
    | yes same ↦
        subst (λ k. In (pos k) (completed pkt p u s).incoming_packet_user_index_queue) same
          (own-Awake w (subst (λ k. user_at (completed pkt p u s).users k ≡ some w) (sym same) e) h)
    | no other ↦
        In-completed pkt p u s (pos q)
          (elim (a q w
            (sym (get_elem?-set_ne s.users.user_obj_pool (taken pkt u) other) ∙ written q w e) h) [
              | inl clash ↦ absurd (other cc)
              | inr h' ↦ h'
            ])
  ]

-- What a popped index leaves behind.
pub popped-AwakeBut :
    (s : State) (i : ℤ) (rest : List ℤ)
    → s.incoming_packet_user_index_queue ≡ i ∷ rest
    → Awake s
    → AwakeBut i (record s { incoming_packet_user_index_queue = rest })
popped-AwakeBut s i rest eq a q w e h = subst (In (pos q)) eq (a q w e h)

same_slot : (p q : ℕ) → pos p ≡ pos q → q ≡ p
same_slot p q e = ground arith

-- If the user of the popped index has no work, nobody is forgotten.
pub idle-Awake :
    (s : State) (p : ℕ) (u : User)
    → user_at s.users p ≡ some u
    → ¬ HasWork u
    → AwakeBut (pos p) s
    → Awake s
idle-Awake s p u eu idle a q w e h = elim (a q w e h) [
  | inl same ↦ absurd (
      idle (
        subst HasWork (some-injective w u (sym e ∙ ap (user_at s.users) (same_slot p q same) ∙ eu))
          h))
  | inr h' ↦ h'
]

-- An index without a user forgets nobody.
pub nobody-Awake :
    (s : State) (i : ℤ)
    → IsSound s
    → Users.get_user_by_index s.users i ≡ none
    → AwakeBut i s
    → Awake s
nobody-Awake s i v nobody a q w e h = elim (a q w e h) [
  | inl same ↦
      let lt : q < max_user_cnt =
        omega (arith, get_elem?-lt s.users.user_obj_pool q e, v.pool.full) in
      absurd (ground (arith, slot_index s.users q v.pool lt, same, nobody))
  | inr h' ↦ h'
]

-- What `DequePacket` does with the index that it popped.
abbrev pub packet_of : State → ℤ → Option (Option PacketInfo × State)
packet_of s i =
    if_null (Users.get_user_by_index s.users i) (some (none, s))
      λ p. do u ← user_at s.users p; some (get_packet_data u, s)

pub try_pop-some :
    (js : List ℤ) {i : ℤ} {rest : List ℤ} → try_pop js ≡ some (i, rest) → js ≡ i ∷ rest
try_pop-some [] e = cc
try_pop-some (j ∷ js) e = cc

pub unbound_idle :
    (pkt : PacketInfo) (u : User)
    → get_packet_data u ≡ some pkt
    → packet_handler pkt.id ≡ none
    → ¬ HasWork u
unbound_idle pkt u e unbound w =
    let same : pkt ≡ w.pkt = some-injective pkt w.pkt (sym e ∙ w.packet) in
    absurd (ground (arith, ap (λ k. packet_handler k.id) same, w.bound, unbound))

-- A result that is only wrapped.
Ensures-wrapped :
    (m : Option State)
    → Ensures Awake m
    → Ensures (λ (r : Bool × State). Awake r.1) (m >>= λ t. some (true, t))
Ensures-wrapped none h = tt
Ensures-wrapped (some t) h = h

pub Ensures-after :
    (m : Option State) (f : State → Option State)
    → Ensures Awake (m >>= f)
    → Ensures (λ (r : Bool × State). Awake r.1) (m >>= λ s. f s >>= λ t. some (true, t))
Ensures-after none f h = tt
Ensures-after (some s) f h = Ensures-wrapped (f s) h
