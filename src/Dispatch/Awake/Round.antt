-- ===== src/Dispatch/Awake/Round.antt =====
-- A round of `PacketProcessThread` (Content/packet_manager.cpp) keeps the users with work queued.
use iocp_chatting.Dispatch.Awake.{
  Awake, Calm-Awake, AwakeBut, Calm-AwakeBut, slot_index, index_of_slot, own_session,
  completed-Awake, popped-AwakeBut, idle-Awake, nobody-Awake, try_pop-some, unbound_idle,
  Ensures-after, packet_of,
}
use iocp_chatting.Config.{max_user_cnt}
use iocp_chatting.Packet.{PacketInfo}
use iocp_chatting.User.{User, get_packet_data}
use iocp_chatting.Users
use iocp_chatting.Users.{UserManager, user_at, init_pool}
use iocp_chatting.Room.Broadcast.{user_of_IsSlot}
use iocp_chatting.PacketManager.{State}
use iocp_chatting.PacketManager.Sound.{IsSound}
use iocp_chatting.PacketManager.Calm.{
  Calm, Calm-refl, connect-Calm, disconnect-Calm, login-Calm, login_db_res-Calm,
  leave_room_handler-Calm, enter_room_handler-Calm, room_chat-Calm,
}
use iocp_chatting.Redis.{try_pop}
use iocp_chatting.Dispatch.{
  Handler, connect, disconnect, login, login_db_res, enter_room, leave_room, room_chat,
  packet_handler, call_handler, complete, process_if, process_packet, user_packet_round,
  dequeue_packet, dequeue_system_packet, get_task_res, system_packet_round, redis_round,
  process_round,
}
use iocp_chatting.Dispatch.Reach.{call_handler-IsSound}
use iocp_chatting.Dispatch.Complete.{complete_lem}
use iocp_chatting.Prelude.{
  get_elem?-lt, ℕ, ◌<◌, ◌≡◌, inl, inr, subst, true, false, Option, none, some, List, ℤ, pos, ◌>>=◌,
  arith, Ensures, Ensures->>=, Ensures-if_null, Ensures-and, Option-cases,
}

dequeue_system_packet-Awake : (s : State) → Awake s → Awake (dequeue_system_packet s).1
unfolding dequeue_system_packet
dequeue_system_packet-Awake s a = elim (Option-cases (try_pop s.system_packet_queue)) [
  | inl e ↦ rw e a
  | inr (popped, e) ↦ rw e a
]

module _ (past_end : List ℕ → List ℕ) where
  call_handler-Calm :
      (h : Handler) (pkt : PacketInfo) (s : State)
      → Ensures (Calm s) (call_handler past_end h pkt s)
  unfolding call_handler
  call_handler-Calm connect pkt s = connect-Calm pkt.session_index s
  call_handler-Calm disconnect pkt s = disconnect-Calm pkt.session_index s
  call_handler-Calm login pkt s = login-Calm pkt.session_index pkt.bytes s
  call_handler-Calm login_db_res pkt s = login_db_res-Calm pkt.session_index pkt.bytes s
  call_handler-Calm enter_room pkt s =
      enter_room_handler-Calm past_end pkt.session_index pkt.bytes s
  call_handler-Calm leave_room pkt s = leave_room_handler-Calm pkt.session_index pkt.bytes s
  call_handler-Calm room_chat pkt s = room_chat-Calm past_end pkt.session_index pkt.bytes s

  -- A packet of the user of slot `p`, whose index was popped, is handled to the end.
  handled-Awake :
      (h : Handler) (pkt : PacketInfo) (s : State) (p : ℕ) (u : User)
      → IsSound s
      → user_at s.users p ≡ some u
      → get_packet_data u ≡ some pkt
      → AwakeBut (pos p) s
      → Ensures Awake (call_handler past_end h pkt s >>= complete pkt)
  handled-Awake h pkt s p u v eu e a =
      let own = own_session s p u pkt v eu e in
      let lt : p < max_user_cnt =
        omega (arith, get_elem?-lt s.users.user_obj_pool p eu, v.pool.full) in
      Ensures->>= (λ t. IsSound t × Calm s t) Awake (call_handler past_end h pkt s) (complete pkt)
        (Ensures-and IsSound (Calm s) (call_handler past_end h pkt s)
          (call_handler-IsSound past_end h pkt s v) (call_handler-Calm h pkt s))
        λ t (vt, ct).
          let (w, ew, sw) = user_of_IsSlot t.users p vt.pool lt in
          rw (complete_lem pkt t p w (rw own (slot_index t.users p vt.pool lt)) ew)
            (completed-Awake pkt p w t vt ew own (Calm-AwakeBut (pos p) s t ct a))

  process_packet-Awake :
      (pkt : PacketInfo) (s : State) (p : ℕ) (u : User)
      → IsSound s
      → user_at s.users p ≡ some u
      → get_packet_data u ≡ some pkt
      → AwakeBut (pos p) s
      → Ensures (λ r. Awake r.1) (process_packet past_end pkt true s)
  unfolding process_packet
  process_packet-Awake pkt s p u v eu e a = elim (Option-cases (packet_handler pkt.id)) [
    | inl unbound ↦ rw unbound (idle-Awake s p u eu (λ w. unbound_idle pkt u e unbound w) a)
    | inr (h, bound) ↦ rw bound (
        Ensures-after (call_handler past_end h pkt s) (complete pkt)
          (handled-Awake h pkt s p u v eu e a))
  ]

  -- The round for the popped index `i`, of a user or of none.
  popped-Awake :
      (s : State) (i : ℤ)
      → IsSound s
      → AwakeBut i s
      → Ensures Awake (packet_of s i >>= λ d. process_if past_end d.0 true d.1)
  unfolding process_if
  popped-Awake s i v a = elim (Option-cases (Users.get_user_by_index s.users i)) [
    | inl nobody ↦ rw nobody (nobody-Awake s i v nobody a)
    | inr (p, ep) ↦ rw ep (elim (Option-cases (user_at s.users p)) [
      | inl e ↦ rw e tt
      | inr (u, eu) ↦ rw eu (elim (Option-cases (get_packet_data u)) [
        | inl e ↦ rw e (idle-Awake s p u eu (λ w. absurd (ground (arith, e, w.packet))) (but ep))
        | inr (pkt, e) ↦ rw e (
            Ensures->>= (λ r. Awake r.1) Awake (process_packet past_end pkt true s) _
              (process_packet-Awake pkt s p u v eu e (but ep)) (λ r ar. ar))
      ])
    ])
  ]
    where
      but : {p : ℕ} → Users.get_user_by_index s.users i ≡ some p → AwakeBut (pos p) s
      but ep = subst (λ j. AwakeBut j s) (index_of_slot s.users i ep) a

  -- The round over a queued user.
  user_packet_round-Awake :
      (s : State) → IsSound s → Awake s → Ensures Awake (user_packet_round past_end s)
  unfolding user_packet_round dequeue_packet process_if
  user_packet_round-Awake s v a = elim (Option-cases (try_pop s.incoming_packet_user_index_queue)) [
    | inl empty ↦ rw empty a
    | inr ((i, rest), popped) ↦ rw popped (
        popped-Awake (record s { incoming_packet_user_index_queue = rest }) i
          (record { pool = v.pool; rooms = v.rooms })
          (popped-AwakeBut s i rest (try_pop-some s.incoming_packet_user_index_queue popped) a))
  ]

  -- A packet that no user's ring holds, of the system or of Redis.
  process_packet-Calm :
      (pkt : PacketInfo) (s : State)
      → Ensures (λ r. Calm s r.1) (process_packet past_end pkt false s)
  unfolding process_packet
  process_packet-Calm pkt s =
      Ensures-if_null (λ r. Calm s r.1) (packet_handler pkt.id) _ _ (Calm-refl s)
        λ h eh.
          Ensures->>= (Calm s) _ (call_handler past_end h pkt s) _ (call_handler-Calm h pkt s)
            λ t c. c

  process_if-Awake :
      (pkt : Option PacketInfo) (s : State)
      → Awake s
      → Ensures Awake (process_if past_end pkt false s)
  unfolding process_if
  process_if-Awake none s a = a
  process_if-Awake (some pkt) s a =
      Ensures->>= (λ r. Calm s r.1) Awake (process_packet past_end pkt false s) _
        (process_packet-Calm pkt s) λ r c. Calm-Awake s r.1 c a

  pub process_round-Awake :
      (s : State) → IsSound s → Awake s → Ensures Awake (process_round past_end s)
  unfolding process_round system_packet_round redis_round get_task_res
  process_round-Awake s v a =
      Ensures->>= Awake Awake (user_packet_round past_end s) _ (user_packet_round-Awake s v a)
        λ s₁ a₁.
          Ensures->>= Awake Awake (system_packet_round past_end s₁) _
            (process_if-Awake _ _ (dequeue_system_packet-Awake s₁ a₁))
            λ s₂ a₂. process_if-Awake _ _ a₂
