-- ===== src/Dispatch/Reach.antt =====
-- The runs of the chat logic: the packet thread's rounds, interleaved in any order with what the worker
-- threads and the Redis thread put into its queues. Each is one step: the queues are concurrent.
use iocp_chatting.Config.{max_user_cnt, default_ringbuffer_size}
use iocp_chatting.Packet.{PacketInfo}
use iocp_chatting.Users
use iocp_chatting.Users.{user_at}
use iocp_chatting.Users.Pool.{IsPool, update_user-IsPool, enqueue-Keeps, complete_process-IsPool}
use iocp_chatting.Redis
use iocp_chatting.Redis.{try_pop}
use iocp_chatting.PacketManager.{State, init}
use iocp_chatting.PacketManager.Sound.{
  IsSound, init-IsSound, connect-IsSound, disconnect-IsSound, login-IsSound, login_db_res-IsSound,
  enter_room-IsSound, leave_room-IsSound, room_chat-IsSound,
}
use iocp_chatting.Dispatch.{
  Handler, connect, disconnect, login, login_db_res, enter_room, leave_room, room_chat,
  packet_handler, enqueue_packet, enqueue_system_packet, dequeue_packet, dequeue_system_packet,
  complete, get_task_res, call_handler, process_packet, process_if, user_packet_round,
  system_packet_round, redis_round, process_round,
}
use iocp_chatting.Prelude.{
  Bool-cases, Option-cases, inl, inr, ℕ, ◌≡◌, Bool, true, false, Option, none, some, List,
  get_elem?, length, to_int32, ℤ, Ensures, Ensures->>=, Ensures-of_eq, Ensures-if, Ensures-if_null,
  Ensures-some,
}

pub enqueue_packet-IsSound :
    (i : ℤ) (bytes : List ℕ) (s : State)
    → IsSound s
    → Ensures (λ r. IsSound r.1) (enqueue_packet i bytes s)
unfolding enqueue_packet
enqueue_packet-IsSound i bytes s v =
    Ensures-if_null _ (Users.get_user_by_index s.users i) _ _ v λ p ep.
      Ensures->>= IsPool _ (Users.update_user p _ s.users) _
        (update_user-IsPool p s.users (enqueue-Keeps bytes) v.pool)
        λ m vm. record { pool = vm; rooms = v.rooms }

dequeue_packet-IsSound : (s : State) → IsSound s → Ensures (λ r. IsSound r.1) (dequeue_packet s)
unfolding dequeue_packet
dequeue_packet-IsSound s v =
    Ensures-if_null _ (try_pop s.incoming_packet_user_index_queue) _ _ v λ popped eq.
      Ensures-if_null _ (Users.get_user_by_index s.users popped.0) _ _
        (record { pool = v.pool; rooms = v.rooms })
        λ p ep.
          Ensures-of_eq _ (user_at s.users p) _ λ u eu. record { pool = v.pool; rooms = v.rooms }

dequeue_system_packet-IsSound : (s : State) → IsSound s → IsSound (dequeue_system_packet s).1
unfolding dequeue_system_packet
dequeue_system_packet-IsSound s v = elim (Option-cases (try_pop s.system_packet_queue)) [
  | inl e ↦ rw e v
  | inr (popped, e) ↦ rw e (record { pool = v.pool; rooms = v.rooms })
]

get_task_res-IsSound : (s : State) → IsSound s → IsSound (get_task_res s).1
unfolding get_task_res
get_task_res-IsSound s v = record { pool = v.pool; rooms = v.rooms }

complete-IsSound : (pkt : PacketInfo) (s : State) → IsSound s → Ensures IsSound (complete pkt s)
unfolding complete
complete-IsSound pkt s v =
    Ensures->>= _ IsSound (Users.complete_process (to_int32 pkt.session_index) pkt.size s.users) _
      (complete_process-IsPool (to_int32 pkt.session_index) pkt.size s.users v.pool)
      λ r vr. elim (Bool-cases r.0) [
        | inl e ↦ rw e (record { pool = vr; rooms = v.rooms })
        | inr e ↦ rw e (record { pool = vr; rooms = v.rooms })
      ]

module _ (past_end : List ℕ → List ℕ) where
  pub call_handler-IsSound :
      (h : Handler) (pkt : PacketInfo) (s : State)
      → IsSound s
      → Ensures IsSound (call_handler past_end h pkt s)
  unfolding call_handler
  call_handler-IsSound connect pkt s v = connect-IsSound pkt.session_index s v
  call_handler-IsSound disconnect pkt s v = disconnect-IsSound pkt.session_index s v
  call_handler-IsSound login pkt s v = login-IsSound pkt.session_index pkt.bytes s v
  call_handler-IsSound login_db_res pkt s v = login_db_res-IsSound pkt.session_index pkt.bytes s v
  call_handler-IsSound enter_room pkt s v =
      enter_room-IsSound past_end pkt.session_index pkt.bytes s v
  call_handler-IsSound leave_room pkt s v = leave_room-IsSound pkt.session_index pkt.bytes s v
  call_handler-IsSound room_chat pkt s v =
      room_chat-IsSound past_end pkt.session_index pkt.bytes s v

  pub process_packet-IsSound :
      (pkt : PacketInfo) (user_pkt : Bool) (s : State)
      → IsSound s
      → Ensures (λ r. IsSound r.1) (process_packet past_end pkt user_pkt s)
  unfolding process_packet
  process_packet-IsSound pkt user_pkt s v = Ensures-if_null _ (packet_handler pkt.id) _ _ v λ h eh.
      Ensures->>= IsSound _ (call_handler past_end h pkt s) _ (call_handler-IsSound h pkt s v)
        λ s' v'.
          Ensures->>= IsSound _ _ _
            (Ensures-if IsSound user_pkt (complete pkt s') _ (λ _. complete-IsSound pkt s' v')
              (λ _. v'))
            λ s'' v''. v''

  process_if-IsSound :
      (pkt : Option PacketInfo) (user_pkt : Bool) (s : State)
      → IsSound s
      → Ensures IsSound (process_if past_end pkt user_pkt s)
  unfolding process_if
  process_if-IsSound none user_pkt s v = v
  process_if-IsSound (some pkt) user_pkt s v =
      Ensures->>= _ IsSound (process_packet past_end pkt user_pkt s) _
        (process_packet-IsSound pkt user_pkt s v) λ r vr. vr

  -- A round of the packet thread keeps the pool and the rooms well-formed.
  pub process_round-IsSound : (s : State) → IsSound s → Ensures IsSound (process_round past_end s)
  unfolding process_round user_packet_round system_packet_round redis_round
  process_round-IsSound s v =
      Ensures->>= IsSound IsSound (user_packet_round past_end s) _
        (Ensures->>= _ IsSound (dequeue_packet s) _ (dequeue_packet-IsSound s v)
          λ d vd. process_if-IsSound d.0 true d.1 vd)
        λ s₁ v₁.
          Ensures->>= IsSound IsSound (system_packet_round past_end s₁) _
            (process_if-IsSound _ false _ (dequeue_system_packet-IsSound s₁ v₁))
            λ s₂ v₂. process_if-IsSound _ false _ (get_task_res-IsSound s₂ v₂)

module _ (past_end : List ℕ → List ℕ) (redis_get : List ℕ → Option (List ℕ)) where
  -- One step of the packet thread, of a worker thread, or of the Redis thread.
  pub data Step (s : State) : State → Type 0 where
    round : {t : State} → process_round past_end s ≡ some t → Step s t
    receive :
        {t : State} (i : ℤ) (bytes : List ℕ) {known : Bool}
        → enqueue_packet i bytes s ≡ some (known, t)
        → Step s t
    notice : {t : State} (pkt : PacketInfo) → t ≡ enqueue_system_packet pkt s → Step s t
    redis :
        {t : State} {r : Redis.RedisManager}
        → Redis.process_task_round redis_get s.redis ≡ some r
        → t ≡ record s { redis = r }
        → Step s t

  pub data Reach (s : State) : State → Type 0 where
    here : Reach s s
    next : {t u : State} → Reach s t → Step t u → Reach s u

  Step-IsSound : {s t : State} → Step s t → IsSound s → IsSound t
  unfolding enqueue_system_packet
  Step-IsSound {s} (round e) v =
      Ensures-some IsSound (process_round past_end s) (process_round-IsSound past_end s v) e
  Step-IsSound {s} (receive i bytes e) v =
      Ensures-some (λ r. IsSound r.1) (enqueue_packet i bytes s)
        (enqueue_packet-IsSound i bytes s v) e
  Step-IsSound (notice pkt e) v = rw e (record { pool = v.pool; rooms = v.rooms })
  Step-IsSound (redis run e) v = rw e (record { pool = v.pool; rooms = v.rooms })

  Reach-IsSound_from : {s t : State} → Reach s t → IsSound s → IsSound t
  Reach-IsSound_from here v = v
  Reach-IsSound_from (next r st) v = Step-IsSound st (Reach-IsSound_from r v)

  -- In every state that the server reaches from its start, over storages of the right number and
  -- size, each user object has the index of its slot and a valid ring, and there are ten rooms, none
  -- with more than ten users and all with users of the pool only.
  pub Reach-IsSound :
      (raws : List (List ℕ)) {t : State}
      → length raws ≡ max_user_cnt
      → ((j : ℕ) (raw : List ℕ)
          → get_elem? raws j ≡ some raw
          → length raw ≡ default_ringbuffer_size)
      → Reach (init raws) t
      → IsSound t
  Reach-IsSound raws n h r = Reach-IsSound_from r (init-IsSound raws n h)
