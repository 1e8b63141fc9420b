-- ===== src/Dispatch/Awake/Runs.antt =====
-- The users with work stay queued over every run of the threads.
use iocp_chatting.Dispatch.Awake.{Awake, In-append, In-last, index_of_slot}
use iocp_chatting.Dispatch.Awake.Round.{process_round-Awake}
use iocp_chatting.User.Quiet.{new_user-idle}
use native.Mathlib.Decide.{ℕ_discrete}
use iocp_chatting.Config.{max_user_cnt, default_ringbuffer_size}
use iocp_chatting.User.{User, get_packet_data}
use iocp_chatting.Users
use iocp_chatting.Users.{UserManager, user_at, init_pool}
use iocp_chatting.PacketManager
use iocp_chatting.PacketManager.{State, init}
use iocp_chatting.PacketManager.Sound.{IsSound}
use iocp_chatting.Dispatch.{process_round, enqueue_packet, enqueue_system_packet}
use iocp_chatting.Dispatch.Reach.{Step, Reach, Reach-IsSound}
use mathlib.Core.Option.{some-injective}
use iocp_chatting.Prelude.{
  ℕ, zero, suc, ◌+◌, ◌≡◌, ◌≢◌, sym, ap, ◌∙◌, Option, none, some, List, [], ◌∷◌, length, get_elem?,
  get_elem?-set_ne, ℤ, pos, arith, Ensures, Ensures->>=, Ensures-of_eq, Ensures-if_null,
  Ensures-some,
}

-- Bytes that a worker appends to a ring come with the index of the ring's user.
enqueue_packet-Awake :
    (i : ℤ) (bytes : List ℕ) (s : State)
    → Awake s
    → Ensures (λ r. Awake r.1) (enqueue_packet i bytes s)
unfolding enqueue_packet Users.update_user
enqueue_packet-Awake i bytes s a =
    Ensures-if_null _ (Users.get_user_by_index s.users i) _ _ a λ p ep.
      Ensures->>= (λ m. (q : ℕ) → p ≢ q → user_at m q ≡ user_at s.users q) _
        (Users.update_user p _ s.users) _
        (Ensures-of_eq _ (user_at s.users p) _
          λ u eu q other. get_elem?-set_ne s.users.user_obj_pool _ other)
        λ m others q w e h. elim (ℕ_discrete p q) [
          | yes same ↦
              rw (index_of_slot s.users i ep, same)
                (In-last (pos q) s.incoming_packet_user_index_queue)
          | no other ↦
              In-append (pos q) s.incoming_packet_user_index_queue _
                (a q w (sym (others q other) ∙ e) h)
        ]

-- In the beginning all rings are empty.
init_pool_idle :
    (k : ℕ) (raws : List (List ℕ)) (q : ℕ) (w : User)
    → get_elem? (init_pool k raws) q ≡ some w
    → get_packet_data w ≡ none
unfolding Users.init_pool
init_pool_idle k [] q w e = cc
init_pool_idle k (raw ∷ raws) zero w e =
    ap get_packet_data (sym (some-injective _ w e)) ∙ new_user-idle (pos k) raw
init_pool_idle k (raw ∷ raws) (suc q) w e = init_pool_idle (k + 1) raws q w e

init-Awake : (raws : List (List ℕ)) → Awake (init raws)
unfolding PacketManager.init Users.init
init-Awake raws q w e h = absurd (ground (arith, init_pool_idle 0 raws q w e, h.packet))

module _ (past_end : List ℕ → List ℕ) (redis_get : List ℕ → Option (List ℕ)) where
  Step-Awake : {s t : State} → Step past_end redis_get s t → IsSound s → Awake s → Awake t
  unfolding enqueue_system_packet
  Step-Awake {s} (Step.round e) v a =
      Ensures-some Awake (process_round past_end s) (process_round-Awake past_end s v a) e
  Step-Awake {s} (Step.receive i bytes e) v a =
      Ensures-some (λ r. Awake r.1) (enqueue_packet i bytes s) (enqueue_packet-Awake i bytes s a) e
  Step-Awake (Step.notice pkt e) v a = rw e a
  Step-Awake (Step.redis run e) v a = rw e a

  -- In every state that the server reaches from its start, over storages of the right number and
  -- size, each user at the front of whose ring a whole packet stands to which a handler is bound has
  -- its index in the queue of the packet thread: such a packet is not forgotten.
  pub Reach-Awake :
      (raws : List (List ℕ)) {t : State}
      → length raws ≡ max_user_cnt
      → ((j : ℕ) (raw : List ℕ)
          → get_elem? raws j ≡ some raw
          → length raw ≡ default_ringbuffer_size)
      → Reach past_end redis_get (init raws) t
      → Awake t
  Reach-Awake raws n h Reach.here = init-Awake raws
  Reach-Awake raws n h (Reach.next r st) =
      Step-Awake st (Reach-IsSound past_end redis_get raws n h r) (Reach-Awake raws n h r)
