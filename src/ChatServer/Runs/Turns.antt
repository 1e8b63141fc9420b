-- ===== src/ChatServer/Runs/Turns.antt =====
-- What a turn of a worker thread, and one of the packet thread, does in a state that the joined
-- threads reach.
use iocp_chatting.Config.{max_session_cnt, max_user_cnt, default_ringbuffer_size}
use iocp_chatting.Users
use iocp_chatting.Users.{UserManager, user_at}
use iocp_chatting.User
use iocp_chatting.User.{User}
use iocp_chatting.Users.Pool.{IsPool}
use iocp_chatting.Rooms.Bounds.{get_user_by_index-lt}
use iocp_chatting.Ring.{get_free_size}
use iocp_chatting.Ring.Contents.{contents}
use iocp_chatting.Session.{Session, accept}
use iocp_chatting.Network.{
  handle_completion, check_gqcs_result, session_exited, close_exited, is_accept, Network, Event,
  connected, received, disconnected, Completion, Replies, terminate_msg, worker_round,
}
use iocp_chatting.Network.Total.{Full, Genuine, finish, of_accept, of_session, worker_round-Full}
use iocp_chatting.Network.Runs.Exact.{Runs-full}
use iocp_chatting.Network.Runs.Rings.{Runs-HasRings}
use iocp_chatting.PacketManager.{State}
use iocp_chatting.PacketManager.Sound.{IsSound}
use iocp_chatting.Dispatch.{enqueue_packet, process_round}
use iocp_chatting.Dispatch.Reach.{Reach-IsSound}
use iocp_chatting.ChatServer.{on_connect, on_recv, on_disconnect, delegate, deliver}
use iocp_chatting.ChatServer.Delegates.{delegate-IsSound}
use iocp_chatting.ChatServer.Send.{send_all-appends, bytes_for}
use iocp_chatting.ChatServer.Runs.{Joined, worker_turn, packet_turn, Run, joined_with}
use iocp_chatting.ChatServer.Runs.Split.{Run-splits}
use iocp_chatting.Prelude.{
  ◌&&◌, ◌⊎◌, pos, ℕ, ◌≡◌, refl, ap, ◌∙◌, ◌>>=◌, Bool, true, false, not, set, Option, Option-cases,
  some, List, [], ◌∷◌, ◌++◌, take, drop, length, get_elem?, get_elem?_of_lt, ℤ, Ensures-some, inl,
  inr, arith, none,
}

update_user_runs :
    (m : UserManager) (i : ℤ) (f : User → User) {p : ℕ}
    → IsPool m
    → Users.get_user_by_index m i ≡ some p
    → (m' : UserManager) × (Users.update_user p f m ≡ some m')
unfolding Users.update_user
update_user_runs m i f {p} v e =
    let (u, eu) =
      get_elem?_of_lt m.user_obj_pool p (omega (arith, v.full, get_user_by_index-lt m i v e)) in
    (record m { user_obj_pool = set m.user_obj_pool p (f u) }, rw eu refl)

enqueue_packet_runs :
    (i : ℤ) (bytes : List ℕ) (s : State)
    → IsSound s
    → (known : Bool) × (t : State) × (enqueue_packet i bytes s ≡ some (known, t))
unfolding enqueue_packet
enqueue_packet_runs i bytes s v = elim (Option-cases (Users.get_user_by_index s.users i)) [
  | inl e ↦ (false, s, rw e refl)
  | inr (p, e) ↦
      let (m, run) =
        update_user_runs s.users i (λ u. (User.enqueue_packet_data bytes u).1) v.pool e in
      (
        true,
        record s {
          users = m;
          incoming_packet_user_index_queue = s.incoming_packet_user_index_queue ++ (i ∷ []);
        },
        rw (e, run) refl,
      )
]

delegate_runs : (e : Event) (s : State) → IsSound s → (t : State) × (delegate e s ≡ some t)
unfolding delegate on_recv
delegate_runs (connected i) s v = (on_connect i s, refl)
delegate_runs (received i bytes) s v =
    let (known, t, run) = enqueue_packet_runs i bytes s v in (t, rw run refl)
delegate_runs (disconnected i) s v = (on_disconnect i s, refl)

-- No sequence of calls of the delegates faults in a sound state.
deliver_runs : (es : List Event) (s : State) → IsSound s → (t : State) × (deliver es s ≡ some t)
unfolding deliver
deliver_runs [] s v = (s, refl)
deliver_runs (e ∷ es) s v =
    let (s', run) = delegate_runs e s v in
    let (t, rest) =
      deliver_runs es s' (Ensures-some IsSound (delegate e s) (delegate-IsSound e s v) run) in
    (t, ap (λ o. o >>= deliver es) run ∙ rest)

worker_turn_runs :
    (w : Replies) (c : Completion) (n : Network) (s : State)
    → Genuine c
    → Full n
    → IsSound s
    → (n' : Network) × (t : State) × (worker_turn w c n s ≡ some (not (terminate_msg c), n', t))
unfolding worker_turn
worker_turn_runs w c n s g full v =
    let (go, n', run, same, _) = worker_round-Full w c n g full in
    let (t, calls) = deliver_runs (drop (length n.events) n'.events) s v in
    (n', t, rw (run, calls, same) refl)

-- `AcceptEx` has failed: its completion carries the key of the listening socket, which is NULL.
abbrev pub failed_accept : Completion → Bool
failed_accept c = not c.gqcs_ret && elim c.overlapped [ none ↦ false | some (op, _) ↦ is_accept op ]

-- A completion that the system can give.
pub data Given (c : Completion) : Type 0 where
  genuine : Genuine c → Given c
  accept_fails :
      (i : ℕ)
      → c.gqcs_ret ≡ false
      → c.session ≡ none
      → c.overlapped ≡ some (accept, pos i)
      → Given c

not_of_failure : (c : Completion) → Genuine c → failed_accept c ≡ false
unfolding terminate_msg
not_of_failure c (finish e) = ground (arith, e)
not_of_failure c (of_accept i lt ok eo) = rw ok refl
not_of_failure c (of_session i op j lt ei o eo) = rw (eo, o) (ground arith)

failed_accept_faults :
    (w : Replies) (c : Completion) (n : Network) (s : State) (i : ℕ)
    → c.gqcs_ret ≡ false
    → c.session ≡ none
    → c.overlapped ≡ some (accept, pos i)
    → worker_turn w c n s ≡ none
unfolding worker_turn worker_round terminate_msg handle_completion check_gqcs_result session_exited
    close_exited
failed_accept_faults w c n s i failed key eo = rw (failed, eo, key) refl

module _ (past_end : List ℕ → List ℕ) (type : ℕ) (stale : List ℕ)
    (redis_get : List ℕ → Option (List ℕ)) (l iocp : ℕ) (raws : List (List ℕ × List ℕ))
    (user_raws : List (List ℕ)) (number : length raws ≡ max_session_cnt)
    (user_number : length user_raws ≡ max_user_cnt)
    (user_size : (j : ℕ) (raw : List ℕ)
      → get_elem? user_raws j ≡ some raw
      → length raw ≡ default_ringbuffer_size) where
  -- In every state that the threads of the joined server reach from the end of `Start`, over pools of
  -- the right number and size and whatever the clients send, a worker's turn on a completion that the
  -- system can give faults exactly if the completion is of an accept that has failed: then it reads
  -- the NULL that is the listening socket's key. Otherwise neither the network nor a delegate that it
  -- calls faults, and the worker goes on unless the completion is the message to end.
  pub worker_turn_outcome :
      {z : Joined}
      → Run past_end type stale redis_get (joined_with l iocp raws user_raws) z
      → (w : Replies) (c : Completion) → Given c
      → ((failed_accept c ≡ true) × (worker_turn w c z.system.net z.logic ≡ none))
        ⊎ (failed_accept c ≡ false)
          × ((n : Network) × (t : State) × (worker_turn w c z.system.net z.logic
                ≡ some (not (terminate_msg c), n, t)))
  worker_turn_outcome {z} r w c (genuine g) =
      let (net, logic) = Run-splits past_end type stale redis_get l iocp raws user_raws r in
      inr (
        not_of_failure c g,
        worker_turn_runs w c z.system.net z.logic g (Runs-full l iocp raws number net)
            (Reach-IsSound past_end redis_get user_raws user_number user_size logic),
      )
  worker_turn_outcome {z} r w c (accept_fails i failed key eo) =
      inl (rw (failed, eo) refl, failed_accept_faults w c z.system.net z.logic i failed key eo)

  -- In every state that the threads of the joined server reach from its start, over pools of the right
  -- number and size, a round of the packet thread that does not fault ends in calls of the send
  -- function that do not fault either, and each session's send ring holds what it held and then, in
  -- order, the bytes of the packets that the round sent to the session, as far as there was space for
  -- them.
  pub packet_turn_sends :
      ((j : ℕ) (raw : List ℕ × List ℕ)
        → get_elem? raws j ≡ some raw
        → length raw.1 ≡ default_ringbuffer_size)
      → {z : Joined} → Run past_end type stale redis_get (joined_with l iocp raws user_raws) z
      → {t : State} → process_round past_end z.logic ≡ some t
      → (q : ℕ) (s : Session) → get_elem? z.system.net.session_list q ≡ some s
      → let out = drop (length z.logic.sent) t.sent in
        (n : Network) × (s' : Session) × (packet_turn past_end type stale z.system.net z.logic
          ≡ some (n, t))
        × (get_elem? n.session_list q ≡ some s')
        × (contents s'.send_buf
            ≡ contents s.send_buf ++ take (get_free_size s.send_buf) (bytes_for type stale q out))
  unfolding packet_turn
  packet_turn_sends size {z} r {t} run q s e =
      let (net, logic) = Run-splits past_end type stale redis_get l iocp raws user_raws r in
      let (n, s', sends, found, held) =
        send_all-appends type stale (drop (length z.logic.sent) t.sent) q s z.system.net
          (Runs-full l iocp raws number net) e ((Runs-HasRings l iocp raws size net).slot q s e) in
      (n, s', rw (run, sends) refl, found, held)
