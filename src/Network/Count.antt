-- ===== src/Network/Count.antt =====
-- The counter of sessions agrees with the sessions in use.
use iocp_chatting.Network.Active.{
  active-set, Counts, close_socket-Counts, same-Counts, recv_or_close-Counts, emit-Counts,
}
use iocp_chatting.Session
use iocp_chatting.Session.{
  Session, SendReply, RecvReply, bind_recv, bind_send, activate, recv, send, accept, no_op,
  IoOperation,
}
use iocp_chatting.Network.{
  Network, Event, Completion, Replies, close_socket, emit, update_session, get_session_by_idx,
  close_exited, session_exited, terminate_msg, dispatch_if, check_gqcs_result, recv_or_close,
  recv_completed, send_completed, accept_completed, dispatch_overlapped, handle_completion,
  worker_round, sender_visit, bind_io_completion_port,
}
use iocp_chatting.Prelude.{
  ℕ, ◌+◌, ◌%◌, ◌^◌, ◌≡◌, refl, Bool, false, Option, none, some, arith, get_elem?, set, Ensures,
  Ensures->>=, Ensures-of_eq, Ensures-if, Ensures-some, ◌⊎◌, ap, inl, inr, ℤ, ◌>>=◌,
}

recv_completed-Counts :
    (w : Replies) (i io_size : ℕ) (n : Network)
    → Counts 0 n
    → Ensures (Counts 0) (recv_completed w i io_size n)
unfolding recv_completed
recv_completed-Counts w i io_size n v =
    Ensures-of_eq (Counts 0) (get_elem? n.session_list i) _
      λ s e. recv_or_close-Counts 0 w i _ (emit-Counts 0 _ v)

bind_send-is_activated :
    (reply : SendReply) (s : Session) → (bind_send reply s).2.is_activated ≡ s.is_activated
unfolding bind_send
bind_send-is_activated reply s = ground arith

send_completed-Counts : (i : ℕ) (n : Network) → Counts 0 n → Ensures (Counts 0) (send_completed i n)
unfolding send_completed update_session
send_completed-Counts i n v =
    Ensures-of_eq (Counts 0) (get_elem? n.session_list i) _
      λ s e. same-Counts 0 i n s (record s { is_sending = false }) v e refl

-- The session that an accept completion names is not in use.
abbrev pub AcceptsIdle : ℤ → Network → Type 0
AcceptsIdle j n =
    (i : ℕ) (s : Session)
    → get_session_by_idx j ≡ some i
    → get_elem? n.session_list i ≡ some s
    → s.is_activated ≡ false

activate-Counts :
    (i : ℕ) (n : Network) (s : Session)
    → Counts 0 n
    → get_elem? n.session_list i ≡ some s
    → s.is_activated ≡ false
    → Counts 1 (record n { session_list = set n.session_list i (activate s) })
unfolding activate
activate-Counts i n s v e off = ground (arith, active-set n.session_list i s (activate s) e)

-- The counter goes up at the end of an accept.
count-Counts :
    {n : Network}
    → Counts 1 n
    → Counts 0 (record n { current_session_cnt = (n.current_session_cnt + 1) % 2 ^ 32 })
count-Counts v = omega (arith, v.counts)

bound-Counts :
    (i : ℕ) (e : Event) (n : Network)
    → Counts 0 n
    → ((s : Session) → get_elem? n.session_list i ≡ some s → s.is_activated ≡ false)
    → Ensures (Counts 1) (update_session i activate (emit e n))
unfolding update_session emit
bound-Counts i e n v idle = Ensures-of_eq (Counts 1) (get_elem? n.session_list i) _ λ s es.
    let a = activate-Counts i n s v es (idle s es) in record { bound = a.bound; counts = a.counts }

accept_completed-Counts :
    (w : Replies) (j : ℤ) (n : Network)
    → Counts 0 n
    → AcceptsIdle j n
    → Ensures (Counts 0) (accept_completed w j n)
unfolding accept_completed update_session
accept_completed-Counts w j n v idle = Ensures-of_eq (Counts 0) (get_session_by_idx j) _ λ i ei.
    Ensures-of_eq (Counts 0) (get_elem? n.session_list i) _ λ s es.
      Ensures-if (Counts 0) (bind_io_completion_port w n) _ _ (λ _. bound i ei s)
        (λ _. close_socket-Counts 0 w.cur_time i n v)
  where
    bound :
        (i : ℕ)
        → get_session_by_idx j ≡ some i
        → (s : Session)
        → Ensures (Counts 0) (
            update_session i activate (emit (Event.connected s.index) n) >>= λ n₁.
            recv_or_close w i n₁ >>= λ n₂.
            some (record n₂ { current_session_cnt = (n₂.current_session_cnt + 1) % 2 ^ 32 }))
    bound i ei s =
        Ensures->>= (Counts 1) (Counts 0)
          (update_session i activate (emit (Event.connected s.index) n)) _
          (bound-Counts i (Event.connected s.index) n v λ s'. idle i s' ei)
          λ n₁ v₁.
            Ensures->>= (Counts 1) (Counts 0) (recv_or_close w i n₁) _
              (recv_or_close-Counts 1 w i n₁ v₁) λ n₂ v₂. count-Counts v₂

dispatch_overlapped-Counts :
    (w : Replies) (p : Option ℕ) (io_size : ℕ) (o : IoOperation × ℤ) (n : Network)
    → Counts 0 n
    → (o.0 ≡ accept → AcceptsIdle o.1 n)
    → Ensures (Counts 0) (dispatch_overlapped w p io_size o n)
unfolding dispatch_overlapped
dispatch_overlapped-Counts w p io_size (recv, _) n v idle =
    Ensures-of_eq (Counts 0) p _ λ i e. recv_completed-Counts w i io_size n v
dispatch_overlapped-Counts w p io_size (send, _) n v idle =
    Ensures-of_eq (Counts 0) p _ λ i e. send_completed-Counts i n v
dispatch_overlapped-Counts w p io_size (accept, j) n v idle =
    accept_completed-Counts w j n v (idle refl)
dispatch_overlapped-Counts w p io_size (no_op, _) n v idle = v

close_exited-Counts :
    (w : Replies) (c : Completion) (n : Network)
    → Counts 0 n
    → Ensures (λ r. (r.0 ≡ false) × Counts 0 r.1 ⊎ (r.1 ≡ n)) (close_exited w c n)
unfolding close_exited
close_exited-Counts w c n v = Ensures-of_eq _ c.session _ λ i ei.
    Ensures-of_eq _ (get_elem? n.session_list i) _ λ s es.
      Ensures->>= (Counts 0) _
        (close_socket w.cur_time (some i) (emit (Event.disconnected s.index) n)) _
        (close_socket-Counts 0 w.cur_time i _ (emit-Counts 0 _ v)) (λ n' v'. inl (refl, v'))

-- What `CheckGQCSResult` leaves: a closed session, or the network as it was.
check_gqcs_result-Counts :
    (w : Replies) (c : Completion) (n : Network)
    → Counts 0 n
    → Ensures (λ r. (r.0 ≡ false) × Counts 0 r.1 ⊎ (r.1 ≡ n)) (check_gqcs_result w c n)
unfolding check_gqcs_result
check_gqcs_result-Counts w c n v =
    Ensures-if (λ r. (r.0 ≡ false) × Counts 0 r.1 ⊎ (r.1 ≡ n)) (session_exited c) _ _
      (λ _. close_exited-Counts w c n v) (λ _. inr refl)

dispatch_if-Counts :
    (w : Replies) (c : Completion) (o : Option (IoOperation × ℤ)) (n : Network)
    → Counts 0 n
    → ((j : ℤ) → o ≡ some (accept, j) → AcceptsIdle j n)
    → Ensures (Counts 0) (dispatch_if w c o n)
unfolding dispatch_if
dispatch_if-Counts w c none n v idle = v
dispatch_if-Counts w c (some (op, j)) n v idle =
    dispatch_overlapped-Counts w c.session c.io_size (op, j) n v
      λ e. idle j (ap (λ x. some (x, j)) e)

handle_completion-Counts :
    (w : Replies) (c : Completion) (n : Network)
    → Counts 0 n
    → ((j : ℤ) → c.overlapped ≡ some (accept, j) → AcceptsIdle j n)
    → Ensures (Counts 0) (handle_completion w c n)
unfolding handle_completion
handle_completion-Counts w c n v idle =
    Ensures->>= _ (Counts 0) (check_gqcs_result w c n) _ (check_gqcs_result-Counts w c n v) λ r.
      elim [
        | inl (off, v') ↦ rw off v'
        | inr same ↦
            Ensures-if (Counts 0) r.0 _ _
              (λ _. rw same (dispatch_if-Counts w c c.overlapped n v idle)) (λ _. rw same v)
      ]

-- A round of a worker thread, whatever the completion and the answers of the system, leaves the
-- counter of sessions equal, on 32 bits, to the number of sessions in use, if it was before and an
-- accept completion names a session that is not in use.
pub worker_round-Counts :
    (w : Replies) (c : Completion) (n : Network) {go : Bool} {n' : Network}
    → Counts 0 n
    → ((j : ℤ) → c.overlapped ≡ some (accept, j) → AcceptsIdle j n)
    → worker_round w c n ≡ some (go, n')
    → Counts 0 n'
unfolding worker_round
worker_round-Counts w c n v idle =
    Ensures-some (λ r. Counts 0 r.1) (worker_round w c n)
      (Ensures-if _ (terminate_msg c) _ _ (λ _. v)
        (λ _.
          Ensures->>= (Counts 0) _ (handle_completion w c n) _
            (handle_completion-Counts w c n v idle) (λ n' v'. v')))

-- The visit of the sender thread to a session, whatever the system answers, leaves the counter of
-- sessions equal, on 32 bits, to the number of sessions in use, if it was before.
pub sender_visit-Counts :
    (t : ℕ) (reply : SendReply) (i : ℕ) (n : Network) {n' : Network}
    → Counts 0 n
    → sender_visit t reply i n ≡ some n'
    → Counts 0 n'
unfolding sender_visit
sender_visit-Counts t reply i n v = Ensures-some (Counts 0) (sender_visit t reply i n) (
    Ensures-of_eq (Counts 0) (get_elem? n.session_list i) _ λ s e.
      let kept = same-Counts 0 i n s (bind_send reply s).2 v e (bind_send-is_activated reply s) in
      Ensures-if (Counts 0) (Session.has_send_data s) _ _
        (λ _.
          Ensures-if (Counts 0) (bind_send reply s).0 _ _ (λ _. kept)
            (λ _. close_socket-Counts 0 t i _ kept))
        (λ _. v))
