-- ===== src/Network/Each.antt =====
-- A property of each session of the pool, over each operation of Network/network.cpp.
use iocp_chatting.Session
use iocp_chatting.Session.{
  Session, SendReply, RecvReply, accept, no_op, recv, send, IoOperation, bind_recv, bind_send,
  activate, enqueue_send_data,
}
use iocp_chatting.Network.{
  Network, Completion, Replies, close_session, close_socket, emit, update_session,
  get_session_by_idx, recv_or_close, recv_completed, send_completed, accept_completed,
  dispatch_overlapped, dispatch_if, close_exited, check_gqcs_result, session_exited,
  handle_completion, worker_round, terminate_msg, bind_io_completion_port, sender_visit,
  send_packet,
}
use iocp_chatting.Prelude.{
  ℕ, ◌≡◌, refl, ap, ◌∙◌, subst, false, Option, none, some, List, length, length-set, get_elem?, set,
  get_elem?-set_cases, ℤ, Ensures, Ensures->>=, Ensures-of_eq, Ensures-if, inl, inr,
}

module _ (P : ℕ → Session → Type 0) (len : ℕ) where
  -- A pool of `len` sessions, with the property for the session in each slot.
  pub record Each (ss : List Session) : Type 0 where
    pub full : length ss ≡ len
    pub slot : (i : ℕ) (s : Session) → get_elem? ss i ≡ some s → P i s

  pub set-Each : (ss : List Session) (i : ℕ) (s' : Session) → Each ss → P i s' → Each (set ss i s')
  set-Each ss i s' v h = record {
    full = length-set ss i s' ∙ v.full;
    slot = λ j w e. elim (get_elem?-set_cases ss i j s' e) [
      | inl (same, read) ↦ subst (λ k. P k w) same (subst (P i) read h)
      | inr (other, read) ↦ v.slot j w read
    ];
  }

  -- A network with such a pool.
  abbrev pub HasEach : Network → Type 0
  HasEach n = Each n.session_list

  -- What the operations do to one session. A slot is only activated where `A` allows it.
  pub record IsKept (A : ℕ → Type 0) : Type 0 where
    pub closed : (t i : ℕ) (s : Session) → P i s → P i (close_session t s)
    pub received : (r : RecvReply) (i : ℕ) (s : Session) → P i s → P i (bind_recv r s).1
    pub bound : (r : SendReply) (i : ℕ) (s : Session) → P i s → P i (bind_send r s).2
    pub sent : (i : ℕ) (s : Session) → P i s → P i (record s { is_sending = false })
    pub queued : (bytes : List ℕ) (i : ℕ) (s : Session) → P i s → P i (enqueue_send_data bytes s).1
    pub activated : (i : ℕ) (s : Session) → A i → P i s → P i (activate s)

  module _ (A : ℕ → Type 0) (k : IsKept A) where
    close_socket-HasEach :
        (t i : ℕ) (n : Network) → HasEach n → Ensures HasEach (close_socket t (some i) n)
    unfolding close_socket
    close_socket-HasEach t i n v =
        Ensures-of_eq HasEach (get_elem? n.session_list i) _
          λ s e. set-Each n.session_list i (close_session t s) v (k.closed t i s (v.slot i s e))

    update_session-HasEach :
        (i : ℕ) (f : Session → Session) (n : Network)
        → ((s : Session) → P i s → P i (f s))
        → HasEach n
        → Ensures HasEach (update_session i f n)
    unfolding update_session
    update_session-HasEach i f n keep v =
        Ensures-of_eq HasEach (get_elem? n.session_list i) _
          λ s e. set-Each n.session_list i (f s) v (keep s (v.slot i s e))

    recv_or_close-HasEach :
        (w : Replies) (i : ℕ) (n : Network) → HasEach n → Ensures HasEach (recv_or_close w i n)
    unfolding recv_or_close
    recv_or_close-HasEach w i n v = Ensures-of_eq HasEach (get_elem? n.session_list i) _ λ s e.
        let kept =
          set-Each n.session_list i (bind_recv w.recv_reply s).1 v
            (k.received w.recv_reply i s (v.slot i s e)) in
        Ensures-if HasEach (bind_recv w.recv_reply s).0 _ _ (λ _. kept)
          (λ _. close_socket-HasEach w.cur_time i _ kept)

    accept_completed-HasEach :
        (w : Replies) (j : ℤ) (n : Network)
        → ((i : ℕ) → get_session_by_idx j ≡ some i → A i)
        → HasEach n
        → Ensures HasEach (accept_completed w j n)
    unfolding accept_completed emit
    accept_completed-HasEach w j n done v = Ensures-of_eq HasEach (get_session_by_idx j) _ λ i ei.
        Ensures-of_eq HasEach (get_elem? n.session_list i) _ λ s es.
          Ensures-if HasEach (bind_io_completion_port w n) _ _
            (λ _.
              Ensures->>= HasEach HasEach (update_session i activate (emit _ n)) _
                (update_session-HasEach i activate (emit _ n) (λ s. k.activated i s (done i ei)) v)
                λ n₁ v₁.
                  Ensures->>= HasEach HasEach (recv_or_close w i n₁) _
                    (recv_or_close-HasEach w i n₁ v₁) λ n₂ v₂. v₂)
            (λ _. close_socket-HasEach w.cur_time i n v)

    dispatch_overlapped-HasEach :
        (w : Replies) (c : Option ℕ) (io_size : ℕ) (o : IoOperation × ℤ) (n : Network)
        → ((i : ℕ) → o.0 ≡ accept → get_session_by_idx o.1 ≡ some i → A i)
        → HasEach n
        → Ensures HasEach (dispatch_overlapped w c io_size o n)
    unfolding dispatch_overlapped recv_completed send_completed emit
    dispatch_overlapped-HasEach w c io_size (recv, _) n done v = Ensures-of_eq HasEach c _ λ i e.
        Ensures-of_eq HasEach (get_elem? n.session_list i) _ λ s es. recv_or_close-HasEach w i _ v
    dispatch_overlapped-HasEach w c io_size (send, _) n done v =
        Ensures-of_eq HasEach c _
          λ i e. update_session-HasEach i (λ s. record s { is_sending = false }) n (k.sent i) v
    dispatch_overlapped-HasEach w c io_size (accept, j) n done v =
        accept_completed-HasEach w j n (λ i. done i refl) v
    dispatch_overlapped-HasEach w c io_size (no_op, _) n done v = v

    check_gqcs_result-HasEach :
        (w : Replies) (c : Completion) (n : Network)
        → HasEach n
        → Ensures (λ r. HasEach r.1) (check_gqcs_result w c n)
    unfolding check_gqcs_result close_exited emit
    check_gqcs_result-HasEach w c n v =
        Ensures-if _ (session_exited c) _ _
          (λ _. Ensures-of_eq _ c.session _ λ i ei.
            Ensures-of_eq _ (get_elem? n.session_list i) _ λ s es.
              Ensures->>= HasEach _ (close_socket w.cur_time (some i) (emit _ n)) _
                (close_socket-HasEach w.cur_time i (emit _ n) v) λ n' v'. v')
          (λ _. v)

    dispatch_if-HasEach :
        (w : Replies) (c : Completion) (o : Option (IoOperation × ℤ)) (n : Network)
        → ((i : ℕ) (j : ℤ) → o ≡ some (accept, j) → get_session_by_idx j ≡ some i → A i)
        → HasEach n
        → Ensures HasEach (dispatch_if w c o n)
    unfolding dispatch_if
    dispatch_if-HasEach w c none n done v = v
    dispatch_if-HasEach w c (some (op, j)) n done v =
        dispatch_overlapped-HasEach w c.session c.io_size (op, j) n
          (λ i e. done i j (ap (λ x. some (x, j)) e)) v

    -- A round of a worker keeps the property, if the accept that it completes may activate its slot.
    pub worker_round-HasEach :
        (w : Replies) (c : Completion) (n : Network)
        → ((i : ℕ) (j : ℤ) → c.overlapped ≡ some (accept, j) → get_session_by_idx j ≡ some i → A i)
        → HasEach n
        → Ensures (λ r. HasEach r.1) (worker_round w c n)
    unfolding worker_round handle_completion
    worker_round-HasEach w c n done v =
        Ensures-if _ (terminate_msg c) _ _ (λ _. v)
          (λ _.
            Ensures->>= HasEach _ (handle_completion w c n) _
              (Ensures->>= (λ r. HasEach r.1) _ (check_gqcs_result w c n) _
                (check_gqcs_result-HasEach w c n v)
                λ r vr.
                  Ensures-if HasEach r.0 _ _ (λ _. dispatch_if-HasEach w c c.overlapped r.1 done vr)
                    (λ _. vr))
              λ n' v'. v')

    pub sender_visit-HasEach :
        (t : ℕ) (reply : SendReply) (i : ℕ) (n : Network)
        → HasEach n
        → Ensures HasEach (sender_visit t reply i n)
    unfolding sender_visit
    sender_visit-HasEach t reply i n v =
        Ensures-of_eq HasEach (get_elem? n.session_list i) _ λ s es.
          let kept =
            set-Each n.session_list i (bind_send reply s).2 v (k.bound reply i s (v.slot i s es)) in
          Ensures-if HasEach (Session.has_send_data s) _ _
            (λ _.
              Ensures-if HasEach (bind_send reply s).0 _ _ (λ _. kept)
                (λ _. close_socket-HasEach t i _ kept))
            (λ _. v)

    pushed-HasEach :
        (o : Option ℕ) (bytes : List ℕ) (n : Network)
        → HasEach n
        → Ensures HasEach (elim o [
          | none ↦ some n
          | some i ↦ update_session i (λ s. (enqueue_send_data bytes s).1) n
        ])
    pushed-HasEach none bytes n v = v
    pushed-HasEach (some i) bytes n v =
        update_session-HasEach i (λ s. (enqueue_send_data bytes s).1) n (k.queued bytes i) v

    pub send_packet-HasEach :
        (j : ℤ) (bytes : List ℕ) (n : Network) → HasEach n → Ensures HasEach (send_packet j bytes n)
    unfolding send_packet
    send_packet-HasEach j bytes n v = pushed-HasEach (get_session_by_idx j) bytes n v
