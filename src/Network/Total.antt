-- ===== src/Network/Total.antt =====
-- A worker's round does not fault on the completions that the system gives for the pool's sessions.
use iocp_chatting.Config.{max_session_cnt}
use iocp_chatting.Session.{Session, accept, no_op, recv, send, IoOperation, bind_recv, activate}
use iocp_chatting.Network.{
  Network, Completion, Replies, close_socket, emit, update_session, get_session_by_idx,
  recv_or_close, recv_completed, send_completed, accept_completed, dispatch_overlapped, dispatch_if,
  close_exited, check_gqcs_result, session_exited, handle_completion, worker_round, terminate_msg,
  bind_io_completion_port, is_accept, has_overlapped,
}
use iocp_chatting.Prelude.{
  ℕ, ◌<◌, ◌≡◌, refl, ◌∙◌, Bool, true, false, not, ◌&&◌, some, length, length-set, get_elem?, set,
  get_elem?_of_lt, ℤ, pos, Succeeds, Succeeds->>=, Succeeds-of_eq, Succeeds-if, some_of_Succeeds,
  Bool-cases, inl, inr, arith, ◌==◌,
}

-- The pool is there.
abbrev pub Full : Network → Type 0
Full n = length n.session_list ≡ max_session_cnt

-- A completion as the system gives it: of an accept, which names a session and has succeeded, or with
-- a session of the pool as its key and of another operation, or the message to end.
pub data Genuine (c : Completion) : Type 0 where
  finish : terminate_msg c ≡ true → Genuine c
  of_accept :
      (i : ℕ)
      → i < max_session_cnt
      → c.gqcs_ret ≡ true
      → c.overlapped ≡ some (accept, pos i)
      → Genuine c
  of_session :
      (i : ℕ) (op : IoOperation) (j : ℤ)
      → i < max_session_cnt
      → c.session ≡ some i
      → is_accept op ≡ false
      → c.overlapped ≡ some (op, j)
      → Genuine c

close_socket-Full :
    (t i : ℕ) (n : Network)
    → i < max_session_cnt
    → Full n
    → Succeeds Full (close_socket t (some i) n)
unfolding close_socket
close_socket-Full t i n lt v =
    let (s, e) = get_elem?_of_lt n.session_list i (omega (arith, v)) in
    Succeeds-of_eq Full (get_elem? n.session_list i) _ e (length-set n.session_list i _ ∙ v)

update_session-Full :
    (i : ℕ) (f : Session → Session) (n : Network)
    → i < max_session_cnt
    → Full n
    → Succeeds Full (update_session i f n)
unfolding update_session
update_session-Full i f n lt v =
    let (s, e) = get_elem?_of_lt n.session_list i (omega (arith, v)) in
    Succeeds-of_eq Full (get_elem? n.session_list i) _ e (length-set n.session_list i _ ∙ v)

recv_or_close-Full :
    (w : Replies) (i : ℕ) (n : Network)
    → i < max_session_cnt
    → Full n
    → Succeeds Full (recv_or_close w i n)
unfolding recv_or_close
recv_or_close-Full w i n lt v =
    let (s, e) = get_elem?_of_lt n.session_list i (omega (arith, v)) in
    let kept : length (set n.session_list i (bind_recv w.recv_reply s).1) ≡ max_session_cnt =
      length-set n.session_list i _ ∙ v in
    Succeeds-of_eq Full (get_elem? n.session_list i) _ e (
      Succeeds-if Full (bind_recv w.recv_reply s).0 _ _ kept
        (close_socket-Full w.cur_time i _ lt kept))

session_of_lt : (i : ℕ) → i < max_session_cnt → get_session_by_idx (pos i) ≡ some i
unfolding get_session_by_idx
session_of_lt i lt = ground (arith, lt)

accept_completed-Full :
    (w : Replies) (i : ℕ) (n : Network)
    → i < max_session_cnt
    → Full n
    → Succeeds Full (accept_completed w (pos i) n)
unfolding accept_completed emit
accept_completed-Full w i n lt v =
    let (s, e) = get_elem?_of_lt n.session_list i (omega (arith, v)) in
    Succeeds-of_eq Full (get_session_by_idx (pos i)) _ (session_of_lt i lt) (
      Succeeds-of_eq Full (get_elem? n.session_list i) _ e (
        Succeeds-if Full (bind_io_completion_port w n) _ _
          (Succeeds->>= Full Full (update_session i activate (emit _ n)) _
            (update_session-Full i activate (emit _ n) lt v)
            λ n₁ v₁.
              Succeeds->>= Full Full (recv_or_close w i n₁) _ (recv_or_close-Full w i n₁ lt v₁)
                λ n₂ v₂. v₂)
          (close_socket-Full w.cur_time i n lt v)))

dispatch_overlapped-Full :
    (w : Replies) (i io_size : ℕ) (op : IoOperation) (j : ℤ) (n : Network)
    → i < max_session_cnt
    → is_accept op ≡ false
    → Full n
    → Succeeds Full (dispatch_overlapped w (some i) io_size (op, j) n)
unfolding dispatch_overlapped recv_completed send_completed emit
dispatch_overlapped-Full w i io_size recv j n lt o v =
    let (s, e) = get_elem?_of_lt n.session_list i (omega (arith, v)) in
    Succeeds-of_eq Full (get_elem? n.session_list i) _ e (recv_or_close-Full w i _ lt v)
dispatch_overlapped-Full w i io_size send j n lt o v =
    update_session-Full i (λ s. record s { is_sending = false }) n lt v
dispatch_overlapped-Full w i io_size accept j n lt o v = cc
dispatch_overlapped-Full w i io_size no_op j n lt o v = v

dispatch_session-Full :
    (w : Replies) (c : Completion) (i : ℕ) (op : IoOperation) (j : ℤ) (n : Network)
    → c.session ≡ some i
    → i < max_session_cnt
    → is_accept op ≡ false
    → Full n
    → Succeeds Full (dispatch_if w c (some (op, j)) n)
unfolding dispatch_if
dispatch_session-Full w c i op j n ei lt o v =
    rw ei (dispatch_overlapped-Full w i c.io_size op j n lt o v)

-- A session of the pool that has ended is closed.
close_exited-Full :
    (w : Replies) (c : Completion) (i : ℕ) (n : Network)
    → c.session ≡ some i
    → i < max_session_cnt
    → Full n
    → Succeeds (λ r. (r.0 ≡ false) × Full r.1) (close_exited w c n)
unfolding close_exited emit
close_exited-Full w c i n ei lt v =
    let (s, e) = get_elem?_of_lt n.session_list i (omega (arith, v)) in
    Succeeds-of_eq _ c.session _ ei (
      Succeeds-of_eq _ (get_elem? n.session_list i) _ e (
        Succeeds->>= Full _ (close_socket w.cur_time (some i) (emit _ n)) _
          (close_socket-Full w.cur_time i (emit _ n) lt v) λ n' v'. (refl, v')))

and_not_true : (b : Bool) → (b && false) ≡ false
and_not_true b = ground arith

accept_not_exited :
    (c : Completion) (i : ℕ)
    → c.gqcs_ret ≡ true
    → c.overlapped ≡ some (accept, pos i)
    → session_exited c ≡ false
unfolding session_exited
accept_not_exited c i ok eo = rw (ok, eo) (and_not_true (c.io_size == 0))

handle_completion-Full :
    (w : Replies) (c : Completion) (n : Network)
    → Genuine c
    → terminate_msg c ≡ false
    → Full n
    → Succeeds Full (handle_completion w c n)
unfolding handle_completion check_gqcs_result has_overlapped dispatch_if dispatch_overlapped
handle_completion-Full w c n (finish e) f v = cc
handle_completion-Full w c n (of_accept i lt ok eo) f v =
    rw (accept_not_exited c i ok eo, eo) (accept_completed-Full w i n lt v)
handle_completion-Full w c n (of_session i op j lt ei o eo) f v =
    elim (Bool-cases (session_exited c)) [
      | inl gone ↦ rw gone (
          Succeeds->>= (λ r. (r.0 ≡ false) × Full r.1) Full (close_exited w c n) _
            (close_exited-Full w c i n ei lt v) λ r vr. rw (vr.0) (vr.1))
      | inr on ↦ rw (on, eo) (dispatch_session-Full w c i op j n ei lt o v)
    ]

-- A round of a worker thread on such a completion does not fault, whatever the system answers: no
-- null pointer is read, and no session out of the pool. The pool stays full.
pub worker_round-Full :
    (w : Replies) (c : Completion) (n : Network)
    → Genuine c
    → Full n
    → (go : Bool) × (n' : Network) × (worker_round w c n ≡ some (go, n'))
      × (go ≡ not (terminate_msg c))
      × Full n'
unfolding worker_round
worker_round-Full w c n g v = elim (Bool-cases (terminate_msg c)) [
  | inl end ↦ (false, n, rw end refl, rw end refl, v)
  | inr on ↦
      let (n', run, v') =
        some_of_Succeeds Full (handle_completion w c n) (handle_completion-Full w c n g on v) in
      (true, n', rw (on, run) refl, rw on refl, v')
]
