-- ===== src/Network/Active.antt =====
-- The number of sessions in use, and what a change of one session does to it.
use iocp_chatting.Session
use iocp_chatting.Session.{
  Session, SendReply, RecvReply, bind_recv, bind_send, activate, recv, send, accept, no_op,
  IoOperation,
}
use iocp_chatting.Network.{
  Network, Event, Replies, close_session, clear_session, close_socket, emit, recv_or_close,
}
use iocp_chatting.Prelude.{
  ℕ, zero, suc, ◌+◌, ◌%◌, ◌^◌, ◌<◌, ◌≡◌, refl, some, List, [], ◌∷◌, arith, get_elem?, set,
  if◌then◌else◌, Ensures, Ensures-of_eq, Ensures-if,
}

abbrev pub weight : Session → ℕ
weight s = if s.is_activated then 1 else 0

-- The number of sessions in use.
abbrev pub active : List Session → ℕ
active [] = 0
active (s ∷ ss) = weight s + active ss

pub active-set :
    (ss : List Session) (i : ℕ) (s s' : Session)
    → get_elem? ss i ≡ some s
    → active (set ss i s') + weight s ≡ active ss + weight s'
active-set [] i s s' e = cc
active-set (x ∷ ss) zero s s' e = ground arith
active-set (x ∷ ss) (suc i) s s' e = omega (arith, active-set ss i s s' e)

-- The 32-bit counter, with `k` sessions in use that it does not count yet.
pub record Counts (k : ℕ) (n : Network) : Type 0 where
  pub bound : n.current_session_cnt < 2 ^ 32
  pub counts : (n.current_session_cnt + k) % 2 ^ 32 ≡ active n.session_list % 2 ^ 32

close_session-weight : (t : ℕ) (s : Session) → weight (close_session t s) ≡ 0
unfolding close_session clear_session
close_session-weight t s = ground arith

pub close_socket-Counts :
    (k t i : ℕ) (n : Network) → Counts k n → Ensures (Counts k) (close_socket t (some i) n)
unfolding close_socket
close_socket-Counts k t i n v = Ensures-of_eq (Counts k) (get_elem? n.session_list i) _ λ s e.
    let w = active-set n.session_list i s (close_session t s) e in
    ground (arith, w, close_session-weight t s)

-- A change of one session that leaves its use alone.
pub same-Counts :
    (k i : ℕ) (n : Network) (s s' : Session)
    → Counts k n
    → get_elem? n.session_list i ≡ some s
    → s'.is_activated ≡ s.is_activated
    → Counts k (record n { session_list = set n.session_list i s' })
same-Counts k i n s s' v e same = ground (arith, active-set n.session_list i s s' e)

pub recv_or_close-Counts :
    (k : ℕ) (w : Replies) (i : ℕ) (n : Network)
    → Counts k n
    → Ensures (Counts k) (recv_or_close w i n)
unfolding recv_or_close bind_recv Session.set_recv_overlapped
recv_or_close-Counts k w i n v = Ensures-of_eq (Counts k) (get_elem? n.session_list i) _ λ s e.
    let kept = same-Counts k i n s (bind_recv w.recv_reply s).1 v e refl in
    Ensures-if (Counts k) (bind_recv w.recv_reply s).0 _ _ (λ _. kept)
      (λ _. close_socket-Counts k w.cur_time i _ kept)

pub emit-Counts : (k : ℕ) (e : Event) {n : Network} → Counts k n → Counts k (emit e n)
unfolding emit
emit-Counts k e v = record { bound = v.bound; counts = v.counts }
