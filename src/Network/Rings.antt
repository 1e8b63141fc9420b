-- ===== src/Network/Rings.antt =====
-- The send rings of the pool over each operation of Network/network.cpp.
use iocp_chatting.Ring.Inv.{IsValid, clear_buffer-IsValid, move_front-IsValid}
use iocp_chatting.Ring.Enqueue.{enqueue-Stored}
use iocp_chatting.Session
use iocp_chatting.Session.{
  Session, SendReply, AcceptReply, RecvReply, accept, no_op, recv, send, IoOperation, bind_recv,
  bind_send, bind_accept, activate, enqueue_send_data,
}
use iocp_chatting.Network.{Network, close_session, clear_session, accepter_visit}
use iocp_chatting.Network.Each.{Each, IsKept}
use iocp_chatting.Prelude.{ℕ, List, arith}

-- The ring of a session.
abbrev pub HasRing : Session → Type 0
HasRing s = IsValid s.send_buf

-- A pool of `len` sessions with such rings, and a network with it.
abbrev pub Rings : ℕ → List Session → Type 0
Rings = Each (λ i s. HasRing s)

abbrev pub HasRings : ℕ → Network → Type 0
HasRings len n = Rings len n.session_list

close_session-HasRing : (t : ℕ) (s : Session) → HasRing s → HasRing (close_session t s)
unfolding close_session clear_session
close_session-HasRing t s v = ground (arith, clear_buffer-IsValid v)

bind_recv-HasRing : (r : RecvReply) (s : Session) → HasRing s → HasRing (bind_recv r s).1
unfolding bind_recv Session.set_recv_overlapped
bind_recv-HasRing r s v = v

bind_send-HasRing : (r : SendReply) (s : Session) → HasRing s → HasRing (bind_send r s).2
unfolding bind_send
bind_send-HasRing r s v = ground (arith, move_front-IsValid r.sent_bytes v)

activate-HasRing : (s : Session) → HasRing s → HasRing (activate s)
unfolding activate
activate-HasRing s v = clear_buffer-IsValid v

pub visit-HasRing :
    (now : ℕ) (reply : AcceptReply) (s : Session) → HasRing s → HasRing (accepter_visit now reply s)
unfolding accepter_visit bind_accept
visit-HasRing now reply s v = ground (arith, v)

enqueue_send-HasRing :
    (bytes : List ℕ) (s : Session) → HasRing s → HasRing (enqueue_send_data bytes s).1
unfolding enqueue_send_data
enqueue_send-HasRing bytes s v = (enqueue-Stored bytes v).valid

-- Every operation keeps the rings valid, whichever slot is activated.
pub rings-IsKept : (len : ℕ) → IsKept (λ i s. HasRing s) len (λ i. Unit)
rings-IsKept len = record {
  closed = λ t i s. close_session-HasRing t s;
  received = λ r i s. bind_recv-HasRing r s;
  bound = λ r i s. bind_send-HasRing r s;
  sent = λ i s v. v;
  queued = λ bytes i s. enqueue_send-HasRing bytes s;
  activated = λ i s _. activate-HasRing s;
}
