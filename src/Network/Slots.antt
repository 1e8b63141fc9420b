-- ===== src/Network/Slots.antt =====
-- The sessions of the pool, and those that an accept is outstanding for, over each operation of
-- Network/network.cpp. `p i` says whether an accept is outstanding for slot `i`.
use iocp_chatting.Config.{max_session_cnt}
use iocp_chatting.Session
use iocp_chatting.Session.{
  Session, SendReply, AcceptReply, uint64_max, accept, no_op, recv, send, IoOperation, bind_recv,
  bind_send, bind_accept, activate, enqueue_send_data,
}
use iocp_chatting.Network.{
  Network, Completion, Replies, close_session, clear_session, get_session_by_idx, worker_round,
  sender_visit, send_packet,
}
use iocp_chatting.Network.Each.{
  Each, IsKept, set-Each, worker_round-HasEach, sender_visit-HasEach, send_packet-HasEach,
}
use iocp_chatting.Prelude.{ℕ, ◌≡◌, Bool, true, false, some, List, set, ℤ, pos, Ensures, arith}

-- A session in slot `i`; `b` says whether an accept is outstanding.
pub record IsSlot (i : ℕ) (b : Bool) (s : Session) : Type 0 where
  pub own_index : s.index ≡ pos i
  pub idle : b ≡ true → s.is_activated ≡ false
  pub stamp : b ≡ true → s.latest_conn_closed ≡ uint64_max
  pub op : b ≡ true → s.accept_overlapped.op_type ≡ accept
  pub names : b ≡ true → s.accept_overlapped.session_idx ≡ pos i

-- The pool with such slots, and a network with it.
abbrev pub Slots : (ℕ → Bool) → List Session → Type 0
Slots p = Each (λ i s. IsSlot i (p i) s) max_session_cnt

abbrev pub HasSlots : (ℕ → Bool) → Network → Type 0
HasSlots p n = Slots p n.session_list

close_session-IsSlot :
    (t i : ℕ) (b : Bool) (s : Session) → IsSlot i b s → IsSlot i b (close_session t s)
unfolding close_session clear_session
close_session-IsSlot t i b s v = record {
  own_index = ground (arith, v.own_index);
  idle = λ e. ground (arith, v.idle e);
  stamp = λ e. ground (arith, v.idle e);
  op = λ e. ground (arith, v.op e);
  names = λ e. ground (arith, v.names e);
}

bind_recv-IsSlot :
    (r : Session.RecvReply) (i : ℕ) (b : Bool) (s : Session)
    → IsSlot i b s
    → IsSlot i b (bind_recv r s).1
unfolding bind_recv Session.set_recv_overlapped
bind_recv-IsSlot r i b s v = record {
  own_index = v.own_index;
  idle = v.idle;
  stamp = v.stamp;
  op = v.op;
  names = v.names;
}

bind_send-IsSlot :
    (r : SendReply) (i : ℕ) (b : Bool) (s : Session) → IsSlot i b s → IsSlot i b (bind_send r s).2
unfolding bind_send
bind_send-IsSlot r i b s v = record {
  own_index = ground (arith, v.own_index);
  idle = λ e. ground (arith, v.idle e);
  stamp = λ e. ground (arith, v.stamp e);
  op = λ e. ground (arith, v.op e);
  names = λ e. ground (arith, v.names e);
}

activate-IsSlot :
    (i : ℕ) (b : Bool) (s : Session) → b ≡ false → IsSlot i b s → IsSlot i b (activate s)
unfolding activate
activate-IsSlot i b s off v = record {
  own_index = v.own_index;
  idle = λ e. absurd (ground (arith, off, e));
  stamp = v.stamp;
  op = v.op;
  names = v.names;
}

sent-IsSlot :
    (i : ℕ) (b : Bool) (s : Session) → IsSlot i b s → IsSlot i b (record s { is_sending = false })
sent-IsSlot i b s v = record {
  own_index = v.own_index;
  idle = v.idle;
  stamp = v.stamp;
  op = v.op;
  names = v.names;
}

enqueue_send-IsSlot :
    (bytes : List ℕ) (i : ℕ) (b : Bool) (s : Session)
    → IsSlot i b s
    → IsSlot i b (enqueue_send_data bytes s).1
unfolding enqueue_send_data
enqueue_send-IsSlot bytes i b s v = record {
  own_index = v.own_index;
  idle = v.idle;
  stamp = v.stamp;
  op = v.op;
  names = v.names;
}

-- A slot is only activated when no accept is outstanding for it.
slots-IsKept : (p : ℕ → Bool) → IsKept (λ i s. IsSlot i (p i) s) max_session_cnt (λ i. p i ≡ false)
slots-IsKept p = record {
  closed = λ t i s. close_session-IsSlot t i (p i) s;
  received = λ r i s. bind_recv-IsSlot r i (p i) s;
  bound = λ r i s. bind_send-IsSlot r i (p i) s;
  sent = λ i s. sent-IsSlot i (p i) s;
  queued = λ bytes i s. enqueue_send-IsSlot bytes i (p i) s;
  activated = λ i s. activate-IsSlot i (p i) s;
}

-- The lemmas on every operation, for the slots.
module _ (p : ℕ → Bool) where
  pub set-Slots :
      (ss : List Session) (i : ℕ) (s' : Session)
      → Slots p ss
      → IsSlot i (p i) s'
      → Slots p (set ss i s')
  set-Slots = set-Each (λ i s. IsSlot i (p i) s) max_session_cnt

  pub worker_round-HasSlots :
      (w : Replies) (c : Completion) (n : Network)
      → ((i : ℕ) (j : ℤ)
          → c.overlapped ≡ some (accept, j)
          → get_session_by_idx j ≡ some i
          → p i ≡ false)
      → HasSlots p n
      → Ensures (λ r. HasSlots p r.1) (worker_round w c n)
  worker_round-HasSlots =
      worker_round-HasEach (λ i s. IsSlot i (p i) s) max_session_cnt (λ i. p i ≡ false)
        (slots-IsKept p)

  pub sender_visit-HasSlots :
      (t : ℕ) (reply : SendReply) (i : ℕ) (n : Network)
      → HasSlots p n
      → Ensures (HasSlots p) (sender_visit t reply i n)
  sender_visit-HasSlots =
      sender_visit-HasEach (λ i s. IsSlot i (p i) s) max_session_cnt (λ i. p i ≡ false)
        (slots-IsKept p)

  pub send_packet-HasSlots :
      (j : ℤ) (bytes : List ℕ) (n : Network)
      → HasSlots p n
      → Ensures (HasSlots p) (send_packet j bytes n)
  send_packet-HasSlots =
      send_packet-HasEach (λ i s. IsSlot i (p i) s) max_session_cnt (λ i. p i ≡ false)
        (slots-IsKept p)
