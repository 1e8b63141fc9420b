-- ===== src/Network/Runs.antt =====
-- The runs of the network: the rounds of the worker threads, the visits of the accepter and of the
-- sender thread, what the system writes into the receive buffers, and the calls of `SendPacket`, in
-- any order. `pending` says for which sessions the system owes the completion of an accept. Each is one step: races inside one are left out.
pub mod Visit
pub mod Steps
pub mod Exact
pub mod Rings
use native.Mathlib.Decide.{ℕ_discrete}
use mathlib.Core.Option.{some-injective}
use iocp_chatting.Config.{max_session_cnt, session_reuse_seconds}
use iocp_chatting.Session
use iocp_chatting.Session.{
  Session, SendReply, AcceptReply, uint64_max, invalid_socket, io_pending, accept, IoOperation,
  bind_accept, bind_send, enqueue_send_data,
}
use iocp_chatting.Network.{
  Network, Completion, Replies, worker_round, accepter_visit, sender_visit, send_packet,
  get_session_by_idx, init_session_pool, init_sessions, close_socket, update_session,
}
use iocp_chatting.Network.Active.{active, Counts, same-Counts}
use iocp_chatting.Network.Count.{AcceptsIdle, worker_round-Counts, sender_visit-Counts}
use iocp_chatting.Prelude.{
  ℕ, zero, suc, ◌+◌, ◌-◌, ◌≤◌, ◌<◌, ◌≡◌, ◌≢◌, refl, sym, ap, ◌∙◌, subst, Bool, true, false, not,
  ◌&&◌, ◌||◌, Option, none, some, List, [], ◌∷◌, length, get_elem?, set, length-set,
  get_elem?-set_cases, ◌==◌, ltb, leb, if◌then◌else◌, Bool-cases, Option-cases, inl, inr, ℤ, pos,
  negsuc, Ensures, Ensures->>=, Ensures-of_eq, Ensures-if, Ensures-some, arith,
}

-- The network, and the accepts that are outstanding.
pub record System : Type 0 where
  pub net : Network
  pub pending : ℕ → Bool

abbrev pub mark : Bool → ℕ → (ℕ → Bool) → ℕ → Bool
mark b i p j = if i == j then b else p j

-- The tests of `AccepterThread` in front of `BindAccept`.
abbrev pub offered : ℕ → Session → Bool
offered now s =
    not s.is_activated
    && not (ltb now s.latest_conn_closed)
    && not (leb (now - s.latest_conn_closed) session_reuse_seconds)

-- `AcceptEx` was called, and a completion will come.
abbrev pub started : AcceptReply → Bool
started reply =
    not (reply.socket == invalid_socket)
    && (not (elim reply.accept_ret [ pos k ↦ k == 0 | negsuc k ↦ false ])
        || reply.code == io_pending)

-- What the system writes into the buffer that `WSARecv` was handed.
abbrev pub filled : ℕ → List ℕ → Session → Network → Network
filled i bytes s n = record n {
  session_list = set n.session_list i (record s { recv_buf = bytes });
}

abbrev pub visited : ℕ → ℕ → AcceptReply → Session → System → System
visited now i reply s y = record {
  net = record (y.net) { session_list = set y.net.session_list i (accepter_visit now reply s) };
  pending = if offered now s && started reply then mark true i y.pending else y.pending;
}

pub data Step (y : System) : System → Type 0 where
  -- A completion of a receive or a send, of none, or the message to end.
  io :
      (w : Replies) (c : Completion) {go : Bool} {n : Network}
      → ((j : ℤ) → c.overlapped ≢ some (accept, j))
      → worker_round w c y.net ≡ some (go, n)
      → Step y (record y { net = n })
  -- The completion of an outstanding accept, with the `OverlappedEx` of its session.
  accepted :
      (w : Replies) (c : Completion) {go : Bool} {n : Network} (i : ℕ) (s : Session)
      → y.pending i ≡ true
      → get_elem? y.net.session_list i ≡ some s
      → c.overlapped ≡ some (s.accept_overlapped.op_type, s.accept_overlapped.session_idx)
      → worker_round w c y.net ≡ some (go, n)
      → Step y (record { net = n; pending = mark false i y.pending })
  visit :
      (now : ℕ) (reply : AcceptReply) (i : ℕ) (s : Session)
      → now < uint64_max
      → get_elem? y.net.session_list i ≡ some s
      → Step y (visited now i reply s y)
  flush :
      (t : ℕ) (reply : SendReply) (i : ℕ) {n : Network}
      → sender_visit t reply i y.net ≡ some n
      → Step y (record y { net = n })
  fill :
      (i : ℕ) (bytes : List ℕ) (s : Session)
      → length bytes ≡ length s.recv_buf
      → get_elem? y.net.session_list i ≡ some s
      → Step y (record y { net = filled i bytes s y.net })
  push :
      (j : ℤ) (bytes : List ℕ) {n : Network}
      → send_packet j bytes y.net ≡ some n
      → Step y (record y { net = n })

pub data Runs (y : System) : System → Type 0 where
  here : Runs y y
  next : {z u : System} → Runs y z → Step z u → Runs y u

-- The network as the constructor and `InitSessionPool` leave it, for the storages of the buffers.
abbrev pub started_with : (listen_socket iocp : ℕ) → List (List ℕ × List ℕ) → System
started_with listen_socket iocp raws = record {
  net = init_session_pool raws (record {
    listen_socket = listen_socket;
    current_session_cnt = 0;
    session_list = [];
    iocp = iocp;
    events = [];
  });
  pending = λ i. false;
}
