-- ===== src/Network.antt =====
-- Network/network.h and network.cpp: the session pool and the completions that the worker threads
-- handle. A `Session*` is the number of the session in the pool, or `none` for NULL. The callbacks
-- are recorded as events, oldest first. What the system answers and the clock are arguments; `none`
-- as a result is a dereference of NULL.
pub mod Reuse
pub mod Active
pub mod Count
pub mod Slots
pub mod Runs
pub mod Total
pub mod Rings
pub mod Each
pub mod Lifecycle
use iocp_chatting.Config.{max_session_cnt, session_reuse_seconds}
use iocp_chatting.ErrorHandler.{handle_handle}
use iocp_chatting.Session
use iocp_chatting.Session.{
  Session, AcceptReply, SendReply, RecvReply, WsaBuf, uint64_max, invalid_socket, IoOperation,
  no_op, accept, recv, send,
}
use iocp_chatting.Prelude.{
  ◌>>=◌, ℕ, ◌+◌, ◌-◌, ◌%◌, ◌^◌, Bool, true, false, ◌&&◌, ◌||◌, not, Option, none, some, List, [],
  ◌∷◌, ◌++◌, ltb, leb, ◌==◌, if◌then◌else◌, get_elem?, set, take, ℤ, pos, negsuc,
}

-- The calls of `OnConnect`, `OnRecv` and `OnDisconnect`.
pub data Event : Type 0 where
  connected : ℤ → Event
  received : ℤ → List ℕ → Event
  disconnected : ℤ → Event

pub record Network : Type 0 where
  pub listen_socket : ℕ
  pub current_session_cnt : ℕ
  pub session_list : List Session
  pub iocp : ℕ
  pub events : List Event

-- The sessions of the loop of `InitSessionPool` from the index `i` on.
unfoldable pub init_sessions : ℕ → List (List ℕ × List ℕ) → List Session
init_sessions i [] = []
init_sessions i ((recv_raw, send_raw) ∷ raws) =
    Session.init (pos i) (Session.fresh recv_raw send_raw) ∷ init_sessions (i + 1) raws

unfoldable pub init_session_pool : List (List ℕ × List ℕ) → Network → Network
init_session_pool raws n = record n { session_list = init_sessions 0 raws }

-- The range check of `SendPacket` and `GetSessionByIdx`.
unfoldable pub get_session_by_idx : ℤ → Option ℕ
get_session_by_idx (pos i) = if leb max_session_cnt i then none else some i
get_session_by_idx (negsuc i) = none

-- A method called through a `Session*`.
unfoldable pub update_session : ℕ → (Session → Session) → Network → Option Network
update_session i f n = do
  s ← get_elem? n.session_list i
  some (record n { session_list = set n.session_list i (f s) })

-- The number of bytes taken is dropped.
unfoldable pub send_packet : ℤ → List ℕ → Network → Option Network
send_packet session_idx bytes n = elim (get_session_by_idx session_idx) [
  | none ↦ some n
  | some i ↦ update_session i (λ s. (Session.enqueue_send_data bytes s).1) n
]

unfoldable pub clear_session : ℕ → Session → Session
unfolding Session.set_socket Session.clear_send_buffer Session.set_connection_closed_time
clear_session cur_time s =
    Session.set_connection_closed_time cur_time
      (record (Session.clear_send_buffer (Session.set_socket invalid_socket s)) {
        is_sending = false;
      })

-- The compare-and-exchange of `CloseSocket` and what follows it, on the session.
unfoldable pub close_session : ℕ → Session → Session
close_session cur_time s =
    let s₁ = Session.set_connection_closed_time uint64_max s in
    let s₂ : Session = record s₁ { is_activated = false } in
    if s.is_activated then clear_session cur_time s₂ else s₁

-- `--current_session_cnt_` on 32 bits, if the exchange succeeded.
unfoldable pub close_socket : ℕ → Option ℕ → Network → Option Network
close_socket cur_time none n = some n
close_socket cur_time (some i) n = do
  s ← get_elem? n.session_list i
  let cnt = (n.current_session_cnt + (2 ^ 32 - 1)) % 2 ^ 32
  some (record n {
    session_list = set n.session_list i (close_session cur_time s);
    current_session_cnt = if s.is_activated then cnt else n.current_session_cnt;
  })

unfoldable pub emit : Event → Network → Network
emit e n = record n { events = n.events ++ (e ∷ []) }

-- What `GetQueuedCompletionStatus` gives. `overlapped` is the operation and the session index of the
-- `OverlappedEx`, or nothing for NULL.
pub record Completion : Type 0 where
  pub session : Option ℕ
  pub gqcs_ret : Bool
  pub io_size : ℕ
  pub overlapped : Option (IoOperation × ℤ)

unfoldable pub terminate_msg : Completion → Bool
terminate_msg c = c.gqcs_ret && c.io_size == 0 && elim c.overlapped [ none ↦ true | some _ ↦ false ]

abbrev pub is_accept : IoOperation → Bool
is_accept accept = true
is_accept no_op = false
is_accept recv = false
is_accept send = false

unfoldable pub session_exited : Completion → Bool
session_exited c =
    not c.gqcs_ret
    || elim c.overlapped [ none ↦ false | some (op, _) ↦ c.io_size == 0 && not (is_accept op) ]

-- What the calls made in the course of a completion answer, and the clock in seconds.
pub record Replies : Type 0 where
  pub cur_time : ℕ
  pub port_handle : ℕ
  pub recv_reply : RecvReply

-- The branch of `CheckGQCSResult` for a session that has ended.
unfoldable pub close_exited : Replies → Completion → Network → Option (Bool × Network)
close_exited w c n = do
  i ← c.session
  s ← get_elem? n.session_list i
  n' ← close_socket w.cur_time (some i) (emit (disconnected s.index) n)
  some (false, n')

-- The test of `CheckGQCSResult` for a NULL `OverlappedEx`.
unfoldable pub has_overlapped : Option (IoOperation × ℤ) → Bool
has_overlapped none = false
has_overlapped (some o) = true

unfoldable pub check_gqcs_result : Replies → Completion → Network → Option (Bool × Network)
check_gqcs_result w c n =
    if session_exited c then close_exited w c n else some (has_overlapped c.overlapped, n)

-- `BindRecv`, and `CloseSocket` if it fails.
unfoldable pub recv_or_close : Replies → ℕ → Network → Option Network
recv_or_close w i n = do
  s ← get_elem? n.session_list i
  let r = Session.bind_recv w.recv_reply s
  let n' : Network = record n { session_list = set n.session_list i r.1 }
  if r.0 then some n' else close_socket w.cur_time (some i) n'

unfoldable pub recv_completed : Replies → ℕ → ℕ → Network → Option Network
recv_completed w i io_size n = do
  s ← get_elem? n.session_list i
  recv_or_close w i (emit (received s.index (take io_size s.recv_buf)) n)

pub send_completed : ℕ → Network → Option Network
send_completed i n = update_session i (λ s. record s { is_sending = false }) n

-- `BindIOCompletionPort`.
unfoldable pub bind_io_completion_port : Replies → Network → Bool
bind_io_completion_port w n = handle_handle w.port_handle n.iocp

unfoldable pub accept_completed : Replies → ℤ → Network → Option Network
accept_completed w session_idx n = do
  i ← get_session_by_idx session_idx
  s ← get_elem? n.session_list i
  if bind_io_completion_port w n
      then (do
        n₁ ← update_session i Session.activate (emit (connected s.index) n)
        n₂ ← recv_or_close w i n₁
        some (record n₂ { current_session_cnt = (n₂.current_session_cnt + 1) % 2 ^ 32 }))
      else close_socket w.cur_time (some i) n

unfoldable pub dispatch_overlapped :
    Replies → Option ℕ → ℕ → IoOperation × ℤ → Network → Option Network
dispatch_overlapped w session io_size (recv, _) n = do i ← session; recv_completed w i io_size n
dispatch_overlapped w session io_size (send, _) n = do i ← session; send_completed i n
dispatch_overlapped w session io_size (accept, session_idx) n = accept_completed w session_idx n
dispatch_overlapped w session io_size (no_op, _) n = some n

unfoldable pub dispatch_if :
    Replies → Completion → Option (IoOperation × ℤ) → Network → Option Network
dispatch_if w c none n = some n
dispatch_if w c (some o) n = dispatch_overlapped w c.session c.io_size o n

unfoldable pub handle_completion : Replies → Completion → Network → Option Network
handle_completion w c n = do
  r ← check_gqcs_result w c n
  if r.0 then dispatch_if w c c.overlapped r.1 else some r.1

-- One round of the loop of `WorkerThread`. The result is false if the thread ends.
unfoldable pub worker_round : Replies → Completion → Network → Option (Bool × Network)
worker_round w c n =
    if terminate_msg c then some (false, n) else (handle_completion w c n >>= λ n'. some (true, n'))

-- The body of the loop of `AccepterThread` for one session.
unfoldable pub accepter_visit : ℕ → AcceptReply → Session → Session
accepter_visit cur_time reply s =
    if s.is_activated
    then s
    else if ltb cur_time s.latest_conn_closed
    then s
    else if leb (cur_time - s.latest_conn_closed) session_reuse_seconds
    then s
    else (Session.bind_accept reply s).1

-- One pass of `AccepterThread` over the pool, with the answers given for each session.
unfoldable pub accepter_pass : ℕ → (ℕ → AcceptReply) → ℕ → List Session → List Session
accepter_pass cur_time reply i [] = []
accepter_pass cur_time reply i (s ∷ ss) =
    accepter_visit cur_time (reply i) s ∷ accepter_pass cur_time reply (i + 1) ss

-- The body of the loop of `SenderThread` for one session.
unfoldable pub sender_visit : ℕ → SendReply → ℕ → Network → Option Network
sender_visit cur_time reply i n = do
  s ← get_elem? n.session_list i
  let r = Session.bind_send reply s
  let n' : Network = record n { session_list = set n.session_list i r.2 }
  let closed = close_socket cur_time (some i) n'
  if Session.has_send_data s then (if r.0 then some n' else closed) else some n
