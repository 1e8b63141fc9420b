-- ===== src/Session.antt =====
-- Network/session.h, session.cpp and overlapped_ex_define.h: one slot of the session pool. What the
-- socket calls answer is an argument. `send_lock_` makes each method that takes it one step.
-- `accept_buf_` is only handed to the system.
pub mod Send
pub mod Stream
pub mod Accept
use iocp_chatting.Config.{session_recv_buf_size}
use iocp_chatting.ErrorHandler.{handle_socket}
use iocp_chatting.Ring
use iocp_chatting.Ring.{RingBuffer}
use iocp_chatting.Prelude.{
  ℕ, ◌-◌, ◌^◌, Bool, true, false, List, [], ◌∷◌, ltb, ◌==◌, if◌then◌else◌, ℤ, negsuc,
}

abbrev pub uint64_max : ℕ
uint64_max = 2 ^ 64 - 1

abbrev pub invalid_socket : ℕ
invalid_socket = 2 ^ 64 - 1

-- `ERROR_IO_PENDING`, which is `WSA_IO_PENDING` too.
abbrev pub io_pending : ℕ
io_pending = 997

pub data IoOperation : Type 0 where
  no_op accept recv send : IoOperation

-- `WSABUF`: the bytes from the pointer on, and the length.
pub record WsaBuf : Type 0 where
  pub buf : List ℕ
  pub len : ℕ

-- `OverlappedEx` without the system's `WSAOVERLAPPED`.
pub record OverlappedEx : Type 0 where
  pub session_idx : ℤ
  pub socket : ℕ
  pub wsa_buf : WsaBuf
  pub op_type : IoOperation

-- An `OverlappedEx` of zero bytes, as `ZeroMemory` leaves it.
abbrev pub zero_overlapped : OverlappedEx
zero_overlapped = record {
  session_idx = ℤ.pos 0;
  socket = 0;
  wsa_buf = record { buf = []; len = 0 };
  op_type = no_op;
}

pub record Session : Type 0 where
  pub index : ℤ
  pub socket : ℕ
  pub recv_buf : List ℕ
  pub send_buf : RingBuffer
  pub is_activated : Bool
  pub is_sending : Bool
  pub accept_overlapped : OverlappedEx
  pub recv_overlapped : OverlappedEx
  pub send_overlapped : OverlappedEx
  pub latest_conn_closed : ℕ

-- `Session()` over the uninitialised storages of its two buffers.
abbrev pub fresh : List ℕ → List ℕ → Session
fresh recv_raw send_raw = record {
  index = negsuc 0;
  socket = invalid_socket;
  recv_buf = recv_raw;
  send_buf = Ring.init send_raw;
  is_activated = false;
  is_sending = false;
  accept_overlapped = record zero_overlapped { session_idx = negsuc 0; socket = invalid_socket };
  recv_overlapped = record zero_overlapped { session_idx = negsuc 0; socket = invalid_socket };
  send_overlapped = record zero_overlapped { session_idx = negsuc 0; socket = invalid_socket };
  latest_conn_closed = uint64_max;
}

unfoldable pub init : ℤ → Session → Session
init idx s = record s {
  index = idx;
  accept_overlapped = zero_overlapped;
  recv_overlapped = zero_overlapped;
  send_overlapped = zero_overlapped;
  socket = invalid_socket;
  latest_conn_closed = 0;
}

unfoldable pub activate : Session → Session
activate s = record s {
  recv_overlapped = zero_overlapped;
  send_overlapped = zero_overlapped;
  is_activated = true;
  send_buf = Ring.clear_buffer s.send_buf;
}

pub set_accept_overlapped : Session → Session
set_accept_overlapped s = record s {
  accept_overlapped = record {
    session_idx = s.index;
    socket = s.socket;
    wsa_buf = record { buf = []; len = 0 };
    op_type = accept;
  };
}

-- What `WSASocket` and `AcceptEx` give. `AcceptEx` returns a `BOOL`, which is an `int`.
pub record AcceptReply : Type 0 where
  pub socket : ℕ
  pub accept_ret : ℤ
  pub code : ℕ

-- `ErrorHandler::Handle(accept_ret, ...)` takes the `int32_t` overload, which a `BOOL` fits exactly.
unfoldable pub bind_accept : AcceptReply → Session → Bool × Session
unfolding set_accept_overlapped
bind_accept reply s =
    let s' : Session = record s { latest_conn_closed = uint64_max; socket = reply.socket } in
    if reply.socket == invalid_socket
    then (false, s')
    else (handle_socket reply.accept_ret reply.code (io_pending ∷ []), set_accept_overlapped s')

-- The `WSABUF`s of a send, as many as `buffer_cnt` says.
pub set_wsa_buf : Session → List WsaBuf
set_wsa_buf s =
    let span = Ring.get_continuous_dequeue_size s.send_buf in
    let used = Ring.get_size_in_use s.send_buf in
    let front : WsaBuf = record { buf = Ring.get_front_buffer_ptr s.send_buf; len = span } in
    let wrapped : WsaBuf = record { buf = Ring.get_buffer_ptr s.send_buf; len = used - span } in
    if ltb span used then front ∷ wrapped ∷ [] else front ∷ []

pub set_send_overlapped : Session → List WsaBuf × Session
set_send_overlapped s = (
  set_wsa_buf s,
  record s { send_overlapped = record (s.send_overlapped) { socket = s.socket; op_type = send } },
)

-- What `WSASend` gives: its result, the error code, and the number of bytes sent at once.
pub record SendReply : Type 0 where
  pub send_ret : ℤ
  pub code : ℕ
  pub sent_bytes : ℕ

-- The result, the buffers handed to `WSASend` (none if a send is under way), and the session.
unfoldable pub bind_send : SendReply → Session → Bool × List WsaBuf × Session
unfolding set_send_overlapped
bind_send reply s =
    let s₁ : Session = record s { is_sending = true } in
    let posted = set_send_overlapped s₁ in
    if s.is_sending
    then (true, [], s)
    else if handle_socket reply.send_ret reply.code (io_pending ∷ [])
    then (
      true,
      posted.0,
      record (posted.1) { send_buf = Ring.move_front s.send_buf reply.sent_bytes },
    )
    else (false, posted.0, posted.1)

unfoldable pub set_recv_overlapped : Session → Session
set_recv_overlapped s = record s {
  recv_overlapped = record (s.recv_overlapped) {
    socket = s.socket;
    wsa_buf = record { buf = s.recv_buf; len = session_recv_buf_size };
    op_type = recv;
  };
}

-- What `WSARecv` gives.
pub record RecvReply : Type 0 where
  pub recv_ret : ℤ
  pub code : ℕ

unfoldable pub bind_recv : RecvReply → Session → Bool × Session
unfolding set_recv_overlapped
bind_recv reply s =
    (handle_socket reply.recv_ret reply.code (io_pending ∷ []), set_recv_overlapped s)

unfoldable pub enqueue_send_data : List ℕ → Session → ℤ × Session
enqueue_send_data bytes s =
    let (n, buf) = Ring.enqueue s.send_buf bytes in (n, record s { send_buf = buf })

unfoldable pub clear_send_buffer : Session → Session
clear_send_buffer s = record s { send_buf = Ring.clear_buffer s.send_buf }

unfoldable pub has_send_data : Session → Bool
has_send_data s = ltb 0 (Ring.get_size_in_use s.send_buf)

unfoldable pub set_connection_closed_time : ℕ → Session → Session
set_connection_closed_time time s = record s { latest_conn_closed = time }

unfoldable pub set_socket : ℕ → Session → Session
set_socket socket s = record s { socket = socket }
