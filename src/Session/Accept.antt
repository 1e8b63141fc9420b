-- ===== src/Session/Accept.antt =====
-- `Session::BindAccept`: what it reports.
use iocp_chatting.ErrorHandler.{handle_socket}
use iocp_chatting.Session.{Session, AcceptReply, invalid_socket, uint64_max, accept, bind_accept}
use iocp_chatting.Prelude.{ℕ, ◌≡◌, ◌≢◌, true, arith, pos}

-- A call of `AcceptEx` that gives a `BOOL`, 0 for a failure, is always reported as a success, with
-- any error code, once the socket is there; and the session is left with the closing time that no
-- clock reaches.
pub bind_accept_hides_failure :
    (reply : AcceptReply) (s : Session) (bool : ℕ)
    → reply.socket ≢ invalid_socket
    → reply.accept_ret ≡ pos bool
    → let (result, s') = bind_accept reply s in
      (result ≡ true)
      × (s'.latest_conn_closed ≡ uint64_max)
      × (s'.is_activated ≡ s.is_activated)
      × (s'.accept_overlapped.op_type ≡ accept)
      × (s'.accept_overlapped.session_idx ≡ s.index)
unfolding bind_accept handle_socket
bind_accept_hides_failure reply s bool ne e = ground arith
