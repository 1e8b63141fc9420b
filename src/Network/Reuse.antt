-- ===== src/Network/Reuse.antt =====
-- When the slot of a closed session is offered to a new connection: `CloseSocket` and
-- `AccepterThread`.
use iocp_chatting.Config.{session_reuse_seconds}
use iocp_chatting.Session.{Session, AcceptReply, uint64_max, invalid_socket, bind_accept}
use iocp_chatting.Network.{close_session, clear_session, accepter_visit}
use iocp_chatting.ErrorHandler.{handle_socket}
use iocp_chatting.Prelude.{
  ◌+◌, ◌≢◌, pos, ℕ, ◌-◌, ◌≤◌, ◌<◌, ◌≡◌, true, false, arith, leb, if◌then◌else◌,
}

-- `CloseSocket` on a session in use puts it out of use, empties its send ring, allows sends again and
-- stamps it with the time.
pub close_session_active :
    (t : ℕ) (s : Session)
    → s.is_activated ≡ true
    → let s' = close_session t s in
      (s'.is_activated ≡ false)
      × (s'.is_sending ≡ false)
      × (s'.socket ≡ invalid_socket)
      × (s'.latest_conn_closed ≡ t)
unfolding close_session clear_session
close_session_active t s on = ground arith

-- A session closed once is offered again exactly when more than five seconds have gone by: before
-- that the pass of `AccepterThread` leaves it alone, and after it the pass binds an accept to it.
pub closed_once_reused :
    (t now : ℕ) (reply : AcceptReply) (s : Session)
    → s.is_activated ≡ true
    → t ≤ now
    → let s' = close_session t s in
      accepter_visit now reply s'
      ≡ (if leb (now - t) session_reuse_seconds then s' else (bind_accept reply s').1)
unfolding close_session clear_session accepter_visit
closed_once_reused t now reply s on le = ground arith

-- A session closed a second time before it is bound again is lost: no pass of `AccepterThread`, at any
-- time below the largest 64-bit value, changes it.
pub closed_twice_lost :
    (t t' now : ℕ) (reply : AcceptReply) (s : Session)
    → s.is_activated ≡ true
    → now < uint64_max
    → let s' = close_session t' (close_session t s) in accepter_visit now reply s' ≡ s'
unfolding close_session clear_session accepter_visit
closed_twice_lost t t' now reply s on lt = ground arith

-- A session out of use that an accept is bound to is bound once: while it stays so, no later pass of
-- `AccepterThread` changes it, at any time below the largest 64-bit value.
pub bound_once :
    (now : ℕ) (reply reply' : AcceptReply) (s : Session)
    → s.is_activated ≡ false
    → now < uint64_max
    → let s' = (bind_accept reply s).1 in accepter_visit now reply' s' ≡ s'
unfolding accepter_visit bind_accept
bound_once now reply reply' s off lt = ground arith

-- A session on offer whose `AcceptEx` fails, with any error code, is lost: `BindAccept` reports a
-- success, the session stays out of use, and no later visit of `AccepterThread`, at any time below
-- the largest 64-bit value, offers it again.
pub failed_accept_lost :
    (now now' : ℕ) (reply reply' : AcceptReply) (s : Session)
    → s.is_activated ≡ false
    → s.latest_conn_closed + session_reuse_seconds < now
    → reply.socket ≢ invalid_socket
    → reply.accept_ret ≡ pos 0
    → now' < uint64_max
    → let s' = accepter_visit now reply s in
      ((bind_accept reply s).0 ≡ true)
      × (s' ≡ (bind_accept reply s).1)
      × (s'.is_activated ≡ false)
      × (accepter_visit now' reply' s' ≡ s')
unfolding accepter_visit bind_accept handle_socket
failed_accept_lost now now' reply reply' s off free ok failed lt = ground arith
