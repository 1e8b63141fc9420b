-- ===== src/ChatServer/Runs/Receive.antt =====
-- What a worker's turn does with a completed receive, from the session's buffer to the user's ring.
use iocp_chatting.Users
use iocp_chatting.User
use iocp_chatting.User.{User}
use iocp_chatting.Session.{Session, recv}
use iocp_chatting.Network
use iocp_chatting.Network.{close_exited, is_accept, Network, connected, disconnected, Completion}
use iocp_chatting.Prelude.{ℕ, true, some, ℤ}

-- A completed receive on session `k`.
abbrev pub received_by : ℕ → ℕ → ℤ → Completion
received_by k io_size j = record {
  session = some k;
  gqcs_ret = true;
  io_size = io_size;
  overlapped = some (recv, j);
}
