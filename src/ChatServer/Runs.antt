-- ===== src/ChatServer/Runs.antt =====
-- The threads of the server together: the workers, the accepter and the sender of Network/network.cpp
-- and the packet thread and the Redis thread of Content, joined by the delegates of
-- `ChatServer::SetDelegate` (Content/chat_server.cpp). What a worker reports goes to the queues of the
-- chat logic, and what the packet thread sends goes to the send rings of the sessions. A turn of a
-- thread is one step.
pub mod Split
pub mod Turns
pub mod Receive
use iocp_chatting.Redis
use iocp_chatting.Session.{Session, AcceptReply, SendReply, uint64_max, accept}
use iocp_chatting.Network.{Network, Completion, Replies, worker_round, sender_visit}
use iocp_chatting.Network.Runs.{System, mark, visited, filled, started_with}
use iocp_chatting.PacketManager
use iocp_chatting.PacketManager.{State}
use iocp_chatting.Dispatch.{process_round}
use iocp_chatting.ChatServer.{deliver}
use iocp_chatting.ChatServer.Send.{send_all}
use iocp_chatting.Prelude.{
  ℕ, ◌<◌, ◌≡◌, ◌≢◌, Bool, true, false, Option, some, List, length, drop, get_elem?, ℤ, ◌>>=◌,
}

-- The network with its outstanding accepts, and the chat logic.
pub record Joined : Type 0 where
  pub system : System
  pub logic : State

-- A round of a worker thread: what it calls of the delegates is what it adds to the events.
unfoldable pub worker_turn :
    Replies → Completion → Network → State → Option (Bool × Network × State)
worker_turn w c n s = do
  r ← worker_round w c n
  t ← deliver (drop (length n.events) r.1.events) s
  some (r.0, r.1, t)

module _ (past_end : List ℕ → List ℕ) (type : ℕ) (stale : List ℕ) where
  -- A round of the packet thread: what it sends is what it adds to `sent`.
  unfoldable pub packet_turn : Network → State → Option (Network × State)
  packet_turn n s = do
    t ← process_round past_end s
    n' ← send_all type stale (drop (length s.sent) t.sent) n
    some (n', t)

  module _ (redis_get : List ℕ → Option (List ℕ)) where
    pub data Step (y : Joined) : Joined → Type 0 where
      -- A completion of a receive or a send, of none, or the message to end.
      worker_io :
          (w : Replies) (c : Completion) {go : Bool} {n : Network} {t : State}
          → ((j : ℤ) → c.overlapped ≢ some (accept, j))
          → worker_turn w c y.system.net y.logic ≡ some (go, n, t)
          → Step y (record { system = record (y.system) { net = n }; logic = t })
      -- The completion of an outstanding accept, with the `OverlappedEx` of its session.
      worker_accepted :
          (w : Replies) (c : Completion) {go : Bool} {n : Network} {t : State} (i : ℕ) (s : Session)
          → y.system.pending i ≡ true
          → get_elem? y.system.net.session_list i ≡ some s
          → c.overlapped ≡ some (s.accept_overlapped.op_type, s.accept_overlapped.session_idx)
          → worker_turn w c y.system.net y.logic ≡ some (go, n, t)
          → Step y (record {
            system = record { net = n; pending = mark false i y.system.pending };
            logic = t;
          })
      accepter :
          (now : ℕ) (reply : AcceptReply) (i : ℕ) (s : Session)
          → now < uint64_max
          → get_elem? y.system.net.session_list i ≡ some s
          → Step y (record y { system = visited now i reply s y.system })
      sender :
          (now : ℕ) (reply : SendReply) (i : ℕ) {n : Network}
          → sender_visit now reply i y.system.net ≡ some n
          → Step y (record y { system = record (y.system) { net = n } })
      filled_by_system :
          (i : ℕ) (bytes : List ℕ) (s : Session)
          → length bytes ≡ length s.recv_buf
          → get_elem? y.system.net.session_list i ≡ some s
          → Step y (record y { system = record (y.system) { net = filled i bytes s y.system.net } })
      packet :
          {n : Network} {t : State}
          → packet_turn y.system.net y.logic ≡ some (n, t)
          → Step y (record { system = record (y.system) { net = n }; logic = t })
      redis :
          {r : Redis.RedisManager}
          → Redis.process_task_round redis_get y.logic.redis ≡ some r
          → Step y (record y { logic = record (y.logic) { redis = r } })

    pub data Run (y : Joined) : Joined → Type 0 where
      here : Run y y
      next : {z u : Joined} → Run y z → Step z u → Run y u

-- Both parts as they are at their start, for the storages of the buffers.
abbrev pub joined_with : (listen_socket iocp : ℕ) → List (List ℕ × List ℕ) → List (List ℕ) → Joined
joined_with listen_socket iocp raws user_raws = record {
  system = started_with listen_socket iocp raws;
  logic = PacketManager.init user_raws;
}
