-- ===== src/Tests/Threads.antt =====
-- The start and the end of the network's threads.
use iocp_chatting.ErrorHandler
use iocp_chatting.Session
use iocp_chatting.Session.{Session, AcceptReply, accept}
use iocp_chatting.Network
use iocp_chatting.Network.{Network, Completion, Replies, worker_round}
use iocp_chatting.Network.Total.{Genuine}
use iocp_chatting.Network.Lifecycle.{Threads, StartReplies, start, terminate}
use iocp_chatting.Network.Lifecycle.Start.{start_lem}
use iocp_chatting.Network.Lifecycle.Shutdown.{AreGenuine, terminate_ends}
use iocp_chatting.Network.Runs.Exact.{length-init_sessions}
use iocp_chatting.Packet.{sys_user_connect}
use iocp_chatting.ChatServer.{system_packet}
use iocp_chatting.ChatServer.Lifecycle
use iocp_chatting.ChatServer.Lifecycle.{
  Server, absent, created, looping, ended, returned, waiting, packet_manager_terminate,
}
use iocp_chatting.ChatServer.Lifecycle.Begin.{IsIdle, start_server_lem, start_early_bytes_fault}
use iocp_chatting.ChatServer.Lifecycle.Ends.{packet_manager_terminate_lem}
use iocp_chatting.Tests.Sample.{raw_storages, fresh_state}
use iocp_chatting.Tests.Pool.{raw_pairs, raw_pairs-number, replies}
use iocp_chatting.Prelude.{
  ◌++◌, none, ◌≡◌, ◌∙◌, refl, true, false, some, [], ◌∷◌, pos, negsuc, arith,
}

abbrev idle_threads : Threads
idle_threads = record {
  net = record {
    listen_socket = 0;
    current_session_cnt = 0;
    session_list = [];
    iocp = 0;
    events = [];
  };
  workers = 0;
  accepter = false;
  sender = false;
  is_worker_running = true;
  is_accepter_running = true;
  is_sender_running = true;
  completions = [];
}

-- The port is taken: `bind` fails on four cores.
abbrev port_taken : StartReplies
port_taken = record {
  start_ret = 0;
  listen_socket = 4;
  iocp = 6;
  hardware_concurrency = 4;
  bind_ret = negsuc 0;
  bind_code = 10048;
  listen_ret = pos 0;
  listen_code = 0;
  port_handle = 6;
}

start_lem_example :
    (z : Threads) × (start port_taken raw_pairs idle_threads ≡ some (false, z))
    × (z.workers ≡ 9)
    × (z.accepter ≡ true)
    × (z.sender ≡ true)
unfolding ErrorHandler.handle_socket
start_lem_example = start_lem port_taken raw_pairs idle_threads (omega arith) refl refl refl

abbrev receive : Completion
receive = record {
  session = some 1;
  gqcs_ret = true;
  io_size = 5;
  overlapped = some (Session.recv, pos 0);
}

-- Three workers, and a receive of session 1 that waits.
abbrev busy_threads : Threads
busy_threads = record idle_threads {
  net = record (idle_threads.net) { session_list = Network.init_sessions 0 raw_pairs };
  workers = 3;
  accepter = true;
  sender = true;
  completions = receive ∷ [];
}

busy-AreGenuine : AreGenuine busy_threads.completions
busy-AreGenuine = (Genuine.of_session 1 Session.recv (pos 0) (omega arith) refl refl refl, tt)

terminate_ends_example :
    (z : Threads) × (terminate 5 (λ k. replies) busy_threads ≡ some z)
    × (z.workers ≡ 0)
    × (z.accepter ≡ false)
    × (z.sender ≡ false)
    × (z.net.session_list ≡ [])
terminate_ends_example =
    terminate_ends 5 (λ k. replies) busy_threads
      (length-init_sessions 0 raw_pairs ∙ raw_pairs-number) busy-AreGenuine (omega arith)

abbrev idle_server : Server
idle_server = record {
  threads = idle_threads;
  is_server_running = false;
  managers_set = false;
  logic = fresh_state;
  packet_thread = absent;
  is_thread_running = false;
  redis = record { is_running = false; workers = 0; login_bound = false };
}

idle_server-IsIdle : IsIdle idle_server
idle_server-IsIdle = record {
  no_workers = refl;
  no_accepter = refl;
  no_sender = refl;
  no_managers = refl;
  no_redis = refl;
}

-- Every call succeeds, but the Redis server is not there.
abbrev port_free : StartReplies
port_free = record port_taken { bind_ret = pos 0; bind_code = 0 }

start_server_lem_example :
    (z : Server) × (Lifecycle.start port_free false
        (Network.connected (pos 3) ∷ [])
        raw_pairs
        raw_storages
        idle_server
      ≡ some (true, z))
    × (z.is_server_running ≡ true)
    × (z.managers_set ≡ true)
    × (z.redis.workers ≡ 0)
    × (z.logic.system_packet_queue
        ≡ idle_server.logic.system_packet_queue ++ (system_packet sys_user_connect (pos 3) ∷ []))
unfolding ErrorHandler.handle_socket
start_server_lem_example =
    start_server_lem port_free false (Network.connected (pos 3) ∷ []) raw_pairs raw_storages
      idle_server (omega arith) idle_server-IsIdle tt

start_early_bytes_fault_example :
    Lifecycle.start port_free true
      (Network.connected (pos 3) ∷ Network.received (pos 3) (5 ∷ []) ∷ [])
      raw_pairs
      raw_storages
      idle_server
    ≡ none
unfolding ErrorHandler.handle_socket
start_early_bytes_fault_example =
    start_early_bytes_fault port_free true (Network.connected (pos 3) ∷ []) (pos 3) (5 ∷ []) []
      raw_pairs raw_storages idle_server (omega arith) idle_server-IsIdle refl tt

abbrev set_server : Server
set_server = record idle_server { managers_set = true; packet_thread = created }

packet_manager_terminate_lem_example :
    (set_server.packet_thread ≡ looping
      → (z : Server) × (packet_manager_terminate 8 set_server ≡ returned z)
        × (z.packet_thread ≡ ended)
        × (z.redis.workers ≡ 0))
    × (set_server.packet_thread ≡ created → packet_manager_terminate 7 set_server ≡ waiting)
packet_manager_terminate_lem_example = packet_manager_terminate_lem 7 set_server refl
