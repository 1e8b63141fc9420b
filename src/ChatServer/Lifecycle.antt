-- ===== src/ChatServer/Lifecycle.antt =====
-- Starting and ending the server: `ChatServer::Start` and `Terminate` (Content/chat_server.cpp) with
-- those of the packet thread (Content/packet_manager.cpp) and of the Redis thread
-- (Content/redis_manager.cpp), and `main` (IOCP_Chatting/host.cpp).
pub mod Begin
pub mod Ends
use iocp_chatting.Config.{redis_thread_cnt}
use iocp_chatting.PacketManager
use iocp_chatting.PacketManager.{State}
use iocp_chatting.Network.{Replies, Event, received, disconnected}
use iocp_chatting.Network.Lifecycle
use iocp_chatting.Network.Lifecycle.{Threads, StartReplies}
use iocp_chatting.ChatServer.{on_connect, on_recv, on_disconnect}
use iocp_chatting.Prelude.{
  ℕ, zero, suc, ◌+◌, Bool, true, false, Option, none, some, List, [], ◌∷◌, if◌then◌else◌, ◌>>=◌,
}

-- Where the packet thread is: not there, created and not yet at its first statement, in its loop, or
-- at its end.
pub data Phase : Type 0 where
  absent created looping ended : Phase

pub record RedisThreads : Type 0 where
  pub is_running : Bool
  pub workers : ℕ
  pub login_bound : Bool

-- `managers_set`: the pointers `p_ref_..._manager_` of the packet manager are set.
pub record Server : Type 0 where
  pub threads : Threads
  pub is_server_running : Bool
  pub managers_set : Bool
  pub logic : State
  pub packet_thread : Phase
  pub is_thread_running : Bool
  pub redis : RedisThreads

-- `RedisManager::Init`, with what `redis_client_.Initialize` gives.
unfoldable pub redis_init : Bool → RedisThreads → Bool × RedisThreads
redis_init connected r = if connected then (true, record r { login_bound = true }) else (false, r)

unfoldable pub redis_run : ℕ → RedisThreads → RedisThreads
redis_run max_thread_cnt r = record r { is_running = true; workers = r.workers + max_thread_cnt }

unfoldable pub redis_start : Bool → RedisThreads → Bool × RedisThreads
redis_start connected r =
    let (ok, r') = redis_init connected r in
    if ok then (true, redis_run redis_thread_cnt r') else (false, r')

-- Every worker leaves its loop when it next tests the flag.
unfoldable pub redis_terminate : RedisThreads → RedisThreads
redis_terminate r = record r { is_running = false; workers = 0 }

-- `SetManagers`, `Init` and `Run`, over the storages of the users' rings. What is in the queues by then
-- stays there.
unfoldable pub packet_manager_start : List (List ℕ) → Server → Server
packet_manager_start raws y = record y {
  managers_set = true;
  logic = record (PacketManager.init raws) {
    incoming_packet_user_index_queue = y.logic.incoming_packet_user_index_queue;
    system_packet_queue = y.logic.system_packet_queue;
  };
  packet_thread = created;
}

-- A delegate that a worker thread calls. `EnqueuePacket` reads the pointer to the user manager.
unfoldable pub report : Event → Server → Option Server
report (received i bytes) y =
    if y.managers_set then (do l ← on_recv i bytes y.logic; some (record y { logic = l })) else none
report (Event.connected i) y = some (record y { logic = on_connect i y.logic })
report (disconnected i) y = some (record y { logic = on_disconnect i y.logic })

unfoldable pub report_all : List Event → Server → Option Server
report_all [] y = some y
report_all (e ∷ es) y = do y' ← report e y; report_all es y'

-- One step of the packet thread. Its first statement sets the flag, and each round of its loop tests
-- it. What the rounds do is `Dispatch.process_round`.
unfoldable pub thread_step : Server → Server
thread_step y = elim y.packet_thread [
  | absent ↦ y
  | created ↦ record y { packet_thread = looping; is_thread_running = true }
  | looping ↦ if y.is_thread_running then y else record y { packet_thread = ended }
  | ended ↦ y
]

-- A call that returns, one that waits for a thread still after the steps given, or a fault.
pub data Result : Type 0 where
  returned : Server → Result
  waiting fault : Result

abbrev pub has_ended : Phase → Bool
has_ended absent = true
has_ended created = false
has_ended looping = false
has_ended ended = true

-- The join of the packet thread, for so many steps of it.
unfoldable pub join_thread : ℕ → Server → Result
join_thread zero y = if has_ended y.packet_thread then returned y else waiting
join_thread (suc n) y =
    let rest = join_thread n (thread_step y) in
    if has_ended y.packet_thread then returned y else rest

unfoldable pub destroy_packet_process_thread : ℕ → Server → Result
destroy_packet_process_thread n y = join_thread n (record y { is_thread_running = false })

-- `PacketManager::Terminate` reads the pointer to the Redis manager.
unfoldable pub packet_manager_terminate : ℕ → Server → Result
packet_manager_terminate n y =
    if y.managers_set
    then destroy_packet_process_thread n
        (record y { redis = redis_terminate y.redis; is_thread_running = false })
    else fault

-- The part of `ChatServer::Start` behind `network_.Start()`. What `redis_manager_.Start` returns is
-- dropped.
unfoldable pub start_content : Bool → List (List ℕ) → Server → Server
start_content connected user_raws y =
    let y' = packet_manager_start user_raws y in
    record y' { redis = (redis_start connected y'.redis).1 }

-- The test of what `network_.Start()` returns, and what follows it.
unfoldable pub start_if : Bool → Bool → List Event → List (List ℕ) → Server → Option (Bool × Server)
start_if false connected early user_raws y = some (false, y)
start_if true connected early user_raws y = do
  y' ← report_all early y
  some (true, start_content connected user_raws y')

-- `ChatServer::Start`, with what the worker threads report while it is between `network_.Start()`,
-- which starts them, and `packet_manager_.Start`.
unfoldable pub start :
    StartReplies
    → Bool
    → List Event
    → List (List ℕ × List ℕ)
    → List (List ℕ)
    → Server
    → Option (Bool × Server)
start r connected early session_raws user_raws y = do
  t ← Lifecycle.start r session_raws y.threads
  start_if t.0 connected early user_raws (record y { is_server_running = true; threads = t.1 })

abbrev stopped : Result → Result
stopped (returned y) = returned (record y { is_server_running = false })
stopped waiting = waiting
stopped fault = fault

abbrev terminate_content : ℕ → Server → Option Threads → Result
terminate_content n y none = fault
terminate_content n y (some t) = stopped (packet_manager_terminate n (record y { threads = t }))

-- `ChatServer::Terminate`, for so many rounds of the workers and steps of the packet thread.
unfoldable pub terminate : ℕ → (ℕ → Replies) → ℕ → Server → Result
terminate fuel w n y = terminate_content n y (Lifecycle.terminate fuel w y.threads)

-- `main` up to its loop, which goes on while the flag says that the server runs.
unfoldable pub host_start :
    StartReplies
    → Bool
    → List Event
    → List (List ℕ × List ℕ)
    → List (List ℕ)
    → Server
    → Option Server
host_start r connected early session_raws user_raws y = do
  s ← start r connected early session_raws user_raws y
  some s.1

abbrev pub and_then : Result → (Server → Result) → Result
and_then (returned y) f = f y
and_then waiting f = waiting
and_then fault f = fault

-- The loop of `main` over the keys that are read, where true stands for "q" and "Q".
unfoldable pub host_loop : ℕ → (ℕ → Replies) → ℕ → List Bool → Server → Result
host_loop fuel w n [] y = returned y
host_loop fuel w n (quit ∷ keys) y =
    if y.is_server_running
    then and_then (if quit then terminate fuel w n y else returned y) (host_loop fuel w n keys)
    else returned y
