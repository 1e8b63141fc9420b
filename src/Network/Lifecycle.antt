-- ===== src/Network/Lifecycle.antt =====
-- Network/network.cpp and network.h: `Start` and `Terminate`, and the threads. The worker threads take
-- their completions from one queue. What the system answers is an argument; `none` is a fault of the
-- program.
pub mod Start
pub mod Shutdown
use iocp_chatting.ErrorHandler.{handle_socket, handle_handle}
use iocp_chatting.Session.{invalid_socket}
use iocp_chatting.Network
use iocp_chatting.Network.{Network, Completion, Replies, init_session_pool, worker_round}
use iocp_chatting.Prelude.{
  ℕ, zero, suc, ◌+◌, ◌-◌, ◌*◌, ◌%◌, ◌^◌, Bool, true, false, not, Option, none, some, List, [], ◌∷◌,
  ◌++◌, ◌==◌, if◌then◌else◌, ℤ, pos, negsuc, to_int32, ◌>>=◌,
}

-- The network with its threads: how many workers have not ended, and whether the other two have not.
pub record Threads : Type 0 where
  pub net : Network
  pub workers : ℕ
  pub accepter : Bool
  pub sender : Bool
  pub is_worker_running : Bool
  pub is_accepter_running : Bool
  pub is_sender_running : Bool
  pub completions : List Completion

-- What the calls of `Start` give: 0 for NULL, and each result with the error code behind it.
pub record StartReplies : Type 0 where
  pub start_ret : ℕ
  pub listen_socket : ℕ
  pub iocp : ℕ
  pub hardware_concurrency : ℕ
  pub bind_ret : ℤ
  pub bind_code : ℕ
  pub listen_ret : ℤ
  pub listen_code : ℕ
  pub port_handle : ℕ

unfoldable pub init_listen_socket : StartReplies → Threads → Bool × Threads
init_listen_socket r y =
    if r.start_ret == 0
    then (
      not (r.listen_socket == invalid_socket),
      record y { net = record (y.net) { listen_socket = r.listen_socket } },
    )
    else (false, y)

unfoldable pub create_iocp : StartReplies → Threads → Bool × Threads
create_iocp r y = (not (r.iocp == 0), record y { net = record (y.net) { iocp = r.iocp } })

-- `hardware_concurrency() * 2 + 1`, cut to 32 bits with a sign.
unfoldable pub get_max_worker_thread : ℕ → ℤ
get_max_worker_thread cores = to_int32 ((cores * 2 + 1) % 2 ^ 32)

-- `reserve` throws for a negative number.
abbrev pub emplace_workers : ℤ → Threads → Option Threads
emplace_workers (pos n) y = some (record y { workers = y.workers + n })
emplace_workers (negsuc n) y = none

unfoldable pub create_worker_thread : StartReplies → Threads → Option Threads
create_worker_thread r y = emplace_workers (get_max_worker_thread r.hardware_concurrency) y

unfoldable pub create_accepter_thread : Threads → Threads
create_accepter_thread y = record y { accepter = true }

unfoldable pub create_sender_thread : Threads → Threads
create_sender_thread y = record y { sender = true }

-- None of the three can report a failure.
unfoldable pub create_worker_and_io_thread : StartReplies → Threads → Option Threads
create_worker_and_io_thread r y = do
  y' ← create_worker_thread r y
  some (create_sender_thread (create_accepter_thread y'))

-- No error code is allowed.
unfoldable pub bind_and_listen : StartReplies → Threads → Bool
bind_and_listen r y =
    if handle_socket r.bind_ret r.bind_code []
    then (if handle_socket r.listen_ret r.listen_code []
        then handle_handle r.port_handle y.net.iocp
        else false)
    else false

-- `Start`, over the storages of the sessions' buffers.
unfoldable pub start : StartReplies → List (List ℕ × List ℕ) → Threads → Option (Bool × Threads)
start r raws y =
    let (ok, y₁) = init_listen_socket r y in
    let (made, y₂) = create_iocp r (record y₁ { net = init_session_pool raws y₁.net }) in
    if ok
    then (if made
        then (do y₃ ← create_worker_and_io_thread r y₂; some (bind_and_listen r y₃, y₃))
        else some (false, y₂))
    else some (false, y₁)

-- The completion that `PostQueuedCompletionStatus(iocp_, 0, NULL, NULL)` makes.
abbrev pub terminate_completion : Completion
terminate_completion = record { session = none; gqcs_ret = true; io_size = 0; overlapped = none }

unfoldable pub post_terminate_msg : Threads → Threads
post_terminate_msg y = record y { completions = y.completions ++ (terminate_completion ∷ []) }

-- The end of a round: the message to end is posted again by the worker that ends, and any worker ends
-- that finds `is_worker_running_` false.
unfoldable pub after_round : Bool → Network → List Completion → Threads → Threads
after_round go n cs y =
    let y' : Threads = record y { net = n; completions = cs } in
    if go
    then (if y.is_worker_running then y' else record y' { workers = y.workers - 1 })
    else post_terminate_msg (record y' { workers = y.workers - 1 })

-- A round of whichever worker gets the next completion. Without one all of them wait.
unfoldable pub worker_turn_on : Replies → List Completion → Threads → Option Threads
worker_turn_on w [] y = some y
worker_turn_on w (c ∷ cs) y = do r ← worker_round w c y.net; some (after_round r.0 r.1 cs y)

-- The joins of `DestroyWorkerThread`, for so many rounds of the workers. `none` says too that they have
-- not ended within these rounds.
unfoldable pub join_workers : ℕ → (ℕ → Replies) → Threads → Option Threads
join_workers zero w y = if y.workers == 0 then some y else none
join_workers (suc fuel) w y =
    if y.workers == 0
    then some y
    else worker_turn_on (w fuel) y.completions y >>= join_workers fuel w

unfoldable pub destroy_worker_thread : ℕ → (ℕ → Replies) → Threads → Option Threads
destroy_worker_thread fuel w y = join_workers fuel w (record y { is_worker_running = false })

-- The thread leaves its loop when it next tests the flag.
unfoldable pub destroy_accepter_thread : Threads → Threads
destroy_accepter_thread y = record y { is_accepter_running = false; accepter = false }

unfoldable pub destroy_sender_thread : Threads → Threads
destroy_sender_thread y = record y { is_sender_running = false; sender = false }

unfoldable pub destroy_thread : ℕ → (ℕ → Replies) → Threads → Option Threads
destroy_thread fuel w y = do
  y' ← destroy_worker_thread fuel w y
  some (destroy_sender_thread (destroy_accepter_thread y'))

-- `Terminate`: the pool is deleted when the threads have ended.
unfoldable pub terminate : ℕ → (ℕ → Replies) → Threads → Option Threads
terminate fuel w y = do
  y' ← destroy_thread fuel w (post_terminate_msg y)
  some (record y' { net = record (y'.net) { session_list = [] } })
