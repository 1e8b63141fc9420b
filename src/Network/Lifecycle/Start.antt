-- ===== src/Network/Lifecycle/Start.antt =====
-- `Network::Start`: when it succeeds, and what it leaves behind when it fails.
use iocp_chatting.ErrorHandler.{handle_socket, handle_handle}
use iocp_chatting.Session.{invalid_socket}
use iocp_chatting.Network.{init_session_pool}
use iocp_chatting.Network.Lifecycle.{
  Threads, StartReplies, init_listen_socket, create_iocp, get_max_worker_thread,
  create_worker_thread, create_accepter_thread, create_sender_thread, create_worker_and_io_thread,
  bind_and_listen, start,
}
use iocp_chatting.Prelude.{
  ◌>>=◌, ◌∙◌, ℕ, ◌+◌, ◌*◌, ◌<◌, ◌^◌, ◌≡◌, refl, Bool, true, false, not, ◌&&◌, some, List, [], ◌==◌,
  pos, Bool-cases, inl, inr, arith, if◌then◌else◌,
}

-- The socket and the completion port are there.
abbrev pub made : StartReplies → Bool
made r = r.start_ret == 0 && (not (r.listen_socket == invalid_socket) && not (r.iocp == 0))

-- The socket is bound, listens, and has the completion port.
abbrev pub listens : StartReplies → Bool
listens r =
    handle_socket r.bind_ret r.bind_code []
    && (handle_socket r.listen_ret r.listen_code [] && r.port_handle == r.iocp)

max_worker_thread_lem :
    (cores : ℕ) → cores < 2 ^ 30 → get_max_worker_thread cores ≡ pos (cores * 2 + 1)
unfolding get_max_worker_thread
max_worker_thread_lem cores lt = ground (arith, lt)

-- The state with its threads.
abbrev threads_of : StartReplies → Threads → Threads
threads_of r y = record y {
  workers = y.workers + (r.hardware_concurrency * 2 + 1);
  accepter = true;
  sender = true;
}

create_worker_and_io_thread_lem :
    (r : StartReplies) (y : Threads)
    → r.hardware_concurrency < 2 ^ 30
    → create_worker_and_io_thread r y ≡ some (threads_of r y)
unfolding create_worker_and_io_thread create_worker_thread create_accepter_thread
    create_sender_thread
create_worker_and_io_thread_lem r y lt = rw (max_worker_thread_lem r.hardware_concurrency lt) refl

nested_and : (a b c : Bool) → (if a then (if b then c else false) else false) ≡ (a && (b && c))
nested_and a b c = ground arith

-- `Start` returns, on any number of cores below 2 ^ 30. It succeeds exactly when all its calls do. The
-- threads run as soon as the socket and the completion port are there, two workers for each core and
-- one more, the accepter and the sender: also when the socket then cannot be bound, and `Start`
-- fails. Otherwise none is started.
pub start_lem :
    (r : StartReplies) (raws : List (List ℕ × List ℕ)) (y : Threads)
    → r.hardware_concurrency < 2 ^ 30
    → y.workers ≡ 0
    → y.accepter ≡ false
    → y.sender ≡ false
    → (z : Threads) × (start r raws y ≡ some (made r && listens r, z))
      × (z.workers ≡ (if made r then r.hardware_concurrency * 2 + 1 else 0))
      × (z.accepter ≡ made r)
      × (z.sender ≡ made r)
unfolding start init_listen_socket create_iocp create_worker_and_io_thread create_worker_thread
    create_accepter_thread create_sender_thread bind_and_listen handle_handle
start_lem r raws y lt w a s = elim (Bool-cases (r.start_ret == 0)) [
  | inr e ↦ (y, rw e refl, rw e w, rw e a, rw e s)
  | inl e ↦ elim (Bool-cases (r.listen_socket == invalid_socket)) [
    | inl bad ↦ (y₁, rw (e, bad) refl, rw (e, bad) w, rw (e, bad) a, rw (e, bad) s)
    | inr good ↦ elim (Bool-cases (r.iocp == 0)) [
      | inl null ↦ (
        y₂,
        rw (e, good, null) refl,
        rw (e, good, null) w,
        rw (e, good, null) a,
        rw (e, good, null) s,
      )
      | inr port ↦ (
        record y₂ {
          workers = y.workers + (r.hardware_concurrency * 2 + 1);
          accepter = true;
          sender = true;
        },
        start_made e good port,
        rw (e, good, port) (omega (arith, w)),
        rw (e, good, port) refl,
        rw (e, good, port) refl,
      )
    ]
  ]
]
  where
    y₁ : Threads
    y₁ = record y { net = record (y.net) { listen_socket = r.listen_socket } }

    y₂ : Threads
    y₂ = let n = init_session_pool raws y₁.net in record y₁ { net = record n { iocp = r.iocp } }

    start_made :
        (r.start_ret == 0) ≡ true
        → (r.listen_socket == invalid_socket) ≡ false
        → (r.iocp == 0) ≡ false
        → start r raws y ≡ some (made r && listens r, threads_of r y₂)
    start_made e good port =
        let head : start r raws y
            ≡ (create_worker_and_io_thread r y₂ >>= λ y₃. some (bind_and_listen r y₃, y₃)) =
          rw (e, good, port) refl in
        head
        ∙ rw
            (
              create_worker_and_io_thread_lem r y₂ lt,
              e,
              good,
              port,
              nested_and (handle_socket r.bind_ret r.bind_code [])
                  (handle_socket r.listen_ret r.listen_code []) (r.port_handle == r.iocp),
            )
            refl
