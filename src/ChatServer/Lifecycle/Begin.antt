-- ===== src/ChatServer/Lifecycle/Begin.antt =====
-- What `Start` of the server comes to, whatever the worker threads report meanwhile.
use iocp_chatting.Packet.{PacketInfo, sys_user_connect, sys_user_disconnect}
use iocp_chatting.Network.{Event, received, disconnected}
use iocp_chatting.Dispatch.{enqueue_system_packet}
use iocp_chatting.ChatServer.{on_connect, on_disconnect, system_packet}
use iocp_chatting.Network.Lifecycle.{StartReplies}
use iocp_chatting.Network.Lifecycle.Start.{start_lem, made, listens}
use iocp_chatting.ChatServer.Lifecycle.{
  Server, packet_manager_start, redis_init, redis_run, redis_start, start, start_if, start_content,
  report, report_all,
}
use iocp_chatting.Prelude.{
  ◌∙◌, ℕ, ◌^◌, ◌<◌, ◌≡◌, refl, Bool, true, false, ◌&&◌, none, some, List, [], ◌∷◌, ◌++◌, append-nil,
  append_assoc, sym, ℤ, if◌then◌else◌, arith,
}

-- A server whose threads have not been started.
pub record IsIdle (y : Server) : Type 0 where
  pub no_workers : y.threads.workers ≡ 0
  pub no_accepter : y.threads.accepter ≡ false
  pub no_sender : y.threads.sender ≡ false
  pub no_managers : y.managers_set ≡ false
  pub no_redis : y.redis.workers ≡ 0

-- What the workers report before the managers are set holds no bytes.
abbrev pub NoBytes : List Event → Type 0
NoBytes [] = Unit
NoBytes (received i bytes ∷ es) = ⊥
NoBytes (Event.connected i ∷ es) = NoBytes es
NoBytes (disconnected i ∷ es) = NoBytes es

-- The notices of connections and disconnections, in order.
abbrev pub notices : List Event → List PacketInfo
notices [] = []
notices (received i bytes ∷ es) = notices es
notices (Event.connected i ∷ es) = system_packet sys_user_connect i ∷ notices es
notices (disconnected i ∷ es) = system_packet sys_user_disconnect i ∷ notices es

abbrev noticed : List Event → Server → Server
noticed es y = record y {
  logic = record (y.logic) { system_packet_queue = y.logic.system_packet_queue ++ notices es };
}

report_all-NoBytes :
    (es : List Event) (y : Server) → NoBytes es → report_all es y ≡ some (noticed es y)
unfolding report_all report on_connect on_disconnect enqueue_system_packet
report_all-NoBytes [] y h = rw append-nil refl
report_all-NoBytes (received i bytes ∷ es) y h = elim h [ ]
report_all-NoBytes (Event.connected i ∷ es) y h =
    let n = system_packet sys_user_connect i in
    report_all-NoBytes es (record y { logic = on_connect i y.logic }) h
    ∙ rw (append_assoc y.logic.system_packet_queue (n ∷ []) (notices es)) refl
report_all-NoBytes (disconnected i ∷ es) y h =
    let n = system_packet sys_user_disconnect i in
    report_all-NoBytes es (record y { logic = on_disconnect i y.logic }) h
    ∙ rw (append_assoc y.logic.system_packet_queue (n ∷ []) (notices es)) refl

abbrev outcome : Bool → Bool → List Event → List (List ℕ) → Server → Server
outcome ok connected early user_raws y =
    if ok then start_content connected user_raws (noticed early y) else y

outcome_fields :
    (ok connected : Bool) (early : List Event) (user_raws : List (List ℕ)) (y : Server)
    → y.is_server_running ≡ true
    → y.managers_set ≡ false
    → y.redis.workers ≡ 0
    → let z = outcome ok connected early user_raws y in
      (z.is_server_running ≡ true)
      × (z.managers_set ≡ ok)
      × (z.redis.workers ≡ (if ok && connected then 1 else 0))
      × (z.logic.system_packet_queue
          ≡ y.logic.system_packet_queue ++ (if ok then notices early else []))
unfolding packet_manager_start redis_start redis_init redis_run start_content
outcome_fields true true early user_raws y on unset none_yet =
    (on, refl, omega (arith, none_yet), refl)
outcome_fields true false early user_raws y on unset none_yet = (on, refl, none_yet, refl)
outcome_fields false connected early user_raws y on unset none_yet =
    (on, unset, none_yet, sym (append-nil y.logic.system_packet_queue))

reported_outcome :
    (ok connected : Bool) (early : List Event) (user_raws : List (List ℕ)) (y : Server)
    → NoBytes early
    → start_if ok connected early user_raws y ≡ some (ok, outcome ok connected early user_raws y)
unfolding start_if
reported_outcome true connected early user_raws y h = rw (report_all-NoBytes early y h) refl
reported_outcome false connected early user_raws y h = refl

-- `Start` returns, on any number of cores below 2 ^ 30, if the worker threads report no bytes before the
-- managers are set, and succeeds exactly when `Network::Start` does, whether or not the Redis server
-- is reached. The flag that the server runs is set in any case. If it succeeds, the managers are set,
-- the notices that came in meanwhile are queued in their order, and the Redis thread runs if the Redis
-- server is reached as well.
pub start_server_lem :
    (r : StartReplies) (connected : Bool) (early : List Event)
    (session_raws : List (List ℕ × List ℕ)) (user_raws : List (List ℕ)) (y : Server)
    → r.hardware_concurrency < 2 ^ 30
    → IsIdle y
    → NoBytes early
    → (z : Server) × (start r connected early session_raws user_raws y
        ≡ some (made r && listens r, z))
      × (z.is_server_running ≡ true)
      × (z.managers_set ≡ (made r && listens r))
      × (z.redis.workers ≡ (if (made r && listens r) && connected then 1 else 0))
      × (z.logic.system_packet_queue
          ≡ y.logic.system_packet_queue ++ (if made r && listens r then notices early else []))
unfolding start
start_server_lem r connected early session_raws user_raws y lt v h =
    let (t, run, w, a, s) =
      start_lem r session_raws y.threads lt v.no_workers v.no_accepter v.no_sender in
    let y' : Server = record y { is_server_running = true; threads = t } in
    let ok = made r && listens r in
    let (on, set, workers, queue) =
      outcome_fields ok connected early user_raws y' refl v.no_managers v.no_redis in
    (
      outcome ok connected early user_raws y',
      rw run (reported_outcome ok connected early user_raws y' h),
      on,
      set,
      workers,
      queue,
    )

report_bytes-faults :
    (es : List Event) (i : ℤ) (bytes : List ℕ) (rest : List Event) (y : Server)
    → NoBytes es
    → y.managers_set ≡ false
    → report_all (es ++ (received i bytes ∷ rest)) y ≡ none
unfolding report_all report
report_bytes-faults [] i bytes rest y h unset = rw unset refl
report_bytes-faults (received j b ∷ es) i bytes rest y h unset = elim h [ ]
report_bytes-faults (Event.connected j ∷ es) i bytes rest y h unset =
    report_bytes-faults es i bytes rest (record y { logic = on_connect j y.logic }) h unset
report_bytes-faults (disconnected j ∷ es) i bytes rest y h unset =
    report_bytes-faults es i bytes rest (record y { logic = on_disconnect j y.logic }) h unset

-- The network runs before the managers are set: if a worker thread reports bytes of a client by then,
-- behind any notices, `EnqueuePacket` reads a pointer that was never set.
pub start_early_bytes_fault :
    (r : StartReplies) (connected : Bool) (es : List Event) (i : ℤ) (bytes : List ℕ)
    (rest : List Event) (session_raws : List (List ℕ × List ℕ)) (user_raws : List (List ℕ))
    (y : Server)
    → r.hardware_concurrency < 2 ^ 30
    → IsIdle y
    → (made r && listens r) ≡ true
    → NoBytes es
    → start r connected (es ++ (received i bytes ∷ rest)) session_raws user_raws y ≡ none
unfolding start start_if
start_early_bytes_fault r connected es i bytes rest session_raws user_raws y lt v up h =
    let (t, run, w, a, s) =
      start_lem r session_raws y.threads lt v.no_workers v.no_accepter v.no_sender in
    let y' : Server = record y { is_server_running = true; threads = t } in
    rw (run, up, report_bytes-faults es i bytes rest y' h v.no_managers) refl
