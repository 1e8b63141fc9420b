-- ===== src/ChatServer/Lifecycle/Ends.antt =====
-- What `Terminate` of the server and its host come to.
use iocp_chatting.Network.{Replies}
use iocp_chatting.Network.Lifecycle
use iocp_chatting.Network.Lifecycle.{Threads}
use iocp_chatting.ChatServer.Lifecycle.{
  Server, created, looping, ended, returned, waiting, fault, thread_step, join_thread,
  destroy_packet_process_thread, packet_manager_terminate, redis_terminate, terminate,
}
use iocp_chatting.Prelude.{
  ap, ◌∙◌, ℕ, zero, suc, ◌≡◌, refl, ◌⊎◌, true, false, if◌then◌else◌, Option-cases, inl, inr,
}

-- `Terminate` on a server whose `Start` has failed reads a pointer that was never set.
pub terminate_unset_faults :
    (fuel : ℕ) (w : ℕ → Replies) (n : ℕ) (y : Server)
    → y.managers_set ≡ false
    → terminate fuel w n y ≡ fault
unfolding terminate packet_manager_terminate
terminate_unset_faults fuel w n y unset =
    elim (Option-cases (Lifecycle.terminate fuel w y.threads)) [
      | inl e ↦ rw e refl
      | inr (t, e) ↦ rw (e, unset) refl
    ]

-- A packet thread that has not come to its first statement when it is joined is never joined.
join_late_waits :
    (n : ℕ) (y : Server)
    → (y.packet_thread ≡ created) ⊎ (y.packet_thread ≡ looping) × (y.is_thread_running ≡ true)
    → join_thread n y ≡ waiting
unfolding join_thread thread_step
join_late_waits zero y (inl e) = rw e refl
join_late_waits zero y (inr (e, on)) = rw e refl
join_late_waits (suc n) y (inl e) = rw e (
    join_late_waits n (record y { packet_thread = looping; is_thread_running = true })
      (inr (refl, refl)))
join_late_waits (suc n) y (inr (e, on)) =
    rw (e, on)
      (join_late_waits n (record y { packet_thread = looping; is_thread_running = true })
        (inr (refl, refl)))

-- In its loop it is joined after one step.
join_looping_returns :
    (n : ℕ) (y : Server)
    → y.packet_thread ≡ looping
    → y.is_thread_running ≡ false
    → join_thread (suc n) y ≡ returned (record y { packet_thread = ended })
unfolding join_thread thread_step
join_looping_returns zero y e off = rw (e, off) refl
join_looping_returns (suc n) y e off = rw (e, off) refl

terminate_set :
    (n : ℕ) (y : Server)
    → y.managers_set ≡ true
    → packet_manager_terminate n y
      ≡ join_thread n (record y { redis = redis_terminate y.redis; is_thread_running = false })
unfolding packet_manager_terminate destroy_packet_process_thread
terminate_set n y set =
    ap
      (λ b.
        if b
        then join_thread n (record y { redis = redis_terminate y.redis; is_thread_running = false })
        else fault)
      set

-- `Terminate` of the packet manager while the packet thread is in its loop returns after one step of
-- it, with no Redis worker left. If the thread was created and has not come to its first statement,
-- it sets the flag again, and `Terminate` never returns.
pub packet_manager_terminate_lem :
    (n : ℕ) (y : Server)
    → y.managers_set ≡ true
    → (y.packet_thread ≡ looping
        → (z : Server) × (packet_manager_terminate (suc n) y ≡ returned z)
          × (z.packet_thread ≡ ended)
          × (z.redis.workers ≡ 0))
      × (y.packet_thread ≡ created → packet_manager_terminate n y ≡ waiting)
unfolding redis_terminate
packet_manager_terminate_lem n y set = (
  λ e. (
    record y { redis = redis_terminate y.redis; is_thread_running = false; packet_thread = ended },
    terminate_set (suc n) y set
        ∙ join_looping_returns n
            (record y { redis = redis_terminate y.redis; is_thread_running = false }) e refl,
    refl,
    refl,
  ),
  λ e.
      terminate_set n y set
      ∙ join_late_waits n (record y { redis = redis_terminate y.redis; is_thread_running = false })
          (inl e),
)
