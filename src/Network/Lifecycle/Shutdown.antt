-- ===== src/Network/Lifecycle/Shutdown.antt =====
-- `Network::Terminate` comes to an end: one message to end is enough for all the workers.
use iocp_chatting.Network.{Completion, Replies, terminate_msg}
use iocp_chatting.Network.Total.{Genuine, Full, worker_round-Full}
use iocp_chatting.Network.Lifecycle.{
  Threads, terminate_completion, post_terminate_msg, after_round, worker_turn_on, join_workers,
  destroy_worker_thread, destroy_accepter_thread, destroy_sender_thread, destroy_thread, terminate,
}
use iocp_chatting.Prelude.{
  ℕ, zero, suc, ◌+◌, ◌-◌, ◌≤◌, ◌<◌, ◌≡◌, ◌⊎◌, refl, ap, subst, true, false, some, List, [], ◌∷◌,
  ◌++◌, length, ◌==◌, Bool-cases, inl, inr, arith, length-append,
}

-- The message to end is somewhere in the queue.
abbrev pub HasFinish : List Completion → Type 0
HasFinish [] = ⊥
HasFinish (c ∷ cs) = (terminate_msg c ≡ true) ⊎ HasFinish cs

abbrev pub AreGenuine : List Completion → Type 0
AreGenuine [] = Unit
AreGenuine (c ∷ cs) = Genuine c × AreGenuine cs

terminate_completion-finish : terminate_msg terminate_completion ≡ true
unfolding terminate_msg
terminate_completion-finish = refl

posted-HasFinish : (cs : List Completion) → HasFinish (cs ++ (terminate_completion ∷ []))
posted-HasFinish [] = inl terminate_completion-finish
posted-HasFinish (c ∷ cs) = inr (posted-HasFinish cs)

posted-AreGenuine :
    (cs : List Completion) → AreGenuine cs → AreGenuine (cs ++ (terminate_completion ∷ []))
posted-AreGenuine [] g = (Genuine.finish terminate_completion-finish, tt)
posted-AreGenuine (c ∷ cs) (g, gs) = (g, posted-AreGenuine cs gs)

-- Workers that will end: the message is there, and every completion is genuine.
record Ends (y : Threads) : Type 0 where
  pool : Full y.net
  finish : HasFinish y.completions
  genuine : AreGenuine y.completions

later :
    (c : Completion) (cs : List Completion)
    → terminate_msg c ≡ false
    → HasFinish (c ∷ cs)
    → HasFinish cs
later c cs other (inl end) = absurd (ground (arith, other, end))
later c cs other (inr h) = h

-- What is left to do.
abbrev work : Threads → ℕ
work y = y.workers + length y.completions

-- A turn takes a worker or a completion away.
record Nearer (y z : Threads) : Type 0 where
  ends : Ends z
  less : work z < work y

turn_on :
    (w : Replies) (c : Completion) (cs : List Completion) (y : Threads)
    → y.completions ≡ c ∷ cs
    → 0 < y.workers
    → Ends y
    → (z : Threads) × (worker_turn_on w (c ∷ cs) y ≡ some z) × Nearer y z
unfolding worker_turn_on after_round post_terminate_msg
turn_on w c cs y e lt v =
    let f : HasFinish (c ∷ cs) = subst HasFinish e v.finish in
    let g : AreGenuine (c ∷ cs) = subst AreGenuine e v.genuine in
    let (go, n, run, on, full) = worker_round-Full w c y.net g.0 v.pool in
    elim (Bool-cases (terminate_msg c)) [
      | inl end ↦ (
        record y {
          net = n;
          completions = cs ++ (terminate_completion ∷ []);
          workers = y.workers - 1;
        },
        rw (run, on, end) refl,
        record {
          ends = record {
            pool = full;
            finish = posted-HasFinish cs;
            genuine = posted-AreGenuine cs g.1;
          };
          less = omega (arith, ap length e, length-append cs (terminate_completion ∷ []));
        },
      )
      | inr other ↦
          let rest : HasFinish cs = later c cs other f in
          elim (Bool-cases y.is_worker_running) [
            | inl running ↦ (
              record y { net = n; completions = cs },
              rw (run, on, other, running) refl,
              record {
                ends = record { pool = full; finish = rest; genuine = g.1 };
                less = omega (arith, ap length e);
              },
            )
            | inr stopping ↦ (
              record y { net = n; completions = cs; workers = y.workers - 1 },
              rw (run, on, other, stopping) refl,
              record {
                ends = record { pool = full; finish = rest; genuine = g.1 };
                less = omega (arith, ap length e);
              },
            )
          ]
    ]

turn :
    (w : Replies) (cs : List Completion) (y : Threads)
    → y.completions ≡ cs
    → 0 < y.workers
    → Ends y
    → (z : Threads) × (worker_turn_on w cs y ≡ some z) × Nearer y z
turn w [] y e lt v = elim (subst HasFinish e v.finish) [ ]
turn w (c ∷ cs) y e lt v = turn_on w c cs y e lt v

-- With a round for each worker and each completion, all workers end.
join_workers_lem :
    (fuel : ℕ) (w : ℕ → Replies) (y : Threads)
    → Ends y
    → work y ≤ fuel
    → (z : Threads) × (join_workers fuel w y ≡ some z) × (z.workers ≡ 0)
unfolding join_workers
join_workers_lem zero w y v enough =
    let ended : y.workers ≡ 0 = omega arith in (y, ground (arith, ended), ended)
join_workers_lem (suc fuel) w y v enough = elim (Bool-cases (y.workers == 0)) [
  | inl done ↦ (y, rw done refl, ground arith)
  | inr left ↦
      let (z, run, nearer) = turn (w fuel) y.completions y refl (ground arith) v in
      let (z', runs, none_left) =
        join_workers_lem fuel w z nearer.ends (omega (arith, nearer.less)) in
      (z', rw (left, run) runs, none_left)
]

-- `Terminate`, over a full pool and a queue of genuine completions to which none is added from
-- outside, comes to an end: with one round for each worker, for each completion that waits and for
-- the message to end, it returns, no round faults, no thread is left, and the pool is gone.
pub terminate_ends :
    (fuel : ℕ) (w : ℕ → Replies) (y : Threads)
    → Full y.net
    → AreGenuine y.completions
    → y.workers + length y.completions < fuel
    → (z : Threads) × (terminate fuel w y ≡ some z)
      × (z.workers ≡ 0)
      × (z.accepter ≡ false)
      × (z.sender ≡ false)
      × (z.net.session_list ≡ [])
unfolding terminate destroy_thread destroy_worker_thread destroy_accepter_thread
    destroy_sender_thread post_terminate_msg
terminate_ends fuel w y v g enough =
    let y' : Threads = record (post_terminate_msg y) { is_worker_running = false } in
    let (z, run, none_left) =
      join_workers_lem fuel w y'
        (record {
          pool = v;
          finish = posted-HasFinish y.completions;
          genuine = posted-AreGenuine y.completions g;
        })
        (omega (arith, length-append y.completions (terminate_completion ∷ []))) in
    (
      record z {
        is_accepter_running = false;
        is_sender_running = false;
        accepter = false;
        sender = false;
        net = record (z.net) { session_list = [] };
      },
      rw run refl,
      none_left,
      refl,
      refl,
      refl,
    )
