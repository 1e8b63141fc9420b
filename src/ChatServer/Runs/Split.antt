-- ===== src/ChatServer/Runs/Split.antt =====
-- A run of the joined threads is, seen from either side, a run of that side alone.
use iocp_chatting.PacketManager
use iocp_chatting.PacketManager.{State}
use iocp_chatting.Packet.{Sent}
use iocp_chatting.Packet.Wire.{to_bytes}
use iocp_chatting.Dispatch.{enqueue_packet, process_round}
use iocp_chatting.Dispatch.Reach
use iocp_chatting.Dispatch.Reach.{Reach, round, receive, notice, redis}
use iocp_chatting.Network.{
  Network, Event, connected, received, disconnected, Completion, Replies, worker_round, send_packet,
}
use iocp_chatting.Network.Runs.{System, Runs, started_with, io, accepted, visit, flush, fill, push}
use iocp_chatting.ChatServer.{on_connect, on_recv, on_disconnect, delegate, deliver}
use iocp_chatting.ChatServer.Send.{send_packet_func, send_all}
use iocp_chatting.ChatServer.Runs.{
  Joined, worker_turn, packet_turn, Step, worker_io, worker_accepted, accepter, sender,
  filled_by_system, packet, Run, here, next, joined_with,
}
use iocp_chatting.Prelude.{
  ℕ, ◌≡◌, refl, sym, ap, ◌∙◌, subst, Bool, Option, some, List, [], ◌∷◌, length, drop, to_int32,
  some_of_eq,
}
use mathlib.Core.Option.{some-injective}

-- What is in a worker's turn.
pub worker_turn_inv :
    (w : Replies) (c : Completion) (n : Network) (s : State) {go : Bool} {n' : Network} {t : State}
    → worker_turn w c n s ≡ some (go, n', t)
    → (worker_round w c n ≡ some (go, n')) × (deliver (drop (length n.events) n'.events) s ≡ some t)
unfolding worker_turn
worker_turn_inv w c n s e =
    let (r, run, rest) = some_of_eq (worker_round w c n) _ e in
    let (t', delivered, last) = some_of_eq (deliver (drop (length n.events) r.1.events) s) _ rest in
    let same = some-injective _ _ last in
    (
      run ∙ ap (λ x. some (x.0, x.1)) same,
      ap (λ x. deliver (drop (length n.events) x.1.events) s) (sym same)
          ∙ delivered
          ∙ ap (λ x. some (x.2)) same,
    )

module _ (past_end : List ℕ → List ℕ) (redis_get : List ℕ → Option (List ℕ)) (a : State) where
  delegate-Reach :
      (e : Event) {s t : State}
      → Reach past_end redis_get a s
      → delegate e s ≡ some t
      → Reach past_end redis_get a t
  unfolding delegate on_connect on_recv on_disconnect
  delegate-Reach (connected i) r e = Reach.next r (notice _ (sym (some-injective _ _ e)))
  delegate-Reach (received i bytes) {s} r e =
      let (d, run, last) = some_of_eq (enqueue_packet i bytes s) _ e in
      subst (Reach past_end redis_get a) (some-injective _ _ last)
        (Reach.next r (receive i bytes run))
  delegate-Reach (disconnected i) r e = Reach.next r (notice _ (sym (some-injective _ _ e)))

  -- The calls of the delegates are steps of the chat logic.
  deliver-Reach :
      (es : List Event) {s t : State}
      → Reach past_end redis_get a s
      → deliver es s ≡ some t
      → Reach past_end redis_get a t
  unfolding deliver
  deliver-Reach [] r e = subst (Reach past_end redis_get a) (some-injective _ _ e) r
  deliver-Reach (x ∷ es) {s} r e =
      let (s', run, rest) = some_of_eq (delegate x s) _ e in
      deliver-Reach es (delegate-Reach x r run) rest

module _ (type : ℕ) (stale : List ℕ) (b : System) where
  -- The calls of the send function are steps of the network.
  send_all-Runs :
      (xs : List Sent) (y : System) {n : Network}
      → Runs b y
      → send_all type stale xs y.net ≡ some n
      → Runs b (record y { net = n })
  unfolding send_all send_packet_func
  send_all-Runs [] y r e = subst (λ n. Runs b (record y { net = n })) (some-injective y.net _ e) r
  send_all-Runs ((i, pkt) ∷ xs) y r e =
      let (n₁, run, rest) =
        some_of_eq (send_packet (to_int32 i) (to_bytes type stale pkt) y.net) _ e in
      send_all-Runs xs (record y { net = n₁ })
        (Runs.next r (push (to_int32 i) (to_bytes type stale pkt) run)) rest

-- What is in a turn of the packet thread.
packet_turn_inv :
    (past_end : List ℕ → List ℕ) (type : ℕ) (stale : List ℕ) (n : Network) (s : State)
    {n' : Network} {t : State}
    → packet_turn past_end type stale n s ≡ some (n', t)
    → (process_round past_end s ≡ some t)
      × (send_all type stale (drop (length s.sent) t.sent) n ≡ some n')
unfolding packet_turn
packet_turn_inv past_end type stale n s e =
    let (t', run, rest) = some_of_eq (process_round past_end s) _ e in
    let (n₁, sent, last) =
      some_of_eq (send_all type stale (drop (length s.sent) t'.sent) n) _ rest in
    let same = some-injective _ _ last in
    (
      run ∙ ap (λ x. some (x.1)) same,
      ap (λ x. send_all type stale (drop (length s.sent) x.1.sent) n) (sym same)
          ∙ sent
          ∙ ap (λ x. some (x.0)) same,
    )

module _ (past_end : List ℕ → List ℕ) (type : ℕ) (stale : List ℕ)
    (redis_get : List ℕ → Option (List ℕ)) (b : System) (a : State) where
  -- What a state of the joined threads is for each side.
  abbrev Splits : Joined → Type 0
  Splits y = Runs b y.system × Reach past_end redis_get a y.logic

  Step-Splits : {y z : Joined} → Step past_end type stale redis_get y z → Splits y → Splits z
  Step-Splits {y} (worker_io w c other e) (r, q) =
      let (run, calls) = worker_turn_inv w c y.system.net y.logic e in
      (Runs.next r (io w c other run), deliver-Reach past_end redis_get a _ q calls)
  Step-Splits {y} (worker_accepted w c i s owed es eo e) (r, q) =
      let (run, calls) = worker_turn_inv w c y.system.net y.logic e in
      (Runs.next r (accepted w c i s owed es eo run), deliver-Reach past_end redis_get a _ q calls)
  Step-Splits (accepter now reply i s lt e) (r, q) = (Runs.next r (visit now reply i s lt e), q)
  Step-Splits (sender now reply i e) (r, q) = (Runs.next r (flush now reply i e), q)
  Step-Splits (filled_by_system i bytes s size e) (r, q) = (Runs.next r (fill i bytes s size e), q)
  Step-Splits {y} (packet e) (r, q) =
      let (run, sends) = packet_turn_inv past_end type stale y.system.net y.logic e in
      (send_all-Runs type stale b _ y.system r sends, Reach.next q (round run))
  Step-Splits (Step.redis e) (r, q) = (r, Reach.next q (Reach.redis e refl))

  Run-Splits_from : {y z : Joined} → Run past_end type stale redis_get y z → Splits y → Splits z
  Run-Splits_from here v = v
  Run-Splits_from (next r st) v = Step-Splits st (Run-Splits_from r v)

-- However the threads of the joined server interleave, the state of the network is one that the
-- network reaches alone, and that of the chat logic one that the chat logic reaches alone: what one
-- side calls of the other through the delegates is a sequence of steps that the other side allows.
pub Run-splits :
    (past_end : List ℕ → List ℕ) (type : ℕ) (stale : List ℕ) (redis_get : List ℕ → Option (List ℕ))
    (l iocp : ℕ) (raws : List (List ℕ × List ℕ)) (user_raws : List (List ℕ)) {z : Joined}
    → Run past_end type stale redis_get (joined_with l iocp raws user_raws) z
    → Runs (started_with l iocp raws) z.system
      × Reach past_end redis_get (PacketManager.init user_raws) z.logic
Run-splits past_end type stale redis_get l iocp raws user_raws r =
    Run-Splits_from past_end type stale redis_get (started_with l iocp raws)
      (PacketManager.init user_raws) r (Runs.here, Reach.here)
