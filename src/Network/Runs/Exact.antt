-- ===== src/Network/Runs/Exact.antt =====
-- What holds in every state that the network reaches: the number of sessions is exact, and accepts
-- are outstanding only for sessions out of use.
use iocp_chatting.Network.Runs.{System, Runs, started_with}
use iocp_chatting.Network.Runs.Visit.{unmarked-IsSlot, visit_kept, pending_not_offered}
use iocp_chatting.Network.Runs.Steps.{IsSound, Runs-IsSound_from}
use mathlib.Core.Option.{some-injective}
use iocp_chatting.Config.{max_session_cnt}
use iocp_chatting.Session
use iocp_chatting.Session.{
  Session, SendReply, AcceptReply, uint64_max, invalid_socket, io_pending, accept, IoOperation,
  bind_accept, bind_send, enqueue_send_data,
}
use iocp_chatting.Network.{accepter_visit, init_session_pool, init_sessions}
use iocp_chatting.Network.Active.{active}
use iocp_chatting.Network.Slots.{IsSlot}
use iocp_chatting.Prelude.{
  ℕ, zero, suc, ◌+◌, ◌≤◌, ◌<◌, ◌≡◌, refl, sym, ap, ◌∙◌, subst, true, false, some, List, [], ◌∷◌,
  length, get_elem?, pos, arith,
}

init_sessions-IsSlot :
    (k : ℕ) (raws : List (List ℕ × List ℕ)) (i : ℕ) (s : Session)
    → get_elem? (init_sessions k raws) i ≡ some s
    → IsSlot (k + i) false s
unfolding init_sessions Session.init
init_sessions-IsSlot k [] i s e = cc
init_sessions-IsSlot k ((recv_raw, send_raw) ∷ raws) zero s e =
    unmarked-IsSlot (k + 0) s
      (ap (λ x. x.index) (sym (some-injective _ s e)) ∙ ap pos (omega arith))
init_sessions-IsSlot k ((recv_raw, send_raw) ∷ raws) (suc i) s e =
    subst (λ j. IsSlot j false s) (omega arith) (init_sessions-IsSlot (k + 1) raws i s e)

init_sessions-active : (k : ℕ) (raws : List (List ℕ × List ℕ)) → active (init_sessions k raws) ≡ 0
unfolding init_sessions Session.init
init_sessions-active k [] = refl
init_sessions-active k ((recv_raw, send_raw) ∷ raws) =
    omega (arith, init_sessions-active (k + 1) raws)

pub length-init_sessions :
    (k : ℕ) (raws : List (List ℕ × List ℕ)) → length (init_sessions k raws) ≡ length raws
unfolding init_sessions
length-init_sessions k [] = refl
length-init_sessions k (raw ∷ raws) = ap suc (length-init_sessions (k + 1) raws)

active-le-length : (ss : List Session) → active ss ≤ length ss
active-le-length [] = omega arith
active-le-length (s ∷ ss) = ground (arith, active-le-length ss)

start-IsSound :
    (l iocp : ℕ) (raws : List (List ℕ × List ℕ))
    → length raws ≡ max_session_cnt
    → IsSound (started_with l iocp raws)
unfolding init_session_pool
start-IsSound l iocp raws n = record {
  slots = record {
    full = length-init_sessions 0 raws ∙ n;
    slot = λ i s e. subst (λ j. IsSlot j false s) (omega arith) (init_sessions-IsSlot 0 raws i s e);
  };
  counts = record { bound = omega arith; counts = rw (init_sessions-active 0 raws) refl };
}

exact_count : (y : System) → IsSound y → y.net.current_session_cnt ≡ active y.net.session_list
exact_count y v =
    omega
      (arith, v.counts.bound, v.counts.counts, active-le-length y.net.session_list, v.slots.full)

module _ (l iocp : ℕ) (raws : List (List ℕ × List ℕ)) (n : length raws ≡ max_session_cnt)
    {z : System} (r : Runs (started_with l iocp raws) z) where
  -- The pool stays of full size.
  pub Runs-full : length z.net.session_list ≡ max_session_cnt
  Runs-full = (Runs-IsSound_from r (start-IsSound l iocp raws n)).slots.full

  -- Each session of the pool has the number of its slot.
  pub slot_index : (i : ℕ) (s : Session) → get_elem? z.net.session_list i ≡ some s → s.index ≡ pos i
  slot_index i s e =
      ((Runs-IsSound_from r (start-IsSound l iocp raws n)).slots.slot i s e).own_index

  -- In every state that the network reaches from its start over a pool of full size, whatever the
  -- system answers and in whatever order the threads take their steps, if the system completes an
  -- accept only where one is outstanding, the counter of sessions is exactly the number of sessions
  -- in use: it neither drifts nor wraps around.
  pub Runs-exact_count : z.net.current_session_cnt ≡ active z.net.session_list
  Runs-exact_count = exact_count z (Runs-IsSound_from r (start-IsSound l iocp raws n))

  -- In every such state a session for which an accept is outstanding is out of use, its `OverlappedEx`
  -- is that of an accept and names the session's own slot, and no visit of the accepter, at any time
  -- below the largest 64-bit value, changes it: no second accept is bound to it.
  pub Runs-accept_once :
      (i : ℕ) (s : Session) (now : ℕ) (reply : AcceptReply)
      → z.pending i ≡ true
      → get_elem? z.net.session_list i ≡ some s
      → now < uint64_max
      → (s.is_activated ≡ false)
        × (s.accept_overlapped.op_type ≡ accept)
        × (s.accept_overlapped.session_idx ≡ pos i)
        × (accepter_visit now reply s ≡ s)
  Runs-accept_once i s now reply owed e lt =
      let slot = (Runs-IsSound_from r (start-IsSound l iocp raws n)).slots.slot i s e in
      (
        slot.idle owed,
        slot.op owed,
        slot.names owed,
        visit_kept now reply s
            (pending_not_offered now i s lt (subst (λ b. IsSlot i b s) owed slot)),
      )
