-- ===== src/Network/Runs/Steps.antt =====
-- Each step of the network keeps its slots in order and its counter right.
use iocp_chatting.Network.Runs.{
  System, mark, visited, filled, Step, io, accepted, visit, flush, fill, push, Runs, here, next,
}
use iocp_chatting.Network.Runs.Visit.{
  cleared-IsSlot, mark_self, visited-HasSlots, visit-is_activated,
}
use mathlib.Core.Option.{some-injective}
use iocp_chatting.Session.{Session, SendReply, AcceptReply, uint64_max, accept, enqueue_send_data}
use iocp_chatting.Network.{
  Network, Completion, Replies, worker_round, accepter_visit, sender_visit, send_packet,
  get_session_by_idx, update_session,
}
use iocp_chatting.Network.Active.{Counts, same-Counts}
use iocp_chatting.Network.Count.{worker_round-Counts, sender_visit-Counts}
use iocp_chatting.Network.Slots.{
  IsSlot, HasSlots, set-Slots, worker_round-HasSlots, sender_visit-HasSlots, send_packet-HasSlots,
}
use iocp_chatting.Prelude.{
  ℕ, ◌<◌, ◌≡◌, ◌≢◌, refl, sym, ap, ◌∙◌, subst, Bool, true, false, Option, none, some, List,
  get_elem?, ℤ, pos, Ensures, Ensures-of_eq, Ensures-some, arith,
}

-- The slots are in order, and the counter is right.
pub record IsSound (y : System) : Type 0 where
  pub slots : HasSlots y.pending y.net
  pub counts : Counts 0 y.net

-- What a pending slot names is itself, so that the completion of its accept finds it out of use.
named : (i : ℕ) {k : ℕ} → get_session_by_idx (pos i) ≡ some k → k ≡ i
unfolding get_session_by_idx
named i e = ground arith

io-IsSound :
    (y : System) (w : Replies) (c : Completion) {go : Bool} {n : Network}
    → ((j : ℤ) → c.overlapped ≢ some (accept, j))
    → worker_round w c y.net ≡ some (go, n)
    → IsSound y
    → IsSound (record y { net = n })
io-IsSound y w c other e v = record {
  slots =
      Ensures-some (λ r. HasSlots y.pending r.1) (worker_round w c y.net)
        (worker_round-HasSlots y.pending w c y.net (λ i j eq. absurd (other j eq)) v.slots) e;
  counts = worker_round-Counts w c y.net v.counts (λ j eq. absurd (other j eq)) e;
}

accepted-IsSound :
    (y : System) (w : Replies) (c : Completion) {go : Bool} {n : Network} (i : ℕ) (s : Session)
    → y.pending i ≡ true
    → get_elem? y.net.session_list i ≡ some s
    → c.overlapped ≡ some (s.accept_overlapped.op_type, s.accept_overlapped.session_idx)
    → worker_round w c y.net ≡ some (go, n)
    → IsSound y
    → IsSound (record { net = n; pending = mark false i y.pending })
accepted-IsSound y w c i s owed es eo e v = record {
  slots =
      Ensures-some (λ r. HasSlots q r.1) (worker_round w c y.net)
        (worker_round-HasSlots q w c y.net
          (λ k j eq ek. rw (own j k eq ek) (mark_self false i y.pending))
          (record {
            full = v.slots.full;
            slot = λ j s' e'. cleared-IsSlot i j y.pending s' (v.slots.slot j s' e');
          }))
        e;
  counts =
      worker_round-Counts w c y.net v.counts
        (λ j eq k s' ek es'. ground (
          arith,
          same s' (subst (λ l. get_elem? y.net.session_list l ≡ some s') (own j k eq ek) es'),
          slot.idle owed,
        ))
        e;
}
  where
    q : ℕ → Bool
    q = mark false i y.pending

    slot : IsSlot i (y.pending i) s
    slot = v.slots.slot i s es

    own : (j : ℤ) (k : ℕ) → c.overlapped ≡ some (accept, j) → get_session_by_idx j ≡ some k → k ≡ i
    own j k eq ek =
        let here : j ≡ pos i =
          ap (λ o. o.1) (some-injective (accept, j) _ (sym eq ∙ eo)) ∙ slot.names owed in
        named i (sym (ap get_session_by_idx here) ∙ ek)

    same : (s' : Session) → get_elem? y.net.session_list i ≡ some s' → s ≡ s'
    same s' e' = some-injective s s' (sym es ∙ e')

flush-IsSound :
    (y : System) (t : ℕ) (reply : SendReply) (i : ℕ) {n : Network}
    → sender_visit t reply i y.net ≡ some n
    → IsSound y
    → IsSound (record y { net = n })
flush-IsSound y t reply i e v = record {
  slots =
      Ensures-some (HasSlots y.pending) (sender_visit t reply i y.net)
        (sender_visit-HasSlots y.pending t reply i y.net v.slots) e;
  counts = sender_visit-Counts t reply i y.net v.counts e;
}

pushed-Counts :
    (o : Option ℕ) (bytes : List ℕ) (n : Network)
    → Counts 0 n
    → Ensures (Counts 0) (elim o [
      | none ↦ some n
      | some i ↦ update_session i (λ s. (enqueue_send_data bytes s).1) n
    ])
unfolding update_session enqueue_send_data
pushed-Counts none bytes n v = v
pushed-Counts (some i) bytes n v =
    Ensures-of_eq _ (get_elem? n.session_list i) _
      λ s es. same-Counts 0 i n s (enqueue_send_data bytes s).1 v es refl

push-IsSound :
    (y : System) (j : ℤ) (bytes : List ℕ) {n : Network}
    → send_packet j bytes y.net ≡ some n
    → IsSound y
    → IsSound (record y { net = n })
unfolding send_packet
push-IsSound y j bytes e v = record {
  slots =
      Ensures-some (HasSlots y.pending) (send_packet j bytes y.net)
        (send_packet-HasSlots y.pending j bytes y.net v.slots) e;
  counts =
      Ensures-some (Counts 0) (send_packet j bytes y.net)
        (pushed-Counts (get_session_by_idx j) bytes y.net v.counts) e;
}

visit-IsSound :
    (now i : ℕ) (reply : AcceptReply) (s : Session) (y : System)
    → now < uint64_max
    → get_elem? y.net.session_list i ≡ some s
    → IsSound y
    → IsSound (visited now i reply s y)
visit-IsSound now i reply s y lt e v = record {
  slots = visited-HasSlots now i reply s y lt e v.slots;
  counts =
      same-Counts 0 i y.net s (accepter_visit now reply s) v.counts e
        (visit-is_activated now reply s);
}

fill-IsSound :
    (y : System) (i : ℕ) (bytes : List ℕ) (s : Session)
    → get_elem? y.net.session_list i ≡ some s
    → IsSound y
    → IsSound (record y { net = filled i bytes s y.net })
fill-IsSound y i bytes s e v =
    let s' : Session = record s { recv_buf = bytes } in
    let slot = v.slots.slot i s e in
    record {
      slots = set-Slots y.pending y.net.session_list i s' v.slots (record {
        own_index = slot.own_index;
        idle = slot.idle;
        stamp = slot.stamp;
        op = slot.op;
        names = slot.names;
      });
      counts = same-Counts 0 i y.net s s' v.counts e refl;
    }

Step-IsSound : {y z : System} → Step y z → IsSound y → IsSound z
Step-IsSound {y} (io w c other e) v = io-IsSound y w c other e v
Step-IsSound {y} (accepted w c i s owed es eo e) v = accepted-IsSound y w c i s owed es eo e v
Step-IsSound {y} (visit now reply i s lt e) v = visit-IsSound now i reply s y lt e v
Step-IsSound {y} (flush t reply i e) v = flush-IsSound y t reply i e v
Step-IsSound {y} (fill i bytes s size e) v = fill-IsSound y i bytes s e v
Step-IsSound {y} (push j bytes e) v = push-IsSound y j bytes e v

pub Runs-IsSound_from : {y z : System} → Runs y z → IsSound y → IsSound z
Runs-IsSound_from here v = v
Runs-IsSound_from (next r st) v = Step-IsSound st (Runs-IsSound_from r v)
