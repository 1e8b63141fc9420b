-- ===== src/Network/Runs/Rings.antt =====
-- The send rings of the pool in the states that the network reaches.
use iocp_chatting.Config.{default_ringbuffer_size}
use iocp_chatting.Ring.Inv.{init-IsValid}
use iocp_chatting.Session
use iocp_chatting.Session.{Session}
use iocp_chatting.Network.{
  worker_round, sender_visit, send_packet, init_sessions, init_session_pool, accepter_visit,
}
use iocp_chatting.Network.Each.{
  set-Each, worker_round-HasEach, sender_visit-HasEach, send_packet-HasEach,
}
use iocp_chatting.Network.Rings.{HasRing, Rings, HasRings, rings-IsKept, visit-HasRing}
use iocp_chatting.Network.Runs.{
  System, Step, io, accepted, visit, flush, fill, push, Runs, here, next, started_with,
}
use iocp_chatting.Prelude.{
  ℕ, zero, suc, ◌+◌, ◌≡◌, refl, ap, subst, some, List, [], ◌∷◌, length, get_elem?, Ensures-some,
}
use mathlib.Core.Option.{some-injective}

cons-Rings :
    {s : Session} {len : ℕ} {ss : List Session}
    → HasRing s
    → Rings len ss
    → Rings (suc len) (s ∷ ss)
cons-Rings {s} {len} {ss} h v = record { full = ap suc v.full; slot = at }
  where
    at : (i : ℕ) (w : Session) → get_elem? (s ∷ ss) i ≡ some w → HasRing w
    at zero w e = subst HasRing (some-injective s w e) h
    at (suc i) w e = v.slot i w e

-- The pool as `InitSessionPool` leaves it, over storages of the right size.
init_sessions-Rings :
    (k : ℕ) (raws : List (List ℕ × List ℕ))
    → ((j : ℕ) (raw : List ℕ × List ℕ)
        → get_elem? raws j ≡ some raw
        → length raw.1 ≡ default_ringbuffer_size)
    → Rings (length raws) (init_sessions k raws)
unfolding init_sessions Session.init
init_sessions-Rings k [] h = record { full = refl; slot = λ i s e. cc }
init_sessions-Rings k ((recv_raw, send_raw) ∷ raws) h =
    cons-Rings (init-IsValid send_raw (h zero _ refl))
      (init_sessions-Rings (k + 1) raws λ j. h (suc j))

module _ (len : ℕ) where
  abbrev HasRingAt : ℕ → Session → Type 0
  HasRingAt i s = HasRing s

  Step-HasRings : {y z : System} → Step y z → HasRings len y.net → HasRings len z.net
  Step-HasRings {y} (io w c other e) v =
      Ensures-some (λ r. HasRings len r.1) (worker_round w c y.net)
        (worker_round-HasEach HasRingAt len _ (rings-IsKept len) w c y.net (λ i j eq ei. tt) v) e
  Step-HasRings {y} (accepted w c i s owed es eo e) v =
      Ensures-some (λ r. HasRings len r.1) (worker_round w c y.net)
        (worker_round-HasEach HasRingAt len _ (rings-IsKept len) w c y.net (λ i j eq ei. tt) v) e
  Step-HasRings {y} (visit now reply i s lt e) v =
      set-Each HasRingAt len y.net.session_list i (accepter_visit now reply s) v
        (visit-HasRing now reply s (v.slot i s e))
  Step-HasRings {y} (flush t reply i e) v =
      Ensures-some (HasRings len) (sender_visit t reply i y.net)
        (sender_visit-HasEach HasRingAt len _ (rings-IsKept len) t reply i y.net v) e
  Step-HasRings {y} (fill i bytes s size e) v =
      set-Each HasRingAt len y.net.session_list i (record s { recv_buf = bytes }) v (v.slot i s e)
  Step-HasRings {y} (push j bytes e) v =
      Ensures-some (HasRings len) (send_packet j bytes y.net)
        (send_packet-HasEach HasRingAt len _ (rings-IsKept len) j bytes y.net v) e

  Runs-HasRings_from : {y z : System} → Runs y z → HasRings len y.net → HasRings len z.net
  Runs-HasRings_from here v = v
  Runs-HasRings_from (next r st) v = Step-HasRings st (Runs-HasRings_from r v)

-- Every session of every state that the network reaches has a valid send ring.
pub Runs-HasRings :
    (l iocp : ℕ) (raws : List (List ℕ × List ℕ)) {z : System}
    → ((j : ℕ) (raw : List ℕ × List ℕ)
        → get_elem? raws j ≡ some raw
        → length raw.1 ≡ default_ringbuffer_size)
    → Runs (started_with l iocp raws) z
    → HasRings (length raws) z.net
unfolding init_session_pool
Runs-HasRings l iocp raws h r = Runs-HasRings_from (length raws) r (init_sessions-Rings 0 raws h)
