-- ===== src/ChatServer/Send.antt =====
-- The other side of `SetDelegate` (Content/chat_server.cpp): the send function that the packet thread
-- and the rooms are given is `Network::SendPacket`. What the chat logic sends ends in the send rings.
use iocp_chatting.Config.{max_session_cnt}
use iocp_chatting.Packet.{Sent}
use iocp_chatting.Packet.Wire.{to_bytes}
use iocp_chatting.Ring
use iocp_chatting.Ring.{RingBuffer, get_free_size, get_size_in_use}
use iocp_chatting.Ring.Inv.{IsValid, in_use-lt-size, free-add-in_use}
use iocp_chatting.Ring.Contents.{contents, length-contents}
use iocp_chatting.Ring.Enqueue.{enqueue-Stored}
use iocp_chatting.Session.{Session, enqueue_send_data}
use iocp_chatting.Network.{Network, send_packet, update_session, get_session_by_idx}
use iocp_chatting.Network.Total.{Full}
use iocp_chatting.Prelude.{
  ℕ, ◌-◌, ◌<◌, ◌≡◌, ◌≢◌, refl, sym, ap, ◌∙◌, subst, Bool, true, false, Option, none, some, List, [],
  ◌∷◌, ◌++◌, append-nil, append_assoc, ◌==◌, length, length-set, take, take-append, take_all,
  get_elem?, set, get_elem?_of_lt, get_elem?-lt, get_elem?-set_self, get_elem?-set_ne,
  if◌then◌else◌, ◌>>=◌, ℤ, pos, negsuc, to_int32, Bool-cases, inl, inr, arith,
}

module _ (type : ℕ) (stale : List ℕ) where
  -- `SendPacketFunc`, whose index becomes an `int32_t` again, and whose length is the packet's size.
  unfoldable pub send_packet_func : Sent → Network → Option Network
  send_packet_func (i, pkt) n = send_packet (to_int32 i) (to_bytes type stale pkt) n

  -- The calls in their order.
  unfoldable pub send_all : List Sent → Network → Option Network
  send_all [] n = some n
  send_all (x ∷ xs) n = do n' ← send_packet_func x n; send_all xs n'

  -- Whether a packet is for session `q`.
  abbrev pub is_for : ℕ → Option ℕ → Bool
  is_for q none = false
  is_for q (some k) = k == q

  -- The bytes of the packets for session `q`, one after the other.
  unfoldable pub bytes_for : ℕ → List Sent → List ℕ
  bytes_for q [] = []
  bytes_for q ((i, pkt) ∷ xs) =
      let rest = bytes_for q xs in
      if is_for q (get_session_by_idx (to_int32 i)) then to_bytes type stale pkt ++ rest else rest

-- A session of the pool, and the bytes that its send ring was given since it was empty, of which it
-- holds as many as it has space for.
record Holds (q : ℕ) (bytes : List ℕ) (size : ℕ) (n : Network) : Type 0 where
  pool : Full n
  session : Session
  found : get_elem? n.session_list q ≡ some session
  ring : IsValid session.send_buf
  bytes_in : contents session.send_buf ≡ take (size - 1) bytes
  ring_size : session.send_buf.size ≡ size

free_of_contents : {r : RingBuffer} → IsValid r → get_free_size r ≡ r.size - 1 - length (contents r)
free_of_contents {r} v = omega (arith, length-contents r, free-add-in_use v)

-- A packet for the session is appended, as far as it fits.
pushed_self-Holds :
    (q : ℕ) (src bytes : List ℕ) (size : ℕ) (n : Network)
    → Holds q bytes size n
    → (n' : Network) × (update_session q (λ s. (enqueue_send_data src s).1) n ≡ some n')
      × Holds q (bytes ++ src) size n'
unfolding update_session enqueue_send_data
pushed_self-Holds q src bytes size n v =
    let s = v.session in
    let stored = enqueue-Stored src v.ring in
    let s' : Session = record s { send_buf = (Ring.enqueue s.send_buf src).1 } in
    let free : get_free_size s.send_buf ≡ size - 1 - length (take (size - 1) bytes) =
      free_of_contents v.ring ∙ rw (v.bytes_in, v.ring_size) refl in
    (
      record n { session_list = set n.session_list q s' },
      rw (v.found) refl,
      record {
        pool = length-set n.session_list q s' ∙ v.pool;
        session = s';
        found = get_elem?-set_self n.session_list q s' (get_elem?-lt n.session_list q v.found);
        ring = stored.valid;
        bytes_in =
            stored.bytes
            ∙ ap (λ xs. xs ++ take (get_free_size s.send_buf) src) v.bytes_in
            ∙ ap (λ k. take (size - 1) bytes ++ take k src) free
            ∙ sym (take-append (size - 1) bytes src);
        ring_size = stored.size ∙ v.ring_size;
      },
    )

-- A packet for another session of the pool leaves it alone, whether or not it fits there.
pushed_other-Holds :
    (q k : ℕ) (src bytes : List ℕ) (size : ℕ) (n : Network)
    → k < max_session_cnt
    → k ≢ q
    → Holds q bytes size n
    → (n' : Network) × (update_session k (λ s. (enqueue_send_data src s).1) n ≡ some n')
      × Holds q bytes size n'
unfolding update_session enqueue_send_data
pushed_other-Holds q k src bytes size n lt other v =
    let (w, ew) = get_elem?_of_lt n.session_list k (omega (arith, v.pool)) in
    let w' : Session = record w { send_buf = (Ring.enqueue w.send_buf src).1 } in
    (
      record n { session_list = set n.session_list k w' },
      rw ew refl,
      record {
        pool = length-set n.session_list k w' ∙ v.pool;
        session = v.session;
        found = get_elem?-set_ne n.session_list w' other ∙ v.found;
        ring = v.ring;
        bytes_in = v.bytes_in;
        ring_size = v.ring_size;
      },
    )

session-lt : (j : ℤ) {k : ℕ} → get_session_by_idx j ≡ some k → k < max_session_cnt
unfolding get_session_by_idx
session-lt (pos i) e = ground arith
session-lt (negsuc i) e = cc

module _ (type : ℕ) (stale : List ℕ) (q size : ℕ) where
  -- One call of the send function, for the session that the index stands for.
  pushed-Holds :
      (o : Option ℕ) (src bytes : List ℕ) (n : Network)
      → ((k : ℕ) → o ≡ some k → k < max_session_cnt)
      → Holds q bytes size n
      → (n' : Network) × (elim o [
        | none ↦ some n
        | some k ↦ update_session k (λ s. (enqueue_send_data src s).1) n
      ]
          ≡ some n')
        × Holds q (if is_for type stale q o then bytes ++ src else bytes) size n'
  pushed-Holds none src bytes n lt v = (n, refl, v)
  pushed-Holds (some k) src bytes n lt v = elim (Bool-cases (k == q)) [
    | inl mine ↦ rw mine (
        subst
          (λ j.
            (n' : Network) × (update_session j (λ s. (enqueue_send_data src s).1) n ≡ some n')
            × Holds q (bytes ++ src) size n')
          (ground (arith, mine)) (pushed_self-Holds q src bytes size n v))
    | inr other ↦
        rw other
          (pushed_other-Holds q k src bytes size n (lt k refl) (λ e. ground (arith, other, e)) v)
  ]

  append_if :
      (b : Bool) (bytes src rest : List ℕ)
      → (if b then bytes ++ src else bytes) ++ rest ≡ bytes ++ (if b then src ++ rest else rest)
  append_if true bytes src rest = append_assoc bytes src rest
  append_if false bytes src rest = refl

  send_all-Holds :
      (xs : List Sent) (bytes : List ℕ) (n : Network)
      → Holds q bytes size n
      → (n' : Network) × (send_all type stale xs n ≡ some n')
        × Holds q (bytes ++ bytes_for type stale q xs) size n'
  unfolding send_all bytes_for send_packet_func send_packet
  send_all-Holds [] bytes n v = (n, refl, rw append-nil v)
  send_all-Holds ((i, pkt) ∷ xs) bytes n v =
      let o = get_session_by_idx (to_int32 i) in
      let src = to_bytes type stale pkt in
      let rest = bytes_for type stale q xs in
      let (n₁, run₁, v₁) = pushed-Holds o src bytes n (λ k. session-lt (to_int32 i)) v in
      let (n₂, run₂, v₂) = send_all-Holds xs _ n₁ v₁ in
      (
        n₂,
        rw run₁ run₂,
        subst (λ ys. Holds q ys size n₂) (append_if (is_for type stale q o) bytes src rest) v₂,
      )

-- The packets that the chat logic sends, over a full pool: no call faults, and the send ring of a
-- session ends up with what it held and then the bytes of the packets that are for the session, in the
-- order of the calls, whatever is sent to the others. If they do not all fit, it has exactly as many of
-- these bytes as it had space for, so the packet at that point is cut and what comes after it is lost.
pub send_all-appends :
    (type : ℕ) (stale : List ℕ) (xs : List Sent) (q : ℕ) (s : Session) (n : Network)
    → Full n
    → get_elem? n.session_list q ≡ some s
    → IsValid s.send_buf
    → (n' : Network) × (s' : Session) × (send_all type stale xs n ≡ some n')
      × (get_elem? n'.session_list q ≡ some s')
      × (contents s'.send_buf
          ≡ contents s.send_buf ++ take (get_free_size s.send_buf) (bytes_for type stale q xs))
send_all-appends type stale xs q s n full e v =
    let size = s.send_buf.size in
    let held : take (size - 1) (contents s.send_buf) ≡ contents s.send_buf =
      take_all (size - 1) (contents s.send_buf)
        (omega (arith, length-contents s.send_buf, in_use-lt-size v)) in
    let (n', run, h) = send_all-Holds type stale q size xs (contents s.send_buf) n (record {
      pool = full;
      session = s;
      found = e;
      ring = v;
      bytes_in = sym held;
      ring_size = refl;
    }) in
    (
      n',
      h.session,
      run,
      h.found,
      h.bytes_in
          ∙ take-append (size - 1) (contents s.send_buf) (bytes_for type stale q xs)
          ∙ ap (λ ys. ys ++ take (size - 1 - length ys) (bytes_for type stale q xs)) held
          ∙ ap (λ k. contents s.send_buf ++ take k (bytes_for type stale q xs))
              (sym (free_of_contents v)),
    )
