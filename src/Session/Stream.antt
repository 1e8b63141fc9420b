-- ===== src/Session/Stream.antt =====
-- A session's send ring between `Network::SendPacket`, which fills it from the packet thread, and
-- `Session::BindSend` and the send completions, which the sender and the workers run, and the clears of
-- `Session::Activate` and `Network::ClearSession`.
use iocp_chatting.ErrorHandler.{handle_socket}
use iocp_chatting.Network.{close_session, clear_session}
use iocp_chatting.Ring.{RingBuffer, clear_buffer, get_free_size, get_size_in_use}
use iocp_chatting.Ring.Contents.{contents}
use iocp_chatting.Ring.Enqueue.{enqueue-Stored}
use iocp_chatting.Ring.Inv.{IsValid, move_front-IsValid, clear_buffer-IsValid}
use iocp_chatting.Session.{Session, SendReply, io_pending, bind_send, enqueue_send_data, activate}
use iocp_chatting.Session.Send.{wsa_bytes, bind_send_posts, bind_send-ring}
use iocp_chatting.Prelude.{
  ℕ, ◌≤◌, ◌≡◌, refl, sym, ap, ◌∙◌, Bool, true, false, Bool-cases, inl, inr, List, [], ◌++◌,
  append-nil, append_assoc, take, take-append-drop, subst, if◌then◌else◌, ◌∷◌,
}

-- The bytes of a send that the system reports as sent, out of the buffers that it was handed.
unfoldable pub reported_sent : SendReply → Session → List ℕ
reported_sent reply s =
    if s.is_sending
    then []
    else if handle_socket reply.send_ret reply.code (io_pending ∷ [])
    then take reply.sent_bytes (wsa_bytes (bind_send reply s).1)
    else []

-- Bytes that leave the ring: the system reports them as sent, or they are cleared with the ring.
pub data Chunk : Type 0 where
  reported cleared : List ℕ → Chunk

abbrev pub chunk_bytes : Chunk → List ℕ
chunk_bytes (reported bytes) = bytes
chunk_bytes (cleared bytes) = bytes

abbrev pub out_bytes : List Chunk → List ℕ
out_bytes [] = []
out_bytes (x ∷ xs) = chunk_bytes x ++ out_bytes xs

-- One use of the send ring, with the bytes that it was given and those that left it. The system reports
-- no more bytes than it was handed. `Activate` clears the ring, and so does `CloseSocket` of a session in
-- use.
pub data Step : Session → List ℕ → Chunk → Session → Type 0 where
  enqueued :
      {s : Session} (bytes : List ℕ)
      → Step s (take (get_free_size s.send_buf) bytes) (reported []) (enqueue_send_data bytes s).1
  send_bound :
      {s : Session} (reply : SendReply)
      → reply.sent_bytes ≤ get_size_in_use s.send_buf
      → Step s [] (reported (reported_sent reply s)) (bind_send reply s).2
  send_completed : {s : Session} → Step s [] (reported []) (record s { is_sending = false })
  activated : {s : Session} → Step s [] (cleared (contents s.send_buf)) (activate s)
  closed :
      {s : Session} (cur_time : ℕ)
      → Step s []
          (cleared (if s.is_activated then contents s.send_buf else []))
          (close_session cur_time s)

-- A run, with all the bytes in the order of its steps.
pub data Run : Session → List ℕ → List Chunk → Session → Type 0 where
  start : {s : Session} → Run s [] [] s
  next :
      {s t u : Session} {given given' : List ℕ} {x : Chunk} {xs : List Chunk}
      → Step s given x t
      → Run t given' xs u
      → Run s (given ++ given') (x ∷ xs) u

-- The ring stays valid, and nothing is lost, repeated or put out of order on its way through it.
pub record Carries (s : Session) (given sent : List ℕ) (t : Session) : Type 0 where
  pub ring : IsValid t.send_buf
  pub stream : contents s.send_buf ++ given ≡ sent ++ contents t.send_buf

idle-Carries : (s t : Session) → IsValid s.send_buf → s.send_buf ≡ t.send_buf → Carries s [] [] t
idle-Carries s t v e = record { ring = subst IsValid e v; stream = append-nil _ ∙ ap contents e }

-- A call of `BindSend` that sends nothing: another send is under way, or the system refuses it.
abbrev sends : SendReply → Session → Bool
sends reply s =
    if s.is_sending then false else handle_socket reply.send_ret reply.code (io_pending ∷ [])

sends_nothing :
    (reply : SendReply) (s : Session)
    → sends reply s ≡ false
    → (reported_sent reply s ≡ []) × ((bind_send reply s).2.send_buf ≡ s.send_buf)
unfolding reported_sent bind_send
sends_nothing reply s h = elim (Bool-cases s.is_sending) [
  | inl busy ↦ (simp busy, simp busy)
  | inr idle ↦ let failed = (simp idle at h) in (simp (idle, failed), simp (idle, failed))
]

taken-Carries :
    (reply : SendReply) (s : Session)
    → IsValid s.send_buf
    → reply.sent_bytes ≤ get_size_in_use s.send_buf
    → s.is_sending ≡ false
    → handle_socket reply.send_ret reply.code (io_pending ∷ []) ≡ true
    → Carries s [] (reported_sent reply s) (bind_send reply s).2
unfolding reported_sent
taken-Carries reply s v le idle taken =
    let (_, posted, left, _) = bind_send_posts reply s v idle taken le in
    let sent : reported_sent reply s ≡ take reply.sent_bytes (contents s.send_buf) =
      (simp (idle, taken)) ∙ ap (take reply.sent_bytes) posted in
    record {
      ring =
          subst IsValid (sym (bind_send-ring reply s idle taken))
            (move_front-IsValid reply.sent_bytes v);
      stream =
          append-nil _
          ∙ sym (take-append-drop reply.sent_bytes (contents s.send_buf))
          ∙ rw (sent, left) refl;
    }

sends_nothing-Carries :
    (reply : SendReply) (s : Session)
    → IsValid s.send_buf
    → sends reply s ≡ false
    → Carries s [] (reported_sent reply s) (bind_send reply s).2
sends_nothing-Carries reply s v h =
    let (sent, same) = sends_nothing reply s h in
    record { ring = subst IsValid (sym same) v; stream = append-nil _ ∙ sym (rw (sent, same) refl) }

bind_send-Carries :
    (reply : SendReply) (s : Session)
    → IsValid s.send_buf
    → reply.sent_bytes ≤ get_size_in_use s.send_buf
    → Carries s [] (reported_sent reply s) (bind_send reply s).2
bind_send-Carries reply s v le = elim (Bool-cases s.is_sending) [
  | inl busy ↦ sends_nothing-Carries reply s v (simp busy)
  | inr idle ↦ elim (Bool-cases (handle_socket reply.send_ret reply.code (io_pending ∷ []))) [
    | inl taken ↦ taken-Carries reply s v le idle taken
    | inr failed ↦ sends_nothing-Carries reply s v (simp (idle, failed))
  ]
]

contents-clear_buffer : (r : RingBuffer) → contents (clear_buffer r) ≡ []
unfolding clear_buffer get_size_in_use
contents-clear_buffer r = refl

emptied-Carries :
    (s t : Session)
    → IsValid s.send_buf
    → t.send_buf ≡ clear_buffer s.send_buf
    → Carries s [] (contents s.send_buf) t
emptied-Carries s t v e = record {
  ring = subst IsValid (sym e) (clear_buffer-IsValid v);
  stream =
      ap (λ xs. contents s.send_buf ++ xs)
        (sym (contents-clear_buffer s.send_buf) ∙ ap contents (sym e));
}

closed-Carries :
    (cur_time : ℕ) (s : Session)
    → IsValid s.send_buf
    → Carries s [] (if s.is_activated then contents s.send_buf else []) (close_session cur_time s)
unfolding close_session clear_session
closed-Carries cur_time s v = elim (Bool-cases s.is_activated) [
  | inl used ↦ subst from (sym used) (emptied-Carries s _ v (simp used))
  | inr idle ↦ subst from (sym idle) (idle-Carries s _ v (simp idle))
]
  where
    from : Bool → Type 0
    from b = Carries s [] (if b then contents s.send_buf else []) (close_session cur_time s)

Step-Carries :
    {s t : Session} {given : List ℕ} {x : Chunk}
    → IsValid s.send_buf
    → Step s given x t
    → Carries s given (chunk_bytes x) t
unfolding enqueue_send_data activate
Step-Carries v (enqueued {s} bytes) =
    let stored = enqueue-Stored bytes v in record { ring = stored.valid; stream = sym stored.bytes }
Step-Carries v (send_bound {s} reply le) = bind_send-Carries reply s v le
Step-Carries v (send_completed {s}) = idle-Carries s _ v refl
Step-Carries v (activated {s}) = emptied-Carries s (activate s) v refl
Step-Carries v (closed {s} cur_time) = closed-Carries cur_time s v

-- Over any run of the uses of a session's send ring, its clears among them, in any order: the bytes
-- that it held and then those that it was given are, in order, the bytes that left it, each reported as
-- sent by a call of `WSASend` or cleared when the session is activated or closed, and then those that it
-- still holds. The ring stays valid. Given are, of each packet, the bytes that there was space for; each
-- send may go ahead, be refused, or find another one under way, and the system never reports more
-- bytes than it was handed. Bytes of a send that is left pending are reported by no call, and stay.
pub Run-stream :
    {s t : Session} {given : List ℕ} {out : List Chunk}
    → IsValid s.send_buf
    → Run s given out t
    → IsValid t.send_buf × (contents s.send_buf ++ given ≡ out_bytes out ++ contents t.send_buf)
Run-stream v start = (v, append-nil _)
Run-stream v (next {s} {t} {u} {given} {given'} {x} {xs} step run) =
    let first = Step-Carries v step in
    let rest = Run-stream first.ring run in
    (
      rest.0,
      sym (append_assoc (contents s.send_buf) given given')
          ∙ ap (λ ys. ys ++ given') first.stream
          ∙ append_assoc (chunk_bytes x) (contents t.send_buf) given'
          ∙ ap (λ ys. chunk_bytes x ++ ys) rest.1
          ∙ sym (append_assoc (chunk_bytes x) (out_bytes xs) (contents u.send_buf)),
    )
