-- ===== src/Session/Send.antt =====
-- `Session::BindSend`: which bytes a send hands to the system, and which leave the ring.
use iocp_chatting.ErrorHandler.{handle_socket}
use iocp_chatting.Ring
use iocp_chatting.Ring.Contents.{contents, contents-move_front}
use iocp_chatting.Ring.Inv.{IsValid, move_front-IsValid}
use iocp_chatting.Ring.Spans.{spans-contents, in_use_of_span}
use iocp_chatting.Session.{Session, WsaBuf, SendReply, io_pending, set_wsa_buf, bind_send}
use iocp_chatting.Prelude.{
  ℕ, zero, suc, ◌-◌, ◌≤◌, ◌≡◌, refl, ◌∙◌, ap, true, false, List, [], ◌∷◌, ◌++◌, append-nil, ltb,
  Bool-cases, take, drop, arith, inl, inr, negsuc, sym, subst,
}

-- The bytes that a list of `WSABUF`s names, in order.
abbrev pub wsa_bytes : List WsaBuf → List ℕ
wsa_bytes [] = []
wsa_bytes (w ∷ ws) = take w.len w.buf ++ wsa_bytes ws

take_zero : (n : ℕ) (l : List ℕ) → n ≡ 0 → take n l ≡ []
take_zero zero l h = refl
take_zero (suc n) l h = absurd (omega arith)

-- The buffers that `SetWsaBuf` prepares, one or two, name exactly the bytes of the send ring, in
-- order.
pub set_wsa_buf-contents :
    (s : Session) → IsValid s.send_buf → wsa_bytes (set_wsa_buf s) ≡ contents s.send_buf
unfolding set_wsa_buf
set_wsa_buf-contents s v =
    elim (Bool-cases
      (ltb (Ring.get_continuous_dequeue_size s.send_buf) (Ring.get_size_in_use s.send_buf))) [
        | inl e ↦ rw (e, append-nil) (spans-contents v)
        | inr e ↦ rw e (ap (◌++◌ front) (sym (nothing e)) ∙ spans-contents v)
      ]
  where
    open s use {send_buf}

    front : List ℕ
    front = take (Ring.get_continuous_dequeue_size send_buf) (Ring.get_front_buffer_ptr send_buf)

    nothing :
        ltb (Ring.get_continuous_dequeue_size send_buf) (Ring.get_size_in_use send_buf) ≡ false
        → take
            (Ring.get_size_in_use send_buf - Ring.get_continuous_dequeue_size send_buf)
            (Ring.get_buffer_ptr send_buf)
          ≡ []
    nothing e = take_zero _ (Ring.get_buffer_ptr send_buf) (in_use_of_span v e)

-- Whatever the system answers, a send that is started hands over the bytes of the ring.
bind_send-posted :
    (reply : SendReply) (s : Session)
    → IsValid s.send_buf
    → s.is_sending ≡ false
    → wsa_bytes (bind_send reply s).1 ≡ contents s.send_buf
unfolding bind_send
bind_send-posted reply s v idle =
    let posted = set_wsa_buf-contents (record s { is_sending = true }) v in
    elim (Bool-cases (handle_socket reply.send_ret reply.code (io_pending ∷ []))) [
      | inl e ↦ rw (idle, e) posted
      | inr e ↦ rw (idle, e) posted
    ]

-- A send that is started, because none is under way, and that the system takes, hands over all bytes
-- of the ring in order, and removes the `sent_bytes` first ones if there are so many.
pub bind_send_posts :
    (reply : SendReply) (s : Session)
    → IsValid s.send_buf
    → s.is_sending ≡ false
    → handle_socket reply.send_ret reply.code (io_pending ∷ []) ≡ true
    → reply.sent_bytes ≤ Ring.get_size_in_use s.send_buf
    → let (result, posted, s') = bind_send reply s in
      (result ≡ true)
      × (wsa_bytes posted ≡ contents s.send_buf)
      × (contents s'.send_buf ≡ drop reply.sent_bytes (contents s.send_buf))
      × (s'.is_sending ≡ true)
unfolding bind_send
bind_send_posts reply s v idle taken le =
    rw (idle, taken)
      (
        refl,
        set_wsa_buf-contents (record s { is_sending = true }) v,
        contents-move_front reply.sent_bytes v le,
        refl,
      )

-- The result and the ring after such a send.
module _ (reply : SendReply) (s : Session) (idle : s.is_sending ≡ false)
    (taken : handle_socket reply.send_ret reply.code (io_pending ∷ []) ≡ true) where
  bind_send-result : (bind_send reply s).0 ≡ true
  unfolding bind_send
  bind_send-result = rw (idle, taken)

  pub bind_send-ring : (bind_send reply s).2.send_buf ≡ Ring.move_front s.send_buf reply.sent_bytes
  unfolding bind_send
  bind_send-ring = simp (idle, taken)

-- What `WSASend` gives when the operation is left pending.
abbrev pub pending : SendReply
pending = record { send_ret = negsuc 0; code = io_pending; sent_bytes = 0 }

pending-taken : handle_socket pending.send_ret pending.code (io_pending ∷ []) ≡ true
unfolding handle_socket
pending-taken = refl

-- A send that the system leaves pending, with no byte sent at once, removes nothing from the ring,
-- and neither does its completion: the next send hands over the same bytes again.
pub pending_send_repeats :
    (reply : SendReply) (s : Session)
    → IsValid s.send_buf
    → s.is_sending ≡ false
    → let (result, posted, s') = bind_send pending s in
      let (_, posted_again, _) = bind_send reply (record s' { is_sending = false }) in
      (result ≡ true)
      × (wsa_bytes posted ≡ contents s.send_buf)
      × (wsa_bytes posted_again ≡ contents s.send_buf)
pending_send_repeats reply s v idle =
    (bind_send-result pending s idle pending-taken, bind_send-posted pending s v idle, again ∙ same)
  where
    s' : Session
    s' = record ((bind_send pending s).2) { is_sending = false }

    e : s'.send_buf ≡ Ring.move_front s.send_buf 0
    e = bind_send-ring pending s idle pending-taken

    again : wsa_bytes (bind_send reply s').1 ≡ contents s'.send_buf
    again = bind_send-posted reply s' (subst IsValid (sym e) (move_front-IsValid 0 v)) refl

    same : contents s'.send_buf ≡ contents s.send_buf
    same = ap contents e ∙ contents-move_front 0 v (omega arith)
