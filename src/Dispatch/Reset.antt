-- ===== src/Dispatch/Reset.antt =====
-- The handlers of the server's own packets are bound in the same table as those of clients' packets.
use iocp_chatting.Bytes.{u16_of}
use iocp_chatting.Config.{max_user_cnt}
use iocp_chatting.Packet.{PacketInfo, packet_id_code, sys_user_connect}
use iocp_chatting.Ring
use iocp_chatting.Ring.{RingBuffer, get_size_in_use}
use iocp_chatting.Ring.Contents.{contents, length-contents}
use iocp_chatting.Ring.Inv.{in_use-lt-size, in_use-move_front_cleared}
use iocp_chatting.User
use iocp_chatting.User.{User, none_state}
use iocp_chatting.User.Framing.{packet_of}
use iocp_chatting.Users
use iocp_chatting.Users.{user_at}
use iocp_chatting.Room.Broadcast.{to_u32-slot}
use iocp_chatting.PacketManager.{State, connect_handler}
use iocp_chatting.PacketManager.Login.{get_user-resize}
use iocp_chatting.Dispatch.{
  packet_handler, call_handler, dequeue_packet, process_packet, process_if, user_packet_round,
  complete, connect,
}
use iocp_chatting.Dispatch.Complete.{
  taken, completed, complete_lem, completed-users, completed-queued, taken-domain_state,
}
use iocp_chatting.Dispatch.Stuck.{Holds, get_packet-Holds}
use iocp_chatting.Prelude.{
  get_elem?-lt, ℕ, ◌-◌, ◌<◌, ◌≡◌, refl, ap, ◌∙◌, false, [], ◌++◌, some, List, ◌∷◌, arith,
  length-set, set, get_elem?-set_self, ℤ, pos, to_int32,
}

taken-packet_buf :
    (pkt : PacketInfo) (u : User) → (taken pkt u).packet_buf ≡ Ring.move_front u.packet_buf pkt.size
unfolding User.complete_process
taken-packet_buf pkt u = ground arith

complete_unfinished :
    (n : ℕ) (u : User) {left : ℕ}
    → get_size_in_use (Ring.move_front u.packet_buf n) ≡ left
    → 0 < left
    → (User.complete_process n u).0 ≡ false
unfolding User.complete_process
complete_unfinished n u e lt = ground (arith, e, lt)

module _ (past_end : List ℕ → List ℕ) (s : State) (queue : List ℤ) (p size : ℕ) (u : User)
    (own : p < max_user_cnt) (eq : s.incoming_packet_user_index_queue ≡ pos p ∷ queue)
    (ei : Users.get_user_by_index s.users (pos p) ≡ some p) (eu : user_at s.users p ≡ some u)
    (index : u.session_idx ≡ pos p) (h : Holds u (packet_id_code sys_user_connect) size)
    (some_bytes : 0 < size) where
  abbrev pkt : PacketInfo
  pkt = packet_of u (contents u.packet_buf)

  abbrev cleared : State
  cleared = record s {
    incoming_packet_user_index_queue = queue;
    users = record (s.users) { user_obj_pool = set s.users.user_obj_pool p (User.clear u) };
  }

  of_slot : to_int32 pkt.session_index ≡ pos p
  of_slot = rw (index, to_u32-slot p own) (ground (arith, own))

  handled :
      connect_handler pkt.session_index (record s { incoming_packet_user_index_queue = queue })
      ≡ some cleared
  unfolding connect_handler Users.update_user
  handled = rw (of_slot, ei, eu) refl

  finished : complete pkt cleared ≡ some (completed pkt p (User.clear u) cleared)
  finished =
      complete_lem pkt cleared p (User.clear u)
        (get_user-resize s.users cleared.users (to_int32 pkt.session_index)
          (length-set s.users.user_obj_pool p _) (rw of_slot ei))
        (get_elem?-set_self s.users.user_obj_pool p _ (get_elem?-lt s.users.user_obj_pool p eu))

  round : user_packet_round past_end s ≡ some (completed pkt p (User.clear u) cleared)
  unfolding user_packet_round dequeue_packet process_if process_packet call_handler
  round =
      let handler : packet_handler (u16_of (contents u.packet_buf) 2) ≡ some connect =
        ap packet_handler h.id_field ∙ (unfold packet_handler in refl) in
      rw (eq, ei, eu, get_packet-Holds u _ size h, handler, handled, finished)

  -- A packet that a client sends itself, with the identifier 11 of the server's notice of a
  -- connection and a size that is not 0, makes the packet thread clear the user and its ring, and
  -- then take the packet off the ring that is empty by now: all of the storage but the packet's
  -- bytes is in use after that, and the user is queued again to have it read as packets.
  pub forged_connect :
      (t : State) × (w : User) × (user_packet_round past_end s ≡ some t)
      × (user_at t.users p ≡ some w)
      × (w.domain_state ≡ none_state)
      × (get_size_in_use w.packet_buf ≡ u.packet_buf.size - size)
      × (t.incoming_packet_user_index_queue ≡ queue ++ (pos p ∷ []))
  unfolding User.clear
  forged_connect =
      let lt : size < u.packet_buf.size =
        omega (arith, h.whole, length-contents u.packet_buf, in_use-lt-size h.ring) in
      (
        completed pkt p (User.clear u) cleared,
        taken pkt (User.clear u),
        round,
        ap (λ m. user_at m p) (completed-users pkt p (User.clear u) cleared)
            ∙ get_elem?-set_self cleared.users.user_obj_pool p _
                (rw (length-set s.users.user_obj_pool p) (get_elem?-lt s.users.user_obj_pool p eu)),
        taken-domain_state pkt (User.clear u),
        ap get_size_in_use (taken-packet_buf pkt (User.clear u))
            ∙ ap (λ k. get_size_in_use (Ring.move_front (Ring.clear_buffer u.packet_buf) k))
                h.size_field
            ∙ in_use-move_front_cleared u.packet_buf size some_bytes lt,
        completed-queued pkt p (User.clear u) cleared (
              complete_unfinished pkt.size (User.clear u)
                (ap (λ k. get_size_in_use (Ring.move_front (Ring.clear_buffer u.packet_buf) k))
                    h.size_field
                  ∙ in_use-move_front_cleared u.packet_buf size some_bytes lt)
                (omega (arith, lt)))
            ∙ ap (λ k. queue ++ (k ∷ [])) of_slot,
      )
