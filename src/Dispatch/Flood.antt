-- ===== src/Dispatch/Flood.antt =====
-- A packet whose size field is 0.
use iocp_chatting.Config.{max_user_cnt}
use iocp_chatting.Packet.{
  PacketInfo, Sent, packet_id_code, room_leave_request, user_not_in_room, read_room_leave_request,
}
use iocp_chatting.Ring
use iocp_chatting.Ring.{RingBuffer}
use iocp_chatting.Ring.Inv.{move_front_none}
use iocp_chatting.Ring.Contents.{contents, length-contents}
use iocp_chatting.User
use iocp_chatting.User.{User, room_state, state_eq}
use iocp_chatting.User.Framing.{packet_of}
use iocp_chatting.Users
use iocp_chatting.Users.{user_at}
use iocp_chatting.Room.Broadcast.{to_u32-slot}
use iocp_chatting.Redis
use iocp_chatting.PacketManager.{State, send_packet, leave_room_handler, leave_response}
use iocp_chatting.Dispatch.{
  packet_handler, call_handler, dequeue_packet, dequeue_system_packet, get_task_res, complete,
  process_packet, process_if, user_packet_round, system_packet_round, redis_round, process_round,
  leave_room,
}
use iocp_chatting.Dispatch.Complete.{complete_lem}
use iocp_chatting.Dispatch.Stuck.{Holds, get_packet-Holds}
use iocp_chatting.Prelude.{
  ℕ, zero, suc, ◌<◌, ◌≡◌, refl, ap, ◌∙◌, false, Option, some, List, [], ◌∷◌, ◌++◌, append-nil,
  append_assoc, replicate, set-get_elem?, ◌>>=◌, pos, to_int32, arith,
}

-- Rounds of the packet thread's loop, one after the other.
unfoldable pub rounds : (List ℕ → List ℕ) → ℕ → State → Option State
rounds past_end zero s = some s
rounds past_end (suc n) s = process_round past_end s >>= rounds past_end n

leave_refused :
    (i p : ℕ) (bytes header : List ℕ) (u : User) (s : State)
    → Users.get_user_by_index s.users (to_int32 i) ≡ some p
    → user_at s.users p ≡ some u
    → read_room_leave_request bytes ≡ some header
    → state_eq u.domain_state room_state ≡ false
    → leave_room_handler i bytes s ≡ some (send_packet i (leave_response user_not_in_room) s)
unfolding leave_room_handler
leave_refused i p bytes header u s ei eu er away = rw (er, ei, eu, away)

module _ (past_end : List ℕ → List ℕ) (s : State) (p : ℕ) (u : User) (header : List ℕ)
    (own : p < max_user_cnt) (ei : Users.get_user_by_index s.users (pos p) ≡ some p)
    (eu : user_at s.users p ≡ some u) (index : u.session_idx ≡ pos p)
    (h : Holds u (packet_id_code room_leave_request) 0)
    (eh : read_room_leave_request (Ring.get_front_buffer_ptr u.packet_buf) ≡ some header)
    (away : state_eq u.domain_state room_state ≡ false)
    (no_answer : s.redis.task_res_queue ≡ []) where
  abbrev told : Sent
  told = (p, leave_response user_not_in_room)

  -- The state when the user's index alone is queued, and no notice.
  abbrev waiting : List Sent → State
  waiting out = record s {
    incoming_packet_user_index_queue = pos p ∷ [];
    system_packet_queue = [];
    sent = out;
  }

  abbrev pkt : PacketInfo
  pkt = packet_of u (contents u.packet_buf)

  of_slot : to_int32 pkt.session_index ≡ pos p
  of_slot = rw (index, to_u32-slot p own) (ground (arith, own))

  from_slot : pkt.session_index ≡ p
  from_slot = rw (index, to_u32-slot p own) refl

  -- Nothing is taken off the ring.
  nothing_taken : User.complete_process pkt.size u ≡ (false, u)
  unfolding User.complete_process
  nothing_taken =
      ap (λ k. User.complete_process k u) h.size_field
      ∙ rw (move_front_none u.packet_buf h.ring)
          (ground (arith, h.header, length-contents u.packet_buf))

  -- The state when the packet has been dequeued.
  abbrev dequeued : List Sent → State
  dequeued out = record (waiting out) { incoming_packet_user_index_queue = [] }

  slot : Users.get_user_by_index s.users (to_int32 pkt.session_index) ≡ some p
  slot = ap (Users.get_user_by_index s.users) of_slot ∙ ei

  refuses :
      (out : List Sent)
      → leave_room_handler pkt.session_index pkt.bytes (dequeued out)
        ≡ some (dequeued (out ++ (told ∷ [])))
  refuses out =
      leave_refused pkt.session_index p pkt.bytes header u (dequeued out) slot eu eh away
      ∙ ap (λ k. some (send_packet k (leave_response user_not_in_room) (dequeued out))) from_slot

  queued_again : (out : List Sent) → complete pkt (dequeued out) ≡ some (waiting out)
  queued_again out =
      complete_lem pkt (dequeued out) p u slot eu
      ∙ rw
          (
            nothing_taken,
            ap (λ x. x.1) nothing_taken,
            of_slot,
            set-get_elem? s.users.user_obj_pool p u eu,
          )
          refl

  handler : packet_handler pkt.id ≡ some leave_room
  handler = ap packet_handler h.id_field ∙ (unfold packet_handler in refl)

  user_round :
      (out : List Sent)
      → user_packet_round past_end (waiting out) ≡ some (waiting (out ++ (told ∷ [])))
  unfolding user_packet_round dequeue_packet process_if process_packet call_handler
  user_round out =
      rw (ei, eu, get_packet-Holds u _ 0 h, handler, refuses out, queued_again (out ++ (told ∷ [])))

  idle :
      (out : List Sent)
      → (system_packet_round past_end (waiting out) >>= redis_round past_end) ≡ some (waiting out)
  unfolding system_packet_round redis_round dequeue_system_packet get_task_res process_if
      Redis.get_task_res
  idle out = rw no_answer refl

  one_round :
      (out : List Sent) → process_round past_end (waiting out) ≡ some (waiting (out ++ (told ∷ [])))
  unfolding process_round
  one_round out = rw (user_round out) (idle (out ++ (told ∷ [])))

  -- Five bytes from a client that is in no room, a request to leave with a size field of 0, are never
  -- taken off the ring: in any number of rounds of the packet thread, each sends the client one more
  -- refusal, and nothing else changes.
  pub zero_size_floods :
      (n : ℕ) (out : List Sent)
      → rounds past_end n (record s {
        incoming_packet_user_index_queue = pos p ∷ [];
        system_packet_queue = [];
        sent = out;
      })
        ≡ some (record s {
          incoming_packet_user_index_queue = pos p ∷ [];
          system_packet_queue = [];
          sent = out ++ replicate n told;
        })
  unfolding rounds
  zero_size_floods zero out = rw append-nil refl
  zero_size_floods (suc n) out = rw (one_round out) (
      zero_size_floods n (out ++ (told ∷ []))
      ∙ ap (λ x. some (waiting x)) (append_assoc out (told ∷ []) (replicate n told)))
