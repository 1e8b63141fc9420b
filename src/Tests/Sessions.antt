-- ===== src/Tests/Sessions.antt =====
-- The theorems on sessions and on the network's completions at work.
use iocp_chatting.ErrorHandler.{handle_socket}
use iocp_chatting.Ring
use iocp_chatting.Ring.Inv.{IsValid}
use iocp_chatting.Ring.Contents.{contents}
use iocp_chatting.Session
use iocp_chatting.Session.{
  Session, enqueue_send_data, SendReply, AcceptReply, set_wsa_buf, bind_send, bind_accept,
  io_pending, uint64_max, accept, invalid_socket,
}
use iocp_chatting.Session.Send.{
  wsa_bytes, set_wsa_buf-contents, bind_send_posts, pending_send_repeats, pending,
}
use iocp_chatting.Session.Stream.{
  reported_sent, enqueued, send_bound, Run, Chunk, reported, cleared, chunk_bytes, send_completed,
  closed, start, next, Run-stream,
}
use iocp_chatting.Network.{
  Network, Completion, Replies, close_session, accepter_visit, worker_round, sender_visit,
  terminate_msg, handle_completion, check_gqcs_result, session_exited, close_exited, close_socket,
  emit, disconnected,
}
use iocp_chatting.Network.Reuse.{
  close_session_active, closed_once_reused, closed_twice_lost, failed_accept_lost,
}
use iocp_chatting.Network.Active.{Counts}
use iocp_chatting.Network.Count.{AcceptsIdle}
use iocp_chatting.Tests.Sample.{ring8, ring8-IsValid, session2}
use iocp_chatting.Prelude.{
  ◌≤◌, take, if◌then◌else◌, ◌≡◌, refl, true, false, some, [], ◌∷◌, drop, arith, ℤ, pos, ℕ, List,
  ◌++◌, take,
}

set_wsa_buf-contents_example : wsa_bytes (set_wsa_buf session2) ≡ contents ring8
set_wsa_buf-contents_example = set_wsa_buf-contents session2 ring8-IsValid

-- Two of the three bytes are sent at once.
abbrev sent_two : SendReply
sent_two = record { send_ret = pos 0; code = 0; sent_bytes = 2 }

bind_send_posts_example :
    let (result, posted, s') = bind_send sent_two session2 in
    (result ≡ true)
    × (wsa_bytes posted ≡ contents ring8)
    × (contents s'.send_buf ≡ drop 2 (contents ring8))
    × (s'.is_sending ≡ true)
unfolding handle_socket Ring.get_size_in_use
bind_send_posts_example = bind_send_posts sent_two session2 ring8-IsValid refl refl (omega arith)

pending_send_repeats_example :
    let (result, posted, s') = bind_send pending session2 in
    let (_, posted_again, _) = bind_send sent_two (record s' { is_sending = false }) in
    (result ≡ true)
    × (wsa_bytes posted ≡ contents ring8)
    × (wsa_bytes posted_again ≡ contents ring8)
pending_send_repeats_example = pending_send_repeats sent_two session2 ring8-IsValid refl

-- Two bytes are reported as sent, the send completes, a packet comes behind the third one, and the
-- session is closed.
abbrev session_sent : Session
session_sent = record ((bind_send sent_two session2).2) { is_sending = false }

abbrev later : List ℕ
later = 4 ∷ 5 ∷ []

abbrev session_later : Session
session_later = (enqueue_send_data later session_sent).1

two_in_use : sent_two.sent_bytes ≤ Ring.get_size_in_use session2.send_buf
unfolding Ring.get_size_in_use
two_in_use = omega arith

abbrev closing : Chunk
closing = cleared (if session_later.is_activated then contents session_later.send_buf else [])

stream_run :
    Run session2
      ([] ++ ([] ++ (take (Ring.get_free_size session_sent.send_buf) later ++ ([] ++ []))))
      (reported (reported_sent sent_two session2) ∷ reported [] ∷ reported [] ∷ closing ∷ [])
      (close_session 200 session_later)
stream_run =
    next (send_bound sent_two two_in_use)
      (next send_completed (next (enqueued later) (next (closed 200) start)))

Run-stream_example :
    IsValid (close_session 200 session_later).send_buf
    × (contents ring8 ++ (take (Ring.get_free_size session_sent.send_buf) later ++ [])
        ≡ (reported_sent sent_two session2 ++ (chunk_bytes closing ++ []))
          ++ contents (close_session 200 session_later).send_buf)
Run-stream_example = Run-stream ring8-IsValid stream_run

-- `AcceptEx` fails with the code 10022.
abbrev refused : AcceptReply
refused = record { socket = 78; accept_ret = pos 0; code = 10022 }

abbrev idle_session : Session
idle_session = record session2 { is_activated = false }

close_session_active_example :
    let s' = close_session 200 session2 in
    (s'.is_activated ≡ false)
    × (s'.is_sending ≡ false)
    × (s'.socket ≡ invalid_socket)
    × (s'.latest_conn_closed ≡ 200)
close_session_active_example = close_session_active 200 session2 refl

closed_once_reused_example :
    let s' = close_session 200 session2 in
    accepter_visit 206 refused s' ≡ (bind_accept refused s').1
closed_once_reused_example = closed_once_reused 200 206 refused session2 refl (omega arith)

closed_twice_lost_example :
    let s' = close_session 201 (close_session 200 session2) in accepter_visit 5000 refused s' ≡ s'
closed_twice_lost_example = closed_twice_lost 200 201 5000 refused session2 refl (omega arith)

failed_accept_lost_example :
    let s' = accepter_visit 300 refused idle_session in
    ((bind_accept refused idle_session).0 ≡ true)
    × (s' ≡ (bind_accept refused idle_session).1)
    × (s'.is_activated ≡ false)
    × (accepter_visit 5000 refused s' ≡ s')
failed_accept_lost_example =
    failed_accept_lost 300 5000 refused refused idle_session refl (omega arith) (omega arith) refl
      (omega arith)

-- One session, in use and counted.
abbrev network1 : Network
network1 = record {
  listen_socket = 5;
  current_session_cnt = 1;
  session_list = session2 ∷ [];
  iocp = 6;
  events = [];
}

network1-Counts : Counts 0 network1
network1-Counts = record { bound = omega arith; counts = refl }

abbrev replies : Replies
replies = record {
  cur_time = 300;
  port_handle = 6;
  recv_reply = record { recv_ret = pos 0; code = 0 };
}

-- The client has gone: a receive of no bytes.
abbrev gone : Completion
gone = record {
  session = some 0;
  gqcs_ret = true;
  io_size = 0;
  overlapped = some (Session.recv, pos 0);
}

-- What is left of the network then.
abbrev after_gone : Network
after_gone = record network1 {
  current_session_cnt = 0;
  session_list = close_session 300 session2 ∷ [];
  events = disconnected (pos 2) ∷ [];
}

gone_run : worker_round replies gone network1 ≡ some (true, after_gone)
unfolding worker_round terminate_msg handle_completion check_gqcs_result session_exited close_exited
    close_socket emit
gone_run = refl

gone-AcceptsIdle : (j : ℤ) → gone.overlapped ≡ some (accept, j) → AcceptsIdle j network1
gone-AcceptsIdle j e = cc

-- The network behind a send.
abbrev after_send : Network
after_send = record network1 { session_list = (bind_send sent_two session2).2 ∷ [] }

send_run : sender_visit 300 sent_two 0 network1 ≡ some after_send
unfolding sender_visit Session.has_send_data Ring.get_size_in_use bind_send handle_socket
send_run = refl
