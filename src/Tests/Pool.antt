-- ===== src/Tests/Pool.antt =====
-- Runs of the network over a pool of full size.
use iocp_chatting.Config.{max_session_cnt}
use iocp_chatting.ErrorHandler
use iocp_chatting.Session
use iocp_chatting.Session.{
  Session, AcceptReply, accept, bind_accept, activate, bind_recv, uint64_max,
}
use iocp_chatting.Network
use iocp_chatting.Network.{
  Network, Completion, Replies, connected, worker_round, accepter_visit, init_sessions,
}
use iocp_chatting.Network.Active.{active}
use iocp_chatting.Network.Runs.{
  System, visit, accepted, Runs, here, next, started_with, visited, mark,
}
use iocp_chatting.Network.Runs.Exact.{Runs-exact_count, Runs-accept_once}
use iocp_chatting.Tests.Sample.{zeros}
use iocp_chatting.Prelude.{
  ℕ, ◌≡◌, refl, true, false, none, some, List, [], ◌∷◌, length, get_elem?, set, pos, arith,
  replicate, length-replicate,
}

abbrev pub raw_pairs : List (List ℕ × List ℕ)
raw_pairs = replicate 1000 (zeros, zeros)

pub raw_pairs-number : length raw_pairs ≡ max_session_cnt
raw_pairs-number = length-replicate {A = List ℕ × List ℕ} 1000 (zeros, zeros)

abbrev pub start : System
start = started_with 5 6 raw_pairs

abbrev pub session_3 : Session
session_3 = Session.init (pos 3) (Session.fresh zeros zeros)

pub start-at_3 : get_elem? start.net.session_list 3 ≡ some session_3
unfolding Network.init_session_pool Network.init_sessions
start-at_3 = refl

-- The accept is under way.
abbrev pub under_way : AcceptReply
under_way = record { socket = 9; accept_ret = pos 0; code = 997 }

abbrev pub offered_3 : System
offered_3 = visited 6 3 under_way session_3 start

offer_run : Runs start offered_3
offer_run = next here (visit 6 under_way 3 session_3 (omega arith) start-at_3)

pub offered-pending : offered_3.pending 3 ≡ true
unfolding Session.init
offered-pending = refl

pub bound_3 : get_elem? offered_3.net.session_list 3 ≡ some (accepter_visit 6 under_way session_3)
unfolding Network.init_session_pool Network.init_sessions
bound_3 = refl

Runs-accept_once_example :
    let s = accepter_visit 6 under_way session_3 in
    (s.is_activated ≡ false)
    × (s.accept_overlapped.op_type ≡ accept)
    × (s.accept_overlapped.session_idx ≡ pos 3)
    × (accepter_visit 5000 under_way s ≡ s)
Runs-accept_once_example =
    Runs-accept_once 5 6 raw_pairs raw_pairs-number offer_run 3
      (accepter_visit 6 under_way session_3) 5000 under_way offered-pending bound_3 (omega arith)

-- A client has come to session 3.
abbrev pub replies : Replies
replies = record {
  cur_time = 7;
  port_handle = 6;
  recv_reply = record { recv_ret = pos 0; code = 0 };
}

abbrev pub arrival : Completion
arrival = record { session = none; gqcs_ret = true; io_size = 0; overlapped = some (accept, pos 3) }

abbrev pub offered_session : Session
offered_session = accepter_visit 6 under_way session_3

abbrev pub after_arrival : Network
after_arrival = record (offered_3.net) {
  session_list =
      set (set offered_3.net.session_list 3 (activate offered_session)) 3
        (bind_recv replies.recv_reply (activate offered_session)).1;
  current_session_cnt = 1;
  events = connected (pos 3) ∷ [];
}

pub arrival_run : worker_round replies arrival offered_3.net ≡ some (true, after_arrival)
unfolding Network.worker_round Network.handle_completion Network.check_gqcs_result
    Network.session_exited Network.terminate_msg Network.has_overlapped Network.emit
    Network.get_session_by_idx Network.bind_io_completion_port ErrorHandler.handle_handle
    Network.init_session_pool Network.init_sessions Network.dispatch_if Network.dispatch_overlapped
    Network.accept_completed Network.recv_or_close Network.update_session accepter_visit bind_accept
    bind_recv activate ErrorHandler.handle_socket Session.init Session.set_recv_overlapped
arrival_run = refl

arrival_run-Runs :
    Runs start (record { net = after_arrival; pending = mark false 3 offered_3.pending })
unfolding Session.init accepter_visit bind_accept
arrival_run-Runs =
    next offer_run
      (accepted replies arrival 3 offered_session offered-pending bound_3 refl arrival_run)

Runs-exact_count_example : after_arrival.current_session_cnt ≡ active after_arrival.session_list
Runs-exact_count_example = Runs-exact_count 5 6 raw_pairs raw_pairs-number arrival_run-Runs
