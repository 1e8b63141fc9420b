-- ===== src/Tests/Server.antt =====
-- The handlers' table and runs of the server over the abstract chat.
use iocp_chatting.Packet.{
  PacketInfo, packet_id_code, sys_user_connect, sys_user_disconnect, room_enter_request,
}
use iocp_chatting.Users
use iocp_chatting.Users.{user_at}
use iocp_chatting.PacketManager
use iocp_chatting.PacketManager.{State}
use iocp_chatting.PacketManager.Sound.{IsSound, init-IsSound}
use iocp_chatting.Dispatch.{
  Handler, process_packet, packet_handler, connect, disconnect, login_db_res, enter_room,
}
use iocp_chatting.Chat.{Chat, outside, lobby, departed, inside, put, occupants}
use iocp_chatting.Chat.Represents.{Represents}
use iocp_chatting.Chat.Server.{act, answer, enter_at, Orderly}
use iocp_chatting.Chat.Process.{process_packet-refines}
use iocp_chatting.Chat.Runs.{Run, here, next, handled, Run-Represents}
use iocp_chatting.Tests.Sample.{raw_storages, raw_storages-number, raw_storages-size}
use iocp_chatting.Tests.Talk.{nothing_behind, slot_3, guest, enter_bytes, enter_request}
use iocp_chatting.Tests.Lobby.{
  lobby_state, lobby_chat, empty_chat, lobby_slot, user_at_3, lobby_state-IsSound,
  lobby_state-Represents,
}
use iocp_chatting.Bytes.{read_bytes}
use iocp_chatting.Redis
use iocp_chatting.User.{User}
use iocp_chatting.Prelude.{
  ℕ, ◌≢◌, ap, subst, ◌∷◌, to_int32, get_elem?_of_lt, ◌≡◌, refl, true, false, some, [], arith, pos,
}

abbrev asking : PacketInfo
asking = record {
  session_index = 3;
  id = packet_id_code room_enter_request;
  size = 9;
  bytes = enter_bytes;
}

enters : packet_handler (packet_id_code room_enter_request) ≡ some enter_room
unfolding packet_handler
enters = refl

process_packet-refines_example :
    (t : State) × (process_packet nothing_behind asking true lobby_state ≡ some (true, t))
    × Represents t (act 3 enter_bytes lobby_chat enter_room)
process_packet-refines_example =
    process_packet-refines nothing_behind enter_room asking true lobby_state lobby_chat 3 guest
      enters lobby_slot (user_at_3 guest) lobby_state-IsSound lobby_state-Represents
      (pos 2, enter_request, λ e. cc)

-- The server at its start, and session 3 connected.
abbrev started : State
started = PacketManager.init raw_storages

abbrev arriving : PacketInfo
arriving = record { session_index = 3; id = packet_id_code sys_user_connect; size = 0; bytes = [] }

connects : packet_handler (packet_id_code sys_user_connect) ≡ some connect
unfolding packet_handler
connects = refl

started-IsSound : IsSound started
started-IsSound = init-IsSound raw_storages raw_storages-number raw_storages-size

started-slot : Users.get_user_by_index started.users (pos 3) ≡ some 3
unfolding Users.get_user_by_index
started-slot = ground (arith, started-IsSound.pool.full)

started-at_3 : user_at started.users 3 ≡ some slot_3
unfolding PacketManager.init Users.init Users.init_pool
started-at_3 = refl

-- A run that holds a chat, and one more packet of session 3.
record Live (c : Chat) : Type 0 where
  state : State
  run : Run nothing_behind started empty_chat state c

advance :
    {c : Chat} (h : Handler) (pkt : PacketInfo)
    → Live c
    → packet_handler pkt.id ≡ some h
    → to_int32 pkt.session_index ≡ pos 3
    → ((s : State) (u : User) → Orderly 3 pkt.bytes u s c h)
    → Live (act 3 pkt.bytes c h)
unfolding Users.get_user_by_index
advance {c} h pkt y eh own ok =
    let (v, rep) =
      Run-Represents nothing_behind raw_storages raw_storages-number raw_storages-size (y.run) in
    let (u, eu) = get_elem?_of_lt y.state.users.user_obj_pool 3 (omega (arith, v.pool.full)) in
    let slot : Users.get_user_by_index y.state.users (to_int32 pkt.session_index) ≡ some 3 =
      rw own (ground (arith, v.pool.full)) in
    let (t, run, _) =
      process_packet-refines nothing_behind h pkt false y.state c 3 u eh slot eu v rep
        (ok y.state u) in
    record {
      state = t;
      run = next y.run (handled h pkt false 3 u eh slot eu (ok y.state u) run refl);
    }

-- Session 3 connects, hangs up before it logs in, and connects again.
abbrev leaving : PacketInfo
leaving = record (arriving) { id = packet_id_code sys_user_disconnect }

disconnects : packet_handler (packet_id_code sys_user_disconnect) ≡ some disconnect
unfolding packet_handler
disconnects = refl

-- Redis answers that the login is right.
abbrev welcome : PacketInfo
welcome = record { session_index = 3; id = 1002; size = 2; bytes = 0 ∷ 0 ∷ [] }

answers : packet_handler 1002 ≡ some login_db_res
unfolding packet_handler
answers = refl

right : Redis.read_login_res (0 ∷ 0 ∷ []) ≡ some 0
unfolding Redis.read_login_res read_bytes
right = refl

abbrev hung_up : Chat
hung_up = put 3 departed (put 3 outside empty_chat)

abbrev back : Chat
back = put 3 outside hung_up

abbrev in_room : Chat
in_room = put 3 (inside 2) (put 3 lobby back)

connected_again : Live back
connected_again =
    advance connect arriving
      (advance disconnect leaving
        (advance connect arriving (record { state = started; run = here }) connects refl
          (λ s u j. refl))
        disconnects refl (λ s u. (λ e. cc, λ k e. cc)))
      connects refl (λ s u j. refl)

logged_in : Live (put 3 lobby back)
logged_in =
    subst Live (ap (λ o. answer o 3 back) right)
      (advance login_db_res welcome connected_again answers refl (λ s u. (0, right, λ j. refl)))

entered_room : act 3 enter_bytes (put 3 lobby back) enter_room ≡ in_room
unfolding occupants
entered_room = ap (λ o. enter_at o 3 (put 3 lobby back)) enter_request

seated : Live in_room
seated =
    subst Live entered_room
      (advance enter_room asking logged_in enters refl (λ s u. (pos 2, enter_request, λ e. cc)))

alone : (q : ℕ) → 3 ≢ q → in_room q ≡ in_room 3 → ⊥
alone q other same = ground (arith, other, same)

-- And it hangs up in the room.
gone : Live (put 3 departed in_room)
gone =
    advance disconnect leaving seated disconnects refl
      (λ s u. (λ e. cc, λ k e q w ew other same. absurd (alone q other same)))

Run-Represents_example : IsSound gone.state × Represents gone.state (put 3 departed in_room)
Run-Represents_example =
    Run-Represents nothing_behind raw_storages raw_storages-number raw_storages-size gone.run
