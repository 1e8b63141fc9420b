-- ===== src/ChatServer.antt =====
-- Content/chat_server.h and chat_server.cpp: the delegates that join the network to the packet
-- thread. `Start` and `Terminate` are in ChatServer/Lifecycle.
pub mod Delegates
pub mod Lifecycle
pub mod Send
pub mod Delivery
pub mod Early
pub mod Runs
use iocp_chatting.Bytes.{to_u32}
use iocp_chatting.Packet.{
  PacketId, packet_id_code, sys_user_connect, sys_user_disconnect, PacketInfo,
}
use iocp_chatting.PacketManager.{State}
use iocp_chatting.Dispatch.{enqueue_packet, enqueue_system_packet}
use iocp_chatting.Network.{Event, connected, received, disconnected}
use iocp_chatting.Prelude.{ℕ, ◌%◌, ◌^◌, Option, some, List, [], ◌∷◌, ◌>>=◌, ℤ}

-- The packet of `OnConnect` and `OnDisconnect`. The index is cut to 16 bits.
abbrev pub system_packet : PacketId → ℤ → PacketInfo
system_packet id session_idx = record {
  session_index = to_u32 session_idx % 2 ^ 16;
  id = packet_id_code id;
  size = 0;
  bytes = [];
}

unfoldable pub on_connect : ℤ → State → State
on_connect session_idx s = enqueue_system_packet (system_packet sys_user_connect session_idx) s

unfoldable pub on_recv : ℤ → List ℕ → State → Option State
on_recv session_idx p_data s = do r ← enqueue_packet session_idx p_data s; some r.1

unfoldable pub on_disconnect : ℤ → State → State
on_disconnect session_idx s =
    enqueue_system_packet (system_packet sys_user_disconnect session_idx) s

-- `SetDelegate`: which function a call of the network ends in.
unfoldable pub delegate : Event → State → Option State
delegate (connected i) s = some (on_connect i s)
delegate (received i bytes) s = on_recv i bytes s
delegate (disconnected i) s = some (on_disconnect i s)

-- The calls of the network, in order.
unfoldable pub deliver : List Event → State → Option State
deliver [] s = some s
deliver (e ∷ es) s = do s' ← delegate e s; deliver es s'
