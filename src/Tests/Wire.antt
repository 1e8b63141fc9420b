-- ===== src/Tests/Wire.antt =====
-- The bytes of sent packets, and their way into the send rings.
use iocp_chatting.Config.{max_session_cnt}
use iocp_chatting.Packet.{chat, room_chat_notify, set_packet_id_and_len, read_header}
use iocp_chatting.Packet.Wire.{to_bytes}
use iocp_chatting.Network
use iocp_chatting.Network.{Network}
use iocp_chatting.Network.Runs.Exact.{length-init_sessions}
use iocp_chatting.Tests.Pool.{raw_pairs, raw_pairs-number, start}
use iocp_chatting.Bytes.{c_str, copy_c_str}
use iocp_chatting.Packet.Read.{to_bytes-chat}
use iocp_chatting.Tests.Talk.{nothing_behind}
use iocp_chatting.Prelude.{
  take, drop, refl, ◌++◌, ◌≡◌, ◌∙◌, length, some, [], ◌∷◌, replicate, arith,
}

-- The user "Al" says "hi", on a stack of 0xCC bytes.
to_bytes-chat_example :
    let b = to_bytes 204 (replicate 500 204) (
      set_packet_id_and_len room_chat_notify (
        chat
          (copy_c_str nothing_behind 33 (65 ∷ 108 ∷ []))
          (take 257 ((104 ∷ 105 ∷ []) ++ (0 ∷ replicate 254 0))))) in
    (length b ≡ 295)
    × (read_header b ≡ record { size = 295; id = 223 })
    × (c_str (take 33 (drop 5 b)) ≡ some (65 ∷ 108 ∷ []))
    × (c_str (drop 38 b) ≡ some (104 ∷ 105 ∷ []))
to_bytes-chat_example =
    to_bytes-chat nothing_behind 204 (replicate 500 204) (65 ∷ 108 ∷ []) (104 ∷ 105 ∷ [])
      (replicate 254 0) refl refl (omega arith) (omega arith)

pub start-Full : length start.net.session_list ≡ max_session_cnt
unfolding Network.init_session_pool
start-Full = length-init_sessions 0 raw_pairs ∙ raw_pairs-number
