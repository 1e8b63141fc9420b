-- ===== src/Packet/Wire.antt =====
-- The bytes of the packets that the server sends, as the packed structs of Content/packet.h stand in
-- memory. `stale` is what the uninitialised memory of a struct holds, its `type_` first:
-- `SetPacketIdAndLen` sets only the identifier and the size.
use iocp_chatting.Config.{max_user_id_len, max_chat_msg_size}
use iocp_chatting.Packet.{
  packet_header_length, UserInfo, Body, login_result, enter_result, leave_result, chat_result, chat,
  new_user, user_list, leave_user, sizeof, Packet,
}
use iocp_chatting.Prelude.{ℕ, ◌+◌, ◌-◌, ◌/◌, ◌%◌, ◌^◌, List, [], ◌∷◌, ◌++◌, take, replicate}

-- Integers of 2 and 8 bytes, the lowest byte first.
abbrev pub u16_bytes : ℕ → List ℕ
u16_bytes n = n % 256 ∷ n / 256 % 256 ∷ []

abbrev pub u64_bytes : ℕ → List ℕ
u64_bytes n =
    u16_bytes n ++ (u16_bytes (n / 65536) ++ (u16_bytes (n / 2 ^ 32) ++ u16_bytes (n / 2 ^ 48)))

-- A character array of length `n`, zero behind what is copied into it.
abbrev pub char_array : ℕ → List ℕ → List ℕ
char_array n s = take n (s ++ replicate n 0)

abbrev pub user_info_bytes : UserInfo → List ℕ
user_info_bytes u =
    u64_bytes u.user_index ++ (u.id_len % 256 ∷ char_array (max_user_id_len + 1) u.user_id)

unfoldable pub user_infos_bytes : List UserInfo → List ℕ
user_infos_bytes [] = []
user_infos_bytes (u ∷ us) = user_info_bytes u ++ user_infos_bytes us

-- The fields behind the header, as far as they are set.
unfoldable pub body_bytes : Body → List ℕ
body_bytes (login_result r) = u16_bytes r
body_bytes (enter_result r) = u16_bytes r
body_bytes (leave_result r) = u16_bytes r
body_bytes (chat_result r) = u16_bytes r
body_bytes (chat user_id msg) =
    char_array (max_user_id_len + 1) user_id ++ char_array (max_chat_msg_size + 1) msg
body_bytes (new_user u) = user_info_bytes u
body_bytes (user_list n us) = n % 256 ∷ user_infos_bytes us
body_bytes (leave_user i) = u64_bytes i

-- The bytes at the packet's address, as many as the `sizeof` of its struct, which is the length that
-- each call of `SendPacketFunc` passes.
unfoldable pub to_bytes : ℕ → List ℕ → Packet → List ℕ
to_bytes type stale p =
    u16_bytes p.size
    ++ (u16_bytes p.id
        ++ (type ∷ take (sizeof p.body - packet_header_length) (body_bytes p.body ++ stale)))
