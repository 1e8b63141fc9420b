-- ===== src/Tests/Buffers.antt =====
-- The theorems on rings and on the users' framing at work.
use iocp_chatting.Ring
use iocp_chatting.Ring.{RingBuffer}
use iocp_chatting.Ring.Inv.{IsValid}
use iocp_chatting.Ring.Contents.{contents}
use iocp_chatting.Ring.Enqueue.{enqueue_appends}
use iocp_chatting.User
use iocp_chatting.User.{User, login_state, none_state}
use iocp_chatting.User.Framing.{enqueue-get_packet_complete}
use iocp_chatting.Tests.Sample.{ring8, ring8-IsValid, ring16, ring16-IsValid, user_of}
use iocp_chatting.Packet.{PacketInfo}
use iocp_chatting.Prelude.{take, ◌≡◌, refl, false, some, [], ◌∷◌, ◌++◌, take, arith}

-- The bytes of the sample ring, in order.
contents-ring8 : contents ring8 ≡ 7 ∷ 8 ∷ 1 ∷ []
unfolding Ring.get_size_in_use
contents-ring8 = refl

enqueue_appends_example :
    IsValid (Ring.enqueue ring8 (10 ∷ 11 ∷ 12 ∷ 13 ∷ 14 ∷ [])).1
    × (contents (Ring.enqueue ring8 (10 ∷ 11 ∷ 12 ∷ 13 ∷ 14 ∷ [])).1
        ≡ contents ring8 ++ take (Ring.get_free_size ring8) (10 ∷ 11 ∷ 12 ∷ 13 ∷ 14 ∷ []))
enqueue_appends_example = enqueue_appends (10 ∷ 11 ∷ 12 ∷ 13 ∷ 14 ∷ []) ring8-IsValid

-- A packet of six bytes, with the identifier 241, that goes round the end of the storage, and one byte
-- of the next packet behind it.
enqueue-get_packet_complete_example :
    let u = user_of 0 login_state ring16 in
    let u' = (User.enqueue_packet_data (6 ∷ 0 ∷ 241 ∷ 0 ∷ 0 ∷ 42 ∷ 9 ∷ []) u).1 in
    let (done, u'') = User.complete_process 6 u' in
    (got : PacketInfo) × (User.get_packet_data u' ≡ some got)
    × (got.session_index ≡ 0)
    × (got.id ≡ 241)
    × (got.size ≡ 6)
    × (take 7 got.bytes ≡ 6 ∷ 0 ∷ 241 ∷ 0 ∷ [])
    × (contents u''.packet_buf ≡ 9 ∷ [])
    × (done ≡ false)
unfolding Ring.get_free_size Ring.get_size_in_use User.enqueue_packet_data Ring.enqueue
    Ring.enqueue_loop Ring.put Ring.is_full
enqueue-get_packet_complete_example =
    enqueue-get_packet_complete (user_of 0 login_state ring16) (6 ∷ 0 ∷ 241 ∷ 0 ∷ 0 ∷ 42 ∷ [])
      (9 ∷ []) ring16-IsValid refl (omega arith) refl (omega arith)
