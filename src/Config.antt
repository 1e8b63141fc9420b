-- ===== src/Config.antt =====
-- Network/network_config.h, Content/content_config.h and Content/content_constants.h.
use iocp_chatting.Prelude.{ℕ, ◌*◌}

abbrev pub default_ringbuffer_size : ℕ
default_ringbuffer_size = 1024 * 16

abbrev pub session_recv_buf_size : ℕ
session_recv_buf_size = 1024 * 16

abbrev pub max_session_cnt : ℕ
max_session_cnt = 1000

abbrev pub session_reuse_seconds : ℕ
session_reuse_seconds = 5

abbrev pub redis_thread_cnt : ℕ
redis_thread_cnt = 1

abbrev pub room_max_user_cnt : ℕ
room_max_user_cnt = 10

abbrev pub max_room_cnt : ℕ
max_room_cnt = 10

abbrev pub max_user_cnt : ℕ
max_user_cnt = 1000

abbrev pub max_user_id_len : ℕ
max_user_id_len = 32

abbrev pub max_user_pw_len : ℕ
max_user_pw_len = 32

abbrev pub max_chat_msg_size : ℕ
max_chat_msg_size = 256
