-- ===== src/Redis.antt =====
-- Content/redis_task.h, redis_manager.h and redis_manager.cpp: the tasks that the packet thread and
-- the Redis thread exchange. `redis_client_.Get` is an argument: it gives the value of a key if the
-- call returns RC_SUCCESS. A task owns its bytes, so `Release` has no counterpart.
pub mod Login
use iocp_chatting.Config.{max_user_id_len, max_user_pw_len}
use iocp_chatting.Bytes.{c_str, bytes_eq, read_bytes, u16_of}
use iocp_chatting.Packet.{error_code, no_error, login_user_invalid_pw}
use iocp_chatting.Prelude.{
  ◌>>=◌, ℕ, ◌+◌, ◌%◌, ◌/◌, Option, none, some, List, [], ◌∷◌, ◌++◌, ◌==◌, if◌then◌else◌, length,
  take, drop,
}

pub data TaskId : Type 0 where
  invalid request_login response_login : TaskId

abbrev pub task_id_code : TaskId → ℕ
task_id_code invalid = 0
task_id_code request_login = 1001
task_id_code response_login = 1002

-- `struct RedisTask`. The pointer `p_data_` is the bytes that it owns.
pub record RedisTask : Type 0 where
  pub user_idx : ℕ
  pub id : ℕ
  pub size : ℕ
  pub bytes : List ℕ

-- `SetTaskBody`, for a body given by its bytes.
pub set_task_body : ℕ → TaskId → List ℕ → RedisTask
set_task_body session_idx id body = record {
  user_idx = session_idx;
  id = task_id_code id;
  size = length body;
  bytes = body;
}

-- The bytes of a `RedisLoginReq`: two character arrays.
unfoldable pub login_req_bytes : List ℕ → List ℕ → List ℕ
login_req_bytes user_id user_pw =
    take (max_user_id_len + 1) user_id ++ take (max_user_pw_len + 1) user_pw

-- The bytes of a `RedisLoginRes` and what is read from them.
pub login_res_bytes : ℕ → List ℕ
login_res_bytes result = result % 256 ∷ result / 256 % 256 ∷ []

unfoldable pub read_login_res : List ℕ → Option ℕ
unfolding read_bytes
read_login_res p = do b ← read_bytes 2 p; some (u16_of b 0)

pub record RedisManager : Type 0 where
  pub task_req_queue : List RedisTask
  pub task_res_queue : List RedisTask

abbrev pub empty : RedisManager
empty = record { task_req_queue = []; task_res_queue = [] }

unfoldable pub push_task_req : RedisTask → RedisManager → RedisManager
push_task_req t r = record r { task_req_queue = r.task_req_queue ++ (t ∷ []) }

pub push_task_res : RedisTask → RedisManager → RedisManager
push_task_res t r = record r { task_res_queue = r.task_res_queue ++ (t ∷ []) }

-- The head of a queue and the rest.
abbrev pub try_pop {ℓ} : {A : Type ℓ} → List A → Option (A × List A)
try_pop [] = none
try_pop (x ∷ xs) = some (x, xs)

unfoldable pub get_task_req : RedisManager → Option RedisTask × RedisManager
get_task_req r = elim (try_pop r.task_req_queue) [
  | none ↦ (none, r)
  | some (t, ts) ↦ (some t, record r { task_req_queue = ts })
]

unfoldable pub get_task_res : RedisManager → Option RedisTask × RedisManager
get_task_res r = elim (try_pop r.task_res_queue) [
  | none ↦ (none, r)
  | some (t, ts) ↦ (some t, record r { task_res_queue = ts })
]

-- The code that `LoginHandler` puts into its answer.
pub login_result : (List ℕ → Option (List ℕ)) → List ℕ → Option ℕ
login_result redis_get p_data = do
  b ← read_bytes (max_user_id_len + 1 + (max_user_pw_len + 1)) p_data
  user_id ← c_str b
  elim (redis_get user_id) [
    | none ↦ some (error_code login_user_invalid_pw)
    | some redis_pw ↦ do
      user_pw ← c_str (drop (max_user_id_len + 1) b)
      some (
          if bytes_eq redis_pw user_pw
          then error_code no_error
          else error_code login_user_invalid_pw)
  ]

unfoldable pub login_handler :
    (List ℕ → Option (List ℕ)) → ℕ → List ℕ → RedisManager → Option RedisManager
login_handler redis_get session_idx p_data r = do
  result ← login_result redis_get p_data
  some (push_task_res (set_task_body session_idx response_login (login_res_bytes result)) r)

-- `task_handlers_` has one entry.
pub process_task : (List ℕ → Option (List ℕ)) → RedisTask → RedisManager → Option RedisManager
process_task redis_get t r =
    if t.id == task_id_code request_login
    then login_handler redis_get t.user_idx t.bytes r
    else some r

-- One round of the loop of `ProcessTaskThread`.
unfoldable pub process_task_round : (List ℕ → Option (List ℕ)) → RedisManager → Option RedisManager
process_task_round redis_get r =
    let (task, r') = get_task_req r in
    elim task [ none ↦ some r' | some t ↦ process_task redis_get t r' ]
