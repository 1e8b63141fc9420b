-- ===== src/Redis/Login.antt =====
-- The login check of the Redis thread, from the request in its queue to the answer in the other one.
use iocp_chatting.Config.{max_user_id_len, max_user_pw_len}
use iocp_chatting.Bytes.{c_str, bytes_eq, read_bytes}
use iocp_chatting.Packet.{error_code, no_error, login_user_invalid_pw}
use iocp_chatting.Redis.{
  RedisManager, RedisTask, set_task_body, request_login, response_login, login_req_bytes,
  login_res_bytes, read_login_res, login_result, login_handler, process_task, process_task_round,
  get_task_req, push_task_res,
}
use mathlib.Core.Option.{some-injective}
use iocp_chatting.Users.Login.{bytes_eq_iff}
use iocp_chatting.Prelude.{
  Option-cases, inl, inr, ◌↔◌, ℕ, ◌+◌, ◌^◌, ◌<◌, ◌≡◌, refl, ap, Option, none, some, List, [], ◌∷◌,
  ◌++◌, arith, length, length-append, take, drop, leb, if◌then◌else◌,
}

-- What the check comes to: success if Redis has a value for the identifier and it is the password.
abbrev pub verdict : Option (List ℕ) → List ℕ → ℕ
verdict none pw = error_code login_user_invalid_pw
verdict (some v) pw =
    if bytes_eq v pw then error_code no_error else error_code login_user_invalid_pw

-- The two bytes of a result read back as it.
pub read_login_res-login_res_bytes :
    (result : ℕ) → result < 2 ^ 16 → read_login_res (login_res_bytes result) ≡ some result
unfolding read_login_res login_res_bytes read_bytes
read_login_res-login_res_bytes result h = ap some (omega arith)

take_exact : (l : List ℕ) → take (length l) l ≡ l
take_exact [] = refl
take_exact (x ∷ l) = ap (◌∷◌ x) (take_exact l)

take_of_length : (k : ℕ) (l : List ℕ) → length l ≡ k → take k l ≡ l
take_of_length k l n = rw (← n) (take_exact l)

drop_exact : (l m : List ℕ) → drop (length l) (l ++ m) ≡ m
drop_exact [] m = refl
drop_exact (x ∷ l) m = drop_exact l m

-- A request is as long as the two arrays, so that all of it is read.
read_request :
    (user_id user_pw : List ℕ)
    → length user_id ≡ max_user_id_len + 1
    → length user_pw ≡ max_user_pw_len + 1
    → read_bytes (max_user_id_len + 1 + (max_user_pw_len + 1)) (user_id ++ user_pw)
      ≡ some (user_id ++ user_pw)
unfolding read_bytes
read_request user_id user_pw n m =
    let size : length (user_id ++ user_pw) ≡ max_user_id_len + 1 + (max_user_pw_len + 1) =
      omega (arith, length-append user_id user_pw) in
    rw (ap (λ k. leb 66 k) size, ← size) (ap some (take_exact (user_id ++ user_pw)))

password_array :
    (user_id user_pw : List ℕ)
    → length user_id ≡ max_user_id_len + 1
    → drop (max_user_id_len + 1) (user_id ++ user_pw) ≡ user_pw
password_array user_id user_pw n = rw (← n) (drop_exact user_id user_pw)

-- The check of a request that is made of an identifier's and a password's array.
login_result_lem :
    (redis_get : List ℕ → Option (List ℕ)) (user_id user_pw id pw : List ℕ)
    → length user_id ≡ max_user_id_len + 1
    → length user_pw ≡ max_user_pw_len + 1
    → c_str (user_id ++ user_pw) ≡ some id
    → c_str user_pw ≡ some pw
    → login_result redis_get (user_id ++ user_pw) ≡ some (verdict (redis_get id) pw)
unfolding login_result
login_result_lem redis_get user_id user_pw id pw n m ei ep = elim (Option-cases (redis_get id)) [
  | inl e ↦ rw (read_request user_id user_pw n m, ei, e)
  | inr (v, e) ↦ rw (read_request user_id user_pw n m, ei, e, password_array user_id user_pw n, ep)
]

verdict-lt : (o : Option (List ℕ)) (pw : List ℕ) → verdict o pw < 2 ^ 16
verdict-lt none pw = omega arith
verdict-lt (some v) pw = ground arith

verdict_iff :
    (o : Option (List ℕ)) (pw : List ℕ) → (verdict o pw ≡ error_code no_error) ↔ (o ≡ some pw)
verdict_iff none pw = (λ e. absurd (omega arith), λ e. cc)
verdict_iff (some v) pw = (
  λ e. ap some ((bytes_eq_iff v pw).0 (ground arith)),
  λ e. rw ((bytes_eq_iff v pw).1 (some-injective v pw e)) refl,
)

-- The request that a login leaves, for an identifier's and a password's array of the right lengths.
abbrev pub request_of : ℕ → List ℕ → List ℕ → RedisTask
request_of i user_id user_pw = set_task_body i request_login (login_req_bytes user_id user_pw)

-- A round of the Redis thread with a login request at the head of its queue takes it off and puts
-- exactly one answer at the end of the other queue, for the session that asked, and the result read
-- from its bytes is success if and only if Redis' value for the identifier is the password: the
-- strings are what stands before the first NUL of the arrays.
pub process_task_round_answers :
    (redis_get : List ℕ → Option (List ℕ)) (i : ℕ) (user_id user_pw id pw : List ℕ)
    (r : RedisManager) (rest : List RedisTask)
    → length user_id ≡ max_user_id_len + 1
    → length user_pw ≡ max_user_pw_len + 1
    → c_str (user_id ++ user_pw) ≡ some id
    → c_str user_pw ≡ some pw
    → r.task_req_queue ≡ request_of i user_id user_pw ∷ rest
    → let result = verdict (redis_get id) pw in
      let answer = set_task_body i response_login (login_res_bytes result) in
      (process_task_round redis_get r
        ≡ some
            (record { task_req_queue = rest; task_res_queue = r.task_res_queue ++ (answer ∷ []) }))
      × (read_login_res answer.bytes ≡ some result)
      × ((result ≡ error_code no_error) ↔ (redis_get id ≡ some pw))
unfolding process_task_round process_task login_handler get_task_req push_task_res set_task_body
    login_req_bytes
process_task_round_answers redis_get i user_id user_pw id pw r rest n m ei ep eq =
    let exact_id : take (max_user_id_len + 1) user_id ≡ user_id = take_of_length _ user_id n in
    let exact_pw : take (max_user_pw_len + 1) user_pw ≡ user_pw = take_of_length _ user_pw m in
    (
      rw (eq, exact_id, exact_pw, login_result_lem redis_get user_id user_pw id pw n m ei ep),
      read_login_res-login_res_bytes _ (verdict-lt (redis_get id) pw),
      verdict_iff (redis_get id) pw,
    )
