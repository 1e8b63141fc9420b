-- ===== src/Tests/Logins.antt =====
-- The theorems on logins and on the Redis thread at work.
use iocp_chatting.Bytes.{c_str, read_bytes}
use iocp_chatting.Packet.{LoginRequestPacket, error_code, no_error}
use iocp_chatting.User.{User, login_state}
use iocp_chatting.Users
use iocp_chatting.Users.{user_at, find}
use iocp_chatting.Redis
use iocp_chatting.Redis.{
  task_id_code, response_login, read_login_res, login_res_bytes, set_task_body,
}
use iocp_chatting.Redis.Login.{verdict, request_of, process_task_round_answers}
use iocp_chatting.PacketManager.{State, login_of, login_db_res_handler}
use iocp_chatting.PacketManager.Login.{both_logged_in}
use iocp_chatting.Tests.Sample.{user_0, user_1, state2, slot_1}
use iocp_chatting.Prelude.{
  ℕ, ◌≡◌, ◌↔◌, refl, Option, some, none, List, [], ◌∷◌, ◌++◌, replicate, arith, pos, ◌>>=◌,
}

-- An array of 33 characters that holds one and then NULs.
abbrev pub array33 : ℕ → List ℕ
array33 c = c ∷ replicate 32 0

-- A login request for "B" with the password "p".
abbrev pub request : LoginRequestPacket
request = record { user_id = array33 66; user_pw = array33 112 }

pub request-id : c_str (request.user_id ++ request.user_pw) ≡ some (66 ∷ [])
unfolding c_str
request-id = refl

slot_0 : Users.get_user_by_index state2.users (pos 0) ≡ some 0
unfolding Users.get_user_by_index
slot_0 = refl

not_found : find (66 ∷ []) state2.users.user_id_map ≡ none
unfolding find
not_found = refl

pub success : read_login_res (0 ∷ 0 ∷ []) ≡ some 0
unfolding read_login_res read_bytes
success = refl

both_logged_in_example :
    (t : State) × (u' : User) × (w' : User) × ((login_of 0 request state2 >>= λ s₁.
    login_of 1 request s₁ >>= λ s₂.
    login_db_res_handler 0 (0 ∷ 0 ∷ []) s₂ >>= λ s₃. login_db_res_handler 1 (0 ∷ 0 ∷ []) s₃)
      ≡ some t)
    × (user_at t.users 0 ≡ some u')
    × (user_at t.users 1 ≡ some w')
    × (u'.domain_state ≡ login_state)
    × (w'.domain_state ≡ login_state)
    × (u'.user_id ≡ 66 ∷ [])
    × (w'.user_id ≡ 66 ∷ [])
both_logged_in_example =
    both_logged_in 0 1 0 1 request request (66 ∷ []) (0 ∷ 0 ∷ []) (0 ∷ 0 ∷ []) state2 user_0 user_1
      slot_0 slot_1 refl refl (omega arith) request-id request-id not_found success success

-- Redis knows the password "p" of "B".
abbrev redis_get : List ℕ → Option (List ℕ)
redis_get k = some (112 ∷ [])

password : c_str request.user_pw ≡ some (112 ∷ [])
unfolding c_str
password = refl

process_task_round_answers_example :
    let result = verdict (redis_get (66 ∷ [])) (112 ∷ []) in
    let answer = set_task_body 4 response_login (login_res_bytes result) in
    (Redis.process_task_round redis_get (record {
      task_req_queue = request_of 4 (array33 66) (array33 112) ∷ [];
      task_res_queue = [];
    })
      ≡ some (record { task_req_queue = []; task_res_queue = answer ∷ [] }))
    × (read_login_res answer.bytes ≡ some result)
    × ((result ≡ error_code no_error) ↔ (redis_get (66 ∷ []) ≡ some (112 ∷ [])))
process_task_round_answers_example =
    process_task_round_answers redis_get 4 (array33 66) (array33 112) (66 ∷ []) (112 ∷ [])
      (record {
        task_req_queue = request_of 4 (array33 66) (array33 112) ∷ [];
        task_res_queue = [];
      })
      [] refl refl request-id password refl
