-- ===== src/Users.antt =====
-- Content/user_manager.h and user_manager.cpp: the pool of user objects and the map from the
-- identifiers of logged-in users to their slots. A `User*` is the number of the slot in the pool, and
-- `none` stands for a dereference of a null or wild pointer.
pub mod Pool
pub mod Calm
pub mod Login
use iocp_chatting.Config.{max_user_cnt}
use iocp_chatting.Bytes.{bytes_eq}
use iocp_chatting.User
use iocp_chatting.User.{User}
use iocp_chatting.Prelude.{
  if_null, ◌>>=◌, ℕ, ◌+◌, Bool, true, Option, none, some, List, [], ◌∷◌, ltb, if◌then◌else◌, length,
  get_elem?, set, ℤ, pos, negsuc,
}

-- `std::unordered_map<std::string, int>`, each key at most once.
abbrev pub IdMap : Type 0
IdMap = List (List ℕ × ℤ)

unfoldable pub find : List ℕ → IdMap → Option ℤ
find k [] = none
find k ((j, v) ∷ m) = if bytes_eq j k then some v else find k m

-- `insert` leaves an entry that is there as it is.
pub insert : List ℕ → ℤ → IdMap → IdMap
insert k v m = elim (find k m) [ none ↦ (k, v) ∷ m | some _ ↦ m ]

unfoldable pub erase : List ℕ → IdMap → IdMap
erase k [] = []
erase k ((j, v) ∷ m) = if bytes_eq j k then m else (j, v) ∷ erase k m

pub record UserManager : Type 0 where
  pub current_user_cnt : ℕ
  pub user_obj_pool : List User
  pub user_id_map : IdMap

-- The objects of `Init` from slot `i` on, for the uninitialised storages of their rings.
unfoldable pub init_pool : ℕ → List (List ℕ) → List User
unfolding User.new_user User.init
init_pool i [] = []
init_pool i (raw ∷ raws) = User.init (pos i) (User.new_user raw) ∷ init_pool (i + 1) raws

-- `Init`, for `max_user_cnt` storages.
unfoldable pub init : List (List ℕ) → UserManager
init raws = record { current_user_cnt = 0; user_obj_pool = init_pool 0 raws; user_id_map = [] }

unfoldable pub get_user_by_index : UserManager → ℤ → Option ℕ
get_user_by_index m (pos i) = if ltb i (length m.user_obj_pool) then some i else none
get_user_by_index m (negsuc i) = none

-- Dereference of a `User*`.
abbrev pub user_at : UserManager → ℕ → Option User
user_at m p = get_elem? m.user_obj_pool p

-- A method called through a `User*`.
unfoldable pub update_user : ℕ → (User → User) → UserManager → Option UserManager
update_user p f m = do
  u ← user_at m p
  some (record m { user_obj_pool = set m.user_obj_pool p (f u) })

unfoldable pub delete_user_info : List ℕ → UserManager → UserManager
delete_user_info id m = record m { user_id_map = erase id m.user_id_map }

unfoldable pub find_user_index_by_id : List ℕ → UserManager → ℤ
find_user_index_by_id id m = elim (find id m.user_id_map) [ none ↦ negsuc 0 | some i ↦ i ]

pub add_user : List ℕ → ℕ → UserManager → Option UserManager
add_user id p m = do
  m' ← update_user p (User.set_login id) m
  some (record m' { user_id_map = insert id (pos p) m'.user_id_map })

pub set_user_login : ℤ → UserManager → Option UserManager
set_user_login i m = do
  p ← get_user_by_index m i
  u ← user_at m p
  m' ← add_user u.user_id p m
  update_user p (User.set_confirmed true) m'

unfoldable pub set_user_id : ℤ → List ℕ → UserManager → Option UserManager
set_user_id i id m = do p ← get_user_by_index m i; update_user p (User.set_user_id id) m

unfoldable pub complete_process : ℤ → ℕ → UserManager → Option (Bool × UserManager)
complete_process i pkt_size m = if_null (get_user_by_index m i) (some (true, m)) λ p. do
  u ← user_at m p
  let r = User.complete_process pkt_size u
  some (r.0, record m { user_obj_pool = set m.user_obj_pool p r.1 })

unfoldable pub get_current_user_cnt : UserManager → ℕ
get_current_user_cnt m = m.current_user_cnt

abbrev pub get_max_user_cnt : ℕ
get_max_user_cnt = max_user_cnt
