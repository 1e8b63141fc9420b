-- ===== src/Tests/Sample.antt =====
-- Sample objects: a small ring whose bytes go round its end, a user and a session with it, and the
-- server's pools as `Init` makes them.
use iocp_chatting.Config.{max_user_cnt, default_ringbuffer_size}
use iocp_chatting.Ring.{RingBuffer}
use iocp_chatting.Ring.Inv.{IsValid}
use iocp_chatting.User.{User, DomainState, none_state}
use iocp_chatting.Users
use iocp_chatting.Users.{UserManager}
use iocp_chatting.Users.Pool.{IsPool, init-IsPool}
use iocp_chatting.PacketManager
use iocp_chatting.PacketManager.{State}
use iocp_chatting.PacketManager.Sound.{IsSound, init-IsSound}
use iocp_chatting.Redis
use iocp_chatting.Rooms
use iocp_chatting.Session
use iocp_chatting.Session.{Session}
use iocp_chatting.Prelude.{
  ℕ, zero, suc, ◌≡◌, refl, sym, ap, ◌∙◌, false, true, List, [], ◌∷◌, some, get_elem?, length,
  replicate, length-replicate, arith, pos,
}

-- Eight bytes, of which 7, 8 and 1 are held.
abbrev pub ring8 : RingBuffer
ring8 = record { buf = 1 ∷ 2 ∷ 3 ∷ 4 ∷ 5 ∷ 6 ∷ 7 ∷ 8 ∷ []; front = 6; rear = 1; size = 8 }

pub ring8-IsValid : IsValid ring8
ring8-IsValid = record { storage = refl; front_in = omega arith; rear_in = omega arith }

-- Sixteen bytes with nothing held.
abbrev pub ring16 : RingBuffer
ring16 = record { buf = replicate 16 0; front = 12; rear = 12; size = 16 }

pub ring16-IsValid : IsValid ring16
ring16-IsValid = record { storage = refl; front_in = omega arith; rear_in = omega arith }

-- The user of slot `i`, under the identifier "A", in a state and with a ring.
abbrev pub user_of : ℕ → DomainState → RingBuffer → User
user_of i d r = record {
  session_idx = pos i;
  room_idx = pos 0;
  user_id = 65 ∷ [];
  auth_token = [];
  is_confirmed = false;
  domain_state = d;
  packet_buf = r;
}

-- A session in slot 2 over the socket 77 whose send ring is `ring8`.
abbrev pub session2 : Session
session2 = record (Session.fresh (9 ∷ 9 ∷ []) []) {
  index = pos 2;
  socket = 77;
  send_buf = ring8;
  is_activated = true;
  latest_conn_closed = 100;
}

-- A chat state with the given users.
abbrev pub state_of : List User → State
state_of us = record {
  users = record { current_user_cnt = 0; user_obj_pool = us; user_id_map = [] };
  rooms = Rooms.init;
  redis = Redis.empty;
  incoming_packet_user_index_queue = [];
  system_packet_queue = [];
  sent = [];
}

-- Two users that nobody is logged in as.
abbrev pub user_0 : User
user_0 = user_of 0 none_state ring8

abbrev pub user_1 : User
user_1 = user_of 1 none_state ring8

abbrev pub state2 : State
state2 = state_of (user_0 ∷ user_1 ∷ [])

pub slot_1 : Users.get_user_by_index state2.users (pos 1) ≡ some 1
unfolding Users.get_user_by_index
slot_1 = refl

abbrev pub zeros : List ℕ
zeros = replicate default_ringbuffer_size 0

abbrev pub raw_storages : List (List ℕ)
raw_storages = replicate max_user_cnt zeros

pub get_elem?-replicate {ℓ} :
    {A : Type ℓ} (n : ℕ) (x : A) (j : ℕ) (y : A) → get_elem? (replicate n x) j ≡ some y → x ≡ y
get_elem?-replicate zero x j y e = cc
get_elem?-replicate (suc n) x zero y e = cc
get_elem?-replicate (suc n) x (suc j) y e = get_elem?-replicate n x j y e

pub raw_storages-number : length raw_storages ≡ max_user_cnt
raw_storages-number = length-replicate max_user_cnt zeros

pub raw_storages-size :
    (j : ℕ) (raw : List ℕ)
    → get_elem? raw_storages j ≡ some raw
    → length raw ≡ default_ringbuffer_size
raw_storages-size j raw e =
    ap length (sym (get_elem?-replicate max_user_cnt zeros j raw e))
    ∙ length-replicate {A = ℕ} default_ringbuffer_size 0

-- The pool and the state at the start.
unfoldable pub fresh_pool : UserManager
fresh_pool = Users.init raw_storages

pub fresh_pool-IsPool : IsPool fresh_pool
unfolding fresh_pool
fresh_pool-IsPool = init-IsPool raw_storages raw_storages-number raw_storages-size

pub fresh_state : State
fresh_state = PacketManager.init raw_storages

pub fresh_state-IsSound : IsSound fresh_state
unfolding fresh_state
fresh_state-IsSound = init-IsSound raw_storages raw_storages-number raw_storages-size
