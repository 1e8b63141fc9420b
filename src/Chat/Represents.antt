-- ===== src/Chat/Represents.antt =====
-- What it is for a state of the packet thread to hold an abstract chat, and how a handler's changes
-- carry it on.
use mathlib.Core.Option.{some-injective}
use native.Mathlib.Decide.{ℕ_discrete}
use iocp_chatting.Config.{max_user_cnt, max_room_cnt}
use iocp_chatting.Packet.{ErrorCode, Packet, Sent}
use iocp_chatting.User
use iocp_chatting.User.{User, none_state, login_state, room_state, state_eq}
use iocp_chatting.Users
use iocp_chatting.Users.{UserManager, user_at}
use iocp_chatting.Room
use iocp_chatting.Room.{Room}
use iocp_chatting.Room.Leave.{count}
use iocp_chatting.Rooms
use iocp_chatting.PacketManager
use iocp_chatting.PacketManager.{
  State, send_packet, enter_response, leave_response, enter_room_handler, enter_room_of,
  leave_room_handler, leave_room_of,
}
use iocp_chatting.Chat.{Place, outside, lobby, departed, inside, Chat, is_inside, tally, put}
use iocp_chatting.Prelude.{
  append-nil, ℕ, zero, suc, ◌+◌, ◌<◌, ◌≡◌, ◌≢◌, refl, sym, ap, ◌∙◌, subst, true, false, Option,
  some, List, [], ◌∷◌, ◌++◌, ◌==◌, get_elem?, set, get_elem?-set_cases, inl, inr, pos, arith,
}

-- The user object of a user at a place. Nothing is said of the object of one that has departed.
abbrev pub Stands : User → Place → Type 0
Stands u outside = u.domain_state ≡ none_state
Stands u lobby = u.domain_state ≡ login_state
Stands u departed = Unit
Stands u (inside k) = (u.domain_state ≡ room_state) × (u.room_idx ≡ pos k) × (k < max_room_cnt)

-- The state holds each user where the chat has it, and each room's list holds its occupants once.
pub record Represents (s : State) (c : Chat) : Type 0 where
  pub places : (q : ℕ) (u : User) → user_at s.users q ≡ some u → Stands u (c q)
  pub numbers : (k : ℕ) (r : Room) → get_elem? s.rooms k ≡ some r → r.room_idx ≡ pos k
  pub lists :
      (k : ℕ) (r : Room)
      → get_elem? s.rooms k ≡ some r
      → (q : ℕ) → q < max_user_cnt
      → count q r.user_list ≡ tally (is_inside k (c q))

pub count-append :
    (q : ℕ) (ps : List ℕ) (p : ℕ) → count q (ps ++ (p ∷ [])) ≡ count q ps + tally (p == q)
count-append q [] p = ground arith
count-append q (x ∷ ps) p = ground (arith, count-append q ps p)

pub put_self : (p : ℕ) (pl : Place) (c : Chat) → put p pl c p ≡ pl
put_self p pl c = ground arith

pub put_other : (p : ℕ) (pl : Place) (c : Chat) {q : ℕ} → p ≢ q → put p pl c q ≡ c q
put_other p pl c other = ground (arith, other)

put-is_inside :
    (p q j : ℕ) (pl : Place) (c : Chat)
    → is_inside j pl ≡ is_inside j (c p)
    → is_inside j (put p pl c q) ≡ is_inside j (c q)
put-is_inside p q j pl c same = elim (ℕ_discrete p q) [
  | yes e ↦
      subst (λ x. is_inside j (put p pl c x) ≡ is_inside j (c x)) e (rw (put_self p pl c) same)
  | no other ↦ rw (put_other p pl c other) refl
]

moved-places :
    (s : State) (c : Chat) (p : ℕ) (pl : Place) (u' : User) (m' : UserManager)
    → Represents s c
    → user_at m' p ≡ some u'
    → Stands u' pl
    → ((q : ℕ) → p ≢ q → user_at m' q ≡ user_at s.users q)
    → (q : ℕ) (w : User) → user_at m' q ≡ some w
    → Stands w (put p pl c q)
moved-places s c p pl u' m' v ep st kept q w ew = elim (ℕ_discrete p q) [
  | yes e ↦
      subst (λ x. Stands w (put p pl c x)) e
        (rw (put_self p pl c) (
          subst (λ x. Stands x pl)
            (some-injective u' w (sym ep ∙ subst (λ x. user_at m' x ≡ some w) (sym e) ew)) st))
  | no other ↦ rw (put_other p pl c other) (v.places q w (sym (kept q other) ∙ ew))
]

-- One user is moved, and one room's list is changed to fit.
pub moved-Represents :
    (s : State) (c : Chat) (p k : ℕ) (pl : Place) (u' : User) (m' : UserManager) (r' : Room)
    (out : List Sent)
    → Represents s c
    → user_at m' p ≡ some u'
    → Stands u' pl
    → ((q : ℕ) → p ≢ q → user_at m' q ≡ user_at s.users q)
    → r'.room_idx ≡ pos k
    → ((q : ℕ) → q < max_user_cnt → count q r'.user_list ≡ tally (is_inside k (put p pl c q)))
    → ((j : ℕ) → k ≢ j → is_inside j pl ≡ is_inside j (c p))
    → Represents (record s { users = m'; rooms = set s.rooms k r'; sent = out }) (put p pl c)
moved-Represents s c p k pl u' m' r' out v ep st kept num counts same = record {
  places = moved-places s c p pl u' m' v ep st kept;
  numbers = λ j r er. elim (get_elem?-set_cases s.rooms k j r' er) [
    | inl (e, read) ↦ ap (λ x. x.room_idx) (sym read) ∙ num ∙ ap pos e
    | inr (other, read) ↦ v.numbers j r read
  ];
  lists = λ j r er q lt. elim (get_elem?-set_cases s.rooms k j r' er) [
    | inl (e, read) ↦
        ap (λ x. count q x.user_list) (sym read)
        ∙ counts q lt
        ∙ ap (λ x. tally (is_inside x (put p pl c q))) e
    | inr (other, read) ↦
        v.lists j r read q lt ∙ ap tally (sym (put-is_inside p q j pl c (same j other)))
  ];
}

-- Only what is sent is changed.
pub told-Represents :
    (s : State) (c : Chat) (out : List Sent)
    → Represents s c
    → Represents (record s { sent = out }) c
told-Represents s c out v = record { places = v.places; numbers = v.numbers; lists = v.lists }

pub lobby_outside_rooms : (c : Chat) (p k : ℕ) → c p ≡ lobby → is_inside k (c p) ≡ false
lobby_outside_rooms c p k e = rw e refl

pub inside_other : (j k : ℕ) → k ≢ j → is_inside j (inside k) ≡ false
inside_other j k other = ground (arith, other)

pub is_inside_place : (k : ℕ) (pl : Place) → is_inside k pl ≡ true → pl ≡ inside k
is_inside_place k outside e = cc
is_inside_place k lobby e = cc
is_inside_place k departed e = cc
is_inside_place k (inside j) e = ap inside (ground arith)

-- The room's count after user `p` has come in from the lobby.
pub joined_counts :
    (c : Chat) (p k : ℕ) (ps : List ℕ)
    → c p ≡ lobby
    → ((q : ℕ) → q < max_user_cnt → count q ps ≡ tally (is_inside k (c q)))
    → (q : ℕ) → q < max_user_cnt
    → count q (ps ++ (p ∷ [])) ≡ tally (is_inside k (put p (inside k) c q))
joined_counts c p k ps e h q lt = count-append q ps p ∙ elim (ℕ_discrete p q) [
  | yes same ↦ ground (arith, h q lt, sym (ap c same) ∙ e, same)
  | no other ↦ ground (arith, h q lt, other)
]

module _ (i : ℕ) (s : State) where
  -- What a handler leaves behind: the state of the new chat, and the answer as the last packet.
  pub record Does (m : Option State) (response : ErrorCode → Packet) (r : ErrorCode × Chat)
      : Type 0 where
    pub state : State
    pub out : List Sent
    pub returns : m ≡ some state
    pub chat : Represents state r.1
    pub answered : state.sent ≡ (s.sent ++ out) ++ ((i, response r.0) ∷ [])

module _ (i : ℕ) (s : State) (c : Chat) (rep : Represents s c) where
  pub refused-Does :
      (m : Option State) (response : ErrorCode → Packet) (e : ErrorCode)
      → m ≡ some (send_packet i (response e) s)
      → Does i s m response (e, c)
  refused-Does m response e run = record {
    state = send_packet i (response e) s;
    out = [];
    returns = run;
    chat = told-Represents s c _ rep;
    answered = ap (λ x. x ++ ((i, response e) ∷ [])) (sym (append-nil s.sent));
  }

  -- The same, where the rooms were asked, and sent nothing.
  pub asked-Does :
      (m : Option State) (response : ErrorCode → Packet) (e : ErrorCode)
      → m ≡ some (send_packet i (response e) (record s { sent = s.sent ++ [] }))
      → Does i s m response (e, c)
  asked-Does m response e run = record {
    state = send_packet i (response e) (record s { sent = s.sent ++ [] });
    out = [];
    returns = run;
    chat = told-Represents s c _ rep;
    answered = refl;
  }

-- A user that is in no room before and after.
pub placed-Represents :
    (s : State) (c : Chat) (p : ℕ) (pl : Place) (u' : User) (m' : UserManager)
    → Represents s c
    → user_at m' p ≡ some u'
    → Stands u' pl
    → ((q : ℕ) → p ≢ q → user_at m' q ≡ user_at s.users q)
    → ((j : ℕ) → is_inside j pl ≡ is_inside j (c p))
    → Represents (record s { users = m' }) (put p pl c)
placed-Represents s c p pl u' m' v ep st kept same = record {
  places = moved-places s c p pl u' m' v ep st kept;
  numbers = v.numbers;
  lists = λ j r er q lt. v.lists j r er q lt ∙ ap tally (sym (put-is_inside p q j pl c (same j)));
}

-- In the beginning everybody is outside.
init_pool-none_state :
    (k : ℕ) (raws : List (List ℕ)) (q : ℕ) (u : User)
    → get_elem? (Users.init_pool k raws) q ≡ some u
    → u.domain_state ≡ none_state
unfolding Users.init_pool User.init User.new_user
init_pool-none_state k [] q u e = cc
init_pool-none_state k (raw ∷ raws) zero u e = ap (λ x. x.domain_state) (sym (some-injective _ u e))
init_pool-none_state k (raw ∷ raws) (suc q) u e = init_pool-none_state (k + 1) raws q u e

init_rooms-number :
    (n i k : ℕ) (r : Room)
    → get_elem? (Rooms.init_rooms n i) k ≡ some r
    → (r.room_idx ≡ pos (i + k)) × (r.user_list ≡ [])
unfolding Rooms.init_rooms Room.init
init_rooms-number zero i k r e = cc
init_rooms-number (suc n) i zero r e =
    let same = sym (some-injective _ r e) in
    (ap (λ x. x.room_idx) same ∙ ap pos (omega arith), ap (λ x. x.user_list) same)
init_rooms-number (suc n) i (suc k) r e =
    let (num, empty) = init_rooms-number n (i + 1) k r e in (num ∙ ap pos (omega arith), empty)

pub init-Represents : (raws : List (List ℕ)) → Represents (PacketManager.init raws) (λ q. outside)
unfolding PacketManager.init Users.init Rooms.init
init-Represents raws = record {
  places = λ q u e. init_pool-none_state 0 raws q u e;
  numbers = λ k r e. (init_rooms-number max_room_cnt 0 k r e).0 ∙ ap pos (omega arith);
  lists = λ k r e q lt. rw ((init_rooms-number max_room_cnt 0 k r e).1) refl;
}
