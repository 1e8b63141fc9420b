-- ===== src/Users/Pool.antt =====
-- The pool of user objects: each stands in its own slot, with a valid ring.
use mathlib.Core.Option.{some-injective}
use iocp_chatting.Config.{max_user_cnt, default_ringbuffer_size}
use iocp_chatting.Ring
use iocp_chatting.Ring.Inv.{IsValid, clear_buffer-IsValid, move_front-IsValid, init-IsValid}
use iocp_chatting.Ring.Enqueue.{enqueue_appends}
use iocp_chatting.User
use iocp_chatting.User.{User, DomainState}
use iocp_chatting.Users.{
  UserManager, init_pool, init, user_at, update_user, add_user, set_user_login, set_user_id,
  complete_process, get_user_by_index, delete_user_info,
}
use iocp_chatting.Prelude.{
  get_elem?-set_cases, inl, inr, ℕ, zero, suc, ◌+◌, ◌≡◌, refl, sym, ap, ◌∙◌, subst, Bool, true,
  some, List, [], ◌∷◌, arith, length, length-set, get_elem?, set, ℤ, pos, Ensures, Ensures->>=,
  Ensures-of_eq, Ensures-if_null,
}

-- The object in slot `i`.
pub record IsSlot (i : ℕ) (u : User) : Type 0 where
  pub own_index : u.session_idx ≡ pos i
  pub ring : IsValid u.packet_buf

pub record IsPool (m : UserManager) : Type 0 where
  pub full : length m.user_obj_pool ≡ max_user_cnt
  pub uncounted : m.current_user_cnt ≡ 0
  pub slots : (i : ℕ) (u : User) → get_elem? m.user_obj_pool i ≡ some u → IsSlot i u

-- A method that leaves the index and the validity of the ring alone.
pub record Keeps (f : User → User) : Type 0 where
  pub index : (u : User) → (f u).session_idx ≡ u.session_idx
  pub ring : (u : User) → IsValid u.packet_buf → IsValid (f u).packet_buf

pub clear-Keeps : Keeps User.clear
unfolding User.clear
clear-Keeps = record { index = λ u. refl; ring = λ u v. clear_buffer-IsValid v }

pub set_login-Keeps : (id : List ℕ) → Keeps (User.set_login id)
unfolding User.set_login
set_login-Keeps id = record { index = λ u. refl; ring = λ u v. v }

pub set_user_id-Keeps : (id : List ℕ) → Keeps (User.set_user_id id)
unfolding User.set_user_id
set_user_id-Keeps id = record { index = λ u. refl; ring = λ u v. v }

pub set_confirmed-Keeps : (b : Bool) → Keeps (User.set_confirmed b)
unfolding User.set_confirmed
set_confirmed-Keeps b = record { index = λ u. refl; ring = λ u v. v }

pub set_domain_state-Keeps : (d : DomainState) → Keeps (User.set_domain_state d)
unfolding User.set_domain_state
set_domain_state-Keeps d = record { index = λ u. refl; ring = λ u v. v }

pub enter_room-Keeps : (i : ℤ) → Keeps (User.enter_room i)
unfolding User.enter_room
enter_room-Keeps i = record { index = λ u. refl; ring = λ u v. v }

pub enqueue-Keeps : (src : List ℕ) → Keeps (λ u. (User.enqueue_packet_data src u).1)
unfolding User.enqueue_packet_data
enqueue-Keeps src = record { index = λ u. refl; ring = λ u v. (enqueue_appends src v).0 }

pub complete-Keeps : (n : ℕ) → Keeps (λ u. (User.complete_process n u).1)
unfolding User.complete_process
complete-Keeps n = record {
  index = λ u. ground arith;
  ring = λ u v. subst IsValid (sym (buf u)) (move_front-IsValid n v);
}
  where
    buf : (u : User) → (User.complete_process n u).1.packet_buf ≡ Ring.move_front u.packet_buf n
    buf u = ground arith

-- A change of one slot that leaves its index and the validity of its ring alone.
pub set-IsPool :
    (m : UserManager) (p : ℕ) (u u' : User)
    → IsPool m
    → get_elem? m.user_obj_pool p ≡ some u
    → IsSlot p u'
    → IsPool (record m { user_obj_pool = set m.user_obj_pool p u' })
set-IsPool m p u u' v e s = record {
  full = length-set m.user_obj_pool p u' ∙ v.full;
  uncounted = v.uncounted;
  slots = λ i w ew. elim (get_elem?-set_cases m.user_obj_pool p i u' ew) [
    | inl (same, read) ↦ subst (λ k. IsSlot k w) same (subst (IsSlot p) read s)
    | inr (other, read) ↦ v.slots i w read
  ];
}

pub update_user-IsPool :
    (p : ℕ) {f : User → User} (m : UserManager)
    → Keeps f
    → IsPool m
    → Ensures IsPool (update_user p f m)
unfolding update_user
update_user-IsPool p {f} m k v = Ensures-of_eq IsPool (user_at m p) _ λ u e.
    let s = v.slots p u e in
    set-IsPool m p u (f u) v e
      (record { own_index = k.index u ∙ s.own_index; ring = k.ring u s.ring })

pub add_user-IsPool :
    (id : List ℕ) (p : ℕ) (m : UserManager) → IsPool m → Ensures IsPool (add_user id p m)
unfolding add_user
add_user-IsPool id p m v =
    Ensures->>= IsPool IsPool (update_user p (User.set_login id) m) _
      (update_user-IsPool p m (set_login-Keeps id) v)
      λ m' v'. record { full = v'.full; uncounted = v'.uncounted; slots = v'.slots }

pub set_user_login-IsPool :
    (i : ℤ) (m : UserManager) → IsPool m → Ensures IsPool (set_user_login i m)
unfolding set_user_login
set_user_login-IsPool i m v = Ensures-of_eq IsPool (get_user_by_index m i) _ λ p ep.
    Ensures-of_eq IsPool (user_at m p) _ λ u eu.
      Ensures->>= IsPool IsPool (add_user u.user_id p m) _ (add_user-IsPool u.user_id p m v)
        λ m' v'. update_user-IsPool p m' (set_confirmed-Keeps true) v'

pub set_user_id-IsPool :
    (i : ℤ) (id : List ℕ) (m : UserManager) → IsPool m → Ensures IsPool (set_user_id i id m)
unfolding set_user_id
set_user_id-IsPool i id m v =
    Ensures-of_eq IsPool (get_user_by_index m i) _
      λ p ep. update_user-IsPool p m (set_user_id-Keeps id) v

pub delete_user_info-IsPool :
    (id : List ℕ) (m : UserManager) → IsPool m → IsPool (delete_user_info id m)
unfolding delete_user_info
delete_user_info-IsPool id m v = record { full = v.full; uncounted = v.uncounted; slots = v.slots }

pub complete_process-IsPool :
    (i : ℤ) (n : ℕ) (m : UserManager)
    → IsPool m
    → Ensures (λ r. IsPool r.1) (complete_process i n m)
unfolding complete_process
complete_process-IsPool i n m v =
    Ensures-if_null (λ r. IsPool r.1) (get_user_by_index m i) _ _ v
      λ p ep.
        Ensures-of_eq (λ r. IsPool r.1) (user_at m p) _
          λ u eu.
            let k = complete-Keeps n in
            let s = v.slots p u eu in
            set-IsPool m p u (User.complete_process n u).1 v eu
              (record { own_index = k.index u ∙ s.own_index; ring = k.ring u s.ring })

fresh-IsSlot :
    (k : ℕ) (raw : List ℕ)
    → length raw ≡ default_ringbuffer_size
    → IsSlot k (User.init (pos k) (User.new_user raw))
unfolding User.init User.new_user
fresh-IsSlot k raw n = record { own_index = refl; ring = init-IsValid raw n }

-- Each object that `Init` makes stands in its own slot.
slots-init_pool :
    (k : ℕ) (raws : List (List ℕ)) (i : ℕ) (u : User)
    → ((j : ℕ) (raw : List ℕ) → get_elem? raws j ≡ some raw → length raw ≡ default_ringbuffer_size)
    → get_elem? (init_pool k raws) i ≡ some u
    → IsSlot (k + i) u
unfolding init_pool
slots-init_pool k [] i u h e = cc
slots-init_pool k (raw ∷ raws) zero u h e =
    subst (λ j. IsSlot j u) (omega arith)
      (subst (IsSlot k) (some-injective _ u e) (fresh-IsSlot k raw (h 0 raw refl)))
slots-init_pool k (raw ∷ raws) (suc i) u h e =
    subst (λ j. IsSlot j u) (omega arith) (slots-init_pool (k + 1) raws i u (λ j r. h (suc j) r) e)

length-init_pool : (k : ℕ) (raws : List (List ℕ)) → length (init_pool k raws) ≡ length raws
unfolding init_pool
length-init_pool k [] = refl
length-init_pool k (raw ∷ raws) = ap suc (length-init_pool (k + 1) raws)

-- Over storages of the right number and size, `Init` makes a pool of 1000 users, each with the index of
-- its slot and a valid ring, and counts none of them.
pub init-IsPool :
    (raws : List (List ℕ))
    → length raws ≡ max_user_cnt
    → ((j : ℕ) (raw : List ℕ) → get_elem? raws j ≡ some raw → length raw ≡ default_ringbuffer_size)
    → IsPool (init raws)
unfolding init
init-IsPool raws n h = record {
  full = length-init_pool 0 raws ∙ n;
  uncounted = refl;
  slots = λ i u e. subst (λ j. IsSlot j u) (omega arith) (slots-init_pool 0 raws i u h e);
}
