-- ===== src/Users/Calm.antt =====
-- What the user manager does to the packets at the front of the users' rings.
use mathlib.Core.Option.{some-injective}
use native.Mathlib.Decide.{ℕ_discrete}
use iocp_chatting.User
use iocp_chatting.User.{User, get_packet_data}
use iocp_chatting.User.Quiet.{
  Quiet, Quiet-trans, set_login-Quiet, set_confirmed-Quiet, set_user_id-Quiet,
}
use iocp_chatting.Users.{
  UserManager, user_at, update_user, add_user, set_user_login, set_user_id, get_user_by_index,
  delete_user_info,
}
use iocp_chatting.Prelude.{
  get_elem?-lt, ℕ, ◌≡◌, inr, refl, sym, ◌∙◌, subst, true, some, List, set, get_elem?-set_self,
  get_elem?-set_ne, ℤ, Ensures, Ensures->>=, Ensures-of_eq, Ensures-mono,
}

-- So for every slot of the pool.
abbrev pub CalmUsers : UserManager → UserManager → Type 0
CalmUsers m m' =
    (q : ℕ) (w : User) → user_at m' q ≡ some w → (u : User) × (user_at m q ≡ some u) × Quiet u w

pub CalmUsers-refl : (m : UserManager) → CalmUsers m m
CalmUsers-refl m q w e = (w, e, inr refl)

pub CalmUsers-trans : (m m' m'' : UserManager) → CalmUsers m m' → CalmUsers m' m'' → CalmUsers m m''
CalmUsers-trans m m' m'' h k q w e =
    let (v, ev, kv) = k q w e in let (u, eu, hu) = h q v ev in (u, eu, Quiet-trans u v w hu kv)

-- A method that leaves the user's packet alone, or takes it away.
pub set-CalmUsers :
    (m : UserManager) (p : ℕ) (u w : User)
    → user_at m p ≡ some u
    → Quiet u w
    → CalmUsers m (record m { user_obj_pool = set m.user_obj_pool p w })
set-CalmUsers m p u w e h q v ev = elim (ℕ_discrete p q) [
  | yes same ↦ (
    u,
    rw (← same) e,
    subst (Quiet u)
        (some-injective w v (
          sym (get_elem?-set_self m.user_obj_pool p w (get_elem?-lt m.user_obj_pool p e))
          ∙ (rw (← same) at ev)))
        h,
  )
  | no other ↦ (v, sym (get_elem?-set_ne m.user_obj_pool w other) ∙ ev, inr refl)
]

pub update_user-Calm :
    (p : ℕ) (f : User → User) (m : UserManager)
    → ((u : User) → Quiet u (f u))
    → Ensures (CalmUsers m) (update_user p f m)
unfolding update_user
update_user-Calm p f m h =
    Ensures-of_eq (CalmUsers m) (user_at m p) _ λ u e. set-CalmUsers m p u (f u) e (h u)

add_user-Calm : (id : List ℕ) (p : ℕ) (m : UserManager) → Ensures (CalmUsers m) (add_user id p m)
unfolding add_user
add_user-Calm id p m =
    Ensures->>= (CalmUsers m) (CalmUsers m) (update_user p (User.set_login id) m) _
      (update_user-Calm p (User.set_login id) m (set_login-Quiet id)) (λ m' h. h)

pub set_user_login-Calm : (i : ℤ) (m : UserManager) → Ensures (CalmUsers m) (set_user_login i m)
unfolding set_user_login
set_user_login-Calm i m = Ensures-of_eq (CalmUsers m) (get_user_by_index m i) _ λ p ep.
    Ensures-of_eq (CalmUsers m) (user_at m p) _ λ u eu.
      Ensures->>= (CalmUsers m) (CalmUsers m) (add_user u.user_id p m) _
        (add_user-Calm u.user_id p m)
        λ m' h.
          Ensures-mono (CalmUsers m') (CalmUsers m) (update_user p (User.set_confirmed true) m')
            (update_user-Calm p (User.set_confirmed true) m' (set_confirmed-Quiet true))
            λ m'' k. CalmUsers-trans m m' m'' h k

pub set_user_id-Calm :
    (i : ℤ) (id : List ℕ) (m : UserManager) → Ensures (CalmUsers m) (set_user_id i id m)
unfolding set_user_id
set_user_id-Calm i id m =
    Ensures-of_eq (CalmUsers m) (get_user_by_index m i) _
      λ p ep. update_user-Calm p (User.set_user_id id) m (set_user_id-Quiet id)

pub delete_user_info-Calm : (id : List ℕ) (m : UserManager) → CalmUsers m (delete_user_info id m)
unfolding delete_user_info
delete_user_info-Calm id m = CalmUsers-refl m
