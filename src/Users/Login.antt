-- ===== src/Users/Login.antt =====
-- What a successful login does to the user and to the map of identifiers.
use iocp_chatting.Bytes.{bytes_eq}
use iocp_chatting.User
use iocp_chatting.User.{User, login_state}
use iocp_chatting.Users.{
  UserManager, IdMap, find, insert, get_user_by_index, user_at, update_user, add_user,
  set_user_login, set_user_id,
}
use iocp_chatting.Prelude.{
  get_elem?-lt, ℕ, zero, suc, ◌≡◌, ◌↔◌, refl, ap, true, none, some, List, [], ◌∷◌, arith, set,
  get_elem?-set_self, if◌then◌else◌, ℤ, pos,
}

pub bytes_eq_iff : (a b : List ℕ) → (bytes_eq a b ≡ true) ↔ (a ≡ b)
unfolding bytes_eq
bytes_eq_iff [] [] = (λ _. refl, λ _. refl)
bytes_eq_iff [] (y ∷ b) = (λ h. cc, λ h. cc)
bytes_eq_iff (x ∷ a) [] = (λ h. cc, λ h. cc)
bytes_eq_iff (x ∷ a) (y ∷ b) =
    (λ h. ground (arith, bytes_eq_iff a b), λ h. ground (arith, bytes_eq_iff a b))

-- What is found after an insertion: if the inserted key was there, what was found before; otherwise
-- the new value under that key, and what was found before under every other.
pub find-insert :
    (k j : List ℕ) (v : ℤ) (m : IdMap)
    → find j (insert k v m)
      ≡ elim (find k m) [ none ↦ (if bytes_eq k j then some v else find j m) | some _ ↦ find j m ]
unfolding insert find
find-insert k j v m = ground arith

abbrev pub logged_in : ℕ → User → UserManager → UserManager
logged_in p u m = record m {
  user_obj_pool = set m.user_obj_pool p (User.set_confirmed true (User.set_login u.user_id u));
  user_id_map = insert u.user_id (pos p) m.user_id_map;
}

set-set : (l : List User) (p : ℕ) (u w : User) → set (set l p u) p w ≡ set l p w
set-set [] p u w = refl
set-set (x ∷ l) zero u w = refl
set-set (x ∷ l) (suc p) u w = ap (◌∷◌ x) (set-set l p u w)

-- `SetUserLogin` for an index of the pool does not fault: the user is logged in and confirmed under the
-- identifier that it has, and that identifier is inserted into the map with the user's slot; nothing
-- else changes.
pub set_user_login_lem :
    (i : ℤ) (m : UserManager) (p : ℕ) (u : User)
    → get_user_by_index m i ≡ some p
    → user_at m p ≡ some u
    → set_user_login i m ≡ some (logged_in p u m)
unfolding set_user_login add_user update_user
set_user_login_lem i m p u ei eu = rw (
  ei,
  eu,
  get_elem?-set_self m.user_obj_pool p (User.set_login u.user_id u)
      (get_elem?-lt m.user_obj_pool p eu),
  set-set m.user_obj_pool p,
)

-- `SetUserID` for a user of the pool.
pub set_user_id_lem :
    (i : ℤ) (id : List ℕ) (m : UserManager) (p : ℕ) (u : User)
    → get_user_by_index m i ≡ some p
    → user_at m p ≡ some u
    → set_user_id i id m
      ≡ some (record m { user_obj_pool = set m.user_obj_pool p (User.set_user_id id u) })
unfolding set_user_id update_user
set_user_id_lem i id m p u ei eu = rw (ei, eu)
