-- ===== src/Chat/Occupants.antt =====
-- The number of users in a room is the length of the room's list, if the list holds each once.
use iocp_chatting.Config.{max_user_cnt}
use iocp_chatting.Room.Broadcast.{InPool}
use iocp_chatting.Room.Leave.{count}
use iocp_chatting.Chat.{Chat, tally, is_inside, occupants_below, occupants}
use iocp_chatting.Prelude.{
  ℕ, zero, suc, ◌+◌, ◌<◌, ◌≡◌, refl, ltb, List, [], ◌∷◌, length, if◌then◌else◌, arith, sym, ◌∙◌,
}

-- The counts of the first `n` slots together.
total : ℕ → List ℕ → ℕ
total zero ps = 0
total (suc n) ps = count n ps + total n ps

total_nil : (n : ℕ) → total n [] ≡ 0
unfolding total
total_nil zero = refl
total_nil (suc n) = omega (arith, total_nil n)

total_cons : (n p : ℕ) (ps : List ℕ) → total n (p ∷ ps) ≡ (if ltb p n then 1 else 0) + total n ps
unfolding total
total_cons zero p ps = ground arith
total_cons (suc n) p ps = ground (arith, total_cons n p ps)

total-length : (ps : List ℕ) → InPool ps → total max_user_cnt ps ≡ length ps
total-length [] h = total_nil max_user_cnt
total-length (p ∷ ps) h = ground (arith, total_cons max_user_cnt p ps, total-length ps h.1, h.0)

total_occupants :
    (n k : ℕ) (ps : List ℕ) (c : Chat)
    → ((q : ℕ) → q < n → count q ps ≡ tally (is_inside k (c q)))
    → total n ps ≡ occupants_below n c k
unfolding total
total_occupants zero k ps c h = refl
total_occupants (suc n) k ps c h =
    omega (arith, h n (omega arith), total_occupants n k ps c (λ q lt. h q (omega arith)))

-- The room's list is as long as the number of its occupants.
pub length-occupants :
    (k : ℕ) (ps : List ℕ) (c : Chat)
    → InPool ps
    → ((q : ℕ) → q < max_user_cnt → count q ps ≡ tally (is_inside k (c q)))
    → length ps ≡ occupants c k
unfolding occupants
length-occupants k ps c h agree =
    sym (total-length ps h) ∙ total_occupants max_user_cnt k ps c agree
