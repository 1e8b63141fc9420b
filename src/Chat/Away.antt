-- ===== src/Chat/Away.antt =====
-- Users that are in no room, and a room's list behind the departure of a user.
use mathlib.Core.Option.{some-injective}
use native.Mathlib.Decide.{ℕ_discrete}
use iocp_chatting.Config.{max_user_cnt}
use iocp_chatting.Bytes.{bytes_eq}
use iocp_chatting.Packet.{Sent}
use iocp_chatting.User.{User}
use iocp_chatting.Users.{user_at}
use iocp_chatting.Room.{Room}
use iocp_chatting.Room.Broadcast.{user_of_IsSlot}
use iocp_chatting.Room.Leave.{Left, count, bytes_eq_refl}
use iocp_chatting.PacketManager.{State}
use iocp_chatting.PacketManager.Sound.{IsSound}
use iocp_chatting.Chat.{Place, inside, Chat, is_inside, tally, put}
use iocp_chatting.Chat.Represents.{Represents, put_other, is_inside_place}
use iocp_chatting.Prelude.{
  ℕ, ◌<◌, ◌≡◌, ◌≢◌, sym, ap, ◌∙◌, true, false, some, List, get_elem?, Bool-cases, inl, inr, arith,
}

-- In no room.
abbrev pub Away : Place → Type 0
Away pl = (j : ℕ) → is_inside j pl ≡ false

module _ (s : State) (c : Chat) (p : ℕ) (u : User) where
  -- Nobody else at the place of user `p` has its identifier.
  abbrev pub OwnId : Type 0
  OwnId =
      (q : ℕ) (w : User)
      → user_at s.users q ≡ some w
      → p ≢ q
      → c q ≡ c p
      → bytes_eq u.user_id w.user_id ≡ false

  -- The same, asked only if user `p` is in a room.
  abbrev pub OwnIdInRoom : Type 0
  OwnIdInRoom = (k : ℕ) → c p ≡ inside k → OwnId

  module _ (eu : user_at s.users p ≡ some u) (v : IsSound s) (rep : Represents s c) where
    -- The room's count after user `p` has gone to a place that is no room.
    pub counts_without :
        (pl : Place) (k : ℕ) (r : Room) (o : Room × List Sent)
        → is_inside k pl ≡ false
        → c p ≡ inside k
        → get_elem? s.rooms k ≡ some r
        → OwnId
        → Left s.users r p u.user_id o
        → (q : ℕ) → q < max_user_cnt
        → count q o.0.user_list ≡ tally (is_inside k (put p pl c q))
    counts_without pl k r o away e er own left q lt =
        let (w, ew, sw) = user_of_IsSlot s.users q v.pool lt in
        let erased = left.erased q w ew in
        elim (ℕ_discrete p q) [
          | yes same ↦
              let itself : bytes_eq u.user_id w.user_id ≡ true =
                ap (λ x. bytes_eq u.user_id x.user_id)
                  (some-injective w u (sym ew ∙ sym (ap (user_at s.users) same) ∙ eu))
                ∙ bytes_eq_refl u.user_id in
              ground (arith, erased, itself, same, away)
          | no other ↦ rw (put_other p pl c other) (elim (Bool-cases (is_inside k (c q))) [
            | inl here ↦
                let apart = own q w ew other (is_inside_place k (c q) here ∙ sym e) in
                ground (arith, erased, apart, rep.lists k r er q lt)
            | inr gone ↦ ground (arith, erased, gone, rep.lists k r er q lt)
          ])
        ]
