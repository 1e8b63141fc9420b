-- ===== src/Network/Runs/Visit.antt =====
-- The visit of `AccepterThread` (Network/network.cpp) to a session, and the accepts outstanding.
use iocp_chatting.Network.Runs.{System, mark, offered, started, visited}
use iocp_chatting.Session.{Session, AcceptReply, uint64_max, invalid_socket, bind_accept}
use iocp_chatting.Network.{accepter_visit}
use iocp_chatting.Network.Slots.{IsSlot, Slots, HasSlots, set-Slots}
use iocp_chatting.Prelude.{
  ℕ, ◌<◌, ◌≡◌, ◌≢◌, refl, ◌∙◌, subst, Bool, true, false, ◌&&◌, some, List, get_elem?, set,
  length-set, get_elem?-set_cases, ◌==◌, if◌then◌else◌, Bool-cases, inl, inr, pos, arith,
}

-- With an accept that is no longer outstanding.
pub cleared-IsSlot :
    (i j : ℕ) (p : ℕ → Bool) (s : Session) → IsSlot j (p j) s → IsSlot j (mark false i p j) s
cleared-IsSlot i j p s v = elim (Bool-cases (i == j)) [
  | inl e ↦ rw e (record {
    own_index = v.own_index;
    idle = λ z. cc;
    stamp = λ z. cc;
    op = λ z. cc;
    names = λ z. cc;
  })
  | inr e ↦ rw e v
]

-- A session that is not offered is left alone.
pub visit_kept :
    (now : ℕ) (reply : AcceptReply) (s : Session)
    → offered now s ≡ false
    → accepter_visit now reply s ≡ s
unfolding accepter_visit
visit_kept now reply s off = ground arith

visit-own_index :
    (now : ℕ) (reply : AcceptReply) (s : Session) → (accepter_visit now reply s).index ≡ s.index
unfolding accepter_visit bind_accept
visit-own_index now reply s = ground arith

pub visit-is_activated :
    (now : ℕ) (reply : AcceptReply) (s : Session)
    → (accepter_visit now reply s).is_activated ≡ s.is_activated
unfolding accepter_visit bind_accept
visit-is_activated now reply s = ground arith

started_socket :
    (reply : AcceptReply) → started reply ≡ true → (reply.socket == invalid_socket) ≡ false
started_socket reply e = ground arith

visit_taken :
    (now : ℕ) (reply : AcceptReply) (s : Session)
    → offered now s ≡ true
    → accepter_visit now reply s ≡ (bind_accept reply s).1
unfolding accepter_visit
visit_taken now reply s on = ground arith

bound-IsSlot :
    (reply : AcceptReply) (i : ℕ) (s : Session)
    → s.is_activated ≡ false
    → (reply.socket == invalid_socket) ≡ false
    → s.index ≡ pos i
    → IsSlot i true (bind_accept reply s).1
unfolding bind_accept
bound-IsSlot reply i s off ok own = rw ok (record {
  own_index = own;
  idle = λ _. off;
  stamp = λ _. refl;
  op = λ _. refl;
  names = λ _. own;
})

offered_idle : (now : ℕ) (s : Session) → offered now s ≡ true → s.is_activated ≡ false
offered_idle now s on = ground arith

-- A session for which an accept is outstanding is not offered, at any time that a clock reaches.
pub pending_not_offered :
    (now i : ℕ) (s : Session) → now < uint64_max → IsSlot i true s → offered now s ≡ false
pending_not_offered now i s lt v = ground (arith, v.stamp refl)

pub unmarked-IsSlot : (i : ℕ) (s : Session) → s.index ≡ pos i → IsSlot i false s
unmarked-IsSlot i s own = record {
  own_index = own;
  idle = λ z. cc;
  stamp = λ z. cc;
  op = λ z. cc;
  names = λ z. cc;
}

visit-IsSlot :
    (now : ℕ) (reply : AcceptReply) (i : ℕ) (b : Bool) (s : Session)
    → now < uint64_max
    → IsSlot i b s
    → IsSlot i (if offered now s && started reply then true else b) (accepter_visit now reply s)
visit-IsSlot now reply i true s lt v =
    let off = pending_not_offered now i s lt v in rw (off, visit_kept now reply s off) v
visit-IsSlot now reply i false s lt v = elim (Bool-cases (offered now s)) [
  | inl on ↦ elim (Bool-cases (started reply)) [
    | inl st ↦
        rw (on, st, visit_taken now reply s on)
          (bound-IsSlot reply i s (offered_idle now s on) (started_socket reply st) v.own_index)
    | inr st ↦ rw (on, st) (unmarked-IsSlot i _ (visit-own_index now reply s ∙ v.own_index))
  ]
  | inr off ↦ rw (off, visit_kept now reply s off) v
]

pub mark_self : (b : Bool) (i : ℕ) (p : ℕ → Bool) → mark b i p i ≡ b
mark_self b i p = ground arith

mark_other : (b : Bool) (p : ℕ → Bool) {i j : ℕ} → i ≢ j → mark b i p j ≡ p j
mark_other b p other = ground (arith, other)

-- The marks of the other slots stay.
set-HasSlots :
    (p : ℕ → Bool) (b : Bool) (ss : List Session) (i : ℕ) (s' : Session)
    → Slots p ss
    → IsSlot i b s'
    → Slots (mark b i p) (set ss i s')
set-HasSlots p b ss i s' v h = record {
  full = length-set ss i s' ∙ v.full;
  slot = λ j w e. elim (get_elem?-set_cases ss i j s' e) [
    | inl (same, read) ↦
        subst (λ k. IsSlot k (mark b i p k) w) same
          (rw (mark_self b i p) (subst (IsSlot i b) read h))
    | inr (other, read) ↦ rw (mark_other b p other) (v.slot j w read)
  ];
}

pub visited-HasSlots :
    (now i : ℕ) (reply : AcceptReply) (s : Session) (y : System)
    → now < uint64_max
    → get_elem? y.net.session_list i ≡ some s
    → HasSlots y.pending y.net
    → HasSlots (visited now i reply s y).pending (visited now i reply s y).net
visited-HasSlots now i reply s y lt e v =
    let kept = visit-IsSlot now reply i (y.pending i) s lt (v.slot i s e) in
    elim (Bool-cases (offered now s && started reply)) [
      | inl on ↦ rw on (
          set-HasSlots y.pending true y.net.session_list i (accepter_visit now reply s) v
            (rw on at kept))
      | inr off ↦
          rw off (
            set-Slots y.pending y.net.session_list i (accepter_visit now reply s) v
              (rw off at kept))
    ]
