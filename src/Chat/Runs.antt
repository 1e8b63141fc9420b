-- ===== src/Chat/Runs.antt =====
-- Runs of the server as the packet thread orders them (Content/packet_manager.cpp), each step with what
-- it does to the abstract chat.
use mathlib.Core.Option.{some-injective}
use iocp_chatting.Config.{max_user_cnt, default_ringbuffer_size}
use iocp_chatting.Packet.{PacketInfo}
use iocp_chatting.User.{User}
use iocp_chatting.Users
use iocp_chatting.Users.{user_at}
use iocp_chatting.Users.Pool.{IsPool}
use iocp_chatting.Rooms.Bounds.{AreRooms}
use iocp_chatting.PacketManager.{State, init}
use iocp_chatting.PacketManager.Sound.{IsSound, init-IsSound}
use iocp_chatting.Dispatch.{Handler, packet_handler, process_packet, enqueue_packet}
use iocp_chatting.Dispatch.Reach.{process_packet-IsSound, enqueue_packet-IsSound}
use iocp_chatting.Chat.{Chat, outside}
use iocp_chatting.Chat.Represents.{Represents, init-Represents}
use iocp_chatting.Chat.Server.{act, Orderly}
use iocp_chatting.Chat.Process.{
  queued-Represents, process_packet-refines, process_packet-unknown, enqueue_packet-Represents,
}
use iocp_chatting.Prelude.{
  ℕ, ◌≡◌, sym, ap, ◌∙◌, subst, Bool, none, some, List, length, get_elem?, ℤ, to_int32, Ensures-some,
}

module _ (past_end : List ℕ → List ℕ) where
  -- A packet for a handler, handled as the handlers rely on; one without a handler; bytes for a user's
  -- ring; and work on the queues or on the Redis thread.
  pub data Step (s : State) (c : Chat) (t : State) (c' : Chat) : Type 0 where
    handled :
        (h : Handler) (pkt : PacketInfo) (user_pkt : Bool) {done : Bool} (p : ℕ) (u : User)
        → packet_handler pkt.id ≡ some h
        → Users.get_user_by_index s.users (to_int32 pkt.session_index) ≡ some p
        → user_at s.users p ≡ some u
        → Orderly p pkt.bytes u s c h
        → process_packet past_end pkt user_pkt s ≡ some (done, t)
        → c' ≡ act p pkt.bytes c h
        → Step s c t c'
    ignored :
        (pkt : PacketInfo) (user_pkt : Bool) {done : Bool}
        → packet_handler pkt.id ≡ none
        → process_packet past_end pkt user_pkt s ≡ some (done, t)
        → c' ≡ c
        → Step s c t c'
    received :
        (i : ℤ) (bytes : List ℕ) {known : Bool}
        → enqueue_packet i bytes s ≡ some (known, t)
        → c' ≡ c
        → Step s c t c'
    queued : t.users ≡ s.users → t.rooms ≡ s.rooms → c' ≡ c → Step s c t c'

  pub data Run (s : State) (c : Chat) : State → Chat → Type 0 where
    here : Run s c s c
    next : {t v : State} {d e : Chat} → Run s c t d → Step t d v e → Run s c v e

  -- A sound state that holds the chat.
  pub record Holds (s : State) (c : Chat) : Type 0 where
    pub sound : IsSound s
    pub holds : Represents s c

  processed-IsSound :
      (pkt : PacketInfo) (user_pkt : Bool) (s t : State) {done : Bool}
      → IsSound s
      → process_packet past_end pkt user_pkt s ≡ some (done, t)
      → IsSound t
  processed-IsSound pkt user_pkt s t v run =
      Ensures-some (λ r. IsSound r.1) (process_packet past_end pkt user_pkt s)
        (process_packet-IsSound past_end pkt user_pkt s v) run

  Step-Holds :
      {s : State} {c : Chat} {t : State} {c' : Chat} → Step s c t c' → Holds s c → Holds t c'
  Step-Holds {s} {c} {t} (handled h pkt user_pkt p u eh ei eu ok run e) w =
      let (t', run', rep) =
        process_packet-refines past_end h pkt user_pkt s c p u eh ei eu w.sound w.holds ok in
      record {
        sound = processed-IsSound pkt user_pkt s t w.sound run;
        holds = subst (Represents t) (sym e) (
            subst (λ x. Represents x (act p pkt.bytes c h))
              (ap (λ r. r.1) (some-injective _ _ (sym run' ∙ run))) rep);
      }
  Step-Holds {s} {c} {t} (ignored pkt user_pkt eh run e) w = record {
    sound = processed-IsSound pkt user_pkt s t w.sound run;
    holds = subst (Represents t) (sym e) (
        subst (λ x. Represents x c)
          (ap (λ r. r.1)
            (some-injective _ _ (sym (process_packet-unknown past_end pkt user_pkt s eh) ∙ run)))
          w.holds);
  }
  Step-Holds {s} {c} {t} (received i bytes run e) w = record {
    sound =
        Ensures-some (λ r. IsSound r.1) (enqueue_packet i bytes s)
          (enqueue_packet-IsSound i bytes s w.sound) run;
    holds = subst (Represents t) (sym e) (
        Ensures-some (λ r. Represents r.1 c) (enqueue_packet i bytes s)
          (enqueue_packet-Represents i bytes s c w.holds) run);
  }
  Step-Holds {s} {c} {t} (queued eu er e) w = record {
    sound = record {
      pool = subst IsPool (sym eu) w.sound.pool;
      rooms = subst AreRooms (sym er) w.sound.rooms;
    };
    holds = subst (Represents t) (sym e) (queued-Represents s t c eu er w.holds);
  }

  Run-Holds : {s : State} {c : Chat} {t : State} {c' : Chat} → Run s c t c' → Holds s c → Holds t c'
  Run-Holds here w = w
  Run-Holds (next run step) w = Step-Holds step (Run-Holds run w)

  -- In every run of the server from its start, over any number of users, packets and arrivals in any
  -- order, in which each packet is handled as the handlers rely on, the state is sound and holds the
  -- chat that the packets' effects have led to, everybody being outside at first: each user object says
  -- where the chat has the user, if it has not departed, and each room's list has exactly the users that
  -- the chat has in the room, each once.
  pub Run-Represents :
      (raws : List (List ℕ)) {t : State} {c : Chat}
      → length raws ≡ max_user_cnt
      → ((j : ℕ) (raw : List ℕ)
          → get_elem? raws j ≡ some raw
          → length raw ≡ default_ringbuffer_size)
      → Run (init raws) (λ q. outside) t c
      → IsSound t × Represents t c
  Run-Represents raws n h run =
      let w =
        Run-Holds run (record { sound = init-IsSound raws n h; holds = init-Represents raws }) in
      (w.sound, w.holds)
