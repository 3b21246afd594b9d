-- ===== src/Dtp/Socket/Simulation.antt =====
-- The relation between a socket and the abstract state, and how it passes through sequences of calls.
use efcp.Prelude.{ℕ, ◌≡◌, refl, List, [], Option, none, some}
use efcp.Outcome.{Outcome, ok, err, panic, pending, IoError}
use efcp.Outcome.Exec.{Exec, lift, continue, ◌>>=◌}
use efcp.Dtp.Packet.{DtpPacket}
use efcp.Dtp.Socket.Key.{Channel}
use efcp.Dtp.Socket.Defs.{Crates, InnerDtpSocket, Call, on_socket}
use efcp.Dtp.Socket.Mux.{Mux, Act, on_net}
use efcp.Dtp.Udp.{Kernel}

module _ (c : Crates) where
  -- The packets that are queued for a channel.
  abbrev pub contents : c.slab.Store → Option ℕ → List (DtpPacket c.buf)
  contents conns none = []
  contents conns (some k) = elim (c.slab.get conns k) [ none ↦ [] | some q ↦ c.packets.to_list q ]

  -- Every key in the lookup table is live and belongs to one channel, and the abstract state says what
  -- is queued, taken and waiting.
  pub record Shows (s : InnerDtpSocket c) (m : Mux c.buf) : Type 0 where
    pub net : s.socket ≡ m.net
    pub queues : (ch : Channel) → contents s.connections (s.channel_lookup ch) ≡ m.queues ch
    pub taken : (ch : Channel) → s.channels ch ≡ m.taken ch
    pub waiting : c.accepts.to_list s.incoming ≡ m.waiting
    pub live :
        (ch : Channel) (k : ℕ)
        → s.channel_lookup ch ≡ some k
        → (q : c.packets.Queue) × (c.slab.get s.connections k ≡ some q)
    pub one_channel :
        (a b : Channel) (k : ℕ) → s.channel_lookup a ≡ some k → s.channel_lookup b ≡ some k → a ≡ b

  -- From related states the two calls return the same, and the states are related again.
  abbrev pub Simulates : {A : Type 0} → Call c A → Act c.buf A → Type 0
  Simulates f g =
      (s : InnerDtpSocket c) (m : Mux c.buf)
      → Shows s m
      → ((f s).0 ≡ (g m).0) × Shows (f s).1 (g m).1

  continue-Simulates :
      {A B : Type 0} (r r' : Outcome IoError A) (f : A → Call c B) (g : A → Act c.buf B)
      → ((a : A) → Simulates (f a) (g a))
      → r ≡ r'
      → (s : InnerDtpSocket c) (m : Mux c.buf) → Shows s m
      → ((continue r f s).0 ≡ (continue r' g m).0) × Shows (continue r f s).1 (continue r' g m).1
  continue-Simulates (ok a) r' f g h e s m v = rw (← e) (h a s m v)
  continue-Simulates (err x) r' f g h e s m v = rw (← e) (refl, v)
  continue-Simulates panic r' f g h e s m v = rw (← e) (refl, v)
  continue-Simulates pending r' f g h e s m v = rw (← e) (refl, v)

  pub bind-Simulates :
      {A B : Type 0} (f : Call c A) (f' : Act c.buf A) (g : A → Call c B) (g' : A → Act c.buf B)
      → Simulates f f'
      → ((a : A) → Simulates (g a) (g' a))
      → Simulates (f >>= g) (f' >>= g')
  bind-Simulates f f' g g' h k s m v =
      let (same, v') = h s m v in
      continue-Simulates (f s).0 (f' m).0 g g' k same (f s).1 (f' m).1 v'

  pub lift-Simulates : {A : Type 0} (r : Outcome IoError A) → Simulates (lift r) (lift r)
  lift-Simulates r s m v = (refl, v)

  pub on_socket-Simulates :
      {A : Type 0} (f : Exec Kernel IoError A) → Simulates (on_socket c f) (on_net c.buf f)
  unfolding on_socket
  on_socket-Simulates f s m v = (
    rw v.net,
    record {
      net = rw v.net;
      queues = v.queues;
      taken = v.taken;
      waiting = v.waiting;
      live = v.live;
      one_channel = v.one_channel;
    },
  )
