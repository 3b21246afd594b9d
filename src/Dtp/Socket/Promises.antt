-- ===== src/Dtp/Socket/Promises.antt =====
-- What a user of the socket of dtp/src/dtp.rs may rely on.
use efcp.Prelude.{
  ℕ, suc, ◌<◌, ◌≡◌, ◌≢◌, none, refl, ap, sym, ◌∙◌, List, [], ◌∷◌, ◌++◌, arith, length,
}
use efcp.Outcome.{Outcome, ok, IoError}
use efcp.Outcome.Exec.{Exec}
use efcp.Addr.{Addr, socket_addr}
use efcp.Dtp.Packet.{DtpPacket, set_channel}
use efcp.Dtp.Udp.{Kernel}
use efcp.Dtp.Udp
use efcp.Dtp.Socket.Key.{Channel}
use efcp.Dtp.Socket.Defs.{
  Crates, InnerDtpSocket, bind, channel_loop, incoming_loop, poll_channel, poll_incoming, outgoing,
  close, poll_send,
}
use efcp.Dtp.Socket.Mux.{Mux}
use efcp.Dtp.Socket.Mux
use efcp.Dtp.Socket.Simulation.{
  contents, Shows, Simulates, bind-Simulates, lift-Simulates, on_socket-Simulates,
}
use efcp.Dtp.Socket.Streams.{arrivals, stream, given, poll_channel-Keeps, poll_incoming-Still}
use efcp.Dtp.Socket.Fuel.{
  channel_loop_enough, incoming_loop_enough, channel_loop_ends, incoming_loop_ends,
}
use efcp.Dtp.Socket.Refinement.{
  bind-Shows, poll_channel-Simulates, poll_incoming-Simulates, outgoing-Simulates, close-Simulates,
  channel_loop-Simulates, incoming_loop-Simulates,
}

-- The calls of the socket, and what they return.
pub data Request (c : Crates) : Type 0 where
  accept : Request c
  recv : Channel → Request c
  connect : Addr → ℕ → Request c
  drop : Channel → Request c
  send : Channel → DtpPacket c.buf → Request c

pub data Reply (c : Crates) : Type 0 where
  channel : Outcome IoError Channel → Reply c
  packet : Outcome IoError (DtpPacket c.buf) → Reply c
  done : Outcome IoError (Unit {0}) → Reply c

module _ (c : Crates) where
  abbrev reply : {S A : Type 0} → (Outcome IoError A → Reply c) → Exec S IoError A → S → Reply c × S
  reply f m s = (f (m s).0, (m s).1)

  pub serve : Request c → InnerDtpSocket c → Reply c × InnerDtpSocket c
  serve accept = reply channel (poll_incoming c)
  serve (recv ch) = reply packet (poll_channel c ch)
  serve (connect peer id) = reply channel (outgoing c peer id)
  serve (drop ch) = reply done (close c ch)
  serve (send ch p) = reply done (poll_send c ch p)

  pub promise : Request c → Mux c.buf → Reply c × Mux c.buf
  promise accept = reply channel (Mux.poll_incoming c.buf)
  promise (recv ch) = reply packet (Mux.poll_channel c.buf ch)
  promise (connect peer id) = reply channel (Mux.outgoing c.buf peer id)
  promise (drop ch) = reply done (Mux.close c.buf ch)
  promise (send ch p) = reply done (Mux.poll_send c.buf ch p)

  -- The replies to requests in order.
  pub serve_all :
      {S : Type 0} → (Request c → S → Reply c × S) → List (Request c) → S → List (Reply c)
  serve_all step [] s = []
  serve_all step (r ∷ rs) s = (step r s).0 ∷ serve_all step rs (step r s).1

  poll_send-Simulates :
      (ch : Channel) (p : DtpPacket c.buf)
      → Simulates c (poll_send c ch p) (Mux.poll_send c.buf ch p)
  unfolding poll_send Mux.poll_send
  poll_send-Simulates ch p =
      bind-Simulates c _ _ _ _ (lift-Simulates c (set_channel c.buf p ch.channel_id)) λ q.
        on_socket-Simulates c
          (Udp.poll_send (socket_addr ch.peer_addr) q.ecn (c.buf.slice_of q.bytes))

  serve-Simulates :
      (r : Request c) (s : InnerDtpSocket c) (m : Mux c.buf)
      → Shows c s m
      → ((serve r s).0 ≡ (promise r m).0) × Shows c (serve r s).1 (promise r m).1
  unfolding serve promise
  serve-Simulates accept s m v =
      let (same, v') = poll_incoming-Simulates c s m v in (ap channel same, v')
  serve-Simulates (recv ch) s m v =
      let (same, v') = poll_channel-Simulates c ch s m v in (ap packet same, v')
  serve-Simulates (connect peer id) s m v =
      let (same, v') = outgoing-Simulates c peer id s m v in (ap channel same, v')
  serve-Simulates (drop ch) s m v =
      let (same, v') = close-Simulates c ch s m v in (ap done same, v')
  serve-Simulates (send ch p) s m v =
      let (same, v') = poll_send-Simulates ch p s m v in (ap done same, v')

  serve_all-same :
      (rs : List (Request c)) (s : InnerDtpSocket c) (m : Mux c.buf)
      → Shows c s m
      → serve_all serve rs s ≡ serve_all promise rs m
  unfolding serve_all
  serve_all-same [] s m v = refl
  serve_all-same (r ∷ rs) s m v =
      let (same, v') = serve-Simulates r s m v in
      rw (same, serve_all-same rs (serve r s).1 (promise r m).1 v')

  -- From `bind` on, whatever the kernel delivers and whatever is requested in whatever order, the
  -- socket replies as the abstract state does, which keeps one queue for each channel: the lookup table
  -- and the slab of the code are never seen.
  pub serve_all-Refines :
      (kernel : Kernel) (rs : List (Request c))
      → serve_all serve rs (bind c kernel) ≡ serve_all promise rs (Mux.start c.buf kernel)
  serve_all-Refines kernel rs = serve_all-same rs _ _ (bind-Shows c kernel)

  -- The packets on their way to a channel: those in its queue, then those that the kernel has.
  abbrev pub on_the_way : Channel → InnerDtpSocket c → List (DtpPacket c.buf)
  on_the_way x s = contents c s.connections (s.channel_lookup x) ++ arrivals c.buf x s.socket.inbox

  on_the_way-stream :
      (x : Channel) (s : InnerDtpSocket c) (m : Mux c.buf)
      → Shows c s m
      → on_the_way x s ≡ stream c.buf x m
  on_the_way-stream x s m v = rw (v.queues x, v.net) refl

  -- From a state that shows an abstract state, `poll_channel` on a channel takes the packet that
  -- it returns off the front of the packets on their way to that channel, and takes nothing if it
  -- returns none. The packets of every other channel are what they were, in the same order: none
  -- is lost, repeated or given to another channel.
  pub poll_channel-on_the_way :
      (x ch : Channel) (s : InnerDtpSocket c) (m : Mux c.buf)
      → Shows c s m
      → on_the_way x s
        ≡ given c.buf x ch (poll_channel c ch s).0 ++ on_the_way x (poll_channel c ch s).1
  poll_channel-on_the_way x ch s m v =
      let (same, v') = poll_channel-Simulates c ch s m v in
      on_the_way-stream x s m v
      ∙ (poll_channel-Keeps c.buf x ch m
          ∙ rw (same, on_the_way-stream x (poll_channel c ch s).1 _ v') refl)

  -- From a state that shows an abstract state, `poll_incoming` leaves the packets on their way to
  -- every channel as they were.
  pub poll_incoming-on_the_way :
      (x : Channel) (s : InnerDtpSocket c) (m : Mux c.buf)
      → Shows c s m
      → on_the_way x (poll_incoming c s).1 ≡ on_the_way x s
  poll_incoming-on_the_way x s m v =
      let (same, v') = poll_incoming-Simulates c s m v in
      on_the_way-stream x _ _ v' ∙ (poll_incoming-Still c.buf x m ∙ sym (on_the_way-stream x s m v))

  -- From a state that shows an abstract state, the loops of `poll_channel` and of `poll_incoming`
  -- end within one round more than the kernel has datagrams to deliver: with that fuel or more
  -- neither is cut off in the middle, and the outcome does not depend on the fuel.
  pub loops_end :
      (ch : Channel) (fuel : ℕ) (s : InnerDtpSocket c) (m : Mux c.buf)
      → Shows c s m
      → length s.socket.inbox < fuel
      → ((channel_loop c ch fuel s).0 ≢ ok none)
        × ((channel_loop c ch fuel s).0 ≡ (channel_loop c ch (suc (length s.socket.inbox)) s).0)
        × ((incoming_loop c fuel s).0 ≢ ok none)
        × ((incoming_loop c fuel s).0 ≡ (incoming_loop c (suc (length s.socket.inbox)) s).0)
  loops_end ch fuel s m v h =
      let rounds : ℕ = suc (length s.socket.inbox) in
      let inbox : length s.socket.inbox ≡ length m.net.inbox = ap (λ n. length n.inbox) v.net in
      let channel_same = (channel_loop-Simulates c ch fuel s m v).0 in
      let incoming_same = (incoming_loop-Simulates c fuel s m v).0 in
      (
        λ e. channel_loop_ends c.buf ch fuel m (omega arith) (sym channel_same ∙ e),
        channel_same
            ∙ (ap (λ r. r.0)
                  (channel_loop_enough c.buf ch fuel rounds m (omega arith) (omega arith))
                ∙ sym (channel_loop-Simulates c ch rounds s m v).0),
        λ e. incoming_loop_ends c.buf fuel m (omega arith) (sym incoming_same ∙ e),
        incoming_same
            ∙ (ap (λ r. r.0) (incoming_loop_enough c.buf fuel rounds m (omega arith) (omega arith))
                ∙ sym (incoming_loop-Simulates c rounds s m v).0),
      )
