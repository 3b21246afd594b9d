-- ===== src/Dtp/Socket/Wire.antt =====
-- From one socket of dtp/src/dtp.rs to another: what `poll_send` hands to the kernel, and what
-- `poll_channel` makes of it at the other end.
use efcp.Prelude.{
  ℕ, ◌<◌, ◌≡◌, refl, ap, ◌∙◌, Bool, List, [], ◌∷◌, ◌++◌, Option, none, some, arith, length,
  if◌then◌else◌,
}
use efcp.Outcome.{ok, IoError}
use efcp.Outcome.Exec.{ended, pure, ◌>>=◌}
use efcp.Bytes.{BytesMut}
use efcp.Addr.{SocketAddr, socket_addr, from_socket_addr}
use efcp.Dtp.Ecn.{EcnCodepoint, ect0}
use efcp.Dtp.Packet.{DtpPacket, dtp_packet, received, set_ecn, set_channel, channel, max_packet_len}
use efcp.Dtp.Packet.Layer.{raw_of}
use efcp.Dtp.Udp.{Kernel, Datagram, Received, datagram, is_ce, recv_ext, send_ext, poll_of, mark}
use efcp.Dtp.Udp
use efcp.Dtp.Socket.Key.{Channel}
use efcp.Dtp.Socket.Datagram.{read_packet}
use efcp.Dtp.Socket.Defs.{Crates, InnerDtpSocket, on_socket, poll_send, poll_channel}
use efcp.Dtp.Socket.Mux.{Mux, Act}
use efcp.Dtp.Socket.Mux
use efcp.Dtp.Socket.Simulation.{Shows}
use efcp.Dtp.Socket.Keys.{update_self}
use efcp.Dtp.Socket.Refinement.{poll_channel-Simulates}

module _ (b : BytesMut) where
  -- The channel of a datagram that comes from `addr`.
  abbrev pub from : SocketAddr → ℕ → Channel
  from addr id = record { peer_addr = from_socket_addr addr; channel_id = id }

  received_bytes : (xs : List ℕ) → length xs < 65536 → b.slice_of (received b xs).bytes ≡ xs
  unfolding received
  received_bytes xs h =
      b.slice_of-fill (b.with_capacity max_packet_len) xs (b.slice_of-with_capacity max_packet_len)
        (omega (arith, b.remaining_mut-with_capacity max_packet_len))

  read_packet_lem :
      (addr : SocketAddr) (id : ℕ) (bs : List ℕ) (ce : Bool)
      → length bs < 65535
      → (q : DtpPacket b) × (read_packet b addr (id ∷ bs) ce ≡ ok (from addr id, q))
        × ((dtp_packet b).payload q ≡ ok bs)
        × (q.ecn ≡ ce)
  unfolding read_packet dtp_packet channel set_ecn
  read_packet_lem addr id bs ce h =
      let all = received_bytes (id ∷ bs) (omega arith) in
      (set_ecn b (received b (id ∷ bs)) ce, rw all (ground arith), rw all (ground arith), refl)

  -- `set_channel` on a packet with the payload `bs`, as bytes.
  set_channel_bytes :
      (p : DtpPacket b) (id : ℕ) (bs : List ℕ)
      → (dtp_packet b).payload p ≡ ok bs
      → (q : DtpPacket b) × (set_channel b p id ≡ ok q)
        × (b.slice_of q.bytes ≡ id ∷ bs)
        × (q.ecn ≡ p.ecn)
  unfolding dtp_packet set_channel
  set_channel_bytes p id bs e =
      let (x, raw) = raw_of b (b.slice_of p.bytes) bs e in
      (
        record p { bytes = b.write p.bytes (id ∷ bs) },
        rw raw (ground arith),
        b.slice_of-write p.bytes (id ∷ bs) (omega (arith, ap (length {A = ℕ}) raw)),
        refl,
      )

  module _ (m : Mux b) (ch : Channel) (empty : m.queues ch ≡ []) where
    take_none : Mux.take_packet b ch m ≡ (ok none, m)
    unfolding Mux.take_packet
    take_none = rw (Mux.take_packet, empty) refl

    take_back : (q : DtpPacket b) → (Mux.take_packet b ch (Mux.receive b ch q m).1).0 ≡ ok (some q)
    unfolding Mux.take_packet Mux.receive
    take_back q =
        let now = update_self ch (m.queues ch ++ q ∷ []) m.queues in
        rw (Mux.take_packet, Mux.receive, now, empty) refl

  found_one :
      (ch : Channel) (q : DtpPacket b) (f : Act b (Option (DtpPacket b))) (m : Mux b)
      → (Mux.take_packet b ch m).0 ≡ ok (some q)
      → (((Mux.take_packet b ch >>= λ found. elim found [ some p ↦ pure (some p) | none ↦ f ])
            >>= ended)
          m).0
        ≡ ok q
  found_one ch q f m e = rw e refl

  recv_one :
      (m : Mux b) (d : Datagram) (ch : Channel) (q : DtpPacket b)
      → m.net.inbox ≡ datagram d ∷ []
      → read_packet b d.addr d.bytes (is_ce d.ecn) ≡ ok (ch, q)
      → Mux.poll_recv b m ≡ Mux.receive b ch q (record m { net = record m.net { inbox = [] } })
  unfolding Mux.poll_recv Udp.poll_recv recv_ext poll_of mark
  recv_one m d ch q one read = rw (Mux.poll_recv, Udp.poll_recv, recv_ext, one, read) refl

  Mux_receives :
      (m : Mux b) (d : Datagram) (ch : Channel) (q : DtpPacket b)
      → m.net.inbox ≡ datagram d ∷ []
      → m.queues ch ≡ []
      → read_packet b d.addr d.bytes (is_ce d.ecn) ≡ ok (ch, q)
      → (Mux.poll_channel b ch m).0 ≡ ok q
  unfolding Mux.poll_channel Mux.channel_loop
  Mux_receives m d ch q one empty read =
      rw (take_none m ch empty, recv_one m d ch q one read)
        (found_one ch q _ (Mux.receive b ch q (record m { net = record m.net { inbox = [] } })).1
          (take_back (record m { net = record m.net { inbox = [] } }) ch empty q))

module _ (c : Crates) where
  abbrev out : Channel → DtpPacket c.buf → Datagram
  out ch q = record {
    addr = socket_addr ch.peer_addr;
    ecn = if q.ecn then some ect0 else none;
    bytes = c.buf.slice_of q.bytes;
  }

  abbrev with_answers :
      Channel → DtpPacket c.buf → InnerDtpSocket c → List (Option IoError) → InnerDtpSocket c
  with_answers ch q s a = record s {
    socket = record s.socket { answers = a; outbox = s.socket.outbox ++ out ch q ∷ [] };
  }

  poll_send_lem :
      (ch : Channel) (p q : DtpPacket c.buf) (s : InnerDtpSocket c)
      → set_channel c.buf p ch.channel_id ≡ ok q
      → s.socket.answers ≡ []
      → poll_send c ch p s ≡ (ok tt, with_answers ch q s s.socket.answers)
  unfolding poll_send on_socket Udp.poll_send send_ext poll_of
  poll_send_lem ch p q s set free = rw (set, free) (ap (λ a. (ok tt, with_answers ch q s a)) free)

  with_net :
      (k : Kernel) (s : InnerDtpSocket c) (m : Mux c.buf)
      → Shows c s m
      → Shows c (record s { socket = k }) (record m { net = k })
  with_net k s m v = record {
    net = refl;
    queues = v.queues;
    taken = v.taken;
    waiting = v.waiting;
    live = v.live;
    one_channel = v.one_channel;
  }

  -- A packet with a payload of fewer than 65535 bytes, sent on the channel `ch` with a kernel
  -- that takes it, leaves as one datagram to the peer of `ch`. A socket whose state shows an
  -- abstract state, that gets these bytes from the address `here`, whatever mark the network has
  -- put on them, and has nothing queued for that channel, returns from `poll_channel` on the
  -- channel with that peer and the same id a packet with the payload that was sent, and says
  -- whether the mark is that of congestion.
  pub poll_channel-poll_send :
      (here : SocketAddr) (ecn : Option EcnCodepoint) (ch : Channel) (p : DtpPacket c.buf)
      (bs : List ℕ) (s r : InnerDtpSocket c) (m : Mux c.buf)
      → (dtp_packet c.buf).payload p ≡ ok bs
      → length bs < 65535
      → s.socket.answers ≡ []
      → Shows c r m
      → m.queues (from c.buf here ch.channel_id) ≡ []
      → (d : Datagram) × (q : DtpPacket c.buf) × (poll_send c ch p s
          ≡ (ok tt, record s { socket = record s.socket { outbox = s.socket.outbox ++ d ∷ [] } }))
        × (d.addr ≡ socket_addr ch.peer_addr)
        × ((poll_channel c (from c.buf here ch.channel_id) (record r {
          socket = record r.socket { inbox = datagram (record d { addr = here; ecn = ecn }) ∷ [] };
        })).0
            ≡ ok q)
        × ((dtp_packet c.buf).payload q ≡ ok bs)
        × (q.ecn ≡ is_ce ecn)
  poll_channel-poll_send here ecn ch p bs s r m e short free v empty =
      let (q, set, bytes, _) = set_channel_bytes c.buf p ch.channel_id bs e in
      let (got, read, payload, marked) =
        read_packet_lem c.buf here ch.channel_id bs (is_ce ecn) short in
      let d = out ch q in
      let arrived : Datagram = record d { addr = here; ecn = ecn } in
      let k : Kernel = record r.socket { inbox = datagram arrived ∷ [] } in
      let same =
        (poll_channel-Simulates c (from c.buf here ch.channel_id) (record r { socket = k })
          (record m { net = k }) (with_net k r m v)).0 in
      (
        d,
        got,
        poll_send_lem ch p q s set free,
        refl,
        same
            ∙ Mux_receives c.buf (record m { net = k }) arrived (from c.buf here ch.channel_id) got
                refl empty (rw bytes read),
        payload,
        marked,
      )
