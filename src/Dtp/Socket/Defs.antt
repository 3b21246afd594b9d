-- ===== src/Dtp/Socket/Defs.antt =====
-- `InnerDtpSocket` of dtp/src/dtp.rs. A map or a set is a function. A call holds its locks while it
-- uses what they guard, so one call is one step.
use efcp.Prelude.{ℕ, zero, suc, Bool, true, false, Option, none, some, if◌then◌else◌, length}
use efcp.Outcome.{ok, err, panic, IoError, other}
use efcp.Outcome.Exec.{Exec, pure, lift, ended, ◌>>=◌, ◌>>◌}
use efcp.Bytes.{BytesMut}
use efcp.Addr.{Addr, socket_addr, from_socket_addr}
use efcp.Dtp.Packet.{DtpPacket, set_channel}
use efcp.Dtp.Queues.{SegQueue, Slab}
use efcp.Dtp.Udp.{Kernel}
use efcp.Dtp.Udp
use efcp.Dtp.Socket.Key.{Channel, chan_eq}
use efcp.Dtp.Socket.Datagram.{read_packet}

-- The crates that the socket is built from.
pub record Crates : Type 1 where
  pub buf : BytesMut
  pub packets : SegQueue (DtpPacket buf)
  pub slab : Slab packets.Queue
  pub accepts : SegQueue Channel

pub record InnerDtpSocket (c : Crates) : Type 0 where
  pub socket : Kernel
  pub connections : c.slab.Store
  pub channel_lookup : Channel → Option ℕ
  pub channels : Channel → Bool
  pub incoming : c.accepts.Queue

-- A map or a set with the value at one key changed.
unfoldable pub update : {A : Type 0} → Channel → A → (Channel → A) → Channel → A
unfolding chan_eq
update ch a m x = if chan_eq x ch then a else m x

module _ (c : Crates) where
  abbrev pub Call : Type 0 → Type 0
  Call = Exec (InnerDtpSocket c) IoError

  unfoldable pub bind : Kernel → InnerDtpSocket c
  bind kernel = record {
    socket = kernel;
    connections = c.slab.new;
    channel_lookup = λ _. none;
    channels = λ _. false;
    incoming = c.accepts.new;
  }

  -- A call of the UDP socket.
  unfoldable pub on_socket : {A : Type 0} → Exec Kernel IoError A → Call A
  on_socket m s = ((m s.socket).0, record s { socket = (m s.socket).1 })

  unfoldable pub connection_id : Channel → Call (Option ℕ)
  unfolding update
  connection_id ch s = elim (s.channel_lookup ch) [
    | some conn_id ↦ (ok (some conn_id), s)
    | none ↦
        let (conn_id, conns) = c.slab.insert s.connections c.packets.new in
        (
          ok (some conn_id),
          record s {
            connections = conns;
            channel_lookup = update ch (some conn_id) s.channel_lookup;
          },
        )
  ]

  -- `self.connections .. .get_mut(conn_id).unwrap().push(payload)`
  unfoldable pub push_to : ℕ → DtpPacket c.buf → Call (Unit {0})
  push_to conn_id payload s = elim (c.slab.get s.connections conn_id) [
    | none ↦ (panic, s)
    | some q ↦ (
      ok tt,
      record s { connections = c.slab.set s.connections conn_id (c.packets.push q payload) },
    )
  ]

  -- `if !self.channels .. .contains(&channel) { self.incoming.push(channel.clone()) }`
  unfoldable pub announce : Channel → Call (Unit {0})
  announce ch s =
      if s.channels ch
      then (ok tt, s)
      else (ok tt, record s { incoming = c.accepts.push s.incoming ch })

  -- `if let Some(conn_id) = self.connection_id(&channel) { .. }`
  unfoldable pub deliver : Channel → DtpPacket c.buf → Option ℕ → Call (Unit {0})
  unfolding push_to announce
  deliver ch payload none = pure tt
  deliver ch payload (some conn_id) = do push_to conn_id payload; announce ch

  unfoldable pub receive : Channel → DtpPacket c.buf → Call (Unit {0})
  unfolding connection_id deliver
  receive ch payload = connection_id ch >>= deliver ch payload

  unfoldable pub poll_recv : Call (Unit {0})
  unfolding on_socket read_packet receive
  poll_recv = do
    (peer_addr, bytes, ecn) ← on_socket Udp.poll_recv
    (ch, payload) ← lift (read_packet c.buf peer_addr bytes ecn)
    receive ch payload

  -- The second part of the loop of `poll_incoming`.
  unfoldable pub accept_next : Call (Option Channel)
  unfolding update
  accept_next s = elim (c.accepts.pop s.incoming) [
    | none ↦ (ok none, s)
    | some (ch, rest) ↦
        if s.channels ch
        then (ok none, record s { incoming = rest })
        else (ok (some ch), record s { incoming = rest; channels = update ch true s.channels })
  ]

  -- One unit of fuel is one round of the loop. `none` says that the loop would go on.
  unfoldable pub incoming_loop : ℕ → Call (Option Channel)
  unfolding poll_recv accept_next
  incoming_loop zero = pure none
  incoming_loop (suc fuel) = do
    poll_recv
    found ← accept_next
    elim found [ some ch ↦ pure (some ch) | none ↦ incoming_loop fuel ]

  unfoldable pub poll_incoming : Call Channel
  unfolding incoming_loop
  poll_incoming s = elim (c.accepts.pop s.incoming) [
    | some (ch, rest) ↦ (ok ch, record s { incoming = rest })
    | none ↦ (incoming_loop (suc (length s.socket.inbox)) >>= ended) s
  ]

  -- `conns.get(conn_id).unwrap()` and `queue.pop()`
  unfoldable pub pop_from : Option ℕ → Call (Option (DtpPacket c.buf))
  pop_from none s = (ok none, s)
  pop_from (some conn_id) s = elim (c.slab.get s.connections conn_id) [
    | none ↦ (panic, s)
    | some q ↦ elim (c.packets.pop q) [
      | none ↦ (ok none, s)
      | some (packet, rest) ↦
          (ok (some packet), record s { connections = c.slab.set s.connections conn_id rest })
    ]
  ]

  unfoldable pub take_packet : Channel → Call (Option (DtpPacket c.buf))
  unfolding connection_id pop_from
  take_packet ch = connection_id ch >>= pop_from

  unfoldable pub channel_loop : Channel → ℕ → Call (Option (DtpPacket c.buf))
  unfolding poll_recv take_packet
  channel_loop ch zero = pure none
  channel_loop ch (suc fuel) = do
    poll_recv
    found ← take_packet ch
    elim found [ some packet ↦ pure (some packet) | none ↦ channel_loop ch fuel ]

  unfoldable pub poll_channel : Channel → Call (DtpPacket c.buf)
  unfolding take_packet channel_loop
  poll_channel ch = do
    found ← take_packet ch
    elim found [
      | some packet ↦ pure packet
      | none ↦ λ s. (channel_loop ch (suc (length s.socket.inbox)) >>= ended) s
    ]

  unfoldable pub outgoing : Addr → ℕ → Call Channel
  unfolding update
  outgoing peer_addr channel_id s =
      let ch : Channel = record { peer_addr = peer_addr; channel_id = channel_id } in
      if s.channels ch
      then (err (other "channel already taken"), s)
      else (ok ch, record s { channels = update ch true s.channels })

  -- The last three lines of `close`, given what `connection_id` returned.
  unfoldable pub discard : Channel → Option ℕ → Call (Unit {0})
  unfolding update
  discard ch none s = (panic, s)
  discard ch (some conn_id) s = elim (c.slab.remove s.connections conn_id) [
    | none ↦ (panic, record s { channel_lookup = update ch none s.channel_lookup })
    | some conns ↦
        (ok tt, record s { connections = conns; channel_lookup = update ch none s.channel_lookup })
  ]

  unfoldable pub forget : Channel → Call (Unit {0})
  unfolding update
  forget ch s = (ok tt, record s { channels = update ch false s.channels })

  unfoldable pub close : Channel → Call (Unit {0})
  unfolding forget connection_id discard
  close ch = do forget ch; conn_id ← connection_id ch; discard ch conn_id

  unfoldable pub poll_send : Channel → DtpPacket c.buf → Call (Unit {0})
  unfolding on_socket
  poll_send ch packet = do
    q ← lift (set_channel c.buf packet ch.channel_id)
    on_socket (Udp.poll_send (socket_addr ch.peer_addr) q.ecn (c.buf.slice_of q.bytes))

  unfoldable pub ttl : Call ℕ
  unfolding on_socket
  ttl = on_socket Udp.ttl

  unfoldable pub set_ttl : ℕ → Call (Unit {0})
  unfolding on_socket
  set_ttl n = on_socket (Udp.set_ttl n)

  -- `self.socket.local_addr().map(Into::into)`
  unfoldable pub local_addr : Call Addr
  unfolding on_socket
  local_addr = do addr ← on_socket Udp.local_addr; pure (from_socket_addr addr)
