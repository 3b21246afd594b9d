-- ===== src/Dtp/Socket/Mux.antt =====
-- What the socket of dtp/src/dtp.rs promises: one queue of packets for each channel, with no keys and
-- no slab. The operations are those of the socket, on this abstract state.
use efcp.Prelude.{
  ℕ, zero, suc, Bool, true, false, List, [], ◌∷◌, ◌++◌, Option, none, some, if◌then◌else◌, length,
}
use efcp.Outcome.{ok, err, IoError, other}
use efcp.Outcome.Exec.{Exec, pure, lift, ended, ◌>>=◌, ◌>>◌}
use efcp.Bytes.{BytesMut}
use efcp.Addr.{Addr, socket_addr}
use efcp.Dtp.Packet.{DtpPacket, set_channel}
use efcp.Dtp.Udp.{Kernel}
use efcp.Dtp.Udp
use efcp.Dtp.Socket.Key.{Channel}
use efcp.Dtp.Socket.Datagram.{read_packet}
use efcp.Dtp.Socket.Defs.{update}

pub record Mux (b : BytesMut) : Type 0 where
  pub net : Kernel
  pub queues : Channel → List (DtpPacket b)
  pub taken : Channel → Bool
  pub waiting : List Channel

module _ (b : BytesMut) where
  abbrev pub Act : Type 0 → Type 0
  Act = Exec (Mux b) IoError

  abbrev pub start : Kernel → Mux b
  start net = record { net = net; queues = λ _. []; taken = λ _. false; waiting = [] }

  abbrev pub on_net : {A : Type 0} → Exec Kernel IoError A → Act A
  on_net m s = ((m s.net).0, record s { net = (m s.net).1 })

  -- A packet goes to the end of its channel's queue, and a channel that is not taken waits.
  unfoldable pub receive : Channel → DtpPacket b → Act (Unit {0})
  unfolding update
  receive ch p s = (
    ok tt,
    record s {
      queues = update ch (s.queues ch ++ p ∷ []) s.queues;
      waiting = if s.taken ch then s.waiting else s.waiting ++ ch ∷ [];
    },
  )

  unfoldable pub poll_recv : Act (Unit {0})
  unfolding receive
  poll_recv = do
    (peer_addr, bytes, ecn) ← on_net Udp.poll_recv
    (ch, p) ← lift (read_packet b peer_addr bytes ecn)
    receive ch p

  unfoldable pub accept_next : Act (Option Channel)
  unfolding update
  accept_next s = elim s.waiting [
    | [] ↦ (ok none, s)
    | ch ∷ rest ↦
        if s.taken ch
        then (ok none, record s { waiting = rest })
        else (ok (some ch), record s { waiting = rest; taken = update ch true s.taken })
  ]

  unfoldable pub incoming_loop : ℕ → Act (Option Channel)
  unfolding poll_recv accept_next
  incoming_loop zero = pure none
  incoming_loop (suc fuel) = do
    poll_recv
    found ← accept_next
    elim found [ some ch ↦ pure (some ch) | none ↦ incoming_loop fuel ]

  unfoldable pub poll_incoming : Act Channel
  unfolding incoming_loop
  poll_incoming s = elim s.waiting [
    | ch ∷ rest ↦ (ok ch, record s { waiting = rest })
    | [] ↦ (incoming_loop (suc (length s.net.inbox)) >>= ended) s
  ]

  unfoldable pub take_packet : Channel → Act (Option (DtpPacket b))
  unfolding update
  take_packet ch s = elim (s.queues ch) [
    | [] ↦ (ok none, s)
    | p ∷ rest ↦ (ok (some p), record s { queues = update ch rest s.queues })
  ]

  unfoldable pub channel_loop : Channel → ℕ → Act (Option (DtpPacket b))
  unfolding poll_recv take_packet
  channel_loop ch zero = pure none
  channel_loop ch (suc fuel) = do
    poll_recv
    found ← take_packet ch
    elim found [ some p ↦ pure (some p) | none ↦ channel_loop ch fuel ]

  unfoldable pub poll_channel : Channel → Act (DtpPacket b)
  unfolding take_packet channel_loop
  poll_channel ch = do
    found ← take_packet ch
    elim found [
      | some p ↦ pure p
      | none ↦ λ s. (channel_loop ch (suc (length s.net.inbox)) >>= ended) s
    ]

  unfoldable pub outgoing : Addr → ℕ → Act Channel
  unfolding update
  outgoing peer_addr channel_id s =
      let ch : Channel = record { peer_addr = peer_addr; channel_id = channel_id } in
      if s.taken ch
      then (err (other "channel already taken"), s)
      else (ok ch, record s { taken = update ch true s.taken })

  -- The channel is free again, and what was queued for it is gone.
  unfoldable pub close : Channel → Act (Unit {0})
  unfolding update
  close ch s = (ok tt, record s { queues = update ch [] s.queues; taken = update ch false s.taken })

  unfoldable pub poll_send : Channel → DtpPacket b → Act (Unit {0})
  poll_send ch p = do
    q ← lift (set_channel b p ch.channel_id)
    on_net (Udp.poll_send (socket_addr ch.peer_addr) q.ecn (b.slice_of q.bytes))
