-- ===== src/Tests/Sockets.antt =====
-- The packet and the socket of dtp at concrete inputs.
use efcp.Prelude.{suc, ◌≡◌, ◌≢◌, ◌≤◌, refl, true, [], ◌∷◌, ◌++◌, none, some, arith, length}
use efcp.Outcome.{ok, err, other}
use efcp.Addr.{Addr, SocketAddr, socket_addr, v4}
use efcp.Channel.{IsPacket}
use efcp.Dtp.Packet.{DtpPacket, dtp_packet, max_payload_len}
use efcp.Dtp.Packet.Layer.{dtp_packet-IsPacket}
use efcp.Dtp.Udp.{Kernel, Datagram, datagram, is_ce}
use efcp.Dtp.Socket.{
  Channel, InnerDtpSocket, bind, channel_loop, incoming_loop, poll_channel, poll_incoming, outgoing,
  close, receive, poll_send,
}
use efcp.Dtp.Socket.Mux
use efcp.Dtp.Socket.Mux.{Mux}
use efcp.Dtp.Socket.Streams.{given}
use efcp.Dtp.Socket.Refinement.{bind-Shows}
use efcp.Dtp.Socket.Promises.{
  accept, recv, drop, serve, promise, serve_all, serve_all-Refines, on_the_way,
  poll_channel-on_the_way, poll_incoming-on_the_way, loops_end,
}
use efcp.Dtp.Socket.Lifecycle.{at, outgoing-close, poll_incoming_twice}
use efcp.Dtp.Ecn.{ce}
use efcp.Dtp.Socket.Wire.{from, poll_channel-poll_send}
use efcp.Tests.Instances.{buffers}
use efcp.Tests.Crates.{crates}

dtp_packet-IsPacket_example : IsPacket (dtp_packet buffers) (λ n. n ≤ max_payload_len)
dtp_packet-IsPacket_example = dtp_packet-IsPacket buffers

abbrev ping : DtpPacket buffers
ping = record { ecn = true; bytes = (3 ∷ 7 ∷ 8 ∷ [], 0) }

abbrev peer : SocketAddr
peer = (v4 1, 53)

abbrev peer_addr : Addr
peer_addr = record { ip = v4 1; port = 53 }

abbrev home : Channel
home = at crates peer_addr 3

abbrev other_home : Channel
other_home = at crates peer_addr 4

-- Two packets for one channel, one for another, and a datagram that is no packet.
abbrev kernel : Kernel
kernel = record {
  inbox =
      datagram (record { addr = peer; ecn = none; bytes = 3 ∷ 7 ∷ [] })
      ∷ datagram (record { addr = peer; ecn = none; bytes = 4 ∷ 1 ∷ [] })
      ∷ datagram (record { addr = peer; ecn = none; bytes = 3 ∷ 8 ∷ [] })
      ∷ datagram (record { addr = peer; ecn = none; bytes = [] })
      ∷ [];
  answers = [];
  outbox = [];
  ttl = 64;
  local = (v4 2, 54);
}

abbrev fresh : InnerDtpSocket crates
fresh = bind crates kernel

abbrev start : Mux crates.buf
start = Mux.start crates.buf kernel

abbrev idle : Kernel
idle = record kernel { inbox = [] }

abbrev quiet : InnerDtpSocket crates
quiet = bind crates idle

serve_all-Refines_example :
    serve_all crates (serve crates) (recv other_home ∷ recv home ∷ drop home ∷ accept ∷ []) fresh
    ≡ serve_all crates
        (promise crates)
        (recv other_home ∷ recv home ∷ drop home ∷ accept ∷ [])
        start
serve_all-Refines_example =
    serve_all-Refines crates kernel (recv other_home ∷ recv home ∷ drop home ∷ accept ∷ [])

poll_channel-on_the_way_example :
    on_the_way crates home fresh
    ≡ given crates.buf home other_home (poll_channel crates other_home fresh).0
      ++ on_the_way crates home (poll_channel crates other_home fresh).1
poll_channel-on_the_way_example =
    poll_channel-on_the_way crates home other_home fresh start (bind-Shows crates kernel)

poll_incoming-on_the_way_example :
    on_the_way crates home (poll_incoming crates fresh).1 ≡ on_the_way crates home fresh
poll_incoming-on_the_way_example =
    poll_incoming-on_the_way crates home fresh start (bind-Shows crates kernel)

loops_end_example :
    ((channel_loop crates other_home 9 fresh).0 ≢ ok none)
    × ((channel_loop crates other_home 9 fresh).0
        ≡ (channel_loop crates other_home (suc (length fresh.socket.inbox)) fresh).0)
    × ((incoming_loop crates 9 fresh).0 ≢ ok none)
    × ((incoming_loop crates 9 fresh).0
        ≡ (incoming_loop crates (suc (length fresh.socket.inbox)) fresh).0)
unfolding bind
loops_end_example =
    loops_end crates other_home 9 fresh start (bind-Shows crates kernel) (omega arith)

outgoing-close_example :
    let closed = close crates home fresh in
    let opened = outgoing crates peer_addr 3 closed.1 in
    (closed.0 ≡ ok tt)
    × (opened.0 ≡ ok home)
    × ((outgoing crates peer_addr 3 opened.1).0 ≡ err (other "channel already taken"))
outgoing-close_example = outgoing-close crates peer_addr 3 fresh start (bind-Shows crates kernel)

poll_incoming_twice_example :
    let arrived = (receive crates home ping (receive crates home ping fresh).1).1 in
    let first = poll_incoming crates arrived in
    (first.0 ≡ ok home) × ((poll_incoming crates first.1).0 ≡ ok home)
unfolding bind
poll_incoming_twice_example =
    poll_incoming_twice crates home ping ping fresh start (bind-Shows crates kernel) refl refl

-- The sender's packet on the channel to `peer`, and a receiver that has the sender at `peer`.
poll_channel-poll_send_example :
    (d : Datagram) × (q : DtpPacket buffers) × (poll_send crates home ping quiet ≡ (
      ok tt,
      record quiet { socket = record quiet.socket { outbox = quiet.socket.outbox ++ d ∷ [] } },
    ))
    × (d.addr ≡ peer)
    × ((poll_channel crates (from crates.buf peer 3) (record quiet {
      socket = record quiet.socket {
        inbox = datagram (record d { addr = peer; ecn = some ce }) ∷ [];
      };
    })).0
        ≡ ok q)
    × ((dtp_packet buffers).payload q ≡ ok (7 ∷ 8 ∷ []))
    × (q.ecn ≡ is_ce (some ce))
unfolding bind dtp_packet socket_addr
poll_channel-poll_send_example =
    poll_channel-poll_send crates peer (some ce) home ping (7 ∷ 8 ∷ []) quiet quiet
      (Mux.start crates.buf idle) refl (omega arith) refl (bind-Shows crates idle) refl
