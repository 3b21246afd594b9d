-- ===== src/Tests/Stack.antt =====
-- A dtcp channel over a dtp channel at a concrete packet.
use efcp.Prelude.{◌≡◌, refl, true, false, ◌||◌, [], ◌∷◌, ◌++◌, some, arith}
use efcp.Outcome.{ok}
use efcp.Addr.{SocketAddr, socket_addr, v4}
use efcp.Dtcp.Timer.{Timer, stop}
use efcp.Dtcp.Channel.{DtcpChannel, send, recv}
use efcp.Dtcp.Channel.Send.{Says}
use efcp.Dtcp.OverDtp.{recv-send_over_dtp}
use efcp.Dtp.Ecn.{ect0}
use efcp.Dtp.Packet.{DtpPacket, dtp_packet}
use efcp.Dtp.Udp.{Kernel, Datagram, datagram}
use efcp.Dtp.Socket.{Channel, InnerDtpSocket, bind}
use efcp.Dtp.Socket.Mux
use efcp.Dtp.Socket.Refinement.{bind-Shows}
use efcp.Dtp.Socket.Wire.{from}
use efcp.Dtp.Handle.{dtp_channel}
use efcp.Tests.Instances.{buffers, big_endian}
use efcp.Tests.Crates.{crates}

abbrev ping : DtpPacket buffers
ping = record { ecn = true; bytes = (0 ∷ 0 ∷ 0 ∷ 0 ∷ 7 ∷ [], 0) }

abbrev home : SocketAddr
home = (v4 2, 54)

abbrev key : Channel
key = record { peer_addr = record { ip = v4 1; port = 53 }; channel_id = 3 }

abbrev kernel : Kernel
kernel = record { inbox = []; answers = []; outbox = []; ttl = 64; local = (v4 2, 54) }

abbrev idle : Timer
idle = record { enable = false; start = 0; interval = 50 }

abbrev quiet : DtcpChannel (InnerDtpSocket crates)
quiet = record {
  channel = bind crates kernel;
  set_drf = true;
  seq_num = 65535;
  sit = idle;
  rit = idle;
}

recv-send_over_dtp_example :
    (dg : Datagram) × (q : DtpPacket buffers) × (a' : DtcpChannel (InnerDtpSocket crates)) × (send
        big_endian
        (dtp_packet buffers)
        (dtp_channel crates key)
        5
        6
        ping
        quiet
      ≡ (ok tt, a'))
    × (a'.channel.socket.outbox ≡ quiet.channel.socket.outbox ++ dg ∷ [])
    × (dg.addr ≡ socket_addr key.peer_addr)
    × ((recv big_endian
          (dtp_packet buffers)
          (dtp_channel crates (from buffers home 3))
          7
          8
          (record quiet {
            channel = record quiet.channel {
              socket = record quiet.channel.socket {
                inbox = datagram (record dg { addr = home; ecn = some ect0 }) ∷ [];
              };
            };
          })).0
        ≡ ok q)
    × Says big_endian (dtp_packet buffers) ping (true || (stop 5 idle).0) 65535 q
unfolding bind dtp_packet
recv-send_over_dtp_example =
    recv-send_over_dtp crates big_endian 5 6 7 8 home (some ect0) key ping (0 ∷ 0 ∷ 0 ∷ 7 ∷ [])
      quiet quiet (Mux.start crates.buf kernel) refl (omega arith) (omega arith) (omega arith) refl
      (bind-Shows crates kernel) refl
