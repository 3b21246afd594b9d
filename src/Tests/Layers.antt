-- ===== src/Tests/Layers.antt =====
-- Packets, the builder and the channel of dtcp at concrete inputs.
use efcp.Prelude.{
  ℕ, ◌≡◌, ◌%◌, ◌^◌, ◌↔◌, refl, true, false, List, [], ◌∷◌, ◌++◌, arith, ◌-◌, ◌*◌, ltb, ◌||◌, ◌/◌,
}
use efcp.Outcome.{ok, panic}
use efcp.Outcome.Exec.{continue}
use efcp.Channel.{BasePacket, IsPacket, parse}
use efcp.Channel.Header.{payload_behind}
use efcp.Channel.Buffer.{bytes_packet, bytes_packet-IsPacket}
use efcp.Channel.Loopback.{loopback}
use efcp.Dtcp.Packet.{DtcpType, transfer, ty, set_ty, seq_num, set_seq_num, dtcp_packet}
use efcp.Dtcp.Packet.Fields.{HasHeader, parse-Readable}
use efcp.Dtcp.Timer.{Timer, stop, restart}
use efcp.Dtcp.Builder.{
  DtcpBuilder, build_channel, build_channel_lem, set_max_retries, build_channel-set_max_retries,
  lifetime,
}
use efcp.Dtcp.Channel.{DtcpChannel, send, recv}
use efcp.Dtcp.Channel.Send.{Says, sending, send_lem}
use efcp.Dtcp.Channel.Runs.{send_all, send_all-Numbered, Numbered, seq_num-send_all, sent}
use efcp.Dtcp.Channel.Wire.{drf_twice, recv-send, recv_clears_first_drf}
use efcp.Tests.Instances.{Room, buffers, big_endian}

abbrev plain : BasePacket Room
plain = bytes_packet buffers

plain-IsPacket : IsPacket plain (λ n. Unit {0})
plain-IsPacket = bytes_packet-IsPacket buffers

abbrev ping : Room
ping = (0 ∷ 0 ∷ 0 ∷ 7 ∷ [], 0)

ping-HasHeader : HasHeader plain ping
unfolding bytes_packet
ping-HasHeader = (0 ∷ 0 ∷ 0 ∷ 7 ∷ [], refl, omega arith)

parse-Readable_example :
    (ping ≡ ping)
    × ((t : DtcpType) × (ty big_endian plain ping ≡ ok t))
    × ((n : ℕ) × (seq_num big_endian plain ping ≡ ok n))
    × (payload_behind plain 3 ping ≡ ok (7 ∷ []))
unfolding parse dtcp_packet bytes_packet
parse-Readable_example = parse-Readable big_endian plain ping ping (0 ∷ 0 ∷ 0 ∷ 7 ∷ []) refl refl

-- The peer's idle channel, and one whose flag is due.
abbrev idle : Timer
idle = record { enable = false; start = 0; interval = 50 }

abbrev quiet : DtcpChannel (List Room)
quiet = record { channel = []; set_drf = true; seq_num = 65535; sit = idle; rit = idle }

send_lem_example :
    (q : Room) × Says big_endian plain ping (true || (stop 5 idle).0) 65535 q
    × (send big_endian plain loopback 5 6 ping quiet
        ≡ continue
            (loopback.send q []).0
            (λ _ s. (ok tt, record s { sit = restart 6 s.sit }))
            (record (sending big_endian plain loopback plain-IsPacket 5 quiet) {
              channel = (loopback.send q []).1;
            }))
send_lem_example =
    send_lem big_endian plain loopback plain-IsPacket 5 6 ping quiet ping-HasHeader (omega arith)

send_all-Numbered_example :
    (qs : List Room) × (after : DtcpChannel (List Room)) × (send_all big_endian plain plain-IsPacket
        ((5, 6, ping) ∷ (7, 8, ping) ∷ [])
        quiet
      ≡ (ok tt, after))
    × (after.channel ≡ [] ++ qs)
    × Numbered big_endian plain plain-IsPacket 65535 ((5, 6, ping) ∷ (7, 8, ping) ∷ []) qs
send_all-Numbered_example =
    send_all-Numbered big_endian plain plain-IsPacket ((5, 6, ping) ∷ (7, 8, ping) ∷ []) quiet
      (ping-HasHeader, (ping-HasHeader, tt)) (omega arith)

drf_twice_example :
    (q q' : Room) × (after : DtcpChannel (List Room)) × (send_all big_endian plain plain-IsPacket
        ((5, 6, ping) ∷ (70, 71, ping) ∷ [])
        quiet
      ≡ (ok tt, after))
    × (after.channel ≡ [] ++ q ∷ q' ∷ [])
    × (ty big_endian plain q ≡ ok (transfer (true || (stop 5 idle).0)))
    × (ty big_endian plain q' ≡ ok (transfer (ltb 50 (70 - 6))))
drf_twice_example =
    drf_twice big_endian plain plain-IsPacket 5 6 70 71 ping ping quiet ping-HasHeader
      ping-HasHeader (omega arith)

recv-send_example :
    (q : Room) × (a' b' : DtcpChannel (List Room)) × (send big_endian plain loopback 5 6 ping quiet
      ≡ (ok tt, a'))
    × (recv big_endian plain loopback 7 8 (record quiet { channel = a'.channel }) ≡ (ok q, b'))
    × Says big_endian plain ping (true || (stop 5 idle).0) 65535 q
    × (b'.channel ≡ [])
recv-send_example =
    recv-send big_endian plain plain-IsPacket 5 6 7 8 ping quiet quiet ping-HasHeader (omega arith)
      refl

abbrev addressed : DtcpChannel (List Room)
addressed = record quiet { channel = ping ∷ [] }

recv_clears_first_drf_example :
    (q q' : Room) × (send big_endian plain loopback 7 8 ping addressed
      ≡ (ok tt, sent big_endian plain plain-IsPacket 7 8 q addressed))
    × (ty big_endian plain q ≡ ok (transfer true))
    × (send big_endian plain loopback 7 8 ping (recv big_endian plain loopback 5 6 addressed).1 ≡ (
      ok tt,
      sent big_endian plain plain-IsPacket 7 8 q' (recv big_endian plain loopback 5 6 addressed).1,
    ))
    × (ty big_endian plain q' ≡ ok (transfer false))
unfolding dtcp_packet bytes_packet
recv_clears_first_drf_example =
    recv_clears_first_drf big_endian plain plain-IsPacket 5 6 7 8 ping ping [] addressed
      ping-HasHeader (omega arith) refl refl refl refl refl

-- The packet that carries the given number and type 0.
abbrev numbered : ℕ → Room
numbered n = (0 ∷ n / 256 ∷ n % 256 ∷ 7 ∷ [], 0)

-- A channel behind its first packet.
abbrev going : DtcpChannel (List Room)
going = record quiet { set_drf = false; seq_num = 4 }

seq_num-send_all_example :
    (seq_num big_endian plain (numbered 4) ≡ seq_num big_endian plain (numbered 5))
    ↔ (1 % 2 ^ 16 ≡ 0)
unfolding send_all send loopback set_ty set_seq_num bytes_packet big_endian stop restart
seq_num-send_all_example =
    seq_num-send_all big_endian plain plain-IsPacket ((5, 6, ping) ∷ (7, 8, ping) ∷ []) going 0 1
      (numbered 4) (numbered 5) (ping-HasHeader, (ping-HasHeader, tt)) (omega arith) refl refl refl

abbrev builder : DtcpBuilder
builder = record { mpl = 10; ack = 2; max_retries = 3 }

build_channel_lem_example :
    build_channel builder ping 4 5
    ≡ ok (record {
      channel = ping;
      set_drf = true;
      seq_num = 0;
      sit = record { enable = false; start = 4; interval = 2 * lifetime builder };
      rit = record { enable = false; start = 5; interval = 3 * lifetime builder };
    })
build_channel_lem_example = build_channel_lem builder ping 4 5 (omega arith) (omega arith)

abbrev most : ℕ
most = 255

build_channel-set_max_retries_example :
    (build_channel (set_max_retries most builder) ping 4 5 ≡ panic) ↔ (most ≡ 255)
build_channel-set_max_retries_example =
    build_channel-set_max_retries builder ping 4 5 most (omega arith) (omega arith)
