-- ===== src/Dtcp/Packet/Layer.antt =====
-- Over any packet layer, `DtcpPacket` is a packet layer.
use efcp.Prelude.{ℕ, ◌+◌, [], ◌∷◌, arith}
use efcp.Bytes.{BigEndian}
use efcp.Channel.{BasePacket, IsPacket}
use efcp.Channel.Header.{new_behind, put_behind, store_behind_lem}
use efcp.Dtcp.Packet.Defs.{dtcp_packet}

-- A `DtcpPacket` over a layer that keeps the promises of packets keeps them too, with three bytes less
-- room for the payload.
pub dtcp_packet-IsPacket :
    {P : Type 0} (be : BigEndian) (d : BasePacket P) (Allows : ℕ → Type 0)
    → IsPacket d Allows
    → IsPacket (dtcp_packet be d) (λ n. Allows (n + 3))
unfolding dtcp_packet
dtcp_packet-IsPacket be d Allows lower = record {
  new_empty = λ n a.
      new_behind d lower 3 n (0 ∷ []) (be.write_u16 0) a (omega (arith, be.length-write_u16 0));
  put_appends = λ p bs xs e h. put_behind d lower 3 p bs xs e h;
  store_replaces = λ p bs cs e h. store_behind_lem d lower 3 p bs cs e h;
}
