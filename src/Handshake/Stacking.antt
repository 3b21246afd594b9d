-- ===== src/Handshake/Stacking.antt =====
-- How bytes pass through a `DtcpChannel` of efcp/src/lib.rs, over a layer of packets and a channel that
-- carries them.
use efcp.Prelude.{ℕ, ◌+◌, ◌^◌, ◌≤◌, ◌<◌, ◌≡◌, refl, sym, ◌∙◌, List, arith, length}
use efcp.Outcome.{ok}
use efcp.Bytes.{BigEndian}
use efcp.Channel.{BasePacket, IsPacket, parse}
use efcp.Channel
use efcp.Channel.Header.{payload_behind, payload_behind-inv}
use efcp.Channel.Payload.{payload-from_payload}
use efcp.Dtcp.Packet.{dtcp_packet}
use efcp.Dtcp.Packet.Layer.{dtcp_packet-IsPacket}
use efcp.Dtcp.Channel.{DtcpChannel, recv}
use efcp.Dtcp.Channel.Send.{sending, send_lem}
use efcp.Dtcp.Timer.{stop, restart}
use efcp.Dtcp.OverDtp.{same_bytes}
use efcp.Handshake.Layers.{send_bytes, recv_bytes}

module _ (clock : ℕ → ℕ) (be : BigEndian) {P : Type 0} (d : BasePacket P) {Allows : ℕ → Type 0}
    (layer : IsPacket d Allows) {S : Type 0} (below : Channel.Channel S P) where
  -- What `below` carries from a state to the state that `move` gives of what it left.
  abbrev pub Carries : (S → S) → (S → S → Type 0) → S → Type 0
  Carries move Next s =
      (q : P) (raw : List ℕ)
      → d.payload q ≡ ok raw
      → (r : P) × (s' s'' : S) × (below.send q s ≡ (ok tt, s'))
        × (below.recv (move s') ≡ (ok r, s''))
        × (d.payload r ≡ ok raw)
        × Next s' s''

  raw_bytes :
      (p : P) (bs : List ℕ)
      → (dtcp_packet be d).payload p ≡ ok bs
      → (payload_behind d 3 p ≡ ok bs)
        × ((raw : List ℕ) × (d.payload p ≡ ok raw) × (3 ≤ length raw))
  unfolding dtcp_packet
  raw_bytes p bs e =
      let (raw, is, long, _) = payload_behind-inv d layer 3 p bs e in (e, (raw, is, long))

  -- The receiver after a packet.
  abbrev received : ℕ → DtcpChannel S → S → DtcpChannel S
  received t b s = record b {
    channel = s;
    set_drf = (stop (clock t) b.rit).0;
    rit = restart (clock (t + 1)) (stop (clock t) b.rit).1;
  }

  recv_bytes_lem :
      (t : ℕ) (b : DtcpChannel S) (r : P) (s : S) (bs : List ℕ)
      → below.recv b.channel ≡ (ok r, s)
      → (dtcp_packet be d).check r ≡ ok tt
      → (dtcp_packet be d).payload r ≡ ok bs
      → recv_bytes clock be d below t b ≡ (ok bs, received t b s)
  unfolding recv_bytes recv parse
  recv_bytes_lem t b r s bs got good holds = rw (got, good, holds) refl

  behind_payload :
      (p : P) (bs : List ℕ) → payload_behind d 3 p ≡ ok bs → (dtcp_packet be d).payload p ≡ ok bs
  unfolding dtcp_packet
  behind_payload p bs e = e

  pub bytes_pass :
      (move : S → S) (Next : S → S → Type 0) (bs : List ℕ) (t t' : ℕ) (a b : DtcpChannel S)
      → Carries move Next a.channel
      → Allows (length bs + 3)
      → a.seq_num < 2 ^ 16
      → (a' b' : DtcpChannel S) × (send_bytes clock be d below t bs a ≡ (ok tt, a'))
        × (recv_bytes clock be d below t' (record b { channel = move a'.channel }) ≡ (ok bs, b'))
        × Next a'.channel b'.channel
        × (a'.seq_num < 2 ^ 16)
        × (b'.seq_num ≡ b.seq_num)
  unfolding send_bytes
  bytes_pass move Next bs t t' a b carries allowed small =
      let (p, made, holds) =
        payload-from_payload (dtcp_packet be d) (λ n. Allows (n + 3)) bs
          (dtcp_packet-IsPacket be d Allows layer) allowed in
      let (behind, header) = raw_bytes p bs holds in
      let (q, says, ran) = send_lem be d below layer (clock t) (clock (t + 1)) p a header small in
      let (raw, is_raw, long, rest) =
        payload_behind-inv d layer 3 q bs (says.same_payload ∙ behind) in
      let (r, s', s'', sent, got, same, next) = carries q raw is_raw in
      let (_, _, same_payload, same_check) = same_bytes be d r q (same ∙ sym is_raw) in
      let mid = sending be d below layer (clock t) a in
      (
        record mid { channel = s'; sit = restart (clock (t + 1)) mid.sit },
        received t' b s'',
        rw made (ran ∙ (rw sent refl)),
        recv_bytes_lem t' (record b { channel = move s' }) r s'' bs got (same_check ∙ says.accepted)
            (behind_payload r bs (same_payload ∙ says.same_payload ∙ behind)),
        next,
        omega arith,
        refl,
      )
