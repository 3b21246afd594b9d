-- ===== src/Secure/Wire.antt =====
-- `DiscoChannel` over the loopback channel, which stands for the wire.
use efcp.Prelude.{
  ℕ, ◌+◌, ◌%◌, ◌≤◌, ◌<◌, ◌^◌, ◌≡◌, refl, sym, ap, List, [], ◌∷◌, ◌++◌, length, take, lt→leb, le→leb,
}
use efcp.Outcome.{ok, panic}
use efcp.Bytes.{BigEndian}
use efcp.Channel.{BasePacket, IsPacket, parse}
use efcp.Channel.Header.{payload_behind}
use efcp.Channel.Loopback.{loopback}
use efcp.Secure.Session.{Disco}
use efcp.Secure.Packet.{disco_packet, nonce, tag}
use efcp.Secure.Defs.{DiscoChannel, send, recv}
use efcp.Secure.Layer.{
  HasFields, nonce_of, tag_of, payload_of, set_nonce_lem, set_tag_lem, store_payload, parses,
}

module _ (disco : Disco) {P : Type 0} (be : BigEndian) (d : BasePacket P) {Allows : ℕ → Type 0}
    (lower : IsPacket d Allows) where
  abbrev pub Wire : Type 0
  Wire = DiscoChannel disco (List P)

  abbrev pub sent : P → Wire → Wire
  sent q ch = record ch { channel = ch.channel ++ q ∷ []; nonce = (ch.nonce + 1) % 2 ^ 64 }

  -- `send` puts one packet on the wire: the nonce, the tag, and the encrypted payload.
  pub send_on_wire :
      (p : P) (xs ys zs : List ℕ) (ch : Wire)
      → HasFields disco be d lower p xs ys zs
      → (q : P) × (send disco be d loopback p ch ≡ (ok tt, sent q ch))
        × HasFields disco be d lower q
            (be.write_u64 ch.nonce)
            (disco.write_message ch.state ch.nonce zs).1
            (disco.write_message ch.state ch.nonce zs).0
  unfolding send loopback
  send_on_wire p xs ys zs ch h =
      let n = ch.nonce in
      let (p1, made1, h1) = set_nonce_lem disco be d lower p xs ys zs h n in
      let hidden = (disco.write_message ch.state n zs).0 in
      let (p2, made2, h2) =
        store_payload disco be d lower p1 (be.write_u64 n) ys zs h1 hidden
          (disco.length-write_message ch.state n zs) in
      let (p3, made3, h3) =
        set_tag_lem disco be d lower p2 (be.write_u64 n) ys hidden h2
          (disco.write_message ch.state n zs).1 (disco.length-tag ch.state n zs) in
      (
        p3,
        rw (made1, payload_of disco be d lower p1 (be.write_u64 n) ys zs h1, made2, made3) refl,
        h3,
      )

  pub recv_on_wire :
      (q : P) (n : ℕ) (s : disco.State) (zs : List ℕ) (rest : List P) (ch : Wire)
      → HasFields disco be d lower q
          (be.write_u64 n)
          (disco.write_message s n zs).1
          (disco.write_message s n zs).0
      → n < 2 ^ 64
      → disco.Peers s ch.state
      → ch.channel ≡ q ∷ rest
      → (r : P) × (recv disco be d loopback ch ≡ (ok r, record ch { channel = rest }))
        × (payload_behind d (8 + disco.tag_len) r ≡ ok zs)
  unfolding recv loopback
  recv_on_wire q n s zs rest ch h small peers e =
      let t = (disco.write_message s n zs).1 in
      let hidden = (disco.write_message s n zs).0 in
      let (r, made, h') =
        store_payload disco be d lower q (be.write_u64 n) t hidden h zs
          (sym (disco.length-write_message s n zs)) in
      (
        r,
        rw
            (
              e,
              parses disco be d lower q (be.write_u64 n) t hidden h,
              nonce_of disco be d lower q (be.write_u64 n) t hidden h,
              be.read-write_u64 n small,
              tag_of disco be d lower q (be.write_u64 n) t hidden h,
              payload_of disco be d lower q (be.write_u64 n) t hidden h,
              disco.read-write s ch.state n zs peers,
              made,
            )
            refl,
        payload_of disco be d lower r (be.write_u64 n) t zs h',
      )

  -- A packet that has a header is sent on an empty wire, by one of two ends of a session, with a
  -- nonce of 64 bits. The other end receives it: `recv` returns a packet with the payload that
  -- was given to `send`. The wire is empty again, and the sender's nonce has gone up by one,
  -- modulo 2 ^ 64.
  pub recv-send_encrypted :
      (p : P) (xs ys zs : List ℕ) (a b : Wire)
      → HasFields disco be d lower p xs ys zs
      → a.nonce < 2 ^ 64
      → disco.Peers a.state b.state
      → a.channel ≡ []
      → (r : P) × (a' b' : Wire) × (send disco be d loopback p a ≡ (ok tt, a'))
        × (recv disco be d loopback (record b { channel = a'.channel }) ≡ (ok r, b'))
        × (payload_behind d (8 + disco.tag_len) r ≡ ok zs)
        × (b'.channel ≡ [])
        × (a'.nonce ≡ (a.nonce + 1) % 2 ^ 64)
  recv-send_encrypted p xs ys zs a b h small peers empty =
      let (q, ran, fields) = send_on_wire p xs ys zs a h in
      let (r, got, plain) =
        recv_on_wire q a.nonce a.state zs [] (record b { channel = a.channel ++ q ∷ [] }) fields
          small peers (ap (λ w. w ++ q ∷ []) empty) in
      (r, sent q a, record b { channel = [] }, ran, got, plain, refl, refl)

module _ (disco : Disco) {P : Type 0} (be : BigEndian) (d : BasePacket P) (p : P) (bs : List ℕ)
    (raw : d.payload p ≡ ok bs) where
  parse_short : 8 ≤ length bs → parse (disco_packet disco be d) p ≡ ok p
  unfolding parse disco_packet
  parse_short h = rw (raw, le→leb 8 (length bs) h)

  nonce_short : 8 ≤ length bs → nonce disco be d p ≡ ok (be.read_u64 (take 8 bs))
  unfolding nonce
  nonce_short h = rw (raw, le→leb 8 (length bs) h)

  tag_short : length bs < 8 + disco.tag_len → tag disco d p ≡ panic
  unfolding tag
  tag_short k = rw (raw, lt→leb (8 + disco.tag_len) (length bs) k)

-- A packet at the front of the wire with 8 bytes or more, and fewer than the nonce and the tag
-- have together, passes `parse`, and then makes `recv` panic.
pub recv_panics :
    (disco : Disco) {P : Type 0} (be : BigEndian) (d : BasePacket P)
    (ch : DiscoChannel disco (List P)) (p : P) (rest : List P) (bs : List ℕ)
    → ch.channel ≡ p ∷ rest
    → d.payload p ≡ ok bs
    → 8 ≤ length bs
    → length bs < 8 + disco.tag_len
    → (parse (disco_packet disco be d) p ≡ ok p) × ((recv disco be d loopback ch).0 ≡ panic)
unfolding recv loopback
recv_panics disco be d ch p rest bs e raw h k = (
  parse_short disco be d p bs raw h,
  rw (
    e,
    parse_short disco be d p bs raw h,
    nonce_short disco be d p bs raw h,
    tag_short disco be d p bs raw k,
  ),
)
