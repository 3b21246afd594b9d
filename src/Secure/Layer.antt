-- ===== src/Secure/Layer.antt =====
-- `DiscoPacket` is a packet layer, and what the fields of a packet with a header are.
use efcp.Prelude.{
  ℕ, ◌+◌, ◌≡◌, List, ◌++◌, arith, length, length-append, replicate, length-replicate, le→leb,
}
use efcp.Outcome.{ok}
use efcp.Bytes.{BigEndian}
use efcp.Channel.{BasePacket, IsPacket, parse}
use efcp.Channel.Header.{payload_behind, store_behind, new_behind, put_behind, store_behind_lem}
use efcp.Secure.Session.{Disco}
use efcp.Secure.Packet.{disco_packet, nonce, set_nonce, tag, set_tag}
use efcp.Secure.Raw.{slice_first, slice_second, slice_rest, store_first, store_second, store_rest}

-- A `DiscoPacket` over a layer that keeps the promises of packets keeps them too, with room for the
-- nonce and the tag taken from the payload.
pub disco_packet-IsPacket :
    (disco : Disco) {P : Type 0} (be : BigEndian) (d : BasePacket P) (Allows : ℕ → Type 0)
    → IsPacket d Allows
    → IsPacket (disco_packet disco be d) (λ n. Allows (n + (8 + disco.tag_len)))
unfolding disco_packet
disco_packet-IsPacket disco be d Allows lower = record {
  new_empty = λ n a.
      new_behind d lower (8 + disco.tag_len) n (be.write_u64 0) (replicate disco.tag_len 0) a
        (omega (arith, be.length-write_u64 0, length-replicate {A = ℕ} disco.tag_len 0));
  put_appends = λ p bs xs e h. put_behind d lower (8 + disco.tag_len) p bs xs e h;
  store_replaces = λ p bs cs e h. store_behind_lem d lower (8 + disco.tag_len) p bs cs e h;
}

module _ (disco : Disco) {P : Type 0} (be : BigEndian) (d : BasePacket P) {Allows : ℕ → Type 0}
    (lower : IsPacket d Allows) where
  -- A packet with the nonce `n` (in `xs`), the tag `ys` and the payload `zs`.
  pub record HasFields (p : P) (xs ys zs : List ℕ) : Type 0 where
    pub raw : d.payload p ≡ ok (xs ++ (ys ++ zs))
    pub nonce_long : length xs ≡ 8
    pub tag_long : length ys ≡ disco.tag_len

  module _ (p : P) (xs ys zs : List ℕ) (h : HasFields p xs ys zs) where
    pub nonce_of : nonce disco be d p ≡ ok (be.read_u64 xs)
    unfolding nonce
    nonce_of = rw (h.raw, slice_first 8 disco.tag_len xs ys zs h.nonce_long h.tag_long)

    pub tag_of : tag disco d p ≡ ok ys
    unfolding tag
    tag_of = rw (h.raw, slice_second 8 disco.tag_len xs ys zs h.nonce_long h.tag_long)

    pub payload_of : payload_behind d (8 + disco.tag_len) p ≡ ok zs
    payload_of = rw (h.raw, slice_rest 8 disco.tag_len xs ys zs h.nonce_long h.tag_long)

    pub set_nonce_lem :
        (n : ℕ) → (q : P) × (set_nonce disco be d p n ≡ ok q) × HasFields q (be.write_u64 n) ys zs
    unfolding set_nonce
    set_nonce_lem n =
        let (q, put, bytes, _) = lower.store_replaces p _ (be.write_u64 n ++ (ys ++ zs)) h.raw (
          omega (
            arith,
            length-append xs (ys ++ zs),
            length-append (be.write_u64 n) (ys ++ zs),
            be.length-write_u64 n,
            h.nonce_long,
          )) in
        (
          q,
          rw (h.raw, store_first 8 disco.tag_len xs ys zs h.nonce_long h.tag_long (be.write_u64 n))
              put,
          record { raw = bytes; nonce_long = be.length-write_u64 n; tag_long = h.tag_long },
        )

    pub set_tag_lem :
        (t : List ℕ)
        → length t ≡ disco.tag_len
        → (q : P) × (set_tag disco d p t ≡ ok q) × HasFields q xs t zs
    unfolding set_tag
    set_tag_lem t e =
        let (q, put, bytes, _) = lower.store_replaces p _ (xs ++ (t ++ zs)) h.raw (
          omega (
            arith,
            length-append xs (ys ++ zs),
            length-append xs (t ++ zs),
            length-append ys zs,
            length-append t zs,
            h.tag_long,
          )) in
        (
          q,
          rw (h.raw, store_second 8 disco.tag_len xs ys zs h.nonce_long h.tag_long t) put,
          record { raw = bytes; nonce_long = h.nonce_long; tag_long = e },
        )

    pub store_payload :
        (cs : List ℕ)
        → length cs ≡ length zs
        → (q : P) × (store_behind d (8 + disco.tag_len) p cs ≡ ok q) × HasFields q xs ys cs
    store_payload cs e =
        let (q, put, bytes, _) = lower.store_replaces p _ (xs ++ (ys ++ cs)) h.raw (
          omega (
            arith,
            length-append xs (ys ++ zs),
            length-append xs (ys ++ cs),
            length-append ys zs,
            length-append ys cs,
          )) in
        (
          q,
          rw (h.raw, store_rest 8 disco.tag_len xs ys zs h.nonce_long h.tag_long cs) put,
          record { raw = bytes; nonce_long = h.nonce_long; tag_long = h.tag_long },
        )

    pub parses : parse (disco_packet disco be d) p ≡ ok p
    unfolding parse disco_packet
    parses = rw (
      h.raw,
      le→leb 8 (length (xs ++ (ys ++ zs)))
          (omega (arith, length-append xs (ys ++ zs), h.nonce_long)),
    )
