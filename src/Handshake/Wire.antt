-- ===== src/Handshake/Wire.antt =====
-- One packet over the loopback channel, plain and sealed.
use efcp.Prelude.{
  ℕ, ◌+◌, ◌^◌, ◌<◌, ◌≡◌, refl, sym, ap, ◌∙◌, List, [], ◌∷◌, ◌++◌, arith, take, drop,
  take-append-drop, length-take, length-drop, drop-drop,
}
use efcp.Outcome.{ok}
use efcp.Bytes.{BigEndian}
use efcp.Channel.{BasePacket, IsPacket}
use efcp.Channel.Header.{payload_behind, payload_behind-inv}
use efcp.Channel.Loopback.{loopback}
use efcp.Secure.{Disco, DiscoChannel, disco_packet}
use efcp.Secure.Layer.{HasFields, disco_packet-IsPacket}
use efcp.Secure.Wire.{sent, send_on_wire, recv_on_wire}
use efcp.Handshake.Layers.{plain, disco_channel}
use efcp.Handshake.Stacking.{Carries}

-- A list in three parts.
split_three :
    (n m : ℕ) (xs zs : List ℕ) → drop (n + m) xs ≡ zs → xs ≡ take n xs ++ (take m (drop n xs) ++ zs)
split_three n m xs zs e =
    sym (take-append-drop n xs)
    ∙ ap (λ ys. take n xs ++ ys)
        (sym (take-append-drop m (drop n xs))
          ∙ ap (λ ys. take m (drop n xs) ++ ys) (drop-drop n m xs ∙ e))

module _ (disco : Disco) (clock : ℕ → ℕ) (be : BigEndian) {P : Type 0} (d : BasePacket P)
    {Allows : ℕ → Type 0} (layer : IsPacket d Allows) where
  pub loopback-Carries :
      (w : List P) → w ≡ [] → Carries clock be d layer loopback (λ s. s) (λ s' s''. s'' ≡ []) w
  unfolding loopback
  loopback-Carries w e q raw is = (q, w ++ q ∷ [], [], refl, rw e refl, is, refl)

  -- The fields of a packet whose payload can be read.
  fields_of :
      (q : P) (zs : List ℕ)
      → (disco_packet disco be d).payload q ≡ ok zs
      → (xs ys : List ℕ) × HasFields disco be d layer q xs ys zs
  unfolding disco_packet
  fields_of q zs is =
      let (raw, is_raw, long, rest) = payload_behind-inv d layer (8 + disco.tag_len) q zs is in
      (
        take 8 raw,
        take disco.tag_len (drop 8 raw),
        record {
          raw = is_raw ∙ ap ok (split_three 8 disco.tag_len raw zs rest);
          nonce_long = omega (arith, length-take 8 raw);
          tag_long = omega (arith, length-take disco.tag_len (drop 8 raw), length-drop 8 raw);
        },
      )

  behind_disco :
      (p : P) (bs : List ℕ)
      → payload_behind d (8 + disco.tag_len) p ≡ ok bs
      → (disco_packet disco be d).payload p ≡ ok bs
  unfolding disco_packet
  behind_disco p bs e = e

  abbrev pub DiscoEnd : Type 0
  DiscoEnd = DiscoChannel disco (List P)

  -- A sealed packet is read by a peer.
  pub disco-Carries :
      (u u' : Unit {0}) (a b : DiscoEnd)
      → a.channel ≡ []
      → a.nonce < 2 ^ 64
      → disco.Peers a.state b.state
      → Carries clock be
          (disco_packet disco be d)
          (disco_packet-IsPacket disco be d Allows layer)
          (disco_channel disco clock be d (λ (u : Unit {0}). loopback) u)
          (λ s. record b { channel = s.channel })
          (λ s' s''.
            (s''.channel ≡ [])
            × (s''.nonce ≡ b.nonce)
            × (s''.state ≡ b.state)
            × (s'.nonce < 2 ^ 64)
            × (s'.state ≡ a.state))
          a
  disco-Carries u u' a b e small peers q zs is =
      let (xs, ys, h) = fields_of q zs is in
      let (q', ran, h') = send_on_wire disco be d layer q xs ys zs a h in
      let at_b : DiscoEnd = record b { channel = a.channel ++ q' ∷ [] } in
      let (r, got, plain) =
        recv_on_wire disco be d layer q' a.nonce a.state zs [] at_b h' small peers
          (ap (λ w. w ++ q' ∷ []) e) in
      (
        r,
        sent disco be d layer q' a,
        record b { channel = [] },
        ran,
        got,
        behind_disco r zs plain,
        (refl, refl, refl, omega arith, refl),
      )
