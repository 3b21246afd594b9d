-- ===== src/Dtcp/Packet/Fields.antt =====
-- The fields of a `DtcpPacket` behind their setters.
use Prim.Native.Nat.{bit_and}
use efcp.Prelude.{
  ℕ, ◌≤◌, ◌<◌, ◌^◌, ◌≡◌, refl, sym, ap, ◌∙◌, true, false, List, [], ◌∷◌, arith, length, drop, ◌/◌,
  ◌==◌, Bool-cases, inl, inr, ltb,
}
use efcp.Outcome.{ok, err, other}
use efcp.Bytes.{BigEndian}
use efcp.Channel.{BasePacket, IsPacket, parse}
use efcp.Channel.Header.{payload_behind}
use efcp.Dtcp.Packet.Defs.{
  DtcpType, transfer, control, ty, set_ty, seq_num, set_seq_num, dtcp_packet,
}

-- A packet whose payload, as the lower layer has it, holds a header.
abbrev pub HasHeader : {P : Type 0} → BasePacket P → P → Type 0
HasHeader d p = (bs : List ℕ) × (d.payload p ≡ ok bs) × (3 ≤ length bs)

module _ {P : Type 0} (be : BigEndian) (d : BasePacket P) {Allows : ℕ → Type 0}
    (lower : IsPacket d Allows) where
  -- The raw bytes of a packet that has a header.
  abbrev Raw : P → ℕ → ℕ → ℕ → List ℕ → Type 0
  Raw p x y z bs = d.payload p ≡ ok (x ∷ y ∷ z ∷ bs)

  ty-set_ty-Raw :
      (p : P) (x y z : ℕ) (bs : List ℕ) (t : DtcpType)
      → Raw p x y z bs
      → (q : P) × (set_ty be d p t ≡ ok q)
        × (ty be d q ≡ ok t)
        × (seq_num be d q ≡ seq_num be d p)
        × (payload_behind d 3 q ≡ payload_behind d 3 p)
        × ((dtcp_packet be d).check q ≡ ok tt)
        × HasHeader d q
  unfolding set_ty ty seq_num dtcp_packet
  ty-set_ty-Raw p x y z bs (transfer false) e =
      let (q, put, bytes, room) = lower.store_replaces p _ (0 ∷ y ∷ z ∷ bs) e refl in
      (
        q,
        rw e (ground (arith, put)),
        rw bytes refl,
        rw (bytes, e) (ground arith),
        rw (bytes, e) (ground arith),
        rw bytes (ground arith),
        (_, bytes, omega arith),
      )
  ty-set_ty-Raw p x y z bs (transfer true) e =
      let (q, put, bytes, room) = lower.store_replaces p _ (1 ∷ y ∷ z ∷ bs) e refl in
      (
        q,
        rw e (ground (arith, put)),
        rw bytes refl,
        rw (bytes, e) (ground arith),
        rw (bytes, e) (ground arith),
        rw bytes (ground arith),
        (_, bytes, omega arith),
      )
  ty-set_ty-Raw p x y z bs control e =
      let (q, put, bytes, room) = lower.store_replaces p _ (16 ∷ y ∷ z ∷ bs) e refl in
      (
        q,
        rw e (ground (arith, put)),
        rw bytes refl,
        rw (bytes, e) (ground arith),
        rw (bytes, e) (ground arith),
        rw bytes (ground arith),
        (_, bytes, omega arith),
      )

  set_seq_num-Raw :
      (p : P) (x y z a b n : ℕ) (bs : List ℕ)
      → Raw p x y z bs
      → be.write_u16 n ≡ a ∷ b ∷ []
      → n < 2 ^ 16
      → (q : P) × (set_seq_num be d p n ≡ ok q)
        × (seq_num be d q ≡ ok n)
        × (ty be d q ≡ ty be d p)
        × (payload_behind d 3 q ≡ payload_behind d 3 p)
        × ((dtcp_packet be d).check q ≡ (dtcp_packet be d).check p)
        × HasHeader d q
  unfolding set_seq_num ty seq_num dtcp_packet
  set_seq_num-Raw p x y z a b n bs e w h =
      let (q, put, bytes, room) = lower.store_replaces p _ (x ∷ a ∷ b ∷ bs) e refl in
      let back : be.read_u16 (a ∷ b ∷ []) ≡ n = rw w at (be.read-write_u16 n h) in
      (
        q,
        rw (e, w) (ground (arith, put)),
        rw bytes (ground (arith, back)),
        rw (bytes, e) refl,
        rw (bytes, e) (ground arith),
        rw (bytes, e) (ground arith),
        (_, bytes, omega arith),
      )

pair_of : (w : List ℕ) → length w ≡ 2 → (a : ℕ) × (b : ℕ) × (w ≡ a ∷ b ∷ [])
pair_of (a ∷ b ∷ []) h = (a, b, refl)
pair_of [] h = absurd (omega arith)
pair_of (a ∷ []) h = absurd (omega arith)
pair_of (a ∷ b ∷ c ∷ w) h = absurd (omega arith)

header_of :
    (bs : List ℕ)
    → 3 ≤ length bs
    → (x : ℕ) × (y : ℕ) × (z : ℕ) × (rest : List ℕ) × (bs ≡ x ∷ y ∷ z ∷ rest)
header_of (x ∷ y ∷ z ∷ rest) h = (x, y, z, rest, refl)
header_of [] h = absurd (omega arith)
header_of (x ∷ []) h = absurd (omega arith)
header_of (x ∷ y ∷ []) h = absurd (omega arith)

module _ {P : Type 0} (be : BigEndian) (d : BasePacket P) {Allows : ℕ → Type 0}
    (lower : IsPacket d Allows) where
  -- Over a layer that keeps the promises of packets, `set_ty` on a packet with room for the
  -- header returns a packet whose type is the one set, with the sequence number and the payload
  -- that it had, and that `check` accepts.
  pub ty-set_ty :
      (p : P) (t : DtcpType)
      → HasHeader d p
      → (q : P) × (set_ty be d p t ≡ ok q)
        × (ty be d q ≡ ok t)
        × (seq_num be d q ≡ seq_num be d p)
        × (payload_behind d 3 q ≡ payload_behind d 3 p)
        × ((dtcp_packet be d).check q ≡ ok tt)
        × HasHeader d q
  ty-set_ty p t (bs, e, h) =
      let (x, y, z, rest, cut) = header_of bs h in
      ty-set_ty-Raw be d lower p x y z rest t (e ∙ ap ok cut)

  -- Over a layer that keeps the promises of packets, `set_seq_num` with a 16-bit number on a
  -- packet with room for the header returns a packet with that number, and with the type, the
  -- payload and the verdict of `check` that it had.
  pub seq_num-set_seq_num :
      (p : P) (n : ℕ)
      → HasHeader d p
      → n < 2 ^ 16
      → (q : P) × (set_seq_num be d p n ≡ ok q)
        × (seq_num be d q ≡ ok n)
        × (ty be d q ≡ ty be d p)
        × (payload_behind d 3 q ≡ payload_behind d 3 p)
        × ((dtcp_packet be d).check q ≡ (dtcp_packet be d).check p)
        × HasHeader d q
  seq_num-set_seq_num p n (bs, e, h) small =
      let (x, y, z, rest, cut) = header_of bs h in
      let (a, b, w) = pair_of (be.write_u16 n) (be.length-write_u16 n) in
      set_seq_num-Raw be d lower p x y z a b n rest (e ∙ ap ok cut) w small

module _ {P : Type 0} (be : BigEndian) (d : BasePacket P) where
  parse-inv :
      (p q : P) (x y z : ℕ) (bs : List ℕ)
      → d.payload p ≡ ok (x ∷ y ∷ z ∷ bs)
      → parse (dtcp_packet be d) p ≡ ok q
      → (q ≡ p) × (x / 2 ^ 4 < 2)
  unfolding parse dtcp_packet
  parse-inv p q x y z bs e h = ground arith

  parse-long :
      (p q : P) (bs : List ℕ)
      → d.payload p ≡ ok bs
      → parse (dtcp_packet be d) p ≡ ok q
      → 3 ≤ length bs
  unfolding parse dtcp_packet
  parse-long p q bs e h = ground arith

  ty-total :
      (p : P) (x : ℕ) (bs : List ℕ)
      → d.payload p ≡ ok (x ∷ bs)
      → x / 2 ^ 4 < 2
      → (t : DtcpType) × (ty be d p ≡ ok t)
  unfolding ty
  ty-total p x bs e h = elim (Bool-cases (x / 2 ^ 4 == 0)) [
    | inl z ↦ (transfer (ltb 0 (bit_and x 1)), rw (e, z))
    | inr z ↦ (control, let one : (x / 2 ^ 4 == 1) ≡ true = ground arith in rw (e, z, one))
  ]

  parse-Readable_raw :
      (p q : P) (x y z : ℕ) (bs : List ℕ)
      → d.payload p ≡ ok (x ∷ y ∷ z ∷ bs)
      → parse (dtcp_packet be d) p ≡ ok q
      → (q ≡ p)
        × ((t : DtcpType) × (ty be d p ≡ ok t))
        × ((n : ℕ) × (seq_num be d p ≡ ok n))
        × (payload_behind d 3 p ≡ ok bs)
  unfolding seq_num
  parse-Readable_raw p q x y z bs e h =
      let (same, small) = parse-inv p q x y z bs e h in
      (
        same,
        ty-total p x (y ∷ z ∷ bs) e small,
        (be.read_u16 (y ∷ z ∷ []), rw e (ground arith)),
        rw e (ground arith),
      )

  -- Where the lower packet's payload can be read and `parse` succeeds, `parse` has returned its
  -- argument, and that has a header: the type can be read (the `unreachable!()` of `ty` is not
  -- met), and so can the sequence number and the payload, which is what follows the three header
  -- bytes.
  pub parse-Readable :
      (p q : P) (bs : List ℕ)
      → d.payload p ≡ ok bs
      → parse (dtcp_packet be d) p ≡ ok q
      → (q ≡ p)
        × ((t : DtcpType) × (ty be d p ≡ ok t))
        × ((n : ℕ) × (seq_num be d p ≡ ok n))
        × (payload_behind d 3 p ≡ ok (drop 3 bs))
  parse-Readable p q bs e h =
      let (x, y, z, rest, cut) = header_of bs (parse-long p q bs e h) in
      let r = parse-Readable_raw p q x y z rest (e ∙ ap ok cut) h in
      (r.0, r.1, r.2, r.3 ∙ ap (λ l. ok (drop 3 l)) (sym cut))

  -- The two ways in which `parse` refuses: too few bytes for the header, or a type above 1.
  pub parse_refuses :
      (p : P) (x : ℕ) (bs : List ℕ)
      → (d.payload p ≡ ok bs
          → length bs < 3
          → parse (dtcp_packet be d) p ≡ err (other "invalid dtcp packet"))
        × (d.payload p ≡ ok (x ∷ bs)
            → 2 ≤ length bs
            → 32 ≤ x
            → parse (dtcp_packet be d) p ≡ err (other "invalid dtcp packet type"))
  unfolding parse dtcp_packet
  parse_refuses p x bs = (λ e h. rw e (ground arith), λ e h k. rw e (ground arith))
