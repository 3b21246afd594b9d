-- ===== src/Notes/Fields.antt =====
-- The fields of a packet of notes/packet.rs, read behind the stores that `send_packet` makes.
use Prim.Native.Nat.{bit_and}
use efcp.Prelude.{
  ℕ, suc, ◌+◌, ◌≤◌, ◌<◌, ◌^◌, ◌≡◌, refl, sym, subst, ap, ◌∙◌, Bool, List, ◌∷◌, ◌++◌, arith, length,
  length-append, take, drop, take-append, drop-append, ltb, lt→ltb, le→leb,
}
use efcp.Outcome.{ok}
use efcp.Bytes.{BytesMut, BigEndian}
use efcp.Notes.Packet.{
  Packet, transfer, PacketError, new, bytes_of, with_bytes, dtp, put_slice, set_type, version,
  raw_type, ty, payload, drf, ecn, fci, acki, sel_ack, ack, set_drf, drf_mask, default_header,
  header_len, sequence_number, set_sequence_number, parse,
}
use efcp.Notes.Flags.{marked, marked_lem}

module _ (b : BytesMut) where
  bytes_of-with_bytes :
      (p : Packet b) (bs cs : List ℕ)
      → bytes_of b p ≡ bs
      → length cs ≡ length bs
      → bytes_of b (with_bytes b p cs) ≡ cs
  bytes_of-with_bytes p bs cs e h = b.slice_of-write p.data_bytes cs (h ∙ sym (ap length e))

  module _ {E : Type 0} where
    pub set_drf_bytes :
        (p : Packet b) (a t x : ℕ) (rest : List ℕ) (v : Bool)
        → bytes_of b p ≡ a ∷ t ∷ x ∷ rest
        → (q : Packet b) × (set_drf b {E = E} p v ≡ ok q)
          × (bytes_of b q ≡ a ∷ t ∷ marked v x ∷ rest)
    unfolding set_drf
    set_drf_bytes p a t x rest v e = (
      with_bytes b p (a ∷ t ∷ marked v x ∷ rest),
      rw (e, lt→ltb 2 (suc (suc (suc (length rest)))) (omega arith)) refl,
      bytes_of-with_bytes p _ (a ∷ t ∷ marked v x ∷ rest) e refl,
    )

    put_ok :
        (buf : b.Buf) (xs : List ℕ)
        → length xs ≤ b.remaining_mut buf
        → (c : b.Buf) × (put_slice {E = E} (b.put buf xs) ≡ ok c)
          × (b.slice_of c ≡ b.slice_of buf ++ xs)
          × (b.remaining_mut c + length xs ≡ b.remaining_mut buf)
    unfolding put_slice
    put_ok buf xs h =
        let (c, put, bytes, room) = b.put_fits buf xs h in (c, rw put refl, bytes, room)

    pub dtp_bytes :
        (xs : List ℕ)
        → (p : Packet b) × (dtp b {E = E} xs ≡ ok p) × (bytes_of b p ≡ default_header ++ xs)
    unfolding dtp set_type
    dtp_bytes xs =
        let empty = b.with_capacity (header_len + length xs) in
        let room = b.remaining_mut-with_capacity (header_len + length xs) in
        let (c, put, bytes, left) = put_ok empty default_header (omega (arith, room)) in
        let (d, put', bytes', left') = put_ok c xs (omega (arith, room, left)) in
        let all : b.slice_of d ≡ default_header ++ xs =
          bytes'
          ∙ ap (λ ys. ys ++ xs)
              (bytes ∙ ap (λ ys. ys ++ default_header) (b.slice_of-with_capacity _)) in
        (
          with_bytes b (new b d) (default_header ++ xs),
          rw (put, put', all, lt→ltb 1 (length (default_header ++ xs)) (omega arith)) refl,
          bytes_of-with_bytes (new b d) (default_header ++ xs) (default_header ++ xs) all refl,
        )

-- The eight bytes of the sequence number.
take_field : (e xs : List ℕ) → length e ≡ 8 → take 8 (e ++ xs) ≡ e
take_field e xs h = subst (λ k. take k (e ++ xs) ≡ e) h (take-append e xs)

drop_field : (e xs : List ℕ) → length e ≡ 8 → drop 8 (e ++ xs) ≡ xs
drop_field e xs h = subst (λ k. drop k (e ++ xs) ≡ xs) h (drop-append e xs)

module _ (b : BytesMut) (be : BigEndian) {E : Type 0} where
  pub set_sequence_number_bytes :
      (p : Packet b) (w t f r n : ℕ) (e xs : List ℕ)
      → bytes_of b p ≡ w ∷ t ∷ f ∷ r ∷ (e ++ xs)
      → length e ≡ 8
      → (q : Packet b) × (set_sequence_number b be {E = E} p n ≡ ok q)
        × (bytes_of b q ≡ w ∷ t ∷ f ∷ r ∷ (be.write_u64 n ++ xs))
  unfolding set_sequence_number
  set_sequence_number_bytes p w t f r n e xs is h =
      let long : 12 ≤ length (w ∷ t ∷ f ∷ r ∷ (e ++ xs)) = omega (arith, length-append e xs) in
      (
        with_bytes b p (w ∷ t ∷ f ∷ r ∷ (be.write_u64 n ++ xs)),
        rw (is, le→leb 12 (length (w ∷ t ∷ f ∷ r ∷ (e ++ xs))) long, drop_field e xs h) refl,
        bytes_of-with_bytes b p _ (w ∷ t ∷ f ∷ r ∷ (be.write_u64 n ++ xs)) is (
            omega (
              arith,
              length-append e xs,
              length-append (be.write_u64 n) xs,
              be.length-write_u64 n,
            )),
      )

module _ (b : BytesMut) (be : BigEndian) {E : Type 0} where
  pub written-sequence_number :
      (p : Packet b) (w t f r n : ℕ) (xs : List ℕ)
      → bytes_of b p ≡ w ∷ t ∷ f ∷ r ∷ (be.write_u64 n ++ xs)
      → n < 2 ^ 64
      → sequence_number b be {E = E} p ≡ ok n
  unfolding sequence_number
  written-sequence_number p w t f r n xs is h =
      let e = be.write_u64 n in
      let long : 12 ≤ length (w ∷ t ∷ f ∷ r ∷ (e ++ xs)) =
        omega (arith, length-append e xs, be.length-write_u64 n) in
      rw
        (
          is,
          le→leb 12 (length (w ∷ t ∷ f ∷ r ∷ (e ++ xs))) long,
          take_field e xs (be.length-write_u64 n),
          be.read-write_u64 n h,
        )
        refl

module _ (b : BytesMut) (be : BigEndian) where
  -- What a packet says: the transfer type, the flag, the number and the payload.
  pub Says : Packet b → Bool → ℕ → List ℕ → Type 0
  Says p v n xs =
      (version b {E = PacketError} p ≡ ok 1)
      × (ty b {E = PacketError} p ≡ ok transfer)
      × (drf b {E = PacketError} p ≡ ok v)
      × (sequence_number b be {E = PacketError} p ≡ ok n)
      × (payload b {E = PacketError} p ≡ ok xs)
      × (parse b p.data_bytes ≡ ok p)

  pub written-Says :
      (p : Packet b) (f n : ℕ) (v : Bool) (xs : List ℕ)
      → bytes_of b p ≡ 1 ∷ 0 ∷ f ∷ 0 ∷ (be.write_u64 n ++ xs)
      → ltb 0 (bit_and f drf_mask) ≡ v
      → n < 2 ^ 64
      → Says p v n xs
  unfolding Says version ty raw_type drf payload parse
  written-Says p f n v xs is flag h =
      let e = be.write_u64 n in
      let long : 12 ≤ length (1 ∷ 0 ∷ f ∷ 0 ∷ (e ++ xs)) =
        omega (arith, length-append e xs, be.length-write_u64 n) in
      let fits = le→leb 12 (length (1 ∷ 0 ∷ f ∷ 0 ∷ (e ++ xs))) long in
      (
        rw is refl,
        rw is refl,
        rw is (ap ok flag),
        written-sequence_number b be p 1 0 f 0 n xs is h,
        rw (is, fits, drop_field e xs (be.length-write_u64 n)) refl,
        rw is refl,
      )

module _ (b : BytesMut) (be : BigEndian) {E : Type 0} where
  -- For a packet whose buffer holds three bytes of header, the third one a byte, and more: `set_drf`
  -- returns, and then `drf` is the flag that was set, while the version, the type, every other flag, the
  -- sequence number and the payload read as before, also where the buffer is too short for them.
  pub drf-set_drf :
      (p : Packet b) (w t f : ℕ) (rest : List ℕ) (v : Bool)
      → bytes_of b p ≡ w ∷ t ∷ f ∷ rest
      → f < 2 ^ 8
      → (q : Packet b) × (set_drf b {E = E} p v ≡ ok q)
        × (drf b {E = E} q ≡ ok v)
        × (version b {E = E} q ≡ version b p)
        × (ty b {E = E} q ≡ ty b p)
        × (ecn b {E = E} q ≡ ecn b p)
        × (fci b {E = E} q ≡ fci b p)
        × (acki b {E = E} q ≡ acki b p)
        × (sel_ack b {E = E} q ≡ sel_ack b p)
        × (ack b {E = E} q ≡ ack b p)
        × (sequence_number b be {E = E} q ≡ sequence_number b be p)
        × (payload b {E = E} q ≡ payload b p)
  unfolding version ty raw_type drf ecn fci acki sel_ack ack sequence_number payload
  drf-set_drf p w t f rest v is byte =
      let (q, set, bytes) = set_drf_bytes b {E = E} p w t f rest v is in
      let (m, k6, k3, k2, k1, k0) = marked_lem v f byte in
      (
        q,
        set,
        rw bytes (ap ok m),
        rw (bytes, is) refl,
        rw (bytes, is) refl,
        rw (bytes, is) (ap ok k6),
        rw (bytes, is) (ap ok k3),
        rw (bytes, is) (ap ok k2),
        rw (bytes, is) (ap ok k1),
        rw (bytes, is) (ap ok k0),
        rw (bytes, is) refl,
        rw (bytes, is) refl,
      )
