-- ===== src/Channel/Header.antt =====
-- A packet layer that puts a header of `h` bytes in front of its payload: the slicing that the layers of
-- dtcp/src/packet.rs and efcp/src/secure.rs share, and why such a layer is again a packet.
use efcp.Prelude.{
  ℕ, ◌+◌, ◌≤◌, ◌≡◌, refl, ap, ◌∙◌, List, [], ◌++◌, arith, length, length-append, length-take,
  length-drop, take, drop, drop-eq-nil, drop-append_le, drop-take_append, le→leb,
}
use efcp.Outcome.{Outcome, ok, err, panic, pending, IoError, ◌>>=◌}
use efcp.Bytes.{slice_from, store_from}
use efcp.Channel.Traits.{BasePacket, IsPacket}

module _ {P : Type 0} (d : BasePacket P) (h : ℕ) where
  -- `&self.0.payload()[h..]`
  abbrev pub payload_behind : P → Outcome IoError (List ℕ)
  payload_behind p = do bs ← d.payload p; slice_from h bs

  -- A store through `&mut self.0.payload_mut()[h..]`.
  abbrev pub store_behind : P → List ℕ → Outcome IoError P
  store_behind p cs = do bs ← d.payload p; bs' ← store_from h cs bs; d.payload_mut p bs'

  pub payload_behind_ok :
      (p : P) (bs : List ℕ)
      → d.payload p ≡ ok bs
      → h ≤ length bs
      → payload_behind p ≡ ok (drop h bs)
  payload_behind_ok p bs e n = rw (e, le→leb h (length bs) n)

-- `new` of such a layer: the lower packet with room for the header, then two `put`s of the header.
abbrev pub new_with : {P : Type 0} → BasePacket P → ℕ → List ℕ → List ℕ → ℕ → Outcome IoError P
new_with d h xs ys payload_len = do p ← d.new (payload_len + h); p' ← d.put p xs; d.put p' ys

module _ {P : Type 0} (d : BasePacket P) {Allows : ℕ → Type 0} (lower : IsPacket d Allows) where
  -- A new packet holds the header, and has room for the payload.
  pub new_with_header :
      (h n : ℕ) (xs ys : List ℕ)
      → Allows (n + h)
      → length xs + length ys ≡ h
      → (p : P) × (new_with d h xs ys n ≡ ok p)
        × (d.payload p ≡ ok (xs ++ ys))
        × (n ≤ d.remaining_mut p)
  new_with_header h n xs ys a e =
      let (p, made, empty, room) = lower.new_empty (n + h) a in
      let (q, put, bytes, left) = lower.put_appends p [] xs empty (omega arith) in
      let (r, put', bytes', left') = lower.put_appends q xs ys bytes (omega arith) in
      (r, rw (made, put) put', bytes', omega arith)

  module _ (h : ℕ) where
    raw_of :
        (r : Outcome IoError (List ℕ)) (bs : List ℕ)
        → (r >>= slice_from h) ≡ ok bs
        → (raw : List ℕ) × (r ≡ ok raw) × (h ≤ length raw) × (drop h raw ≡ bs)
    raw_of (ok raw) bs e = (raw, refl, ground arith, ground arith)
    raw_of (err x) bs e = cc
    raw_of panic bs e = cc
    raw_of pending bs e = cc

    -- The raw bytes of a packet whose payload can be read: the header is there.
    pub payload_behind-inv :
        (p : P) (bs : List ℕ)
        → payload_behind d h p ≡ ok bs
        → (raw : List ℕ) × (d.payload p ≡ ok raw) × (h ≤ length raw) × (drop h raw ≡ bs)
    payload_behind-inv p bs e = raw_of (d.payload p) bs e

    pub new_behind :
        (n : ℕ) (xs ys : List ℕ)
        → Allows (n + h)
        → length xs + length ys ≡ h
        → (p : P) × (new_with d h xs ys n ≡ ok p)
          × (payload_behind d h p ≡ ok [])
          × (n ≤ d.remaining_mut p)
    new_behind n xs ys a e =
        let (p, made, bytes, room) = new_with_header h n xs ys a e in
        (
          p,
          made,
          payload_behind_ok d h p (xs ++ ys) bytes (omega (arith, length-append xs ys))
              ∙ ap ok (drop-eq-nil h (xs ++ ys) (omega (arith, length-append xs ys))),
          room,
        )

    pub put_behind :
        (p : P) (bs xs : List ℕ)
        → payload_behind d h p ≡ ok bs
        → length xs ≤ d.remaining_mut p
        → (q : P) × (d.put p xs ≡ ok q)
          × (payload_behind d h q ≡ ok (bs ++ xs))
          × (d.remaining_mut q + length xs ≡ d.remaining_mut p)
    put_behind p bs xs e n =
        let (raw, is_raw, long, rest) = payload_behind-inv p bs e in
        let (q, put, bytes, room) = lower.put_appends p raw xs is_raw n in
        (
          q,
          put,
          payload_behind_ok d h q (raw ++ xs) bytes (omega (arith, length-append raw xs))
              ∙ ap ok (drop-append_le h raw xs long ∙ ap (λ t. t ++ xs) rest),
          room,
        )

    pub store_behind_lem :
        (p : P) (bs cs : List ℕ)
        → payload_behind d h p ≡ ok bs
        → length cs ≡ length bs
        → (q : P) × (store_behind d h p cs ≡ ok q)
          × (payload_behind d h q ≡ ok cs)
          × (d.remaining_mut q ≡ d.remaining_mut p)
    store_behind_lem p bs cs e n =
        let (raw, is_raw, long, rest) = payload_behind-inv p bs e in
        let same : length (take h raw ++ cs) ≡ length raw = omega (
          arith,
          length-append (take h raw) cs,
          length-take h raw,
          length-drop h raw,
          ap length rest,
        ) in
        let (q, put, bytes, room) = lower.store_replaces p raw (take h raw ++ cs) is_raw same in
        (
          q,
          rw (is_raw, le→leb h (length raw) long) put,
          payload_behind_ok d h q (take h raw ++ cs) bytes (omega arith)
              ∙ ap ok (drop-take_append h raw cs long),
          room,
        )
