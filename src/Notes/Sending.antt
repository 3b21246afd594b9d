-- ===== src/Notes/Sending.antt =====
-- One call of `send_packet` of notes/dtp.rs: the packet that it makes, and where the packet goes.
use Prim.Native.Nat.{bit_and}
use efcp.Prelude.{
  ℕ, zero, suc, ◌+◌, ◌<◌, ◌^◌, ◌≡◌, refl, sym, Bool, true, false, List, [], ◌∷◌, ◌++◌, arith,
  length, length-append, replicate, some, ltb, Bool-cases, inl, inr, if◌then◌else◌, lt→ltb,
}
use efcp.Outcome.{Outcome, ok, err}
use efcp.Bytes.{BytesMut, BigEndian}
use efcp.Notes.Packet.{Packet, dtp, set_drf, set_sequence_number, sequence_number, drf_mask}
use efcp.Notes.Control.{Dtcp, take_drf, in_send_window}
use efcp.Notes.Flow.{
  Dtp, SendError, max_closed_window_queue, next_sequence_number, on_dtcp, register_or_queue,
  hand_to_dtcp, check_queue, send_packet,
}
use efcp.Notes.Fields.{
  set_drf_bytes, dtp_bytes, set_sequence_number_bytes, Says, written-Says, written-sequence_number,
}
use efcp.Notes.Flags.{marked}
use efcp.Notes.Registering.{FitsRate, registered, quieted, register_lem, in_send_window-open}

-- What a call reports when `len` packets wait for the window.
abbrev pub verdict : ℕ → ℕ → Outcome SendError (Unit {0})
verdict most len = if ltb most len then err max_closed_window_queue else ok tt

abbrev pub counting_up : ℕ → ℕ → List ℕ
counting_up k zero = []
counting_up k (suc n) = k ∷ counting_up (suc k) n

pub length-snoc {ℓ} : {A : Type ℓ} (q : List A) (p : A) → length (q ++ p ∷ []) ≡ suc (length q)
length-snoc q p = omega (arith, length-append q (p ∷ []))

plus_one : (n : ℕ) → n + 1 ≡ suc n
plus_one n = omega arith

module _ (b : BytesMut) (be : BigEndian) where
  -- The packet that a call makes.
  made :
      (xs : List ℕ) (n : ℕ) (v : Bool)
      → n < 2 ^ 64
      → (p q r : Packet b) × (dtp b {E = SendError} xs ≡ ok p)
        × (set_sequence_number b be {E = SendError} p n ≡ ok q)
        × (set_drf b {E = SendError} q v ≡ ok r)
        × (sequence_number b be {E = SendError} r ≡ ok n)
        × Says b be r v n xs
  made xs n v h =
      let (p, is_p, bytes_p) = dtp_bytes b xs in
      let (q, is_q, bytes_q) =
        set_sequence_number_bytes b be p 1 0 0 0 n (replicate 8 0) xs bytes_p refl in
      let (r, is_r, bytes_r) = set_drf_bytes b q 1 0 0 (0 ∷ (be.write_u64 n ++ xs)) v bytes_q in
      (
        p,
        q,
        r,
        is_p,
        is_q,
        is_r,
        written-sequence_number b be r 1 0 (marked v 0) 0 n xs bytes_r h,
        written-Says b be r (marked v 0) n v xs bytes_r (flag v) h,
      )
    where
      flag : (v : Bool) → ltb 0 (bit_and (marked v 0) drf_mask) ≡ v
      flag true = refl
      flag false = refl

  module _ (s : Dtp b) where
    abbrev pub flow : Dtcp b → List (Packet b) → ℕ → Dtp b
    flow d q n = record s { dtcp = some d; closed_window_queue = q; sequence_number = n }

    abbrev pub most : ℕ
    most = s.max_closed_window_queue_len

    check_queue_lem :
        (d : Dtcp b) (q : List (Packet b)) (n : ℕ)
        → check_queue b be (flow d q n) ≡ (verdict most (length q), flow d q n)
    unfolding check_queue
    check_queue_lem d q n = elim (Bool-cases (ltb most (length q))) [
      | inl more ↦ rw more refl
      | inr less ↦ rw less refl
    ]

    pub registers :
        (now : ℕ) (xs : List ℕ) (d : Dtcp b) (q : List (Packet b)) (n : ℕ)
        → suc n < 2 ^ 64
        → FitsRate d.rate
        → in_send_window n (quieted d) ≡ true
        → (p : Packet b) × Says b be p d.set_drf_flag n xs
          × (send_packet b be now xs (flow d q n)
              ≡ (verdict most (length q), flow (registered now p d) q (suc n)))
    unfolding send_packet next_sequence_number hand_to_dtcp take_drf register_or_queue on_dtcp
    registers now xs d q n room f isopen =
        let (p, numbered, r, is_p, is_q, is_r, reads, says) =
          made xs n d.set_drf_flag (omega arith) in
        let step =
          register_lem {E = SendError} now r false d.immediate d.rtt d.retx d.window d.rate
            (in_send_window-open n (quieted d) isopen) f in
        (
          r,
          says,
          rw
              (
                is_p,
                is_q,
                lt→ltb (n + 1) (2 ^ 64) (omega arith),
                plus_one n,
                is_r,
                reads,
                isopen,
                step,
              )
              (check_queue_lem (registered now r d) q (suc n)),
        )

    pub waits :
        (now : ℕ) (xs : List ℕ) (d : Dtcp b) (q : List (Packet b)) (n : ℕ)
        → suc n < 2 ^ 64
        → in_send_window n (quieted d) ≡ false
        → (p : Packet b) × Says b be p d.set_drf_flag n xs
          × (send_packet b be now xs (flow d q n)
              ≡ (verdict most (suc (length q)), flow (quieted d) (q ++ p ∷ []) (suc n)))
    unfolding send_packet next_sequence_number hand_to_dtcp take_drf register_or_queue
    waits now xs d q n room shut =
        let (p, numbered, r, is_p, is_q, is_r, reads, says) =
          made xs n d.set_drf_flag (omega arith) in
        (
          r,
          says,
          rw
              (
                is_p,
                is_q,
                lt→ltb (n + 1) (2 ^ 64) (omega arith),
                plus_one n,
                is_r,
                reads,
                shut,
                sym (length-snoc q r),
              )
              (check_queue_lem (quieted d) (q ++ r ∷ []) (suc n)),
        )
