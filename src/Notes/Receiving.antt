-- ===== src/Notes/Receiving.antt =====
-- Runs of `recv_packet` of notes/dtp.rs: which packets are put into the reassembly queue.
use Prim.Native.Nat.{max}
use efcp.Prelude.{
  ℕ, ◌≤◌, ◌<◌, ◌≡◌, refl, sym, ap, ◌∙◌, Bool, false, List, [], ◌∷◌, ◌++◌, arith, length, replicate,
  ltb, Bool-cases, inl, inr, if◌then◌else◌, lt→leb, le→leb, ltb→lt, ltb→le, append_assoc,
  append-nil, map, All,
}
use efcp.Outcome.{Outcome, ok}
use efcp.Bytes.{BytesMut, BigEndian}
use efcp.Notes.Packet.{Packet, parse, drf, sequence_number}
use efcp.Notes.Packet
use efcp.Notes.Flow.{Dtp, RecvError, recv_packet, receivable, accept}

-- The entries that pass a test.
abbrev pub filter : {A : Type 0} → (A → Bool) → List A → List A
filter test [] = []
filter test (x ∷ xs) = if test x then x ∷ filter test xs else filter test xs

-- The largest of `m` and the numbers.
abbrev pub peak : {A : Type 0} → ℕ → List (A × ℕ) → ℕ
peak m [] = m
peak m ((x, n) ∷ rest) = peak (max m n) rest

-- The entries whose number is larger than `m` and every number before them.
abbrev pub leaders : {A : Type 0} → ℕ → List (A × ℕ) → List A
leaders m [] = []
leaders m ((x, n) ∷ rest) = if ltb m n then x ∷ leaders (max m n) rest else leaders (max m n) rest

max-right : (m n : ℕ) → m < n → max m n ≡ n
max-right m n h = omega arith

max-left : (m n : ℕ) → n ≤ m → max m n ≡ m
max-left m n h = omega arith

module _ (b : BytesMut) (be : BigEndian) where
  -- Calls of `recv_packet`, with what they report.
  unfoldable pub recv_all : List b.Buf → Dtp b → List (Outcome RecvError (Unit {0})) × Dtp b
  recv_all [] s = ([], s)
  recv_all (bytes ∷ rest) s =
      let r = recv_packet b be bytes s in let later = recv_all rest r.1 in (r.0 ∷ later.0, later.1)

  -- A valid packet without the data run flag that carries the number.
  unfoldable pub IsData : b.Buf × ℕ → Type 0
  IsData (bytes, n) =
      (parse b bytes ≡ ok (Packet.new b bytes))
      × (drf b {E = RecvError} (Packet.new b bytes) ≡ ok false)
      × (sequence_number b be {E = RecvError} (Packet.new b bytes) ≡ ok n)

  abbrev bytes : b.Buf × ℕ → b.Buf
  bytes x = x.0

  module _ (s : Dtp b) where
    abbrev pub inside : List (b.Buf × ℕ) → List (b.Buf × ℕ)
    inside = filter (λ x. receivable b be x.1 s.dtcp)

    abbrev pub grown : ℕ → List (Packet b) → Dtp b
    grown m q = record s { max_sequence_number_received = m; reassembly_queue = q }

    recv_step :
        (buf : b.Buf) (n m : ℕ) (q : List (Packet b))
        → IsData (buf, n)
        → recv_packet b be buf (grown m q) ≡ accept b be n (Packet.new b buf) (grown m q)
    unfolding recv_packet IsData
    recv_step buf n m q (is, data_flag, number) = rw (is, data_flag, number) refl

    -- Calls for `pdus` that leave the number `m` and the queue `q`.
    abbrev pub accepted :
        List (b.Buf × ℕ) → ℕ → List (Packet b) → List (Outcome RecvError (Unit {0})) × Dtp b
    accepted pdus m q = (replicate (length pdus) (ok tt), grown m q)

    abbrev received : List (b.Buf × ℕ) → ℕ → List (Packet b)
    received pdus m = map (Packet.new b) (leaders m (inside pdus))

    abbrev behind_ok :
        List (Outcome RecvError (Unit {0})) × Dtp b → List (Outcome RecvError (Unit {0})) × Dtp b
    behind_ok r = (ok tt ∷ r.0, r.1)

    larger :
        (pdus : List (b.Buf × ℕ)) (p : Packet b) (q : List (Packet b)) (n k : ℕ)
        → n ≡ k
        → accepted pdus (peak n (inside pdus)) ((q ++ p ∷ []) ++ received pdus n)
          ≡ accepted pdus (peak k (inside pdus)) (q ++ p ∷ received pdus k)
    larger pdus p q n k e = λ i.
        accepted pdus (peak (e i) (inside pdus)) (append_assoc q (p ∷ []) (received pdus (e i)) i)

    not_larger :
        (pdus : List (b.Buf × ℕ)) (q : List (Packet b)) (m k : ℕ)
        → m ≡ k
        → accepted pdus (peak m (inside pdus)) (q ++ received pdus m)
          ≡ accepted pdus (peak k (inside pdus)) (q ++ received pdus k)
    not_larger pdus q m k e =
        λ i. accepted pdus (peak (e i) (inside pdus)) (q ++ received pdus (e i))

    runs :
        (pdus : List (b.Buf × ℕ)) (m : ℕ) (q : List (Packet b))
        → All IsData pdus
        → recv_all (map bytes pdus) (grown m q)
          ≡ accepted pdus (peak m (inside pdus)) (q ++ received pdus m)
    unfolding recv_all accept
    runs [] m q h = rw (append-nil q) refl
    runs ((buf, n) ∷ pdus) m q (h, hs) =
        let step = recv_step buf n m q h in
        elim (Bool-cases (receivable b be n s.dtcp)) [
          | inr outside ↦ rw (step, outside) (rw (runs pdus m q hs) refl)
          | inl within ↦ elim (Bool-cases (ltb m n)) [
            | inl more ↦
                rw (step, within, more, lt→leb n m (ltb→lt m n more))
                  (ap behind_ok (
                    runs pdus n (q ++ Packet.new b buf ∷ []) hs
                    ∙ larger pdus (Packet.new b buf) q n (max m n)
                        (sym (max-right m n (ltb→lt m n more)))))
            | inr less ↦
                rw (step, within, less, le→leb n m (ltb→le m n less))
                  (ap behind_ok (
                    runs pdus m q hs
                    ∙ not_larger pdus q m (max m n) (sym (max-left m n (ltb→le m n less)))))
          ]
        ]

  -- For a flow and a list of buffers that each hold a valid packet without the data run flag: every
  -- call of `recv_packet` returns. Of the packets whose number the receive window of the handler
  -- admits, if there is a handler, those with a number above the largest one received and above all
  -- the admitted numbers before them are appended to the reassembly queue, in the order of their
  -- arrival. The largest number received is then the largest of its old value and the admitted ones,
  -- and nothing else changes.
  pub recv_all-leaders :
      (s : Dtp b) (pdus : List (b.Buf × ℕ))
      → All IsData pdus
      → recv_all (map (λ x. x.0) pdus) s ≡ (
        replicate (length pdus) (ok tt),
        record s {
          max_sequence_number_received = peak s.max_sequence_number_received (inside s pdus);
          reassembly_queue =
              s.reassembly_queue
              ++ map (Packet.new b) (leaders s.max_sequence_number_received (inside s pdus));
        },
      )
  recv_all-leaders s pdus h = runs s pdus s.max_sequence_number_received s.reassembly_queue h
