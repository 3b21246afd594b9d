-- ===== src/Dtcp/Channel/Runs.antt =====
-- Runs of `DtcpChannel` over the loopback channel, which stands for the wire: the numbers of the packets
-- that are sent.
use efcp.Prelude.{
  ℕ, zero, suc, ◌+◌, ◌%◌, ◌^◌, ◌<◌, ◌≡◌, ◌↔◌, refl, ap, sym, ◌∙◌, false, ◌||◌, List, [], ◌∷◌, ◌++◌,
  append-nil, append_assoc, some, arith, get_elem?,
}
use efcp.Outcome.{ok, IoError}
use efcp.Outcome.Exec.{Exec, pure, ◌>>◌}
use efcp.Bytes.{BigEndian}
use efcp.Channel.{BasePacket, IsPacket}
use efcp.Channel.Header.{payload_behind}
use efcp.Channel.Loopback.{loopback}
use efcp.Dtcp.Packet.{seq_num}
use efcp.Dtcp.Packet.Fields.{HasHeader}
use efcp.Dtcp.Timer.{restart, stop}
use efcp.Dtcp.Channel.Defs.{DtcpChannel, send}
use efcp.Dtcp.Channel.Send.{Says, send_lem}

module _ {P : Type 0} (be : BigEndian) (d : BasePacket P) {Allows : ℕ → Type 0}
    (packets : IsPacket d Allows) where
  abbrev pub Wire : Type 0
  Wire = DtcpChannel (List P)

  -- The channel after a packet `q` has gone out.
  abbrev pub sent : ℕ → ℕ → P → Wire → Wire
  sent now later q ch = record ch {
    channel = ch.channel ++ q ∷ [];
    set_drf = false;
    seq_num = (ch.seq_num + 1) % 2 ^ 16;
    sit = restart later (stop now ch.sit).1;
  }

  pub send_on_wire :
      (now later : ℕ) (p : P) (ch : Wire)
      → HasHeader d p
      → ch.seq_num < 2 ^ 16
      → (q : P) × Says be d p (ch.set_drf || (stop now ch.sit).0) ch.seq_num q
        × (send be d loopback now later p ch ≡ (ok tt, sent now later q ch))
  unfolding loopback
  send_on_wire now later p ch header small =
      send_lem be d loopback packets now later p ch header small

  -- One call of `send` for each entry: the two readings of the clock, and the packet.
  unfoldable pub send_all : List (ℕ × ℕ × P) → Exec Wire IoError (Unit {0})
  send_all [] = pure tt
  send_all ((now, later, p) ∷ calls) = do send be d loopback now later p; send_all calls

  abbrev pub AllHeaders : List (ℕ × ℕ × P) → Type 0
  AllHeaders [] = Unit
  AllHeaders ((now, later, p) ∷ calls) = HasHeader d p × AllHeaders calls

  -- The packets of the calls in order, with the numbers from `n` on.
  abbrev pub Numbered : ℕ → List (ℕ × ℕ × P) → List P → Type 0
  Numbered n [] [] = Unit
  Numbered n ((now, later, p) ∷ calls) (q ∷ qs) =
      (seq_num be d q ≡ ok (n % 2 ^ 16))
      × (payload_behind d 3 q ≡ payload_behind d 3 p)
      × Numbered (suc n) calls qs
  Numbered n [] (q ∷ qs) = ⊥
  Numbered n (c ∷ calls) [] = ⊥

  numbers :
      (calls : List (ℕ × ℕ × P)) (n : ℕ) (ch : Wire)
      → AllHeaders calls
      → ch.seq_num ≡ n % 2 ^ 16
      → (qs : List P) × (after : Wire) × (send_all calls ch ≡ (ok tt, after))
        × (after.channel ≡ ch.channel ++ qs)
        × Numbered n calls qs
  unfolding send_all
  numbers [] n ch h e = ([], ch, refl, sym (append-nil ch.channel), tt)
  numbers ((now, later, p) ∷ calls) n ch h e =
      let (q, says, ran) = send_on_wire now later p ch h.0 (omega arith) in
      let (qs, after, ran', wire, rest) =
        numbers calls (suc n) (sent now later q ch) h.1 (omega arith) in
      (
        q ∷ qs,
        after,
        rw ran ran',
        wire ∙ append_assoc ch.channel (q ∷ []) qs,
        (rw (← e) says.number_says, says.same_payload, rest),
      )

  -- Any number of calls of `send`, on packets with room for the header and from a sequence number
  -- of 16 bits, all succeed. What they put on the wire, behind what was there, is one packet for
  -- each call, in the order of the calls, with the payload given and with consecutive numbers
  -- from `ch.seq_num` on, modulo 2 ^ 16.
  pub send_all-Numbered :
      (calls : List (ℕ × ℕ × P)) (ch : Wire)
      → AllHeaders calls
      → ch.seq_num < 2 ^ 16
      → (qs : List P) × (after : Wire) × (send_all calls ch ≡ (ok tt, after))
        × (after.channel ≡ ch.channel ++ qs)
        × Numbered ch.seq_num calls qs
  send_all-Numbered calls ch h small = numbers calls ch.seq_num ch h (omega arith)

  Numbered-at :
      (n i : ℕ) (calls : List (ℕ × ℕ × P)) (qs : List P) (q : P)
      → Numbered n calls qs
      → get_elem? qs i ≡ some q
      → seq_num be d q ≡ ok ((n + i) % 2 ^ 16)
  Numbered-at n i [] [] q h e = cc
  Numbered-at n i [] (x ∷ qs) q h e = absurd h
  Numbered-at n i (c ∷ calls) [] q h e = absurd h
  Numbered-at n zero ((now, later, p) ∷ calls) (x ∷ qs) q h e =
      let k : (n + 0) % 2 ^ 16 ≡ n % 2 ^ 16 = omega arith in ground (arith, k)
  Numbered-at n (suc i) ((now, later, p) ∷ calls) (x ∷ qs) q h e =
      let k : (n + suc i) % 2 ^ 16 ≡ (suc n + i) % 2 ^ 16 = omega arith in
      rw k (Numbered-at (suc n) i calls qs q h.2 e)

  Numbered-reuse :
      (n i k : ℕ) (calls : List (ℕ × ℕ × P)) (qs : List P) (p q : P)
      → Numbered n calls qs
      → get_elem? qs i ≡ some p
      → get_elem? qs (i + k) ≡ some q
      → (seq_num be d p ≡ seq_num be d q) ↔ (k % 2 ^ 16 ≡ 0)
  Numbered-reuse n i k calls qs p q h ep eq =
      let a = Numbered-at n i calls qs p h ep in
      let b = Numbered-at n (i + k) calls qs q h eq in
      (
        λ same.
            let same' : (n + i) % 2 ^ 16 ≡ (n + (i + k)) % 2 ^ 16 = ground (arith, a, b, same) in
            omega arith,
        λ mult.
            let same' : (n + i) % 2 ^ 16 ≡ (n + (i + k)) % 2 ^ 16 = omega arith in
            a ∙ ap ok same' ∙ sym b,
      )

  -- On an empty wire, after any number of calls of `send` on packets with room for the header and
  -- from a sequence number of 16 bits: two packets that the calls have put on the wire carry the
  -- same sequence number exactly if the distance between them is a multiple of 2 ^ 16.
  pub seq_num-send_all :
      (calls : List (ℕ × ℕ × P)) (ch : Wire) (i k : ℕ) (p q : P)
      → AllHeaders calls
      → ch.seq_num < 2 ^ 16
      → ch.channel ≡ []
      → get_elem? (send_all calls ch).1.channel i ≡ some p
      → get_elem? (send_all calls ch).1.channel (i + k) ≡ some q
      → (seq_num be d p ≡ seq_num be d q) ↔ (k % 2 ^ 16 ≡ 0)
  seq_num-send_all calls ch i k p q h small empty ep eq =
      let (qs, after, ran, wire, numbered) = send_all-Numbered calls ch h small in
      let on_wire : (send_all calls ch).1.channel ≡ qs =
        ap (λ r. r.1.channel) ran ∙ wire ∙ ap (λ w. w ++ qs) empty in
      Numbered-reuse ch.seq_num i k calls qs p q numbered
        (sym (ap (λ w. get_elem? w i) on_wire) ∙ ep)
        (sym (ap (λ w. get_elem? w (i + k)) on_wire) ∙ eq)
