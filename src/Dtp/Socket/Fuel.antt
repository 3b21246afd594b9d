-- ===== src/Dtp/Socket/Fuel.antt =====
-- The loops of `poll_channel` and `poll_incoming` of dtp/src/dtp.rs: each round takes something off the
-- kernel's inbox, and with an empty inbox the round is pending.
use efcp.Prelude.{
  Bool-cases, List-cases, Option, ℕ, zero, suc, ◌<◌, ◌≡◌, ◌≢◌, inl, inr, refl, ap, [], ◌∷◌, none,
  some, arith, length,
}
use efcp.Outcome.{Outcome, ok, err, panic, pending, IoError, other, would_block, os}
use efcp.Outcome.Exec.{pure, continue, ◌>>=◌}
use efcp.Bytes.{BytesMut}
use efcp.Dtp.Packet.{DtpPacket}
use efcp.Dtp.Udp.{Received, datagram, failed, recv_ext, poll_of, mark, is_ce}
use efcp.Dtp.Udp
use efcp.Dtp.Socket.Key.{Channel}
use efcp.Dtp.Socket.Datagram.{read_packet}
use efcp.Dtp.Socket.Mux.{
  Mux, Act, poll_recv, receive, accept_next, incoming_loop, take_packet, channel_loop,
}
use efcp.Dtp.Socket.Streams.{take_packet-stream}

module _ (b : BytesMut) where
  abbrev left : Mux b → ℕ
  left m = length m.net.inbox

  parsed_left :
      (r : Outcome IoError (Channel × DtpPacket b)) (m : Mux b)
      → left (continue r (λ q. receive b q.0 q.1) m).1 ≡ left m
  unfolding receive
  parsed_left (ok (ch, p)) m = refl
  parsed_left (err e) m = refl
  parsed_left panic m = refl
  parsed_left pending m = refl

  poll_recv_progress :
      (m : Mux b) → (poll_recv b m).0 ≡ ok tt → suc (left (poll_recv b m).1) ≡ left m
  unfolding poll_recv Udp.poll_recv recv_ext poll_of mark
  poll_recv_progress m =
      elim m.net.inbox
        as (λ l.
          (poll_recv b (record m { net = record m.net { inbox = l } })).0 ≡ ok tt
          → suc (left (poll_recv b (record m { net = record m.net { inbox = l } })).1) ≡ length l) [
            | [] ↦ λ e. absurd (cc)
            | failed (other x) ∷ rest ↦ λ e. absurd (cc)
            | failed would_block ∷ rest ↦ λ e. absurd (cc)
            | failed (os n) ∷ rest ↦ λ e. absurd (cc)
            | datagram d ∷ rest ↦ λ e. ap suc (
                parsed_left (read_packet b d.addr d.bytes (is_ce d.ecn))
                  (record m { net = record m.net { inbox = rest } }))
          ]

  abbrev or_again : Channel → Act b (Option (DtpPacket b)) → Act b (Option (DtpPacket b))
  or_again ch f = take_packet b ch >>= λ found. elim found [ some p ↦ pure (some p) | none ↦ f ]

  found_same :
      (ch : Channel) (f g : Act b (Option (DtpPacket b))) (m : Mux b)
      → f m ≡ g m
      → or_again ch f m ≡ or_again ch g m
  found_same ch f g m h = elim (take_packet-stream b ch ch m) [
    | inl (p, got, _) ↦ rw got refl
    | inr nothing ↦ rw nothing h
  ]

  round_same :
      (ch : Channel) (r : Outcome IoError (Unit {0})) (f g : Act b (Option (DtpPacket b)))
      (m : Mux b)
      → (r ≡ ok tt → f m ≡ g m)
      → continue r (λ _. or_again ch f) m ≡ continue r (λ _. or_again ch g) m
  round_same ch (ok _) f g m h = found_same ch f g m (h refl)
  round_same ch (err e) f g m h = refl
  round_same ch panic f g m h = refl
  round_same ch pending f g m h = refl

  pub channel_loop_enough :
      (ch : Channel) (n k : ℕ) (m : Mux b)
      → left m < n
      → left m < k
      → channel_loop b ch n m ≡ channel_loop b ch k m
  unfolding channel_loop
  channel_loop_enough ch zero k m h h' = absurd (omega arith)
  channel_loop_enough ch (suc n) zero m h h' = absurd (omega arith)
  channel_loop_enough ch (suc n) (suc k) m h h' =
      round_same ch (poll_recv b m).0 (channel_loop b ch n) (channel_loop b ch k) (poll_recv b m).1
        λ e.
          let shorter = poll_recv_progress m e in
          channel_loop_enough ch n k (poll_recv b m).1 (omega arith) (omega arith)

  -- The loop does not go on for longer than that.
  found_ends :
      (ch : Channel) (f : Act b (Option (DtpPacket b))) (m : Mux b)
      → (f m).0 ≢ ok none
      → (or_again ch f m).0 ≢ ok none
  found_ends ch f m h = elim (take_packet-stream b ch ch m) [
    | inl (p, got, _) ↦ rw got (λ e. absurd (cc))
    | inr nothing ↦ rw nothing h
  ]

  round_ends :
      (ch : Channel) (r : Outcome IoError (Unit {0})) (f : Act b (Option (DtpPacket b))) (m : Mux b)
      → (r ≡ ok tt → (f m).0 ≢ ok none)
      → (continue r (λ _. or_again ch f) m).0 ≢ ok none
  round_ends ch (ok _) f m h = found_ends ch f m (h refl)
  round_ends ch (err x) f m h = λ e. absurd (cc)
  round_ends ch panic f m h = λ e. absurd (cc)
  round_ends ch pending f m h = λ e. absurd (cc)

  pub channel_loop_ends :
      (ch : Channel) (n : ℕ) (m : Mux b) → left m < n → (channel_loop b ch n m).0 ≢ ok none
  unfolding channel_loop
  channel_loop_ends ch zero m h = absurd (omega arith)
  channel_loop_ends ch (suc n) m h =
      round_ends ch (poll_recv b m).0 (channel_loop b ch n) (poll_recv b m).1 λ e.
        let shorter = poll_recv_progress m e in
        channel_loop_ends ch n (poll_recv b m).1 (omega arith)

  -- The same for `poll_incoming`.
  accept_left : (m : Mux b) → left (accept_next b m).1 ≡ left m
  unfolding accept_next
  accept_left m = elim (List-cases m.waiting) [
    | inl e ↦ rw (accept_next, e) refl
    | inr (ch, rest, e) ↦ elim (Bool-cases (m.taken ch)) [
      | inl t ↦ rw (accept_next, e, t) refl
      | inr t ↦ rw (accept_next, e, t) refl
    ]
  ]

  abbrev or_wait : Act b (Option Channel) → Option Channel → Act b (Option Channel)
  or_wait f found = elim found [ some ch ↦ pure (some ch) | none ↦ f ]

  accepted_same :
      (r : Outcome IoError (Option Channel)) (f g : Act b (Option Channel)) (m : Mux b)
      → f m ≡ g m
      → continue r (or_wait f) m ≡ continue r (or_wait g) m
  accepted_same (ok none) f g m h = h
  accepted_same (ok (some ch)) f g m h = refl
  accepted_same (err e) f g m h = refl
  accepted_same panic f g m h = refl
  accepted_same pending f g m h = refl

  waited_same :
      (r : Outcome IoError (Unit {0})) (f g : Act b (Option Channel)) (m : Mux b)
      → (r ≡ ok tt → f (accept_next b m).1 ≡ g (accept_next b m).1)
      → continue r (λ _. accept_next b >>= or_wait f) m
        ≡ continue r (λ _. accept_next b >>= or_wait g) m
  waited_same (ok _) f g m h = accepted_same (accept_next b m).0 f g (accept_next b m).1 (h refl)
  waited_same (err e) f g m h = refl
  waited_same panic f g m h = refl
  waited_same pending f g m h = refl

  pub incoming_loop_enough :
      (n k : ℕ) (m : Mux b) → left m < n → left m < k → incoming_loop b n m ≡ incoming_loop b k m
  unfolding incoming_loop
  incoming_loop_enough zero k m h h' = absurd (omega arith)
  incoming_loop_enough (suc n) zero m h h' = absurd (omega arith)
  incoming_loop_enough (suc n) (suc k) m h h' =
      waited_same (poll_recv b m).0 (incoming_loop b n) (incoming_loop b k) (poll_recv b m).1 λ e.
        let shorter = poll_recv_progress m e in
        let same = accept_left (poll_recv b m).1 in
        incoming_loop_enough n k (accept_next b (poll_recv b m).1).1 (omega arith) (omega arith)

  accepted_ends :
      (r : Outcome IoError (Option Channel)) (f : Act b (Option Channel)) (m : Mux b)
      → (f m).0 ≢ ok none
      → (continue r (or_wait f) m).0 ≢ ok none
  accepted_ends (ok none) f m h = h
  accepted_ends (ok (some ch)) f m h = λ e. absurd (cc)
  accepted_ends (err x) f m h = λ e. absurd (cc)
  accepted_ends panic f m h = λ e. absurd (cc)
  accepted_ends pending f m h = λ e. absurd (cc)

  waited_ends :
      (r : Outcome IoError (Unit {0})) (f : Act b (Option Channel)) (m : Mux b)
      → (r ≡ ok tt → (f (accept_next b m).1).0 ≢ ok none)
      → (continue r (λ _. accept_next b >>= or_wait f) m).0 ≢ ok none
  waited_ends (ok _) f m h = accepted_ends (accept_next b m).0 f (accept_next b m).1 (h refl)
  waited_ends (err x) f m h = λ e. absurd (cc)
  waited_ends panic f m h = λ e. absurd (cc)
  waited_ends pending f m h = λ e. absurd (cc)

  pub incoming_loop_ends : (n : ℕ) (m : Mux b) → left m < n → (incoming_loop b n m).0 ≢ ok none
  unfolding incoming_loop
  incoming_loop_ends zero m h = absurd (omega arith)
  incoming_loop_ends (suc n) m h =
      waited_ends (poll_recv b m).0 (incoming_loop b n) (poll_recv b m).1 λ e.
        let shorter = poll_recv_progress m e in
        let same = accept_left (poll_recv b m).1 in
        incoming_loop_ends n (accept_next b (poll_recv b m).1).1 (omega arith)
