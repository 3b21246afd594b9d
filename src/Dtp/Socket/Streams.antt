-- ===== src/Dtp/Socket/Streams.antt =====
-- The packets that are on their way to a channel, queued or still with the kernel, and what the loops of
-- the abstract state do to them.
use efcp.Prelude.{
  ℕ, zero, suc, ◌≡◌, inl, inr, ◌⊎◌, refl, sym, ◌∙◌, true, List, [], ◌∷◌, ◌++◌, append_assoc, Option,
  none, some, Bool-cases, List-cases, length, if◌then◌else◌,
}
use efcp.Outcome.{Outcome, ok, err, panic, pending, IoError, other, would_block, os}
use efcp.Outcome.Exec.{ended, pure, continue, ◌>>=◌}
use efcp.Bytes.{BytesMut}
use efcp.Dtp.Packet.{DtpPacket}
use efcp.Dtp.Udp.{Kernel, Received, Datagram, datagram, failed, recv_ext, poll_of, mark, is_ce}
use efcp.Dtp.Udp
use efcp.Dtp.Socket.Key.{Channel, chan_eq, chan_eq_refl}
use efcp.Dtp.Socket.Datagram.{read_packet}
use efcp.Dtp.Socket.Mux.{
  Mux, Act, poll_recv, receive, accept_next, incoming_loop, poll_incoming, take_packet,
  channel_loop, poll_channel,
}
use efcp.Dtp.Socket.Keys.{same_or_not, update_same, update_other}

module _ (b : BytesMut) where
  abbrev Parsed : Type 0
  Parsed = Outcome IoError (Channel × DtpPacket b)

  abbrev mine : Channel → Parsed → List (DtpPacket b) → List (DtpPacket b)
  unfolding chan_eq
  mine x (ok r) ps = if chan_eq x r.0 then r.1 ∷ ps else ps
  mine x (err e) ps = ps
  mine x panic ps = ps
  mine x pending ps = ps

  -- The packets for a channel among what the kernel has, in order: a datagram that is no packet, or an
  -- error, brings none.
  pub arrivals : Channel → List Received → List (DtpPacket b)
  unfolding mine
  arrivals x [] = []
  arrivals x (failed e ∷ rest) = arrivals x rest
  arrivals x (datagram d ∷ rest) =
      let later = arrivals x rest in mine x (read_packet b d.addr d.bytes (is_ce d.ecn)) later

  -- What is queued for a channel, and behind it what is to arrive.
  abbrev pub stream : Channel → Mux b → List (DtpPacket b)
  stream x m = m.queues x ++ arrivals x m.net.inbox

  receive-stream :
      (x ch : Channel) (p : DtpPacket b) (m : Mux b) (later : List (DtpPacket b))
      → (receive b ch p m).1.queues x ++ later ≡ m.queues x ++ mine x (ok (ch, p)) later
  unfolding receive mine chan_eq
  receive-stream x ch p m later = elim (same_or_not x ch) [
    | inl same ↦
        rw (update_same ch x (m.queues ch ++ p ∷ []) m.queues same, same, chan_eq_refl ch)
          (append_assoc (m.queues ch) (p ∷ []) later)
    | inr ne ↦ rw (update_other ch x (m.queues ch ++ p ∷ []) m.queues ne.1, ne.1)
  ]

  parsed-stream :
      (x : Channel) (r : Parsed) (m : Mux b)
      → stream x (continue r (λ q. receive b q.0 q.1) m).1
        ≡ m.queues x ++ mine x r (arrivals x m.net.inbox)
  unfolding receive mine
  parsed-stream x (ok (ch, p)) m = receive-stream x ch p m (arrivals x m.net.inbox)
  parsed-stream x (err e) m = refl
  parsed-stream x panic m = refl
  parsed-stream x pending m = refl

  -- `poll_recv` takes the next datagram from the kernel and adds it to its channel's queue: the packets
  -- on their way to a channel stay the same, also when it fails.
  poll_recv-stream : (x : Channel) (m : Mux b) → stream x (poll_recv b m).1 ≡ stream x m
  unfolding poll_recv Udp.poll_recv recv_ext poll_of mark arrivals mine
  poll_recv-stream x m =
      elim m.net.inbox
        as (λ l.
          stream x (poll_recv b (record m { net = record m.net { inbox = l } })).1
          ≡ stream x (record m { net = record m.net { inbox = l } })) [
            | [] ↦ refl
            | failed (other e) ∷ rest ↦ refl
            | failed would_block ∷ rest ↦ refl
            | failed (os n) ∷ rest ↦ refl
            | datagram d ∷ rest ↦
                parsed-stream x (read_packet b d.addr d.bytes (is_ce d.ecn))
                  (record m { net = record m.net { inbox = rest } })
          ]

  -- The packet that a call for `ch` has returned, as far as it was one for `x`.
  abbrev pub given : Channel → Channel → Outcome IoError (DtpPacket b) → List (DtpPacket b)
  unfolding chan_eq
  given x ch (ok p) = if chan_eq x ch then p ∷ [] else []
  given x ch (err e) = []
  given x ch panic = []
  given x ch pending = []

  pub take_packet-stream :
      (x ch : Channel) (m : Mux b)
      → ((p : DtpPacket b) × ((take_packet b ch m).0 ≡ ok (some p))
          × (stream x m ≡ given x ch (ok p) ++ stream x (take_packet b ch m).1))
        ⊎ (take_packet b ch m ≡ (ok none, m))
  unfolding take_packet given
  take_packet-stream x ch m = elim (List-cases (m.queues ch)) [
    | inl e ↦ inr (rw (take_packet, e) refl)
    | inr (p, rest, e) ↦ inl (
      p,
      rw (take_packet, e) refl,
      elim (same_or_not x ch) [
        | inl same ↦
            let here : m.queues x ≡ p ∷ rest = rw same e in
            let yes : chan_eq x ch ≡ true = rw same (chan_eq_refl ch) in
            rw (take_packet, e, update_same ch x rest m.queues same, yes, here) refl
        | inr ne ↦ rw (take_packet, e, update_other ch x rest m.queues ne.1, ne.1) refl
      ],
    )
  ]

  -- A call for `ch` takes what it returns off the front of that channel's packets, and changes no others.
  abbrev pub Keeps : Channel → Channel → Act b (DtpPacket b) → Mux b → Type 0
  Keeps x ch f m = stream x m ≡ given x ch (f m).0 ++ stream x (f m).1

  found-Keeps :
      (x ch : Channel) (f : Act b (DtpPacket b))
      → ((m : Mux b) → Keeps x ch f m)
      → (m : Mux b)
      → Keeps x ch (take_packet b ch >>= λ found. elim found [ some p ↦ pure p | none ↦ f ]) m
  found-Keeps x ch f h m = elim (take_packet-stream x ch m) [
    | inl (p, got, e) ↦ rw got e
    | inr nothing ↦ rw nothing (h m)
  ]

  -- The end of a round: the packet that was found, or another round.
  abbrev or_again : Channel → Act b (Option (DtpPacket b)) → Act b (Option (DtpPacket b))
  or_again ch f = take_packet b ch >>= λ found. elim found [ some p ↦ pure (some p) | none ↦ f ]

  again-Keeps :
      (x ch : Channel) (f : Act b (Option (DtpPacket b)))
      → ((m : Mux b) → Keeps x ch (f >>= ended) m)
      → (m : Mux b) → Keeps x ch (or_again ch f >>= ended) m
  again-Keeps x ch f h m = elim (take_packet-stream x ch m) [
    | inl (p, got, e) ↦ rw got e
    | inr nothing ↦ rw nothing (h m)
  ]

  round-Keeps :
      (x ch : Channel) (r : Outcome IoError (Unit {0})) (f : Act b (Option (DtpPacket b)))
      → ((m : Mux b) → Keeps x ch (f >>= ended) m)
      → (m : Mux b) → Keeps x ch (continue r (λ _. f) >>= ended) m
  unfolding given
  round-Keeps x ch (ok _) f h m = h m
  round-Keeps x ch (err e) f h m = refl
  round-Keeps x ch panic f h m = refl
  round-Keeps x ch pending f h m = refl

  channel_loop-Keeps :
      (x ch : Channel) (fuel : ℕ) (m : Mux b) → Keeps x ch (channel_loop b ch fuel >>= ended) m
  unfolding channel_loop given
  channel_loop-Keeps x ch zero m = refl
  channel_loop-Keeps x ch (suc fuel) m =
      sym (poll_recv-stream x m)
      ∙ round-Keeps x ch (poll_recv b m).0 _ (again-Keeps x ch _ (channel_loop-Keeps x ch fuel))
          (poll_recv b m).1

  pub poll_channel-Keeps : (x ch : Channel) (m : Mux b) → Keeps x ch (poll_channel b ch) m
  unfolding poll_channel
  poll_channel-Keeps x ch m =
      found-Keeps x ch _ (λ n. channel_loop-Keeps x ch (suc (length n.net.inbox)) n) m

  -- The same for the calls that return no packet.
  abbrev Still : {A : Type 0} → Channel → Act b A → Mux b → Type 0
  Still x f m = stream x (f m).1 ≡ stream x m

  accept_next-Still : (x : Channel) (m : Mux b) → Still x (accept_next b) m
  unfolding accept_next
  accept_next-Still x m = elim (List-cases m.waiting) [
    | inl e ↦ rw (accept_next, e) refl
    | inr (ch, rest, e) ↦ elim (Bool-cases (m.taken ch)) [
      | inl t ↦ rw (accept_next, e, t) refl
      | inr t ↦ rw (accept_next, e, t) refl
    ]
  ]

  bind-Still :
      {A B : Type 0} (x : Channel) (f : Act b A) (g : A → Act b B)
      → ((m : Mux b) → Still x f m)
      → ((a : A) (m : Mux b) → Still x (g a) m)
      → (m : Mux b) → Still x (f >>= g) m
  bind-Still x f g h k m = after (f m).0 (f m).1 (h m)
    where
      after :
          (r : Outcome IoError _) (n : Mux b)
          → stream x n ≡ stream x m
          → stream x (continue r g n).1 ≡ stream x m
      after (ok a) n e = k a n ∙ e
      after (err e) n e' = e'
      after panic n e = e
      after pending n e = e

  abbrev or_else : Act b (Option Channel) → Option Channel → Act b (Option Channel)
  or_else f found = elim found [ some ch ↦ pure (some ch) | none ↦ f ]

  found-Still :
      (x : Channel) (f : Act b (Option Channel))
      → ((m : Mux b) → Still x f m)
      → (o : Option Channel) (m : Mux b) → Still x (or_else f o) m
  found-Still x f h none m = h m
  found-Still x f h (some ch) m = refl

  incoming_loop-Still : (x : Channel) (fuel : ℕ) (m : Mux b) → Still x (incoming_loop b fuel) m
  unfolding incoming_loop
  incoming_loop-Still x zero m = refl
  incoming_loop-Still x (suc fuel) m =
      bind-Still x (poll_recv b) (λ _. accept_next b >>= or_else (incoming_loop b fuel))
        (poll_recv-stream x)
        (λ _.
          bind-Still x (accept_next b) (or_else (incoming_loop b fuel)) (accept_next-Still x)
            (found-Still x (incoming_loop b fuel) (incoming_loop-Still x fuel)))
        m

  ended-Still : (x : Channel) (o : Option Channel) (m : Mux b) → Still x (ended o) m
  ended-Still x none m = refl
  ended-Still x (some ch) m = refl

  pub poll_incoming-Still : (x : Channel) (m : Mux b) → Still x (poll_incoming b) m
  unfolding poll_incoming
  poll_incoming-Still x m = elim (List-cases m.waiting) [
    | inl e ↦
        let n : ℕ = suc (length m.net.inbox) in
        rw (poll_incoming, e)
          (bind-Still x (incoming_loop b n) ended (incoming_loop-Still x n) (ended-Still x) m)
    | inr (ch, rest, e) ↦ rw (poll_incoming, e) refl
  ]
