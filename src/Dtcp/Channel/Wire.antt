-- ===== src/Dtcp/Channel/Wire.antt =====
-- What goes over the wire between two `DtcpChannel`s: the data run flags, and what `recv` gives back.
use efcp.Prelude.{
  ℕ, ◌-◌, ◌^◌, ◌<◌, ◌≡◌, refl, ap, ◌∙◌, true, false, ◌||◌, List, [], ◌∷◌, ◌++◌, append_assoc, arith,
  ltb,
}
use efcp.Outcome.{ok}
use efcp.Bytes.{BigEndian}
use efcp.Channel.{BasePacket, IsPacket, parse}
use efcp.Channel.Loopback.{loopback}
use efcp.Dtcp.Packet.{transfer, ty, dtcp_packet}
use efcp.Dtcp.Packet.Fields.{HasHeader}
use efcp.Dtcp.Timer.{Timer, restart, stop}
use efcp.Dtcp.Channel.Defs.{DtcpChannel, send, recv}
use efcp.Dtcp.Channel.Send.{Says}
use efcp.Dtcp.Channel.Runs.{sent, send_on_wire, send_all}

interval-stop : (now : ℕ) (t : Timer) → (stop now t).1.interval ≡ t.interval
unfolding stop
interval-stop now t = ground arith

stopped : (now : ℕ) (t : Timer) → t.enable ≡ false → (stop now t).0 ≡ false
unfolding stop
stopped now t e = rw e

module _ {P : Type 0} (be : BigEndian) (d : BasePacket P) {Allows : ℕ → Type 0}
    (packets : IsPacket d Allows) where
  -- Two packets with room for the header are sent in a row, from a sequence number of 16 bits.
  -- The second has the data run flag exactly if more time than the interval of the sender's timer
  -- has passed since the first was sent; the first has it if it was due or the timer had expired.
  pub drf_twice :
      (t0 t1 t2 t3 : ℕ) (p p' : P) (ch : DtcpChannel (List P))
      → HasHeader d p
      → HasHeader d p'
      → ch.seq_num < 2 ^ 16
      → (q q' : P) × (after : DtcpChannel (List P)) × (send_all be d packets
            ((t0, t1, p) ∷ (t2, t3, p') ∷ [])
            ch
          ≡ (ok tt, after))
        × (after.channel ≡ ch.channel ++ q ∷ q' ∷ [])
        × (ty be d q ≡ ok (transfer (ch.set_drf || (stop t0 ch.sit).0)))
        × (ty be d q' ≡ ok (transfer (ltb ch.sit.interval (t2 - t1))))
  unfolding send_all stop restart
  drf_twice t0 t1 t2 t3 p p' ch h h' small =
      let (q, says, ran) = send_on_wire be d packets t0 t1 p ch h small in
      let (q', says', ran') =
        send_on_wire be d packets t2 t3 p' (sent be d packets t0 t1 q ch) h' (omega arith) in
      (
        q,
        q',
        sent be d packets t2 t3 q' (sent be d packets t0 t1 q ch),
        rw (ran, ran'),
        append_assoc ch.channel (q ∷ []) (q' ∷ []),
        says.type_says,
        says'.type_says ∙ ap (λ i. ok (transfer (ltb i (t2 - t1)))) (interval-stop t0 ch.sit),
      )

  -- `recv` on a loopback channel with a packet at its front.
  pub recv_on_wire :
      (now later : ℕ) (p : P) (rest : List P) (ch : DtcpChannel (List P))
      → ch.channel ≡ p ∷ rest
      → (dtcp_packet be d).check p ≡ ok tt
      → recv be d loopback now later ch ≡ (
        ok p,
        record ch {
          channel = rest;
          set_drf = (stop now ch.rit).0;
          rit = restart later (stop now ch.rit).1;
        },
      )
  unfolding recv loopback parse
  recv_on_wire now later p rest ch e good = rw (e, good)

  -- A packet with room for the header that one side sends on an empty wire, its sequence number
  -- having 16 bits, is what the other side receives: `recv` returns a packet with the payload
  -- given, the sender's number and its data run flag, and the wire is empty again.
  pub recv-send :
      (now later now' later' : ℕ) (p : P) (a b : DtcpChannel (List P))
      → HasHeader d p
      → a.seq_num < 2 ^ 16
      → a.channel ≡ []
      → (q : P) × (a' b' : DtcpChannel (List P)) × (send be d loopback now later p a ≡ (ok tt, a'))
        × (recv be d loopback now' later' (record b { channel = a'.channel }) ≡ (ok q, b'))
        × Says be d p (a.set_drf || (stop now a.sit).0) a.seq_num q
        × (b'.channel ≡ [])
  recv-send now later now' later' p a b h small empty =
      let (q, says, ran) = send_on_wire be d packets now later p a h small in
      (
        q,
        sent be d packets now later q a,
        record b {
          channel = [];
          set_drf = (stop now' b.rit).0;
          rit = restart later' (stop now' b.rit).1;
        },
        ran,
        recv_on_wire now' later' q [] (record b { channel = a.channel ++ q ∷ [] })
            (ap (λ w. w ++ q ∷ []) empty) says.accepted,
        says,
        refl,
      )

  -- In a channel whose flag is due and whose timers are stopped, as the builder makes it, the
  -- first packet that is sent has the data run flag. If the channel first receives a valid
  -- packet, `recv` takes the flag away, and the first packet that is sent goes out without it.
  -- The packet sent has room for the header, and the sequence number has 16 bits.
  pub recv_clears_first_drf :
      (t0 t1 t2 t3 : ℕ) (p p0 : P) (rest : List P) (ch : DtcpChannel (List P))
      → HasHeader d p
      → ch.seq_num < 2 ^ 16
      → ch.set_drf ≡ true
      → ch.sit.enable ≡ false
      → ch.rit.enable ≡ false
      → ch.channel ≡ p0 ∷ rest
      → (dtcp_packet be d).check p0 ≡ ok tt
      → (q q' : P) × (send be d loopback t2 t3 p ch ≡ (ok tt, sent be d packets t2 t3 q ch))
        × (ty be d q ≡ ok (transfer true))
        × (send be d loopback t2 t3 p (recv be d loopback t0 t1 ch).1
            ≡ (ok tt, sent be d packets t2 t3 q' (recv be d loopback t0 t1 ch).1))
        × (ty be d q' ≡ ok (transfer false))
  recv_clears_first_drf t0 t1 t2 t3 p p0 rest ch h small due sit rit e good =
      let (q, says, ran) = send_on_wire be d packets t2 t3 p ch h small in
      let ch' : DtcpChannel (List P) = record ch {
        channel = rest;
        set_drf = (stop t0 ch.rit).0;
        rit = restart t1 (stop t0 ch.rit).1;
      } in
      let (q', says', ran') = send_on_wire be d packets t2 t3 p ch' h small in
      (
        q,
        q',
        ran,
        says.type_says ∙ ap (λ b. ok (transfer (b || (stop t2 ch.sit).0))) due,
        rw (recv_on_wire t0 t1 p0 rest ch e good) ran',
        says'.type_says ∙ (rw (stopped t0 ch.rit rit, stopped t2 ch.sit sit)),
      )
