-- ===== src/Dtp/Socket/Lifecycle.antt =====
-- Opening, accepting and closing channels in dtp/src/dtp.rs.
use efcp.Prelude.{ℕ, ◌≡◌, refl, sym, ◌∙◌, true, false, []}
use efcp.Outcome.{ok, err, other}
use efcp.Addr.{Addr}
use efcp.Dtp.Packet.{DtpPacket}
use efcp.Dtp.Socket.Key.{Channel}
use efcp.Dtp.Socket.Defs.{Crates, InnerDtpSocket, outgoing, close, receive, poll_incoming}
use efcp.Dtp.Socket.Mux.{Mux}
use efcp.Dtp.Socket.Mux
use efcp.Dtp.Socket.Simulation.{Shows}
use efcp.Dtp.Socket.Keys.{update_self}
use efcp.Dtp.Socket.Steps.{receive-Simulates}
use efcp.Dtp.Socket.Refinement.{poll_incoming-Simulates, outgoing-Simulates, close-Simulates}

module _ (c : Crates) where
  abbrev pub at : Addr → ℕ → Channel
  at peer id = record { peer_addr = peer; channel_id = id }

  module _ (peer : Addr) (id : ℕ) (m : Mux c.buf) (free : m.taken (at peer id) ≡ false) where
    Mux_opens : (Mux.outgoing c.buf peer id m).0 ≡ ok (at peer id)
    unfolding Mux.outgoing
    Mux_opens = rw (Mux.outgoing, free) refl

    Mux_refuses :
        (Mux.outgoing c.buf peer id (Mux.outgoing c.buf peer id m).1).0
        ≡ err (other "channel already taken")
    unfolding Mux.outgoing
    Mux_refuses =
        let now = update_self (at peer id) true m.taken in rw (Mux.outgoing, free) (rw now refl)

  -- From a state that shows an abstract state `close` succeeds. The channel can then be opened,
  -- and once it is open a second `outgoing` for it fails with `channel already taken`.
  pub outgoing-close :
      (peer : Addr) (id : ℕ) (s : InnerDtpSocket c) (m : Mux c.buf)
      → Shows c s m
      → let closed = close c (at peer id) s in
        let opened = outgoing c peer id closed.1 in
        (closed.0 ≡ ok tt)
        × (opened.0 ≡ ok (at peer id))
        × ((outgoing c peer id opened.1).0 ≡ err (other "channel already taken"))
  unfolding Mux.close Mux.outgoing
  outgoing-close peer id s m v =
      let ch = at peer id in
      let (done, v') = close-Simulates c ch s m v in
      let (opened, v'') = outgoing-Simulates c peer id _ _ v' in
      let (refused, _) = outgoing-Simulates c peer id _ _ v'' in
      (
        done,
        opened ∙ Mux_opens peer id (Mux.close c.buf ch m).1 (update_self ch false m.taken),
        refused ∙ Mux_refuses peer id (Mux.close c.buf ch m).1 (update_self ch false m.taken),
      )

  -- In a state that shows an abstract state, with nothing in the queue of `incoming`, two packets
  -- arrive for a channel that is not taken. `poll_incoming` then returns that channel twice.
  pub poll_incoming_twice :
      (ch : Channel) (p q : DtpPacket c.buf) (s : InnerDtpSocket c) (m : Mux c.buf)
      → Shows c s m
      → s.channels ch ≡ false
      → c.accepts.to_list s.incoming ≡ []
      → let arrived = (receive c ch q (receive c ch p s).1).1 in
        let first = poll_incoming c arrived in
        (first.0 ≡ ok ch) × ((poll_incoming c first.1).0 ≡ ok ch)
  unfolding Mux.receive Mux.poll_incoming
  poll_incoming_twice ch p q s m v free empty =
      let (_, v1) = receive-Simulates c ch p s m v in
      let (_, v2) = receive-Simulates c ch q _ _ v1 in
      let (one, v3) = poll_incoming-Simulates c _ _ v2 in
      let (two, _) = poll_incoming-Simulates c _ _ v3 in
      let free' : m.taken ch ≡ false = sym (v.taken ch) ∙ free in
      let empty' : m.waiting ≡ [] = sym v.waiting ∙ empty in
      (
        one ∙ rw (Mux.poll_incoming, Mux.receive, free', empty') refl,
        two ∙ rw (Mux.poll_incoming, Mux.receive, free', empty') refl,
      )
