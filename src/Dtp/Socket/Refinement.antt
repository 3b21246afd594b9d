-- ===== src/Dtp/Socket/Refinement.antt =====
-- Every operation of the socket in dtp/src/dtp.rs implements the one of the abstract state.
use efcp.Prelude.{
  ℕ, zero, suc, ◌≡◌, ◌≢◌, inl, inr, refl, sym, ap, subst, ◌∙◌, true, false, [], ◌∷◌, Option, none,
  some, Bool-cases, length,
}
use efcp.Outcome.Exec.{ended, pure}
use efcp.Addr.{Addr}
use efcp.Dtp.Udp.{Kernel}
use efcp.Dtp.Udp
use efcp.Dtp.Socket.Key.{Channel}
use efcp.Dtp.Socket.Datagram.{read_packet}
use efcp.Dtp.Socket.Defs.{
  Crates, InnerDtpSocket, Call, update, bind, poll_recv, incoming_loop, poll_incoming, channel_loop,
  poll_channel, outgoing, forget, discard, close,
}
use efcp.Dtp.Socket.Mux.{Mux, Act}
use efcp.Dtp.Socket.Mux
use efcp.Dtp.Socket.Simulation.{
  contents, Shows, Simulates, bind-Simulates, lift-Simulates, on_socket-Simulates,
}
use efcp.Dtp.Socket.Keys.{same_or_not, update_same, update_other, connection_id-Shows}
use efcp.Dtp.Socket.Steps.{
  pop-cases, receive-Simulates, accept_next-Simulates, take_packet-Simulates, taken_Shows,
  rest_Shows,
}

module _ (c : Crates) where
  -- A socket that was just bound shows the abstract state with no channel, no packet and nothing taken.
  pub bind-Shows : (kernel : Kernel) → Shows c (bind c kernel) (Mux.start c.buf kernel)
  unfolding bind
  bind-Shows kernel = record {
    net = refl;
    queues = λ ch. refl;
    taken = λ ch. refl;
    waiting = c.accepts.to_list-new;
    live = λ ch k e. absurd (cc);
    one_channel = λ x y k ex ey. absurd (cc);
  }

  pub poll_recv-Simulates : Simulates c (poll_recv c) (Mux.poll_recv c.buf)
  unfolding poll_recv Mux.poll_recv
  poll_recv-Simulates = bind-Simulates c _ _ _ _ (on_socket-Simulates c Udp.poll_recv) λ r.
      bind-Simulates c _ _ _ _ (lift-Simulates c (read_packet c.buf r.0 r.1 r.2))
        λ p. receive-Simulates c p.0 p.1

  -- The end of a round: what was found is returned, and otherwise the loop goes on.
  found-Simulates :
      {A B : Type 0} (k : A → B) (f : Call c B) (g : Act c.buf B) (o : Option A)
      → Simulates c f g
      → Simulates c
          (elim o [ some a ↦ pure (k a) | none ↦ f ])
          (elim o [ some a ↦ pure (k a) | none ↦ g ])
  found-Simulates k f g none h s m v = h s m v
  found-Simulates k f g (some a) h s m v = (refl, v)

  ended-Simulates : {A : Type 0} (o : Option A) → Simulates c (ended o) (ended o)
  ended-Simulates none s m v = (refl, v)
  ended-Simulates (some a) s m v = (refl, v)

  pub incoming_loop-Simulates :
      (fuel : ℕ) → Simulates c (incoming_loop c fuel) (Mux.incoming_loop c.buf fuel)
  unfolding incoming_loop Mux.incoming_loop
  incoming_loop-Simulates zero s m v = (refl, v)
  incoming_loop-Simulates (suc fuel) s m v =
      bind-Simulates c _ _ _ _ poll_recv-Simulates
        (λ _.
          bind-Simulates c _ _ _ _ (accept_next-Simulates c)
            λ found. found-Simulates some _ _ found (incoming_loop-Simulates fuel))
        s m v

  pub channel_loop-Simulates :
      (ch : Channel) (fuel : ℕ)
      → Simulates c (channel_loop c ch fuel) (Mux.channel_loop c.buf ch fuel)
  unfolding channel_loop Mux.channel_loop
  channel_loop-Simulates ch zero s m v = (refl, v)
  channel_loop-Simulates ch (suc fuel) s m v =
      bind-Simulates c _ _ _ _ poll_recv-Simulates
        (λ _.
          bind-Simulates c _ _ _ _ (take_packet-Simulates c ch)
            λ found. found-Simulates some _ _ found (channel_loop-Simulates ch fuel))
        s m v

  rounds : {a b : Kernel} → a ≡ b → suc (length a.inbox) ≡ suc (length b.inbox)
  rounds e = ap (λ n. suc (length n.inbox)) e

  incoming_loop-fuels :
      (n k : ℕ) → n ≡ k → Simulates c (incoming_loop c n) (Mux.incoming_loop c.buf k)
  incoming_loop-fuels n k e =
      subst (λ j. Simulates c (incoming_loop c n) (Mux.incoming_loop c.buf j)) e
        (incoming_loop-Simulates n)

  channel_loop-fuels :
      (ch : Channel) (n k : ℕ)
      → n ≡ k
      → Simulates c (channel_loop c ch n) (Mux.channel_loop c.buf ch k)
  channel_loop-fuels ch n k e =
      subst (λ j. Simulates c (channel_loop c ch n) (Mux.channel_loop c.buf ch j)) e
        (channel_loop-Simulates ch n)

  pub poll_channel-Simulates :
      (ch : Channel) → Simulates c (poll_channel c ch) (Mux.poll_channel c.buf ch)
  unfolding poll_channel Mux.poll_channel
  poll_channel-Simulates ch = bind-Simulates c _ _ _ _ (take_packet-Simulates c ch) λ found.
      found-Simulates (λ p. p) _ _ found
        λ s m v.
          bind-Simulates c _ _ _ _ (channel_loop-fuels ch _ _ (rounds v.net)) ended-Simulates s m v

  pub poll_incoming-Simulates : Simulates c (poll_incoming c) (Mux.poll_incoming c.buf)
  unfolding poll_incoming Mux.poll_incoming
  poll_incoming-Simulates s m v = elim (pop-cases c.accepts s.incoming) [
    | inr (ch, rest, e, popped) ↦
        let e' : m.waiting ≡ ch ∷ c.accepts.to_list rest = sym v.waiting ∙ e in
        rw (poll_incoming, popped, Mux.poll_incoming, e') (refl, rest_Shows c rest v)
    | inl (e, popped) ↦
        let e' : m.waiting ≡ [] = sym v.waiting ∙ e in
        rw (poll_incoming, popped, Mux.poll_incoming, e')
          (bind-Simulates c _ _ _ _ (incoming_loop-fuels _ _ (rounds v.net)) ended-Simulates s m v)
  ]

  pub outgoing-Simulates :
      (peer : Addr) (id : ℕ) → Simulates c (outgoing c peer id) (Mux.outgoing c.buf peer id)
  unfolding outgoing Mux.outgoing
  outgoing-Simulates peer id s m v =
      let ch : Channel = record { peer_addr = peer; channel_id = id } in
      elim (Bool-cases (s.channels ch)) [
        | inl t ↦
            let t' : m.taken ch ≡ true = sym (v.taken ch) ∙ t in
            rw (outgoing, t, Mux.outgoing, t') (refl, v)
        | inr t ↦
            let t' : m.taken ch ≡ false = sym (v.taken ch) ∙ t in
            rw (outgoing, t, Mux.outgoing, t') (refl, taken_Shows c ch true v)
      ]

  module _ (ch : Channel) (k : ℕ) (s : InnerDtpSocket c) (m : Mux c.buf) (v : Shows c s m)
      (has : s.channel_lookup ch ≡ some k) (conns : c.slab.Store) (gone : c.slab.get conns k ≡ none)
      (kept : (j : ℕ) → j ≢ k → c.slab.get conns j ≡ c.slab.get s.connections j) where
    abbrev without : Channel → Option ℕ
    without = update ch none s.channel_lookup

    contents-kept : (o : Option ℕ) → o ≢ some k → contents c conns o ≡ contents c s.connections o
    contents-kept none h = refl
    contents-kept (some j) h = rw (contents, kept j (λ same. h (ap some same)))

    others : (x : Channel) (j : ℕ) → without x ≡ some j → (s.channel_lookup x ≡ some j) × (j ≢ k)
    others x j e = elim (same_or_not x ch) [
      | inl same ↦ let now = update_same ch x none s.channel_lookup same in absurd (cc)
      | inr other ↦
          let before = sym (update_other ch x none s.channel_lookup other.1) ∙ e in
          (before, λ same. other.0 (v.one_channel x ch k (before ∙ ap some same) has))
    ]

    discarded-Shows :
        Shows c
          (record s { connections = conns; channel_lookup = without })
          (record m { queues = update ch [] m.queues })
    discarded-Shows = record {
      net = v.net;
      queues = λ x. elim (same_or_not x ch) [
        | inl same ↦
            rw (update_same ch x none s.channel_lookup same, update_same ch x [] m.queues same) refl
        | inr other ↦
            rw
              (
                update_other ch x none s.channel_lookup other.1,
                update_other ch x [] m.queues other.1,
              )
              (contents-kept (s.channel_lookup x) (λ e. other.0 (v.one_channel x ch k e has))
                ∙ v.queues x)
      ];
      taken = v.taken;
      waiting = v.waiting;
      live = λ x j e.
          let (before, ne) = others x j e in
          let (q, got) = v.live x j before in (q, kept j ne ∙ got);
      one_channel = λ x y j ex ey. v.one_channel x y j (others x j ex).0 (others y j ey).0;
    }

  pub close-Simulates : (ch : Channel) → Simulates c (close c ch) (Mux.close c.buf ch)
  unfolding close forget Mux.close
  close-Simulates ch s m v =
      let (k, s', ran, has, v') = connection_id-Shows c ch _ _ (taken_Shows c ch false v) in
      let (q, got) = v'.live ch k has in
      let (conns, removed, gone, kept) = c.slab.remove_some s'.connections k q got in
      rw (ran, discard, removed) (refl, discarded-Shows ch k s' _ v' has conns gone kept)
