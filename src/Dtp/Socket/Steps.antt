-- ===== src/Dtp/Socket/Steps.antt =====
-- The single steps of the socket simulate those of the abstract state.
use efcp.Prelude.{
  ℕ, ◌≡◌, ◌⊎◌, inl, inr, refl, sym, ap, ◌∙◌, Bool, true, false, List, [], ◌∷◌, ◌++◌, none, some,
  Bool-cases, if◌then◌else◌,
}
use efcp.Outcome.{ok}
use efcp.Dtp.Packet.{DtpPacket}
use efcp.Dtp.Queues.{SegQueue}
use efcp.Dtp.Socket.Key.{Channel, chan_eq}
use efcp.Dtp.Socket.Defs.{
  Crates, InnerDtpSocket, update, announce, push_to, deliver, receive, accept_next, pop_from,
  take_packet,
}
use efcp.Dtp.Socket.Mux.{Mux}
use efcp.Dtp.Socket.Mux
use efcp.Dtp.Socket.Simulation.{contents, Shows, Simulates}
use efcp.Dtp.Socket.Keys.{connection_id-Shows, set-Shows}

-- What `pop` does, by what is in the queue.
pub pop-cases :
    {A : Type 0} (Q : SegQueue A) (q : Q.Queue)
    → ((Q.to_list q ≡ []) × (Q.pop q ≡ none))
      ⊎ ((a : A) × (r : Q.Queue) × (Q.to_list q ≡ a ∷ Q.to_list r) × (Q.pop q ≡ some (a, r)))
pop-cases Q q = by_content (Q.to_list q) refl
  where
    by_content :
        (l : List _)
        → Q.to_list q ≡ l
        → ((Q.to_list q ≡ []) × (Q.pop q ≡ none))
          ⊎ ((a : _) × (r : Q.Queue) × (Q.to_list q ≡ a ∷ Q.to_list r) × (Q.pop q ≡ some (a, r)))
    by_content [] e = inl (e, Q.pop_empty q e)
    by_content (a ∷ rest) e =
        let (r, popped, left) = Q.pop_front q a rest e in
        inr (a, r, e ∙ ap (λ l. a ∷ l) (sym left), popped)

module _ (c : Crates) where
  queue_is :
      (ch : Channel) (k : ℕ) (q : c.packets.Queue) (s : InnerDtpSocket c) (m : Mux c.buf)
      → Shows c s m
      → s.channel_lookup ch ≡ some k
      → c.slab.get s.connections k ≡ some q
      → c.packets.to_list q ≡ m.queues ch
  queue_is ch k q s m v has got =
      let open_up : contents c s.connections (s.channel_lookup ch) ≡ c.packets.to_list q =
        rw has (rw (contents, got)) in
      sym open_up ∙ v.queues ch

  announce-Shows :
      (ch : Channel) (s : InnerDtpSocket c) (m : Mux c.buf)
      → Shows c s m
      → ((announce c ch s).0 ≡ ok tt)
        × Shows c
            (announce c ch s).1
            (record m { waiting = if m.taken ch then m.waiting else m.waiting ++ ch ∷ [] })
  unfolding announce
  announce-Shows ch s m v = elim (Bool-cases (s.channels ch)) [
    | inl e ↦ let e' : m.taken ch ≡ true = sym (v.taken ch) ∙ e in rw (e, e') (refl, v)
    | inr e ↦
        let e' : m.taken ch ≡ false = sym (v.taken ch) ∙ e in
        rw (e, e')
          (
            refl,
            record {
              net = v.net;
              queues = v.queues;
              taken = v.taken;
              waiting = c.accepts.to_list-push s.incoming ch ∙ ap (λ l. l ++ ch ∷ []) v.waiting;
              live = v.live;
              one_channel = v.one_channel;
            },
          )
  ]

  pub receive-Simulates :
      (ch : Channel) (p : DtpPacket c.buf) → Simulates c (receive c ch p) (Mux.receive c.buf ch p)
  unfolding receive deliver push_to Mux.receive
  receive-Simulates ch p s m v =
      let (k, s', ran, has, v') = connection_id-Shows c ch s m v in
      let (q, got) = v'.live ch k has in
      let pushed : c.packets.to_list (c.packets.push q p) ≡ m.queues ch ++ p ∷ [] =
        c.packets.to_list-push q p ∙ ap (λ l. l ++ p ∷ []) (queue_is ch k q s' m v' has got) in
      let (fine, v'') =
        announce-Shows ch _ _ (set-Shows c ch k q (c.packets.push q p) s' m v' has got) in
      rw (ran, deliver, push_to, got, Mux.receive, ← pushed) (fine, v'')

  module _ {s : InnerDtpSocket c} {m : Mux c.buf} where
    pub rest_Shows :
        (rest : c.accepts.Queue)
        → Shows c s m
        → Shows c (record s { incoming = rest }) (record m { waiting = c.accepts.to_list rest })
    rest_Shows rest v = record {
      net = v.net;
      queues = v.queues;
      taken = v.taken;
      waiting = refl;
      live = v.live;
      one_channel = v.one_channel;
    }

    pub taken_Shows :
        (ch : Channel) (b : Bool)
        → Shows c s m
        → Shows c
            (record s { channels = update ch b s.channels })
            (record m { taken = update ch b m.taken })
    unfolding update
    taken_Shows ch b v = record {
      net = v.net;
      queues = v.queues;
      taken = λ x. ap (λ t. if chan_eq x ch then b else t) (v.taken x);
      waiting = v.waiting;
      live = v.live;
      one_channel = v.one_channel;
    }

  pub accept_next-Simulates : Simulates c (accept_next c) (Mux.accept_next c.buf)
  unfolding accept_next Mux.accept_next
  accept_next-Simulates s m v = elim (pop-cases c.accepts s.incoming) [
    | inl (e, popped) ↦
        let e' : m.waiting ≡ [] = sym v.waiting ∙ e in
        rw (accept_next, popped, Mux.accept_next, e') (refl, v)
    | inr (ch, rest, e, popped) ↦
        let e' : m.waiting ≡ ch ∷ c.accepts.to_list rest = sym v.waiting ∙ e in
        elim (Bool-cases (s.channels ch)) [
          | inl t ↦
              let t' : m.taken ch ≡ true = sym (v.taken ch) ∙ t in
              rw (accept_next, popped, Mux.accept_next, e', t, t') (refl, rest_Shows rest v)
          | inr t ↦
              let t' : m.taken ch ≡ false = sym (v.taken ch) ∙ t in
              rw (accept_next, popped, Mux.accept_next, e', t, t')
                (refl, taken_Shows ch true (rest_Shows rest v))
        ]
  ]

  pub take_packet-Simulates :
      (ch : Channel) → Simulates c (take_packet c ch) (Mux.take_packet c.buf ch)
  unfolding take_packet pop_from Mux.take_packet
  take_packet-Simulates ch s m v =
      let (k, s', ran, has, v') = connection_id-Shows c ch s m v in
      let (q, got) = v'.live ch k has in
      let now = queue_is ch k q s' m v' has got in
      elim (pop-cases c.packets q) [
        | inl (e, popped) ↦
            let e' : m.queues ch ≡ [] = sym now ∙ e in
            rw (ran, pop_from, got, popped, Mux.take_packet, e') (refl, v')
        | inr (p, rest, e, popped) ↦
            let e' : m.queues ch ≡ p ∷ c.packets.to_list rest = sym now ∙ e in
            rw (ran, pop_from, got, popped, Mux.take_packet, e')
              (refl, set-Shows c ch k q rest s' m v' has got)
      ]
