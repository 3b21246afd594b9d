-- ===== src/TestChannel/Runs.antt =====
-- What a run of sends on the lossy loopback leaves to be received.
use efcp.Prelude.{
  ◌≡◌, refl, ap, ◌∙◌, Bool, true, List, [], ◌∷◌, ◌++◌, append_assoc, append-nil, if◌then◌else◌,
  Bool-cases, inl, inr,
}
use efcp.Outcome.{ok, pending}
use efcp.Outcome.Exec.{◌>>◌}
use efcp.TestChannel.Defs.{
  LossyChannelBuilder, split, Float, LossyLoopback, Act, new, send, forward, delay, drain, recv,
}
use efcp.Channel.Loopback.{poll, push}

module _ (f : Float) (P : Type 0) where
  -- One call of `send` for each packet, with what the random source drew.
  pub send_all : List (f.F × P) → Act f P (Unit {0})
  send_all [] s = (ok tt, s)
  send_all ((fate, packet) ∷ calls) s = (do send f P fate packet; send_all calls) s

  abbrev pub one : Bool → P → List P
  one b packet = if b then packet ∷ [] else []

  -- The packets whose draw is below a bound.
  unfoldable pub below : f.F → List (f.F × P) → List P
  below bound [] = []
  below bound ((fate, packet) ∷ calls) = one (f.less fate bound) packet ++ below bound calls

  abbrev after : List P → List P → LossyLoopback f P → LossyLoopback f P
  after ps qs s = record s { loopback = s.loopback ++ ps; delayed = s.delayed ++ qs }

  send_lem :
      (fate : f.F) (packet : P) (s : LossyLoopback f P)
      → send f P fate packet s
        ≡ (ok tt, after (one (f.less fate s.px) packet) (one (f.less fate s.pq) packet) s)
  unfolding send push
  send_lem fate packet s = elim (Bool-cases (f.less fate s.px)) [
    | inl x ↦ elim (Bool-cases (f.less fate s.pq)) [
      | inl y ↦ rw (forward, x, delay, y, push) refl
      | inr y ↦ rw (forward, x, delay, y, push, append-nil s.delayed) refl
    ]
    | inr x ↦ elim (Bool-cases (f.less fate s.pq)) [
      | inl y ↦ rw (forward, x, delay, y, append-nil s.loopback) refl
      | inr y ↦ rw (forward, x, delay, y, append-nil s.loopback, append-nil s.delayed) refl
    ]
  ]

  send_all_lem :
      (calls : List (f.F × P)) (s : LossyLoopback f P)
      → send_all calls s ≡ (ok tt, after (below s.px calls) (below s.pq calls) s)
  unfolding send_all below
  send_all_lem [] s = rw (append-nil s.loopback, append-nil s.delayed) refl
  send_all_lem ((fate, packet) ∷ calls) s =
      let xs = one (f.less fate s.px) packet in
      let ys = one (f.less fate s.pq) packet in
      rw (send_lem fate packet s) (
        send_all_lem calls (after xs ys s)
        ∙ (rw
            (
              append_assoc s.loopback xs (below s.px calls),
              append_assoc s.delayed ys (below s.pq calls),
            )
            refl))

  drain_lem :
      (ps : List P) (s : LossyLoopback f P)
      → s.delayed ≡ ps
      → drain f P ps s ≡ (ok tt, record s { loopback = s.loopback ++ ps; delayed = [] })
  unfolding drain push
  drain_lem [] s e = rw (append-nil s.loopback, ← e) refl
  drain_lem (p ∷ ps) s e =
      drain_lem ps (record s { loopback = s.loopback ++ p ∷ []; delayed = ps }) refl
      ∙ (rw (append_assoc s.loopback (p ∷ []) ps) refl)

  recv_lem :
      (p : P) (rest : List P) (s : LossyLoopback f P)
      → s.loopback ≡ p ∷ rest
      → recv f P s ≡ (ok p, record s { loopback = rest ++ s.delayed; delayed = [] })
  unfolding recv poll
  recv_lem p rest s e = rw (e, drain_lem s.delayed (record s { loopback = rest }) refl) refl

  -- After sends on a fresh loopback of which one or more had a draw below `px`, the first `recv`
  -- returns the first such packet. To be received next are the other such packets, in order, and
  -- behind them, out of order, the packets whose draw was below `pq`: a packet below both bounds
  -- is received twice, one below neither is lost.
  pub recv-send_all :
      (px pq : f.F) (calls : List (f.F × P)) (p : P) (rest : List P)
      → below px calls ≡ p ∷ rest
      → recv f P (send_all calls (new f P px pq)).1
        ≡ (ok p, record { px = px; pq = pq; delayed = []; loopback = rest ++ below pq calls })
  unfolding new
  recv-send_all px pq calls p rest e = rw (send_all_lem calls (new f P px pq)) (recv_lem p rest _ e)

  sent_front :
      (fate : f.F) (p : P) (s : LossyLoopback f P)
      → f.less fate s.px ≡ true
      → s.loopback ≡ []
      → (recv f P (send f P fate p s).1).0 ≡ ok p
  sent_front fate p s x e =
      rw (send_lem fate p s) (ap (λ r. r.0) (recv_lem p [] _ (rw (e, x) refl)))

  recv_nothing : (s : LossyLoopback f P) → s.loopback ≡ [] → (recv f P s).0 ≡ pending
  unfolding recv poll
  recv_nothing s e = rw e refl

  -- Of the two channels that a builder is split into, each receives what the other sends: on
  -- empty loopbacks a packet whose draw is below `px` of both ways is what the other end
  -- receives, and the end that sent it has nothing to receive.
  pub recv-split :
      (b : LossyChannelBuilder f P) (fate : f.F) (p : P)
      → f.less fate b.tx.px ≡ true
      → f.less fate b.rx.px ≡ true
      → b.tx.loopback ≡ []
      → b.rx.loopback ≡ []
      → let (shared, here, there) = split f P b in
        let forth = (here.send fate p shared).1 in
        let back = (there.send fate p shared).1 in
        ((there.recv forth).0 ≡ ok p)
        × ((here.recv forth).0 ≡ pending)
        × ((here.recv back).0 ≡ ok p)
        × ((there.recv back).0 ≡ pending)
  unfolding split
  recv-split b fate p x y ex ey = (
    sent_front fate p b.tx x ex,
    recv_nothing b.rx ey,
    sent_front fate p b.rx y ey,
    recv_nothing b.tx ex,
  )
