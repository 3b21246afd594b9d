-- ===== src/TestChannel/Defs.antt =====
-- `LossyLoopback`, `LossyChannel` and `LossyChannelBuilder` of test-channel/src/lib.rs. What `OsRng`
-- draws is an argument.
use efcp.Prelude.{Bool, List, [], ◌∷◌, ◌++◌, ◌&&◌, if◌then◌else◌}
use efcp.Outcome.{Outcome, IoError}
use efcp.Outcome.Exec.{Exec, pure, ◌>>=◌, ◌>>◌}
use efcp.Channel.Loopback.{poll, push}

-- `f64` with its order.
pub record Float : Type 1 where
  pub F : Type 0
  pub less : F → F → Bool
  pub at_most : F → F → Bool
  pub nought : F
  pub one : F

pub record LossyLoopback (f : Float) (P : Type 0) : Type 0 where
  pub px : f.F
  pub pq : f.F
  pub delayed : List P
  pub loopback : List P

module _ (f : Float) (P : Type 0) where
  abbrev pub Act : Type 0 → Type 0
  Act = Exec (LossyLoopback f P) IoError

  unfoldable pub new : f.F → f.F → LossyLoopback f P
  new px pq = record { px = px; pq = pq; delayed = []; loopback = [] }

  unfoldable pub on_loopback : {A : Type 0} → Exec (List P) IoError A → Act A
  on_loopback m s = ((m s.loopback).0, record s { loopback = (m s.loopback).1 })

  -- The two `if`s of `send`.
  unfoldable pub forward : f.F → P → Act (Unit {0})
  unfolding on_loopback
  forward fate packet s =
      if f.less fate s.px then on_loopback (push packet) s else (Outcome.ok tt, s)

  unfoldable pub delay : f.F → P → Act (Unit {0})
  delay fate packet s =
      if f.less fate s.pq
      then (Outcome.ok tt, record s { delayed = s.delayed ++ packet ∷ [] })
      else (Outcome.ok tt, s)

  unfoldable pub send : f.F → P → Act (Unit {0})
  unfolding forward delay
  send fate packet = do forward fate packet; delay fate packet

  -- The loop of `recv`: each delayed packet is sent to the loopback.
  unfoldable pub drain : List P → Act (Unit {0})
  unfolding on_loopback
  drain [] s = (Outcome.ok tt, s)
  drain (packet ∷ rest) s = (do on_loopback (push packet); drain rest) (record s { delayed = rest })

  unfoldable pub recv : Act P
  unfolding on_loopback drain
  recv = do packet ← on_loopback poll; (λ s. drain s.delayed s); pure packet

  -- Both ends of the pair of channels share the two loopbacks.
  abbrev pub Shared : Type 0
  Shared = LossyLoopback f P × LossyLoopback f P

  pub record LossyChannel : Type 0 where
    pub recv : Exec Shared IoError P
    pub send : f.F → P → Exec Shared IoError (Unit {0})

  pub record LossyChannelBuilder : Type 0 where
    pub px : f.F
    pub pq : f.F
    pub rx : LossyLoopback f P
    pub tx : LossyLoopback f P

  abbrev is_probability : f.F → Bool
  is_probability x = f.at_most f.nought x && f.at_most x f.one

  abbrev builder : f.F → f.F → LossyChannelBuilder
  unfolding new
  builder px pq = record { px = px; pq = pq; rx = new px pq; tx = new px pq }

  -- The two `assert!`s of `LossyChannelBuilder::new`.
  unfoldable pub build : f.F → f.F → Outcome IoError LossyChannelBuilder
  unfolding builder
  build px pq =
      if is_probability px && is_probability pq then Outcome.ok (builder px pq) else Outcome.panic

  unfoldable pub on_rx : {A : Type 0} → Act A → Exec Shared IoError A
  on_rx m (rx, tx) = ((m rx).0, ((m rx).1, tx))

  unfoldable pub on_tx : {A : Type 0} → Act A → Exec Shared IoError A
  on_tx m (rx, tx) = ((m tx).0, (rx, (m tx).1))

  -- The shared loopbacks, and the two channels over them: the second has them the other way round.
  unfoldable pub split : LossyChannelBuilder → Shared × LossyChannel × LossyChannel
  unfolding on_rx on_tx send recv
  split b = (
    (b.rx, b.tx),
    record { recv = on_rx recv; send = λ fate packet. on_tx (send fate packet) },
    record { recv = on_tx recv; send = λ fate packet. on_rx (send fate packet) },
  )
