-- ===== src/Channel/Loopback.antt =====
-- `Loopback` of channel/src/lib.rs: a queue of packets behind a mutex, which its clones share.
use efcp.Prelude.{List, [], ◌∷◌, ◌++◌}
use efcp.Outcome.{ok, pending, IoError}
use efcp.Outcome.Exec.{Exec}
use efcp.Channel.Traits.{Channel}

module _ {P : Type 0} where
  -- `RecvFuture::poll`: with nothing in the queue it wakes itself and is pending.
  unfoldable pub poll : Exec (List P) IoError P
  poll [] = (pending, [])
  poll (packet ∷ queue) = (ok packet, queue)

  unfoldable pub push : P → Exec (List P) IoError (Unit {0})
  push packet queue = (ok tt, queue ++ packet ∷ [])

  unfoldable pub loopback : Channel (List P) P
  unfolding poll push
  loopback = record { recv = poll; send = push }
