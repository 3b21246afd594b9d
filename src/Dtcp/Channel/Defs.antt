-- ===== src/Dtcp/Channel/Defs.antt =====
-- The record `DtcpChannel` of dtcp/src/lib.rs, with `send` and `recv`.
use efcp.Prelude.{ℕ, ◌+◌, ◌%◌, ◌^◌, Bool, false, ◌||◌}
use efcp.Outcome.{ok, IoError}
use efcp.Outcome.Exec.{Exec, pure, lift, ◌>>=◌, ◌>>◌}
use efcp.Bytes.{BigEndian}
use efcp.Channel.{BasePacket, parse}
use efcp.Channel
use efcp.Dtcp.Packet.{transfer, set_ty, set_seq_num, dtcp_packet}
use efcp.Dtcp.Timer.{Timer, restart, stop}

pub record DtcpChannel (C : Type 0) : Type 0 where
  pub channel : C
  pub set_drf : Bool
  pub seq_num : ℕ
  pub sit : Timer
  pub rit : Timer

module _ {C : Type 0} where
  -- `self.sit.lock().unwrap().stop()` and `.start()`, and so for `rit`.
  stop_sit : ℕ → Exec (DtcpChannel C) IoError Bool
  stop_sit now ch = (ok (stop now ch.sit).0, record ch { sit = (stop now ch.sit).1 })

  start_sit : ℕ → Exec (DtcpChannel C) IoError (Unit {0})
  start_sit now ch = (ok tt, record ch { sit = restart now ch.sit })

  stop_rit : ℕ → Exec (DtcpChannel C) IoError Bool
  stop_rit now ch = (ok (stop now ch.rit).0, record ch { rit = (stop now ch.rit).1 })

  start_rit : ℕ → Exec (DtcpChannel C) IoError (Unit {0})
  start_rit now ch = (ok tt, record ch { rit = restart now ch.rit })

  -- `self.set_drf.swap(false, ..)` and `self.set_drf.store(b, ..)`.
  swap_drf : Exec (DtcpChannel C) IoError Bool
  swap_drf ch = (ok ch.set_drf, record ch { set_drf = false })

  store_drf : Bool → Exec (DtcpChannel C) IoError (Unit {0})
  store_drf b ch = (ok tt, record ch { set_drf = b })

  -- `self.seq_num.fetch_add(1, ..)` on an `AtomicU16`, which wraps.
  fetch_add_seq_num : Exec (DtcpChannel C) IoError ℕ
  fetch_add_seq_num ch = (ok ch.seq_num, record ch { seq_num = (ch.seq_num + 1) % 2 ^ 16 })

  -- A call of the lower channel.
  lower : {A : Type 0} → Exec C IoError A → Exec (DtcpChannel C) IoError A
  lower m ch = ((m ch.channel).0, record ch { channel = (m ch.channel).1 })

module _ {C P : Type 0} (be : BigEndian) (d : BasePacket P) (below : Channel.Channel C P) where
  -- `now` is read when the timer is stopped, and `later` when it is started again.
  unfoldable pub send : ℕ → ℕ → P → Exec (DtcpChannel C) IoError (Unit {0})
  unfolding stop_sit start_sit swap_drf fetch_add_seq_num lower
  send now later packet = do
    expired ← stop_sit now
    drf ← swap_drf
    seq_num ← fetch_add_seq_num
    typed ← lift (set_ty be d packet (transfer (drf || expired)))
    numbered ← lift (set_seq_num be d typed seq_num)
    lower (below.send numbered)
    start_sit later

  -- From `self.channel.recv().await` on: what is run again while the lower channel is pending.
  unfoldable pub recv_rest : ℕ → Exec (DtcpChannel C) IoError P
  unfolding lower start_rit
  recv_rest later = do
    packet ← lower below.recv
    parsed ← lift (parse (dtcp_packet be d) packet)
    start_rit later
    pure parsed

  unfoldable pub recv : ℕ → ℕ → Exec (DtcpChannel C) IoError P
  unfolding stop_rit store_drf recv_rest
  recv now later = do expired ← stop_rit now; store_drf expired; recv_rest later

-- `DtcpChannel::unwrap`, and `Deref` to the lower channel.
unfoldable pub unwrap : {C : Type 0} → DtcpChannel C → C
unwrap ch = ch.channel
