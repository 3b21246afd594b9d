-- ===== src/Notes/Control.antt =====
-- `Dtcp` of notes/dtcp.rs with its retransmission, window and rate control.
use efcp.Prelude.{
  ℕ, ◌^◌, Bool, true, false, not, List, [], ◌∷◌, ◌++◌, Option, none, some, ltb, leb, if◌then◌else◌,
}
use efcp.Outcome.{Outcome, ok, checked_add}
use efcp.Outcome
use efcp.Outcome.Exec.{Exec, lift, ◌>>=◌, ◌>>◌}
use efcp.Bytes.{BytesMut}
use efcp.Notes.Packet.{Packet}

pub record RetransmissionControl (b : BytesMut) : Type 0 where
  pub retransmission_queue : List (Packet b × ℕ)
  pub max_retransmission_attempts : ℕ
  pub control_sequence_number : ℕ
  pub max_received_control_sequence_number : ℕ

pub record WindowFlowControl : Type 0 where
  pub send_window_start : ℕ
  pub send_window_end : ℕ
  pub receive_window_start : ℕ
  pub receive_window_end : ℕ

pub record RateFlowControl : Type 0 where
  pub time_unit : ℕ
  pub sending_rate : ℕ
  pub pdus_sent_in_time_unit : ℕ

pub record Dtcp (b : BytesMut) : Type 0 where
  pub set_drf_flag : Bool
  pub immediate : Bool
  pub rtt : ℕ
  pub retx : Option (RetransmissionControl b)
  pub window : Option WindowFlowControl
  pub rate : Option RateFlowControl

-- `RetransmissionControl::register_packet` at the instant `now`.
unfoldable pub queue_packet :
    {b : BytesMut} → ℕ → Packet b → RetransmissionControl b → RetransmissionControl b
queue_packet now p r = record r { retransmission_queue = r.retransmission_queue ++ (p, now) ∷ [] }

-- `WindowFlowControl::window_open` and `RateFlowControl::window_open`.
unfoldable pub window_open : ℕ → WindowFlowControl → Bool
window_open sn w = leb sn w.send_window_end

unfoldable pub rate_open : RateFlowControl → Bool
rate_open r = ltb r.pdus_sent_in_time_unit r.sending_rate

-- `if let Some(..)`: nothing is in the way of `none`.
abbrev pub holds : {A : Type 0} → (A → Bool) → Option A → Bool
holds test none = true
holds test (some a) = test a

-- `RateFlowControl::register_packet`. The count is a `u32`.
unfoldable pub count_packet : {E : Type 0} → RateFlowControl → Outcome E RateFlowControl
count_packet r =
    Outcome.◌>>=◌ (checked_add (2 ^ 32) r.pdus_sent_in_time_unit 1)
      (λ n. ok (record r { pdus_sent_in_time_unit = n }))

module _ {b : BytesMut} where
  unfoldable pub take_drf : Dtcp b → Bool × Dtcp b
  take_drf d = (d.set_drf_flag, record d { set_drf_flag = false })

  unfoldable pub in_send_window : ℕ → Dtcp b → Bool
  unfolding window_open rate_open
  in_send_window sn d =
      if not (holds (window_open sn) d.window)
      then false
      else if not (holds rate_open d.rate)
      then false
      else true

  unfoldable pub in_recv_window : ℕ → Dtcp b → Bool
  in_recv_window sn d = elim d.window [
    | none ↦ true
    | some w ↦
        if ltb sn w.receive_window_start
        then false
        else if ltb w.receive_window_end sn
        then false
        else true
  ]

  -- The steps of `register_packet`; that of the window does nothing.
  unfoldable pub register_retx : {E : Type 0} → ℕ → Packet b → Exec (Dtcp b) E (Unit {0})
  unfolding queue_packet
  register_retx now p d = elim d.retx [
    | none ↦ (ok tt, d)
    | some r ↦ (ok tt, record d { retx = some (queue_packet now p r) })
  ]

  unfoldable pub register_rate : {E : Type 0} → Exec (Dtcp b) E (Unit {0})
  unfolding count_packet
  register_rate d = elim d.rate [
    | none ↦ (ok tt, d)
    | some r ↦ (do r' ← lift (count_packet r); λ d'. (ok tt, record d' { rate = some r' })) d
  ]

  unfoldable pub register_packet : {E : Type 0} → ℕ → Packet b → Exec (Dtcp b) E (Unit {0})
  unfolding register_retx register_rate
  register_packet now p = do register_retx now p; register_rate
