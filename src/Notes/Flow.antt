-- ===== src/Notes/Flow.antt =====
-- `Dtp` of notes/dtp.rs: the state of a flow, `send_packet` and `recv_packet`. What the code leaves to
-- do (timers, the sending itself) is not there.
use efcp.Prelude.{
  ℕ, ◌^◌, Bool, true, not, List, [], ◌∷◌, ◌++◌, Option, none, some, ltb, leb, if◌then◌else◌, length,
}
use efcp.Outcome.{Outcome, ok, err, map_err, checked_add}
use efcp.Outcome
use efcp.Outcome.Exec.{Exec, lift, continue, ◌>>=◌, ◌>>◌}
use efcp.Bytes.{BytesMut, BigEndian}
use efcp.Notes.Packet.{
  Packet, PacketError, dtp, parse, drf, set_drf, sequence_number, set_sequence_number,
}
use efcp.Notes.Control.{Dtcp, take_drf, in_send_window, in_recv_window, register_packet}

pub data SendError : Type 0 where
  max_closed_window_queue : SendError

pub data RecvError : Type 0 where
  packet : PacketError → RecvError

pub record Dtp (b : BytesMut) : Type 0 where
  pub dtcp : Option (Dtcp b)
  pub max_closed_window_queue_len : ℕ
  pub closed_window_queue : List (Packet b)
  pub max_sequence_number_received : ℕ
  pub sequence_number : ℕ
  pub reassembly_queue : List (Packet b)

module _ (b : BytesMut) (be : BigEndian) where
  unfoldable pub new : ℕ → Dtp b
  new max_closed_window_queue_len = record {
    dtcp = none;
    max_closed_window_queue_len = max_closed_window_queue_len;
    closed_window_queue = [];
    max_sequence_number_received = 0;
    sequence_number = 0;
    reassembly_queue = [];
  }

  -- `self.sequence_number += 1` on a `u64`.
  unfoldable pub next_sequence_number : Exec (Dtp b) SendError (Unit {0})
  next_sequence_number s =
      continue (checked_add (2 ^ 64) s.sequence_number 1)
        (λ n s'. (ok tt, record s' { sequence_number = n })) s

  -- A call of the dtcp handler, whose state is put back.
  unfoldable pub on_dtcp :
      {A : Type 0} → Exec (Dtcp b) SendError A → Dtcp b → Exec (Dtp b) SendError A
  on_dtcp m d s = ((m d).0, record s { dtcp = some (m d).1 })

  -- `if dtcp.in_send_window(..)`, behind `take_drf`.
  unfoldable pub register_or_queue : ℕ → Packet b → Dtcp b → Exec (Dtp b) SendError (Unit {0})
  unfolding on_dtcp register_packet in_send_window
  register_or_queue now p d s =
      continue (sequence_number b be p)
        (λ sn s'.
          if in_send_window sn d
          then on_dtcp (register_packet now p) d s'
          else (ok tt, record s' { closed_window_queue = s'.closed_window_queue ++ p ∷ [] }))
        s

  -- `if let Some(dtcp) = self.dtcp.as_mut()`
  unfoldable pub hand_to_dtcp : ℕ → Packet b → Exec (Dtp b) SendError (Unit {0})
  unfolding register_or_queue take_drf
  hand_to_dtcp now p s = elim s.dtcp [
    | none ↦ (ok tt, s)
    | some d ↦
        continue (set_drf b p (take_drf d).0) (λ q. register_or_queue now q (take_drf d).1)
          (record s { dtcp = some (take_drf d).1 })
  ]

  unfoldable pub check_queue : Exec (Dtp b) SendError (Unit {0})
  check_queue s =
      if ltb s.max_closed_window_queue_len (length s.closed_window_queue)
      then (err max_closed_window_queue, s)
      else (ok tt, s)

  -- `now` is the instant at which the packet is registered.
  unfoldable pub send_packet : ℕ → List ℕ → Exec (Dtp b) SendError (Unit {0})
  unfolding next_sequence_number hand_to_dtcp check_queue
  send_packet now payload s =
      continue (Outcome.◌>>=◌ (dtp b payload) (λ p. set_sequence_number b be p s.sequence_number))
        (λ p. next_sequence_number >> hand_to_dtcp now p >> check_queue) s

  -- `if dtcp.in_recv_window(..)`, without a handler always.
  unfoldable pub receivable : ℕ → Option (Dtcp b) → Bool
  unfolding in_recv_window
  receivable sn none = true
  receivable sn (some d) = in_recv_window sn d

  -- The branch of a packet with the number `sn` and without the data run flag.
  unfoldable pub accept : ℕ → Packet b → Exec (Dtp b) RecvError (Unit {0})
  unfolding receivable
  accept sn p s =
      if not (receivable sn s.dtcp)
      then (ok tt, s)
      else if leb sn s.max_sequence_number_received
      then (ok tt, s)
      else (
        ok tt,
        record s {
          max_sequence_number_received = sn;
          reassembly_queue = s.reassembly_queue ++ p ∷ [];
        },
      )

  unfoldable pub recv_packet : b.Buf → Exec (Dtp b) RecvError (Unit {0})
  unfolding accept
  recv_packet bytes = do
    p ← lift (map_err packet (parse b bytes))
    new_run ← lift (drf b p)
    sn ← lift (sequence_number b be p)
    if new_run then (λ s. (ok tt, record s { max_sequence_number_received = sn })) else accept sn p
