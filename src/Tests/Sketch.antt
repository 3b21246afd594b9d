-- ===== src/Tests/Sketch.antt =====
-- The packet and the flow of notes/ at concrete inputs.
use efcp.Prelude.{ℕ, ◌+◌, ◌≡◌, refl, ap, true, false, List, [], ◌∷◌, some, arith}
use efcp.Outcome.{ok}
use efcp.Notes.Packet.{
  Packet, version, ty, ecn, fci, acki, sel_ack, ack, drf, set_drf, sequence_number, payload, parse,
}
use efcp.Notes.Packet
use efcp.Notes.Control.{Dtcp}
use efcp.Notes.Control
use efcp.Notes.Flow.{Dtp, SendError}
use efcp.Notes.Flow
use efcp.Notes.Registering.{FitsRate}
use efcp.Notes.Runs.{Leaves, send_all, send_all-Divided}
use efcp.Notes.Receiving.{IsData, recv_all, recv_all-leaders}
use efcp.Notes.Fields.{drf-set_drf}
use efcp.Tests.Instances.{Room, buffers, big_endian}

-- A header with the congestion flag and the lowest flag, cut behind the flags.
abbrev cut : Packet buffers
cut = Packet.new buffers (1 ∷ 0 ∷ 65 ∷ [], 0)

drf-set_drf_example :
    (q : Packet buffers) × (set_drf buffers {E = SendError} cut true ≡ ok q)
    × (drf buffers {E = SendError} q ≡ ok true)
    × (version buffers {E = SendError} q ≡ version buffers cut)
    × (ty buffers {E = SendError} q ≡ ty buffers cut)
    × (ecn buffers {E = SendError} q ≡ ecn buffers cut)
    × (fci buffers {E = SendError} q ≡ fci buffers cut)
    × (acki buffers {E = SendError} q ≡ acki buffers cut)
    × (sel_ack buffers {E = SendError} q ≡ sel_ack buffers cut)
    × (ack buffers {E = SendError} q ≡ ack buffers cut)
    × (sequence_number buffers big_endian {E = SendError} q
        ≡ sequence_number buffers big_endian cut)
    × (payload buffers {E = SendError} q ≡ payload buffers cut)
drf-set_drf_example =
    drf-set_drf buffers big_endian {E = SendError} cut 1 0 65 [] true refl (omega arith)

-- A handler whose window ends at the first number.
abbrev handler : Dtcp buffers
handler = record {
  set_drf_flag = true;
  immediate = false;
  rtt = 0;
  retx = some (record {
    retransmission_queue = [];
    max_retransmission_attempts = 3;
    control_sequence_number = 0;
    max_received_control_sequence_number = 0;
  });
  window = some (record {
    send_window_start = 0;
    send_window_end = 0;
    receive_window_start = 0;
    receive_window_end = 9;
  });
  rate = some (record { time_unit = 1; sending_rate = 5; pdus_sent_in_time_unit = 0 });
}

abbrev idle : Dtp buffers
idle = Flow.new buffers big_endian 1

abbrev three_calls : List (ℕ × List ℕ)
three_calls = (10, 7 ∷ []) ∷ (11, 8 ∷ []) ∷ (12, 9 ∷ []) ∷ []

send_all-Divided_example :
    Leaves buffers big_endian idle handler [] 0 three_calls
      (send_all buffers big_endian three_calls (record idle { dtcp = some handler }))
unfolding FitsRate Flow.new
send_all-Divided_example =
    send_all-Divided buffers big_endian three_calls idle handler (omega arith) (omega arith)

-- A data packet with the given number.
abbrev numbered : ℕ → Room
numbered n = (1 ∷ 0 ∷ 0 ∷ 0 ∷ 0 ∷ 0 ∷ 0 ∷ 0 ∷ 0 ∷ 0 ∷ 0 ∷ n ∷ 7 ∷ [], 0)

plus_zero : (n : ℕ) → 0 + n ≡ n
plus_zero n = omega arith

numbered-IsData : (n : ℕ) → IsData buffers big_endian (numbered n, n)
unfolding IsData parse version drf sequence_number big_endian Packet.raw_type
numbered-IsData n = (refl, refl, ap ok (plus_zero n))

abbrev guarded : Dtp buffers
guarded = record idle { dtcp = some handler }

-- Number 12 lies outside the receive window, and 4 comes too late.
recv_all-leaders_example :
    recv_all buffers big_endian (numbered 5 ∷ numbered 12 ∷ numbered 4 ∷ numbered 8 ∷ []) guarded
    ≡ (
      ok tt ∷ ok tt ∷ ok tt ∷ ok tt ∷ [],
      record guarded {
        max_sequence_number_received = 8;
        reassembly_queue = Packet.new buffers (numbered 5) ∷ Packet.new buffers (numbered 8) ∷ [];
      },
    )
unfolding Flow.new Flow.receivable Control.in_recv_window
recv_all-leaders_example =
    recv_all-leaders buffers big_endian guarded
      ((numbered 5, 5) ∷ (numbered 12, 12) ∷ (numbered 4, 4) ∷ (numbered 8, 8) ∷ [])
      (numbered-IsData 5, (numbered-IsData 12, (numbered-IsData 4, (numbered-IsData 8, tt))))
