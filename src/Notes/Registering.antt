-- ===== src/Notes/Registering.antt =====
-- The tests of the send window of notes/dtcp.rs, and what registering a packet leaves.
use efcp.Prelude.{
  ℕ, suc, ◌+◌, ◌<◌, ◌^◌, ◌≡◌, refl, Bool, true, false, not, List, [], ◌∷◌, ◌++◌, arith, Option,
  none, some, ltb, if◌then◌else◌,
}
use efcp.Outcome.{ok}
use efcp.Bytes.{BytesMut}
use efcp.Notes.Packet.{Packet}
use efcp.Notes.Control.{
  Dtcp, RetransmissionControl, RateFlowControl, WindowFlowControl, in_send_window, register_packet,
  register_retx, register_rate, count_packet, queue_packet, window_open, rate_open, holds,
}

-- The rate is a `u32`.
unfoldable pub FitsRate : Option RateFlowControl → Type 0
FitsRate none = Unit
FitsRate (some r) = r.sending_rate < 2 ^ 32

abbrev pub counted : Option RateFlowControl → Option RateFlowControl
counted none = none
counted (some r) = some (record r { pdus_sent_in_time_unit = r.pdus_sent_in_time_unit + 1 })

-- A count below the rate does not overflow.
rate_open-fits :
    (r : RateFlowControl)
    → rate_open r ≡ true
    → r.sending_rate < 2 ^ 32
    → ltb (r.pdus_sent_in_time_unit + 1) (2 ^ 32) ≡ true
unfolding rate_open
rate_open-fits r h f = ground arith

-- The two tests of `in_send_window`.
abbrev two_tests : Bool → Bool → Bool
two_tests a c = if not a then false else if not c then false else true

two_tests-right : (a c : Bool) → two_tests a c ≡ true → c ≡ true
two_tests-right false c h = absurd (ground arith)
two_tests-right true false h = h
two_tests-right true true h = refl

two_tests-left : (a c : Bool) → two_tests a c ≡ true → a ≡ true
two_tests-left false c h = h
two_tests-left true c h = refl

two_tests-shut :
    (a a' c : Bool) → (a' ≡ true → a ≡ true) → two_tests a c ≡ false → two_tests a' c ≡ false
two_tests-shut a false c f h = refl
two_tests-shut false true c f h = absurd (let t = f refl in ground arith)
two_tests-shut true true c f h = h

window_open-pred :
    (n : ℕ) (w : Option WindowFlowControl)
    → holds (window_open (suc n)) w ≡ true
    → holds (window_open n) w ≡ true
unfolding window_open
window_open-pred n none h = refl
window_open-pred n (some w) h = ground arith

module _ {b : BytesMut} where
  abbrev pub retransmits :
      List (Packet b × ℕ) → Option (RetransmissionControl b) → Option (RetransmissionControl b)
  retransmits ps none = none
  retransmits ps (some r) = some (record r { retransmission_queue = r.retransmission_queue ++ ps })

  abbrev pub registered : ℕ → Packet b → Dtcp b → Dtcp b
  registered now p d = record d {
    set_drf_flag = false;
    retx = retransmits ((p, now) ∷ []) d.retx;
    rate = counted d.rate;
  }

  abbrev pub quieted : Dtcp b → Dtcp b
  quieted d = record d { set_drf_flag = false }

  pub register_lem :
      {E : Type 0} (now : ℕ) (p : Packet b) (v i : Bool) (rtt : ℕ)
      (retx : Option (RetransmissionControl b)) (w : Option WindowFlowControl)
      (rate : Option RateFlowControl)
      → holds rate_open rate ≡ true
      → FitsRate rate
      → register_packet {E = E} now p (record {
        set_drf_flag = v;
        immediate = i;
        rtt = rtt;
        retx = retx;
        window = w;
        rate = rate;
      })
        ≡ (
          ok tt,
          record {
            set_drf_flag = v;
            immediate = i;
            rtt = rtt;
            retx = retransmits ((p, now) ∷ []) retx;
            window = w;
            rate = counted rate;
          },
        )
  unfolding register_packet register_retx register_rate queue_packet count_packet FitsRate
  register_lem now p v i rtt none w none h f = refl
  register_lem now p v i rtt (some x) w none h f = refl
  register_lem now p v i rtt none w (some r) h f = rw (rate_open-fits r h f) refl
  register_lem now p v i rtt (some x) w (some r) h f = rw (rate_open-fits r h f) refl

  -- A window that is shut stays shut for the numbers behind.
  pub in_send_window-suc :
      (n : ℕ) (d : Dtcp b) → in_send_window n d ≡ false → in_send_window (suc n) (quieted d) ≡ false
  unfolding in_send_window
  in_send_window-suc n d h = two_tests-shut _ _ _ (window_open-pred n d.window) h

  pub in_send_window-window :
      (n : ℕ) (d : Dtcp b) → in_send_window n d ≡ true → holds (window_open n) d.window ≡ true
  unfolding in_send_window
  in_send_window-window n d h = two_tests-left _ (holds rate_open d.rate) h

  pub in_send_window-open :
      (n : ℕ) (d : Dtcp b) → in_send_window n d ≡ true → holds rate_open d.rate ≡ true
  unfolding in_send_window
  in_send_window-open n d h = two_tests-right (holds (window_open n) d.window) _ h
