-- ===== src/Notes/Runs.antt =====
-- Lists of calls of `send_packet` of notes/dtp.rs.
use efcp.Prelude.{
  ℕ, suc, ◌+◌, ◌<◌, ◌^◌, ◌≡◌, refl, sym, subst, ap, ◌∙◌, Bool, true, false, List, [], ◌∷◌, ◌++◌,
  arith, length, replicate, Option, none, some, Bool-cases, inl, inr, ◌⊎◌, append_assoc, append-nil,
  map,
}
use efcp.Outcome.{Outcome}
use efcp.Bytes.{BytesMut, BigEndian}
use efcp.Notes.Packet.{Packet}
use efcp.Notes.Control.{
  Dtcp, RetransmissionControl, RateFlowControl, WindowFlowControl, in_send_window, window_open,
  holds,
}
use efcp.Notes.Flow.{Dtp, SendError, send_packet}
use efcp.Notes.Fields.{Says}
use efcp.Notes.Registering.{
  FitsRate, counted, retransmits, registered, quieted, in_send_window-suc, in_send_window-window,
}
use efcp.Notes.Sending.{verdict, counting_up, flow, registers, waits, length-snoc}

plus_zero : (n : ℕ) → n ≡ n + 0
plus_zero n = omega arith

plus_suc : (n k : ℕ) → suc n + k ≡ n + suc k
plus_suc n k = omega arith

FitsRate-counted : (r : Option RateFlowControl) → FitsRate r → FitsRate (counted r)
unfolding FitsRate
FitsRate-counted none f = f
FitsRate-counted (some r) f = f

retransmits-nil : {b : BytesMut} (r : Option (RetransmissionControl b)) → r ≡ retransmits [] r
retransmits-nil none = refl
retransmits-nil (some r) =
    ap (λ q. some (record r { retransmission_queue = q })) (sym (append-nil r.retransmission_queue))

retransmits-cons :
    {b : BytesMut} (x : Packet b × ℕ) (xs : List (Packet b × ℕ))
    (r : Option (RetransmissionControl b))
    → retransmits xs (retransmits (x ∷ []) r) ≡ retransmits (x ∷ xs) r
retransmits-cons x xs none = refl
retransmits-cons x xs (some r) =
    ap (λ q. some (record r { retransmission_queue = q }))
      (append_assoc r.retransmission_queue (x ∷ []) xs)

module _ (b : BytesMut) (be : BigEndian) where
  -- Calls of `send_packet` at given instants, whatever they report.
  unfoldable pub send_all : List (ℕ × List ℕ) → Dtp b → List (Outcome SendError (Unit {0})) × Dtp b
  send_all [] s = ([], s)
  send_all ((now, xs) ∷ calls) s =
      let r = send_packet b be now xs s in let rest = send_all calls r.1 in (r.0 ∷ rest.0, rest.1)

  -- One packet for each call: the registered ones, with their instants and within the window, and then
  -- those that wait. The numbers go up from `n`, and the first packet has the flag `v`.
  pub Divided :
      Option WindowFlowControl
      → Bool
      → ℕ
      → List (ℕ × List ℕ)
      → List (Packet b × ℕ)
      → List (Packet b)
      → Type 0
  Divided w v n [] [] [] = Unit
  Divided w v n ((now, xs) ∷ calls) ((p, t) ∷ sent) queued =
      (t ≡ now)
      × (holds (window_open n) w ≡ true)
      × Says b be p v n xs
      × Divided w false (suc n) calls sent queued
  Divided w v n ((now, xs) ∷ calls) [] (p ∷ queued) =
      Says b be p v n xs × Divided w false (suc n) calls [] queued
  Divided w v n [] (x ∷ sent) queued = ⊥
  Divided w v n [] [] (p ∷ queued) = ⊥
  Divided w v n (c ∷ calls) [] [] = ⊥

  module _ (s : Dtp b) where
    abbrev reports :
        List (Packet b)
        → List (Packet b × ℕ)
        → List (Packet b)
        → List (Outcome SendError (Unit {0}))
    reports q sent queued =
        map (verdict s.max_closed_window_queue_len)
          (replicate (length sent) (length q) ++ counting_up (suc (length q)) (length queued))

    -- What a list of calls does to a flow with the handler `d`, the queue `q` and the next number `n`.
    abbrev pub Leaves :
        Dtcp b
        → List (Packet b)
        → ℕ
        → List (ℕ × List ℕ)
        → List (Outcome SendError (Unit {0})) × Dtp b
        → Type 0
    Leaves d q n calls r =
        (sent : List (Packet b × ℕ)) × (queued : List (Packet b)) × (d' : Dtcp b) × Divided d.window
          d.set_drf_flag n calls sent queued
        × (r.1 ≡ flow b be s d' (q ++ queued) (n + length calls))
        × (d'.retx ≡ retransmits sent d.retx)
        × ((queued ≡ []) ⊎ (in_send_window (n + length sent) d' ≡ false))
        × (r.0 ≡ reports q sent queued)

    flow_behind :
        (d : Dtcp b) (q queued : List (Packet b)) (p : Packet b) (n k : ℕ)
        → flow b be s d ((q ++ p ∷ []) ++ queued) (suc n + k)
          ≡ flow b be s d (q ++ p ∷ queued) (n + suc k)
    flow_behind d q queued p n k =
        λ i. flow b be s d (append_assoc q (p ∷ []) queued i) (plus_suc n k i)

    shut_run :
        (calls : List (ℕ × List ℕ)) (d : Dtcp b) (q : List (Packet b)) (n : ℕ)
        → n + length calls < 2 ^ 64
        → in_send_window n (quieted d) ≡ false
        → (queued : List (Packet b)) × (v : Bool) × Divided d.window d.set_drf_flag n calls []
            queued
          × ((send_all calls (flow b be s d q n)).1
              ≡ flow b be s (record d { set_drf_flag = v }) (q ++ queued) (n + length calls))
          × ((send_all calls (flow b be s d q n)).0 ≡ reports q [] queued)
    unfolding Divided send_all
    shut_run [] d q n room shut =
        ([], d.set_drf_flag, tt, rw (append-nil q) (ap (flow b be s d q) (plus_zero n)), refl)
    shut_run ((now, xs) ∷ calls) d q n room shut =
        let (p, says, step) = waits b be s now xs d q n (omega arith) shut in
        let (queued, v, divided, ends, reported) =
          shut_run calls (quieted d) (q ++ p ∷ []) (suc n) (omega arith)
            (in_send_window-suc n (quieted d) shut) in
        (
          p ∷ queued,
          v,
          (says, divided),
          rw step (ends ∙ flow_behind (record d { set_drf_flag = v }) q queued p n (length calls)),
          rw step (rw (reported, length-snoc q p) refl),
        )

    open_run :
        (now : ℕ) (xs : List ℕ) (calls : List (ℕ × List ℕ)) (d : Dtcp b) (q : List (Packet b))
        (n : ℕ)
        → n + suc (length calls) < 2 ^ 64
        → FitsRate d.rate
        → in_send_window n (quieted d) ≡ true
        → ((p : Packet b)
            → Leaves
                (registered now p d)
                q
                (suc n)
                calls
                (send_all calls (flow b be s (registered now p d) q (suc n))))
        → Leaves d q n ((now, xs) ∷ calls) (send_all ((now, xs) ∷ calls) (flow b be s d q n))
    unfolding send_all Divided
    open_run now xs calls d q n room f isopen rest =
        let (p, says, step) = registers b be s now xs d q n (omega arith) f isopen in
        let (sent, queued, d', divided, ends, retx, why, reported) = rest p in
        (
          (p, now) ∷ sent,
          queued,
          d',
          (refl, in_send_window-window n (quieted d) isopen, says, divided),
          rw step (ends ∙ ap (flow b be s d' (q ++ queued)) (plus_suc n (length calls))),
          retx ∙ retransmits-cons (p, now) sent d.retx,
          subst (λ m. (queued ≡ []) ⊎ (in_send_window m d' ≡ false)) (plus_suc n (length sent)) why,
          rw step (rw reported refl),
        )

    run_lem :
        (calls : List (ℕ × List ℕ)) (d : Dtcp b) (q : List (Packet b)) (n : ℕ)
        → n + length calls < 2 ^ 64
        → FitsRate d.rate
        → Leaves d q n calls (send_all calls (flow b be s d q n))
    unfolding send_all Divided in_send_window
    run_lem [] d q n room f = (
      [],
      [],
      d,
      tt,
      rw (append-nil q) (ap (flow b be s d q) (plus_zero n)),
      retransmits-nil d.retx,
      inl refl,
      refl,
    )
    run_lem ((now, xs) ∷ calls) d q n room f = elim (Bool-cases (in_send_window n (quieted d))) [
      | inl isopen ↦ open_run now xs calls d q n room f isopen λ p.
          run_lem calls (registered now p d) q (suc n) (omega arith) (FitsRate-counted d.rate f)
      | inr shut ↦
          let (queued, v, divided, ends, reported) = shut_run ((now, xs) ∷ calls) d q n room shut in
          (
            [],
            queued,
            record d { set_drf_flag = v },
            divided,
            ends,
            retransmits-nil d.retx,
            inr (subst (λ m. in_send_window m (quieted d) ≡ false) (plus_zero n) shut),
            reported,
          )
    ]

  -- For a flow with a handler whose sending rate is a `u32`, and a list of calls after which the next
  -- sequence number is still a `u64`: the calls make one packet each, numbered in the order of the
  -- calls, the first with the handler's data run flag and the others without. A prefix of them lies
  -- within the window and is appended to the retransmission queue, if the handler has one, with the
  -- instants of the calls; the others are appended to the queue of the closed window, and if there are
  -- any the handler refuses the number behind the prefix. Each call reports
  -- `MaxClosedWindowQueue` exactly if that queue is then longer than its limit, and no call panics.
  pub send_all-Divided :
      (calls : List (ℕ × List ℕ)) (s : Dtp b) (d : Dtcp b)
      → s.sequence_number + length calls < 2 ^ 64
      → FitsRate d.rate
      → Leaves s d s.closed_window_queue s.sequence_number calls
          (send_all calls (record s { dtcp = some d }))
  send_all-Divided calls s d room f =
      run_lem s calls d s.closed_window_queue s.sequence_number room f
