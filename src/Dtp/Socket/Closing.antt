-- ===== src/Dtp/Socket/Closing.antt =====
-- What `close` of dtp/src/dtp.rs does to the set of taken channels, in any state of the socket.
use efcp.Prelude.{ℕ, ◌≡◌, refl, ap, ◌∙◌, false, inl, inr, Option-cases, Option, none, some}
use efcp.Outcome.{Outcome, ok, err, panic, pending, IoError}
use efcp.Outcome.Exec.{continue}
use efcp.Dtp.Socket.Defs.{
  Crates, InnerDtpSocket, outgoing, close, forget, connection_id, discard, update,
}
use efcp.Dtp.Socket.Key.{Channel}
use efcp.Dtp.Socket.Keys.{update_self}

module _ (c : Crates) where
  connection_id-channels :
      (ch : Channel) (s : InnerDtpSocket c) → (connection_id c ch s).1.channels ≡ s.channels
  unfolding connection_id
  connection_id-channels ch s = elim (Option-cases (s.channel_lookup ch)) [
    | inl e ↦ rw (connection_id, e) refl
    | inr (k, e) ↦ rw (connection_id, e) refl
  ]

  discard-channels :
      (ch : Channel) (o : Option ℕ) (s : InnerDtpSocket c)
      → (discard c ch o s).1.channels ≡ s.channels
  unfolding discard
  discard-channels ch none s = refl
  discard-channels ch (some k) s = elim (Option-cases (c.slab.remove s.connections k)) [
    | inl e ↦ rw (discard, e) refl
    | inr (conns, e) ↦ rw (discard, e) refl
  ]

  after_id :
      (ch : Channel) (r : Outcome IoError (Option ℕ)) (s : InnerDtpSocket c)
      → s.channels ch ≡ false
      → (continue r (λ conn_id. discard c ch conn_id) s).1.channels ch ≡ false
  after_id ch (ok o) s e = ap (λ f. f ch) (discard-channels ch o s) ∙ e
  after_id ch (err x) s e = e
  after_id ch panic s e = e
  after_id ch pending s e = e

  pub close-channels : (ch : Channel) (s : InnerDtpSocket c) → (close c ch s).1.channels ch ≡ false
  unfolding close forget
  close-channels ch s =
      let s' : InnerDtpSocket c = record s { channels = update ch false s.channels } in
      after_id ch (connection_id c ch s').0 (connection_id c ch s').1
        (ap (λ f. f ch) (connection_id-channels ch s') ∙ update_self ch false s.channels)

  pub reopens :
      (ch : Channel) (s : InnerDtpSocket c)
      → s.channels ch ≡ false
      → (outgoing c ch.peer_addr ch.channel_id s).0 ≡ ok ch
  unfolding outgoing
  reopens ch s e = rw (outgoing, e) refl
