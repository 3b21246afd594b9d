-- ===== src/Secure/Defs.antt =====
-- `DiscoPacket` and `DiscoChannel` of efcp/src/secure.rs.
use efcp.Prelude.{ℕ, ◌+◌, ◌%◌, ◌^◌}
use efcp.Outcome.{Outcome, IoError, other, map_err}
use efcp.Outcome.Exec.{Exec, pure, lift, ◌>>=◌}
use efcp.Bytes.{BigEndian}
use efcp.Channel.{BasePacket, parse}
use efcp.Channel
use efcp.Channel.Header.{payload_behind, store_behind}
use efcp.Secure.Session.{Disco}
use efcp.Secure.Packet.{disco_packet, nonce, set_nonce, tag, set_tag}

pub record DiscoChannel (disco : Disco) (C : Type 0) : Type 0 where
  pub state : disco.State
  pub channel : C
  pub nonce : ℕ

module _ (disco : Disco) {C : Type 0} where
  unfoldable pub new : C → disco.State → DiscoChannel disco C
  new channel state = record { state = state; channel = channel; nonce = 0 }

  -- `self.nonce.fetch_add(1, ..)` on an `AtomicU64`, which wraps.
  unfoldable pub fetch_add_nonce : Exec (DiscoChannel disco C) IoError ℕ
  fetch_add_nonce ch = (Outcome.ok ch.nonce, record ch { nonce = (ch.nonce + 1) % 2 ^ 64 })

  unfoldable pub state_of : Exec (DiscoChannel disco C) IoError disco.State
  state_of ch = (Outcome.ok ch.state, ch)

  unfoldable pub lower : {A : Type 0} → Exec C IoError A → Exec (DiscoChannel disco C) IoError A
  lower m ch = ((m ch.channel).0, record ch { channel = (m ch.channel).1 })

  module _ {P : Type 0} (be : BigEndian) (d : BasePacket P) (below : Channel.Channel C P) where
    -- `write_message` encrypts the payload in place: the payload is read, and what it became is stored.
    unfoldable pub send : P → Exec (DiscoChannel disco C) IoError (Unit {0})
    unfolding fetch_add_nonce state_of lower
    send packet = do
      n ← fetch_add_nonce
      numbered ← lift (set_nonce disco be d packet n)
      state ← state_of
      plain ← lift (payload_behind d (8 + disco.tag_len) numbered)
      hidden ←
          lift (store_behind d (8 + disco.tag_len) numbered (disco.write_message state n plain).0)
      tagged ← lift (set_tag disco d hidden (disco.write_message state n plain).1)
      lower (below.send tagged)

    unfoldable pub recv : Exec (DiscoChannel disco C) IoError P
    unfolding state_of lower
    recv = do
      packet ← lower below.recv
      parsed ← lift (parse (disco_packet disco be d) packet)
      n ← lift (nonce disco be d parsed)
      t ← lift (tag disco d parsed)
      state ← state_of
      hidden ← lift (payload_behind d (8 + disco.tag_len) parsed)
      plain ← lift (map_err (λ e. other (disco.debug e)) (disco.read_message state n hidden t))
      opened ← lift (store_behind d (8 + disco.tag_len) parsed plain)
      pure opened
