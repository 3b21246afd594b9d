-- ===== src/Handshake/Layers.antt =====
-- The channels of efcp/src/lib.rs: a `DtcpChannel` over a channel below for the first loop, and a
-- `DtcpChannel` over a `DiscoChannel` over the channel below behind it. The handle of the channel below
-- is a `K`, and what it works on a `W`. A channel counts how often it has read the clock.
use efcp.Prelude.{ℕ, ◌+◌, List}
use efcp.Outcome.{Outcome, ok, IoError, ◌>>=◌}
use efcp.Outcome.Exec.{Exec, continue, lift}
use efcp.Bytes.{BigEndian}
use efcp.Channel.{BasePacket, from_payload}
use efcp.Channel
use efcp.Dtcp.Packet.{dtcp_packet}
use efcp.Dtcp.Channel.{DtcpChannel, send, recv, unwrap}
use efcp.Dtcp.Builder
use efcp.Secure.{Disco, DiscoChannel, disco_packet}
use efcp.Secure
use efcp.Handshake.Transport.{Transport, Stack}

pub record Timed (A : Type 0) : Type 0 where
  pub inner : A
  pub ticks : ℕ

-- The channel below as the state of the channels above it, and back.
module _ {A B : Type 0} where
  abbrev pub over : DtcpChannel A → B → DtcpChannel B
  over ch b = record {
    channel = b;
    set_drf = ch.set_drf;
    seq_num = ch.seq_num;
    sit = ch.sit;
    rit = ch.rit;
  }

module _ (disco : Disco) {K W : Type 0} where
  abbrev pub session_over : DiscoChannel disco K → W → DiscoChannel disco W
  session_over ch w = record { state = ch.state; channel = w; nonce = ch.nonce }

-- `dtcp.build_channel(..)` with `DtcpBuilder::new()`.
unfoldable pub build : (ℕ → ℕ) → {A : Type 0} → A → ℕ → Outcome IoError (Timed (DtcpChannel A))
build clock a ticks = do
  ch ← Builder.build_channel Builder.new a (clock ticks) (clock (ticks + 1))
  ok (record { inner = ch; ticks = ticks + 2 })

module _ (clock : ℕ → ℕ) (be : BigEndian) {P : Type 0} (d : BasePacket P) {S : Type 0}
    (below : Channel.Channel S P) where
  -- `channel.send(bytes[..].into()).await` and `channel.recv().await?.payload()` of a `DtcpChannel`
  -- over `below`.
  unfoldable pub send_bytes : ℕ → List ℕ → Exec (DtcpChannel S) IoError (Unit {0})
  send_bytes ticks bs =
      continue (from_payload (dtcp_packet be d) bs)
        (λ p. send be d below (clock ticks) (clock (ticks + 1)) p)

  unfoldable pub recv_bytes : ℕ → Exec (DtcpChannel S) IoError (List ℕ)
  recv_bytes ticks ch =
      let r = recv be d below (clock ticks) (clock (ticks + 1)) ch in
      continue r.0 (λ packet. lift ((dtcp_packet be d).payload packet)) r.1

module _ (disco : Disco) (clock : ℕ → ℕ) (be : BigEndian) {P : Type 0} (d : BasePacket P)
    {K W : Type 0} (below : K → Channel.Channel W P) where
  abbrev pub Plain : Type 0
  Plain = Timed (DtcpChannel K)

  abbrev pub Sealed : Type 0
  Sealed = Timed (DtcpChannel (DiscoChannel disco K))

  -- The future works on the world; what it leaves is put back into the channel.
  abbrev pub leave_plain :
      {A : Type 0} → Plain → Outcome IoError A × DtcpChannel W → Outcome IoError A × (Plain × W)
  leave_plain l (r, ch) =
      (r, (record { inner = over ch l.inner.channel; ticks = l.ticks + 2 }, ch.channel))

  abbrev pub plain : Transport Plain W
  plain = record {
    send = λ bs (l, w).
        leave_plain l (send_bytes clock be d (below l.inner.channel) l.ticks bs (over l.inner w));
    recv = λ (l, w).
        leave_plain l (recv_bytes clock be d (below l.inner.channel) l.ticks (over l.inner w));
  }

  -- `DiscoChannel` as a channel.
  abbrev pub disco_channel : K → Channel.Channel (DiscoChannel disco W) P
  disco_channel k = record {
    send = Secure.send disco be d (below k);
    recv = Secure.recv disco be d (below k);
  }

  abbrev pub leave_sealed :
      {A : Type 0}
      → Sealed
      → Outcome IoError A × DtcpChannel (DiscoChannel disco W)
      → Outcome IoError A × (Sealed × W)
  leave_sealed m (r, ch) = (
    r,
    (
      record {
        inner = over ch (session_over disco ch.channel m.inner.channel.channel);
        ticks = m.ticks + 2;
      },
      ch.channel.channel,
    ),
  )

  abbrev pub enter_sealed : Sealed → W → DtcpChannel (DiscoChannel disco W)
  enter_sealed m w = over m.inner (session_over disco m.inner.channel w)

  abbrev pub sealed : Transport Sealed W
  sealed = record {
    send = λ bs (m, w). leave_sealed m (
        send_bytes clock be (disco_packet disco be d) (disco_channel m.inner.channel.channel)
          m.ticks bs (enter_sealed m w));
    recv = λ (m, w). leave_sealed m (
        recv_bytes clock be (disco_packet disco be d) (disco_channel m.inner.channel.channel)
          m.ticks (enter_sealed m w));
  }

  -- What `efcp` stacks on a channel below with the handle `K` that has read the clock `ticks` times.
  unfoldable pub efcp_stack : Stack disco.State (Timed K) Plain Sealed W
  unfolding build
  efcp_stack = record {
    wrap = λ c. build clock c.inner c.ticks;
    plain = plain;
    seal = λ l state. build clock (Secure.new disco (unwrap l.inner) state) l.ticks;
    sealed = sealed;
  }
