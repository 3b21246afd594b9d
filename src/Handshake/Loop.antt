-- ===== src/Handshake/Loop.antt =====
-- The stack of `efcp` over the loopback channel, which stands for the wire, at both ends.
use efcp.Prelude.{ℕ, ◌+◌, ◌*◌, ◌^◌, ◌≤◌, ◌<◌, ◌≡◌, refl, ap, true, false, List, [], arith, length}
use efcp.Outcome.{ok}
use efcp.Bytes.{BigEndian}
use efcp.Channel.{BasePacket, IsPacket}
use efcp.Channel.Loopback.{loopback}
use efcp.Dtcp.Channel.{DtcpChannel, unwrap}
use efcp.Dtcp.Builder
use efcp.Dtcp.Builder.{build_channel_lem, lifetime}
use efcp.Secure.{Disco, DiscoChannel, disco_packet}
use efcp.Secure
use efcp.Secure.Layer.{disco_packet-IsPacket}
use efcp.Handshake.Transport.{Delivers, IsStack}
use efcp.Handshake.Layers.{
  Timed, Plain, Sealed, plain, sealed, over, session_over, leave_plain, leave_sealed, enter_sealed,
  disco_channel, build, efcp_stack,
}
use efcp.Handshake.Stacking.{bytes_pass}
use efcp.Handshake.Wire.{loopback-Carries, disco-Carries, DiscoEnd}

-- A new channel: sequence number zero, whatever the clock says.
build_new :
    (clock : ℕ → ℕ) {A : Type 0} (a : A) (t : ℕ)
    → (ch : Timed (DtcpChannel A)) × (build clock a t ≡ ok ch)
      × (ch.inner.channel ≡ a)
      × (ch.inner.seq_num ≡ 0)
unfolding build Builder.new
build_new clock a t = (
  record {
    inner = record {
      channel = a;
      set_drf = true;
      seq_num = 0;
      sit = record { enable = false; start = clock t; interval = 2 * lifetime Builder.new };
      rit = record { enable = false; start = clock (t + 1); interval = 3 * lifetime Builder.new };
    };
    ticks = t + 2;
  },
  rw (build_channel_lem Builder.new a (clock t) (clock (t + 1)) (omega arith) (omega arith)) refl,
  refl,
  refl,
)

module _ (disco : Disco) (clock : ℕ → ℕ) (be : BigEndian) {P : Type 0} (d : BasePacket P)
    {Allows : ℕ → Type 0} (layer : IsPacket d Allows) where
  -- One wire for both ends.
  abbrev pub End : Type 0
  End = Plain disco clock be d (λ (u : Unit {0}). loopback)

  abbrev pub SealedEnd : Type 0
  SealedEnd = Sealed disco clock be d (λ (u : Unit {0}). loopback)

  abbrev pub OnTurn : End → End → List P → Type 0
  OnTurn a b w = (w ≡ []) × (a.inner.seq_num < 2 ^ 16) × (b.inner.seq_num < 2 ^ 16)

  module _ (limit : ℕ) (fits : (n : ℕ) → n ≤ limit → Allows (n + 3)) where
    plain_passes : Delivers limit (plain disco clock be d (λ (u : Unit {0}). loopback)) OnTurn
    plain_passes bs a b w short (e, small, small') =
        let (a', b', sends, recvs, empty, small_a, same) =
          bytes_pass clock be d layer loopback (λ s. s) (λ s' s''. s'' ≡ []) bs a.ticks b.ticks
            (over a.inner w) (over b.inner w) (loopback-Carries disco clock be d layer w e)
            (fits (length bs) short) small in
        (
          record { inner = over a' a.inner.channel; ticks = a.ticks + 2 },
          record { inner = over b' b.inner.channel; ticks = b.ticks + 2 },
          a'.channel,
          b'.channel,
          ap (leave_plain disco clock be d (λ (u : Unit {0}). loopback) a) sends,
          ap (leave_plain disco clock be d (λ (u : Unit {0}). loopback) b) recvs,
          (empty, omega (arith, same), small_a),
        )

  -- The two sealed ends: an empty wire, numbers in range, and sessions that belong together.
  pub record SealedTurn (a b : SealedEnd) (w : List P) : Type 0 where
    pub empty : w ≡ []
    pub small_seq : a.inner.seq_num < 2 ^ 16
    pub small_seq' : b.inner.seq_num < 2 ^ 16
    pub small_nonce : a.inner.channel.nonce < 2 ^ 64
    pub small_nonce' : b.inner.channel.nonce < 2 ^ 64
    pub peers : disco.Peers a.inner.channel.state b.inner.channel.state
    pub peers' : disco.Peers b.inner.channel.state a.inner.channel.state

  module _ (limit : ℕ) (fits : (n : ℕ) → n ≤ limit → Allows (n + 3 + (8 + disco.tag_len))) where
    sealed_passes : Delivers limit (sealed disco clock be d (λ (u : Unit {0}). loopback)) SealedTurn
    sealed_passes bs a b w short turn =
        let wire = λ (u : Unit {0}). loopback {P = P} in
        let to : DiscoEnd disco clock be d layer = session_over disco a.inner.channel w in
        let from : DiscoEnd disco clock be d layer = session_over disco b.inner.channel w in
        let (a', b', sends, recvs, (empty, nonce, state, small, state'), small_a, same) =
          bytes_pass clock be (disco_packet disco be d)
            (disco_packet-IsPacket disco be d Allows layer)
            (disco_channel disco clock be d wire a.inner.channel.channel)
            (λ s. record from { channel = s.channel })
            (λ s' s''.
              (s''.channel ≡ [])
              × (s''.nonce ≡ from.nonce)
              × (s''.state ≡ from.state)
              × (s'.nonce < 2 ^ 64)
              × (s'.state ≡ to.state))
            bs a.ticks b.ticks (enter_sealed disco clock be d wire a w)
            (enter_sealed disco clock be d wire b w)
            (disco-Carries disco clock be d layer a.inner.channel.channel a.inner.channel.channel to
              from turn.empty turn.small_nonce turn.peers)
            (fits (length bs) short) turn.small_seq in
        (
          (leave_sealed disco clock be d wire a (ok tt, a')).1.0,
          (leave_sealed disco clock be d wire b (ok tt, b')).1.0,
          a'.channel.channel,
          b'.channel.channel,
          ap (leave_sealed disco clock be d wire a) sends,
          ap (leave_sealed disco clock be d wire b) recvs,
          record {
            empty = empty;
            small_seq = omega (arith, same, turn.small_seq');
            small_seq' = small_a;
            small_nonce = omega (arith, nonce, turn.small_nonce');
            small_nonce' = small;
            peers = rw (state, state') turn.peers';
            peers' = rw (state, state') turn.peers;
          },
        )

  abbrev pub Apart : Timed (Unit {0}) → Timed (Unit {0}) → List P → Type 0
  Apart c c' w = w ≡ []

  -- The stack that `efcp` builds at the two ends of a loopback wire, over a layer that keeps the
  -- promises of packets and has room for payloads of up to `limit` bytes behind the headers, and
  -- with sessions of the disco crate: a new channel is ready, both channels deliver packets in
  -- turn, and sealing keeps the turn, for sessions that belong together.
  pub efcp_stack-IsStack :
      (limit : ℕ)
      → ((n : ℕ) → n ≤ limit → Allows (n + 3))
      → ((n : ℕ) → n ≤ limit → Allows (n + 3 + (8 + disco.tag_len)))
      → IsStack
          (efcp_stack disco clock be d (λ (u : Unit {0}). loopback))
          limit
          disco.Peers
          Apart
          OnTurn
          SealedTurn
  unfolding efcp_stack Secure.new
  efcp_stack-IsStack limit fits fits' = record {
    plain_delivers = plain_passes limit fits;
    sealed_delivers = sealed_passes limit fits';
    wraps = λ c c' w e.
        let (a, made, _, zero_a) = build_new clock c.inner c.ticks in
        let (b, made', _, zero_b) = build_new clock c'.inner c'.ticks in
        (a, b, made, made', (e, omega (arith, zero_a), omega (arith, zero_b)));
    seals = λ a b w s t turn p p'.
        let (x, made, same, zero_x) =
          build_new clock (Secure.new disco (unwrap a.inner) s) a.ticks in
        let (y, made', same', zero_y) =
          build_new clock (Secure.new disco (unwrap b.inner) t) b.ticks in
        (
          x,
          y,
          made,
          made',
          record {
            empty = turn.0;
            small_seq = omega (arith, zero_x);
            small_seq' = omega (arith, zero_y);
            small_nonce = rw same (omega arith);
            small_nonce' = rw same' (omega arith);
            peers = rw (same, same') p;
            peers' = rw (same, same') p';
          },
        );
  }
