-- ===== src/Handshake/Release.antt =====
-- The channel of a handshake that fails: the futures of `EfcpSocket::dial` and `EfcpSocket::incoming` from
-- their first poll to their last.
use efcp.Prelude.{List, [], ◌∷◌, ℕ, ◌≡◌, false, Option, none, some}
use efcp.Outcome.{Outcome, ok, err, panic, pending, IoError}
use efcp.Outcome.Exec.{Exec, continue, pure, ◌>>=◌}
use efcp.Bytes.{BigEndian}
use efcp.HandshakeError.{HandshakeError}
use efcp.Addr.{IpText}
use efcp.Dtp.Socket.{Channel, Crates, outgoing, close}
use efcp.Dtp.Socket.Closing.{close-channels, reopens}
use efcp.Dtp.Handle
use efcp.Secure.{Disco}
use efcp.Handshake.Noise.{Noise}
use efcp.Handshake.Socket.{
  World, Low, High, Result, stack, handle, owning, after_drop, on_dtp, dial, listen, poll_dial,
  poll_listen,
}
use efcp.Handshake.Defs.{
  Task, wait, finish, initiator, responder, resume_initiator, resume_responder,
}
use efcp.Text.{Str}

-- The future ended, and not with a value.
abbrev pub Fails : {E A : Type 0} → Outcome E A → Type 0
Fails (ok a) = ⊥
Fails (err e) = Unit
Fails panic = Unit
Fails pending = ⊥

pub data Role (PublicKey : Type 0) : Type 0 where
  dialer : PublicKey → Role PublicKey
  listener : Role PublicKey

module _ (net : IpText) {disco : Disco} (noise : Noise disco) (c : Crates) (clock : ℕ → ℕ)
    (be : BigEndian) (identity : noise.Keypair) (protocols : List Str) (ticks : ℕ) where
  abbrev State : Type 0
  State = World net noise c clock be

  abbrev Ended : Type 0
  Ended = Outcome (HandshakeError disco.ReadError) (Option (Result net noise c clock be)) × State

  abbrev Waiting : Type 0
  Waiting =
      Task noise.Session (Low net noise c clock be) noise.PublicKey (High net noise c clock be)

  -- A future for the channel `key` up to its first wait: `dial`, or what `incoming` does with a channel
  -- that it was given.
  unfoldable pub begin : Role noise.PublicKey → Channel → State → Ended
  begin (dialer remote) key = do
    turn ← dial net noise c clock be identity protocols ticks (record {
      peer_addr = key.peer_addr;
      channel = key.channel_id;
      remote_public = remote;
      protocols = [];
    })
    pure (some turn)
  begin listener key = listen net noise c clock be identity protocols ticks (some key)

  unfoldable pub later : Role noise.PublicKey → Channel → Waiting → State → Ended
  later (dialer remote) key task = do
    turn ← poll_dial net noise c clock be key task
    pure (some turn)
  later listener key task = do turn ← poll_listen net noise c clock be key task; pure (some turn)

  -- What a poll of `task` has left: a future that waits goes on.
  unfoldable pub proceed : (Waiting → State → Ended) → Waiting → Ended → Ended
  proceed go task (ok none, w) = (ok none, w)
  proceed go task (ok (some (wait task')), w) = go task' w
  proceed go task (ok (some (finish ch)), w) = (ok (some (finish ch)), w)
  proceed go task (err e, w) = (err e, w)
  proceed go task (panic, w) = (panic, w)
  proceed go task (pending, w) = go task w

  -- Later polls of a future. What others do to the sockets before each of them is `between`.
  unfoldable pub polls :
      Role noise.PublicKey → Channel → List (State → State) → Waiting → State → Ended
  unfolding later proceed
  polls role key [] task w = (ok (some (wait task)), w)
  polls role key (between ∷ rest) task w =
      proceed (polls role key rest) task (later role key task (between w))

  -- What the first poll has left. One that is pending before the first wait goes nowhere.
  unfoldable pub go_on : (Waiting → State → Ended) → Ended → Ended
  go_on go (ok none, w) = (ok none, w)
  go_on go (ok (some (wait task)), w) = go task w
  go_on go (ok (some (finish ch)), w) = (ok (some (finish ch)), w)
  go_on go (err e, w) = (err e, w)
  go_on go (panic, w) = (panic, w)
  go_on go (pending, w) = (pending, w)

  -- The whole future, from its first poll on.
  unfoldable pub handshake : Role noise.PublicKey → Channel → List (State → State) → State → Ended
  unfolding begin polls go_on
  handshake role key betweens w = go_on (polls role key betweens) (begin role key w)

  -- What fails leaves the channel free.
  abbrev Frees :
      {A : Type 0} → Channel → Outcome (HandshakeError disco.ReadError) A × State → Type 0
  Frees key r = Fails r.0 → r.1.channels key ≡ false

  after_drop-Frees :
      {A : Type 0} (key : Channel) (r : Outcome (HandshakeError disco.ReadError) A)
      (dropped : Outcome IoError (Unit {0})) (w : State)
      → w.channels key ≡ false
      → Frees key (after_drop net noise c clock be r (dropped, w))
  unfolding after_drop
  after_drop-Frees key r (ok u) w free f = free
  after_drop-Frees key r (err e) w free f = free
  after_drop-Frees key r panic w free f = free
  after_drop-Frees key r pending w free f = free

  owned-Frees :
      {A : Type 0} (key : Channel) (r : Outcome (HandshakeError disco.ReadError) A) (w old : State)
      → Frees key (owning net noise c clock be key (λ _. (r, w)) old)
  unfolding owning Handle.drop
  owned-Frees key (ok a) w old f = absurd f
  owned-Frees key (err e) w old f =
      after_drop-Frees key (err e) (close c key w).0 (close c key w).1 (close-channels c key w) f
  owned-Frees key panic w old f =
      after_drop-Frees key panic (close c key w).0 (close c key w).1 (close-channels c key w) f
  owned-Frees key pending w old f = absurd f

  owning-Frees :
      {A : Type 0} (key : Channel) (m : Exec State (HandshakeError disco.ReadError) A) (w : State)
      → Frees key (owning net noise c clock be key m w)
  unfolding owning
  owning-Frees key m w = owned-Frees key (m w).0 (m w).1 w

  some-Frees :
      (key : Channel) (r : Outcome (HandshakeError disco.ReadError) (Result net noise c clock be))
      (w : State)
      → Frees key (r, w)
      → Frees key (continue r (λ turn. pure (some turn)) w)
  some-Frees key (ok turn) w h f = absurd f
  some-Frees key (err e) w h f = h f
  some-Frees key panic w h f = h f
  some-Frees key pending w h f = absurd f

  later-Frees :
      (role : Role noise.PublicKey) (key : Channel) (task : Waiting) (w : State)
      → Frees key (later role key task w)
  unfolding later poll_dial poll_listen
  later-Frees (dialer remote) key task w =
      some-Frees key _ _
        (owning-Frees key (resume_initiator net noise (stack net noise c clock be) task) w)
  later-Frees listener key task w =
      some-Frees key _ _
        (owning-Frees key (resume_responder net noise (stack net noise c clock be) task) w)

  begin-Frees :
      (role : Role noise.PublicKey) (key : Channel) (w : State)
      → (outgoing c key.peer_addr key.channel_id w).0 ≡ ok key
      → Frees key (begin role key w)
  unfolding begin dial listen on_dtp
  begin-Frees (dialer remote) key w is = rw is (
      some-Frees key _ _ (
        owning-Frees key
          (initiator net noise (stack net noise c clock be) (handle net noise c clock be key ticks)
            identity protocols remote)
          (outgoing c key.peer_addr key.channel_id w).1))
  begin-Frees listener key w is = some-Frees key _ _ (
      owning-Frees key
        (responder net noise (stack net noise c clock be) (handle net noise c clock be key ticks)
          identity protocols (Handle.peer_addr c key))
        w)

  proceed-Frees :
      (key : Channel) (go : Waiting → State → Ended) (task : Waiting)
      (r : Outcome (HandshakeError disco.ReadError) (Option (Result net noise c clock be)))
      (w : State)
      → Frees key (r, w)
      → ((task' : Waiting) (w' : State) → Frees key (go task' w'))
      → Frees key (proceed go task (r, w))
  unfolding proceed
  proceed-Frees key go task (ok none) w h k f = h f
  proceed-Frees key go task (ok (some (wait task'))) w h k f = k task' w f
  proceed-Frees key go task (ok (some (finish ch))) w h k f = h f
  proceed-Frees key go task (err e) w h k f = h f
  proceed-Frees key go task panic w h k f = h f
  proceed-Frees key go task pending w h k f = k task w f

  polls-Frees :
      (role : Role noise.PublicKey) (key : Channel) (betweens : List (State → State))
      (task : Waiting) (w : State)
      → Frees key (polls role key betweens task w)
  unfolding polls
  polls-Frees role key [] task w = λ f. absurd f
  polls-Frees role key (between ∷ rest) task w =
      proceed-Frees key (polls role key rest) task (later role key task (between w)).0
        (later role key task (between w)).1 (later-Frees role key task (between w))
        (polls-Frees role key rest)

  go_on-Frees :
      (key : Channel) (go : Waiting → State → Ended)
      (r : Outcome (HandshakeError disco.ReadError) (Option (Result net noise c clock be)))
      (w : State)
      → Frees key (r, w)
      → ((task : Waiting) (w' : State) → Frees key (go task w'))
      → Frees key (go_on go (r, w))
  unfolding go_on
  go_on-Frees key go (ok none) w h k f = h f
  go_on-Frees key go (ok (some (wait task))) w h k f = k task w f
  go_on-Frees key go (ok (some (finish ch))) w h k f = h f
  go_on-Frees key go (err e) w h k f = h f
  go_on-Frees key go panic w h k f = h f
  go_on-Frees key go pending w h k f = h f

  -- A handshake on a channel that `outgoing` gives out, by `dial` or by the listener's future, and polled
  -- any number of times, with anything done to the socket between the polls: if it ends with an error
  -- or a panic, then `outgoing` gives the same channel out again. So the future has closed it.
  pub outgoing-handshake :
      (role : Role noise.PublicKey) (key : Channel) (betweens : List (State → State)) (s : State)
      → (outgoing c key.peer_addr key.channel_id s).0 ≡ ok key
      → Fails (handshake role key betweens s).0
      → (outgoing c key.peer_addr key.channel_id (handshake role key betweens s).1).0 ≡ ok key
  unfolding handshake
  outgoing-handshake role key betweens s free fails =
      reopens c key (handshake role key betweens s).1 (
        go_on-Frees key (polls role key betweens) (begin role key s).0 (begin role key s).1
          (begin-Frees role key s free) (polls-Frees role key betweens) fails)
