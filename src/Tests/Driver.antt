-- ===== src/Tests/Driver.antt =====
-- The handshake at concrete inputs. A message of the session is the sender's key and the payload in the
-- clear; the session's secret is the sum of the two keys.
use efcp.Prelude.{
  ℕ, zero, suc, ◌+◌, ◌<◌, ◌≡◌, refl, false, List, [], ◌∷◌, Option, none, some, arith, leb,
}
use efcp.Outcome.{Outcome, ok, err}
use efcp.Handshake.Noise.{Noise, Passes}
use efcp.Text.{Str, is_utf8, decimal}
use efcp.Addr.{Addr, v4, to_string}
use efcp.Channel.Buffer.{bytes_packet-IsPacket}
use efcp.Channel.Loopback.{loopback}
use efcp.HandshakePacket.RoundTrip.{IsShortAddr}
use efcp.Negotiation.Choice.{choice}
use efcp.Handshake.Transport.{Stack, IsStack}
use efcp.Handshake.Exchange.{rounds, start}
use efcp.Handshake.Outcomes.{Agree}
use efcp.Handshake.Agreement.{rounds-Agree}
use efcp.Handshake.Layers.{Timed, Plain, Sealed, efcp_stack}
use efcp.Handshake.Loop.{Apart, OnTurn, SealedTurn, efcp_stack-IsStack}
use efcp.Tests.Instances.{Room, letters, digits, buffers, big_endian}
use efcp.Tests.Secure.{signing, plain}

-- The count of messages, the own key, and the key of the other side.
abbrev pub Side : Type 0
Side = ℕ × ℕ × Option ℕ

abbrev pub write : Side → List ℕ → List ℕ × Side
write (n, own, other) xs = (own ∷ xs, (suc n, own, other))

abbrev pub read : Side → List ℕ → Outcome ℕ (List ℕ) × Side
read s [] = (err 0, s)
read (n, own, other) (k ∷ xs) = (ok xs, (suc n, own, some k))

abbrev pub secret : Side → ℕ
secret (n, own, none) = own
secret (n, own, some k) = own + k

-- The listener knows the dialer from the first message on.
abbrev pub met : ℕ → ℕ → Option ℕ
met zero k = none
met (suc n) k = some k

abbrev pub Joined : ℕ → ℕ → ℕ → Side → Side → Type 0
Joined n i r a b = (a ≡ (n, i, some r)) × (b ≡ (n, r, met n i))

pub forth :
    (n i r : ℕ) (a b : Side) (xs : List ℕ)
    → Joined n i r a b
    → Passes write read (λ a' b'. Joined (suc n) i r a' b') a b xs
forth n i r a b xs (ea, eb) = ((suc n, r, some i), rw (ea, eb) refl, (rw ea refl, refl))

pub back :
    (n i r : ℕ) (a b : Side) (xs : List ℕ)
    → Joined (suc n) i r a b
    → Passes write read (λ b' a'. Joined (suc (suc n)) i r a' b') b a xs
back n i r a b xs (ea, eb) = ((suc (suc n), i, some r), rw (ea, eb) refl, (refl, rw eb refl))

pub counts :
    (n i r : ℕ) (a b : Side) → Joined n i r a b → n < 3 → (leb 3 a.0 ≡ false) × (leb 3 b.0 ≡ false)
counts n i r a b (ea, eb) h = (rw ea (ground arith), rw eb (ground arith))

abbrev pub clear : Noise signing
clear = record {
  Keypair = ℕ;
  PublicKey = ℕ;
  Session = Side;
  public = λ k. k;
  initiator = λ k r. (0, k, some r);
  responder = λ k. (0, k, none);
  write_message = write;
  read_message = read;
  is_handshake_finished = λ s. leb 3 s.0;
  get_remote_static = λ s. s.2;
  into_stateless = secret;
  overhead = 1;
  Joined = Joined;
  length-write_message = λ s xs. omega arith;
  joined_new = λ i r. (refl, refl);
  first = forth 0;
  second = back 0;
  third = forth 2;
  unfinished = counts;
  finished = λ i r a b (ea, eb). (rw ea refl, rw eb refl);
  remote_statics = λ i r a b (ea, eb). (rw ea refl, rw eb refl);
  transports = λ i r a b (ea, eb). (rw (ea, eb) (omega arith), rw (ea, eb) (omega arith));
}

abbrev wire :
    Stack ℕ
      (Timed (Unit {0}))
      (Plain signing (λ n. n) big_endian plain (λ (u : Unit {0}). loopback))
      (Sealed signing (λ n. n) big_endian plain (λ (u : Unit {0}). loopback))
      (List Room)
wire = efcp_stack signing (λ n. n) big_endian plain (λ (u : Unit {0}). loopback)

abbrev handle : Timed (Unit {0})
handle = record { inner = tt; ticks = 0 }

wire-IsStack :
    IsStack wire 600 signing.Peers
      (Apart signing (λ n. n) big_endian plain (bytes_packet-IsPacket buffers))
      (OnTurn signing (λ n. n) big_endian plain (bytes_packet-IsPacket buffers))
      (SealedTurn signing (λ n. n) big_endian plain (bytes_packet-IsPacket buffers))
wire-IsStack =
    efcp_stack-IsStack signing (λ n. n) big_endian plain (bytes_packet-IsPacket buffers) 600
      (λ n h. tt) (λ n h. tt)

efcp_stack-IsStack_example :
    IsStack wire 600 signing.Peers
      (Apart signing (λ n. n) big_endian plain (bytes_packet-IsPacket buffers))
      (OnTurn signing (λ n. n) big_endian plain (bytes_packet-IsPacket buffers))
      (SealedTurn signing (λ n. n) big_endian plain (bytes_packet-IsPacket buffers))
efcp_stack-IsStack_example =
    efcp_stack-IsStack signing (λ n. n) big_endian plain (bytes_packet-IsPacket buffers) 600
      (λ n h. tt) (λ n h. tt)

abbrev mine : List Str
mine = (b't' ∷ b'c' ∷ b'p' ∷ []) ∷ (b's' ∷ b's' ∷ b'h' ∷ []) ∷ []

abbrev yours : List Str
yours = (b's' ∷ b's' ∷ b'h' ∷ []) ∷ []

abbrev seen : Addr
seen = record { ip = v4 0x7f000001; port = 8000 }

seen-short : IsShortAddr letters (some seen)
unfolding to_string letters digits decimal
seen-short = (record { ip_fits = omega arith; port_fits = omega arith }, omega arith)

rounds-Agree_example :
    Agree letters clear wire 3 4 seen
      (choice mine yours)
      (rounds letters clear wire 9 (start letters clear wire handle handle 3 4 mine yours seen []))
unfolding is_utf8
rounds-Agree_example =
    rounds-Agree letters clear wire wire-IsStack (omega arith) 3 4 seen seen-short 9 handle handle
      mine yours [] refl ((refl, omega arith), ((refl, omega arith), tt)) ((refl, omega arith), tt)
      (omega arith) (omega arith) (omega arith)
