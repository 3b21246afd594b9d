-- ===== src/Dtp/Udp.antt =====
-- `UdpEcnSocket` of dtp/src/udp.rs over the kernel. The kernel is the list of what the next calls of
-- `recvmsg` bring, the answers of the next calls of `sendmsg`, and the datagrams sent so far.
use efcp.Prelude.{
  ℕ, ◌%◌, ◌^◌, Bool, true, false, List, [], ◌∷◌, ◌++◌, Option, none, some, if◌then◌else◌,
}
use efcp.Outcome.{Outcome, ok, err, panic, pending, IoError, other, would_block, os}
use efcp.Outcome.Exec.{Exec}
use efcp.Addr.{SocketAddr}
use efcp.Dtp.Ecn.{EcnCodepoint, ect0, ect1, ce}

pub record Datagram : Type 0 where
  pub addr : SocketAddr
  pub ecn : Option EcnCodepoint
  pub bytes : List ℕ

-- What `recv_ext` returns.
pub data Received : Type 0 where
  datagram : Datagram → Received
  failed : IoError → Received

pub record Kernel : Type 0 where
  pub inbox : List Received
  pub answers : List (Option IoError)
  pub outbox : List Datagram
  pub ttl : ℕ
  pub local : SocketAddr

-- With nothing to receive `recv_ext` fails with `WouldBlock`.
unfoldable pub recv_ext : Exec Kernel IoError Datagram
recv_ext k = elim k.inbox [
  | [] ↦ (err would_block, k)
  | r ∷ rest ↦ elim r [
    | datagram d ↦ (ok d, record k { inbox = rest })
    | failed e ↦ (err e, record k { inbox = rest })
  ]
]

-- A refused datagram is not sent. With no answer left the kernel takes the datagram.
unfoldable pub send_ext : Datagram → Exec Kernel IoError (Unit {0})
send_ext d k = elim k.answers [
  | [] ↦ (ok tt, record k { outbox = k.outbox ++ d ∷ [] })
  | a ∷ rest ↦ elim a [
    | none ↦ (ok tt, record k { answers = rest; outbox = k.outbox ++ d ∷ [] })
    | some e ↦ (err e, record k { answers = rest })
  ]
]

-- `Err(WouldBlock)` makes the task wait, and any other error is returned.
unfoldable pub poll_of : {A : Type 0} → Outcome IoError A → Outcome IoError A
poll_of (ok a) = ok a
poll_of (err would_block) = pending
poll_of (err (other e)) = err (other e)
poll_of (err (os n)) = err (os n)
poll_of panic = panic
poll_of pending = pending

-- Only the mark "congestion experienced" counts as congestion.
unfoldable pub is_ce : Option EcnCodepoint → Bool
is_ce (some ce) = true
is_ce (some ect0) = false
is_ce (some ect1) = false
is_ce none = false

-- `Ok((len, peer_addr, ecn))`
unfoldable pub mark : Outcome IoError Datagram → Outcome IoError (SocketAddr × List ℕ × Bool)
mark (ok d) = ok (d.addr, d.bytes, is_ce d.ecn)
mark (err e) = err e
mark panic = panic
mark pending = pending

unfoldable pub poll_recv : Exec Kernel IoError (SocketAddr × List ℕ × Bool)
unfolding recv_ext poll_of mark is_ce
poll_recv k = (poll_of (mark (recv_ext k).0), (recv_ext k).1)

unfoldable pub poll_send : SocketAddr → Bool → List ℕ → Exec Kernel IoError (Unit {0})
unfolding send_ext poll_of
poll_send addr ecn payload k =
    let d : Datagram = record {
      addr = addr;
      ecn = if ecn then some ect0 else none;
      bytes = payload;
    } in
    (poll_of (send_ext d k).0, (send_ext d k).1)

-- The `as u8` of `ttl`, and `set_ttl`.
unfoldable pub ttl : Exec Kernel IoError ℕ
ttl k = (ok (k.ttl % 2 ^ 8), k)

unfoldable pub set_ttl : ℕ → Exec Kernel IoError (Unit {0})
set_ttl n k = (ok tt, record k { ttl = n })

unfoldable pub local_addr : Exec Kernel IoError SocketAddr
local_addr k = (ok k.local, k)
