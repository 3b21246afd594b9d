-- ===== src/Handshake/Replies.antt =====
-- The replies of a negotiation that is not finished yet, and the bytes of the packets that carry them.
use efcp.Prelude.{
  ℕ, zero, suc, ◌≤◌, ◌≡◌, refl, subst, inl, inr, true, false, List, [], ◌∷◌, append-nil, Option,
  none, some, arith, length, length-append, All, get_elem?, Option-cases, Bool-cases, leb,
}
use efcp.Outcome.{Outcome, ok, IoError}
use efcp.Outcome.Ensures.{Ensures, Ensures-bind}
use efcp.Text.{Str, is_utf8, find}
use efcp.Addr.{Addr, IpText, to_string}
use efcp.Negotiation.{Negotiation, propose, message}
use efcp.Negotiation.Message.{Message}
use efcp.HandshakePacket.{
  HandshakePacket, from_bytes, to_bytes, write_str, write_negotiate, write_addr, new,
}
use efcp.HandshakePacket.RoundTrip.{IsText, IsShortAddr, from_bytes-to_bytes}

abbrev pub IsShort : Str → Type 0
IsShort s = (is_utf8 s ≡ true) × (length s ≤ 255)

-- A side that still negotiates, over protocols that a packet can carry.
pub record IsOpen (n : Negotiation) : Type 0 where
  pub unfinished : n.finished ≡ false
  pub short : All IsShort n.protocols

get_elem?-IsShort :
    (ps : List Str) (i : ℕ) {p : Str} → All IsShort ps → get_elem? ps i ≡ some p → IsShort p
get_elem?-IsShort [] i h e = cc
get_elem?-IsShort (q ∷ ps) zero h e = ground arith
get_elem?-IsShort (q ∷ ps) (suc i) h e = get_elem?-IsShort ps i h.1 e

-- A reply that ends the negotiation of the side that makes it.
pub data Closing : Message → Type 0 where
  accepts : Closing Message.accept
  fails : Closing Message.fail

-- The reply to a proposal: a counter-proposal leaves the negotiation open, any other reply ends it.
pub data Replies (m : Message) (n : Negotiation) : Type 0 where
  counter : (q : Str) → m ≡ Message.propose q → IsShort q → IsOpen n → Replies m n
  close : Closing m → n.finished ≡ true → Replies m n

pub propose-Replies :
    {R : Type 0} (p : Str) (n n' : Negotiation) (r : Option Message)
    → IsOpen n
    → message {R = R} (Message.propose p) n ≡ (ok r, n')
    → (m : Message) × (r ≡ some m) × Replies m n'
unfolding message propose
propose-Replies p n n' r o e = elim (Option-cases n.accepted) [
  | inr (q, old) ↦ absurd (ground arith)
  | inl old ↦ elim (Option-cases (find n.protocols p)) [
    | inr (q, found) ↦ (Message.accept, ground arith, close accepts (ground arith))
    | inl missing ↦ elim (Option-cases (get_elem? n.protocols n.tried)) [
      | inr (q, next) ↦ (
        Message.propose q,
        ground arith,
        counter q refl (get_elem?-IsShort n.protocols n.tried o.short next) (record {
          unfinished = ground arith;
          short = (let same : n'.protocols ≡ n.protocols = ground arith in rw same o.short);
        }),
      )
      | inl out ↦ (Message.fail, ground arith, close fails (ground arith))
    ]
  ]
]

-- A closing message has no reply, and ends the negotiation.
pub Closing-reply :
    {R : Type 0} (m : Message) (n : Negotiation)
    → Closing m
    → (n' : Negotiation) × (message {R = R} m n ≡ (ok none, n')) × (n'.finished ≡ true)
unfolding message
Closing-reply _ n accepts = (_, refl, refl)
Closing-reply _ n fails = (_, refl, refl)

-- The most bytes of a packet: the first byte, and two texts with their lengths.
abbrev pub packet_len : ℕ
packet_len = 513

abbrev Bounds : {A : Type 0} → (A → Type 0) → Outcome IoError A → Type 0
Bounds = Ensures (λ e. Unit {0})

write_str-Bounds : (s : Str) → Bounds (λ t. length t ≤ 256) (write_str s)
unfolding write_str
write_str-Bounds s = elim (Bool-cases (leb (length s) 255)) [
  | inl f ↦ rw f (ground arith)
  | inr f ↦ rw f tt
]

abbrev IsHead : ℕ × List ℕ → Type 0
IsHead (h, t) = length t ≤ 256

write_negotiate-Bounds : (m : Option Message) → Bounds IsHead (write_negotiate m)
unfolding write_negotiate
write_negotiate-Bounds none = omega arith
write_negotiate-Bounds (some (Message.propose s)) =
    Ensures-bind _ _ IsHead (write_str s) _ (write_str-Bounds s) (λ t h. h)
write_negotiate-Bounds (some Message.accept) = omega arith
write_negotiate-Bounds (some Message.fail) = omega arith

module _ (net : IpText) where
  abbrev Fits : List ℕ → Type 0
  Fits bs = length bs ≤ packet_len

  write_addr-Bounds :
      (o : Option Addr) (h : ℕ × List ℕ) → IsHead h → Bounds Fits (write_addr net o h)
  unfolding write_addr
  write_addr-Bounds none (ty, t) b = omega arith
  write_addr-Bounds (some a) (ty, t) b =
      Ensures-bind _ _ Fits (write_str (to_string net a)) _ (write_str-Bounds (to_string net a))
        λ u h. omega (arith, length-append t u)

  to_bytes-Bounds : (p : HandshakePacket) → Bounds Fits (to_bytes net p)
  unfolding to_bytes
  to_bytes-Bounds p =
      Ensures-bind _ IsHead Fits (write_negotiate p.negotiate) _
        (write_negotiate-Bounds p.negotiate) λ h b. write_addr-Bounds p.external_addr h b

  -- The bytes of a packet, which are read back.
  pub record Coded (m : Option Message) (o : Option Addr) (bs : List ℕ) : Type 0 where
    pub written : to_bytes net (new m o) ≡ ok bs
    pub read : from_bytes net bs ≡ ok (new m o)
    pub fits : length bs ≤ packet_len

  pub encode :
      (m : Option Message) (o : Option Addr)
      → IsText m
      → IsShortAddr net o
      → (bs : List ℕ) × Coded m o bs
  unfolding new
  encode m o t a =
      let p : HandshakePacket = record { negotiate = m; external_addr = o } in
      let (bs, wrote, reads) = from_bytes-to_bytes net p (record { text = t; addr = a }) in
      let fits : length bs ≤ packet_len = subst (Bounds Fits) wrote (to_bytes-Bounds p) in
      (
        bs,
        record {
          written = wrote;
          read = subst (λ cs. from_bytes net cs ≡ ok p) (append-nil bs) (reads []);
          fits = fits;
        },
      )
