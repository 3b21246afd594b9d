-- ===== src/Addr/Total.antt =====
-- What the parser of addresses does on an arbitrary text.
use efcp.Prelude.{
  ℕ, suc, ◌<◌, ◌≡◌, ◌⊎◌, Option, ap, refl, List, [], ◌∷◌, none, some, arith, inl, inr, length,
  le→leb, Bool-cases, Option-cases,
}
use efcp.Outcome.{Outcome, ok, err, panic, pending, ◌>>=◌, map_err}
use efcp.Outcome.Ensures.{Ensures, Ensures-weaken}
use efcp.Text.{
  Str, str_eq, str_eq→eq, split, split-cons, parse_u16, ParseIntError, parse_u16-Ensures,
}
use efcp.Addr.Ip.{IpAddr, v4, v6, IpText}
use efcp.Addr.Defs.{
  Addr, AddrParseError, port_error, ip4, ip6, udp, read_ip, read_port, read_chunk, read_chunks,
  build, chunks, from_str,
}

abbrev Anything : {A : Type 0} → A → Type 0
Anything a = Unit

-- A number that `u16::from_str` reads from the text.
abbrev Reads : Str → ℕ → Type 0
Reads t port = (parse_u16 t ≡ ok port) × (port < 65536)

Ensures-both :
    {E A : Type 0} (Q : A → Type 0) (R : Type 0) (m : Outcome E A)
    → Ensures Anything Q m
    → R
    → Ensures Anything (λ a. R × Q a) m
Ensures-both Q R (ok a) h r = (r, h)
Ensures-both Q R (err e) h r = tt
Ensures-both Q R panic h r = h
Ensures-both Q R pending h r = h

module _ (net : IpText) where
  -- A protocol and the text of an address of that protocol.
  abbrev pub Names : Str → Str → IpAddr → Type 0
  Names k v ip =
      ((k ≡ ip4) × (a : ℕ) × (net.parse_v4 v ≡ some a) × (ip ≡ v4 a))
      ⊎ ((k ≡ ip6) × (a : ℕ) × (net.parse_v6 v ≡ some a) × (ip ≡ v6 a))

  -- The parts of a text, behind its first slash, that make an address.
  abbrev pub Spells : List Str → Addr → Type 0
  Spells parts a =
      (k v : Str) × Names k v a.ip
      × (((parts ≡ k ∷ v ∷ []) × (a.port ≡ 0))
          ⊎ ((t : Str) × (parts ≡ k ∷ v ∷ udp ∷ t ∷ [])
              × (parse_u16 t ≡ ok a.port)
              × (a.port < 65536)))

  read_ip-Names : (k v : Str) → Ensures Anything (Names k v) (read_ip net k v)
  unfolding read_ip
  read_ip-Names k v = elim (Bool-cases (str_eq k ip4)) [
    | inl four ↦ elim (Option-cases (net.parse_v4 v)) [
      | inl bad ↦ rw (four, bad) tt
      | inr (a, good) ↦ rw (four, good) (inl (str_eq→eq k ip4 four, a, good, refl))
    ]
    | inr other ↦ elim (Bool-cases (str_eq k ip6)) [
      | inl six ↦ elim (Option-cases (net.parse_v6 v)) [
        | inl bad ↦ rw (other, six, bad) tt
        | inr (a, good) ↦ rw (other, six, good) (inr (str_eq→eq k ip6 six, a, good, refl))
      ]
      | inr neither ↦ rw (other, neither) tt
    ]
  ]

  mapped-Reads :
      (t : Str) (r : Outcome ParseIntError ℕ)
      → parse_u16 t ≡ r
      → Ensures Anything (λ m. m < 65536) r
      → Ensures Anything (Reads t) (map_err port_error r)
  mapped-Reads t (ok n) e h = (e, h)
  mapped-Reads t (err x) e h = tt
  mapped-Reads t panic e h = h
  mapped-Reads t pending e h = h

  read_port-Reads : (k t : Str) → Ensures Anything (λ n. (k ≡ udp) × Reads t n) (read_port net k t)
  unfolding read_port
  read_port-Reads k t = elim (Bool-cases (str_eq k udp)) [
    | inr other ↦ rw other tt
    | inl same ↦ rw same (
        Ensures-both (Reads t) (k ≡ udp) _ (mapped-Reads t (parse_u16 t) refl (parse_u16-Ensures t))
          (str_eq→eq k udp same))
  ]

  -- What is behind the first slash, read to its end.
  abbrev read_parts : List Str → Outcome AddrParseError Addr
  read_parts parts = do s ← read_chunks net 0 (chunks parts) (none, none); build net s

  -- One round of the loop, of which `r` is the part that may fail.
  round-Ensures :
      {A : Type 0} (P : A → Type 0) (Q : Addr → Type 0) (r : Outcome AddrParseError A)
      (g : A → Option IpAddr × Option ℕ)
      (f : Option IpAddr × Option ℕ → Outcome AddrParseError (Option IpAddr × Option ℕ))
      → Ensures Anything P r
      → ((a : A) → P a → Ensures Anything Q (f (g a) >>= build net))
      → Ensures Anything Q (((r >>= λ a. ok (g a)) >>= f) >>= build net)
  round-Ensures P Q (ok a) g f h k = k a h
  round-Ensures P Q (err e) g f h k = tt
  round-Ensures P Q panic g f h k = h
  round-Ensures P Q pending g f h k = h

  abbrev first_round :
      (k v : Str) (ps : List (List Str)) (Q : Addr → Type 0)
      → ((a : IpAddr)
          → Names k v a
          → Ensures Anything Q (read_chunks net 1 ps (some a, none) >>= build net))
      → Ensures Anything Q
          (((read_ip net k v >>= λ a. ok (some a, none)) >>= read_chunks net 1 ps) >>= build net)
  first_round k v ps Q rest =
      round-Ensures (Names k v) Q (read_ip net k v) (λ a. (some a, none)) (read_chunks net 1 ps)
        (read_ip-Names k v) rest

  abbrev second_round :
      (k v u t : Str) (ps : List (List Str)) (a : IpAddr) (Q : Addr → Type 0)
      → ((n : ℕ)
          → (u ≡ udp) × Reads t n
          → Ensures Anything Q (read_chunks net 2 ps (some a, some n) >>= build net))
      → Ensures Anything Q (
          ((read_port net u t >>= λ n. ok (some a, some n)) >>= read_chunks net 2 ps) >>= build net)
  second_round k v u t ps a Q rest =
      round-Ensures (λ n. (u ≡ udp) × Reads t n) Q (read_port net u t) (λ n. (some a, some n))
        (read_chunks net 2 ps) (read_port-Reads u t) rest

  read_parts-Spells : (parts : List Str) → Ensures Anything (Spells parts) (read_parts parts)
  unfolding read_chunks read_chunk chunks build
  read_parts-Spells [] = tt
  read_parts-Spells (k ∷ []) = tt
  read_parts-Spells (k ∷ v ∷ []) =
      first_round k v [] (Spells (k ∷ v ∷ [])) λ a names. (k, v, names, inl (refl, refl))
  read_parts-Spells (k ∷ v ∷ u ∷ []) =
      first_round k v ((u ∷ []) ∷ []) (Spells (k ∷ v ∷ u ∷ [])) λ a names. tt
  read_parts-Spells (k ∷ v ∷ u ∷ t ∷ []) =
      let parts : List Str = k ∷ v ∷ u ∷ t ∷ [] in
      first_round k v ((u ∷ t ∷ []) ∷ []) (Spells parts) λ a names.
        second_round k v u t [] a (Spells parts) λ n (same, reads).
          (k, v, names, inr (t, ap (λ x. k ∷ v ∷ x ∷ t ∷ []) same, reads.0, reads.1))
  read_parts-Spells (k ∷ v ∷ u ∷ t ∷ x ∷ []) =
      let parts : List Str = k ∷ v ∷ u ∷ t ∷ x ∷ [] in
      first_round k v (chunks (u ∷ t ∷ x ∷ [])) (Spells parts)
        λ a names. second_round k v u t (chunks (x ∷ [])) a (Spells parts) λ n reads. tt
  read_parts-Spells (k ∷ v ∷ u ∷ t ∷ x ∷ y ∷ more) =
      let parts : List Str = k ∷ v ∷ u ∷ t ∷ x ∷ y ∷ more in
      first_round k v (chunks (u ∷ t ∷ x ∷ y ∷ more)) (Spells parts)
        λ a names. second_round k v u t (chunks (x ∷ y ∷ more)) a (Spells parts) λ n reads. tt

  -- On any text the parser returns an error or an address; it does not panic. It returns an
  -- address only for a text whose parts behind the first slash are `ip4` or `ip6` and an address of
  -- that protocol, which is the one returned, and then nothing, for port 0, or `udp` and the
  -- returned port, a `u16`.
  pub from_str-Ensures :
      (s : Str)
      → Ensures
          (λ e. Unit {0})
          (λ a.
            (front : Str) × (parts : List Str) × (split b'/' s ≡ front ∷ parts) × Spells parts a)
          (from_str net s)
  unfolding from_str
  from_str-Ensures s =
      let (front, parts, e) = split-cons b'/' s in
      rw (e, le→leb 1 (suc (length parts)) (omega arith))
        (Ensures-weaken Anything (Spells parts) _ (read_parts parts) (read_parts-Spells parts)
          λ a spells. (front, parts, refl, spells))
