-- ===== src/Text/Decimal.antt =====
-- Decimal numbers of the standard library: how an unsigned integer is displayed, and `u16::from_str`.
use efcp.Prelude.{
  ℕ, zero, suc, ◌+◌, ◌-◌, ◌*◌, ◌/◌, ◌%◌, ◌≤◌, ◌<◌, ◌≡◌, refl, ◌&&◌, [], ◌∷◌, arith, ltb, leb, ◌==◌,
  if◌then◌else◌, All, Bool-cases, inl, inr, ◌∙◌,
}
use efcp.Outcome.{Outcome, ok, err}
use efcp.Outcome.Ensures.{Ensures}
use efcp.Text.Equality.{Str}

pub data ParseIntError : Type 0 where
  empty invalid_digit pos_overflow : ParseIntError

-- The digits of `n` in front of `rest`; more fuel than `n` is enough.
digits : ℕ → ℕ → Str → Str
digits zero n rest = rest
digits (suc fuel) n rest =
    let more = digits fuel (n / 10) ((48 + n % 10) ∷ rest) in
    if ltb n 10 then (48 + n) ∷ rest else more

unfoldable pub decimal : ℕ → Str
unfolding digits
decimal n = digits (suc n) n []

-- The loop of `u16::from_str` over the digits.
from_digits : ℕ → Str → Outcome ParseIntError ℕ
from_digits n [] = ok n
from_digits n (c ∷ cs) =
    let m = n * 10 + (c - 48) in
    let rest = from_digits m cs in
    if leb 48 c && leb c 57
    then (if ltb m 65536 then rest else err pos_overflow)
    else err invalid_digit

-- A leading `+` is accepted before at least one digit.
unfoldable pub parse_u16 : Str → Outcome ParseIntError ℕ
unfolding from_digits
parse_u16 [] = err empty
parse_u16 (c ∷ []) = from_digits 0 (c ∷ [])
parse_u16 (c ∷ d ∷ cs) = if c == b'+' then from_digits 0 (d ∷ cs) else from_digits 0 (c ∷ d ∷ cs)

abbrev pub IsDigit : ℕ → Type 0
IsDigit c = (48 ≤ c) × (c ≤ 57)

digits-All : (fuel n : ℕ) (rest : Str) → All IsDigit rest → All IsDigit (digits fuel n rest)
unfolding digits
digits-All zero n rest h = h
digits-All (suc fuel) n rest h =
    ground (arith, digits-All fuel (n / 10) ((48 + n % 10) ∷ rest) ((omega arith, omega arith), h))

pub decimal-All : (n : ℕ) → All IsDigit (decimal n)
unfolding decimal
decimal-All n = digits-All (suc n) n [] tt

from_digits-digit :
    (m d n : ℕ) (rest : Str)
    → d ≤ 9
    → m * 10 + d ≡ n
    → n < 65536
    → from_digits m ((48 + d) ∷ rest) ≡ from_digits n rest
unfolding from_digits
from_digits-digit m d n rest h e b =
    let v : m * 10 + (48 + d - 48) ≡ n = omega arith in ground (arith, v)

from_digits-digits :
    (fuel n : ℕ) (rest : Str)
    → n < fuel
    → n < 65536
    → from_digits 0 (digits fuel n rest) ≡ from_digits n rest
unfolding from_digits digits
from_digits-digits zero n rest h b = absurd (omega arith)
from_digits-digits (suc fuel) n rest h b = elim (Bool-cases (ltb n 10)) [
  | inl e ↦ rw e (from_digits-digit 0 n n rest (ground arith) (omega arith) b)
  | inr e ↦ rw e (
      from_digits-digits fuel (n / 10) ((48 + n % 10) ∷ rest) (ground arith) (omega arith)
      ∙ from_digits-digit (n / 10) (n % 10) n rest (omega arith) (omega arith) b)
]

abbrev IsCons : Str → Type 0
IsCons s = (c : ℕ) × (cs : Str) × (s ≡ c ∷ cs)

digits-IsCons : (fuel n c : ℕ) (rest : Str) → IsCons (digits fuel n (c ∷ rest))
unfolding digits
digits-IsCons zero n c rest = (c, rest, refl)
digits-IsCons (suc fuel) n c rest = elim (Bool-cases (ltb n 10)) [
  | inl e ↦ rw e (_, _, refl)
  | inr e ↦ rw e (digits-IsCons fuel (n / 10) (48 + n % 10) (c ∷ rest))
]

pub decimal-IsCons : (n : ℕ) → IsCons (decimal n)
unfolding decimal
decimal-IsCons n = elim (Bool-cases (ltb n 10)) [
  | inl e ↦ rw e (_, _, refl)
  | inr e ↦ rw e (digits-IsCons n (n / 10) (48 + n % 10) [])
]

parse_u16-digits :
    (c : ℕ) (cs : Str) → All IsDigit (c ∷ cs) → parse_u16 (c ∷ cs) ≡ from_digits 0 (c ∷ cs)
unfolding parse_u16
parse_u16-digits c [] h = refl
parse_u16-digits c (d ∷ cs) h = ground arith

from_digits-decimal : (n : ℕ) → n < 65536 → from_digits 0 (decimal n) ≡ ok n
unfolding decimal from_digits
from_digits-decimal n b = from_digits-digits (suc n) n [] (omega arith) b

-- What `Display` prints of a `u16`, `u16::from_str` reads.
pub parse_u16-decimal : (n : ℕ) → n < 65536 → parse_u16 (decimal n) ≡ ok n
parse_u16-decimal n b =
    let (c, cs, e) = decimal-IsCons n in
    rw (e, parse_u16-digits c cs (rw e at (decimal-All n))) (rw e at (from_digits-decimal n b))

from_digits-Ensures :
    (n : ℕ) (s : Str) → n < 65536 → Ensures (λ e. Unit {0}) (λ m. m < 65536) (from_digits n s)
unfolding from_digits
from_digits-Ensures n [] h = h
from_digits-Ensures n (c ∷ s) h = ground (arith, from_digits-Ensures (n * 10 + (c - 48)) s)

-- `u16::from_str` returns a `u16` or an error.
pub parse_u16-Ensures : (s : Str) → Ensures (λ e. Unit {0}) (λ m. m < 65536) (parse_u16 s)
unfolding parse_u16
parse_u16-Ensures [] = tt
parse_u16-Ensures (c ∷ []) = from_digits-Ensures 0 (c ∷ []) (omega arith)
parse_u16-Ensures (c ∷ d ∷ s) =
    ground (arith, from_digits-Ensures 0 (d ∷ s), from_digits-Ensures 0 (c ∷ d ∷ s))
