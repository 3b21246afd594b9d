-- ===== src/Text/Utf8.antt =====
-- `core::str::from_utf8`: the well-formed byte sequences of the Unicode standard (its table 3-7).
use efcp.Prelude.{
  ℕ, zero, suc, ◌≡◌, refl, Bool, true, false, ◌&&◌, List, [], ◌∷◌, Option, none, some, leb, ◌==◌,
  if◌then◌else◌, All, arith, ◌≤◌,
}
use efcp.Text.Equality.{Str}

-- What the bytes read so far allow next: a range for the next byte, and how many plain continuation
-- bytes follow it. `start` stands between two characters.
pub data Expect : Type 0 where
  start : Expect
  cont : ℕ → ℕ → ℕ → Expect

abbrev between : ℕ → ℕ → ℕ → Bool
between lo hi b = leb lo b && leb b hi

-- The state after the first byte of a character.
lead : ℕ → Option Expect
lead b =
    if leb b 0x7f
    then some start
    else if between 0xc2 0xdf b
    then some (cont 0x80 0xbf 0)
    else if b == 0xe0
    then some (cont 0xa0 0xbf 1)
    else if b == 0xed
    then some (cont 0x80 0x9f 1)
    else if between 0xe1 0xef b
    then some (cont 0x80 0xbf 1)
    else if b == 0xf0
    then some (cont 0x90 0xbf 2)
    else if between 0xf1 0xf3 b
    then some (cont 0x80 0xbf 2)
    else if b == 0xf4
    then some (cont 0x80 0x8f 2)
    else none

next : Expect → ℕ → Option Expect
unfolding lead
next start b = lead b
next (cont lo hi zero) b = if between lo hi b then some start else none
next (cont lo hi (suc n)) b = if between lo hi b then some (cont 0x80 0xbf n) else none

scan : List ℕ → Expect → Bool
unfolding next
scan [] start = true
scan [] (cont lo hi n) = false
scan (b ∷ bs) s = elim (next s b) [ none ↦ false | some t ↦ scan bs t ]

unfoldable pub is_utf8 : List ℕ → Bool
unfolding scan
is_utf8 bs = scan bs start

unfoldable pub from_utf8 : List ℕ → Option Str
unfolding is_utf8
from_utf8 bs = if is_utf8 bs then some bs else none

abbrev pub IsAscii : ℕ → Type 0
IsAscii c = c ≤ 0x7f

-- Every ASCII text is well formed.
pub is_utf8-ascii : (s : Str) → All IsAscii s → is_utf8 s ≡ true
unfolding is_utf8
is_utf8-ascii [] h = refl
is_utf8-ascii (c ∷ s) h = ground (arith, is_utf8-ascii s h.1)

pub from_utf8-is_utf8 : (s : Str) → is_utf8 s ≡ true → from_utf8 s ≡ some s
unfolding from_utf8
from_utf8-is_utf8 s h = ground arith

ping : is_utf8 (0x2f ∷ 0x70 ∷ 0xc3 ∷ 0xa9 ∷ []) ≡ true
unfolding is_utf8
ping = refl

surrogate : is_utf8 (0xed ∷ 0xa0 ∷ 0x80 ∷ []) ≡ false
unfolding is_utf8
surrogate = refl
