-- ===== src/Dtp/Ecn.antt =====
-- `EcnCodepoint` of dtp/src/platform/mod.rs.
use Prim.Native.Nat.{bit_and}
use efcp.Prelude.{ℕ, ◌≡◌, refl, Option, none, some, ◌==◌, if◌then◌else◌}

pub data EcnCodepoint : Type 0 where
  ect0 ect1 ce : EcnCodepoint

-- The discriminants, `x as c_int`.
unfoldable pub bits : EcnCodepoint → ℕ
bits ect0 = 0b10
bits ect1 = 0b01
bits ce = 0b11

unfoldable pub from_bits : ℕ → Option EcnCodepoint
from_bits x =
    let low = bit_and x 0b11 in
    if low == 0b10
    then some ect0
    else if low == 0b01
    then some ect1
    else if low == 0b11
    then some ce
    else none

-- The traffic class byte that carries a codepoint is read as that codepoint.
pub from_bits-bits : (c : EcnCodepoint) → from_bits (bits c) ≡ some c
unfolding from_bits bits
from_bits-bits ect0 = refl
from_bits-bits ect1 = refl
from_bits-bits ce = refl
