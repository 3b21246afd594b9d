-- ===== src/Tests/Instances.antt =====
-- Small implementations of the crates that the model takes as parameters: a buffer as a list with its
-- spare room, integers as bytes, a text for addresses (sixteen letters in place of the digits).
use efcp.Prelude.{
  ℕ, zero, suc, ◌+◌, ◌-◌, ◌*◌, ◌/◌, ◌%◌, ◌^◌, ◌≤◌, ◌<◌, ◌≡◌, refl, List, [], ◌∷◌, ◌++◌, some,
  length, leb, le→leb, if◌then◌else◌, arith, All,
}
use efcp.Outcome.{Outcome, ok, panic, IoError}
use efcp.Bytes.{BytesMut, BigEndian}
use efcp.Addr.{IpText}
use efcp.Addr.Ip.{IsPlain}

abbrev pub Room : Type 0
Room = List ℕ × ℕ

abbrev put_room : Room → List ℕ → Outcome IoError Room
put_room (bs, room) xs = if leb (length xs) room then ok (bs ++ xs, room - length xs) else panic

pub put_room_fits :
    (b : Room) (xs : List ℕ)
    → length xs ≤ b.1
    → (c : Room) × (put_room b xs ≡ ok c) × (c.0 ≡ b.0 ++ xs) × (c.1 + length xs ≡ b.1)
put_room_fits (bs, room) xs h =
    ((bs ++ xs, room - length xs), rw (le→leb (length xs) room h), refl, omega arith)

abbrev pub buffers : BytesMut
buffers = record {
  Buf = Room;
  with_capacity = λ n. ([], n);
  slice_of = λ b. b.0;
  remaining_mut = λ b. b.1;
  put = put_room;
  write = λ b xs. (xs, b.1);
  fill = λ b xs. (xs, b.1 - length xs);
  slice_of-with_capacity = λ n. refl;
  remaining_mut-with_capacity = λ n. omega arith;
  put_fits = put_room_fits;
  slice_of-write = λ b xs h. refl;
  remaining_mut-write = λ b xs. refl;
  slice_of-fill = λ b xs e h. refl;
}

-- The digits of a number to the given base, the last one first, and the number that they make.
unfoldable pub digits : ℕ → ℕ → List ℕ
digits zero n = []
digits (suc k) n = (97 + n % 16) ∷ digits k (n / 16)

unfoldable pub value : List ℕ → ℕ
value [] = 0
value (c ∷ cs) = (c - 97) + 16 * value cs

pub value-digits : (k n : ℕ) → n < 16 ^ k → value (digits k n) ≡ n
unfolding value digits
value-digits zero n h = omega arith
value-digits (suc k) n h = omega (arith, value-digits k (n / 16) (omega arith))

pub digits-IsPlain : (k n : ℕ) → All IsPlain (digits k n)
unfolding digits
digits-IsPlain zero n = tt
digits-IsPlain (suc k) n = ((omega arith, λ e. absurd (omega arith)), digits-IsPlain k (n / 16))

unfoldable pub letters : IpText
unfolding digits value
letters = record {
  print_v4 = digits 8;
  print_v6 = digits 32;
  parse_v4 = λ s. some (value s);
  parse_v6 = λ s. some (value s);
  read_v4 = λ a h. rw (value-digits 8 a (omega arith));
  read_v6 = λ a h. rw (value-digits 32 a (omega arith));
  plain_v4 = digits-IsPlain 8;
  plain_v6 = digits-IsPlain 32;
}

read_u16 : List ℕ → ℕ
read_u16 (a ∷ b ∷ []) = a * 256 + b
read_u16 _ = 0

abbrev read_u64 : List ℕ → ℕ
read_u64 (a ∷ b ∷ c ∷ d ∷ e ∷ f ∷ g ∷ h ∷ []) =
    ((((((a * 256 + b) * 256 + c) * 256 + d) * 256 + e) * 256 + f) * 256 + g) * 256 + h
read_u64 _ = 0

unfoldable pub big_endian : BigEndian
unfolding read_u16
big_endian = record {
  read_u16 = read_u16;
  write_u16 = λ n. n / 256 ∷ n % 256 ∷ [];
  read_u64 = read_u64;
  write_u64 = λ n.
      n / 256 / 256 / 256 / 256 / 256 / 256 / 256
      ∷ n / 256 / 256 / 256 / 256 / 256 / 256 % 256
      ∷ n / 256 / 256 / 256 / 256 / 256 % 256
      ∷ n / 256 / 256 / 256 / 256 % 256
      ∷ n / 256 / 256 / 256 % 256
      ∷ n / 256 / 256 % 256
      ∷ n / 256 % 256
      ∷ n % 256
      ∷ [];
  length-write_u16 = λ n. refl;
  length-write_u64 = λ n. refl;
  read-write_u16 = λ n h. omega arith;
  read-write_u64 = λ n h. omega arith;
}
