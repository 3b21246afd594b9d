-- ===== src/Bytes.antt =====
-- Byte slices: indexing and slicing as the language does them, which panic out of range, and what the
-- program takes from the crates `bytes` (a growable buffer) and `byteorder` (integers as bytes). The
-- crates are parameters, with the behaviour that the program relies on.
mod Slice
unfoldable pub use Slice.*
use efcp.Prelude.{ℕ, ◌+◌, ◌≤◌, ◌<◌, ◌^◌, ◌≡◌, List, [], ◌++◌, length, ◌∷◌}
use efcp.Outcome.{Outcome, ok, IoError}

-- `bytes::BytesMut`. `slice` is the buffer as a slice, `write` stores a slice of the same length
-- through `DerefMut`, `put` appends within `remaining_mut` and panics beyond it, and `fill` is a write
-- to the spare room of an empty buffer with `set_len` behind it.
pub record BytesMut : Type 1 where
  pub Buf : Type 0
  pub with_capacity : ℕ → Buf
  pub slice_of : Buf → List ℕ
  pub remaining_mut : Buf → ℕ
  pub put : Buf → List ℕ → Outcome IoError Buf
  pub write : Buf → List ℕ → Buf
  pub fill : Buf → List ℕ → Buf
  pub slice_of-with_capacity : (n : ℕ) → slice_of (with_capacity n) ≡ []
  pub remaining_mut-with_capacity : (n : ℕ) → n ≤ remaining_mut (with_capacity n)
  pub put_fits :
      (b : Buf) (xs : List ℕ)
      → length xs ≤ remaining_mut b
      → (c : Buf) × (put b xs ≡ ok c)
        × (slice_of c ≡ slice_of b ++ xs)
        × (remaining_mut c + length xs ≡ remaining_mut b)
  pub slice_of-write :
      (b : Buf) (xs : List ℕ) → length xs ≡ length (slice_of b) → slice_of (write b xs) ≡ xs
  pub remaining_mut-write : (b : Buf) (xs : List ℕ) → remaining_mut (write b xs) ≡ remaining_mut b
  pub slice_of-fill :
      (b : Buf) (xs : List ℕ)
      → slice_of b ≡ []
      → length xs ≤ remaining_mut b
      → slice_of (fill b xs) ≡ xs

-- `byteorder::BigEndian` on slices of the exact length, which `BufMut::put_u16_be` and `put_u64_be`
-- agree with.
pub record BigEndian : Type 0 where
  pub read_u16 : List ℕ → ℕ
  pub write_u16 : ℕ → List ℕ
  pub read_u64 : List ℕ → ℕ
  pub write_u64 : ℕ → List ℕ
  pub length-write_u16 : (n : ℕ) → length (write_u16 n) ≡ 2
  pub length-write_u64 : (n : ℕ) → length (write_u64 n) ≡ 8
  pub read-write_u16 : (n : ℕ) → n < 2 ^ 16 → read_u16 (write_u16 n) ≡ n
  pub read-write_u64 : (n : ℕ) → n < 2 ^ 64 → read_u64 (write_u64 n) ≡ n
