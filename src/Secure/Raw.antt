-- ===== src/Secure/Raw.antt =====
-- The raw bytes of a `DiscoPacket`: nonce, tag and payload, and what the slices of them are.
use efcp.Prelude.{
  ℕ, ◌+◌, ◌-◌, ◌≤◌, ◌≡◌, sym, ap, ◌∙◌, List, ◌++◌, append_assoc, arith, length, length-append, take,
  drop, take-append, drop-append, le→leb,
}
use efcp.Outcome.{ok, IoError}
use efcp.Bytes.{slice, slice_from, store_slice, store_from}

take_front : (k : ℕ) (xs ys : List ℕ) → length xs ≡ k → take k (xs ++ ys) ≡ xs
take_front k xs ys e = rw (← e) (take-append xs ys)

drop_front : (k : ℕ) (xs ys : List ℕ) → length xs ≡ k → drop k (xs ++ ys) ≡ ys
drop_front k xs ys e = rw (← e) (drop-append xs ys)

module _ (k t : ℕ) (xs ys zs : List ℕ) (ex : length xs ≡ k) (ey : length ys ≡ t) where
  abbrev whole : List ℕ
  whole = xs ++ (ys ++ zs)

  long : k + t ≤ length whole
  long = omega (arith, length-append xs (ys ++ zs), length-append ys zs)

  front_two : take (k + t) whole ≡ xs ++ ys
  front_two =
      ap (take (k + t)) (sym (append_assoc xs ys zs))
      ∙ take_front (k + t) (xs ++ ys) zs (omega (arith, length-append xs ys))

  behind_two : drop (k + t) whole ≡ zs
  behind_two =
      ap (drop (k + t)) (sym (append_assoc xs ys zs))
      ∙ drop_front (k + t) (xs ++ ys) zs (omega (arith, length-append xs ys))

  pub slice_first : slice {E = IoError} 0 k whole ≡ ok xs
  slice_first = rw (
    le→leb k (length whole) (omega (arith, long)),
    (let same : k - 0 ≡ k = omega arith in same),
    take_front k xs (ys ++ zs) ex,
  )

  pub slice_second : slice {E = IoError} k (k + t) whole ≡ ok ys
  slice_second = rw (
    le→leb (k + t) (length whole) long,
    drop_front k xs (ys ++ zs) ex,
    (let rest : k + t - k ≡ t = omega arith in rest),
    take_front t ys zs ey,
  )

  pub slice_rest : slice_from {E = IoError} (k + t) whole ≡ ok zs
  slice_rest = rw (le→leb (k + t) (length whole) long, behind_two)

  pub store_first : (ws : List ℕ) → store_slice {E = IoError} 0 k ws whole ≡ ok (ws ++ (ys ++ zs))
  store_first ws = rw (le→leb k (length whole) (omega (arith, long)), drop_front k xs (ys ++ zs) ex)

  pub store_second :
      (ws : List ℕ) → store_slice {E = IoError} k (k + t) ws whole ≡ ok (xs ++ (ws ++ zs))
  store_second ws =
      rw (le→leb (k + t) (length whole) long, take_front k xs (ys ++ zs) ex, behind_two)

  pub store_rest : (ws : List ℕ) → store_from {E = IoError} (k + t) ws whole ≡ ok (xs ++ (ys ++ ws))
  store_rest ws = rw (le→leb (k + t) (length whole) long, front_two, append_assoc xs ys ws)
