-- ===== src/Notes/Flags.antt =====
-- The flags of a packet of notes/packet.rs as bits of one byte.
use Prim.Native.Nat.{bit_and, bit_or}
use efcp.Prelude.{
  ℕ, zero, suc, ◌+◌, ◌-◌, ◌<◌, ◌^◌, ◌≡◌, refl, sym, Bool, true, false, ◌&&◌, arith, ltb,
  if◌then◌else◌,
}
use efcp.Notes.Packet.{drf_mask}

-- How many bytes below `k` fail a test; it is counted by evaluation.
failures : (ℕ → Bool) → ℕ → ℕ
failures test zero = 0
failures test (suc k) = (if test k then 0 else 1) + failures test k

failures-none : (test : ℕ → Bool) (k y : ℕ) → y < k → failures test k ≡ 0 → test y ≡ true
unfolding failures
failures-none test zero y below none_fail = absurd (omega arith)
failures-none test (suc k) y below none_fail = ground (arith, failures-none test k y)

-- The byte of flags behind `set_drf`.
abbrev pub marked : Bool → ℕ → ℕ
marked v x = if v then bit_or x drf_mask else bit_and x (255 - drf_mask)

abbrev same : Bool → Bool → Bool
same true c = c
same false true = false
same false false = true

abbrev keeps : Bool → ℕ → ℕ → Bool
keeps v mask x = same (ltb 0 (bit_and (marked v x) mask)) (ltb 0 (bit_and x mask))

marks : Bool → ℕ → Bool
marks v x =
    same (ltb 0 (bit_and (marked v x) drf_mask)) v
    && (keeps v (2 ^ 6) x
        && (keeps v (2 ^ 3) x && (keeps v (2 ^ 2) x && (keeps v (2 ^ 1) x && keeps v 1 x))))

marks_table : (v : Bool) → failures (marks v) 256 ≡ 0
unfolding failures marks
marks_table true = refl
marks_table false = refl

same→≡ : (c d : Bool) → same c d ≡ true → c ≡ d
same→≡ true d h = sym h
same→≡ false true h = h
same→≡ false false h = refl

both : (c d : Bool) → (c && d) ≡ true → (c ≡ true) × (d ≡ true)
both true d h = (refl, h)
both false d h = ground arith

module _ (v : Bool) (x : ℕ) (byte : x < 2 ^ 8) where
  abbrev Kept : ℕ → Type 0
  Kept mask = ltb 0 (bit_and (marked v x) mask) ≡ ltb 0 (bit_and x mask)

  pub marked_lem :
      (ltb 0 (bit_and (marked v x) drf_mask) ≡ v)
      × Kept (2 ^ 6)
      × Kept (2 ^ 3)
      × Kept (2 ^ 2)
      × Kept (2 ^ 1)
      × Kept 1
  unfolding marks
  marked_lem =
      let all = failures-none (marks v) 256 x (omega arith) (marks_table v) in
      let (m, r6) = both _ _ all in
      let (k6, r3) = both _ _ r6 in
      let (k3, r2) = both _ _ r3 in
      let (k2, r1) = both _ _ r2 in
      let (k1, k0) = both _ _ r1 in
      (same→≡ _ _ m, same→≡ _ _ k6, same→≡ _ _ k3, same→≡ _ _ k2, same→≡ _ _ k1, same→≡ _ _ k0)
