-- ===== src/Dtcp/Builder.antt =====
-- `DtcpBuilder` of dtcp/src/lib.rs. A `Duration` is a count of nanoseconds; its arithmetic panics where
-- the seconds leave a `u64`, and the addition to the `u8` of retries panics at 255 (dev profile).
use efcp.Prelude.{
  ℕ, ◌+◌, ◌*◌, ◌^◌, ◌≤◌, ◌<◌, ◌≡◌, ◌↔◌, ◌⊎◌, inl, inr, true, false, arith, ltb, if◌then◌else◌,
  lt→ltb,
}
use efcp.Outcome.{Outcome, ok, panic, IoError, ◌>>=◌, checked_add}
use efcp.Dtcp.Timer.{Timer}
use efcp.Dtcp.Timer
use efcp.Dtcp.Channel.{DtcpChannel}

pub record DtcpBuilder : Type 0 where
  pub mpl : ℕ
  pub ack : ℕ
  pub max_retries : ℕ

abbrev pub millis : ℕ → ℕ
millis n = n * 1_000_000

unfoldable pub new : DtcpBuilder
new = record { mpl = millis 1000; ack = millis 100; max_retries = 3 }

unfoldable pub set_mpl : ℕ → DtcpBuilder → DtcpBuilder
set_mpl mpl b = record b { mpl = mpl }

unfoldable pub set_ack : ℕ → DtcpBuilder → DtcpBuilder
set_ack ack b = record b { ack = ack }

unfoldable pub set_max_retries : ℕ → DtcpBuilder → DtcpBuilder
set_max_retries max_retries b = record b { max_retries = max_retries }

-- One more than the nanoseconds of `Duration::MAX`.
abbrev pub duration_end : ℕ
duration_end = 2 ^ 64 * 1_000_000_000

-- The result of `+` or `*` on durations.
abbrev duration : ℕ → Outcome IoError ℕ
duration n = if ltb n duration_end then ok n else panic

-- The two readings of the clock are those of `Timer::new`.
unfoldable pub build_channel :
    {C : Type 0} → DtcpBuilder → C → ℕ → ℕ → Outcome IoError (DtcpChannel C)
build_channel b channel now now' = do
  mpl2 ← duration (2 * b.mpl)
  dx ← duration (mpl2 + b.ack)
  tries ← checked_add 256 b.max_retries 1
  dt ← duration (tries * dx)
  sit ← duration (2 * dt)
  rit ← duration (3 * dt)
  ok (record {
    channel = channel;
    set_drf = true;
    seq_num = 0;
    sit = Timer.new now sit;
    rit = Timer.new now' rit;
  })

below_or_last : (n : ℕ) → n < 256 → (n < 255) ⊎ (n ≡ 255)
below_or_last n h = ground arith

-- The time in which a packet and all its retries live: (R + 1)(2 MPL + A).
abbrev pub lifetime : DtcpBuilder → ℕ
lifetime b = (b.max_retries + 1) * (2 * b.mpl + b.ack)

module _ {C : Type 0} (b : DtcpBuilder) (channel : C) (now now' : ℕ) where
  -- With fewer than 255 retries, and a lifetime of which three fit a `Duration`, the builder returns a
  -- channel over the given one that has sent nothing, whose next packet starts a run, and whose timers
  -- are stopped, the sender's set to two lifetimes and the receiver's to three.
  pub build_channel_lem :
      b.max_retries < 255
      → 3 * lifetime b < duration_end
      → build_channel b channel now now'
        ≡ ok (record {
          channel = channel;
          set_drf = true;
          seq_num = 0;
          sit = record { enable = false; start = now; interval = 2 * lifetime b };
          rit = record { enable = false; start = now'; interval = 3 * lifetime b };
        })
  unfolding build_channel Timer.new
  build_channel_lem h k =
      let one : 2 * b.mpl + b.ack ≤ lifetime b = grind arith in
      rw (
        lt→ltb (2 * b.mpl) duration_end (omega arith),
        lt→ltb (2 * b.mpl + b.ack) duration_end (omega arith),
        lt→ltb (b.max_retries + 1) 256 (omega arith),
        lt→ltb (lifetime b) duration_end (omega arith),
        lt→ltb (2 * lifetime b) duration_end (omega arith),
        lt→ltb (3 * lifetime b) duration_end (omega arith),
      )

  overflows :
      b.max_retries ≡ 255
      → 2 * b.mpl + b.ack < duration_end
      → build_channel b channel now now' ≡ panic
  unfolding build_channel
  overflows h k = rw (
    lt→ltb (2 * b.mpl) duration_end (omega arith),
    lt→ltb (2 * b.mpl + b.ack) duration_end (omega arith),
    h,
  )

-- For a builder with times so short that three lifetimes with the most retries fit a `Duration`, and
-- any `u8` given to `set_max_retries`: the builder then panics exactly if the number given is 255.
pub build_channel-set_max_retries :
    {C : Type 0} (b : DtcpBuilder) (channel : C) (now now' n : ℕ)
    → n < 256
    → 3 * (256 * (2 * b.mpl + b.ack)) < duration_end
    → (build_channel (set_max_retries n b) channel now now' ≡ panic) ↔ (n ≡ 255)
unfolding set_max_retries
build_channel-set_max_retries b channel now now' n byte short = (
  λ panics. elim (below_or_last n byte) [
    | inr e ↦ e
    | inl less ↦
        let fits : 3 * lifetime (record b { max_retries = n }) < duration_end = grind arith in
        let builds = build_channel_lem (record b { max_retries = n }) channel now now' less fits in
        absurd (cc)
  ],
  λ e. overflows (record b { max_retries = n }) channel now now' e (omega arith),
)
