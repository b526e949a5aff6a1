-- ===== src/Sink/Failures/Backoff.antt =====
-- The delay before a recovery attempt.
use Prim.Native.Nat.pow
use mathlib.Core.Path.{subst}
use gst_kvs_sink.Common.{
  ℕ, zero, suc, ◌+◌, ◌*◌, ◌^◌, ◌%◌, ◌≤◌, ◌<◌, ◌≡◌, refl, sym, ap, ◌∙◌, Bool, true, ◌&&◌, arith, min,
  leb,
}
use gst_kvs_sink.Common.Words.{u64_limit}
use gst_kvs_sink.Common.Time.{from_secs}
use gst_kvs_sink.Sink.Failures.{backoff_secs, recovery_delay}

-- A test that holds at each of the first n numbers.
unfoldable first : (ℕ → Bool) → ℕ → Bool
first p zero = true
first p (suc n) = p n && first p n

first_lem : (p : ℕ → Bool) (n k : ℕ) → first p n ≡ true → k < n → p k ≡ true
unfolding first
first_lem p zero k h lt = ground arith
first_lem p (suc n) k h lt = ground (arith, first_lem p n k)

unfoldable waits_enough : ℕ → Bool
unfolding recovery_delay backoff_secs
waits_enough k =
    leb (from_secs 30) (recovery_delay (suc k)) && leb (recovery_delay (suc k)) (from_secs 300)

all_wait : first waits_enough 63 ≡ true
unfolding first waits_enough recovery_delay backoff_secs
all_wait = refl

-- A power of two from 2^63 on is a multiple of it.
pow_past_63 : (k : ℕ) → (q : ℕ) × (2 ^ (k + 63) ≡ 9223372036854775808 * q)
pow_past_63 zero = (1, refl)
pow_past_63 (suc k) =
    let (q, e) = pow_past_63 k in
    let double : 2 ^ suc (k + 63) ≡ 2 ^ (k + 63) * 2 = λ i. pow.suc 2 (k + 63) i in
    (
      2 * q,
      ap (λ m. 2 ^ m) {x = suc k + 63} {y = suc (k + 63)} (omega arith)
          ∙ (double ∙ omega (arith, e)),
    )

-- From 64 failures in a row on, the 64-bit product is zero, and the next attempt comes at once.
pub recovery_delay_wraps : (k : ℕ) → recovery_delay (suc (k + 63)) ≡ 0
unfolding recovery_delay backoff_secs
recovery_delay_wraps k =
    let (q, e) = pow_past_63 k in
    subst (λ m. from_secs (min (30 * (m % u64_limit) % u64_limit) 300) ≡ 0)
      (sym e ∙ ap (λ m. 2 ^ m) (omega arith)) (ground arith)

waits_enough_lem :
    (k : ℕ)
    → waits_enough k ≡ true
    → (from_secs 30 ≤ recovery_delay (suc k)) × (recovery_delay (suc k) ≤ from_secs 300)
unfolding waits_enough
waits_enough_lem k h = ground arith

-- From 1 to 63 failures in a row, the next attempt waits between 30 and 300 seconds.
pub recovery_delay_bounds :
    (k : ℕ)
    → k < 63
    → (from_secs 30 ≤ recovery_delay (suc k)) × (recovery_delay (suc k) ≤ from_secs 300)
recovery_delay_bounds k h = waits_enough_lem k (first_lem waits_enough 63 k all_wait h)
