-- ===== src/Common/Retry.antt =====
-- A call that is tried again: how often it fails before it succeeds, and the state that it is
-- tried in then.
use Prim.Native.Nat.{ℕ, zero, suc}
use mathlib.Core.Path.{◌≡◌, refl}
use gst_kvs_sink.Common.Results.{Text, Result, ok, err}

-- The state behind this many attempts.
unfoldable pub after_attempts : {A S : Type 0} → ℕ → (S → Result A × S) → S → S
after_attempts zero f s = s
after_attempts (suc k) f s = after_attempts k f (f s).1

-- The first `k` attempts return an error, and the next one succeeds.
unfoldable pub FailsThen : {A S : Type 0} → ℕ → (S → Result A × S) → S → Type 0
FailsThen {A} zero f s = (a : A) × ((f s).0 ≡ ok a)
FailsThen (suc k) f s = ((e : Text) × ((f s).0 ≡ err e)) × FailsThen k f (f s).1

pub after_attempts_last :
    {A S : Type 0} (k : ℕ) (f : S → Result A × S) (s : S)
    → (f (after_attempts k f s)).1 ≡ after_attempts (suc k) f s
unfolding after_attempts
after_attempts_last zero f s = refl
after_attempts_last (suc k) f s = after_attempts_last k f (f s).1
