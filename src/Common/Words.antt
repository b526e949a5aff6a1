-- ===== src/Common/Words.antt =====
-- Unsigned 64-bit words and their little-endian bytes.
use Prim.Native.Nat.{ℕ, zero, suc, ◌+◌, ◌*◌, ◌/◌, ◌%◌, ◌^◌, ◌<◌}
use mathlib.Core.Path.{◌≡◌, refl}
use mathlib.Core.List.{List, [], ◌∷◌}
use native.Mathlib.Omega.{arith}
use gst_kvs_sink.Common.Lists.{length}

abbrev pub u64_limit : ℕ
u64_limit = 2 ^ 64

abbrev pub IsU64 : ℕ → Type 0
IsU64 n = n < u64_limit

-- The lowest `k` bytes of a number, lowest first.
pub le_bytes : ℕ → ℕ → List ℕ
le_bytes zero n = []
le_bytes (suc k) n = (n % 256) ∷ le_bytes k (n / 256)

pub from_le : List ℕ → ℕ
from_le [] = 0
from_le (b ∷ bs) = b + 256 * from_le bs

-- `u64::to_le_bytes` and `u64::from_le_bytes`.
unfoldable pub u64_to_le_bytes : ℕ → List ℕ
unfolding le_bytes
u64_to_le_bytes n = le_bytes 8 n

unfoldable pub u64_from_le_bytes : List ℕ → ℕ
unfolding from_le
u64_from_le_bytes bs = from_le bs

from_le-le_bytes : (k n : ℕ) → n < 256 ^ k → from_le (le_bytes k n) ≡ n
unfolding from_le le_bytes
from_le-le_bytes zero n h = omega arith
from_le-le_bytes (suc k) n h = omega (arith, from_le-le_bytes k (n / 256) (omega arith))

length-le_bytes : (k n : ℕ) → length (le_bytes k n) ≡ k
unfolding le_bytes
length-le_bytes zero n = refl
length-le_bytes (suc k) n = omega (arith, length-le_bytes k (n / 256))

pub from-to_le_bytes : (n : ℕ) → IsU64 n → u64_from_le_bytes (u64_to_le_bytes n) ≡ n
unfolding u64_from_le_bytes u64_to_le_bytes
from-to_le_bytes n h = from_le-le_bytes 8 n (omega arith)

pub length-u64_to_le_bytes : (n : ℕ) → length (u64_to_le_bytes n) ≡ 8
unfolding u64_to_le_bytes
length-u64_to_le_bytes n = length-le_bytes 8 n
