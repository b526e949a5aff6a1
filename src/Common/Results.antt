-- ===== src/Common/Results.antt =====
-- Fallible code: `Result` with the error's text, as `to_string` shows it, and texts as bytes.
-- `panic` stands for a call that panics and so does not return.
use Prim.Native.Nat.{ℕ}
use Prim.Native.Char.{code}
use Prim.Native.String.{String}
use mathlib.Core.Bool.{Bool, true, false}
use mathlib.Core.List.{List, [], ◌∷◌}

abbrev pub Text : Type 0
Text = List ℕ

-- The bytes of an ASCII literal.
abbrev pub codes : String → Text
codes String.[] = []
codes (String.◌∷◌ c s) = code c ∷ codes s

pub data Result {ℓ} (A : Type ℓ) : Type ℓ where
  ok : A → Result A
  err : Text → Result A
  panic : Result A

abbrev pub is_ok {ℓ} : {A : Type ℓ} → Result A → Bool
is_ok (ok a) = true
is_ok (err e) = false
is_ok panic = false

-- `.context(..)`: the outermost context is what `to_string` shows.
abbrev pub with_context {ℓ} : {A : Type ℓ} → Text → Result A → Result A
with_context t (ok a) = ok a
with_context t (err e) = err t
with_context t panic = panic
