-- ===== src/ClusterFile/Cursor.antt =====
-- A position in a byte list, by what stands from there on.
use gst_kvs_sink.Common.{
  ℕ, ◌+◌, ◌≡◌, refl, sym, ◌∙◌, ap, List, ◌++◌, append_assoc, arith, length, length-append, slice,
  [], slice-middle,
}

pub record IsAt (bytes : List ℕ) (offset : ℕ) (rest : List ℕ) : Type 0 where
  pub front : List ℕ
  pub split : bytes ≡ front ++ rest
  pub behind : offset ≡ length front

module _ {bytes : List ℕ} {offset : ℕ} where
  pub IsAt-skip :
      (chunk rest : List ℕ) {to : ℕ}
      → IsAt bytes offset (chunk ++ rest)
      → to ≡ offset + length chunk
      → IsAt bytes to rest
  IsAt-skip chunk rest h e = record {
    front = h.front ++ chunk;
    split = h.split ∙ sym (append_assoc h.front chunk rest);
    behind = omega (arith, length-append h.front chunk, h.behind);
  }

  pub IsAt-slice :
      (chunk rest : List ℕ) {to : ℕ}
      → IsAt bytes offset (chunk ++ rest)
      → to ≡ offset + length chunk
      → slice bytes offset to ≡ chunk
  IsAt-slice chunk rest {to} h e =
      ap (λ l. slice l offset to) h.split
      ∙ slice-middle h.front chunk rest offset to h.behind (omega (arith, h.behind))

  pub IsAt-length : {rest : List ℕ} → IsAt bytes offset rest → length bytes ≡ offset + length rest
  IsAt-length {rest} h = ap length h.split ∙ omega (arith, length-append h.front rest, h.behind)

pub IsAt-start : (bytes : List ℕ) → IsAt bytes 0 bytes
IsAt-start bytes = record { front = []; split = refl; behind = refl }
