-- ===== src/Buffer/Disk.antt =====
-- Laws of the buffer directory as a dictionary, and what one write does to it.
use gst_kvs_sink.Common.{
  ℕ, ◌≡◌, ◌≢◌, refl, sym, ◌∙◌, true, false, none, some, List, [], ◌∷◌, ◌++◌, arith, Bool-cases, inl,
  inr, Text,
}
use gst_kvs_sink.Buffer.World.{FileName, text_eq, lookup, insert, erase, append_bytes}

pub text_eq_self : (a : Text) → text_eq a a ≡ true
unfolding text_eq
text_eq_self [] = refl
text_eq_self (c ∷ a) = ground (arith, text_eq_self a)

pub text_eq→eq : (a b : Text) → text_eq a b ≡ true → a ≡ b
unfolding text_eq
text_eq→eq [] [] h = refl
text_eq→eq [] (d ∷ b) h = cc
text_eq→eq (c ∷ a) [] h = cc
text_eq→eq (c ∷ a) (d ∷ b) h = ground (arith, text_eq→eq a b)

pub text_eq_ne : (a b : Text) → a ≢ b → text_eq a b ≡ false
text_eq_ne a b h = elim (Bool-cases (text_eq a b)) [
  | inl same ↦ absurd (h (text_eq→eq a b same))
  | inr other ↦ other
]

abbrev pub Disk : Type 0
Disk = List (FileName × List ℕ)

pub lookup-insert_self :
    (p : FileName) (bytes : List ℕ) (d : Disk) → lookup p (insert p bytes d) ≡ some bytes
unfolding lookup insert
lookup-insert_self p bytes [] = rw text_eq_self
lookup-insert_self p bytes ((q, old) ∷ d) = elim (Bool-cases (text_eq q p)) [
  | inl same ↦ ground arith
  | inr other ↦ ground (arith, lookup-insert_self p bytes d)
]

pub lookup-insert_ne :
    (p q : FileName) (bytes : List ℕ) (d : Disk) → q ≢ p → lookup q (insert p bytes d) ≡ lookup q d
unfolding lookup insert
lookup-insert_ne p q bytes [] h = rw (text_eq_ne p q (λ e. h (sym e)))
lookup-insert_ne p q bytes ((r, old) ∷ d) h = elim (Bool-cases (text_eq r p)) [
  | inl same ↦
      ground (arith, text_eq→eq r p same, text_eq_ne r q (λ e. h (sym e ∙ text_eq→eq r p same)))
  | inr other ↦ ground (arith, lookup-insert_ne p q bytes d h)
]

pub lookup-append_bytes :
    (p : FileName) (bytes : List ℕ) (d : Disk) {old : List ℕ}
    → lookup p d ≡ some old
    → lookup p (append_bytes p bytes d) ≡ some (old ++ bytes)
unfolding append_bytes
lookup-append_bytes p bytes d {old} h = rw (h, append_bytes) (lookup-insert_self p (old ++ bytes) d)

pub lookup-append_bytes_ne :
    (p q : FileName) (bytes : List ℕ) (d : Disk) {old : List ℕ}
    → lookup p d ≡ some old
    → q ≢ p
    → lookup q (append_bytes p bytes d) ≡ lookup q d
unfolding append_bytes
lookup-append_bytes_ne p q bytes d {old} h ne =
    rw (h, append_bytes) (lookup-insert_ne p q (old ++ bytes) d ne)

pub lookup-erase_ne : (p q : FileName) (d : Disk) → q ≢ p → lookup q (erase p d) ≡ lookup q d
unfolding lookup erase
lookup-erase_ne p q [] h = refl
lookup-erase_ne p q ((r, old) ∷ d) h = elim (Bool-cases (text_eq r p)) [
  | inl same ↦
      ground (arith, lookup-erase_ne p q d h, text_eq_ne r q (λ e. h (sym e ∙ text_eq→eq r p same)))
  | inr other ↦ ground (arith, lookup-erase_ne p q d h)
]

pub lookup-erase_self : (p : FileName) (d : Disk) → lookup p (erase p d) ≡ none
unfolding lookup erase
lookup-erase_self p [] = refl
lookup-erase_self p ((r, old) ∷ d) = ground (arith, lookup-erase_self p d)
