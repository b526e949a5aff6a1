-- ===== src/Buffer/Names.antt =====
-- The names of mega-cluster files: what `start_new_mega_cluster_file` builds, and the test of
-- `scan_existing_mega_cluster_files`.
use mathlib.Core.Path.{subst}
use gst_kvs_sink.Common.{
  ℕ, zero, suc, ◌+◌, ◌/◌, ◌%◌, ◌≡◌, refl, Bool, true, false, ◌&&◌, ◌||◌, [], ◌∷◌, ◌++◌,
  append_assoc, arith, ltb, ◌==◌, ==_self, if◌then◌else◌, Text, codes,
}
use gst_kvs_sink.Buffer.World.{FileName}

-- Decimal digits, on fuel: each round takes one digit.
digits : ℕ → ℕ → Text → Text
digits zero n acc = acc
digits (suc fuel) n acc =
    let rest = digits fuel (n / 10) ((48 + n % 10) ∷ acc) in
    if ltb n 10 then (48 + n) ∷ acc else rest

-- A number in decimal, as `format!` prints it; no number has more digits than its value and one.
unfoldable pub decimal : ℕ → Text
unfolding digits
decimal n = digits (suc n) n []

-- `format!("{}_clusters_{}.dat", stream_name, timestamp_ms)`.
unfoldable pub file_name : Text → ℕ → FileName
file_name stream ms = stream ++ (codes "_clusters_" ++ (decimal ms ++ codes ".dat"))

unfoldable pub starts_with : Text → Text → Bool
starts_with [] t = true
starts_with (p ∷ ps) [] = false
starts_with (p ∷ ps) (c ∷ cs) = p == c && starts_with ps cs

unfoldable pub contains : Text → Text → Bool
unfolding starts_with
contains p [] = starts_with p []
contains p (c ∷ cs) = starts_with p (c ∷ cs) || contains p cs

unfoldable pub ends_with : Text → Text → Bool
unfolding starts_with
ends_with p [] = starts_with p []
ends_with p (c ∷ cs) = (starts_with p (c ∷ cs) && starts_with (c ∷ cs) p) || ends_with p cs

-- The test of a directory entry's name.
unfoldable pub is_cluster_file : Text → FileName → Bool
is_cluster_file stream name =
    starts_with stream name && (contains (codes "_clusters_") name && ends_with (codes ".dat") name)

starts_with-append : (p t : Text) → starts_with p (p ++ t) ≡ true
unfolding starts_with
starts_with-append [] t = refl
starts_with-append (c ∷ p) t = ground (arith, ==_self c, starts_with-append p t)

starts_with_self : (p : Text) → starts_with p p ≡ true
unfolding starts_with
starts_with_self [] = refl
starts_with_self (c ∷ p) = ground (arith, ==_self c, starts_with_self p)

contains-middle : (front p rest : Text) → contains p (front ++ (p ++ rest)) ≡ true
unfolding contains
contains-middle [] [] [] = refl
contains-middle [] [] (c ∷ rest) = refl
contains-middle [] (c ∷ p) rest = rw (starts_with-append (c ∷ p) rest)
contains-middle (c ∷ front) p rest = ground (arith, contains-middle front p rest)

ends_with-suffix : (front p : Text) → ends_with p (front ++ p) ≡ true
unfolding ends_with
ends_with-suffix [] [] = refl
ends_with-suffix [] (c ∷ p) = rw (starts_with_self (c ∷ p))
ends_with-suffix (c ∷ front) p = ground (arith, ends_with-suffix front p)

-- Every file that the manager creates is one that a later run recovers from the directory.
pub is_cluster_file-file_name :
    (stream : Text) (ms : ℕ) → is_cluster_file stream (file_name stream ms) ≡ true
unfolding is_cluster_file file_name
is_cluster_file-file_name stream ms =
    let tail = codes "_clusters_" ++ (decimal ms ++ codes ".dat") in
    let front = stream ++ (codes "_clusters_" ++ decimal ms) in
    let split : front ++ codes ".dat" ≡ stream ++ tail =
      append_assoc stream (codes "_clusters_" ++ decimal ms) (codes ".dat") in
    let suffix : ends_with (codes ".dat") (stream ++ tail) ≡ true =
      subst (λ t. ends_with (codes ".dat") t ≡ true) split
        (ends_with-suffix front (codes ".dat")) in
    rw (
      starts_with-append stream tail,
      contains-middle stream (codes "_clusters_") (decimal ms ++ codes ".dat"),
      suffix,
    )
