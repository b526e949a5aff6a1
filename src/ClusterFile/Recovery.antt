-- ===== src/ClusterFile/Recovery.antt =====
-- Reading a file whose last record is incomplete, or damaged, and files with any bytes at all.
use mathlib.Core.Path.{subst}
use gst_kvs_sink.Common.{
  ℕ, zero, suc, ◌+◌, ◌-◌, ◌*◌, ◌≤◌, ◌<◌, ◌^◌, ◌≡◌, ◌≢◌, refl, sym, ap, ◌∙◌, List, [], ◌∷◌, ◌++◌,
  map, append-nil, append_assoc, arith, ltb, ltb-false, ltb-true, length, length-append, take,
  length-take, All, Bool-cases, inl, inr, Option-cases,
}
use gst_kvs_sink.Common.Words.{u64_limit, IsU64, length-u64_to_le_bytes}
use gst_kvs_sink.Common.Time.{SystemTime, ClockApi}
use gst_kvs_sink.Fragment.{Fragment}
use gst_kvs_sink.ClusterFile.{
  Metadata, metadata, Reader, Next, eof, item, panicked, read_metadata, read_cluster, read_headers,
  next, Ending, finished, crashed, exhausted, read_from, reader, read_file, record_bytes,
  file_bytes, stored,
}
use gst_kvs_sink.ClusterFile.Cursor.{IsAt, IsAt-length, IsAt-start}
use gst_kvs_sink.ClusterFile.RoundTrip.{
  header, IsInRange, metadata-IsInRange, read_metadata-header, record_bytes-append,
  length-record_bytes, length-le-file_bytes, fuel_past, fuel_past_lem, prepend, read_from-item,
  read_from-eof, read_from-panicked, read_from-file_bytes,
}

take-append {ℓ} :
    {A : Type ℓ} (xs ys : List A) (n j : ℕ)
    → n ≡ length xs + j
    → take n (xs ++ ys) ≡ xs ++ take j ys
take-append [] ys n j h = ap (λ m. take m ys) (omega arith)
take-append (x ∷ xs) ys zero j h = absurd (omega arith)
take-append (x ∷ xs) ys (suc n) j h = ap (λ l. x ∷ l) (take-append xs ys n j (omega arith))

header-append : (m : Metadata) (rest : List ℕ) → header m rest ≡ header m [] ++ rest
unfolding header
header-append m rest = simp (append-nil, append_assoc)

length-header : (m : Metadata) → length (header m []) ≡ 32
unfolding header
length-header m = simp (append-nil, length-append, length-u64_to_le_bytes) (omega arith)

-- Where the bytes end before the headers and the cluster do, `next` returns `None`.
read_headers-short :
    (clock : ClockApi) (now : SystemTime) (m : Metadata) (bytes : List ℕ) (at : ℕ)
    → length bytes < at + m.header_size + m.cluster_size
    → at + m.header_size + m.cluster_size < u64_limit
    → (r' : Reader) × (read_headers clock now m (record { bytes = bytes; offset = at }) ≡ (eof, r'))
unfolding read_headers read_cluster
read_headers-short clock now m bytes at short fits =
    elim (Bool-cases (ltb (length bytes) (at + m.header_size))) [
      | inl cut ↦ (record { bytes = bytes; offset = at }, ground arith)
      | inr whole ↦ (record { bytes = bytes; offset = at + m.header_size }, ground arith)
    ]

-- An end of the headers past 64 bits makes `next` panic.
read_headers-overflow :
    (clock : ClockApi) (now : SystemTime) (m : Metadata) (r : Reader)
    → u64_limit ≤ r.offset + m.header_size
    → read_headers clock now m r ≡ (panicked, r)
unfolding read_headers
read_headers-overflow clock now m r h = ground arith

record_bytes-header :
    (clock : ClockApi) (f : Fragment)
    → record_bytes clock f ≡ header (metadata clock f) [] ++ (f.header_data ++ f.cluster_data)
record_bytes-header clock f =
    sym (append-nil (record_bytes clock f))
    ∙ record_bytes-append clock f []
    ∙ ap (λ c. header (metadata clock f) (f.header_data ++ c)) (append-nil f.cluster_data)
    ∙ header-append (metadata clock f) (f.header_data ++ f.cluster_data)

-- A record that is cut behind its header keeps the header whole.
take-record_bytes :
    (clock : ClockApi) (f : Fragment) (k : ℕ)
    → 32 ≤ k
    → take k (record_bytes clock f)
      ≡ header (metadata clock f) (take (k - 32) (f.header_data ++ f.cluster_data))
take-record_bytes clock f k h =
    let m = metadata clock f in
    ap (take k) (record_bytes-header clock f)
    ∙ take-append (header m []) (f.header_data ++ f.cluster_data) k (k - 32)
        (omega (arith, length-header m))
    ∙ sym (header-append m (take (k - 32) (f.header_data ++ f.cluster_data)))

-- At the front part of a record `next` returns `None`, wherever the record is cut.
next-cut :
    (clock : ClockApi) (now : SystemTime) (f : Fragment) (k : ℕ) {bytes : List ℕ} {at : ℕ}
    → IsU64 f.duration
    → at + length (record_bytes clock f) < 2 ^ 63
    → k < length (record_bytes clock f)
    → IsAt bytes at (take k (record_bytes clock f))
    → (r' : Reader) × (next clock now (record { bytes = bytes; offset = at }) ≡ (eof, r'))
unfolding next
next-cut clock now f k {bytes} {at} fits small cut h = elim (Bool-cases (ltb k 32)) [
  | inl early ↦ (
    record { bytes = bytes; offset = at },
    rw (ltb-true (length bytes) (at + 32) (ground (arith, n, t))),
  )
  | inr late ↦
      let m = metadata clock f in
      let body = f.header_data ++ f.cluster_data in
      let at_header = subst (IsAt bytes at) (take-record_bytes clock f k (ground arith)) h in
      let (read, past) =
        read_metadata-header m (take (k - 32) body)
          (metadata-IsInRange clock f fits (omega (arith, l)) (omega (arith, l))) at_header in
      let (r', short) =
        read_headers-short clock now m bytes (at + 32) (unfold metadata in ground (arith, n, t, l))
          (unfold metadata in omega (arith, l)) in
      (r', rw (ltb-false (length bytes) (at + 32) (ground (arith, n, t)), read) short)
]
  where
    n : length bytes ≡ at + length (take k (record_bytes clock f))
    n = IsAt-length h

    t : length (take k (record_bytes clock f)) ≡ k
    t = omega (arith, length-take k (record_bytes clock f))

    l : length (record_bytes clock f) ≡ 32 + length f.header_data + length f.cluster_data
    l = length-record_bytes clock f

-- A file of whole records with any rest is read up to the rest, and what `next` does there
-- decides the end: here it returns `None`.
read_file-rest :
    (clock : ClockApi) (now : SystemTime) (fs : List Fragment) (rest : List ℕ) (x : Next)
    (end : Ending) {r' : Reader}
    → All (λ f. IsU64 f.duration) fs
    → length (file_bytes clock fs ++ rest) < 2 ^ 63
    → ((fuel : ℕ) (r : Reader)
        → next clock now r ≡ (x, r')
        → read_from clock now (suc fuel) r ≡ ([], end))
    → next clock now
        (record { bytes = file_bytes clock fs ++ rest; offset = length (file_bytes clock fs) })
      ≡ (x, r')
    → read_file clock now (file_bytes clock fs ++ rest) ≡ (map (stored clock) fs, end)
unfolding read_file reader
read_file-rest clock now fs rest x end fits small stop e =
    let bytes = file_bytes clock fs ++ rest in
    let spare = length bytes - length fs in
    let fuel : suc (length bytes) ≡ fuel_past fs (suc spare) = omega (
      arith,
      fuel_past_lem fs (suc spare),
      length-le-file_bytes clock fs,
      length-append (file_bytes clock fs) rest,
    ) in
    ap (λ n. read_from clock now n (reader bytes)) fuel
    ∙ read_from-file_bytes clock now fs rest (suc spare) {end = length (file_bytes clock fs)} fits
        small (IsAt-start bytes) (omega arith)
    ∙ ap (prepend (map (stored clock) fs)) (stop spare _ e)
    ∙ ap (λ l. (l, end)) (append-nil (map (stored clock) fs))

-- Crash recovery. A file that holds whole records and then the first `k` bytes of one more, for
-- any `k` short of its length, is read up to the last whole record, without a panic. Durations
-- are 64-bit numbers, and the file with the whole last record would be smaller than 2^63 bytes.
pub read_file-cut :
    (clock : ClockApi) (now : SystemTime) (fs : List Fragment) (f : Fragment) (k : ℕ)
    → All (λ g. IsU64 g.duration) fs
    → IsU64 f.duration
    → length (file_bytes clock fs) + length (record_bytes clock f) < 2 ^ 63
    → k < length (record_bytes clock f)
    → read_file clock now (file_bytes clock fs ++ take k (record_bytes clock f))
      ≡ (map (stored clock) fs, finished)
read_file-cut clock now fs f k fits fit small cut =
    let rest = take k (record_bytes clock f) in
    let bound : length (file_bytes clock fs ++ rest) < 2 ^ 63 =
      omega
        (arith, length-append (file_bytes clock fs) rest, length-take k (record_bytes clock f)) in
    let here : IsAt (file_bytes clock fs ++ rest) (length (file_bytes clock fs)) rest = record {
      front = file_bytes clock fs;
      split = refl;
      behind = refl;
    } in
    let (r', e) = next-cut clock now f k fit small cut here in
    read_file-rest clock now fs rest eof finished fits bound
      (λ fuel r. read_from-eof clock now fuel r) e

next-overflow :
    (clock : ClockApi) (now : SystemTime) (m : Metadata) (rest : List ℕ) {bytes : List ℕ} {at : ℕ}
    → IsInRange m
    → u64_limit ≤ at + 32 + m.header_size
    → IsAt bytes at (header m rest)
    → next clock now (record { bytes = bytes; offset = at })
      ≡ (panicked, record { bytes = bytes; offset = at + 32 })
unfolding next
next-overflow clock now m rest {bytes} {at} ranges over h =
    let (read, past) = read_metadata-header m rest ranges h in
    rw (ltb-false (length bytes) (at + 32) (omega (arith, IsAt-length past)), read)
      (read_headers-overflow clock now m (record { bytes = bytes; offset = at + 32 }) over)

-- A record whose header announces headers that would end past 2^64 crashes the reader, whatever
-- follows it: the fragments before it are read, and then the reader panics instead of stopping.
pub read_file-corrupt :
    (clock : ClockApi) (now : SystemTime) (fs : List Fragment) (m : Metadata) (rest : List ℕ)
    → All (λ g. IsU64 g.duration) fs
    → IsInRange m
    → length (file_bytes clock fs ++ header m rest) < 2 ^ 63
    → u64_limit ≤ length (file_bytes clock fs) + 32 + m.header_size
    → read_file clock now (file_bytes clock fs ++ header m rest) ≡ (map (stored clock) fs, crashed)
read_file-corrupt clock now fs m rest fits ranges small over =
    read_file-rest clock now fs (header m rest) panicked crashed fits small
      (λ fuel r. read_from-panicked clock now fuel r)
      (next-overflow clock now m rest ranges over
        (record { front = file_bytes clock fs; split = refl; behind = refl }))

-- An item takes 32 bytes at least, and stays inside the file.
next-progress :
    (clock : ClockApi) (now : SystemTime) (r : Reader) {f : Fragment} {r' : Reader}
    → next clock now r ≡ (item f, r')
    → (r'.bytes ≡ r.bytes) × (r.offset + 32 ≤ r'.offset) × (r'.offset ≤ length r.bytes)
unfolding next read_headers read_cluster
next-progress clock now r e = elim (Option-cases (read_metadata r)) [
  | inl unread ↦ ground arith
  | inr (m, read) ↦ ground arith
]

-- A walk's result from an offset in a file of this size: it ended, and its records fit.
IsWithin : ℕ → ℕ → List Fragment × Ending → Type 0
IsWithin offset size (fs, e) = (e ≢ exhausted) × (offset + 32 * length fs ≤ size)

-- One round, where the walk from the next reader is within its bounds.
read_from-round :
    (clock : ClockApi) (now : SystemTime) (fuel : ℕ) (r : Reader)
    → r.offset ≤ length r.bytes
    → ((r' : Reader)
        → r'.bytes ≡ r.bytes
        → r.offset + 32 ≤ r'.offset
        → r'.offset ≤ length r.bytes
        → IsWithin r'.offset (length r.bytes) (read_from clock now fuel r'))
    → (x : Next) (r' : Reader) → next clock now r ≡ (x, r')
    → IsWithin r.offset (length r.bytes) (read_from clock now (suc fuel) r)
unfolding IsWithin
read_from-round clock now fuel r inside ih eof r' e =
    rw (read_from-eof clock now fuel r e) ((λ p. cc), omega arith)
read_from-round clock now fuel r inside ih panicked r' e =
    rw (read_from-panicked clock now fuel r e) ((λ p. cc), omega arith)
read_from-round clock now fuel r inside ih (item f) r' e =
    let (same, ahead, within) = next-progress clock now r e in
    let (ended, fit) = ih r' same ahead within in
    rw (read_from-item clock now fuel r e) (ended, omega arith)

read_from-IsWithin :
    (clock : ClockApi) (now : SystemTime) (fuel : ℕ) (r : Reader)
    → r.offset ≤ length r.bytes
    → length r.bytes < r.offset + 32 * fuel
    → IsWithin r.offset (length r.bytes) (read_from clock now fuel r)
read_from-IsWithin clock now zero r inside h = absurd (omega arith)
read_from-IsWithin clock now (suc fuel) r inside h =
    let (x, r') = next clock now r in
    read_from-round clock now fuel r inside
      (λ r'' same ahead within.
        subst (λ l. IsWithin r''.offset (length l) (read_from clock now fuel r'')) same
          (read_from-IsWithin clock now fuel r'' (omega (arith, ap length same))
            (omega (arith, ap length same))))
      x r' refl

-- Whatever the bytes of a file are, the walk over it ends by the reader's own decision, after at
-- most one fragment for each 32 bytes.
pub read_file_total :
    (clock : ClockApi) (now : SystemTime) (bytes : List ℕ)
    → let (fs, e) = read_file clock now bytes in (e ≢ exhausted) × (32 * length fs ≤ length bytes)
unfolding read_file reader IsWithin
read_file_total clock now bytes =
    let (ended, fit) =
      read_from-IsWithin clock now (suc (length bytes)) (reader bytes) (omega arith)
        (omega arith) in
    (ended, omega arith)
