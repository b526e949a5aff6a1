-- ===== src/ClusterFile/RoundTrip.antt =====
-- Reading back what `append_fragment_to_mega_cluster` wrote.
use mathlib.Core.Path.{subst}
use gst_kvs_sink.Common.{
  ◌/◌, ℕ, suc, ◌+◌, ◌-◌, ◌≤◌, ◌<◌, ◌^◌, ◌≡◌, refl, sym, ap, ◌∙◌, some, List, [], ◌∷◌, ◌++◌, map,
  append-nil, append_assoc, arith, ltb-false, ltb-true, leb-false, length, length-append, All,
}
use gst_kvs_sink.Common.Words.{
  u64_limit, IsU64, u64_to_le_bytes, from-to_le_bytes, length-u64_to_le_bytes,
}
use gst_kvs_sink.Common.Time.{SystemTime, ClockApi}
use gst_kvs_sink.Fragment.{Fragment}
use gst_kvs_sink.ClusterFile.{
  timestamp_ms, Metadata, metadata, Reader, item, read_u64, read_metadata, read_cluster,
  read_headers, next, eof, panicked, Ending, finished, crashed, read_from, reader, read_file,
  record_bytes, file_bytes, stored,
}
use gst_kvs_sink.ClusterFile.Cursor.{IsAt, IsAt-skip, IsAt-slice, IsAt-length, IsAt-start}

read_u64-IsAt :
    (n : ℕ) (rest : List ℕ) {bytes : List ℕ} {at : ℕ}
    → IsU64 n
    → IsAt bytes at (u64_to_le_bytes n ++ rest)
    → read_u64 bytes at ≡ some n
unfolding read_u64
read_u64-IsAt n rest {at} fits h =
    rw
      (IsAt-slice (u64_to_le_bytes n) rest {to = at + 8} h
        (omega (arith, length-u64_to_le_bytes n)))
      (rw length-u64_to_le_bytes (ap some (from-to_le_bytes n fits)))

IsAt-past_u64 :
    (n : ℕ) (rest : List ℕ) {bytes : List ℕ} {at to : ℕ}
    → to ≡ at + 8
    → IsAt bytes at (u64_to_le_bytes n ++ rest)
    → IsAt bytes to rest
IsAt-past_u64 n rest e h =
    IsAt-skip (u64_to_le_bytes n) rest h (omega (arith, e, length-u64_to_le_bytes n))

-- The four numbers of a record's header, and the bytes behind them.
unfoldable pub header : Metadata → List ℕ → List ℕ
header m rest =
    u64_to_le_bytes m.cluster_size
    ++ (u64_to_le_bytes m.timestamp
        ++ (u64_to_le_bytes m.duration ++ (u64_to_le_bytes m.header_size ++ rest)))

unfoldable pub IsInRange : Metadata → Type 0
IsInRange m = IsU64 m.cluster_size × IsU64 m.timestamp × IsU64 m.duration × IsU64 m.header_size

pub read_metadata-header :
    (m : Metadata) (rest : List ℕ) {bytes : List ℕ} {at : ℕ}
    → IsInRange m
    → IsAt bytes at (header m rest)
    → (read_metadata (record { bytes = bytes; offset = at }) ≡ some m) × IsAt bytes (at + 32) rest
unfolding read_metadata header IsInRange
read_metadata-header m rest {at} (c, t, d, s) h0 =
    let h1 = IsAt-past_u64 m.cluster_size _ {to = at + 8} refl h0 in
    let h2 = IsAt-past_u64 m.timestamp _ {to = at + 16} (omega arith) h1 in
    let h3 = IsAt-past_u64 m.duration _ {to = at + 24} (omega arith) h2 in
    (
      rw (
        read_u64-IsAt _ _ c h0,
        read_u64-IsAt _ _ t h1,
        read_u64-IsAt _ _ d h2,
        read_u64-IsAt _ _ s h3,
      ),
      IsAt-past_u64 m.header_size rest (omega arith) h3,
    )

module _ (clock : ClockApi) (f : Fragment) where
  pub record_bytes-append :
      (rest : List ℕ)
      → record_bytes clock f ++ rest
        ≡ header (metadata clock f) (f.header_data ++ (f.cluster_data ++ rest))
  unfolding record_bytes metadata header
  record_bytes-append rest = simp (append-nil, append_assoc)

  pub length-record_bytes :
      length (record_bytes clock f) ≡ 32 + length f.header_data + length f.cluster_data
  unfolding record_bytes metadata
  length-record_bytes = simp (append-nil, length-append, length-u64_to_le_bytes) (omega arith)

  pub metadata-IsInRange :
      IsU64 f.duration
      → length f.header_data < 2 ^ 63
      → length f.cluster_data < 2 ^ 63
      → IsInRange (metadata clock f)
  unfolding IsInRange metadata timestamp_ms
  metadata-IsInRange d h c = omega (arith, clock.mseconds_lem f.duration)

  read_cluster-IsAt :
      (now : SystemTime) (rest : List ℕ) {bytes : List ℕ} {at : ℕ}
      → IsU64 f.duration
      → length bytes < 2 ^ 63
      → IsAt bytes at (f.cluster_data ++ rest)
      → read_cluster clock now
          (metadata clock f)
          f.header_data
          (record { bytes = bytes; offset = at })
        ≡ (item (stored clock f), record { bytes = bytes; offset = at + length f.cluster_data })
  unfolding read_cluster stored metadata
  read_cluster-IsAt now rest {bytes} {at} fit small h =
      let n = IsAt-length h in
      let a = length-append f.cluster_data rest in
      rw (
        leb-false u64_limit (at + length f.cluster_data) (omega (arith, n, a)),
        ltb-false (length bytes) (at + length f.cluster_data) (omega (arith, n, a)),
        clock.mseconds_lem f.duration,
        clock.from_mseconds_lem (f.duration / 1_000_000) (omega arith),
        IsAt-slice f.cluster_data rest {to = at + length f.cluster_data} h refl,
      )

  read_headers-IsAt :
      (now : SystemTime) (rest : List ℕ) {bytes : List ℕ} {at : ℕ}
      → IsU64 f.duration
      → length bytes < 2 ^ 63
      → IsAt bytes at (f.header_data ++ (f.cluster_data ++ rest))
      → read_headers clock now (metadata clock f) (record { bytes = bytes; offset = at }) ≡ (
        item (stored clock f),
        record { bytes = bytes; offset = at + length f.header_data + length f.cluster_data },
      )
  unfolding read_headers metadata
  read_headers-IsAt now rest {bytes} {at} fit small h =
      let n = IsAt-length h in
      let a = length-append f.header_data (f.cluster_data ++ rest) in
      rw
        (
          leb-false u64_limit (at + length f.header_data) (omega (arith, n, a)),
          ltb-false (length bytes) (at + length f.header_data) (omega (arith, n, a)),
          IsAt-slice f.header_data (f.cluster_data ++ rest) {to = at + length f.header_data} h refl,
        )
        (read_cluster-IsAt now rest fit small
          (IsAt-skip f.header_data (f.cluster_data ++ rest) h refl))

  -- One call of `next` at a whole record yields what was stored, and goes on behind it.
  pub next-record :
      (now : SystemTime) (rest : List ℕ) {bytes : List ℕ} {at : ℕ}
      → IsU64 f.duration
      → length bytes < 2 ^ 63
      → IsAt bytes at (record_bytes clock f ++ rest)
      → next clock now (record { bytes = bytes; offset = at }) ≡ (
        item (stored clock f),
        record { bytes = bytes; offset = at + length (record_bytes clock f) },
      )
  unfolding next
  next-record now rest {bytes} {at} fits small h =
      let n = IsAt-length h in
      let a = length-append (record_bytes clock f) rest in
      let whole = subst (IsAt bytes at) (record_bytes-append rest) h in
      let body = f.header_data ++ (f.cluster_data ++ rest) in
      let (m, past) =
        read_metadata-header (metadata clock f) body
          (metadata-IsInRange fits (omega (arith, n, a, length-record_bytes))
            (omega (arith, n, a, length-record_bytes)))
          whole in
      rw (ltb-false (length bytes) (at + 32) (omega (arith, n, a, length-record_bytes)), m)
        (read_headers-IsAt now rest fits small past
          ∙ ap (λ o. (item (stored clock f), record { bytes = bytes; offset = o }))
              (omega (arith, length-record_bytes)))

pub length-le-file_bytes :
    (clock : ClockApi) (fs : List Fragment) → length fs ≤ length (file_bytes clock fs)
unfolding file_bytes
length-le-file_bytes clock [] = omega arith
length-le-file_bytes clock (f ∷ fs) = omega (
  arith,
  length-append (record_bytes clock f) (file_bytes clock fs),
  length-record_bytes clock f,
  length-le-file_bytes clock fs,
)

-- The fuel that is left over after one round for each element.
abbrev pub fuel_past : List Fragment → ℕ → ℕ
fuel_past [] fuel = fuel
fuel_past (f ∷ fs) fuel = suc (fuel_past fs fuel)

pub fuel_past_lem : (fs : List Fragment) (fuel : ℕ) → fuel_past fs fuel ≡ length fs + fuel
fuel_past_lem [] fuel = omega arith
fuel_past_lem (f ∷ fs) fuel = omega (arith, fuel_past_lem fs fuel)

abbrev pub prepend : List Fragment → List Fragment × Ending → List Fragment × Ending
prepend fs (gs, e) = (fs ++ gs, e)

-- One round of the walk, by what `next` returns.
module _ (clock : ClockApi) (now : SystemTime) (fuel : ℕ) (r : Reader) {r' : Reader} where
  pub read_from-item :
      {f : Fragment}
      → next clock now r ≡ (item f, r')
      → read_from clock now (suc fuel) r ≡ prepend (f ∷ []) (read_from clock now fuel r')
  unfolding read_from
  read_from-item e = ground arith

  pub read_from-eof :
      next clock now r ≡ (eof, r') → read_from clock now (suc fuel) r ≡ ([], finished)
  unfolding read_from
  read_from-eof e = ground arith

  pub read_from-panicked :
      next clock now r ≡ (panicked, r') → read_from clock now (suc fuel) r ≡ ([], crashed)
  unfolding read_from
  read_from-panicked e = ground arith

-- A walk over whole records yields each of them as it was stored, and goes on at what follows.
pub read_from-file_bytes :
    (clock : ClockApi) (now : SystemTime) (fs : List Fragment) (rest : List ℕ) (fuel : ℕ)
    {bytes : List ℕ} {at end : ℕ}
    → All (λ f. IsU64 f.duration) fs
    → length bytes < 2 ^ 63
    → IsAt bytes at (file_bytes clock fs ++ rest)
    → end ≡ at + length (file_bytes clock fs)
    → read_from clock now (fuel_past fs fuel) (record { bytes = bytes; offset = at })
      ≡ prepend
          (map (stored clock) fs)
          (read_from clock now fuel (record { bytes = bytes; offset = end }))
unfolding file_bytes
read_from-file_bytes clock now [] rest fuel {bytes} {at} {end} fits small h e =
    ap (λ o. read_from clock now fuel (record { bytes = bytes; offset = o })) (omega arith)
read_from-file_bytes clock now (f ∷ fs) rest fuel {bytes} {at} {end} (fit, fits) small h e =
    let tail = file_bytes clock fs in
    let here = subst (IsAt bytes at) (append_assoc (record_bytes clock f) tail rest) h in
    let past = IsAt-skip (record_bytes clock f) (tail ++ rest) here refl in
    let e' : end ≡ at + length (record_bytes clock f) + length tail =
      omega (arith, e, length-append (record_bytes clock f) tail) in
    read_from-item clock now (fuel_past fs fuel) _
      (next-record clock f now (tail ++ rest) fit small here)
    ∙ ap (prepend (stored clock f ∷ []))
        (read_from-file_bytes clock now fs rest fuel fits small past e')

-- At the end of the file `next` returns `None`.
pub next-end :
    (clock : ClockApi) (now : SystemTime) (bytes : List ℕ) {at : ℕ}
    → length bytes < at + 32
    → next clock now (record { bytes = bytes; offset = at })
      ≡ (eof, record { bytes = bytes; offset = at })
unfolding next
next-end clock now bytes {at} h = rw (ltb-true (length bytes) (at + 32) h)

pub read-file_bytes :
    (clock : ClockApi) (now : SystemTime) (fs : List Fragment)
    → All (λ f. IsU64 f.duration) fs
    → length (file_bytes clock fs) < 2 ^ 63
    → read_file clock now (file_bytes clock fs) ≡ (map (stored clock) fs, finished)
unfolding read_file
read-file_bytes clock now fs fits small =
    let bytes = file_bytes clock fs in
    let spare = length bytes - length fs in
    let fuel : suc (length bytes) ≡ fuel_past fs (suc spare) =
      omega (arith, fuel_past_lem fs (suc spare), length-le-file_bytes clock fs) in
    let start = subst (IsAt bytes 0) (sym (append-nil bytes)) (IsAt-start bytes) in
    ap (λ n. read_from clock now n (reader bytes)) fuel
    ∙ read_from-file_bytes clock now fs [] (suc spare) {end = length bytes} fits small start
        (omega arith)
    ∙ ap (prepend (map (stored clock) fs))
        (read_from-eof clock now spare _ (next-end clock now bytes (omega arith)))
    ∙ ap (λ l. (l, finished)) (append-nil (map (stored clock) fs))
