-- ===== src/Buffer/Upload/Pushes.antt =====
-- Calls of `push_fragment` on the buffer as one log.
use mathlib.Core.Path.{subst}
use mathlib.Core.List.{map-append}
use gst_kvs_sink.Common.{
  ◌+◌, Result, ℕ, suc, ◌-◌, ◌^◌, ◌<◌, ◌≤◌, ◌≡◌, ◌≢◌, refl, sym, ap, ◌∙◌, true, false, Bool-cases,
  none, List, [], ◌∷◌, ◌++◌, arith, append_assoc, append-nil, ok, All, length, length-append, inl,
  inr, ◌⊎◌,
}
use gst_kvs_sink.Common.Words.{IsU64}
use gst_kvs_sink.Common.Time.{SystemTime, ClockApi, unix_epoch, as_millis}
use gst_kvs_sink.Fragment.{Fragment}
use gst_kvs_sink.ClusterFile.{record_bytes, file_bytes}
use gst_kvs_sink.Buffer.Names.{file_name}
use gst_kvs_sink.Buffer.World.{CurrentMegaClusterFile, Buffer}
use gst_kvs_sink.Buffer.Store.{is_due, queued, append_current, push_fragment, new_file, counted}
use gst_kvs_sink.Buffer.Store.Went
use gst_kvs_sink.Buffer.Store.Went.{new_name, begun}
use gst_kvs_sink.Buffer.Upload.Delivered.{Stock}
use gst_kvs_sink.Buffer.Upload.Backlog.{with_current, All-append, AreStored-append}
use gst_kvs_sink.Buffer.Upload.Log.{
  IsWaiting, Log, HasNewName, Keeps, append_current-Log, begun-Log, counted-Log, then_push,
  All-files_of,
}

-- The fragments that these files hold.
abbrev pub held : List Stock → List Fragment
held [] = []
held ((file, gs) ∷ stock) = gs ++ held stock

pub held-with_current :
    (c : CurrentMegaClusterFile) (gs : List Fragment) (stock : List Stock)
    → held (with_current c gs stock) ≡ held stock ++ gs
held-with_current c gs [] = append-nil gs
held-with_current c gs ((file, fs) ∷ stock) =
    ap (λ l. fs ++ l) (held-with_current c gs stock) ∙ sym (append_assoc fs (held stock) gs)

file_bytes-join :
    (clock : ClockApi) (fs gs : List Fragment)
    → length (file_bytes clock gs) ≤ length (file_bytes clock (fs ++ gs))
unfolding file_bytes
file_bytes-join clock [] gs = omega arith
file_bytes-join clock (f ∷ fs) gs = omega (
  arith,
  length-append (record_bytes clock f) (file_bytes clock (fs ++ gs)),
  file_bytes-join clock fs gs,
)

small-end :
    (clock : ClockApi) (fs gs : List Fragment)
    → length (file_bytes clock (fs ++ gs)) < 2 ^ 63
    → length (file_bytes clock gs) < 2 ^ 63
small-end clock fs gs h = omega (arith, file_bytes-join clock fs gs)

-- Less than half an hour old, and smaller than 45,000,000 bytes.
abbrev pub IsYoung : SystemTime → CurrentMegaClusterFile → Type 0
IsYoung t c = (t < c.file_created_at + 1_800_000_000_000) × (c.current_size < 45_000_000)

abbrev pub IsOld : SystemTime → CurrentMegaClusterFile → Type 0
IsOld t c = (c.file_created_at + 1_800_000_000_000 ≤ t) ⊎ (45_000_000 ≤ c.current_size)

-- Nothing is buffered.
pub record IsVoid {U : Type 0} (s : Buffer U) : Type 0 where
  pub healthy : s.outcomes ≡ []
  pub epoch : (n : ℕ) → unix_epoch ≤ s.clock n
  pub closed : s.current_mega_cluster ≡ none
  pub empty : s.mega_cluster_files ≡ []

-- The buffer is a log of these fragments.
abbrev pub IsLogOf : {U : Type 0} → ClockApi → Buffer U → List Fragment → Type 0
IsLogOf clock s fs =
    (IsVoid s × (fs ≡ []))
    ⊎ ((stock : List Stock) × (c : CurrentMegaClusterFile) × (last : List Fragment) × Log clock s
          stock c last
        × (held stock ++ last ≡ fs))

module _ {U : Type 0} (clock : ClockApi) (f : Fragment) where
  push_fragment-void :
      (s : Buffer U)
      → IsVoid s
      → IsU64 f.duration
      → length (file_bytes clock (f ∷ [])) < 2 ^ 63
      → (c : CurrentMegaClusterFile) × Keeps clock f [] c (f ∷ []) (push_fragment clock f s)
  push_fragment-void s h fit small =
      let p = file_name s.stream_name (as_millis (s.clock s.readings - unix_epoch)) in
      let s' = begun p f.timestamp s in
      let log = begun-Log clock f p f.timestamp s [] h.epoch h.empty tt tt tt in
      (
        counted f (new_file p (s.clock s.readings) f.timestamp),
        then_push clock f s (append_current clock f s').0 (append_current clock f s').1
            (Went.append_fragment_rotates clock f s (Went.should_rotate-none s h.closed)
              (Went.close_current-none s h.closed)
              (Went.start_new-begun f.timestamp s h.healthy (h.epoch s.readings)))
            (append_current-Log clock f s' log fit small),
      )

  push_fragment-stays :
      (s : Buffer U) {stock : List Stock} {c : CurrentMegaClusterFile} {last : List Fragment}
      → Log clock s stock c last
      → is_due (s.clock s.readings) c ≡ false
      → IsU64 f.duration
      → length (file_bytes clock (last ++ (f ∷ []))) < 2 ^ 63
      → Keeps clock f stock (counted f c) (last ++ (f ∷ [])) (push_fragment clock f s)
  push_fragment-stays s {c = c} h due fit small =
      let s' : Buffer U = record s { readings = suc s.readings } in
      let log = counted-Log clock f s {n = s.call_counter} {m = suc s.readings} h in
      then_push clock f s (append_current clock f s').0 (append_current clock f s').1
        (Went.append_fragment_stays clock f s
          (Went.should_rotate_open s h.there ∙ ap (λ b. (ok b, s')) due))
        (append_current-Log clock f s' log fit small)

  push_fragment-rotates :
      (s : Buffer U) {stock : List Stock} {c : CurrentMegaClusterFile} {last : List Fragment}
      → Log clock s stock c last
      → HasNewName s
      → is_due (s.clock s.readings) c ≡ true
      → IsU64 f.duration
      → length (file_bytes clock (f ∷ [])) < 2 ^ 63
      → (c' : CurrentMegaClusterFile) × (c'.file_path ≡ new_name s)
        × Keeps clock f (with_current c last stock) c' (f ∷ []) (push_fragment clock f s)
  unfolding queued counted
  push_fragment-rotates s {stock} {c} {last} h new_ due fit small =
      let s₁ : Buffer U = record s { readings = suc s.readings } in
      let s₂ : Buffer U = record s₁ {
        current_mega_cluster = none;
        mega_cluster_files = s.mega_cluster_files ++ (queued c ∷ []);
        outcomes = [];
      } in
      let s' = begun (new_name s) f.timestamp s₂ in
      let log =
        begun-Log clock f (new_name s) f.timestamp s₂ (with_current c last stock) h.epoch
          (ap (λ l. l ++ (queued c ∷ [])) h.queue
            ∙ sym (map-append (λ (x : Stock). x.0) stock ((queued c, last) ∷ [])))
          (All-append (λ (x : Stock). IsWaiting x.0) stock (queued c, last) h.waiting
            (record { not_uploaded = refl; untried = refl }))
          (AreStored-append clock s.disk stock (queued c) last h.stored_ h.apart h.content h.fits
            h.small)
          (All-append (λ (x : Stock). x.0.file_path ≢ new_name s) stock (queued c, last)
            (All-files_of (λ m. m.file_path ≢ new_name s) stock
              (subst (All (λ m. m.file_path ≢ new_name s)) h.queue new_.closed))
            (new_.open_ c h.there)) in
      (
        counted f (new_file (new_name s) (s.clock (suc s.readings)) f.timestamp),
        refl,
        then_push clock f s (append_current clock f s').0 (append_current clock f s').1
            (Went.append_fragment_rotates clock f s
              (Went.should_rotate_open s h.there ∙ ap (λ b. (ok b, s₁)) due)
              (Went.close_current_open s₁ h.healthy h.there)
              (Went.start_new-begun f.timestamp s₂ refl (h.epoch (suc s.readings))))
            (append_current-Log clock f s' log fit small),
      )

  -- A push of this fragment to such a log: which file it goes to, by the age and the size of the
  -- current one.
  pub record Pushed (s : Buffer U) (stock : List Stock) (c : CurrentMegaClusterFile)
      (last : List Fragment) (r : Result (Unit {0}) × Buffer U) : Type 0 where
    pub came : r.0 ≡ ok tt
    pub log :
        (IsYoung (s.clock s.readings) c × Log clock r.1 stock (counted f c) (last ++ (f ∷ [])))
        ⊎ (IsOld (s.clock s.readings) c
            × ((c' : CurrentMegaClusterFile) × (c'.file_path ≡ new_name s)
                × Log clock r.1 (with_current c last stock) c' (f ∷ [])))

  -- One more fragment of a log.
  pub push_fragment-IsLogOf :
      (s : Buffer U) (fs : List Fragment)
      → IsLogOf clock s fs
      → HasNewName s
      → IsU64 f.duration
      → length (file_bytes clock (fs ++ (f ∷ []))) < 2 ^ 63
      → ((push_fragment clock f s).0 ≡ ok tt)
        × IsLogOf clock (push_fragment clock f s).1 (fs ++ (f ∷ []))
  push_fragment-IsLogOf s fs (inl (void, e)) new_ fit small =
      let (c, (came, log)) = push_fragment-void s void fit (small-end clock fs (f ∷ []) small) in
      (came, inr ([], c, f ∷ [], log, ap (λ l. l ++ (f ∷ [])) (sym e)))
  push_fragment-IsLogOf s fs (inr (stock, c, last, log, e)) new_ fit small =
      let whole : held stock ++ (last ++ (f ∷ [])) ≡ fs ++ (f ∷ []) =
        sym (append_assoc (held stock) last (f ∷ [])) ∙ ap (λ l. l ++ (f ∷ [])) e in
      elim (Bool-cases (is_due (s.clock s.readings) c)) [
        | inl due ↦
            let (c', name, (came, log')) =
              push_fragment-rotates s log new_ due fit (small-end clock fs (f ∷ []) small) in
            (
              came,
              inr (
                with_current c last stock,
                c',
                f ∷ [],
                log',
                ap (λ l. l ++ (f ∷ [])) (held-with_current c last stock ∙ e),
              ),
            )
        | inr stays ↦
            let (came, log') = push_fragment-stays s log stays fit (
              small-end clock (held stock) (last ++ (f ∷ []))
                (subst (λ l. length (file_bytes clock l) < 2 ^ 63) (sym whole) small)) in
            (came, inr (stock, counted f c, last ++ (f ∷ []), log', whole))
      ]
