-- ===== src/Buffer/Store/Append.antt =====
-- `append_current`: one fragment goes behind those that the current file holds.
use gst_kvs_sink.Common.{
  ℕ, ◌≡◌, sym, ap, ◌∙◌, List, [], ◌∷◌, ◌++◌, map, append_assoc, append-nil, All,
}
use gst_kvs_sink.Common.Words.{IsU64}
use gst_kvs_sink.Common.Time.{SystemTime, ClockApi}
use gst_kvs_sink.Fragment.{Fragment}
use gst_kvs_sink.ClusterFile.{record_bytes, file_bytes, read_file, finished, stored}
use gst_kvs_sink.Buffer.World.{Buffer}

pub file_bytes-append :
    (clock : ClockApi) (gs : List Fragment) (f : Fragment)
    → file_bytes clock (gs ++ (f ∷ [])) ≡ file_bytes clock gs ++ record_bytes clock f
unfolding file_bytes
file_bytes-append clock [] f = append-nil (record_bytes clock f)
file_bytes-append clock (g ∷ gs) f =
    ap (λ l. record_bytes clock g ++ l) (file_bytes-append clock gs f)
    ∙ sym (append_assoc (record_bytes clock g) (file_bytes clock gs) (record_bytes clock f))

abbrev pub HaveU64 : List Fragment → Type 0
HaveU64 gs = All (λ g. IsU64 g.duration) gs

pub HaveU64-append :
    (gs : List Fragment) (f : Fragment) → HaveU64 gs → IsU64 f.duration → HaveU64 (gs ++ (f ∷ []))
HaveU64-append [] f h fit = (fit, tt)
HaveU64-append (g ∷ gs) f (h, hs) fit = (h, HaveU64-append gs f hs fit)

-- What a reader finds in a file is these fragments.
abbrev pub Reads : ClockApi → List ℕ → List Fragment → Type 0
Reads clock bytes gs =
    (t : SystemTime) → read_file clock t bytes ≡ (map (stored clock) gs, finished)
