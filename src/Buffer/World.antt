-- ===== src/Buffer/World.antt =====
-- The state of `BufferedUploadManager`, with the buffer directory, the clock and the uploader
-- that it works on, and the operations of the standard library on these.
use gst_kvs_sink.Common.{
  ℕ, suc, Bool, true, false, Option, none, some, List, [], ◌∷◌, ◌++◌, ◌&&◌, take, ◌==◌,
  if◌then◌else◌, Text, codes, Result, ok, err, panic, with_context,
}
use gst_kvs_sink.Common.Time.{SystemTime, Duration}

-- A file of the buffer directory, by its name in `base_dir`.
abbrev pub FileName : Type 0
FileName = Text

unfoldable pub text_eq : Text → Text → Bool
text_eq [] [] = true
text_eq [] (b ∷ ys) = false
text_eq (a ∷ xs) [] = false
text_eq (a ∷ xs) (b ∷ ys) = a == b && text_eq xs ys

-- `MegaClusterFile`.
pub record MegaClusterFile : Type 0 where
  pub file_path : FileName
  pub start_time : SystemTime
  pub end_time : SystemTime
  pub file_size : ℕ
  pub cluster_count : ℕ
  pub uploaded : Bool
  pub upload_attempts : ℕ
  pub last_upload_attempt : Option SystemTime
  pub last_upload_error : Option Text

-- `CurrentMegaClusterFile`; the open file is known by its name.
pub record CurrentMegaClusterFile : Type 0 where
  pub file_path : FileName
  pub file_created_at : SystemTime
  pub start_time : SystemTime
  pub last_fragment_time : SystemTime
  pub current_size : ℕ
  pub cluster_count : ℕ

pub data BufferManagerEvent : Type 0 where
  historical_upload_complete : Bool → BufferManagerEvent
  upload_error : Text → BufferManagerEvent

-- How the next file operation goes: well, or with an error, which for a write comes after some
-- of its bytes are in the file.
pub data Outcome : Type 0 where
  fine : Outcome
  fails : ℕ → Text → Outcome

-- The manager's fields, and what it acts on: the directory's files, how the coming file
-- operations go (well, once the list is used up), the readings of the clock, the static call
-- counter, and the uploader's state. `events` holds what the channel received, if one is set.
pub record Buffer (U : Type 0) : Type 0 where
  pub stream_name : Text
  pub max_buffer_duration : Duration
  pub last_fragment_time : Option SystemTime
  pub current_mega_cluster : Option CurrentMegaClusterFile
  pub mega_cluster_files : List MegaClusterFile
  pub events : Option (List BufferManagerEvent)
  pub disk : List (FileName × List ℕ)
  pub outcomes : List Outcome
  pub clock : ℕ → SystemTime
  pub readings : ℕ
  pub call_counter : ℕ
  pub uploader : U

-- The directory as a dictionary.
unfoldable pub lookup : FileName → List (FileName × List ℕ) → Option (List ℕ)
lookup p [] = none
lookup p ((q, bytes) ∷ d) = if text_eq q p then some bytes else lookup p d

unfoldable pub insert : FileName → List ℕ → List (FileName × List ℕ) → List (FileName × List ℕ)
insert p bytes [] = (p, bytes) ∷ []
insert p bytes ((q, old) ∷ d) = if text_eq q p then (q, bytes) ∷ d else (q, old) ∷ insert p bytes d

unfoldable pub erase : FileName → List (FileName × List ℕ) → List (FileName × List ℕ)
erase p [] = []
erase p ((q, bytes) ∷ d) = if text_eq q p then erase p d else (q, bytes) ∷ erase p d

-- Bytes reach the directory's file while it is there.
unfoldable pub append_bytes :
    FileName → List ℕ → List (FileName × List ℕ) → List (FileName × List ℕ)
append_bytes p bytes d = elim (lookup p d) [ none ↦ d | some old ↦ insert p (old ++ bytes) d ]

-- How the operation at hand goes.
abbrev pub head_outcome : List Outcome → Outcome
head_outcome [] = fine
head_outcome (o ∷ os) = o

abbrev pub rest_outcomes : List Outcome → List Outcome
rest_outcomes [] = []
rest_outcomes (o ∷ os) = os

-- A method: what was changed before an error stays changed.
abbrev pub Action : Type 0 → Type 0 → Type 0
Action U A = Buffer U → Result A × Buffer U

module _ {U : Type 0} where
  abbrev pub pure : {A : Type 0} → A → Action U A
  pure a s = (ok a, s)

  abbrev pub fail : {A : Type 0} → Text → Action U A
  fail e s = (err e, s)

  infixl 5 ◌>>=◌ ◌>>◌
  abbrev pub ◌>>=◌ : {A B : Type 0} → Action U A → (A → Action U B) → Action U B
  ◌>>=◌ m f s =
      let (r, s') = m s in elim r [ ok a ↦ f a s' | err e ↦ (err e, s') | panic ↦ (panic, s') ]

  abbrev pub ◌>>◌ : {A B : Type 0} → Action U A → Action U B → Action U B
  ◌>>◌ m k s =
      let (r, s') = m s in elim r [ ok a ↦ k s' | err e ↦ (err e, s') | panic ↦ (panic, s') ]

  abbrev pub context : {A : Type 0} → Option Text → Action U A → Action U A
  context none m s = m s
  context (some t) m s = let (r, s') = m s in (with_context t r, s')

  -- `SystemTime::now()`.
  abbrev pub now : Action U SystemTime
  now s = (ok (s.clock s.readings), record s { readings = suc s.readings })

  abbrev pub attempt : Buffer U → Outcome × Buffer U
  attempt s = (head_outcome s.outcomes, record s { outcomes = rest_outcomes s.outcomes })

  -- An operation that changes no file: flush, sync.
  abbrev pub touch : Action U Unit
  touch s = let (o, s') = attempt s in elim o [ fine ↦ (ok tt, s') | fails n e ↦ (err e, s') ]

  -- `File::create`: an existing file is emptied.
  unfoldable pub create_file : FileName → Action U Unit
  create_file p s =
      let (o, s') = attempt s in
      elim o [ fine ↦ (ok tt, record s' { disk = insert p [] s'.disk }) | fails n e ↦ (err e, s') ]

  -- `write_all` at the end of an open file.
  unfoldable pub write_all : FileName → List ℕ → Action U Unit
  write_all p bytes s =
      let (o, s') = attempt s in
      elim o [
        | fine ↦ (ok tt, record s' { disk = append_bytes p bytes s'.disk })
        | fails n e ↦ (err e, record s' { disk = append_bytes p (take n bytes) s'.disk })
      ]

  unfoldable pub read_bytes : FileName → Action U (List ℕ)
  read_bytes p s =
      let (o, s') = attempt s in
      elim o [
        | fine ↦ elim (lookup p s'.disk) [
          | none ↦ (err (codes "No such file or directory"), s')
          | some bytes ↦ (ok bytes, s')
        ]
        | fails n e ↦ (err e, s')
      ]

  -- `remove_file`.
  unfoldable pub remove_file : FileName → Action U Unit
  remove_file p s =
      let (o, s') = attempt s in
      elim o [
        | fine ↦ elim (lookup p s'.disk) [
          | none ↦ (err (codes "No such file or directory"), s')
          | some bytes ↦ (ok tt, record s' { disk = erase p s'.disk })
        ]
        | fails n e ↦ (err e, s')
      ]
