-- ===== src/Buffer/Store/Faults.antt =====
-- What a record's writes leave in the file, whichever of them fails.
use gst_kvs_sink.Common.{
  ℕ, zero, suc, ◌≤◌, ◌≡◌, ◌≢◌, refl, ap, ◌∙◌, some, List, [], ◌∷◌, ◌++◌, append_assoc, append-nil,
  arith, length, take, Result, ok, err, panic,
}
use gst_kvs_sink.ClusterFile.{Write, concat}
use gst_kvs_sink.Buffer.World.{
  FileName, lookup, append_bytes, Outcome, fine, fails, Buffer, head_outcome, rest_outcomes,
  context, write_all,
}
use gst_kvs_sink.Buffer.Disk.{Disk, lookup-append_bytes, lookup-append_bytes_ne}
use gst_kvs_sink.Buffer.Store.{write_each}

pub take-all : (n : ℕ) (xs : List ℕ) → length xs ≤ n → take n xs ≡ xs
take-all zero [] h = refl
take-all (suc n) [] h = refl
take-all zero (x ∷ xs) h = absurd (omega arith)
take-all (suc n) (x ∷ xs) h = ap (λ l. x ∷ l) (take-all n xs (omega arith))

-- A state in which writes to the file `p` have put `done` behind `old`, and nothing else is new
-- but the outcomes that are used up. `whole` says that all went well.
pub record Wrote {U : Type 0} (p : FileName) (old chunk : List ℕ) (s : Buffer U)
    (r : Result (Unit {0}) × Buffer U) : Type 0 where
  pub done : List ℕ
  pub disk : Disk
  pub outcomes : List Outcome
  pub state : r.1 ≡ record s { disk = disk; outcomes = outcomes }
  pub content : lookup p disk ≡ some (old ++ done)
  pub part : (k : ℕ) × (done ≡ take k chunk)
  pub whole : r.0 ≡ ok tt → done ≡ chunk
  pub others : (q : FileName) → q ≢ p → lookup q disk ≡ lookup q s.disk
  pub healthy : s.outcomes ≡ [] → (r.0 ≡ ok tt) × (outcomes ≡ [])

-- How many bytes a write puts into the file.
abbrev reach : Outcome → ℕ → ℕ
reach fine n = n
reach (fails k e) n = k

write_all_state :
    {U : Type 0} (w : Write) (p : FileName) (s : Buffer U)
    → (context w.context (write_all p w.bytes) s).1 ≡ record s {
      disk =
          append_bytes p (take (reach (head_outcome s.outcomes) (length w.bytes)) w.bytes) s.disk;
      outcomes = rest_outcomes s.outcomes;
    }
unfolding write_all
write_all_state w p s = ground (arith, take-all (length w.bytes) w.bytes (omega arith))

write_all_ok :
    {U : Type 0} (w : Write) (p : FileName) (s : Buffer U)
    → (context w.context (write_all p w.bytes) s).0 ≡ ok tt
    → head_outcome s.outcomes ≡ fine
unfolding write_all
write_all_ok w p s = ground arith

write_all_healthy :
    {U : Type 0} (w : Write) (p : FileName) (s : Buffer U)
    → s.outcomes ≡ []
    → (context w.context (write_all p w.bytes) s).0 ≡ ok tt
unfolding write_all
write_all_healthy w p s h = ground arith

write_all-Wrote :
    {U : Type 0} (w : Write) (p : FileName) {old : List ℕ} (s : Buffer U)
    → lookup p s.disk ≡ some old
    → Wrote p old w.bytes s (context w.context (write_all p w.bytes) s)
write_all-Wrote w p s h =
    let n = reach (head_outcome s.outcomes) (length w.bytes) in
    let done = take n w.bytes in
    record {
      done = done;
      disk = append_bytes p done s.disk;
      outcomes = rest_outcomes s.outcomes;
      state = write_all_state w p s;
      content = lookup-append_bytes p done s.disk h;
      part = (n, refl);
      whole = λ e. rw (write_all_ok w p s e) (take-all (length w.bytes) w.bytes (omega arith));
      others = λ q ne. lookup-append_bytes_ne p q done s.disk h ne;
      healthy = λ e. (write_all_healthy w p s e, ap rest_outcomes e);
    }

take-append_more : (xs ys : List ℕ) (k : ℕ) → (n : ℕ) × (xs ++ take k ys ≡ take n (xs ++ ys))
take-append_more [] ys k = (k, refl)
take-append_more (x ∷ xs) ys k = let (n, e) = take-append_more xs ys k in (suc n, ap (λ l. x ∷ l) e)

take-append_less : (xs ys : List ℕ) (k : ℕ) → (n : ℕ) × (take k xs ≡ take n (xs ++ ys))
take-append_less xs ys zero = (zero, refl)
take-append_less [] ys (suc k) = (zero, refl)
take-append_less (x ∷ xs) ys (suc k) =
    let (n, e) = take-append_less xs ys k in (suc n, ap (λ l. x ∷ l) e)

-- A first part that went well, and then a second.
Wrote-append :
    {U : Type 0} {p : FileName} {old : List ℕ} {s s' : Buffer U} (xs ys : List ℕ)
    (r : Result (Unit {0}) × Buffer U)
    → Wrote p old xs s (ok tt, s')
    → ((d : List ℕ) → lookup p s'.disk ≡ some d → Wrote p d ys s' r)
    → Wrote p old (xs ++ ys) s r
Wrote-append {p = p} {old = old} {s = s} {s' = s'} xs ys r first rest =
    let same : s'.disk ≡ first.disk = ap (λ (t : Buffer _). t.disk) first.state in
    let second = rest (old ++ first.done) (ap (lookup p) same ∙ first.content) in
    let (k, cut) = second.part in
    let (n, shown) = take-append_more xs ys k in
    record {
      done = xs ++ second.done;
      disk = second.disk;
      outcomes = second.outcomes;
      state =
          second.state
          ∙ ap (λ (t : Buffer _). record t { disk = second.disk; outcomes = second.outcomes })
              first.state;
      content =
          second.content
          ∙ ap some (
              append_assoc old first.done second.done
              ∙ ap (λ l. old ++ (l ++ second.done)) (first.whole refl));
      part = (n, ap (λ l. xs ++ l) cut ∙ shown);
      whole = λ e. ap (λ l. xs ++ l) (second.whole e);
      others = λ q ne. second.others q ne ∙ ap (lookup q) same ∙ first.others q ne;
      healthy =
          λ e. second.healthy (ap (λ (t : Buffer _). t.outcomes) first.state ∙ (first.healthy e).1);
    }

-- A first part that failed, after which nothing is written.
Wrote-stop :
    {U : Type 0} {p : FileName} {old : List ℕ} {s : Buffer U} (xs ys : List ℕ)
    (r : Result (Unit {0}) × Buffer U)
    → r.0 ≢ ok tt
    → Wrote p old xs s r
    → Wrote p old (xs ++ ys) s r
Wrote-stop xs ys r failed first =
    let (k, cut) = first.part in
    let (n, shown) = take-append_less xs ys k in
    record {
      done = first.done;
      disk = first.disk;
      outcomes = first.outcomes;
      state = first.state;
      content = first.content;
      part = (n, cut ∙ shown);
      whole = λ e. absurd (failed e);
      others = first.others;
      healthy = λ e. absurd (failed (first.healthy e).0);
    }

abbrev continue :
    {U : Type 0}
    → FileName
    → List Write
    → Result (Unit {0})
    → Buffer U
    → Result (Unit {0}) × Buffer U
continue p ws r s = elim r [ ok _ ↦ write_each p ws s | err e ↦ (err e, s) | panic ↦ (panic, s) ]

Wrote-continue :
    {U : Type 0} {p : FileName} {old : List ℕ} {s : Buffer U} (xs : List ℕ) (ws : List Write)
    (r : Result (Unit {0})) (s' : Buffer U)
    → Wrote p old xs s (r, s')
    → ((d : List ℕ) → lookup p s'.disk ≡ some d → Wrote p d (concat ws) s' (write_each p ws s'))
    → Wrote p old (xs ++ concat ws) s (continue p ws r s')
Wrote-continue xs ws (ok tt) s' first rest = Wrote-append xs (concat ws) _ first rest
Wrote-continue xs ws (err e) s' first rest = Wrote-stop xs (concat ws) _ (λ q. cc) first
Wrote-continue xs ws panic s' first rest = Wrote-stop xs (concat ws) _ (λ q. cc) first

pub write_each-Wrote :
    {U : Type 0} (ws : List Write) (p : FileName) {old : List ℕ} (s : Buffer U)
    → lookup p s.disk ≡ some old
    → Wrote p old (concat ws) s (write_each p ws s)
unfolding write_each concat
write_each-Wrote [] p {old} s h = record {
  done = [];
  disk = s.disk;
  outcomes = s.outcomes;
  state = refl;
  content = rw append-nil h;
  part = (0, refl);
  whole = λ e. refl;
  others = λ q ne. refl;
  healthy = λ e. (refl, e);
}
write_each-Wrote (w ∷ ws) p {old} s h =
    let (r, s') = context w.context (write_all p w.bytes) s in
    Wrote-continue w.bytes ws r s' (write_all-Wrote w p s h) (λ d e. write_each-Wrote ws p s' e)
