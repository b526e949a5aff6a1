-- ===== src/Kvs/AckStream/Chunks.antt =====
-- Lines that arrive in several texts, and in one.
use gst_kvs_sink.Common.{
  ℕ, zero, suc, ◌+◌, ◌≤◌, ◌<◌, ◌≡◌, refl, sym, ap, ◌∙◌, Bool, true, false, Option, none, some, List,
  [], ◌∷◌, ◌++◌, append_assoc, append-nil, arith, ◌==◌, length, length-append, if◌then◌else◌,
  is_empty, Text, Option-cases, inl, inr,
}
use gst_kvs_sink.Kvs.Acks.{KvsAcknowledgment}
use gst_kvs_sink.Kvs.AckStream.{split_line, trim, handle_line, process_lines, process_ack_buffer}

-- One round of `split_line`, by its test and what it finds later.
abbrev cut : Bool → ℕ → Text → Option (Text × Text) → Option (Text × Text)
cut here c rest later =
    if here
    then some (c ∷ [], rest)
    else elim later [ none ↦ none | some (line, behind) ↦ some (c ∷ line, behind) ]

cut-append :
    (here : Bool) (c : ℕ) (a b : Text) (later later' : Option (Text × Text)) {line behind : Text}
    → ((l r : Text) → later ≡ some (l, r) → later' ≡ some (l, r ++ b))
    → cut here c a later ≡ some (line, behind)
    → cut here c (a ++ b) later' ≡ some (line, behind ++ b)
cut-append true c a b later later' h e = ground arith
cut-append false c a b none later' h e = cc
cut-append false c a b (some (l, r)) later' h e = let _e = h l r refl in ground arith

cut_shrinks :
    (here : Bool) (c : ℕ) (a : Text) (later : Option (Text × Text)) {line behind : Text}
    → ((l r : Text) → later ≡ some (l, r) → length r < length a)
    → cut here c a later ≡ some (line, behind)
    → length behind < suc (length a)
cut_shrinks true c a later h e = ground arith
cut_shrinks false c a none h e = cc
cut_shrinks false c a (some (l, r)) h e = let _e = h l r refl in ground arith

split_line-append :
    (a b : Text) {line behind : Text}
    → split_line a ≡ some (line, behind)
    → split_line (a ++ b) ≡ some (line, behind ++ b)
unfolding split_line
split_line-append [] b e = cc
split_line-append (c ∷ a) b e =
    cut-append (c == 10) c a b (split_line a) (split_line (a ++ b))
      (λ l r h. split_line-append a b h) e

pub split_line_shrinks :
    (a : Text) {line behind : Text} → split_line a ≡ some (line, behind) → length behind < length a
unfolding split_line
split_line_shrinks [] e = cc
split_line_shrinks (c ∷ a) e =
    cut_shrinks (c == 10) c a (split_line a) (λ l r h. split_line_shrinks a h) e

abbrev pub joined : List Text → Text
joined [] = []
joined (c ∷ cs) = c ++ joined cs

module _ {S : Type 0} (parse : Text → Option KvsAcknowledgment)
    (handler : KvsAcknowledgment → S → Bool × S) where
  abbrev parsed : Bool → Option KvsAcknowledgment → S → Bool × S
  parsed blank o s =
      if blank then (true, s) else elim o [ none ↦ (true, s) | some ack ↦ handler ack s ]

  parsed_goes_on :
      ((ack : KvsAcknowledgment) (s : S) → (handler ack s).0 ≡ true)
      → (blank : Bool) (o : Option KvsAcknowledgment) (s : S) → (parsed blank o s).0 ≡ true
  parsed_goes_on on true o s = refl
  parsed_goes_on on false none s = refl
  parsed_goes_on on false (some ack) s = on ack s

  line_goes_on :
      ((ack : KvsAcknowledgment) (s : S) → (handler ack s).0 ≡ true)
      → (line : Text) (s : S) → (handle_line parse handler line s).0 ≡ true
  unfolding handle_line
  line_goes_on on line s = parsed_goes_on on (is_empty (trim line)) (parse (trim line)) s

  pub process_lines-none :
      (n : ℕ) (a : Text) (s : S)
      → split_line a ≡ none
      → process_lines parse handler n a s ≡ (true, a, s)
  unfolding process_lines
  process_lines-none zero a s e = refl
  process_lines-none (suc n) a s e = ground arith

  pub process_lines-some :
      ((ack : KvsAcknowledgment) (s : S) → (handler ack s).0 ≡ true)
      → (n : ℕ) (a : Text) (s : S) {line behind : Text} → split_line a ≡ some (line, behind)
      → process_lines parse handler (suc n) a s
        ≡ process_lines parse handler n behind (handle_line parse handler line s).1
  unfolding process_lines
  process_lines-some on n a s {line} {behind} e = ground (arith, line_goes_on on line s)

  -- Fuel past the length changes nothing.
  process_lines_fuel :
      ((ack : KvsAcknowledgment) (s : S) → (handler ack s).0 ≡ true)
      → (n m : ℕ) (a : Text) (s : S) → length a ≤ n
      → length a ≤ m
      → process_lines parse handler n a s ≡ process_lines parse handler m a s
  process_lines_fuel on zero m [] s hn hm =
      process_lines-none zero [] s (unfold split_line in refl)
      ∙ sym (process_lines-none m [] s (unfold split_line in refl))
  process_lines_fuel on zero m (c ∷ a) s hn hm = absurd (omega arith)
  process_lines_fuel on (suc n) zero [] s hn hm =
      process_lines-none (suc n) [] s (unfold split_line in refl)
      ∙ sym (process_lines-none zero [] s (unfold split_line in refl))
  process_lines_fuel on (suc n) zero (c ∷ a) s hn hm = absurd (omega arith)
  process_lines_fuel on (suc n) (suc m) a s hn hm = elim (Option-cases (split_line a)) [
    | inl e ↦ process_lines-none (suc n) a s e ∙ sym (process_lines-none (suc m) a s e)
    | inr ((line, behind), e) ↦
        process_lines-some on n a s e
        ∙ (process_lines_fuel on n m behind (handle_line parse handler line s).1
              (omega (arith, split_line_shrinks a e)) (omega (arith, split_line_shrinks a e))
            ∙ sym (process_lines-some on m a s e))
  ]

  -- What is left of a buffer holds no whole line.
  process_lines_left :
      ((ack : KvsAcknowledgment) (s : S) → (handler ack s).0 ≡ true)
      → (n : ℕ) (a : Text) (s : S) → length a ≤ n
      → split_line (process_lines parse handler n a s).1 ≡ none
  process_lines_left on zero [] s h =
      rw (process_lines-none zero [] s (unfold split_line in refl)) (unfold split_line in refl)
  process_lines_left on zero (c ∷ a) s h = absurd (omega arith)
  process_lines_left on (suc n) a s h = elim (Option-cases (split_line a)) [
    | inl e ↦ rw (process_lines-none (suc n) a s e) e
    | inr ((line, behind), e) ↦ rw (process_lines-some on n a s e) (
        process_lines_left on n behind (handle_line parse handler line s).1
          (omega (arith, split_line_shrinks a e)))
  ]

  -- Bytes that arrive later may as well have been there at first.
  process_lines-append :
      ((ack : KvsAcknowledgment) (s : S) → (handler ack s).0 ≡ true)
      → (m n k : ℕ) (a b : Text) (s : S) → length a ≤ m
      → length (a ++ b) ≤ n
      → length (a ++ b) ≤ k
      → process_lines parse handler n (a ++ b) s
        ≡ process_lines parse handler k
            ((process_lines parse handler m a s).1 ++ b)
            (process_lines parse handler m a s).2
  process_lines-append on zero n k [] b s hm hn hk =
      rw (process_lines-none zero [] s (unfold split_line in refl))
        (process_lines_fuel on n k b s hn hk)
  process_lines-append on zero n k (c ∷ a) b s hm hn hk = absurd (omega arith)
  process_lines-append on (suc m) zero k [] b s hm hn hk =
      rw (process_lines-none (suc m) [] s (unfold split_line in refl))
        (process_lines_fuel on zero k b s hn hk)
  process_lines-append on (suc m) zero k (c ∷ a) b s hm hn hk = absurd (omega arith)
  process_lines-append on (suc m) (suc n) k a b s hm hn hk = elim (Option-cases (split_line a)) [
    | inl e ↦
        rw (process_lines-none (suc m) a s e) (process_lines_fuel on (suc n) k (a ++ b) s hn hk)
    | inr ((line, behind), e) ↦
        let fits = split_line_shrinks a e in
        let _a = length-append a b in
        let _b = length-append behind b in
        process_lines-some on n (a ++ b) s (split_line-append a b e)
        ∙ rw (process_lines-some on m a s e) (
            process_lines-append on m n k behind b (handle_line parse handler line s).1
              (omega arith) (omega arith) (omega arith))
  ]

  process_ack_buffer-append :
      ((ack : KvsAcknowledgment) (s : S) → (handler ack s).0 ≡ true)
      → (a b : Text) (s : S)
      → let (more, left, s') = process_ack_buffer parse handler a s in
        process_ack_buffer parse handler (left ++ b) s'
        ≡ process_ack_buffer parse handler (a ++ b) s
  unfolding process_ack_buffer
  process_ack_buffer-append on a b s =
      let (more, left, s') = process_lines parse handler (length a) a s in
      let k = length (a ++ b) + length (left ++ b) in
      process_lines_fuel on (length (left ++ b)) k (left ++ b) s' (omega arith) (omega arith)
      ∙ sym (
          process_lines-append on (length a) (length (a ++ b)) k a b s (omega arith) (omega arith)
            (omega arith))

  -- Texts, each put behind what is left of the buffer.
  unfoldable pub process_chunks : List Text → Text → S → Text × S
  process_chunks [] buffer s = (buffer, s)
  process_chunks (chunk ∷ chunks) buffer s =
      let (more, left, s') = process_ack_buffer parse handler (buffer ++ chunk) s in
      process_chunks chunks left s'

  -- Where the handler always goes on: the handler sees what it sees of the joined text. What was in
  -- the buffer holds no whole line.
  pub process_chunks-joined :
      ((ack : KvsAcknowledgment) (s : S) → (handler ack s).0 ≡ true)
      → (cs : List Text) (buffer : Text) (s : S) → split_line buffer ≡ none
      → process_chunks cs buffer s ≡ (
          let (more, left, s') = process_ack_buffer parse handler (buffer ++ joined cs) s in
          (left, s'))
  unfolding process_chunks process_ack_buffer
  process_chunks-joined on [] buffer s whole = rw (append-nil buffer) (
      sym (
        ap (λ (r : Bool × Text × S). (r.1, r.2))
          (process_lines-none (length buffer) buffer s whole)))
  process_chunks-joined on (c ∷ cs) buffer s whole =
      let a = buffer ++ c in
      let (more, left, s') = process_lines parse handler (length a) a s in
      process_chunks-joined on cs left s' (process_lines_left on (length a) a s (omega arith))
      ∙ (ap (λ (r : Bool × Text × S). (r.1, r.2)) (process_ack_buffer-append on a (joined cs) s)
          ∙ ap (λ t. let (more, left, s') = process_ack_buffer parse handler t s in (left, s'))
              (append_assoc buffer c (joined cs)))
