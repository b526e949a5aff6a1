-- ===== src/Kvs/AckStream/Delivered.antt =====
-- Which acknowledgments of a response reach the connection.
use gst_kvs_sink.Common.{
  ◌-◌, ltb, drop, Bool-cases, ℕ, zero, suc, ◌≤◌, ◌≡◌, refl, sym, ap, ◌∙◌, Bool, true, false, Option,
  none, some, List, [], ◌∷◌, ◌++◌, append_assoc, append-nil, arith, ◌==◌, length, length-append,
  take, if◌then◌else◌, is_empty, Text, Option-cases, inl, inr,
}
use gst_kvs_sink.Kvs.Acks.{KvsAcknowledgment}
use gst_kvs_sink.Kvs.AckStream.{split_line, trim, handle_line, process_lines, process_ack_buffer}
use gst_kvs_sink.Kvs.AckStream.Chunks.{
  split_line_shrinks, process_lines-none, process_lines-some, joined, process_chunks,
  process_chunks-joined,
}
use gst_kvs_sink.Kvs.AckStream.Response.{
  Chunk, bytes, broken, answered, is_success, is_utf8, AckChannel, head_pull, rest_pulls, pull,
  deliver, read_stream, handle_response,
}

-- The lines of a text that are ended by a newline, each with it; `front` is the line so far.
unfoldable pub whole_lines : Text → Text → List Text
whole_lines front [] = []
whole_lines front (c ∷ cs) =
    let ended = (front ++ (c ∷ [])) ∷ whole_lines [] cs in
    let going = whole_lines (front ++ (c ∷ [])) cs in if c == 10 then ended else going

-- What the loop over the body can read: the chunks in front of the first error, but for those
-- that are not UTF-8.
unfoldable pub readable : List Chunk → List Text
readable [] = []
readable (broken e ∷ chunks) = []
readable (bytes bs ∷ chunks) = let rest = readable chunks in if is_utf8 bs then bs ∷ rest else rest

abbrev lines_by_cut : Text → Option (Text × Text) → List Text
lines_by_cut front none = []
lines_by_cut front (some (line, behind)) = (front ++ line) ∷ whole_lines [] behind

lines_by_cut-cons :
    (front : Text) (c : ℕ) (rest : Text) (later : Option (Text × Text)) (here : Bool)
    → whole_lines (front ++ (c ∷ [])) rest ≡ lines_by_cut (front ++ (c ∷ [])) later
    → (if here
        then (front ++ (c ∷ [])) ∷ whole_lines [] rest
        else whole_lines (front ++ (c ∷ [])) rest)
      ≡ lines_by_cut front (
          if here
          then some (c ∷ [], rest)
          else elim later [ none ↦ none | some (line, behind) ↦ some (c ∷ line, behind) ])
lines_by_cut-cons front c rest later true h = refl
lines_by_cut-cons front c rest none false h = h
lines_by_cut-cons front c rest (some (line, behind)) false h =
    h ∙ ap (λ l. l ∷ whole_lines [] behind) (append_assoc front (c ∷ []) line)

whole_lines-split_line : (front t : Text) → whole_lines front t ≡ lines_by_cut front (split_line t)
unfolding whole_lines split_line
whole_lines-split_line front [] = refl
whole_lines-split_line front (c ∷ rest) =
    lines_by_cut-cons front c rest (split_line rest) (c == 10)
      (whole_lines-split_line (front ++ (c ∷ [])) rest)

-- Which of these acknowledgments go through, by how many wait in the channel and how many the
-- connection takes out before each: all but those that find 100 waiting.
abbrev pub through : List ℕ → ℕ → List KvsAcknowledgment → List KvsAcknowledgment
through pulls waiting [] = []
through pulls waiting (a ∷ as_) =
    let left = waiting - head_pull pulls in
    let sent = a ∷ through (rest_pulls pulls) (suc left) as_ in
    let lost = through (rest_pulls pulls) left as_ in if ltb left 100 then sent else lost

-- Acknowledgments delivered one after another.
abbrev deliver_each : List KvsAcknowledgment → AckChannel → AckChannel
deliver_each [] ch = ch
deliver_each (a ∷ as_) ch = deliver_each as_ (deliver a ch).1

take-drop : {A : Type 0} (n : ℕ) (xs : List A) → take n xs ++ drop n xs ≡ xs
take-drop zero xs = refl
take-drop (suc n) [] = refl
take-drop (suc n) (x ∷ xs) = ap (λ l. x ∷ l) (take-drop n xs)

length-drop : {A : Type 0} (n : ℕ) (xs : List A) → length (drop n xs) ≡ length xs - n
length-drop zero xs = omega arith
length-drop (suc n) [] = omega arith
length-drop (suc n) (x ∷ xs) = omega (arith, length-drop n xs)

-- What the connection took, and behind it what waits.
abbrev pub arrived : AckChannel → List KvsAcknowledgment
arrived ch = ch.taken ++ ch.acks

arrived-pull : (ch : AckChannel) → arrived (pull ch) ≡ arrived ch
unfolding pull
arrived-pull ch =
    append_assoc ch.taken (take (head_pull ch.pulls) ch.acks) (drop (head_pull ch.pulls) ch.acks)
    ∙ ap (λ l. ch.taken ++ l) (take-drop (head_pull ch.pulls) ch.acks)

deliver_sent :
    (a : KvsAcknowledgment) (ch : AckChannel)
    → ch.closed ≡ false
    → ltb (length ch.acks - head_pull ch.pulls) 100 ≡ true
    → (deliver a ch).1 ≡ record (pull ch) { acks = (pull ch).acks ++ (a ∷ []) }
unfolding deliver pull
deliver_sent a ch open_ room = ground (arith, length-drop (head_pull ch.pulls) ch.acks)

deliver_lost :
    (a : KvsAcknowledgment) (ch : AckChannel)
    → ch.closed ≡ false
    → ltb (length ch.acks - head_pull ch.pulls) 100 ≡ false
    → (deliver a ch).1 ≡ pull ch
unfolding deliver pull
deliver_lost a ch open_ full = ground (arith, length-drop (head_pull ch.pulls) ch.acks)

length-pull : (ch : AckChannel) → length (pull ch).acks ≡ length ch.acks - head_pull ch.pulls
unfolding pull
length-pull ch = length-drop (head_pull ch.pulls) ch.acks

deliver_each-through :
    (as_ : List KvsAcknowledgment) (ch : AckChannel)
    → ch.closed ≡ false
    → arrived (deliver_each as_ ch) ≡ arrived ch ++ through ch.pulls (length ch.acks) as_
unfolding pull
deliver_each-through [] ch open_ = sym (append-nil (arrived ch))
deliver_each-through (a ∷ as_) ch open_ =
    elim (Bool-cases (ltb (length ch.acks - head_pull ch.pulls) 100)) [
      | inl room ↦
          let left = (pull ch).acks in
          let ch' : AckChannel = record (pull ch) { acks = left ++ (a ∷ []) } in
          let more : length (left ++ (a ∷ [])) ≡ suc (length ch.acks - head_pull ch.pulls) =
            omega (arith, length-append left (a ∷ []), length-pull ch) in
          let rest =
            through (rest_pulls ch.pulls) (suc (length ch.acks - head_pull ch.pulls)) as_ in
          rw room (
            ap (λ c. arrived (deliver_each as_ c)) (deliver_sent a ch open_ room)
            ∙ deliver_each-through as_ ch' open_
            ∙ ap (λ n. arrived ch' ++ through (rest_pulls ch.pulls) n as_) more
            ∙ ap (λ l. l ++ rest) (sym (append_assoc (pull ch).taken left (a ∷ [])))
            ∙ append_assoc (arrived (pull ch)) (a ∷ []) rest
            ∙ ap (λ l. l ++ (a ∷ rest)) (arrived-pull ch))
      | inr full ↦ rw full (
          ap (λ c. arrived (deliver_each as_ c)) (deliver_lost a ch open_ full)
          ∙ deliver_each-through as_ (pull ch) open_
          ∙ ap (λ n. arrived (pull ch) ++ through (rest_pulls ch.pulls) n as_) (length-pull ch)
          ∙ ap (λ l. l ++ through (rest_pulls ch.pulls) (length ch.acks - head_pull ch.pulls) as_)
              (arrived-pull ch))
    ]

deliver_each-append :
    (as_ bs : List KvsAcknowledgment) (ch : AckChannel)
    → deliver_each (as_ ++ bs) ch ≡ deliver_each bs (deliver_each as_ ch)
deliver_each-append [] bs ch = refl
deliver_each-append (a ∷ as_) bs ch = deliver_each-append as_ bs (deliver a ch).1

deliver_goes_on : (ack : KvsAcknowledgment) (ch : AckChannel) → (deliver ack ch).0 ≡ true
unfolding deliver
deliver_goes_on ack ch = ground arith

module _ (parse : Text → Option KvsAcknowledgment) where
  -- The acknowledgment of a line, if it is not blank and parses.
  unfoldable pub ack_of : Text → List KvsAcknowledgment
  ack_of line =
      if is_empty (trim line)
      then []
      else elim (parse (trim line)) [ none ↦ [] | some ack ↦ ack ∷ [] ]

  unfoldable pub acks_of : List Text → List KvsAcknowledgment
  acks_of [] = []
  acks_of (line ∷ lines) = ack_of line ++ acks_of lines

  handle_line-deliver_each :
      (line : Text) (ch : AckChannel)
      → (handle_line parse deliver line ch).1 ≡ deliver_each (ack_of line) ch
  unfolding handle_line ack_of
  handle_line-deliver_each line ch = ground arith

  process_lines-deliver_each :
      (n : ℕ) (t : Text) (ch : AckChannel)
      → length t ≤ n
      → (process_lines parse deliver n t ch).2 ≡ deliver_each (acks_of (whole_lines [] t)) ch
  unfolding acks_of
  process_lines-deliver_each zero [] ch h =
      rw (process_lines-none parse deliver zero [] ch (unfold split_line in refl))
        (unfold whole_lines in refl)
  process_lines-deliver_each zero (c ∷ t) ch h = absurd (omega arith)
  process_lines-deliver_each (suc n) t ch h = elim (Option-cases (split_line t)) [
    | inl e ↦
        rw (process_lines-none parse deliver (suc n) t ch e, whole_lines-split_line [] t, e) refl
    | inr ((line, behind), e) ↦
        rw
          (
            process_lines-some parse deliver deliver_goes_on n t ch e,
            whole_lines-split_line [] t,
            e,
          )
          (process_lines-deliver_each n behind (handle_line parse deliver line ch).1
              (omega (arith, split_line_shrinks t e))
            ∙ ap (deliver_each (acks_of (whole_lines [] behind))) (handle_line-deliver_each line ch)
            ∙ sym (deliver_each-append (ack_of line) (acks_of (whole_lines [] behind)) ch))
  ]

  -- The loop over the chunks, on those that it can read.
  read_stream-process_chunks :
      (chunks : List Chunk) (buffer : Text) (ch : AckChannel)
      → read_stream parse chunks buffer ch
        ≡ process_chunks parse deliver (readable chunks) buffer ch
  unfolding read_stream process_chunks readable
  read_stream-process_chunks [] buffer ch = refl
  read_stream-process_chunks (broken e ∷ chunks) buffer ch = refl
  read_stream-process_chunks (bytes bs ∷ chunks) buffer ch =
      let (more, left, ch') = process_ack_buffer parse deliver (buffer ++ bs) ch in
      ground (
        arith,
        read_stream-process_chunks chunks buffer ch,
        read_stream-process_chunks chunks left ch',
      )

  -- Where the channel is open: of a response that the service answers with success, the
  -- acknowledgments that the connection takes while the response goes on, with those that wait
  -- behind them at its end, are what was there before and then the acknowledgments of the
  -- response's lines, in their order, but for those that find 100 waiting. This holds however the
  -- network cuts the response into chunks that are UTF-8, and whenever the connection reads. The
  -- lines are those that are ended, not blank, and parse, of the text in front of the first error.
  pub handle_response_acks :
      (status : ℕ) (chunks : List Chunk) (ch : AckChannel)
      → is_success status ≡ true
      → ch.closed ≡ false
      → arrived (handle_response parse (answered status chunks) ch).1
        ≡ arrived ch
          ++ through ch.pulls (length ch.acks) (acks_of (whole_lines [] (joined (readable chunks))))
  unfolding handle_response process_ack_buffer
  handle_response_acks status chunks ch good open_ =
      let t = joined (readable chunks) in
      rw
        (
          good,
          read_stream-process_chunks chunks [] ch,
          process_chunks-joined parse deliver deliver_goes_on (readable chunks) [] ch
              (unfold split_line in refl),
        )
        (ap arrived (process_lines-deliver_each (length t) t ch (omega arith))
          ∙ deliver_each-through (acks_of (whole_lines [] t)) ch open_)
