-- ===== src/Kvs/AckStream.antt =====
-- `process_ack_buffer` and the loop of `handle_response`: the byte stream of acknowledgments.
pub mod Chunks
pub mod Response
pub mod Delivered
pub mod Closed
use gst_kvs_sink.Common.{
  ℕ, zero, suc, Bool, true, false, ◌||◌, ◌&&◌, Option, none, some, List, [], ◌∷◌, ◌++◌, leb, ◌==◌,
  is_empty, if◌then◌else◌, length, Text,
}
use gst_kvs_sink.Kvs.Acks.{KvsAcknowledgment}
use mathlib.Core.List.{reverse}

-- `buffer.find('\n')` and `buffer.drain(..=newline_pos)`: the first line, and what is behind it.
unfoldable pub split_line : Text → Option (Text × Text)
split_line [] = none
split_line (c ∷ rest) =
    let later = split_line rest in
    if c == 10
    then some (c ∷ [], rest)
    else elim later [ none ↦ none | some (line, behind) ↦ some (c ∷ line, behind) ]

-- White space of one, two and three bytes in UTF-8, and `trim`.
unfoldable pub is_space : ℕ → Bool
is_space c = c == 32 || (leb 9 c && leb c 13)

unfoldable pub is_space2 : ℕ → ℕ → Bool
is_space2 a b = a == 194 && (b == 133 || b == 160)

unfoldable pub is_space3 : ℕ → ℕ → ℕ → Bool
is_space3 a b c =
    (a == 225 && (b == 154 && c == 128))
    || ((a == 226
          && (b == 128 && ((leb 128 c && leb c 138) || (c == 168 || (c == 169 || c == 175)))))
        || ((a == 226 && (b == 129 && c == 159)) || (a == 227 && (b == 128 && c == 128))))

-- What is behind the white space, by the tests for two and three bytes.
unfoldable pub trim_by : (ℕ → ℕ → Bool) → (ℕ → ℕ → ℕ → Bool) → Text → Text
trim_by two three [] = []
trim_by two three (a ∷ []) = if is_space a then [] else a ∷ []
trim_by two three (a ∷ b ∷ []) =
    let rest = trim_by two three (b ∷ []) in
    if is_space a then rest else if two a b then [] else a ∷ b ∷ []
trim_by two three (a ∷ b ∷ c ∷ cs) =
    let behind1 = trim_by two three (b ∷ c ∷ cs) in
    let behind2 = trim_by two three (c ∷ cs) in
    let behind3 = trim_by two three cs in
    if is_space a
    then behind1
    else if two a b
    then behind2
    else if three a b c
    then behind3
    else a ∷ b ∷ c ∷ cs

unfoldable pub trim : Text → Text
unfolding trim_by is_space2 is_space3
trim t = reverse (
    trim_by (λ b a. is_space2 a b) (λ c b a. is_space3 a b c)
      (reverse (trim_by is_space2 is_space3 t)))

-- What the JSON library makes of a line is a parameter. `S` is the state of the handler, which
-- says whether to go on.
module _ {S : Type 0} (parse : Text → Option KvsAcknowledgment)
    (handler : KvsAcknowledgment → S → Bool × S) where
  -- One line of the buffer: blank lines and lines that do not parse are passed over.
  unfoldable pub handle_line : Text → S → Bool × S
  handle_line line s =
      let json = trim line in
      if is_empty json
      then (true, s)
      else elim (parse json) [ none ↦ (true, s) | some ack ↦ handler ack s ]

  -- `process_ack_buffer`: the result, the buffer that is left, and the handler's state. Each
  -- round takes a byte at least, so the buffer's length is fuel enough.
  unfoldable pub process_lines : ℕ → Text → S → Bool × Text × S
  process_lines zero buffer s = (true, buffer, s)
  process_lines (suc fuel) buffer s = elim (split_line buffer) [
    | none ↦ (true, buffer, s)
    | some (line, behind) ↦
        let (more, s') = handle_line line s in
        elim more [ true ↦ process_lines fuel behind s' | false ↦ (false, behind, s') ]
  ]

  unfoldable pub process_ack_buffer : Text → S → Bool × Text × S
  process_ack_buffer buffer s = process_lines (length buffer) buffer s
