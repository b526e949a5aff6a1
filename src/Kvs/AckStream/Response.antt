-- ===== src/Kvs/AckStream/Response.antt =====
-- `handle_response`: the task that reads the service's answer to a PutMedia request.
use gst_kvs_sink.Common.{
  ℕ, zero, suc, Bool, true, false, ◌&&◌, Option, none, some, List, [], ◌∷◌, ◌++◌, ltb, leb, ◌==◌,
  if◌then◌else◌, length, take, drop, Text,
}
use gst_kvs_sink.Kvs.Acks.{KvsAcknowledgment}
use gst_kvs_sink.Kvs.AckStream.{process_ack_buffer}
use gst_kvs_sink.Kvs.Connection.{KvsConnection, Monitor, done}

abbrev pub ack_channel_size : ℕ
ack_channel_size = 100

-- What the stream of the response's body yields: bytes, or an error, which ends the loop.
pub data Chunk : Type 0 where
  bytes : List ℕ → Chunk
  broken : Text → Chunk

-- What the future of the response yields.
pub data Response : Type 0 where
  failed : Text → Response
  answered : ℕ → List Chunk → Response

-- `StatusCode::is_success`
abbrev pub is_success : ℕ → Bool
is_success status = leb 200 status && ltb status 300

-- How many bytes follow this first byte of a character, and the bounds of the second one.
unfoldable pub lead : ℕ → Option (ℕ × ℕ × ℕ)
lead b =
    if leb b 127
    then some (0, 128, 191)
    else if leb 194 b && leb b 223
    then some (1, 128, 191)
    else if b == 224
    then some (2, 160, 191)
    else if b == 237
    then some (2, 128, 159)
    else if leb 225 b && leb b 239
    then some (2, 128, 191)
    else if b == 240
    then some (3, 144, 191)
    else if leb 241 b && leb b 243
    then some (3, 128, 191)
    else if b == 244
    then some (3, 128, 143)
    else none

-- `std::str::from_utf8(..).is_ok()`, with the bytes that a character still wants, and the bounds
-- of the next of them.
unfoldable pub is_utf8_behind : ℕ → ℕ → ℕ → List ℕ → Bool
is_utf8_behind zero low high [] = true
is_utf8_behind zero low high (b ∷ bs) = elim (lead b) [
  | none ↦ false
  | some (more, low', high') ↦ is_utf8_behind more low' high' bs
]
is_utf8_behind (suc more) low high [] = false
is_utf8_behind (suc more) low high (b ∷ bs) =
    let rest = is_utf8_behind more 128 191 bs in leb low b && (leb b high && rest)

unfoldable pub is_utf8 : List ℕ → Bool
is_utf8 bs = is_utf8_behind 0 128 191 bs

-- The acknowledgments' channel: what waits in it, whether the receiving half is gone, and what the
-- connection has taken out of it. The connection reads while the response goes on: `pulls` says how
-- many acknowledgments it takes out before each of the coming sends, and none once the list is used
-- up.
pub record AckChannel : Type 0 where
  pub acks : List KvsAcknowledgment
  pub closed : Bool
  pub taken : List KvsAcknowledgment
  pub pulls : List ℕ

abbrev pub head_pull : List ℕ → ℕ
head_pull [] = 0
head_pull (n ∷ ns) = n

abbrev pub rest_pulls : List ℕ → List ℕ
rest_pulls [] = []
rest_pulls (n ∷ ns) = ns

-- What the connection takes before the send at hand.
unfoldable pub pull : AckChannel → AckChannel
pull ch = record {
  acks = drop (head_pull ch.pulls) ch.acks;
  closed = ch.closed;
  taken = ch.taken ++ take (head_pull ch.pulls) ch.acks;
  pulls = rest_pulls ch.pulls;
}

-- A channel that was just made, before these reads of the connection.
abbrev pub fresh_channel : List ℕ → AckChannel
fresh_channel pulls = record { acks = []; closed = false; taken = []; pulls = pulls }

-- `try_send`, whose error is logged only, and the `true` behind it.
unfoldable pub deliver : KvsAcknowledgment → AckChannel → Bool × AckChannel
deliver ack ch =
    let ch' = pull ch in
    if ch'.closed
    then (true, ch')
    else if leb ack_channel_size (length ch'.acks)
    then (true, ch')
    else (true, record ch' { acks = ch'.acks ++ (ack ∷ []) })

module _ (parse : Text → Option KvsAcknowledgment) where
  -- The loop over the body: a chunk that is not UTF-8 by itself is passed over.
  unfoldable pub read_stream : List Chunk → Text → AckChannel → Text × AckChannel
  read_stream [] buffer ch = (buffer, ch)
  read_stream (broken e ∷ chunks) buffer ch = (buffer, ch)
  read_stream (bytes bs ∷ chunks) buffer ch =
      let (more, left, ch') = process_ack_buffer parse deliver (buffer ++ bs) ch in
      let passed = read_stream chunks buffer ch in
      let read = read_stream chunks left ch' in if is_utf8 bs then read else passed

  -- `handle_response`: the acknowledgments' channel afterwards, and the monitor, which is
  -- signalled in every case.
  unfoldable pub handle_response : Response → AckChannel → Monitor × AckChannel
  handle_response (failed e) ch = (done, ch)
  handle_response (answered status chunks) ch =
      let (left, ch') = read_stream chunks [] ch in
      if is_success status then (done, ch') else (done, ch)

  -- The connection whose response task ran to its end while the connection read nothing.
  unfoldable pub after_response : {N : Type 0} → Response → KvsConnection N → KvsConnection N
  after_response response k = elim k.ack_receiver [
    | none ↦ record k {
      connection_monitor =
          some (handle_response response (record (fresh_channel []) { closed = true })).0;
    }
    | some acks ↦
        let (monitor, ch) = handle_response response (record (fresh_channel []) { acks = acks }) in
        record k { connection_monitor = some monitor; ack_receiver = some ch.acks }
  ]
