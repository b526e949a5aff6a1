-- ===== src/Kvs/Acks.antt =====
-- Acknowledgments of the service, and the status that the connection keeps of each fragment.
pub mod Invariant
use gst_kvs_sink.Common.{
  ℕ, Bool, true, false, not, ◌&&◌, Option, none, some, List, [], ◌∷◌, ◌++◌, ltb, leb, ◌==◌, is_none,
  is_some, if◌then◌else◌, Text, codes,
}
use gst_kvs_sink.Common.Time.{Instant}
use gst_kvs_sink.Buffer.Names.{decimal}

pub data AckEventType : Type 0 where
  buffering received persisted error idle : AckEventType

pub record KvsAcknowledgment : Type 0 where
  pub event_type : AckEventType
  pub fragment_timecode : Option ℕ
  pub fragment_number : Option Text
  pub error_id : Option ℕ
  pub error_code : Option Text

pub record FragmentAckStatus : Type 0 where
  pub fragment_number : Text
  pub sent_time : Instant
  pub buffering_ack : Bool
  pub received_ack : Bool
  pub persisted_ack : Bool
  pub error : Option Text

-- The texts of the known error numbers.
abbrev pub known_errors : List (ℕ × Text)
known_errors =
    (4000, codes "STREAM_READ_ERROR - Error reading the data stream")
    ∷ (4001, codes "MAX_FRAGMENT_SIZE_REACHED - Fragment size exceeds 50 MB limit")
    ∷ (4002, codes "MAX_FRAGMENT_DURATION_REACHED - Fragment duration exceeds limit")
    ∷ (4003, codes "MAX_CONNECTION_DURATION_REACHED - Connection duration exceeds limit")
    ∷ (4004, codes "FRAGMENT_TIMECODE_LESSER_THAN_PREVIOUS - Fragments out of order")
    ∷ (4006, codes "INVALID_MKV_DATA - Failed to parse input as valid MKV")
    ∷ (4007, codes "INVALID_PRODUCER_TIMESTAMP - Invalid producer timestamp")
    ∷ (4008, codes "STREAM_NOT_ACTIVE - Stream no longer exists")
    ∷ (4009, codes "FRAGMENT_METADATA_LIMIT_REACHED - Fragment metadata limit reached")
    ∷ (4010, codes "TRACK_NUMBER_MISMATCH - Track number mismatch in MKV")
    ∷ (4011, codes "FRAMES_MISSING_FOR_TRACK - Fragment missing frames for track")
    ∷ (5000, codes "INTERNAL_ERROR - Internal service error")
    ∷ (5001, codes "ARCHIVAL_ERROR - Failed to persist fragments")
    ∷ []

unfoldable pub find_error : ℕ → List (ℕ × Text) → Option Text
find_error id [] = none
find_error id ((known, text) ∷ rest) = if id == known then some text else find_error id rest

-- The last three arms: an unknown number is printed, with the code if there is one.
unfoldable pub describe_unknown : ℕ → Option Text → Text
describe_unknown id (some code) = codes "Error " ++ (decimal id ++ (codes ": " ++ code))
describe_unknown id none = codes "Error " ++ decimal id

-- `get_error_description`
unfoldable pub get_error_description : KvsAcknowledgment → Option Text
get_error_description ack = elim ack.error_id [
  | none ↦ none
  | some id ↦ elim (find_error id known_errors) [
    | some text ↦ some text
    | none ↦ some (describe_unknown id ack.error_code)
  ]
]

-- The test by which `process_acknowledgments` finds the oldest status that awaits this event.
unfoldable pub awaits : AckEventType → FragmentAckStatus → Bool
awaits buffering s = not s.buffering_ack
awaits received s = s.buffering_ack && not s.received_ack
awaits persisted s = s.received_ack && not s.persisted_ack
awaits error s = is_none s.error
awaits idle s = false

unfoldable pub acknowledge : KvsAcknowledgment → FragmentAckStatus → FragmentAckStatus
acknowledge ack s = elim ack.event_type [
  | buffering ↦ record s { buffering_ack = true }
  | received ↦ record s { received_ack = true }
  | persisted ↦ record s { persisted_ack = true }
  | error ↦ record s { error = get_error_description ack }
  | idle ↦ s
]

-- `iter_mut().find(..)`, and the change of what was found.
unfoldable pub acknowledge_first :
    KvsAcknowledgment → List FragmentAckStatus → List FragmentAckStatus
acknowledge_first ack [] = []
acknowledge_first ack (s ∷ ss) =
    if awaits ack.event_type s then acknowledge ack s ∷ ss else s ∷ acknowledge_first ack ss

unfoldable pub retain : (FragmentAckStatus → Bool) → List FragmentAckStatus → List FragmentAckStatus
retain p [] = []
retain p (s ∷ ss) = let rest = retain p ss in if p s then s ∷ rest else rest
