-- ===== src/Sink/Settings.antt =====
-- `Settings`, and the properties of the element.
pub mod RoundTrip
pub mod Specs
use gst_kvs_sink.Common.{
  ℕ, ◌*◌, Option, none, some, [], is_empty, if◌then◌else◌, unwrap_or, Text, codes,
}
use gst_kvs_sink.Common.Time.{ClockTime, ClockApi}

pub record Settings : Type 0 where
  pub stream_name : Text
  pub region : Text
  pub fragment_duration : ClockTime
  pub session_duration_secs : ℕ
  pub mode : Text
  pub buffer_directory : Option Text
  pub max_buffer_hours : ℕ
  pub segment_duration_secs : ℕ

-- The region of the environment variable `AWS_DEFAULT_REGION`, if it is set.
unfoldable pub default_region : Option Text → Text
default_region variable = unwrap_or variable (codes "eu-west-1")

-- `Settings::default`
unfoldable pub default : Option Text → Settings
unfolding default_region
default variable = record {
  stream_name = [];
  region = default_region variable;
  fragment_duration = 2_000_000_000;
  session_duration_secs = 40 * 60;
  mode = codes "continuous";
  buffer_directory = none;
  max_buffer_hours = 24;
  segment_duration_secs = 60;
}

-- The properties, by the names that `set_property` and `get_property` match.
pub data Property : Type 0 where
  stream_name region fragment_duration session_duration_secs mode : Property
  buffer_directory max_buffer_hours segment_duration_secs other : Property

-- A value of the object system: a text, which may be missing, a 64-bit number, or of another type.
pub data Value : Type 0 where
  text : Text → Value
  number : ℕ → Value
  foreign : Value

-- `value.get::<String>()` and `value.get::<u64>()`.
unfoldable pub get_text : Value → Option Text
get_text (text t) = some t
get_text (number n) = none
get_text foreign = none

unfoldable pub get_number : Value → Option ℕ
get_number (text t) = none
get_number (number n) = some n
get_number foreign = none

unfoldable pub non_empty : Text → Option Text
non_empty t = if is_empty t then none else some t

-- `Properties::set_property`; `none` is a panic of the conversion to a time.
unfoldable pub set_property : ClockApi → Option Text → Property → Value → Settings → Option Settings
unfolding get_text get_number default_region non_empty
set_property clock variable stream_name v s =
    some (record s { stream_name = unwrap_or (get_text v) [] })
set_property clock variable region v s =
    some (record s { region = unwrap_or (get_text v) (default_region variable) })
set_property clock variable fragment_duration v s =
    elim (clock.from_nseconds (unwrap_or (get_number v) 2_000_000_000)) [
      | none ↦ none
      | some d ↦ some (record s { fragment_duration = d })
    ]
set_property clock variable session_duration_secs v s =
    some (record s { session_duration_secs = unwrap_or (get_number v) (40 * 60) })
set_property clock variable mode v s =
    some (record s { mode = unwrap_or (get_text v) (codes "continuous") })
set_property clock variable buffer_directory v s =
    some (record s { buffer_directory = non_empty (unwrap_or (get_text v) []) })
set_property clock variable max_buffer_hours v s =
    some (record s { max_buffer_hours = unwrap_or (get_number v) 24 })
set_property clock variable segment_duration_secs v s =
    some (record s { segment_duration_secs = unwrap_or (get_number v) 60 })
set_property clock variable other v s = some s

-- `Properties::get_property`; `none` is the panic of `unimplemented!`.
unfoldable pub get_property : Property → Settings → Option Value
get_property stream_name s = some (text s.stream_name)
get_property region s = some (text s.region)
get_property fragment_duration s = some (number s.fragment_duration)
get_property session_duration_secs s = some (number s.session_duration_secs)
get_property mode s = some (text s.mode)
get_property buffer_directory s = some (text (unwrap_or s.buffer_directory []))
get_property max_buffer_hours s = some (number s.max_buffer_hours)
get_property segment_duration_secs s = some (number s.segment_duration_secs)
get_property other s = none
