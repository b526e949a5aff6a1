-- ===== src/Sink/Settings/RoundTrip.antt =====
-- Setting a property and reading it back.
use gst_kvs_sink.Common.{
  ℕ, ◌<◌, ◌≡◌, ◌-◌, ltb, refl, none, ap, sym, ◌∙◌, Bool-cases, inl, inr, if◌then◌else◌, Bool, true,
  false, arith, Option, some, [], ◌∷◌, Text,
}
use gst_kvs_sink.Common.Words.{u64_limit}
use gst_kvs_sink.Common.Time.{ClockApi}
use gst_kvs_sink.Sink.Settings.{
  Settings, Property, stream_name, region, fragment_duration, session_duration_secs, mode,
  buffer_directory, max_buffer_hours, segment_duration_secs, other, Value, text, number, get_text,
  get_number, non_empty, set_property, get_property,
}

-- The value is of the property's type, and below 2^64 - 1 if it is a number: the object system's
-- numbers are below 2^64, and the last of them is no time.
unfoldable pub fits : Property → Value → Bool
fits stream_name (text t) = true
fits region (text t) = true
fits mode (text t) = true
fits buffer_directory (text t) = true
fits fragment_duration (number n) = ltb n (u64_limit - 1)
fits session_duration_secs (number n) = ltb n u64_limit
fits max_buffer_hours (number n) = ltb n u64_limit
fits segment_duration_secs (number n) = ltb n u64_limit
fits p v = false

ltb_lt : (n m : ℕ) → ltb n m ≡ true → n < m
ltb_lt n m h = ground arith

-- What the settings are read as, if they could be set.
abbrev pub get_after : Property → Option Settings → Option Value
get_after p none = none
get_after p (some s) = get_property p s

-- A value of the property's type is read back as it was set, whatever the other settings and the
-- environment are.
pub get_property-set_property :
    (clock : ClockApi) (variable : Option Text) (p : Property) (v : Value) (s : Settings)
    → fits p v ≡ true
    → get_after p (set_property clock variable p v s) ≡ some v
unfolding fits get_property set_property get_text get_number non_empty
get_property-set_property clock variable stream_name (text t) s h = refl
get_property-set_property clock variable region (text t) s h = refl
get_property-set_property clock variable mode (text t) s h = refl
get_property-set_property clock variable buffer_directory (text []) s h = refl
get_property-set_property clock variable buffer_directory (text (c ∷ t)) s h = refl
get_property-set_property clock variable fragment_duration (number n) s h =
    rw (get_after, clock.from_nseconds_lem n (ltb_lt n (u64_limit - 1) h)) refl
get_property-set_property clock variable session_duration_secs (number n) s h = refl
get_property-set_property clock variable max_buffer_hours (number n) s h = refl
get_property-set_property clock variable segment_duration_secs (number n) s h = refl
get_property-set_property clock variable p v s h = cc

-- Whether two properties are the same.
unfoldable pub same_property : Property → Property → Bool
same_property stream_name stream_name = true
same_property region region = true
same_property fragment_duration fragment_duration = true
same_property session_duration_secs session_duration_secs = true
same_property mode mode = true
same_property buffer_directory buffer_directory = true
same_property max_buffer_hours max_buffer_hours = true
same_property segment_duration_secs segment_duration_secs = true
same_property other other = true
same_property p q = false

same_property_eq : (p q : Property) → same_property p q ≡ true → p ≡ q
unfolding same_property
same_property_eq stream_name stream_name h = refl
same_property_eq stream_name q h = cc
same_property_eq region region h = refl
same_property_eq region q h = cc
same_property_eq fragment_duration fragment_duration h = refl
same_property_eq fragment_duration q h = cc
same_property_eq session_duration_secs session_duration_secs h = refl
same_property_eq session_duration_secs q h = cc
same_property_eq mode mode h = refl
same_property_eq mode q h = cc
same_property_eq buffer_directory buffer_directory h = refl
same_property_eq buffer_directory q h = cc
same_property_eq max_buffer_hours max_buffer_hours h = refl
same_property_eq max_buffer_hours q h = cc
same_property_eq segment_duration_secs segment_duration_secs h = refl
same_property_eq segment_duration_secs q h = cc
same_property_eq other other h = refl
same_property_eq other q h = cc

duration-others :
    (q : Property) (n : ℕ) (s : Settings)
    → same_property fragment_duration q ≡ false
    → get_property q (record s { fragment_duration = n }) ≡ get_property q s
unfolding same_property get_property
duration-others fragment_duration n s h = cc
duration-others q n s h = refl

set_property-others :
    (clock : ClockApi) (variable : Option Text) (p q : Property) (v : Value) (s : Settings)
    → fits p v ≡ true
    → same_property p q ≡ false
    → get_after q (set_property clock variable p v s) ≡ get_property q s
unfolding same_property get_property set_property fits get_number
set_property-others clock variable stream_name stream_name v s f h = cc
set_property-others clock variable stream_name q v s f h = refl
set_property-others clock variable region region v s f h = cc
set_property-others clock variable region q v s f h = refl
set_property-others clock variable fragment_duration fragment_duration v s f h = cc
set_property-others clock variable fragment_duration q (number n) s f h =
    rw (get_after, clock.from_nseconds_lem n (ltb_lt n (u64_limit - 1) f)) (duration-others q n s h)
set_property-others clock variable fragment_duration q v s f h = cc
set_property-others clock variable session_duration_secs session_duration_secs v s f h = cc
set_property-others clock variable session_duration_secs q v s f h = refl
set_property-others clock variable mode mode v s f h = cc
set_property-others clock variable mode q v s f h = refl
set_property-others clock variable buffer_directory buffer_directory v s f h = cc
set_property-others clock variable buffer_directory q v s f h = refl
set_property-others clock variable max_buffer_hours max_buffer_hours v s f h = cc
set_property-others clock variable max_buffer_hours q v s f h = refl
set_property-others clock variable segment_duration_secs segment_duration_secs v s f h = cc
set_property-others clock variable segment_duration_secs q v s f h = refl
set_property-others clock variable other q v s f h = refl

-- Setting a property to a value of its type, a number below 2^64 and, of the fragment duration,
-- below 2^64 - 1, does not panic. Afterwards the property has the value that was given, and every
-- other property has the value that it had.
pub get_property-after_set :
    (clock : ClockApi) (variable : Option Text) (p q : Property) (v : Value) (s : Settings)
    → fits p v ≡ true
    → get_after q (set_property clock variable p v s)
      ≡ (if same_property p q then some v else get_property q s)
get_property-after_set clock variable p q v s h = elim (Bool-cases (same_property p q)) [
  | inl same ↦ rw same (
      ap (λ r. get_after r (set_property clock variable p v s)) (sym (same_property_eq p q same))
      ∙ get_property-set_property clock variable p v s h)
  | inr apart ↦ rw apart (set_property-others clock variable p q v s h apart)
]
