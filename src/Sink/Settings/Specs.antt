-- ===== src/Sink/Settings/Specs.antt =====
-- The specifications of the properties, which the application sees.
use gst_kvs_sink.Common.{ℕ, ◌-◌, ◌*◌, Option, none, some, List, [], ◌∷◌, Text, codes}
use gst_kvs_sink.Common.Words.{u64_limit}
use gst_kvs_sink.Sink.Settings.{
  Property, stream_name, region, fragment_duration, session_duration_secs, mode, buffer_directory,
  max_buffer_hours, segment_duration_secs, default,
}

-- What a builder is given: a text property has a default or none, a number a range and a default.
pub data Kind : Type 0 where
  string : Option Text → Kind
  uint64 : ℕ → ℕ → ℕ → Kind

-- A specification; each is mutable in the state Ready.
pub record ParamSpec : Type 0 where
  pub property : Property
  pub name : Text
  pub nick : Text
  pub kind : Kind

-- The builder's bounds where none are given.
abbrev pub full : ℕ → Kind
full d = uint64 0 (u64_limit - 1) d

-- `Properties::properties`, in an environment with this region.
unfoldable pub properties : Option Text → List ParamSpec
properties variable =
    let defaults = default variable in
    record {
      property = stream_name;
      name = codes "stream-name";
      nick = codes "Stream Name";
      kind = string none;
    }
    ∷ record {
      property = region;
      name = codes "region";
      nick = codes "AWS Region";
      kind = string (some defaults.region);
    }
    ∷ record {
      property = fragment_duration;
      name = codes "fragment-duration";
      nick = codes "Fragment Duration";
      kind = full defaults.fragment_duration;
    }
    ∷ record {
      property = session_duration_secs;
      name = codes "session-duration-secs";
      nick = codes "Session Duration";
      kind = uint64 1 (45 * 60) defaults.session_duration_secs;
    }
    ∷ record {
      property = mode;
      name = codes "mode";
      nick = codes "Mode";
      kind = string (some defaults.mode);
    }
    ∷ record {
      property = buffer_directory;
      name = codes "buffer-directory";
      nick = codes "Buffer Directory";
      kind = string none;
    }
    ∷ record {
      property = max_buffer_hours;
      name = codes "max-buffer-hours";
      nick = codes "Max Buffer Hours";
      kind = uint64 1 168 defaults.max_buffer_hours;
    }
    ∷ record {
      property = segment_duration_secs;
      name = codes "segment-duration-secs";
      nick = codes "Segment Duration";
      kind = uint64 10 600 defaults.segment_duration_secs;
    }
    ∷ []
