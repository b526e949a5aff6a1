-- ===== src/MediaUploader.antt =====
-- The trait `MediaUploader` of src/media_uploader.rs: what the sink and the buffer ask of the
-- service. `U` is the uploader's own state, with whatever of the network it sees.
use gst_kvs_sink.Common.{Bool, Text, Result}
use gst_kvs_sink.Fragment.{Fragment}

pub record MediaUploader (U : Type 0) : Type 0 where
  pub initialize : Text → Text → U → Result (Unit {0}) × U
  pub put_fragment : Fragment → U → Result (Unit {0}) × U
  pub is_session_expired : U → Bool
  pub reset_session : U → Result (Unit {0}) × U
