-- ===== src/Sink/Failures/Messages.antt =====
-- Which error texts count as network failures.
use gst_kvs_sink.Common.{◌≡◌, refl, ◌++◌, Text, codes}
use gst_kvs_sink.Buffer.Names.{contains, starts_with}
use gst_kvs_sink.Kvs.Client.{internal, display}
use gst_kvs_sink.Sink.Failures.{to_lower, is_network_error_str}

-- Whether a reconnection that was given up counts as a network failure depends only on the text of
-- the last error, and not on that the connection was lost.
pub is_network_error_str-display :
    (e : Text)
    → is_network_error_str
        (display (internal (codes "Failed to reconnect after exhausting retries: " ++ e)))
      ≡ is_network_error_str e
unfolding is_network_error_str display contains starts_with to_lower
is_network_error_str-display e = refl
