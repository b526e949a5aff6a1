-- ===== src/Lib.antt =====
-- A GStreamer sink that publishes H.264 fragments to Amazon Kinesis Video Streams, and buffers
-- them on disk while the service cannot be reached.
--
-- The pipeline hands frames to the element (src/kvssink/imp.rs), which groups them between key
-- frames, has `MkvWriter` (src/mkv_writer.rs) turn a group into a `Fragment` (src/fragment.rs),
-- and puts it into a bounded channel. A worker takes fragments out and either sends them through
-- a `MediaUploader` (src/media_uploader.rs), in the product `KvsClient` (src/kvs_client.rs), or
-- appends them to a mega-cluster file of `BufferedUploadManager`
-- (src/buffered_upload_manager.rs). A recovery task uploads these files later.
--
-- Files:
-- - Common and its children: tests, lists, results, 64-bit words, and time. A `SystemTime` counts
--   nanoseconds from its earliest value; `ClockApi` has the two conversions of the GStreamer
--   bindings, with what their documentation says, as a parameter.
-- - Fragment, MediaUploader: the data type and the trait; the uploader's own state is the
--   parameter `U`.
-- - ClusterFile: the records of a mega-cluster file. `record_writes` are the writes of
--   `append_fragment_to_mega_cluster`, `next` is `ClusterFileReader::next`, and `read_file`
--   collects what the iterator yields. Its fuel is one more than the file's length, which is
--   enough since each record takes 32 bytes.
-- - Buffer.World: the manager's state with the directory, the outcomes of the coming file
--   operations, the readings of the clock, and the uploader. Each file operation takes the next
--   outcome: it goes well, or it fails, a write after any number of its bytes. Buffer.Store
--   models `push_fragment` and what it calls, Buffer.Scan `new` and the scan of the directory,
--   Buffer.Upload `trigger_upload_all` and what it calls.
-- - Kvs.Acks, Kvs.Connection, Kvs.Client: acknowledgments, `KvsConnection`, `KvsClient`. The
--   opening of a PutMedia request is the interface `Network`, and the waits of the backoff policy
--   are a list.
-- - Kvs.Request: `get_or_create_stream`, `sign_request` and the body of `connect`, which fill
--   that interface. The AWS and HTTP libraries are the parameter `Aws`.
-- - Kvs.AckStream: the lines of the response, and `handle_response`. The JSON library is the
--   parameter `parse`.
-- - MkvWriter: timestamps, and fragments as calls on the Matroska library, the parameter
--   `WebmApi`.
-- - Sink.Settings, Sink.State, Sink.Render, Sink.Failures, Sink.Worker, Sink.Lifecycle: the
--   properties, the element's state, the pipeline's calls, network failures and recovery, the
--   worker, and starting. Sink.Signals has the action signal and the small calls, Sink.Recovery
--   the rounds of the recovery task, and Sink.Stop the stop with the drain of the worker; their
--   rounds are bounded by a number, where the task or the timeout has none. Sink.Handoff has the
--   step relation of the tasks, and Sink.Invariant an invariant of it.
-- - Examples and the modules named Runs, TaskRuns, UploadRuns or LogRuns: concrete parameters, and
--   runs on them.
--
-- A call of the pipeline, a round of the worker and a round of the recovery task are one step
-- each: what they do between two locks is not interleaved with other tasks, though the source
-- releases a lock between the sections of a mode switch and of a network failure (`switch_to`,
-- `set_duration`, `enter_buffering`, `store_task`), so that what is said of sequences of these steps
-- is said of calls that do not overlap. The response task is interleaved with the connection's reads
-- by `AckChannel.pulls`. An accepted fragment is one whose bytes are on the channel of the open
-- request. Texts are lists of character codes, and bytes are numbers.
--
-- Not modelled: the AWS, HTTP, JSON, time and Matroska libraries themselves, logging, the bus
-- messages but for those of the action signal, the handle of the runtime, plugin registration,
-- and the tests.
pub mod Common
pub mod Fragment
pub mod MediaUploader
pub mod ClusterFile
pub mod Buffer
pub mod Kvs
pub mod MkvWriter
pub mod Sink
pub mod Examples
