-- ===== src/Lib.antt =====
-- rtmp-vcam receives an RTMP stream, decodes its H.264 video and hands the frames to a camera
-- extension through a mapped file.
--
-- The parts and how they interact. `run` of crates/rtmp-server/src/server.rs spawns a task for
-- each TCP connection. The task drives the handshake (handshake.rs) and then a session
-- (session.rs) over rml_rtmp, which answers every input with a list of results: bytes to send,
-- and events. The session accepts requests, checks the stream key, and passes the body of each
-- video tag to the demuxer (flv.rs), whose packets go to a VideoSink. The application's sink
-- makes an H264Decoder (crates/video-pipeline/src/decoder.rs and format.rs), whose callback
-- copies each decoded frame into one of two slots of the shared frame buffer. The camera extension
-- (swift/CameraExtension/Extension/Stream.swift) maps the same file, and a timer reads the newest
-- slot and sends it. The surface ring (surface_pool.rs) is another way to hand frames over, by
-- retained surfaces.
--
-- Files:
-- Flv.antt: flv.rs. parse_video_data is the function of the source; parse_sequence_header is
--   cut at its loops (read_set, read_sets, parse_tables). An index or a slice out of bounds is a
--   panic. Flv/Format.antt gives the layout of the tags, independent of the parser, and
--   Flv/UnitTests.antt the unit tests of the file.
-- Handshake.antt: handshake.rs. process, answer, is_completed; rml_rtmp's Handshake is `Rml`.
-- Session.antt: session.rs. RtmpSession is a `World`: rml_rtmp's session, the stream and the
--   sink. new, handle_input, handle_event, accept and send_results are those of the source.
-- Server.antt: server.rs. handle_connection, with its two loops as recursion on the list of what
--   the socket's reads return. Server/Run.antt: run, by the list of what `accept` returns; a task
--   finds in its sink any state of what the sinks share.
-- Frame.antt: decoder.rs, the layout of the mapping and decompression_callback. The mapping is a
--   function from offsets to bytes; an access outside a buffer is a fault.
-- Decoder.antt: decoder.rs, H264Decoder, and format.rs. A ledger keeps what is created, boxed,
--   released, freed and used. Ffi.antt: ffi.rs, the times that it hands over.
-- Reader.antt: swift/CameraExtension/Extension/Stream.swift, readLatestFrame, the reader of the
--   mapping.
-- Camera.antt: the rest of Stream.swift, CameraStreamSource: the mapping, starts and stops, and the
--   handler of the timer, one at a time.
-- Writers.antt: decoder.rs, decompression_callback by its accesses, for several callbacks at once.
-- Pipeline.antt: decoder.rs, the decoding call that runs the callback on the mapping.
-- Sink.antt: crates/rtmp-vcam-app/src/main.rs, DecoderSink, an instance of the session's VideoSink
--   that holds a decoder.
-- Ipc.antt: crates/rtmp-vcam-app/src/ipc.rs, SharedFrameBuffer, the file that is mapped.
-- Args.antt and App.antt: crates/rtmp-vcam-app/src/main.rs, parse_args over the standard library's
--   reading of a u16, and main by its references to the shared frame buffer.
-- Ring.antt: surface_pool.rs. SurfaceRingInner is `Ring` with the list of its calls of CFRetain
--   and CFRelease, and the Arc of SurfaceRing is `Shared`. Ring/Threads.antt: push by its
--   accesses, for several threads. Ring/UnitTests.antt: the unit tests of the file.
-- Io.antt: results beside a state that an error leaves changed. Prelude.antt: shared names.
--
-- Bounds. No function runs on fuel: every loop is recursion on a count, on a list of results, of
-- reads, of events or of arguments. A connection whose list of reads ends waits in
-- `read`, which is an ending of its own. The counters of the ring and of the mapping wrap at
-- 2^64, the dimensions in the mapping and the timestamps at 2^32; products of the sizes of a
-- frame in memory are taken not to wrap, and the camera's count of frames not to reach 2^64.
--
-- Not modelled. rml_rtmp, tokio, libc and Apple's frameworks are parameters, records of their
-- calls with any answers; a write or a flush that never answers is not among them. A row of chroma
-- has `width` bytes, also where the width is odd. The file that the camera maps is taken to be of
-- full size. Connections meet in the shared frame buffer only in Writers.antt and App.antt. Log
-- lines are left out, but for those at the end of a task. The reader's loads may fall anywhere
-- within one callback; where several callbacks run at once, the copy of a plane is one step, and a
-- reader beside them is not modelled. Of the camera extension, in Swift, the stream is modelled,
-- with the handler of its timer and the calls of the system one at a time; the provider, the
-- device and the host application are glue over the platform. The setup of the log in main.rs and
-- the declarations of ffi.rs have no behaviour of their own.
pub mod Prelude
pub mod Flv
pub mod Ring
pub mod Frame
pub mod Reader
pub mod Writers
pub mod Io
pub mod Handshake
pub mod Session
pub mod Server
pub mod Ffi
pub mod Decoder
pub mod Sink
pub mod Pipeline
pub mod Ipc
pub mod Args
pub mod App
pub mod Camera
