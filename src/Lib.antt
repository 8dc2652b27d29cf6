-- ===== src/Lib.antt =====
-- The core of mw-streamer, a C++ library that decodes, re-times, remuxes, publishes and records
-- live media.
--
-- The parts and how they interact. A decoder takes the packets of one track through a bounded queue
-- and hands decoded frames on through another (AvDecoder, BlockingQueue). The scheduler releases
-- the frames of both tracks by one realtime clock (RealtimeTiming), converts video to a fixed frame
-- rate (ForceFps), and delivers through the Syncer, whose timing keeps both output tracks
-- continuous with fillers. The remuxer takes packets instead: a producer validates a packet and
-- passes it through a handoff of one place, the output's poller takes it from there into the
-- interleaver, which orders the packets of all tracks by DTS (PacketInterleaver), and those that
-- are ready are mapped to milliseconds from 0 (MediaTimestampConverter) and given to the outputs
-- and the recorders. A recorder has a queue that is bounded in bytes and a worker that writes a
-- file.
--
-- Files, with the code they model (paths from the repository's root):
--   Base          shared tests, lists, integers with the bounds of int64_t, exceptions as values
--   Ffmpeg        FFmpeg's types and its time arithmetic as a parameter (TimeMath), and
--                 StreamInfo::Validate of src/streamer/ffmpeg/stream_info.cc
--   Media         AvDecoderReadResult and Frame, include/mw/streamer/decoder/av_decoder.h
--   Realtime      src/streamer/scheduler/realtime_timing.cc: make, schedule, reset
--   ForceFps      src/streamer/filter/force_fps.cc: try_push_frame, try_read_frame, stop, reset
--   SyncerTiming  src/streamer/syncer/syncer_timing.cc: make and step. Output models what a track
--                 sends (real, fill, finish_fill), Sentinel the decisions (correct, time_out, step)
--   AvDecoder     src/streamer/decoder/av_decoder.cc: submit and finish_push (Push), begin_read,
--                 pop_frame and end_read (ReadFrame), mark_stopping, stop_packets and
--                 stop_frames (RequestStop), finish_stop (Stop). Opening has FindDecoder, Loop
--                 what the worker does with the codec, Worker its sections (work), Reference the
--                 same loop without threads
--   Recorder      src/streamer/recorder/recorder.cc: start, try_submit, the worker's advance, drain,
--                 join
--   Remuxer       src/streamer/remuxer/remuxer.cc: offer, hand_over and enter (SubmitPacket), drain,
--                 on_error, poll (Process and Finish), release (Stop)
--   Syncer        src/streamer/syncer/syncer.cc: validation, step, reset
--   Signals       include/mw/streamer/platform/wait_signal.h and write_signal.h
--   Scheduler     src/streamer/scheduler/scheduler.cc: one track between driver and worker
--   BlockingQueue include/mw/streamer/platform/blocking_queue.h: every call as one step
--   Timestamps    src/streamer/remuxer/media_timestamp_converter.h: make, validate, initialize,
--                 convert
--   Interleaver   src/streamer/remuxer/packet_interleaver.h: make, push, pop_ready, first_packets
--
-- State. Each class is a record of its fields, each method a function from the state to a Result:
-- the value and the next state, or the exception that was thrown. A dereference of an empty
-- optional, a null pointer or end() is the result `undefined`. A method that holds the object's
-- mutex is one step. An exception that the class does not handle ends a run, since the owners stop
-- at the first one; one that it handles leads to the state in which its handler leaves it.
--
-- Integers. std::int64_t is the integer with its bounds as hypotheses, or as the checks that the
-- code itself makes; std::uint64_t differences keep their wrap-around (to_uint64, sub_uint64).
--
-- Threads. Where several threads share an object, a section under its mutex is a step, and a run is
-- any sequence of steps of all threads (Scheduler/Runs, Recorder/Runs, Remuxer/Runs,
-- AvDecoder/Runs). A thread that waits is one whose step has no result yet. What the environment
-- throws, such as an output, a file writer or an allocation, is an argument of the step.
--
-- Loops. The loops over queues are recursion on the list, so no fuel is needed; the function `reads`
-- of ForceFps/Gap counts calls, not iterations. A worker's loop is its sections; `left` of
-- Remuxer/Draining, `sections` of Recorder/Draining and `sections_left` of AvDecoder/Nearing count
-- those that a worker has left at most, once it is to end. The loop of a
-- decoder by itself (AvDecoder/Reference) takes a number of steps, and has no result where there is
-- nothing to do.
--
-- FFmpeg. av_rescale_q, av_compare_ts, av_cmp_q and av_inv_q are the fields of TimeMath. IsOrder
-- and IsBounded state what FFmpeg documents of them; Ffmpeg/Plain has instances of both. A codec is
-- the record Codec of AvDecoder/Loop, about which nothing is assumed.
--
-- Left out: logging, latency measurement, the creation of threads, reference counts of media
-- buffers, exceptions of the copies of a frame in ForceFps and of a packet in the interleaver, and
-- the wrappers of FFmpeg, CUDA, OpenCV and ZLMediaKit.
pub mod Base
pub mod Ffmpeg
pub mod Media
pub mod BlockingQueue
pub mod Realtime
pub mod ForceFps
pub mod SyncerTiming
pub mod Syncer
pub mod Signals
pub mod Scheduler
pub mod Timestamps
pub mod Interleaver
pub mod Recorder
pub mod Remuxer
pub mod AvDecoder
