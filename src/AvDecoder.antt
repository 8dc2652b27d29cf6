-- ===== src/AvDecoder.antt =====
-- src/streamer/decoder/av_decoder.cc: one decoder, between the producer of its packets, its worker
-- and the reader of its frames.
pub mod Loop
pub mod Opening
pub mod Choice
pub mod Worker
pub mod Reference
pub mod Runs
pub mod Standing
pub mod Follows
pub mod Untouched
pub mod Sections
pub mod Returned
pub mod Moves
pub mod Reads
pub mod Delivery
pub mod Schedules
pub mod EndPts
pub mod Nearing
pub mod Stopping
pub mod Faults
pub mod Handling
pub mod Failing
pub mod Submissions
pub mod Discipline
pub mod Scenarios
pub mod Examples
use mw_streamer.Base.{
  Bool, true, false, not, ◌&&◌, ◌||◌, Option, none, some, List, [], ◌∷◌, ◌++◌, ℕ, suc, ◌+◌, ◌==◌,
  length, leb, ℤ, pos, leb_ℤ, eqb_ℤ, ltb_ℤ, Error, invalid_argument, logic_error, Result, ok, err,
  ◌>>=◌, ◌>>◌, throw_if, if◌then◌else◌,
}
use mw_streamer.Ffmpeg.{TimeMath, StreamInfo, AvPacket, Packet, nopts_value}
use mw_streamer.Media.{ReadResult, ReadStatus, no_result}
use mw_streamer.BlockingQueue as Queue
use mw_streamer.BlockingQueue.{BlockingQueue, QueueResult, Outcome, Done}
use Opening.{AvCodec}
use Loop.{Codec, Core, Failure, Input, InputKind, Reaction, turn, consume, fresh_core, mark}

-- Where the worker stands between two sections: at the top of its loop, before a push to the
-- frames with the result and whether it is the end, before Pop, with an input in hand, in the
-- handler of an exception (with the callback, if it was set), or at its end.
pub data Phase : Type 0 where
  looping popping exited : Phase
  emitting : ReadResult → Bool → Phase
  holding : Input → Phase
  failing : Failure → Phase
  closing_packets closing_frames discarding calling : Bool → Phase

-- The reader: outside ReadFrame, before it pops, and after, with what it got.
pub data Reader : Type 0 where
  away reading : Reader
  got : Option ReadResult → Reader

-- What a submission comes to: false, true, or a wait for room.
pub data Admission : Type 0 where
  refused accepted waiting : Admission

-- `on_error`: a callback is set; `reports` counts its calls. `offered` is what the producer waits
-- to push.
pub record AvDecoder (S : Type 0) : Type 0 where
  pub stopping : Bool
  pub submitted_eof : Bool
  pub error : Option Failure
  pub on_error : Bool
  pub reports : ℕ
  pub packets : BlockingQueue Input
  pub frames : BlockingQueue ReadResult
  pub core : Core S
  pub phase : Phase
  pub offered : Option Input
  pub reader : Reader

abbrev pub has_error : Option Failure → Bool
has_error none = false
has_error (some e) = true

abbrev pub is_reset : InputKind → Bool
is_reset InputKind.reset_kind = true
is_reset _ = false

abbrev pub is_eof : InputKind → Bool
is_eof InputKind.eof_kind = true
is_eof _ = false

abbrev pub bad_packet : StreamInfo → Packet → Bool
bad_packet info none = true
bad_packet info (some p) =
    not p.has_data || (leb_ℤ p.size (pos 0) || not (eqb_ℤ p.stream_index info.stream_index))

-- `result.stream_index = ...; result.time_base = ...` on a default result.
abbrev pub null_result : StreamInfo → ReadResult
null_result info = record no_result { stream_index = info.stream_index; time_base = info.time_base }

abbrev pub result_or : Option ReadResult → ReadResult → ReadResult
result_or none r = r
result_or (some read) r = read

-- `while (TryPop(discarded) == kSuccess)`: one call for each item, and the one that fails.
abbrev pub discard {ℓ} : {A : Type ℓ} → List A → BlockingQueue A → BlockingQueue A
discard [] q = (Queue.try_pop q false).after
discard (x ∷ rest) q = discard rest (Queue.try_pop q false).after

module _ {S : Type 0} where
  abbrev pub begin : S → BlockingQueue Input → BlockingQueue ReadResult → AvDecoder S
  begin codec packets frames = record {
    stopping = false;
    submitted_eof = false;
    error = none;
    on_error = false;
    reports = 0;
    packets = packets;
    frames = frames;
    core = fresh_core codec;
    phase = Phase.looping;
    offered = none;
    reader = Reader.away;
  }

  -- The constructor, with the codec that FindDecoder has found and FFmpeg has opened, or what they
  -- threw.
  unfoldable pub make : Result AvCodec → ℕ → ℕ → ℤ → Result S → Result (AvDecoder S)
  make found packet_capacity frame_capacity thread_count opened = do
    _ ← found
    packets ← Queue.make packet_capacity
    frames ← Queue.make frame_capacity
    throw_if (ltb_ℤ thread_count (pos 0)) invalid_argument
    codec ← opened
    ok (begin codec packets frames)

  -- The push of an input is over: true where it was admitted. Only the producer reads and writes
  -- submitted_eof_, so that its assignment is part of the same section.
  abbrev pub pushed : Input → Outcome → AvDecoder S → Bool × AvDecoder S
  pushed input (Outcome.returned QueueResult.success) s =
      (true, record s { submitted_eof = is_eof input.kind })
  pushed input _ s = (false, s)

  abbrev pub push_done : Input → Option (Done Input) → AvDecoder S → Option (Bool × AvDecoder S)
  push_done input none s = none
  push_done input (some done) s =
      some (pushed input done.outcome (record s { packets = done.after }))

  abbrev pub tried : Option (Bool × AvDecoder S) → AvDecoder S → Admission × AvDecoder S
  tried none s = (Admission.refused, s)
  tried (some (true, t)) s = (Admission.accepted, t)
  tried (some (false, t)) s = (Admission.refused, t)

  abbrev pub enqueue : AvDecoder S → Input → Bool → Admission × AvDecoder S
  enqueue s input wait =
      if not wait && leb s.packets.capacity (length s.packets.queue)
      then (Admission.refused, s)
      else if wait
      then (Admission.waiting, record s { offered = some input })
      else tried (push_done input (Queue.push s.packets input false true) s) s

  -- `Push`, up to where it waits for room.
  unfoldable pub submit : AvDecoder S → Input → Bool → Result (Admission × AvDecoder S)
  submit s input wait = if s.stopping || has_error s.error then ok (Admission.refused, s) else do
    throw_if (s.submitted_eof && not (is_reset input.kind)) logic_error
    ok (enqueue s input wait)

  unfoldable pub push_packet :
      StreamInfo → AvDecoder S → Packet → Bool → Result (Admission × AvDecoder S)
  push_packet info s packet wait = do
    throw_if (bad_packet info packet) invalid_argument
    submit s (record { kind = InputKind.packet_kind; packet = packet }) wait

  unfoldable pub push_eof : AvDecoder S → Bool → Result (Admission × AvDecoder S)
  push_eof s wait = submit s (record { kind = InputKind.eof_kind; packet = none }) wait

  unfoldable pub reset : AvDecoder S → Bool → Result (Admission × AvDecoder S)
  reset s wait = submit s (record { kind = InputKind.reset_kind; packet = none }) wait

  -- The rest of `Push`, once there is room or the queue was closed. None while it waits.
  abbrev pub finish_from : Option Input → AvDecoder S → Option (Bool × AvDecoder S)
  finish_from none s = none
  finish_from (some input) s =
      push_done input (Queue.push s.packets input false false) (record s { offered = none })

  unfoldable pub finish_push : AvDecoder S → Option (Bool × AvDecoder S)
  finish_push s = finish_from s.offered s

  -- The three sections of `ReadFrame`. After the first, the reader goes on to the second, unless
  -- the decoder stops: then it returns a null result.
  unfoldable pub begin_read : AvDecoder S → AvDecoder S
  begin_read s = if s.stopping then s else record s { reader = Reader.reading }

  abbrev pub read_done : Option (Done ReadResult) → AvDecoder S → Option (AvDecoder S)
  read_done none s = none
  read_done (some done) s = some (record s { frames = done.after; reader = Reader.got done.item })

  abbrev pub pop_from : Reader → AvDecoder S → Bool → Option (AvDecoder S)
  pop_from Reader.reading s wait =
      read_done (if wait then Queue.pop s.frames false else some (Queue.try_pop s.frames false)) s
  pop_from _ s wait = none

  unfoldable pub pop_frame : AvDecoder S → Bool → Option (AvDecoder S)
  pop_frame s wait = pop_from s.reader s wait

  abbrev pub end_from : StreamInfo → Reader → AvDecoder S → Option (ReadResult × AvDecoder S)
  end_from info (Reader.got read) s = some (
    if s.stopping then null_result info else result_or read (null_result info),
    record s { reader = Reader.away },
  )
  end_from info _ s = none

  unfoldable pub end_read : StreamInfo → AvDecoder S → Option (ReadResult × AvDecoder S)
  end_read info s = end_from info s.reader s

  -- The three sections of `RequestStop`; the second and third may only follow the first.
  unfoldable pub mark_stopping : AvDecoder S → AvDecoder S
  mark_stopping s = record s { stopping = true }

  unfoldable pub stop_packets : AvDecoder S → Option (AvDecoder S)
  stop_packets s =
      if s.stopping then some (record s { packets = (Queue.close s.packets).after }) else none

  unfoldable pub stop_frames : AvDecoder S → Option (AvDecoder S)
  stop_frames s =
      if s.stopping then some (record s { frames = (Queue.close s.frames).after }) else none

  -- The rest of `Stop`, once the worker has ended.
  abbrev pub finish_from_phase : Phase → AvDecoder S → Option (AvDecoder S)
  finish_from_phase Phase.exited s =
      if s.stopping
      then some (record s {
        packets = discard s.packets.queue s.packets;
        frames = discard s.frames.queue s.frames;
      })
      else none
  finish_from_phase _ s = none

  unfoldable pub finish_stop : AvDecoder S → Option (AvDecoder S)
  finish_stop s = finish_from_phase s.phase s

  unfoldable pub set_on_error : AvDecoder S → Bool → AvDecoder S
  set_on_error s callback = record s { on_error = callback }

  unfoldable pub set_read_signal : AvDecoder S → Option ℕ → AvDecoder S
  set_read_signal s signal = record s { frames = (Queue.set_read_signal s.frames signal).after }
