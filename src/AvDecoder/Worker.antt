-- ===== src/AvDecoder/Worker.antt =====
-- src/streamer/decoder/av_decoder.cc: the sections of the decoder's worker, as `Run` has them.
use mw_streamer.Base.{Bool, false, not, ◌&&◌, Option, none, some, ◌+◌, if◌then◌else◌}
use mw_streamer.Ffmpeg.{TimeMath, StreamInfo}
use mw_streamer.Media.{ReadResult}
use mw_streamer.BlockingQueue as Queue
use mw_streamer.BlockingQueue.{BlockingQueue, QueueResult, Outcome, Done}
use mw_streamer.AvDecoder.Loop.{Codec, Failure, Input, Reaction, turn, consume, mark}
use mw_streamer.AvDecoder.{AvDecoder, Phase, discard}

module _ {S : Type 0} where
  -- What the loop does next.
  abbrev pub act : Reaction S → AvDecoder S → AvDecoder S
  act (Reaction.wants core) s = record s { core = core; phase = Phase.popping }
  act (Reaction.emits core result ends) s = record s {
    core = core;
    phase = Phase.emitting result ends;
  }
  act (Reaction.fails core e) s = record s { core = core; phase = Phase.failing e }
  act (Reaction.continues core) s = record s { core = core; phase = Phase.looping }

  abbrev pub emitted : Outcome → Bool → AvDecoder S → AvDecoder S
  emitted (Outcome.returned QueueResult.success) ends s = record s {
    core = mark ends s.core;
    phase = Phase.looping;
  }
  emitted Outcome.threw ends s = record s { phase = Phase.failing Failure.other }
  emitted _ ends s = record s { phase = Phase.exited }

  abbrev pub emit_done : Option (Done ReadResult) → Bool → AvDecoder S → Option (AvDecoder S)
  emit_done none ends s = none
  emit_done (some done) ends s = some (emitted done.outcome ends (record s { frames = done.after }))

  abbrev pub popped : Option Input → AvDecoder S → AvDecoder S
  popped none s = record s { phase = Phase.exited }
  popped (some input) s = record s { phase = Phase.holding input }

  abbrev pub pop_done : Option (Done Input) → AvDecoder S → Option (AvDecoder S)
  pop_done none s = none
  pop_done (some done) s = some (popped done.item (record s { packets = done.after }))

  module _ (m : TimeMath) (info : StreamInfo) (c : Codec S) where
    -- The next section of the worker. `throws`: no memory for a frame, or for its place in the
    -- queue. None while it waits, and at its end.
    abbrev pub work_from : Phase → AvDecoder S → Bool → Option (AvDecoder S)
    work_from Phase.looping s throws = some (
        if s.stopping
        then record s { phase = Phase.exited }
        else if throws && (s.core.started && not s.core.drained)
        then record s { phase = Phase.failing Failure.other }
        else act (turn m info c s.core) s)
    work_from (Phase.emitting result ends) s throws =
        emit_done (Queue.push s.frames result throws false) ends s
    work_from Phase.popping s throws = pop_done (Queue.pop s.packets false) s
    work_from (Phase.holding input) s throws =
        some
          (if s.stopping then record s { phase = Phase.exited } else act (consume c s.core input) s)
    work_from (Phase.failing e) s throws =
        some
          (record s { error = some e; on_error = false; phase = Phase.closing_packets s.on_error })
    work_from (Phase.closing_packets callback) s throws = some (record s {
      packets = (Queue.close s.packets).after;
      phase = Phase.closing_frames callback;
    })
    work_from (Phase.closing_frames callback) s throws =
        some (record s { frames = (Queue.close s.frames).after; phase = Phase.discarding callback })
    work_from (Phase.discarding callback) s throws =
        some
          (record s { packets = discard s.packets.queue s.packets; phase = Phase.calling callback })
    work_from (Phase.calling callback) s throws =
        some (record s {
          reports = if callback then s.reports + 1 else s.reports;
          phase = Phase.exited;
        })
    work_from Phase.exited s throws = none

    unfoldable pub work : AvDecoder S → Bool → Option (AvDecoder S)
    work s throws = work_from s.phase s throws
