-- ===== src/AvDecoder/Untouched.antt =====
-- What the worker and the reader leave untouched.
use mw_streamer.Base.{
  ◌≡◌, refl, subst, Bool, true, false, not, ◌&&◌, Option, none, some, if◌then◌else◌,
}
use mathlib.Core.Option.{some-injective}
use mw_streamer.Ffmpeg.{TimeMath, StreamInfo}
use mw_streamer.Media.{ReadResult}
use mw_streamer.BlockingQueue.{Done, Outcome, QueueResult}
use mw_streamer.AvDecoder.{
  AvDecoder, Phase, Reader, begin_read, pop_frame, read_done, end_read, end_from,
}
use mw_streamer.AvDecoder as Decoder
use mw_streamer.AvDecoder.Loop.{Codec, Input, Reaction, Failure}
use mw_streamer.AvDecoder.Worker.{work_from, act, popped, emitted, pop_done, emit_done}

module _ {S : Type 0} where
  -- The stop and the producer's part are as they were.
  pub record Same (s t : AvDecoder S) : Type 0 where
    pub stop_same : t.stopping ≡ s.stopping
    pub eof_same : t.submitted_eof ≡ s.submitted_eof
    pub offered_same : t.offered ≡ s.offered

  act-Same : (r : Reaction S) (s : AvDecoder S) → Same s (act r s)
  act-Same (Reaction.wants core) s = record {
    stop_same = refl;
    eof_same = refl;
    offered_same = refl;
  }
  act-Same (Reaction.emits core r ends) s = record {
    stop_same = refl;
    eof_same = refl;
    offered_same = refl;
  }
  act-Same (Reaction.fails core e) s = record {
    stop_same = refl;
    eof_same = refl;
    offered_same = refl;
  }
  act-Same (Reaction.continues core) s = record {
    stop_same = refl;
    eof_same = refl;
    offered_same = refl;
  }

  act-if_else :
      (stop stuck : Bool) (r : Reaction S) (s : AvDecoder S)
      → Same s (
          if stop
          then record s { phase = Phase.exited }
          else if stuck
          then record s { phase = Phase.failing Failure.other }
          else act r s)
  act-if_else true stuck r s = record { stop_same = refl; eof_same = refl; offered_same = refl }
  act-if_else false true r s = record { stop_same = refl; eof_same = refl; offered_same = refl }
  act-if_else false false r s = act-Same r s

  pop_done-Same : (d : Option (Done Input)) (s t : AvDecoder S) → pop_done d s ≡ some t → Same s t
  pop_done-Same none s t k = cc
  pop_done-Same (some done) s t k = subst (Same s) (some-injective _ _ k) (by_item done.item)
    where
      by_item : (item : Option Input) → Same s (popped item (record s { packets = done.after }))
      by_item none = record { stop_same = refl; eof_same = refl; offered_same = refl }
      by_item (some input) = record { stop_same = refl; eof_same = refl; offered_same = refl }

  emit_done-Same :
      (d : Option (Done ReadResult)) (ends : Bool) (s t : AvDecoder S)
      → emit_done d ends s ≡ some t
      → Same s t
  emit_done-Same none ends s t k = cc
  emit_done-Same (some done) ends s t k =
      subst (Same s) (some-injective _ _ k) (by_outcome done.outcome)
    where
      by_outcome : (o : Outcome) → Same s (emitted o ends (record s { frames = done.after }))
      by_outcome (Outcome.returned QueueResult.success) = record {
        stop_same = refl;
        eof_same = refl;
        offered_same = refl;
      }
      by_outcome (Outcome.returned QueueResult.timeout) = record {
        stop_same = refl;
        eof_same = refl;
        offered_same = refl;
      }
      by_outcome (Outcome.returned QueueResult.empty) = record {
        stop_same = refl;
        eof_same = refl;
        offered_same = refl;
      }
      by_outcome (Outcome.returned QueueResult.closed) = record {
        stop_same = refl;
        eof_same = refl;
        offered_same = refl;
      }
      by_outcome Outcome.threw = record { stop_same = refl; eof_same = refl; offered_same = refl }
      by_outcome Outcome.finished = record {
        stop_same = refl;
        eof_same = refl;
        offered_same = refl;
      }

  pub begin_read-Same : (s : AvDecoder S) → Same s (begin_read s)
  unfolding begin_read
  begin_read-Same s = by_stop s.stopping
    where
      by_stop : (stop : Bool) → Same s (if stop then s else record s { reader = Reader.reading })
      by_stop true = record { stop_same = refl; eof_same = refl; offered_same = refl }
      by_stop false = record { stop_same = refl; eof_same = refl; offered_same = refl }

  read_done-Same :
      (d : Option (Done ReadResult)) (s t : AvDecoder S) → read_done d s ≡ some t → Same s t
  read_done-Same none s t k = cc
  read_done-Same (some done) s t k =
      subst (Same s) (some-injective _ _ k)
        (record { stop_same = refl; eof_same = refl; offered_same = refl })

  pub pop_frame-Same : (s t : AvDecoder S) (wait : Bool) → pop_frame s wait ≡ some t → Same s t
  unfolding pop_frame
  pop_frame-Same s t wait k = by_reader s.reader k
    where
      by_reader : (reader : Reader) → Decoder.pop_from reader s wait ≡ some t → Same s t
      by_reader Reader.away k = cc
      by_reader (Reader.got r) k = cc
      by_reader Reader.reading k = read_done-Same _ s t k

  pub end_read-Same :
      (info : StreamInfo) (s t : AvDecoder S) (r : ReadResult)
      → end_read info s ≡ some (r, t)
      → Same s t
  unfolding end_read
  end_read-Same info s t r k = by_reader s.reader k
    where
      by_reader : (reader : Reader) → end_from info reader s ≡ some (r, t) → Same s t
      by_reader Reader.away k = cc
      by_reader Reader.reading k = cc
      by_reader (Reader.got read) k =
          subst (λ (x : ReadResult × AvDecoder S). Same s x.1) (some-injective _ _ k)
            (record { stop_same = refl; eof_same = refl; offered_same = refl })

  module _ (m : TimeMath) (info : StreamInfo) (c : Codec S) where
    pub work-Same :
        (ph : Phase) (s t : AvDecoder S) (throws : Bool)
        → work_from m info c ph s throws ≡ some t
        → Same s t
    work-Same Phase.looping s t throws k =
        subst (Same s) (some-injective _ _ k)
          (act-if_else s.stopping (throws && (s.core.started && not s.core.drained)) _ s)
    work-Same (Phase.holding input) s t throws k =
        subst (Same s) (some-injective _ _ k) (act-if_else s.stopping false _ s)
    work-Same Phase.popping s t throws k = pop_done-Same _ s t k
    work-Same (Phase.emitting r ends) s t throws k = emit_done-Same _ ends s t k
    work-Same (Phase.failing e) s t throws k =
        subst (Same s) (some-injective _ _ k)
          (record { stop_same = refl; eof_same = refl; offered_same = refl })
    work-Same (Phase.closing_packets b) s t throws k =
        subst (Same s) (some-injective _ _ k)
          (record { stop_same = refl; eof_same = refl; offered_same = refl })
    work-Same (Phase.closing_frames b) s t throws k =
        subst (Same s) (some-injective _ _ k)
          (record { stop_same = refl; eof_same = refl; offered_same = refl })
    work-Same (Phase.discarding b) s t throws k =
        subst (Same s) (some-injective _ _ k)
          (record { stop_same = refl; eof_same = refl; offered_same = refl })
    work-Same (Phase.calling b) s t throws k =
        subst (Same s) (some-injective _ _ k)
          (record { stop_same = refl; eof_same = refl; offered_same = refl })
    work-Same Phase.exited s t throws k = cc
