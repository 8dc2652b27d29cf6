-- ===== src/Remuxer/Steps.antt =====
-- The sections of a session, and its shape.
use mw_streamer.Base.{◌≡◌, refl, List, [], arith}
use mw_streamer.Remuxer.{Session, Task, Stage, drain, on_error, Thrown}
use mw_streamer.Remuxer.Shape.{ShapeOf, Shape, WakeOf, Wake, UnflushedOf, Unflushed, Inv}
use mw_streamer.Ffmpeg.{AvPacket}
use mw_streamer.BlockingQueue.{close}

module _ (s : Session) where
  drain-Shape :
      (st : Stage) (ts : List Task)
      → s.stage ≡ st
      → s.tasks ≡ ts
      → ShapeOf s.running s.draining s.closing s.scheduled st ts
      → Shape (drain s)
  unfolding drain
  drain-Shape Stage.idle [] e f h = ground arith
  drain-Shape st ts e f h = ground arith

  drain-Wake :
      (st : Stage) (ts : List Task)
      → s.stage ≡ st
      → s.tasks ≡ ts
      → ShapeOf s.running s.draining s.closing s.scheduled st ts
      → WakeOf s.running s.error_reported s.packets.queue s.entering st ts
      → Wake (drain s)
  unfolding drain close
  drain-Wake Stage.idle [] e f h w = ground arith
  drain-Wake st ts e f h w = ground arith

  drain-Unflushed :
      (st : Stage) (ts : List Task)
      → s.stage ≡ st
      → s.tasks ≡ ts
      → ShapeOf s.running s.draining s.closing s.scheduled st ts
      → UnflushedOf s.running s.interleaver.flushed st ts
      → Unflushed (drain s)
  unfolding drain
  drain-Unflushed Stage.idle [] e f h w = ground arith
  drain-Unflushed st ts e f h w = ground arith

  pub drain-Inv :
      (accepted taken : List AvPacket) → Inv s accepted taken → Inv (drain s) accepted taken
  unfolding drain close
  drain-Inv accepted taken v = record {
    shape = drain-Shape s.stage s.tasks refl refl v.shape;
    wake = drain-Wake s.stage s.tasks refl refl v.shape v.wake;
    unflushed = drain-Unflushed s.stage s.tasks refl refl v.shape v.unflushed;
    admits = let a = v.admits in ground arith;
    ends = let a = v.ends in let b = v.attached in let c = v.admits in ground arith;
    attached = let a = v.attached in ground arith;
    capacity = let a = v.capacity in ground arith;
    room = let a = v.room in ground arith;
    in_order = let a = v.in_order in ground arith;
    fails = let a = v.fails in ground arith;
    reported = let a = v.reported in ground arith;
    has_error = let a = v.has_error in ground arith;
  }

module _ (s : Session) (x : Thrown) where
  on_error-Shape :
      (st : Stage) (ts : List Task)
      → s.stage ≡ st
      → s.tasks ≡ ts
      → ShapeOf s.running s.draining s.closing s.scheduled st ts
      → Shape (on_error s x)
  unfolding on_error
  on_error-Shape Stage.idle [] e f h = ground arith
  on_error-Shape st ts e f h = ground arith

  on_error-Wake :
      (st : Stage) (ts : List Task)
      → s.stage ≡ st
      → s.tasks ≡ ts
      → ShapeOf s.running s.draining s.closing s.scheduled st ts
      → WakeOf s.running s.error_reported s.packets.queue s.entering st ts
      → Wake (on_error s x)
  unfolding on_error close
  on_error-Wake Stage.idle [] e f h w = ground arith
  on_error-Wake st ts e f h w = ground arith

  on_error-Unflushed :
      (st : Stage) (ts : List Task)
      → s.stage ≡ st
      → s.tasks ≡ ts
      → ShapeOf s.running s.draining s.closing s.scheduled st ts
      → UnflushedOf s.running s.interleaver.flushed st ts
      → Unflushed (on_error s x)
  unfolding on_error
  on_error-Unflushed Stage.idle [] e f h w = ground arith
  on_error-Unflushed st ts e f h w = ground arith

  pub on_error-Inv :
      (accepted taken : List AvPacket) → Inv s accepted taken → Inv (on_error s x) accepted taken
  unfolding on_error close
  on_error-Inv accepted taken v = record {
    shape = on_error-Shape s.stage s.tasks refl refl v.shape;
    wake = on_error-Wake s.stage s.tasks refl refl v.shape v.wake;
    unflushed = on_error-Unflushed s.stage s.tasks refl refl v.shape v.unflushed;
    admits = let a = v.admits in ground arith;
    ends = let a = v.ends in let b = v.attached in let c = v.admits in ground arith;
    attached = let a = v.attached in ground arith;
    capacity = let a = v.capacity in ground arith;
    room = let a = v.room in ground arith;
    in_order = let a = v.in_order in ground arith;
    fails = let a = v.fails in ground arith;
    reported = let a = v.reported in ground arith;
    has_error = let a = v.has_error in ground arith;
  }
