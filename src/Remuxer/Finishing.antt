-- ===== src/Remuxer/Finishing.antt =====
-- The sections of Process and Finish that post no further task but the last.
use mw_streamer.Base.{◌≡◌, refl, subst, true, false, Bool, none, List, [], ◌∷◌, arith}
use mw_streamer.Ffmpeg.{AvPacket}
use mw_streamer.Remuxer.{Session, Task, Stage, after_packets}
use mw_streamer.Remuxer.Shape.{ShapeOf, Shape, WakeOf, Wake, UnflushedOf, Unflushed, Inv}

module _ (s : Session) where
  pub finish-Inv :
      (accepted taken : List AvPacket)
      → Inv s accepted taken
      → s.stage ≡ Stage.idle
      → s.tasks ≡ Task.finish ∷ []
      → Inv (record s { record_only = false; tasks = Task.last ∷ [] }) accepted taken
  finish-Inv accepted taken v e f = record {
    shape = let a = v.shape in ground arith;
    wake = let a = v.wake in ground arith;
    unflushed = let a = v.shape in ground arith;
    admits = v.admits;
    ends = v.ends;
    attached = v.attached;
    capacity = v.capacity;
    room = v.room;
    in_order = v.in_order;
    fails = v.fails;
    reported = v.reported;
    has_error = v.has_error;
  }

  pub last-Inv :
      (accepted taken : List AvPacket)
      → Inv s accepted taken
      → s.stage ≡ Stage.idle
      → s.tasks ≡ Task.last ∷ []
      → Inv
          (record s { tasks = []; attached = false; running = false; scheduled = false })
          accepted
          taken
  last-Inv accepted taken v e f = record {
    shape = let a = v.shape in ground arith;
    wake = let a = v.wake in ground arith;
    unflushed = let a = v.shape in ground arith;
    admits = let a = v.admits in let b = v.shape in ground arith;
    ends = v.ends;
    attached = λ r. cc;
    capacity = v.capacity;
    room = v.room;
    in_order = v.in_order;
    fails = λ r. cc;
    reported = v.reported;
    has_error = v.has_error;
  }

  moved-Shape :
      (items : List AvPacket) (finishes : Bool) (ts : List Task)
      → s.tasks ≡ ts
      → ShapeOf s.running s.draining s.closing s.scheduled (Stage.delivering items finishes) ts
      → Shape (after_packets none finishes s)
  moved-Shape items true [] f h = ground arith
  moved-Shape items false [] f h = ground arith
  moved-Shape items true ts f h = ground arith
  moved-Shape items false ts f h = ground arith

  moved-Wake :
      (items : List AvPacket) (finishes : Bool) (ts : List Task)
      → s.tasks ≡ ts
      → ShapeOf s.running s.draining s.closing s.scheduled (Stage.delivering items finishes) ts
      → WakeOf s.running s.error_reported s.packets.queue s.entering
          (Stage.delivering items finishes)
          ts
      → Wake (after_packets none finishes s)
  moved-Wake items true [] f h w = ground arith
  moved-Wake items false [] f h w = ground arith
  moved-Wake items true ts f h w = ground arith
  moved-Wake items false ts f h w = ground arith

  moved-Unflushed :
      (items : List AvPacket) (finishes : Bool) (ts : List Task)
      → s.tasks ≡ ts
      → ShapeOf s.running s.draining s.closing s.scheduled (Stage.delivering items finishes) ts
      → UnflushedOf s.running s.interleaver.flushed (Stage.delivering items finishes) ts
      → Unflushed (after_packets none finishes s)
  moved-Unflushed items true [] f h w = ground arith
  moved-Unflushed items false [] f h w = ground arith
  moved-Unflushed items true ts f h w = ground arith
  moved-Unflushed items false ts f h w = ground arith

  pub moved-Inv :
      (accepted taken items : List AvPacket) (finishes : Bool)
      → Inv s accepted taken
      → s.stage ≡ Stage.delivering items finishes
      → Inv (after_packets none finishes s) accepted taken
  moved-Inv accepted taken items finishes v e = record {
    shape =
        moved-Shape items finishes s.tasks refl
          (subst (λ x. ShapeOf s.running s.draining s.closing s.scheduled x s.tasks) e v.shape);
    wake =
        moved-Wake items finishes s.tasks refl
          (subst (λ x. ShapeOf s.running s.draining s.closing s.scheduled x s.tasks) e v.shape)
          (subst (λ x. WakeOf s.running s.error_reported s.packets.queue s.entering x s.tasks) e
            v.wake);
    unflushed =
        moved-Unflushed items finishes s.tasks refl
          (subst (λ x. ShapeOf s.running s.draining s.closing s.scheduled x s.tasks) e v.shape)
          (subst (λ x. UnflushedOf s.running s.interleaver.flushed x s.tasks) e v.unflushed);
    admits = let a = v.admits in ground arith;
    ends = let a = v.ends in ground arith;
    attached = let a = v.attached in ground arith;
    capacity = let a = v.capacity in ground arith;
    room = let a = v.room in ground arith;
    in_order = let a = v.in_order in ground arith;
    fails = let a = v.fails in ground arith;
    reported = let a = v.reported in ground arith;
    has_error = let a = v.has_error in ground arith;
  }
  -- A failure while the packets are delivered.
