-- ===== src/Remuxer/Closing.antt =====
-- The sections on the poller after the first one of Process, up to the last task of Finish.
use mw_streamer.Base.{
  ◌≡◌, refl, subst, true, false, Bool, Option, none, some, List, [], ◌∷◌, ◌++◌, arith,
}
use mw_streamer.Ffmpeg.{AvPacket}
use mw_streamer.BlockingQueue.{close}
use mw_streamer.Remuxer.{Session, Task, Stage, Thrown, on_error, given_error, close_packets}
use mw_streamer.Remuxer.Shape.{ShapeOf, Shape, WakeOf, Wake, Unflushed, Inv}
use mw_streamer.Remuxer.Steps.{on_error-Inv}

module _ (s : Session) where
  broken-Shape :
      (items : List AvPacket) (finishes : Bool) (ts : List Task) (x : Thrown)
      → s.tasks ≡ ts
      → ShapeOf s.running s.draining s.closing s.scheduled (Stage.delivering items finishes) ts
      → (s.running ≡ true → s.error_reported ≡ true → s.draining ≡ true)
      → Shape (record (on_error s x) { stage = Stage.ending })
  unfolding on_error
  broken-Shape items finishes [] x f h a = ground arith
  broken-Shape items finishes ts x f h a = ground arith

  broken-Wake :
      (items : List AvPacket) (finishes : Bool) (ts : List Task) (x : Thrown)
      → s.tasks ≡ ts
      → ShapeOf s.running s.draining s.closing s.scheduled (Stage.delivering items finishes) ts
      → Wake (record (on_error s x) { stage = Stage.ending })
  unfolding on_error
  broken-Wake items finishes [] x f h = ground arith
  broken-Wake items finishes ts x f h = ground arith

  pub broken-Inv :
      (accepted taken items : List AvPacket) (finishes : Bool) (x : Thrown)
      → Inv s accepted taken
      → s.stage ≡ Stage.delivering items finishes
      → Inv (record (on_error s x) { stage = Stage.ending }) accepted taken
  broken-Inv accepted taken items finishes x v e =
      let shape =
        subst (λ x. ShapeOf s.running s.draining s.closing s.scheduled x s.tasks) e v.shape in
      let w = on_error-Inv s x accepted taken v in
      record {
        shape = broken-Shape items finishes s.tasks x refl shape v.fails;
        wake = broken-Wake items finishes s.tasks x refl shape;
        unflushed = tt;
        admits = w.admits;
        ends = w.ends;
        attached = w.attached;
        capacity = w.capacity;
        room = w.room;
        in_order = w.in_order;
        fails = w.fails;
        reported = w.reported;
        has_error = w.has_error;
      }

  -- What Process leaves behind, once the session is closing.
  abbrev pub closed_down : Session
  closed_down = record s {
    accepting = false;
    packets = close_packets s.attached s.packets;
    closing = true;
    stage = Stage.flushing;
  }

  closing-Shape :
      (ts : List Task)
      → s.tasks ≡ ts
      → ShapeOf s.running s.draining s.closing s.scheduled Stage.ending ts
      → Shape closed_down × (s.running ≡ true)
  closing-Shape [] f h = ground arith
  closing-Shape ts f h = ground arith

  pub closing-Inv :
      (accepted taken : List AvPacket)
      → Inv s accepted taken
      → s.stage ≡ Stage.ending
      → Inv closed_down accepted taken
  unfolding close
  closing-Inv accepted taken v e =
      let (shape, runs) =
        closing-Shape s.tasks refl
          (subst (λ x. ShapeOf s.running s.draining s.closing s.scheduled x s.tasks) e v.shape) in
      let w =
        subst (λ x. WakeOf s.running s.error_reported s.packets.queue s.entering x s.tasks) e
          v.wake in
      record {
        shape = shape;
        wake = ground arith;
        unflushed = tt;
        admits = λ a. cc;
        ends = let a = v.attached runs in ground arith;
        attached = v.attached;
        capacity = let a = v.capacity in ground arith;
        room = let a = v.room in ground arith;
        in_order = let a = v.in_order in ground arith;
        fails = v.fails;
        reported = v.reported;
        has_error = v.has_error;
      }

  -- Finish is posted after the Flush.
  posted-Shape :
      (ts : List Task)
      → s.tasks ≡ ts
      → ShapeOf s.running s.draining s.closing s.scheduled Stage.flushing ts
      → Shape (record s { stage = Stage.idle; tasks = s.tasks ++ Task.finish ∷ [] })
  posted-Shape [] f h = ground arith
  posted-Shape ts f h = ground arith

  posted-Wake :
      (ts : List Task)
      → s.tasks ≡ ts
      → ShapeOf s.running s.draining s.closing s.scheduled Stage.flushing ts
      → WakeOf s.running s.error_reported s.packets.queue s.entering Stage.flushing ts
      → Wake (record s { stage = Stage.idle; tasks = s.tasks ++ Task.finish ∷ [] })
  posted-Wake [] f h w = ground arith
  posted-Wake ts f h w = ground arith

  posted-Unflushed :
      (ts : List Task)
      → s.tasks ≡ ts
      → ShapeOf s.running s.draining s.closing s.scheduled Stage.flushing ts
      → Unflushed (record s { stage = Stage.idle; tasks = s.tasks ++ Task.finish ∷ [] })
  posted-Unflushed [] f h = ground arith
  posted-Unflushed ts f h = ground arith

  pub posted-Inv :
      (accepted taken : List AvPacket)
      → Inv s accepted taken
      → s.stage ≡ Stage.flushing
      → Inv (record s { stage = Stage.idle; tasks = s.tasks ++ Task.finish ∷ [] }) accepted taken
  posted-Inv accepted taken v e =
      let shape =
        subst (λ x. ShapeOf s.running s.draining s.closing s.scheduled x s.tasks) e v.shape in
      record {
        shape = posted-Shape s.tasks refl shape;
        wake = posted-Wake s.tasks refl shape (
            subst (λ x. WakeOf s.running s.error_reported s.packets.queue s.entering x s.tasks) e
              v.wake);
        unflushed = posted-Unflushed s.tasks refl shape;
        admits = v.admits;
        ends = v.ends;
        attached = v.attached;
        capacity = v.capacity;
        room = v.room;
        in_order = v.in_order;
        fails = v.fails;
        reported = v.reported;
        has_error = v.has_error;
      }

pub given_error-Inv :
    (what : Option Thrown) (s : Session) (accepted taken : List AvPacket)
    → Inv s accepted taken
    → Inv (given_error what s) accepted taken
given_error-Inv none s accepted taken v = v
given_error-Inv (some x) s accepted taken v = on_error-Inv s x accepted taken v

-- Errors do not move the poller, and post nothing once the session is closing.
pub given_error-stage :
    (what : Option Thrown) (s : Session)
    → ((given_error what s).stage ≡ s.stage)
      × (s.closing ≡ true → (given_error what s).tasks ≡ s.tasks)
unfolding on_error
given_error-stage none s = (refl, λ c. refl)
given_error-stage (some x) s = ground arith

pub given_error-tasks :
    (what : Option Thrown) (s : Session) (ts : List Task)
    → s.closing ≡ true
    → given_error what (record s { tasks = ts }) ≡ record (given_error what s) { tasks = ts }
unfolding on_error
given_error-tasks none s ts c = refl
given_error-tasks (some x) s ts c = ground arith
