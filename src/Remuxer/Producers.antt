-- ===== src/Remuxer/Producers.antt =====
-- The sections of SubmitPacket and of Stop.
use mw_streamer.Base.{
  ◌≡◌, refl, subst, true, false, Bool, not, ◌&&◌, none, some, List, [], ◌∷◌, ◌++◌, ℕ, zero, suc,
  arith, ok, ok-subst, if◌then◌else◌, >>=-eq-ok, throw_if, logic_error,
}
use mathlib.Core.Option.{some-injective}
use mw_streamer.Ffmpeg.{TimeMath, AvPacket, Packet}
use mw_streamer.Timestamps
use mw_streamer.Remuxer.{
  Session, Task, Stage, schedule, enter, enter_from, release, offer, admitted,
}
use mw_streamer.Remuxer.Shape.{ShapeOf, Shape, WakeOf, Wake, UnflushedOf, Unflushed, Inv}
use mw_streamer.Remuxer.Handing.{offered-Inv}

module _ (s : Session) where
  entered-Shape :
      (n : ℕ) (st : Stage) (ts : List Task)
      → s.stage ≡ st
      → s.tasks ≡ ts
      → ShapeOf s.running s.draining s.closing s.scheduled st ts
      → s.running ≡ true
      → Shape (schedule (record s { entering = n }))
  entered-Shape n Stage.idle [] e f h r = ground arith
  entered-Shape n st ts e f h r = ground arith

  entered-Wake :
      (n : ℕ) (st : Stage) (ts : List Task)
      → s.stage ≡ st
      → s.tasks ≡ ts
      → ShapeOf s.running s.draining s.closing s.scheduled st ts
      → WakeOf s.running s.error_reported s.packets.queue s.entering st ts
      → s.running ≡ true
      → Wake (schedule (record s { entering = n }))
  entered-Wake n Stage.idle [] e f h w r = ground arith
  entered-Wake n st ts e f h w r = ground arith

  entered-Unflushed :
      (n : ℕ) (st : Stage) (ts : List Task)
      → s.stage ≡ st
      → s.tasks ≡ ts
      → ShapeOf s.running s.draining s.closing s.scheduled st ts
      → UnflushedOf s.running s.interleaver.flushed st ts
      → s.running ≡ true
      → Unflushed (schedule (record s { entering = n }))
  entered-Unflushed n Stage.idle [] e f h w r = ground arith
  entered-Unflushed n st ts e f h w r = ground arith

  -- Once the session is over, no producer schedules it.
  late-Wake :
      (n : ℕ) (st : Stage) (ts : List Task)
      → s.stage ≡ st
      → s.tasks ≡ ts
      → ShapeOf s.running s.draining s.closing s.scheduled st ts
      → WakeOf s.running s.error_reported s.packets.queue s.entering st ts
      → s.running ≡ false
      → Wake (record s { entering = n })
  late-Wake n Stage.idle [] e f h w r = ground arith
  late-Wake n st ts e f h w r = ground arith

  pub enter-Inv :
      (t : Session) (accepted taken : List AvPacket)
      → Inv s accepted taken
      → enter s ≡ some t
      → Inv t accepted taken
  unfolding enter
  enter-Inv t accepted taken v k = by_count s.entering k
    where
      runs_on :
          (n : ℕ) → s.running ≡ true → Inv (schedule (record s { entering = n })) accepted taken
      runs_on n r = record {
        shape = entered-Shape n s.stage s.tasks refl refl v.shape r;
        wake = entered-Wake n s.stage s.tasks refl refl v.shape v.wake r;
        unflushed = entered-Unflushed n s.stage s.tasks refl refl v.shape v.unflushed r;
        admits = let a = v.admits in ground arith;
        ends = let a = v.ends in ground arith;
        attached = let a = v.attached in ground arith;
        capacity = let a = v.capacity in ground arith;
        room = let a = v.room in ground arith;
        in_order = let a = v.in_order in ground arith;
        fails = let a = v.fails in ground arith;
        reported = let a = v.reported in ground arith;
        has_error = let a = v.has_error in ground arith;
      }

      is_over : (n : ℕ) → s.running ≡ false → Inv (record s { entering = n }) accepted taken
      is_over n r = record {
        shape = v.shape;
        wake = late-Wake n s.stage s.tasks refl refl v.shape v.wake r;
        unflushed = v.unflushed;
        admits = v.admits;
        ends = v.ends;
        attached = v.attached;
        capacity = v.capacity;
        room = v.room;
        in_order = v.in_order;
        fails = v.fails;
        reported = v.reported;
        has_error = v.has_error;
      }

      by_run :
          (n : ℕ) (on : Bool)
          → (s.attached && s.running) ≡ on
          → Inv
              (if on then schedule (record s { entering = n }) else record s { entering = n })
              accepted
              taken
      by_run n true e = runs_on n (ground arith)
      by_run n false e = is_over n (let a = v.attached in ground arith)

      by_count : (n : ℕ) → enter_from n s ≡ some t → Inv t accepted taken
      by_count zero k = cc
      by_count (suc n) k =
          subst (λ x. Inv x accepted taken) (some-injective _ _ k)
            (by_run n (s.attached && s.running) refl)

  pub release-Inv :
      (t : Session) (accepted taken : List AvPacket)
      → Inv s accepted taken
      → release s ≡ some t
      → Inv t accepted taken
  unfolding release
  release-Inv t accepted taken v k = by_run s.running refl k
    where
      released-Shape :
          (st : Stage) (ts : List Task)
          → s.stage ≡ st
          → s.tasks ≡ ts
          → ShapeOf s.running s.draining s.closing s.scheduled st ts
          → s.running ≡ false
          → Shape (record s { draining = false; closing = false })
      released-Shape Stage.idle [] e f h r = ground arith
      released-Shape st ts e f h r = ground arith

      by_run :
          (on : Bool)
          → s.running ≡ on
          → (if on then none else some (record s { draining = false; closing = false })) ≡ some t
          → Inv t accepted taken
      by_run true r k = cc
      by_run false r k =
          subst (λ x. Inv x accepted taken) (some-injective _ _ k)
            (record {
              shape = released-Shape s.stage s.tasks refl refl v.shape r;
              wake = v.wake;
              unflushed = v.unflushed;
              admits = λ a. let (runs, _, _) = v.admits a in (runs, refl, refl);
              ends = v.ends;
              attached = v.attached;
              capacity = v.capacity;
              room = v.room;
              in_order = v.in_order;
              fails = λ a b. cc;
              reported = v.reported;
              has_error = v.has_error;
            })

pub offer-Inv :
    (m : TimeMath) (s : Session) (packet : Packet) (on_poller b : Bool) (t : Session)
    (accepted taken : List AvPacket)
    → Inv s accepted taken
    → offer m s packet on_poller ≡ ok (b, t)
    → Inv t accepted taken
unfolding offer
offer-Inv m s packet on_poller b t accepted taken v k =
    let (_, _, k) = >>=-eq-ok (throw_if on_poller logic_error) _ k in by_admission s.accepting k
  where
    by_admission :
        (admits : Bool)
        → (if not admits then ok (false, s) else admitted m s packet) ≡ ok (b, t)
        → Inv t accepted taken
    by_admission false k = ok-subst (λ x. Inv x.1 accepted taken) k v
    by_admission true k =
        let (p, _, k) = >>=-eq-ok (Timestamps.validate m s.interleaver.validation packet) _ k in
        ok-subst (λ x. Inv x.1 accepted taken) k
          (offered-Inv s (s.pushing ++ p ∷ []) accepted taken v)
