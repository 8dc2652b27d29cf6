-- ===== src/Remuxer/Draining.antt =====
-- The end of a session: what is left of it for the poller once it drains.
use mw_streamer.Base.{
  ◌≡◌, refl, sym, subst, ◌⊎◌, inl, inr, true, false, Bool, not, ◌||◌, Option, none, some, List, [],
  ◌∷◌, ◌++◌, ℕ, ◌<◌, arith, Result, ok, err, if◌then◌else◌,
}
use mathlib.Core.Option.{some-injective}
use mw_streamer.Ffmpeg.{TimeMath, AvPacket}
use mw_streamer.Interleaver.{Interleaver}
use mw_streamer.Remuxer.{
  Session, Task, Stage, Thrown, on_error, given_error, ready, to_deliver, next_packet,
  process_packets, after_packets, close_packets, poll, poll_from,
}
use mw_streamer.Remuxer.Shape.{ShapeOf, Inv}

-- How many sections of the poller may be left. A session that is not scheduled may get one task
-- more.
abbrev pub left_of : Bool → Stage → List Task → ℕ
left_of scheduled Stage.idle [] = 0
left_of scheduled Stage.idle (Task.process ∷ []) = 7
left_of scheduled Stage.idle (Task.process ∷ ts) = 3
left_of scheduled Stage.idle (Task.finish ∷ ts) = 2
left_of scheduled Stage.idle (Task.last ∷ ts) = 1
left_of scheduled (Stage.delivering items true) ts = 6
left_of scheduled (Stage.delivering items false) ts = 8
left_of scheduled Stage.ending [] = if scheduled then 4 else 5
left_of scheduled Stage.ending ts = 5
left_of scheduled Stage.flushing [] = 3
left_of scheduled Stage.flushing ts = 4

abbrev pub left : Session → ℕ
left s = left_of s.scheduled s.stage s.tasks

-- What a section leaves of a session that drains: fewer sections of the poller, or none.
abbrev pub Falls : Session → ℕ → Type 0
Falls t n = (t.running ≡ false) ⊎ ((t.draining ≡ true) × (left t < n))

module _ (m : TimeMath) (s : Session) (dr : s.draining ≡ true) where
  process-Falls :
      (result : Result (List AvPacket × Interleaver))
      → s.stage ≡ Stage.idle
      → s.running ≡ true
      → s.closing ≡ false
      → s.scheduled ≡ true
      → Falls (to_deliver result (record s { tasks = []; packets = (next_packet s).after })) 7
  unfolding on_error
  process-Falls (err x) e r c h = ground arith
  process-Falls (ok (items, interleaver)) e r c h = inr (dr, rw dr (omega arith))

  stale-Falls :
      (rest : List Task)
      → s.stage ≡ Stage.idle
      → s.tasks ≡ Task.process ∷ rest
      → ShapeOf s.running s.draining s.closing s.scheduled Stage.idle (Task.process ∷ rest)
      → Falls
          (process_packets m (record s { tasks = rest }))
          (left_of s.scheduled Stage.idle (Task.process ∷ rest))
  unfolding process_packets
  stale-Falls [] e f ((r, c), h) =
      let over : (not s.running || s.closing) ≡ false = ground arith in
      subst
        (λ b.
          Falls
            (if b
              then record s { tasks = []; scheduled = false }
              else to_deliver (ready m (record s { tasks = [] }) (next_packet s).item)
                  (record s { tasks = []; packets = (next_packet s).after }))
            7)
        (sym over) (process-Falls _ e r c h)
  stale-Falls (Task.finish ∷ []) e f (r, d, c) =
      let over : (not s.running || s.closing) ≡ true = ground arith in
      subst
        (λ b.
          Falls
            (if b
              then record s { tasks = Task.finish ∷ []; scheduled = false }
              else to_deliver (ready m (record s { tasks = Task.finish ∷ [] }) (next_packet s).item)
                  (record s { tasks = Task.finish ∷ []; packets = (next_packet s).after }))
            3)
        (sym over)
        (inr (dr, subst (λ x. left_of false x (Task.finish ∷ []) < 3) (sym e) (omega arith)))
  stale-Falls (Task.finish ∷ x ∷ xs) e f h = absurd h
  stale-Falls (Task.process ∷ rest) e f h = absurd h
  stale-Falls (Task.last ∷ rest) e f h = absurd h

  finish-Falls :
      (what : Option Thrown)
      → s.stage ≡ Stage.idle
      → s.closing ≡ true
      → Falls
          (record (given_error what (record s { tasks = [] })) {
            record_only = false;
            tasks = (given_error what (record s { tasks = [] })).tasks ++ Task.last ∷ [];
          })
          2
  unfolding on_error
  finish-Falls none e c = ground arith
  finish-Falls (some x) e c = ground arith

  after-Falls :
      (items : List AvPacket) (finishes : Bool) (ts : List Task) (what : Option Thrown)
      → s.tasks ≡ ts
      → ShapeOf s.running s.draining s.closing s.scheduled (Stage.delivering items finishes) ts
      → (s.running ≡ true → s.error_reported ≡ true → s.draining ≡ true)
      → Falls
          (after_packets what finishes s)
          (left_of s.scheduled (Stage.delivering items finishes) ts)
  unfolding on_error
  after-Falls items true [] none f h a = ground arith
  after-Falls items false [] none f h a = ground arith
  after-Falls items true [] (some x) f h a = ground arith
  after-Falls items false [] (some x) f h a = ground arith
  after-Falls items true ts none f h a = ground arith
  after-Falls items false ts none f h a = ground arith
  after-Falls items true ts (some x) f h a = ground arith
  after-Falls items false ts (some x) f h a = ground arith

  ending-Falls :
      (ts : List Task)
      → s.tasks ≡ ts
      → ShapeOf s.running s.draining s.closing s.scheduled Stage.ending ts
      → Falls
          (record s {
            accepting = false;
            packets = close_packets s.attached s.packets;
            closing = true;
            stage = Stage.flushing;
          })
          (left_of s.scheduled Stage.ending ts)
  ending-Falls [] f h = ground arith
  ending-Falls ts f h = ground arith

  flushing-Falls :
      (record_only : Bool) (ts : List Task) (what : Option Thrown)
      → s.tasks ≡ ts
      → ShapeOf s.running s.draining s.closing s.scheduled Stage.flushing ts
      → Falls
          (let t = if record_only then s else given_error what s in
            record t { stage = Stage.idle; tasks = t.tasks ++ Task.finish ∷ [] })
          (left_of s.scheduled Stage.flushing ts)
  unfolding on_error
  flushing-Falls true [] what f h = ground arith
  flushing-Falls true ts what f h = ground arith
  flushing-Falls false [] none f h = ground arith
  flushing-Falls false ts none f h = ground arith
  flushing-Falls false [] (some x) f h = ground arith
  flushing-Falls false ts (some x) f h = ground arith

  poll_from-Falls :
      (st : Stage) (ts : List Task) (what : Option Thrown) (t : Session)
      → s.stage ≡ st
      → s.tasks ≡ ts
      → ShapeOf s.running s.draining s.closing s.scheduled st ts
      → (s.running ≡ true → s.error_reported ≡ true → s.draining ≡ true)
      → poll_from m st ts s what ≡ some t
      → Falls t (left_of s.scheduled st ts)
  poll_from-Falls Stage.idle [] what t e f h a k = cc
  poll_from-Falls Stage.idle (Task.process ∷ rest) what t e f h a k =
      subst (λ x. Falls x (left_of s.scheduled Stage.idle (Task.process ∷ rest)))
        (some-injective _ _ k) (stale-Falls rest e f h)
  poll_from-Falls Stage.idle (Task.finish ∷ []) what t e f (r, d, c) a k =
      subst (λ x. Falls x 2) (some-injective _ _ k) (finish-Falls what e c)
  poll_from-Falls Stage.idle (Task.finish ∷ x ∷ xs) what t e f h a k = absurd h
  poll_from-Falls Stage.idle (Task.last ∷ ts) what t e f h a k =
      subst (λ x. Falls x 1) (some-injective _ _ k) (inl refl)
  poll_from-Falls (Stage.delivering items finishes) ts what t e f h a k =
      subst (λ x. Falls x (left_of s.scheduled (Stage.delivering items finishes) ts))
        (some-injective _ _ k) (after-Falls items finishes ts what f h a)
  poll_from-Falls Stage.ending ts what t e f h a k =
      subst (λ x. Falls x (left_of s.scheduled Stage.ending ts)) (some-injective _ _ k)
        (ending-Falls ts f h)
  poll_from-Falls Stage.flushing ts what t e f h a k =
      subst (λ x. Falls x (left_of s.scheduled Stage.flushing ts)) (some-injective _ _ k)
        (flushing-Falls s.record_only ts what f h)

  pub poll-Falls :
      (accepted taken : List AvPacket) (what : Option Thrown) (t : Session)
      → Inv s accepted taken
      → poll m s what ≡ some t
      → Falls t (left s)
  unfolding poll
  poll-Falls accepted taken what t v k =
      poll_from-Falls s.stage s.tasks what t refl refl v.shape v.fails k
