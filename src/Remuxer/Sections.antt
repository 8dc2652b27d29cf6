-- ===== src/Remuxer/Sections.antt =====
-- Process, Finish and its last task, as one step of the poller.
use mw_streamer.Base.{
  ◌≡◌, refl, sym, subst, ◌∙◌, true, false, Bool, not, ◌||◌, Option, none, some, List, [], ◌∷◌, ◌++◌,
  arith, Result, ok, err, if◌then◌else◌, >>=-eq-ok, append_nil,
}
use mathlib.Core.Option.{some-injective}
use mw_streamer.Ffmpeg.{TimeMath, AvPacket}
use mw_streamer.BlockingQueue.Order.{given}
use mw_streamer.Interleaver.{Interleaver, pop_ready}
use mw_streamer.Remuxer.{
  Session, Task, Stage, Thrown, given_error, ready, merged, to_deliver, next_packet,
  process_packets, after_packets, poll, poll_from,
}
use mw_streamer.Remuxer.Shape.{ShapeOf, UnflushedOf, Inv}
use mw_streamer.Remuxer.Poller.{
  taken_by, merged-flushed, pop_ready-flushed, stale-Inv, delivered-Inv, ending-Inv,
}
use mw_streamer.Remuxer.Closing.{
  broken-Inv, closing-Inv, posted-Inv, given_error-Inv, given_error-stage, given_error-tasks,
}
use mw_streamer.Remuxer.Finishing.{finish-Inv, last-Inv, moved-Inv}

module _ (m : TimeMath) (s : Session) (accepted taken : List AvPacket)
    (v : Inv s accepted taken) where
  ready-flushed :
      (d : Bool) (items : List AvPacket) (interleaver : Interleaver)
      → s.draining ≡ d
      → s.interleaver.flushed ≡ false
      → ready m s (next_packet s).item ≡ ok (items, interleaver)
      → d ≡ false
      → interleaver.flushed ≡ false
  unfolding ready
  ready-flushed true items interleaver e f k d = cc
  ready-flushed false items interleaver e f k d =
      let (merge, a, k) = >>=-eq-ok (merged m (next_packet s).item s.interleaver) _ k in
      pop_ready-flushed m merge items interleaver
        (subst (λ x. pop_ready m merge x ≡ ok (items, interleaver)) e k)
      ∙ merged-flushed m _ _ merge a
      ∙ f

  to_deliver-Inv :
      (result : Result (List AvPacket × Interleaver))
      → ready m s (next_packet s).item ≡ result
      → s.stage ≡ Stage.idle
      → s.tasks ≡ Task.process ∷ []
      → s.interleaver.flushed ≡ false
      → Inv
          (to_deliver result (record s { tasks = []; packets = (next_packet s).after }))
          accepted
          (taken ++ given (next_packet s).item)
  to_deliver-Inv (err x) k e f g = ending-Inv s accepted taken (Thrown.raised x) v e f
  to_deliver-Inv (ok (items, interleaver)) k e f g =
      delivered-Inv s accepted taken items interleaver v e f
        (ready-flushed s.draining items interleaver refl g k)

  unmoved : (t u : Session) → some t ≡ some u → Inv t accepted taken → Inv u accepted (taken ++ [])
  unmoved t u k w =
      subst (λ x. Inv x accepted (taken ++ [])) (some-injective _ _ k)
        (subst (λ x. Inv t accepted x) (sym (append_nil taken)) w)

  process-Inv :
      (rest : List Task)
      → s.stage ≡ Stage.idle
      → s.tasks ≡ Task.process ∷ rest
      → ShapeOf s.running s.draining s.closing s.scheduled Stage.idle (Task.process ∷ rest)
      → Inv
          (process_packets m (record s { tasks = rest }))
          accepted
          (taken ++ taken_by Stage.idle (Task.process ∷ rest) s)
  unfolding process_packets ready
  process-Inv [] e f ((r, c), h) =
      let over : (not s.running || s.closing) ≡ false = ground arith in
      subst
        (λ b.
          Inv
            (if b
              then record s { tasks = []; scheduled = false }
              else to_deliver (ready m (record s { tasks = [] }) (next_packet s).item)
                  (record s { tasks = []; packets = (next_packet s).after }))
            accepted (taken ++ (if b then [] else given (next_packet s).item)))
        (sym over)
        (to_deliver-Inv (ready m s (next_packet s).item) refl e f (
          subst (λ x. UnflushedOf s.running s.interleaver.flushed x (Task.process ∷ [])) e
            (subst (λ x. UnflushedOf s.running s.interleaver.flushed s.stage x) f v.unflushed)))
  process-Inv (Task.finish ∷ []) e f (r, d, c) =
      let over : (not s.running || s.closing) ≡ true = ground arith in
      subst
        (λ b.
          Inv
            (if b
              then record s { tasks = Task.finish ∷ []; scheduled = false }
              else to_deliver (ready m (record s { tasks = Task.finish ∷ [] }) (next_packet s).item)
                  (record s { tasks = Task.finish ∷ []; packets = (next_packet s).after }))
            accepted (taken ++ (if b then [] else given (next_packet s).item)))
        (sym over)
        (subst (λ x. Inv (record s { tasks = Task.finish ∷ []; scheduled = false }) accepted x)
          (sym (append_nil taken)) (stale-Inv s accepted taken v e f))
  process-Inv (Task.finish ∷ x ∷ xs) e f h = absurd h
  process-Inv (Task.process ∷ rest) e f h = absurd h
  process-Inv (Task.last ∷ rest) e f h = absurd h

  finished-Inv :
      (what : Option Thrown)
      → s.stage ≡ Stage.idle
      → s.tasks ≡ Task.finish ∷ []
      → s.closing ≡ true
      → Inv
          (record (given_error what (record s { tasks = [] })) {
            record_only = false;
            tasks = (given_error what (record s { tasks = [] })).tasks ++ Task.last ∷ [];
          })
          accepted
          taken
  finished-Inv what e f c =
      let (same, kept) = given_error-stage what s in
      subst
        (λ (x : Session).
          Inv (record x { record_only = false; tasks = x.tasks ++ Task.last ∷ [] }) accepted taken)
        (sym (given_error-tasks what s [] c))
        (finish-Inv (given_error what s) accepted taken (given_error-Inv what s accepted taken v)
          (same ∙ e) (kept c ∙ f))

  after-Inv :
      (what : Option Thrown) (items : List AvPacket) (finishes : Bool)
      → s.stage ≡ Stage.delivering items finishes
      → Inv (after_packets what finishes s) accepted taken
  after-Inv none items finishes e = moved-Inv s accepted taken items finishes v e
  after-Inv (some x) items finishes e = broken-Inv s accepted taken items finishes x v e

  flushed-Inv :
      (record_only : Bool) (what : Option Thrown)
      → s.stage ≡ Stage.flushing
      → Inv
          (let t = if record_only then s else given_error what s in
            record t { stage = Stage.idle; tasks = t.tasks ++ Task.finish ∷ [] })
          accepted
          taken
  flushed-Inv true what e = posted-Inv s accepted taken v e
  flushed-Inv false what e =
      posted-Inv (given_error what s) accepted taken (given_error-Inv what s accepted taken v)
        ((given_error-stage what s).0 ∙ e)

  -- A section on the poller keeps the invariant.
  poll_from-Inv :
      (st : Stage) (ts : List Task) (what : Option Thrown) (t : Session)
      → s.stage ≡ st
      → s.tasks ≡ ts
      → ShapeOf s.running s.draining s.closing s.scheduled st ts
      → poll_from m st ts s what ≡ some t
      → Inv t accepted (taken ++ taken_by st ts s)
  poll_from-Inv Stage.idle [] what t e f h k = cc
  poll_from-Inv Stage.idle (Task.process ∷ rest) what t e f h k =
      subst (λ x. Inv x accepted (taken ++ taken_by Stage.idle (Task.process ∷ rest) s))
        (some-injective _ _ k) (process-Inv rest e f h)
  poll_from-Inv Stage.idle (Task.finish ∷ []) what t e f (r, d, c) k =
      unmoved _ t k (finished-Inv what e f c)
  poll_from-Inv Stage.idle (Task.finish ∷ x ∷ xs) what t e f h k = absurd h
  poll_from-Inv Stage.idle (Task.last ∷ []) what t e f h k =
      unmoved _ t k (last-Inv s accepted taken v e f)
  poll_from-Inv Stage.idle (Task.last ∷ x ∷ xs) what t e f h k = absurd h
  poll_from-Inv (Stage.delivering items finishes) ts what t e f h k =
      unmoved _ t k (after-Inv what items finishes e)
  poll_from-Inv Stage.ending ts what t e f h k = unmoved _ t k (closing-Inv s accepted taken v e)
  poll_from-Inv Stage.flushing ts what t e f h k = unmoved _ t k (flushed-Inv s.record_only what e)

  pub poll-Inv :
      (what : Option Thrown) (t : Session)
      → poll m s what ≡ some t
      → Inv t accepted (taken ++ taken_by s.stage s.tasks s)
  unfolding poll
  poll-Inv what t k = poll_from-Inv s.stage s.tasks what t refl refl v.shape k
