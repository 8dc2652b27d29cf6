-- ===== src/Remuxer/Poller.antt =====
-- The first section of Process: it takes the packet of the handoff.
use mw_streamer.Base.{
  ◌≡◌, refl, sym, ap, ◌∙◌, inl, true, false, Bool, not, ◌||◌, Option, none, some, List, [], ◌∷◌,
  ◌++◌, append_nil, ℕ, ◌≤◌, length, arith, ok, logic_error, if◌then◌else◌, >>=-eq-ok, ok-subst,
  throw_if,
}
use mw_streamer.Ffmpeg.{TimeMath, AvPacket}
use mw_streamer.BlockingQueue.{BlockingQueue, try_pop, close}
use mw_streamer.BlockingQueue.Order.{given}
use mw_streamer.Interleaver.{Interleaver, Track, push, accept, pop_ready}
use mw_streamer.Timestamps
use mw_streamer.Remuxer.{Session, Task, Stage, Thrown, on_error, merged, next_packet}
use mw_streamer.Remuxer.Shape.{WakeOf, UnflushedOf, Inv}

-- What the section takes out of the handoff.
abbrev pub taken_by : Stage → List Task → Session → List AvPacket
taken_by Stage.idle (Task.process ∷ rest) s =
    if not s.running || s.closing then [] else given (next_packet s).item
taken_by _ _ s = []

-- The handoff after a look at it: it holds one packet at most.
pub popped_queue :
    (q : BlockingQueue AvPacket)
    → length q.queue ≤ 1
    → (q.queue ≡ given (try_pop q false).item)
      × ((try_pop q false).after.queue ≡ [])
      × ((try_pop q false).after.closed ≡ q.closed)
      × ((try_pop q false).after.capacity ≡ q.capacity)
unfolding try_pop
popped_queue q few = ground arith

module _ (m : TimeMath) where
  accept-flushed :
      (s : Interleaver) (p : AvPacket) (o : Option Track) (t : Interleaver)
      → accept m s p o ≡ ok t
      → t.flushed ≡ s.flushed
  unfolding accept
  accept-flushed s p none t k = cc
  accept-flushed s p (some track) t k = ground arith

  pub merged-flushed :
      (popped : Option AvPacket) (s t : Interleaver)
      → merged m popped s ≡ ok t
      → t.flushed ≡ s.flushed
  unfolding push
  merged-flushed none s t k = ok-subst (λ x. x.flushed ≡ s.flushed) k refl
  merged-flushed (some p) s t k =
      let (_, _, k) = >>=-eq-ok (throw_if s.flushed logic_error) _ k in
      let (q, _, k) = >>=-eq-ok (Timestamps.validate m s.validation (some p)) _ k in
      accept-flushed s q _ t k

  pub pop_ready-flushed :
      (s : Interleaver) (items : List AvPacket) (t : Interleaver)
      → pop_ready m s false ≡ ok (items, t)
      → t.flushed ≡ s.flushed
  unfolding pop_ready
  pop_ready-flushed s items t k = ground arith

take_order :
    (accepted taken queue popped rest : List AvPacket)
    → accepted ≡ taken ++ queue
    → queue ≡ popped
    → rest ≡ []
    → accepted ≡ (taken ++ popped) ++ rest
take_order accepted taken queue popped rest e f g =
    e
    ∙ ap (λ x. taken ++ x) f
    ∙ sym (append_nil (taken ++ popped))
    ∙ ap (λ x. (taken ++ popped) ++ x) (sym g)

delivered-Wake :
    (d running error_reported : Bool) (queue items : List AvPacket) (entering : ℕ)
    → queue ≡ []
    → WakeOf running error_reported queue entering (Stage.delivering items d) []
delivered-Wake true running error_reported queue items entering e = λ u. e
delivered-Wake false running error_reported queue items entering e = inl e

delivered-Unflushed :
    (d running flushed : Bool) (items : List AvPacket)
    → (d ≡ false → flushed ≡ false)
    → UnflushedOf running flushed (Stage.delivering items d) []
delivered-Unflushed true running flushed items h = tt
delivered-Unflushed false running flushed items h = h refl

on_error-queue : (s : Session) (x : Thrown) → (on_error s x).packets.queue ≡ s.packets.queue
unfolding on_error close
on_error-queue s x = ground arith

module _ (s : Session) where
  -- Process after Finish was posted only clears its mark.
  pub stale-Inv :
      (accepted taken : List AvPacket)
      → Inv s accepted taken
      → s.stage ≡ Stage.idle
      → s.tasks ≡ Task.process ∷ Task.finish ∷ []
      → Inv (record s { tasks = Task.finish ∷ []; scheduled = false }) accepted taken
  stale-Inv accepted taken v e f = record {
    shape = let a = v.shape in ground arith;
    wake = let a = v.wake in ground arith;
    unflushed = let a = v.shape in ground arith;
    admits = v.admits;
    ends = v.ends;
    attached = v.attached;
    capacity = v.capacity;
    room = v.room;
    in_order = v.in_order;
    fails = v.fails;
    reported = v.reported;
    has_error = v.has_error;
  }

  -- Process with no failure: what is ready is in its hands.
  pub delivered-Inv :
      (accepted taken : List AvPacket) (items : List AvPacket) (interleaver : Interleaver)
      → Inv s accepted taken
      → s.stage ≡ Stage.idle
      → s.tasks ≡ Task.process ∷ []
      → (s.draining ≡ false → interleaver.flushed ≡ false)
      → Inv
          (record s {
            tasks = [];
            packets = (next_packet s).after;
            interleaver = interleaver;
            scheduled = false;
            stage = Stage.delivering items s.draining;
          })
          accepted
          (taken ++ given (next_packet s).item)
  delivered-Inv accepted taken items interleaver v e f open_yet =
      let (front, rest, closed, capacity) = popped_queue s.packets v.room in
      record {
        shape = let a = v.shape in ground arith;
        wake = delivered-Wake s.draining s.running s.error_reported _ items s.entering rest;
        unflushed = delivered-Unflushed s.draining s.running interleaver.flushed items open_yet;
        admits = v.admits;
        ends = closed ∙ v.ends;
        attached = v.attached;
        capacity = capacity ∙ v.capacity;
        room = omega (arith, ap length rest);
        in_order = take_order accepted taken _ _ _ v.in_order front rest;
        fails = v.fails;
        reported = v.reported;
        has_error = v.has_error;
      }

  -- Process with a failure.
  pub ending-Inv :
      (accepted taken : List AvPacket) (x : Thrown)
      → Inv s accepted taken
      → s.stage ≡ Stage.idle
      → s.tasks ≡ Task.process ∷ []
      → Inv
          (record (on_error (record s { tasks = []; packets = (next_packet s).after }) x) {
            stage = Stage.ending;
          })
          accepted
          (taken ++ given (next_packet s).item)
  unfolding on_error close
  ending-Inv accepted taken x v e f =
      let (front, rest, closed, capacity) = popped_queue s.packets v.room in
      let h = v.shape in
      record {
        shape = let a = v.fails in ground arith;
        wake = let a = v.fails in ground arith;
        unflushed = let a = v.fails in ground arith;
        admits = let a = v.admits in ground arith;
        ends = let a = v.ends in let b = v.attached in let c = v.admits in ground arith;
        attached = let a = v.attached in ground arith;
        capacity = let a = v.capacity in ground arith;
        room = let a = ap length rest in ground arith;
        in_order =
            take_order accepted taken _ _ _ v.in_order front
              (on_error-queue (record s { tasks = []; packets = (next_packet s).after }) x ∙ rest);
        fails = let a = v.fails in ground arith;
        reported = let a = v.reported in ground arith;
        has_error = let a = v.has_error in ground arith;
      }
