-- ===== src/AvDecoder/Moves.antt =====
-- What the sections of the producer and the reader move.
use mw_streamer.Base.{
  ◌≡◌, refl, sym, subst, Bool, true, false, not, ◌&&◌, ◌||◌, Option, none, some, List, [],
  append_nil, if◌then◌else◌, leb, length, ok, ok-subst, >>=-eq-ok, throw_if, logic_error, ◌>>◌,
}
use mathlib.Core.Option.{some-injective}
use mw_streamer.Media.{ReadResult}
use mw_streamer.BlockingQueue.{Done, push}
use mw_streamer.BlockingQueue.Outcomes.{
  PushEnd, push-PushEnd, waits, fits, is_shut, expires, breaks,
}
use mw_streamer.AvDecoder.{
  AvDecoder, Admission, submit, enqueue, tried, push_done, finish_push, finish_from, is_reset,
  has_error,
}
use mw_streamer.AvDecoder.Loop.{Input}
use mw_streamer.AvDecoder.Runs.{admits, admits_if}
use mw_streamer.AvDecoder.Sections.{Moved}

module _ {S : Type 0} (s : AvDecoder S) (outs : List ReadResult) where
  -- A section that changes neither queue, nor what the reader holds.
  pub still :
      (offered : Option Input) (eof callback : Bool)
      → Moved s
          (record s { offered = offered; submitted_eof = eof; on_error = callback })
          []
          outs
          outs
  still offered eof callback = record {
    stop_same = refl;
    phase_same = refl;
    core_same = refl;
    packets_shut = refl;
    frames_shut = refl;
    shut_takes_none = λ h. refl;
    error_same = refl;
    reports_same = refl;
    queue_more = sym (append_nil s.packets.queue);
    results_same = λ live tail. refl;
    reads_none = λ over. refl;
  }

  push_done-Moved :
      {expired : Bool} (input : Input) (offered : Option Input) (d : Option (Done Input)) (b : Bool)
      (t : AvDecoder S)
      → PushEnd s.packets input expired d
      → push_done input d (record s { offered = offered }) ≡ some (b, t)
      → Moved s t (admits_if b (some input)) outs outs
  push_done-Moved input offered none b t waits k = cc
  push_done-Moved input offered (some done) b t (fits _ open_yet o q) k =
      subst (λ x. Moved s x.1 (admits_if x.0 (some input)) outs outs) (some-injective _ _ k)
        (rw o (
          rw q (record {
            stop_same = refl;
            phase_same = refl;
            core_same = refl;
            packets_shut = refl;
            frames_shut = refl;
            shut_takes_none = λ h. cc;
            error_same = refl;
            reports_same = refl;
            queue_more = refl;
            results_same = λ live tail. refl;
            reads_none = λ over. refl;
          })))
  push_done-Moved input offered (some done) b t (is_shut _ shut o q) k =
      subst (λ x. Moved s x.1 (admits_if x.0 (some input)) outs outs) (some-injective _ _ k)
        (rw o (rw q (still offered s.submitted_eof s.on_error)))
  push_done-Moved input offered (some done) b t (expires _ late o q) k =
      subst (λ x. Moved s x.1 (admits_if x.0 (some input)) outs outs) (some-injective _ _ k)
        (rw o (rw q (still offered s.submitted_eof s.on_error)))
  push_done-Moved input offered (some done) b t (breaks _ open_yet o q) k =
      subst (λ x. Moved s x.1 (admits_if x.0 (some input)) outs outs) (some-injective _ _ k)
        (rw o (rw q (still offered s.submitted_eof s.on_error)))

  pub finish_push-Moved :
      (b : Bool) (t : AvDecoder S)
      → finish_push s ≡ some (b, t)
      → Moved s t (admits_if b s.offered) outs outs
  unfolding finish_push
  finish_push-Moved b t k = by_offered s.offered k
    where
      by_offered :
          (offered : Option Input)
          → finish_from offered s ≡ some (b, t)
          → Moved s t (admits_if b offered) outs outs
      by_offered none k = cc
      by_offered (some input) k =
          push_done-Moved input none _ b t (push-PushEnd s.packets input false false) k

  tried-Moved :
      (input : Input) (d : Option (Bool × AvDecoder S))
      → ((b : Bool) (t : AvDecoder S)
          → d ≡ some (b, t)
          → Moved s t (admits_if b (some input)) outs outs)
      → Moved s (tried d s).1 (admits (tried d s).0 input) outs outs
  tried-Moved input none f = still s.offered s.submitted_eof s.on_error
  tried-Moved input (some (true, t)) f = f true t refl
  tried-Moved input (some (false, t)) f = f false t refl

  pub submit-Moved :
      (input : Input) (wait : Bool) (a : Admission) (t : AvDecoder S)
      → submit s input wait ≡ ok (a, t)
      → Moved s t (admits a input) outs outs
  unfolding submit
  submit-Moved input wait a t k = by_stop (s.stopping || has_error s.error) k
    where
      by_wait :
          (wait : Bool)
          → Moved s
              (if wait
                then (Admission.waiting, record s { offered = some input })
                else tried (push_done input (push s.packets input false true) s) s).1
              (admits
                (if wait
                  then (Admission.waiting, record s { offered = some input })
                  else tried (push_done input (push s.packets input false true) s) s).0
                input)
              outs
              outs
      by_wait true = still (some input) s.submitted_eof s.on_error
      by_wait false =
          tried-Moved input _
            (λ b t. push_done-Moved input s.offered _ b t (push-PushEnd s.packets input false true))

      by_full :
          (full : Bool)
          → Moved s
              (if full
                then (Admission.refused, s)
                else if wait
                then (Admission.waiting, record s { offered = some input })
                else tried (push_done input (push s.packets input false true) s) s).1
              (admits
                (if full
                  then (Admission.refused, s)
                  else if wait
                  then (Admission.waiting, record s { offered = some input })
                  else tried (push_done input (push s.packets input false true) s) s).0
                input)
              outs
              outs
      by_full true = still s.offered s.submitted_eof s.on_error
      by_full false = by_wait wait

      by_stop :
          (stop : Bool)
          → (if stop
              then ok (Admission.refused, s)
              else (throw_if (s.submitted_eof && not (is_reset input.kind)) logic_error
                  >> ok (enqueue s input wait)))
            ≡ ok (a, t)
          → Moved s t (admits a input) outs outs
      by_stop true k =
          ok-subst (λ x. Moved s x.1 (admits x.0 input) outs outs) k
            (still s.offered s.submitted_eof s.on_error)
      by_stop false k =
          let (_, _, k) =
            >>=-eq-ok (throw_if (s.submitted_eof && not (is_reset input.kind)) logic_error) _ k in
          ok-subst (λ x. Moved s x.1 (admits x.0 input) outs outs) k
            (by_full (not wait && leb s.packets.capacity (length s.packets.queue)))
