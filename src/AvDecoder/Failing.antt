-- ===== src/AvDecoder/Failing.antt =====
-- Runs of a decoder whose codec may fail.
use mw_streamer.Base.{
  Result, ◌≡◌, refl, ◌==◌, sym, subst, ◌∙◌, ◌⊎◌, Bool, true, false, inl, inr, ◌||◌, none, some,
  List, [], ℕ, if◌then◌else◌, ok, ok-subst, >>=-eq-ok, throw_if, pos, ltb_ℤ, invalid_argument, ℤ,
}
use mathlib.Core.Option.{some-injective}
use mw_streamer.Ffmpeg.{TimeMath, StreamInfo}
use mw_streamer.Media.{ReadResult}
use mw_streamer.BlockingQueue as Queue
use mw_streamer.BlockingQueue.{
  BlockingQueue, Done, Outcome, QueueResult, push, pop, try_pop, pop_from, can_pop, close,
}
use mw_streamer.AvDecoder.{
  AvDecoder, Phase, Admission, make, submit, has_error, stop_packets, stop_frames, finish_stop,
  finish_from_phase, mark_stopping, set_on_error,
}
use mw_streamer.AvDecoder.Opening.{AvCodec}
use mw_streamer.AvDecoder.Loop.{Codec, Input}
use mw_streamer.AvDecoder.Worker.{work}
use mw_streamer.AvDecoder.Runs.{
  Run, made, stepped, Step, submits, finishes_push, begins_read, pops_frame, ends_read, works,
  marks, closes_packets, closes_frames, finishes_stop, sets_callback, sets_signal, Moves,
}
use mw_streamer.AvDecoder.Moves.{still, submit-Moved, finish_push-Moved}
use mw_streamer.AvDecoder.Reads.{
  begin_read-Moved, set_read_signal-Moved, pop_frame-Moved, end_read-Moved,
}
use mw_streamer.AvDecoder.Nearing.{discard-closed}
use mw_streamer.AvDecoder.Faults.{
  IsWell, HasFailed, FaultOf, Fault, Mild, Mild-Fault, Moved-Mild, discard-queue,
}
use mw_streamer.AvDecoder.Handling.{work-Fault}

module _ {S : Type 0} (m : TimeMath) (info : StreamInfo) (c : Codec S) where
  module _ (s : AvDecoder S) where
    -- The calls that only end queues and discard what is in them.
    closes-Mild :
        (t : AvDecoder S)
        → t.phase ≡ s.phase
        → t.error ≡ s.error
        → t.reports ≡ s.reports
        → t.stopping ≡ true
        → ((t.packets.closed ≡ s.packets.closed) ⊎ (t.packets.closed ≡ true))
        → ((t.frames.closed ≡ s.frames.closed) ⊎ (t.frames.closed ≡ true))
        → ((t.packets.queue ≡ s.packets.queue) ⊎ (t.packets.queue ≡ []))
        → Mild s t
    closes-Mild t ep ee er stops pc fc pq = record {
      phase_same = ep;
      error_same = ee;
      reports_same = er;
      packets_kept = λ h. elim pc [ inl e ↦ e ∙ h | inr e ↦ e ];
      frames_kept = λ h. elim fc [ inl e ↦ e ∙ h | inr e ↦ e ];
      stop_kept = λ h. stops;
      packets_by_stop = λ h. inr stops;
      frames_by_stop = λ h. inr stops;
      queue_kept = λ h q. elim pq [ inl e ↦ e ∙ q | inr e ↦ e ];
    }

    Mild-if_else :
        (t u : AvDecoder S) (on : Bool)
        → (on ≡ true → Mild s u)
        → (if on then some u else none) ≡ some t
        → Mild s t
    Mild-if_else t u true h k = subst (Mild s) (some-injective _ _ k) (h refl)
    Mild-if_else t u false h k = cc

    finish_stop-Mild : (t : AvDecoder S) (ph : Phase) → finish_from_phase ph s ≡ some t → Mild s t
    finish_stop-Mild t Phase.exited k =
        Mild-if_else t _ s.stopping
          (λ stops.
            closes-Mild _ refl refl refl stops (inl (discard-closed s.packets.queue s.packets refl))
              (inl (discard-closed s.frames.queue s.frames refl))
              (inr (discard-queue s.packets.queue s.packets refl)))
          k
    finish_stop-Mild t ph k = cc

    Step-Fault :
        (worked : Bool) (moves : Moves) (t : AvDecoder S)
        → Step m info c s worked moves t
        → Fault s
        → Fault t
    unfolding stop_packets stop_frames finish_stop set_on_error mark_stopping work close
    Step-Fault _ _ t (works throws _ k) f = work-Fault m info c s s.phase throws t k f
    Step-Fault _ _ t (submits input wait a _ free k) f =
        Mild-Fault s t (Moved-Mild s t _ [] [] (submit-Moved s [] input wait a t k)) f
    Step-Fault _ _ t (finishes_push b _ k) f =
        Mild-Fault s t (Moved-Mild s t _ [] [] (finish_push-Moved s [] b t k)) f
    Step-Fault _ _ t (begins_read _ away e) f =
        Mild-Fault s t
          (subst (Mild s) (sym e) (Moved-Mild s _ _ [] [] (begin_read-Moved s [] away))) f
    Step-Fault _ _ t (pops_frame wait _ k) f =
        Mild-Fault s t (Moved-Mild s t _ [] [] (pop_frame-Moved s [] wait t k)) f
    Step-Fault _ _ t (ends_read r _ k) f =
        Mild-Fault s t (Moved-Mild s t _ [] _ (end_read-Moved s [] info r t k)) f
    Step-Fault _ _ t (marks _ e) f =
        Mild-Fault s t
          (subst (Mild s) (sym e)
            (closes-Mild _ refl refl refl refl (inl refl) (inl refl) (inl refl)))
          f
    Step-Fault _ _ t (closes_packets _ k) f =
        Mild-Fault s t
          (Mild-if_else t _ s.stopping
            (λ stops. closes-Mild _ refl refl refl stops (inr refl) (inl refl) (inl refl)) k)
          f
    Step-Fault _ _ t (closes_frames _ k) f =
        Mild-Fault s t
          (Mild-if_else t _ s.stopping
            (λ stops. closes-Mild _ refl refl refl stops (inl refl) (inr refl) (inl refl)) k)
          f
    Step-Fault _ _ t (finishes_stop _ k) f = Mild-Fault s t (finish_stop-Mild t s.phase k) f
    Step-Fault _ _ t (sets_callback callback _ e) f =
        Mild-Fault s t
          (subst (Mild s) (sym e)
            (Moved-Mild s _ _ [] [] (still s [] s.offered s.submitted_eof callback)))
          f
    Step-Fault _ _ t (sets_signal signal _ e) f =
        Mild-Fault s t
          (subst (Mild s) (sym e) (Moved-Mild s _ _ [] [] (set_read_signal-Moved s [] signal))) f

  made_open :
      {A : Type 0} (capacity : ℕ) (q : BlockingQueue A)
      → Queue.make capacity ≡ ok q
      → ¬ (q.closed ≡ true)
  unfolding Queue.make
  made_open capacity q k h =
      let (_, _, k) = >>=-eq-ok (throw_if (capacity == 0) invalid_argument) _ k in
      let never = ok-subst (λ (x : BlockingQueue _). x.closed ≡ false) k refl in cc

  made-Fault :
      (found : Result AvCodec) (packet_capacity frame_capacity : ℕ) (thread_count : ℤ) (codec : S)
      (s : AvDecoder S)
      → make found packet_capacity frame_capacity thread_count (ok codec) ≡ ok s
      → Fault s
  unfolding make
  made-Fault found pc fc thread_count codec s k =
      let (_, _, k) = >>=-eq-ok found _ k in
      let (packets, p, k) = >>=-eq-ok (Queue.make pc) _ k in
      let (frames, f, k) = >>=-eq-ok (Queue.make fc) _ k in
      let (_, _, k) = >>=-eq-ok (throw_if (ltb_ℤ thread_count (pos 0)) invalid_argument) _ k in
      ok-subst Fault k (record {
        no_error = refl;
        no_report = refl;
        packets_open = λ e. absurd (made_open pc packets p e);
        frames_open = λ e. absurd (made_open fc frames f e);
      })

  Run-Fault :
      {codec : S} {s : AvDecoder S} {ins : List Input} {outs : List ReadResult}
      → Run m info c codec s ins outs
      → Fault s
  Run-Fault {codec} (made found pc fc thread_count s k) =
      made-Fault found pc fc thread_count codec s k
  Run-Fault (stepped {s = s} worked moves t run step _ _) =
      Step-Fault s worked moves t step (Run-Fault run)

  -- When the worker of a decoder has ended, either the decoder was asked to stop, no error is kept
  -- and nothing was reported, or
  -- the error is kept and was reported once at most, both queues have ended, no input is left, and
  -- every later submission is refused without an exception.
  pub exited_outcome :
      {codec : S} {s : AvDecoder S} {ins : List Input} {outs : List ReadResult}
      → Run m info c codec s ins outs
      → s.phase ≡ Phase.exited
      → (IsWell s × (s.stopping ≡ true))
        ⊎ (HasFailed s
            × ((input : Input) (wait : Bool) → submit s input wait ≡ ok (Admission.refused, s)))
  unfolding submit
  exited_outcome {s = s} run e = elim (subst (λ ph. FaultOf ph s) e (Run-Fault run)) [
    | inl f ↦ inl f
    | inr f ↦ inr (f, λ input wait. refuses _ s.stopping (has_error s.error) f.error_set)
  ]
    where
      refuses : {V : Type 0} {x : V} (y : V) (a b : Bool) → b ≡ true → (if a || b then x else y) ≡ x
      refuses y true b h = refl
      refuses y false true h = refl
      refuses y false false h = cc
