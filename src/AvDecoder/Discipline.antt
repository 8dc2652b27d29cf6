-- ===== src/AvDecoder/Discipline.antt =====
-- The order of what a decoder admits: an end is followed by nothing but a reset.
use mw_streamer.Base.{
  Result, ◌≡◌, refl, sym, subst, Bool, true, false, none, some, List, [], ◌∷◌, ◌++◌, ℕ,
  if◌then◌else◌, append_nil, ok, ok-subst, >>=-eq-ok, throw_if, pos, ltb_ℤ, invalid_argument, ℤ,
}
use mathlib.Core.Option.{some-injective}
use mw_streamer.Ffmpeg.{TimeMath, StreamInfo}
use mw_streamer.Media.{ReadResult}
use mw_streamer.BlockingQueue as Queue
use mw_streamer.BlockingQueue.{
  BlockingQueue, Done, Outcome, QueueResult, push, pop, try_pop, pop_from, can_pop,
}
use mw_streamer.AvDecoder.{
  AvDecoder, Phase, make, is_reset, is_eof, stop_packets, stop_frames, finish_stop,
  finish_from_phase, mark_stopping, set_on_error, set_read_signal,
}
use mw_streamer.AvDecoder.Opening.{AvCodec}
use mw_streamer.AvDecoder.Loop.{Codec, Input}
use mw_streamer.AvDecoder.Worker.{work}
use mw_streamer.AvDecoder.Untouched.{
  Same, work-Same, begin_read-Same, pop_frame-Same, end_read-Same,
}
use mw_streamer.AvDecoder.Runs.{
  Run, made, stepped, Step, submits, finishes_push, begins_read, pops_frame, ends_read, works,
  marks, closes_packets, closes_frames, finishes_stop, sets_callback, sets_signal, Moves,
}
use mw_streamer.AvDecoder.Submissions.{
  Disciplined, IsOrdered, Same-Disciplined, finish_push-Disciplined, submit-Disciplined, untouched,
}

module _ {S : Type 0} where
  Same-if_else :
      (s t u : AvDecoder S) (on : Bool)
      → Same s u
      → (if on then some u else none) ≡ some t
      → Same s t
  Same-if_else s t u true h k = subst (Same s) (some-injective _ _ k) h
  Same-if_else s t u false h k = cc

  finish_stop-Same : (s t : AvDecoder S) (ph : Phase) → finish_from_phase ph s ≡ some t → Same s t
  finish_stop-Same s t Phase.exited k =
      Same-if_else s t _ s.stopping
        (record { stop_same = refl; eof_same = refl; offered_same = refl }) k
  finish_stop-Same s t ph k = cc

module _ {S : Type 0} (m : TimeMath) (info : StreamInfo) (c : Codec S) where
  Step-Disciplined :
      (s : AvDecoder S) (ins : List Input) (worked : Bool) (moves : Moves) (t : AvDecoder S)
      → Disciplined s ins
      → Step m info c s worked moves t
      → Disciplined t (ins ++ moves.admitted)
  unfolding set_on_error set_read_signal mark_stopping stop_packets stop_frames finish_stop work
  Step-Disciplined s ins _ _ t d (submits input wait a _ free k) =
      submit-Disciplined s ins d input wait a t free k
  Step-Disciplined s ins _ _ t d (finishes_push b _ k) = finish_push-Disciplined s ins d b t k
  Step-Disciplined s ins _ _ t d (begins_read _ away e) =
      rw (append_nil ins) (Same-Disciplined s t ins (subst (Same s) (sym e) (begin_read-Same s)) d)
  Step-Disciplined s ins _ _ t d (pops_frame wait _ k) =
      rw (append_nil ins) (Same-Disciplined s t ins (pop_frame-Same s t wait k) d)
  Step-Disciplined s ins _ _ t d (ends_read r _ k) =
      rw (append_nil ins) (Same-Disciplined s t ins (end_read-Same info s t r k) d)
  Step-Disciplined s ins _ _ t d (works throws _ k) =
      rw (append_nil ins) (Same-Disciplined s t ins (work-Same m info c s.phase s t throws k) d)
  Step-Disciplined s ins _ _ t d (marks _ e) =
      rw (append_nil ins) (subst (λ x. Disciplined x ins) (sym e) (untouched s ins d))
  Step-Disciplined s ins _ _ t d (closes_packets _ k) = rw (append_nil ins) (
      Same-Disciplined s t ins
        (Same-if_else s t _ s.stopping
          (record { stop_same = refl; eof_same = refl; offered_same = refl }) k)
        d)
  Step-Disciplined s ins _ _ t d (closes_frames _ k) = rw (append_nil ins) (
      Same-Disciplined s t ins
        (Same-if_else s t _ s.stopping
          (record { stop_same = refl; eof_same = refl; offered_same = refl }) k)
        d)
  Step-Disciplined s ins _ _ t d (finishes_stop _ k) =
      rw (append_nil ins) (Same-Disciplined s t ins (finish_stop-Same s t s.phase k) d)
  Step-Disciplined s ins _ _ t d (sets_callback callback _ e) =
      rw (append_nil ins) (subst (λ x. Disciplined x ins) (sym e) (untouched s ins d))
  Step-Disciplined s ins _ _ t d (sets_signal signal _ e) =
      rw (append_nil ins) (subst (λ x. Disciplined x ins) (sym e) (untouched s ins d))

  made-Disciplined :
      (found : Result AvCodec) (pc fc : ℕ) (thread_count : ℤ) (codec : S) (s : AvDecoder S)
      → make found pc fc thread_count (ok codec) ≡ ok s
      → Disciplined s []
  unfolding make
  made-Disciplined found pc fc thread_count codec s k =
      let (_, _, k) = >>=-eq-ok found _ k in
      let (packets, _, k) = >>=-eq-ok (Queue.make pc) _ k in
      let (frames, _, k) = >>=-eq-ok (Queue.make fc) _ k in
      let (_, _, k) = >>=-eq-ok (throw_if (ltb_ℤ thread_count (pos 0)) invalid_argument) _ k in
      ok-subst (λ x. Disciplined x []) k (record { remembers = refl; ordered = tt; offer = tt })

  Run-Disciplined :
      {codec : S} {s : AvDecoder S} {ins : List Input} {outs : List ReadResult}
      → Run m info c codec s ins outs
      → Disciplined s ins
  Run-Disciplined {codec} (made found pc fc thread_count s k) =
      made-Disciplined found pc fc thread_count codec s k
  Run-Disciplined (stepped {s = s} {ins = ins} worked moves t run step ei _) =
      rw ei (Step-Disciplined s ins worked moves t (Run-Disciplined run) step)

  after_end :
      (before after : List Input) (ended : Bool) (input next : Input)
      → IsOrdered ended (before ++ input ∷ next ∷ after)
      → is_eof input.kind ≡ true
      → is_reset next.kind ≡ true
  after_end [] after ended input next h e = h.1.0 e
  after_end (i ∷ before) after ended input next h e =
      after_end before after (is_eof i.kind) input next h.1 e

  -- In every run, under every schedule, the input that is admitted next after an end of stream is a
  -- reset.
  pub Run-resets :
      {codec : S} {s : AvDecoder S} {outs : List ReadResult} (before after : List Input)
      (input next : Input)
      → Run m info c codec s (before ++ input ∷ next ∷ after) outs
      → is_eof input.kind ≡ true
      → is_reset next.kind ≡ true
  Run-resets before after input next run e =
      after_end before after false input next (Run-Disciplined run).ordered e
