-- ===== src/AvDecoder/Delivery.antt =====
-- A decoder delivers what the loop by itself does, under every schedule of its threads.
use mw_streamer.Base.{
  ◌≡◌, refl, sym, subst, ◌∙◌, Bool, true, false, if◌then◌else◌, none, some, List, [], ◌++◌, ℕ, ℤ,
  ◌==◌, append_nil, Result, ok, ok-subst, >>=-eq-ok, throw_if, ltb_ℤ, pos, invalid_argument,
}
use mathlib.Core.Option.{some-injective}
use mw_streamer.Ffmpeg.{TimeMath, StreamInfo}
use mw_streamer.Media.{ReadResult}
use mw_streamer.BlockingQueue as Queue
use mw_streamer.BlockingQueue.{BlockingQueue}
use mw_streamer.AvDecoder.{
  AvDecoder, Phase, make, stop_packets, stop_frames, finish_stop, finish_from_phase, mark_stopping,
  set_on_error,
}
use mw_streamer.AvDecoder.Opening.{AvCodec}
use mw_streamer.AvDecoder.Loop.{Codec, Input}
use mw_streamer.AvDecoder.Reference.{alone}
use mw_streamer.AvDecoder.Runs.{
  Run, made, stepped, Step, submits, finishes_push, begins_read, pops_frame, ends_read, works,
  marks, closes_packets, closes_frames, finishes_stop, sets_callback, sets_signal, Moves, in_hand,
}
use mw_streamer.AvDecoder.Standing.{Follows, FollowsOf, Comes, Begins, Begins-FollowsOf}
use mw_streamer.AvDecoder.Returned.{end_read-media_of, in_hand-AllAreMedia, holds, Begins-holds}
use mw_streamer.AvDecoder.Sections.{Moved-Follows, stops-Follows, work-Follows}
use mw_streamer.AvDecoder.Moves.{still, submit-Moved, finish_push-Moved}
use mw_streamer.AvDecoder.Reads.{
  begin_read-Moved, set_read_signal-Moved, pop_frame-Moved, end_read-Moved,
}

new_queue {ℓ} :
    {A : Type ℓ} (capacity : ℕ) (q : BlockingQueue A) → Queue.make capacity ≡ ok q → q.queue ≡ []
unfolding Queue.make
new_queue capacity q k =
    let (_, _, k) = >>=-eq-ok (throw_if (capacity == 0) invalid_argument) _ k in
    ok-subst (λ (x : BlockingQueue _). x.queue ≡ []) k refl

module _ {S : Type 0} (m : TimeMath) (info : StreamInfo) (c : Codec S) (codec : S) where
  made-Follows :
      (found : Result AvCodec) (packet_capacity frame_capacity : ℕ) (thread_count : ℤ)
      (s : AvDecoder S)
      → make found packet_capacity frame_capacity thread_count (ok codec) ≡ ok s
      → Follows m info c codec s [] []
  unfolding make alone
  made-Follows found pc fc thread_count s k =
      let (_, _, k) = >>=-eq-ok found _ k in
      let (packets, kp, k) = >>=-eq-ok (Queue.make pc) _ k in
      let (frames, kf, k) = >>=-eq-ok (Queue.make fc) _ k in
      let (_, _, k) = >>=-eq-ok (throw_if (ltb_ℤ thread_count (pos 0)) invalid_argument) _ k in
      ok-subst (λ x. Follows m info c codec x [] []) k
        (record {
          count = 0;
          reached = rw (new_queue pc packets kp) (rw (new_queue fc frames kf) refl);
        })

  module _ (s : AvDecoder S) (ins : List Input) (outs : List ReadResult)
      (f : Follows m info c codec s ins outs) where
    begun : Begins m info c codec ins outs
    begun = Begins-FollowsOf m info c codec s.stopping s.phase s ins outs f

    closing :
        (t u : AvDecoder S) (on : Bool)
        → u.stopping ≡ on
        → (if on then some u else none) ≡ some t
        → Follows m info c codec t ins outs
    closing t u true e k =
        subst (λ x. Follows m info c codec x ins outs) (some-injective _ _ k)
          (stops-Follows m info c codec u ins outs e begun)
    closing t u false e k = cc

    stop_packets-Follows :
        (t : AvDecoder S) → stop_packets s ≡ some t → Follows m info c codec t ins outs
    unfolding stop_packets
    stop_packets-Follows t k = closing t _ s.stopping refl k

    stop_frames-Follows :
        (t : AvDecoder S) → stop_frames s ≡ some t → Follows m info c codec t ins outs
    unfolding stop_frames
    stop_frames-Follows t k = closing t _ s.stopping refl k

    finish_stop-Follows :
        (t : AvDecoder S) → finish_stop s ≡ some t → Follows m info c codec t ins outs
    unfolding finish_stop
    finish_stop-Follows t k = by_phase s.phase k
      where
        by_phase :
            (ph : Phase) → finish_from_phase ph s ≡ some t → Follows m info c codec t ins outs
        by_phase Phase.exited k = closing t _ s.stopping refl k
        by_phase ph k = cc

    mark_stopping-Follows : Follows m info c codec (mark_stopping s) ins outs
    unfolding mark_stopping
    mark_stopping-Follows = begun

  unmoved :
      (s : AvDecoder S) (ins : List Input) (outs : List ReadResult) (t : AvDecoder S)
      (more : List Input) (new : List ReadResult)
      → Follows m info c codec t ins outs
      → more ≡ []
      → new ≡ []
      → Follows m info c codec t (ins ++ more) (outs ++ new)
  unmoved s ins outs t more new f em en =
      rw em (rw en (rw (append_nil ins) (rw (append_nil outs) f)))

  Step-Follows :
      (s : AvDecoder S) (ins : List Input) (outs : List ReadResult) (worked : Bool) (moves : Moves)
      (t : AvDecoder S)
      → Follows m info c codec s ins outs
      → Step m info c s worked moves t
      → Follows m info c codec t (ins ++ moves.admitted) (outs ++ moves.delivered)
  unfolding set_on_error
  Step-Follows s ins outs _ _ t f (submits input wait a _ free k) =
      rw (append_nil outs)
        (Moved-Follows m info c codec s t _ outs outs (submit-Moved s outs input wait a t k) ins f)
  Step-Follows s ins outs _ _ t f (finishes_push b _ k) =
      rw (append_nil outs)
        (Moved-Follows m info c codec s t _ outs outs (finish_push-Moved s outs b t k) ins f)
  Step-Follows s ins outs _ _ t f (begins_read _ away e) = rw (append_nil outs) (
      subst (λ x. Follows m info c codec x (ins ++ []) outs) (sym e)
        (Moved-Follows m info c codec s _ [] outs outs (begin_read-Moved s outs away) ins f))
  Step-Follows s ins outs _ _ t f (pops_frame wait _ k) =
      rw (append_nil outs)
        (Moved-Follows m info c codec s t [] outs outs (pop_frame-Moved s outs wait t k) ins f)
  Step-Follows s ins outs _ _ t f (ends_read r _ k) =
      subst (λ x. Follows m info c codec t (ins ++ []) (outs ++ x))
        (end_read-media_of info s t r k
          (λ live. in_hand-AllAreMedia m info c codec s.stopping s.phase s ins outs live f))
        (Moved-Follows m info c codec s t [] outs _ (end_read-Moved s outs info r t k) ins f)
  Step-Follows s ins outs _ _ t f (works throws _ k) =
      unmoved s ins outs t _ _ (work-Follows m info c codec s t throws ins outs k f) refl refl
  Step-Follows s ins outs _ _ t f (marks _ e) =
      unmoved s ins outs t _ _
        (subst (λ x. Follows m info c codec x ins outs) (sym e)
          (mark_stopping-Follows s ins outs f))
        refl refl
  Step-Follows s ins outs _ _ t f (closes_packets _ k) =
      unmoved s ins outs t _ _ (stop_packets-Follows s ins outs f t k) refl refl
  Step-Follows s ins outs _ _ t f (closes_frames _ k) =
      unmoved s ins outs t _ _ (stop_frames-Follows s ins outs f t k) refl refl
  Step-Follows s ins outs _ _ t f (finishes_stop _ k) =
      unmoved s ins outs t _ _ (finish_stop-Follows s ins outs f t k) refl refl
  Step-Follows s ins outs _ _ t f (sets_callback callback _ e) = rw (append_nil outs) (
      subst (λ x. Follows m info c codec x (ins ++ []) outs) (sym e)
        (Moved-Follows m info c codec s _ [] outs outs
          (still s outs s.offered s.submitted_eof callback) ins f))
  Step-Follows s ins outs _ _ t f (sets_signal signal _ e) = rw (append_nil outs) (
      subst (λ x. Follows m info c codec x (ins ++ []) outs) (sym e)
        (Moved-Follows m info c codec s _ [] outs outs (set_read_signal-Moved s outs signal) ins f))

  Run-Follows :
      {s : AvDecoder S} {ins : List Input} {outs : List ReadResult}
      → Run m info c codec s ins outs
      → Follows m info c codec s ins outs
  Run-Follows (made found pc fc thread_count s k) = made-Follows found pc fc thread_count s k
  Run-Follows (stepped {s = s} {ins = ins} {outs = outs} worked moves t run step ei eo) =
      rw ei (rw eo (Step-Follows s ins outs worked moves t (Run-Follows run) step))

  -- Under every schedule, the frames and ends that ReadFrame has returned, then the one that a
  -- reader has taken and those in the queue, are the first results of the loop run by itself on the
  -- inputs that were admitted, for some number of its steps: none is lost, doubled or out of order.
  -- Where the decoder was asked to stop, this is stated of those that were returned.
  pub Run-Begins :
      {s : AvDecoder S} {ins : List Input} {outs : List ReadResult}
      → Run m info c codec s ins outs
      → Begins m info c codec ins (holds s.stopping s outs)
  Run-Begins {s} {ins} {outs} run =
      Begins-holds m info c codec s.stopping s.phase s ins outs (Run-Follows run)

  -- And so are the returned ones alone.
  pub Run-BeginsReturned :
      {s : AvDecoder S} {ins : List Input} {outs : List ReadResult}
      → Run m info c codec s ins outs
      → Begins m info c codec ins outs
  Run-BeginsReturned {s} {ins} {outs} run =
      Begins-FollowsOf m info c codec s.stopping s.phase s ins outs (Run-Follows run)

  -- Where the worker waits for an input, both queues are empty and no reader has a result in hand,
  -- while nobody stops the decoder, the frames and ends that ReadFrame has returned are all the
  -- results of the loop by itself, which needs another input there, and has none left.
  pub Run-DeliversAll :
      {s : AvDecoder S} {ins : List Input} {outs : List ReadResult}
      → Run m info c codec s ins outs
      → s.stopping ≡ false
      → s.phase ≡ Phase.popping
      → s.packets.queue ≡ []
      → s.frames.queue ≡ []
      → in_hand s.reader ≡ []
      → Comes m info c codec ins
          (record { core = s.core; wants = true; pending = []; outputs = outs })
  Run-DeliversAll {s} {ins} {outs} run on e p q h =
      let f =
        subst (λ x. FollowsOf m info c codec false x s ins outs) e
          (subst (λ x. FollowsOf m info c codec x s.phase s ins outs) on (Run-Follows run)) in
      record { count = f.count; reached = f.reached ∙ simp (p, q, h, append_nil outs) refl }
