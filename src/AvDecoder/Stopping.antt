-- ===== src/AvDecoder/Stopping.antt =====
-- The worker of a decoder that is asked to stop comes to its end.
use mw_streamer.Base.{
  ◌≡◌, refl, sym, subst, ◌∙◌, ◌⊎◌, Bool, true, false, inl, inr, some, [], ℕ, ◌+◌, ◌≤◌, ◌<◌, arith,
  if◌then◌else◌,
}
use mw_streamer.Ffmpeg.{TimeMath, StreamInfo}
use mw_streamer.BlockingQueue.{close}
use mw_streamer.AvDecoder.{
  AvDecoder, Phase, stop_packets, stop_frames, finish_stop, finish_from_phase, mark_stopping,
  set_on_error,
}
use mw_streamer.AvDecoder.Loop.{Codec}
use mw_streamer.AvDecoder.Worker.{work}
use mw_streamer.AvDecoder.Runs.{
  Step, submits, finishes_push, begins_read, pops_frame, ends_read, works, marks, closes_packets,
  closes_frames, finishes_stop, sets_callback, sets_signal, Moves,
}
use mw_streamer.AvDecoder.Moves.{still, submit-Moved, finish_push-Moved}
use mw_streamer.AvDecoder.Reads.{
  begin_read-Moved, set_read_signal-Moved, pop_frame-Moved, end_read-Moved,
}
use mw_streamer.AvDecoder.Nearing.{
  IsShut, Moved-Stays, Stays, closed_by, discard-closed, sections_left, sections_left-le, some_work,
  work-Nears,
}

module _ {S : Type 0} (m : TimeMath) (info : StreamInfo) (c : Codec S) where
  module _ (s : AvDecoder S) (h : IsShut s) where
    stood :
        (t : AvDecoder S)
        → Stays s t
        → IsShut t × ((if false then 1 else 0) + sections_left t.phase ≤ sections_left s.phase)
    stood t v = (
      v.shut,
      subst (λ x. 0 + sections_left x ≤ sections_left s.phase) (sym v.phase_same) (omega arith),
    )

    closes-Stays :
        (t : AvDecoder S)
        → t.phase ≡ s.phase
        → t.stopping ≡ s.stopping
        → t.packets.closed ≡ s.packets.closed ⊎ (t.packets.closed ≡ true)
        → t.frames.closed ≡ s.frames.closed ⊎ (t.frames.closed ≡ true)
        → Stays s t
    closes-Stays t ep es pc fc = record {
      shut = record {
        stops = es ∙ h.stops;
        packets_end = elim pc [ inl e ↦ e ∙ h.packets_end | inr e ↦ e ];
        frames_end = elim fc [ inl e ↦ e ∙ h.frames_end | inr e ↦ e ];
      };
      phase_same = ep;
    }

    finish_stop-Stays : (t : AvDecoder S) (ph : Phase) → finish_from_phase ph s ≡ some t → Stays s t
    finish_stop-Stays t Phase.exited k =
        closed_by s t _ s.stopping
          (closes-Stays _ refl refl (inl (discard-closed s.packets.queue s.packets refl))
            (inl (discard-closed s.frames.queue s.frames refl)))
          k
    finish_stop-Stays t ph k = cc

    -- Where the worker stands after a step.
    Step-Nears :
        (worked : Bool) (moves : Moves) (t : AvDecoder S)
        → Step m info c s worked moves t
        → IsShut t × ((if worked then 1 else 0) + sections_left t.phase ≤ sections_left s.phase)
    unfolding stop_packets stop_frames finish_stop set_on_error mark_stopping work close
    Step-Nears _ _ t (works throws _ k) =
        let n = work-Nears m info c s h s.phase throws t k in
        let l = n.nearer in (n.shut, omega (arith, l))
    Step-Nears _ _ t (submits input wait a _ free k) =
        stood t (Moved-Stays s t _ [] [] h (submit-Moved s [] input wait a t k))
    Step-Nears _ _ t (finishes_push b _ k) =
        stood t (Moved-Stays s t _ [] [] h (finish_push-Moved s [] b t k))
    Step-Nears _ _ t (begins_read _ away e) =
        stood t (subst (Stays s) (sym e) (Moved-Stays s _ _ [] [] h (begin_read-Moved s [] away)))
    Step-Nears _ _ t (pops_frame wait _ k) =
        stood t (Moved-Stays s t _ [] [] h (pop_frame-Moved s [] wait t k))
    Step-Nears _ _ t (ends_read r _ k) =
        stood t (Moved-Stays s t _ [] _ h (end_read-Moved s [] info r t k))
    Step-Nears _ _ t (marks _ e) =
        stood t (subst (Stays s) (sym e) (closes-Stays _ refl (sym h.stops) (inl refl) (inl refl)))
    Step-Nears _ _ t (closes_packets _ k) =
        stood t (closed_by s t _ s.stopping (closes-Stays _ refl refl (inr refl) (inl refl)) k)
    Step-Nears _ _ t (closes_frames _ k) =
        stood t (closed_by s t _ s.stopping (closes-Stays _ refl refl (inl refl) (inr refl)) k)
    Step-Nears _ _ t (finishes_stop _ k) = stood t (finish_stop-Stays t s.phase k)
    Step-Nears _ _ t (sets_callback callback _ e) = stood t (
        subst (Stays s) (sym e)
          (Moved-Stays s _ _ [] [] h (still s [] s.offered s.submitted_eof callback)))
    Step-Nears _ _ t (sets_signal signal _ e) =
        stood t
          (subst (Stays s) (sym e) (Moved-Stays s _ _ [] [] h (set_read_signal-Moved s [] signal)))

  -- A chain of steps, with the number of sections of the worker in it.
  pub data Chain (s : AvDecoder S) : ℕ → AvDecoder S → Type 0 where
    here : Chain s 0 s
    next :
        {t : AvDecoder S} {n : ℕ} (worked : Bool) (moves : Moves) (u : AvDecoder S) (count : ℕ)
        → Chain s n t
        → Step m info c t worked moves u
        → count ≡ n + (if worked then 1 else 0)
        → Chain s count u

  Chain-Nears :
      (s : AvDecoder S) (n : ℕ) (t : AvDecoder S)
      → IsShut s
      → Chain s n t
      → IsShut t × (n + sections_left t.phase ≤ sections_left s.phase)
  Chain-Nears s _ _ h here = (h, omega arith)
  Chain-Nears s _ u h (next {t} {n} worked moves _ count chain step e) =
      let (shut, l) = Chain-Nears s n t h chain in
      let (shut', l') = Step-Nears t shut worked moves u step in (shut', omega (arith, e, l, l'))

  -- Once RequestStop is over, the worker comes to its end whatever the codec does and whatever the
  -- other threads do in between: after any steps it is there, or it has run fewer than five of its
  -- sections and can run another.
  pub stop_ends :
      (s : AvDecoder S) (n : ℕ) (t : AvDecoder S)
      → IsShut s
      → Chain s n t
      → (t.phase ≡ Phase.exited)
        ⊎ ((n < 5) × ((throws : Bool) → (u : AvDecoder S) × (work m info c t throws ≡ some u)))
  unfolding work
  stop_ends s n t h chain =
      let (shut, l) = Chain-Nears s n t h chain in
      let bound = sections_left-le s.phase in
      elim (some_work m info c t shut t.phase) [
        | inl e ↦ inl e
        | inr (some_left, w) ↦ inr (omega (arith, l, bound, some_left), w)
      ]
