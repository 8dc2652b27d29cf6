-- ===== src/AvDecoder/Faults.antt =====
-- The end of a decoder whose codec has failed.
use mw_streamer.Base.{
  ◌≡◌, refl, sym, subst, ◌∙◌, ◌⊎◌, Bool, true, false, inl, inr, none, List, [], ◌∷◌, ◌≤◌,
}
use mw_streamer.Media.{ReadResult}
use mw_streamer.BlockingQueue.{BlockingQueue, try_pop}
use mw_streamer.AvDecoder.{AvDecoder, Phase, has_error, discard}
use mw_streamer.AvDecoder.Loop.{Input}
use mw_streamer.AvDecoder.Sections.{Moved}

pub discard-queue {ℓ} :
    {A : Type ℓ} (xs : List A) (q : BlockingQueue A) → q.queue ≡ xs → (discard xs q).queue ≡ []
unfolding try_pop
discard-queue [] q e = rw e refl
discard-queue (x ∷ xs) q e = rw e (discard-queue xs (record q { queue = xs }) refl)

module _ {S : Type 0} where
  -- Nothing has failed, and no queue has ended but by a stop.
  pub record IsWell (s : AvDecoder S) : Type 0 where
    pub no_error : s.error ≡ none
    pub no_report : s.reports ≡ 0
    pub packets_open : s.packets.closed ≡ true → s.stopping ≡ true
    pub frames_open : s.frames.closed ≡ true → s.stopping ≡ true

  -- The handler has run: the error is kept and was reported once at most, both queues have ended,
  -- and no input waits in its queue.
  pub record HasFailed (s : AvDecoder S) : Type 0 where
    pub error_set : has_error s.error ≡ true
    pub reported : s.reports ≤ 1
    pub packets_end : s.packets.closed ≡ true
    pub frames_end : s.frames.closed ≡ true
    pub discarded : s.packets.queue ≡ []

  -- The handler runs.
  pub record IsFailing (packets_end frames_end discarded : Bool) (s : AvDecoder S) : Type 0 where
    pub error_set : has_error s.error ≡ true
    pub no_report : s.reports ≡ 0
    pub packets_shut : packets_end ≡ true → s.packets.closed ≡ true
    pub frames_shut : frames_end ≡ true → s.frames.closed ≡ true
    pub none_left : discarded ≡ true → s.packets.queue ≡ []

  abbrev pub FaultOf : Phase → AvDecoder S → Type 0
  FaultOf (Phase.closing_packets b) s = IsFailing false false false s
  FaultOf (Phase.closing_frames b) s = IsFailing true false false s
  FaultOf (Phase.discarding b) s = IsFailing true true false s
  FaultOf (Phase.calling b) s = IsFailing true true true s
  FaultOf Phase.exited s = (IsWell s × (s.stopping ≡ true)) ⊎ HasFailed s
  FaultOf _ s = IsWell s

  abbrev pub Fault : AvDecoder S → Type 0
  Fault s = FaultOf s.phase s

  -- What a section that is not the worker's may do.
  pub record Mild (s t : AvDecoder S) : Type 0 where
    pub phase_same : t.phase ≡ s.phase
    pub error_same : t.error ≡ s.error
    pub reports_same : t.reports ≡ s.reports
    pub packets_kept : s.packets.closed ≡ true → t.packets.closed ≡ true
    pub frames_kept : s.frames.closed ≡ true → t.frames.closed ≡ true
    pub stop_kept : s.stopping ≡ true → t.stopping ≡ true
    pub packets_by_stop : t.packets.closed ≡ true → (s.packets.closed ≡ true) ⊎ (t.stopping ≡ true)
    pub frames_by_stop : t.frames.closed ≡ true → (s.frames.closed ≡ true) ⊎ (t.stopping ≡ true)
    pub queue_kept : s.packets.closed ≡ true → s.packets.queue ≡ [] → t.packets.queue ≡ []

  module _ (s t : AvDecoder S) (v : Mild s t) where
    Mild-IsWell : IsWell s → IsWell t
    Mild-IsWell f = record {
      no_error = v.error_same ∙ f.no_error;
      no_report = v.reports_same ∙ f.no_report;
      packets_open =
          λ e. elim (v.packets_by_stop e) [ inl h ↦ v.stop_kept (f.packets_open h) | inr h ↦ h ];
      frames_open =
          λ e. elim (v.frames_by_stop e) [ inl h ↦ v.stop_kept (f.frames_open h) | inr h ↦ h ];
    }

    Mild-HasFailed : HasFailed s → HasFailed t
    Mild-HasFailed f = record {
      error_set = rw v.error_same f.error_set;
      reported = rw v.reports_same f.reported;
      packets_end = v.packets_kept f.packets_end;
      frames_end = v.frames_kept f.frames_end;
      discarded = v.queue_kept f.packets_end f.discarded;
    }

    Mild-IsFailing : (p q r : Bool) → (r ≡ true → p ≡ true) → IsFailing p q r s → IsFailing p q r t
    Mild-IsFailing p q r le f = record {
      error_set = rw v.error_same f.error_set;
      no_report = rw v.reports_same f.no_report;
      packets_shut = λ e. v.packets_kept (f.packets_shut e);
      frames_shut = λ e. v.frames_kept (f.frames_shut e);
      none_left = λ e. v.queue_kept (f.packets_shut (le e)) (f.none_left e);
    }

    mild_Fault : (ph : Phase) → FaultOf ph s → FaultOf ph t
    mild_Fault Phase.looping f = Mild-IsWell f
    mild_Fault Phase.popping f = Mild-IsWell f
    mild_Fault (Phase.holding input) f = Mild-IsWell f
    mild_Fault (Phase.emitting r ends) f = Mild-IsWell f
    mild_Fault (Phase.failing e) f = Mild-IsWell f
    mild_Fault (Phase.closing_packets b) f = Mild-IsFailing false false false (λ e. e) f
    mild_Fault (Phase.closing_frames b) f = Mild-IsFailing true false false (λ e. refl) f
    mild_Fault (Phase.discarding b) f = Mild-IsFailing true true false (λ e. refl) f
    mild_Fault (Phase.calling b) f = Mild-IsFailing true true true (λ e. refl) f
    mild_Fault Phase.exited (inl (f, over)) = inl (Mild-IsWell f, v.stop_kept over)
    mild_Fault Phase.exited (inr f) = inr (Mild-HasFailed f)

    pub Mild-Fault : Fault s → Fault t
    Mild-Fault f = subst (λ ph. FaultOf ph t) (sym v.phase_same) (mild_Fault s.phase f)

  pub Moved-Mild :
      (s t : AvDecoder S) (more : List Input) (outs outs' : List ReadResult)
      → Moved s t more outs outs'
      → Mild s t
  Moved-Mild s t more outs outs' v = record {
    phase_same = v.phase_same;
    error_same = v.error_same;
    reports_same = v.reports_same;
    packets_kept = λ e. v.packets_shut ∙ e;
    frames_kept = λ e. v.frames_shut ∙ e;
    stop_kept = λ e. v.stop_same ∙ e;
    packets_by_stop = λ e. inl (sym v.packets_shut ∙ e);
    frames_by_stop = λ e. inl (sym v.frames_shut ∙ e);
    queue_kept = λ e q. v.queue_more ∙ rw q (v.shut_takes_none e);
  }
