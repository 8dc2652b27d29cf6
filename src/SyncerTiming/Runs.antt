-- ===== src/SyncerTiming/Runs.antt =====
-- Runs of the timing of both tracks.
use mw_streamer.Base.{
  ◌≡◌, refl, sym, subst, ok-subst, inl, inr, true, false, not, Bool, Option, none, some, ℤ,
  ltb_ℤ_cases, ok, >>=-eq-ok, arith,
}
use mw_streamer.Ffmpeg.{TimeMath}
use mw_streamer.Media.{ReadStatus, ReadResult}
use mw_streamer.Media.ReadStatus.{frame_read, eof, null_read}
use mw_streamer.SyncerTiming.{
  SyncerConfig, SyncerStep, ContinuityClock, Track, SyncerTiming, Platform, OnOutput, head_of,
}
use mw_streamer.SyncerTiming.Sentinel.{
  make, step_head, step_input, step_pending, step_fill, step_track, step, first_slot, backup_of,
}
use mw_streamer.SyncerTiming.Batch.{BatchIsValid, Open, fill_lem, Continues-BatchIsValid}
use mw_streamer.SyncerTiming.Steps.{Rebased, StepDone, correct_lem, waits_lem, time_out_lem}

module _ (m : TimeMath) (platform : Platform) (config : SyncerConfig) where
  head_of-some :
      (head : Option ReadResult) (input : ReadResult) → head_of head ≡ ok input → head ≡ some input
  head_of-some head input h = ground arith

  step_head_lem :
      (status : ReadStatus) (t : Track) (c : ContinuityClock) (video : Bool) (input : ReadResult)
      (now : ℤ) (on_output : OnOutput) (out : SyncerStep) (u : Track) (d : ContinuityClock)
      → input.status ≡ status
      → BatchIsValid t
      → t.fill_until ≡ none
      → step_head m platform config t c video input status now on_output ≡ ok (out, u, d)
      → StepDone m platform config (some input) t c out u d
  step_head_lem eof t c video input now on_output out u d e valid shut h =
      let (consumed, nothing, kept, stands) =
        ok-subst (λ x. (x.0.consumed ≡ true) × (x.0.frame ≡ none) × (x.1 ≡ t) × (x.2 ≡ c)) h
          (refl, refl, refl, refl) in
      inl (input, refl, e, consumed, nothing, kept, stands)
  step_head_lem frame_read t c video input now on_output out u d e valid shut h =
      inr (correct_lem m platform config t c video input now on_output out u d shut valid.0 h)
  step_head_lem null_read t c video input now on_output out u d e valid shut h =
      inr (correct_lem m platform config t c video input now on_output out u d shut valid.0 h)

  step_input_lem :
      (head : Option ReadResult) (t : Track) (c : ContinuityClock) (video : Bool) (now : ℤ)
      (on_output : OnOutput) (out : SyncerStep) (u : Track) (d : ContinuityClock)
      → BatchIsValid t
      → t.fill_until ≡ none
      → step_input m platform config t c video head now on_output ≡ ok (out, u, d)
      → StepDone m platform config head t c out u d
  step_input_lem none t c video now on_output out u d valid shut h =
      inr (elim (ltb_ℤ_cases now t.wait_until) [
        | inl (k, _) ↦ (
          t,
          (refl, refl, inl (refl, refl)),
          waits_lem m platform config t c t.wait_until out u d shut valid.0 (simp k at h),
        )
        | inr (k, _) ↦
            time_out_lem m platform config t c video now on_output out u d valid shut (simp k at h)
      ])
  step_input_lem (some input) t c video now on_output out u d valid shut h =
      step_head_lem input.status t c video input now on_output out u d refl valid shut h

  step_pending_lem :
      (pending : Option ℤ) (t : Track) (c : ContinuityClock) (video : Bool)
      (head : Option ReadResult) (now : ℤ) (on_output : OnOutput) (out : SyncerStep) (u : Track)
      (d : ContinuityClock)
      → BatchIsValid t
      → t.fill_until ≡ none
      → step_pending m platform config pending t c video head now on_output ≡ ok (out, u, d)
      → StepDone m platform config head t c out u d
  step_pending_lem none t c video head now on_output out u d valid shut h =
      step_input_lem head t c video now on_output out u d valid shut h
  step_pending_lem (some pending) t c video head now on_output out u d valid shut h =
      inr (elim (ltb_ℤ_cases now t.suspended_until) [
        | inl (k, _) ↦ (
          t,
          (refl, refl, inl (refl, refl)),
          waits_lem m platform config t c t.suspended_until out u d shut valid.0 (simp k at h),
        )
        | inr (k, _) ↦
            let (input, given, h) = >>=-eq-ok (head_of head) _ (simp k at h) in
            let (v, rebased, done) =
              correct_lem m platform config (record t { pending_real_pts = none }) c video input now
                on_output out u d shut valid.0 h in
            (
              v,
              subst (λ x. Rebased m platform config x t v) (sym (head_of-some head input given))
                  rebased,
              done,
            )
      ])

  fill_until-Open : (t : Track) (until : ℤ) → t.fill_until ≡ some until → BatchIsValid t → Open t
  fill_until-Open t until e (few, inl k) = ground (arith, k, e)
  fill_until-Open t until e (few, inr o) = o

  step_fill_lem :
      (until : Option ℤ) (t : Track) (c : ContinuityClock) (video : Bool) (head : Option ReadResult)
      (now : ℤ) (on_output : OnOutput) (out : SyncerStep) (u : Track) (d : ContinuityClock)
      → BatchIsValid t
      → t.fill_until ≡ until
      → step_fill m platform config until t c video head now on_output ≡ ok (out, u, d)
      → StepDone m platform config head t c out u d
  step_fill_lem none t c video head now on_output out u d valid e h =
      step_pending_lem t.pending_real_pts t c video head now on_output out u d valid e h
  step_fill_lem (some until) t c video head now on_output out u d valid e h =
      let o = fill_until-Open t until e valid in
      let (_, l, v, went) = fill_lem m config platform t c video head now on_output out u d o h in
      inr (
        t,
        (refl, refl, inl (refl, refl)),
        (l, v, elim went [ inl a ↦ inl (o.slot, inl o.slot_is, a) | inr r ↦ inr (inl r) ]),
      )

  pub step_track-StepDone :
      (t : Track) (c : ContinuityClock) (video : Bool) (head : Option ReadResult) (now : ℤ)
      (on_output : OnOutput) (out : SyncerStep) (u : Track) (d : ContinuityClock)
      → BatchIsValid t
      → step_track m platform config t c video head now on_output ≡ ok (out, u, d)
      → StepDone m platform config head t c out u d
  unfolding step_track
  step_track-StepDone t c video head now on_output out u d valid h =
      step_fill_lem t.fill_until t c video head now on_output out u d valid refl h

-- The track of a step, and the other one.
abbrev pub own : Bool → SyncerTiming → Track
own true s = s.video
own false s = s.audio

module _ (m : TimeMath) (platform : Platform) where
  -- A run: steps that do not throw, from a state that the constructor made.
  pub data Run (config : SyncerConfig) : SyncerTiming → Type 0 where
    made : {s : SyncerTiming} → make m platform config ≡ ok s → Run config s
    stepped :
        {r s : SyncerTiming} (video : Bool) (head : Option ReadResult) (now : ℤ)
        (on_output : OnOutput) (out : SyncerStep)
        → Run config r
        → step m platform r video head now on_output ≡ ok (out, s)
        → Run config s

  abbrev BothAreValid : SyncerTiming → Type 0
  BothAreValid s = BatchIsValid s.video × BatchIsValid s.audio

  make-BothAreValid :
      (config : SyncerConfig) (s : SyncerTiming) → make m platform config ≡ ok s → BothAreValid s
  unfolding make
  make-BothAreValid config s h =
      let (backup, _, h) =
        >>=-eq-ok
          (backup_of m platform config config.encoder.video_pixel_format config.backup_video) _ h in
      let (video_next, _, h) =
        >>=-eq-ok (first_slot m platform config config.options.forward_start_shift _) _ h in
      let (audio_next, _, h) =
        >>=-eq-ok (first_slot m platform config config.options.forward_start_shift _) _ h in
      ok-subst BothAreValid h ((omega arith, inl refl), (omega arith, inl refl))

  StepDone-BatchIsValid :
      (config : SyncerConfig) (head : Option ReadResult) (t : Track) (c : ContinuityClock)
      (out : SyncerStep) (u : Track) (d : ContinuityClock)
      → BatchIsValid t
      → StepDone m platform config head t c out u d
      → BatchIsValid u
  StepDone-BatchIsValid config head t c out u d valid (inl (_, _, _, _, _, e, _)) =
      subst BatchIsValid (sym e) valid
  StepDone-BatchIsValid config head t c out u d valid (inr (v, _, done)) =
      Continues-BatchIsValid v out u done.1

  -- What a step of either track does: the other track stays as it is.
  abbrev pub Stepped : SyncerTiming → Bool → Option ReadResult → SyncerStep → SyncerTiming → Type 0
  Stepped r video head out s =
      StepDone m platform r.config head (own video r) r.clock out (own video s) s.clock
      × (own (not video) s ≡ own (not video) r)
      × (s.config ≡ r.config)

  pub step-Stepped :
      (r : SyncerTiming) (video : Bool) (head : Option ReadResult) (now : ℤ) (on_output : OnOutput)
      (out : SyncerStep) (s : SyncerTiming)
      → BothAreValid r
      → step m platform r video head now on_output ≡ ok (out, s)
      → Stepped r video head out s
  unfolding step
  step-Stepped r true head now on_output out s valid h =
      let ((o, t, c), k, h) =
        >>=-eq-ok (step_track m platform r.config r.video r.clock true head now on_output) _ h in
      ok-subst (λ x. Stepped r true head x.0 x.1) h
        (
          step_track-StepDone m platform r.config r.video r.clock true head now on_output o t c
              valid.0 k,
          refl,
          refl,
        )
  step-Stepped r false head now on_output out s valid h =
      let ((o, t, c), k, h) =
        >>=-eq-ok (step_track m platform r.config r.audio r.clock false head now on_output) _ h in
      ok-subst (λ x. Stepped r false head x.0 x.1) h
        (
          step_track-StepDone m platform r.config r.audio r.clock false head now on_output o t c
              valid.1 k,
          refl,
          refl,
        )

  Stepped-BothAreValid :
      (r : SyncerTiming) (video : Bool) (head : Option ReadResult) (out : SyncerStep)
      (s : SyncerTiming)
      → BothAreValid r
      → Stepped r video head out s
      → BothAreValid s
  Stepped-BothAreValid r true head out s valid (d, peer, _) = (
    StepDone-BatchIsValid r.config head _ _ out _ _ valid.0 d,
    subst BatchIsValid (sym peer) valid.1,
  )
  Stepped-BothAreValid r false head out s valid (d, peer, _) = (
    subst BatchIsValid (sym peer) valid.0,
    StepDone-BatchIsValid r.config head _ _ out _ _ valid.1 d,
  )

  pub Run-BothAreValid :
      (config : SyncerConfig) {s : SyncerTiming}
      → Run config s
      → BatchIsValid s.video × BatchIsValid s.audio
  Run-BothAreValid config (made {s} h) = make-BothAreValid config s h
  Run-BothAreValid config (stepped {r} {s} video head now on_output out before h) =
      let valid = Run-BothAreValid config before in
      Stepped-BothAreValid r video head out s valid
        (step-Stepped r video head now on_output out s valid h)

  -- A step in a run changes its own track and the clock only. It consumes an EOF and changes
  -- nothing; or it delivers a frame in a slot that the track may take, and the next slot is where
  -- that frame ends; or the frame is refused, no input is consumed and the slot stays; or nothing
  -- goes out and the slot stays. A track may take the slot that is due, one within the tolerance
  -- of it, any slot while it has none, and, where it anchors the shared shift, any slot that is
  -- not before the due one after an output. All this is from the slot at the start of the step, or
  -- from that slot converted to the time base of the input, or, without a slot and without an
  -- input, from the configured start in the track's time base; whether the track has had an output
  -- is as it was at the start of the step. The media clock does not go back.
  pub Run-Stepped :
      (config : SyncerConfig) (r s : SyncerTiming) (video : Bool) (head : Option ReadResult)
      (now : ℤ) (on_output : OnOutput) (out : SyncerStep)
      → Run config r
      → step m platform r video head now on_output ≡ ok (out, s)
      → Stepped r video head out s
  Run-Stepped config r s video head now on_output out before h =
      step-Stepped r video head now on_output out s (Run-BothAreValid config before) h
