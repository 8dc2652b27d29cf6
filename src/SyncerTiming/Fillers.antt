-- ===== src/SyncerTiming/Fillers.antt =====
-- The fillers of a batch, counted as the steps give them out.
use mw_streamer.Base.{
  ◌≡◌, refl, sym, subst, ◌⊎◌, inl, inr, true, false, Bool, Option, none, some, ◌≤◌, ◌+◌, ℕ, ℤ, ok,
  ok-subst, >>=-eq-ok, arith, if◌then◌else◌,
}
use mw_streamer.Ffmpeg.{TimeMath}
use mw_streamer.Media.{AvFrame, ReadResult}
use mw_streamer.SyncerTiming.{
  SyncerConfig, SyncerStep, ContinuityClock, Track, SyncerTiming, Platform, OnOutput,
}
use mw_streamer.SyncerTiming.Sentinel.{make, step, backup_of, first_slot}
use mw_streamer.SyncerTiming.Batch.{Open, Continues, begun, since, fillers, fillers_of}
use mw_streamer.SyncerTiming.Steps.{StepDone}
use mw_streamer.SyncerTiming.Runs
use mw_streamer.SyncerTiming.Runs.{own, Run-BothAreValid, step-Stepped}

-- The fillers that have gone out since the batch of the track was opened, after a step: those
-- before it count where a batch was open.
abbrev pub counted : Track → ℕ → SyncerStep → ℕ
counted t count out = since t.fill_until count + fillers out

module _ (m : TimeMath) (platform : Platform) (config : SyncerConfig) where
  -- A run, with the fillers that the steps of each track have given out in its last batch.
  pub data Filling : SyncerTiming → ℕ → ℕ → Type 0 where
    made : {s : SyncerTiming} → make m platform config ≡ ok s → Filling s 0 0
    stepped :
        {r s : SyncerTiming} {video_count audio_count video_next audio_next : ℕ} (video : Bool)
        (head : Option ReadResult) (now : ℤ) (on_output : OnOutput) (out : SyncerStep)
        → Filling r video_count audio_count
        → step m platform r video head now on_output ≡ ok (out, s)
        → video_next ≡ (if video then counted r.video video_count out else video_count)
        → audio_next ≡ (if video then audio_count else counted r.audio audio_count out)
        → Filling s video_next audio_next

  -- No more than five have gone out; while the batch is open, they are as many as the track counts.
  abbrev pub Short : Track → ℕ → Type 0
  Short t count = (count ≤ 5) × ((t.fill_until ≡ none) ⊎ (Open t × (t.filled ≡ count)))

  Filling-Run : {s : SyncerTiming} {v a : ℕ} → Filling s v a → Runs.Run m platform config s
  Filling-Run (made h) = Runs.Run.made h
  Filling-Run (stepped video head now on_output out before h _ _) =
      Runs.Run.stepped video head now on_output out (Filling-Run before) h

  one_filler : (frame : Option AvFrame) (consumed : Bool) → fillers_of frame consumed ≤ 1
  one_filler none consumed = omega arith
  one_filler (some f) true = omega arith
  one_filler (some f) false = omega arith

  Short-begun :
      (o : Option ℤ) (t : Track) (n : ℕ) → t.fill_until ≡ o → Short t n → begun t ≡ since o n
  Short-begun none t n e s = rw e refl
  Short-begun (some until) t n e (few, inl shut) = cc
  Short-begun (some until) t n e (few, inr (_, same)) = rw e same

  Short-room : (o : Option ℤ) (t : Track) (n : ℕ) → t.fill_until ≡ o → Short t n → since o n ≤ 4
  Short-room none t n e s = omega arith
  Short-room (some until) t n e (few, inl shut) = cc
  Short-room (some until) t n e (few, inr (o, same)) = let k = o.few in omega arith

  Continues-Short :
      (t : Track) (n : ℕ) (out : SyncerStep) (u : Track)
      → Short t n
      → Continues t out u
      → Short u (counted t n out)
  Continues-Short t n out u s (few, went) =
      let room = Short-room t.fill_until t n refl s in
      let one = one_filler out.frame out.consumed in
      let from = Short-begun t.fill_until t n refl s in
      (
        omega arith,
        elim went [
          | inl e ↦ inl e
          | inr (o, k) ↦ inr (o, subst (λ x. u.filled ≡ x + fillers out) from k)
        ],
      )

  still_Short :
      (o : Option ℤ) (t : Track) (n given : ℕ)
      → t.fill_until ≡ o
      → given ≡ 0
      → Short t n
      → Short t (since o n + given)
  still_Short none t n given e z s = (omega arith, inl e)
  still_Short (some until) t n given e z (few, inl shut) = cc
  still_Short (some until) t n given e z (few, inr (b, same)) = (omega arith, inr (b, omega arith))

  StepDone-Short :
      (config' : SyncerConfig) (head : Option ReadResult) (t : Track) (c : ContinuityClock) (n : ℕ)
      (out : SyncerStep) (u : Track) (d : ContinuityClock)
      → Short t n
      → StepDone m platform config' head t c out u d
      → Short u (counted t n out)
  StepDone-Short config' head t c n out u d s (inl (_, _, _, eaten, nothing, same, _)) =
      subst (λ x. Short x (counted t n out)) (sym same)
        (still_Short t.fill_until t n (fillers out) refl (rw nothing refl) s)
  StepDone-Short config' head t c n out u d s (inr (v, rebased, done)) =
      Continues-Short t n out u s (
        done.1.0,
        elim done.1.1 [
          | inl e ↦ inl e
          | inr (o, k) ↦ inr (o, subst (λ x. u.filled ≡ x + fillers out) rebased.1 k)
        ],
      )

  make_shut :
      (s : SyncerTiming)
      → make m platform config ≡ ok s
      → (s.video.fill_until ≡ none) × (s.audio.fill_until ≡ none)
  unfolding make
  make_shut s h =
      let (backup, _, h) =
        >>=-eq-ok
          (backup_of m platform config config.encoder.video_pixel_format config.backup_video) _ h in
      let (video_next, _, h) =
        >>=-eq-ok (first_slot m platform config config.options.forward_start_shift _) _ h in
      let (audio_next, _, h) =
        >>=-eq-ok (first_slot m platform config config.options.forward_start_shift _) _ h in
      ok-subst (λ (x : SyncerTiming). (x.video.fill_until ≡ none) × (x.audio.fill_until ≡ none)) h
        (refl, refl)

  -- In every run, the fillers that the steps of a track give out between the opening of a batch and
  -- its end are five at most; and while a batch is open they are as many as the track counts, which
  -- is fewer than five, and its target is after the slot that is due.
  pub Filling-Short :
      {s : SyncerTiming} {video_count audio_count : ℕ}
      → Filling s video_count audio_count
      → Short s.video video_count × Short s.audio audio_count
  Filling-Short (made {s} h) =
      let (v, a) = make_shut s h in ((omega arith, inl v), (omega arith, inl a))
  Filling-Short
        (stepped {r} {s} {video_count = v} {audio_count = a} {video_next = x} {audio_next = y} true
          head now on_output out before h e f) =
      let (sv, sa) = Filling-Short before in
      let (done, other, _) =
        step-Stepped m platform r true head now on_output out s
          (Run-BothAreValid m platform config (Filling-Run before)) h in
      (
        subst (Short s.video) (sym e)
            (StepDone-Short r.config head r.video r.clock v out s.video s.clock sv done),
        subst (λ t. Short t y) (sym other) (subst (Short r.audio) (sym f) sa),
      )
  Filling-Short
        (stepped {r} {s} {video_count = v} {audio_count = a} {video_next = x} {audio_next = y} false
          head now on_output out before h e f) =
      let (sv, sa) = Filling-Short before in
      let (done, other, _) =
        step-Stepped m platform r false head now on_output out s
          (Run-BothAreValid m platform config (Filling-Run before)) h in
      (
        subst (λ t. Short t x) (sym other) (subst (Short r.video) (sym e) sv),
        subst (Short s.audio) (sym f)
            (StepDone-Short r.config head r.audio r.clock a out s.audio s.clock sa done),
      )
