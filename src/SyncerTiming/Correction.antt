-- ===== src/SyncerTiming/Correction.antt =====
-- Correct after the shared shift is anchored: a discontinuity is adjusted, filled or tried
-- again, and the slots that result.
use mw_streamer.Base.{
  ◌≡◌, refl, sym, subst, ◌∙◌, ok-subst, inl, inr, true, false, Bool, none, some, ◌≤◌, ℤ, pos, ◌<ℤ◌,
  ok, >>=-eq-ok, ltb_ℤ_cases,
}
use mw_streamer.Ffmpeg.{TimeMath}
use mw_streamer.Media.{ReadResult}
use mw_streamer.SyncerTiming.{
  SyncerConfig, SyncerStep, ContinuityClock, Track, Platform, OnOutput, add, the,
}
use mw_streamer.SyncerTiming.Output.{adjust, to_us}
use mw_streamer.SyncerTiming.Sentinel.{
  correct_shared, correct_jump, jumped, desynced, adopted, republish, retry, jump_forward, settle,
}
use mw_streamer.SyncerTiming.Delivery.{
  Accepted, Refused, Later, Later-refl, Later-trans, real_lem, RealDone,
}
use mw_streamer.SyncerTiming.Batch.{Adjusted, adjust-Adjusted}
use mw_streamer.SyncerTiming.Timeline.{Delivers, the-ok, jumped_lem, real-Delivers, fill-Delivers}

module _ (m : TimeMath) (platform : Platform) (config : SyncerConfig) where
  -- After Adjust, the input takes the slot that is due.
  Adjusted-Delivers :
      (t : Track) (c : ContinuityClock) (v : Track) (c' : ContinuityClock) (next : ℤ)
      (out : SyncerStep) (u : Track) (d : ContinuityClock)
      → t.fill_until ≡ none
      → t.filled ≤ 5
      → t.next ≡ some next
      → Adjusted m t c v c'
      → RealDone v c' next out u d
      → Delivers m config t c out u d
  Adjusted-Delivers t c v c' next out u d shut few e a (l, until, count, went) = (
    Later-trans c c' d a.clock_kept l,
    (subst (λ n. n ≤ 5) (sym (count ∙ a.count_kept)) few, inl (until ∙ a.until_kept ∙ shut)),
    elim went [
      | inl (x, _) ↦ inl (next, inl e, subst (λ b. Accepted b next out u) a.base_kept x)
      | inr x ↦ inr (
          inl (
            subst (λ b. Refused b t.next out u) a.base_kept
              (subst (λ n. Refused v.time_base n out u) a.slot_kept x)))
    ],
  )

  retry_lem :
      (t : Track) (c : ContinuityClock) (original now : ℤ) (out : SyncerStep) (u : Track)
      (d : ContinuityClock)
      → t.fill_until ≡ none
      → t.filled ≤ 5
      → retry m platform config t c original now ≡ ok (out, u, d)
      → Delivers m config t c out u d
  retry_lem t c original now out u d shut few h =
      let ((v, c'), a, h) =
        >>=-eq-ok (adjust m (record t { try_without_filling = false }) c original) _ h in
      let (resume, _, h) = >>=-eq-ok (add now (pos 1000)) _ h in
      let a = adjust-Adjusted m _ c original v c' a in
      ok-subst (λ x. Delivers m config t c x.0 x.1 x.2) h
        (
          a.clock_kept,
          (subst (λ n. n ≤ 5) (sym a.count_kept) few, inl (a.until_kept ∙ shut)),
          inr (
              inr (record {
                nothing = refl;
                head_kept = refl;
                flows = refl;
                slot_kept = a.slot_kept;
                base_kept = a.base_kept;
              })),
        )

  forward_lem :
      (tries : Bool) (t : Track) (c : ContinuityClock) (video : Bool) (input : ReadResult)
      (original pts next now : ℤ) (on_output : OnOutput) (out : SyncerStep) (u : Track)
      (d : ContinuityClock)
      → t.fill_until ≡ none
      → t.filled ≤ 5
      → t.next ≡ some next
      → next <ℤ pts
      → jump_forward m platform config tries t c video input original pts now on_output
        ≡ ok (out, u, d)
      → Delivers m config t c out u d
  forward_lem true t c video input original pts next now on_output out u d shut few e ahead h =
      retry_lem t c original now out u d shut few h
  forward_lem false t c video input original pts next now on_output out u d shut few e ahead h =
      fill-Delivers m platform config t c next pts true video (some input) now on_output out u d
        shut e ahead h

  correct_jump_lem :
      (t : Track) (c : ContinuityClock) (video : Bool) (input : ReadResult)
      (original pts next now : ℤ) (on_output : OnOutput) (out : SyncerStep) (u : Track)
      (d : ContinuityClock)
      → t.fill_until ≡ none
      → t.filled ≤ 5
      → t.next ≡ some next
      → correct_jump m platform config t c video input original pts next now on_output
        ≡ ok (out, u, d)
      → Delivers m config t c out u d
  unfolding correct_jump
  correct_jump_lem t c video input original pts next now on_output out u d shut few e h =
      elim (ltb_ℤ_cases next pts) [
        | inl (k, ahead) ↦
            forward_lem t.try_without_filling t c video input original pts next now on_output out u
              d shut few e ahead (simp k at h)
        | inr (k, _) ↦
            let ((v, c'), a, h) = >>=-eq-ok (adjust m t c original) _ (simp k at h) in
            Adjusted-Delivers t c v c' next out u d shut few e
              (adjust-Adjusted m t c original v c' a)
              (real_lem m config v c' video input next now on_output out u d h)
      ]

  republish-Later :
      (desync : Bool) (t : Track) (c : ContinuityClock) (shift : ℤ) (d : ContinuityClock)
      → republish m platform config desync t c shift ≡ ok d
      → Later c d
  republish-Later false t c shift d h = ok-subst (Later c) h (Later-refl c)
  republish-Later true t c shift d h =
      let (shared, _, h) = >>=-eq-ok (to_us m shift t) _ h in ok-subst (Later c) h (Later-refl c)

  -- The rest of Correct, once it is known whether the PTS is a discontinuity.
  settle_lem :
      (jump desync : Bool) (t : Track) (c : ContinuityClock) (shift pts : ℤ) (video : Bool)
      (input : ReadResult) (original now : ℤ) (on_output : OnOutput) (out : SyncerStep) (u : Track)
      (d : ContinuityClock)
      → t.fill_until ≡ none
      → t.filled ≤ 5
      → jumped m platform config t t.next pts ≡ ok jump
      → settle m platform config jump desync t c shift pts video input original now on_output
        ≡ ok (out, u, d)
      → Delivers m config t c out u d
  settle_lem true desync t c shift pts video input original now on_output out u d shut few j h =
      let (next, e, h) = >>=-eq-ok (the t.next) _ h in
      let (l, valid, went) =
        correct_jump_lem (record t { shift = some shift }) c video input original pts next now
          on_output out u d shut few (the-ok t.next next e) h in
      (l, valid, went)
  settle_lem false desync t c shift pts video input original now on_output out u d shut few j h =
      let (c', r, h) = >>=-eq-ok (republish m platform config desync t c shift) _ h in
      let (l, until, count, went) =
        real_lem m config _ c' video input pts now on_output out u d h in
      real-Delivers m platform config t c pts out u d shut few
        (jumped_lem m platform config t c t.next pts refl j)
        (Later-trans c c' d (republish-Later desync t c shift c' r) l, until, count, went)

  pub correct_shared_lem :
      (t : Track) (c : ContinuityClock) (shared : ℤ) (video : Bool) (input : ReadResult)
      (original now : ℤ) (on_output : OnOutput) (out : SyncerStep) (u : Track) (d : ContinuityClock)
      → t.fill_until ≡ none
      → t.filled ≤ 5
      → correct_shared m platform config t c shared video input original now on_output
        ≡ ok (out, u, d)
      → Delivers m config t c out u d
  unfolding correct_shared
  correct_shared_lem t c shared video input original now on_output out u d shut few h =
      let (desync, _, h) = >>=-eq-ok (desynced m platform config t t.shift shared) _ h in
      let (shift, _, h) = >>=-eq-ok (adopted m platform config t t.shift desync shared) _ h in
      let (pts, _, h) = >>=-eq-ok (add original shift) _ h in
      let (jump, j, h) = >>=-eq-ok (jumped m platform config t t.next pts) _ h in
      settle_lem jump desync t c shift pts video input original now on_output out u d shut few j h
