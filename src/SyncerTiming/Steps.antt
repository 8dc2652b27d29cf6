-- ===== src/SyncerTiming/Steps.antt =====
-- One step of a track, from its first test to its last.
use mw_streamer.Base.{
  ◌≡◌, refl, sym, subst, ◌∙◌, ok-subst, ◌⊎◌, inl, inr, true, false, Bool, Option, none, some, ◌≤◌,
  ◌&&◌, not, ℤ, pos, ◌<ℤ◌, ltb_ℤ, eqb_ℤ, ok, >>=-eq-ok, arith, ltb_ℤ_cases,
}
use mw_streamer.Ffmpeg.{TimeMath, AvRational}
use mw_streamer.Media.{ReadResult}
use mw_streamer.Media.ReadStatus.{eof}
use mw_streamer.SyncerTiming.{
  SyncerConfig, SyncerStep, ContinuityClock, Track, Platform, OnOutput, add, clock_now, frame_of,
}
use mw_streamer.SyncerTiming.Output.{rescale, convert, convert_last, change_time_base, from_us}
use mw_streamer.SyncerTiming.Sentinel.{
  correct, correct_by, rebase, time_out, seeded, overdue, waits, expire,
}
use mw_streamer.SyncerTiming.Delivery.{Later, Later-refl, Later-trans}
use mw_streamer.SyncerTiming.Batch.{BatchIsValid, begun}
use mw_streamer.SyncerTiming.Timeline.{
  Delivers, IsDue, fill-Delivers, correct_first_lem, clock_now-Later, clock_now-shift,
}
use mw_streamer.SyncerTiming.Correction.{correct_shared_lem}

module _ (m : TimeMath) where
  change_lem :
      (t : Track) (time_base : AvRational) (v : Track)
      → change_time_base m t time_base ≡ ok v
      → t.fill_until ≡ none
      → (v.has_output ≡ t.has_output)
        × (v.time_base ≡ time_base)
        × (convert m t.time_base time_base t.next ≡ ok v.next)
        × (v.fill_until ≡ none)
        × (v.filled ≡ t.filled)
  unfolding change_time_base
  change_lem t time_base v h shut =
      let (next, e, h) = >>=-eq-ok (convert m t.time_base time_base t.next) _ h in
      let (shift, _, h) = >>=-eq-ok (convert m t.time_base time_base t.shift) _ h in
      let (until, k, h) = >>=-eq-ok (convert m t.time_base time_base t.fill_until) _ h in
      let (pending, _, h) = >>=-eq-ok (convert m t.time_base time_base t.pending_real_pts) _ h in
      let (last, _, h) =
        >>=-eq-ok (convert_last m t.time_base time_base t.last_real t.last_real_pts) _ h in
      ok-subst
        (λ x.
          (x.has_output ≡ t.has_output)
          × (x.time_base ≡ time_base)
          × (convert m t.time_base time_base t.next ≡ ok x.next)
          × (x.fill_until ≡ none)
          × (x.filled ≡ t.filled))
        h (refl, refl, e, ok-subst (λ x. x ≡ none) (simp shut at k) refl, refl)

module _ (m : TimeMath) (platform : Platform) (config : SyncerConfig) where
  -- The slot that is due is the one that was, or that one in the time base of the input, or, on a
  -- track without a slot and while no input is there, the start of the stream in the track's time
  -- base. Whether the track has output yet stays as it is.
  abbrev pub Rebased : Option ReadResult → Track → Track → Type 0
  Rebased head t v =
      (v.has_output ≡ t.has_output)
      × (begun v ≡ begun t)
      × (((v.time_base ≡ t.time_base) × (v.next ≡ t.next))
          ⊎ (((input : ReadResult) × (head ≡ some input)
                × (v.time_base ≡ input.time_base)
                × (convert m t.time_base input.time_base t.next ≡ ok v.next))
              ⊎ ((start : ℤ) × (head ≡ none)
                  × (v.time_base ≡ t.time_base)
                  × (t.next ≡ none)
                  × (from_us m config.options.start_ts t ≡ ok start)
                  × (v.next ≡ some start))))

  -- What a step does: it consumes an EOF, and changes nothing; or it delivers a slot that is due.
  abbrev pub StepDone :
      Option ReadResult → Track → ContinuityClock → SyncerStep → Track → ContinuityClock → Type 0
  StepDone head t c out u d =
      (((input : ReadResult) × (head ≡ some input)
        × (input.status ≡ eof)
        × (out.consumed ≡ true)
        × (out.frame ≡ none)
        × (u ≡ t)
        × (d ≡ c)))
      ⊎ ((v : Track) × Rebased head t v × Delivers m config v c out u d)

  rebase_lem :
      (changes : Bool) (t : Track) (input : ReadResult) (v : Track)
      → rebase m platform config changes t input.time_base ≡ ok v
      → t.fill_until ≡ none
      → Rebased (some input) t v × (v.fill_until ≡ none) × (v.filled ≡ t.filled)
  rebase_lem false t input v h shut =
      ok-subst (λ x. Rebased (some input) t x × (x.fill_until ≡ none) × (x.filled ≡ t.filled)) h
        ((refl, refl, inl (refl, refl)), shut, refl)
  rebase_lem true t input v h shut =
      let (o, b, n, u, f) = change_lem m t input.time_base v h shut in
      ((o, rw (u, shut) refl, inr (inl (input, refl, b, n))), u, f)

  correct_by_lem :
      (shift : Option ℤ) (t : Track) (c : ContinuityClock) (video : Bool) (input : ReadResult)
      (original now : ℤ) (on_output : OnOutput) (out : SyncerStep) (u : Track) (d : ContinuityClock)
      → c.shift ≡ shift
      → t.fill_until ≡ none
      → t.filled ≤ 5
      → correct_by m platform config shift t c video input original now on_output ≡ ok (out, u, d)
      → Delivers m config t c out u d
  correct_by_lem none t c video input original now on_output out u d e shut few h =
      correct_first_lem m platform config t c video input original now on_output out u d shut few e
        h
  correct_by_lem (some shared) t c video input original now on_output out u d e shut few h =
      correct_shared_lem m platform config t c shared video input original now on_output out u d
        shut few h

  pub correct_lem :
      (t : Track) (c : ContinuityClock) (video : Bool) (input : ReadResult) (now : ℤ)
      (on_output : OnOutput) (out : SyncerStep) (u : Track) (d : ContinuityClock)
      → t.fill_until ≡ none
      → t.filled ≤ 5
      → correct m platform config t c video input now on_output ≡ ok (out, u, d)
      → (v : Track) × Rebased (some input) t v × Delivers m config v c out u d
  unfolding correct
  correct_lem t c video input now on_output out u d shut few h =
      let (v, r, h) =
        >>=-eq-ok
          (rebase m platform config
            (video && not (eqb_ℤ (m.cmp_q t.time_base input.time_base) (pos 0))) t input.time_base)
          _ h in
      let (f, _, h) = >>=-eq-ok (frame_of input) _ h in
      let (original, _, h) = >>=-eq-ok (rescale m f.pts input.time_base v.time_base) _ h in
      let (rebased, shut_v, count) = rebase_lem _ t input v r shut in
      (
        v,
        rebased,
        correct_by_lem c.shift v c video input original now on_output out u d refl shut_v
            (subst (λ n. n ≤ 5) (sym count) few) h,
      )

  pub waits_lem :
      (t : Track) (c : ContinuityClock) (wake : ℤ) (out : SyncerStep) (u : Track)
      (d : ContinuityClock)
      → t.fill_until ≡ none
      → t.filled ≤ 5
      → waits m platform config t c wake ≡ ok (out, u, d)
      → Delivers m config t c out u d
  waits_lem t c wake out u d shut few h =
      ok-subst (λ x. Delivers m config t c x.0 x.1 x.2) h
        (
          Later-refl c,
          (few, inl shut),
          inr (
              inr (record {
                nothing = refl;
                head_kept = refl;
                flows = refl;
                slot_kept = refl;
                base_kept = refl;
              })),
        )

  expire_lem :
      (ends : Bool) (t : Track) (c : ContinuityClock) (video : Bool) (next target now : ℤ)
      (on_output : OnOutput) (out : SyncerStep) (u : Track) (d : ContinuityClock)
      → t.next ≡ some next
      → t.fill_until ≡ none
      → t.filled ≤ 5
      → (ends ≡ true → next <ℤ target)
      → expire m platform config ends t c video target now on_output ≡ ok (out, u, d)
      → Delivers m config t c out u d
  expire_lem true t c video next target now on_output out u d e shut few ahead h =
      fill-Delivers m platform config t c next target false video none now on_output out u d shut e
        (ahead refl) h
  expire_lem false t c video next target now on_output out u d e shut few ahead h =
      waits_lem t c t.wait_until out u d shut few h

  Later-Delivers :
      (t : Track) (c c' : ContinuityClock) (out : SyncerStep) (u : Track) (d : ContinuityClock)
      → Later c c'
      → c'.shift ≡ c.shift
      → Delivers m config t c' out u d
      → Delivers m config t c out u d
  Later-Delivers t c c' out u d l e (k, valid, went) = (
    Later-trans c c' d l k,
    valid,
    elim went [ inl (pts, due, a) ↦ inl (pts, moved due, a) | inr r ↦ inr r ],
  )
    where
      moved : {pts : ℤ} → IsDue m config t c' pts → IsDue m config t c pts
      moved (inl h) = inl h
      moved (inr (inl h)) = inr (inl h)
      moved (inr (inr (inl h))) = inr (inr (inl h))
      moved (inr (inr (inr (s, o)))) = inr (inr (inr (sym e ∙ s, o)))

  seeded_lem :
      (o : Option ℤ) (t : Track) (next wait_until : ℤ)
      → t.next ≡ o
      → seeded m platform config o t ≡ ok next
      → Rebased none t
          (record t { next = some next; last_success = false; wait_until = wait_until })
  seeded_lem none t next wait_until e h = (refl, refl, inr (inr (next, refl, refl, e, h, refl)))
  seeded_lem (some n) t next wait_until e h =
      (refl, refl, inl (refl, ok-subst (λ x. some x ≡ t.next) h (sym e)))

  pub time_out_lem :
      (t : Track) (c : ContinuityClock) (video : Bool) (now : ℤ) (on_output : OnOutput)
      (out : SyncerStep) (u : Track) (d : ContinuityClock)
      → BatchIsValid t
      → t.fill_until ≡ none
      → time_out m platform config t c video now on_output ≡ ok (out, u, d)
      → (v : Track) × Rebased none t v × Delivers m config v c out u d
  unfolding time_out
  time_out_lem t c video now on_output out u d valid shut h =
      let ((rtc, c'), k, h) = >>=-eq-ok (clock_now c now) _ h in
      let (next, n, h) = >>=-eq-ok (seeded m platform config t.next t) _ h in
      let (late, _, h) = >>=-eq-ok (overdue m platform config t.last_success t next rtc) _ h in
      let (wait_until, _, h) = >>=-eq-ok (add now (pos 22000)) _ h in
      let (target, _, h) = >>=-eq-ok (from_us m rtc t) _ h in
      let v = record t { next = some next; last_success = false; wait_until = wait_until } in
      (
        v,
        seeded_lem t.next t next wait_until refl n,
        Later-Delivers v c c' out u d (clock_now-Later c now rtc c' k)
            (clock_now-shift c now rtc c' k)
            (expire_lem (late && ltb_ℤ next target) v c' video next target now on_output out u d
              refl shut valid.0 (λ b. ground (arith, b, ltb_ℤ_cases next target)) h),
      )
