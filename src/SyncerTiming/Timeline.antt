-- ===== src/SyncerTiming/Timeline.antt =====
-- Correct and Step: the slots that a track delivers, and the first slot of an input.
use mw_streamer.Base.{
  ◌≡◌, refl, ap, sym, subst, ◌∙◌, ok-subst, ◌⊎◌, inl, inr, true, false, Bool, Option, none, some,
  ◌≤◌, ℤ, pos, -ℤ◌, ◌+ℤ◌, ◌-ℤ◌, ◌<ℤ◌, ◌≤ℤ◌, ltb_ℤ, leb_ℤ, ok, >>=-eq-ok, arith, int_laws,
  ltb_ℤ_cases, leb_ℤ_cases, eqb_ℤ_cases, eq_of_parts, int64_min, ◌||◌, if◌then◌else◌,
}
use mw_streamer.Ffmpeg.{TimeMath, AvRational, microseconds}
use mw_streamer.Media.{ReadResult}
use mw_streamer.SyncerTiming.{
  SyncerConfig, SyncerStep, ContinuityClock, Track, Platform, OnOutput, add, subtract, apart, the,
  clock_now, clock_update, started, now_from, update_from, begin_fill,
}
use mw_streamer.SyncerTiming.Output.{rescale, fill, to_us, from_us}
use mw_streamer.SyncerTiming.Sentinel.{correct_first, jumped, first_pts}
use mw_streamer.SyncerTiming.Delivery.{
  Accepted, Refused, Later, Later-refl, Later-trans, clock_update-Later, real_lem, add-ok, RealDone,
}
use mw_streamer.SyncerTiming.Batch.{Continues, Open, fill_lem}

started-Later : (c : ContinuityClock) (now : ℤ) → Later c (started c.pts c now)
started-Later c now = by_pts c.pts refl
  where
    by_pts : (p : Option ℤ) → c.pts ≡ p → Later c (started p c now)
    by_pts none e = clock_update-Later c c.start now
    by_pts (some p) e = Later-refl c

now_from_lem :
    (p : Option ℤ) (c : ContinuityClock) (now v : ℤ) (d : ContinuityClock)
    → now_from p c now ≡ ok (v, d)
    → d ≡ c
now_from_lem none c now v d h = ground arith
now_from_lem (some p) c now v d h =
    let (elapsed, _, h) = >>=-eq-ok (subtract now c.wall) _ h in
    let (value, _, h) =
      >>=-eq-ok (if ltb_ℤ elapsed (pos 2000000) then ok p else add p elapsed) _ h in
    ok-subst (λ x. x.1 ≡ c) h refl

pub clock_now-Later :
    (c : ContinuityClock) (now v : ℤ) (d : ContinuityClock)
    → clock_now c now ≡ ok (v, d)
    → Later c d
unfolding clock_now
clock_now-Later c now v d h =
    subst (Later c) (sym (now_from_lem _ _ now v d h)) (started-Later c now)

started-shift : (p : Option ℤ) (c : ContinuityClock) (now : ℤ) → (started p c now).shift ≡ c.shift
unfolding clock_update
started-shift none c now = updated c.pts
  where
    updated : (q : Option ℤ) → (update_from q c c.start now).shift ≡ c.shift
    updated none = refl
    updated (some q) = elim (ltb_ℤ_cases q c.start) [
      | inl (k, _) ↦ rw k refl
      | inr (k, _) ↦ rw k refl
    ]
started-shift (some p) c now = refl

pub clock_now-shift :
    (c : ContinuityClock) (now v : ℤ) (d : ContinuityClock)
    → clock_now c now ≡ ok (v, d)
    → d.shift ≡ c.shift
unfolding clock_now
clock_now-shift c now v d h =
    ap (λ x. x.shift) (now_from_lem _ _ now v d h) ∙ started-shift c.pts c now

subtract-ok : (a b r : ℤ) → subtract a b ≡ ok r → r ≡ a -ℤ b
unfolding subtract
subtract-ok a b r h = elim (eqb_ℤ_cases b int64_min) [
  | inl (e, _) ↦ ground (arith, h, e)
  | inr (e, _) ↦
      add-ok a (-ℤ◌ b) r (simp e at h) ∙ eq_of_parts (a +ℤ -ℤ◌ b) (a -ℤ b) (omega int_laws)
]

-- Two times that are not apart differ by less than the tolerance.
apart_lem :
    (a b tolerance : ℤ)
    → apart a b tolerance ≡ ok false
    → (a -ℤ b <ℤ tolerance) × (-ℤ◌ tolerance <ℤ a -ℤ b)
unfolding apart
apart_lem a b tolerance h =
    let (difference, e, h) = >>=-eq-ok (subtract a b) _ h in
    let h =
      subst (λ x. (ok (leb_ℤ tolerance x || leb_ℤ x (-ℤ◌ tolerance))) ≡ ok false)
        (subtract-ok a b difference e) h in
    ground (arith, h, leb_ℤ_cases tolerance (a -ℤ b), leb_ℤ_cases (a -ℤ b) (-ℤ◌ tolerance))

pub the-ok : (o : Option ℤ) (v : ℤ) → the o ≡ ok v → o ≡ some v
the-ok o v h = ground arith

module _ (m : TimeMath) (config : SyncerConfig) where
  -- A slot within the tolerance of the slot that is due.
  pub record Near (time_base : AvRational) (due pts : ℤ) : Type 0 where
    pub pts_us : ℤ
    pub due_us : ℤ
    pub pts_scaled : rescale m pts time_base microseconds ≡ ok pts_us
    pub due_scaled : rescale m due time_base microseconds ≡ ok due_us
    pub below : pts_us -ℤ due_us <ℤ config.options.max_streams_diff
    pub above : -ℤ◌ config.options.max_streams_diff <ℤ pts_us -ℤ due_us

  -- The slots that a track may take: the one that is due, or one within the tolerance of it. The
  -- track that anchors the shared shift may start anywhere, but not before a slot that is due
  -- after an output.
  abbrev pub IsDue : Track → ContinuityClock → ℤ → Type 0
  IsDue t c pts =
      (t.next ≡ some pts)
      ⊎ ((t.next ≡ none)
          ⊎ (((due : ℤ) × (t.next ≡ some due) × Near t.time_base due pts)
              ⊎ ((c.shift ≡ none)
                  × (t.has_output ≡ true → (due : ℤ) × (t.next ≡ some due) × (due ≤ℤ pts)))))

  pub record Idle (time_base : AvRational) (slot : Option ℤ) (out : SyncerStep) (u : Track)
      : Type 0 where
    pub nothing : out.frame ≡ none
    pub head_kept : out.consumed ≡ false
    pub flows : out.blocked ≡ false
    pub slot_kept : u.next ≡ slot
    pub base_kept : u.time_base ≡ time_base

  -- What a call does to its track and the clock: it delivers a slot that is due, or the frame is
  -- refused and the slot stays, or nothing goes out.
  abbrev pub Delivers : Track → ContinuityClock → SyncerStep → Track → ContinuityClock → Type 0
  Delivers t c out u d =
      Later c d
      × Continues t out u
      × (((pts : ℤ) × IsDue t c pts × Accepted t.time_base pts out u)
          ⊎ (Refused t.time_base t.next out u ⊎ Idle t.time_base t.next out u))

module _ (m : TimeMath) (platform : Platform) (config : SyncerConfig) where
  pub jumped_lem :
      (t : Track) (c : ContinuityClock) (next : Option ℤ) (pts : ℤ)
      → t.next ≡ next
      → jumped m platform config t next pts ≡ ok false
      → IsDue m config t c pts
  unfolding jumped
  jumped_lem t c none pts e h = inr (inl e)
  jumped_lem t c (some next) pts e h = elim (eqb_ℤ_cases pts next) [
    | inl (_, k) ↦ inl (e ∙ ap some (sym k))
    | inr (k, _) ↦
        let h = simp k at h in
        let (a, x, h) = >>=-eq-ok (to_us m pts t) _ h in
        let (b, y, h) = >>=-eq-ok (to_us m next t) _ h in
        let (below, above) = apart_lem a b config.options.max_streams_diff h in
        inr (
          inr (
            inl (
              next,
              e,
              record {
                pts_us = a;
                due_us = b;
                pts_scaled = x;
                due_scaled = y;
                below = below;
                above = above;
              },
            )))
  ]

  pub real-Delivers :
      (t : Track) (c : ContinuityClock) (pts : ℤ) (out : SyncerStep) (u : Track)
      (d : ContinuityClock)
      → t.fill_until ≡ none
      → t.filled ≤ 5
      → IsDue m config t c pts
      → RealDone t c pts out u d
      → Delivers m config t c out u d
  real-Delivers t c pts out u d shut few due (l, until, count, inl (a, _)) =
      (l, (subst (λ n. n ≤ 5) (sym count) few, inl (until ∙ shut)), inl (pts, due, a))
  real-Delivers t c pts out u d shut few due (l, until, count, inr r) =
      (l, (subst (λ n. n ≤ 5) (sym count) few, inl (until ∙ shut)), inr (inl r))

  first_slot-IsDue :
      (t : Track) (c : ContinuityClock) (mapped pts : ℤ)
      → c.shift ≡ none
      → first_pts m platform config t mapped ≡ ok pts
      → IsDue m config t c pts
  first_slot-IsDue t c mapped pts e h = inr (
      inr (
        inr (
          e,
          λ o.
              let h = simp o at h in
              let (due, k, h) = >>=-eq-ok (the t.next) _ h in
              (
                due,
                the-ok t.next due k,
                ok-subst (λ x. due ≤ℤ x) h (ground (arith, ltb_ℤ_cases mapped due)),
              ),
        )))

  pub correct_first_lem :
      (t : Track) (c : ContinuityClock) (video : Bool) (input : ReadResult) (original now : ℤ)
      (on_output : OnOutput) (out : SyncerStep) (u : Track) (d : ContinuityClock)
      → t.fill_until ≡ none
      → t.filled ≤ 5
      → c.shift ≡ none
      → correct_first m platform config t c video input original now on_output ≡ ok (out, u, d)
      → Delivers m config t c out u d
  unfolding correct_first
  correct_first_lem t c video input original now on_output out u d shut few e h =
      let ((rtc, c'), k, h) = >>=-eq-ok (clock_now c now) _ h in
      let (mapped, _, h) = >>=-eq-ok (from_us m rtc t) _ h in
      let (pts, f, h) = >>=-eq-ok (first_pts m platform config t mapped) _ h in
      let (shift, _, h) = >>=-eq-ok (subtract pts original) _ h in
      let (shared, _, h) = >>=-eq-ok (to_us m shift t) _ h in
      let (l, until, count, rest) = real_lem m config _ _ video input pts now on_output out u d h in
      real-Delivers t c pts out u d shut few (first_slot-IsDue t c mapped pts e f)
        (Later-trans c c' d (clock_now-Later c now rtc c' k) l, until, count, rest)

  pub fill-Delivers :
      (t : Track) (c : ContinuityClock) (next target : ℤ) (forward video : Bool)
      (head : Option ReadResult) (now : ℤ) (on_output : OnOutput) (out : SyncerStep) (u : Track)
      (d : ContinuityClock)
      → t.fill_until ≡ none
      → t.next ≡ some next
      → next <ℤ target
      → fill m config platform (begin_fill t target forward) c video head now on_output
        ≡ ok (out, u, d)
      → Delivers m config t c out u d
  fill-Delivers t c next target forward video head now on_output out u d shut e ahead h =
      let batch : Open (begin_fill t target forward) = record {
        slot = next;
        target = target;
        slot_is = e;
        target_is = refl;
        ahead = ahead;
        few = omega arith;
      } in
      let (_, l, valid, went) =
        fill_lem m config platform _ c video head now on_output out u d batch h in
      (l, rw shut valid, elim went [ inl a ↦ inl (next, inl e, a) | inr r ↦ inr (inl r) ])
