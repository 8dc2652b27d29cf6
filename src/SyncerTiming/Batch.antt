-- ===== src/SyncerTiming/Batch.antt =====
-- Fill and FinishFill: a batch of fillers, its slots, its count and its target.
use mw_streamer.Base.{
  ◌≡◌, refl, ap, sym, subst, ◌∙◌, ok-subst, ◌⊎◌, inl, inr, true, false, Bool, Bool-cases, Option,
  none, some, ◌≤◌, ◌<◌, ◌+◌, suc, ℕ, ◌==◌, ◌&&◌, ◌||◌, not, ℤ, ◌<ℤ◌, leb_ℤ, ok, >>=-eq-ok, arith,
  leb_ℤ_cases,
}
use mw_streamer.Ffmpeg.{TimeMath}
use mw_streamer.Media.{AvFrame, ReadResult}
use mw_streamer.SyncerTiming.{
  SyncerConfig, SyncerStep, ContinuityClock, Track, Platform, stamp, OnOutput, add, subtract, the,
  frame_of, head_of, admit,
}
use mw_streamer.SyncerTiming.Output.{
  rescale, adjust, backup, fill, fill_accepted, fill_end, finish_fill, anchor_fill, resume_time,
  duration_of, to_us,
}
use mw_streamer.SyncerTiming.Delivery.{
  Accepted, Refused, Later, Later-refl, Later-trans, clock_update-Later, add-ok,
}

-- A batch that is open has emitted fewer than five fillers, and its target is still ahead.
pub record Open (t : Track) : Type 0 where
  pub slot : ℤ
  pub target : ℤ
  pub slot_is : t.next ≡ some slot
  pub target_is : t.fill_until ≡ some target
  pub ahead : slot <ℤ target
  pub few : t.filled < 5

abbrev pub BatchIsValid : Track → Type 0
BatchIsValid t = (t.filled ≤ 5) × ((t.fill_until ≡ none) ⊎ Open t)

-- How many fillers a step gives out: a frame for which it consumed no input.
abbrev pub fillers_of : Option AvFrame → Bool → ℕ
fillers_of none consumed = 0
fillers_of (some f) true = 0
fillers_of (some f) false = 1

abbrev pub fillers : SyncerStep → ℕ
fillers out = fillers_of out.frame out.consumed

abbrev pub since : Option ℤ → ℕ → ℕ
since none count = 0
since (some until) count = count

-- The count of the batch that is open, else 0.
abbrev pub begun : Track → ℕ
begun t = since t.fill_until t.filled

-- After a step the track is valid, and a batch that is open has counted the fillers of the step.
abbrev pub Continues : Track → SyncerStep → Track → Type 0
Continues t out u =
    (u.filled ≤ 5) × ((u.fill_until ≡ none) ⊎ (Open u × (u.filled ≡ begun t + fillers out)))

pub Continues-BatchIsValid :
    (t : Track) (out : SyncerStep) (u : Track) → Continues t out u → BatchIsValid u
Continues-BatchIsValid t out u (few, inl e) = (few, inl e)
Continues-BatchIsValid t out u (few, inr (o, _)) = (few, inr o)

-- The end of a batch leaves the slot that is due.
pub record Finished (t : Track) (c : ContinuityClock) (u : Track) (d : ContinuityClock)
    : Type 0 where
  pub later : Later c d
  pub closed : u.fill_until ≡ none
  pub slot_kept : u.next ≡ t.next
  pub base_kept : u.time_base ≡ t.time_base
  pub count_kept : u.filled ≡ t.filled

module _ (m : TimeMath) where
  -- Adjust changes the shifts only.
  pub record Adjusted (t : Track) (c : ContinuityClock) (u : Track) (d : ContinuityClock)
      : Type 0 where
    pub clock_kept : Later c d
    pub until_kept : u.fill_until ≡ t.fill_until
    pub slot_kept : u.next ≡ t.next
    pub base_kept : u.time_base ≡ t.time_base
    pub count_kept : u.filled ≡ t.filled

  pub adjust-Adjusted :
      (t : Track) (c : ContinuityClock) (original : ℤ) (u : Track) (d : ContinuityClock)
      → adjust m t c original ≡ ok (u, d)
      → Adjusted t c u d
  unfolding adjust
  adjust-Adjusted t c original u d h =
      let (next, _, h) = >>=-eq-ok (the t.next) _ h in
      let (shift, _, h) = >>=-eq-ok (subtract next original) _ h in
      let (shared, _, h) = >>=-eq-ok (to_us m shift t) _ h in
      ok-subst (λ x. Adjusted t c x.0 x.1) h
        (record {
          clock_kept = Later-refl c;
          until_kept = refl;
          slot_kept = refl;
          base_kept = refl;
          count_kept = refl;
        })

  module _ (config : SyncerConfig) where
    anchor_fill-Later :
        (anchors : Bool) (t : Track) (c : ContinuityClock) (pts now : ℤ) (d : ContinuityClock)
        → anchor_fill m config anchors t c pts now ≡ ok d
        → Later c d
    anchor_fill-Later false t c pts now d h = ok-subst (Later c) h (Later-refl c)
    anchor_fill-Later true t c pts now d h =
        let (us, _, h) = >>=-eq-ok (to_us m pts t) _ h in
        ok-subst (Later c) h (clock_update-Later c us now)

    finish_forward :
        (t : Track) (c : ContinuityClock) (head : Option ReadResult) (pts now : ℤ) (blocked : Bool)
        (wake : ℤ) (u : Track) (d : ContinuityClock)
        → t.forward_fill ≡ true
        → finish_fill m config t c head pts now blocked ≡ ok (wake, u, d)
        → Finished t c u d
    unfolding finish_fill
    finish_forward t c head pts now blocked wake u d e h =
        let (c', l, h) =
          >>=-eq-ok (anchor_fill m config (t.filled == 5 || blocked) t c pts now) _ (simp e at h) in
        let (input, _, h) = >>=-eq-ok (head_of head) _ h in
        let (f, _, h) = >>=-eq-ok (frame_of input) _ h in
        let (original, _, h) = >>=-eq-ok (rescale m f.pts input.time_base t.time_base) _ h in
        let ((v, d'), a, h) = >>=-eq-ok (adjust m t c' original) _ h in
        let (resume, _, h) =
          >>=-eq-ok (resume_time m config (v.filled == 5 && not blocked) v now) _ h in
        let adjusted = adjust-Adjusted t c' original v d' a in
        ok-subst (λ x. Finished t c x.1 x.2) h
          (record {
            later = Later-trans c c' d' (anchor_fill-Later _ t c pts now c' l) adjusted.clock_kept;
            closed = refl;
            slot_kept = adjusted.slot_kept;
            base_kept = adjusted.base_kept;
            count_kept = adjusted.count_kept;
          })

    finish_timeout :
        (t : Track) (c : ContinuityClock) (head : Option ReadResult) (pts now : ℤ) (blocked : Bool)
        (wake : ℤ) (u : Track) (d : ContinuityClock)
        → t.forward_fill ≡ false
        → finish_fill m config t c head pts now blocked ≡ ok (wake, u, d)
        → Finished t c u d
    unfolding finish_fill
    finish_timeout t c head pts now blocked wake u d e h =
        ok-subst (λ x. Finished t c x.1 x.2) (simp e at h)
          (record {
            later = Later-refl c;
            closed = refl;
            slot_kept = refl;
            base_kept = refl;
            count_kept = refl;
          })

    finish_fill-Finished :
        (t : Track) (c : ContinuityClock) (head : Option ReadResult) (pts now : ℤ) (blocked : Bool)
        (wake : ℤ) (u : Track) (d : ContinuityClock)
        → finish_fill m config t c head pts now blocked ≡ ok (wake, u, d)
        → Finished t c u d
    finish_fill-Finished t c head pts now blocked wake u d h = elim (Bool-cases t.forward_fill) [
      | inl e ↦ finish_forward t c head pts now blocked wake u d e h
      | inr e ↦ finish_timeout t c head pts now blocked wake u d e h
    ]

    -- What one step of a batch does: no input is consumed, the clock does not go back, the batch
    -- stays valid, and the filler takes the slot that was due, or is refused and the slot stays.
    abbrev pub FillDone :
        Track → ContinuityClock → ℤ → SyncerStep → Track → ContinuityClock → Type 0
    FillDone t c pts out u d =
        (out.consumed ≡ false)
        × Later c d
        × Continues t out u
        × (Accepted t.time_base pts out u ⊎ Refused t.time_base t.next out u)

    fill_refused :
        (t : Track) (c : ContinuityClock) (head : Option ReadResult) (f : AvFrame)
        (pts until duration now : ℤ) (out : SyncerStep) (u : Track) (d : ContinuityClock)
        → t.filled ≤ 5
        → fill_accepted m config false t c head f pts until duration now ≡ ok (out, u, d)
        → FillDone t c pts out u d
    fill_refused t c head f pts until duration now out u d few h =
        let ((wake, v, e), k, h) = >>=-eq-ok (finish_fill m config t c head pts now true) _ h in
        let done = finish_fill-Finished t c head pts now true wake v e k in
        ok-subst (λ x. FillDone t c pts x.0 x.1 x.2) h
          (
            refl,
            done.later,
            (subst (λ n. n ≤ 5) (sym done.count_kept) few, inl done.closed),
            inr (record {
              nothing = refl;
              blocked = refl;
              head_kept = refl;
              slot_kept = done.slot_kept;
              base_kept = done.base_kept;
            }),
          )

    -- After a filler, the batch ends where the target is reached or five fillers have gone out.
    fill_end_lem :
        (ends : Bool) (t : Track) (c : ContinuityClock) (head : Option ReadResult)
        (pts next until now : ℤ) (wake : ℤ) (u : Track) (d : ContinuityClock)
        → t.filled ≤ 5
        → t.next ≡ some next
        → t.fill_until ≡ some until
        → ends ≡ leb_ℤ until next || t.filled == 5
        → fill_end m config ends t c head pts now ≡ ok (wake, u, d)
        → Later c d
          × ((u.filled ≤ 5) × ((u.fill_until ≡ none) ⊎ (Open u × (u.filled ≡ t.filled))))
          × (u.next ≡ t.next)
          × (u.time_base ≡ t.time_base)
    fill_end_lem false t c head pts next until now wake u d few n i e h =
        ok-subst
          (λ x.
            Later c x.2
            × ((x.1.filled ≤ 5) × ((x.1.fill_until ≡ none) ⊎ (Open x.1 × (x.1.filled ≡ t.filled))))
            × (x.1.next ≡ t.next)
            × (x.1.time_base ≡ t.time_base))
          h
          (
            Later-refl c,
            (
              few,
              inr (
                (record {
                  slot = next;
                  target = until;
                  slot_is = n;
                  target_is = i;
                  ahead = ground (arith, e, leb_ℤ_cases until next);
                  few = ground (arith, e, few);
                }),
                refl,
              ),
            ),
            refl,
            refl,
          )
    fill_end_lem true t c head pts next until now wake u d few n i e h =
        let done = finish_fill-Finished t c head pts now false wake u d h in
        (
          done.later,
          (subst (λ n. n ≤ 5) (sym done.count_kept) few, inl done.closed),
          done.slot_kept,
          done.base_kept,
        )

    -- The filler that went out has been counted.
    counted :
        (t u : Track) (until : ℤ)
        → t.fill_until ≡ some until
        → (u.filled ≤ 5) × ((u.fill_until ≡ none) ⊎ (Open u × (u.filled ≡ suc t.filled)))
        → (u.filled ≤ 5) × ((u.fill_until ≡ none) ⊎ (Open u × (u.filled ≡ begun t + 1)))
    counted t u until i (few, inl e) = (few, inl e)
    counted t u until i (few, inr (o, n)) = (few, inr (o, rw i (omega arith)))

    fill_went :
        (t : Track) (c : ContinuityClock) (head : Option ReadResult) (f : AvFrame)
        (pts until duration now : ℤ) (out : SyncerStep) (u : Track) (d : ContinuityClock)
        → t.filled < 5
        → t.fill_until ≡ some until
        → fill_accepted m config true t c head (stamp t pts duration f) pts until duration now
          ≡ ok (out, u, d)
        → FillDone t c pts out u d
    fill_went t c head f pts until duration now out u d few i h =
        let (next, n, h) = >>=-eq-ok (add pts duration) _ h in
        let (duration_us, _, h) = >>=-eq-ok (to_us m duration t) _ h in
        let (filled_us, _, h) = >>=-eq-ok (add t.filled_us duration_us) _ h in
        let ((wake, v, e), k, h) = >>=-eq-ok (fill_end m config _ _ c head pts now) _ h in
        let (later, valid, slot, base) =
          fill_end_lem _ _ c head pts next until now wake v e few refl i refl k in
        ok-subst (λ x. FillDone t c pts x.0 x.1 x.2) h
          (
            refl,
            later,
            counted t v until i valid,
            inl (record {
              frame = stamp t pts duration f;
              given = refl;
              at = refl;
              base = refl;
              next = slot ∙ ap some (add-ok pts duration next n);
              base_kept = base;
              flows = refl;
            }),
          )

    fill_accepted_lem :
        (accepted : Bool) (t : Track) (c : ContinuityClock) (head : Option ReadResult) (f : AvFrame)
        (pts until duration now : ℤ) (out : SyncerStep) (u : Track) (d : ContinuityClock)
        → t.filled < 5
        → t.fill_until ≡ some until
        → fill_accepted m config accepted t c head (stamp t pts duration f) pts until duration now
          ≡ ok (out, u, d)
        → FillDone t c pts out u d
    fill_accepted_lem false t c head f pts until duration now out u d few i h =
        fill_refused t c head (stamp t pts duration f) pts until duration now out u d (omega arith)
          h
    fill_accepted_lem true t c head f pts until duration now out u d few i h =
        fill_went t c head f pts until duration now out u d few i h

    pub fill_lem :
        (platform : Platform) (t : Track) (c : ContinuityClock) (video : Bool)
        (head : Option ReadResult) (now : ℤ) (on_output : OnOutput) (out : SyncerStep) (u : Track)
        (d : ContinuityClock)
        → (o : Open t) → fill m config platform t c video head now on_output ≡ ok (out, u, d)
        → FillDone t c o.slot out u d
    unfolding fill
    fill_lem platform t c video head now on_output out u d o h =
        let h = simp (o.slot_is, o.target_is) at h in
        let (count, _, h) = >>=-eq-ok (subtract o.target o.slot) _ h in
        let (f, _, h) = >>=-eq-ok (backup m config platform t video count) _ h in
        let (duration, _, h) = >>=-eq-ok (duration_of m config t video f) _ h in
        let (accepted, _, h) = >>=-eq-ok (admit on_output (stamp t o.slot duration f)) _ h in
        fill_accepted_lem accepted t c head f o.slot o.target duration now out u d o.few o.target_is
          h
