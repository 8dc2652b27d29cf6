-- ===== src/Realtime/Laws.antt =====
-- The decisions of the realtime clock over time: waits, and the mapping.
use mw_streamer.Base.{
  ◌≡◌, refl, ap, sym, ◌∙◌, subst, min_ℤ-eq_right, ◌⊎◌, inl, inr, false, Option, none, some, ℤ, pos,
  ◌-ℤ◌, ◌+ℤ◌, -ℤ◌, ◌<ℤ◌, ◌≤ℤ◌, ok, int_laws, arith, ltb_ℤ_cases, leb_ℤ_cases, negℤ_parts, ltb_ℤ,
}
use mw_streamer.Realtime.{
  RealtimeTiming, Decision, schedule, subtract, schedule_at, compare_due, late_for_discard,
}
use mw_streamer.Realtime.Schedule.{
  IsValid, Outcome, schedule-Outcome, ready_at, lead, candidate, remap, subtract_cases, Waits,
  DiscardIsValid,
}

subtract_self : (a : ℤ) → subtract a a ≡ ok (pos 0)
unfolding subtract ltb_ℤ ◌-ℤ◌ ◌+ℤ◌
subtract_self a = ground arith

late_at_zero :
    (o : Option ℤ) (tolerance : ℤ) → DiscardIsValid o tolerance → late_for_discard o (pos 0) ≡ false
unfolding late_for_discard ltb_ℤ -ℤ◌
late_at_zero none tolerance v = refl
late_at_zero (some d) tolerance v = ground arith

compare_due-zero :
    (t : RealtimeTiming) (pts now due : ℤ)
    → IsValid t.config
    → compare_due t pts now due (pos 0) ≡ ok (ready_at now, t)
unfolding compare_due
compare_due-zero t pts now due v = ground (
  arith,
  ltb_ℤ_cases (pos 0) (-ℤ◌ t.negative_time_tolerance),
  negℤ_parts t.negative_time_tolerance,
  leb_ℤ_cases t.discontinuity_threshold (pos 0),
  late_at_zero t.negative_time_discard t.negative_time_tolerance,
  ltb_ℤ_cases (pos 0) (pos 0),
)

Outcome-Waits :
    (o : Option ℤ) (t : RealtimeTiming) (pts now : ℤ) (d : Decision) (u : RealtimeTiming)
    → Outcome o t pts now d u
    → d.ready ≡ false
    → d.discard ≡ false
    → (offset : ℤ) × (o ≡ some offset) × Waits t pts offset now d u
Outcome-Waits none t pts now d u (e, _) r k = cc
Outcome-Waits (some offset) t pts now d u (inl x) r k = cc (ap Decision.ready x.decision)
Outcome-Waits (some offset) t pts now d u (inr (inl x)) r k = cc (ap Decision.ready x.decision)
Outcome-Waits (some offset) t pts now d u (inr (inr (inl x))) r k =
    cc (ap Decision.discard x.decision)
Outcome-Waits (some offset) t pts now d u (inr (inr (inr (inl x)))) r k = (offset, refl, x)
Outcome-Waits (some offset) t pts now d u (inr (inr (inr (inr x)))) r k =
    cc (ap Decision.ready x.decision)

-- The deadline is no earlier reached than ready.
schedule_at-deadline :
    (t : RealtimeTiming) (pts now offset : ℤ) (d : Decision) (u : RealtimeTiming)
    → IsValid t.config
    → schedule_at (some offset) t pts now ≡ ok (d, u)
    → schedule_at (some offset) t pts (pts -ℤ offset) ≡ ok (ready_at (pts -ℤ offset), t)
unfolding schedule_at
schedule_at-deadline t pts now offset d u v h = ground (
  arith,
  subtract_cases pts offset,
  subtract_self (pts -ℤ offset),
  compare_due-zero t pts (pts -ℤ offset) (pts -ℤ offset) v,
)

schedule-mapped :
    (t : RealtimeTiming) (pts now offset : ℤ)
    → t.offset_us ≡ some offset
    → schedule t pts now ≡ schedule_at (some offset) t pts now
unfolding schedule
schedule-mapped t pts now offset e = ap (λ o. schedule_at o t pts now) e

wake_future : (pts offset now : ℤ) → pos 0 <ℤ lead pts offset now → now <ℤ pts -ℤ offset
wake_future pts offset now h = omega int_laws

wake_near :
    (pts offset now threshold : ℤ)
    → lead pts offset now <ℤ threshold
    → pts -ℤ offset <ℤ now +ℤ threshold
wake_near pts offset now threshold h = omega int_laws

-- An input that has to wait leaves the mapping as it is, waits for less than the threshold, and
-- is ready if it is scheduled again at the deadline that was returned.
pub wait_ends :
    (t : RealtimeTiming) (pts now : ℤ) (d : Decision) (u : RealtimeTiming)
    → IsValid t.config
    → schedule t pts now ≡ ok (d, u)
    → d.ready ≡ false
    → d.discard ≡ false
    → (u ≡ t)
      × (now <ℤ d.wake_us)
      × (d.wake_us <ℤ now +ℤ t.discontinuity_threshold)
      × (schedule t pts d.wake_us ≡ ok (ready_at d.wake_us, t))
wait_ends t pts now d u v h r k =
    let (offset, e, w) =
      Outcome-Waits t.offset_us t pts now d u (schedule-Outcome t pts now d u h) r k in
    let wake : d.wake_us ≡ pts -ℤ offset = ap (λ (x : Decision). x.wake_us) w.decision in
    let here = sym (schedule-mapped t pts now offset e) ∙ h in
    (
      w.mapping,
      subst (λ x. now <ℤ x) (sym wake) (wake_future pts offset now w.future),
      subst (λ x. x <ℤ now +ℤ t.discontinuity_threshold) (sym wake)
          (wake_near pts offset now t.discontinuity_threshold w.near),
      subst (λ x. schedule t pts x ≡ ok (ready_at x, t)) (sym wake)
          (schedule-mapped t pts (pts -ℤ offset) offset e
            ∙ schedule_at-deadline t pts now offset d u v here),
    )

abbrev Moves : RealtimeTiming → ℤ → ℤ → ℤ → Decision → RealtimeTiming → Type 0
Moves t pts now offset d u =
    (o : ℤ) × (u ≡ remap t o)
    × (d ≡ ready_at now)
    × (lead pts o now ≡ t.jitter_margin)
    × ((o <ℤ offset) ⊎ (t.discontinuity_threshold ≤ℤ lead pts offset now))

lead-candidate :
    (t : RealtimeTiming) (pts now : ℤ) → lead pts (candidate t pts now) now ≡ t.jitter_margin
lead-candidate t pts now = omega int_laws

late_candidate :
    (t : RealtimeTiming) (pts now offset : ℤ)
    → IsValid t.config
    → lead pts offset now <ℤ -ℤ◌ t.negative_time_tolerance
    → candidate t pts now <ℤ offset
late_candidate t pts now offset v h = omega int_laws

Outcome-Moves :
    (t : RealtimeTiming) (pts now offset : ℤ) (d : Decision) (u : RealtimeTiming)
    → IsValid t.config
    → Outcome (some offset) t pts now d u
    → (u ≡ t) ⊎ Moves t pts now offset d u
Outcome-Moves t pts now offset d u v (inl late) = inr (
  candidate t pts now,
  late.mapping
      ∙ ap (remap t) (min_ℤ-eq_right offset _ (late_candidate t pts now offset v late.range)),
  late.decision,
  lead-candidate t pts now,
  inl (late_candidate t pts now offset v late.range),
)
Outcome-Moves t pts now offset d u v (inr (inl jump)) =
    inr (candidate t pts now, jump.mapping, jump.decision, lead-candidate t pts now, inr jump.range)
Outcome-Moves t pts now offset d u v (inr (inr (inl drop))) = inl drop.mapping
Outcome-Moves t pts now offset d u v (inr (inr (inr (inl wait)))) = inl wait.mapping
Outcome-Moves t pts now offset d u v (inr (inr (inr (inr due)))) = inl due.mapping

-- Under a mapping that stands, a decision keeps the mapping, or makes the frame of the decision
-- ready and due by the jitter margin after now. The offset grows only at a forward jump.
pub offset_moves :
    (t : RealtimeTiming) (pts now offset : ℤ) (d : Decision) (u : RealtimeTiming)
    → IsValid t.config
    → t.offset_us ≡ some offset
    → schedule t pts now ≡ ok (d, u)
    → (u ≡ t)
      ⊎ ((o : ℤ) × (u ≡ remap t o)
          × (d ≡ ready_at now)
          × (lead pts o now ≡ t.jitter_margin)
          × ((o <ℤ offset) ⊎ (t.discontinuity_threshold ≤ℤ lead pts offset now)))
offset_moves t pts now offset d u v e h =
    Outcome-Moves t pts now offset d u v
      (subst (λ o. Outcome o t pts now d u) e (schedule-Outcome t pts now d u h))
