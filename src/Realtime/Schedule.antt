-- ===== src/Realtime/Schedule.antt =====
-- What a decision of the realtime clock means, in exact integers.
use mw_streamer.Base.{
  ◌≡◌, refl, ◌⊎◌, inl, inr, int_laws, invalid_argument, Bool, true, false, Option, none, some, ℤ,
  pos, -ℤ◌, ◌-ℤ◌, ◌<ℤ◌, ◌≤ℤ◌, IsInt64, ok, err, overflow_error, arith, +ℤ_parts, -ℤ_parts, ltb_ℤ,
  leb_ℤ, int64_min, int64_max, min_ℤ, ltb_ℤ_cases, leb_ℤ_cases,
}
use mw_streamer.Realtime.{
  RealtimeConfig, RealtimeTiming, Decision, subtract, make, schedule, establish, schedule_at,
  compare_due, pick_offset, late_for_discard, bad_discard,
}

abbrev pub DiscardIsValid : Option ℤ → ℤ → Type 0
DiscardIsValid none tolerance = Unit {0}
DiscardIsValid (some d) tolerance = (pos 0 ≤ℤ d) × (d <ℤ tolerance)

-- The config passed the constructor's checks.
pub record IsValid (c : RealtimeConfig) : Type 0 where
  pub tolerance : pos 0 ≤ℤ c.negative_time_tolerance
  pub threshold : pos 0 <ℤ c.discontinuity_threshold
  pub jitter : pos 0 ≤ℤ c.jitter_margin
  pub jitter_below : c.jitter_margin <ℤ c.discontinuity_threshold
  pub discards : DiscardIsValid c.negative_time_discard c.negative_time_tolerance

discard_cases :
    (d : Option ℤ) (tolerance : ℤ)
    → (DiscardIsValid d tolerance × (bad_discard d tolerance ≡ false))
      ⊎ ((¬ DiscardIsValid d tolerance) × (bad_discard d tolerance ≡ true))
unfolding ltb_ℤ leb_ℤ
discard_cases none tolerance = inl (tt, refl)
discard_cases (some d) tolerance = ground arith

-- The constructor succeeds exactly on the valid configurations: on one it keeps the configuration
-- and has no mapping yet, and on any other it throws invalid_argument.
pub make-IsValid :
    (c : RealtimeConfig)
    → (IsValid c × (make c ≡ ok (record { config = c; offset_us = none })))
      ⊎ ((¬ IsValid c) × (make c ≡ err invalid_argument))
unfolding make
make-IsValid c = elim (ltb_ℤ_cases c.negative_time_tolerance (pos 0)) [
  | inl (e, h) ↦ inr (λ v. let l = v.tolerance in omega int_laws, rw e)
  | inr (e₁, h₁) ↦ elim (leb_ℤ_cases c.discontinuity_threshold (pos 0)) [
    | inl (e, h) ↦ inr (λ v. let l = v.threshold in omega int_laws, rw (e₁, e))
    | inr (e₂, h₂) ↦ elim (ltb_ℤ_cases c.jitter_margin (pos 0)) [
      | inl (e, h) ↦ inr (λ v. let l = v.jitter in omega int_laws, rw (e₁, e₂, e))
      | inr (e₃, h₃) ↦ elim (leb_ℤ_cases c.discontinuity_threshold c.jitter_margin) [
        | inl (e, h) ↦ inr (λ v. let l = v.jitter_below in omega int_laws, rw (e₁, e₂, e₃, e))
        | inr (e₄, h₄) ↦ elim (discard_cases c.negative_time_discard c.negative_time_tolerance) [
          | inr (h, e) ↦ inr (λ v. h v.discards, rw (e₁, e₂, e₃, e₄, e))
          | inl (h, e) ↦ inl (
            record {
              tolerance = omega int_laws;
              threshold = omega int_laws;
              jitter = omega int_laws;
              jitter_below = omega int_laws;
              discards = h;
            },
            rw (e₁, e₂, e₃, e₄, e),
          )
        ]
      ]
    ]
  ]
]

-- The checked difference is the exact one, and it throws exactly where that is no int64_t.
pub subtract-exact :
    (a b : ℤ)
    → IsInt64 a
    → IsInt64 b
    → ((subtract a b ≡ ok (a -ℤ b)) × IsInt64 (a -ℤ b))
      ⊎ ((subtract a b ≡ err overflow_error) × ¬ IsInt64 (a -ℤ b))
unfolding subtract ltb_ℤ
subtract-exact a b ha hb = ground (arith, -ℤ_parts a b, +ℤ_parts int64_min b, +ℤ_parts int64_max b)

pub subtract_cases : (a b : ℤ) → (subtract a b ≡ ok (a -ℤ b)) ⊎ (subtract a b ≡ err overflow_error)
unfolding subtract
subtract_cases a b = ground arith

abbrev pub candidate : RealtimeTiming → ℤ → ℤ → ℤ
candidate t pts now = pts -ℤ now -ℤ t.jitter_margin

abbrev pub ready_at : ℤ → Decision
ready_at now = record { ready = true; discard = false; wake_us = now }

abbrev pub drop_at : ℤ → Decision
drop_at now = record { ready = false; discard = true; wake_us = now }

abbrev pub wait_until : ℤ → Decision
wait_until due = record { ready = false; discard = false; wake_us = due }

abbrev pub remap : RealtimeTiming → ℤ → RealtimeTiming
remap t offset = record t { offset_us = some offset }

-- How far in the future the frame is due under a mapping.
abbrev pub lead : ℤ → ℤ → ℤ → ℤ
lead pts offset now = pts -ℤ offset -ℤ now

abbrev pub Drops : Option ℤ → ℤ → Type 0
Drops none difference = ⊥
Drops (some limit) difference = difference <ℤ -ℤ◌ limit

abbrev pub Keeps : Option ℤ → ℤ → Type 0
Keeps none difference = Unit {0}
Keeps (some limit) difference = -ℤ◌ limit ≤ℤ difference

-- The outcomes under a mapping that stands, each with the exact range that leads to it.
pub record TooLate (t : RealtimeTiming) (pts offset now : ℤ) (d : Decision) (u : RealtimeTiming)
    : Type 0 where
  pub range : lead pts offset now <ℤ -ℤ◌ t.negative_time_tolerance
  pub decision : d ≡ ready_at now
  pub mapping : u ≡ remap t (min_ℤ offset (candidate t pts now))

pub record Jumped (t : RealtimeTiming) (pts offset now : ℤ) (d : Decision) (u : RealtimeTiming)
    : Type 0 where
  pub range : t.discontinuity_threshold ≤ℤ lead pts offset now
  pub decision : d ≡ ready_at now
  pub mapping : u ≡ remap t (candidate t pts now)

pub record Dropped (t : RealtimeTiming) (pts offset now : ℤ) (d : Decision) (u : RealtimeTiming)
    : Type 0 where
  pub tolerated : -ℤ◌ t.negative_time_tolerance ≤ℤ lead pts offset now
  pub range : Drops t.negative_time_discard (lead pts offset now)
  pub decision : d ≡ drop_at now
  pub mapping : u ≡ t

pub record Waits (t : RealtimeTiming) (pts offset now : ℤ) (d : Decision) (u : RealtimeTiming)
    : Type 0 where
  pub future : pos 0 <ℤ lead pts offset now
  pub near : lead pts offset now <ℤ t.discontinuity_threshold
  pub decision : d ≡ wait_until (pts -ℤ offset)
  pub mapping : u ≡ t

pub record Due (t : RealtimeTiming) (pts offset now : ℤ) (d : Decision) (u : RealtimeTiming)
    : Type 0 where
  pub past : lead pts offset now ≤ℤ pos 0
  pub tolerated : -ℤ◌ t.negative_time_tolerance ≤ℤ lead pts offset now
  pub kept : Keeps t.negative_time_discard (lead pts offset now)
  pub decision : d ≡ ready_at now
  pub mapping : u ≡ t

abbrev pub Outcome : Option ℤ → RealtimeTiming → ℤ → ℤ → Decision → RealtimeTiming → Type 0
Outcome none t pts now d u = (d ≡ ready_at now) × (u ≡ remap t (candidate t pts now))
Outcome (some offset) t pts now d u =
    TooLate t pts offset now d u
    ⊎ (Jumped t pts offset now d u
        ⊎ (Dropped t pts offset now d u ⊎ (Waits t pts offset now d u ⊎ Due t pts offset now d u)))

establish-ok :
    (t : RealtimeTiming) (jump : Bool) (pts now : ℤ) (d : Decision) (u : RealtimeTiming)
    → establish t jump pts now ≡ ok (d, u)
    → (d ≡ ready_at now)
      × (u ≡ record t { offset_us = some (pick_offset t.offset_us jump (candidate t pts now)) })
unfolding establish
establish-ok t jump pts now d u h =
    ground (arith, subtract_cases pts now, subtract_cases (pts -ℤ now) t.jitter_margin)

pub late_for_discard_cases :
    (o : Option ℤ) (difference : ℤ)
    → ((late_for_discard o difference ≡ true) × Drops o difference)
      ⊎ ((late_for_discard o difference ≡ false) × Keeps o difference)
unfolding late_for_discard ltb_ℤ
late_for_discard_cases none difference = inr (refl, tt)
late_for_discard_cases (some d) difference = ground arith

compare_due-Outcome :
    (t : RealtimeTiming) (pts now offset : ℤ) (d : Decision) (u : RealtimeTiming)
    → t.offset_us ≡ some offset
    → compare_due t pts now (pts -ℤ offset) (pts -ℤ offset -ℤ now) ≡ ok (d, u)
    → Outcome (some offset) t pts now d u
unfolding compare_due
compare_due-Outcome t pts now offset d u e h = ground (
  arith,
  establish-ok t false pts now d u,
  establish-ok t true pts now d u,
  ltb_ℤ_cases (lead pts offset now) (-ℤ◌ t.negative_time_tolerance),
  leb_ℤ_cases t.discontinuity_threshold (lead pts offset now),
  late_for_discard_cases t.negative_time_discard (lead pts offset now),
  ltb_ℤ_cases (pos 0) (lead pts offset now),
)

pub schedule_at-Outcome :
    (o : Option ℤ) (t : RealtimeTiming) (pts now : ℤ) (d : Decision) (u : RealtimeTiming)
    → t.offset_us ≡ o
    → schedule_at o t pts now ≡ ok (d, u)
    → Outcome o t pts now d u
unfolding schedule_at
schedule_at-Outcome none t pts now d u e h = ground (arith, establish-ok t false pts now d u)
schedule_at-Outcome (some offset) t pts now d u e h =
    compare_due-Outcome t pts now offset d u e
      (ground (arith, subtract_cases pts offset, subtract_cases (pts -ℤ offset) now))

-- Every decision that does not throw is one of the outcomes.
pub schedule-Outcome :
    (t : RealtimeTiming) (pts now : ℤ) (d : Decision) (u : RealtimeTiming)
    → schedule t pts now ≡ ok (d, u)
    → Outcome t.offset_us t pts now d u
schedule-Outcome t pts now d u h =
    schedule_at-Outcome t.offset_us t pts now d u refl (unfold schedule in h)
