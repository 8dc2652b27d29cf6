-- ===== src/Interleaver/Order.antt =====
-- The comparator of `Push` as an order: by moment, then by track.
use mw_streamer.Base.{
  ◌≡◌, ◌⊎◌, inl, inr, true, false, List, ℕ, ◌≤◌, ℤ, pos, -ℤ◌, ◌≤ℤ◌, ◌<ℤ◌, eqb_ℤ, ltb_ℤ, arith,
  negℤ_parts, subst, sym, ltb_ℤ_cases, int_laws,
}
use mw_streamer.Ffmpeg.{TimeMath, IsOrder, AvPacket, IsTimeBase}
use mw_streamer.Interleaver.{Track, compare, before, track_order}

abbrev pub IsTimed : AvPacket → Type 0
IsTimed p = IsTimeBase p.time_base

module _ (m : TimeMath) (laws : IsOrder m) where
  -- `a` may stand before `b` in the queue.
  abbrev pub Precedes : List Track → AvPacket → AvPacket → Type 0
  Precedes tracks a b = before m tracks b a ≡ false

  abbrev pub NotLater : AvPacket → AvPacket → Type 0
  NotLater a b = compare m a b ≤ℤ pos 0

  swap : (a b : AvPacket) → IsTimed a → IsTimed b → compare m b a ≡ -ℤ◌ (compare m a b)
  swap a b ha hb = laws.compare_swap a.dts a.time_base b.dts b.time_base ha hb

  pub NotLater-trans :
      (a b c : AvPacket)
      → IsTimed a
      → IsTimed b
      → IsTimed c
      → NotLater a b
      → NotLater b c
      → NotLater a c
  NotLater-trans a b c ha hb hc =
      laws.compare_trans a.dts a.time_base b.dts b.time_base c.dts c.time_base ha hb hc

  -- The comparator's answer, as an order on the pair of moment and track.
  pub Precedes-cases :
      (tracks : List Track) (a b : AvPacket)
      → IsTimed a
      → IsTimed b
      → Precedes tracks a b
      → (compare m a b <ℤ pos 0)
        ⊎ ((compare m a b ≡ pos 0)
            × (track_order tracks a.stream_index ≤ track_order tracks b.stream_index))
  unfolding before eqb_ℤ ltb_ℤ
  Precedes-cases tracks a b ha hb h = ground (arith, swap a b ha hb, negℤ_parts (compare m a b))

  pub Precedes-of :
      (tracks : List Track) (a b : AvPacket)
      → IsTimed a
      → IsTimed b
      → (compare m a b <ℤ pos 0)
        ⊎ ((compare m a b ≡ pos 0)
            × (track_order tracks a.stream_index ≤ track_order tracks b.stream_index))
      → Precedes tracks a b
  unfolding before eqb_ℤ ltb_ℤ
  Precedes-of tracks a b ha hb h = ground (arith, swap a b ha hb, negℤ_parts (compare m a b))

  pub Precedes-NotLater :
      (tracks : List Track) (a b : AvPacket)
      → IsTimed a
      → IsTimed b
      → Precedes tracks a b
      → NotLater a b
  Precedes-NotLater tracks a b ha hb h = ground (arith, Precedes-cases tracks a b ha hb h)

  -- Among three packets in order the outer two are at one moment only if all are.
  ties :
      (a b c : AvPacket)
      → IsTimed a
      → IsTimed b
      → IsTimed c
      → NotLater a b
      → NotLater b c
      → pos 0 ≤ℤ compare m a c
      → (compare m a b ≡ pos 0) × (compare m b c ≡ pos 0) × (compare m a c ≡ pos 0)
  ties a b c ha hb hc h k l =
      let c_a : NotLater c a = subst (λ x. x ≤ℤ pos 0) (sym (swap a c ha hc)) (omega int_laws) in
      let b_a = NotLater-trans b c a hb hc ha k c_a in
      let c_b = NotLater-trans c a b hc ha hb c_a h in
      let x : -ℤ◌ (compare m a b) ≤ℤ pos 0 = subst (λ x. x ≤ℤ pos 0) (swap a b ha hb) b_a in
      let y : -ℤ◌ (compare m b c) ≤ℤ pos 0 = subst (λ x. x ≤ℤ pos 0) (swap b c hb hc) c_b in
      let z = NotLater-trans a b c ha hb hc h k in (omega int_laws, omega int_laws, omega int_laws)

  pub Precedes-trans :
      (tracks : List Track) (a b c : AvPacket)
      → IsTimed a
      → IsTimed b
      → IsTimed c
      → Precedes tracks a b
      → Precedes tracks b c
      → Precedes tracks a c
  Precedes-trans tracks a b c ha hb hc h k =
      let ab = Precedes-NotLater tracks a b ha hb h in
      let bc = Precedes-NotLater tracks b c hb hc k in
      Precedes-of tracks a c ha hc (elim (ltb_ℤ_cases (compare m a c) (pos 0)) [
        | inl (_, earlier) ↦ inl earlier
        | inr (_, late) ↦
            let (x, y, z) = ties a b c ha hb hc ab bc late in
            inr (
              z,
              ordered (compare m a b) (compare m b c) _ _ _ x y (Precedes-cases tracks a b ha hb h)
                  (Precedes-cases tracks b c hb hc k),
            )
      ])
    where
      ordered :
          (u v : ℤ) (i j k : ℕ)
          → u ≡ pos 0
          → v ≡ pos 0
          → (u <ℤ pos 0) ⊎ ((u ≡ pos 0) × (i ≤ j))
          → (v <ℤ pos 0) ⊎ ((v ≡ pos 0) × (j ≤ k))
          → i ≤ k
      ordered u v i j k p q r s = ground arith

  -- A packet that comes before another one does not come after it.
  pub before-Precedes :
      (tracks : List Track) (a b : AvPacket)
      → IsTimed a
      → IsTimed b
      → before m tracks a b ≡ true
      → Precedes tracks a b
  unfolding before eqb_ℤ ltb_ℤ
  before-Precedes tracks a b ha hb h = ground (arith, swap a b ha hb, negℤ_parts (compare m a b))
