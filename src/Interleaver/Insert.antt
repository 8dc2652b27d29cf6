-- ===== src/Interleaver/Insert.antt =====
-- The insertion of `Push`: the order of the queue, and the packets of one track.
use mw_streamer.Base.{
  ◌≡◌, refl, ap, subst, inl, inr, true, false, List, [], ◌∷◌, ◌++◌, ℤ, All, Pairwise, AllPairs,
  arith, Bool-cases, if◌then◌else◌, eqb_ℤ_cases, eqb_ℤ_self,
}
use mathlib.Core.List.{append-nil}
use mw_streamer.Ffmpeg.{TimeMath, IsOrder, AvPacket}
use mw_streamer.Interleaver.{Track, before, insert, of_track}
use mw_streamer.Interleaver.Order.{IsTimed, Precedes, Precedes-trans, before-Precedes}

-- The packets of one track, in the order of the queue.
pub select : ℤ → List AvPacket → List AvPacket
select index [] = []
select index (p ∷ ps) = if of_track index p then p ∷ select index ps else select index ps

module _ (m : TimeMath) where
  pub insert-All {ℓ} :
      (P : AvPacket → Type ℓ) (tracks : List Track) (item : AvPacket) (queue : List AvPacket)
      → P item
      → All P queue
      → All P (insert m tracks item queue)
  unfolding insert
  insert-All P tracks item [] h k = (h, tt)
  insert-All P tracks item (p ∷ ps) h k = elim (Bool-cases (before m tracks item p)) [
    | inl e ↦ rw e (h, k)
    | inr e ↦ rw e (k.0, insert-All P tracks item ps h k.1)
  ]

  pub insert-AllPairs :
      (R : AvPacket → AvPacket → Type 0) (tracks : List Track) (item : AvPacket)
      (out queue : List AvPacket)
      → All (λ e. R e item) out
      → AllPairs R out queue
      → AllPairs R out (insert m tracks item queue)
  insert-AllPairs R tracks item [] queue h k = tt
  insert-AllPairs R tracks item (e ∷ out) queue h k =
      (insert-All (R e) tracks item queue h.0 k.0, insert-AllPairs R tracks item out queue h.1 k.1)

module _ (m : TimeMath) (laws : IsOrder m) where
  -- What precedes the head of a sorted queue precedes all of it.
  Precedes-All :
      (tracks : List Track) (a p : AvPacket) (ps : List AvPacket)
      → IsTimed a
      → IsTimed p
      → Precedes m laws tracks a p
      → All IsTimed ps
      → All (Precedes m laws tracks p) ps
      → All (Precedes m laws tracks a) ps
  Precedes-All tracks a p [] ha hp h t s = tt
  Precedes-All tracks a p (q ∷ ps) ha hp h t s = (
    Precedes-trans m laws tracks a p q ha hp t.0 h s.0,
    Precedes-All tracks a p ps ha hp h t.1 s.1,
  )

  pub insert-Pairwise :
      (tracks : List Track) (item : AvPacket) (queue : List AvPacket)
      → IsTimed item
      → All IsTimed queue
      → Pairwise (Precedes m laws tracks) queue
      → Pairwise (Precedes m laws tracks) (insert m tracks item queue)
  unfolding insert
  insert-Pairwise tracks item [] hi t s = (tt, tt)
  insert-Pairwise tracks item (p ∷ ps) hi t s = elim (Bool-cases (before m tracks item p)) [
    | inl e ↦
        let ahead = before-Precedes m laws tracks item p hi t.0 e in
        rw e ((ahead, Precedes-All tracks item p ps hi t.0 ahead t.1 s.0), s)
    | inr e ↦ rw e (
      insert-All m (Precedes m laws tracks p) tracks item ps e s.0,
      insert-Pairwise tracks item ps hi t.1 s.1,
    )
  ]

  -- Packets of the item's track that are queued precede it.
  abbrev pub Behind : List Track → AvPacket → AvPacket → Type 0
  Behind tracks item q = of_track item.stream_index q ≡ true → Precedes m laws tracks q item

  none_after :
      (tracks : List Track) (item p : AvPacket) (ps : List AvPacket)
      → IsTimed item
      → IsTimed p
      → before m tracks item p ≡ true
      → All IsTimed ps
      → All (Precedes m laws tracks p) ps
      → All (Behind tracks item) ps
      → select item.stream_index ps ≡ []
  unfolding select
  none_after tracks item p [] hi hp e t s b = refl
  none_after tracks item p (q ∷ ps) hi hp e t s b =
      elim (Bool-cases (of_track item.stream_index q)) [
        | inl own ↦ absurd (clash (Precedes-trans m laws tracks p q item hp t.0 hi s.0 (b.0 own)))
        | inr _own ↦ rw _own (none_after tracks item p ps hi hp e t.1 s.1 b.1)
      ]
    where
      clash : before m tracks item p ≡ false → ⊥
      clash f = cc

  none_from :
      (tracks : List Track) (item p : AvPacket) (ps : List AvPacket)
      → IsTimed item
      → All IsTimed (p ∷ ps)
      → before m tracks item p ≡ true
      → Pairwise (Precedes m laws tracks) (p ∷ ps)
      → All (Behind tracks item) (p ∷ ps)
      → select item.stream_index (p ∷ ps) ≡ []
  none_from tracks item p ps hi t e s b = elim (Bool-cases (of_track item.stream_index p)) [
    | inl own ↦ absurd (clash (b.0 own))
    | inr _own ↦ unfold select in rw _own (none_after tracks item p ps hi t.0 e t.1 s.0 b.1)
  ]
    where
      clash : before m tracks item p ≡ false → ⊥
      clash f = cc

  select-insert_self :
      (tracks : List Track) (item : AvPacket) (queue : List AvPacket)
      → IsTimed item
      → All IsTimed queue
      → Pairwise (Precedes m laws tracks) queue
      → All (Behind tracks item) queue
      → select item.stream_index (insert m tracks item queue)
        ≡ select item.stream_index queue ++ item ∷ []
  unfolding insert
  select-insert_self tracks item [] hi t s b = unfold select in rw (eqb_ℤ_self item.stream_index)
  select-insert_self tracks item (p ∷ ps) hi t s b = elim (Bool-cases (before m tracks item p)) [
    | inl e ↦
        rw (e, none_from tracks item p ps hi t e s b)
          (unfold select in
            rw (eqb_ℤ_self item.stream_index)
              (unfold select in none_self (none_from tracks item p ps hi t e s b)))
    | inr e ↦ rw e (step (select-insert_self tracks item ps hi t.1 s.1 b.1))
  ]
    where
      none_self :
          select item.stream_index (p ∷ ps) ≡ []
          → item ∷ select item.stream_index (p ∷ ps) ≡ item ∷ []
      none_self h = ap (◌∷◌ item) h

      step :
          select item.stream_index (insert m tracks item ps)
            ≡ select item.stream_index ps ++ item ∷ []
          → select item.stream_index (p ∷ insert m tracks item ps)
            ≡ select item.stream_index (p ∷ ps) ++ item ∷ []
      step h = unfold select in ground arith

  select-insert_other :
      (tracks : List Track) (item : AvPacket) (queue : List AvPacket) (index : ℤ)
      → of_track index item ≡ false
      → select index (insert m tracks item queue) ≡ select index queue
  unfolding insert select
  select-insert_other tracks item [] index h = rw h
  select-insert_other tracks item (p ∷ ps) index h =
      ground (arith, select-insert_other tracks item ps index h)

  -- A new packet goes behind all packets of its track, and moves none of another track.
  pub select-insert :
      (tracks : List Track) (item : AvPacket) (queue : List AvPacket) (index : ℤ)
      → IsTimed item
      → All IsTimed queue
      → Pairwise (Precedes m laws tracks) queue
      → All (Behind tracks item) queue
      → select index (insert m tracks item queue)
        ≡ select index queue ++ (if of_track index item then item ∷ [] else [])
  select-insert tracks item queue index hi t s b = elim (eqb_ℤ_cases item.stream_index index) [
    | inl (e, same) ↦ rw e (
        subst (λ j. select j (insert m tracks item queue) ≡ select j queue ++ item ∷ []) same
          (select-insert_self tracks item queue hi t s b))
    | inr (e, _) ↦ rw (e, append-nil) (select-insert_other tracks item queue index e)
  ]
