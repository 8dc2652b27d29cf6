-- ===== src/AvDecoder/Schedules.antt =====
-- Two decoders that are given the same inputs deliver the same.
use mw_streamer.Base.{
  ◌≡◌, refl, ap, sym, subst, ◌∙◌, Bool, true, false, Option, none, some, List, [], ◌∷◌, ◌++◌, ℕ,
  zero, suc, ◌+◌, ◌-◌, ◌≤◌, ◌⊎◌, inl, inr, ++-assoc, append_nil, arith,
}
use mathlib.Core.Option.{some-injective}
use mw_streamer.Ffmpeg.{TimeMath, StreamInfo}
use mw_streamer.Media.{ReadResult}
use mw_streamer.AvDecoder.{AvDecoder}
use mw_streamer.AvDecoder.Loop.{Codec, Core, Input, Reaction, turn, consume}
use mw_streamer.AvDecoder.Reference.{Sequence, alone, answer, pass, advance}
use mw_streamer.AvDecoder.Runs.{Run}
use mw_streamer.AvDecoder.Standing.{Begins}
use mw_streamer.AvDecoder.Delivery.{Run-Begins, Run-BeginsReturned}
use mw_streamer.AvDecoder.Returned.{holds}

-- The second list begins with the first.
pub record IsPrefix {ℓ} {A : Type ℓ} (xs ys : List A) : Type ℓ where
  pub rest : List A
  pub whole : ys ≡ xs ++ rest

module _ {ℓ} {A : Type ℓ} where
  prefix_trans : (xs ys zs : List A) → IsPrefix xs ys → IsPrefix ys zs → IsPrefix xs zs
  prefix_trans xs ys zs p q = record {
    rest = p.rest ++ q.rest;
    whole = q.whole ∙ ap (λ x. x ++ q.rest) p.whole ∙ ++-assoc xs p.rest q.rest;
  }

  prefix_cons : (x : A) (xs ys : List A) → IsPrefix xs ys → IsPrefix (x ∷ xs) (x ∷ ys)
  prefix_cons x xs ys p = record { rest = p.rest; whole = ap (λ t. x ∷ t) p.whole }

  -- Two beginnings of one list.
  comparable :
      (xs ys zs : List A) → IsPrefix xs zs → IsPrefix ys zs → IsPrefix xs ys ⊎ IsPrefix ys xs
  comparable [] ys zs p q = inl (record { rest = ys; whole = refl })
  comparable (x ∷ xs) [] zs p q = inr (record { rest = x ∷ xs; whole = refl })
  comparable (x ∷ xs) (y ∷ ys) [] p q = let e = p.whole in cc
  comparable (x ∷ xs) (y ∷ ys) (z ∷ zs) p q =
      let e : z ≡ x = let h = p.whole in cc in
      let f : z ≡ y = let h = q.whole in cc in
      let p' : IsPrefix xs zs = record { rest = p.rest; whole = let h = p.whole in cc } in
      let q' : IsPrefix ys zs = record { rest = q.rest; whole = let h = q.whole in cc } in
      elim (comparable xs ys zs p' q') [
        | inl a ↦ inl (subst (λ t. IsPrefix (x ∷ xs) (t ∷ ys)) (sym e ∙ f) (prefix_cons x xs ys a))
        | inr a ↦ inr (subst (λ t. IsPrefix (t ∷ ys) (x ∷ xs)) (sym e ∙ f) (prefix_cons x ys xs a))
      ]

zero_left : (n : ℕ) → 0 + n ≡ n
zero_left n = omega arith

suc_left : (k n : ℕ) → suc k + n ≡ suc (k + n)
suc_left k n = omega arith

total : (a b : ℕ) → (a ≤ b) ⊎ (b ≤ a)
total a b = ground arith

module _ {S : Type 0} (m : TimeMath) (info : StreamInfo) (c : Codec S) (codec : S) where
  answer-grows :
      (r : Reaction S) (ins : List Input) (outs : List ReadResult) (q : Sequence S)
      → answer r ins outs ≡ some q
      → IsPrefix outs q.outputs
  answer-grows (Reaction.wants core) ins outs q h =
      subst (λ x. IsPrefix outs x.outputs) (some-injective _ _ h)
        (record { rest = []; whole = sym (append_nil outs) })
  answer-grows (Reaction.emits core r ends) ins outs q h =
      subst (λ x. IsPrefix outs x.outputs) (some-injective _ _ h)
        (record { rest = r ∷ []; whole = refl })
  answer-grows (Reaction.fails core e) ins outs q h = cc
  answer-grows (Reaction.continues core) ins outs q h =
      subst (λ x. IsPrefix outs x.outputs) (some-injective _ _ h)
        (record { rest = []; whole = sym (append_nil outs) })

  pass-grows :
      (wants : Bool) (core : Core S) (ins : List Input) (outs : List ReadResult) (q : Sequence S)
      → pass m info c wants core ins outs ≡ some q
      → IsPrefix outs q.outputs
  pass-grows true core [] outs q h = cc
  pass-grows true core (input ∷ rest) outs q h = answer-grows (consume c core input) rest outs q h
  pass-grows false core ins outs q h = answer-grows (turn m info c core) ins outs q h

  alone-grows :
      (n k : ℕ) (ins : List Input) (p q : Sequence S)
      → alone m info c n codec ins ≡ some p
      → alone m info c (k + n) codec ins ≡ some q
      → IsPrefix p.outputs q.outputs
  unfolding alone
  alone-grows n zero ins p q hp hq =
      subst (λ x. IsPrefix p.outputs x.outputs)
        (some-injective _ _
          (sym hp ∙ subst (λ x. alone m info c x codec ins ≡ some q) (zero_left n) hq))
        (record { rest = []; whole = sym (append_nil p.outputs) })
  alone-grows n (suc k) ins p q hp hq =
      by_before _ refl (λ t. alone-grows n k ins p t hp)
        (subst (λ x. alone m info c x codec ins ≡ some q) (suc_left k n) hq)
    where
      by_before :
          (before : Option (Sequence S))
          → alone m info c (k + n) codec ins ≡ before
          → ((t : Sequence S)
              → alone m info c (k + n) codec ins ≡ some t
              → IsPrefix p.outputs t.outputs)
          → advance m info c before ≡ some q
          → IsPrefix p.outputs q.outputs
      by_before none e f h = cc
      by_before (some t) e f h =
          prefix_trans p.outputs t.outputs q.outputs (f t e)
            (pass-grows t.wants t.core t.pending t.outputs q h)

  later :
      (n k : ℕ) (ins : List Input) (p q : Sequence S)
      → n ≤ k
      → alone m info c n codec ins ≡ some p
      → alone m info c k codec ins ≡ some q
      → IsPrefix p.outputs q.outputs
  later n k ins p q le hp hq =
      alone-grows n (k - n) ins p q hp
        (subst (λ x. alone m info c x codec ins ≡ some q) (omega (arith, le)) hq)

  begins_prefix :
      {ins : List Input} {outs : List ReadResult} (b : Begins m info c codec ins outs)
      → IsPrefix outs b.sequence.outputs
  begins_prefix b = record { rest = b.rest; whole = b.outputs }

  agree :
      {ins : List Input} (outs outs' : List ReadResult)
      → Begins m info c codec ins outs
      → Begins m info c codec ins outs'
      → IsPrefix outs outs' ⊎ IsPrefix outs' outs
  agree {ins} outs outs' b b' = elim (total b.comes.count b'.comes.count) [
    | inl le ↦
        comparable outs outs' _
          (prefix_trans _ _ _ (begins_prefix b)
            (later _ _ ins _ _ le b.comes.reached b'.comes.reached))
          (begins_prefix b')
    | inr le ↦ comparable outs outs' _ (begins_prefix b) (
        prefix_trans _ _ _ (begins_prefix b')
          (later _ _ ins _ _ le b'.comes.reached b.comes.reached))
  ]

  -- Two decoders of the same stream with the same codec, which were given the same inputs, agree as
  -- far as both have come, whatever their capacities, the schedules of their threads, and their
  -- stops: of the frames and ends that ReadFrame has returned, those of one begin with those of the
  -- other; and so do they with the result that a reader has taken and those in the queue put after
  -- them, for a decoder that was not asked to stop.
  pub schedules_agree :
      {s t : AvDecoder S} {ins : List Input} {outs outs' : List ReadResult}
      → Run m info c codec s ins outs
      → Run m info c codec t ins outs'
      → (IsPrefix outs outs' ⊎ IsPrefix outs' outs)
        × (IsPrefix (holds s.stopping s outs) (holds t.stopping t outs')
            ⊎ IsPrefix (holds t.stopping t outs') (holds s.stopping s outs))
  schedules_agree {s} {t} {outs = outs} {outs' = outs'} r r' = (
    agree outs outs' (Run-BeginsReturned m info c codec r) (Run-BeginsReturned m info c codec r'),
    agree (holds s.stopping s outs) (holds t.stopping t outs') (Run-Begins m info c codec r)
        (Run-Begins m info c codec r'),
  )
