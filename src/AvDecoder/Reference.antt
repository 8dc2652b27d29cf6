-- ===== src/AvDecoder/Reference.antt =====
-- The loop of the decoder run by itself: on a list of inputs, with a list for the results, without
-- queues, threads and stops. What the concurrent decoder is compared with.
use mw_streamer.Base.{
  ◌≡◌, refl, ap, Bool, true, false, Option, none, some, List, [], ◌∷◌, ◌++◌, ℕ, zero, suc,
}
use mathlib.Core.Option.{some-injective}
use mw_streamer.Ffmpeg.{TimeMath, StreamInfo}
use mw_streamer.Media.{ReadResult}
use mw_streamer.AvDecoder.Loop.{Codec, Core, Input, Reaction, fresh_core, mark, turn, consume}

-- `wants`: the loop needs an input.
pub record Sequence (S : Type 0) : Type 0 where
  pub core : Core S
  pub wants : Bool
  pub pending : List Input
  pub outputs : List ReadResult

module _ {S : Type 0} where
  abbrev pub answer : Reaction S → List Input → List ReadResult → Option (Sequence S)
  answer (Reaction.wants core) ins outs =
      some (record { core = core; wants = true; pending = ins; outputs = outs })
  answer (Reaction.emits core result ends) ins outs = some (record {
    core = mark ends core;
    wants = false;
    pending = ins;
    outputs = outs ++ result ∷ [];
  })
  answer (Reaction.fails core e) ins outs = none
  answer (Reaction.continues core) ins outs =
      some (record { core = core; wants = false; pending = ins; outputs = outs })

  abbrev pub start_alone : S → List Input → Sequence S
  start_alone codec ins = record {
    core = fresh_core codec;
    wants = false;
    pending = ins;
    outputs = [];
  }

  abbrev pub extend : Sequence S → List Input → Sequence S
  extend q more = record q { pending = q.pending ++ more }

  answer-extend :
      (r : Reaction S) (ins more : List Input) (outs : List ReadResult) (q : Sequence S)
      → answer r ins outs ≡ some q
      → answer r (ins ++ more) outs ≡ some (extend q more)
  answer-extend (Reaction.wants core) ins more outs q h =
      ap (λ x. some (extend x more)) (some-injective _ _ h)
  answer-extend (Reaction.emits core result ends) ins more outs q h =
      ap (λ x. some (extend x more)) (some-injective _ _ h)
  answer-extend (Reaction.fails core e) ins more outs q h = cc
  answer-extend (Reaction.continues core) ins more outs q h =
      ap (λ x. some (extend x more)) (some-injective _ _ h)

module _ {S : Type 0} (m : TimeMath) (info : StreamInfo) (c : Codec S) where
  abbrev pub take : Core S → List Input → List ReadResult → Option (Sequence S)
  take core [] outs = none
  take core (input ∷ rest) outs = answer (consume c core input) rest outs

  abbrev pub pass : Bool → Core S → List Input → List ReadResult → Option (Sequence S)
  pass true core ins outs = take core ins outs
  pass false core ins outs = answer (turn m info c core) ins outs

  abbrev pub advance : Option (Sequence S) → Option (Sequence S)
  advance none = none
  advance (some q) = pass q.wants q.core q.pending q.outputs

  -- That many halves of passes; none where the codec has failed or the inputs ran out before.
  unfoldable pub alone : ℕ → S → List Input → Option (Sequence S)
  alone zero codec ins = some (start_alone codec ins)
  alone (suc n) codec ins = advance (alone n codec ins)

  take-extend :
      (core : Core S) (ins more : List Input) (outs : List ReadResult) (t : Sequence S)
      → take core ins outs ≡ some t
      → take core (ins ++ more) outs ≡ some (extend t more)
  take-extend core [] more outs t h = cc
  take-extend core (input ∷ rest) more outs t h =
      answer-extend (consume c core input) rest more outs t h

  pass-extend :
      (wants : Bool) (core : Core S) (ins more : List Input) (outs : List ReadResult)
      (t : Sequence S)
      → pass wants core ins outs ≡ some t
      → pass wants core (ins ++ more) outs ≡ some (extend t more)
  pass-extend true core ins more outs t h = take-extend core ins more outs t h
  pass-extend false core ins more outs t h = answer-extend (turn m info c core) ins more outs t h

  -- Inputs that come later do not change what was done before.
  pub alone-extend :
      (n : ℕ) (codec : S) (ins more : List Input) (q : Sequence S)
      → alone n codec ins ≡ some q
      → alone n codec (ins ++ more) ≡ some (extend q more)
  unfolding alone
  alone-extend zero codec ins more q h = ap (λ x. some (extend x more)) (some-injective _ _ h)
  alone-extend (suc n) codec ins more q h =
      by_before (alone n codec ins) refl (alone-extend n codec ins more) h
    where
      by_before :
          (before : Option (Sequence S))
          → alone n codec ins ≡ before
          → ((p : Sequence S)
              → alone n codec ins ≡ some p
              → alone n codec (ins ++ more) ≡ some (extend p more))
          → advance before ≡ some q
          → advance (alone n codec (ins ++ more)) ≡ some (extend q more)
      by_before none e rest h = cc
      by_before (some p) e rest h =
          rw (rest p e) (pass-extend p.wants p.core p.pending more p.outputs q h)
