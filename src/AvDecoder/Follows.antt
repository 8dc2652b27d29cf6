-- ===== src/AvDecoder/Follows.antt =====
-- How the state of a decoder stands to the loop run by itself.
use mw_streamer.Base.{
  ◌≡◌, refl, ap, subst, ◌∙◌, Bool, true, false, not, ◌&&◌, Option, none, some, List, [], ◌∷◌, ◌++◌,
  suc, append_nil, if◌then◌else◌,
}
use mathlib.Core.Option.{some-injective}
use mw_streamer.Ffmpeg.{TimeMath, StreamInfo}
use mw_streamer.Media.{ReadResult}
use mw_streamer.BlockingQueue.Outcomes.{
  PushEnd, push-PushEnd, waits, fits, is_shut, expires, breaks,
}
use mw_streamer.BlockingQueue.{Done, pop, try_pop, pop_from, can_pop, close}
use mw_streamer.AvDecoder.{AvDecoder, Phase}
use mw_streamer.AvDecoder.Loop.{Codec, Failure, Core, Input, Reaction, mark, turn, consume}
use mw_streamer.AvDecoder.Worker.{act, emit_done, pop_done, work_from}
use mw_streamer.AvDecoder.Reference.{Sequence, alone, answer, pass}
use mw_streamer.AvDecoder.Standing.{Comes, Follows, FollowsOf, after_outs, after_outs-snoc}

module _ {S : Type 0} (m : TimeMath) (info : StreamInfo) (c : Codec S) (codec : S) where
  -- One more step of the loop by itself.
  goes_on :
      (ins : List Input) (q t : Sequence S)
      → Comes m info c codec ins q
      → pass m info c q.wants q.core q.pending q.outputs ≡ some t
      → Comes m info c codec ins t
  unfolding alone
  goes_on ins q t f h = record { count = suc f.count; reached = rw f.reached h }

  pub act-Follows :
      (r : Reaction S) (wants : Bool) (core : Core S) (pending : List Input) (s : AvDecoder S)
      (ins : List Input) (outs : List ReadResult)
      → s.stopping ≡ false
      → Comes m info c codec ins
          (record { core = core; wants = wants; pending = pending; outputs = after_outs s outs [] })
      → pass m info c wants core pending (after_outs s outs [])
        ≡ answer r s.packets.queue (after_outs s outs [])
      → Follows m info c codec (act r s) ins outs
  act-Follows (Reaction.wants core) wants old pending s ins outs live f h =
      rw live (goes_on ins _ _ f h)
  act-Follows (Reaction.continues core) wants old pending s ins outs live f h =
      rw live (goes_on ins _ _ f h)
  act-Follows (Reaction.fails core e) wants old pending s ins outs live f h =
      rw live (record { sequence = _; comes = f; lost = []; outputs = refl })
  act-Follows (Reaction.emits core r ends) wants old pending s ins outs live f h = rw live (
      goes_on ins _ _ f (
        h
        ∙ ap
            (λ x. some (record {
              core = mark ends core;
              wants = false;
              pending = s.packets.queue;
              outputs = x;
            }))
            (after_outs-snoc s outs r)))

  -- A section of the worker, by where it stands.
  pub work-live :
      (ph : Phase) (s t : AvDecoder S) (throws : Bool) (ins : List Input) (outs : List ReadResult)
      → s.stopping ≡ false
      → FollowsOf m info c codec false ph s ins outs
      → work_from m info c ph s throws ≡ some t
      → Follows m info c codec t ins outs
  unfolding pop try_pop close
  work-live Phase.looping s t throws ins outs live f k =
      subst (λ x. Follows m info c codec x ins outs) (some-injective _ _ k)
        (by_stop s.stopping live)
    where
      by_throw :
          (stuck : Bool)
          → Follows m info c codec
              (if stuck
                then record s { phase = Phase.failing Failure.other }
                else act (turn m info c s.core) s)
              ins
              outs
      by_throw true = rw live (record { sequence = _; comes = f; lost = []; outputs = refl })
      by_throw false = act-Follows (turn m info c s.core) false s.core _ s ins outs live f refl

      by_stop :
          (stop : Bool)
          → stop ≡ false
          → Follows m info c codec
              (if stop
                then record s { phase = Phase.exited }
                else if throws && (s.core.started && not s.core.drained)
                then record s { phase = Phase.failing Failure.other }
                else act (turn m info c s.core) s)
              ins
              outs
      by_stop true e = cc
      by_stop false e = by_throw (throws && (s.core.started && not s.core.drained))
  work-live (Phase.holding input) s t throws ins outs live f k =
      subst (λ x. Follows m info c codec x ins outs) (some-injective _ _ k)
        (by_stop s.stopping live)
    where
      by_stop :
          (stop : Bool)
          → stop ≡ false
          → Follows m info c codec
              (if stop then record s { phase = Phase.exited } else act (consume c s.core input) s)
              ins
              outs
      by_stop true e = cc
      by_stop false e = act-Follows (consume c s.core input) true s.core _ s ins outs live f refl
  work-live Phase.popping s t throws ins outs live f k =
      by_can (can_pop s.packets) s.packets.queue refl k
    where
      by_can :
          (can : Bool) (q : List Input)
          → s.packets.queue ≡ q
          → pop_done (if can then some (pop_from q s.packets false) else none) s ≡ some t
          → Follows m info c codec t ins outs
      by_can false q e k = cc
      by_can true [] e k =
          subst (λ x. Follows m info c codec x ins outs) (some-injective _ _ k)
            (rw live (record { sequence = _; comes = f; lost = []; outputs = refl }))
      by_can true (input ∷ rest) e k =
          subst (λ x. Follows m info c codec x ins outs) (some-injective _ _ k)
            (rw live (record {
              count = f.count;
              reached =
                  f.reached
                  ∙ ap
                      (λ x. some (record {
                        core = s.core;
                        wants = true;
                        pending = x;
                        outputs = after_outs s outs [];
                      }))
                      e;
            }))
  work-live (Phase.emitting r ends) s t throws ins outs live f k =
      by_end _ (push-PushEnd s.frames r throws false) k
    where
      by_end :
          (d : Option (Done ReadResult))
          → PushEnd s.frames r false d
          → emit_done d ends s ≡ some t
          → Follows m info c codec t ins outs
      by_end none waits k = cc
      by_end (some done) (fits _ open_yet o q) k =
          subst (λ x. Follows m info c codec x ins outs) (some-injective _ _ k)
            (rw o (
              rw live (record {
                count = f.count;
                reached = rw q (rw (append_nil (s.frames.queue ++ r ∷ [])) f.reached);
              })))
      by_end (some done) (is_shut _ shut o q) k =
          subst (λ x. Follows m info c codec x ins outs) (some-injective _ _ k)
            (rw o
              (rw live (rw q (record { sequence = _; comes = f; lost = r ∷ []; outputs = refl }))))
      by_end (some done) (expires _ late o q) k =
          subst (λ x. Follows m info c codec x ins outs) (some-injective _ _ k)
            (rw o
              (rw live (rw q (record { sequence = _; comes = f; lost = r ∷ []; outputs = refl }))))
      by_end (some done) (breaks _ open_yet o q) k =
          subst (λ x. Follows m info c codec x ins outs) (some-injective _ _ k)
            (rw o
              (rw live (rw q (record { sequence = _; comes = f; lost = r ∷ []; outputs = refl }))))
  work-live (Phase.failing e) s t throws ins outs live f k =
      subst (λ x. Follows m info c codec x ins outs) (some-injective _ _ k) (rw live f)
  work-live (Phase.closing_packets b) s t throws ins outs live f k =
      subst (λ x. Follows m info c codec x ins outs) (some-injective _ _ k) (rw live f)
  work-live (Phase.closing_frames b) s t throws ins outs live f k =
      subst (λ x. Follows m info c codec x ins outs) (some-injective _ _ k) (rw live f)
  work-live (Phase.discarding b) s t throws ins outs live f k =
      subst (λ x. Follows m info c codec x ins outs) (some-injective _ _ k) (rw live f)
  work-live (Phase.calling b) s t throws ins outs live f k =
      subst (λ x. Follows m info c codec x ins outs) (some-injective _ _ k) (rw live f)
  work-live Phase.exited s t throws ins outs live f k = cc
