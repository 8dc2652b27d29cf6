-- ===== src/AvDecoder/Nearing.antt =====
-- How a section of the worker nears its end, once RequestStop is over.
use mw_streamer.Base.{
  ◌≡◌, refl, subst, ◌∙◌, ◌⊎◌, Bool, true, false, inl, inr, Option, none, some, List, [], ◌∷◌, ℕ,
  ◌≤◌, ◌<◌, arith, if◌then◌else◌,
}
use mathlib.Core.Option.{some-injective}
use mw_streamer.Ffmpeg.{TimeMath, StreamInfo}
use mw_streamer.Media.{ReadResult}
use mw_streamer.BlockingQueue.{
  BlockingQueue, Done, push, pop, try_pop, pop_from, can_pop, can_push, close,
}
use mw_streamer.BlockingQueue.Outcomes.{
  PushEnd, push-PushEnd, waits, fits, is_shut, expires, breaks,
}
use mw_streamer.AvDecoder.{AvDecoder, Phase, discard}
use mw_streamer.AvDecoder.Loop.{Codec, Input}
use mw_streamer.AvDecoder.Worker.{work_from, pop_done, emit_done}
use mw_streamer.AvDecoder.Sections.{Moved}

pub discard-closed {ℓ} :
    {A : Type ℓ} (xs : List A) (q : BlockingQueue A)
    → q.queue ≡ xs
    → (discard xs q).closed ≡ q.closed
unfolding try_pop
discard-closed [] q e = rw e refl
discard-closed (x ∷ xs) q e = rw e (discard-closed xs (record q { queue = xs }) refl)

-- How many sections the worker has left at most.
abbrev pub sections_left : Phase → ℕ
sections_left Phase.looping = 1
sections_left Phase.popping = 2
sections_left (Phase.holding input) = 1
sections_left (Phase.emitting r ends) = 1
sections_left (Phase.failing e) = 5
sections_left (Phase.closing_packets b) = 4
sections_left (Phase.closing_frames b) = 3
sections_left (Phase.discarding b) = 2
sections_left (Phase.calling b) = 1
sections_left Phase.exited = 0

pub sections_left-le : (ph : Phase) → sections_left ph ≤ 5
sections_left-le ph = ground arith

module _ {S : Type 0} where
  -- RequestStop is over.
  pub record IsShut (s : AvDecoder S) : Type 0 where
    pub stops : s.stopping ≡ true
    pub packets_end : s.packets.closed ≡ true
    pub frames_end : s.frames.closed ≡ true

  -- A section of another thread: the worker stands where it stood.
  pub record Stays (s t : AvDecoder S) : Type 0 where
    pub shut : IsShut t
    pub phase_same : t.phase ≡ s.phase

  pub Moved-Stays :
      (s t : AvDecoder S) (more : List Input) (outs outs' : List ReadResult)
      → IsShut s
      → Moved s t more outs outs'
      → Stays s t
  Moved-Stays s t more outs outs' h v = record {
    shut = record {
      stops = v.stop_same ∙ h.stops;
      packets_end = v.packets_shut ∙ h.packets_end;
      frames_end = v.frames_shut ∙ h.frames_end;
    };
    phase_same = v.phase_same;
  }

  pub closed_by :
      (s t u : AvDecoder S) (on : Bool)
      → Stays s u
      → (if on then some u else none) ≡ some t
      → Stays s t
  closed_by s t u true h k = subst (Stays s) (some-injective _ _ k) h
  closed_by s t u false h k = cc

  -- A section of the worker.
  pub record Nears (ph : Phase) (t : AvDecoder S) : Type 0 where
    pub shut : IsShut t
    pub nearer : sections_left t.phase < sections_left ph

module _ {S : Type 0} (m : TimeMath) (info : StreamInfo) (c : Codec S) where
  module _ (s : AvDecoder S) (h : IsShut s) where
    pub by_stop :
        (stop : Bool) (ph : Phase) (t other : AvDecoder S)
        → stop ≡ true
        → 0 < sections_left ph
        → some (if stop then record s { phase = Phase.exited } else other) ≡ some t
        → Nears ph t
    by_stop true ph t other e some_left k = subst (Nears ph) (some-injective _ _ k) (record {
      shut = record { stops = h.stops; packets_end = h.packets_end; frames_end = h.frames_end };
      nearer = some_left;
    })
    by_stop false ph t other e some_left k = cc

    pops_down :
        (can : Bool) (q : List Input) (t : AvDecoder S)
        → pop_done (if can then some (pop_from q s.packets false) else none) s ≡ some t
        → Nears Phase.popping t
    pops_down false q t k = cc
    pops_down true [] t k = subst (Nears Phase.popping) (some-injective _ _ k) (record {
      shut = record { stops = h.stops; packets_end = h.packets_end; frames_end = h.frames_end };
      nearer = omega arith;
    })
    pops_down true (x ∷ q) t k = subst (Nears Phase.popping) (some-injective _ _ k) (record {
      shut = record { stops = h.stops; packets_end = h.packets_end; frames_end = h.frames_end };
      nearer = omega arith;
    })

    emits_down :
        (r : ReadResult) (ends : Bool) (d : Option (Done ReadResult)) (t : AvDecoder S)
        → PushEnd s.frames r false d
        → emit_done d ends s ≡ some t
        → Nears (Phase.emitting r ends) t
    emits_down r ends none t waits k = cc
    emits_down r ends (some done) t (fits _ open_yet o q) k = let e = h.frames_end in cc
    emits_down r ends (some done) t (breaks _ open_yet o q) k = let e = h.frames_end in cc
    emits_down r ends (some done) t (is_shut _ shut o q) k =
        subst (Nears _) (some-injective _ _ k) (
          rw o (
            rw q (record {
              shut = record {
                stops = h.stops;
                packets_end = h.packets_end;
                frames_end = h.frames_end;
              };
              nearer = omega arith;
            })))
    emits_down r ends (some done) t (expires _ late o q) k =
        subst (Nears _) (some-injective _ _ k) (
          rw o (
            rw q (record {
              shut = record {
                stops = h.stops;
                packets_end = h.packets_end;
                frames_end = h.frames_end;
              };
              nearer = omega arith;
            })))

    pub work-Nears :
        (ph : Phase) (throws : Bool) (t : AvDecoder S)
        → work_from m info c ph s throws ≡ some t
        → Nears ph t
    unfolding pop try_pop close
    work-Nears Phase.looping throws t k =
        by_stop s.stopping Phase.looping t _ h.stops (omega arith) k
    work-Nears (Phase.holding input) throws t k =
        by_stop s.stopping (Phase.holding input) t _ h.stops (omega arith) k
    work-Nears Phase.popping throws t k = pops_down (can_pop s.packets) s.packets.queue t k
    work-Nears (Phase.emitting r ends) throws t k =
        emits_down r ends _ t (push-PushEnd s.frames r throws false) k
    work-Nears (Phase.failing e) throws t k = subst (Nears _) (some-injective _ _ k) (record {
      shut = record { stops = h.stops; packets_end = h.packets_end; frames_end = h.frames_end };
      nearer = omega arith;
    })
    work-Nears (Phase.closing_packets b) throws t k =
        subst (Nears _) (some-injective _ _ k) (record {
          shut = record { stops = h.stops; packets_end = refl; frames_end = h.frames_end };
          nearer = omega arith;
        })
    work-Nears (Phase.closing_frames b) throws t k =
        subst (Nears _) (some-injective _ _ k) (record {
          shut = record { stops = h.stops; packets_end = h.packets_end; frames_end = refl };
          nearer = omega arith;
        })
    work-Nears (Phase.discarding b) throws t k = subst (Nears _) (some-injective _ _ k) (record {
      shut = record {
        stops = h.stops;
        packets_end = discard-closed s.packets.queue s.packets refl ∙ h.packets_end;
        frames_end = h.frames_end;
      };
      nearer = omega arith;
    })
    work-Nears (Phase.calling b) throws t k = subst (Nears _) (some-injective _ _ k) (record {
      shut = record { stops = h.stops; packets_end = h.packets_end; frames_end = h.frames_end };
      nearer = omega arith;
    })
    work-Nears Phase.exited throws t k = cc

    pub some_work :
        (ph : Phase)
        → (ph ≡ Phase.exited)
          ⊎ ((0 < sections_left ph)
              × ((throws : Bool) → (u : AvDecoder S) × (work_from m info c ph s throws ≡ some u)))
    unfolding pop push can_pop can_push
    some_work Phase.exited = inl refl
    some_work Phase.looping = inr (omega arith, λ throws. (_, refl))
    some_work (Phase.holding input) = inr (omega arith, λ throws. (_, refl))
    some_work (Phase.failing e) = inr (omega arith, λ throws. (_, refl))
    some_work (Phase.closing_packets b) = inr (omega arith, λ throws. (_, refl))
    some_work (Phase.closing_frames b) = inr (omega arith, λ throws. (_, refl))
    some_work (Phase.discarding b) = inr (omega arith, λ throws. (_, refl))
    some_work (Phase.calling b) = inr (omega arith, λ throws. (_, refl))
    some_work Phase.popping = inr (omega arith, λ throws. simp h.packets_end (_, refl))
    some_work (Phase.emitting r ends) = inr (omega arith, λ throws. simp h.frames_end (_, refl))
