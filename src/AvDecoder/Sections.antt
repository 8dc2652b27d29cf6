-- ===== src/AvDecoder/Sections.antt =====
-- The sections of a decoder's threads, and the loop run by itself.
use mw_streamer.Base.{◌≡◌, refl, ap, sym, subst, ◌∙◌, Bool, true, false, some, List, [], ◌∷◌, ◌++◌}
use mw_streamer.Ffmpeg.{TimeMath, StreamInfo}
use mw_streamer.Media.{ReadResult}
use mw_streamer.AvDecoder.{AvDecoder, Phase}
use mw_streamer.AvDecoder.Loop.{Codec, Core, Input}
use mw_streamer.AvDecoder.Worker.{work}
use mw_streamer.AvDecoder.Reference.{extend, alone-extend}
use mw_streamer.AvDecoder.Runs.{in_hand}
use mw_streamer.AvDecoder.Follows.{work-live}
use mw_streamer.AvDecoder.Standing.{Left, after_outs, Comes, Begins, FollowsOf, Follows}
use mw_streamer.AvDecoder.Untouched.{work-Same}

module _ {S : Type 0} where
  -- A section that moves results on, and inputs in.
  pub record Moved (s t : AvDecoder S) (more : List Input) (outs outs' : List ReadResult)
      : Type 0 where
    pub stop_same : t.stopping ≡ s.stopping
    pub phase_same : t.phase ≡ s.phase
    pub core_same : t.core ≡ s.core
    pub packets_shut : t.packets.closed ≡ s.packets.closed
    pub frames_shut : t.frames.closed ≡ s.frames.closed
    pub shut_takes_none : s.packets.closed ≡ true → more ≡ []
    pub error_same : t.error ≡ s.error
    pub reports_same : t.reports ≡ s.reports
    pub queue_more : t.packets.queue ≡ s.packets.queue ++ more
    pub results_same :
        s.stopping ≡ false
        → (tail : List ReadResult) → after_outs t outs' tail ≡ after_outs s outs tail
    pub reads_none : s.stopping ≡ true → outs' ≡ outs

module _ {S : Type 0} (m : TimeMath) (info : StreamInfo) (c : Codec S) (codec : S) where
  Comes-extend :
      (ins more : List Input) (core core' : Core S) (wants : Bool) (queue queue' : List Input)
      (outs outs' : List ReadResult)
      → core' ≡ core
      → queue' ≡ queue ++ more
      → outs' ≡ outs
      → Comes m info c codec ins
          (record { core = core; wants = wants; pending = queue; outputs = outs })
      → Comes m info c codec
          (ins ++ more)
          (record { core = core'; wants = wants; pending = queue'; outputs = outs' })
  Comes-extend ins more core core' wants queue queue' outs outs' ec eq eo f = rw ec (
      rw eq (
        rw eo (record {
          count = f.count;
          reached = alone-extend m info c f.count codec ins more _ f.reached;
        })))

  module _ (s t : AvDecoder S) (more : List Input) (outs outs' : List ReadResult)
      (v : Moved s t more outs outs') (ins : List Input) where
    Left-Moved :
        s.stopping ≡ false
        → Left m info c codec (in_hand s.reader) s.frames.queue ins outs
        → Left m info c codec (in_hand t.reader) t.frames.queue (ins ++ more) outs'
    Left-Moved live f = record {
      sequence = extend f.sequence more;
      comes = Comes-extend ins more _ _ _ _ _ _ _ refl refl refl f.comes;
      lost = f.lost;
      outputs = f.outputs ∙ sym (v.results_same live f.lost);
    }

    moved_live :
        (ph : Phase)
        → s.stopping ≡ false
        → FollowsOf m info c codec false ph s ins outs
        → FollowsOf m info c codec false ph t (ins ++ more) outs'
    moved_live Phase.looping live f =
        Comes-extend ins more _ _ _ _ _ _ _ v.core_same v.queue_more (v.results_same live []) f
    moved_live Phase.popping live f =
        Comes-extend ins more _ _ _ _ _ _ _ v.core_same v.queue_more (v.results_same live []) f
    moved_live (Phase.holding input) live f =
        Comes-extend ins more _ _ _ _ _ _ _ v.core_same (ap (λ x. input ∷ x) v.queue_more)
          (v.results_same live []) f
    moved_live (Phase.emitting r ends) live f =
        Comes-extend ins more _ _ _ _ _ _ _ (rw v.core_same refl) v.queue_more
          (v.results_same live (r ∷ [])) f
    moved_live Phase.exited live f = Left-Moved live f
    moved_live (Phase.failing e) live f = Left-Moved live f
    moved_live (Phase.closing_packets b) live f = Left-Moved live f
    moved_live (Phase.closing_frames b) live f = Left-Moved live f
    moved_live (Phase.discarding b) live f = Left-Moved live f
    moved_live (Phase.calling b) live f = Left-Moved live f

    Begins-moved :
        s.stopping ≡ true
        → Begins m info c codec ins outs
        → Begins m info c codec (ins ++ more) outs'
    Begins-moved over f = record {
      sequence = extend f.sequence more;
      comes = Comes-extend ins more _ _ _ _ _ _ _ refl refl refl f.comes;
      rest = f.rest;
      outputs = rw (v.reads_none over) f.outputs;
    }

    pub Moved-Follows :
        Follows m info c codec s ins outs → Follows m info c codec t (ins ++ more) outs'
    Moved-Follows f = simp (v.stop_same, v.phase_same) (by_stop s.stopping refl f)
      where
        by_stop :
            (stop : Bool)
            → s.stopping ≡ stop
            → FollowsOf m info c codec stop s.phase s ins outs
            → FollowsOf m info c codec stop s.phase t (ins ++ more) outs'
        by_stop true e f = Begins-moved e f
        by_stop false e f = moved_live s.phase e f

  -- Once the decoder stops, what it does later is of no account.
  pub stops-Follows :
      (t : AvDecoder S) (ins : List Input) (outs : List ReadResult)
      → t.stopping ≡ true
      → Begins m info c codec ins outs
      → Follows m info c codec t ins outs
  stops-Follows t ins outs e f =
      subst (λ b. FollowsOf m info c codec b t.phase t ins outs) (sym e) f

  pub work-Follows :
      (s t : AvDecoder S) (throws : Bool) (ins : List Input) (outs : List ReadResult)
      → work m info c s throws ≡ some t
      → Follows m info c codec s ins outs
      → Follows m info c codec t ins outs
  unfolding work
  work-Follows s t throws ins outs k f = by_stop s.stopping refl f
    where
      by_stop :
          (stop : Bool)
          → s.stopping ≡ stop
          → FollowsOf m info c codec stop s.phase s ins outs
          → Follows m info c codec t ins outs
      by_stop true e f =
          stops-Follows t ins outs ((work-Same m info c s.phase s t throws k).stop_same ∙ e) f
      by_stop false e f = work-live m info c codec s.phase s t throws ins outs e f k
