-- ===== src/AvDecoder/Standing.antt =====
-- Where the loop run by itself stands, while the worker is at some place of its own.
use mw_streamer.Base.{
  ◌≡◌, refl, Bool, true, false, some, List, [], ◌∷◌, ◌++◌, ℕ, ++-assoc, append_nil,
}
use mw_streamer.Ffmpeg.{TimeMath, StreamInfo}
use mw_streamer.Media.{ReadResult}
use mw_streamer.AvDecoder.{AvDecoder, Phase}
use mw_streamer.AvDecoder.Loop.{Codec, Input, mark}
use mw_streamer.AvDecoder.Reference.{Sequence, alone}
use mw_streamer.AvDecoder.Runs.{in_hand}

-- The results that follow `outs` in what the reader, the queue and then `more` hold.
module _ {S : Type 0} where
  abbrev pub after_outs : AvDecoder S → List ReadResult → List ReadResult → List ReadResult
  after_outs s outs more = outs ++ (in_hand s.reader ++ (s.frames.queue ++ more))

  -- Where the loop by itself stands, while the worker is in its own loop.
  abbrev pub looping_at : AvDecoder S → List ReadResult → Sequence S
  looping_at s outs = record {
    core = s.core;
    wants = false;
    pending = s.packets.queue;
    outputs = after_outs s outs [];
  }

  abbrev pub popping_at : AvDecoder S → List ReadResult → Sequence S
  popping_at s outs = record {
    core = s.core;
    wants = true;
    pending = s.packets.queue;
    outputs = after_outs s outs [];
  }

  abbrev pub holding_at : Input → AvDecoder S → List ReadResult → Sequence S
  holding_at input s outs = record {
    core = s.core;
    wants = true;
    pending = input ∷ s.packets.queue;
    outputs = after_outs s outs [];
  }

  abbrev pub emitting_at : ReadResult → Bool → AvDecoder S → List ReadResult → Sequence S
  emitting_at r ends s outs = record {
    core = mark ends s.core;
    wants = false;
    pending = s.packets.queue;
    outputs = after_outs s outs (r ∷ []);
  }

  pub after_outs-snoc :
      (s : AvDecoder S) (outs : List ReadResult) (r : ReadResult)
      → after_outs s outs [] ++ r ∷ [] ≡ after_outs s outs (r ∷ [])
  after_outs-snoc s outs r = simp (append_nil, ++-assoc) refl

module _ {S : Type 0} (m : TimeMath) (info : StreamInfo) (c : Codec S) (codec : S) where
  -- The loop by itself comes to `q`.
  pub record Comes (ins : List Input) (q : Sequence S) : Type 0 where
    pub count : ℕ
    pub reached : alone m info c count codec ins ≡ some q

  -- It comes to outputs that begin with `outs`.
  pub record Begins (ins : List Input) (outs : List ReadResult) : Type 0 where
    pub sequence : Sequence S
    pub comes : Comes ins sequence
    pub rest : List ReadResult
    pub outputs : sequence.outputs ≡ outs ++ rest

  -- And, once the worker has left its loop, outputs that begin with what is kept.
  pub record Left (hand queue : List ReadResult) (ins : List Input) (outs : List ReadResult)
      : Type 0 where
    pub sequence : Sequence S
    pub comes : Comes ins sequence
    pub lost : List ReadResult
    pub outputs : sequence.outputs ≡ outs ++ (hand ++ (queue ++ lost))

  abbrev pub FollowsOf : Bool → Phase → AvDecoder S → List Input → List ReadResult → Type 0
  FollowsOf true _ s ins outs = Begins ins outs
  FollowsOf false Phase.looping s ins outs = Comes ins (looping_at s outs)
  FollowsOf false Phase.popping s ins outs = Comes ins (popping_at s outs)
  FollowsOf false (Phase.holding input) s ins outs = Comes ins (holding_at input s outs)
  FollowsOf false (Phase.emitting r ends) s ins outs = Comes ins (emitting_at r ends s outs)
  FollowsOf false _ s ins outs = Left (in_hand s.reader) s.frames.queue ins outs

  abbrev pub Follows : AvDecoder S → List Input → List ReadResult → Type 0
  Follows s ins outs = FollowsOf s.stopping s.phase s ins outs

  pub Begins-FollowsOf :
      (stop : Bool) (ph : Phase) (s : AvDecoder S) (ins : List Input) (outs : List ReadResult)
      → FollowsOf stop ph s ins outs
      → Begins ins outs
  Begins-FollowsOf true ph s ins outs f = f
  Begins-FollowsOf false Phase.looping s ins outs f = record {
    sequence = _;
    comes = f;
    rest = _;
    outputs = refl;
  }
  Begins-FollowsOf false Phase.popping s ins outs f = record {
    sequence = _;
    comes = f;
    rest = _;
    outputs = refl;
  }
  Begins-FollowsOf false (Phase.holding input) s ins outs f = record {
    sequence = _;
    comes = f;
    rest = _;
    outputs = refl;
  }
  Begins-FollowsOf false (Phase.emitting r ends) s ins outs f = record {
    sequence = _;
    comes = f;
    rest = _;
    outputs = refl;
  }
  Begins-FollowsOf false Phase.exited s ins outs f = record {
    sequence = f.sequence;
    comes = f.comes;
    rest = _;
    outputs = f.outputs;
  }
  Begins-FollowsOf false (Phase.failing e) s ins outs f = record {
    sequence = f.sequence;
    comes = f.comes;
    rest = _;
    outputs = f.outputs;
  }
  Begins-FollowsOf false (Phase.closing_packets b) s ins outs f = record {
    sequence = f.sequence;
    comes = f.comes;
    rest = _;
    outputs = f.outputs;
  }
  Begins-FollowsOf false (Phase.closing_frames b) s ins outs f = record {
    sequence = f.sequence;
    comes = f.comes;
    rest = _;
    outputs = f.outputs;
  }
  Begins-FollowsOf false (Phase.discarding b) s ins outs f = record {
    sequence = f.sequence;
    comes = f.comes;
    rest = _;
    outputs = f.outputs;
  }
  Begins-FollowsOf false (Phase.calling b) s ins outs f = record {
    sequence = f.sequence;
    comes = f.comes;
    rest = _;
    outputs = f.outputs;
  }
