-- ===== src/AvDecoder/Returned.antt =====
-- What ReadFrame returns: every result that waits for it is a frame or an end.
use mw_streamer.Base.{
  ℤ, ◌≡◌, refl, sym, subst, Bool, true, false, not, ◌&&◌, Option, none, some, List, [], ◌∷◌, ◌++◌,
  ℕ, zero, suc, ++-assoc, ◌∙◌, All, All-append, All-split, if◌then◌else◌,
}
use mathlib.Core.Option.{some-injective}
use mw_streamer.Ffmpeg.{TimeMath, StreamInfo}
use mw_streamer.Media.{ReadResult}
use mw_streamer.AvDecoder.{AvDecoder, Phase, Reader, end_read, end_from}
use mw_streamer.AvDecoder.Loop.{
  Failure, frame_end_pts, stamped, frame_result, Codec, Core, Input, InputKind, Received, Reaction,
  turn, receive, consume, consume_kind, sent,
}
use mw_streamer.AvDecoder.Reference.{Sequence, alone, answer, pass, advance}
use mw_streamer.AvDecoder.Runs.{in_hand, media_of}
use mw_streamer.AvDecoder.Standing.{Comes, Begins, FollowsOf, Left}

abbrev IsMedia : ReadResult → Type 0
IsMedia r = media_of r ≡ r ∷ []

module _ {S : Type 0} where
  abbrev EmitsMedia : Reaction S → Type 0
  EmitsMedia (Reaction.emits core r ends) = IsMedia r
  EmitsMedia _ = Unit

  answer-AllAreMedia :
      (r : Reaction S) (ins : List Input) (outs : List ReadResult) (q : Sequence S)
      → EmitsMedia r
      → All IsMedia outs
      → answer r ins outs ≡ some q
      → All IsMedia q.outputs
  answer-AllAreMedia (Reaction.wants core) ins outs q e a h =
      subst (λ x. All IsMedia x.outputs) (some-injective _ _ h) a
  answer-AllAreMedia (Reaction.continues core) ins outs q e a h =
      subst (λ x. All IsMedia x.outputs) (some-injective _ _ h) a
  answer-AllAreMedia (Reaction.fails core f) ins outs q e a h = cc
  answer-AllAreMedia (Reaction.emits core r ends) ins outs q e a h =
      subst (λ x. All IsMedia x.outputs) (some-injective _ _ h)
        (All-append IsMedia outs (r ∷ []) a (e, tt))

module _ {S : Type 0} (m : TimeMath) (info : StreamInfo) (c : Codec S) where
  receive-EmitsMedia : (core : Core S) (r : Received × S) → EmitsMedia (receive m info c core r)
  receive-EmitsMedia core (Received.again, codec) = tt
  receive-EmitsMedia core (Received.ended, codec) = refl
  receive-EmitsMedia core (Received.failed code, codec) = tt
  receive-EmitsMedia core (Received.received f, codec) =
      by_device (c.uses_device && not (c.is_on_device f))
    where
      by_device :
          (b : Bool)
          → EmitsMedia (
              if b
              then Reaction.fails (record core { codec = codec }) (Failure.ffmpeg c.invalid_data)
              else Reaction.emits
                  (record core {
                    codec = codec;
                    next_pts = frame_end_pts m info c (stamped info f);
                  })
                  (frame_result info (stamped info f))
                  false)
      by_device true = tt
      by_device false = refl

  turn-EmitsMedia : (core : Core S) → EmitsMedia (turn m info c core)
  unfolding turn
  turn-EmitsMedia core = by_start (core.started && not core.drained)
    where
      by_start :
          (b : Bool)
          → EmitsMedia (
              if b then receive m info c core (c.receive_frame core.codec) else Reaction.wants core)
      by_start true = receive-EmitsMedia core (c.receive_frame core.codec)
      by_start false = tt

  sent-EmitsMedia : (core : Core S) (r : Option ℤ × S) → EmitsMedia (sent core r)
  sent-EmitsMedia core (none, codec) = tt
  sent-EmitsMedia core (some code, codec) = tt

  consume-EmitsMedia : (core : Core S) (input : Input) → EmitsMedia (consume c core input)
  unfolding consume
  consume-EmitsMedia core input = by_kind input.kind
    where
      by_kind : (kind : InputKind) → EmitsMedia (consume_kind c core kind input.packet)
      by_kind InputKind.reset_kind = tt
      by_kind InputKind.packet_kind = sent-EmitsMedia core (c.send_packet core.codec input.packet)
      by_kind InputKind.eof_kind = sent-EmitsMedia core (c.send_packet core.codec input.packet)

  pass-AllAreMedia :
      (wants : Bool) (core : Core S) (ins : List Input) (outs : List ReadResult) (q : Sequence S)
      → All IsMedia outs
      → pass m info c wants core ins outs ≡ some q
      → All IsMedia q.outputs
  pass-AllAreMedia true core [] outs q a h = cc
  pass-AllAreMedia true core (input ∷ rest) outs q a h =
      answer-AllAreMedia (consume c core input) rest outs q (consume-EmitsMedia core input) a h
  pass-AllAreMedia false core ins outs q a h =
      answer-AllAreMedia (turn m info c core) ins outs q (turn-EmitsMedia core) a h

  alone-AllAreMedia :
      (n : ℕ) (codec : S) (ins : List Input) (q : Sequence S)
      → alone m info c n codec ins ≡ some q
      → All IsMedia q.outputs
  unfolding alone
  alone-AllAreMedia zero codec ins q h =
      subst (λ x. All IsMedia x.outputs) (some-injective _ _ h) tt
  alone-AllAreMedia (suc n) codec ins q h = by_before _ (λ p. alone-AllAreMedia n codec ins p) h
    where
      by_before :
          (before : Option (Sequence S))
          → ((p : Sequence S) → before ≡ some p → All IsMedia p.outputs)
          → advance m info c before ≡ some q
          → All IsMedia q.outputs
      by_before none f h = cc
      by_before (some p) f h = pass-AllAreMedia p.wants p.core p.pending p.outputs q (f p refl) h

module _ {S : Type 0} (m : TimeMath) (info : StreamInfo) (c : Codec S) (codec : S) where
  hand_of :
      (n : ℕ) (ins : List Input) (q : Sequence S) (outs hand more : List ReadResult)
      → alone m info c n codec ins ≡ some q
      → q.outputs ≡ outs ++ (hand ++ more)
      → All IsMedia hand
  hand_of n ins q outs hand more h e =
      (All-split IsMedia hand more
        (All-split IsMedia outs (hand ++ more)
          (subst (All IsMedia) e (alone-AllAreMedia m info c n codec ins q h))).1).0

  gives_up :
      (hand queue : List ReadResult) (ins : List Input) (outs : List ReadResult)
      → Left m info c codec hand queue ins outs
      → All IsMedia hand
  gives_up hand queue ins outs f =
      hand_of f.comes.count ins f.sequence outs hand (queue ++ f.lost) f.comes.reached f.outputs

  -- While nobody stops the decoder, what a reader has in hand is a frame or an end.
  pub in_hand-AllAreMedia :
      (stop : Bool) (ph : Phase) (s : AvDecoder S) (ins : List Input) (outs : List ReadResult)
      → stop ≡ false
      → FollowsOf m info c codec stop ph s ins outs
      → All IsMedia (in_hand s.reader)
  in_hand-AllAreMedia true ph s ins outs e f = cc
  in_hand-AllAreMedia false Phase.looping s ins outs e f =
      hand_of f.count ins _ outs (in_hand s.reader) _ f.reached refl
  in_hand-AllAreMedia false Phase.popping s ins outs e f =
      hand_of f.count ins _ outs (in_hand s.reader) _ f.reached refl
  in_hand-AllAreMedia false (Phase.holding input) s ins outs e f =
      hand_of f.count ins _ outs (in_hand s.reader) _ f.reached refl
  in_hand-AllAreMedia false (Phase.emitting r ends) s ins outs e f =
      hand_of f.count ins _ outs (in_hand s.reader) _ f.reached refl
  in_hand-AllAreMedia false Phase.exited s ins outs e f =
      gives_up (in_hand s.reader) s.frames.queue ins outs f
  in_hand-AllAreMedia false (Phase.failing x) s ins outs e f =
      gives_up (in_hand s.reader) s.frames.queue ins outs f
  in_hand-AllAreMedia false (Phase.closing_packets b) s ins outs e f =
      gives_up (in_hand s.reader) s.frames.queue ins outs f
  in_hand-AllAreMedia false (Phase.closing_frames b) s ins outs e f =
      gives_up (in_hand s.reader) s.frames.queue ins outs f
  in_hand-AllAreMedia false (Phase.discarding b) s ins outs e f =
      gives_up (in_hand s.reader) s.frames.queue ins outs f
  in_hand-AllAreMedia false (Phase.calling b) s ins outs e f =
      gives_up (in_hand s.reader) s.frames.queue ins outs f

-- ReadFrame returns what the reader has in hand, and a null result where that is nothing, or where
-- the decoder stops.
-- The results that were returned, and then those that a reader has in hand and those in the queue,
-- unless the decoder is asked to stop, which gives these up.
abbrev pub holds : {S : Type 0} → Bool → AvDecoder S → List ReadResult → List ReadResult
holds true s outs = outs
holds false s outs = outs ++ (in_hand s.reader ++ s.frames.queue)

regroup : (a b c d : List ReadResult) → a ++ (b ++ (c ++ d)) ≡ (a ++ (b ++ c)) ++ d
regroup a b c d = simp ++-assoc refl

module _ {S : Type 0} (m : TimeMath) (info : StreamInfo) (c : Codec S) (codec : S) where
  kept_of :
      (ins : List Input) (q : Sequence S) (s : AvDecoder S) (outs more : List ReadResult)
      → Comes m info c codec ins q
      → q.outputs ≡ outs ++ (in_hand s.reader ++ (s.frames.queue ++ more))
      → Begins m info c codec ins (holds false s outs)
  kept_of ins q s outs more f e = record {
    sequence = q;
    comes = f;
    rest = more;
    outputs = e ∙ regroup outs (in_hand s.reader) s.frames.queue more;
  }

  -- Nothing of what the loop by itself has put out is lost.
  pub Begins-holds :
      (stop : Bool) (ph : Phase) (s : AvDecoder S) (ins : List Input) (outs : List ReadResult)
      → FollowsOf m info c codec stop ph s ins outs
      → Begins m info c codec ins (holds stop s outs)
  Begins-holds true ph s ins outs f = f
  Begins-holds false Phase.looping s ins outs f = kept_of ins _ s outs _ f refl
  Begins-holds false Phase.popping s ins outs f = kept_of ins _ s outs _ f refl
  Begins-holds false (Phase.holding input) s ins outs f = kept_of ins _ s outs _ f refl
  Begins-holds false (Phase.emitting r ends) s ins outs f = kept_of ins _ s outs _ f refl
  Begins-holds false Phase.exited s ins outs f =
      kept_of ins f.sequence s outs f.lost f.comes f.outputs
  Begins-holds false (Phase.failing e) s ins outs f =
      kept_of ins f.sequence s outs f.lost f.comes f.outputs
  Begins-holds false (Phase.closing_packets b) s ins outs f =
      kept_of ins f.sequence s outs f.lost f.comes f.outputs
  Begins-holds false (Phase.closing_frames b) s ins outs f =
      kept_of ins f.sequence s outs f.lost f.comes f.outputs
  Begins-holds false (Phase.discarding b) s ins outs f =
      kept_of ins f.sequence s outs f.lost f.comes f.outputs
  Begins-holds false (Phase.calling b) s ins outs f =
      kept_of ins f.sequence s outs f.lost f.comes f.outputs

module _ {S : Type 0} (info : StreamInfo) where
  pub end_read-media_of :
      (s t : AvDecoder S) (r : ReadResult)
      → end_read info s ≡ some (r, t)
      → (s.stopping ≡ false → All IsMedia (in_hand s.reader))
      → (if s.stopping then [] else in_hand s.reader) ≡ media_of r
  unfolding end_read
  end_read-media_of s t r k f = by_reader s.reader s.stopping k f
    where
      by_reader :
          (reader : Reader) (stop : Bool)
          → end_from info reader (record s { stopping = stop }) ≡ some (r, t)
          → (stop ≡ false → All IsMedia (in_hand reader))
          → (if stop then [] else in_hand reader) ≡ media_of r
      by_reader Reader.away stop k f = cc
      by_reader Reader.reading stop k f = cc
      by_reader (Reader.got read) true k f =
          subst (λ (x : ReadResult × AvDecoder S). [] ≡ media_of x.0) (some-injective _ _ k) refl
      by_reader (Reader.got none) false k f =
          subst (λ (x : ReadResult × AvDecoder S). [] ≡ media_of x.0) (some-injective _ _ k) refl
      by_reader (Reader.got (some read)) false k f =
          subst (λ (x : ReadResult × AvDecoder S). read ∷ [] ≡ media_of x.0) (some-injective _ _ k)
            (sym (f refl).0)
