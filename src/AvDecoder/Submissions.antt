-- ===== src/AvDecoder/Submissions.antt =====
-- What the sections of the producer admit, and what the decoder remembers of it.
use mw_streamer.Base.{
  ◌≡◌, refl, sym, subst, ◌∙◌, Bool, true, false, not, ◌&&◌, ◌||◌, Option, none, some, List, [], ◌∷◌,
  ◌++◌, if◌then◌else◌, append_nil, ok, ok-subst, >>=-eq-ok, throw_if, logic_error, ◌>>◌, leb,
  length,
}
use mathlib.Core.Option.{some-injective}
use mw_streamer.Media.{ReadResult}
use mw_streamer.BlockingQueue.{BlockingQueue, Done, push}
use mw_streamer.BlockingQueue.Outcomes.{
  PushEnd, push-PushEnd, waits, fits, is_shut, expires, breaks,
}
use mw_streamer.AvDecoder.{
  AvDecoder, Admission, submit, enqueue, tried, push_done, is_reset, is_eof, has_error, finish_push,
  finish_from,
}
use mw_streamer.AvDecoder.Loop.{Input}
use mw_streamer.AvDecoder.Untouched.{Same}
use mw_streamer.AvDecoder.Runs.{admits, admits_if}

-- An input that may follow, after an end or not.
abbrev MayFollow : Bool → Input → Type 0
MayFollow ended input = ended ≡ true → is_reset input.kind ≡ true

-- Whether the last input is an end, from what was before.
abbrev ends_after : Bool → List Input → Bool
ends_after ended [] = ended
ends_after ended (input ∷ rest) = ends_after (is_eof input.kind) rest

-- Each input may follow the one before it.
abbrev pub IsOrdered : Bool → List Input → Type 0
IsOrdered ended [] = Unit
IsOrdered ended (input ∷ rest) = MayFollow ended input × IsOrdered (is_eof input.kind) rest

IsOrdered-snoc :
    (ended : Bool) (ins : List Input) (input : Input)
    → IsOrdered ended ins
    → MayFollow (ends_after ended ins) input
    → IsOrdered ended (ins ++ input ∷ [])
IsOrdered-snoc ended [] input h f = (f, tt)
IsOrdered-snoc ended (i ∷ ins) input h f = (h.0, IsOrdered-snoc (is_eof i.kind) ins input h.1 f)

ends_after-snoc :
    (ended : Bool) (ins : List Input) (input : Input)
    → ends_after ended (ins ++ input ∷ []) ≡ is_eof input.kind
ends_after-snoc ended [] input = refl
ends_after-snoc ended (i ∷ ins) input = ends_after-snoc (is_eof i.kind) ins input

-- What is offered may follow what was admitted, whose end the decoder remembers.
abbrev MayOffer : Bool → Option Input → Type 0
MayOffer ended none = Unit
MayOffer ended (some input) = MayFollow ended input

module _ {S : Type 0} where
  pub record Disciplined (s : AvDecoder S) (ins : List Input) : Type 0 where
    pub remembers : s.submitted_eof ≡ ends_after false ins
    pub ordered : IsOrdered false ins
    pub offer : MayOffer s.submitted_eof s.offered

  pub Same-Disciplined :
      (s t : AvDecoder S) (ins : List Input) → Same s t → Disciplined s ins → Disciplined t ins
  Same-Disciplined s t ins v d = record {
    remembers = v.eof_same ∙ d.remembers;
    ordered = d.ordered;
    offer = rw (v.eof_same) (rw (v.offered_same) d.offer);
  }

  -- The callback, the signal and the stop have no part in it.
  pub untouched :
      (s : AvDecoder S) (ins : List Input)
      → Disciplined s ins
      → {callback stop : Bool} {frames : BlockingQueue ReadResult}
      → Disciplined (record s { on_error = callback; stopping = stop; frames = frames }) ins
  untouched s ins d = record { remembers = d.remembers; ordered = d.ordered; offer = d.offer }

  module _ (s : AvDecoder S) (ins : List Input) (d : Disciplined s ins) where
    admitted-Disciplined :
        (input : Input) (q : BlockingQueue Input) (offered : Option Input)
        → MayFollow s.submitted_eof input
        → offered ≡ none
        → Disciplined
            (record s { packets = q; offered = offered; submitted_eof = is_eof input.kind })
            (ins ++ input ∷ [])
    admitted-Disciplined input q offered f e = record {
      remembers = sym (ends_after-snoc false ins input);
      ordered =
          IsOrdered-snoc false ins input d.ordered (subst (λ b. MayFollow b input) d.remembers f);
      offer = rw e tt;
    }

    refused-Disciplined :
        (q : BlockingQueue Input) (offered : Option Input)
        → offered ≡ none
        → Disciplined (record s { packets = q; offered = offered }) (ins ++ [])
    refused-Disciplined q offered e =
        rw (append_nil ins)
          (record { remembers = d.remembers; ordered = d.ordered; offer = rw e tt })

    push_done-Disciplined :
        {expired : Bool} (input : Input) (o : Option (Done Input)) (b : Bool) (t : AvDecoder S)
        (offered : Option Input)
        → offered ≡ none
        → MayFollow s.submitted_eof input
        → PushEnd s.packets input expired o
        → push_done input o (record s { offered = offered }) ≡ some (b, t)
        → Disciplined t (ins ++ admits_if b (some input))
    push_done-Disciplined input none b t offered e f waits k = cc
    push_done-Disciplined input (some done) b t offered e f (fits _ open_yet o q) k =
        subst (λ x. Disciplined x.1 (ins ++ admits_if x.0 (some input))) (some-injective _ _ k)
          (rw o (admitted-Disciplined input done.after offered f e))
    push_done-Disciplined input (some done) b t offered e f (is_shut _ shut o q) k =
        subst (λ x. Disciplined x.1 (ins ++ admits_if x.0 (some input))) (some-injective _ _ k)
          (rw o (refused-Disciplined done.after offered e))
    push_done-Disciplined input (some done) b t offered e f (expires _ late o q) k =
        subst (λ x. Disciplined x.1 (ins ++ admits_if x.0 (some input))) (some-injective _ _ k)
          (rw o (refused-Disciplined done.after offered e))
    push_done-Disciplined input (some done) b t offered e f (breaks _ open_yet o q) k =
        subst (λ x. Disciplined x.1 (ins ++ admits_if x.0 (some input))) (some-injective _ _ k)
          (rw o (refused-Disciplined done.after offered e))

    pub finish_push-Disciplined :
        (b : Bool) (t : AvDecoder S)
        → finish_push s ≡ some (b, t)
        → Disciplined t (ins ++ admits_if b s.offered)
    unfolding finish_push
    finish_push-Disciplined b t k = by_offered s.offered d.offer k
      where
        by_offered :
            (offered : Option Input)
            → MayOffer s.submitted_eof offered
            → finish_from offered s ≡ some (b, t)
            → Disciplined t (ins ++ admits_if b offered)
        by_offered none f k = cc
        by_offered (some input) f k =
            push_done-Disciplined input _ b t none refl f (push-PushEnd s.packets input false false)
              k

    pub kept : Disciplined s (ins ++ [])
    kept = rw (append_nil ins) d

    tried-Disciplined :
        (input : Input) (o : Option (Bool × AvDecoder S))
        → ((b : Bool) (t : AvDecoder S)
            → o ≡ some (b, t)
            → Disciplined t (ins ++ admits_if b (some input)))
        → Disciplined (tried o s).1 (ins ++ admits (tried o s).0 input)
    tried-Disciplined input none f = kept
    tried-Disciplined input (some (true, t)) f = f true t refl
    tried-Disciplined input (some (false, t)) f = f false t refl

    enqueue-Disciplined :
        (input : Input) (full wait : Bool)
        → s.offered ≡ none
        → MayFollow s.submitted_eof input
        → (r : Admission × AvDecoder S)
        → (if full
            then (Admission.refused, s)
            else if wait
            then (Admission.waiting, record s { offered = some input })
            else tried (push_done input (push s.packets input false true) s) s)
          ≡ r
        → Disciplined r.1 (ins ++ admits r.0 input)
    enqueue-Disciplined input true wait free f r k =
        subst (λ x. Disciplined x.1 (ins ++ admits x.0 input)) k kept
    enqueue-Disciplined input false true free f r k =
        subst (λ x. Disciplined x.1 (ins ++ admits x.0 input)) k
          (rw (append_nil ins) (record { remembers = d.remembers; ordered = d.ordered; offer = f }))
    enqueue-Disciplined input false false free f r k =
        subst (λ x. Disciplined x.1 (ins ++ admits x.0 input)) k
          (tried-Disciplined input _ (λ b t.
            push_done-Disciplined input _ b t s.offered free f
              (push-PushEnd s.packets input false true)))

    pub submit-Disciplined :
        (input : Input) (wait : Bool) (a : Admission) (t : AvDecoder S)
        → s.offered ≡ none
        → submit s input wait ≡ ok (a, t)
        → Disciplined t (ins ++ admits a input)
    unfolding submit
    submit-Disciplined input wait a t free k = by_stop (s.stopping || has_error s.error) k
      where
        passes :
            (ended resets : Bool) {v : _}
            → throw_if (ended && not resets) logic_error ≡ ok v
            → ended ≡ true
            → resets ≡ true
        passes true true h e = refl
        passes true false h e = cc
        passes false resets h e = cc

        by_stop :
            (stop : Bool)
            → (if stop
                then ok (Admission.refused, s)
                else (throw_if (s.submitted_eof && not (is_reset input.kind)) logic_error
                    >> ok (enqueue s input wait)))
              ≡ ok (a, t)
            → Disciplined t (ins ++ admits a input)
        by_stop true k = ok-subst (λ x. Disciplined x.1 (ins ++ admits x.0 input)) k kept
        by_stop false k =
            let (_, g, k) =
              >>=-eq-ok (throw_if (s.submitted_eof && not (is_reset input.kind)) logic_error) _ k in
            ok-subst (λ x. Disciplined x.1 (ins ++ admits x.0 input)) k
              (enqueue-Disciplined input
                (not wait && leb s.packets.capacity (length s.packets.queue)) wait free
                (passes s.submitted_eof (is_reset input.kind) g) _ refl)
