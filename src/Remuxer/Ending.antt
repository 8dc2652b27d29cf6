-- ===== src/Remuxer/Ending.antt =====
-- Every schedule of a session that drains comes to the end of the session.
use mw_streamer.Base.{
  ◌≡◌, refl, sym, ap, subst, ◌∙◌, ◌⊎◌, inl, inr, true, false, Bool, Bool-cases, Option, none, some,
  List, [], ◌∷◌, ◌++◌, ℕ, ◌+◌, ◌≤◌, ◌<◌, arith, if◌then◌else◌,
}
use mw_streamer.Ffmpeg.{TimeMath, AvPacket}
use mw_streamer.Remuxer.{Session, Task, Stage, Thrown, poll, poll_from, enter, hand_over, release}
use mw_streamer.Remuxer.Shape.{ShapeOf, Inv}
use mw_streamer.Remuxer.Runs.{
  Run, Run-Inv, stepped, Step, offers, hands_over, enters, polls, drains, fails, releases, Moves,
}
use mw_streamer.Remuxer.Draining.{left_of, left, poll-Falls}
use mw_streamer.Remuxer.Others.{
  Stays, drain-Stays, drain-running, enter-Stays, enter-running, hand_done-Stays, hand_done-running,
  left_of-le, offer-Stays, offer-running, on_error-Stays, on_error-running, over_lem,
}

module _ (m : TimeMath) where
  Step-over :
      (s : Session) (accepted taken : List AvPacket) (polled : Bool) (moves : Moves) (t : Session)
      → Inv s accepted taken
      → s.running ≡ false
      → Step m s polled moves t
      → t.running ≡ false
  unfolding poll enter hand_over release
  Step-over s accepted taken _ _ t v r (offers packet on_poller b _ k) =
      offer-running s m packet on_poller b t k ∙ r
  Step-over s accepted taken _ _ t v r (hands_over before p after throws _ w k) =
      hand_done-running s _ (before ++ after) t k ∙ r
  Step-over s accepted taken _ _ t v r (enters _ k) = enter-running s s.entering t k ∙ r
  Step-over s accepted taken _ _ t v r (polls what _ k) =
      let none_left = over_lem s m s.stage s.tasks what v.shape r in cc
  Step-over s accepted taken _ _ t v r (drains _ e) =
      ap (λ (x : Session). x.running) e ∙ drain-running s ∙ r
  Step-over s accepted taken _ _ t v r (fails x _ e) =
      ap (λ (x : Session). x.running) e ∙ on_error-running s x ∙ r
  Step-over s accepted taken _ _ t v r (releases _ k) = ground arith

  -- A chain of steps, with the number of sections of the poller in it.
  pub data Chain (s : Session) : ℕ → Session → Type 0 where
    here : Chain s 0 s
    next :
        {t : Session} {n : ℕ} (polled : Bool) (moves : Moves) (u : Session) (count : ℕ)
        → Chain s n t
        → Step m t polled moves u
        → count ≡ (if polled then n + 1 else n)
        → Chain s count u

  -- Where a session that drains is after some sections of the poller.
  abbrev After : ℕ → Session → Type 0
  After n t = (t.running ≡ false) ⊎ ((t.draining ≡ true) × (n + left t ≤ 8))

  kept_on : (s t : Session) (n : ℕ) → s.running ≡ true → n + left s ≤ 8 → Stays s t → After n t
  kept_on s t n r few (a, d, l) = inr (d, omega (arith, few, l))

  Step-After :
      (s : Session) (accepted taken : List AvPacket) (polled : Bool) (moves : Moves) (t : Session)
      (n : ℕ)
      → Inv s accepted taken
      → s.running ≡ true
      → s.draining ≡ true
      → n + left s ≤ 8
      → Step m s polled moves t
      → After (if polled then n + 1 else n) t
  unfolding enter hand_over release
  Step-After s accepted taken _ _ t n v r d few (offers packet on_poller b _ k) =
      kept_on s t n r few (offer-Stays s d m packet on_poller b t k)
  Step-After s accepted taken _ _ t n v r d few (hands_over before p after throws _ w k) =
      kept_on s t n r few (hand_done-Stays s d _ (before ++ after) t k)
  Step-After s accepted taken _ _ t n v r d few (enters _ k) =
      kept_on s t n r few (enter-Stays s d t s.entering v.shape r k)
  Step-After s accepted taken _ _ t n v r d few (polls what _ k) =
      elim (poll-Falls m s d accepted taken what t v k) [
        | inl over ↦ inl over
        | inr (d', l) ↦ inr (d', omega (arith, few, l))
      ]
  Step-After s accepted taken _ _ t n v r d few (drains _ e) =
      kept_on s t n r few
        (subst (Stays s) (sym e) (drain-Stays s d s.stage s.tasks refl refl v.shape r))
  Step-After s accepted taken _ _ t n v r d few (fails x _ e) =
      kept_on s t n r few
        (subst (Stays s) (sym e) (on_error-Stays s d x s.stage s.tasks refl refl v.shape r))
  Step-After s accepted taken _ _ t n v r d few (releases _ k) = ground arith

  After-Step :
      (s : Session) (accepted taken : List AvPacket) (polled : Bool) (moves : Moves) (t : Session)
      (n : ℕ)
      → Inv s accepted taken
      → After n s
      → Step m s polled moves t
      → After (if polled then n + 1 else n) t
  After-Step s accepted taken polled moves t n v (inl over) step =
      inl (Step-over s accepted taken polled moves t v over step)
  After-Step s accepted taken polled moves t n v (inr (d, few)) step = elim (Bool-cases s.running) [
    | inl r ↦ Step-After s accepted taken polled moves t n v r d few step
    | inr r ↦ inl (Step-over s accepted taken polled moves t v r step)
  ]

  record Reached (n : ℕ) (t : Session) : Type 0 where
    accepted : List AvPacket
    taken : List AvPacket
    run : Run m t accepted taken
    after : After n t

  Chain-Reached :
      (s : Session) (accepted taken : List AvPacket) (n : ℕ) (t : Session)
      → Run m s accepted taken
      → s.draining ≡ true
      → Chain s n t
      → Reached n t
  Chain-Reached s accepted taken _ _ run d here = record {
    accepted = accepted;
    taken = taken;
    run = run;
    after = inr (d, omega (arith, left_of-le s.scheduled s.stage s.tasks));
  }
  Chain-Reached s accepted taken _ u run d (next polled moves _ count chain step e) =
      let before = Chain-Reached s accepted taken _ _ run d chain in
      let v = Run-Inv m _ _ _ before.run in
      record {
        accepted = before.accepted ++ moves.passed_in;
        taken = before.taken ++ moves.taken_out;
        run = stepped polled moves u before.run step refl refl;
        after =
            subst (λ c. After c u) (sym e) (After-Step _ _ _ polled moves u _ v before.after step);
      }

  poll_possible :
      (s : Session) (st : Stage) (ts : List Task) (what : Option Thrown)
      → ShapeOf s.running s.draining s.closing s.scheduled st ts
      → s.running ≡ true
      → s.draining ≡ true
      → ((u : Session) × (poll_from m st ts s what ≡ some u)) × (0 < left_of s.scheduled st ts)
  poll_possible s Stage.idle [] what h r d = ground arith
  poll_possible s Stage.idle (Task.process ∷ []) what h r d = ((_, refl), omega arith)
  poll_possible s Stage.idle (Task.process ∷ x ∷ xs) what h r d = ((_, refl), omega arith)
  poll_possible s Stage.idle (Task.finish ∷ ts) what h r d = ((_, refl), omega arith)
  poll_possible s Stage.idle (Task.last ∷ ts) what h r d = ((_, refl), omega arith)
  poll_possible s (Stage.delivering items true) ts what h r d = ((_, refl), omega arith)
  poll_possible s (Stage.delivering items false) ts what h r d = ((_, refl), omega arith)
  poll_possible s Stage.ending [] what h r d = ((_, refl), ground arith)
  poll_possible s Stage.ending (x ∷ xs) what h r d = ((_, refl), omega arith)
  poll_possible s Stage.flushing [] what h r d = ((_, refl), omega arith)
  poll_possible s Stage.flushing (x ∷ xs) what h r d = ((_, refl), omega arith)

  -- A session that drains ends, whatever the other threads do in between, and whatever the outputs
  -- throw: after any steps it is over, or the poller has run fewer than eight of its sections and
  -- can run another.
  pub drain_ends :
      (s : Session) (accepted taken : List AvPacket) (n : ℕ) (t : Session)
      → Run m s accepted taken
      → s.draining ≡ true
      → Chain s n t
      → (t.running ≡ false)
        ⊎ ((n < 8) × ((what : Option Thrown) → (u : Session) × (poll m t what ≡ some u)))
  unfolding poll
  drain_ends s accepted taken n t run d chain =
      let reached = Chain-Reached s accepted taken n t run d chain in
      let shape = (Run-Inv m _ _ _ reached.run).shape in
      elim reached.after [
        | inl over ↦ inl over
        | inr (d', few) ↦ elim (Bool-cases t.running) [
          | inl r ↦ inr (
            let (_, some_left) = poll_possible t t.stage t.tasks none shape r d' in
                omega (arith, few, some_left),
            λ what. (poll_possible t t.stage t.tasks what shape r d').0,
          )
          | inr r ↦ inl r
        ]
      ]
