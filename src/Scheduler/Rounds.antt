-- ===== src/Scheduler/Rounds.antt =====
-- The sections of the worker of one track, on what has passed each point.
use mw_streamer.Base.{
  ◌≡◌, refl, ap, sym, subst, ◌∙◌, ok-subst, >>=-eq-ok, ◌⊎◌, inl, inr, true, false, Bool, Bool-cases,
  Option, none, some, List, [], ◌++◌, Result, ok, arith, if◌then◌else◌, append_nil,
}
use mathlib.Core.Option.{some-injective}
use mw_streamer.Media.{ReadResult, no_result}
use mw_streamer.Scheduler.{
  Track, Worker, is_null, take, Converter, Round, finish, filtered, offer, refine,
}
use mw_streamer.Scheduler.Flow.{items}
use mw_streamer.Scheduler.Ledger.{Ledger, Balanced}

items_of_null : (r : ReadResult) → is_null r ≡ true → items r ≡ []
items_of_null r h = rw h refl

-- What the worker holds.
abbrev pub held : Option ReadResult → List ReadResult
held none = []
held (some input) = items input

-- The worker takes its task.
pub take-Balanced :
    (t : Track) (w : Worker) (l : Ledger) (u : Track) (x : Worker)
    → Balanced t w l
    → take t w ≡ some (u, x)
    → Balanced u x (record l { taken = l.taken ++ held x.holding })
unfolding take
take-Balanced t w l u x b h = elim (Bool-cases t.requested) [
  | inl r ↦
      let (busy, empty) = b.agree.asked_busy r in
      subst
        (λ (p : Track × Worker).
          Balanced p.0 p.1 (record l { taken = l.taken ++ held p.1.holding }))
        (some-injective _ _ (simp (r, empty) at h))
        (record {
          agree = record {
            task_asked = λ _. refl;
            asked_busy = λ k. ground (arith, k);
            held_busy = λ k _. ground (arith, k);
            rest_empty = λ k. ground (arith, k, busy);
            done_idle = b.agree.done_idle;
            result_done = b.agree.result_done;
            busy_alone = b.agree.busy_alone;
            done_alone = b.agree.done_alone;
            input_next = b.agree.input_next;
            task_alone = inl refl;
            held_alone = λ input k.
                subst (λ i. (items i ≡ []) ⊎ (items w.pending ≡ [])) (some-injective _ _ k)
                  b.agree.task_alone;
          };
          to_worker = b.to_worker ∙ sym (append_nil (l.taken ++ items t.task));
          to_converter = b.to_converter;
          to_syncer = b.to_syncer;
        })
  | inr r ↦ ground (arith, h, r)
]

module _ {ℓ} {S : Type ℓ} (converter : Converter S)
    (filter_in filter_out : ReadResult → Result ReadResult) where
  -- What the filter made of an input, and what the converter took.
  abbrev arrived : ReadResult → ReadResult → List ReadResult
  arrived input pending = if is_null input then [] else items pending

  abbrev admitted : Bool → ReadResult → List ReadResult
  admitted pushed pending = if pushed then items pending else []

  -- What the parts of a round do with an input: the filter, the converter, which is offered
  -- something or not and is read, and the filter of its output.
  pub record Worked (w : Worker) (s : S) (input : ReadResult) : Type ℓ where
    pub pending : ReadResult
    pub pushed : Bool
    pub offered : S
    pub raw : ReadResult
    pub after : S
    pub output : ReadResult
    pub filters :
        filtered converter filter_in filter_out (is_null input) input w.pending ≡ ok pending
    pub offers :
        ((is_null pending ≡ true) × (pushed ≡ false) × (offered ≡ s))
        ⊎ ((is_null pending ≡ false) × (converter.try_push s pending ≡ ok (pushed, offered)))
    pub reads : converter.try_read offered ≡ ok (raw, after)
    pub refines : refine converter filter_in filter_out (is_null raw) raw ≡ ok output

  offers-offer :
      {w : Worker} {s : S} {input : ReadResult} (o : Worked w s input)
      → offer converter filter_in filter_out (is_null o.pending) s o.pending
        ≡ ok (o.pushed, o.offered)
  offers-offer o = elim o.offers [ inl (n, p, e) ↦ rw (n, p, e) refl | inr (n, p) ↦ rw n p ]

  abbrev pub after_round :
      {w : Worker} {s : S} → Ledger → (input : ReadResult) → Worked w s input → Ledger
  after_round l input o = record l {
    filtered = l.filtered ++ arrived input o.pending;
    accepted = l.accepted ++ admitted o.pushed o.pending;
    made = l.made ++ items o.output;
  }

  -- What waits for the converter after the filter: what waited before, and what has arrived.
  filtered_lem :
      (input pending next : ReadResult) (xs ys : List ReadResult)
      → xs ≡ ys ++ items pending
      → (items input ≡ []) ⊎ (items pending ≡ [])
      → filtered converter filter_in filter_out (is_null input) input pending ≡ ok next
      → xs ++ arrived input next ≡ ys ++ items next
  filtered_lem input pending next xs ys e alone h = elim (Bool-cases (is_null input)) [
    | inl n ↦
        let same : pending ≡ next = ok-subst (λ x. pending ≡ x) (simp n at h) refl in
        simp n (append_nil xs ∙ e ∙ ap (λ x. ys ++ items x) same)
    | inr n ↦ simp n (ap (λ x. x ++ items next) (e ∙ by_alone n alone))
  ]
    where
      by_alone :
          is_null input ≡ false
          → (items input ≡ []) ⊎ (items pending ≡ [])
          → ys ++ items pending ≡ ys
      by_alone n (inl k) = ground (arith, simp n at k)
      by_alone n (inr k) = ap (λ x. ys ++ x) k ∙ append_nil ys

  pushed_lem :
      (pushed : Bool) (pending : ReadResult) (xs ys : List ReadResult)
      → xs ≡ ys ++ items pending
      → xs ≡ (ys ++ admitted pushed pending) ++ items (if pushed then no_result else pending)
  pushed_lem true pending xs ys e = e ∙ sym (append_nil (ys ++ items pending))
  pushed_lem false pending xs ys e = e ∙ ap (λ x. x ++ items pending) (sym (append_nil ys))

  pub finish-Balanced :
      (t : Track) (w : Worker) (l : Ledger) (s : S) (input : ReadResult)
      (r : Round converter filter_in filter_out) (o : Worked w s input)
      → Balanced t w l
      → w.holding ≡ some input
      → finish converter filter_in filter_out t w s input ≡ ok r
      → Balanced r.track r.worker (after_round l input o)
  unfolding finish
  finish-Balanced t w l s input r o b holds h =
      let busy : t.busy ≡ true = is_busy (Bool-cases t.busy) in
      let asked : t.requested ≡ false = not_asked (Bool-cases t.requested) in
      let undone : t.completed ≡ false = not_done busy (Bool-cases t.completed) in
      let offers = offers-offer o in
      let rest = if o.pushed then no_result else o.pending in
      ok-subst (λ x. Balanced x.track x.worker (after_round l input o))
        (rw (o.filters, offers, o.reads, o.refines) at h)
        (record {
          agree = record {
            task_asked = b.agree.task_asked;
            asked_busy = λ k. ground (arith, k, asked);
            held_busy = λ _ _. refl;
            rest_empty = λ _. refl;
            done_idle = λ _. refl;
            result_done = λ k. ground (arith, k);
            busy_alone = λ k. ground (arith, k);
            done_alone = λ _. b.agree.busy_alone busy;
            input_next = λ _ k. items_of_null rest (ground (arith, k));
            task_alone = inl (b.agree.task_asked asked);
            held_alone = λ i k. ground (arith, k);
          };
          to_worker = b.to_worker;
          to_converter =
              pushed_lem o.pushed o.pending (l.filtered ++ arrived input o.pending) l.accepted (
                filtered_lem input w.pending o.pending l.filtered l.accepted b.to_converter
                  (b.agree.held_alone input holds) o.filters);
          to_syncer = made_lem busy undone o.output;
        })
    where
      is_busy : (t.busy ≡ true) ⊎ (t.busy ≡ false) → t.busy ≡ true
      is_busy (inl k) = k
      is_busy (inr k) = ground (arith, b.agree.rest_empty k, holds)

      not_asked : (t.requested ≡ true) ⊎ (t.requested ≡ false) → t.requested ≡ false
      not_asked (inl k) = ground (arith, b.agree.asked_busy k, holds)
      not_asked (inr k) = k

      not_done : t.busy ≡ true → (t.completed ≡ true) ⊎ (t.completed ≡ false) → t.completed ≡ false
      not_done busy (inl k) = ground (arith, b.agree.done_idle k, busy)
      not_done busy (inr k) = k

      made_lem :
          t.busy ≡ true
          → t.completed ≡ false
          → (output : ReadResult)
          → l.made ++ items output ≡ l.consumed ++ (items t.head ++ items output)
      made_lem busy undone output =
          let before : l.made ≡ l.consumed =
            b.to_syncer
            ∙ ap (λ x. l.consumed ++ (x ++ items t.result)) (b.agree.busy_alone busy)
            ∙ ap (λ x. l.consumed ++ x) (b.agree.result_done undone)
            ∙ append_nil l.consumed in
          ap (λ x. x ++ items output) before
          ∙ ap (λ x. l.consumed ++ (x ++ items output)) (sym (b.agree.busy_alone busy))

  offer-offers :
      (pending : ReadResult) (s : S) (pushed : Bool) (offered : S)
      → offer converter filter_in filter_out (is_null pending) s pending ≡ ok (pushed, offered)
      → ((is_null pending ≡ true) × (pushed ≡ false) × (offered ≡ s))
        ⊎ ((is_null pending ≡ false) × (converter.try_push s pending ≡ ok (pushed, offered)))
  offer-offers pending s pushed offered p = elim (Bool-cases (is_null pending)) [
    | inl n ↦
        let (none_pushed, same) : (pushed ≡ false) × (offered ≡ s) =
          ok-subst (λ x. (x.0 ≡ false) × (x.1 ≡ s)) (simp n at p) (refl, refl) in
        inl (n, none_pushed, same)
    | inr n ↦ inr (n, simp n at p)
  ]

  -- A round that does not throw has worked on its input.
  pub finish-Worked :
      (t : Track) (w : Worker) (s : S) (input : ReadResult)
      (r : Round converter filter_in filter_out)
      → finish converter filter_in filter_out t w s input ≡ ok r
      → Worked w s input
  unfolding finish
  finish-Worked t w s input r h =
      let (pending, f, h) =
        >>=-eq-ok (filtered converter filter_in filter_out (is_null input) input w.pending) _ h in
      let ((pushed, s1), p, h) =
        >>=-eq-ok (offer converter filter_in filter_out (is_null pending) s pending) _ h in
      let ((raw, s2), q, h) = >>=-eq-ok (converter.try_read s1) _ h in
      let (output, z, _) =
        >>=-eq-ok (refine converter filter_in filter_out (is_null raw) raw) _ h in
      record {
        pending = pending;
        pushed = pushed;
        offered = s1;
        raw = raw;
        after = s2;
        output = output;
        filters = f;
        offers = offer-offers pending s pushed s1 p;
        reads = q;
        refines = z;
      }
