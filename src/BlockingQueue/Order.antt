-- ===== src/BlockingQueue/Order.antt =====
-- Runs of the queue, by calls of its operations.
use mw_streamer.Base.{
  ◌≡◌, refl, ap, sym, subst, ◌∙◌, inl, inr, true, false, Bool, Bool-cases, Option, none, some, List,
  [], ◌∷◌, ◌++◌, ℕ, ◌≤◌, length, length-append, append_nil, ++-assoc, ok, arith, if◌then◌else◌,
}
use mathlib.Core.Option.{some-injective}
use mw_streamer.BlockingQueue.{
  QueueResult, BlockingQueue, Outcome, Done, Call, make, can_push, can_pop, push_ready, push,
  pop_from, try_pop, pop, set_read_signal, set_write_signal, close, perform,
}

module _ {ℓ} {A : Type ℓ} where
  -- The items that a call takes in, and those that it gives out.
  abbrev pub taken : Call A → Outcome → List A
  taken (Call.pushes value _ _) (Outcome.returned QueueResult.success) = value ∷ []
  taken _ _ = []

  abbrev pub given : Option A → List A
  given none = []
  given (some value) = value ∷ []

  -- A run of calls, in the order in which they hold the mutex: what was accepted and delivered.
  pub data Run (capacity : ℕ) : BlockingQueue A → List A → List A → Type ℓ where
    made :
        {q : BlockingQueue A} {accepted delivered : List A}
        → make capacity ≡ ok q
        → accepted ≡ []
        → delivered ≡ []
        → Run capacity q accepted delivered
    called :
        {q : BlockingQueue A} {accepted delivered accepted_next delivered_next : List A}
        (call : Call A) (done : Done A)
        → Run capacity q accepted delivered
        → perform q call ≡ some done
        → accepted_next ≡ accepted ++ taken call done.outcome
        → delivered_next ≡ delivered ++ given done.item
        → Run capacity done.after accepted_next delivered_next

  -- What a call does to the contents, and to the end.
  pub record Changed (q : BlockingQueue A) (call : Call A) (done : Done A) : Type ℓ where
    pub contents : q.queue ++ taken call done.outcome ≡ given done.item ++ done.after.queue
    pub capacity_kept : done.after.capacity ≡ q.capacity
    pub room : length q.queue ≤ q.capacity → length done.after.queue ≤ q.capacity
    pub ends : q.closed ≡ true → (done.after.closed ≡ true) × (taken call done.outcome ≡ [])

  push_ready-Changed :
      (q : BlockingQueue A) (value : A) (throws expired : Bool)
      → can_push q ≡ true
      → Changed q (Call.pushes value throws expired) (push_ready q value throws)
  unfolding push_ready can_push
  push_ready-Changed q value throws expired room = elim (Bool-cases q.closed) [
    | inl c ↦ simp c (record {
      contents = append_nil q.queue;
      capacity_kept = refl;
      room = λ h. h;
      ends = λ h. (c, refl);
    })
    | inr c ↦ by_throw throws c
  ]
    where
      by_throw :
          (throws : Bool)
          → q.closed ≡ false
          → Changed q (Call.pushes value throws expired) (push_ready q value throws)
      by_throw true c = simp c (record {
        contents = append_nil q.queue;
        capacity_kept = refl;
        room = λ h. h;
        ends = λ h. (h, refl);
      })
      by_throw false c = simp c (record {
        contents = refl;
        capacity_kept = refl;
        room = λ h. let n = length-append q.queue (value ∷ []) in ground (arith, n, room, c);
        ends = λ h. ground (arith, h, c);
      })

  -- A call that changes neither the contents nor the end.
  kept-Changed :
      (q : BlockingQueue A) (call : Call A) (done : Done A)
      → taken call done.outcome ≡ []
      → done.item ≡ none
      → done.after.queue ≡ q.queue
      → done.after.capacity ≡ q.capacity
      → (q.closed ≡ true → done.after.closed ≡ true)
      → Changed q call done
  kept-Changed q call done t i k c e = record {
    contents = rw (t, i, k) (append_nil q.queue);
    capacity_kept = c;
    room = λ h. rw k h;
    ends = λ h. (e h, t);
  }

  pop_from-Changed :
      (items : List A) (q : BlockingQueue A) (throws : Bool) (call : Call A)
      → ((o : Outcome) → taken call o ≡ [])
      → q.queue ≡ items
      → Changed q call (pop_from items q throws)
  pop_from-Changed [] q throws call none_taken e =
      kept-Changed q call _ (none_taken _) refl refl refl (λ h. h)
  pop_from-Changed (value ∷ rest) q true call none_taken e =
      kept-Changed q call _ (none_taken _) refl refl refl (λ h. h)
  pop_from-Changed (value ∷ rest) q false call none_taken e = record {
    contents = rw (none_taken (Outcome.returned QueueResult.success)) (append_nil q.queue ∙ e);
    capacity_kept = refl;
    room = λ h. ground (arith, ap length e, h);
    ends = λ h. (h, none_taken _);
  }

  push-Changed :
      (q : BlockingQueue A) (value : A) (throws expired : Bool) (done : Done A)
      → push q value throws expired ≡ some done
      → Changed q (Call.pushes value throws expired) done
  unfolding push
  push-Changed q value throws expired done h = elim (Bool-cases (can_push q)) [
    | inl c ↦
        subst (Changed q (Call.pushes value throws expired)) (some-injective _ _ (simp c at h))
          (push_ready-Changed q value throws expired c)
    | inr c ↦ by_time expired (simp c at h)
  ]
    where
      by_time :
          (e : Bool)
          → (if e
              then some (record {
                outcome = Outcome.returned QueueResult.timeout;
                item = none;
                after = q;
                notices = [];
              })
              else none)
            ≡ some done
          → Changed q (Call.pushes value throws expired) done
      by_time true k =
          subst (Changed q (Call.pushes value throws expired)) (some-injective _ _ k)
            (kept-Changed q _ _ refl refl refl refl (λ h. h))
      by_time false k = ground (arith, k)

  pop-Changed :
      (q : BlockingQueue A) (throws : Bool) (done : Done A)
      → pop q throws ≡ some done
      → Changed q (Call.pops throws) done
  unfolding pop try_pop
  pop-Changed q throws done h = elim (Bool-cases (can_pop q)) [
    | inl c ↦
        subst (Changed q (Call.pops throws)) (some-injective _ _ (simp c at h))
          (pop_from-Changed q.queue q throws (Call.pops throws) (λ o. refl) refl)
    | inr c ↦ ground (arith, h, c)
  ]

  perform-Changed :
      (q : BlockingQueue A) (call : Call A) (done : Done A)
      → perform q call ≡ some done
      → Changed q call done
  unfolding perform try_pop set_read_signal set_write_signal close
  perform-Changed q (Call.pushes value throws expired) done h =
      push-Changed q value throws expired done h
  perform-Changed q (Call.pops throws) done h = pop-Changed q throws done h
  perform-Changed q (Call.tries throws) done h =
      subst (Changed q (Call.tries throws)) (some-injective _ _ h)
        (pop_from-Changed q.queue q throws (Call.tries throws) (λ o. refl) refl)
  perform-Changed q (Call.sets_read signal) done h =
      subst (Changed q (Call.sets_read signal)) (some-injective _ _ h)
        (kept-Changed q _ _ refl refl refl refl (λ h. h))
  perform-Changed q (Call.sets_write signal) done h =
      subst (Changed q (Call.sets_write signal)) (some-injective _ _ h)
        (kept-Changed q _ _ refl refl refl refl (λ h. h))
  perform-Changed q Call.closes done h =
      subst (Changed q Call.closes) (some-injective _ _ h)
        (kept-Changed q _ _ refl refl refl refl (λ h. refl))

  fresh_lem :
      (capacity : ℕ) (q : BlockingQueue A)
      → make capacity ≡ ok q
      → (q.queue ≡ []) × (q.capacity ≡ capacity)
  unfolding make
  fresh_lem capacity q h = (ground arith, ground arith)

  -- In every run, what was accepted is what was delivered and then what is queued, in one order;
  -- and the queue holds no more than its capacity.
  pub Run-fifo :
      (capacity : ℕ) (q : BlockingQueue A) (accepted delivered : List A)
      → Run capacity q accepted delivered
      → (accepted ≡ delivered ++ q.queue) × (length q.queue ≤ capacity) × (q.capacity ≡ capacity)
  Run-fifo capacity q accepted delivered (made h a d) =
      let (e, c) = fresh_lem capacity q h in (rw (a, d, e) refl, rw e (omega arith), c)
  Run-fifo capacity q accepted delivered
        (called {q = p} {accepted = a} {delivered = d} call done before h i j) =
      let (order, room, size) = Run-fifo capacity p a d before in
      let change = perform-Changed p call done h in
      (
        i
            ∙ rw (order, ++-assoc d p.queue (taken call done.outcome), change.contents)
                (sym (rw j (++-assoc d (given done.item) done.after.queue))),
        subst (λ c. length done.after.queue ≤ c) size (change.room (rw size room)),
        change.capacity_kept ∙ size,
      )
