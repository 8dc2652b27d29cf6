-- ===== src/BlockingQueue/Wakeup.antt =====
-- `Push`, `Pop` and `Close`: the calls that wait, and the wake-ups that others owe them.
use mw_streamer.Base.{
  ◌≡◌, refl, ap, subst, ◌⊎◌, length, ◌<◌, inl, inr, true, false, Bool, Bool-cases, Option, none,
  some, List, [], ◌∷◌, ◌++◌, any, ◌||◌, arith, ℕ, ◌==◌, length-append, if◌then◌else◌,
}
use mathlib.Core.Option.{some-injective}
use mw_streamer.BlockingQueue.{
  QueueResult, Outcome, BlockingQueue, Notice, Done, Call, returns, can_push, can_pop, push_ready,
  push, pop_from, try_pop, pop, set_read_signal, set_write_signal, close, perform, signal_reader,
  signal_writer,
}

abbrev pub wakes_writer : Notice → Bool
wakes_writer Notice.one_writer = true
wakes_writer Notice.all_writers = true
wakes_writer _ = false

abbrev pub wakes_reader : Notice → Bool
wakes_reader Notice.one_reader = true
wakes_reader Notice.all_readers = true
wakes_reader _ = false

abbrev signals_reader : ℕ → Notice → Bool
signals_reader signal (Notice.reader_signal s) = s == signal
signals_reader signal _ = false

abbrev signals_writer : ℕ → Notice → Bool
signals_writer signal (Notice.writer_signal s) = s == signal
signals_writer signal _ = false

same_reader : (signal : ℕ) → (signal == signal) || false ≡ true
same_reader signal = ground arith

same_writer : (signal : ℕ) → (signal == signal) || false ≡ true
same_writer signal = ground arith

any_front :
    (signal : ℕ) (rest : List Notice)
    → (signal == signal) || any (signals_reader signal) rest ≡ true
any_front signal rest = ground arith

any_back :
    (signal : ℕ) (o : Option ℕ)
    → any (signals_writer signal) (signal_reader o ++ (Notice.writer_signal signal ∷ [])) ≡ true
any_back signal none = same_writer signal
any_back signal (some s) = same_writer signal

module _ {ℓ} {A : Type ℓ} where
  -- There is an item more, or the end: news for those who wait for an item.
  abbrev pub Gains : BlockingQueue A → BlockingQueue A → Type 0
  Gains q after =
      (length q.queue < length after.queue) ⊎ ((q.closed ≡ false) × (after.closed ≡ true))

  -- There is an item less, or the end: news for those who wait for room.
  abbrev pub Frees : BlockingQueue A → BlockingQueue A → Type 0
  Frees q after =
      (length after.queue < length q.queue) ⊎ ((q.closed ≡ false) × (after.closed ≡ true))

  -- A call with news for the readers wakes a thread that waits in Pop, and notifies the signal
  -- that is registered.
  abbrev pub WakesReaders : BlockingQueue A → Done A → Type 0
  WakesReaders q done =
      Gains q done.after
      → (any wakes_reader done.notices ≡ true)
        × ((signal : ℕ)
            → q.read_signal ≡ some signal
            → any (signals_reader signal) done.notices ≡ true)

  abbrev pub WakesWriters : BlockingQueue A → Done A → Type 0
  WakesWriters q done =
      Frees q done.after
      → (any wakes_writer done.notices ≡ true)
        × ((signal : ℕ)
            → q.write_signal ≡ some signal
            → any (signals_writer signal) done.notices ≡ true)

  -- What a call owes beside its news: one that throws wakes another thread that waits as it did,
  -- and a signal is notified when it is registered with an item, or room, or the end there.
  abbrev pub PassesOn : BlockingQueue A → Call A → Done A → Type 0
  PassesOn q (Call.pushes value throws expired) done =
      done.outcome ≡ Outcome.threw → any wakes_writer done.notices ≡ true
  PassesOn q (Call.pops throws) done =
      done.outcome ≡ Outcome.threw → any wakes_reader done.notices ≡ true
  PassesOn q (Call.tries throws) done =
      done.outcome ≡ Outcome.threw → any wakes_reader done.notices ≡ true
  PassesOn q (Call.sets_read signal) done =
      (n : ℕ) → signal ≡ some n → can_pop q ≡ true → any (signals_reader n) done.notices ≡ true
  PassesOn q (Call.sets_write signal) done =
      (n : ℕ) → signal ≡ some n → can_push q ≡ true → any (signals_writer n) done.notices ≡ true
  PassesOn q Call.closes done = Unit {0}

  abbrev Wakes : BlockingQueue A → Call A → Done A → Type 0
  Wakes q call done = WakesReaders q done × WakesWriters q done × PassesOn q call done

  no_gain : (q : BlockingQueue A) → ¬ Gains q q
  no_gain q (inl h) = omega arith
  no_gain q (inr (c, h)) = cc

  no_room : (q : BlockingQueue A) → ¬ Frees q q
  no_room q (inl h) = omega arith
  no_room q (inr (c, h)) = cc

  -- A call that leaves the contents as they are owes only what it passes on.
  kept-Wakes :
      (q : BlockingQueue A) (call : Call A) (outcome : Outcome) (item : Option A)
      (notices : List Notice)
      → PassesOn q call (record { outcome = outcome; item = item; after = q; notices = notices })
      → Wakes q call (record { outcome = outcome; item = item; after = q; notices = notices })
  kept-Wakes q call outcome item notices p =
      ((λ g. absurd (no_gain q g)), (λ g. absurd (no_room q g)), p)

  added-Wakes :
      (q : BlockingQueue A) (value : A) (throws expired : Bool)
      → Wakes q (Call.pushes value throws expired) (record {
        outcome = Outcome.returned QueueResult.success;
        item = none;
        after = record q { queue = q.queue ++ value ∷ [] };
        notices = Notice.one_reader ∷ signal_reader q.read_signal;
      })
  added-Wakes q value throws expired = (
    (λ g. (refl, λ signal e. rw e (same_reader signal))),
    (λ g. elim g [
      | inl h ↦ let n = length-append q.queue (value ∷ []) in absurd (omega arith)
      | inr (c, h) ↦ cc
    ]),
    (λ e. cc),
  )

  push_ready-Wakes :
      (q : BlockingQueue A) (value : A) (throws expired : Bool)
      → Wakes q (Call.pushes value throws expired) (push_ready q value throws)
  unfolding push_ready
  push_ready-Wakes q value throws expired = by_closed q.closed throws
    where
      by_closed :
          (shut throws' : Bool)
          → Wakes q (Call.pushes value throws expired) (
              if shut
              then returns QueueResult.closed q
              else if throws'
              then record {
                outcome = Outcome.threw;
                item = none;
                after = q;
                notices = Notice.one_writer ∷ [];
              }
              else record {
                outcome = Outcome.returned QueueResult.success;
                item = none;
                after = record q { queue = q.queue ++ value ∷ [] };
                notices = Notice.one_reader ∷ signal_reader q.read_signal;
              })
      by_closed true throws' =
          kept-Wakes q (Call.pushes value throws expired) (Outcome.returned QueueResult.closed) none
            [] (λ e. cc)
      by_closed false true =
          kept-Wakes q (Call.pushes value throws expired) Outcome.threw none
            (Notice.one_writer ∷ []) (λ e. refl)
      by_closed false false = added-Wakes q value throws expired

  -- `PassesOn` of the two calls that take an item is the same.
  pop_from-Wakes :
      (items : List A) (q : BlockingQueue A) (throws : Bool)
      → q.queue ≡ items
      → Wakes q (Call.tries throws) (pop_from items q throws)
  pop_from-Wakes [] q throws e =
      kept-Wakes q (Call.tries throws) (pop_from [] q throws).outcome none [] (λ e. cc)
  pop_from-Wakes (value ∷ rest) q true e =
      kept-Wakes q (Call.tries true) Outcome.threw none (Notice.one_reader ∷ []) (λ e. refl)
  pop_from-Wakes (value ∷ rest) q false e = (
    (λ g. elim g [ inl h ↦ let n = ap length e in absurd (omega arith) | inr (c, h) ↦ cc ]),
    (λ g. (refl, λ signal k. rw k (same_writer signal))),
    (λ e. cc),
  )

  push-Wakes :
      (q : BlockingQueue A) (value : A) (throws expired : Bool) (done : Done A)
      → push q value throws expired ≡ some done
      → Wakes q (Call.pushes value throws expired) done
  unfolding push
  push-Wakes q value throws expired done h = elim (Bool-cases (can_push q)) [
    | inl c ↦
        subst (Wakes q (Call.pushes value throws expired)) (some-injective _ _ (simp c at h))
          (push_ready-Wakes q value throws expired)
    | inr c ↦ by_time expired (simp c at h)
  ]
    where
      by_time :
          (e : Bool)
          → (if e
              then some (record {
                outcome = Outcome.returned QueueResult.timeout;
                item = none;
                after = q;
                notices = [];
              })
              else none)
            ≡ some done
          → Wakes q (Call.pushes value throws expired) done
      by_time true k = subst (Wakes q (Call.pushes value throws expired)) (some-injective _ _ k) (
          kept-Wakes q (Call.pushes value throws expired) (Outcome.returned QueueResult.timeout)
            none [] (λ e. cc))
      by_time false k = cc

  pop-Wakes :
      (q : BlockingQueue A) (throws : Bool) (done : Done A)
      → pop q throws ≡ some done
      → Wakes q (Call.pops throws) done
  unfolding pop try_pop
  pop-Wakes q throws done h = elim (Bool-cases (can_pop q)) [
    | inl c ↦
        subst (Wakes q (Call.pops throws)) (some-injective _ _ (simp c at h))
          (pop_from-Wakes q.queue q throws refl)
    | inr c ↦ ground (arith, h, c)
  ]

  close-Wakes : (q : BlockingQueue A) → Wakes q Call.closes (close q)
  unfolding close
  close-Wakes q = (
    (λ g. (refl, λ signal e. rw e (any_front signal (signal_writer q.write_signal)))),
    (λ g. (refl, λ signal e. rw e (any_back signal q.read_signal))),
    tt,
  )

  set_read-Wakes :
      (q : BlockingQueue A) (signal : Option ℕ)
      → Wakes q (Call.sets_read signal) (set_read_signal q signal)
  unfolding set_read_signal
  set_read-Wakes q signal = (
    (λ g. absurd (no_gain q g)),
    (λ g. absurd (no_room q g)),
    (λ n e can. rw (e, can) (same_reader n)),
  )

  set_write-Wakes :
      (q : BlockingQueue A) (signal : Option ℕ)
      → Wakes q (Call.sets_write signal) (set_write_signal q signal)
  unfolding set_write_signal
  set_write-Wakes q signal = (
    (λ g. absurd (no_gain q g)),
    (λ g. absurd (no_room q g)),
    (λ n e can. rw (e, can) (same_writer n)),
  )

  -- A call that adds an item or closes the queue wakes a thread that waits in Pop and notifies the
  -- registered read signal; one that takes an item or closes the queue wakes a thread that waits
  -- in Push and notifies the registered write signal. A push that throws wakes another thread that
  -- waits in Push, and a pop that throws another that waits in Pop. A signal that is registered
  -- while its side could go on is notified at once.
  pub perform-Wakes :
      (q : BlockingQueue A) (call : Call A) (done : Done A)
      → perform q call ≡ some done
      → WakesReaders q done × WakesWriters q done × PassesOn q call done
  unfolding perform try_pop
  perform-Wakes q (Call.pushes value throws expired) done h =
      push-Wakes q value throws expired done h
  perform-Wakes q (Call.pops throws) done h = pop-Wakes q throws done h
  perform-Wakes q (Call.tries throws) done h =
      subst (Wakes q (Call.tries throws)) (some-injective _ _ h)
        (pop_from-Wakes q.queue q throws refl)
  perform-Wakes q (Call.sets_read signal) done h =
      subst (Wakes q (Call.sets_read signal)) (some-injective _ _ h) (set_read-Wakes q signal)
  perform-Wakes q (Call.sets_write signal) done h =
      subst (Wakes q (Call.sets_write signal)) (some-injective _ _ h) (set_write-Wakes q signal)
  perform-Wakes q Call.closes done h =
      subst (Wakes q Call.closes) (some-injective _ _ h) (close-Wakes q)
