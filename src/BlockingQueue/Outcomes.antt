-- ===== src/BlockingQueue/Outcomes.antt =====
-- What a push can come to, for the clients of the queue.
use mw_streamer.Base.{
  ◌≡◌, refl, Bool, true, false, Bool-cases, inl, inr, Option, none, some, [], ◌∷◌, ◌++◌,
  if◌then◌else◌,
}
use mw_streamer.BlockingQueue.{
  BlockingQueue, Done, Outcome, QueueResult, push, push_ready, can_push, returns, Notice,
  signal_reader,
}

module _ {ℓ} {A : Type ℓ} where
  -- It waits, or its item fits, or it ends without: the queue was closed, the time is over, or the
  -- copy of the item threw.
  pub data PushEnd (q : BlockingQueue A) (value : A) (expired : Bool)
      : Option (Done A) → Type ℓ where
    waits : PushEnd q value expired none
    fits :
        (done : Done A)
        → q.closed ≡ false
        → done.outcome ≡ Outcome.returned QueueResult.success
        → done.after ≡ record q { queue = q.queue ++ value ∷ [] }
        → PushEnd q value expired (some done)
    is_shut :
        (done : Done A)
        → q.closed ≡ true
        → done.outcome ≡ Outcome.returned QueueResult.closed
        → done.after ≡ q
        → PushEnd q value expired (some done)
    expires :
        (done : Done A)
        → expired ≡ true
        → done.outcome ≡ Outcome.returned QueueResult.timeout
        → done.after ≡ q
        → PushEnd q value expired (some done)
    breaks :
        (done : Done A)
        → q.closed ≡ false
        → done.outcome ≡ Outcome.threw
        → done.after ≡ q
        → PushEnd q value expired (some done)

  push_ready-PushEnd :
      (q : BlockingQueue A) (value : A) (throws expired : Bool)
      → PushEnd q value expired (some (push_ready q value throws))
  unfolding push_ready
  push_ready-PushEnd q value throws expired = by_closed q.closed throws refl
    where
      by_closed :
          (shut throws : Bool)
          → q.closed ≡ shut
          → PushEnd q value expired (
              some (
                if shut
                then returns QueueResult.closed q
                else if throws
                then record {
                  outcome = Outcome.threw;
                  item = none;
                  after = q;
                  notices = Notice.one_writer ∷ [];
                }
                else record {
                  outcome = Outcome.returned QueueResult.success;
                  item = none;
                  after = record q { queue = q.queue ++ value ∷ [] };
                  notices = Notice.one_reader ∷ signal_reader q.read_signal;
                }))
      by_closed true throws e = is_shut _ e refl refl
      by_closed false true e = breaks _ e refl refl
      by_closed false false e = fits _ e refl refl

  pub push-PushEnd :
      (q : BlockingQueue A) (value : A) (throws expired : Bool)
      → PushEnd q value expired (push q value throws expired)
  unfolding push
  push-PushEnd q value throws expired = elim (Bool-cases (can_push q)) [
    | inl can ↦ simp can (push_ready-PushEnd q value throws expired)
    | inr full ↦ simp full (by_time expired)
  ]
    where
      by_time :
          (expired : Bool)
          → PushEnd q value expired (
              if expired
              then some (record {
                outcome = Outcome.returned QueueResult.timeout;
                item = none;
                after = q;
                notices = [];
              })
              else none)
      by_time true = expires _ refl refl refl
      by_time false = waits
