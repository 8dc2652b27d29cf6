-- ===== src/BlockingQueue.antt =====
-- include/mw/streamer/platform/blocking_queue.h: the bounded queue between threads.
pub mod Order
pub mod Wakeup
pub mod Outcomes
pub mod Examples
use mw_streamer.Base.{
  Bool, true, false, not, ◌||◌, Option, none, some, List, [], ◌∷◌, ◌++◌, ℕ, ltb, ◌==◌, length,
  Result, ok, err, invalid_argument, ◌>>=◌, ◌>>◌, throw_if, if◌then◌else◌,
}

pub data QueueResult : Type 0 where
  success timeout empty closed : QueueResult

-- `read_signal` and `write_signal` name the registered signals that are still alive.
pub record BlockingQueue {ℓ} (A : Type ℓ) : Type ℓ where
  pub capacity : ℕ
  pub queue : List A
  pub read_signal : Option ℕ
  pub write_signal : Option ℕ
  pub closed : Bool

-- What a call wakes: threads that wait for an item or for room, and registered signals.
pub data Notice : Type 0 where
  one_reader one_writer all_readers all_writers : Notice
  reader_signal writer_signal : ℕ → Notice

abbrev pub signal_reader : Option ℕ → List Notice
signal_reader none = []
signal_reader (some signal) = Notice.reader_signal signal ∷ []

abbrev pub signal_writer : Option ℕ → List Notice
signal_writer none = []
signal_writer (some signal) = Notice.writer_signal signal ∷ []

abbrev pub is_empty {ℓ} : {A : Type ℓ} → List A → Bool
is_empty [] = true
is_empty (x ∷ xs) = false

-- What a call returns, the queue that it leaves, and what it wakes. It threw where the copy or the
-- move of the item did.
pub data Outcome : Type 0 where
  returned : QueueResult → Outcome
  threw finished : Outcome

pub record Done {ℓ} (A : Type ℓ) : Type ℓ where
  pub outcome : Outcome
  pub item : Option A
  pub after : BlockingQueue A
  pub notices : List Notice

-- The calls that change the queue, in the order in which they hold the mutex.
pub data Call {ℓ} (A : Type ℓ) : Type ℓ where
  pushes : A → Bool → Bool → Call A
  pops tries : Bool → Call A
  sets_read sets_write : Option ℕ → Call A
  closes : Call A

module _ {ℓ} {A : Type ℓ} where
  unfoldable pub make : ℕ → Result (BlockingQueue A)
  make capacity = do
    throw_if (capacity == 0) invalid_argument
    ok (record {
      capacity = capacity;
      queue = [];
      read_signal = none;
      write_signal = none;
      closed = false;
    })

  -- The predicates of the waits: room for an item, or an item, or the end.
  unfoldable pub can_push : BlockingQueue A → Bool
  can_push q = q.closed || ltb (length q.queue) q.capacity

  unfoldable pub can_pop : BlockingQueue A → Bool
  can_pop q = q.closed || not (is_empty q.queue)

  abbrev pub returns : QueueResult → BlockingQueue A → Done A
  returns r q = record { outcome = Outcome.returned r; item = none; after = q; notices = [] }

  -- `PushImpl`, once its wait is over. `throws`: the copy of the item throws.
  unfoldable pub push_ready : BlockingQueue A → A → Bool → Done A
  push_ready q value throws =
      if q.closed
      then returns QueueResult.closed q
      else if throws
      then record {
        outcome = Outcome.threw;
        item = none;
        after = q;
        notices = Notice.one_writer ∷ [];
      }
      else record {
        outcome = Outcome.returned QueueResult.success;
        item = none;
        after = record q { queue = q.queue ++ value ∷ [] };
        notices = Notice.one_reader ∷ signal_reader q.read_signal;
      }

  -- A push that can go on: its predicate holds, or its timeout has expired. Otherwise it waits.
  unfoldable pub push : BlockingQueue A → A → Bool → Bool → Option (Done A)
  push q value throws expired =
      if can_push q
      then some (push_ready q value throws)
      else if expired
      then some (returns QueueResult.timeout q)
      else none

  abbrev pub pop_from : List A → BlockingQueue A → Bool → Done A
  pop_from [] q throws = returns (if q.closed then QueueResult.closed else QueueResult.empty) q
  pop_from (value ∷ rest) q throws =
      if throws
      then record {
        outcome = Outcome.threw;
        item = none;
        after = q;
        notices = Notice.one_reader ∷ [];
      }
      else record {
        outcome = Outcome.returned QueueResult.success;
        item = some value;
        after = record q { queue = rest };
        notices = Notice.one_writer ∷ signal_writer q.write_signal;
      }

  -- `PopImpl`, which is also `TryPop`.
  unfoldable pub try_pop : BlockingQueue A → Bool → Done A
  try_pop q throws = pop_from q.queue q throws

  unfoldable pub pop : BlockingQueue A → Bool → Option (Done A)
  pop q throws = if can_pop q then some (try_pop q throws) else none

  unfoldable pub set_read_signal : BlockingQueue A → Option ℕ → Done A
  set_read_signal q signal = record {
    outcome = Outcome.finished;
    item = none;
    after = record q { read_signal = signal };
    notices = if can_pop q then signal_reader signal else [];
  }

  unfoldable pub set_write_signal : BlockingQueue A → Option ℕ → Done A
  set_write_signal q signal = record {
    outcome = Outcome.finished;
    item = none;
    after = record q { write_signal = signal };
    notices = if can_push q then signal_writer signal else [];
  }

  unfoldable pub close : BlockingQueue A → Done A
  close q = record {
    outcome = Outcome.finished;
    item = none;
    after = record q { closed = true };
    notices =
        Notice.all_readers
        ∷ Notice.all_writers
        ∷ (signal_reader q.read_signal ++ signal_writer q.write_signal);
  }

  abbrev pub size : BlockingQueue A → ℕ
  size q = length q.queue

  -- A call, or none while it has to wait.
  unfoldable pub perform : BlockingQueue A → Call A → Option (Done A)
  perform q (Call.pushes value throws expired) = push q value throws expired
  perform q (Call.pops throws) = pop q throws
  perform q (Call.tries throws) = some (try_pop q throws)
  perform q (Call.sets_read signal) = some (set_read_signal q signal)
  perform q (Call.sets_write signal) = some (set_write_signal q signal)
  perform q Call.closes = some (close q)
