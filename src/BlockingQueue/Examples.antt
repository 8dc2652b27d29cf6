-- ===== src/BlockingQueue/Examples.antt =====
-- A queue with room for one item.
use mw_streamer.Base.{◌≡◌, refl, false, none, some, List, [], ◌∷◌, ◌++◌, ◌≤◌, ℕ, length, ok}
use mw_streamer.BlockingQueue.{
  BlockingQueue, QueueResult, Outcome, Notice, Done, Call, make, perform, push, push_ready,
  can_push,
}
use mw_streamer.BlockingQueue.Order.{Run, Run-fifo}
use mw_streamer.BlockingQueue.Wakeup.{WakesReaders, WakesWriters, PassesOn, perform-Wakes}

abbrev fresh : BlockingQueue ℕ
fresh = record {
  capacity = 1;
  queue = [];
  read_signal = some 4;
  write_signal = none;
  closed = false;
}

abbrev unbound : BlockingQueue ℕ
unbound = record fresh { read_signal = none }

abbrev pushed : Done ℕ
pushed = record {
  outcome = Outcome.returned QueueResult.success;
  item = none;
  after = record fresh { queue = 7 ∷ [] };
  notices = Notice.one_reader ∷ Notice.reader_signal 4 ∷ [];
}

make-unbound : make 1 ≡ ok unbound
unfolding make
make-unbound = refl

perform-pushed : perform fresh (Call.pushes 7 false false) ≡ some pushed
unfolding perform push push_ready can_push
perform-pushed = refl

abbrev pushed_unbound : Done ℕ
pushed_unbound = record pushed {
  after = record unbound { queue = 7 ∷ [] };
  notices = Notice.one_reader ∷ [];
}

perform-unbound : perform unbound (Call.pushes 7 false false) ≡ some pushed_unbound
unfolding perform push push_ready can_push
perform-unbound = refl

abbrev seven : List ℕ
seven = 7 ∷ []

Run-fifo_example : (seven ≡ [] ++ seven) × (length seven ≤ 1) × (pushed_unbound.after.capacity ≡ 1)
Run-fifo_example = Run-fifo 1 pushed_unbound.after seven [] (
    Run.called (Call.pushes 7 false false) pushed_unbound (Run.made make-unbound refl refl)
      perform-unbound refl refl)

perform-Wakes_example :
    WakesReaders fresh pushed
    × WakesWriters fresh pushed
    × PassesOn fresh (Call.pushes 7 false false) pushed
perform-Wakes_example = perform-Wakes fresh (Call.pushes 7 false false) pushed perform-pushed
