-- ===== src/AvDecoder/Reads.antt =====
-- What the sections of the reader move.
use mw_streamer.Base.{
  ◌≡◌, refl, sym, subst, Bool, true, false, Option, none, some, List, [], ◌∷◌, ◌++◌, ℕ, ++-assoc,
  append_nil, if◌then◌else◌,
}
use mathlib.Core.Option.{some-injective}
use mw_streamer.Ffmpeg.{StreamInfo}
use mw_streamer.Media.{ReadResult}
use mw_streamer.BlockingQueue as Queue
use mw_streamer.BlockingQueue.{Done, pop, try_pop, pop_from, can_pop}
use mw_streamer.AvDecoder
use mw_streamer.AvDecoder.{
  AvDecoder, Reader, begin_read, pop_frame, read_done, end_read, end_from, set_read_signal,
}
use mw_streamer.AvDecoder.Runs.{in_hand}
use mw_streamer.AvDecoder.Sections.{Moved}

module _ {S : Type 0} (s : AvDecoder S) (outs : List ReadResult) where
  -- A section that only moves results between the queue and the reader.
  passes :
      (t : AvDecoder S) (outs' : List ReadResult) (reader : Reader)
      (q : Queue.BlockingQueue ReadResult)
      → t ≡ record s { reader = reader; frames = q }
      → q.closed ≡ s.frames.closed
      → (s.stopping ≡ false
          → (tail : List ReadResult)
          → outs' ++ (in_hand reader ++ (q.queue ++ tail))
            ≡ outs ++ (in_hand s.reader ++ (s.frames.queue ++ tail)))
      → (s.stopping ≡ true → outs' ≡ outs)
      → Moved s t [] outs outs'
  passes t outs' reader q e shut same none_read =
      subst (λ x. Moved s x [] outs outs') (sym e)
        (record {
          stop_same = refl;
          phase_same = refl;
          core_same = refl;
          packets_shut = refl;
          frames_shut = shut;
          shut_takes_none = λ h. refl;
          error_same = refl;
          reports_same = refl;
          queue_more = sym (append_nil s.packets.queue);
          results_same = same;
          reads_none = none_read;
        })

  pub begin_read-Moved : s.reader ≡ Reader.away → Moved s (begin_read s) [] outs outs
  unfolding begin_read
  begin_read-Moved e = by_stop s.stopping
    where
      by_stop :
          (stop : Bool)
          → Moved s (if stop then s else record s { reader = Reader.reading }) [] outs outs
      by_stop true = passes _ outs s.reader s.frames refl refl (λ live tail. refl) (λ over. refl)
      by_stop false =
          passes _ outs Reader.reading s.frames refl refl (λ live tail. rw e refl) (λ over. refl)

  pub set_read_signal-Moved : (signal : Option ℕ) → Moved s (set_read_signal s signal) [] outs outs
  unfolding set_read_signal Queue.set_read_signal
  set_read_signal-Moved signal =
      passes _ outs s.reader _ refl refl (λ live tail. refl) (λ over. refl)

  pub pop_frame-Moved :
      (wait : Bool) (t : AvDecoder S) → pop_frame s wait ≡ some t → Moved s t [] outs outs
  unfolding pop_frame pop try_pop
  pop_frame-Moved wait t k = by_reader s.reader refl k
    where
      by_queue :
          (q : List ReadResult)
          → s.frames.queue ≡ q
          → s.reader ≡ Reader.reading
          → Moved s
              (record s {
                frames = (pop_from q s.frames false).after;
                reader = Reader.got (pop_from q s.frames false).item;
              })
              []
              outs
              outs
      by_queue [] f e = passes _ outs _ _ refl refl (λ live tail. rw e refl) (λ over. refl)
      by_queue (r ∷ rest) f e =
          passes _ outs _ _ refl refl (λ live tail. rw e (rw f refl)) (λ over. refl)

      by_pop :
          (wait can : Bool)
          → s.reader ≡ Reader.reading
          → read_done
              (if wait
                then if can then some (pop_from s.frames.queue s.frames false) else none
                else some (pop_from s.frames.queue s.frames false))
              s
            ≡ some t
          → Moved s t [] outs outs
      by_pop true false e k = cc
      by_pop true true e k =
          subst (λ x. Moved s x [] outs outs) (some-injective _ _ k)
            (by_queue s.frames.queue refl e)
      by_pop false can e k =
          subst (λ x. Moved s x [] outs outs) (some-injective _ _ k)
            (by_queue s.frames.queue refl e)

      by_reader :
          (reader : Reader)
          → s.reader ≡ reader
          → AvDecoder.pop_from reader s wait ≡ some t
          → Moved s t [] outs outs
      by_reader Reader.away e k = cc
      by_reader (Reader.got r) e k = cc
      by_reader Reader.reading e k = by_pop wait (can_pop s.frames) e k

  pub end_read-Moved :
      (info : StreamInfo) (r : ReadResult) (t : AvDecoder S)
      → end_read info s ≡ some (r, t)
      → Moved s t [] outs (outs ++ (if s.stopping then [] else in_hand s.reader))
  unfolding end_read
  end_read-Moved info r t k = by_reader s.reader refl k
    where
      by_reader :
          (reader : Reader)
          → s.reader ≡ reader
          → end_from info reader s ≡ some (r, t)
          → Moved s t [] outs (outs ++ (if s.stopping then [] else in_hand s.reader))
      by_reader Reader.away e k = cc
      by_reader Reader.reading e k = cc
      by_reader (Reader.got read) e k =
          subst (λ x. Moved s x.1 [] outs (outs ++ (if s.stopping then [] else in_hand s.reader)))
            (some-injective _ _ k)
            (passes _ _ Reader.away s.frames refl refl
              (λ live tail. rw live (++-assoc outs (in_hand s.reader) (s.frames.queue ++ tail)))
              (λ over. rw over (append_nil outs)))
