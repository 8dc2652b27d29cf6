-- ===== src/Recorder/Draining.antt =====
-- The end of a session: the worker writes what waits, and finishes the file.
use mw_streamer.Base.{
  ◌≡◌, ◌⊎◌, inl, inr, refl, sym, ap, subst, ◌∙◌, none, some, List, [], ◌∷◌, ◌++◌, ℕ, zero, suc, ◌+◌,
  ◌*◌, ◌%◌, ◌≤◌, length, append_nil, arith, uint64_mod, sub_uint64, if◌then◌else◌,
}
use mw_streamer.Ffmpeg.{AvPacket}
use mw_streamer.Recorder.{
  Headers, RecorderState, Worker, Recorder, advance, drain, advance_from, take_front, is_running,
  packet_bytes,
}
use mw_streamer.Recorder.Ledger.{held, HasEnded, Stage}
use mw_streamer.Recorder.Steps.{wrote}
use mw_streamer.Recorder.Runs.{Run, advanced, drained, Run-Accounts}

-- How many sections the worker has left, once no packet comes any more.
abbrev pub sections : Worker → List AvPacket → ℕ
sections Worker.absent q = 0
sections Worker.opening q = 2 * length q + 3
sections Worker.waiting q = 2 * length q + 2
sections (Worker.writing p) q = 2 * length q + 3
sections Worker.finishing q = 1
sections Worker.done q = 0

sections-le : (w : Worker) (q : List AvPacket) → sections w q ≤ 2 * length q + 3
sections-le Worker.absent q = omega arith
sections-le Worker.opening q = omega arith
sections-le Worker.waiting q = omega arith
sections-le (Worker.writing p) q = omega arith
sections-le Worker.finishing q = omega arith
sections-le Worker.done q = omega arith

module _ (h : Headers) where
  -- That many sections of the worker, with a writer that does not throw.
  pub work : ℕ → Recorder → Recorder
  work zero s = s
  work (suc n) s = elim (advance h s none) [ none ↦ s | some t ↦ work n t ]

  record Progress (s : Recorder) : Type 0 where
    next : Recorder
    advances : advance h s none ≡ some next
    outcome :
        ((next.status.state ≡ RecorderState.stopping)
          × (sections next.worker next.queue + 1 ≡ sections s.worker s.queue))
        ⊎ ((next.status.state ≡ RecorderState.stopped)
            × (next.worker ≡ Worker.done)
            × (sections s.worker s.queue ≡ 1))

  not_ended :
      {state : RecorderState} {q : List AvPacket} {P : Type 0}
      → HasEnded state × (q ≡ [])
      → state ≡ RecorderState.stopping
      → P
  not_ended g st = elim g.0 [ inl a ↦ cc | inr b ↦ cc ]

  progresses :
      (s : Recorder) (w : Worker) (q : List AvPacket)
      → s.worker ≡ w
      → s.queue ≡ q
      → s.status.state ≡ RecorderState.stopping
      → Stage w s.status.state q
      → Progress s
  unfolding advance
  progresses s Worker.absent q e f st g = not_ended g st
  progresses s Worker.done q e f st g = not_ended g st
  progresses s Worker.opening q e f st g = record {
    next = record s { worker = Worker.waiting };
    advances = rw e refl;
    outcome = inl (st, rw e (omega arith));
  }
  progresses s (Worker.writing p) q e f st g = record {
    next = record s {
      status = record s.status { written_packets = (s.status.written_packets + 1) % uint64_mod };
      worker = Worker.waiting;
    };
    advances = rw e refl;
    outcome = inl (st, rw e (omega arith));
  }
  progresses s Worker.finishing q e f st g = record {
    next = record s {
      status = record s.status { state = RecorderState.stopped };
      worker = Worker.done;
    };
    advances = rw e refl;
    outcome = inr (refl, refl, rw e refl);
  }
  progresses s Worker.waiting [] e f st g = record {
    next = record s { worker = Worker.finishing };
    advances =
        ap (λ w. advance_from h w s none) e
        ∙ ap (λ q. take_front h q s) f
        ∙ ap (λ x. if is_running x then none else some (record s { worker = Worker.finishing })) st;
    outcome = inl (st, sym (ap (λ w. sections w s.queue) e ∙ ap (sections Worker.waiting) f));
  }
  progresses s Worker.waiting (p ∷ q) e f st g = record {
    next = record s {
      queue = q;
      status = record s.status { queue_bytes = sub_uint64 s.status.queue_bytes (packet_bytes h p) };
      worker = Worker.writing p;
    };
    advances = ap (λ w. advance_from h w s none) e ∙ ap (λ q. take_front h q s) f;
    outcome = inl (
      st,
      let a = ap (λ w. sections w s.queue) e ∙ ap (sections Worker.waiting) f in omega (arith, a),
    );
  }

  -- Where a run ends: the file is finished, and all that was accepted is written.
  pub record Finished (t : Recorder) (accepted : List AvPacket) (dropped : ℕ) : Type 0 where
    pub ended : t.worker ≡ Worker.done
    pub is_stopped : t.status.state ≡ RecorderState.stopped
    pub reached : Run h t accepted accepted dropped
    pub counted : t.status.written_packets ≡ length accepted % uint64_mod

  stopped-Finished :
      (t : Recorder) (accepted written : List AvPacket) (dropped : ℕ)
      → Run h t accepted written dropped
      → t.status.state ≡ RecorderState.stopped
      → t.worker ≡ Worker.done
      → Finished t accepted dropped
  stopped-Finished t accepted written dropped run st w =
      let a = Run-Accounts h t accepted written dropped run in
      let (_, empty) = subst (λ x. Stage x t.status.state t.queue) w a.stage in
      let all_written : accepted ≡ written =
        a.in_order
        ∙ ap (λ x. written ++ (held x ++ (t.queue ++ a.lost))) w
        ∙ ap (λ x. written ++ (x ++ a.lost)) empty
        ∙ ap (λ x. written ++ x) (a.lost_if_failed (λ f. cc))
        ∙ append_nil written in
      record {
        ended = w;
        is_stopped = st;
        reached = subst (λ x. Run h t accepted x dropped) (sym all_written) run;
        counted = a.written_count ∙ ap (λ x. length x % uint64_mod) (sym all_written);
      }

  work_none : (n : ℕ) (t : Recorder) → t.worker ≡ Worker.done → work n t ≡ t
  unfolding work advance
  work_none zero t e = refl
  work_none (suc n) t e = rw e refl

  progress :
      (s : Recorder) (accepted written : List AvPacket) (dropped : ℕ)
      → Run h s accepted written dropped
      → s.status.state ≡ RecorderState.stopping
      → Progress s
  progress s accepted written dropped run st =
      progresses s s.worker s.queue refl refl st
        (Run-Accounts h s accepted written dropped run).stage

  work_lem :
      (n : ℕ) (s : Recorder) (accepted written : List AvPacket) (dropped : ℕ)
      → Run h s accepted written dropped
      → s.status.state ≡ RecorderState.stopping
      → n ≡ sections s.worker s.queue
      → Finished (work n s) accepted dropped
  unfolding work
  work_lem zero s accepted written dropped run st e =
      elim (progress s accepted written dropped run st).outcome [
        | inl (_, n) ↦ absurd (omega (arith, n))
        | inr (_, _, n) ↦ absurd (omega (arith, n))
      ]
  work_lem (suc n) s accepted written dropped run st e =
      let p = progress s accepted written dropped run st in
      let further = advanced none p.next run p.advances refl in
      rw (p.advances, work)
        (elim p.outcome [
          | inl (st', m) ↦
              work_lem n p.next accepted (written ++ wrote s.worker none) dropped further st'
                (omega (arith, m))
          | inr (st', w, m) ↦
              subst (λ x. Finished x accepted dropped) (sym (work_none n p.next w))
                (stopped-Finished p.next accepted (written ++ wrote s.worker none) dropped further
                  st' w)
        ])

  -- After Drain, with a writer that does not throw, the worker ends after at most two sections for
  -- each packet that waits and three more. The recorder is then stopped, it has written all that it
  -- had accepted, and it has counted just that.
  pub drain_finishes :
      (s : Recorder) (accepted written : List AvPacket) (dropped : ℕ)
      → Run h s accepted written dropped
      → s.status.state ≡ RecorderState.running
      → (n : ℕ) × (n ≤ 2 * length s.queue + 3) × Finished (work n (drain s)) accepted dropped
  unfolding drain
  drain_finishes s accepted written dropped run e = (
    sections s.worker s.queue,
    sections-le s.worker s.queue,
    work_lem (sections s.worker s.queue) (drain s) accepted written dropped
        (drained (drain s) run refl) (rw e refl) (rw e refl),
  )
