-- ===== src/Recorder/Runs.antt =====
-- Runs of a recorder: any order of the calls and of the worker's sections, over many sessions.
use mw_streamer.Base.{
  ◌≡◌, inl, inr, refl, sym, ap, subst, ◌∙◌, true, false, Bool, Option, some, List, [], ◌++◌, ℕ, ◌+◌,
  ◌<◌, All, uint64_mod, ok, arith, >>=-eq-ok, ok-subst,
}
use mathlib.Core.Option.{some-injective}
use mw_streamer.Ffmpeg.{AvPacket, Packet, StreamInfo}
use mw_streamer.Recorder.{
  Headers, RecorderConfig, RecorderState, Worker, Recorder, initial, joinable, has_index,
  is_running, validate, begin, start, try_submit, advance, drain, join, join_from, set_on_error,
}
use mw_streamer.Recorder.Ledger.{held, Stage, total, Accounts}
use mw_streamer.Recorder.Steps.{wrote, advance-Accounts, drain-Accounts, moved-Accounts}
use mw_streamer.Recorder.Submission.{entered, overflowed, try_submit-Accounts}

-- A run, with what its last session has accepted, written and dropped.
pub data Run (h : Headers) : Recorder → List AvPacket → List AvPacket → ℕ → Type 0 where
  made : {s : Recorder} → s ≡ initial → Run h s [] [] 0
  started :
      {s : Recorder} {accepted written : List AvPacket} {dropped : ℕ} (streams : List StreamInfo)
      (config : RecorderConfig) (thread b : Bool) (t : Recorder)
      → Run h s accepted written dropped
      → joinable s.worker ≡ false
      → config.max_queue_bytes < uint64_mod
      → start h s streams config thread ≡ ok (b, t)
      → Run h t [] [] 0
  busy :
      {s : Recorder} {accepted written : List AvPacket} {dropped : ℕ} (streams : List StreamInfo)
      (config : RecorderConfig) (thread b : Bool) (t : Recorder)
      → Run h s accepted written dropped
      → joinable s.worker ≡ true
      → start h s streams config thread ≡ ok (b, t)
      → Run h t accepted written dropped
  submitted :
      {s : Recorder} {accepted written accepted_next : List AvPacket} {dropped dropped_next : ℕ}
      (packet : Packet) (b : Bool) (t : Recorder)
      → Run h s accepted written dropped
      → try_submit h s packet ≡ ok (b, t)
      → accepted_next ≡ accepted ++ entered b packet
      → dropped_next ≡ dropped + overflowed (is_running s.status.state) b
      → Run h t accepted_next written dropped_next
  advanced :
      {s : Recorder} {accepted written written_next : List AvPacket} {dropped : ℕ} (what : Option ℕ)
      (t : Recorder)
      → Run h s accepted written dropped
      → advance h s what ≡ some t
      → written_next ≡ written ++ wrote s.worker what
      → Run h t accepted written_next dropped
  drained :
      {s : Recorder} {accepted written : List AvPacket} {dropped : ℕ} (t : Recorder)
      → Run h s accepted written dropped
      → t ≡ drain s
      → Run h t accepted written dropped
  joined :
      {s : Recorder} {accepted written : List AvPacket} {dropped : ℕ} (t : Recorder)
      → Run h s accepted written dropped
      → join s ≡ some t
      → Run h t accepted written dropped
  observed :
      {s : Recorder} {accepted written : List AvPacket} {dropped : ℕ} (callback : Option ℕ)
      (t : Recorder)
      → Run h s accepted written dropped
      → t ≡ set_on_error s callback
      → Run h t accepted written dropped

module _ (h : Headers) where
  initial-Accounts : Accounts h initial [] [] 0
  unfolding total
  initial-Accounts = record {
    lost = [];
    in_order = refl;
    lost_if_failed = λ n. refl;
    bytes = refl;
    within = omega arith;
    is_size = omega arith;
    written_count = refl;
    dropped_count = refl;
    stage = (inl refl, refl);
    known = tt;
  }

  ended_empty :
      (w : Worker) (state : RecorderState) (q : List AvPacket)
      → joinable w ≡ false
      → Stage w state q
      → (w ≡ Worker.absent) × (q ≡ [])
  ended_empty Worker.absent state q j st = (refl, st.1)
  ended_empty Worker.opening state q j st = cc
  ended_empty Worker.waiting state q j st = cc
  ended_empty Worker.finishing state q j st = cc
  ended_empty Worker.done state q j st = cc
  ended_empty (Worker.writing p) state q j st = cc

  -- A session that has just begun.
  begun-Accounts :
      (t : Recorder)
      → t.queue ≡ []
      → held t.worker ≡ []
      → t.status.queue_bytes ≡ 0
      → t.status.written_packets ≡ 0
      → t.status.dropped_packets ≡ 0
      → t.config.max_queue_bytes < uint64_mod
      → Stage t.worker t.status.state t.queue
      → Accounts h t [] [] 0
  unfolding total
  begun-Accounts t q w b n d size stage = record {
    lost = [];
    in_order = ap (λ x. x ++ []) (sym q) ∙ ap (λ x. x ++ (t.queue ++ [])) (sym w);
    lost_if_failed = λ n. refl;
    bytes = b ∙ sym (ap (total h) q);
    within = omega arith;
    is_size = size;
    written_count = n;
    dropped_count = d;
    stage = stage;
    known =
        subst (All (λ p. has_index p.stream_index t.streams ≡ true))
          (ap (λ x. x ++ []) (sym w) ∙ ap (λ x. held t.worker ++ x) (sym q)) tt;
  }

  module _ (s : Recorder) (accepted written : List AvPacket) (dropped : ℕ)
      (a : Accounts h s accepted written dropped) where
    -- A new session starts with an empty queue.
    start-Accounts :
        (streams : List StreamInfo) (config : RecorderConfig) (thread b : Bool) (t : Recorder)
        → joinable s.worker ≡ false
        → config.max_queue_bytes < uint64_mod
        → start h s streams config thread ≡ ok (b, t)
        → Accounts h t [] [] 0
    unfolding start
    start-Accounts streams config thread b t j size k =
        let (w, e) = ended_empty s.worker s.status.state s.queue j a.stage in
        let (_, _, k) = >>=-eq-ok (validate h streams config) _ (simp j at k) in
        ok-subst (λ x. Accounts h x.1 [] [] 0) k (by_thread thread w e)
      where
        by_thread :
            (thread : Bool)
            → s.worker ≡ Worker.absent
            → s.queue ≡ []
            → Accounts h (begin s streams config thread) [] [] 0
        by_thread true w e = begun-Accounts _ e refl refl refl refl size (inl refl)
        by_thread false w e =
            begun-Accounts _ e (ap held w) refl refl refl size
              (subst (λ x. Stage x RecorderState.failed s.queue) (sym w) (inr refl, e))

    busy_lem :
        (streams : List StreamInfo) (config : RecorderConfig) (thread b : Bool) (t : Recorder)
        → joinable s.worker ≡ true
        → start h s streams config thread ≡ ok (b, t)
        → t ≡ s
    unfolding start
    busy_lem streams config thread b t j k = ok-subst (λ x. x.1 ≡ s) (simp j at k) refl

    join-Accounts : (t : Recorder) → join s ≡ some t → Accounts h t accepted written dropped
    unfolding join
    join-Accounts t k = by_worker s.worker refl k
      where
        by_worker :
            (w : Worker)
            → s.worker ≡ w
            → join_from w s ≡ some t
            → Accounts h t accepted written dropped
        by_worker Worker.absent e k =
            subst (λ x. Accounts h x accepted written dropped) (some-injective _ _ k) a
        by_worker Worker.opening e k = cc
        by_worker Worker.waiting e k = cc
        by_worker Worker.finishing e k = cc
        by_worker (Worker.writing p) e k = cc
        by_worker Worker.done e k =
            subst (λ x. Accounts h x accepted written dropped) (some-injective _ _ k)
              (moved-Accounts h s accepted written dropped a Worker.absent (ap held e)
                (subst (λ x. Stage x s.status.state s.queue) e a.stage))

    set_on_error-Accounts :
        (callback : Option ℕ) → Accounts h (set_on_error s callback) accepted written dropped
    unfolding set_on_error
    set_on_error-Accounts callback = record {
      lost = a.lost;
      in_order = a.in_order;
      lost_if_failed = a.lost_if_failed;
      bytes = a.bytes;
      within = a.within;
      is_size = a.is_size;
      written_count = a.written_count;
      dropped_count = a.dropped_count;
      stage = a.stage;
      known = a.known;
    }

  -- In every run, over any number of sessions and in any order of the calls and of the worker's
  -- sections: the packets that the session has accepted are, in order, those that were written,
  -- the one in the writer's hands, those that wait, and those that were lost, and none is lost
  -- unless the recorder failed. queue_bytes is exactly the size of what waits and is within
  -- max_queue_bytes; the counters are those of the packets written and dropped; every packet that
  -- the writer gets belongs to a track; and a worker that has ended leaves an empty queue.
  pub Run-Accounts :
      (s : Recorder) (accepted written : List AvPacket) (dropped : ℕ)
      → Run h s accepted written dropped
      → Accounts h s accepted written dropped
  Run-Accounts s accepted written dropped (made e) =
      subst (λ x. Accounts h x [] [] 0) (sym e) initial-Accounts
  Run-Accounts s accepted written dropped (started streams config thread b _ r j size k) =
      start-Accounts _ _ _ _ (Run-Accounts _ _ _ _ r) streams config thread b s j size k
  Run-Accounts s accepted written dropped (busy streams config thread b _ r j k) =
      let a = Run-Accounts _ accepted written dropped r in
      subst (λ x. Accounts h x accepted written dropped)
        (sym (busy_lem _ accepted written dropped a streams config thread b s j k)) a
  Run-Accounts s accepted written dropped (submitted {accepted = old} packet b _ r k e n) =
      subst (λ x. Accounts h s x written dropped) (sym e)
        (subst (λ x. Accounts h s (old ++ entered b packet) written x) (sym n)
          (try_submit-Accounts h _ _ _ _ (Run-Accounts _ _ _ _ r) packet b s k))
  Run-Accounts s accepted written dropped (advanced what _ r k e) =
      subst (λ x. Accounts h s accepted x dropped) (sym e)
        (advance-Accounts h _ _ _ _ (Run-Accounts _ _ _ _ r) what s k)
  Run-Accounts s accepted written dropped (drained _ r e) =
      subst (λ x. Accounts h x accepted written dropped) (sym e)
        (drain-Accounts h _ _ _ _ (Run-Accounts _ _ _ _ r))
  Run-Accounts s accepted written dropped (joined _ r k) =
      join-Accounts _ _ _ _ (Run-Accounts _ _ _ _ r) s k
  Run-Accounts s accepted written dropped (observed callback _ r e) =
      subst (λ x. Accounts h x accepted written dropped) (sym e)
        (set_on_error-Accounts _ _ _ _ (Run-Accounts _ _ _ _ r) callback)
