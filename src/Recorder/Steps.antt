-- ===== src/Recorder/Steps.antt =====
-- Each operation of a recorder and its accounts.
use mw_streamer.Base.{
  ◌≡◌, inl, inr, refl, sym, ap, subst, ◌∙◌, true, Option, none, some, List, [], ◌∷◌, ◌++◌, ℕ, ◌+◌,
  ◌%◌, ◌<◌, length-append, append_nil, ++-assoc, All, uint64_mod, sub_uint64, arith,
}
use mathlib.Core.Option.{some-injective}
use mw_streamer.Ffmpeg.{AvPacket}
use mw_streamer.Recorder.{
  Headers, RecorderState, Worker, Recorder, packet_bytes, has_index, advance, advance_from, fail,
  drain, take_front,
}
use mw_streamer.Recorder.Ledger.{held, Stage, total, Accounts}

-- The packet that a section of the worker has written.
abbrev pub wrote : Worker → Option ℕ → List AvPacket
wrote (Worker.writing p) none = p ∷ []
wrote _ _ = []

taken_bytes :
    (queued n rest : ℕ) → queued ≡ n + rest → queued < uint64_mod → sub_uint64 queued n ≡ rest
unfolding sub_uint64
taken_bytes queued n rest e small = omega arith

module _ (h : Headers) where
  -- At a failure the packet in hand and the queue are lost.
  fail-Accounts :
      (s : Recorder) (accepted written : List AvPacket) (dropped what : ℕ)
      → Accounts h s accepted written dropped
      → Accounts h (fail h s what) accepted written dropped
  unfolding fail total
  fail-Accounts s accepted written dropped what a = record {
    lost = held s.worker ++ (s.queue ++ a.lost);
    in_order = a.in_order;
    lost_if_failed = λ n. absurd (n refl);
    bytes = refl;
    within = omega arith;
    is_size = a.is_size;
    written_count = a.written_count;
    dropped_count = a.dropped_count;
    stage = (inr refl, refl);
    known = tt;
  }

  module _ (s : Recorder) (accepted written : List AvPacket) (dropped : ℕ)
      (a : Accounts h s accepted written dropped) where
    -- A section that only moves the worker on, without a packet in hand.
    pub moved-Accounts :
        (w : Worker)
        → held s.worker ≡ held w
        → Stage w s.status.state s.queue
        → Accounts h (record s { worker = w }) accepted written dropped
    moved-Accounts w e stage = record {
      lost = a.lost;
      in_order = a.in_order ∙ ap (λ x. written ++ (x ++ (s.queue ++ a.lost))) e;
      lost_if_failed = a.lost_if_failed;
      bytes = a.bytes;
      within = a.within;
      is_size = a.is_size;
      written_count = a.written_count;
      dropped_count = a.dropped_count;
      stage = stage;
      known =
          subst (All (λ p. has_index p.stream_index s.streams ≡ true)) (ap (λ x. x ++ s.queue) e)
            a.known;
    }

    taken-Accounts :
        (p : AvPacket) (rest : List AvPacket)
        → s.queue ≡ p ∷ rest
        → s.worker ≡ Worker.waiting
        → Accounts h
            (record s {
              queue = rest;
              status = record s.status {
                queue_bytes = sub_uint64 s.status.queue_bytes (packet_bytes h p);
              };
              worker = Worker.writing p;
            })
            accepted
            written
            dropped
    unfolding total
    taken-Accounts p rest e w =
        let left =
          taken_bytes _ (packet_bytes h p) (total h rest) (a.bytes ∙ ap (total h) e)
            (let b = a.within in let c = a.is_size in omega arith) in
        record {
          lost = a.lost;
          in_order =
              a.in_order
              ∙ ap (λ x. written ++ (held x ++ (s.queue ++ a.lost))) w
              ∙ ap (λ x. written ++ (x ++ a.lost)) e;
          lost_if_failed = a.lost_if_failed;
          bytes = left;
          within = let b = a.within in let c = a.bytes ∙ ap (total h) e in omega (arith, left);
          is_size = a.is_size;
          written_count = a.written_count;
          dropped_count = a.dropped_count;
          stage = subst (λ x. Stage x s.status.state s.queue) w a.stage;
          known =
              subst (All (λ p. has_index p.stream_index s.streams ≡ true))
                (ap (λ x. held x ++ s.queue) w ∙ e) a.known;
        }

    written-Accounts :
        (p : AvPacket)
        → s.worker ≡ Worker.writing p
        → Accounts h
            (record s {
              status = record s.status {
                written_packets = (s.status.written_packets + 1) % uint64_mod;
              };
              worker = Worker.waiting;
            })
            accepted
            (written ++ p ∷ [])
            dropped
    written-Accounts p w = record {
      lost = a.lost;
      in_order =
          a.in_order
          ∙ ap (λ x. written ++ (held x ++ (s.queue ++ a.lost))) w
          ∙ sym (++-assoc written (p ∷ []) (s.queue ++ a.lost));
      lost_if_failed = a.lost_if_failed;
      bytes = a.bytes;
      within = a.within;
      is_size = a.is_size;
      written_count =
          let c = a.written_count in let n = length-append written (p ∷ []) in omega arith;
      dropped_count = a.dropped_count;
      stage = subst (λ x. Stage x s.status.state s.queue) w a.stage;
      known =
          (subst (λ x. All (λ p. has_index p.stream_index s.streams ≡ true) (held x ++ s.queue)) w
            a.known).1;
    }

    finished-Accounts :
        s.worker ≡ Worker.finishing
        → Accounts h
            (record s {
              status = record s.status { state = RecorderState.stopped };
              worker = Worker.done;
            })
            accepted
            written
            dropped
    finished-Accounts w =
        let (e, empty) = subst (λ x. Stage x s.status.state s.queue) w a.stage in
        record {
          lost = a.lost;
          in_order = a.in_order ∙ ap (λ x. written ++ (held x ++ (s.queue ++ a.lost))) w;
          lost_if_failed = λ n. a.lost_if_failed (λ f. cc);
          bytes = a.bytes;
          within = a.within;
          is_size = a.is_size;
          written_count = a.written_count;
          dropped_count = a.dropped_count;
          stage = (inl refl, empty);
          known =
              subst (λ x. All (λ p. has_index p.stream_index s.streams ≡ true) (held x ++ s.queue))
                w a.known;
        }

    front-Accounts :
        (q : List AvPacket) (t : Recorder)
        → s.queue ≡ q
        → s.worker ≡ Worker.waiting
        → take_front h q s ≡ some t
        → Accounts h t accepted written dropped
    front-Accounts [] t e w k = elim (subst (λ x. Stage x s.status.state s.queue) w a.stage) [
      | inl r ↦ cc (simp r at k)
      | inr r ↦
          subst (λ x. Accounts h x accepted written dropped) (some-injective _ _ (simp r at k))
            (moved-Accounts Worker.finishing (ap held w) (r, e))
    ]
    front-Accounts (p ∷ rest) t e w k =
        subst (λ x. Accounts h x accepted written dropped) (some-injective _ _ k)
          (taken-Accounts p rest e w)

    unwritten :
        (t t' : Recorder)
        → some t ≡ some t'
        → Accounts h t accepted written dropped
        → Accounts h t' accepted (written ++ []) dropped
    unwritten t t' e b =
        subst (λ x. Accounts h x accepted (written ++ []) dropped) (some-injective _ _ e)
          (subst (λ x. Accounts h t accepted x dropped) (sym (append_nil written)) b)

    failed-Accounts : (what : ℕ) → Accounts h (fail h s what) accepted written dropped
    failed-Accounts what = fail-Accounts s accepted written dropped what a

    advance_from-Accounts :
        (w : Worker) (what : Option ℕ) (t : Recorder)
        → s.worker ≡ w
        → advance_from h w s what ≡ some t
        → Accounts h t accepted (written ++ wrote w what) dropped
    advance_from-Accounts Worker.absent what t e k = cc
    advance_from-Accounts Worker.done what t e k = cc
    advance_from-Accounts Worker.opening none t e k = unwritten _ t k (
        moved-Accounts Worker.waiting (ap held e)
          (subst (λ x. Stage x s.status.state s.queue) e a.stage))
    advance_from-Accounts Worker.opening (some x) t e k = unwritten _ t k (failed-Accounts x)
    advance_from-Accounts Worker.waiting what t e k =
        unwritten t t refl (front-Accounts s.queue t refl e k)
    advance_from-Accounts (Worker.writing p) none t e k =
        subst (λ x. Accounts h x accepted (written ++ p ∷ []) dropped) (some-injective _ _ k)
          (written-Accounts p e)
    advance_from-Accounts (Worker.writing p) (some x) t e k = unwritten _ t k (failed-Accounts x)
    advance_from-Accounts Worker.finishing none t e k = unwritten _ t k (finished-Accounts e)
    advance_from-Accounts Worker.finishing (some x) t e k = unwritten _ t k (failed-Accounts x)

    pub advance-Accounts :
        (what : Option ℕ) (t : Recorder)
        → advance h s what ≡ some t
        → Accounts h t accepted (written ++ wrote s.worker what) dropped
    unfolding advance
    advance-Accounts what t k = advance_from-Accounts s.worker what t refl k

    drain-stage :
        (w : Worker) (q : List AvPacket)
        → Stage w s.status.state q
        → s.status.state ≡ RecorderState.running
        → Stage w RecorderState.stopping q
    drain-stage Worker.absent q st e = elim st.0 [ inl x ↦ cc | inr x ↦ cc ]
    drain-stage Worker.opening q st e = inr refl
    drain-stage Worker.waiting q st e = inr refl
    drain-stage (Worker.writing p) q st e = inr refl
    drain-stage Worker.finishing q st e = (refl, st.1)
    drain-stage Worker.done q st e = elim st.0 [ inl x ↦ cc | inr x ↦ cc ]

    pub drain-Accounts : Accounts h (drain s) accepted written dropped
    unfolding drain
    drain-Accounts = by_state s.status.state refl
      where
        by_state :
            (st : RecorderState)
            → s.status.state ≡ st
            → Accounts h (drain s) accepted written dropped
        by_state RecorderState.running e = simp e (record {
          lost = a.lost;
          in_order = a.in_order;
          lost_if_failed = λ n. a.lost_if_failed (λ f. cc);
          bytes = a.bytes;
          within = a.within;
          is_size = a.is_size;
          written_count = a.written_count;
          dropped_count = a.dropped_count;
          stage = drain-stage s.worker s.queue a.stage e;
          known = a.known;
        })
        by_state RecorderState.stopped e = simp e a
        by_state RecorderState.stopping e = simp e a
        by_state RecorderState.failed e = simp e a
