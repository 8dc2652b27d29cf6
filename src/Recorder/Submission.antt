-- ===== src/Recorder/Submission.antt =====
-- TrySubmitPacket: what it accepts, and the accounts after it.
use mw_streamer.Base.{
  ◌≡◌, inl, inr, refl, sym, ap, subst, ◌∙◌, true, false, Bool, none, some, List, [], ◌∷◌, ◌++◌, ℕ,
  ◌+◌, ◌-◌, ◌%◌, ◌<◌, ◌≤◌, append_nil, ++-assoc, All, All-append, uint64_mod, sub_uint64, Result,
  ok, arith, if◌then◌else◌, invalid_argument, ok-subst, >>=-eq-ok, throw_if,
}
use mw_streamer.Ffmpeg.{AvPacket, Packet, StreamInfo}
use mw_streamer.Recorder.{
  Headers, RecorderState, Worker, Recorder, packet_bytes, has_index, is_running, admit_if, is_full,
  bad_packet, submit_raw, try_submit,
}
use mw_streamer.Recorder.Ledger.{held, Stage, total, Accounts}

pub room_left :
    (most queued : ℕ) → queued ≤ most → most < uint64_mod → sub_uint64 most queued ≡ most - queued
unfolding sub_uint64
room_left most queued a b = omega arith

abbrev pub entered : Bool → Packet → List AvPacket
entered true (some p) = p ∷ []
entered _ _ = []

-- A packet that was dropped while the recorder ran.
abbrev pub overflowed : Bool → Bool → ℕ
overflowed true false = 1
overflowed _ _ = 0

module _ (h : Headers) where
  pub total-append : (xs ys : List AvPacket) → total h (xs ++ ys) ≡ total h xs + total h ys
  unfolding total
  total-append [] ys = omega arith
  total-append (x ∷ xs) ys = omega (arith, total-append xs ys)

  total-one : (p : AvPacket) → total h (p ∷ []) ≡ packet_bytes h p
  unfolding total
  total-one p = omega arith

  index_found :
      (streams : List StreamInfo) (p : AvPacket) (u : Unit {0})
      → throw_if (bad_packet h streams p) invalid_argument ≡ ok u
      → has_index p.stream_index streams ≡ true
  index_found streams p u k = ground arith

  module _ (s : Recorder) (accepted written : List AvPacket) (dropped : ℕ)
      (a : Accounts h s accepted written dropped) where
    appended-stage :
        (w : Worker) (p : AvPacket)
        → Stage w s.status.state s.queue
        → s.status.state ≡ RecorderState.running
        → Stage w s.status.state (s.queue ++ p ∷ [])
    appended-stage Worker.absent p st e = elim st.0 [ inl x ↦ cc | inr x ↦ cc ]
    appended-stage Worker.opening p st e = st
    appended-stage Worker.waiting p st e = st
    appended-stage (Worker.writing x) p st e = st
    appended-stage Worker.finishing p st e = cc
    appended-stage Worker.done p st e = elim st.0 [ inl x ↦ cc | inr x ↦ cc ]

    fits :
        (p : AvPacket)
        → is_full h s p ≡ false
        → s.status.queue_bytes + packet_bytes h p ≤ s.config.max_queue_bytes
    fits p full =
        let w = a.within in
        let e = room_left s.config.max_queue_bytes s.status.queue_bytes w a.is_size in
        ground (arith, full, e)

    admit_if-Accounts :
        (full : Bool) (p : AvPacket)
        → is_full h s p ≡ full
        → s.status.state ≡ RecorderState.running
        → has_index p.stream_index s.streams ≡ true
        → Accounts h
            (admit_if h full s p).1
            (accepted ++ entered (admit_if h full s p).0 (some p))
            written
            (dropped + overflowed true (admit_if h full s p).0)
    admit_if-Accounts true p full runs found = record {
      lost = a.lost;
      in_order = append_nil accepted ∙ a.in_order;
      lost_if_failed = a.lost_if_failed;
      bytes = a.bytes;
      within = a.within;
      is_size = a.is_size;
      written_count = a.written_count;
      dropped_count = let c = a.dropped_count in omega arith;
      stage = a.stage;
      known = a.known;
    }
    admit_if-Accounts false p full runs found =
        let none_lost = a.lost_if_failed (λ f. cc) in
        let fit = fits p full in
        let size = a.is_size in
        let bytes : (s.status.queue_bytes + packet_bytes h p) % uint64_mod
            ≡ s.status.queue_bytes + packet_bytes h p =
          omega arith in
        record {
          lost = [];
          in_order =
              ap (λ x. x ++ p ∷ [])
                (a.in_order
                  ∙ ap (λ x. written ++ (held s.worker ++ (s.queue ++ x))) none_lost
                  ∙ ap (λ x. written ++ (held s.worker ++ x)) (append_nil s.queue))
              ∙ ++-assoc written (held s.worker ++ s.queue) (p ∷ [])
              ∙ ap (λ x. written ++ x) (++-assoc (held s.worker) s.queue (p ∷ []))
              ∙ ap (λ x. written ++ (held s.worker ++ x)) (sym (append_nil (s.queue ++ p ∷ [])));
          lost_if_failed = λ n. refl;
          bytes =
              let b = a.bytes in
              omega (arith, bytes, b, total-append s.queue (p ∷ []), total-one p);
          within = omega (arith, bytes, fit);
          is_size = a.is_size;
          written_count = a.written_count;
          dropped_count = let c = a.dropped_count in omega arith;
          stage = appended-stage s.worker p a.stage runs;
          known =
              subst (All (λ x. has_index x.stream_index s.streams ≡ true))
                (++-assoc (held s.worker) s.queue (p ∷ []))
                (All-append _ (held s.worker ++ s.queue) (p ∷ []) a.known (found, tt));
        }

    unchanged-Accounts :
        (b : Bool) (packet : Packet)
        → entered b packet ≡ []
        → Accounts h s (accepted ++ entered b packet) written (dropped + 0)
    unchanged-Accounts b packet e =
        subst (λ x. Accounts h s (accepted ++ x) written (dropped + 0)) (sym e)
          (subst (λ x. Accounts h s x written (dropped + 0)) (sym (append_nil accepted))
            (subst (λ n. Accounts h s accepted written n) (omega arith) a))

    pub try_submit-Accounts :
        (packet : Packet) (b : Bool) (t : Recorder)
        → try_submit h s packet ≡ ok (b, t)
        → Accounts h t
            (accepted ++ entered b packet)
            written
            (dropped + overflowed (is_running s.status.state) b)
    unfolding try_submit
    try_submit-Accounts packet b t k = by_state s.status.state packet refl k
      where
        still :
            (packet : Packet)
            → ◌≡◌ {A = Result (Bool × Recorder)} (ok (false, s)) (ok (b, t))
            → Accounts h t (accepted ++ entered b packet) written (dropped + overflowed false b)
        still packet k =
            ok-subst
              (λ x.
                Accounts h x.1 (accepted ++ entered x.0 packet) written
                  (dropped + overflowed false x.0))
              k (unchanged-Accounts false packet refl)

        by_state :
            (st : RecorderState) (packet : Packet)
            → s.status.state ≡ st
            → (if is_running st then submit_raw h s packet else ok (false, s)) ≡ ok (b, t)
            → Accounts h t
                (accepted ++ entered b packet)
                written
                (dropped + overflowed (is_running st) b)
        by_state RecorderState.running none e k = cc
        by_state RecorderState.running (some p) e k =
            let (u, c, k) = >>=-eq-ok (throw_if (bad_packet h s.streams p) invalid_argument) _ k in
            ok-subst
              (λ x.
                Accounts h x.1 (accepted ++ entered x.0 (some p)) written
                  (dropped + overflowed true x.0))
              k (admit_if-Accounts (is_full h s p) p refl e (index_found s.streams p u c))
        by_state RecorderState.stopped packet e k = still packet k
        by_state RecorderState.stopping packet e k = still packet k
        by_state RecorderState.failed packet e k = still packet k
