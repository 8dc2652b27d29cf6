-- ===== src/Recorder/Admission.antt =====
-- When a packet is admitted: the room for it, in exact sizes.
use mw_streamer.Base.{
  ◌≡◌, refl, true, false, some, List, [], ◌∷◌, ◌++◌, ℕ, ◌+◌, ◌%◌, ◌<◌, ◌≤◌, ◌⊎◌, inl, inr,
  uint64_mod, ok, arith,
}
use mw_streamer.Ffmpeg.{AvPacket}
use mw_streamer.Recorder.{
  Headers, RecorderState, Recorder, packet_bytes, is_full, bad_packet, try_submit, admit_if,
}
use mw_streamer.Recorder.Ledger.{total}
use mw_streamer.Recorder.Submission.{room_left}
use mw_streamer.Recorder.Runs.{Run, Run-Accounts}

module _ (h : Headers) (s : Recorder) (accepted written : List AvPacket) (dropped : ℕ)
    (run : Run h s accepted written dropped) (p : AvPacket) where
  full_lem :
      ((is_full h s p ≡ true) × (s.config.max_queue_bytes < total h s.queue + packet_bytes h p))
      ⊎ ((is_full h s p ≡ false) × (total h s.queue + packet_bytes h p ≤ s.config.max_queue_bytes))
  full_lem =
      let a = Run-Accounts h s accepted written dropped run in
      let w = a.within in
      let b = a.bytes in
      let e = room_left s.config.max_queue_bytes s.status.queue_bytes w a.is_size in
      ground (arith, e, b, w)

  -- While the recorder runs, a packet that belongs to a track, has data and has a timestamp is
  -- admitted exactly where it fits with all that waits into max_queue_bytes: it goes to the end of
  -- the queue, and else it is dropped and counted, and the queue stays.
  pub try_submit_outcome :
      s.status.state ≡ RecorderState.running
      → bad_packet h s.streams p ≡ false
      → ((total h s.queue + packet_bytes h p ≤ s.config.max_queue_bytes)
          × ((t : Recorder) × (try_submit h s (some p) ≡ ok (true, t))
              × (t.queue ≡ s.queue ++ p ∷ [])
              × (t.status.dropped_packets ≡ s.status.dropped_packets)))
        ⊎ ((s.config.max_queue_bytes < total h s.queue + packet_bytes h p)
            × ((t : Recorder) × (try_submit h s (some p) ≡ ok (false, t))
                × (t.queue ≡ s.queue)
                × (t.status.dropped_packets ≡ (s.status.dropped_packets + 1) % uint64_mod)))
  unfolding try_submit
  try_submit_outcome runs good = elim full_lem [
    | inl (full, n) ↦ inr (n, ((admit_if h true s p).1, simp (runs, good, full) refl, refl, refl))
    | inr (room, n) ↦ inl (n, ((admit_if h false s p).1, simp (runs, good, room) refl, refl, refl))
  ]
