-- ===== src/Recorder/Ledger.antt =====
-- The accounts of a recorder: where each accepted packet is, and how many bytes wait.
use mw_streamer.Base.{
  ◌≡◌, ◌≢◌, ◌⊎◌, true, List, [], ◌∷◌, ◌++◌, ℕ, ◌+◌, ◌%◌, ◌<◌, ◌≤◌, length, All, uint64_mod,
}
use mw_streamer.Ffmpeg.{AvPacket}
use mw_streamer.Recorder.{Headers, RecorderState, Worker, Recorder, packet_bytes, has_index}

-- The packet in the writer's hands.
abbrev pub held : Worker → List AvPacket
held (Worker.writing p) = p ∷ []
held _ = []

abbrev pub HasEnded : RecorderState → Type 0
HasEnded state = (state ≡ RecorderState.stopped) ⊎ (state ≡ RecorderState.failed)

abbrev pub IsOpen : RecorderState → Type 0
IsOpen state = (state ≡ RecorderState.running) ⊎ (state ≡ RecorderState.stopping)

-- What the stage of the worker says of the state and the queue.
abbrev pub Stage : Worker → RecorderState → List AvPacket → Type 0
Stage Worker.absent state queue = HasEnded state × (queue ≡ [])
Stage Worker.opening state queue = IsOpen state
Stage Worker.waiting state queue = IsOpen state
Stage (Worker.writing p) state queue = IsOpen state
Stage Worker.finishing state queue = (state ≡ RecorderState.stopping) × (queue ≡ [])
Stage Worker.done state queue = HasEnded state × (queue ≡ [])

module _ (h : Headers) where
  unfoldable pub total : List AvPacket → ℕ
  total [] = 0
  total (p ∷ ps) = packet_bytes h p + total ps

  pub record Accounts (s : Recorder) (accepted written : List AvPacket) (dropped : ℕ) : Type 0 where
    pub lost : List AvPacket
    pub in_order : accepted ≡ written ++ (held s.worker ++ (s.queue ++ lost))
    pub lost_if_failed : s.status.state ≢ RecorderState.failed → lost ≡ []
    pub bytes : s.status.queue_bytes ≡ total s.queue
    pub within : s.status.queue_bytes ≤ s.config.max_queue_bytes
    pub is_size : s.config.max_queue_bytes < uint64_mod
    pub written_count : s.status.written_packets ≡ length written % uint64_mod
    pub dropped_count : s.status.dropped_packets ≡ dropped % uint64_mod
    pub stage : Stage s.worker s.status.state s.queue
    pub known : All (λ p. has_index p.stream_index s.streams ≡ true) (held s.worker ++ s.queue)
