-- ===== src/Scheduler/Driver.antt =====
-- What Prepare does to a track, apart from the lookahead.
use mw_streamer.Base.{
  ◌≡◌, refl, List, [], ap, sym, ◌∙◌, ok-subst, >>=-eq-ok, ◌⊎◌, inl, inr, true, false, Bool,
  Bool-cases, not, ◌||◌, [], ℤ, ok, arith, if◌then◌else◌,
}
use mw_streamer.Ffmpeg.{TimeMath}
use mw_streamer.Media.{ReadStatus, ReadResult, no_result}
use mw_streamer.Media.ReadStatus.{frame_read, eof, null_read}
use mw_streamer.Realtime
use mw_streamer.Realtime.{RealtimeTiming, Decision}
use mw_streamer.Scheduler.{
  Track, Worker, is_null, dispatch, input_pts, released, by_decision, release, from_source,
  look_ahead, prepare, no_wake,
}
use mw_streamer.Scheduler.Flow.{items, Agree}

-- A track without its lookahead.
abbrev pub core : Track → Track
core t = record t { source_head = no_result }

pub core-Agree : (t : Track) (w : Worker) → Agree t w → Agree (core t) w
core-Agree t w a = record {
  task_asked = a.task_asked;
  asked_busy = a.asked_busy;
  held_busy = a.held_busy;
  rest_empty = a.rest_empty;
  done_idle = a.done_idle;
  result_done = a.result_done;
  busy_alone = a.busy_alone;
  done_alone = a.done_alone;
  input_next = a.input_next;
  task_alone = a.task_alone;
  held_alone = a.held_alone;
}

pub Agree-core : (t : Track) (w : Worker) → Agree (core t) w → Agree t w
Agree-core t w a = record {
  task_asked = a.task_asked;
  asked_busy = a.asked_busy;
  held_busy = a.held_busy;
  rest_empty = a.rest_empty;
  done_idle = a.done_idle;
  result_done = a.result_done;
  busy_alone = a.busy_alone;
  done_alone = a.done_alone;
  input_next = a.input_next;
  task_alone = a.task_alone;
  held_alone = a.held_alone;
}

-- What the driver has for the worker: the lookahead, which is read where there is none, if the
-- worker needs an input.
abbrev pub due : TimeMath → Track → ReadResult → List ReadResult
due m t read = if t.needs_input then items (look_ahead m t read).source_head else []

module _ (m : TimeMath) (stopping : Bool) where
  -- A dispatch of the input, or no change.
  abbrev Moved : ReadResult → Track → Track → Type 0
  Moved input t u = (core u ≡ core t) ⊎ (core u ≡ core (dispatch stopping t input))

  released_lem :
      (t : Track) (realtime : RealtimeTiming) (wake : ℤ) (u : Track) (next : RealtimeTiming)
      → released m stopping t realtime ≡ ok (wake, u, next)
      → Moved t.source_head t u
  released_lem t realtime wake u next h =
      ok-subst (λ x. Moved t.source_head t x.1) h (inr (dispatched stopping))
    where
      dispatched :
          (s : Bool)
          → core (record (dispatch s t t.source_head) { source_head = no_result })
            ≡ core (dispatch s t t.source_head)
      dispatched true = refl
      dispatched false = refl

  by_decision_lem :
      (t : Track) (d : Decision) (realtime : RealtimeTiming) (now wake : ℤ) (u : Track)
      (next : RealtimeTiming)
      → by_decision m stopping t d realtime now ≡ ok (wake, u, next)
      → Moved t.source_head t u
  by_decision_lem t d realtime now wake u next h = elim (Bool-cases d.discard) [
    | inl e ↦ ok-subst (λ x. Moved t.source_head t x.1) (simp e at h) (inl refl)
    | inr e ↦ elim (Bool-cases d.ready) [
      | inl r ↦ released_lem t realtime wake u next (simp (e, r) at h)
      | inr r ↦ ok-subst (λ x. Moved t.source_head t x.1) (simp (e, r) at h) (inl refl)
    ]
  ]

  release_lem :
      (status : ReadStatus) (t : Track) (realtime : RealtimeTiming) (now wake : ℤ) (u : Track)
      (next : RealtimeTiming)
      → release m status stopping t realtime now ≡ ok (wake, u, next)
      → Moved t.source_head t u
  release_lem null_read t realtime now wake u next h =
      ok-subst (λ x. Moved t.source_head t x.1) h (inl refl)
  release_lem eof t realtime now wake u next h = released_lem t realtime wake u next h
  release_lem frame_read t realtime now wake u next h =
      let (pts, _, h) = >>=-eq-ok (input_pts m t.source_head) _ h in
      let ((d, r), _, h) = >>=-eq-ok (Realtime.schedule realtime pts now) _ h in
      by_decision_lem t d r now wake u next h

  looked_lem :
      (b : Bool) (t : Track) (read : ReadResult)
      → core (if b then record t { source_head = read } else t) ≡ core t
  looked_lem true t read = refl
  looked_lem false t read = refl

  core-dispatch :
      (s : Bool) (t : Track) (input : ReadResult)
      → core (dispatch s (core t) input) ≡ core (dispatch s t input)
  core-dispatch true t input = refl
  core-dispatch false t input = refl

  moved_core :
      (input : ReadResult) (t v u : Track) → core v ≡ core t → Moved input v u → Moved input t u
  moved_core input t v u e (inl k) = inl (k ∙ e)
  moved_core input t v u e (inr k) = inr (
      k
      ∙ sym (core-dispatch stopping v input)
      ∙ ap (λ x. core (dispatch stopping x input)) e
      ∙ core-dispatch stopping t input)

  -- Prepare leaves the track, but for the lookahead; or it hands an input, or nothing, to a worker
  -- that waits for it, with no converted head in the way. It hands over an input only where the
  -- worker asked for one.
  pub record Handed (t : Track) (w : Worker) (read : ReadResult) (u : Track) : Type 0 where
    pub input : ReadResult
    pub sent : core u ≡ core (dispatch stopping t input)
    pub not_busy : t.busy ≡ false
    pub not_done : t.completed ≡ false
    pub no_head : items t.head ≡ []
    pub asked : (items input ≡ []) ⊎ (t.needs_input ≡ true)
    pub from : items input ≡ due m t read

  asked_lem :
      (needs : Bool) (t : Track) (w : Worker) (realtime : RealtimeTiming) (read : ReadResult)
      (now wake : ℤ) (u : Track) (next : RealtimeTiming)
      → t.needs_input ≡ needs
      → t.busy || (t.completed || not (is_null t.head)) ≡ false
      → (if needs
          then from_source m stopping (look_ahead m t read) realtime now
          else ok (no_wake, dispatch stopping t no_result, realtime))
        ≡ ok (wake, u, next)
      → (core u ≡ core t) ⊎ Handed t w read u
  asked_lem true t w realtime read now wake u next a e k =
      elim (moved_core (look_ahead m t read).source_head t (look_ahead m t read) u
        (looked_lem (is_null t.source_head) t read)
        (release_lem (look_ahead m t read).source_head.status (look_ahead m t read) realtime now
          wake u next k)) [
            | inl same ↦ inl same
            | inr s ↦ inr (record {
              input = (look_ahead m t read).source_head;
              sent = s;
              not_busy = ground arith;
              not_done = ground arith;
              no_head = let n : is_null t.head ≡ true = ground arith in rw n refl;
              asked = inr a;
              from = rw a refl;
            })
          ]
  asked_lem false t w realtime read now wake u next a e k =
      ok-subst (λ x. (core x.1 ≡ core t) ⊎ Handed t w read x.1) k
        (inr (record {
          input = no_result;
          sent = refl;
          not_busy = ground arith;
          not_done = ground arith;
          no_head = let n : is_null t.head ≡ true = ground arith in rw n refl;
          asked = inl refl;
          from = rw a refl;
        }))

  pub prepare_lem :
      (t : Track) (w : Worker) (realtime : RealtimeTiming) (read : ReadResult) (now wake : ℤ)
      (u : Track) (next : RealtimeTiming)
      → prepare m stopping t realtime read now ≡ ok (wake, u, next)
      → (core u ≡ core t) ⊎ Handed t w read u
  unfolding prepare
  prepare_lem t w realtime read now wake u next h =
      elim (Bool-cases (t.busy || (t.completed || not (is_null t.head)))) [
        | inl e ↦ ok-subst (λ x. (core x.1 ≡ core t) ⊎ Handed t w read x.1) (simp e at h) (inl refl)
        | inr e ↦ asked_lem t.needs_input t w realtime read now wake u next refl e (simp e at h)
      ]
