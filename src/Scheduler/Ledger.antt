-- ===== src/Scheduler/Ledger.antt =====
-- What passes each point of a track, and the driver's sections.
use mw_streamer.Base.{
  ◌≡◌, refl, ap, sym, subst, ◌∙◌, ◌⊎◌, inl, inr, true, false, Bool, Bool-cases, not, ◌&&◌, none,
  List, [], ◌++◌, ℕ, ℤ, ok, arith, if◌then◌else◌, append_nil, ++-assoc,
}
use mw_streamer.Ffmpeg.{TimeMath}
use mw_streamer.Media.{ReadResult}
use mw_streamer.Realtime.{RealtimeTiming}
use mw_streamer.SyncerTiming.{SyncerStep}
use mw_streamer.Scheduler.{Track, Worker, cleared, idle, complete, dispatch, prepare, delivered}
use mw_streamer.Scheduler.Flow.{items, Agree, cleared-Agree, complete-Agree, dispatch-Agree}
use mw_streamer.Scheduler.Driver.{due, core, core-Agree, Agree-core, prepare_lem}

-- What has passed each point of a track so far: inputs that the driver handed over and that the
-- worker took, what the filter made of them, what the converter took and made, and what the Syncer
-- consumed.
pub record Ledger : Type 0 where
  pub sent : List ReadResult
  pub taken : List ReadResult
  pub filtered : List ReadResult
  pub accepted : List ReadResult
  pub made : List ReadResult
  pub consumed : List ReadResult

abbrev pub empty_ledger : Ledger
empty_ledger = record {
  sent = [];
  taken = [];
  filtered = [];
  accepted = [];
  made = [];
  consumed = [];
}

-- What a call of Prepare handed over.
abbrev pub handed : Track → Track → List ReadResult
handed t u = if u.requested && not t.requested then items u.task else []

-- Each queue between two points holds what passed the first and not the second, in order.
pub record Balanced (t : Track) (w : Worker) (l : Ledger) : Type 0 where
  pub agree : Agree t w
  pub to_worker : l.sent ≡ l.taken ++ items t.task
  pub to_converter : l.filtered ≡ l.accepted ++ items w.pending
  pub to_syncer : l.made ≡ l.consumed ++ (items t.head ++ items t.result)

pub cleared-Balanced : Balanced cleared idle empty_ledger
cleared-Balanced = record {
  agree = cleared-Agree;
  to_worker = refl;
  to_converter = refl;
  to_syncer = refl;
}

pub complete-Balanced :
    (t : Track) (w : Worker) (l : Ledger) (now : ℤ) → Balanced t w l → Balanced (complete t now) w l
complete-Balanced t w l now b = elim (Bool-cases t.completed) [
  | inl c ↦ record {
    agree = complete-Agree t w now b.agree;
    to_worker = simp c b.to_worker;
    to_converter = b.to_converter;
    to_syncer = simp c (
        b.to_syncer
        ∙ ap (λ x. l.consumed ++ (x ++ items t.result)) (b.agree.done_alone c)
        ∙ ap (λ x. l.consumed ++ x) (sym (append_nil (items t.result))));
  }
  | inr c ↦ simp c b
]

sent-Balanced :
    (stopping : Bool) (t : Track) (w : Worker) (l : Ledger) (input : ReadResult)
    → t.busy ≡ false
    → t.completed ≡ false
    → items t.head ≡ []
    → t.requested ≡ false
    → w.holding ≡ none
    → (items input ≡ []) ⊎ (items w.pending ≡ [])
    → Balanced t w l
    → Balanced
        (dispatch stopping t input)
        w
        (record l { sent = l.sent ++ handed t (dispatch stopping t input) })
sent-Balanced true t w l input b c h r k i bal = record {
  agree = bal.agree;
  to_worker = simp r (append_nil l.sent ∙ bal.to_worker);
  to_converter = bal.to_converter;
  to_syncer = bal.to_syncer;
}
sent-Balanced false t w l input b c h r k i bal = record {
  agree = dispatch-Agree false t w input b c h k i bal.agree;
  to_worker = simp r (
      ap (λ x. x ++ items input)
        (bal.to_worker ∙ ap (λ x. l.taken ++ x) (bal.agree.task_asked r) ∙ append_nil l.taken));
  to_converter = bal.to_converter;
  to_syncer = bal.to_syncer;
}

core-Balanced : (t : Track) (w : Worker) (l : Ledger) → Balanced t w l → Balanced (core t) w l
core-Balanced t w l b = record {
  agree = core-Agree t w b.agree;
  to_worker = b.to_worker;
  to_converter = b.to_converter;
  to_syncer = b.to_syncer;
}

Balanced-core : (t : Track) (w : Worker) (l : Ledger) → Balanced (core t) w l → Balanced t w l
Balanced-core t w l b = record {
  agree = Agree-core t w b.agree;
  to_worker = b.to_worker;
  to_converter = b.to_converter;
  to_syncer = b.to_syncer;
}

-- The ledger after Prepare depends on the track without its lookahead.
abbrev pub after_prepare : Ledger → Track → Track → Ledger
after_prepare l t u = record l { sent = l.sent ++ handed t u }

same-Balanced :
    (t u : Track) (w : Worker) (l : Ledger)
    → core u ≡ core t
    → Balanced t w l
    → Balanced u w (after_prepare l t u)
same-Balanced t u w l e b =
    Balanced-core u w (after_prepare l t u)
      (subst (λ x. Balanced x w (after_prepare l t x)) (sym e) unchanged)
  where
    unchanged : Balanced (core t) w (after_prepare l t (core t))
    unchanged = record {
      agree = core-Agree t w b.agree;
      to_worker = elim (Bool-cases t.requested) [
        | inl r ↦ simp r (append_nil l.sent ∙ b.to_worker)
        | inr r ↦ simp r (append_nil l.sent ∙ b.to_worker)
      ];
      to_converter = b.to_converter;
      to_syncer = b.to_syncer;
    }

-- What a call of Prepare handed over, of what the driver had for the worker.
abbrev pub handed_of : TimeMath → Track → ReadResult → Track → List ReadResult
handed_of m t read u = if u.requested && not t.requested then due m t read else []

pub handed_of-handed :
    (m : TimeMath) (stopping : Bool) (t : Track) (w : Worker) (realtime : RealtimeTiming)
    (read : ReadResult) (now wake : ℤ) (u : Track) (next : RealtimeTiming)
    → prepare m stopping t realtime read now ≡ ok (wake, u, next)
    → handed_of m t read u ≡ handed t u
handed_of-handed m stopping t w realtime read now wake u next h =
    elim (prepare_lem m stopping t w realtime read now wake u next h) [
      | inl e ↦ unasked (ap (λ (x : Track). x.requested) e)
      | inr d ↦ by_stop stopping d.input d.sent d.from
    ]
  where
    unasked : u.requested ≡ t.requested → handed_of m t read u ≡ handed t u
    unasked e = elim (Bool-cases t.requested) [ inl k ↦ rw (e, k) refl | inr k ↦ rw (e, k) refl ]

    by_stop :
        (stop : Bool) (input : ReadResult)
        → core u ≡ core (dispatch stop t input)
        → items input ≡ due m t read
        → handed_of m t read u ≡ handed t u
    by_stop true input e k = unasked (ap (λ (x : Track). x.requested) e)
    by_stop false input e k =
        ap (λ x. if u.requested && not t.requested then x else [])
          (sym k ∙ ap items (sym (ap (λ (x : Track). x.task) e)))

pub prepare-Balanced :
    (m : TimeMath) (stopping : Bool) (t : Track) (w : Worker) (l : Ledger)
    (realtime : RealtimeTiming) (read : ReadResult) (now wake : ℤ) (u : Track)
    (next : RealtimeTiming)
    → Balanced t w l
    → prepare m stopping t realtime read now ≡ ok (wake, u, next)
    → Balanced u w (after_prepare l t u)
prepare-Balanced m stopping t w l realtime read now wake u next b h =
    elim (prepare_lem m stopping t w realtime read now wake u next h) [
      | inl e ↦ same-Balanced t u w l e b
      | inr d ↦
          let idle_now : t.requested ≡ false = not_asked (Bool-cases t.requested) d.not_busy in
          Balanced-core u w (after_prepare l t u) (
            subst (λ x. Balanced x w (after_prepare l t x)) (sym d.sent)
              (core-Balanced (dispatch stopping t d.input) w _ (
                sent-Balanced stopping t w l d.input d.not_busy d.not_done d.no_head idle_now
                  (b.agree.rest_empty d.not_busy) (alone d.input d.asked d.not_busy) b)))
    ]
  where
    not_asked : (t.requested ≡ true) ⊎ (t.requested ≡ false) → t.busy ≡ false → t.requested ≡ false
    not_asked (inl r) k = ground (arith, b.agree.asked_busy r, k)
    not_asked (inr r) k = r

    alone :
        (input : ReadResult)
        → (items input ≡ []) ⊎ (t.needs_input ≡ true)
        → t.busy ≡ false
        → (items input ≡ []) ⊎ (items w.pending ≡ [])
    alone input (inl e) k = inl e
    alone input (inr e) k = inr (b.agree.input_next k e)

-- A call of the Syncer changes the head only, and consumes the whole of it or nothing.
abbrev pub eaten : Track → SyncerStep → List ReadResult
eaten t out = if out.consumed then items t.head else []

pub delivered-Balanced :
    (m : TimeMath) (t : Track) (w : Worker) (l : Ledger) (out : SyncerStep) (space : ℕ) (later : ℤ)
    → Balanced t w l
    → Balanced (delivered m t out space later) w (record l { consumed = l.consumed ++ eaten t out })
delivered-Balanced m t w l out space later b = elim (Bool-cases out.consumed) [
  | inl c ↦ record {
    agree = record {
      task_asked = b.agree.task_asked;
      asked_busy = b.agree.asked_busy;
      held_busy = b.agree.held_busy;
      rest_empty = b.agree.rest_empty;
      done_idle = b.agree.done_idle;
      result_done = b.agree.result_done;
      busy_alone = λ h. simp c refl;
      done_alone = λ h. simp c refl;
      input_next = b.agree.input_next;
      task_alone = b.agree.task_alone;
      held_alone = b.agree.held_alone;
    };
    to_worker = b.to_worker;
    to_converter = b.to_converter;
    to_syncer = simp c (b.to_syncer ∙ sym (++-assoc l.consumed (items t.head) (items t.result)));
  }
  | inr c ↦ record {
    agree = record {
      task_asked = b.agree.task_asked;
      asked_busy = b.agree.asked_busy;
      held_busy = b.agree.held_busy;
      rest_empty = b.agree.rest_empty;
      done_idle = b.agree.done_idle;
      result_done = b.agree.result_done;
      busy_alone = simp c b.agree.busy_alone;
      done_alone = simp c b.agree.done_alone;
      input_next = b.agree.input_next;
      task_alone = b.agree.task_alone;
      held_alone = b.agree.held_alone;
    };
    to_worker = b.to_worker;
    to_converter = b.to_converter;
    to_syncer = simp c (
        b.to_syncer
        ∙ ap (λ x. x ++ (items t.head ++ items t.result)) (sym (append_nil l.consumed)));
  }
]
