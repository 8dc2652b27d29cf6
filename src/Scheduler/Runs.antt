-- ===== src/Scheduler/Runs.antt =====
-- Runs of one track: the driver and the worker in any order of their sections.
use mw_streamer.Base.{
  ◌≡◌, refl, sym, subst, ap, ◌∙◌, ok-subst, >>=-eq-ok, inl, inr, Bool, Bool-cases, Option, none,
  some, List, [], ◌∷◌, ◌++◌, ◌>>=◌, ℕ, ℤ, Result, ok, if◌then◌else◌,
}
use mw_streamer.Ffmpeg.{TimeMath}
use mw_streamer.Media.{ReadResult}
use mw_streamer.Realtime.{RealtimeTiming}
use mw_streamer.SyncerTiming.{SyncerStep, Platform, OnOutput}
use mw_streamer.Syncer as Syncer
use mw_streamer.Syncer.{Syncer, Formats}
use mw_streamer.Scheduler.{
  Track, Worker, cleared, idle, is_null, complete, prepare, deliver, head_of, take, Converter,
  Round, finish, holds_back, SyncerCall,
}
use mw_streamer.Scheduler.Ledger.{
  Ledger, empty_ledger, Balanced, cleared-Balanced, complete-Balanced, prepare-Balanced,
  delivered-Balanced, handed_of, handed_of-handed, eaten,
}
use mw_streamer.Scheduler.Rounds.{held, take-Balanced, Worked, after_round, finish-Balanced}

-- What a call of the Syncer took of the input that it was given.
abbrev pub consumed_of : SyncerStep → Option ReadResult → List ReadResult
consumed_of out none = []
consumed_of out (some input) = if out.consumed then input ∷ [] else []

-- A Syncer, and all that its calls have consumed so far.
pub record Logged : Type 0 where
  pub syncer : Syncer
  pub log : List ReadResult

module _ (m : TimeMath) (platform : Platform) (formats : Formats) where
  -- A call of `Syncer::Step`, with what it is given and consumes in the log.
  unfoldable pub logged : SyncerCall m Logged
  logged s video head now on_output = do
    (out, syncer) ← Syncer.step m platform formats s.syncer video head now on_output
    ok (out, record { syncer = syncer; log = s.log ++ consumed_of out head })

  consumed-eaten : (t : Track) (out : SyncerStep) → consumed_of out (head_of m t) ≡ eaten t out
  consumed-eaten t out = elim (Bool-cases (is_null t.head)) [
    | inl n ↦ elim (Bool-cases out.consumed) [ inl c ↦ simp (n, c) | inr c ↦ simp (n, c) ]
    | inr n ↦ elim (Bool-cases out.consumed) [ inl c ↦ simp (n, c) | inr c ↦ simp (n, c) ]
  ]

  logged_lem :
      (s : Logged) (video : Bool) (head : Option ReadResult) (now : ℤ) (on_output : OnOutput)
      (out : SyncerStep) (u : Logged)
      → logged s video head now on_output ≡ ok (out, u)
      → u.log ≡ s.log ++ consumed_of out head
  unfolding logged
  logged_lem s video head now on_output out u h =
      let ((o, syncer), _, h) =
        >>=-eq-ok (Syncer.step m platform formats s.syncer video head now on_output) _ h in
      ok-subst (λ x. x.1.log ≡ s.log ++ consumed_of x.0 head) h refl

module _ {ℓ} {S : Type ℓ} (converter : Converter S)
    (filter_in filter_out : ReadResult → Result ReadResult) where
  -- A run of one track: the sections of the driver and of the worker, in any order, that do not
  -- throw. The realtime clock, the converter and the Syncer are in whatever state they are.
  pub data Run (m : TimeMath) (platform : Platform) (formats : Formats)
      : Track → Worker → Ledger → Type ℓ where
    started :
        {t : Track} {w : Worker} {l : Ledger}
        → t ≡ cleared
        → w ≡ idle
        → l ≡ empty_ledger
        → Run m platform formats t w l
    completed :
        {t u : Track} {w : Worker} {l : Ledger} (now : ℤ)
        → Run m platform formats t w l
        → u ≡ complete t now
        → Run m platform formats u w l
    prepared :
        {t u : Track} {w : Worker} {l k : Ledger} (stopping : Bool) (realtime next : RealtimeTiming)
        (read : ReadResult) (now wake : ℤ)
        → Run m platform formats t w l
        → prepare m stopping t realtime read now ≡ ok (wake, u, next)
        → k ≡ record l { sent = l.sent ++ handed_of m t read u }
        → Run m platform formats u w k
    delivers :
        {t u : Track} {w : Worker} {l k : Ledger} (video : Bool) (syncer : Syncer) (next : Logged)
        (space : ℕ) (now later : ℤ) (on_output : OnOutput) (out : Option SyncerStep)
        → Run m platform formats t w l
        → deliver m
            (logged m platform formats)
            video
            t
            (record { syncer = syncer; log = l.consumed })
            space
            now
            later
            on_output
          ≡ ok (out, u, next)
        → k ≡ record l { consumed = next.log }
        → Run m platform formats u w k
    takes :
        {t u : Track} {w x : Worker} {l k : Ledger}
        → Run m platform formats t w l
        → take t w ≡ some (u, x)
        → k ≡ record l { taken = l.taken ++ held x.holding }
        → Run m platform formats u x k
    finishes :
        {t : Track} {w : Worker} {l k : Ledger} (s : S) (input : ReadResult)
        (r : Round converter filter_in filter_out)
        (o : Worked converter filter_in filter_out w s input)
        → Run m platform formats t w l
        → w.holding ≡ some input
        → finish converter filter_in filter_out t w s input ≡ ok r
        → k ≡ after_round converter filter_in filter_out l input o
        → Run m platform formats r.track r.worker k

  deliver-Balanced :
      (m : TimeMath) (platform : Platform) (formats : Formats) (video : Bool) (t u : Track)
      (w : Worker) (l : Ledger) (syncer : Syncer) (next : Logged) (space : ℕ) (now later : ℤ)
      (on_output : OnOutput) (out : Option SyncerStep)
      → Balanced t w l
      → deliver m
          (logged m platform formats)
          video
          t
          (record { syncer = syncer; log = l.consumed })
          space
          now
          later
          on_output
        ≡ ok (out, u, next)
      → Balanced u w (record l { consumed = next.log })
  unfolding deliver
  deliver-Balanced m platform formats video t u w l syncer next space now later on_output out b h =
      elim (Bool-cases (holds_back m t space now)) [
        | inl e ↦ ok-subst (λ x. Balanced x.1 w (record l { consumed = x.2.log })) (simp e at h) b
        | inr e ↦
            let start : Logged = record { syncer = syncer; log = l.consumed } in
            let ((o, s), k, h) =
              >>=-eq-ok (logged m platform formats start video (head_of m t) now on_output) _
                (simp e at h) in
            let kept =
              logged_lem m platform formats start video (head_of m t) now on_output o s k
              ∙ ap (λ x. l.consumed ++ x) (consumed-eaten m platform formats t o) in
            ok-subst (λ x. Balanced x.1 w (record l { consumed = x.2.log })) h
              (rw kept (delivered-Balanced m t w l o space later b))
      ]

  -- In every run of a track, whatever the order of the driver's and the worker's sections: the
  -- worker takes the inputs that Prepare handed over from its lookahead, the converter what the
  -- filter made of what the worker held, and the calls of the Syncer consume what the reads of the
  -- converter returned and the output filter made of it, each in order; what has passed one point
  -- and not the next is in the task, in what waits for the converter, or in the head and the
  -- result, so nothing is lost or overwritten on the way.
  pub Run-Balanced :
      (m : TimeMath) (platform : Platform) (formats : Formats) {t : Track} {w : Worker} {l : Ledger}
      → Run m platform formats t w l
      → Balanced t w l
  Run-Balanced m platform formats (started {t} {w} {l} e f g) = rw (e, f, g) cleared-Balanced
  Run-Balanced m platform formats (completed {t} {u} {w} {l} now before e) =
      rw e (complete-Balanced t w l now (Run-Balanced m platform formats before))
  Run-Balanced m platform formats
        (prepared {t} {u} {w} {l} {k} stopping realtime next read now wake before h e) =
      rw e (
        subst (λ x. Balanced u w (record l { sent = l.sent ++ x }))
          (sym (handed_of-handed m stopping t w realtime read now wake u next h))
          (prepare-Balanced m stopping t w l realtime read now wake u next
            (Run-Balanced m platform formats before) h))
  Run-Balanced m platform formats
        (delivers {t} {u} {w} {l} {k} video syncer next space now later on_output out before h e) =
      rw e (
        deliver-Balanced m platform formats video t u w l syncer next space now later on_output out
          (Run-Balanced m platform formats before) h)
  Run-Balanced m platform formats (takes {t} {u} {w} {x} {l} {k} before h e) =
      rw e (take-Balanced t w l u x (Run-Balanced m platform formats before) h)
  Run-Balanced m platform formats (finishes {t} {w} {l} {k} s input r o before holds h e) = rw e (
      finish-Balanced converter filter_in filter_out t w l s input r o
        (Run-Balanced m platform formats before) holds h)
