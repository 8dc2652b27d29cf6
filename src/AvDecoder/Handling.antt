-- ===== src/AvDecoder/Handling.antt =====
-- What a section of the worker does, where the codec may fail.
use mw_streamer.Base.{
  ◌≡◌, refl, subst, ◌∙◌, Bool, true, false, inl, inr, not, ◌&&◌, Option, none, some, ◌+◌, ◌≤◌, ◌||◌,
  List, [], ◌∷◌, arith, if◌then◌else◌,
}
use mathlib.Core.Option.{some-injective}
use mw_streamer.Ffmpeg.{TimeMath, StreamInfo}
use mw_streamer.Media.{ReadResult}
use mw_streamer.BlockingQueue.{Done, close, pop, try_pop, can_pop, pop_from, is_empty}
use mw_streamer.BlockingQueue.Outcomes.{
  PushEnd, push-PushEnd, waits, fits, is_shut, expires, breaks,
}
use mw_streamer.AvDecoder.{AvDecoder, Phase}
use mw_streamer.AvDecoder.Loop.{Codec, Input, Reaction, Failure}
use mw_streamer.AvDecoder.Worker.{work_from, act, pop_done, emit_done}
use mw_streamer.AvDecoder.Nearing.{discard-closed}
use mw_streamer.AvDecoder.Faults.{IsWell, FaultOf, Fault, discard-queue}

module _ {S : Type 0} (m : TimeMath) (info : StreamInfo) (c : Codec S) where
  module _ (s : AvDecoder S) where
    act-Fault : (r : Reaction S) → IsWell s → Fault (act r s)
    act-Fault (Reaction.wants core) f = record {
      no_error = f.no_error;
      no_report = f.no_report;
      packets_open = f.packets_open;
      frames_open = f.frames_open;
    }
    act-Fault (Reaction.emits core r ends) f = record {
      no_error = f.no_error;
      no_report = f.no_report;
      packets_open = f.packets_open;
      frames_open = f.frames_open;
    }
    act-Fault (Reaction.fails core e) f = record {
      no_error = f.no_error;
      no_report = f.no_report;
      packets_open = f.packets_open;
      frames_open = f.frames_open;
    }
    act-Fault (Reaction.continues core) f = record {
      no_error = f.no_error;
      no_report = f.no_report;
      packets_open = f.packets_open;
      frames_open = f.frames_open;
    }

    act_if-Fault :
        (stop stuck : Bool) (r : Reaction S)
        → s.stopping ≡ stop
        → IsWell s
        → Fault (
            if stop
            then record s { phase = Phase.exited }
            else if stuck
            then record s { phase = Phase.failing Failure.other }
            else act r s)
    act_if-Fault true stuck r e f = inl (
      record {
        no_error = f.no_error;
        no_report = f.no_report;
        packets_open = f.packets_open;
        frames_open = f.frames_open;
      },
      e,
    )
    act_if-Fault false true r e f = record {
      no_error = f.no_error;
      no_report = f.no_report;
      packets_open = f.packets_open;
      frames_open = f.frames_open;
    }
    act_if-Fault false false r e f = act-Fault r f

    -- `Pop` gives nothing only where its queue has ended.
    pops-Fault :
        (shut : Bool) (q : List Input) (t : AvDecoder S)
        → s.packets.closed ≡ shut
        → pop_done (if shut || not (is_empty q) then some (pop_from q s.packets false) else none) s
          ≡ some t
        → IsWell s
        → Fault t
    pops-Fault false [] t e k f = cc
    pops-Fault true [] t e k f = subst Fault (some-injective _ _ k) (
        inl (
          record {
            no_error = f.no_error;
            no_report = f.no_report;
            packets_open = f.packets_open;
            frames_open = f.frames_open;
          },
          f.packets_open e,
        ))
    pops-Fault false (x ∷ q) t e k f = subst Fault (some-injective _ _ k) (record {
      no_error = f.no_error;
      no_report = f.no_report;
      packets_open = f.packets_open;
      frames_open = f.frames_open;
    })
    pops-Fault true (x ∷ q) t e k f = subst Fault (some-injective _ _ k) (record {
      no_error = f.no_error;
      no_report = f.no_report;
      packets_open = f.packets_open;
      frames_open = f.frames_open;
    })

    -- A push to the frames, which has no timeout, is refused only where they have ended; what it
    -- throws is handled.
    push_end-Fault :
        (d : Option (Done ReadResult)) (r : ReadResult) (ends : Bool) (t : AvDecoder S)
        → PushEnd s.frames r false d
        → emit_done d ends s ≡ some t
        → IsWell s
        → Fault t
    push_end-Fault none r ends t waits k f = cc
    push_end-Fault (some done) r ends t (fits _ open_yet o q) k f =
        subst Fault (some-injective _ _ k) (
          rw o (
            rw q (record {
              no_error = f.no_error;
              no_report = f.no_report;
              packets_open = f.packets_open;
              frames_open = f.frames_open;
            })))
    push_end-Fault (some done) r ends t (is_shut _ shut o q) k f =
        subst Fault (some-injective _ _ k) (
          rw o (
            rw q (
              inl (
                record {
                  no_error = f.no_error;
                  no_report = f.no_report;
                  packets_open = f.packets_open;
                  frames_open = f.frames_open;
                },
                f.frames_open shut,
              ))))
    push_end-Fault (some done) r ends t (breaks _ open_yet o q) k f =
        subst Fault (some-injective _ _ k) (
          rw o (
            rw q (record {
              no_error = f.no_error;
              no_report = f.no_report;
              packets_open = f.packets_open;
              frames_open = f.frames_open;
            })))
    push_end-Fault (some done) r ends t (expires _ late o q) k f = cc

    calling-Fault : (b : Bool) → (if b then s.reports + 1 else s.reports) ≤ s.reports + 1
    calling-Fault true = omega arith
    calling-Fault false = omega arith

    pub work-Fault :
        (ph : Phase) (throws : Bool) (t : AvDecoder S)
        → work_from m info c ph s throws ≡ some t
        → FaultOf ph s
        → Fault t
    unfolding close pop try_pop can_pop
    work-Fault Phase.looping throws t k f =
        subst Fault (some-injective _ _ k)
          (act_if-Fault s.stopping (throws && (s.core.started && not s.core.drained)) _ refl f)
    work-Fault (Phase.holding input) throws t k f =
        subst Fault (some-injective _ _ k) (act_if-Fault s.stopping false _ refl f)
    work-Fault Phase.popping throws t k f = pops-Fault s.packets.closed s.packets.queue t refl k f
    work-Fault (Phase.emitting r ends) throws t k f =
        push_end-Fault _ r ends t (push-PushEnd s.frames r throws false) k f
    work-Fault (Phase.failing e) throws t k f = subst Fault (some-injective _ _ k) (record {
      error_set = refl;
      no_report = f.no_report;
      packets_shut = λ e. cc;
      frames_shut = λ e. cc;
      none_left = λ e. cc;
    })
    work-Fault (Phase.closing_packets b) throws t k f = subst Fault (some-injective _ _ k) (record {
      error_set = f.error_set;
      no_report = f.no_report;
      packets_shut = λ e. refl;
      frames_shut = λ e. cc;
      none_left = λ e. cc;
    })
    work-Fault (Phase.closing_frames b) throws t k f = subst Fault (some-injective _ _ k) (record {
      error_set = f.error_set;
      no_report = f.no_report;
      packets_shut = f.packets_shut;
      frames_shut = λ e. refl;
      none_left = λ e. cc;
    })
    work-Fault (Phase.discarding b) throws t k f = subst Fault (some-injective _ _ k) (record {
      error_set = f.error_set;
      no_report = f.no_report;
      packets_shut = λ e. discard-closed s.packets.queue s.packets refl ∙ f.packets_shut refl;
      frames_shut = f.frames_shut;
      none_left = λ e. discard-queue s.packets.queue s.packets refl;
    })
    work-Fault (Phase.calling b) throws t k f =
        let l = calling-Fault b in
        let z = f.no_report in
        subst Fault (some-injective _ _ k) (
          inr (record {
            error_set = f.error_set;
            reported = omega (arith, l, z);
            packets_end = f.packets_shut refl;
            frames_end = f.frames_shut refl;
            discarded = f.none_left refl;
          }))
    work-Fault Phase.exited throws t k f = cc
