-- ===== src/Interleaver/Examples.antt =====
-- A short session of the interleaver.
use mw_streamer.Base.{
  ◌≡◌, refl, true, false, none, some, List, [], ◌∷◌, ◌++◌, ℤ, pos, Pairwise, ltb_ℤ, leb_ℤ, eqb_ℤ,
  ok, err, logic_error, to_uint64, sub_uint64, ◌-ℤ◌, invalid_argument, if◌then◌else◌,
}
use mw_streamer.Ffmpeg.{video, audio, milliseconds, validate_stream, microseconds}
use mw_streamer.Ffmpeg.Plain.{plain, plain-IsOrder}
use mw_streamer.Timestamps
use mw_streamer.Timestamps.{validate, check_streams}
use mw_streamer.Timestamps.Examples.{streams, unset, picture, sound}
use mw_streamer.Interleaver.{
  Track, Interleaver, make, make_tracks, push, accept, before, insert, raise, pop_ready, drain,
  all_tracks_seen, all_tracks_buffered, exceeds_delta, exceeds, of_track,
}
use mw_streamer.Interleaver.Order.{NotLater}
use mw_streamer.Interleaver.Insert.{select}
use mw_streamer.Interleaver.Push.{push-select}
use mw_streamer.Interleaver.Drain.{Popped, pop_ready-Popped}
use mw_streamer.Interleaver.Merge.{Session, Session-Inv, Session-ascends, PushOutcome, push_outcome}

abbrev tracks : ℤ → ℤ → List Track
tracks a b =
    record { index = pos 0; type = video; time_base = milliseconds; highest = some a }
    ∷ record { index = pos 1; type = audio; time_base = microseconds; highest = some b }
    ∷ []

abbrev pub start : Interleaver
start = record {
  validation = unset;
  tracks =
      record { index = pos 0; type = video; time_base = milliseconds; highest = none }
      ∷ record { index = pos 1; type = audio; time_base = microseconds; highest = none }
      ∷ [];
  queue = [];
  initialized = false;
  flushed = false;
}

abbrev one : Interleaver
one = record start {
  tracks =
      record { index = pos 0; type = video; time_base = milliseconds; highest = some (pos 3) }
      ∷ record { index = pos 1; type = audio; time_base = microseconds; highest = none }
      ∷ [];
  queue = picture (pos 3) ∷ [];
}

abbrev two : Interleaver
two = record start { tracks = tracks (pos 3) (pos 2); queue = sound (pos 2) ∷ picture (pos 3) ∷ [] }

abbrev after : Interleaver
after = record two { queue = picture (pos 3) ∷ []; initialized = true }

make-start : make streams ≡ ok start
unfolding make make_tracks Timestamps.make check_streams validate_stream ltb_ℤ leb_ℤ eqb_ℤ
make-start = refl

push-one : push plain start (some (picture (pos 3))) ≡ ok one
unfolding push accept insert raise validate before ltb_ℤ leb_ℤ eqb_ℤ ◌-ℤ◌
push-one = refl

push-two : push plain one (some (sound (pos 2))) ≡ ok two
unfolding push accept insert raise validate before ltb_ℤ leb_ℤ eqb_ℤ ◌-ℤ◌
push-two = refl

pop_two : pop_ready plain two false ≡ ok (sound (pos 2) ∷ [], after)
unfolding pop_ready drain all_tracks_seen all_tracks_buffered exceeds_delta exceeds to_uint64
    sub_uint64 ltb_ℤ leb_ℤ eqb_ℤ ◌-ℤ◌
pop_two = refl

abbrev ended : Interleaver
ended = record two { queue = []; initialized = true; flushed = true }

flush_two : pop_ready plain two true ≡ ok (sound (pos 2) ∷ picture (pos 3) ∷ [], ended)
unfolding pop_ready drain all_tracks_seen all_tracks_buffered exceeds_delta exceeds to_uint64
    sub_uint64 ltb_ℤ leb_ℤ eqb_ℤ ◌-ℤ◌
flush_two = refl

after_end : push plain ended (some (sound (pos 4))) ≡ err logic_error
unfolding push
after_end = refl

backwards : push plain after (some (sound (pos 1))) ≡ err invalid_argument
unfolding push accept insert raise validate before ltb_ℤ leb_ℤ eqb_ℤ ◌-ℤ◌
backwards = refl

Session-two : Session plain streams two []
Session-two =
    Session.pushed (some (sound (pos 2)))
      (Session.pushed (some (picture (pos 3))) (Session.started make-start refl) push-one) push-two

session : Session plain streams after (sound (pos 2) ∷ [])
unfolding exceeds_delta exceeds to_uint64 sub_uint64 ltb_ℤ
session = Session.popped (sound (pos 2) ∷ []) Session-two (refl, (refl, tt)) pop_two refl

Session-ascends_example :
    Pairwise (NotLater plain plain-IsOrder) (sound (pos 2) ∷ picture (pos 3) ∷ [])
Session-ascends_example =
    Session-ascends plain plain-IsOrder streams after (sound (pos 2) ∷ []) session

push_outcome_example : PushOutcome plain plain-IsOrder ended (some (sound (pos 4)))
push_outcome_example =
    push_outcome plain plain-IsOrder streams ended (sound (pos 2) ∷ picture (pos 3) ∷ [])
      (some (sound (pos 4)))
      (Session.flushes (sound (pos 2) ∷ picture (pos 3) ∷ []) Session-two flush_two refl)

push-select_example :
    select (pos 1) two.queue
    ≡ select (pos 1) one.queue
      ++ (if of_track (pos 1) (sound (pos 2)) then sound (pos 2) ∷ [] else [])
push-select_example =
    push-select plain plain-IsOrder one [] (sound (pos 2)) two
      (Session-Inv plain plain-IsOrder streams
        (Session.pushed (some (picture (pos 3))) (Session.started make-start refl) push-one))
      push-two (pos 1)

pop_ready-Popped_example : Popped plain two false (sound (pos 2) ∷ []) after
pop_ready-Popped_example = pop_ready-Popped plain two false (sound (pos 2) ∷ []) after pop_two
