-- ===== src/AvDecoder/Choice.antt =====
-- The codec that a decoder is opened with.
use mw_streamer.Base.{
  ==_iff, ◌≡◌, refl, ◌⊎◌, inl, inr, Bool, true, false, not, ◌||◌, Option, none, some, List, [], ◌∷◌,
  ℕ, ◌==◌, any, ok, ok-subst, >>=-eq-ok, throw_if, invalid_argument,
}
use mw_streamer.Ffmpeg.{StreamInfo, CodecParameters, same_type, validate_stream}
use mw_streamer.AvDecoder.Opening.{AvCodec, Codecs, look_up, check_codec, find_for, find_decoder}

-- The codec has the parameters' identifier and type, and the name that was asked for.
pub record IsChoice (k : Codecs) (info : StreamInfo) (name : List ℕ) (codec : AvCodec)
    : Type 0 where
  pub parameters : CodecParameters
  pub has_parameters : info.codec_parameters ≡ some parameters
  pub same_id : codec.id ≡ parameters.codec_id
  pub same_kind : same_type codec.kind parameters.codec_type ≡ true
  pub named : (name ≡ []) ⊎ (k.by_name name ≡ some codec)

both :
    (a b : Bool) {v : Unit {0}}
    → throw_if (not a || not b) invalid_argument ≡ ok v
    → (a ≡ true) × (b ≡ true)
both true true h = (refl, refl)
both true false h = cc
both false b h = cc

by_name_only :
    (k : Codecs) (c : CodecParameters) (name : List ℕ) (device : Bool) (codec : AvCodec)
    → look_up k c name device ≡ some codec
    → (name ≡ []) ⊎ (k.by_name name ≡ some codec)
by_name_only k c [] device codec h = inl refl
by_name_only k c (x ∷ name) device codec h = inr h

check_lem :
    (c : CodecParameters) (found : Option AvCodec) (codec : AvCodec)
    → check_codec c found ≡ ok codec
    → (found ≡ some codec)
      × ((codec.id == c.codec_id) ≡ true)
      × (same_type codec.kind c.codec_type ≡ true)
check_lem c none codec h = cc
check_lem c (some found) codec h =
    let (_, g, h) =
      >>=-eq-ok
        (throw_if (not (found.id == c.codec_id) || not (same_type found.kind c.codec_type))
          invalid_argument)
        _ h in
    let (i, t) = both (found.id == c.codec_id) (same_type found.kind c.codec_type) g in
    ok-subst
      (λ x.
        (some found ≡ some x)
        × ((x.id == c.codec_id) ≡ true)
        × (same_type x.kind c.codec_type ≡ true))
      h (refl, i, t)

-- A decoder that is found has the identifier and the type of the track, and where a name was given
-- it is the one of that name: no other is tried.
pub find_decoder-IsChoice :
    (k : Codecs) (info : StreamInfo) (name : List ℕ) (device : Bool) (codec : AvCodec)
    → find_decoder k info name device ≡ ok codec
    → IsChoice k info name codec
unfolding find_decoder
find_decoder-IsChoice k info name device codec h =
    let (_, _, h) = >>=-eq-ok (validate_stream info) _ h in
    let (_, _, h) = >>=-eq-ok (throw_if (any (λ x. x == 0) name) invalid_argument) _ h in
    by_parameters info.codec_parameters refl h
  where
    by_parameters :
        (c : Option CodecParameters)
        → info.codec_parameters ≡ c
        → find_for k c name device ≡ ok codec
        → IsChoice k info name codec
    by_parameters none e h = cc
    by_parameters (some c) e h =
        let (f, i, t) = check_lem c (look_up k c name device) codec h in
        record {
          parameters = c;
          has_parameters = e;
          same_id = (==_iff codec.id c.codec_id).0 i;
          same_kind = t;
          named = by_name_only k c name device codec f;
        }
