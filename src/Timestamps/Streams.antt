-- ===== src/Timestamps/Streams.antt =====
-- What the constructor and `Validate` check.
use mw_streamer.Base.{
  ◌≡◌, refl, ap, subst, Bool-cases, false, ◌||◌, Option, none, some, List, [], ◌∷◌, ℤ, pos, eqb_ℤ,
  eqb_ℤ_cases, leb_ℤ_cases, All, find?, any, arith, ok, err, invalid_argument, >>=-eq-ok, throw_if,
  ◌⊎◌, inl, inr, ◌≢◌,
}
use mw_streamer.Ffmpeg.{
  TimeMath, StreamInfo, IsTimeBase, validate_stream, AvPacket, Packet, nopts_value,
}
use mw_streamer.Timestamps.{Converter, check_streams, make, validate, mismatched}

abbrev pub stream_of : List StreamInfo → ℤ → Option StreamInfo
stream_of streams index = find? (λ s. eqb_ℤ s.stream_index index) streams

validate_stream-IsTimeBase :
    (s : StreamInfo) (u : Unit {0}) → validate_stream s ≡ ok u → IsTimeBase s.time_base
unfolding validate_stream
validate_stream-IsTimeBase s u h =
    ground (arith, leb_ℤ_cases s.time_base.num (pos 0), leb_ℤ_cases s.time_base.den (pos 0))

check_streams-IsTimeBase :
    (seen streams : List StreamInfo) (u : Unit {0})
    → check_streams seen streams ≡ ok u
    → All (λ s. IsTimeBase s.time_base) streams
unfolding check_streams
check_streams-IsTimeBase seen [] u h = tt
check_streams-IsTimeBase seen (s ∷ rest) u h =
    let (a, valid, more) = >>=-eq-ok (validate_stream s) _ h in
    let (_, _, k) =
      >>=-eq-ok (throw_if (any (λ t. eqb_ℤ s.stream_index t.stream_index) seen) invalid_argument) _
        more in
    (validate_stream-IsTimeBase s a valid, check_streams-IsTimeBase (s ∷ seen) rest u k)

-- A converter that was built holds the given streams, whose time bases are positive.
pub make_lem :
    (streams : List StreamInfo) (c : Converter)
    → make streams ≡ ok c
    → (c ≡ record { streams = streams; shift_ms = none })
      × All (λ s. IsTimeBase s.time_base) streams
unfolding make
make_lem [] c h = cc
make_lem (s ∷ rest) c h =
    let (u, checked, made) = >>=-eq-ok (check_streams [] (s ∷ rest)) _ h in
    (cc made, check_streams-IsTimeBase [] (s ∷ rest) u checked)

module _ (m : TimeMath) where
  -- What a packet has passed: both timestamps are set, and its time base is that of its stream.
  pub record IsChecked (c : Converter) (p : AvPacket) : Type 0 where
    pub pts_set : p.pts ≢ nopts_value
    pub dts_set : p.dts ≢ nopts_value
    pub base : IsTimeBase p.time_base
    pub stream : StreamInfo
    pub found : stream_of c.streams p.stream_index ≡ some stream
    pub same_base : m.cmp_q p.time_base stream.time_base ≡ pos 0

  checked :
      (c : Converter) (p : AvPacket) (o : Option StreamInfo)
      → stream_of c.streams p.stream_index ≡ o
      → eqb_ℤ p.pts nopts_value ≡ false
      → eqb_ℤ p.dts nopts_value ≡ false
      → mismatched m o p ≡ false
      → IsChecked c p
  checked c p none e a b h = cc
  checked c p (some s) e a b h = record {
    pts_set = ground (arith, eqb_ℤ_cases p.pts nopts_value);
    dts_set = ground (arith, eqb_ℤ_cases p.dts nopts_value);
    base = (
      ground (arith, leb_ℤ_cases p.time_base.num (pos 0)),
      ground (arith, leb_ℤ_cases p.time_base.den (pos 0)),
    );
    stream = s;
    found = e;
    same_base = ground (arith, eqb_ℤ_cases (m.cmp_q p.time_base s.time_base) (pos 0));
  }

  pub validate-IsChecked :
      (c : Converter) (packet : Packet) (p : AvPacket)
      → validate m c packet ≡ ok p
      → (packet ≡ some p) × IsChecked c p
  unfolding validate
  validate-IsChecked c none p h = cc
  validate-IsChecked c (some q) p h =
      let (_, set, more) =
        >>=-eq-ok (throw_if (eqb_ℤ q.pts nopts_value || eqb_ℤ q.dts nopts_value) invalid_argument) _
          h in
      let (_, fits, same) =
        >>=-eq-ok (throw_if (mismatched m (stream_of c.streams q.stream_index) q) invalid_argument)
          _ more in
      (
        ap some (ground arith),
        subst (IsChecked c) (ground arith) (
            checked c q (stream_of c.streams q.stream_index) refl (ground arith) (ground arith)
              (ground arith)),
      )

  pub validate_outcome :
      (c : Converter) (packet : Packet)
      → ((p : AvPacket) × (validate m c packet ≡ ok p))
        ⊎ (validate m c packet ≡ err invalid_argument)
  unfolding validate
  validate_outcome c none = inr refl
  validate_outcome c (some p) =
      elim (Bool-cases (eqb_ℤ p.pts nopts_value || eqb_ℤ p.dts nopts_value)) [
        | inl e ↦ inr (rw e)
        | inr e ↦ elim (Bool-cases (mismatched m (stream_of c.streams p.stream_index) p)) [
          | inl f ↦ inr (rw (e, f))
          | inr f ↦ inl (p, rw (e, f))
        ]
      ]
