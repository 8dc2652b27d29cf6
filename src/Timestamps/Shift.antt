-- ===== src/Timestamps/Shift.antt =====
-- The common shift: `Initialize` from the first packets, and `Convert` by it.
use mw_streamer.Base.{
  ◌≡◌, refl, sym, ap, subst, ◌⊎◌, inl, inr, Option, none, some, List, [], ◌∷◌, All, ℕ, ℤ, pos, -ℤ◌,
  ◌+ℤ◌, ◌-ℤ◌, ◌≤ℤ◌, ◌<ℤ◌, min_ℤ, int64_max, to_uint64, min_ℤ_cases, to_uint64-nonneg, Result, ok,
  err, invalid_argument, overflow_error, >>=-eq-ok, arith, int_laws, ltb_ℤ_cases, ◌>>=◌,
}
use mw_streamer.Ffmpeg.{TimeMath, AvPacket, Packet, AvRational, milliseconds}
use mw_streamer.Timestamps.{
  Converter, MediaTimestamps, validate, to_milliseconds, lowest, initialize, shift_by, convert,
  initialize_from, convert_by,
}

-- A shifted value is exact, with no wrap-around, or it is refused: as too early only where it lies
-- before the start, and as an overflow only where it lies above int64_t.
pub shift_by_cases :
    (shift value : ℤ)
    → pos 0 ≤ℤ shift
    → ((n : ℕ) × (shift_by shift value ≡ ok n) × (pos n ≡ value +ℤ shift))
      ⊎ ((shift_by shift value ≡ err invalid_argument) × (value +ℤ shift <ℤ pos 0)
          ⊎ (shift_by shift value ≡ err overflow_error) × (int64_max <ℤ value +ℤ shift))
unfolding shift_by
shift_by_cases shift value h = elim (ltb_ℤ_cases value (-ℤ◌ shift)) [
  | inl (e, early) ↦ inr (inl (rw e, omega int_laws))
  | inr (e, covered) ↦ elim (ltb_ℤ_cases (int64_max -ℤ shift) value) [
    | inl (f, above) ↦ inr (inr (rw (e, f), omega int_laws))
    | inr (f, below) ↦ inl (
      to_uint64 (value +ℤ shift),
      rw (e, f),
      to_uint64-nonneg (value +ℤ shift) (omega int_laws) (omega int_laws),
    )
  ]
]

shift_by-ok :
    (shift value : ℤ) (n : ℕ)
    → pos 0 ≤ℤ shift
    → shift_by shift value ≡ ok n
    → pos n ≡ value +ℤ shift
shift_by-ok shift value n h e = ground (arith, shift_by_cases shift value h)

module _ (m : TimeMath) where
  abbrev pub ms : ℤ → AvRational → ℤ
  ms value time_base = m.rescale_q value time_base milliseconds

  to_milliseconds_cases :
      (value : ℤ) (q : AvRational)
      → (to_milliseconds m value q ≡ ok (ms value q))
        ⊎ (to_milliseconds m value q ≡ err overflow_error)
  unfolding to_milliseconds
  to_milliseconds_cases value q = ground arith

  validate_cases :
      (c : Converter) (p : AvPacket)
      → (validate m c (some p) ≡ ok p) ⊎ (validate m c (some p) ≡ err invalid_argument)
  unfolding validate
  validate_cases c p = ground arith

  validate-null : (c : Converter) → validate m c none ≡ err invalid_argument
  unfolding validate
  validate-null c = refl

  -- Both timestamps of a converted packet are its millisecond timestamps, moved by the one shift.
  pub convert-shift :
      (c : Converter) (shift : ℤ) (p : AvPacket) (t : MediaTimestamps)
      → c.shift_ms ≡ some shift
      → pos 0 ≤ℤ shift
      → convert m c (some p) ≡ ok t
      → (pos t.pts_ms ≡ ms p.pts p.time_base +ℤ shift)
        × (pos t.dts_ms ≡ ms p.dts p.time_base +ℤ shift)
  unfolding convert
  convert-shift c shift p t e h k = ground (
    arith,
    validate_cases c p,
    to_milliseconds_cases p.pts p.time_base,
    to_milliseconds_cases p.dts p.time_base,
    shift_by_cases shift (ms p.pts p.time_base) h,
    shift_by_cases shift (ms p.dts p.time_base) h,
  )

  -- `r` is at most both millisecond timestamps of each packet.
  abbrev pub IsBelow : ℤ → Packet → Type 0
  IsBelow r none = ⊥
  IsBelow r (some p) = (r ≤ℤ ms p.pts p.time_base) × (r ≤ℤ ms p.dts p.time_base)

  -- `r` is a millisecond timestamp of a packet.
  abbrev pub IsStamp : ℤ → List Packet → Type 0
  IsStamp r [] = ⊥
  IsStamp r (none ∷ ps) = IsStamp r ps
  IsStamp r (some p ∷ ps) = (r ≡ ms p.pts p.time_base) ⊎ ((r ≡ ms p.dts p.time_base) ⊎ IsStamp r ps)

  lowest_lem :
      (c : Converter) (minimum : ℤ) (ps : List Packet) (r : ℤ)
      → lowest m c minimum ps ≡ ok r
      → (r ≤ℤ minimum) × All (IsBelow r) ps × ((r ≡ minimum) ⊎ IsStamp r ps)
  unfolding lowest
  lowest_lem c minimum [] r e = ground arith
  lowest_lem c minimum (none ∷ ps) r e = ground (arith, validate-null c)
  lowest_lem c minimum (some p ∷ ps) r e = ground (
    arith,
    validate_cases c p,
    to_milliseconds_cases p.pts p.time_base,
    to_milliseconds_cases p.dts p.time_base,
    min_ℤ_cases minimum (ms p.pts p.time_base),
    min_ℤ_cases (min_ℤ minimum (ms p.pts p.time_base)) (ms p.dts p.time_base),
    lowest_lem c (min_ℤ (min_ℤ minimum (ms p.pts p.time_base)) (ms p.dts p.time_base)) ps r,
  )

  abbrev IsReadable : Converter → Packet → Type 0
  IsReadable c none = ⊥
  IsReadable c (some p) =
      (validate m c (some p) ≡ ok p)
      × (to_milliseconds m p.pts p.time_base ≡ ok (ms p.pts p.time_base))
      × (to_milliseconds m p.dts p.time_base ≡ ok (ms p.dts p.time_base))

  lowest-IsReadable :
      (c : Converter) (minimum : ℤ) (ps : List Packet) (r : ℤ)
      → lowest m c minimum ps ≡ ok r
      → All (IsReadable c) ps
  unfolding lowest
  lowest-IsReadable c minimum [] r e = tt
  lowest-IsReadable c minimum (none ∷ ps) r e = ground (arith, validate-null c)
  lowest-IsReadable c minimum (some p ∷ ps) r e = ground (
    arith,
    validate_cases c p,
    to_milliseconds_cases p.pts p.time_base,
    to_milliseconds_cases p.dts p.time_base,
    lowest-IsReadable c (min_ℤ (min_ℤ minimum (ms p.pts p.time_base)) (ms p.dts p.time_base)) ps r,
  )

  initialize-lowest :
      (c u : Converter) (ps : List Packet)
      → c.shift_ms ≡ none
      → initialize m c ps ≡ ok u
      → (r : ℤ) × (lowest m c (pos 0) ps ≡ ok r) × (u ≡ record c { shift_ms = some (-ℤ◌ r) })
  unfolding initialize
  initialize-lowest c u ps e h =
      let fresh : initialize_from m none c ps ≡ ok u =
        subst (λ o. initialize_from m o c ps ≡ ok u) e h in
      let (r, low, made) = >>=-eq-ok (lowest m c (pos 0) ps) _ fresh in (r, low, cc made)

  shifted : (r : ℤ) (ps : List Packet) → (r ≡ pos 0) ⊎ IsStamp r ps → (-ℤ◌ r ≡ pos 0) ⊎ IsStamp r ps
  unfolding -ℤ◌
  shifted r ps (inl e) = inl (rw e)
  shifted r ps (inr s) = inr s

  -- The first initialization picks the least shift, 0 or above, that brings both timestamps of
  -- every first packet to 0 or above.
  pub initialize_least :
      (c u : Converter) (ps : List Packet)
      → c.shift_ms ≡ none
      → initialize m c ps ≡ ok u
      → (shift : ℤ) × (u.shift_ms ≡ some shift)
        × (pos 0 ≤ℤ shift)
        × All (IsBelow (-ℤ◌ shift)) ps
        × ((shift ≡ pos 0) ⊎ IsStamp (-ℤ◌ shift) ps)
  initialize_least c u ps e h =
      let (r, low, made) = initialize-lowest c u ps e h in
      let (nonpos, below, least) = lowest_lem c (pos 0) ps r low in
      let again : -ℤ◌ (-ℤ◌ r) ≡ r = omega int_laws in
      (
        -ℤ◌ r,
        ap (λ (x : Converter). x.shift_ms) made,
        omega int_laws,
        subst (λ x. All (IsBelow x) ps) (sym again) below,
        subst (λ x. (-ℤ◌ r ≡ pos 0) ⊎ IsStamp x ps) (sym again) (shifted r ps least),
      )

  abbrev pub IsConverted : Converter → Packet → Type 0
  IsConverted u packet =
      ((t : MediaTimestamps) × (convert m u packet ≡ ok t))
      ⊎ (convert m u packet ≡ err overflow_error)

  validate-shift :
      (c : Converter) (o : Option ℤ) (packet : Packet)
      → validate m (record c { shift_ms = o }) packet ≡ validate m c packet
  unfolding validate
  validate-shift c o none = refl
  validate-shift c o (some p) = refl

  abbrev IsSettled : Result MediaTimestamps → Type 0
  IsSettled r = ((t : MediaTimestamps) × (r ≡ ok t)) ⊎ (r ≡ err overflow_error)

  IsSettled-dts :
      (shift : ℤ) (p : AvPacket) (n : ℕ)
      → pos 0 ≤ℤ shift
      → to_milliseconds m p.dts p.time_base ≡ ok (ms p.dts p.time_base)
      → -ℤ◌ shift ≤ℤ ms p.dts p.time_base
      → IsSettled (
          to_milliseconds m p.dts p.time_base >>= λ dts.
          shift_by shift dts >>= λ k. ok (record { pts_ms = n; dts_ms = k }))
  IsSettled-dts shift p n h e y = elim (shift_by_cases shift (ms p.dts p.time_base) h) [
    | inl (k, f, _) ↦ inl (record { pts_ms = n; dts_ms = k }, rw (e, f))
    | inr (inl (_, early)) ↦ absurd (omega int_laws)
    | inr (inr (f, _)) ↦ inr (rw (e, f))
  ]

  settled :
      (shift : ℤ) (p : AvPacket)
      → pos 0 ≤ℤ shift
      → to_milliseconds m p.pts p.time_base ≡ ok (ms p.pts p.time_base)
      → to_milliseconds m p.dts p.time_base ≡ ok (ms p.dts p.time_base)
      → IsBelow (-ℤ◌ shift) (some p)
      → IsSettled (convert_by m (some shift) p)
  settled shift p h e f y = elim (shift_by_cases shift (ms p.pts p.time_base) h) [
    | inl (n, g, _) ↦ rw (e, g) (IsSettled-dts shift p n h f y.1)
    | inr (inl (_, early)) ↦ absurd (omega int_laws)
    | inr (inr (g, _)) ↦ inr (rw (e, g))
  ]

  readable-IsConverted :
      (c u : Converter) (shift : ℤ) (packet : Packet)
      → pos 0 ≤ℤ shift
      → u ≡ record c { shift_ms = some shift }
      → IsReadable c packet
      → IsBelow (-ℤ◌ shift) packet
      → IsConverted u packet
  unfolding convert
  readable-IsConverted c u shift none h e x y = absurd x
  readable-IsConverted c u shift (some p) h e x y =
      subst (λ v. IsSettled (convert m v (some p))) (sym e)
        (rw (validate-shift c (some shift) (some p), x.0) (settled shift p h x.1 x.2 y))

  All-IsConverted :
      (c u : Converter) (shift : ℤ) (ps : List Packet)
      → pos 0 ≤ℤ shift
      → u ≡ record c { shift_ms = some shift }
      → All (IsReadable c) ps
      → All (IsBelow (-ℤ◌ shift)) ps
      → All (IsConverted u) ps
  All-IsConverted c u shift [] h e x y = tt
  All-IsConverted c u shift (p ∷ ps) h e x y =
      (readable-IsConverted c u shift p h e x.0 y.0, All-IsConverted c u shift ps h e x.1 y.1)

  -- After the first initialization each first packet is converted, unless the shift carries it
  -- above int64_t: none of them is refused as invalid or as too early.
  pub initialize-IsConverted :
      (c u : Converter) (ps : List Packet)
      → c.shift_ms ≡ none
      → initialize m c ps ≡ ok u
      → All (IsConverted u) ps
  initialize-IsConverted c u ps e h =
      let (r, low, made) = initialize-lowest c u ps e h in
      let (shift, is, nonneg, below, _) = initialize_least c u ps e h in
      All-IsConverted c u shift ps nonneg (ground arith) (lowest-IsReadable c (pos 0) ps r low)
        below
