-- ===== src/Interleaver/Tracks.antt =====
-- The track table: it mirrors the streams, and `Push` raises one entry of it.
use mathlib.Core.Option
use mathlib.Core.Option.{some-injective}
use mw_streamer.Base.{
  ◌≡◌, ◌≢◌, refl, sym, ap, subst, ◌∙◌, inl, inr, Option, none, some, List, [], ◌∷◌, ◌++◌, ℤ, eqb_ℤ,
  any, find?, arith, if◌then◌else◌, eqb_ℤ_cases, ok, >>=-eq-ok, throw_if, invalid_argument,
  Option-cases,
}
use mw_streamer.Ffmpeg.{StreamInfo, CodecParameters, same_type}
use mw_streamer.Timestamps.Streams.{stream_of}
use mw_streamer.Interleaver.{Track, make_tracks, track_order, raise}

abbrev pub track_of : List Track → ℤ → Option Track
track_of tracks index = find? (λ t. eqb_ℤ t.index index) tracks

pub track_order-raise :
    (tracks : List Track) (i d j : ℤ) → track_order (raise tracks i d) j ≡ track_order tracks j
unfolding track_order raise
track_order-raise [] i d j = refl
track_order-raise (t ∷ ts) i d j = ground (arith, track_order-raise ts i d j)

abbrev pub raised : ℤ → ℤ → Track → Track
raised i d t = if eqb_ℤ t.index i then record t { highest = some d } else t

pub track_of-index :
    (tracks : List Track) (j : ℤ) (t : Track) → track_of tracks j ≡ some t → t.index ≡ j
track_of-index [] j t e = cc
track_of-index (u ∷ ts) j t e = elim (eqb_ℤ_cases u.index j) [
  | inl (h, same) ↦
      subst (λ x. x ≡ j) (ap (λ (x : Track). x.index) (some-injective u t (rw h at e))) same
  | inr (h, _) ↦ track_of-index ts j t (rw h at e)
]

raise_elsewhere :
    (tracks : List Track) (i d j : ℤ)
    → i ≢ j
    → Option.map (raised i d) (track_of tracks j) ≡ track_of tracks j
raise_elsewhere tracks i d j h = elim (Option-cases (track_of tracks j)) [
  | inl e ↦ rw e
  | inr (t, e) ↦ rw e (ap some (other t (track_of-index tracks j t e)))
]
  where
    other : (t : Track) → t.index ≡ j → raised i d t ≡ t
    other t e = ground (arith, eqb_ℤ_cases t.index i)

-- Raising changes the entry that a lookup of the index finds, and no other lookup.
pub track_of-raise :
    (tracks : List Track) (i d j : ℤ)
    → track_of (raise tracks i d) j ≡ Option.map (raised i d) (track_of tracks j)
unfolding raise
track_of-raise [] i d j = refl
track_of-raise (t ∷ ts) i d j = elim (eqb_ℤ_cases t.index i) [
  | inl (h, same) ↦ elim (eqb_ℤ_cases t.index j) [
    | inl (k, _) ↦ rw (h, k) (rw h)
    | inr (k, ne) ↦ rw (h, k) (sym (raise_elsewhere ts i d j (λ e. ne (same ∙ e))))
  ]
  | inr (h, _) ↦ elim (eqb_ℤ_cases t.index j) [
    | inl (k, _) ↦ rw (h, k) (rw h)
    | inr (k, _) ↦ rw (h, k) (track_of-raise ts i d j)
  ]
]

-- A lookup in the tracks finds as much as one in the streams, with the same time base.
abbrev pub Link : Option Track → Option StreamInfo → Type 0
Link none none = Unit {0}
Link (some t) (some s) = t.time_base ≡ s.time_base
Link _ _ = ⊥

abbrev entry : StreamInfo → CodecParameters → Track
entry s c = record {
  index = s.stream_index;
  type = c.codec_type;
  time_base = s.time_base;
  highest = none;
}

track_of-append :
    (xs ys : List Track) (j : ℤ)
    → track_of (xs ++ ys) j ≡ elim (track_of xs j) [ some t ↦ some t | none ↦ track_of ys j ]
track_of-append [] ys j = refl
track_of-append (x ∷ xs) ys j = ground (arith, track_of-append xs ys j)

-- One round of the constructor's loop.
make_tracks-cons :
    (tracks : List Track) (s : StreamInfo) (rest : List StreamInfo) (ts : List Track)
    → make_tracks tracks (s ∷ rest) ≡ ok ts
    → (c : CodecParameters) × (make_tracks (tracks ++ entry s c ∷ []) rest ≡ ok ts)
unfolding make_tracks
make_tracks-cons tracks s rest ts h = elim (Option-cases s.codec_parameters) [
  | inl e ↦ cc (rw (e, make_tracks) at h)
  | inr (c, e) ↦
      let (_, _, k) =
        >>=-eq-ok (throw_if (any (λ t. same_type t.type c.codec_type) tracks) invalid_argument) _
          (rw (e, make_tracks) at h) in
      (c, k)
]

make_tracks-old :
    (tracks : List Track) (streams : List StreamInfo) (ts : List Track) (j : ℤ) (t : Track)
    → make_tracks tracks streams ≡ ok ts
    → track_of tracks j ≡ some t
    → track_of ts j ≡ some t
make_tracks-old tracks [] ts j t h e = unfold make_tracks in ground arith
make_tracks-old tracks (s ∷ rest) ts j t h e =
    let (c, k) = make_tracks-cons tracks s rest ts h in
    make_tracks-old (tracks ++ entry s c ∷ []) rest ts j t k
      (track_of-append tracks (entry s c ∷ []) j ∙ rw e)

pub make_tracks-Link :
    (tracks : List Track) (streams : List StreamInfo) (ts : List Track) (j : ℤ)
    → make_tracks tracks streams ≡ ok ts
    → track_of tracks j ≡ none
    → Link (track_of ts j) (stream_of streams j)
make_tracks-Link tracks [] ts j h e =
    let same : tracks ≡ ts = unfold make_tracks in cc in
    subst (λ x. Link (track_of x j) none) same (rw e tt)
make_tracks-Link tracks (s ∷ rest) ts j h e =
    let (c, k) = make_tracks-cons tracks s rest ts h in
    let next = track_of-append tracks (entry s c ∷ []) j in
    elim (eqb_ℤ_cases s.stream_index j) [
      | inl (q, _) ↦
          rw
            (
              q,
              make_tracks-old (tracks ++ entry s c ∷ []) rest ts j (entry s c) k (next ∙ rw (e, q)),
            )
            refl
      | inr (q, _) ↦
          rw q (make_tracks-Link (tracks ++ entry s c ∷ []) rest ts j k (next ∙ rw (e, q)))
    ]
