-- ===== src/AvDecoder/EndPts.antt =====
-- The end of the last frame, as the end of a stream reports it.
use mw_streamer.Base.{
  ◌≡◌, ◌≢◌, ◌⊎◌, inl, inr, refl, ℤ, pos, ◌+ℤ◌, ◌-ℤ◌, ◌≤ℤ◌, ◌<ℤ◌, leb_ℤ_cases, ltb_ℤ_cases,
  eqb_ℤ_cases, int64_max, IsInt64, int_laws,
}
use mw_streamer.Ffmpeg.{TimeMath, StreamInfo, nopts_value}
use mw_streamer.Media.{AvFrame}
use mw_streamer.AvDecoder.Loop.{Codec, duration_of, frame_end_pts}

-- The end of the frame is known, and an int64_t after its start.
pub record EndsAt (start duration end : ℤ) : Type 0 where
  pub known : start ≢ nopts_value
  pub lasts : pos 0 <ℤ duration
  pub is_sum : end ≡ start +ℤ duration
  pub after : start <ℤ end
  pub fits : IsInt64 end

-- Or it is not known.
abbrev pub NoEnd : ℤ → ℤ → ℤ → Type 0
NoEnd start duration end =
    (end ≡ nopts_value)
    × ((start ≡ nopts_value) ⊎ (duration ≤ℤ pos 0) ⊎ (int64_max <ℤ start +ℤ duration))

module _ {S : Type 0} (m : TimeMath) (info : StreamInfo) (c : Codec S) where
  -- The end of a frame whose timestamp is an int64_t is its start and its duration, where both are
  -- known and the sum is an int64_t; otherwise it is AV_NOPTS_VALUE. No sum overflows.
  pub frame_end_pts_outcome :
      (f : AvFrame)
      → IsInt64 f.pts
      → NoEnd f.pts (duration_of m info c f) (frame_end_pts m info c f)
        ⊎ EndsAt f.pts (duration_of m info c f) (frame_end_pts m info c f)
  unfolding frame_end_pts
  frame_end_pts_outcome f b =
      let lo = b.above in
      let d = duration_of m info c f in
      elim (eqb_ℤ_cases f.pts nopts_value) [
        | inl (e, none_known) ↦ inl (rw e refl, inl none_known)
        | inr (e, known) ↦ elim (leb_ℤ_cases d (pos 0)) [
          | inl (u, short) ↦ inl (simp (e, u) refl, inr (inl short))
          | inr (u, lasts) ↦ elim (ltb_ℤ_cases (int64_max -ℤ d) f.pts) [
            | inl (w, far) ↦ inl (simp (e, u, w) refl, inr (inr (omega int_laws)))
            | inr (w, near) ↦ inr (
                simp (e, u, w)
                  (record {
                    known = known;
                    lasts = lasts;
                    is_sum = refl;
                    after = omega int_laws;
                    fits = record { above = omega int_laws; below = omega int_laws };
                  }))
          ]
        ]
      ]
