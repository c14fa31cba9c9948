-- ===== src/Glob/Ranges.antt =====
-- What a range in a class stands for.
use extremes.Base.{ℕ, ◌≡◌, ◌≢◌, ◌&&◌, [], ◌∷◌, arith, leb, ltb, if◌then◌else◌}
use extremes.Glob.{ok, fail, out_of_range, pattern_match}

-- The pattern `[lo-hi]` takes the bytes from `lo` up to but not including `hi`, so it never takes
-- `hi` itself; with `hi` below `lo` the bit set throws.
pattern_match-range :
    (lo hi c : ℕ)
    → lo ≢ b'^'
    → hi ≢ b']'
    → pattern_match (b'[' ∷ lo ∷ b'-' ∷ hi ∷ b']' ∷ []) (c ∷ [])
      ≡ (if leb lo hi then ok (leb lo c && ltb c hi) else fail out_of_range)
unfolding pattern_match
pattern_match-range lo hi c h k = ground arith
