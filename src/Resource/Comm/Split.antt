-- ===== src/Resource/Comm/Split.antt =====
-- `_rsplit` cuts a range in two without a loss.
use rpki_net.Prelude.{◌+◌, ◌-◌, ◌≤◌, ◌<◌, ◌≡◌, List, ◌∷◌, arith}
use rpki_net.Result.{ok}
use rpki_net.Resource.Range.{Family, Range, Fits, Fits-le, datum-Fits}
use rpki_net.Resource.Comm.{rsplit}

module _ (f : Family) (this that : Range) (rest : List Range) where
  pub rsplit-low :
      this.min < that.min
      → that.min ≤ this.max
      → rsplit f (this ∷ rest) that
        ≡ ok (
            record { min = this.min; max = that.min - 1 }
            ∷ record { min = that.min; max = this.max }
            ∷ rest)
  unfolding rsplit
  rsplit-low h k = ground arith

  pub rsplit-high :
      this.min ≡ that.min
      → that.min ≤ that.max
      → that.max < this.max
      → Fits f this.max
      → rsplit f (this ∷ rest) that
        ≡ ok (
            record { min = this.min; max = that.max }
            ∷ record { min = that.max + 1; max = this.max }
            ∷ rest)
  unfolding rsplit
  rsplit-high e o h k =
      ground
        (arith, datum-Fits f (that.max + 1) (Fits-le f (that.max + 1) this.max (omega arith) k))
