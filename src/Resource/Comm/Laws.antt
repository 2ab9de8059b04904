-- ===== src/Resource/Comm/Laws.antt =====
-- `_comm`, `intersection` and `difference` on well-formed sets.
use rpki_net.Prelude.{ℕ, ◌≤◌, ◌≡◌, sym, false, ◌&&◌, not, arith, All, subst}
use rpki_net.Result.{Returns, Returns-map, Returns-bind, Returns-ok}
use rpki_net.Resource.Range.{IsRange, depth, covers}
use rpki_net.Resource.Sorted.{IsCanonical→IsDisjoint, depth-IsDisjoint, covers-depth}
use rpki_net.Resource.Set.{ResourceSet, make_set}
use rpki_net.Resource.Set.Valid.{
  IsValid, IsSetWith, IsSetWith-same, depth-Fits, make_set-IsCanonical, make_set-IsSetWith,
}
use rpki_net.Resource.Comm.{Three, Comm, comm_loop, comm_fuel, comm, intersection, difference}
use rpki_net.Resource.Comm.Step.{IsCommOf}
use rpki_net.Resource.Comm.Loop.{comm_loop-IsCommOf}

-- The three sets of `_comm`, by the numbers that they hold.
pub record IsComm (s o : ResourceSet) (c : Comm) : Type 0 where
  pub only1 : IsSetWith s.family (λ x. covers x s.ranges && not (covers x o.ranges)) c.only1
  pub only2 : IsSetWith s.family (λ x. covers x o.ranges && not (covers x s.ranges)) c.only2
  pub both : IsSetWith s.family (λ x. covers x s.ranges && covers x o.ranges) c.both

module _ (s o : ResourceSet) (same_class : s.family ≡ o.family) (vs : IsValid s)
    (vo : IsValid o) where
  fits_o : All (IsRange s.family) o.ranges
  fits_o = subst (λ f. All (IsRange f) o.ranges) (sym same_class) vo.fits

  ds : (x : ℕ) → depth x s.ranges ≤ 1
  ds x = depth-IsDisjoint x 0 s.ranges (IsCanonical→IsDisjoint 0 s.ranges vs.canonical)

  do' : (x : ℕ) → depth x o.ranges ≤ 1
  do' x = depth-IsDisjoint x 0 o.ranges (IsCanonical→IsDisjoint 0 o.ranges vo.canonical)

  module _ (t : Three) (k : IsCommOf 0 s.ranges o.ranges t) where
    only1-IsSetWith :
        Returns
          (make_set s.family t.only1 false)
          (IsSetWith s.family (λ x. covers x s.ranges && not (covers x o.ranges)))
    only1-IsSetWith =
        Returns-map _ _ (make_set s.family t.only1 false)
          (make_set-IsSetWith s.family t.only1 k.disjoint1
            (λ x p. depth-Fits s.family s.ranges x vs.fits (omega (arith, k.first x))))
          (λ r. IsSetWith-same s.family _ _ (λ x. ground (
            arith,
            covers-depth x t.only1,
            covers-depth x s.ranges,
            covers-depth x o.ranges,
            k.first x,
            k.second x,
            k.apart x,
            ds x,
            do' x,
          )))

    only2-IsSetWith :
        Returns
          (make_set s.family t.only2 false)
          (IsSetWith s.family (λ x. covers x o.ranges && not (covers x s.ranges)))
    only2-IsSetWith =
        Returns-map _ _ (make_set s.family t.only2 false)
          (make_set-IsSetWith s.family t.only2 k.disjoint2
            (λ x p. depth-Fits s.family o.ranges x fits_o (omega (arith, k.second x))))
          (λ r. IsSetWith-same s.family _ _ (λ x. ground (
            arith,
            covers-depth x t.only2,
            covers-depth x s.ranges,
            covers-depth x o.ranges,
            k.first x,
            k.second x,
            k.apart x,
            ds x,
            do' x,
          )))

    both-IsSetWith :
        Returns
          (make_set s.family t.both false)
          (IsSetWith s.family (λ x. covers x s.ranges && covers x o.ranges))
    both-IsSetWith =
        Returns-map _ _ (make_set s.family t.both false)
          (make_set-IsSetWith s.family t.both k.disjoint_both
            (λ x p. depth-Fits s.family s.ranges x vs.fits (omega (arith, k.first x))))
          (λ r. IsSetWith-same s.family _ _ (λ x. ground (
            arith,
            covers-depth x t.both,
            covers-depth x s.ranges,
            covers-depth x o.ranges,
            k.first x,
            k.second x,
            k.apart x,
            ds x,
            do' x,
          )))

  -- `_comm` of two well-formed sets of one class returns, and its three sets are well-formed and
  -- hold the numbers only in the first, only in the second, and in both.
  pub comm-IsComm : Returns (comm s o) (IsComm s o)
  unfolding comm
  comm-IsComm =
      let (t, et, k) =
        Returns-ok (IsCommOf 0 s.ranges o.ranges)
          (comm_loop s.family (comm_fuel s.ranges o.ranges) s.ranges o.ranges)
          (comm_loop-IsCommOf s.family s.ranges o.ranges
            (IsCanonical→IsDisjoint 0 s.ranges vs.canonical, vs.fits)
            (IsCanonical→IsDisjoint 0 o.ranges vo.canonical, fits_o)) in
      let (r1, e1, k1) = Returns-ok _ (make_set s.family t.only1 false) (only1-IsSetWith t k) in
      let (r2, e2, k2) = Returns-ok _ (make_set s.family t.only2 false) (only2-IsSetWith t k) in
      let (r3, e3, k3) = Returns-ok _ (make_set s.family t.both false) (both-IsSetWith t k) in
      rw
        (
          vs.explicit,
          make_set-IsCanonical s.family s.ranges vs.canonical vs.fits,
          make_set-IsCanonical o.family o.ranges vo.canonical vo.fits,
          et,
          e1,
          e2,
          e3,
        )
        (record { only1 = k1; only2 = k2; both = k3 })

  pub intersection-IsSetWith :
      Returns (intersection s o) (IsSetWith s.family (λ x. covers x s.ranges && covers x o.ranges))
  unfolding intersection
  intersection-IsSetWith = Returns-bind (IsComm s o) _ (comm s o) _ comm-IsComm (λ c k. k.both)

  pub difference-IsSetWith :
      Returns
        (difference s o)
        (IsSetWith s.family (λ x. covers x s.ranges && not (covers x o.ranges)))
  unfolding difference
  difference-IsSetWith = Returns-bind (IsComm s o) _ (comm s o) _ comm-IsComm (λ c k. k.only1)
