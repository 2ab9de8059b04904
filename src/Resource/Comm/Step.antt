-- ===== src/Resource/Comm/Step.antt =====
-- One round of the loop of `_comm`: what it does to the numbers that the lists hold.
use rpki_net.Prelude.{ℕ, suc, ◌+◌, ◌≤◌, ◌<◌, ◌≡◌, refl, List, ◌∷◌, arith, All}
use rpki_net.Result.{ok, Returns, Returns-bind, Returns-map}
use rpki_net.Resource.Range.{Family, Range, IsRange, depth}
use rpki_net.Resource.Sorted.{IsDisjoint, IsDisjoint-le, IsDisjoint→IsAscending, depth-below}
use rpki_net.Resource.Comm.{
  Three, take1, take2, split1, split2, take_both, choose, rsplit, comm_loop, add1, add2, add_both,
}

-- `only1` and `both` make up the first list, `only2` and `both` the second, and `only1` and
-- `only2` share nothing.
pub record IsCommOf (lb : ℕ) (s t : List Range) (c : Three) : Type 0 where
  pub disjoint1 : IsDisjoint lb c.only1
  pub disjoint2 : IsDisjoint lb c.only2
  pub disjoint_both : IsDisjoint lb c.both
  pub first : (x : ℕ) → depth x c.only1 + depth x c.both ≡ depth x s
  pub second : (x : ℕ) → depth x c.only2 + depth x c.both ≡ depth x t
  pub apart : (x : ℕ) → depth x c.only1 + depth x c.only2 ≤ 1

below : (x lb : ℕ) (rs : List Range) → IsDisjoint lb rs → x < lb → depth x rs ≡ 0
below x lb rs d = depth-below x lb rs (IsDisjoint→IsAscending lb rs d)

-- The result depends on the numbers of the lists alone.
IsCommOf-same :
    (lb : ℕ) (s s' t t' : List Range) {c : Three}
    → ((x : ℕ) → depth x s ≡ depth x s')
    → ((x : ℕ) → depth x t ≡ depth x t')
    → IsCommOf lb s t c
    → IsCommOf lb s' t' c
IsCommOf-same lb s s' t t' e g h = record {
  disjoint1 = h.disjoint1;
  disjoint2 = h.disjoint2;
  disjoint_both = h.disjoint_both;
  first = λ x. omega (arith, h.first x, e x);
  second = λ x. omega (arith, h.second x, g x);
  apart = h.apart;
}

module _ (lb : ℕ) (a : Range) (lo : lb ≤ a.min) (o : a.min ≤ a.max) (s t : List Range) {c : Three}
    (h : IsCommOf (a.max + 1) s t c) where
  lower : (rs : List Range) → IsDisjoint (a.max + 1) rs → IsDisjoint lb rs
  lower rs d = IsDisjoint-le (a.max + 1) lb rs (omega arith) d

  IsCommOf-add1 : IsCommOf lb (a ∷ s) t (record c { only1 = a ∷ c.only1 })
  IsCommOf-add1 = record {
    disjoint1 = (lo, o, h.disjoint1);
    disjoint2 = lower c.only2 h.disjoint2;
    disjoint_both = lower c.both h.disjoint_both;
    first = λ x. ground (arith, h.first x);
    second = h.second;
    apart = λ x. ground (
      arith,
      h.apart x,
      below x (a.max + 1) c.only1 h.disjoint1,
      below x (a.max + 1) c.only2 h.disjoint2,
    );
  }

  IsCommOf-add2 : IsCommOf lb s (a ∷ t) (record c { only2 = a ∷ c.only2 })
  IsCommOf-add2 = record {
    disjoint1 = lower c.only1 h.disjoint1;
    disjoint2 = (lo, o, h.disjoint2);
    disjoint_both = lower c.both h.disjoint_both;
    first = h.first;
    second = λ x. ground (arith, h.second x);
    apart = λ x. ground (
      arith,
      h.apart x,
      below x (a.max + 1) c.only1 h.disjoint1,
      below x (a.max + 1) c.only2 h.disjoint2,
    );
  }

  IsCommOf-add_both :
      (b : Range)
      → a.min ≡ b.min
      → a.max ≡ b.max
      → IsCommOf lb (a ∷ s) (b ∷ t) (record c { both = a ∷ c.both })
  IsCommOf-add_both b e g = record {
    disjoint1 = lower c.only1 h.disjoint1;
    disjoint2 = lower c.only2 h.disjoint2;
    disjoint_both = (lo, o, h.disjoint_both);
    first = λ x. ground (arith, h.first x);
    second = λ x. ground (arith, h.second x);
    apart = h.apart;
  }

abbrev pub IsInput : Family → ℕ → List Range → Type 0
IsInput f lb s = IsDisjoint lb s × All (IsRange f) s

module _ (f : Family) where
  abbrev pub Goal : ℕ → ℕ → List Range → List Range → Type 0
  Goal fuel lb s t = Returns (comm_loop f fuel s t) (IsCommOf lb s t)

  pub step-take1 :
      (fuel lb : ℕ) (a : Range) (s t : List Range)
      → choose (a ∷ s) t ≡ take1
      → lb ≤ a.min
      → a.min ≤ a.max
      → Goal fuel (a.max + 1) s t
      → Goal (suc fuel) lb (a ∷ s) t
  unfolding comm_loop
  step-take1 fuel lb a s t e lo o ih =
      rw (e, comm_loop)
        (Returns-bind (IsCommOf (a.max + 1) s t) (IsCommOf lb (a ∷ s) t) (comm_loop f fuel s t)
          (add1 (a ∷ s)) ih (λ c h. IsCommOf-add1 lb a lo o s t h))

  pub step-take2 :
      (fuel lb : ℕ) (b : Range) (s t : List Range)
      → choose s (b ∷ t) ≡ take2
      → lb ≤ b.min
      → b.min ≤ b.max
      → Goal fuel (b.max + 1) s t
      → Goal (suc fuel) lb s (b ∷ t)
  unfolding comm_loop
  step-take2 fuel lb b s t e lo o ih =
      rw (e, comm_loop)
        (Returns-bind (IsCommOf (b.max + 1) s t) (IsCommOf lb s (b ∷ t)) (comm_loop f fuel s t)
          (add2 (b ∷ t)) ih (λ c h. IsCommOf-add2 lb b lo o s t h))

  pub step-take_both :
      (fuel lb : ℕ) (a b : Range) (s t : List Range)
      → choose (a ∷ s) (b ∷ t) ≡ take_both
      → lb ≤ a.min
      → a.min ≤ a.max
      → a.min ≡ b.min
      → a.max ≡ b.max
      → Goal fuel (a.max + 1) s t
      → Goal (suc fuel) lb (a ∷ s) (b ∷ t)
  unfolding comm_loop
  step-take_both fuel lb a b s t e lo o p q ih =
      rw (e, comm_loop)
        (Returns-bind (IsCommOf (a.max + 1) s t) (IsCommOf lb (a ∷ s) (b ∷ t))
          (comm_loop f fuel s t) (add_both (a ∷ s)) ih
          (λ c h. IsCommOf-add_both lb a lo o s t h b p q))

  pub step-split1 :
      (fuel lb : ℕ) (that : Range) (s s' t : List Range)
      → choose s t ≡ split1 that
      → rsplit f s that ≡ ok s'
      → ((x : ℕ) → depth x s' ≡ depth x s)
      → Goal fuel lb s' t
      → Goal (suc fuel) lb s t
  unfolding comm_loop
  step-split1 fuel lb that s s' t e r same ih =
      rw (e, r, comm_loop)
        (Returns-map _ _ (comm_loop f fuel s' t) ih
          (λ c h. IsCommOf-same lb s' s t t same (λ x. refl) h))

  pub step-split2 :
      (fuel lb : ℕ) (that : Range) (s t t' : List Range)
      → choose s t ≡ split2 that
      → rsplit f t that ≡ ok t'
      → ((x : ℕ) → depth x t' ≡ depth x t)
      → Goal fuel lb s t'
      → Goal (suc fuel) lb s t
  unfolding comm_loop
  step-split2 fuel lb that s t t' e r same ih =
      rw (e, r, comm_loop)
        (Returns-map _ _ (comm_loop f fuel s t') ih
          (λ c h. IsCommOf-same lb s s t' t (λ x. refl) same h))
