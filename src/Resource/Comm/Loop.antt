-- ===== src/Resource/Comm/Loop.antt =====
-- The loop of `_comm` ends within its fuel and splits the numbers of its two lists.
use rpki_net.Prelude.{
  ℕ, zero, suc, ◌+◌, ◌-◌, ◌*◌, ◌≤◌, ◌<◌, ◌≡◌, refl, List, [], ◌∷◌, arith, length, ltb, Bool-cases,
  inl, inr, sym,
}
use rpki_net.Resource.Range.{Family, Range, depth}
use rpki_net.Resource.Comm.{take1, take2, split1, split2, take_both, choose, comm_loop, comm_fuel}
use rpki_net.Resource.Comm.Split.{rsplit-low, rsplit-high}
use rpki_net.Resource.Comm.Step.{
  IsInput, Goal, step-take1, step-take2, step-take_both, step-split1, step-split2,
}

module _ (a b : Range) (s t : List Range) where
  choose-take1 : a.max < b.min → choose (a ∷ s) (b ∷ t) ≡ take1
  unfolding choose
  choose-take1 h = ground arith

  choose-take2 : ¬ (a.max < b.min) → b.max < a.min → choose (a ∷ s) (b ∷ t) ≡ take2
  unfolding choose
  choose-take2 g h = ground arith

  choose-split1 :
      ¬ (a.max < b.min) → ¬ (b.max < a.min) → a.min < b.min → choose (a ∷ s) (b ∷ t) ≡ split1 b
  unfolding choose
  choose-split1 g h k = ground arith

  choose-split2 :
      ¬ (a.max < b.min) → ¬ (b.max < a.min) → b.min < a.min → choose (a ∷ s) (b ∷ t) ≡ split2 a
  unfolding choose
  choose-split2 g h k = ground arith

  module _ (o : a.min ≤ a.max) (p : b.min ≤ b.max) (e : a.min ≡ b.min) where
    choose-shorter1 : a.max < b.max → choose (a ∷ s) (b ∷ t) ≡ split2 a
    unfolding choose
    choose-shorter1 h = ground arith

    choose-shorter2 : b.max < a.max → choose (a ∷ s) (b ∷ t) ≡ split1 b
    unfolding choose
    choose-shorter2 h = ground arith

    choose-both : a.max ≡ b.max → choose (a ∷ s) (b ∷ t) ≡ take_both
    unfolding choose
    choose-both h = ground arith

-- The two parts of a cut hold the numbers of the whole.
depth-cut :
    (x lo cut hi : ℕ) (rest : List Range)
    → lo ≤ cut
    → cut < hi
    → depth x (record { min = lo; max = cut } ∷ record { min = cut + 1; max = hi } ∷ rest)
      ≡ depth x (record { min = lo; max = hi } ∷ rest)
depth-cut x lo cut hi rest h k = ground arith

module _ (f : Family) where
  -- The loop ends with the right lists, for lists of `n` ranges together.
  abbrev Ends : ℕ → Type 0
  Ends n =
      (fuel lb : ℕ) (s t : List Range)
      → length s + length t ≤ n
      → 4 * n < fuel
      → IsInput f lb s
      → IsInput f lb t
      → Goal f fuel lb s t

  -- The heads begin at one number.
  aligned :
      (n : ℕ)
      → Ends n
      → (fuel lb : ℕ) (a b : Range) (s t : List Range) → length s + length t < n
      → 4 * n + 2 < fuel
      → a.min ≡ b.min
      → IsInput f lb (a ∷ s)
      → IsInput f lb (b ∷ t)
      → Goal f fuel lb (a ∷ s) (b ∷ t)
  aligned n ih zero lb a b s t l h e ia ib = absurd (omega arith)
  aligned n ih (suc zero) lb a b s t l h e ia ib = absurd (omega arith)
  aligned n ih (suc (suc k)) lb a b s t l h e ia ib = elim (Bool-cases (ltb a.max b.max)) [
    | inl c ↦
        let low : Range = record { min = b.min; max = a.max } in
        let high : Range = record { min = a.max + 1; max = b.max } in
        step-split2 f (suc k) lb a (a ∷ s) (b ∷ t) (low ∷ high ∷ t)
          (choose-shorter1 a b s t ia.0.1 ib.0.1 e (ground arith))
          (rsplit-high f b a t (sym e) ia.0.1 (ground arith) ib.1.0.1) (λ x. ground arith)
          (step-take_both f k lb a low s (high ∷ t)
            (choose-both a low s (high ∷ t) ia.0.1 (omega arith) e refl) ia.0.0 ia.0.1 e refl
            (ih k (a.max + 1) s (high ∷ t) (omega arith) (omega arith) (ia.0.2, ia.1.1)
              ((omega arith, ground arith, ib.0.2), ((ground arith, ib.1.0.1), ib.1.1))))
    | inr c ↦ elim (Bool-cases (ltb b.max a.max)) [
      | inl d ↦
          let low : Range = record { min = a.min; max = b.max } in
          let high : Range = record { min = b.max + 1; max = a.max } in
          step-split1 f (suc k) lb b (a ∷ s) (low ∷ high ∷ s) (b ∷ t)
            (choose-shorter2 a b s t ia.0.1 ib.0.1 e (ground arith))
            (rsplit-high f a b s e ib.0.1 (ground arith) ia.1.0.1) (λ x. ground arith)
            (step-take_both f k lb low b (high ∷ s) t
              (choose-both low b (high ∷ s) t (omega arith) ib.0.1 e refl) ia.0.0 (omega arith) e
              refl
              (ih k (b.max + 1) (high ∷ s) t (omega arith) (omega arith)
                ((omega arith, ground arith, ia.0.2), ((ground arith, ia.1.0.1), ia.1.1))
                (ib.0.2, ib.1.1)))
      | inr d ↦
          let m : a.max ≡ b.max = ground arith in
          step-take_both f (suc k) lb a b s t (choose-both a b s t ia.0.1 ib.0.1 e m) ia.0.0 ia.0.1
            e m
            (ih (suc k) (a.max + 1) s t (omega arith) (omega arith) (ia.0.2, ia.1.1)
              ((rw m ib.0.2), ib.1.1))
    ]
  ]

  -- The heads share a number and begin apart.
  overlapping1 :
      (n : ℕ)
      → Ends n
      → (fuel lb : ℕ) (a b : Range) (s t : List Range) → length s + length t < n
      → 4 * n + 4 < fuel
      → a.min < b.min
      → b.min ≤ a.max
      → IsInput f lb (a ∷ s)
      → IsInput f lb (b ∷ t)
      → Goal f fuel lb (a ∷ s) (b ∷ t)
  overlapping1 n ih zero lb a b s t l h e g ia ib = absurd (omega arith)
  overlapping1 n ih (suc zero) lb a b s t l h e g ia ib = absurd (omega arith)
  overlapping1 n ih (suc (suc k)) lb a b s t l h e g ia ib =
      let low : Range = record { min = a.min; max = b.min - 1 } in
      let high : Range = record { min = b.min; max = a.max } in
      step-split1 f (suc k) lb b (a ∷ s) (low ∷ high ∷ s) (b ∷ t)
        (choose-split1 a b s t (omega arith) (omega arith) e) (rsplit-low f a b s e g)
        (λ x. ground arith)
        (step-take1 f k lb low (high ∷ s) (b ∷ t) (choose-take1 low b (high ∷ s) t (omega arith))
          ia.0.0 (omega arith)
          (aligned n ih k (b.min - 1 + 1) high b s t l (omega arith) refl
            ((omega arith, g, ia.0.2), ((g, ia.1.0.1), ia.1.1))
            ((omega arith, ib.0.1, ib.0.2), ib.1)))

  overlapping2 :
      (n : ℕ)
      → Ends n
      → (fuel lb : ℕ) (a b : Range) (s t : List Range) → length s + length t < n
      → 4 * n + 4 < fuel
      → b.min < a.min
      → a.min ≤ b.max
      → IsInput f lb (a ∷ s)
      → IsInput f lb (b ∷ t)
      → Goal f fuel lb (a ∷ s) (b ∷ t)
  overlapping2 n ih zero lb a b s t l h e g ia ib = absurd (omega arith)
  overlapping2 n ih (suc zero) lb a b s t l h e g ia ib = absurd (omega arith)
  overlapping2 n ih (suc (suc k)) lb a b s t l h e g ia ib =
      let low : Range = record { min = b.min; max = a.min - 1 } in
      let high : Range = record { min = a.min; max = b.max } in
      step-split2 f (suc k) lb a (a ∷ s) (b ∷ t) (low ∷ high ∷ t)
        (choose-split2 a b s t (omega arith) (omega arith) e) (rsplit-low f b a t e g)
        (λ x. ground arith)
        (step-take2 f k lb low (a ∷ s) (high ∷ t)
          (choose-take2 a low s (high ∷ t) (omega arith) (omega arith)) ib.0.0 (omega arith)
          (aligned n ih k (a.min - 1 + 1) a high s t l (omega arith) refl
            ((omega arith, ia.0.1, ia.0.2), ia.1)
            ((omega arith, g, ib.0.2), ((g, ib.1.0.1), ib.1.1))))

  stops : (k lb : ℕ) → Goal f (suc k) lb [] []
  unfolding comm_loop choose
  stops k lb = record {
    disjoint1 = tt;
    disjoint2 = tt;
    disjoint_both = tt;
    first = λ x. omega arith;
    second = λ x. omega arith;
    apart = λ x. omega arith;
  }

  comm_loop-Ends : (n : ℕ) → Ends n
  comm_loop-Ends n zero lb s t l h is it = absurd (omega arith)
  comm_loop-Ends n (suc k) lb [] [] l h is it = stops k lb
  comm_loop-Ends zero (suc k) lb (a ∷ s) t l h is it = absurd (omega arith)
  comm_loop-Ends zero (suc k) lb [] (b ∷ t) l h is it = absurd (omega arith)
  comm_loop-Ends (suc n) (suc k) lb (a ∷ s) [] l h is it =
      step-take1 f k lb a s [] (unfold choose in refl) is.0.0 is.0.1
        (comm_loop-Ends n k (a.max + 1) s [] (omega arith) (omega arith) (is.0.2, is.1.1) (tt, tt))
  comm_loop-Ends (suc n) (suc k) lb [] (b ∷ t) l h is it =
      step-take2 f k lb b [] t (unfold choose in refl) it.0.0 it.0.1
        (comm_loop-Ends n k (b.max + 1) [] t (omega arith) (omega arith) (tt, tt) (it.0.2, it.1.1))
  comm_loop-Ends (suc n) (suc k) lb (a ∷ s) (b ∷ t) l h is it =
      elim (Bool-cases (ltb a.max b.min)) [
        | inl c ↦
            step-take1 f k lb a s (b ∷ t) (choose-take1 a b s t (ground arith)) is.0.0 is.0.1 (
              comm_loop-Ends n k (a.max + 1) s (b ∷ t) (omega arith) (omega arith) (is.0.2, is.1.1)
                ((ground arith, it.0.1, it.0.2), it.1))
        | inr c ↦ elim (Bool-cases (ltb b.max a.min)) [
          | inl d ↦
              step-take2 f k lb b (a ∷ s) t (choose-take2 a b s t (ground arith) (ground arith))
                it.0.0 it.0.1
                (comm_loop-Ends n k (b.max + 1) (a ∷ s) t (omega arith) (omega arith)
                  ((ground arith, is.0.1, is.0.2), is.1) (it.0.2, it.1.1))
          | inr d ↦ elim (Bool-cases (ltb a.min b.min)) [
            | inl e ↦
                overlapping1 n (comm_loop-Ends n) (suc k) lb a b s t (omega arith) (omega arith)
                  (ground arith) (ground arith) is it
            | inr e ↦ elim (Bool-cases (ltb b.min a.min)) [
              | inl g ↦
                  overlapping2 n (comm_loop-Ends n) (suc k) lb a b s t (omega arith) (omega arith)
                    (ground arith) (ground arith) is it
              | inr g ↦
                  aligned n (comm_loop-Ends n) (suc k) lb a b s t (omega arith) (omega arith)
                    (ground arith) is it
            ]
          ]
        ]
      ]

  pub comm_loop-IsCommOf :
      (s t : List Range) → IsInput f 0 s → IsInput f 0 t → Goal f (comm_fuel s t) 0 s t
  comm_loop-IsCommOf s t is it =
      comm_loop-Ends (length s + length t) (comm_fuel s t) 0 s t (omega arith) (omega arith) is it
