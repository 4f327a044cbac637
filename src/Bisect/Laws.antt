-- ===== src/Bisect/Laws.antt =====
-- What the bisection loops return, for any test: no monotonicity is assumed.
use aurka.Prelude.{
  ℕ, zero, suc, ◌+◌, ◌-◌, ◌/◌, ◌≤◌, ◌<◌, ◌≡◌, refl, ◌⊎◌, inl, inr, Bool, true, false, Result, ok,
  ltb, arith, Bool-cases,
}
use aurka.Bisect.{bisect_up, bisect_down}

abbrev up_mid : ℕ → ℕ → ℕ
up_mid low high = low + (high - low + 1) / 2

abbrev down_mid : ℕ → ℕ → ℕ
down_mid low high = low + (high - low) / 2

module _ {E : Type 0} (test : ℕ → Result E Bool) where
  -- `r` lies in the range, passed the test unless it is the lower end, and its successor failed
  -- the test unless it is the upper end.
  pub record Highest (low high r : ℕ) : Type 0 where
    pub above : low ≤ r
    pub below : r ≤ high
    pub passed : (r ≡ low) ⊎ (test r ≡ ok true)
    pub next_failed : (r ≡ high) ⊎ (test (suc r) ≡ ok false)

  pub record Lowest (low high r : ℕ) : Type 0 where
    pub above : low ≤ r
    pub below : r ≤ high
    pub passed : (r ≡ high) ⊎ (test r ≡ ok true)
    pub before_failed : (r ≡ low) ⊎ ((p : ℕ) × (r ≡ suc p) × (test p ≡ ok false))

  module _ (low high : ℕ) (lt : low < high) where
    Highest-raise :
        {r : ℕ}
        → test (up_mid low high) ≡ ok true
        → Highest (up_mid low high) high r
        → Highest low high r
    Highest-raise {r} t h = record {
      above = omega (arith, h.above);
      below = h.below;
      passed = elim h.passed [ inl e ↦ inr (rw e t) | inr p ↦ inr p ];
      next_failed = h.next_failed;
    }

    Highest-lower :
        {r : ℕ}
        → test (up_mid low high) ≡ ok false
        → Highest low (up_mid low high - 1) r
        → Highest low high r
    Highest-lower {r} t h = record {
      above = h.above;
      below = omega (arith, h.below);
      passed = h.passed;
      next_failed = elim h.next_failed [
        | inl e ↦ inr (let back : suc r ≡ up_mid low high = omega arith in rw back t)
        | inr p ↦ inr p
      ];
    }

  -- One round of the loop, by how its test went.
  up_round :
      (fuel low high : ℕ) {r : ℕ}
      → bisect_up test (suc fuel) low high ≡ ok r
      → ((high ≤ low) × (r ≡ low))
        ⊎ ((low < high)
            × (test (up_mid low high) ≡ ok true)
            × (bisect_up test fuel (up_mid low high) high ≡ ok r))
        ⊎ ((low < high)
            × (test (up_mid low high) ≡ ok false)
            × (bisect_up test fuel low (up_mid low high - 1) ≡ ok r))
  unfolding bisect_up
  up_round fuel low high e = ground arith

  pub bisect_up-Highest :
      (fuel low high : ℕ) {r : ℕ}
      → low ≤ high
      → high - low ≤ fuel
      → bisect_up test fuel low high ≡ ok r
      → Highest low high r
  unfolding bisect_up
  bisect_up-Highest zero low high le enough e = record {
    above = ground arith;
    below = ground arith;
    passed = inl (ground arith);
    next_failed = inl (ground arith);
  }
  bisect_up-Highest (suc fuel) low high le enough e = elim (up_round fuel low high e) [
    | inl (over, stop) ↦ record {
      above = omega arith;
      below = omega arith;
      passed = inl stop;
      next_failed = inl (omega arith);
    }
    | inr (inl (lt, t, rest)) ↦
        Highest-raise low high lt t
          (bisect_up-Highest fuel (up_mid low high) high (omega arith) (omega arith) rest)
    | inr (inr (lt, t, rest)) ↦
        Highest-lower low high lt t
          (bisect_up-Highest fuel low (up_mid low high - 1) (omega arith) (omega arith) rest)
  ]

  -- A test that never throws between the ends lets the loop end with a result.
  pub bisect_up-total :
      (fuel low high : ℕ)
      → ((n : ℕ) → low < n → n ≤ high → (test n ≡ ok true) ⊎ (test n ≡ ok false))
      → (r : ℕ) × (bisect_up test fuel low high ≡ ok r)
  unfolding bisect_up
  bisect_up-total zero low high t = (low, refl)
  bisect_up-total (suc fuel) low high t = elim (Bool-cases (ltb low high)) [
    | inr over ↦ (low, ground arith)
    | inl lt ↦ elim (t (up_mid low high) (ground arith) (ground arith)) [
      | inl e ↦
          let (r, rest) =
            bisect_up-total fuel (up_mid low high) high (λ n a b. t n (ground arith) b) in
          (r, ground arith)
      | inr e ↦
          let (r, rest) =
            bisect_up-total fuel low (up_mid low high - 1) (λ n a b. t n a (ground arith)) in
          (r, ground arith)
    ]
  ]

  module _ (low high : ℕ) (lt : low < high) where
    Lowest-lower :
        {r : ℕ}
        → test (down_mid low high) ≡ ok true
        → Lowest low (down_mid low high) r
        → Lowest low high r
    Lowest-lower {r} t h = record {
      above = h.above;
      below = omega (arith, h.below);
      passed = elim h.passed [ inl e ↦ inr (rw e t) | inr p ↦ inr p ];
      before_failed = h.before_failed;
    }

    Lowest-raise :
        {r : ℕ}
        → test (down_mid low high) ≡ ok false
        → Lowest (down_mid low high + 1) high r
        → Lowest low high r
    Lowest-raise {r} t h = record {
      above = omega (arith, h.above);
      below = h.below;
      passed = h.passed;
      before_failed = elim h.before_failed [
        | inl e ↦ inr (down_mid low high, omega arith, t)
        | inr p ↦ inr p
      ];
    }

  -- One round of the loop, by how its test went.
  down_round :
      (fuel low high : ℕ) {r : ℕ}
      → bisect_down test (suc fuel) low high ≡ ok r
      → ((high ≤ low) × (r ≡ low))
        ⊎ ((low < high)
            × (test (down_mid low high) ≡ ok true)
            × (bisect_down test fuel low (down_mid low high) ≡ ok r))
        ⊎ ((low < high)
            × (test (down_mid low high) ≡ ok false)
            × (bisect_down test fuel (down_mid low high + 1) high ≡ ok r))
  unfolding bisect_down
  down_round fuel low high e = ground arith

  pub bisect_down-Lowest :
      (fuel low high : ℕ) {r : ℕ}
      → low ≤ high
      → high - low ≤ fuel
      → bisect_down test fuel low high ≡ ok r
      → Lowest low high r
  unfolding bisect_down
  bisect_down-Lowest zero low high le enough e = record {
    above = ground arith;
    below = ground arith;
    passed = inl (ground arith);
    before_failed = inl (ground arith);
  }
  bisect_down-Lowest (suc fuel) low high le enough e = elim (down_round fuel low high e) [
    | inl (over, stop) ↦ record {
      above = omega arith;
      below = omega arith;
      passed = inl (omega arith);
      before_failed = inl stop;
    }
    | inr (inl (lt, t, rest)) ↦
        Lowest-lower low high lt t
          (bisect_down-Lowest fuel low (down_mid low high) (omega arith) (omega arith) rest)
    | inr (inr (lt, t, rest)) ↦
        Lowest-raise low high lt t
          (bisect_down-Lowest fuel (down_mid low high + 1) high (omega arith) (omega arith) rest)
  ]

  pub bisect_down-total :
      (fuel low high : ℕ)
      → ((n : ℕ) → low ≤ n → n < high → (test n ≡ ok true) ⊎ (test n ≡ ok false))
      → (r : ℕ) × (bisect_down test fuel low high ≡ ok r)
  unfolding bisect_down
  bisect_down-total zero low high t = (low, refl)
  bisect_down-total (suc fuel) low high t = elim (Bool-cases (ltb low high)) [
    | inr over ↦ (low, ground arith)
    | inl lt ↦ elim (t (down_mid low high) (ground arith) (ground arith)) [
      | inl e ↦
          let (r, rest) =
            bisect_down-total fuel low (down_mid low high) (λ n a b. t n a (ground arith)) in
          (r, ground arith)
      | inr e ↦
          let (r, rest) =
            bisect_down-total fuel (down_mid low high + 1) high (λ n a b. t n (ground arith) b) in
          (r, ground arith)
    ]
  ]
