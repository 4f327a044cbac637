-- ===== src/Financial/Capacity/Laws.antt =====
-- Consumption of a capacity epoch: bounds, round trip, and the net amount over any history.
use mathlib.Core.Path.{ap₂}
use aurka.Prelude.{
  ℕ, ◌+◌, ◌-◌, ◌≤◌, ◌≡◌, refl, ok, arith, >>=-eq-ok, ok-injective, throw_if_inv, subst, sym, ◌∙◌,
  ap, ◌||◌, ltb, leb, err, if◌then◌else◌, le→ltb_false,
}
use aurka.Prelude.Int.{pos}
use aurka.Errors.{capacity_exhausted, reverse_exceeds_consumption}
use aurka.Financial.Integer.{IntegerLike, bigint, to_uint256, uint256_max}
use aurka.Financial.Integer.Laws.{to_uint256-le, to_uint256_fits}
use aurka.Financial.Capacity.{
  DirectionalCapacityState, consume_directional_capacity, reverse_directional_capacity,
}

-- The state reads as `consumed` out of `baseline`, and has not overrun.
pub record IsOpen (baseline consumed : ℕ) (s : DirectionalCapacityState) : Type 0 where
  pub baseline_reads : to_uint256 s.capacity_baseline_value ≡ ok baseline
  pub consumed_reads : to_uint256 s.consumed_value ≡ ok consumed
  pub within : consumed ≤ baseline

abbrev written : DirectionalCapacityState → ℕ → ℕ → DirectionalCapacityState
written s baseline consumed = record s {
  capacity_baseline_value = bigint (pos baseline);
  consumed_value = bigint (pos consumed);
}

written-IsOpen :
    (s : DirectionalCapacityState) (b c : ℕ) → b ≤ uint256_max → c ≤ b → IsOpen b c (written s b c)
written-IsOpen s b c fits le = record {
  baseline_reads = to_uint256_fits b fits;
  consumed_reads = to_uint256_fits c (omega arith);
  within = le;
}

consume-inv :
    (s : DirectionalCapacityState) (v : IntegerLike) {t : DirectionalCapacityState}
    → consume_directional_capacity s v ≡ ok t
    → (b c a : ℕ) × (IsOpen b c s) × (to_uint256 v ≡ ok a) × (c + a ≤ b) × (t ≡ written s b (c + a))
unfolding consume_directional_capacity
consume-inv s v e =
    let (b, eb, e1) = >>=-eq-ok (to_uint256 s.capacity_baseline_value) _ e in
    let (c, ec, e2) = >>=-eq-ok (to_uint256 s.consumed_value) _ e1 in
    let (a, ea, e3) = >>=-eq-ok (to_uint256 v) _ e2 in
    let (room, e4) = throw_if_inv (ltb b c || ltb (b - c) a) capacity_exhausted _ e3 in
    let fits : (c ≤ b) × (c + a ≤ b) = ground arith in
    (
      b,
      c,
      a,
      record { baseline_reads = eb; consumed_reads = ec; within = fits.0 },
      ea,
      fits.1,
      sym (ok-injective e4),
    )

reverse-inv :
    (s : DirectionalCapacityState) (v : IntegerLike) {b c : ℕ} {t : DirectionalCapacityState}
    → IsOpen b c s
    → reverse_directional_capacity s v ≡ ok t
    → (a : ℕ) × (to_uint256 v ≡ ok a) × (a ≤ c) × (t ≡ written s b (c - a))
unfolding reverse_directional_capacity
reverse-inv s v {b} {c} o e =
    let (b', eb, e1) = >>=-eq-ok (to_uint256 s.capacity_baseline_value) _ e in
    let (c', ec, e2) = >>=-eq-ok (to_uint256 s.consumed_value) _ e1 in
    let (a, ea, e3) = >>=-eq-ok (to_uint256 v) _ e2 in
    let (room, e4) = throw_if_inv (ltb c' a) reverse_exceeds_consumption _ e3 in
    let same_b : b' ≡ b = ok-injective (sym eb ∙ o.baseline_reads) in
    let same_c : c' ≡ c = ok-injective (sym ec ∙ o.consumed_reads) in
    let fits : a ≤ c' = ground arith in
    (
      a,
      ea,
      omega arith,
      sym (ok-injective e4) ∙ ap₂ (written s) same_b (ap (λ (n : ℕ). n - a) same_c),
    )

-- On an open state a consumption succeeds exactly when it fits in what remains, and raises the
-- consumed value by its amount; otherwise it throws.
pub consume_fits :
    (s : DirectionalCapacityState) (v : IntegerLike) (b c a : ℕ)
    → IsOpen b c s
    → to_uint256 v ≡ ok a
    → consume_directional_capacity s v
      ≡ (if leb (c + a) b then ok (written s b (c + a)) else err capacity_exhausted)
unfolding consume_directional_capacity
consume_fits s v b c a o ea = rw (o.baseline_reads, o.consumed_reads, ea) (ground (arith, o.within))

-- Reversing what was just consumed restores the reading of the epoch.
pub reverse-consume :
    (s : DirectionalCapacityState) (v : IntegerLike) (b c : ℕ) {t : DirectionalCapacityState}
    → IsOpen b c s
    → consume_directional_capacity s v ≡ ok t
    → reverse_directional_capacity t v ≡ ok (written s b c)
unfolding reverse_directional_capacity
reverse-consume s v b c {t} o e =
    let (b', c', a, o', ea, le, et) = consume-inv s v e in
    let same_b : b' ≡ b = ok-injective (sym o'.baseline_reads ∙ o.baseline_reads) in
    let same_c : c' ≡ c = ok-injective (sym o'.consumed_reads ∙ o.consumed_reads) in
    let small = to_uint256-le s.capacity_baseline_value o'.baseline_reads in
    rw
      (
        et,
        to_uint256_fits b' small,
        to_uint256_fits (c' + a) (omega arith),
        ea,
        le→ltb_false (c' + a) a (omega arith),
      )
      (ap ok (ap₂ (written s) same_b (omega arith)))

-- One successful operation of an epoch, with the amounts that it adds and gives back.
pub data CapacityStep (s t : DirectionalCapacityState) : ℕ → ℕ → Type 0 where
  consume :
      (v : IntegerLike) (a : ℕ)
      → to_uint256 v ≡ ok a
      → consume_directional_capacity s v ≡ ok t
      → CapacityStep s t a 0
  reverse :
      (v : IntegerLike) (a : ℕ)
      → to_uint256 v ≡ ok a
      → reverse_directional_capacity s v ≡ ok t
      → CapacityStep s t 0 a

pub data CapacityHistory (s : DirectionalCapacityState)
    : DirectionalCapacityState → ℕ → ℕ → Type 0 where
  start : CapacityHistory s s 0 0
  then_step :
      {t u : DirectionalCapacityState} {added returned a r : ℕ}
      → CapacityHistory s t added returned
      → CapacityStep t u a r
      → (added' returned' : ℕ) → added' ≡ added + a
      → returned' ≡ returned + r
      → CapacityHistory s u added' returned'

step-IsOpen :
    {s t : DirectionalCapacityState} {a r : ℕ} (b c : ℕ)
    → CapacityStep s t a r
    → IsOpen b c s
    → (c' : ℕ) × IsOpen b c' t × (c' + r ≡ c + a)
step-IsOpen {s} {t} b c (consume v a ea e) o =
    let (b', c', a', o', ea', le, et) = consume-inv s v e in
    let same_b : b' ≡ b = ok-injective (sym o'.baseline_reads ∙ o.baseline_reads) in
    let same_c : c' ≡ c = ok-injective (sym o'.consumed_reads ∙ o.consumed_reads) in
    let same_a : a' ≡ a = ok-injective (sym ea' ∙ ea) in
    let small = to_uint256-le s.capacity_baseline_value o'.baseline_reads in
    (
      c' + a',
      subst (λ n. IsOpen n (c' + a') t) same_b
          (subst (IsOpen b' (c' + a')) (sym et) (written-IsOpen s b' (c' + a') small le)),
      omega arith,
    )
step-IsOpen {s} {t} b c (reverse v a ea e) o =
    let (a', ea', le, et) = reverse-inv s v o e in
    let same_a : a' ≡ a = ok-injective (sym ea' ∙ ea) in
    let small = to_uint256-le s.capacity_baseline_value o.baseline_reads in
    (
      c - a',
      subst (IsOpen b (c - a')) (sym et)
          (written-IsOpen s b (c - a') small (omega (arith, o.within))),
      omega arith,
    )

-- Over any history of consumptions and reversals the baseline stands, the consumed value stays
-- within it, and it is what was added less what was returned.
pub history-IsOpen :
    {s t : DirectionalCapacityState} {added returned : ℕ} (b c : ℕ)
    → IsOpen b c s
    → CapacityHistory s t added returned
    → (c' : ℕ) × IsOpen b c' t × (c' + returned ≡ c + added)
history-IsOpen b c o start = (c, o, refl)
history-IsOpen b c o (then_step {a = a} {r = r} h st added' returned' ea er) =
    let (d, od, ed) = history-IsOpen b c o h in
    let (f, of', ef) = step-IsOpen b d st od in (f, of', omega arith)
