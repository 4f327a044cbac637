-- ===== src/Watchtower/Bounds/Laws.antt =====
-- What the check of a bound set against the hard policy promises.
use aurka.Prelude.{
  ℕ, ◌≤◌, ◌≡◌, refl, subst, ◌⊎◌, inl, inr, Bool, true, false, ◌&&◌, ◌||◌, not, List, [], ◌∷◌,
  Option, none, some, ok, err, arith, >>=-eq-ok, ok-injective, throw_if_inv, ltb, ◌==◌,
  if◌then◌else◌,
}
use aurka.Watchtower.{
  RiskMode, normal, cautious, shock, paused, risk_mode_rank, WatchtowerBound, RiskError,
  bounds_widened, cap_not_governance_ratio, cap_widened, paused_capacity, no_valid_portfolio,
}
use aurka.Watchtower.Bounds.{
  bound_of, expected_maximum, is_paused, tighten_bound, tighten_bounds, minimum_total,
  maximum_total, validate_tightening,
}

-- The bound is the candidate's for the token, and inside the hard one.
pub record IsTighter (selected : List WatchtowerBound) (hard bound : WatchtowerBound) : Type 0 where
  pub candidate : WatchtowerBound
  pub selected_for : bound_of hard.token selected ≡ some candidate
  pub taken : bound ≡ record candidate { token = hard.token }
  pub above : hard.minimum_weight_bps ≤ bound.minimum_weight_bps
  pub below : bound.maximum_weight_bps ≤ hard.maximum_weight_bps
  pub ordered : bound.minimum_weight_bps ≤ bound.maximum_weight_bps

-- Each bound of the second list against the hard bound at its place.
abbrev pub AreTighter : List WatchtowerBound → List WatchtowerBound → List WatchtowerBound → Type 0
AreTighter selected [] [] = Unit
AreTighter selected [] (b ∷ bs) = ⊥
AreTighter selected (h ∷ hs) [] = ⊥
AreTighter selected (h ∷ hs) (b ∷ bs) = IsTighter selected h b × AreTighter selected hs bs

guarded :
    (c : Bool) (e : RiskError) {a b : WatchtowerBound}
    → (if c then err e else ok a) ≡ ok b
    → (c ≡ false) × (a ≡ b)
guarded true e h = cc
guarded false e h = (refl, ok-injective h)

IsTighter-of :
    (selected : List WatchtowerBound) (hard bound : WatchtowerBound) (o : Option WatchtowerBound)
    → bound_of hard.token selected ≡ o
    → tighten_bound hard o ≡ ok bound
    → IsTighter selected hard bound
unfolding tighten_bound
IsTighter-of selected hard bound none found e = cc
IsTighter-of selected hard bound (some c) found e =
    let (inside, e1) =
      guarded
        (ltb c.minimum_weight_bps hard.minimum_weight_bps
          || ltb hard.maximum_weight_bps c.maximum_weight_bps
          || ltb c.maximum_weight_bps c.minimum_weight_bps)
        bounds_widened e in
    subst (IsTighter selected hard) e1 (record {
      candidate = c;
      selected_for = found;
      taken = refl;
      above = ground (arith, inside);
      below = ground (arith, inside);
      ordered = ground (arith, inside);
    })

tighten_bounds-AreTighter :
    (selected hard : List WatchtowerBound) {bounds : List WatchtowerBound}
    → tighten_bounds selected hard ≡ ok bounds
    → AreTighter selected hard bounds
unfolding tighten_bounds
tighten_bounds-AreTighter selected [] e = subst (AreTighter selected []) (ok-injective e) tt
tighten_bounds-AreTighter selected (h ∷ hs) e =
    let (b, eb, e1) = >>=-eq-ok (tighten_bound h (bound_of h.token selected)) _ e in
    let (bs, ebs, e2) = >>=-eq-ok (tighten_bounds selected hs) _ e1 in
    subst (AreTighter selected (h ∷ hs)) (ok-injective e2) (
      IsTighter-of selected h b (bound_of h.token selected) refl eb,
      tighten_bounds-AreTighter selected hs ebs,
    )

expected_maximum-le : (mode : RiskMode) (hard : ℕ) → expected_maximum mode hard ≤ hard
unfolding expected_maximum
expected_maximum-le normal hard = omega arith
expected_maximum-le cautious hard = omega arith
expected_maximum-le shock hard = omega arith
expected_maximum-le paused hard = omega arith

-- A stricter mode never has the larger cap.
pub expected_maximum-antitone :
    (a b : RiskMode) (hard : ℕ)
    → risk_mode_rank a ≤ risk_mode_rank b
    → expected_maximum b hard ≤ expected_maximum a hard
unfolding expected_maximum risk_mode_rank
expected_maximum-antitone normal b hard le = expected_maximum-le b hard
expected_maximum-antitone cautious normal hard le = omega arith
expected_maximum-antitone cautious cautious hard le = omega arith
expected_maximum-antitone cautious shock hard le = omega arith
expected_maximum-antitone cautious paused hard le = omega arith
expected_maximum-antitone shock normal hard le = omega arith
expected_maximum-antitone shock cautious hard le = omega arith
expected_maximum-antitone shock shock hard le = omega arith
expected_maximum-antitone shock paused hard le = omega arith
expected_maximum-antitone paused normal hard le = omega arith
expected_maximum-antitone paused cautious hard le = omega arith
expected_maximum-antitone paused shock hard le = omega arith
expected_maximum-antitone paused paused hard le = omega arith

pub record IsTightened (mode : RiskMode) (selected hard : List WatchtowerBound) (cap hard_cap : ℕ)
    (bounds : List WatchtowerBound) : Type 0 where
  pub governed : cap ≡ expected_maximum mode hard_cap
  pub within : cap ≤ hard_cap
  pub tighter : AreTighter selected hard bounds
  pub holds_portfolio :
      (mode ≡ paused) ⊎ ((minimum_total bounds ≤ 10000) × (10000 ≤ maximum_total bounds))

portfolio_of :
    (mode : RiskMode) (bounds : List WatchtowerBound)
    → (not (is_paused mode)
        && (ltb 10000 (minimum_total bounds) || ltb (maximum_total bounds) 10000))
      ≡ false
    → (mode ≡ paused) ⊎ ((minimum_total bounds ≤ 10000) × (10000 ≤ maximum_total bounds))
portfolio_of normal bounds h = inr (ground (arith, h))
portfolio_of cautious bounds h = inr (ground (arith, h))
portfolio_of shock bounds h = inr (ground (arith, h))
portfolio_of paused bounds h = inl refl

pub validate_tightening-IsTightened :
    (mode : RiskMode) (selected hard : List WatchtowerBound) (cap hard_cap : ℕ)
    {bounds : List WatchtowerBound}
    → validate_tightening mode selected hard cap hard_cap ≡ ok bounds
    → IsTightened mode selected hard cap hard_cap bounds
unfolding validate_tightening
validate_tightening-IsTightened mode selected hard cap hard_cap e =
    let (ratio, e1) =
      throw_if_inv (not (cap == expected_maximum mode hard_cap)) cap_not_governance_ratio _ e in
    let (_, e2) = throw_if_inv (ltb hard_cap cap) cap_widened _ e1 in
    let (_, e3) = throw_if_inv (is_paused mode && not (cap == 0)) paused_capacity _ e2 in
    let (bounds, eb, e4) = >>=-eq-ok (tighten_bounds selected hard) _ e3 in
    let (valid, e5) = throw_if_inv (not (is_paused mode) && _) no_valid_portfolio _ e4 in
    let is_ratio : cap ≡ expected_maximum mode hard_cap = ground (arith, ratio) in
    subst (IsTightened mode selected hard cap hard_cap) (ok-injective e5) (record {
      governed = is_ratio;
      within = omega (arith, is_ratio, expected_maximum-le mode hard_cap);
      tighter = tighten_bounds-AreTighter selected hard eb;
      holds_portfolio = portfolio_of mode bounds valid;
    })
