-- ===== src/Risk/Certificate/Accepted.antt =====
-- A certificate made from an evaluation passes the checks of packages/services/src/risk-service.ts.
use aurka.Prelude.{
  ℕ, ◌+◌, ◌≤◌, ◌<◌, ◌≡◌, inl, inr, refl, ◌∙◌, ap, sym, Bool, true, false, List, [], ◌∷◌, ok, arith,
  ltb, leb, ◌==◌, length, min, ==_iff,
}
use aurka.Prelude.Text.{Text, lower_case, text_eq→eq, text_eq_refl}
use aurka.Watchtower.{RiskMode, normal, cautious, shock, paused, WatchtowerBound, EvaluateRiskInput}
use aurka.Watchtower.Bounds.{expected_maximum}
use aurka.Watchtower.Bounds.Laws.{AreTighter}
use aurka.Watchtower.Evaluation.{WatchtowerEvaluation, evaluate_risk}
use aurka.Watchtower.Evaluation.Tightening.{evaluate_risk-IsTightened}
use aurka.Risk.{RiskCertificate, AssetBound, Position, RegistryContext}
use aurka.Risk.Certificate.{
  map_size, matches_context, holds_portfolio, hash_active_bounds, hash_risk_certificate,
  check_certificate, matches_bounds, build_certificate,
}
use aurka.Risk.Certificate.Bounds.{
  AreDistinct, AreInside, All-IsFound, map_size-AreDistinct, AreInside-checked,
}
use aurka.Risk.Certificate.Saved.{HoldsPortfolio}

-- Bounds inside the hard bounds of an evaluation are inside the policy that those repeat.
tighter-AreInside :
    (selected hard bounds : List WatchtowerBound) (assets : List AssetBound)
    → matches_bounds hard assets ≡ true
    → AreTighter selected hard bounds
    → AreInside bounds assets
unfolding matches_bounds
tighter-AreInside selected [] [] [] m t = tt
tighter-AreInside selected [] [] (a ∷ more) m t = cc
tighter-AreInside selected [] (b ∷ bounds) assets m t = absurd t
tighter-AreInside selected (h ∷ hard) [] assets m t = absurd t
tighter-AreInside selected (h ∷ hard) (b ∷ bounds) [] m t = cc
tighter-AreInside selected (h ∷ hard) (b ∷ bounds) (a ∷ more) m t =
    let (t0, rest) = t in
    let same : lower_case h.token ≡ lower_case a.token = text_eq→eq _ _ (ground arith) in
    (
      record {
        same_token = ap (λ x. lower_case x.token) t0.taken ∙ same;
        above = ground (arith, t0.above);
        below = ground (arith, t0.below);
      },
      tighter-AreInside selected hard bounds more (ground arith) rest,
    )

holds_portfolio_of :
    (mode : RiskMode) (bounds : List WatchtowerBound)
    → HoldsPortfolio mode bounds
    → holds_portfolio mode bounds ≡ true
holds_portfolio_of normal bounds (inl e) = cc
holds_portfolio_of normal bounds (inr h) = ground (arith, h)
holds_portfolio_of cautious bounds (inl e) = cc
holds_portfolio_of cautious bounds (inr h) = ground (arith, h)
holds_portfolio_of shock bounds (inl e) = cc
holds_portfolio_of shock bounds (inr h) = ground (arith, h)
holds_portfolio_of paused bounds h = refl

module _ (keccak_256 : List ℕ → List ℕ) (verify_signature : Text → Text → Text → Bool) where
  -- The premises of each check, in its order.
  check_certificate-ok :
      (c : RiskCertificate) (position : Position) (registry : Text) (now : ℕ) (hash : Text)
      → matches_context c position registry ≡ true
      → c.maximum_trade_value
        ≡ expected_maximum c.risk_mode position.policy.maximum_transaction_value
      → AreDistinct position.policy.assets
      → AreInside c.active_bounds position.policy.assets
      → HoldsPortfolio c.risk_mode c.active_bounds
      → c.issued_at ≤ now
      → now < c.expires_at
      → hash_active_bounds keccak_256 verify_signature c.active_bounds ≡ ok c.active_bounds_hash
      → hash_risk_certificate keccak_256 verify_signature c ≡ ok hash
      → verify_signature c.watchtower hash c.signature ≡ true
      → check_certificate keccak_256 verify_signature c position registry now ≡ ok hash
  unfolding check_certificate
  check_certificate-ok c position registry now hash context ratio distinct inside held issued alive
        bounds_hash hashed verified =
      let assets = position.policy.assets in
      let (within, ordered, counted) =
        AreInside-checked c.active_bounds assets assets (All-IsFound assets distinct) inside in
      let sized : length c.active_bounds ≡ map_size assets =
        counted ∙ sym (map_size-AreDistinct assets distinct) in
      let ratio_test : (c.maximum_trade_value
            == expected_maximum c.risk_mode position.policy.maximum_transaction_value)
          ≡ true =
        ground arith in
      let size_test : (length c.active_bounds == map_size assets) ≡ true = ground arith in
      let issued_test : ltb now c.issued_at ≡ false = ground arith in
      let window_test : leb c.expires_at c.issued_at ≡ false = ground arith in
      let alive_test : leb c.expires_at now ≡ false = ground arith in
      rw context (
        rw ratio_test (
          rw within (
            rw size_test (
              rw ordered (
                rw issued_test (
                  rw (holds_portfolio_of c.risk_mode c.active_bounds held) (
                    rw window_test (
                      rw alive_test (
                        rw bounds_hash (
                          rw (text_eq_refl c.active_bounds_hash)
                            (rw hashed (rw verified refl))))))))))))

  -- The position that an evaluation and a registry's context are for.
  pub record IsFor (input : EvaluateRiskInput) (context : RegistryContext) (position : Position)
      : Type 0 where
    pub same_policy : lower_case context.policy_id ≡ lower_case position.policy.id
    pub same_chain : context.chain_id ≡ position.chain_id
    pub same_nonce : context.policy_nonce ≡ position.policy.nonce
    pub same_maximum : input.hard_maximum_trade_value ≡ position.policy.maximum_transaction_value
    pub same_bounds : matches_bounds input.hard_bounds position.policy.assets ≡ true
    pub distinct : AreDistinct position.policy.assets

  module _ (input : EvaluateRiskInput) (context : RegistryContext) (position : Position)
      (bounds_hash source_digest reason_hash signature : Text)
      (issued lifetime valid_until now : ℕ) where
    -- The certificate that the worker makes of a returned evaluation of the position's own policy is
    -- accepted from its issue until it expires, when its nonce and context are the position's, its
    -- bounds hash is that of the bounds, and its signature verifies.
    pub build_certificate_accepted :
        (evaluation : WatchtowerEvaluation) (hash : Text)
        → evaluate_risk input ≡ ok evaluation
        → IsFor input context position
        → issued ≤ now
        → now < min (issued + lifetime) valid_until
        → hash_active_bounds keccak_256 verify_signature evaluation.selected_bounds ≡ ok bounds_hash
        → hash_risk_certificate keccak_256 verify_signature (
            build_certificate context evaluation bounds_hash source_digest reason_hash issued
              lifetime valid_until signature)
          ≡ ok hash
        → verify_signature context.watchtower hash signature ≡ true
        → check_certificate keccak_256 verify_signature
            (build_certificate context evaluation bounds_hash source_digest reason_hash issued
              lifetime valid_until signature)
            position
            context.registry
            now
          ≡ ok hash
    unfolding build_certificate
    build_certificate_accepted evaluation hash returned is_for start alive bounds_e hash_e
          verified =
        let (selected, _, tightened) = evaluate_risk-IsTightened input returned in
        let chain_test : (context.chain_id == position.chain_id) ≡ true =
          (==_iff _ _).1 is_for.same_chain in
        check_certificate-ok _ position context.registry now hash
          (rw is_for.same_policy (
            rw (text_eq_refl (lower_case position.policy.id)) (
              rw chain_test (
                rw (text_eq_refl (lower_case context.registry))
                  (rw is_for.same_nonce (text_eq_refl position.policy.nonce))))))
          (tightened.governed ∙ ap (expected_maximum evaluation.mode) is_for.same_maximum)
          is_for.distinct
          (tighter-AreInside selected.active_bounds input.hard_bounds evaluation.selected_bounds
            position.policy.assets is_for.same_bounds tightened.tighter)
          tightened.holds_portfolio start alive bounds_e hash_e verified
