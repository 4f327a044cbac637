-- ===== src/Risk/Certificate/Saved.antt =====
-- What packages/services/src/risk-service.ts requires of a certificate that it saves, and writes.
use aurka.Prelude.{
  ℕ, ◌≤◌, ◌<◌, ◌≡◌, ◌⊎◌, inl, inr, refl, ◌∙◌, ap, subst, Bool, true, false, not, List, [], ◌∷◌,
  Option, none, some, Result, ok, err, arith, throw_if_inv, >>=-eq-ok, ok-injective, ltb, leb, ◌==◌,
  if◌then◌else◌, length, Bool-cases,
}
use aurka.Prelude.Text.{Text, text_eq, lower_case, text_eq→eq, text_eq_refl}
use aurka.Errors.{Error}
use aurka.Watchtower.{RiskMode, normal, cautious, shock, paused, WatchtowerBound}
use aurka.Watchtower.Bounds.{expected_maximum, minimum_total, maximum_total}
use aurka.Risk.{
  RiskCertificate, Position, signed, CertificateRow, RiskTables, risk_certificate_context_mismatch,
  risk_certificate_widens_policy, risk_certificate_from_future, risk_bounds_invalid,
  risk_certificate_expired, risk_bounds_hash_mismatch, risk_certificate_signature_invalid,
}
use aurka.Risk.Certificate.{
  find_position, put_certificate, map_size, check_within, check_order, matches_context,
  holds_portfolio, raise, found_position, required_registry, hash_active_bounds,
  hash_risk_certificate, check_certificate, record_certificate, save_certificate,
}
use aurka.Risk.Certificate.Bounds.{
  AreDistinct, AreInside, All-IsFound, map_size-AreDistinct, checked-AreInside,
}

-- The row with a hash, which is the primary key.
unfoldable pub find_certificate : Text → List CertificateRow → Option CertificateRow
find_certificate hash [] = none
find_certificate hash (row ∷ rows) =
    if text_eq row.hash hash then some row else find_certificate hash rows

find_certificate-put_certificate :
    (row : CertificateRow) (rows : List CertificateRow)
    → find_certificate row.hash (put_certificate row rows) ≡ some row
unfolding find_certificate put_certificate
find_certificate-put_certificate row [] = rw (text_eq_refl row.hash) refl
find_certificate-put_certificate row (other ∷ rows) =
    elim (Bool-cases (text_eq other.hash row.hash)) [
      | inl same ↦ rw same (rw (text_eq_refl row.hash) refl)
      | inr different ↦ rw different (rw different (find_certificate-put_certificate row rows))
    ]

-- The certificate can hold a portfolio, unless it pauses.
abbrev pub HoldsPortfolio : RiskMode → List WatchtowerBound → Type 0
HoldsPortfolio mode bounds =
    (mode ≡ paused) ⊎ ((minimum_total bounds ≤ 10000) × (10000 ≤ maximum_total bounds))

portfolio_held :
    (mode : RiskMode) (bounds : List WatchtowerBound)
    → holds_portfolio mode bounds ≡ true
    → HoldsPortfolio mode bounds
portfolio_held normal bounds h = inr (ground arith)
portfolio_held cautious bounds h = inr (ground arith)
portfolio_held shock bounds h = inr (ground arith)
portfolio_held paused bounds h = inl refl

pub raise-eq-ok {ℓ} : {A : Type ℓ} (r : Result Error A) {a : A} → raise r ≡ ok a → r ≡ ok a
raise-eq-ok (ok a) e = ap ok (ok-injective e)
raise-eq-ok (err thrown_error) e = cc

module _ (keccak_256 : List ℕ → List ℕ) (verify_signature : Text → Text → Text → Bool) where
  -- A certificate of a position's policy that is no wider than it, in force, hashed and signed.
  pub record IsTight (certificate : RiskCertificate) (position : Position) (registry : Text)
      (now : ℕ) (hash : Text) : Type 0 where
    pub same_policy : lower_case certificate.policy_id ≡ lower_case position.policy.id
    pub same_chain : certificate.chain_id ≡ position.chain_id
    pub same_registry : lower_case certificate.verifying_contract ≡ lower_case registry
    pub same_nonce : certificate.policy_nonce ≡ position.policy.nonce
    pub governed :
        certificate.maximum_trade_value
        ≡ expected_maximum certificate.risk_mode position.policy.maximum_transaction_value
    pub inside :
        AreDistinct position.policy.assets
        → AreInside certificate.active_bounds position.policy.assets
    pub portfolio : HoldsPortfolio certificate.risk_mode certificate.active_bounds
    pub issued : certificate.issued_at ≤ now
    pub in_force : now < certificate.expires_at
    pub bounds_hash :
        hash_active_bounds keccak_256 verify_signature certificate.active_bounds
        ≡ ok certificate.active_bounds_hash
    pub hashed : hash_risk_certificate keccak_256 verify_signature certificate ≡ ok hash
    pub signature_verifies :
        verify_signature certificate.watchtower hash certificate.signature ≡ true

  check_certificate-IsTight :
      (certificate : RiskCertificate) (position : Position) (registry : Text) (now : ℕ)
      {hash : Text}
      → check_certificate keccak_256 verify_signature certificate position registry now ≡ ok hash
      → IsTight certificate position registry now hash
  unfolding check_certificate
  check_certificate-IsTight c position registry now {hash} e =
      let assets = position.policy.assets in
      let (context, e1) =
        throw_if_inv (not (matches_context c position registry)) risk_certificate_context_mismatch _
          e in
      let (ratio, e2) =
        throw_if_inv
          (not (
            c.maximum_trade_value
            == expected_maximum c.risk_mode position.policy.maximum_transaction_value))
          risk_certificate_widens_policy _ e1 in
      let (_, within, e3) = >>=-eq-ok (check_within c.active_bounds assets) _ e2 in
      let (counted, e4) =
        throw_if_inv (not (length c.active_bounds == map_size assets))
          risk_certificate_widens_policy _ e3 in
      let (_, ordered, e5) = >>=-eq-ok (check_order c.active_bounds assets) _ e4 in
      let (past, e6) = throw_if_inv (ltb now c.issued_at) risk_certificate_from_future _ e5 in
      let (held, e7) =
        throw_if_inv (not (holds_portfolio c.risk_mode c.active_bounds)) risk_bounds_invalid _ e6 in
      let (_, e8) = throw_if_inv (leb c.expires_at c.issued_at) risk_certificate_expired _ e7 in
      let (alive, e9) = throw_if_inv (leb c.expires_at now) risk_certificate_expired _ e8 in
      let (bounds_hash, hash_e, e10) =
        >>=-eq-ok (raise (hash_active_bounds keccak_256 verify_signature c.active_bounds)) _ e9 in
      let (same_hash, e11) =
        throw_if_inv (not (text_eq bounds_hash c.active_bounds_hash)) risk_bounds_hash_mismatch _
          e10 in
      let (digest, digest_e, e12) =
        >>=-eq-ok (raise (hash_risk_certificate keccak_256 verify_signature c)) _ e11 in
      let (verified, e13) =
        throw_if_inv (not (verify_signature c.watchtower digest c.signature))
          risk_certificate_signature_invalid _ e12 in
      let counted_is : length c.active_bounds ≡ map_size assets = ground arith in
      let is_hash : bounds_hash ≡ c.active_bounds_hash = text_eq→eq _ _ (ground arith) in
      subst (IsTight c position registry now) (ok-injective e13) (record {
        same_policy = text_eq→eq _ _ (ground arith);
        same_chain = ground arith;
        same_registry = text_eq→eq _ _ (ground arith);
        same_nonce = text_eq→eq _ _ (ground arith);
        governed = ground arith;
        inside = λ distinct.
            checked-AreInside c.active_bounds assets assets (All-IsFound assets distinct)
              (counted_is ∙ map_size-AreDistinct assets distinct) within ordered;
        portfolio = portfolio_held c.risk_mode c.active_bounds (ground arith);
        issued = ground arith;
        in_force = ground arith;
        bounds_hash = raise-eq-ok _ hash_e ∙ ap ok is_hash;
        hashed = raise-eq-ok _ digest_e;
        signature_verifies = ground arith;
      })

  -- What a saved certificate was checked against, and the row that holds it.
  pub record IsSaved (tables : RiskTables) (position_id : Text) (certificate : RiskCertificate)
      (registry : Option Text) (now : ℕ) (tables' : RiskTables) (hash : Text) : Type 0 where
    pub position : Position
    pub found : find_position position_id tables.positions ≡ some position
    pub expected : Text
    pub configured : registry ≡ some expected
    pub tight : IsTight certificate position expected now hash
    pub stored :
        find_certificate hash tables'.certificates
        ≡ some
            (record { hash = hash; certificate = certificate; status = signed; is_active = false })
    pub positions_kept : tables'.positions ≡ tables.positions

  registry_of :
      (registry : Option Text) {expected : Text}
      → required_registry keccak_256 verify_signature registry ≡ ok expected
      → registry ≡ some expected
  registry_of none e = cc
  registry_of (some r) e = ap some (ok-injective e)

  position_of :
      (found : Option Position) {position : Position}
      → found_position keccak_256 verify_signature found ≡ ok position
      → found ≡ some position
  position_of none e = cc
  position_of (some r) e = ap some (ok-injective e)

  -- A certificate that is saved is of the position's policy, chain, nonce and the configured
  -- registry; its cap is the hard cap's share for its mode; over distinct assets its bounds are in
  -- the policy's order, one for each asset and inside its bounds, and unless paused can hold a
  -- portfolio; it is issued and has not expired; its bounds hash and its signature verify. It is
  -- stored under its hash as signed and not active, and the positions stay.
  pub save_certificate-IsSaved :
      (tables : RiskTables) (position_id : Text) (certificate : RiskCertificate)
      (registry : Option Text) (now : ℕ) {tables' : RiskTables} {hash : Text}
      → save_certificate keccak_256 verify_signature tables position_id certificate registry now
        ≡ ok (tables', hash)
      → IsSaved tables position_id certificate registry now tables' hash
  unfolding save_certificate record_certificate
  save_certificate-IsSaved tables position_id certificate registry now e =
      let (expected, registry_e, e1) =
        >>=-eq-ok (required_registry keccak_256 verify_signature registry) _ e in
      let (position, position_e, e2) =
        >>=-eq-ok
          (found_position keccak_256 verify_signature (find_position position_id tables.positions))
          _ e1 in
      let (digest, checked, e3) =
        >>=-eq-ok (check_certificate keccak_256 verify_signature certificate position expected now)
          _ e2 in
      let saved = ok-injective e3 in
      let row : CertificateRow = record {
        hash = digest;
        certificate = certificate;
        status = signed;
        is_active = false;
      } in
      subst (λ p. IsSaved tables position_id certificate registry now p.0 p.1) saved
        (record {
          position = position;
          found = position_of _ position_e;
          expected = expected;
          configured = registry_of registry registry_e;
          tight = check_certificate-IsTight certificate position expected now checked;
          stored = find_certificate-put_certificate row tables.certificates;
          positions_kept = refl;
        })
