-- ===== src/Risk/Certificate.antt =====
-- packages/services/src/risk-service.ts: the checks of a certificate before it is saved, and
-- packages/shared/src/risk.ts: the hashes that it commits to.
pub mod Bounds
pub mod Saved
pub mod Accepted
pub mod Tests
use aurka.Prelude.{
  ℕ, suc, ◌+◌, ◌-◌, ◌*◌, ◌/◌, Bool, true, false, ◌&&◌, ◌||◌, not, List, [], ◌∷◌, ◌++◌, Option, none,
  some, Result, ok, err, ◌>>=◌, ◌>>◌, throw_if, ltb, leb, ◌==◌, if◌then◌else◌, length, min,
}
use aurka.Prelude.Int.{pos}
use aurka.Prelude.Text.{Text, codes, text_eq}
use aurka.Errors.{Error}
use aurka.Price.{same_text}
use aurka.Financial.Integer.{bigint, text}
use aurka.Slots.{bytes_to_hex, bytes32_slot, uint_slot, address_slot, concat_slots}
use aurka.Watchtower.{RiskMode, normal, cautious, shock, paused, risk_mode_rank, WatchtowerBound}
use aurka.Watchtower.Bounds.{expected_maximum, is_paused, minimum_total, maximum_total}
use aurka.Watchtower.Evaluation.{WatchtowerEvaluation}
use aurka.Repository.Jobs.{RiskJob, queued, save_risk_job}
use aurka.Risk.{
  RiskCertificate, AssetBound, TreasuryPolicy, Position, CertificateStatus, signed, CertificateRow,
  AuditEvent, RiskTables, ServiceError, risk_registry_unavailable, position_not_found,
  risk_certificate_context_mismatch, risk_certificate_widens_policy, risk_certificate_from_future,
  risk_bounds_invalid, risk_certificate_expired, risk_bounds_hash_mismatch,
  risk_certificate_signature_invalid, asset_missing, thrown, RegistryContext,
}

unfoldable pub find_position : Text → List Position → Option Position
find_position id [] = none
find_position id (row ∷ rows) = if text_eq row.id id then some row else find_position id rows

-- The insert with its update on conflict, which keeps the other columns of the row.
unfoldable pub put_certificate : CertificateRow → List CertificateRow → List CertificateRow
put_certificate row [] = row ∷ []
put_certificate row (other ∷ rows) =
    if text_eq other.hash row.hash then row ∷ rows else other ∷ put_certificate row rows

-- The insert that does nothing on conflict.
unfoldable pub add_audit_event : AuditEvent → List AuditEvent → List AuditEvent
add_audit_event event [] = event ∷ []
add_audit_event event (other ∷ events) =
    if text_eq other.id event.id then other ∷ events else other ∷ add_audit_event event events

-- A later `set` of a map replaces an earlier one.
abbrev pub later_or : Option AssetBound → Option AssetBound → Option AssetBound
later_or none earlier = earlier
later_or (some later) earlier = some later

-- hardByToken.get(token)
unfoldable pub hard_of : Text → List AssetBound → Option AssetBound
hard_of token [] = none
hard_of token (asset ∷ assets) =
    later_or (hard_of token assets) (if same_text asset.token token then some asset else none)

unfoldable pub has_token : Text → List AssetBound → Bool
has_token token [] = false
has_token token (asset ∷ assets) = same_text asset.token token || has_token token assets

-- hardByToken.size
unfoldable pub map_size : List AssetBound → ℕ
map_size [] = 0
map_size (asset ∷ assets) =
    if has_token asset.token assets then map_size assets else suc (map_size assets)

unfoldable pub is_within : WatchtowerBound → Option AssetBound → Bool
is_within bound none = false
is_within bound (some hard) =
    leb hard.minimum_weight_bps bound.minimum_weight_bps
    && leb bound.maximum_weight_bps hard.maximum_weight_bps

unfoldable pub check_within :
    List WatchtowerBound → List AssetBound → Result ServiceError (Unit {0})
check_within [] assets = ok tt
check_within (bound ∷ bounds) assets = do
  throw_if (not (is_within bound (hard_of bound.token assets))) risk_certificate_widens_policy
  check_within bounds assets

-- The loop that compares the token at each index. An index past the assets throws a TypeError.
unfoldable pub check_order : List WatchtowerBound → List AssetBound → Result ServiceError (Unit {0})
check_order [] assets = ok tt
check_order (bound ∷ bounds) [] = err asset_missing
check_order (bound ∷ bounds) (asset ∷ assets) = do
  throw_if (not (same_text bound.token asset.token)) risk_certificate_widens_policy
  check_order bounds assets

abbrev pub matches_context : RiskCertificate → Position → Text → Bool
matches_context certificate position registry =
    same_text certificate.policy_id position.policy.id
    && (certificate.chain_id == position.chain_id)
    && same_text certificate.verifying_contract registry
    && text_eq certificate.policy_nonce position.policy.nonce

abbrev pub holds_portfolio : RiskMode → List WatchtowerBound → Bool
holds_portfolio mode bounds =
    is_paused mode || not (ltb 10000 (minimum_total bounds) || ltb (maximum_total bounds) 10000)

-- The comparison of an evaluation's hard bounds with the policy's assets, as JSON.
unfoldable pub matches_bounds : List WatchtowerBound → List AssetBound → Bool
matches_bounds [] [] = true
matches_bounds [] (asset ∷ assets) = false
matches_bounds (bound ∷ bounds) [] = false
matches_bounds (bound ∷ bounds) (asset ∷ assets) =
    same_text bound.token asset.token
    && (bound.minimum_weight_bps == asset.minimum_weight_bps)
    && (bound.maximum_weight_bps == asset.maximum_weight_bps)
    && matches_bounds bounds assets

-- packages/services/src/risk-worker.ts: the certificate that the worker makes of an evaluation, its
-- hashes and its signature given.
unfoldable pub build_certificate :
    RegistryContext
    → WatchtowerEvaluation
    → (bounds_hash source_digest reason_hash : Text) → (now lifetime valid_until : ℕ)
    → (signature : Text) → RiskCertificate
build_certificate context evaluation bounds_hash source_digest reason_hash now lifetime valid_until
      signature =
    record {
      policy_id = context.policy_id;
      chain_id = context.chain_id;
      verifying_contract = context.registry;
      risk_mode = evaluation.mode;
      active_bounds = evaluation.selected_bounds;
      active_bounds_hash = bounds_hash;
      maximum_trade_value = evaluation.maximum_trade_value;
      source_digest = source_digest;
      reason_code = reason_hash;
      issued_at = now;
      expires_at = min (now + lifetime) valid_until;
      nonce = context.next_nonce;
      watchtower = context.watchtower;
      watchtower_authorization_epoch = context.authorization_epoch;
      policy_nonce = context.policy_nonce;
      signature = signature;
    }

-- An error of packages/shared, as the service throws it.
abbrev pub raise {ℓ} : {A : Type ℓ} → Result Error A → Result ServiceError A
raise (ok a) = ok a
raise (err e) = err (thrown e)

abbrev pub risk_certificate_eip712_type : Text
risk_certificate_eip712_type =
    codes
      "RiskCertificate(bytes32 policyId,uint8 riskMode,bytes32 activeBoundsHash,uint256 maximumTradeValue,bytes32 sourceDigest,bytes32 reasonCode,uint64 issuedAt,uint64 expiresAt,uint256 nonce,address watchtower,uint256 watchtowerAuthorizationEpoch,uint256 policyNonce)"

abbrev pub domain_type : Text
domain_type =
    codes "EIP712Domain(string name,string version,uint256 chainId,address verifyingContract)"

-- keccak_256 of @noble/hashes and the recovery of a signer by @noble/curves are parameters.
module _ (keccak_256 : List ℕ → List ℕ) (verify_signature : Text → Text → Text → Bool) where
  unfoldable pub bound_slots : List WatchtowerBound → Result Error (List (List ℕ))
  bound_slots [] = ok []
  bound_slots (bound ∷ bounds) = do
    token ← address_slot bound.token
    minimum ← uint_slot (bigint (pos bound.minimum_weight_bps))
    maximum ← uint_slot (bigint (pos bound.maximum_weight_bps))
    is_paused ← uint_slot (bigint (pos (if bound.paused then 1 else 0)))
    rest ← bound_slots bounds
    ok (token ∷ minimum ∷ maximum ∷ is_paused ∷ rest)

  unfoldable pub hash_active_bounds : List WatchtowerBound → Result Error Text
  hash_active_bounds bounds = do
    offset ← uint_slot (bigint (pos 32))
    count ← uint_slot (bigint (pos (length bounds)))
    slots ← bound_slots bounds
    ok (bytes_to_hex (keccak_256 (concat_slots (offset ∷ count ∷ slots))))

  unfoldable pub domain_hash : RiskCertificate → Result Error (List ℕ)
  domain_hash certificate = do
    chain ← uint_slot (bigint (pos certificate.chain_id))
    contract ← address_slot certificate.verifying_contract
    ok (
        keccak_256 (
          concat_slots (
            keccak_256 domain_type
            ∷ keccak_256 (codes "AURKA RiskModeRegistry")
            ∷ keccak_256 (codes "2")
            ∷ chain
            ∷ contract
            ∷ [])))

  unfoldable pub struct_hash : RiskCertificate → Result Error (List ℕ)
  struct_hash certificate = do
    policy ← bytes32_slot certificate.policy_id
    mode ← uint_slot (bigint (pos (risk_mode_rank certificate.risk_mode)))
    bounds ← bytes32_slot certificate.active_bounds_hash
    maximum ← uint_slot (bigint (pos certificate.maximum_trade_value))
    source ← bytes32_slot certificate.source_digest
    reason ← bytes32_slot certificate.reason_code
    issued ← uint_slot (bigint (pos certificate.issued_at))
    expires ← uint_slot (bigint (pos certificate.expires_at))
    nonce ← uint_slot (text certificate.nonce)
    watchtower ← address_slot certificate.watchtower
    epoch ← uint_slot (text certificate.watchtower_authorization_epoch)
    policy_nonce ← uint_slot (text certificate.policy_nonce)
    ok (
        keccak_256 (
          concat_slots (
            keccak_256 risk_certificate_eip712_type
            ∷ policy
            ∷ mode
            ∷ bounds
            ∷ maximum
            ∷ source
            ∷ reason
            ∷ issued
            ∷ expires
            ∷ nonce
            ∷ watchtower
            ∷ epoch
            ∷ policy_nonce
            ∷ [])))

  unfoldable pub hash_risk_certificate : RiskCertificate → Result Error Text
  hash_risk_certificate certificate = do
    domain ← domain_hash certificate
    struct ← struct_hash certificate
    ok (bytes_to_hex (keccak_256 (0x19 ∷ 0x01 ∷ (domain ++ struct))))

  -- The checks of `saveCertificate`, which end in the hash.
  unfoldable pub check_certificate :
      RiskCertificate → Position → (registry : Text) → (now : ℕ) → Result ServiceError Text
  check_certificate certificate position registry now = do
    throw_if (not (matches_context certificate position registry)) risk_certificate_context_mismatch
    throw_if
        (not (
          certificate.maximum_trade_value
          == expected_maximum certificate.risk_mode position.policy.maximum_transaction_value))
        risk_certificate_widens_policy
    check_within certificate.active_bounds position.policy.assets
    throw_if (not (length certificate.active_bounds == map_size position.policy.assets))
        risk_certificate_widens_policy
    check_order certificate.active_bounds position.policy.assets
    throw_if (ltb now certificate.issued_at) risk_certificate_from_future
    throw_if (not (holds_portfolio certificate.risk_mode certificate.active_bounds))
        risk_bounds_invalid
    throw_if (leb certificate.expires_at certificate.issued_at) risk_certificate_expired
    throw_if (leb certificate.expires_at now) risk_certificate_expired
    bounds_hash ← raise (hash_active_bounds certificate.active_bounds)
    throw_if (not (text_eq bounds_hash certificate.active_bounds_hash)) risk_bounds_hash_mismatch
    hash ← raise (hash_risk_certificate certificate)
    throw_if (not (verify_signature certificate.watchtower hash certificate.signature))
        risk_certificate_signature_invalid
    ok hash

  -- The three writes.
  unfoldable pub record_certificate :
      RiskCertificate → (position_id hash : Text) → RiskTables → RiskTables
  record_certificate certificate position_id hash tables = record tables {
    certificates =
        put_certificate
          (record { hash = hash; certificate = certificate; status = signed; is_active = false })
          tables.certificates;
    audit_events =
        add_audit_event
          (record {
            id = hash;
            position_id = position_id;
            event_type = codes "RISK_CERTIFICATE_SIGNED";
            actor = certificate.watchtower;
          })
          tables.audit_events;
    jobs =
        save_risk_job
          (record {
            id = codes "renew:" ++ position_id ++ codes ":" ++ certificate.nonce;
            position_id = position_id;
            status = queued;
            attempt = 0;
            next_run_at = certificate.expires_at - 60;
          })
          tables.jobs;
  }

  abbrev pub found_position : Option Position → Result ServiceError Position
  found_position none = err position_not_found
  found_position (some position) = ok position

  abbrev pub required_registry : Option Text → Result ServiceError Text
  required_registry none = err risk_registry_unavailable
  required_registry (some registry) = ok registry

  -- The tables and the hash; a throw leaves the tables as they are.
  unfoldable pub save_certificate :
      RiskTables
      → (position_id : Text) → RiskCertificate
      → (registry : Option Text) → (now : ℕ) → Result ServiceError (RiskTables × Text)
  save_certificate tables position_id certificate registry now = do
    expected ← required_registry registry
    position ← found_position (find_position position_id tables.positions)
    hash ← check_certificate certificate position expected now
    ok (record_certificate certificate position_id hash tables, hash)
