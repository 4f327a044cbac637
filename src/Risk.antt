-- ===== src/Risk.antt =====
-- packages/services/src/risk-service.ts and packages/shared/src/risk.ts: the certificate of a risk
-- mode and the hard policy of a position. A decimal string that is compared as a number is the
-- number; the nonces, which are compared as strings, are strings.
pub mod Certificate
pub mod Worker
use aurka.Prelude.{ℕ, Bool, List}
use aurka.Prelude.Text.{Text}
use aurka.Errors.{Error}
use aurka.Watchtower.{RiskMode, WatchtowerBound}
use aurka.Repository.Jobs.{RiskJob}

-- A certificate that has passed its schema.
pub record RiskCertificate : Type 0 where
  pub policy_id : Text
  pub chain_id : ℕ
  pub verifying_contract : Text
  pub risk_mode : RiskMode
  pub active_bounds : List WatchtowerBound
  pub active_bounds_hash : Text
  pub maximum_trade_value : ℕ
  pub source_digest : Text
  pub reason_code : Text
  pub issued_at : ℕ
  pub expires_at : ℕ
  pub nonce : Text
  pub watchtower : Text
  pub watchtower_authorization_epoch : Text
  pub policy_nonce : Text
  pub signature : Text

-- What packages/services/src/risk-worker.ts reads from the registry.
pub record RegistryContext : Type 0 where
  pub policy_id : Text
  pub chain_id : ℕ
  pub registry : Text
  pub watchtower : Text
  pub policy_nonce : Text
  pub authorization_epoch : Text
  pub next_nonce : Text
  pub authorized : Bool

pub record AssetBound : Type 0 where
  pub token : Text
  pub minimum_weight_bps : ℕ
  pub maximum_weight_bps : ℕ

pub record TreasuryPolicy : Type 0 where
  pub id : Text
  pub nonce : Text
  pub maximum_transaction_value : ℕ
  pub assets : List AssetBound

pub record Position : Type 0 where
  pub id : Text
  pub chain_id : ℕ
  pub policy : TreasuryPolicy

pub data CertificateStatus : Type 0 where
  signed : CertificateStatus
  submitted : CertificateStatus
  active : CertificateStatus
  revoked : CertificateStatus
  expired : CertificateStatus
  failed : CertificateStatus

-- A row of risk_certificates.
pub record CertificateRow : Type 0 where
  pub hash : Text
  pub certificate : RiskCertificate
  pub status : CertificateStatus
  pub is_active : Bool

-- A row of risk_audit_events, less its payload.
pub record AuditEvent : Type 0 where
  pub id : Text
  pub position_id : Text
  pub event_type : Text
  pub actor : Text

pub record RiskTables : Type 0 where
  pub positions : List Position
  pub certificates : List CertificateRow
  pub audit_events : List AuditEvent
  pub jobs : List RiskJob

-- The errors of the service; `thrown` passes one of packages/shared on.
pub data ServiceError : Type 0 where
  risk_registry_unavailable : ServiceError
  position_not_found : ServiceError
  risk_certificate_context_mismatch : ServiceError
  risk_certificate_widens_policy : ServiceError
  risk_certificate_from_future : ServiceError
  risk_bounds_invalid : ServiceError
  risk_certificate_expired : ServiceError
  risk_bounds_hash_mismatch : ServiceError
  risk_certificate_signature_invalid : ServiceError
  asset_missing : ServiceError
  thrown : Error → ServiceError
