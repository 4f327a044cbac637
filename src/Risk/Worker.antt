-- ===== src/Risk/Worker.antt =====
-- packages/services/src/risk-worker.ts: one pass of the worker that keeps a position's certificate
-- in force. The diagnostics of the worker, its audit events and
-- the state that the evaluation saves are left out.
pub mod Stored
pub mod Pass
pub mod Steps
pub mod Saving
pub mod Decisions
pub mod Signing
pub mod Guards
pub mod Tests
use aurka.Prelude.{
  ℕ, ◌+◌, ◌-◌, Bool, true, false, ◌&&◌, ◌||◌, not, List, [], ◌∷◌, ◌++◌, Option, none, some, Result,
  ok, err, ltb, leb, ◌==◌, if◌then◌else◌,
}
use aurka.Prelude.Text.{Text, codes, text_eq}
use aurka.Price.{same_text}
use aurka.Watchtower.Evaluation.{WatchtowerEvaluation}
use aurka.Repository.Jobs.{RiskJob, claim_risk_job, ensure_risk_job, release_risk_job}
use aurka.Risk.{
  RiskCertificate, CertificateStatus, signed, submitted, active, revoked, expired, failed,
  CertificateRow, RiskTables, ServiceError, thrown, RegistryContext,
}
use aurka.Risk.Certificate.{
  put_certificate, raise, build_certificate, hash_risk_certificate, save_certificate,
}

pub record Workflow : Type 0 where
  pub certificate : RiskCertificate
  pub state : CertificateStatus
  pub transaction_hash : Option Text
  pub block_hash : Option Text

pub record Receipt : Type 0 where
  pub block_number : ℕ
  pub block_hash : Text
  pub success : Bool

-- The evaluation of a pass, with the identity of its input and its hashes.
pub record Evaluated : Type 0 where
  pub position_id : Text
  pub chain_id : ℕ
  pub evaluation : WatchtowerEvaluation
  pub bounds_hash : Text
  pub source_digest : Text
  pub reason_hash : Text

pub data WorkerError : Type 0 where
  call_failed : WorkerError
  authority_changed : WorkerError
  not_authorized : WorkerError
  identity_mismatch : WorkerError
  no_transaction_hash : WorkerError
  refused_by_service : ServiceError → WorkerError

-- What each awaited call of a pass answers, in the order of the calls, and the clock at each reading.
-- An answer is an error where the call throws, or where the lease has been replaced by then.
pub record Answers : Type 0 where
  pub now_at_ensure : ℕ
  pub now_at_claim : ℕ
  pub context : Result WorkerError RegistryContext
  pub now_at_start : ℕ
  pub receipt : Result WorkerError (Option Receipt)
  pub canonical_hash : Result WorkerError (Option Text)
  pub finalized_block : Result WorkerError ℕ
  pub canonical_hash_again : Result WorkerError (Option Text)
  pub still_owned : Result WorkerError (Unit {0})
  pub now_at_renewal : ℕ
  pub now_at_expiry : ℕ
  pub evaluated : Result WorkerError Evaluated
  pub valid_until : Result WorkerError ℕ
  pub now_at_issue : ℕ
  pub signing_context : Result WorkerError RegistryContext
  pub signature : Result WorkerError Text
  pub now_at_save : ℕ
  pub fingerprint : Result WorkerError Text
  pub submission_context : Result WorkerError RegistryContext
  pub authorization : Result WorkerError (Unit {0})
  pub sent : Result WorkerError (Option Text)
  pub now_at_release : ℕ

pub record Options : Type 0 where
  pub position_id : Text
  pub certificate_lifetime_seconds : ℕ
  pub renewal_lead_seconds : ℕ

-- The stored workflow of the position, the tables, and the certificates handed to the wallet.
pub record Worker : Type 0 where
  pub workflow : Option Workflow
  pub tables : RiskTables
  pub handed_over : List RiskCertificate

-- A pass reads and writes the worker, and may throw; what it wrote before a throw stays.
abbrev pub M : Type 0 → Type 0
M A = Worker → Worker × Result WorkerError A

-- What follows a call that returned; a throw skips it.
abbrev pub resume_with :
    {A B : Type 0} → (A → M B) → Worker × Result WorkerError A → Worker × Result WorkerError B
resume_with next (worker, ok a) = next a worker
resume_with next (worker, err e) = (worker, err e)

infixl 5 ◌>>=◌ ◌>>◌
unfoldable pub ◌>>=◌ : {A B : Type 0} → M A → (A → M B) → M B
◌>>=◌ call next worker = resume_with next (call worker)

abbrev pub ◌>>◌ : {B : Type 0} → M (Unit {0}) → M B → M B
call >> rest = call >>= λ done. rest

abbrev pub return_value : {A : Type 0} → A → M A
return_value a worker = (worker, ok a)

abbrev pub answer : {A : Type 0} → Result WorkerError A → M A
answer r worker = (worker, r)

abbrev pub fail_if : Bool → WorkerError → M (Unit {0})
fail_if true e worker = (worker, err e)
fail_if false e worker = (worker, ok tt)

unfoldable pub save_workflow : Workflow → M (Unit {0})
save_workflow workflow worker = (record worker { workflow = some workflow }, ok tt)

-- The calldata of a certificate reaches the wallet, whatever the wallet then answers.
unfoldable pub hand_over : RiskCertificate → M (Unit {0})
hand_over certificate worker =
    (record worker { handed_over = certificate ∷ worker.handed_over }, ok tt)

-- The context authorises the certificate: the test of the tick, and of assertCertificateContext.
unfoldable pub is_authorised_by : RiskCertificate → RegistryContext → Bool
is_authorised_by certificate context =
    context.authorized
    && text_eq certificate.policy_nonce context.policy_nonce
    && text_eq certificate.watchtower_authorization_epoch context.authorization_epoch
    && same_text certificate.verifying_contract context.registry
    && same_text certificate.watchtower context.watchtower
    && (certificate.chain_id == context.chain_id)

module _ (keccak_256 : List ℕ → List ℕ) (verify_signature : Text → Text → Text → Bool)
    (options : Options) (answers : Answers) where
  abbrev pub put_row : RiskCertificate → CertificateStatus → Bool → Text → Worker → Worker
  put_row certificate status in_force hash worker = record worker {
    tables = record worker.tables {
      certificates =
          put_certificate
            (record {
              hash = hash;
              certificate = certificate;
              status = status;
              is_active = in_force;
            })
            worker.tables.certificates;
    };
  }

  abbrev pub save_hashed :
      RiskCertificate → CertificateStatus → Bool → Result ServiceError Text → M (Unit {0})
  save_hashed certificate status in_force (ok hash) worker =
      (put_row certificate status in_force hash worker, ok tt)
  save_hashed certificate status in_force (err e) worker = (worker, err (refused_by_service e))

  -- repository.saveRiskCertificate(hashRiskCertificate(c), { ...c, status }, active)
  unfoldable pub save_row : RiskCertificate → CertificateStatus → Bool → M (Unit {0})
  save_row certificate status in_force =
      save_hashed certificate status in_force
        (raise (hash_risk_certificate keccak_256 verify_signature certificate))
