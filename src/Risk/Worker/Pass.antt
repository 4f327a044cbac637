-- ===== src/Risk/Worker/Pass.antt =====
-- How a pass of packages/services/src/risk-worker.ts issues and submits a certificate, and the whole
-- pass (tick).
use aurka.Prelude.{
  ℕ, ◌+◌, Bool, false, ◌||◌, not, List, [], ◌++◌, Option, none, some, Result, ok, err, ◌==◌,
}
use aurka.Prelude.Text.{Text, codes, text_eq}
use aurka.Repository.Jobs.{RiskJob, claim_risk_job, ensure_risk_job, release_risk_job}
use aurka.Risk.{RiskCertificate, signed, submitted, RiskTables, ServiceError, RegistryContext}
use aurka.Risk.Certificate.{build_certificate, save_certificate}
use aurka.Risk.Worker.{
  Workflow, WorkerError, authority_changed, not_authorized, identity_mismatch, no_transaction_hash,
  refused_by_service, Answers, Options, Worker, M, ◌>>=◌, ◌>>◌, return_value, answer, fail_if,
  save_workflow, hand_over, is_authorised_by, save_row,
}
use aurka.Risk.Worker.Stored.{Decision, stop, issue, submit, given, expire_stored, decide}

module _ (keccak_256 : List ℕ → List ℕ) (verify_signature : Text → Text → Text → Bool)
    (options : Options) (answers : Answers) where
  abbrev pub saved_tables :
      Worker → Result ServiceError (RiskTables × Text) → Worker × Result WorkerError (Unit {0})
  saved_tables worker (ok (tables, hash)) = (record worker { tables = tables }, ok tt)
  saved_tables worker (err e) = (worker, err (refused_by_service e))

  unfoldable pub save_signed : RiskCertificate → Text → M (Unit {0})
  save_signed certificate registry worker = saved_tables worker (
      save_certificate keccak_256 verify_signature worker.tables options.position_id certificate
        (some registry) answers.now_at_save)

  -- A signed certificate, whose workflow is stored before it is submitted.
  unfoldable pub sign_certificate : Text → RiskCertificate → M Workflow
  sign_certificate registry certificate = do
    signing_context ← answer answers.signing_context
    fail_if (not (is_authorised_by certificate signing_context)) authority_changed
    signature ← answer answers.signature
    let workflow : Workflow = record {
      certificate = record certificate { signature = signature };
      state = signed;
      transaction_hash = none;
      block_hash = none;
    }
    save_workflow workflow
    save_signed workflow.certificate registry
    return_value workflow

  unfoldable pub issue_certificate : RegistryContext → M Workflow
  issue_certificate context = do
    evaluated ← answer answers.evaluated
    fail_if
        (not (text_eq evaluated.position_id options.position_id)
          || not (evaluated.chain_id == context.chain_id))
        identity_mismatch
    valid_until ← answer answers.valid_until
    sign_certificate context.registry (
        build_certificate context evaluated.evaluation evaluated.bounds_hash evaluated.source_digest
          evaluated.reason_hash answers.now_at_issue options.certificate_lifetime_seconds
          valid_until [])

  abbrev pub required_hash : Option Text → M Text
  required_hash none worker = (worker, err no_transaction_hash)
  required_hash (some hash) worker = (worker, ok hash)

  unfoldable pub submit_workflow : Workflow → M (Unit {0})
  submit_workflow workflow = do
    fingerprint ← answer answers.fingerprint
    submission_context ← answer answers.submission_context
    fail_if (not (is_authorised_by workflow.certificate submission_context)) authority_changed
    answer answers.authorization
    hand_over workflow.certificate
    sent ← answer answers.sent
    transaction_hash ← required_hash (given sent)
    save_workflow (record workflow { state = submitted; transaction_hash = some transaction_hash })
    save_row keccak_256 verify_signature options answers workflow.certificate submitted false

  unfoldable pub act : RegistryContext → Decision → M (Unit {0})
  act context stop = return_value tt
  act context issue = do
    fail_if (not context.authorized) not_authorized
    workflow ← issue_certificate context
    submit_workflow workflow
  act context (submit workflow) = do
    fail_if (not context.authorized) not_authorized
    submit_workflow workflow

  abbrev pub get_workflow : M (Option Workflow)
  get_workflow worker = (worker, ok worker.workflow)

  -- The body of a pass that has claimed its job.
  unfoldable pub run_pass : M (Unit {0})
  run_pass = do
    context ← answer answers.context
    stored ← get_workflow
    current ← expire_stored keccak_256 verify_signature options answers stored
    decision ← decide keccak_256 verify_signature options answers context current
    act context decision

  abbrev pub with_jobs : (List RiskJob → List RiskJob) → Worker → Worker
  with_jobs change worker = record worker {
    tables = record worker.tables { jobs = change worker.tables.jobs };
  }

  abbrev pub released :
      Text
      → ℕ
      → (next_run_at : ℕ) → Worker × Result WorkerError (Unit {0})
      → Worker × Result WorkerError (Unit {0})
  released id attempt next_run_at (worker, r) =
      (with_jobs (λ jobs. release_risk_job jobs id attempt next_run_at) worker, r)

  abbrev pub run_claimed : Text → List RiskJob × Option ℕ → M (Unit {0})
  run_claimed id (jobs, none) worker = (with_jobs (λ old. jobs) worker, ok tt)
  run_claimed id (jobs, some attempt) worker =
      released id attempt (answers.now_at_release + 10) (run_pass (with_jobs (λ old. jobs) worker))

  -- One pass: the job is ensured, claimed, and released at the end.
  unfoldable pub tick : M (Unit {0})
  tick worker =
      let id = codes "worker:" ++ options.position_id in
      let ensured =
        ensure_risk_job worker.tables.jobs id options.position_id answers.now_at_ensure in
      run_claimed id (claim_risk_job ensured id answers.now_at_claim) worker
