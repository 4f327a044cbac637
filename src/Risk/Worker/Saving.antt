-- ===== src/Risk/Worker/Saving.antt =====
-- How a pass of packages/services/src/risk-worker.ts records a workflow and its certificate.
use aurka.Prelude.{ℕ, refl, Bool, List, Result, ok, err}
use aurka.Prelude.Text.{Text}
use aurka.Risk.{RiskCertificate, CertificateStatus, ServiceError}
use aurka.Risk.Certificate.{raise, hash_risk_certificate}
use aurka.Risk.Worker.{
  Workflow, Answers, Options, save_hashed, save_row, ◌>>◌, return_value, save_workflow,
}
use aurka.Risk.Worker.Steps.{Yields, return_yields, save_workflow_yields, >>=_yields}

module _ (keccak_256 : List ℕ → List ℕ) (verify_signature : Text → Text → Text → Bool)
    (options : Options) (answers : Answers) where
  save_hashed_yields :
      (c : RiskCertificate) (status : CertificateStatus) (in_force : Bool)
      (r : Result ServiceError Text)
      → Yields
          (save_hashed keccak_256 verify_signature options answers c status in_force r)
          (λ done. Unit {0})
  save_hashed_yields c status in_force (ok hash) = record { quiet = λ w. refl; returned = λ w. tt }
  save_hashed_yields c status in_force (err e) = record { quiet = λ w. refl; returned = λ w. tt }

  pub save_row_yields :
      (c : RiskCertificate) (status : CertificateStatus) (in_force : Bool)
      → Yields
          (save_row keccak_256 verify_signature options answers c status in_force)
          (λ done. Unit {0})
  unfolding save_row
  save_row_yields c status in_force =
      save_hashed_yields c status in_force
        (raise (hash_risk_certificate keccak_256 verify_signature c))

  -- Both records of a workflow are saved, and then a value is returned.
  pub saved_twice :
      {A : Type 0} {P : A → Type 0} (saved : Workflow) (c : RiskCertificate)
      (status : CertificateStatus) (in_force : Bool) (a : A)
      → P a
      → Yields
          (save_workflow saved
            >> (save_row keccak_256 verify_signature options answers c status in_force
                >> return_value a))
          P
  saved_twice saved c status in_force a h =
      >>=_yields (save_workflow_yields saved)
        (λ done _. >>=_yields (save_row_yields c status in_force) (λ done _. return_yields a h))

  -- The same in the other order.
  pub recorded :
      {A : Type 0} {P : A → Type 0} (saved : Workflow) (c : RiskCertificate)
      (status : CertificateStatus) (in_force : Bool) (a : A)
      → P a
      → Yields
          (save_row keccak_256 verify_signature options answers c status in_force
            >> (save_workflow saved >> return_value a))
          P
  recorded saved c status in_force a h =
      >>=_yields {next = λ done. save_workflow saved >> return_value a}
        (save_row_yields c status in_force)
        (λ done _. >>=_yields (save_workflow_yields saved) (λ done _. return_yields a h))
