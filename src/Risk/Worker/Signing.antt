-- ===== src/Risk/Worker/Signing.antt =====
-- A certificate that a pass of packages/services/src/risk-worker.ts makes and signs.
use aurka.Prelude.{
  nor-both, not-false, ℕ, ◌≡◌, refl, Bool, true, not, ◌||◌, List, [], some, Result, ok, err, ◌==◌,
}
use aurka.Prelude.Text.{Text, text_eq}
use aurka.Risk.{RiskCertificate, RegistryContext, ServiceError, RiskTables}
use aurka.Risk.Certificate.{build_certificate, save_certificate}
use aurka.Risk.Worker.{Answers, Options, Worker, Evaluated, is_authorised_by}
use aurka.Risk.Worker.Pass.{saved_tables, save_signed, sign_certificate, issue_certificate}
use aurka.Risk.Worker.Steps.{
  Returns, Yields, answer_yields, return_yields, fail_if_yields, save_workflow_yields, >>=_yields,
  Yields_weaken,
}

module _ (keccak_256 : List ℕ → List ℕ) (verify_signature : Text → Text → Text → Bool)
    (options : Options) (answers : Answers) where
  -- The certificate as it was signed.
  pub record IsSigned (unsigned c : RiskCertificate) : Type 0 where
    pub signing_context : RegistryContext
    pub signature : Text
    pub is_read : answers.signing_context ≡ ok signing_context
    pub is_signed : answers.signature ≡ ok signature
    pub is_authorised : is_authorised_by unsigned signing_context ≡ true
    pub is_built : c ≡ record unsigned { signature = signature }

  -- A certificate made in this pass.
  pub record IsNew (context : RegistryContext) (c : RiskCertificate) : Type 0 where
    pub evaluated : Evaluated
    pub valid_until : ℕ
    pub is_evaluated : answers.evaluated ≡ ok evaluated
    pub is_bounded : answers.valid_until ≡ ok valid_until
    pub same_position : text_eq evaluated.position_id options.position_id ≡ true
    pub same_chain : (evaluated.chain_id == context.chain_id) ≡ true
    pub signed_as :
        IsSigned
          (build_certificate context evaluated.evaluation evaluated.bounds_hash
            evaluated.source_digest evaluated.reason_hash answers.now_at_issue
            options.certificate_lifetime_seconds valid_until [])
          c

  saved_tables_quiet :
      (w : Worker) (r : Result ServiceError (RiskTables × Text))
      → (saved_tables keccak_256 verify_signature options answers w r).0.handed_over ≡ w.handed_over
  saved_tables_quiet w (ok (tables, hash)) = refl
  saved_tables_quiet w (err e) = refl

  saved_tables_returned :
      (w : Worker) (r : Result ServiceError (RiskTables × Text))
      → Returns (λ done. Unit {0}) (saved_tables keccak_256 verify_signature options answers w r).1
  saved_tables_returned w (ok (tables, hash)) = tt
  saved_tables_returned w (err e) = tt

  saved_tables_yields :
      (r : Worker → Result ServiceError (RiskTables × Text))
      → Yields
          (λ worker. saved_tables keccak_256 verify_signature options answers worker (r worker))
          (λ done. Unit {0})
  saved_tables_yields r = record {
    quiet = λ w. saved_tables_quiet w (r w);
    returned = λ w. saved_tables_returned w (r w);
  }

  save_signed_yields :
      (c : RiskCertificate) (registry : Text)
      → Yields
          (save_signed keccak_256 verify_signature options answers c registry)
          (λ done. Unit {0})
  unfolding save_signed
  save_signed_yields c registry = saved_tables_yields (λ worker.
      save_certificate keccak_256 verify_signature worker.tables options.position_id c
        (some registry) answers.now_at_save)

  sign_certificate_yields :
      (registry : Text) (unsigned : RiskCertificate)
      → Yields
          (sign_certificate keccak_256 verify_signature options answers registry unsigned)
          (λ workflow. IsSigned unsigned workflow.certificate)
  unfolding sign_certificate
  sign_certificate_yields registry unsigned =
      >>=_yields (answer_yields answers.signing_context) (λ context is_read.
        >>=_yields (fail_if_yields (not (is_authorised_by unsigned context)) _) (λ done same.
          >>=_yields (answer_yields answers.signature) (λ signature is_signed.
            >>=_yields (save_workflow_yields _) (λ done _.
              >>=_yields (save_signed_yields (record unsigned { signature = signature }) registry)
                (λ done _. return_yields _ (record {
                  signing_context = context;
                  signature = signature;
                  is_read = is_read;
                  is_signed = is_signed;
                  is_authorised = not-false _ same;
                  is_built = refl;
                }))))))

  pub issue_certificate_yields :
      (context : RegistryContext)
      → Yields
          (issue_certificate keccak_256 verify_signature options answers context)
          (λ workflow. IsNew context workflow.certificate)
  unfolding issue_certificate
  issue_certificate_yields context =
      >>=_yields (answer_yields answers.evaluated) (λ evaluated is_evaluated.
        >>=_yields
          (fail_if_yields
            (not (text_eq evaluated.position_id options.position_id)
              || not (evaluated.chain_id == context.chain_id))
            _)
          (λ done same. >>=_yields (answer_yields answers.valid_until) (λ valid_until is_bounded.
            Yields_weaken (sign_certificate_yields context.registry _) (λ workflow is_signed.
              record {
                evaluated = evaluated;
                valid_until = valid_until;
                is_evaluated = is_evaluated;
                is_bounded = is_bounded;
                same_position = (nor-both _ _ same).0;
                same_chain = (nor-both _ _ same).1;
                signed_as = is_signed;
              }))))
