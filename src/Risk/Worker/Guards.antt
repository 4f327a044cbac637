-- ===== src/Risk/Worker/Guards.antt =====
-- The certificates that a pass of packages/services/src/risk-worker.ts hands to the wallet.
use aurka.Prelude.{
  not-false, ℕ, ◌+◌, ◌≡◌, refl, sym, ap, subst, ◌∙◌, ◌⊎◌, inl, inr, Bool, true, not, List, ◌++◌,
  Option, none, some, Result, ok,
}
use aurka.Prelude.Text.{Text, codes, text_eq→eq}
use aurka.Risk.{RiskCertificate, RegistryContext}
use aurka.Risk.Certificate.{build_certificate}
use aurka.Risk.Worker.{Workflow, WorkerError, Answers, Options, Worker, ◌>>=◌, is_authorised_by}
use aurka.Risk.Worker.Stored.{given, Decision, stop, issue, submit, expire_stored, decide}
use aurka.Risk.Worker.Pass.{
  required_hash, submit_workflow, act, run_pass, get_workflow, tick, released, run_claimed,
  with_jobs,
}
use aurka.Risk.Worker.Steps.{
  Gives, Gives-weaken, answer-Gives, Yields, HandsOver, answer_yields, return_yields,
  fail_if_yields, save_workflow_yields, >>=_yields, >>=_hands, yields_hands, hand_over_hands,
  HandsOver_weaken,
}
use aurka.Repository.Jobs.{RiskJob, claim_risk_job, ensure_risk_job}
use aurka.Risk.Worker.Decisions.{
  IsReplaceable, IsResumable, IsDecided, expire_stored_yields, decide_left_yields,
}
use aurka.Risk.Worker.Saving.{save_row_yields}
use aurka.Risk.Worker.Signing.{IsNew, issue_certificate_yields}

module _ (keccak_256 : List ℕ → List ℕ) (verify_signature : Text → Text → Text → Bool)
    (options : Options) (answers : Answers) where
  -- The certificate is of a context read just before it is submitted.
  pub record IsSubmitted (c : RiskCertificate) : Type 0 where
    pub submission_context : RegistryContext
    pub is_read : answers.submission_context ≡ ok submission_context
    pub is_authorised : is_authorised_by c submission_context ≡ true

  -- Either a new certificate, where it may replace the stored workflow, or that of a stored workflow
  -- without a transaction hash, unchanged.
  abbrev pub IsOwed : RegistryContext → Option Workflow → RiskCertificate → Type 0
  IsOwed context stored c =
      (IsReplaceable keccak_256 verify_signature options answers context stored
        × IsNew keccak_256 verify_signature options answers context c)
      ⊎ ((workflow : Workflow) × IsResumable keccak_256 verify_signature options answers context
            stored workflow
          × (c ≡ workflow.certificate))

  required_hash_yields :
      (sent : Option Text)
      → Yields (required_hash keccak_256 verify_signature options answers sent) (λ hash. Unit {0})
  required_hash_yields none = record { quiet = λ w. refl; returned = λ w. tt }
  required_hash_yields (some hash) = record { quiet = λ w. refl; returned = λ w. tt }

  submit_workflow_hands :
      (workflow : Workflow)
      → HandsOver
          (submit_workflow keccak_256 verify_signature options answers workflow)
          (λ c. (c ≡ workflow.certificate) × IsSubmitted c)
  unfolding submit_workflow
  submit_workflow_hands workflow = >>=_hands (answer_yields answers.fingerprint) (λ fingerprint _.
      >>=_hands (answer_yields answers.submission_context) (λ context is_read.
        >>=_hands (fail_if_yields (not (is_authorised_by workflow.certificate context)) _)
          (λ done same. >>=_hands (answer_yields answers.authorization) (λ done _.
            hand_over_hands workflow.certificate
              (
                refl,
                record {
                  submission_context = context;
                  is_read = is_read;
                  is_authorised = not-false _ same;
                },
              )
              (>>=_yields (answer_yields answers.sent) (λ sent _.
                >>=_yields (required_hash_yields (given sent)) (λ hash _.
                  >>=_yields (save_workflow_yields _) (λ done _.
                    save_row_yields keccak_256 verify_signature options answers _ _ _))))))))

  IsNew-nonce :
      (context : RegistryContext) (c : RiskCertificate)
      → IsNew keccak_256 verify_signature options answers context c
      → c.nonce ≡ context.next_nonce
  unfolding build_certificate
  IsNew-nonce context c new = ap (λ x. x.nonce) new.signed_as.is_built

  -- What holds of a certificate that a pass hands over.
  pub record IsGuarded (stored : Option Workflow) (c : RiskCertificate) : Type 0 where
    pub context : RegistryContext
    pub is_read : answers.context ≡ ok context
    pub is_authorised : context.authorized ≡ true
    pub has_next_nonce : c.nonce ≡ context.next_nonce
    pub is_submitted : IsSubmitted c
    pub is_owed : IsOwed context stored c

  act_hands :
      (context : RegistryContext) (stored : Option Workflow)
      → answers.context ≡ ok context
      → (decision : Decision)
      → IsDecided keccak_256 verify_signature options answers context stored decision
      → HandsOver
          (act keccak_256 verify_signature options answers context decision)
          (IsGuarded stored)
  unfolding act
  act_hands context stored is_read stop h =
      yields_hands {P = λ done. Unit {0}} (return_yields tt tt)
  act_hands context stored is_read issue h =
      >>=_hands (fail_if_yields (not context.authorized) _) (λ done same.
        >>=_hands (issue_certificate_yields keccak_256 verify_signature options answers context)
          (λ workflow new.
            HandsOver_weaken (submit_workflow_hands workflow) (λ c (same_certificate, submitted).
              record {
                context = context;
                is_read = is_read;
                is_authorised = not-false _ same;
                has_next_nonce = ap (λ x. x.nonce) same_certificate ∙ IsNew-nonce context _ new;
                is_submitted = submitted;
                is_owed = inl (
                  h,
                  subst (IsNew keccak_256 verify_signature options answers context)
                      (sym same_certificate) new,
                );
              })))
  act_hands context stored is_read (submit workflow) h =
      >>=_hands (fail_if_yields (not context.authorized) _) (λ done same.
        HandsOver_weaken (submit_workflow_hands workflow) (λ c (same_certificate, submitted).
          record {
            context = context;
            is_read = is_read;
            is_authorised = not-false _ same;
            has_next_nonce = ap (λ x. x.nonce) same_certificate ∙ text_eq→eq _ _ h.has_next_nonce;
            is_submitted = submitted;
            is_owed = inr (workflow, h, same_certificate);
          }))

  -- The body of a pass, once the context has been read.
  decided_hands :
      (context : RegistryContext) (stored : Option Workflow)
      → answers.context ≡ ok context
      → HandsOver
          (expire_stored keccak_256 verify_signature options answers stored >>= λ current.
            decide keccak_256 verify_signature options answers context current >>= λ decision.
            act keccak_256 verify_signature options answers context decision)
          (IsGuarded stored)
  decided_hands context stored is_read =
      >>=_hands (expire_stored_yields keccak_256 verify_signature options answers context stored)
        (λ current left.
          >>=_hands
            (decide_left_yields keccak_256 verify_signature options answers context stored current
              left)
            (λ decision decided. act_hands context stored is_read decision decided))

  stored-Gives :
      (worker : Worker) (context : RegistryContext)
      → answers.context ≡ ok context
      → Gives worker (IsGuarded worker.workflow) (
          (get_workflow keccak_256 verify_signature options answers >>= λ stored.
          expire_stored keccak_256 verify_signature options answers stored >>= λ current.
          decide keccak_256 verify_signature options answers context current >>= λ decision.
          act keccak_256 verify_signature options answers context decision)
            worker)
  unfolding ◌>>=◌
  stored-Gives worker context is_read =
      (decided_hands context worker.workflow is_read).at_most_one worker

  run_pass-IsGuarded :
      (worker : Worker)
      → Gives worker
          (IsGuarded worker.workflow)
          (run_pass keccak_256 verify_signature options answers worker)
  unfolding run_pass
  run_pass-IsGuarded worker =
      answer-Gives answers.context _ worker (λ context is_read. stored-Gives worker context is_read)

  released-Gives :
      (id : Text) (attempt next : ℕ) (worker : Worker) {P : RiskCertificate → Type 0}
      (p : Worker × Result WorkerError (Unit {0}))
      → Gives worker P p
      → Gives worker P (released keccak_256 verify_signature options answers id attempt next p)
  released-Gives id attempt next worker (w, r) h = h

  -- The pass has claimed its job.
  abbrev pub HasClaimed : Worker → Type 0
  HasClaimed worker =
      let id = codes "worker:" ++ options.position_id in
      let ensured =
        ensure_risk_job worker.tables.jobs id options.position_id answers.now_at_ensure in
      (attempt : ℕ) × ((claim_risk_job ensured id answers.now_at_claim).1 ≡ some attempt)

  run_claimed-IsGuarded :
      (worker : Worker) (claim : List RiskJob × Option ℕ)
      → (claim_risk_job
          (ensure_risk_job worker.tables.jobs
            (codes "worker:" ++ options.position_id)
            options.position_id
            answers.now_at_ensure)
          (codes "worker:" ++ options.position_id)
          answers.now_at_claim).1
        ≡ claim.1
      → Gives worker
          (λ c. HasClaimed worker × IsGuarded worker.workflow c)
          (run_claimed keccak_256 verify_signature options answers
            (codes "worker:" ++ options.position_id)
            claim
            worker)
  run_claimed-IsGuarded worker (jobs, none) claimed = inl refl
  run_claimed-IsGuarded worker (jobs, some attempt) claimed =
      let start = with_jobs keccak_256 verify_signature options answers (λ old. jobs) worker in
      let passed = run_pass keccak_256 verify_signature options answers start in
      released-Gives (codes "worker:" ++ options.position_id) attempt (answers.now_at_release + 10)
        worker passed
        (Gives-weaken worker passed (run_pass-IsGuarded start)
          (λ c guarded. ((attempt, claimed), guarded)))

  -- A pass hands over nothing, or one certificate, and then it has claimed its job and the
  -- registry's context, read at its start, is authorised; the certificate has the context's next
  -- nonce, and a context read just before its submission authorises it. Either it is the
  -- certificate of the stored workflow, which has not ended, has no transaction hash on record (it
  -- may have been sent, with the answer lost), and is authorised; or it is made and signed in this
  -- pass, of a source of the position and the chain, and nothing is stored, or the stored workflow
  -- has expired or has ended, or has no transaction hash on record and has lost the next nonce or
  -- expired since, or has a canonical, final and successful transaction and a certificate that
  -- expires within the renewal lead.
  pub tick-IsGuarded :
      (worker : Worker)
      → Gives worker
          (λ c. HasClaimed worker × IsGuarded worker.workflow c)
          (tick keccak_256 verify_signature options answers worker)
  unfolding tick
  tick-IsGuarded worker = run_claimed-IsGuarded worker _ refl
