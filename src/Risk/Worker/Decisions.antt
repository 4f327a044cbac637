-- ===== src/Risk/Worker/Decisions.antt =====
-- What a pass of packages/services/src/risk-worker.ts does with the stored workflow.
use aurka.Prelude.{
  not-false, not-true, ℕ, ◌+◌, ◌≡◌, refl, Bool, true, false, not, ◌||◌, List, Option, none, some,
  ok, if◌then◌else◌, leb, ltb,
}
use aurka.Prelude.Text.{Text, text_eq}
use aurka.Risk.{expired, RegistryContext}
use aurka.Risk.Worker.{Workflow, Receipt, Answers, Options, is_authorised_by}
use aurka.Risk.Worker.Stored.{
  given, Decision, stop, issue, submit, expire_stored, wait_for, settle, check_final, check_receipt,
  follow_up, revoke, decide, has_not_ended, has_receipt_hash,
}
use aurka.Risk.Worker.Steps.{
  Yields, answer_yields, return_yields, save_workflow_yields, >>=_yields, if_yields, nor-false,
}
use aurka.Risk.Worker.Saving.{saved_twice, recorded}

module _ (keccak_256 : List ℕ → List ℕ) (verify_signature : Text → Text → Text → Bool)
    (options : Options) (answers : Answers) where
  -- The transaction of the workflow is on the canonical chain, final and successful, and its
  -- certificate is close to its expiry.
  pub record IsRenewable (workflow : Workflow) : Type 0 where
    pub receipt : Receipt
    pub canonical : Option Text
    pub again : Option Text
    pub finalized : ℕ
    pub is_received : answers.receipt ≡ ok (some receipt)
    pub is_read : answers.canonical_hash ≡ ok canonical
    pub is_read_again : answers.canonical_hash_again ≡ ok again
    pub is_finalized : answers.finalized_block ≡ ok finalized
    pub is_on : has_receipt_hash canonical receipt ≡ true
    pub is_still_on : has_receipt_hash again receipt ≡ true
    pub is_final : ltb finalized receipt.block_number ≡ false
    pub has_succeeded : receipt.success ≡ true
    pub expires_soon :
        ltb (answers.now_at_renewal + options.renewal_lead_seconds) workflow.certificate.expires_at
        ≡ false

  -- Why a new certificate may replace the stored workflow.
  pub data IsReplaceable (context : RegistryContext) : Option Workflow → Type 0 where
    nothing_stored : IsReplaceable context none
    has_expired :
        (workflow : Workflow)
        → leb workflow.certificate.expires_at answers.now_at_start ≡ true
        → IsReplaceable context (some workflow)
    has_ended :
        (workflow : Workflow)
        → has_not_ended workflow.state ≡ false
        → IsReplaceable context (some workflow)
    without_hash :
        (workflow : Workflow)
        → given workflow.transaction_hash ≡ none
        → (leb workflow.certificate.expires_at answers.now_at_expiry
            || not (text_eq workflow.certificate.nonce context.next_nonce))
          ≡ true
        → IsReplaceable context (some workflow)
    renewable : (workflow : Workflow) → IsRenewable workflow → IsReplaceable context (some workflow)

  -- The stored workflow has not ended and has no transaction hash, whether or not it was sent: its
  -- certificate is submitted again.
  pub record IsResumable (context : RegistryContext) (stored : Option Workflow)
      (workflow : Workflow) : Type 0 where
    pub is_stored : stored ≡ some workflow
    pub is_alive : has_not_ended workflow.state ≡ true
    pub has_no_hash : given workflow.transaction_hash ≡ none
    pub is_authorised : is_authorised_by workflow.certificate context ≡ true
    pub has_next_nonce : text_eq workflow.certificate.nonce context.next_nonce ≡ true

  abbrev pub IsDecided : RegistryContext → Option Workflow → Decision → Type 0
  IsDecided context stored stop = Unit {0}
  IsDecided context stored issue = IsReplaceable context stored
  IsDecided context stored (submit workflow) = IsResumable context stored workflow

  -- The decision once a final receipt has been recorded.
  settled :
      (context : RegistryContext) (workflow : Workflow) (success late : Bool)
      → (success ≡ true → late ≡ false → IsRenewable workflow)
      → IsDecided context (some workflow) (if not success || late then stop else issue)
  settled context workflow false late h = tt
  settled context workflow true true h = tt
  settled context workflow true false h = renewable workflow (h refl refl)

  module _ (context : RegistryContext) (workflow : Workflow) where
    wait_for_yields :
        Yields
          (wait_for keccak_256 verify_signature options answers workflow)
          (IsDecided context (some workflow))
    unfolding wait_for
    wait_for_yields = saved_twice keccak_256 verify_signature options answers _ _ _ _ stop tt

    settle_yields :
        (receipt : Receipt)
        → (receipt.success ≡ true
            → ltb
                (answers.now_at_renewal + options.renewal_lead_seconds)
                workflow.certificate.expires_at
              ≡ false
            → IsRenewable workflow)
        → Yields
            (settle keccak_256 verify_signature options answers workflow receipt)
            (IsDecided context (some workflow))
    unfolding settle
    settle_yields receipt h =
        saved_twice keccak_256 verify_signature options answers _ _ _ _ _
          (settled context workflow receipt.success _ h)

    check_final_yields :
        (receipt : Receipt) (canonical : Option Text)
        → answers.receipt ≡ ok (some receipt)
        → answers.canonical_hash ≡ ok canonical
        → has_receipt_hash canonical receipt ≡ true
        → Yields
            (check_final keccak_256 verify_signature options answers workflow receipt)
            (IsDecided context (some workflow))
    unfolding check_final
    check_final_yields receipt canonical received read on =
        >>=_yields (answer_yields answers.finalized_block) (λ finalized is_finalized.
          >>=_yields (answer_yields answers.canonical_hash_again) (λ again is_read_again.
            if_yields (not (has_receipt_hash again receipt)) (λ e. return_yields stop tt)
              (λ still_on. >>=_yields (answer_yields answers.still_owned) (λ done _.
                if_yields (ltb finalized receipt.block_number) (λ e. return_yields stop tt)
                  (λ is_final. settle_yields receipt (λ has_succeeded soon. record {
                    receipt = receipt;
                    canonical = canonical;
                    again = again;
                    finalized = finalized;
                    is_received = received;
                    is_read = read;
                    is_read_again = is_read_again;
                    is_finalized = is_finalized;
                    is_on = on;
                    is_still_on = not-false _ still_on;
                    is_final = is_final;
                    has_succeeded = has_succeeded;
                    expires_soon = soon;
                  }))))))

    check_receipt_yields :
        (r : Option Receipt)
        → answers.receipt ≡ ok r
        → Yields
            (check_receipt keccak_256 verify_signature options answers workflow r)
            (IsDecided context (some workflow))
    unfolding check_receipt
    check_receipt_yields none received = wait_for_yields
    check_receipt_yields (some receipt) received =
        >>=_yields (answer_yields answers.canonical_hash) (λ canonical is_read.
          if_yields (has_receipt_hash canonical receipt)
            (λ on. check_final_yields receipt canonical received is_read on)
            (λ off. wait_for_yields))

    revoke_yields :
        Yields
          (revoke keccak_256 verify_signature options answers workflow)
          (IsDecided context (some workflow))
    unfolding revoke
    revoke_yields = saved_twice keccak_256 verify_signature options answers _ _ _ _ stop tt

    follow_up_yields :
        has_not_ended workflow.state ≡ true
        → is_authorised_by workflow.certificate context ≡ true
        → (hash : Option Text) → given workflow.transaction_hash ≡ hash
        → Yields
            (follow_up keccak_256 verify_signature options answers context workflow hash)
            (IsDecided context (some workflow))
    unfolding follow_up
    follow_up_yields alive authorised none no_hash =
        if_yields _
          (λ lapsed.
            >>=_yields (save_workflow_yields _)
              (λ done _. return_yields issue (without_hash workflow no_hash lapsed)))
          (λ valid. return_yields (submit workflow) (record {
            is_stored = refl;
            is_alive = alive;
            has_no_hash = no_hash;
            is_authorised = authorised;
            has_next_nonce = nor-false _ _ valid;
          }))
    follow_up_yields alive authorised (some hash) sent =
        >>=_yields (answer_yields answers.receipt) (λ r received. check_receipt_yields r received)

  decide_yields :
      (context : RegistryContext) (current : Option Workflow)
      → Yields
          (decide keccak_256 verify_signature options answers context current)
          (IsDecided context current)
  unfolding decide
  decide_yields context none = return_yields issue nothing_stored
  decide_yields context (some workflow) =
      if_yields (not (has_not_ended workflow.state))
        (λ dead. return_yields issue (has_ended workflow (not-true _ dead)))
        (λ alive.
          if_yields (not (is_authorised_by workflow.certificate context))
            (λ other. revoke_yields context workflow)
            (λ same.
              follow_up_yields context workflow (not-false _ alive) (not-false _ same)
                (given workflow.transaction_hash) refl))

  -- What is left of the stored workflow once an expired one has been recorded.
  pub data IsLeft (context : RegistryContext) (stored : Option Workflow)
      : Option Workflow → Type 0 where
    dropped : IsReplaceable context stored → IsLeft context stored none
    kept : IsLeft context stored stored

  pub expire_stored_yields :
      (context : RegistryContext) (stored : Option Workflow)
      → Yields
          (expire_stored keccak_256 verify_signature options answers stored)
          (IsLeft context stored)
  unfolding expire_stored
  expire_stored_yields context none = return_yields none kept
  expire_stored_yields context (some workflow) =
      if_yields (leb workflow.certificate.expires_at answers.now_at_start)
        (λ late.
          recorded keccak_256 verify_signature options answers (record workflow { state = expired })
            workflow.certificate expired false none (dropped (has_expired workflow late)))
        (λ early. return_yields (some workflow) kept)

  pub decide_left_yields :
      (context : RegistryContext) (stored current : Option Workflow)
      → IsLeft context stored current
      → Yields
          (decide keccak_256 verify_signature options answers context current)
          (IsDecided context stored)
  unfolding decide
  decide_left_yields context stored none (dropped h) = return_yields issue h
  decide_left_yields context stored current kept = decide_yields context current
