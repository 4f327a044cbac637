-- ===== src/Risk/Worker/Stored.antt =====
-- What a pass of packages/services/src/risk-worker.ts does with the stored workflow (tick, from
-- getRiskWorkflow to the check of context.authorized).
use aurka.Prelude.{
  ℕ, ◌+◌, Bool, true, false, ◌||◌, not, List, [], ◌∷◌, Option, none, some, ltb, leb, if◌then◌else◌,
}
use aurka.Prelude.Text.{Text, text_eq}
use aurka.Price.{same_text}
use aurka.Risk.{
  CertificateStatus, signed, submitted, active, revoked, expired, failed, RegistryContext,
}
use aurka.Risk.Worker.{
  Workflow, Receipt, Answers, Options, M, ◌>>=◌, ◌>>◌, return_value, answer, save_workflow,
  is_authorised_by, save_row,
}

-- workflow.state is none of FAILED, REVOKED and EXPIRED.
abbrev pub has_not_ended : CertificateStatus → Bool
has_not_ended signed = true
has_not_ended submitted = true
has_not_ended active = true
has_not_ended revoked = false
has_not_ended expired = false
has_not_ended failed = false

-- How a pass goes on after it has looked at the stored workflow.
pub data Decision : Type 0 where
  stop : Decision
  issue : Decision
  submit : Workflow → Decision

-- A hash that is there: the empty string counts as none.
abbrev pub given : Option Text → Option Text
given none = none
given (some []) = none
given (some (c ∷ cs)) = some (c ∷ cs)

-- canonical?.toLowerCase() === receipt.blockHash.toLowerCase()
abbrev pub has_receipt_hash : Option Text → Receipt → Bool
has_receipt_hash none receipt = false
has_receipt_hash (some hash) receipt = same_text hash receipt.block_hash

abbrev pub final_status : Bool → CertificateStatus
final_status true = active
final_status false = failed

module _ (keccak_256 : List ℕ → List ℕ) (verify_signature : Text → Text → Text → Bool)
    (options : Options) (answers : Answers) where
  -- The stored workflow, unless its certificate has expired, which is then recorded.
  unfoldable pub expire_stored : Option Workflow → M (Option Workflow)
  expire_stored none = return_value none
  expire_stored (some workflow) =
      if leb workflow.certificate.expires_at answers.now_at_start
      then (do
        save_row keccak_256 verify_signature options answers workflow.certificate expired false
        save_workflow (record workflow { state = expired })
        return_value none)
      else return_value (some workflow)

  -- The outcome of a submitted transaction is not known: wait for its hash.
  unfoldable pub wait_for : Workflow → M Decision
  wait_for workflow = do
    save_workflow (record workflow { state = submitted })
    save_row keccak_256 verify_signature options answers workflow.certificate submitted false
    return_value stop

  -- The receipt is canonical and final.
  unfoldable pub settle : Workflow → Receipt → M Decision
  settle workflow receipt = do
    save_workflow (record workflow {
      state = final_status receipt.success;
      block_hash = some receipt.block_hash;
    })
    save_row keccak_256 verify_signature options answers workflow.certificate
        (final_status receipt.success) receipt.success
    return_value (
        if not receipt.success
          || ltb (answers.now_at_renewal + options.renewal_lead_seconds)
              workflow.certificate.expires_at
        then stop
        else issue)

  unfoldable pub check_final : Workflow → Receipt → M Decision
  check_final workflow receipt = do
    finalized ← answer answers.finalized_block
    again ← answer answers.canonical_hash_again
    if not (has_receipt_hash again receipt) then return_value stop else (do
      answer answers.still_owned
      if ltb finalized receipt.block_number then return_value stop else settle workflow receipt)

  unfoldable pub check_receipt : Workflow → Option Receipt → M Decision
  check_receipt workflow none = wait_for workflow
  check_receipt workflow (some receipt) = do
    canonical ← answer answers.canonical_hash
    if has_receipt_hash canonical receipt then check_final workflow receipt else wait_for workflow

  -- A live workflow that the context authorises, by its transaction.
  unfoldable pub follow_up : RegistryContext → Workflow → Option Text → M Decision
  follow_up context workflow none =
      if leb workflow.certificate.expires_at answers.now_at_expiry
        || not (text_eq workflow.certificate.nonce context.next_nonce)
      then (do save_workflow (record workflow { state = expired }); return_value issue)
      else return_value (submit workflow)
  follow_up context workflow (some transaction_hash) = do
    receipt ← answer answers.receipt
    check_receipt workflow receipt

  unfoldable pub revoke : Workflow → M Decision
  revoke workflow = do
    save_workflow (record workflow { state = revoked })
    save_row keccak_256 verify_signature options answers workflow.certificate revoked false
    return_value stop

  unfoldable pub decide : RegistryContext → Option Workflow → M Decision
  decide context none = return_value issue
  decide context (some workflow) =
      if not (has_not_ended workflow.state)
      then return_value issue
      else if not (is_authorised_by workflow.certificate context)
      then revoke workflow
      else follow_up context workflow (given workflow.transaction_hash)
