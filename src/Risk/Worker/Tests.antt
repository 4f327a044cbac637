-- ===== src/Risk/Worker/Tests.antt =====
-- Passes of the model of packages/services/src/risk-worker.ts, and its theorem at one of them.
use aurka.Prelude.{◌≡◌, refl, true, [], ◌∷◌, none, some, ok, err}
use aurka.Prelude.Text.{codes, text_eq, lower_case}
use aurka.Price.{is_hex_of}
use aurka.Financial.Integer.{to_uint256}
use aurka.Slots.{bytes_to_hex, bytes32_slot, uint_slot, address_slot}
use aurka.Watchtower.{risk_mode_rank}
use aurka.Watchtower.Evaluation.Samples.{fallen}
use aurka.Watchtower.Bounds.{expected_maximum}
use aurka.Repository.Jobs.{save_risk_job, find_job, due_attempt, claim_risk_job, ensure_risk_job}
use aurka.Risk.{signed, submitted}
use aurka.Risk.Certificate.{
  find_position, put_certificate, add_audit_event, hard_of, has_token, map_size, is_within,
  check_within, check_order, build_certificate, bound_slots, hash_active_bounds, domain_hash,
  struct_hash, hash_risk_certificate, check_certificate, record_certificate, save_certificate,
}
use aurka.Risk.Certificate.Tests.{
  keccak_256, verify_signature, zero_hash, context, certificate, tables,
}
use aurka.Risk.Worker.{
  Workflow, Receipt, call_failed, Answers, Options, Worker, ◌>>=◌, save_workflow, hand_over,
  save_row, is_authorised_by,
}
use aurka.Risk.Worker.Stored.{expire_stored, check_final, check_receipt, follow_up, decide}
use aurka.Risk.Worker.Pass.{
  save_signed, sign_certificate, issue_certificate, submit_workflow, act, run_pass, tick,
}
use aurka.Risk.Worker.Steps.{Gives}
use aurka.Risk.Worker.Guards.{HasClaimed, IsGuarded, tick-IsGuarded}

abbrev options : Options
options = record {
  position_id = codes "P";
  certificate_lifetime_seconds = 300;
  renewal_lead_seconds = 60;
}

abbrev receipt : Receipt
receipt = record { block_number = 7; block_hash = codes "0xB7"; success = true }

-- Every call answers: the transaction is canonical, but the finalized block is the one before it.
abbrev answers : Answers
answers = record {
  now_at_ensure = 1010;
  now_at_claim = 1010;
  context = ok context;
  now_at_start = 1010;
  receipt = ok (some receipt);
  canonical_hash = ok (some (codes "0xb7"));
  finalized_block = ok 6;
  canonical_hash_again = ok (some (codes "0xb7"));
  still_owned = ok tt;
  now_at_renewal = 1010;
  now_at_expiry = 1010;
  evaluated = ok (record {
    position_id = codes "P";
    chain_id = 1;
    evaluation = fallen;
    bounds_hash = zero_hash;
    source_digest = zero_hash;
    reason_hash = zero_hash;
  });
  valid_until = ok 5000;
  now_at_issue = 1010;
  signing_context = ok context;
  signature = ok (codes "0x1b");
  now_at_save = 1010;
  fingerprint = ok [];
  submission_context = ok context;
  authorization = ok tt;
  sent = ok (some (codes "0xAA"));
  now_at_release = 1010;
}

abbrev workflow : Workflow
workflow = record {
  certificate = certificate;
  state = submitted;
  transaction_hash = some (codes "0xAA");
  block_hash = none;
}

abbrev empty_worker : Worker
empty_worker = record { workflow = none; tables = tables; handed_over = [] }

-- A first pass hands the new certificate over and stores its transaction.
first_run :
    (tick keccak_256 verify_signature options answers empty_worker).0.handed_over ≡ certificate ∷ []
unfolding tick run_pass act issue_certificate sign_certificate submit_workflow decide expire_stored
    save_row save_signed save_workflow hand_over ◌>>=◌ is_authorised_by claim_risk_job
    ensure_risk_job save_certificate check_certificate record_certificate find_position
    put_certificate add_audit_event save_risk_job hard_of has_token map_size is_within check_within
    check_order build_certificate hash_active_bounds bound_slots hash_risk_certificate domain_hash
    struct_hash bytes_to_hex address_slot uint_slot bytes32_slot to_uint256 is_hex_of risk_mode_rank
    expected_maximum lower_case text_eq due_attempt find_job
first_run = refl

abbrev waiting : Worker
waiting = record empty_worker { workflow = some workflow }

-- The transaction is not final yet: the pass leaves the workflow as it is.
waiting_run :
    ((tick keccak_256 verify_signature options answers waiting).0.handed_over ≡ [])
    × ((tick keccak_256 verify_signature options answers waiting).0.workflow ≡ some workflow)
unfolding tick run_pass act decide expire_stored follow_up check_receipt check_final ◌>>=◌
    is_authorised_by claim_risk_job ensure_risk_job find_job due_attempt build_certificate
    lower_case text_eq
waiting_run = (refl, refl)

-- The workflow of a pass that stopped before it recorded a transaction, and a wallet that fails.
abbrev stopped : Worker
stopped = record empty_worker {
  workflow = some (record workflow { state = signed; transaction_hash = none });
}

abbrev failing : Answers
failing = record answers { sent = err call_failed }

-- The stored certificate is handed over again, and the failure is the pass's.
stopped_run :
    ((tick keccak_256 verify_signature options failing stopped).0.handed_over ≡ certificate ∷ [])
    × ((tick keccak_256 verify_signature options failing stopped).1 ≡ err call_failed)
unfolding tick run_pass act submit_workflow decide expire_stored follow_up hand_over ◌>>=◌
    is_authorised_by claim_risk_job ensure_risk_job find_job due_attempt build_certificate
    lower_case text_eq
stopped_run = (refl, refl)

tick-IsGuarded_example :
    Gives stopped
      (λ c.
        HasClaimed keccak_256 verify_signature options failing stopped
        × IsGuarded keccak_256 verify_signature options failing stopped.workflow c)
      (tick keccak_256 verify_signature options failing stopped)
tick-IsGuarded_example = tick-IsGuarded keccak_256 verify_signature options failing stopped
