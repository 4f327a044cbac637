-- ===== src/Repository/Tests.antt =====
-- Runs of the model of packages/services/src/db/repository.ts, and its theorems at those inputs.
use aurka.Prelude.{ℕ, ◌<◌, ◌≡◌, refl, inr, true, false, List, [], ◌∷◌, some, ok, err, arith, All}
use aurka.Prelude.Text.{codes, text_eq}
use aurka.Repository.Leases.{
  Lease, find_lease, put_lease, is_held, claim_delegated_worker_lease,
  release_delegated_worker_lease,
}
use aurka.Repository.Leases.Exclusion.{
  Holds, OtherSteps, none_yet, and_then, other_claim, other_release, claim_excludes,
}
use aurka.Repository.Jobs.{
  RiskJob, queued, running, find_job, update_jobs, owns_risk_job, due_attempt, claim_risk_job,
  ensure_risk_job, save_risk_job,
}
use aurka.Repository.Jobs.Fencing
use aurka.Repository.Trades.{
  active, reserved, signing, submitted, DelegatedSession, DelegatedTrade, TradeTables,
  budget_exhausted, find_session, find_trade, find_existing, update_session, set_status,
  reserve_new, reserve_delegated_trade, claim_delegated_trade_for_signing, release_delegated_trade,
  update_delegated_trade,
}
use aurka.Repository.Trades.Budget
use aurka.Repository.Trades.Signing.{reserve_again, claim_once}

abbrev held : List Lease
held =
    record { session_id = codes "s"; lease_id = codes "a"; expires_at = 280; updated_at = 100 } ∷ []

lease_run : claim_delegated_worker_lease [] (codes "s") (codes "a") 280 100 ≡ (held, true)
unfolding claim_delegated_worker_lease find_lease put_lease is_held
lease_run = refl

-- Another worker tries to claim, and then to release.
abbrev interference : OtherSteps (codes "s") (codes "a") 280 held held
unfolding claim_delegated_worker_lease release_delegated_worker_lease find_lease is_held text_eq
interference =
    and_then held held held
      (and_then held held held (none_yet held)
        (other_claim held (codes "s") (codes "b") 400 200 (inr (refl, refl, omega arith))))
      (other_release held (codes "s") (codes "b") (inr refl))

claim_excludes_example :
    Holds held (codes "s") (codes "a") 280
    × (claim_delegated_worker_lease held (codes "s") (codes "b") 450 250 ≡ (held, false))
unfolding text_eq
claim_excludes_example =
    claim_excludes [] held held (codes "s") (codes "a") (codes "b") 280 100 250 450 lease_run
      interference refl (omega arith)

abbrev claimed_jobs : List RiskJob
claimed_jobs =
    record {
      id = codes "worker:p";
      position_id = codes "p";
      status = running;
      attempt = 1;
      next_run_at = 220;
    }
    ∷ []

abbrev jobs : List RiskJob
unfolding ensure_risk_job
jobs = ensure_risk_job [] (codes "worker:p") (codes "p") 100

job_run : claim_risk_job jobs (codes "worker:p") 100 ≡ (claimed_jobs, some 1)
unfolding claim_risk_job ensure_risk_job find_job due_attempt update_jobs text_eq
job_run = refl

abbrev renewal : RiskJob
renewal = record {
  id = codes "renew:p:7";
  position_id = codes "p";
  status = queued;
  attempt = 0;
  next_run_at = 240;
}

abbrev with_renewal : List RiskJob
unfolding save_risk_job text_eq
with_renewal = save_risk_job renewal claimed_jobs

-- A certificate is saved, the lease of the first attempt runs out, and a second attempt takes the job.
abbrev taken_over :
    Fencing.JobSteps claimed_jobs (claim_risk_job with_renewal (codes "worker:p") 220).0
unfolding save_risk_job text_eq
taken_over =
    Fencing.and_then claimed_jobs with_renewal _
      (Fencing.and_then claimed_jobs claimed_jobs with_renewal (Fencing.none_yet claimed_jobs)
        (Fencing.saved claimed_jobs renewal))
      (Fencing.claimed with_renewal (codes "worker:p") 220)

claim_fences_example :
    (owns_risk_job claimed_jobs (codes "worker:p") 1 ≡ true)
    × (owns_risk_job (claim_risk_job with_renewal (codes "worker:p") 220).0 (codes "worker:p") 0
        ≡ false)
    × ((later_now next : ℕ) (next_rows : List RiskJob)
        → claim_risk_job
            (claim_risk_job with_renewal (codes "worker:p") 220).0
            (codes "worker:p")
            later_now
          ≡ (next_rows, some next)
        → 1 < next)
unfolding text_eq taken_over
claim_fences_example =
    Fencing.claim_fences jobs claimed_jobs _ (codes "worker:p") 100 1 0 job_run taken_over
      ((tt, refl), tt) (omega arith)

-- A save of the job itself starts its attempts again.
restart_run :
    (claim_risk_job
      (save_risk_job (record renewal { id = codes "worker:p" }) claimed_jobs)
      (codes "worker:p")
      240).1
    ≡ some 1
unfolding save_risk_job claim_risk_job find_job due_attempt update_jobs text_eq
restart_run = refl

abbrev session : DelegatedSession
session = record {
  id = codes "s";
  state = active;
  expires_at = 1000;
  cumulative_input_budget = 100;
  max_trade_count = 3;
  consumed_input_amount = 0;
  trade_count = 0;
}

abbrev request : DelegatedTrade
request = record {
  id = codes "t";
  session_id = codes "s";
  intent_hash = codes "i";
  proposal_hash = codes "p";
  input_amount = 60;
  status = reserved;
  idempotency_key = codes "k";
}

abbrev start : TradeTables
start = record { sessions = session ∷ []; trades = [] }

abbrev after_reserve : TradeTables
after_reserve = record {
  sessions = record session { consumed_input_amount = 60; trade_count = 1 } ∷ [];
  trades = request ∷ [];
}

reserve_run : reserve_delegated_trade start 500 request ≡ ok (after_reserve, request)
unfolding reserve_delegated_trade find_existing reserve_new find_session update_session text_eq
reserve_run = refl

-- A second trade of the same amount does not fit.
over_budget_run :
    reserve_delegated_trade after_reserve 500
      (record request { id = codes "u"; idempotency_key = codes "l" })
    ≡ err budget_exhausted
unfolding reserve_delegated_trade find_existing reserve_new find_session update_session text_eq
over_budget_run = refl

-- A release gives the budget back.
release_run : (release_delegated_trade after_reserve (codes "t")).sessions ≡ session ∷ []
unfolding release_delegated_trade find_trade find_session update_session set_status text_eq
release_run = refl

reserve_again_example :
    reserve_delegated_trade after_reserve 501 request ≡ ok (after_reserve, request)
reserve_again_example = reserve_again start 500 501 request reserve_run

abbrev after_claim : TradeTables
after_claim = record after_reserve { trades = record request { status = signing } ∷ [] }

signing_run : claim_delegated_trade_for_signing after_reserve (codes "t") ≡ (after_claim, true)
unfolding claim_delegated_trade_for_signing find_trade set_status text_eq
signing_run = refl

abbrev after_submit : TradeTables
after_submit = record after_reserve { trades = record request { status = submitted } ∷ [] }

submit_run : update_delegated_trade after_claim (codes "t") submitted ≡ ok after_submit
unfolding update_delegated_trade find_trade set_status text_eq
submit_run = refl

claim_once_example :
    claim_delegated_trade_for_signing after_submit (codes "t") ≡ (after_submit, false)
claim_once_example =
    claim_once after_reserve after_claim after_submit (codes "t") signing_run
      (Budget.and_then after_claim after_claim after_submit (Budget.none_yet after_claim)
        (Budget.updating after_claim (codes "t") submitted after_submit submit_run))
      (tt, refl)

set_back_run : update_delegated_trade after_claim (codes "t") reserved ≡ ok after_reserve
unfolding update_delegated_trade find_trade set_status text_eq
set_back_run = refl

-- A reservation, a claim for signing, and an update that sets the trade back.
abbrev set_back : Budget.TradeSteps start after_reserve
unfolding claim_delegated_trade_for_signing find_trade set_status text_eq
set_back =
    Budget.and_then start after_claim after_reserve
      (Budget.and_then start after_reserve after_claim
        (Budget.and_then start start after_reserve (Budget.none_yet start)
          (Budget.reserving start 500 request after_reserve request reserve_run))
        (Budget.claiming after_reserve (codes "t")))
      (Budget.updating after_claim (codes "t") reserved after_reserve set_back_run)

history-IsWithinPlan_example : All Budget.IsWithinPlan after_reserve.sessions
history-IsWithinPlan_example =
    Budget.history-IsWithinPlan start after_reserve set_back
      (record { budget = omega arith; count = omega arith }, tt)
