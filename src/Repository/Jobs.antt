-- ===== src/Repository/Jobs.antt =====
-- packages/services/src/db/repository.ts: the risk jobs. An attempt's number fences off the workers
-- whose claim has been replaced.
pub mod Fencing
use aurka.Prelude.{
  ℕ, ◌+◌, Bool, true, false, ◌&&◌, List, [], ◌∷◌, Option, none, some, leb, ◌==◌, if◌then◌else◌,
}
use aurka.Prelude.Text.{Text, text_eq}

-- The three statuses that the operations below write; a saved job has one of them, too (the only
-- call of saveRiskJob passes QUEUED).
pub data JobStatus : Type 0 where
  queued : JobStatus
  running : JobStatus
  completed : JobStatus

pub record RiskJob : Type 0 where
  pub id : Text
  pub position_id : Text
  pub status : JobStatus
  pub attempt : ℕ
  pub next_run_at : ℕ

abbrev pub is_running : JobStatus → Bool
is_running queued = false
is_running running = true
is_running completed = false

abbrev pub is_claimable : JobStatus → Bool
is_claimable queued = true
is_claimable running = true
is_claimable completed = false

-- The select by the primary key.
unfoldable pub find_job : Text → List RiskJob → Option RiskJob
find_job id [] = none
find_job id (row ∷ rows) = if text_eq row.id id then some row else find_job id rows

-- The update of the rows that a condition selects.
unfoldable pub update_jobs : (RiskJob → Bool) → (RiskJob → RiskJob) → List RiskJob → List RiskJob
update_jobs test change [] = []
update_jobs test change (row ∷ rows) =
    (if test row then change row else row) ∷ update_jobs test change rows

abbrev pub owned_by : Option RiskJob → ℕ → Bool
owned_by none attempt = false
owned_by (some row) attempt = is_running row.status && (row.attempt == attempt)

unfoldable pub owns_risk_job : List RiskJob → (id : Text) → (attempt : ℕ) → Bool
owns_risk_job rows id attempt = owned_by (find_job id rows) attempt

-- The attempt that the select finds due.
unfoldable pub due_attempt : Option RiskJob → (now_seconds : ℕ) → Option ℕ
due_attempt none now_seconds = none
due_attempt (some row) now_seconds =
    if is_claimable row.status && leb row.next_run_at now_seconds then some row.attempt else none

-- The update of a claim that has found an attempt due: the table and the claimed attempt.
abbrev pub claim_due :
    List RiskJob → (id : Text) → (now_seconds : ℕ) → Option ℕ → List RiskJob × Option ℕ
claim_due rows id now_seconds none = (rows, none)
claim_due rows id now_seconds (some attempt) = (
  update_jobs (λ row. text_eq row.id id && (row.attempt == attempt))
      (λ row. record row {
        status = running;
        attempt = attempt + 1;
        next_run_at = now_seconds + 120;
      })
      rows,
  some (attempt + 1),
)

unfoldable pub claim_risk_job :
    List RiskJob → (id : Text) → (now_seconds : ℕ) → List RiskJob × Option ℕ
claim_risk_job rows id now_seconds =
    claim_due rows id now_seconds (due_attempt (find_job id rows) now_seconds)

unfoldable pub release_risk_job :
    List RiskJob → (id : Text) → (attempt next_run_at : ℕ) → List RiskJob
release_risk_job rows id attempt next_run_at =
    update_jobs (λ row. text_eq row.id id && (row.attempt == attempt) && is_running row.status)
      (λ row. record row { status = queued; next_run_at = next_run_at }) rows

-- The insert that does nothing on conflict.
unfoldable pub ensure_risk_job :
    List RiskJob → (id position_id : Text) → (next_run_at : ℕ) → List RiskJob
ensure_risk_job [] id position_id next_run_at =
    record {
      id = id;
      position_id = position_id;
      status = queued;
      attempt = 0;
      next_run_at = next_run_at;
    }
    ∷ []
ensure_risk_job (row ∷ rows) id position_id next_run_at =
    if text_eq row.id id then row ∷ rows else row ∷ ensure_risk_job rows id position_id next_run_at

-- The insert that replaces the row on conflict, its status and its attempt too.
unfoldable pub save_risk_job : RiskJob → List RiskJob → List RiskJob
save_risk_job job [] = job ∷ []
save_risk_job job (row ∷ rows) =
    if text_eq row.id job.id then job ∷ rows else row ∷ save_risk_job job rows

unfoldable pub complete_risk_job : List RiskJob → (id : Text) → (next_run_at : ℕ) → List RiskJob
complete_risk_job rows id next_run_at =
    update_jobs (λ row. text_eq row.id id)
      (λ row. record row { status = completed; next_run_at = next_run_at }) rows

unfoldable pub fail_risk_job : List RiskJob → (id : Text) → (next_run_at : ℕ) → List RiskJob
fail_risk_job rows id next_run_at =
    update_jobs (λ row. text_eq row.id id)
      (λ row. record row { status = queued; next_run_at = next_run_at }) rows
