-- ===== src/Repository/Jobs/Fencing.antt =====
-- The attempts of a job only rise, unless saveRiskJob replaces its row, so that a replaced attempt
-- does not own the job again.
use aurka.Prelude.{
  some_injective, ℕ, ◌+◌, ◌≤◌, ◌<◌, ◌≡◌, refl, sym, ◌∙◌, ap, inl, inr, Bool, true, false, ◌&&◌,
  List, [], ◌∷◌, Option, none, some, arith, ◌==◌, if◌then◌else◌, Bool-cases, Option-cases,
}
use aurka.Prelude.Text.{Text, text_eq, text_eq→eq}
use aurka.Repository.Jobs.{
  RiskJob, running, is_claimable, find_job, update_jobs, owns_risk_job, due_attempt, claim_risk_job,
  release_risk_job, ensure_risk_job, complete_risk_job, fail_risk_job, save_risk_job,
}

-- The job has reached the attempt.
pub record HasReached (rows : List RiskJob) (id : Text) (n : ℕ) : Type 0 where
  pub row : RiskJob
  pub found : find_job id rows ≡ some row
  pub reached : n ≤ row.attempt

module _ (test : RiskJob → Bool) (change : RiskJob → RiskJob) where
  abbrev changed : RiskJob → RiskJob
  changed r = if test r then change r else r

  changed_id : (r : RiskJob) → (change r).id ≡ r.id → (changed r).id ≡ r.id
  changed_id r keeps = elim (Bool-cases (test r)) [
    | inl hit ↦ rw hit keeps
    | inr miss ↦ rw miss refl
  ]

  changed_attempt :
      (r : RiskJob)
      → (test r ≡ true → r.attempt ≤ (change r).attempt)
      → r.attempt ≤ (changed r).attempt
  changed_attempt r rises = elim (Bool-cases (test r)) [
    | inl hit ↦ rw hit (rises hit)
    | inr miss ↦ rw miss (omega arith)
  ]

  find-update :
      (id : Text) (rows : List RiskJob) (row : RiskJob)
      → ((r : RiskJob) → (change r).id ≡ r.id)
      → find_job id rows ≡ some row
      → find_job id (update_jobs test change rows) ≡ some (changed row)
  unfolding find_job update_jobs
  find-update id [] row keeps found = cc
  find-update id (r ∷ rows) row keeps found =
      let same_id : text_eq (changed r).id id ≡ text_eq r.id id =
        ap (λ t. text_eq t id) (changed_id r (keeps r)) in
      elim (Bool-cases (text_eq r.id id)) [
        | inl same ↦
            rw (same_id, same) (ap (λ x. some (changed x)) (some_injective (rw same at found)))
        | inr other ↦ rw (same_id, other) (find-update id rows row keeps (rw other at found))
      ]

  -- An update that raises no row's attempt below what it was keeps what has been reached.
  update-HasReached :
      (id : Text) (n : ℕ) (rows : List RiskJob)
      → ((r : RiskJob) → (change r).id ≡ r.id)
      → ((r : RiskJob) → test r ≡ true → r.attempt ≤ (change r).attempt)
      → HasReached rows id n
      → HasReached (update_jobs test change rows) id n
  update-HasReached id n rows keeps rises h = record {
    row = changed h.row;
    found = find-update id rows h.row keeps h.found;
    reached = omega (arith, h.reached, changed_attempt h.row (rises h.row));
  }

find_id :
    (id : Text) (rows : List RiskJob) (row : RiskJob)
    → find_job id rows ≡ some row
    → text_eq row.id id ≡ true
unfolding find_job
find_id id [] row found = cc
find_id id (r ∷ rows) row found = elim (Bool-cases (text_eq r.id id)) [
  | inl same ↦ ap (λ x. text_eq x.id id) (sym (some_injective (rw same at found))) ∙ same
  | inr other ↦ find_id id rows row (rw other at found)
]

due-inv :
    (o : Option RiskJob) (now_seconds attempt : ℕ)
    → due_attempt o now_seconds ≡ some attempt
    → (row : RiskJob) × (o ≡ some row)
      × (row.attempt ≡ attempt)
      × (is_claimable row.status ≡ true)
      × (row.next_run_at ≤ now_seconds)
unfolding due_attempt
due-inv none now_seconds attempt e = cc
due-inv (some row) now_seconds attempt e = (row, refl, ground arith, ground arith, ground arith)

module _ (rows : List RiskJob) (id : Text) (now_seconds : ℕ) where
  abbrev claimed_row : ℕ → RiskJob → RiskJob
  claimed_row attempt row = record row {
    status = running;
    attempt = attempt + 1;
    next_run_at = now_seconds + 120;
  }

  claim-eq-some :
      (n : ℕ) {after : List RiskJob}
      → claim_risk_job rows id now_seconds ≡ (after, some n)
      → (attempt : ℕ) × (due_attempt (find_job id rows) now_seconds ≡ some attempt)
        × (n ≡ attempt + 1)
        × (after
            ≡ update_jobs
                (λ row. text_eq row.id id && (row.attempt == attempt))
                (claimed_row attempt)
                rows)
  unfolding claim_risk_job
  claim-eq-some n {after} e = elim (Option-cases (due_attempt (find_job id rows) now_seconds)) [
    | inl idle ↦ (let refused = ap (λ p. p.1) (rw idle at e) in cc)
    | inr (attempt, due) ↦
        let claimed = rw due at e in
        (attempt, due, some_injective (sym (ap (λ p. p.1) claimed)), sym (ap (λ p. p.0) claimed))
  ]

  -- A claim, of this job or of another, keeps what has been reached.
  claim-HasReached :
      (other : Text) (n : ℕ)
      → HasReached rows other n
      → HasReached (claim_risk_job rows id now_seconds).0 other n
  unfolding claim_risk_job
  claim-HasReached other n h = elim (Option-cases (due_attempt (find_job id rows) now_seconds)) [
    | inl idle ↦ rw idle h
    | inr (attempt, due) ↦ rw due (
        update-HasReached (λ row. text_eq row.id id && (row.attempt == attempt))
          (claimed_row attempt) other n rows (λ r. refl) (λ r hit. ground (arith, hit)) h)
  ]

  -- The claimed attempt is reached, and owns the job.
  claim_owns :
      (n : ℕ) {after : List RiskJob}
      → claim_risk_job rows id now_seconds ≡ (after, some n)
      → HasReached after id n × (owns_risk_job after id n ≡ true)
  unfolding owns_risk_job
  claim_owns n {after} e =
      let (attempt, due, is_next, is_after) = claim-eq-some n e in
      let (row, found, is_attempt, _, _) = due-inv (find_job id rows) now_seconds attempt due in
      let test = λ (r : RiskJob). text_eq r.id id && (r.attempt == attempt) in
      let hit : test row ≡ true = ground (arith, find_id id rows row found) in
      let found_after : find_job id after ≡ some (claimed_row attempt row) =
        ap (find_job id) is_after
        ∙ find-update test (claimed_row attempt) id rows row (λ r. refl) found
        ∙ ap (λ c. some (if c then claimed_row attempt row else row)) hit in
      (
        record { row = claimed_row attempt row; found = found_after; reached = omega arith },
        rw found_after (ground arith),
      )

next_above :
    (rows : List RiskJob) (id : Text) (now_seconds n next : ℕ) {next_rows : List RiskJob}
    → HasReached rows id n
    → claim_risk_job rows id now_seconds ≡ (next_rows, some next)
    → n < next
next_above rows id now_seconds n next h e =
    let (attempt, due, is_next, _) = claim-eq-some rows id now_seconds next e in
    let (row, found, is_attempt, _, _) = due-inv (find_job id rows) now_seconds attempt due in
    let same : row ≡ h.row = some_injective (sym found ∙ h.found) in
    let same_attempt : row.attempt ≡ h.row.attempt = ap (λ r. r.attempt) same in
    omega (arith, h.reached)

-- One operation on the table, of any worker and any job.
pub data JobStep : List RiskJob → List RiskJob → Type 0 where
  claimed :
      (rows : List RiskJob) (id : Text) (now_seconds : ℕ)
      → JobStep rows (claim_risk_job rows id now_seconds).0
  released :
      (rows : List RiskJob) (id : Text) (attempt next_run_at : ℕ)
      → JobStep rows (release_risk_job rows id attempt next_run_at)
  ensured :
      (rows : List RiskJob) (id position_id : Text) (next_run_at : ℕ)
      → JobStep rows (ensure_risk_job rows id position_id next_run_at)
  finished :
      (rows : List RiskJob) (id : Text) (next_run_at : ℕ)
      → JobStep rows (complete_risk_job rows id next_run_at)
  failed :
      (rows : List RiskJob) (id : Text) (next_run_at : ℕ)
      → JobStep rows (fail_risk_job rows id next_run_at)
  saved : (rows : List RiskJob) (job : RiskJob) → JobStep rows (save_risk_job job rows)

pub data JobSteps : List RiskJob → List RiskJob → Type 0 where
  none_yet : (rows : List RiskJob) → JobSteps rows rows
  and_then : (a b c : List RiskJob) → JobSteps a b → JobStep b c → JobSteps a c

ensure-find :
    (rows : List RiskJob) (id position_id : Text) (next_run_at : ℕ) (other : Text) (n : ℕ)
    (row : RiskJob)
    → find_job other rows ≡ some row
    → find_job other (ensure_risk_job rows id position_id next_run_at) ≡ some row
unfolding find_job ensure_risk_job
ensure-find [] id position_id next_run_at other n row found = cc
ensure-find (r ∷ rows) id position_id next_run_at other n row found =
    elim (Bool-cases (text_eq r.id id)) [
      | inl present ↦ rw present found
      | inr absent ↦ rw absent (elim (Bool-cases (text_eq r.id other)) [
        | inl same ↦ rw same (rw same at found)
        | inr differs ↦
            rw differs
              (ensure-find rows id position_id next_run_at other n row (rw differs at found))
      ])
    ]

-- A save of another job.
save-find :
    (rows : List RiskJob) (job : RiskJob) (id : Text) (row : RiskJob)
    → text_eq job.id id ≡ false
    → find_job id rows ≡ some row
    → find_job id (save_risk_job job rows) ≡ some row
unfolding find_job save_risk_job
save-find [] job id row other found = cc
save-find (r ∷ rows) job id row other found = elim (Bool-cases (text_eq r.id job.id)) [
  | inl replaced ↦
      let elsewhere : text_eq r.id id ≡ false =
        ap (λ t. text_eq t id) (text_eq→eq r.id job.id replaced) ∙ other in
      rw (replaced, other) (rw elsewhere at found)
  | inr kept ↦ rw kept (elim (Bool-cases (text_eq r.id id)) [
    | inl here ↦ rw here (rw here at found)
    | inr there ↦ rw there (save-find rows job id row other (rw there at found))
  ])
]

-- The operation is not a saveRiskJob of the job.
abbrev pub NeverSaves : Text → {a b : List RiskJob} → JobStep a b → Type 0
NeverSaves id (claimed rows other now_seconds) = Unit {0}
NeverSaves id (released rows other attempt next_run_at) = Unit {0}
NeverSaves id (ensured rows other position_id next_run_at) = Unit {0}
NeverSaves id (finished rows other next_run_at) = Unit {0}
NeverSaves id (failed rows other next_run_at) = Unit {0}
NeverSaves id (saved rows job) = text_eq job.id id ≡ false

-- No operation of the history is one.
abbrev pub NoneSaves : Text → {a b : List RiskJob} → JobSteps a b → Type 0
NoneSaves id (none_yet rows) = Unit {0}
NoneSaves id (and_then a b c before step) = NoneSaves id before × NeverSaves id step

step-HasReached :
    (id : Text) (n : ℕ) {a b : List RiskJob} (step : JobStep a b)
    → NeverSaves id step
    → HasReached a id n
    → HasReached b id n
unfolding release_risk_job complete_risk_job fail_risk_job
step-HasReached id n (claimed a other now_seconds) spared h =
    claim-HasReached a other now_seconds id n h
step-HasReached id n (released a other attempt next_run_at) spared h =
    update-HasReached _ _ id n a (λ r. refl) (λ r hit. omega arith) h
step-HasReached id n (ensured a other position_id next_run_at) spared h = record {
  row = h.row;
  found = ensure-find a other position_id next_run_at id n h.row h.found;
  reached = h.reached;
}
step-HasReached id n (finished a other next_run_at) spared h =
    update-HasReached _ _ id n a (λ r. refl) (λ r hit. omega arith) h
step-HasReached id n (failed a other next_run_at) spared h =
    update-HasReached _ _ id n a (λ r. refl) (λ r hit. omega arith) h
step-HasReached id n (saved a job) spared h = record {
  row = h.row;
  found = save-find a job id h.row spared h.found;
  reached = h.reached;
}

steps-HasReached :
    (id : Text) (n : ℕ) {a b : List RiskJob} (steps : JobSteps a b)
    → NoneSaves id steps
    → HasReached a id n
    → HasReached b id n
steps-HasReached id n (none_yet a) spared h = h
steps-HasReached id n (and_then a b c before step) (earlier, last) h =
    step-HasReached id n step last (steps-HasReached id n before earlier h)

reached-disowns :
    (rows : List RiskJob) (id : Text) (n m : ℕ)
    → HasReached rows id n
    → m < n
    → owns_risk_job rows id m ≡ false
unfolding owns_risk_job
reached-disowns rows id n m h below = rw h.found (ground (arith, h.reached))

-- A claimed attempt owns its job. From then on, whatever operations follow on the table, saves of
-- other jobs among them, as long as none is a saveRiskJob of this job, no earlier attempt owns it, and
-- every later claim of the job has a greater attempt.
pub claim_fences :
    (rows claimed_rows after : List RiskJob) (id : Text) (now_seconds n earlier : ℕ)
    → claim_risk_job rows id now_seconds ≡ (claimed_rows, some n)
    → (steps : JobSteps claimed_rows after) → NoneSaves id steps
    → earlier < n
    → (owns_risk_job claimed_rows id n ≡ true)
      × (owns_risk_job after id earlier ≡ false)
      × ((later_now next : ℕ) (next_rows : List RiskJob)
          → claim_risk_job after id later_now ≡ (next_rows, some next)
          → n < next)
claim_fences rows claimed_rows after id now_seconds n earlier e steps spared below =
    let (reached, owns) = claim_owns rows id now_seconds n e in
    let still = steps-HasReached id n steps spared reached in
    (
      owns,
      reached-disowns after id n earlier still below,
      λ later_now next next_rows again. next_above after id later_now n next still again,
    )
