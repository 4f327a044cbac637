-- ===== src/Indexer/Termination.antt =====
-- How often `sync` of packages/services/src/indexer.ts calls itself, and a repeated run.
use aurka.Prelude.{
  ℕ, zero, suc, ◌+◌, ◌≡◌, refl, ◌∙◌, ap, ◌⊎◌, inl, inr, Option, none, some, Result, ok, err,
  Bool-cases, Option-cases, Result-cases,
}
use aurka.Prelude.Text.{Text, lower_case, text_eq_refl}
use aurka.Price.{same_text}
use aurka.Financial.Integer.{Num}
use aurka.Indexer.Tables.{Header, Index, rollback_to_block}
use aurka.Indexer.{
  IndexError, checkpoint_unverifiable, ChainLog, ChainLogSource, Target, IndexResult,
  nothing_indexed, common_header, or_else, find_ancestor, CheckpointState, unverifiable, orphaned,
  resume, check_checkpoint, to_block, fetch, sync,
}

-- The ancestor that the walk finds carries the hash that the node has for its block.
IsAnswered : ChainLogSource → Option Header → Type 0
IsAnswered source none = Unit
IsAnswered source (some header) = source.block_hash header.block_number ≡ some header.block_hash

common_header-IsAnswered :
    (source : ChainLogSource) (stored : Option Header) (hash : Option Text) (candidate : ℕ)
    → source.block_hash candidate ≡ hash
    → IsAnswered source (common_header stored hash candidate)
unfolding IsAnswered common_header
common_header-IsAnswered source none hash candidate e = tt
common_header-IsAnswered source (some stored) none candidate e = tt
common_header-IsAnswered source (some stored) (some hash) candidate e =
    elim (Bool-cases (same_text hash stored.block_hash)) [
      | inl same ↦ rw same e
      | inr other ↦ rw other tt
    ]

or_else-IsAnswered :
    (source : ChainLogSource) (a b : Option Header)
    → IsAnswered source a
    → IsAnswered source b
    → IsAnswered source (or_else a b)
or_else-IsAnswered source none b h k = k
or_else-IsAnswered source (some a) b h k = h

find_ancestor-IsAnswered :
    (source : ChainLogSource) (index : Index) (below : ℕ)
    → IsAnswered source (find_ancestor source index below)
unfolding IsAnswered find_ancestor
find_ancestor-IsAnswered source index zero = tt
find_ancestor-IsAnswered source index (suc candidate) =
    or_else-IsAnswered source _ _ (common_header-IsAnswered source _ _ candidate refl)
      (find_ancestor-IsAnswered source index candidate)

-- After a rollback the checkpoint verifies.
rollback_resumes :
    (source : ChainLogSource) (index : Index) (ancestor : Option Header)
    → IsAnswered source ancestor
    → (from : ℕ) × (check_checkpoint source (rollback_to_block ancestor index).checkpoint
        ≡ resume from)
unfolding IsAnswered rollback_to_block check_checkpoint
rollback_resumes source index none h = (0, refl)
rollback_resumes source index (some header) h =
    (header.block_number + 1, rw h (rw (text_eq_refl (lower_case header.block_hash)) refl))

CheckpointState-cases :
    (s : CheckpointState)
    → (s ≡ unverifiable) ⊎ ((n : ℕ) × (s ≡ resume n)) ⊎ ((n : ℕ) × (s ≡ orphaned n))
CheckpointState-cases unverifiable = inl refl
CheckpointState-cases (resume n) = inr (inl (n, refl))
CheckpointState-cases (orphaned n) = inr (inr (n, refl))

module _ (payload_of : ChainLog → Result IndexError Text) (source : ChainLogSource)
    (target : Target) (confirmations : Num) where
  -- The five ways in which a synchronisation ends, by its tests.
  pub data Run (index : Index) : Index × Result IndexError IndexResult → Type 0 where
    refused :
        (thrown : IndexError)
        → to_block confirmations source.latest_block ≡ err thrown
        → Run index (index, err thrown)
    too_short :
        to_block confirmations source.latest_block ≡ ok none
        → Run index (index, ok (nothing_indexed none))
    lost :
        (to : ℕ)
        → to_block confirmations source.latest_block ≡ ok (some to)
        → check_checkpoint source index.checkpoint ≡ unverifiable
        → Run index (index, err checkpoint_unverifiable)
    resumed :
        (to from : ℕ)
        → to_block confirmations source.latest_block ≡ ok (some to)
        → check_checkpoint source index.checkpoint ≡ resume from
        → Run index (fetch payload_of source target from to index)
    rolled_back :
        (to below from : ℕ)
        → to_block confirmations source.latest_block ≡ ok (some to)
        → check_checkpoint source index.checkpoint ≡ orphaned below
        → check_checkpoint source
            (rollback_to_block (find_ancestor source index below) index).checkpoint
          ≡ resume from
        → Run index (
            fetch payload_of source target from to
              (rollback_to_block (find_ancestor source index below) index))

  pub resume_step :
      (fuel : ℕ) (index : Index) (to from : ℕ)
      → to_block confirmations source.latest_block ≡ ok (some to)
      → check_checkpoint source index.checkpoint ≡ resume from
      → sync payload_of (suc fuel) source target confirmations index
        ≡ some (fetch payload_of source target from to index)
  unfolding sync
  resume_step fuel index to from e c = rw (e, c, sync)

  rollback_step :
      (fuel : ℕ) (index : Index) (to below : ℕ)
      → to_block confirmations source.latest_block ≡ ok (some to)
      → check_checkpoint source index.checkpoint ≡ orphaned below
      → sync payload_of (suc fuel) source target confirmations index
        ≡ sync payload_of fuel source target confirmations
            (rollback_to_block (find_ancestor source index below) index)
  unfolding sync
  rollback_step fuel index to below e c = rw (e, c, sync)

  sync_checked :
      (index : Index) (to : ℕ)
      → to_block confirmations source.latest_block ≡ ok (some to)
      → (r : Index × Result IndexError IndexResult) × Run index r
        × ((fuel : ℕ) → sync payload_of (suc (suc fuel)) source target confirmations index ≡ some r)
  unfolding sync
  sync_checked index to e =
      elim (CheckpointState-cases (check_checkpoint source index.checkpoint)) [
        | inl c ↦ (_, lost to e c, λ fuel. rw (e, c, sync))
        | inr (inl (from, c)) ↦
            (_, resumed to from e c, λ fuel. resume_step (suc fuel) index to from e c)
        | inr (inr (below, c)) ↦
            let (from, again) =
              rollback_resumes source index (find_ancestor source index below)
                (find_ancestor-IsAnswered source index below) in
            (
              _,
              rolled_back to below from e c again,
              λ fuel.
                  rollback_step (suc fuel) index to below e c ∙ resume_step fuel _ to from e again,
            )
      ]

  -- While the node's answers do not change, a synchronisation calls itself at most once: with fuel
  -- for two rounds it returns or throws, more fuel changes nothing, and it ends in one of the five
  -- ways of Run.
  pub sync_terminates :
      (index : Index)
      → (r : Index × Result IndexError IndexResult) × Run index r
        × ((fuel : ℕ) → sync payload_of (suc (suc fuel)) source target confirmations index ≡ some r)
  unfolding sync
  sync_terminates index = elim (Result-cases (to_block confirmations source.latest_block)) [
    | inr (thrown, e) ↦ (_, refused thrown e, λ fuel. rw (e, sync))
    | inl (to, e) ↦ elim (Option-cases to) [
      | inl n ↦ (_, too_short (e ∙ ap ok n), λ fuel. rw (e, n, sync))
      | inr (block, s) ↦ sync_checked index block (e ∙ ap ok s)
    ]
  ]
