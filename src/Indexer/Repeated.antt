-- ===== src/Indexer/Repeated.antt =====
-- A second run of `sync` of packages/services/src/indexer.ts against the same chain.
use aurka.Prelude.{
  some_injective, ℕ, zero, ◌+◌, ◌-◌, ◌<◌, ◌≡◌, refl, ◌∙◌, ap, sym, subst, inl, inr, Option, none,
  some, Result, ok, err, arith, ltb, length, Bool-cases, Result-cases, ok-injective, lt→ltb, ltb→lt,
}
use aurka.Prelude.Text.{Text, lower_case, text_eq_refl}
use aurka.Financial.Integer.{Num}
use aurka.Indexer.Tables.{Header, Index, set_checkpoint, save_indexed_headers}
use aurka.Indexer.{
  IndexError, checkpoint_unverifiable, ChainLog, ChainLogSource, Target, IndexResult,
  nothing_indexed, to_block, resume, check_checkpoint, advance, gather, store_range, fetch, ingest,
  sort_logs, sync,
}
use aurka.Indexer.Termination.{
  Run, refused, too_short, lost, resumed, rolled_back, sync_terminates, resume_step,
}
use aurka.Indexer.Canonical.Rows.{IsBlock}
use aurka.Indexer.Canonical.Headers.{Collected-covers, Collected-found, find_header-number}
use aurka.Indexer.Canonical.{gather-IsGathered}

-- The same result, with nothing more indexed.
abbrev pub repeated : IndexResult → IndexResult
repeated result = record result { inserted = 0; removed = 0 }

-- The tables that a range leaves are checkpointed at its last header.
advance-checkpoint :
    (header : Header) (step : Index × Result IndexError IndexResult) (index : Index)
    (result : IndexResult)
    → advance (some header) step ≡ (index, ok result)
    → (index.checkpoint ≡ some header) × (result.checkpoint ≡ some header)
unfolding set_checkpoint
advance-checkpoint header (last, err thrown) index result e = ground arith
advance-checkpoint header (last, ok found) index result e = ground arith

check_checkpoint-IsBlock :
    (source : ChainLogSource) (header : Header)
    → IsBlock source.block_hash header.block_number header.block_hash
    → check_checkpoint source (some header) ≡ resume (header.block_number + 1)
unfolding check_checkpoint
check_checkpoint-IsBlock source header (canonical, known, same) =
    rw known (rw same (rw (text_eq_refl (lower_case header.block_hash)) refl))

module _ (payload_of : ChainLog → Result IndexError Text) (source : ChainLogSource)
    (target : Target) (confirmations : Num) where
  -- What a fetch leaves: a checkpoint from which a later fetch has nothing to read.
  abbrev IsCaughtUp : (to : ℕ) → Index → IndexResult → Type 0
  IsCaughtUp to index result =
      (next : ℕ) × (check_checkpoint source index.checkpoint ≡ resume next)
      × (to < next)
      × (result.checkpoint ≡ index.checkpoint)

  fetch-IsCaughtUp :
      (from to : ℕ) (before index : Index) (result : IndexResult)
      → check_checkpoint source before.checkpoint ≡ resume from
      → fetch payload_of source target from to before ≡ (index, ok result)
      → IsCaughtUp to index result
  unfolding fetch store_range
  fetch-IsCaughtUp from to before index result e returned = elim (Bool-cases (ltb to from)) [
    | inl past ↦
        let same : (before, ok (nothing_indexed before.checkpoint)) ≡ (index, ok result) =
          rw (past, fetch) at returned in
        let same_index : before ≡ index = ap (λ p. p.0) same in
        (
          from,
          ap (λ i. check_checkpoint source i.checkpoint) (sym same_index) ∙ e,
          ltb→lt to from past,
          sym (ap (λ r. r.checkpoint) (ok-injective (ap (λ p. p.1) same)))
              ∙ ap (λ i. i.checkpoint) same_index,
        )
    | inr ahead ↦ elim (Result-cases (gather payload_of source target from to)) [
      | inr (thrown, failed) ↦
          let refused_result : ◌≡◌ {A = Result IndexError IndexResult} (err thrown) (ok result) =
            ap (λ p. p.1) (rw (ahead, failed, fetch) at returned) in
          cc
      | inl ((logs, headers), gathered) ↦
          let batch = gather-IsGathered payload_of source target confirmations from to gathered in
          let stored : store_range payload_of to logs headers before ≡ (index, ok result) =
            rw (ahead, gathered, fetch) at returned in
          let counted : length headers ≡ to + 1 - from = batch.counted in
          let (header, found) =
            Collected-covers source.block_hash from headers to batch.collected (ground arith)
              (ground arith) in
          let numbered = find_header-number to headers found in
          let is_block =
            subst (λ n. IsBlock source.block_hash n header.block_hash) (sym numbered)
              (Collected-found source.block_hash from headers to header batch.collected found) in
          let (at_header, returned_header) =
            advance-checkpoint header
              (ingest payload_of (sort_logs logs) (nothing_indexed none)
                (save_indexed_headers headers before))
              index result (rw (found, store_range) at stored) in
          (
            header.block_number + 1,
            ap (check_checkpoint source) at_header
                ∙ check_checkpoint-IsBlock source header is_block,
            omega arith,
            returned_header ∙ sym at_header,
          )
    ]
  ]

  caught_up_again :
      (to : ℕ) (index : Index) (result : IndexResult)
      → to_block confirmations source.latest_block ≡ ok (some to)
      → IsCaughtUp to index result
      → sync payload_of 1 source target confirmations index ≡ some (index, ok (repeated result))
  unfolding fetch
  caught_up_again to index result e (next, resumes, past, same) =
      resume_step payload_of source target confirmations zero index to next e resumes
      ∙ rw (lt→ltb to next past, fetch) (rw same refl)

  Run-again :
      (before index : Index) (result : IndexResult) (r : Index × Result IndexError IndexResult)
      → r ≡ (index, ok result)
      → Run payload_of source target confirmations before r
      → sync payload_of 1 source target confirmations index ≡ some (index, ok (repeated result))
  unfolding sync
  Run-again before index result r is (refused thrown e) =
      let impossible : ◌≡◌ {A = Result IndexError IndexResult} (err thrown) (ok result) =
        ap (λ p. p.1) is in
      cc
  Run-again before index result r is (too_short e) =
      rw (e, sync)
        (ap (λ (c : Option Header). some (index, ok (nothing_indexed c)))
          (ap (λ r. r.checkpoint) (ok-injective (ap (λ p. p.1) is))))
  Run-again before index result r is (lost to e c) =
      let impossible : ◌≡◌ {A = Result IndexError IndexResult} (err checkpoint_unverifiable)
          (ok result) =
        ap (λ p. p.1) is in
      cc
  Run-again before index result r is (resumed to from e c) =
      caught_up_again to index result e (fetch-IsCaughtUp from to before index result c is)
  Run-again before index result r is (rolled_back to below from e c again) =
      caught_up_again to index result e (fetch-IsCaughtUp from to _ index result again is)

  -- A synchronisation that returned, repeated against the same answers, leaves the tables as they
  -- are, indexes nothing and returns the same checkpoint.
  pub sync_again :
      (before index : Index) (result : IndexResult)
      → sync payload_of 2 source target confirmations before ≡ some (index, ok result)
      → sync payload_of 1 source target confirmations index ≡ some (index, ok (repeated result))
  sync_again before index result returned =
      let (r, run, settles) = sync_terminates payload_of source target confirmations before in
      Run-again before index result r (some_injective (sym (settles 0) ∙ returned)) run
