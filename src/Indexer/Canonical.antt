-- ===== src/Indexer/Canonical.antt =====
-- What the tables of packages/services/src/indexer.ts hold after a synchronisation, by the chain.
pub mod Rows
pub mod Rollback
pub mod Headers
pub mod Ingested
use aurka.Prelude.{
  some_injective, ℕ, zero, suc, ◌+◌, ◌-◌, ◌≤◌, ◌<◌, ◌≡◌, refl, ◌∙◌, ap, sym, subst, ◌⊎◌, inl, inr,
  Bool, true, false, Option, none, some, List, [], ◌∷◌, Result, ok, err, arith, ltb, leb, ◌==◌,
  Bool-cases, Option-cases, Result-cases, >>=-eq-ok, ok-injective, All, length, le→leb, ltb→lt,
  leb→le, ==_iff,
}
use aurka.Prelude.Text.{Text, text_eq, lower_case, text_eq→eq, text_eq_refl}
use aurka.Price.{same_text}
use aurka.Financial.Integer.{Num}
use aurka.Indexer.Tables.{
  Header, EventRow, Index, find_header, headers_up_to, events_up_to, rollback_to_block,
  get_indexed_header, set_checkpoint, save_indexed_headers,
}
use aurka.Indexer.{
  IndexError, ChainLog, ChainLogSource, Target, IndexResult, nothing_indexed, to_block, advance,
  gather, store_range, fetch, sync, collect_headers, validate_logs, sort_logs, ingest,
  checkpoint_unverifiable, common_header, or_else, find_ancestor, resume, orphaned,
  compare_checkpoint, check_checkpoint,
}
use aurka.Indexer.Termination.{Run, refused, too_short, lost, resumed, rolled_back, sync_terminates}
use Headers.{
  Collected, collect_headers-Collected, Collected-covers, Collected-found, Collected-HeadersOn,
  find_header-number,
}
use Ingested.{LogOn, validate_logs-LogOn, sort_logs-LogOn, ingest-On}
use Rows.{
  Chain, IsBlock, IsOn, Linked, find_header-headers_up_to, events_up_to-On, EventsOn, HeadersOn,
  IsOnAt, Meet, EventsOn-move, transfer, meet,
}
use Rollback.{adopt_at, resume-IsBlock, orphaned-number, rollback-adopted}

module _ (payload_of : ChainLog → Result IndexError Text) (source : ChainLogSource)
    (target : Target) (confirmations : Num) where
  store_range-IsOn :
      (from to : ℕ) (logs : List ChainLog) (headers : List Header) (index : Index)
      → Collected source.block_hash from headers
      → from + length headers ≡ to + 1
      → from ≤ to
      → All (LogOn payload_of source.block_hash to) logs
      → HeadersOn source.block_hash from index.headers
      → EventsOn source.block_hash to index.events
      → IsOn source.block_hash (store_range payload_of to logs headers index).0
  unfolding store_range save_indexed_headers set_checkpoint
  store_range-IsOn from to logs headers index collected counted below all headers_on events_on =
      let sorted = sort_logs-LogOn payload_of source.block_hash to logs all in
      let (last, result, e, events, same) =
        ingest-On payload_of source.block_hash to (sort_logs logs) (nothing_indexed none)
          (save_indexed_headers headers index) sorted events_on in
      let (header, found) =
        Collected-covers source.block_hash from headers to collected below (omega arith) in
      let numbered = find_header-number to headers found in
      let saved =
        Collected-HeadersOn source.block_hash from headers index.headers collected headers_on in
      rw (found, e, store_range)
        (
          subst (λ n. IsBlock source.block_hash n header.block_hash) (sym numbered)
              (Collected-found source.block_hash from headers to header collected found),
          subst (λ n. HeadersOn source.block_hash n last.headers) (omega arith)
              (subst (λ rows. HeadersOn source.block_hash (from + length headers) rows) (sym same)
                saved),
          subst (λ n. EventsOn source.block_hash n last.events) (sym numbered) events,
        )

  removed-EventsOn :
      (chain : Chain) (top : ℕ) (rows : List EventRow)
      → All (λ row. row.removed ≡ true) rows
      → EventsOn chain top rows
  removed-EventsOn chain top [] all = tt
  removed-EventsOn chain top (row ∷ rows) all = (λ live. cc, removed-EventsOn chain top rows all.1)

  raise-EventsOn :
      (chain : Chain) (low top : ℕ) (rows : List EventRow)
      → low ≤ top
      → EventsOn chain low rows
      → EventsOn chain top rows
  raise-EventsOn chain low top [] below on = tt
  raise-EventsOn chain low top (row ∷ rows) below on = (
    λ live. ((on.0 live).0, omega (arith, (on.0 live).1)),
    raise-EventsOn chain low top rows below on.1,
  )

  -- The rows that a fetch from the next block on starts with.
  next_rows :
      (from to : ℕ) (index : Index) (checkpoint : Option Header)
      → check_checkpoint source checkpoint ≡ resume from
      → IsOnAt source.block_hash checkpoint index
      → from ≤ to
      → HeadersOn source.block_hash from index.headers × EventsOn source.block_hash to index.events
  unfolding check_checkpoint
  next_rows from to index none e on below =
      let start : from ≡ 0 = ground arith in
      (
        λ block header found low. absurd (omega arith),
        removed-EventsOn source.block_hash to index.events on,
      )
  next_rows from to index (some checkpoint) e (is_block, headers, events) below =
      let (_, next) = resume-IsBlock source checkpoint _ from refl e in
      (
        subst (λ n. HeadersOn source.block_hash n index.headers) (omega arith) headers,
        raise-EventsOn source.block_hash checkpoint.block_number to index.events (omega arith)
            events,
      )

  -- What a fetch has read and checked.
  pub record IsGathered (from to : ℕ) (batch : List ChainLog × List Header) : Type 0 where
    pub collected : Collected source.block_hash from batch.1
    pub counted : length batch.1 ≡ to + 1 - from
    pub logs_on : All (LogOn payload_of source.block_hash to) batch.0

  pub gather-IsGathered :
      (from to : ℕ) {batch : List ChainLog × List Header}
      → gather payload_of source target from to ≡ ok batch
      → IsGathered from to batch
  unfolding gather
  gather-IsGathered from to e =
      let (logs, _, e1) = >>=-eq-ok (source.logs from to) _ e in
      let (headers, collect, e2) = >>=-eq-ok (collect_headers source (to + 1 - from) from) _ e1 in
      let (_, valid, e3) = >>=-eq-ok (validate_logs payload_of target from to headers logs) _ e2 in
      let (collected, counted) =
        collect_headers-Collected source (to + 1 - from) from headers collect in
      subst (IsGathered from to) (ok-injective e3) (record {
        collected = collected;
        counted = counted;
        logs_on =
            validate_logs-LogOn payload_of source.block_hash to target from headers logs collected
              valid;
      })

  fetch-IsOn :
      (from to : ℕ) (index : Index)
      → check_checkpoint source index.checkpoint ≡ resume from
      → IsOn source.block_hash index
      → IsOn source.block_hash (fetch payload_of source target from to index).0
  unfolding fetch gather
  fetch-IsOn from to index e on = elim (Bool-cases (ltb to from)) [
    | inl past ↦ rw past on
    | inr ahead ↦ elim (Result-cases (gather payload_of source target from to)) [
      | inr (thrown, failed) ↦ rw (ahead, failed, fetch) on
      | inl ((logs, headers), gathered) ↦
          let batch = gather-IsGathered from to gathered in
          let (headers_on, events_on) =
            next_rows from to index index.checkpoint e on (ground arith) in
          rw (ahead, gathered, fetch)
            (store_range-IsOn from to logs headers index batch.collected
              (ground (arith, batch.counted)) (ground arith) batch.logs_on headers_on events_on)
    ]
  ]

  -- A synchronisation that changes nothing: it throws, or the chain is too short.
  abbrev pub IsIdle : Index → Index × Result IndexError IndexResult → Type 0
  IsIdle index (index', r) =
      (index' ≡ index)
      × (((thrown : IndexError) × (r ≡ err thrown))
          ⊎ (to_block confirmations source.latest_block ≡ ok none))

  resumed-adopted :
      (old : Chain) (from : ℕ) (index : Index) (checkpoint : Option Header)
      → Linked old source.block_hash
      → check_checkpoint source checkpoint ≡ resume from
      → IsOnAt old checkpoint index
      → IsOnAt source.block_hash checkpoint index
  unfolding check_checkpoint
  resumed-adopted old from index none linked e on = on
  resumed-adopted old from index (some checkpoint) linked e on =
      adopt_at old source.block_hash index checkpoint linked
        (resume-IsBlock source checkpoint _ from refl e).0 on

  orphaned-IsOn :
      (old : Chain) (below : ℕ) (index : Index) (checkpoint : Option Header)
      → Linked old source.block_hash
      → check_checkpoint source checkpoint ≡ orphaned below
      → IsOnAt old checkpoint index
      → IsOn source.block_hash (rollback_to_block (find_ancestor source index below) index)
  unfolding check_checkpoint
  orphaned-IsOn old below index none linked e on = cc
  orphaned-IsOn old below index (some checkpoint) linked e on =
      subst (λ n. IsOn source.block_hash (rollback_to_block (find_ancestor source index n) index))
        (orphaned-number checkpoint _ below e)
        (rollback-adopted old source index checkpoint linked on)

  Run-IsOn :
      (old : Chain) (index : Index) (r : Index × Result IndexError IndexResult)
      → Linked old source.block_hash
      → IsOn old index
      → Run payload_of source target confirmations index r
      → IsOn source.block_hash r.0 ⊎ IsIdle index r
  Run-IsOn old index r linked on (refused thrown e) = inr (refl, inl (thrown, refl))
  Run-IsOn old index r linked on (too_short e) = inr (refl, inr e)
  Run-IsOn old index r linked on (lost to e c) = inr (refl, inl (checkpoint_unverifiable, refl))
  Run-IsOn old index r linked on (resumed to from e c) =
      inl (fetch-IsOn from to index c (resumed-adopted old from index index.checkpoint linked c on))
  Run-IsOn old index r linked on (rolled_back to below from e c again) =
      inl (fetch-IsOn from to _ again (orphaned-IsOn old below index index.checkpoint linked c on))

  -- From tables that are on a chain, linked by parent hashes to the node's, a synchronisation ends,
  -- and either its checkpoint, the headers up to it and every event that is not removed are on the
  -- node's chain, or the tables are as before and it threw or the chain is shorter than the
  -- confirmations.
  pub sync-IsOn :
      (old : Chain) (index : Index)
      → Linked old source.block_hash
      → IsOn old index
      → (r : Index × Result IndexError IndexResult) × (sync payload_of 2 source target confirmations
            index
          ≡ some r)
        × (IsOn source.block_hash r.0 ⊎ IsIdle index r)
  sync-IsOn old index linked on =
      let (r, run, settles) = sync_terminates payload_of source target confirmations index in
      (r, settles 0, Run-IsOn old index r linked on run)
