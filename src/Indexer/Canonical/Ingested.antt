-- ===== src/Indexer/Canonical/Ingested.antt =====
-- The validated logs of packages/services/src/indexer.ts, and the events that they leave.
use aurka.Prelude.{
  ℕ, ◌≤◌, ◌≡◌, refl, ◌∙◌, ap, inl, inr, true, not, ◌||◌, List, [], ◌∷◌, Result, ok, arith, ltb,
  ◌==◌, Bool-cases, Option-cases, >>=-eq-ok, throw_if_inv, All,
}
use aurka.Prelude.Text.{Text, lower_case, text_eq→eq}
use aurka.Price.{same_text}
use aurka.Indexer.Tables.{
  Header, Index, find_header, project_event, project_removed_log, set_checkpoint,
}
use aurka.Indexer.{
  IndexError, wrong_chain, wrong_contract, outside_range, hash_mismatch, ChainLog, Target,
  IndexResult, event_row, matches_header, ingest_log, count_log, comes_before, insert_log,
  sort_logs, validate_log, validate_logs, ingest,
}
use aurka.Indexer.Canonical.Rows.{Chain, IsBlock, EventsOn, put_event-On, mark_removed-On}
use aurka.Indexer.Canonical.Headers.{Collected, Collected-found, lower_case_twice}

matches_header-IsBlock :
    (chain : Chain) (from : ℕ) (headers : List Header) (block : ℕ) (hash : Text)
    → Collected chain from headers
    → matches_header (find_header block headers) hash ≡ true
    → IsBlock chain block hash
matches_header-IsBlock chain from headers block hash collected e =
    elim (Option-cases (find_header block headers)) [
      | inl missing ↦ let failed = (rw missing at e) in cc
      | inr (header, found) ↦
          let (canonical, is_at, same) =
            Collected-found chain from headers block header collected found in
          (
            canonical,
            is_at,
            same ∙ ap lower_case (text_eq→eq _ _ (rw found at e)) ∙ lower_case_twice hash,
          )
    ]

module _ (payload_of : ChainLog → Result IndexError Text) (chain : Chain) (to : ℕ) where
  -- A log of the chain, no later than a block, whose payload parses.
  abbrev pub LogOn : ChainLog → Type 0
  LogOn log =
      IsBlock chain log.block_number log.block_hash
      × (log.block_number ≤ to)
      × ((payload_json : Text) × (payload_of log ≡ ok payload_json))

  validate_log-LogOn :
      (target : Target) (from : ℕ) (headers : List Header) (log : ChainLog) {payload_json : Text}
      → Collected chain from headers
      → validate_log payload_of target from to headers log ≡ ok payload_json
      → LogOn log
  unfolding validate_log
  validate_log-LogOn target from headers log {payload_json} collected e =
      let (_, e1) = throw_if_inv (not (log.chain_id == target.chain_id)) wrong_chain _ e in
      let (_, e2) =
        throw_if_inv (not (same_text log.contract target.contract)) wrong_contract _ e1 in
      let (inside, e3) =
        throw_if_inv (ltb log.block_number from || ltb to log.block_number) outside_range _ e2 in
      let (matched, parsed) =
        throw_if_inv (not (matches_header (find_header log.block_number headers) log.block_hash))
          hash_mismatch _ e3 in
      (
        matches_header-IsBlock chain from headers log.block_number log.block_hash collected
            (ground arith),
        ground arith,
        (payload_json, parsed),
      )

  pub validate_logs-LogOn :
      (target : Target) (from : ℕ) (headers : List Header) (logs : List ChainLog)
      → Collected chain from headers
      → validate_logs payload_of target from to headers logs ≡ ok tt
      → All LogOn logs
  unfolding validate_logs
  validate_logs-LogOn target from headers [] collected e = tt
  validate_logs-LogOn target from headers (log ∷ logs) collected e =
      let (_, first, rest) = >>=-eq-ok (validate_log payload_of target from to headers log) _ e in
      (
        validate_log-LogOn target from headers log collected first,
        validate_logs-LogOn target from headers logs collected rest,
      )

  insert_log-LogOn :
      (log : ChainLog) (logs : List ChainLog)
      → LogOn log
      → All LogOn logs
      → All LogOn (insert_log log logs)
  unfolding insert_log
  insert_log-LogOn log [] on all = (on, tt)
  insert_log-LogOn log (other ∷ logs) on all = elim (Bool-cases (comes_before log other)) [
    | inl before ↦ rw before (on, all)
    | inr after ↦ rw after (all.0, insert_log-LogOn log logs on all.1)
  ]

  pub sort_logs-LogOn : (logs : List ChainLog) → All LogOn logs → All LogOn (sort_logs logs)
  unfolding sort_logs
  sort_logs-LogOn [] all = tt
  sort_logs-LogOn (log ∷ logs) all =
      insert_log-LogOn log (sort_logs logs) all.0 (sort_logs-LogOn logs all.1)

  ingest_log-On :
      (log : ChainLog) (payload_json : Text) (index : Index)
      → LogOn log
      → EventsOn chain to index.events
      → EventsOn chain to (ingest_log log payload_json index).events
        × ((ingest_log log payload_json index).headers ≡ index.headers)
  unfolding ingest_log project_event project_removed_log set_checkpoint
  ingest_log-On log payload_json index on events = elim (Bool-cases log.removed) [
    | inl gone ↦
        rw gone
          (mark_removed-On chain to log.transaction_hash log.log_index index.events events, refl)
    | inr here ↦ rw here (
      put_event-On chain to (event_row log payload_json) index.events (λ live. (on.0, on.1)) events,
      refl,
    )
  ]

  pub ingest-On :
      (logs : List ChainLog) (result : IndexResult) (index : Index)
      → All LogOn logs
      → EventsOn chain to index.events
      → (index' : Index) × (result' : IndexResult) × (ingest payload_of logs result index
          ≡ (index', ok result'))
        × EventsOn chain to index'.events
        × (index'.headers ≡ index.headers)
  unfolding ingest
  ingest-On [] result index all events = (index, result, refl, events, refl)
  ingest-On (log ∷ logs) result index all events =
      let (payload_json, parsed) = all.0.2 in
      let (events', headers') = ingest_log-On log payload_json index all.0 events in
      let (last, result', e, events_on, same) =
        ingest-On logs (count_log log result) (ingest_log log payload_json index) all.1 events' in
      (last, result', rw (parsed, ingest) e, events_on, same ∙ headers')
