-- ===== src/Indexer.antt =====
-- packages/services/src/indexer.ts: the projection of a contract's logs, and its recovery from a
-- reorganisation of the chain.
pub mod Tables
pub mod Termination
pub mod Canonical
pub mod Repeated
pub mod Tests
use aurka.Prelude.{
  ℕ, zero, suc, ◌+◌, ◌-◌, Bool, true, false, ◌&&◌, ◌||◌, not, List, [], ◌∷◌, Option, none, some,
  Result, ok, err, ◌>>=◌, ◌>>◌, throw_if, ltb, leb, ◌==◌, if◌then◌else◌,
}
use aurka.Prelude.Int.{pos, negsuc}
use aurka.Prelude.Text.{Text, text_eq, lower_case}
use aurka.Price.{is_bytes32, same_text}
use aurka.Financial.Integer.{Num, int, not_integral}
use Tables.{
  Header, EventRow, Index, project_event, project_removed_log, find_header, save_indexed_headers,
  get_indexed_header, rollback_to_block, set_checkpoint,
}

pub data IndexError : Type 0 where
  confirmations_negative : IndexError
  checkpoint_unverifiable : IndexError
  block_unverifiable : IndexError
  invalid_block_hash : IndexError
  wrong_chain : IndexError
  wrong_contract : IndexError
  outside_range : IndexError
  hash_mismatch : IndexError
  malformed_event : IndexError
  source_failed : IndexError

-- A log that has passed chainLogSchema.
pub record ChainLog : Type 0 where
  pub chain_id : ℕ
  pub contract : Text
  pub block_number : ℕ
  pub block_hash : Text
  pub transaction_hash : Text
  pub log_index : ℕ
  pub name : Text
  pub payload : Text
  pub encoded : Option (List Text × Text)
  pub observed_at : ℕ
  pub removed : Bool

-- What the node answers, during one synchronisation.
pub record ChainLogSource : Type 0 where
  pub latest_block : ℕ
  pub block_hash : ℕ → Option Text
  pub logs : ℕ → ℕ → Result IndexError (List ChainLog)

pub record Target : Type 0 where
  pub chain_id : ℕ
  pub contract : Text

pub record IndexResult : Type 0 where
  pub inserted : ℕ
  pub removed : ℕ
  pub checkpoint : Option Header

abbrev pub nothing_indexed : Option Header → IndexResult
nothing_indexed checkpoint = record { inserted = 0; removed = 0; checkpoint = checkpoint }

abbrev pub log_header : ChainLog → Header
log_header log = record { block_number = log.block_number; block_hash = log.block_hash }

-- The row of an event, with the payload that toProtocolEvent has parsed.
abbrev pub event_row : ChainLog → Text → EventRow
event_row log payload_json = record {
  block_number = log.block_number;
  block_hash = log.block_hash;
  transaction_hash = log.transaction_hash;
  log_index = log.log_index;
  name = log.name;
  payload_json = payload_json;
  removed = false;
  observed_at = log.observed_at;
}

unfoldable pub ingest_log : ChainLog → Text → Index → Index
ingest_log log payload_json index =
    if log.removed
    then project_removed_log log.transaction_hash log.log_index index
    else set_checkpoint (log_header log) (project_event (event_row log payload_json) index)

unfoldable pub count_log : ChainLog → IndexResult → IndexResult
count_log log result =
    if log.removed
    then record result { removed = result.removed + 1 }
    else record result { inserted = result.inserted + 1; checkpoint = some (log_header log) }

-- The sort by block number and log index, which is stable.
abbrev pub comes_before : ChainLog → ChainLog → Bool
comes_before left right =
    if left.block_number == right.block_number
    then leb left.log_index right.log_index
    else ltb left.block_number right.block_number

unfoldable pub insert_log : ChainLog → List ChainLog → List ChainLog
insert_log log [] = log ∷ []
insert_log log (other ∷ logs) =
    if comes_before log other then log ∷ other ∷ logs else other ∷ insert_log log logs

unfoldable pub sort_logs : List ChainLog → List ChainLog
unfolding insert_log
sort_logs [] = []
sort_logs (log ∷ logs) = insert_log log (sort_logs logs)

-- toBlock, or nothing if the chain is too short.
unfoldable pub to_block : Num → ℕ → Result IndexError (Option ℕ)
to_block (int (pos confirmations)) latest =
    ok (if ltb latest confirmations then none else some (latest - confirmations))
to_block (int (negsuc n)) latest = err confirmations_negative
to_block not_integral latest = err confirmations_negative

-- The stored header of a candidate, with the hash of the block that the node has for it.
unfoldable pub common_header : Option Header → Option Text → ℕ → Option Header
common_header none hash candidate = none
common_header (some stored) none candidate = none
common_header (some stored) (some hash) candidate =
    if same_text hash stored.block_hash
    then some (record { block_number = candidate; block_hash = hash })
    else none

abbrev pub or_else {ℓ} : {A : Type ℓ} → Option A → Option A → Option A
or_else none b = b
or_else (some a) b = some a

-- The candidates below the block, from the highest.
unfoldable pub find_ancestor : ChainLogSource → Index → ℕ → Option Header
find_ancestor source index zero = none
find_ancestor source index (suc candidate) =
    or_else
      (common_header (get_indexed_header index candidate) (source.block_hash candidate) candidate)
      (find_ancestor source index candidate)

-- What the stored checkpoint says: fetch from a block on, or roll back below one.
pub data CheckpointState : Type 0 where
  unverifiable : CheckpointState
  orphaned : (below : ℕ) → CheckpointState
  resume : (from : ℕ) → CheckpointState

abbrev pub compare_checkpoint : Header → Option Text → CheckpointState
compare_checkpoint checkpoint none = unverifiable
compare_checkpoint checkpoint (some hash) =
    if same_text hash checkpoint.block_hash
    then resume (checkpoint.block_number + 1)
    else orphaned checkpoint.block_number

unfoldable pub check_checkpoint : ChainLogSource → Option Header → CheckpointState
check_checkpoint source none = resume 0
check_checkpoint source (some checkpoint) =
    compare_checkpoint checkpoint (source.block_hash checkpoint.block_number)

-- The verified header of one block.
unfoldable pub canonical_header : Option Text → ℕ → Result IndexError Header
canonical_header none block = err block_unverifiable
canonical_header (some hash) block =
    if is_bytes32 hash
    then ok (record { block_number = block; block_hash = lower_case hash })
    else err invalid_block_hash

-- The headers of so many blocks from one on.
unfoldable pub collect_headers : ChainLogSource → ℕ → ℕ → Result IndexError (List Header)
unfolding canonical_header
collect_headers source zero block = ok []
collect_headers source (suc count) block = do
  header ← canonical_header (source.block_hash block) block
  headers ← collect_headers source count (block + 1)
  ok (header ∷ headers)

abbrev pub matches_header : Option Header → Text → Bool
matches_header none hash = false
matches_header (some header) hash = text_eq header.block_hash (lower_case hash)

-- The end of a fetch: the checkpoint moves to the last block of the range.
abbrev pub advance :
    Option Header → Index × Result IndexError IndexResult → Index × Result IndexError IndexResult
advance range_header (index, err thrown) = (index, err thrown)
advance none (index, ok result) = (index, ok result)
advance (some header) (index, ok result) =
    (set_checkpoint header index, ok (record result { checkpoint = some header }))

-- toProtocolEvent parses or decodes the payload by packages/shared/src/events.ts, which is not
-- modelled: `payload_of` is the payload as JSON, or the error that it throws.
module _ (payload_of : ChainLog → Result IndexError Text) where
  unfoldable pub validate_log :
      Target → (from to : ℕ) → List Header → ChainLog → Result IndexError Text
  validate_log target from to headers log = do
    throw_if (not (log.chain_id == target.chain_id)) wrong_chain
    throw_if (not (same_text log.contract target.contract)) wrong_contract
    throw_if (ltb log.block_number from || ltb to log.block_number) outside_range
    throw_if (not (matches_header (find_header log.block_number headers) log.block_hash))
        hash_mismatch
    payload_of log

  unfoldable pub validate_logs :
      Target → (from to : ℕ) → List Header → List ChainLog → Result IndexError (Unit {0})
  validate_logs target from to headers [] = ok tt
  validate_logs target from to headers (log ∷ logs) =
      validate_log target from to headers log >>= λ payload_json.
      validate_logs target from to headers logs

  -- What a fetch reads before it writes: the logs, and the headers of the range.
  unfoldable pub gather :
      ChainLogSource → Target → (from to : ℕ) → Result IndexError (List ChainLog × List Header)
  gather source target from to = do
    logs ← source.logs from to
    headers ← collect_headers source (to + 1 - from) from
    validate_logs target from to headers logs
    ok (logs, headers)

  -- The tables, also when a log throws, and what is returned or thrown.
  unfoldable pub ingest :
      List ChainLog → IndexResult → Index → Index × Result IndexError IndexResult
  ingest [] result index = (index, ok result)
  ingest (log ∷ logs) result index = elim (payload_of log) [
    | err thrown ↦ (index, err thrown)
    | ok payload_json ↦ ingest logs (count_log log result) (ingest_log log payload_json index)
  ]

  unfoldable pub store_range :
      (to : ℕ) → List ChainLog → List Header → Index → Index × Result IndexError IndexResult
  store_range to logs headers index =
      advance (find_header to headers)
        (ingest (sort_logs logs) (nothing_indexed none) (save_indexed_headers headers index))

  unfoldable pub fetch :
      ChainLogSource → Target → (from to : ℕ) → Index → Index × Result IndexError IndexResult
  fetch source target from to index =
      if ltb to from
      then (index, ok (nothing_indexed index.checkpoint))
      else elim (gather source target from to) [
        | err thrown ↦ (index, err thrown)
        | ok (logs, headers) ↦ store_range to logs headers index
      ]

  -- `sync`, which calls itself after a rollback. `none` is a run that has used its fuel.
  unfoldable pub sync :
      ℕ → ChainLogSource → Target → Num → Index → Option (Index × Result IndexError IndexResult)
  sync zero source target confirmations index = none
  sync (suc fuel) source target confirmations index =
      elim (to_block confirmations source.latest_block) [
        | err thrown ↦ some (index, err thrown)
        | ok none ↦ some (index, ok (nothing_indexed none))
        | ok (some to) ↦ elim (check_checkpoint source index.checkpoint) [
          | unverifiable ↦ some (index, err checkpoint_unverifiable)
          | resume from ↦ some (fetch source target from to index)
          | orphaned below ↦
              sync fuel source target confirmations
                (rollback_to_block (find_ancestor source index below) index)
        ]
      ]
