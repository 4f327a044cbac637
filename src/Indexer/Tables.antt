-- ===== src/Indexer/Tables.antt =====
-- packages/services/src/db/repository.ts: the checkpoint, the block headers and the raw events that
-- the indexer keeps for one contract of one chain. The rows of other contracts are untouched by
-- these operations, and the projections rebuilt from the events are left out.
use aurka.Prelude.{ℕ, Bool, true, ◌&&◌, List, [], ◌∷◌, Option, none, some, leb, ◌==◌, if◌then◌else◌}
use aurka.Prelude.Text.{Text, text_eq}

-- A row of indexing_headers or indexing_checkpoints, and an IndexedBlockHeader.
pub record Header : Type 0 where
  pub block_number : ℕ
  pub block_hash : Text

-- A row of chain_events.
pub record EventRow : Type 0 where
  pub block_number : ℕ
  pub block_hash : Text
  pub transaction_hash : Text
  pub log_index : ℕ
  pub name : Text
  pub payload_json : Text
  pub removed : Bool
  pub observed_at : ℕ

pub record Index : Type 0 where
  pub checkpoint : Option Header
  pub headers : List Header
  pub events : List EventRow

abbrev pub same_log : EventRow → Text → ℕ → Bool
same_log row transaction_hash log_index =
    text_eq row.transaction_hash transaction_hash && (row.log_index == log_index)

-- The insert with its update on conflict.
unfoldable pub put_event : EventRow → List EventRow → List EventRow
put_event event [] = event ∷ []
put_event event (row ∷ rows) =
    if same_log row event.transaction_hash event.log_index
    then event ∷ rows
    else row ∷ put_event event rows

unfoldable pub project_event : EventRow → Index → Index
project_event event index = record index { events = put_event event index.events }

unfoldable pub mark_removed : Text → ℕ → List EventRow → List EventRow
mark_removed transaction_hash log_index [] = []
mark_removed transaction_hash log_index (row ∷ rows) =
    (if same_log row transaction_hash log_index then record row { removed = true } else row)
    ∷ mark_removed transaction_hash log_index rows

unfoldable pub project_removed_log : Text → ℕ → Index → Index
project_removed_log transaction_hash log_index index = record index {
  events = mark_removed transaction_hash log_index index.events;
}

unfoldable pub find_header : ℕ → List Header → Option Header
find_header block [] = none
find_header block (row ∷ rows) =
    if row.block_number == block then some row else find_header block rows

unfoldable pub put_header : Header → List Header → List Header
put_header header [] = header ∷ []
put_header header (row ∷ rows) =
    if row.block_number == header.block_number then header ∷ rows else row ∷ put_header header rows

unfoldable pub put_headers : List Header → List Header → List Header
put_headers [] rows = rows
put_headers (header ∷ headers) rows = put_headers headers (put_header header rows)

unfoldable pub save_indexed_headers : List Header → Index → Index
save_indexed_headers headers index = record index { headers = put_headers headers index.headers }

unfoldable pub get_indexed_header : Index → ℕ → Option Header
get_indexed_header index block = find_header block index.headers

unfoldable pub headers_up_to : ℕ → List Header → List Header
headers_up_to block [] = []
headers_up_to block (row ∷ rows) =
    let kept = headers_up_to block rows in if leb row.block_number block then row ∷ kept else kept

unfoldable pub events_up_to : ℕ → List EventRow → List EventRow
events_up_to block [] = []
events_up_to block (row ∷ rows) =
    let kept = events_up_to block rows in if leb row.block_number block then row ∷ kept else kept

-- `none` is the ancestor -1, with no hash.
unfoldable pub rollback_to_block : Option Header → Index → Index
rollback_to_block none index = record { checkpoint = none; headers = []; events = [] }
rollback_to_block (some ancestor) index = record {
  checkpoint = some ancestor;
  headers = headers_up_to ancestor.block_number index.headers;
  events = events_up_to ancestor.block_number index.events;
}

unfoldable pub set_checkpoint : Header → Index → Index
set_checkpoint header index = record index { checkpoint = some header }
