-- ===== src/Indexer/Tests.antt =====
-- Runs of the model of packages/services/src/indexer.ts: a chain of three blocks whose last two are
-- replaced, and an interrupted batch.
use aurka.Prelude.{
  some_injective, ℕ, zero, suc, ◌≡◌, refl, ap, sym, ◌⊎◌, true, false, [], ◌∷◌, none, some, Result,
  ok, arith, leb, if◌then◌else◌, subst,
}
use aurka.Prelude.Int.{pos}
use aurka.Prelude.Text.{Text, codes, text_eq, text_eq_refl, lower_case}
use aurka.Price.{is_hex_of}
use aurka.Financial.Integer.{int}
use aurka.Indexer.Tables.{
  Index, project_event, put_event, find_header, put_headers, put_header, save_indexed_headers,
  get_indexed_header, headers_up_to, events_up_to, rollback_to_block, set_checkpoint,
}
use aurka.Indexer.{
  IndexError, ChainLog, ChainLogSource, Target, IndexResult, event_row, ingest_log, count_log,
  sort_logs, to_block, common_header, find_ancestor, check_checkpoint, collect_headers,
  validate_log, validate_logs, gather, ingest, store_range, fetch, sync,
}
use aurka.Indexer.Termination.{Run, sync_terminates}
use aurka.Indexer.Repeated.{sync_again}
use aurka.Indexer.Canonical.{IsIdle, sync-IsOn}
use aurka.Indexer.Canonical.Rows.{Chain, Linked, HeadersOn, IsOn}

-- A hash of one digit repeated.
abbrev digits : ℕ → ℕ → Text
digits zero c = []
digits (suc n) c = c ∷ digits n c

abbrev hash_of : ℕ → Text
hash_of c = b'0' ∷ b'x' ∷ digits 64 c

abbrev old_chain : Chain
old_chain zero = some (hash_of b'a')
old_chain (suc zero) = some (hash_of b'b')
old_chain (suc (suc zero)) = some (hash_of b'c')
old_chain (suc (suc (suc n))) = none

abbrev new_chain : Chain
new_chain zero = some (hash_of b'A')
new_chain (suc zero) = some (hash_of b'd')
new_chain (suc (suc zero)) = some (hash_of b'e')
new_chain (suc (suc (suc n))) = none

abbrev target : Target
target = record { chain_id = 1; contract = codes "0xC0" }

abbrev log_at : ℕ → Text → ℕ → ChainLog
log_at block hash log_index = record {
  chain_id = 1;
  contract = codes "0xc0";
  block_number = block;
  block_hash = hash;
  transaction_hash = codes "0x7";
  log_index = log_index;
  name = codes "TradeExecuted";
  payload = codes "{}";
  encoded = none;
  observed_at = 5;
  removed = false;
}

abbrev source : ChainLogSource
source = record {
  latest_block = 2;
  block_hash = new_chain;
  logs = λ from to. ok (log_at 2 (hash_of b'e') 1 ∷ log_at 1 (hash_of b'd') 0 ∷ []);
}

abbrev payload_of : ChainLog → Result IndexError Text
payload_of log = ok log.payload

abbrev index : Index
index = record {
  checkpoint = some (record { block_number = 2; block_hash = hash_of b'c' });
  headers =
      record { block_number = 0; block_hash = hash_of b'a' }
      ∷ record { block_number = 1; block_hash = hash_of b'b' }
      ∷ record { block_number = 2; block_hash = hash_of b'c' }
      ∷ [];
  events = event_row (log_at 2 (hash_of b'c') 0) (codes "{}") ∷ [];
}

abbrev synced : Index
synced = record {
  checkpoint = some (record { block_number = 2; block_hash = hash_of b'e' });
  headers =
      record { block_number = 0; block_hash = hash_of b'a' }
      ∷ record { block_number = 1; block_hash = hash_of b'd' }
      ∷ record { block_number = 2; block_hash = hash_of b'e' }
      ∷ [];
  events =
      event_row (log_at 1 (hash_of b'd') 0) (codes "{}")
      ∷ event_row (log_at 2 (hash_of b'e') 1) (codes "{}")
      ∷ [];
}

-- The walk finds block 0, the rows after it go, and the new branch is read.
sync_run :
    sync payload_of 2 source target (int (pos 0)) index
    ≡ some (synced, ok (record { inserted = 2; removed = 0; checkpoint = synced.checkpoint }))
unfolding sync fetch gather store_range validate_logs validate_log ingest ingest_log count_log
    sort_logs to_block common_header find_ancestor check_checkpoint collect_headers project_event
    put_event find_header put_headers put_header save_indexed_headers get_indexed_header
    headers_up_to events_up_to rollback_to_block set_checkpoint lower_case text_eq is_hex_of
sync_run = refl

sync_terminates_example :
    (r : Index × Result IndexError IndexResult) × Run payload_of source target (int (pos 0)) index r
    × ((fuel : ℕ) → sync payload_of (suc (suc fuel)) source target (int (pos 0)) index ≡ some r)
sync_terminates_example = sync_terminates payload_of source target (int (pos 0)) index

-- The two chains part after block 0.
differ :
    (a b : Text) → text_eq (lower_case a) (lower_case b) ≡ false → lower_case a ≡ lower_case b → ⊥
differ a b different same =
    let equal = (subst (λ t. text_eq (lower_case a) t ≡ true) same (text_eq_refl (lower_case a))) in
    cc

old_chain-Linked : Linked old_chain new_chain
unfolding lower_case text_eq
old_chain-Linked zero zero below met = met
old_chain-Linked zero (suc earlier) below met = absurd (omega arith)
old_chain-Linked (suc zero) earlier below (a, b, at_old, at_new, same) =
    absurd
      (differ a b (rw (some_injective (sym at_old)) (rw (some_injective (sym at_new)) refl)) same)
old_chain-Linked (suc (suc zero)) earlier below (a, b, at_old, at_new, same) =
    absurd
      (differ a b (rw (some_injective (sym at_old)) (rw (some_injective (sym at_new)) refl)) same)
old_chain-Linked (suc (suc (suc n))) earlier below (a, b, at_old, at_new, same) = cc

index-HeadersOn : HeadersOn old_chain 3 index.headers
unfolding find_header
index-HeadersOn zero header found below =
    (hash_of b'a', refl, ap (λ h. lower_case h.block_hash) (some_injective found))
index-HeadersOn (suc zero) header found below =
    (hash_of b'b', refl, ap (λ h. lower_case h.block_hash) (some_injective found))
index-HeadersOn (suc (suc zero)) header found below =
    (hash_of b'c', refl, ap (λ h. lower_case h.block_hash) (some_injective found))
index-HeadersOn (suc (suc (suc n))) header found below = absurd (omega arith)

index-IsOn : IsOn old_chain index
index-IsOn = (
  (hash_of b'c', refl, refl),
  index-HeadersOn,
  (λ live. ((hash_of b'c', refl, refl), omega arith), tt),
)

sync-IsOn_example :
    (r : Index × Result IndexError IndexResult) × (sync payload_of 2 source target
        (int (pos 0))
        index
      ≡ some r)
    × (IsOn new_chain r.0 ⊎ IsIdle payload_of source target (int (pos 0)) index r)
sync-IsOn_example =
    sync-IsOn payload_of source target (int (pos 0)) old_chain index old_chain-Linked index-IsOn

sync_again_example :
    sync payload_of 1 source target (int (pos 0)) synced
    ≡ some (synced, ok (record { inserted = 0; removed = 0; checkpoint = synced.checkpoint }))
sync_again_example =
    sync_again payload_of source target (int (pos 0)) index synced
      (record { inserted = 2; removed = 0; checkpoint = synced.checkpoint }) sync_run

-- Two logs of block 1, fetched from block 0 on.
abbrev two_logs : ChainLogSource
two_logs = record {
  latest_block = 2;
  block_hash = new_chain;
  logs = λ from to.
      ok (if leb from 1 then log_at 1 (hash_of b'd') 0 ∷ log_at 1 (hash_of b'd') 1 ∷ [] else []);
}

-- A process that stops between the two leaves the checkpoint at their block.
abbrev interrupted : Index
interrupted = record {
  checkpoint = some (record { block_number = 1; block_hash = hash_of b'd' });
  headers = synced.headers;
  events = event_row (log_at 1 (hash_of b'd') 0) (codes "{}") ∷ [];
}

interrupted_run :
    (ingest payload_of
      (log_at 1 (hash_of b'd') 0 ∷ [])
      (record { inserted = 0; removed = 0; checkpoint = none })
      (record { checkpoint = none; headers = synced.headers; events = [] })).0
    ≡ interrupted
unfolding ingest ingest_log project_event put_event set_checkpoint
interrupted_run = refl

-- The next synchronisation starts after that block, and the second log is never projected.
lost_log_run :
    sync payload_of 2 two_logs target (int (pos 0)) interrupted
    ≡ some (
      record interrupted { checkpoint = synced.checkpoint },
      ok (record { inserted = 0; removed = 0; checkpoint = synced.checkpoint }),
    )
unfolding sync fetch gather store_range validate_logs validate_log ingest ingest_log count_log
    sort_logs to_block check_checkpoint collect_headers find_header put_headers put_header
    save_indexed_headers set_checkpoint lower_case text_eq is_hex_of
lost_log_run = refl
