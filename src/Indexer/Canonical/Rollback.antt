-- ===== src/Indexer/Canonical/Rollback.antt =====
-- What a rollback of packages/services/src/indexer.ts keeps, by the chain.
use aurka.Prelude.{
  some_injective, ℕ, zero, suc, ◌+◌, ◌≤◌, ◌<◌, ◌≡◌, refl, ◌∙◌, sym, subst, inl, inr, Option, none,
  some, arith, Bool-cases, Option-cases,
}
use aurka.Prelude.Text.{Text, lower_case, text_eq→eq}
use aurka.Price.{same_text}
use aurka.Indexer.Tables.{Header, Index, find_header, rollback_to_block, get_indexed_header}
use aurka.Indexer.{
  ChainLogSource, common_header, find_ancestor, resume, orphaned, compare_checkpoint,
}
use aurka.Indexer.Canonical.Rows.{
  Chain, IsBlock, IsOn, Linked, find_header-headers_up_to, events_up_to-On, IsOnAt, Meet,
  EventsOn-move, transfer, meet,
}

-- An index on one chain whose checkpoint is on another, linked one, is on that one.
pub adopt_at :
    (old new : Chain) (index : Index) (checkpoint : Header)
    → Linked old new
    → IsBlock new checkpoint.block_number checkpoint.block_hash
    → IsOnAt old (some checkpoint) index
    → IsOnAt new (some checkpoint) index
adopt_at old new index checkpoint linked on_new (on_old, headers, events) =
    let top = checkpoint.block_number in
    let meets : (block : ℕ) → block ≤ top → Meet old new block =
      λ block below. linked top block below (meet old new top _ on_old on_new) in
    (
      on_new,
      λ block header found below.
          transfer old new block _ (meets block (omega arith)) (headers block header found below),
      EventsOn-move old new top index.events meets events,
    )

pub resume-IsBlock :
    (source : ChainLogSource) (checkpoint : Header) (hash : Option Text) (from : ℕ)
    → source.block_hash checkpoint.block_number ≡ hash
    → compare_checkpoint checkpoint hash ≡ resume from
    → IsBlock source.block_hash checkpoint.block_number checkpoint.block_hash
      × (from ≡ checkpoint.block_number + 1)
resume-IsBlock source checkpoint none from known e = cc
resume-IsBlock source checkpoint (some hash) from known e =
    elim (Bool-cases (same_text hash checkpoint.block_hash)) [
      | inl same ↦
          let resumed_at : resume (checkpoint.block_number + 1) ≡ resume from = rw same at e in
          ((hash, known, text_eq→eq _ _ same), cc)
      | inr other ↦
          let failed : orphaned checkpoint.block_number ≡ resume from = rw other at e in cc
    ]

pub orphaned-number :
    (checkpoint : Header) (hash : Option Text) (below : ℕ)
    → compare_checkpoint checkpoint hash ≡ orphaned below
    → checkpoint.block_number ≡ below
orphaned-number checkpoint none below e = cc
orphaned-number checkpoint (some hash) below e = ground arith

-- A stored header below a block that the node's chain has too.
record IsShared (source : ChainLogSource) (index : Index) (below : ℕ) (ancestor : Header)
    : Type 0 where
  pub stored : Header
  pub lower : ancestor.block_number < below
  pub found : find_header ancestor.block_number index.headers ≡ some stored
  pub same : lower_case ancestor.block_hash ≡ lower_case stored.block_hash
  pub known : source.block_hash ancestor.block_number ≡ some ancestor.block_hash

common_header-IsShared :
    (source : ChainLogSource) (index : Index) (candidate : ℕ) (stored : Option Header)
    (hash : Option Text) (ancestor : Header)
    → find_header candidate index.headers ≡ stored
    → source.block_hash candidate ≡ hash
    → common_header stored hash candidate ≡ some ancestor
    → IsShared source index (suc candidate) ancestor
unfolding common_header
common_header-IsShared source index candidate none hash ancestor found known e = cc
common_header-IsShared source index candidate (some stored) none ancestor found known e = cc
common_header-IsShared source index candidate (some stored) (some hash) ancestor found known e =
    elim (Bool-cases (same_text hash stored.block_hash)) [
      | inl same ↦
          let is : record { block_number = candidate; block_hash = hash } ≡ ancestor =
            some_injective (rw same at e) in
          subst (IsShared source index (suc candidate)) is (record {
            stored = stored;
            lower = omega arith;
            found = found;
            same = text_eq→eq _ _ same;
            known = known;
          })
      | inr other ↦ let failed : ◌≡◌ {A = Option Header} none (some ancestor) = rw other at e in cc
    ]

find_ancestor-IsShared :
    (source : ChainLogSource) (index : Index) (below : ℕ) (ancestor : Header)
    → find_ancestor source index below ≡ some ancestor
    → IsShared source index below ancestor
unfolding find_ancestor get_indexed_header
find_ancestor-IsShared source index zero ancestor e = cc
find_ancestor-IsShared source index (suc candidate) ancestor e =
    elim (Option-cases (
      common_header (find_header candidate index.headers) (source.block_hash candidate)
        candidate)) [
          | inl missing ↦
              let earlier =
                find_ancestor-IsShared source index candidate ancestor (rw missing at e) in
              record {
                stored = earlier.stored;
                lower = omega (arith, earlier.lower);
                found = earlier.found;
                same = earlier.same;
                known = earlier.known;
              }
          | inr (header, here) ↦
              common_header-IsShared source index candidate _ _ ancestor refl refl
                (here ∙ (rw here at e))
        ]

-- What stays after a rollback to a shared header is on the old chain still.
rollback-IsOn :
    (old : Chain) (source : ChainLogSource) (index : Index) (checkpoint ancestor : Header)
    → IsOnAt old (some checkpoint) index
    → IsShared source index checkpoint.block_number ancestor
    → IsOn old (rollback_to_block (some ancestor) index)
unfolding rollback_to_block
rollback-IsOn old source index checkpoint ancestor (_, headers, events) shared =
    let (canonical, is_at, same) =
      headers ancestor.block_number shared.stored shared.found (omega (arith, shared.lower)) in
    (
      (canonical, is_at, same ∙ sym shared.same),
      λ block header found below.
          headers block header
            (find_header-headers_up_to ancestor.block_number block index.headers (omega arith)
              found)
            (omega (arith, shared.lower)),
      events_up_to-On old checkpoint.block_number ancestor.block_number index.events events,
    )

rollback_all-IsOn : (chain : Chain) (index : Index) → IsOn chain (rollback_to_block none index)
unfolding rollback_to_block
rollback_all-IsOn chain index = tt

pub rollback-adopted :
    (old : Chain) (source : ChainLogSource) (index : Index) (checkpoint : Header)
    → Linked old source.block_hash
    → IsOnAt old (some checkpoint) index
    → IsOn source.block_hash
        (rollback_to_block (find_ancestor source index checkpoint.block_number) index)
unfolding rollback_to_block
rollback-adopted old source index checkpoint linked on =
    elim (Option-cases (find_ancestor source index checkpoint.block_number)) [
      | inl missing ↦ rw missing (rollback_all-IsOn source.block_hash index)
      | inr (ancestor, found) ↦
          let shared = find_ancestor-IsShared source index checkpoint.block_number ancestor found in
          rw found (
            adopt_at old source.block_hash (rollback_to_block (some ancestor) index) ancestor linked
              (ancestor.block_hash, shared.known, refl)
              (rollback-IsOn old source index checkpoint ancestor on shared))
    ]
