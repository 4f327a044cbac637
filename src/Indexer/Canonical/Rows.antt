-- ===== src/Indexer/Canonical/Rows.antt =====
-- The rows of the indexer's tables that are on a chain.
use aurka.Prelude.{
  some_injective, ℕ, suc, ◌≤◌, ◌<◌, ◌≡◌, ◌∙◌, ap, sym, inl, inr, true, false, Option, none, some,
  List, [], ◌∷◌, arith, leb, Bool-cases, All, leb→le,
}
use aurka.Prelude.Text.{Text, lower_case}
use aurka.Indexer.Tables.{
  Header, EventRow, Index, same_log, put_event, mark_removed, find_header, headers_up_to,
  events_up_to,
}

-- The hash of each block, where there is one.
abbrev pub Chain : Type 0
Chain = ℕ → Option Text

-- The hash is that of the chain's block, up to the case of its letters.
abbrev pub IsBlock : Chain → ℕ → Text → Type 0
IsBlock chain block hash =
    (canonical : Text) × (chain block ≡ some canonical) × (lower_case canonical ≡ lower_case hash)

-- The two chains have the same block of the number.
abbrev pub Meet : Chain → Chain → ℕ → Type 0
Meet old new block =
    (a : Text) × (b : Text) × (old block ≡ some a)
    × (new block ≡ some b)
    × (lower_case a ≡ lower_case b)

-- Two chains with the same block have the same earlier blocks: a hash covers the parent's hash.
abbrev pub Linked : Chain → Chain → Type 0
Linked old new = (block earlier : ℕ) → earlier ≤ block → Meet old new block → Meet old new earlier

-- Every event that is not removed is of a block of the chain, up to a block.
abbrev pub EventOn : Chain → ℕ → EventRow → Type 0
EventOn chain top row =
    row.removed ≡ false → IsBlock chain row.block_number row.block_hash × (row.block_number ≤ top)

abbrev pub EventsOn : Chain → ℕ → List EventRow → Type 0
EventsOn chain top rows = All (EventOn chain top) rows

abbrev pub HeadersOn : Chain → ℕ → List Header → Type 0
HeadersOn chain bound rows =
    (block : ℕ) (header : Header)
    → find_header block rows ≡ some header
    → block < bound
    → IsBlock chain block header.block_hash

-- The checkpoint, the headers up to it and the events are on the chain; without a checkpoint there
-- is no event but removed ones.
abbrev pub IsOnAt : Chain → Option Header → Index → Type 0
IsOnAt chain none index = All (λ row. row.removed ≡ true) index.events
IsOnAt chain (some checkpoint) index =
    IsBlock chain checkpoint.block_number checkpoint.block_hash
    × HeadersOn chain (suc checkpoint.block_number) index.headers
    × EventsOn chain checkpoint.block_number index.events

abbrev pub IsOn : Chain → Index → Type 0
IsOn chain index = IsOnAt chain index.checkpoint index

pub transfer :
    (old new : Chain) (block : ℕ) (hash : Text)
    → Meet old new block
    → IsBlock old block hash
    → IsBlock new block hash
transfer old new block hash (a, b, at_old, at_new, same) (c, at, eq) =
    (b, at_new, sym same ∙ ap lower_case (some_injective (sym at_old ∙ at)) ∙ eq)

pub meet :
    (old new : Chain) (block : ℕ) (hash : Text)
    → IsBlock old block hash
    → IsBlock new block hash
    → Meet old new block
meet old new block hash (a, at_old, eq) (b, at_new, eq') = (a, b, at_old, at_new, eq ∙ sym eq')

pub EventsOn-move :
    (old new : Chain) (top : ℕ) (rows : List EventRow)
    → ((block : ℕ) → block ≤ top → Meet old new block)
    → EventsOn old top rows
    → EventsOn new top rows
EventsOn-move old new top [] meets h = tt
EventsOn-move old new top (row ∷ rows) meets h = (
  λ kept.
      let (on, below) = h.0 kept in
      (transfer old new row.block_number _ (meets row.block_number below) on, below),
  EventsOn-move old new top rows meets h.1,
)

pub find_header-headers_up_to :
    (top block : ℕ) (rows : List Header) {header : Header}
    → block ≤ top
    → find_header block (headers_up_to top rows) ≡ some header
    → find_header block rows ≡ some header
unfolding find_header headers_up_to
find_header-headers_up_to top block [] b e = e
find_header-headers_up_to top block (row ∷ rows) {header} b e =
    ground (arith, find_header-headers_up_to top block rows {header = header})

pub events_up_to-On :
    (chain : Chain) (top below : ℕ) (rows : List EventRow)
    → EventsOn chain top rows
    → EventsOn chain below (events_up_to below rows)
unfolding events_up_to
events_up_to-On chain top below [] h = tt
events_up_to-On chain top below (row ∷ rows) h = elim (Bool-cases (leb row.block_number below)) [
  | inl kept ↦ rw kept (
    λ live. ((h.0 live).0, leb→le row.block_number below kept),
    events_up_to-On chain top below rows h.1,
  )
  | inr dropped ↦ rw dropped (events_up_to-On chain top below rows h.1)
]

pub put_event-On :
    (chain : Chain) (top : ℕ) (event : EventRow) (rows : List EventRow)
    → EventOn chain top event
    → EventsOn chain top rows
    → EventsOn chain top (put_event event rows)
unfolding put_event
put_event-On chain top event [] on h = (on, tt)
put_event-On chain top event (row ∷ rows) on h =
    elim (Bool-cases (same_log row event.transaction_hash event.log_index)) [
      | inl same ↦ rw same (on, h.1)
      | inr other ↦ rw other (h.0, put_event-On chain top event rows on h.1)
    ]

pub mark_removed-On :
    (chain : Chain) (top : ℕ) (transaction_hash : Text) (log_index : ℕ) (rows : List EventRow)
    → EventsOn chain top rows
    → EventsOn chain top (mark_removed transaction_hash log_index rows)
unfolding mark_removed
mark_removed-On chain top transaction_hash log_index [] h = tt
mark_removed-On chain top transaction_hash log_index (row ∷ rows) h =
    elim (Bool-cases (same_log row transaction_hash log_index)) [
      | inl same ↦
          rw same (λ live. cc, mark_removed-On chain top transaction_hash log_index rows h.1)
      | inr other ↦ rw other (h.0, mark_removed-On chain top transaction_hash log_index rows h.1)
    ]
