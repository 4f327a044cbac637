-- ===== src/Indexer/Canonical/Headers.antt =====
-- The headers that a fetch of packages/services/src/indexer.ts reads and saves.
use aurka.Prelude.{
  some_injective, ℕ, zero, suc, ◌+◌, ◌≤◌, ◌<◌, ◌≡◌, refl, ◌∙◌, ap, sym, inl, inr, Option, none,
  some, List, [], ◌∷◌, ok, arith, ◌==◌, if◌then◌else◌, Bool-cases, ==_iff, >>=-eq-ok, ok-injective,
  length, subst,
}
use aurka.Prelude.Text.{Text, lower_case, to_lower}
use aurka.Price.{is_bytes32}
use aurka.Indexer.Tables.{Header, find_header, put_header, put_headers}
use aurka.Indexer.{ChainLogSource, canonical_header, collect_headers}
use aurka.Indexer.Canonical.Rows.{Chain, IsBlock, HeadersOn}

to_lower_twice : (c : ℕ) → to_lower (to_lower c) ≡ to_lower c
unfolding to_lower
to_lower_twice c = ground arith

pub lower_case_twice : (s : Text) → lower_case (lower_case s) ≡ lower_case s
unfolding lower_case
lower_case_twice [] = refl
lower_case_twice (c ∷ s) = rw (to_lower_twice c) (ap (λ t. to_lower c ∷ t) (lower_case_twice s))

pub find_header-number :
    (block : ℕ) (rows : List Header) {header : Header}
    → find_header block rows ≡ some header
    → header.block_number ≡ block
unfolding find_header
find_header-number block [] e = cc
find_header-number block (row ∷ rows) {header} e =
    ground (arith, find_header-number block rows {header = header})

find_header-put_header :
    (block : ℕ) (header : Header) (rows : List Header)
    → find_header block (put_header header rows)
      ≡ (if header.block_number == block then some header else find_header block rows)
unfolding find_header put_header
find_header-put_header block header [] = refl
find_header-put_header block header (row ∷ rows) =
    ground (arith, find_header-put_header block header rows)

-- A header that verifies is the chain's, of its block.
canonical_header-IsBlock :
    (source : ChainLogSource) (hash : Option Text) (block : ℕ) {header : Header}
    → source.block_hash block ≡ hash
    → canonical_header hash block ≡ ok header
    → (header.block_number ≡ block) × IsBlock source.block_hash block header.block_hash
unfolding canonical_header
canonical_header-IsBlock source none block at e = cc
canonical_header-IsBlock source (some hash) block at e = elim (Bool-cases (is_bytes32 hash)) [
  | inl valid ↦
      let found = ok-injective (rw valid at e) in
      (
        sym (ap (λ h. h.block_number) found),
        (hash, at, sym (lower_case_twice hash) ∙ ap (λ h. lower_case h.block_hash) found),
      )
  | inr invalid ↦ let failed = (rw invalid at e) in cc
]

-- Consecutive headers of the chain, from a block on.
pub data Collected (chain : Chain) : ℕ → List Header → Type 0 where
  done : (block : ℕ) → Collected chain block []
  next :
      (block : ℕ) (first : Header) (rest : List Header)
      → first.block_number ≡ block
      → IsBlock chain block first.block_hash
      → Collected chain (block + 1) rest
      → Collected chain block (first ∷ rest)

pub collect_headers-Collected :
    (source : ChainLogSource) (count block : ℕ) (headers : List Header)
    → collect_headers source count block ≡ ok headers
    → Collected source.block_hash block headers × (length headers ≡ count)
unfolding collect_headers
collect_headers-Collected source zero block headers e = rw (sym (ok-injective e)) (done block, refl)
collect_headers-Collected source (suc count) block headers e =
    let (first, at, e1) = >>=-eq-ok (canonical_header (source.block_hash block) block) _ e in
    let (rest, more, e2) = >>=-eq-ok (collect_headers source count (block + 1)) _ e1 in
    let (numbered, is_block) =
      canonical_header-IsBlock source (source.block_hash block) block refl at in
    let (collected, counted) = collect_headers-Collected source count (block + 1) rest more in
    rw (sym (ok-injective e2)) (next block first rest numbered is_block collected, ap suc counted)

pub Collected-found :
    (chain : Chain) (block : ℕ) (headers : List Header) (at : ℕ) (header : Header)
    → Collected chain block headers
    → find_header at headers ≡ some header
    → IsBlock chain at header.block_hash
unfolding find_header
Collected-found chain block headers at header (done _) found = cc
Collected-found chain block headers at header (next _ first rest numbered is_block more) found =
    elim (Bool-cases (first.block_number == at)) [
      | inl same ↦
          let here : first ≡ header = some_injective (rw same at found) in
          let same_block : block ≡ at = sym numbered ∙ (==_iff _ _).0 same in
          rw (sym here) (subst (λ b. IsBlock chain b first.block_hash) same_block is_block)
      | inr other ↦ Collected-found chain (block + 1) rest at header more (rw other at found)
    ]

pub Collected-covers :
    (chain : Chain) (block : ℕ) (headers : List Header) (at : ℕ)
    → Collected chain block headers
    → block ≤ at
    → at < block + length headers
    → (header : Header) × (find_header at headers ≡ some header)
unfolding find_header
Collected-covers chain block headers at (done _) low high = absurd (omega arith)
Collected-covers chain block headers at (next _ first rest numbered is_block more) low high =
    elim (Bool-cases (first.block_number == at)) [
      | inl same ↦ (first, rw same refl)
      | inr other ↦
          let later : block + 1 ≤ at = ground arith in
          let (header, found) =
            Collected-covers chain (block + 1) rest at more later (omega arith) in
          (header, rw other found)
    ]

HeadersOn-put_header :
    (chain : Chain) (header : Header) (rows : List Header)
    → IsBlock chain header.block_number header.block_hash
    → HeadersOn chain header.block_number rows
    → HeadersOn chain (header.block_number + 1) (put_header header rows)
HeadersOn-put_header chain header rows is_block on at other found below =
    elim (Bool-cases (header.block_number == at)) [
      | inl same ↦
          let here : header ≡ other =
            some_injective (rw same at (sym (find_header-put_header at header rows) ∙ found)) in
          rw (sym here)
            (subst (λ b. IsBlock chain b header.block_hash) ((==_iff _ _).0 same) is_block)
      | inr different ↦
          on at other (rw different at (sym (find_header-put_header at header rows) ∙ found))
            (ground arith)
    ]

pub Collected-HeadersOn :
    (chain : Chain) (block : ℕ) (headers rows : List Header)
    → Collected chain block headers
    → HeadersOn chain block rows
    → HeadersOn chain (block + length headers) (put_headers headers rows)
unfolding put_headers
Collected-HeadersOn chain block headers rows (done _) on =
    subst (λ b. HeadersOn chain b rows) (omega arith) on
Collected-HeadersOn chain block headers rows (next _ first rest numbered is_block more) on =
    let here = subst (λ b. IsBlock chain b first.block_hash) (sym numbered) is_block in
    let before = subst (λ b. HeadersOn chain b rows) (sym numbered) on in
    let put = HeadersOn-put_header chain first rows here before in
    let after = subst (λ b. HeadersOn chain (b + 1) (put_header first rows)) numbered put in
    let all = Collected-HeadersOn chain (block + 1) rest (put_header first rows) more after in
    subst (λ b. HeadersOn chain b (put_headers rest (put_header first rows))) (omega arith) all
