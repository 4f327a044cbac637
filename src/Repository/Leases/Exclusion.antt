-- ===== src/Repository/Leases/Exclusion.antt =====
-- No two workers hold the lease of one session: what a successful claim keeps the others from.
use aurka.Prelude.{
  ℕ, ◌<◌, ◌≡◌, refl, sym, ◌∙◌, ap, subst, ◌⊎◌, inl, inr, true, false, ◌&&◌, List, [], ◌∷◌, none,
  some, arith, Bool-cases,
}
use aurka.Prelude.Text.{Text, text_eq, text_eq→eq, text_eq_refl}
use aurka.Repository.Leases.{
  Lease, find_lease, put_lease, is_held, claim_delegated_worker_lease,
  release_delegated_worker_lease,
}

-- The worker holds the session until the time.
pub record Holds (rows : List Lease) (session worker : Text) (expiry : ℕ) : Type 0 where
  pub row : Lease
  pub found : find_lease session rows ≡ some row
  pub holder : text_eq row.lease_id worker ≡ true
  pub until : row.expires_at ≡ expiry

find-put-same :
    (l : Lease) (rows : List Lease) → find_lease l.session_id (put_lease l rows) ≡ some l
unfolding find_lease put_lease
find-put-same l [] = ground (arith, text_eq_refl l.session_id)
find-put-same l (r ∷ rows) = elim (Bool-cases (text_eq r.session_id l.session_id)) [
  | inl same ↦ rw same (ground (arith, text_eq_refl l.session_id))
  | inr other ↦ rw (other, other) (find-put-same l rows)
]

find-put-other :
    (l : Lease) (s : Text) (rows : List Lease)
    → text_eq l.session_id s ≡ false
    → find_lease s (put_lease l rows) ≡ find_lease s rows
unfolding find_lease put_lease
find-put-other l s [] ne = ground arith
find-put-other l s (r ∷ rows) ne = elim (Bool-cases (text_eq r.session_id l.session_id)) [
  | inl same ↦
      let row_ne : text_eq r.session_id s ≡ false =
        ap (λ t. text_eq t s) (text_eq→eq r.session_id l.session_id same) ∙ ne in
      rw (same, row_ne) (ground (arith, ne))
  | inr other ↦ rw other (ground (arith, find-put-other l s rows ne))
]

-- A claim leaves its worker with the lease.
pub claim-Holds :
    (rows : List Lease) (session worker : Text) (expiry at : ℕ) {after : List Lease}
    → claim_delegated_worker_lease rows session worker expiry at ≡ (after, true)
    → Holds after session worker expiry
unfolding claim_delegated_worker_lease
claim-Holds rows session worker expiry at {after} e =
    elim (Bool-cases (is_held (find_lease session rows) worker at)) [
      | inl held ↦ (let refused = ap (λ p. p.1) (rw held at e) in cc)
      | inr free ↦
          (let l : Lease = record {
            session_id = session;
            lease_id = worker;
            expires_at = expiry;
            updated_at = at;
          } in
            let is_after : put_lease l rows ≡ after = ap (λ p. p.0) (rw free at e) in
            record {
              row = l;
              found = subst (λ t. find_lease session t ≡ some l) is_after (find-put-same l rows);
              holder = text_eq_refl worker;
              until = refl;
            })
    ]

-- Another worker's claim before the time fails, and changes nothing.
pub Holds-refuses :
    (rows : List Lease) (session worker other : Text) (expiry at new_expiry : ℕ)
    → Holds rows session worker expiry
    → text_eq worker other ≡ false
    → at < expiry
    → claim_delegated_worker_lease rows session other new_expiry at ≡ (rows, false)
unfolding claim_delegated_worker_lease is_held
Holds-refuses rows session worker other expiry at new_expiry h ne early =
    let differs : text_eq h.row.lease_id other ≡ false =
      ap (λ t. text_eq t other) (text_eq→eq h.row.lease_id worker h.holder) ∙ ne in
    rw h.found (ground (arith, differs, h.until))

-- A step of anyone else before the time: a claim of another worker, a claim of another session, or a
-- release under another worker's identifier or of another session.
pub data OtherStep (session worker : Text) (expiry : ℕ) : List Lease → List Lease → Type 0 where
  other_claim :
      (rows : List Lease) (s w : Text) (e at : ℕ)
      → (text_eq s session ≡ false) ⊎ ((s ≡ session) × (text_eq worker w ≡ false) × (at < expiry))
      → OtherStep session worker expiry rows (claim_delegated_worker_lease rows s w e at).0
  other_release :
      (rows : List Lease) (s w : Text)
      → (text_eq session s ≡ false) ⊎ (text_eq worker w ≡ false)
      → OtherStep session worker expiry rows (release_delegated_worker_lease rows s w)

pub data OtherSteps (session worker : Text) (expiry : ℕ) : List Lease → List Lease → Type 0 where
  none_yet : (rows : List Lease) → OtherSteps session worker expiry rows rows
  and_then :
      (a b c : List Lease)
      → OtherSteps session worker expiry a b
      → OtherStep session worker expiry b c
      → OtherSteps session worker expiry a c

elsewhere-Holds :
    (rows : List Lease) (session worker s w : Text) (expiry e at : ℕ)
    → text_eq s session ≡ false
    → Holds rows session worker expiry
    → Holds (claim_delegated_worker_lease rows s w e at).0 session worker expiry
unfolding claim_delegated_worker_lease
elsewhere-Holds rows session worker s w expiry e at ne h =
    elim (Bool-cases (is_held (find_lease s rows) w at)) [
      | inl held ↦ rw held h
      | inr free ↦ rw free (record {
        row = h.row;
        found = find-put-other _ session rows ne ∙ h.found;
        holder = h.holder;
        until = h.until;
      })
    ]

some-injective : {a b : Lease} → some a ≡ some b → a ≡ b
some-injective {a} e = ap (λ o. elim o [ some x ↦ x | none ↦ a ]) e

-- The row that is kept.
row_kept :
    (r l : Lease) (session s w : Text)
    → r ≡ l
    → text_eq r.session_id session ≡ true
    → (text_eq session s ≡ false) ⊎ (text_eq l.lease_id w ≡ false)
    → (text_eq r.session_id s && text_eq r.lease_id w) ≡ false
row_kept r l session s w is_l same (inl ne) =
    let differs : text_eq r.session_id s ≡ false =
      ap (λ t. text_eq t s) (text_eq→eq r.session_id session same) ∙ ne in
    ground (arith, differs)
row_kept r l session s w is_l same (inr ne) =
    let differs : text_eq r.lease_id w ≡ false = ap (λ x. text_eq x.lease_id w) is_l ∙ ne in
    ground (arith, differs)

find-release :
    (rows : List Lease) (session s w : Text) (l : Lease)
    → find_lease session rows ≡ some l
    → (text_eq session s ≡ false) ⊎ (text_eq l.lease_id w ≡ false)
    → find_lease session (release_delegated_worker_lease rows s w) ≡ some l
unfolding find_lease release_delegated_worker_lease
find-release [] session s w l found kept = cc
find-release (r ∷ rows) session s w l found kept =
    elim (Bool-cases (text_eq r.session_id session)) [
      | inl same ↦
          let is_l : r ≡ l = some-injective (rw same at found) in
          rw (row_kept r l session s w is_l same kept, same) (ap some is_l)
      | inr other ↦
          let later = find-release rows session s w l (rw other at found) kept in
          elim (Bool-cases (text_eq r.session_id s && text_eq r.lease_id w)) [
            | inl dropped ↦ rw dropped later
            | inr stays ↦ rw (stays, other) later
          ]
    ]

step-Holds :
    (session worker : Text) (expiry : ℕ) (a b : List Lease)
    → OtherStep session worker expiry a b
    → Holds a session worker expiry
    → Holds b session worker expiry
step-Holds session worker expiry _ _ (other_claim a s w e at (inl elsewhere)) h =
    elsewhere-Holds a session worker s w expiry e at elsewhere h
step-Holds session worker expiry _ _ (other_claim a s w e at (inr (same, ne, early))) h =
    let refused : (claim_delegated_worker_lease a s w e at).0 ≡ a =
      ap (λ t. (claim_delegated_worker_lease a t w e at).0) same
      ∙ ap (λ p. p.0) (Holds-refuses a session worker w expiry at e h ne early) in
    subst (λ t. Holds t session worker expiry) (sym refused) h
step-Holds session worker expiry _ _ (other_release a s w kept) h = record {
  row = h.row;
  found = find-release a session s w h.row h.found (elim kept [
    | inl elsewhere ↦ inl elsewhere
    | inr ne ↦ inr (ap (λ t. text_eq t w) (text_eq→eq h.row.lease_id worker h.holder) ∙ ne)
  ]);
  holder = h.holder;
  until = h.until;
}

steps-Holds :
    (session worker : Text) (expiry : ℕ) (a b : List Lease)
    → OtherSteps session worker expiry a b
    → Holds a session worker expiry
    → Holds b session worker expiry
steps-Holds session worker expiry _ _ (none_yet a) h = h
steps-Holds session worker expiry _ _ (and_then a b c before step) h =
    step-Holds session worker expiry b c step (steps-Holds session worker expiry a b before h)

-- After a worker has claimed a session until a time, whatever others do before that time (claims and
-- releases of other workers and of other sessions, in any number and order), it still holds the
-- lease, and another worker's claim of the session before that time is refused and changes nothing.
pub claim_excludes :
    (rows claimed after : List Lease) (session worker other : Text) (expiry at later new_expiry : ℕ)
    → claim_delegated_worker_lease rows session worker expiry at ≡ (claimed, true)
    → OtherSteps session worker expiry claimed after
    → text_eq worker other ≡ false
    → later < expiry
    → Holds after session worker expiry
      × (claim_delegated_worker_lease after session other new_expiry later ≡ (after, false))
claim_excludes rows claimed after session worker other expiry at later new_expiry e steps ne early =
    let h =
      steps-Holds session worker expiry claimed after steps
        (claim-Holds rows session worker expiry at e) in
    (h, Holds-refuses after session worker other expiry later new_expiry h ne early)
