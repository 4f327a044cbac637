-- ===== src/Repository/Leases.antt =====
-- packages/services/src/db/repository.ts: the lease that one worker holds on a delegated session.
pub mod Exclusion
use aurka.Prelude.{
  ℕ, Bool, true, false, ◌&&◌, not, List, [], ◌∷◌, Option, none, some, ltb, if◌then◌else◌,
}
use aurka.Prelude.Text.{Text, text_eq}

pub record Lease : Type 0 where
  pub session_id : Text
  pub lease_id : Text
  pub expires_at : ℕ
  pub updated_at : ℕ

-- The select by the session, which is the primary key.
unfoldable pub find_lease : Text → List Lease → Option Lease
find_lease session_id [] = none
find_lease session_id (row ∷ rows) =
    if text_eq row.session_id session_id then some row else find_lease session_id rows

-- The insert with its update on conflict.
unfoldable pub put_lease : Lease → List Lease → List Lease
put_lease lease [] = lease ∷ []
put_lease lease (row ∷ rows) =
    if text_eq row.session_id lease.session_id then lease ∷ rows else row ∷ put_lease lease rows

unfoldable pub is_held : Option Lease → (lease_id : Text) → (at : ℕ) → Bool
is_held none lease_id at = false
is_held (some existing) lease_id at =
    ltb at existing.expires_at && not (text_eq existing.lease_id lease_id)

unfoldable pub claim_delegated_worker_lease :
    List Lease → (session_id lease_id : Text) → (expires_at at : ℕ) → List Lease × Bool
claim_delegated_worker_lease rows session_id lease_id expires_at at =
    if is_held (find_lease session_id rows) lease_id at then (rows, false) else (
      put_lease
          (record {
            session_id = session_id;
            lease_id = lease_id;
            expires_at = expires_at;
            updated_at = at;
          })
          rows,
      true,
    )

unfoldable pub release_delegated_worker_lease :
    List Lease → (session_id lease_id : Text) → List Lease
release_delegated_worker_lease [] session_id lease_id = []
release_delegated_worker_lease (row ∷ rows) session_id lease_id =
    let kept = release_delegated_worker_lease rows session_id lease_id in
    if text_eq row.session_id session_id && text_eq row.lease_id lease_id then kept else row ∷ kept
