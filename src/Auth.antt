-- ===== src/Auth.antt =====
-- packages/services/src/api/auth.ts: the login by a wallet (AuthService), over the challenges and
-- sessions of packages/services/src/db/repository.ts. The cookie's text and the headers of a request
-- are left out: a token and an origin are arguments.
pub mod Service
pub mod Consumption
pub mod Checks
pub mod Once
pub mod Tests
use aurka.Prelude.{
  ℕ, ◌+◌, Bool, true, false, ◌&&◌, ◌||◌, not, List, [], ◌∷◌, Option, none, some, Result, ok, err,
  ◌>>=◌, ◌>>◌, throw_if, ltb, ◌==◌, if◌then◌else◌,
}
use aurka.Prelude.Text.{Text, codes, text_eq, lower_case}
use aurka.Price.{is_address, same_text}

-- A row of auth_challenges, less its creation time.
pub record AuthChallenge : Type 0 where
  pub id : Text
  pub address : Text
  pub chain_id : ℕ
  pub nonce : Text
  pub origin : Text
  pub expires_at : ℕ
  pub consumed_at : Option ℕ

-- A row of auth_sessions, less its creation time.
pub record AuthSession : Type 0 where
  pub token_hash : Text
  pub owner_address : Text
  pub chain_id : ℕ
  pub expires_at : ℕ

pub record AuthTables : Type 0 where
  pub challenges : List AuthChallenge
  pub sessions : List AuthSession

-- The codes of the errors; `duplicate_key` is the database's refusal of a second row with a key.
pub data AuthError : Type 0 where
  auth_origin_invalid : AuthError
  auth_origin_not_allowed : AuthError
  auth_address_invalid : AuthError
  chain_mismatch : AuthError
  auth_challenge_invalid : AuthError
  auth_challenge_mismatch : AuthError
  auth_origin_mismatch : AuthError
  auth_signature_invalid : AuthError
  auth_required : AuthError
  duplicate_key : AuthError

pub record Url : Type 0 where
  pub protocol : Text
  pub hostname : Text

-- The environment and the options of the service.
pub record AuthConfig : Type 0 where
  pub session_seconds : ℕ
  pub expected_chain_id : Option ℕ
  pub allowed_origins : Option (List Text)
  pub is_production : Bool

-- Code that is not of the repository: new URL, SHA-256, and the recovery of a signer, which throws on
-- a malformed signature.
pub record AuthLibrary : Type 0 where
  pub parse_url : Text → Option Url
  pub digest : Text → Text
  pub recover_signer : AuthChallenge → Text → Option Text

-- An authVerifyRequest that has passed its schema.
pub record VerifyRequest : Type 0 where
  pub challenge_id : Text
  pub address : Text
  pub chain_id : ℕ
  pub signature : Text

pub record Verified : Type 0 where
  pub token : Text
  pub address : Text
  pub chain_id : ℕ
  pub expires_at : ℕ

-- The selects by the primary keys.
unfoldable pub find_challenge : Text → List AuthChallenge → Option AuthChallenge
find_challenge id [] = none
find_challenge id (row ∷ rows) = if text_eq row.id id then some row else find_challenge id rows

unfoldable pub find_auth_session : Text → List AuthSession → Option AuthSession
find_auth_session hash [] = none
find_auth_session hash (row ∷ rows) =
    if text_eq row.token_hash hash then some row else find_auth_session hash rows

abbrev pub insert_unless : {A : Type 0} → Option A → A → List A → Result AuthError (List A)
insert_unless none row rows = ok (row ∷ rows)
insert_unless (some other) row rows = err duplicate_key

unfoldable pub save_auth_challenge :
    AuthChallenge → List AuthChallenge → Result AuthError (List AuthChallenge)
save_auth_challenge row rows = insert_unless (find_challenge row.id rows) row rows

abbrev pub is_open : AuthChallenge → ℕ → Bool
is_open row at = elim row.consumed_at [ none ↦ ltb at row.expires_at | some t ↦ false ]

-- The update of the row with the key: the condition leaves out consumed and expired rows.
unfoldable pub set_consumed : Text → (at : ℕ) → List AuthChallenge → List AuthChallenge
set_consumed id at [] = []
set_consumed id at (row ∷ rows) =
    if text_eq row.id id
    then (if is_open row at then record row { consumed_at = some at } else row) ∷ rows
    else row ∷ set_consumed id at rows

abbrev pub consume_found :
    List AuthChallenge → Text → ℕ → Option AuthChallenge → List AuthChallenge × Option AuthChallenge
consume_found rows id at none = (rows, none)
consume_found rows id at (some row) =
    if is_open row at
    then (set_consumed id at rows, find_challenge id (set_consumed id at rows))
    else (rows, none)

unfoldable pub consume_auth_challenge :
    List AuthChallenge → Text → (at : ℕ) → List AuthChallenge × Option AuthChallenge
consume_auth_challenge rows id at = consume_found rows id at (find_challenge id rows)

unfoldable pub save_auth_session :
    AuthSession → List AuthSession → Result AuthError (List AuthSession)
save_auth_session row rows =
    insert_unless (find_auth_session row.token_hash rows)
      (record row { owner_address = lower_case row.owner_address }) rows

abbrev pub unless_expired : ℕ → Option AuthSession → Option AuthSession
unless_expired at none = none
unless_expired at (some row) = if ltb at row.expires_at then some row else none

unfoldable pub get_auth_session : List AuthSession → Text → (at : ℕ) → Option AuthSession
get_auth_session rows hash at = unless_expired at (find_auth_session hash rows)

unfoldable pub delete_auth_session : Text → List AuthSession → List AuthSession
delete_auth_session hash [] = []
delete_auth_session hash (row ∷ rows) =
    if text_eq row.token_hash hash
    then delete_auth_session hash rows
    else row ∷ delete_auth_session hash rows
