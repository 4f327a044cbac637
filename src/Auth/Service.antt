-- ===== src/Auth/Service.antt =====
-- The calls of AuthService (packages/services/src/api/auth.ts): challenge, verify, authenticate and
-- clearCookie.
use aurka.Prelude.{
  ℕ, ◌+◌, Bool, false, ◌&&◌, ◌||◌, not, List, [], ◌∷◌, Option, none, some, Result, ok, err, ◌>>=◌,
  ◌>>◌, throw_if, ltb, ◌==◌, if◌then◌else◌,
}
use aurka.Prelude.Text.{Text, codes, text_eq, lower_case}
use aurka.Price.{is_address, same_text}
use aurka.Auth.{
  AuthChallenge, AuthSession, AuthTables, AuthError, auth_origin_invalid, auth_origin_not_allowed,
  auth_address_invalid, chain_mismatch, auth_challenge_invalid, auth_challenge_mismatch,
  auth_origin_mismatch, auth_signature_invalid, auth_required, Url, AuthConfig, AuthLibrary,
  VerifyRequest, Verified, save_auth_challenge, consume_auth_challenge, save_auth_session,
  get_auth_session, delete_auth_session,
}

unfoldable pub contains_text : Text → List Text → Bool
contains_text t [] = false
contains_text t (u ∷ us) = text_eq u t || contains_text t us

abbrev pub local_hosts : List Text
local_hosts = codes "localhost" ∷ codes "127.0.0.1" ∷ codes "[::1]" ∷ []

abbrev pub max : ℕ → ℕ → ℕ
max a b = if ltb a b then b else a

module _ (library : AuthLibrary) (config : AuthConfig) where
  abbrev pub check_allowed : Option (List Text) → Text → Url → Result AuthError (Unit {0})
  check_allowed (some origins) origin url =
      throw_if (not (contains_text origin origins)) auth_origin_not_allowed
  check_allowed none origin url =
      throw_if (not (contains_text url.hostname local_hosts) && config.is_production)
        auth_origin_not_allowed

  abbrev pub check_url : Text → Option Url → Result AuthError (Unit {0})
  check_url origin none = err auth_origin_invalid
  check_url origin (some url) = do
    throw_if
        (not (text_eq url.protocol (codes "http:")) && not (text_eq url.protocol (codes "https:")))
        auth_origin_invalid
    check_allowed config.allowed_origins origin url

  unfoldable pub assert_origin : Text → Result AuthError (Unit {0})
  assert_origin origin = check_url origin (library.parse_url origin)

  abbrev pub assert_request_origin : Option Text → Result AuthError (Unit {0})
  assert_request_origin none = ok tt
  assert_request_origin (some origin) = assert_origin origin

  abbrev pub is_other_chain : Option ℕ → ℕ → Bool
  is_other_chain none chain_id = false
  is_other_chain (some expected) chain_id = not (chain_id == expected)

  -- challenge: the identifier, the nonce and the time are what the source draws.
  unfoldable pub create_challenge :
      AuthTables
      → (address : Text) → (chain_id : ℕ) → (origin id nonce : Text) → (now : ℕ)
      → Result AuthError AuthTables
  create_challenge tables address chain_id origin id nonce now = do
    throw_if (not (is_address address)) auth_address_invalid
    throw_if (is_other_chain config.expected_chain_id chain_id) chain_mismatch
    assert_origin origin
    challenges ←
        save_auth_challenge
          (record {
            id = id;
            address = lower_case address;
            chain_id = chain_id;
            nonce = nonce;
            origin = origin;
            expires_at = now + 300;
            consumed_at = none;
          })
          tables.challenges
    ok (record tables { challenges = challenges })

  abbrev pub is_other_origin : Option Text → Text → Bool
  is_other_origin none origin = false
  is_other_origin (some requested) origin = not (text_eq origin requested)

  abbrev pub check_signer : AuthChallenge → Option Text → Result AuthError (Unit {0})
  check_signer challenge none = err auth_signature_invalid
  check_signer challenge (some signer) =
      throw_if (not (same_text signer challenge.address)) auth_signature_invalid

  -- The checks of verify on the challenge that it has consumed.
  unfoldable pub check_login :
      VerifyRequest → Option Text → AuthChallenge → Result AuthError (Unit {0})
  check_login value request_origin challenge = do
    throw_if
        (not (challenge.chain_id == value.chain_id)
          || not (same_text challenge.address value.address))
        auth_challenge_mismatch
    throw_if (is_other_origin request_origin challenge.origin) auth_origin_mismatch
    check_signer challenge (library.recover_signer challenge value.signature)

  unfoldable pub open_session :
      AuthTables
      → AuthChallenge
      → (token : Text) → (now : ℕ) → Result AuthError (AuthTables × Verified)
  open_session tables challenge token now = do
    let expires_at = now + max 300 config.session_seconds
    sessions ←
        save_auth_session
          (record {
            token_hash = library.digest token;
            owner_address = challenge.address;
            chain_id = challenge.chain_id;
            expires_at = expires_at;
          })
          tables.sessions
    ok (
      record tables { sessions = sessions },
      record {
        token = token;
        address = challenge.address;
        chain_id = challenge.chain_id;
        expires_at = expires_at;
      },
    )

  -- The tables after a call: those that it returns, or the ones it started from.
  abbrev pub settle_login :
      AuthTables → Result AuthError (AuthTables × Verified) → AuthTables × Result AuthError Verified
  settle_login tables (ok (opened, verified)) = (opened, ok verified)
  settle_login tables (err e) = (tables, err e)

  abbrev pub verify_consumed :
      VerifyRequest
      → Option Text
      → (token : Text) → (now : ℕ) → AuthTables
      → Option AuthChallenge
      → AuthTables × Result AuthError Verified
  verify_consumed value request_origin token now tables none = (tables, err auth_challenge_invalid)
  verify_consumed value request_origin token now tables (some challenge) =
      settle_login tables
        (check_login value request_origin challenge >> open_session tables challenge token now)

  abbrev pub verify_from :
      AuthTables
      → VerifyRequest
      → Option Text
      → (token : Text) → (consumed_at now : ℕ) → Result AuthError (Unit {0})
      → AuthTables × Result AuthError Verified
  verify_from tables value request_origin token consumed_at now (err e) = (tables, err e)
  verify_from tables value request_origin token consumed_at now (ok done) =
      let (challenges, challenge) =
        consume_auth_challenge tables.challenges value.challenge_id consumed_at in
      verify_consumed value request_origin token now (record tables { challenges = challenges })
        challenge

  -- verify: the token is drawn, and the clock is read at the consumption and at the session. A check
  -- that fails leaves the challenge consumed.
  unfoldable pub verify :
      AuthTables
      → VerifyRequest
      → (request_origin : Option Text) → (token : Text) → (consumed_at now : ℕ)
      → AuthTables × Result AuthError Verified
  verify tables value request_origin token consumed_at now =
      verify_from tables value request_origin token consumed_at now
        (assert_request_origin request_origin)

  abbrev pub required_auth_session : Option AuthSession → Result AuthError AuthSession
  required_auth_session none = err auth_required
  required_auth_session (some session) = ok session

  -- authenticate, by the token of the cookie.
  unfoldable pub authenticate : AuthTables → Option Text → (now : ℕ) → Result AuthError AuthSession
  authenticate tables none now = err auth_required
  authenticate tables (some token) now =
      required_auth_session (get_auth_session tables.sessions (library.digest token) now)

  -- clearCookie, by the token of the cookie.
  unfoldable pub clear_cookie : AuthTables → Option Text → AuthTables
  clear_cookie tables none = tables
  clear_cookie tables (some token) = record tables {
    sessions = delete_auth_session (library.digest token) tables.sessions;
  }
