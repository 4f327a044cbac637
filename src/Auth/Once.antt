-- ===== src/Auth/Once.antt =====
-- A challenge of packages/services/src/api/auth.ts logs in at most once, whatever is called meanwhile.
use aurka.Prelude.{
  ℕ, ◌+◌, ◌≡◌, refl, sym, subst, not, Option, none, some, Result, ok, err, >>=-eq-ok, throw_if_inv,
  ok-injective,
}
use aurka.Prelude.Text.{Text, lower_case}
use aurka.Price.{is_address}
use aurka.Auth.{
  AuthChallenge, AuthTables, AuthError, auth_challenge_invalid, auth_address_invalid,
  chain_mismatch, AuthLibrary, AuthConfig, VerifyRequest, Verified, save_auth_challenge,
  consume_auth_challenge,
}
use aurka.Auth.Service.{
  is_other_chain, assert_origin, create_challenge, check_login, open_session, settle_login,
  verify_consumed, verify_from, verify, clear_cookie,
}
use aurka.Auth.Consumption.{IsConsumed, consume-IsConsumed, consume_again, save-IsConsumed}
use aurka.Auth.Checks.{IsLogin, consumed_tables, open_session-IsOpened, verify-IsLogin}

module _ (library : AuthLibrary) (config : AuthConfig) where
  -- One call of the service, with whatever arguments.
  pub data Step : AuthTables → AuthTables → Type 0 where
    challenged :
        (tables after : AuthTables) (address : Text) (chain_id : ℕ) (origin id nonce : Text)
        (now : ℕ)
        → create_challenge library config tables address chain_id origin id nonce now ≡ ok after
        → Step tables after
    verified :
        (tables : AuthTables) (value : VerifyRequest) (request_origin : Option Text) (token : Text)
        (consumed_at now : ℕ)
        → Step tables (verify library config tables value request_origin token consumed_at now).0
    cleared :
        (tables : AuthTables) (token : Option Text)
        → Step tables (clear_cookie library config tables token)

  pub data Steps : AuthTables → AuthTables → Type 0 where
    no_step : (tables : AuthTables) → Steps tables tables
    then_step :
        {tables between after : AuthTables}
        → Step tables between
        → Steps between after
        → Steps tables after

  settled-challenges :
      (tables : AuthTables) (r : Result AuthError (AuthTables × Verified))
      → ((opened : AuthTables) (v : Verified)
          → r ≡ ok (opened, v)
          → opened.challenges ≡ tables.challenges)
      → (settle_login library config tables r).0.challenges ≡ tables.challenges
  settled-challenges tables (ok (opened, v)) h = h opened v refl
  settled-challenges tables (err x) h = refl

  verify_consumed-challenges :
      (value : VerifyRequest) (request_origin : Option Text) (token : Text) (now : ℕ)
      (tables : AuthTables) (o : Option AuthChallenge)
      → (verify_consumed library config value request_origin token now tables o).0.challenges
        ≡ tables.challenges
  verify_consumed-challenges value request_origin token now tables none = refl
  verify_consumed-challenges value request_origin token now tables (some c) =
      settled-challenges tables _ (λ opened v e.
        let (done, checked, session) =
          >>=-eq-ok (check_login library config value request_origin c)
            (λ done. open_session library config tables c token now) e in
        (open_session-IsOpened library config tables c token now opened v session).keeps)

  verify_from-IsConsumed :
      (id : Text) (tables : AuthTables) (value : VerifyRequest) (request_origin : Option Text)
      (token : Text) (consumed_at now : ℕ) (r : Result AuthError (Unit {0}))
      → IsConsumed tables.challenges id
      → IsConsumed
          (verify_from library config tables value request_origin token consumed_at now
            r).0.challenges
          id
  verify_from-IsConsumed id tables value request_origin token consumed_at now (err x) h = h
  verify_from-IsConsumed id tables value request_origin token consumed_at now (ok done) h =
      subst (λ rows. IsConsumed rows id)
        (sym (
          verify_consumed-challenges value request_origin token now
            (consumed_tables library config tables value consumed_at)
            (consume_auth_challenge tables.challenges value.challenge_id consumed_at).1))
        (consume-IsConsumed id value.challenge_id consumed_at tables.challenges h)

  create_challenge-IsConsumed :
      (id : Text) (tables after : AuthTables) (address : Text) (chain_id : ℕ)
      (origin drawn nonce : Text) (now : ℕ)
      → create_challenge library config tables address chain_id origin drawn nonce now ≡ ok after
      → IsConsumed tables.challenges id
      → IsConsumed after.challenges id
  unfolding create_challenge
  create_challenge-IsConsumed id tables after address chain_id origin drawn nonce now e h =
      let row : AuthChallenge = record {
        id = drawn;
        address = lower_case address;
        chain_id = chain_id;
        nonce = nonce;
        origin = origin;
        expires_at = now + 300;
        consumed_at = none;
      } in
      let (valid, e1) = throw_if_inv (not (is_address address)) auth_address_invalid _ e in
      let (same_chain, e2) =
        throw_if_inv (is_other_chain library config config.expected_chain_id chain_id)
          chain_mismatch _ e1 in
      let (allowed, origin_checked, e3) = >>=-eq-ok (assert_origin library config origin) _ e2 in
      let (challenges, saved, rest) =
        >>=-eq-ok (save_auth_challenge row tables.challenges)
          (λ rows. ok (record tables { challenges = rows })) e3 in
      subst (λ t. IsConsumed t.challenges id) (ok-injective rest)
        (save-IsConsumed id row tables.challenges challenges saved h)

  Step-IsConsumed :
      (id : Text) {tables after : AuthTables}
      → Step tables after
      → IsConsumed tables.challenges id
      → IsConsumed after.challenges id
  unfolding verify clear_cookie
  Step-IsConsumed id (challenged tables after address chain_id origin drawn nonce now e) h =
      create_challenge-IsConsumed id tables after address chain_id origin drawn nonce now e h
  Step-IsConsumed id (verified tables value request_origin token consumed_at now) h =
      verify_from-IsConsumed id tables value request_origin token consumed_at now _ h
  Step-IsConsumed id (cleared tables none) h = h
  Step-IsConsumed id (cleared tables (some token)) h = h

  Steps-IsConsumed :
      (id : Text) {tables after : AuthTables}
      → Steps tables after
      → IsConsumed tables.challenges id
      → IsConsumed after.challenges id
  Steps-IsConsumed id (no_step tables) h = h
  Steps-IsConsumed id (then_step step steps) h =
      Steps-IsConsumed id steps (Step-IsConsumed id step h)

  verify_from_again :
      (tables : AuthTables) (value : VerifyRequest) (request_origin : Option Text) (token : Text)
      (consumed_at now : ℕ) (r : Result AuthError (Unit {0}))
      → IsConsumed tables.challenges value.challenge_id
      → (e : AuthError) × (verify_from library config tables value request_origin token consumed_at
            now r
          ≡ (tables, err e))
  verify_from_again tables value request_origin token consumed_at now (err x) h = (x, refl)
  verify_from_again tables value request_origin token consumed_at now (ok done) h = (
    auth_challenge_invalid,
    rw (consume_again value.challenge_id consumed_at tables.challenges h) refl,
  )

  -- A login that returns is for a stored challenge that was neither consumed nor expired, of the
  -- request's chain and address and of the origin that the request gives, whose recovered signer is
  -- the challenge's address; its session is stored under the token's digest, for that address, and
  -- lasts at least 300 seconds. After any further calls of the service, a login by the same challenge
  -- is refused and changes nothing.
  pub verify_once :
      (tables : AuthTables) (value : VerifyRequest) (request_origin : Option Text) (token : Text)
      (consumed_at now : ℕ) (after : AuthTables) (v : Verified)
      → verify library config tables value request_origin token consumed_at now ≡ (after, ok v)
      → (later : AuthTables) → Steps after later
      → (again : VerifyRequest) → again.challenge_id ≡ value.challenge_id
      → (origin_again : Option Text) (token_again : Text) (consumed_again now_again : ℕ)
      → IsLogin library config tables value request_origin token consumed_at now after v
        × ((e : AuthError) × (verify library config later again origin_again token_again
                consumed_again now_again
              ≡ (later, err e)))
  unfolding verify
  verify_once tables value request_origin token consumed_at now after v e later steps again same
        origin_again token_again consumed_again now_again =
      let (login, consumed) =
        verify-IsLogin library config tables value request_origin token consumed_at now after v e in
      let still : IsConsumed later.challenges again.challenge_id =
        subst (IsConsumed later.challenges) (sym same)
          (Steps-IsConsumed value.challenge_id steps consumed) in
      (
        login,
        verify_from_again later again origin_again token_again consumed_again now_again _ still,
      )
