-- ===== src/Auth/Checks.antt =====
-- What a login of packages/services/src/api/auth.ts has checked (verify).
use aurka.Prelude.{
  not-false, nor-both, ℕ, ◌+◌, ◌≤◌, ◌≡◌, refl, sym, ap, ◌∙◌, subst, inl, inr, true, false, List,
  Option, none, some, Result, ok, err, get_ok, >>=-eq-ok, throw_if_inv, throw_if-eq-ok, ltb→lt,
  ok-injective, Bool-cases, Option-cases, ltb, ◌==◌, arith,
}
use aurka.Prelude.Text.{Text, text_eq_refl, lower_case}
use aurka.Price.{same_text}
use aurka.Auth.{
  AuthChallenge, AuthSession, AuthTables, AuthError, duplicate_key, auth_challenge_invalid,
  AuthLibrary, AuthConfig, VerifyRequest, Verified, find_challenge, find_auth_session, is_open,
  consume_auth_challenge, save_auth_session,
}
use aurka.Auth.Service.{
  max, is_other_origin, check_signer, check_login, open_session, settle_login, verify_consumed,
  verify_from, verify,
}
use aurka.Auth.Consumption.{IsConsumed, consume-WasOpen}

lasting : (now m x : ℕ) → x ≡ now + m → 300 ≤ m → now + 300 ≤ x
lasting now m x e h = omega arith

module _ (library : AuthLibrary) (config : AuthConfig) where
  -- What a login has checked, and the session that it has stored.
  pub record IsLogin (tables : AuthTables) (value : VerifyRequest) (request_origin : Option Text)
      (token : Text) (consumed_at now : ℕ) (after : AuthTables) (verified : Verified) : Type 0 where
    pub challenge : AuthChallenge
    pub signer : Text
    pub is_stored : find_challenge value.challenge_id tables.challenges ≡ some challenge
    pub is_free : is_open challenge consumed_at ≡ true
    pub same_chain : (challenge.chain_id == value.chain_id) ≡ true
    pub same_address : same_text challenge.address value.address ≡ true
    pub same_origin : is_other_origin library config request_origin challenge.origin ≡ false
    pub is_recovered :
        library.recover_signer (record challenge { consumed_at = some consumed_at }) value.signature
        ≡ some signer
    pub is_signer : same_text signer challenge.address ≡ true
    pub opens :
        find_auth_session (library.digest token) after.sessions
        ≡ some (record {
          token_hash = library.digest token;
          owner_address = lower_case challenge.address;
          chain_id = challenge.chain_id;
          expires_at = verified.expires_at;
        })
    pub lasts : now + 300 ≤ verified.expires_at

  settle-ok :
      (tables after : AuthTables) (v : Verified) (r : Result AuthError (AuthTables × Verified))
      → settle_login library config tables r ≡ (after, ok v)
      → r ≡ ok (after, v)
  settle-ok tables after v (ok (opened, w)) e = ap ok (ap (λ p. (p.0, get_ok w p.1)) e)
  settle-ok tables after v (err x) e =
      let refused : ◌≡◌ {A = Result AuthError Verified} (err x) (ok v) = ap (λ p. p.1) e in cc

  saved_session :
      (row : AuthSession) (rows after : List AuthSession)
      → save_auth_session row rows ≡ ok after
      → find_auth_session row.token_hash after
        ≡ some (record row { owner_address = lower_case row.owner_address })
  unfolding save_auth_session find_auth_session
  saved_session row rows after e = elim (Option-cases (find_auth_session row.token_hash rows)) [
    | inl absent ↦
        ap (find_auth_session row.token_hash) (sym (ok-injective (rw absent at e)))
        ∙ rw (text_eq_refl row.token_hash) refl
    | inr (other, found) ↦
        let refused : ◌≡◌ {A = Result AuthError (List AuthSession)} (err duplicate_key) (ok after) =
          rw found at e in
        cc
  ]

  -- A session that has been opened.
  pub record IsOpened (tables : AuthTables) (c : AuthChallenge) (token : Text) (now : ℕ)
      (after : AuthTables) (v : Verified) : Type 0 where
    pub keeps : after.challenges ≡ tables.challenges
    pub expires : v.expires_at ≡ now + max 300 config.session_seconds
    pub stored :
        find_auth_session (library.digest token) after.sessions
        ≡ some (record {
          token_hash = library.digest token;
          owner_address = lower_case c.address;
          chain_id = c.chain_id;
          expires_at = v.expires_at;
        })

  pub open_session-IsOpened :
      (tables : AuthTables) (c : AuthChallenge) (token : Text) (now : ℕ) (after : AuthTables)
      (v : Verified)
      → open_session library config tables c token now ≡ ok (after, v)
      → IsOpened tables c token now after v
  unfolding open_session
  open_session-IsOpened tables c token now after v e =
      let (sessions, saved, rest) = >>=-eq-ok _ _ e in
      let same : (
        record tables { sessions = sessions },
        record {
          token = token;
          address = c.address;
          chain_id = c.chain_id;
          expires_at = now + max 300 config.session_seconds;
        },
      )
          ≡ (after, v) =
        ok-injective rest in
      let expires : v.expires_at ≡ now + max 300 config.session_seconds =
        sym (ap (λ p. p.1.expires_at) same) in
      record {
        keeps = sym (ap (λ p. p.0.challenges) same);
        expires = expires;
        stored =
            sym (ap (λ p. find_auth_session (library.digest token) p.0.sessions) same)
            ∙ saved_session _ tables.sessions sessions saved
            ∙ ap
                (λ at. some (record {
                  token_hash = library.digest token;
                  owner_address = lower_case c.address;
                  chain_id = c.chain_id;
                  expires_at = at;
                }))
                (sym expires);
      }

  -- The checks that a login has passed.
  record IsChecked (value : VerifyRequest) (request_origin : Option Text) (c : AuthChallenge)
      : Type 0 where
    pub signer : Text
    pub same_chain : (c.chain_id == value.chain_id) ≡ true
    pub same_address : same_text c.address value.address ≡ true
    pub same_origin : is_other_origin library config request_origin c.origin ≡ false
    pub is_recovered : library.recover_signer c value.signature ≡ some signer
    pub is_signer : same_text signer c.address ≡ true

  check_signer-ok :
      (c : AuthChallenge) (o : Option Text)
      → check_signer library config c o ≡ ok tt
      → (signer : Text) × (o ≡ some signer) × (same_text signer c.address ≡ true)
  check_signer-ok c none e = cc
  check_signer-ok c (some signer) e = (signer, refl, not-false _ (throw_if-eq-ok _ _ e))

  check_login-IsChecked :
      (value : VerifyRequest) (request_origin : Option Text) (c : AuthChallenge)
      → check_login library config value request_origin c ≡ ok tt
      → IsChecked value request_origin c
  unfolding check_login
  check_login-IsChecked value request_origin c e =
      let (same, e1) = throw_if_inv _ _ _ e in
      let (same_origin, e2) = throw_if_inv _ _ _ e1 in
      let (signer, is_recovered, is_signer) =
        check_signer-ok c (library.recover_signer c value.signature) e2 in
      record {
        signer = signer;
        same_chain = (nor-both _ _ same).0;
        same_address = (nor-both _ _ same).1;
        same_origin = same_origin;
        is_recovered = is_recovered;
        is_signer = is_signer;
      }

  max-ge : (s : ℕ) → 300 ≤ max 300 s
  max-ge s = elim (Bool-cases (ltb 300 s)) [
    | inl above ↦ rw above (ground (arith, ltb→lt 300 s above))
    | inr below ↦ rw below (omega arith)
  ]

  -- A login that returned has passed its checks and opened a session for one challenge.
  record IsReturned (value : VerifyRequest) (request_origin : Option Text) (token : Text) (now : ℕ)
      (tables : AuthTables) (o : Option AuthChallenge) (after : AuthTables) (v : Verified)
      : Type 0 where
    pub challenge : AuthChallenge
    pub given : o ≡ some challenge
    pub checked : IsChecked value request_origin challenge
    pub opened : IsOpened tables challenge token now after v

  verify_consumed-IsReturned :
      (value : VerifyRequest) (request_origin : Option Text) (token : Text) (now : ℕ)
      (tables : AuthTables) (o : Option AuthChallenge) (after : AuthTables) (v : Verified)
      → verify_consumed library config value request_origin token now tables o ≡ (after, ok v)
      → IsReturned value request_origin token now tables o after v
  verify_consumed-IsReturned value request_origin token now tables none after v e =
      let refused : ◌≡◌ {A = Result AuthError Verified} (err auth_challenge_invalid) (ok v) =
        ap (λ p. p.1) e in
      cc
  verify_consumed-IsReturned value request_origin token now tables (some c) after v e =
      let (done, checked, opened) =
        >>=-eq-ok (check_login library config value request_origin c)
          (λ done. open_session library config tables c token now) (settle-ok tables after v _ e) in
      record {
        challenge = c;
        given = refl;
        checked = check_login-IsChecked value request_origin c checked;
        opened = open_session-IsOpened tables c token now after v opened;
      }

  -- The tables once verify has consumed its challenge.
  abbrev pub consumed_tables : AuthTables → VerifyRequest → ℕ → AuthTables
  consumed_tables tables value at = record tables {
    challenges = (consume_auth_challenge tables.challenges value.challenge_id at).0;
  }

  verify_from-IsReturned :
      (tables : AuthTables) (value : VerifyRequest) (request_origin : Option Text) (token : Text)
      (consumed_at now : ℕ) (r : Result AuthError (Unit {0})) (after : AuthTables) (v : Verified)
      → verify_from library config tables value request_origin token consumed_at now r
        ≡ (after, ok v)
      → IsReturned value request_origin token now
          (consumed_tables tables value consumed_at)
          (consume_auth_challenge tables.challenges value.challenge_id consumed_at).1
          after
          v
  verify_from-IsReturned tables value request_origin token consumed_at now (err x) after v e =
      let refused : ◌≡◌ {A = Result AuthError Verified} (err x) (ok v) = ap (λ p. p.1) e in cc
  verify_from-IsReturned tables value request_origin token consumed_at now (ok done) after v e =
      verify_consumed-IsReturned value request_origin token now _ _ after v e

  -- A login, and the consumption that it leaves.
  pub verify-IsLogin :
      (tables : AuthTables) (value : VerifyRequest) (request_origin : Option Text) (token : Text)
      (consumed_at now : ℕ) (after : AuthTables) (v : Verified)
      → verify library config tables value request_origin token consumed_at now ≡ (after, ok v)
      → IsLogin tables value request_origin token consumed_at now after v
        × IsConsumed after.challenges value.challenge_id
  unfolding verify
  verify-IsLogin tables value request_origin token consumed_at now after v e =
      let h =
        verify_from-IsReturned tables value request_origin token consumed_at now _ after v e in
      let w =
        consume-WasOpen value.challenge_id consumed_at tables.challenges h.challenge h.given in
      (
        record {
          challenge = w.row;
          signer = h.checked.signer;
          is_stored = w.found;
          is_free = w.is_free;
          same_chain =
              ap (λ c. c.chain_id == value.chain_id) (sym w.returned) ∙ h.checked.same_chain;
          same_address =
              ap (λ c. same_text c.address value.address) (sym w.returned) ∙ h.checked.same_address;
          same_origin =
              ap (λ c. is_other_origin library config request_origin c.origin) (sym w.returned)
              ∙ h.checked.same_origin;
          is_recovered =
              ap (λ c. library.recover_signer c value.signature) (sym w.returned)
              ∙ h.checked.is_recovered;
          is_signer =
              ap (λ c. same_text h.checked.signer c.address) (sym w.returned) ∙ h.checked.is_signer;
          opens =
              h.opened.stored
              ∙ ap
                  (λ c. some (record {
                    token_hash = library.digest token;
                    owner_address = lower_case c.address;
                    chain_id = c.chain_id;
                    expires_at = v.expires_at;
                  }))
                  w.returned;
          lasts = lasting now _ _ h.opened.expires (max-ge config.session_seconds);
        },
        subst (λ rows. IsConsumed rows value.challenge_id) (sym h.opened.keeps) w.after,
      )
