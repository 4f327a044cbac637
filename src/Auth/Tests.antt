-- ===== src/Auth/Tests.antt =====
-- Logins in the model of packages/services/src/api/auth.ts, and its theorem at one of them.
use aurka.Prelude.{◌≡◌, refl, true, false, List, [], ◌∷◌, none, some, ok, err, ◌++◌, if◌then◌else◌}
use aurka.Prelude.Text.{Text, codes, text_eq, lower_case}
use aurka.Price.{is_hex_of}
use aurka.Auth.{
  AuthChallenge, AuthTables, AuthError, auth_origin_mismatch, auth_required, AuthConfig,
  AuthLibrary, VerifyRequest, Verified, find_challenge, find_auth_session, save_auth_challenge,
  set_consumed, consume_auth_challenge, save_auth_session, get_auth_session, delete_auth_session,
}
use aurka.Auth.Service.{
  contains_text, assert_origin, create_challenge, check_login, open_session, verify, authenticate,
  clear_cookie,
}
use aurka.Auth.Once.{Steps, then_step, no_step, cleared, verify_once}
use aurka.Auth.Checks.{IsLogin}

abbrev wallet : Text
wallet = codes "0xAb00000000000000000000000000000000000001"

abbrev local_origin : Text
local_origin = codes "http://localhost:3000"

-- A parser for one URL, a digest that marks its text, and a recovery that answers with the wallet.
abbrev library : AuthLibrary
library = record {
  parse_url = λ origin.
      if text_eq origin local_origin
      then some (record { protocol = codes "http:"; hostname = codes "localhost" })
      else none;
  digest = λ token. codes "#" ++ token;
  recover_signer = λ challenge signature. some wallet;
}

abbrev config : AuthConfig
config = record {
  session_seconds = 60;
  expected_chain_id = some 11155111;
  allowed_origins = none;
  is_production = true;
}

abbrev empty_tables : AuthTables
empty_tables = record { challenges = []; sessions = [] }

abbrev stored : AuthChallenge
stored = record {
  id = codes "c1";
  address = lower_case wallet;
  chain_id = 11155111;
  nonce = codes "ff";
  origin = local_origin;
  expires_at = 1300;
  consumed_at = none;
}

abbrev challenged : AuthTables
challenged = record empty_tables { challenges = stored ∷ [] }

create_challenge_run :
    create_challenge library config empty_tables wallet 11155111 local_origin
      (codes "c1")
      (codes "ff")
      1000
    ≡ ok challenged
unfolding create_challenge assert_origin contains_text save_auth_challenge find_challenge text_eq
    lower_case is_hex_of
create_challenge_run = refl

abbrev request : VerifyRequest
request = record {
  challenge_id = codes "c1";
  address = wallet;
  chain_id = 11155111;
  signature = codes "0x1b";
}

abbrev spent : List AuthChallenge
spent = record stored { consumed_at = some 1100 } ∷ []

abbrev logged_in : AuthTables
logged_in = record {
  challenges = spent;
  sessions =
      record {
        token_hash = codes "#t";
        owner_address = lower_case wallet;
        chain_id = 11155111;
        expires_at = 1400;
      }
      ∷ [];
}

abbrev verified : Verified
verified = record {
  token = codes "t";
  address = lower_case wallet;
  chain_id = 11155111;
  expires_at = 1400;
}

verify_run :
    verify library config challenged request (some local_origin) (codes "t") 1100 1100
    ≡ (logged_in, ok verified)
unfolding verify assert_origin contains_text consume_auth_challenge find_challenge set_consumed
    check_login open_session save_auth_session find_auth_session text_eq lower_case
verify_run = refl

-- A login from another origin fails, and its challenge is spent.
other_origin_run :
    verify library
      (record config { is_production = false })
      (record {
        challenges = record stored { origin = codes "http://localhost" } ∷ [];
        sessions = [];
      })
      request
      (some local_origin)
      (codes "t")
      1100
      1100
    ≡ (
      record {
        challenges =
            record stored { origin = codes "http://localhost"; consumed_at = some 1100 } ∷ [];
        sessions = [];
      },
      err auth_origin_mismatch,
    )
unfolding verify assert_origin contains_text consume_auth_challenge find_challenge set_consumed
    check_login text_eq lower_case
other_origin_run = refl

-- The session ends at its expiry.
authenticate_run : authenticate library config logged_in (some (codes "t")) 1400 ≡ err auth_required
unfolding authenticate get_auth_session find_auth_session text_eq
authenticate_run = refl

log_out : Steps library config logged_in (record logged_in { sessions = [] })
unfolding clear_cookie delete_auth_session text_eq
log_out = then_step (cleared logged_in (some (codes "t"))) (no_step _)

verify_once_example :
    IsLogin library config challenged request
      (some local_origin)
      (codes "t")
      1100
      1100
      logged_in
      verified
    × ((e : AuthError) × (verify library config
            (record logged_in { sessions = [] })
            request
            none
            (codes "u")
            1200
            1200
          ≡ (record logged_in { sessions = [] }, err e)))
verify_once_example =
    verify_once library config challenged request (some local_origin) (codes "t") 1100 1100
      logged_in verified verify_run (record logged_in { sessions = [] }) log_out request refl none
      (codes "u") 1200 1200
