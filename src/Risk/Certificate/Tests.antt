-- ===== src/Risk/Certificate/Tests.antt =====
-- Runs of the model of packages/services/src/risk-service.ts, and its theorems at those inputs.
use aurka.Prelude.{ℕ, zero, suc, ◌≡◌, refl, Bool, true, false, List, [], ◌∷◌, some, ok, arith}
use aurka.Prelude.Text.{Text, codes, text_eq, lower_case}
use aurka.Price.{is_hex_of}
use aurka.Financial.Integer.{to_uint256}
use aurka.Slots.{bytes_to_hex, bytes32_slot, uint_slot, address_slot}
use aurka.Watchtower.{risk_mode_rank}
use aurka.Watchtower.Evaluation.Samples.{input, fallen}
use aurka.Watchtower.Evaluation.Tests.{fall_run}
use aurka.Watchtower.Bounds.{expected_maximum}
use aurka.Repository.Jobs.{save_risk_job, queued}
use aurka.Risk.{RiskCertificate, Position, RiskTables, RegistryContext, signed}
use aurka.Risk.Certificate.{
  find_position, put_certificate, add_audit_event, hard_of, has_token, map_size, is_within,
  check_within, check_order, matches_bounds, build_certificate, bound_slots, hash_active_bounds,
  domain_hash, struct_hash, hash_risk_certificate, check_certificate, record_certificate,
  save_certificate,
}
use aurka.Risk.Certificate.Saved.{IsSaved, save_certificate-IsSaved}
use aurka.Risk.Certificate.Accepted.{IsFor, build_certificate_accepted}

-- A hash and a recovery that accept all.
abbrev zero_bytes : ℕ → List ℕ
zero_bytes zero = []
zero_bytes (suc n) = 0 ∷ zero_bytes n

abbrev pub keccak_256 : List ℕ → List ℕ
keccak_256 bytes = zero_bytes 32

abbrev pub verify_signature : Text → Text → Text → Bool
verify_signature signer digest signature = true

abbrev pub zero_hash : Text
zero_hash = codes "0x0000000000000000000000000000000000000000000000000000000000000000"

abbrev address : Text
address = codes "0xC000000000000000000000000000000000000000"

abbrev position : Position
position = record {
  id = codes "P";
  chain_id = 1;
  policy = record {
    id = zero_hash;
    nonce = codes "4";
    maximum_transaction_value = 1000;
    assets =
        record {
          token = codes "0xa100000000000000000000000000000000000000";
          minimum_weight_bps = 0;
          maximum_weight_bps = 10000;
        }
        ∷ [];
  };
}

abbrev pub context : RegistryContext
context = record {
  policy_id = zero_hash;
  chain_id = 1;
  registry = address;
  watchtower = address;
  policy_nonce = codes "4";
  authorization_epoch = codes "1";
  next_nonce = codes "7";
  authorized = true;
}

abbrev pub certificate : RiskCertificate
certificate =
    build_certificate context fallen zero_hash zero_hash zero_hash 1010 300 5000 (codes "0x1b")

abbrev pub tables : RiskTables
tables = record { positions = position ∷ []; certificates = []; audit_events = []; jobs = [] }

abbrev saved : RiskTables
saved = record tables {
  certificates =
      record { hash = zero_hash; certificate = certificate; status = signed; is_active = false }
      ∷ [];
  audit_events =
      record {
        id = zero_hash;
        position_id = codes "P";
        event_type = codes "RISK_CERTIFICATE_SIGNED";
        actor = address;
      }
      ∷ [];
  jobs =
      record {
        id = codes "renew:P:7";
        position_id = codes "P";
        status = queued;
        attempt = 0;
        next_run_at = 1250;
      }
      ∷ [];
}

hash_active_bounds_run :
    hash_active_bounds keccak_256 verify_signature fallen.selected_bounds ≡ ok zero_hash
unfolding hash_active_bounds bound_slots bytes_to_hex address_slot uint_slot to_uint256 is_hex_of
hash_active_bounds_run = refl

hash_risk_certificate_run :
    hash_risk_certificate keccak_256 verify_signature certificate ≡ ok zero_hash
unfolding hash_risk_certificate domain_hash struct_hash build_certificate bytes_to_hex address_slot
    uint_slot bytes32_slot to_uint256 is_hex_of risk_mode_rank
hash_risk_certificate_run = refl

save_certificate_run :
    save_certificate keccak_256 verify_signature tables (codes "P") certificate (some address) 1020
    ≡ ok (saved, zero_hash)
unfolding save_certificate check_certificate record_certificate find_position put_certificate
    add_audit_event save_risk_job hard_of has_token map_size is_within check_within check_order
    build_certificate hash_active_bounds bound_slots hash_risk_certificate domain_hash struct_hash
    bytes_to_hex address_slot uint_slot bytes32_slot to_uint256 is_hex_of risk_mode_rank
    expected_maximum lower_case text_eq
save_certificate_run = refl

save_certificate-IsSaved_example :
    IsSaved keccak_256 verify_signature tables
      (codes "P")
      certificate
      (some address)
      1020
      saved
      zero_hash
save_certificate-IsSaved_example =
    save_certificate-IsSaved keccak_256 verify_signature tables (codes "P") certificate
      (some address) 1020 save_certificate_run

is_for : IsFor keccak_256 verify_signature input context position
unfolding matches_bounds has_token lower_case text_eq
is_for = record {
  same_policy = refl;
  same_chain = refl;
  same_nonce = refl;
  same_maximum = refl;
  same_bounds = refl;
  distinct = (refl, tt);
}

build_certificate_accepted_example :
    check_certificate keccak_256 verify_signature
      (build_certificate context fallen zero_hash zero_hash zero_hash 1010 300 5000 (codes "0x1b"))
      position
      address
      1020
    ≡ ok zero_hash
build_certificate_accepted_example =
    build_certificate_accepted keccak_256 verify_signature input context position zero_hash
      zero_hash zero_hash (codes "0x1b") 1010 300 5000 1020 fallen zero_hash fall_run is_for
      (omega arith) (omega arith) hash_active_bounds_run hash_risk_certificate_run refl
