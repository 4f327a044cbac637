-- ===== src/Epoch.antt =====
-- packages/shared/src/epoch.ts: the commitment to a directional capacity epoch. The hash of
-- @noble/hashes is the parameter `keccak_256`.
pub mod Commitment
mod Tests
use aurka.Prelude.{
  ℕ, ◌%◌, List, [], ◌∷◌, map, not, Result, ok, err, ◌>>=◌, ◌>>◌, throw_if, if◌then◌else◌,
}
use aurka.Prelude.Text.{Text}
use aurka.Errors.{Error, not_bytes32, identifier_required, epoch_commitment_mismatch}
use aurka.Financial.Integer.{IntegerLike}
use aurka.Price.{is_bytes32, is_address, same_text}
use aurka.Slots.{bytes_to_hex, bytes32_slot, uint_slot, address_slot, concat_slots}

pub record CapacityEpoch : Type 0 where
  pub position_id : Text
  pub trader_input_token : Text
  pub trader_output_token : Text
  pub balance_snapshot : Text
  pub price_snapshot : Text
  pub portfolio_price_snapshot : Text
  pub policy_nonce : IntegerLike
  pub risk_certificate_hash : Text
  pub aqua_strategy_hash : Text
  pub capacity_baseline_value : IntegerLike
  pub consumed_before : IntegerLike
  pub chain_id : IntegerLike
  pub verifying_contract : Text

module _ (keccak_256 : List ℕ → List ℕ) where
  unfoldable pub hash_identifier : Text → Result Error Text
  hash_identifier [] = err identifier_required
  hash_identifier (c ∷ s) = ok (bytes_to_hex (keccak_256 (map (λ d. d % 256) (c ∷ s))))

  unfoldable pub token_id : Text → Result Error (List ℕ)
  token_id value =
      if is_address value then address_slot value else (hash_identifier value >>= bytes32_slot)

  unfoldable pub epoch_slots : CapacityEpoch → Result Error (List (List ℕ))
  epoch_slots epoch = do
    position ← hash_identifier epoch.position_id
    position_slot ← bytes32_slot position
    input ← token_id epoch.trader_input_token
    output ← token_id epoch.trader_output_token
    balance ← bytes32_slot epoch.balance_snapshot
    price ← bytes32_slot epoch.price_snapshot
    portfolio_price ← bytes32_slot epoch.portfolio_price_snapshot
    nonce ← uint_slot epoch.policy_nonce
    certificate ← bytes32_slot epoch.risk_certificate_hash
    strategy ← bytes32_slot epoch.aqua_strategy_hash
    baseline ← uint_slot epoch.capacity_baseline_value
    chain ← uint_slot epoch.chain_id
    contract ← address_slot epoch.verifying_contract
    ok (
        position_slot ∷ input ∷ output ∷ balance ∷ price ∷ portfolio_price ∷ nonce ∷ certificate
        ∷ strategy ∷ baseline ∷ chain ∷ contract ∷ [])

  unfoldable pub compute_capacity_epoch_id : CapacityEpoch → Result Error Text
  compute_capacity_epoch_id epoch = do
    slots ← epoch_slots epoch
    ok (bytes_to_hex (keccak_256 (concat_slots slots)))

  unfoldable pub assert_capacity_epoch : CapacityEpoch → Text → Result Error (Unit {0})
  assert_capacity_epoch epoch expected_capacity_epoch_id = do
    throw_if (not (is_bytes32 expected_capacity_epoch_id)) not_bytes32
    id ← compute_capacity_epoch_id epoch
    throw_if (not (same_text id expected_capacity_epoch_id)) epoch_commitment_mismatch
