-- ===== src/Settlement/Commitments.antt =====
-- What has been checked of the commitments when a settlement is returned.
use aurka.Prelude.{
  not-false, nor-both, ℕ, ◌≡◌, ◌∙◌, ap, true, ◌||◌, not, List, ok, arith, >>=-eq-ok, throw_if_inv,
  throw_if-eq-ok, ltb, ◌==◌,
}
use aurka.Prelude.Text.{Text, codes, text_eq→eq}
use aurka.Errors.{
  consumed_exceeds_capacity, fee_token_mismatch, epoch_state_mismatch, epoch_direction_mismatch,
  decimal_scales_mismatch, price_token_mismatch, epoch_commitment_mismatch, not_bytes32,
}
use aurka.Financial.Integer.{to_uint256}
use aurka.Price.{is_bytes32, same_text, assert_settlement_price_protection}
use aurka.Price.Protection.{
  IsProtectedSettlement, assert_settlement_price_protection-IsProtectedSettlement,
}
use aurka.Epoch.{CapacityEpoch, compute_capacity_epoch_id, assert_capacity_epoch}
use aurka.Settlement.{
  DirectSettlementInput, DirectSettlementResult, epoch_consumption, scales_match, find_asset,
  assert_settlement_decimal_scales, check_commitments, calculate_direct_settlement,
}

module _ (keccak_256 : List ℕ → List ℕ) where
  -- The identifier is the hash of the epoch, in either case.
  pub record IsEpochId (epoch : CapacityEpoch) (id : Text) : Type 0 where
    pub computed : Text
    pub computes : compute_capacity_epoch_id keccak_256 epoch ≡ ok computed
    pub same : same_text computed id ≡ true
    pub well_formed : is_bytes32 id ≡ true

  pub record IsCommitted (input : DirectSettlementInput) : Type 0 where
    pub baseline : ℕ
    pub consumed : ℕ
    pub paid_in_output : input.fee_accounting.fee_payment_mode ≡ codes "OUTPUT_TOKEN"
    pub fee_token : same_text input.fee_accounting.fee_token input.trader_output_token ≡ true
    pub baseline_reads : to_uint256 input.capacity_baseline_value ≡ ok baseline
    pub consumed_reads : to_uint256 input.consumed_before ≡ ok consumed
    pub epoch_baseline : to_uint256 input.capacity_epoch.capacity_baseline_value ≡ ok baseline
    pub epoch_consumed : to_uint256 input.capacity_epoch.consumed_before ≡ ok consumed
    pub epoch_input :
        same_text input.capacity_epoch.trader_input_token input.trader_input_token ≡ true
    pub epoch_output :
        same_text input.capacity_epoch.trader_output_token input.trader_output_token ≡ true
    pub scales :
        scales_match
          (find_asset input.trader_input_token input.portfolio.assets)
          (find_asset input.trader_output_token input.portfolio.assets)
          input.price_protection
          input.portfolio.value_decimals
        ≡ true
    pub epoch_id : IsEpochId input.capacity_epoch input.capacity_epoch_id
    pub price_input :
        same_text input.price_protection.trader_input_reference_price.token input.trader_input_token
        ≡ true
    pub price_output :
        same_text input.price_protection.trader_output_reference_price.token
          input.trader_output_token
        ≡ true
    pub protected : IsProtectedSettlement input.price_protection

  assert_capacity_epoch-IsEpochId :
      (epoch : CapacityEpoch) (id : Text)
      → assert_capacity_epoch keccak_256 epoch id ≡ ok tt
      → IsEpochId epoch id
  unfolding assert_capacity_epoch
  assert_capacity_epoch-IsEpochId epoch id e =
      let (formed, e1) = throw_if_inv (not (is_bytes32 id)) not_bytes32 _ e in
      let (computed, ec, e2) = >>=-eq-ok (compute_capacity_epoch_id keccak_256 epoch) _ e1 in
      let matched = throw_if-eq-ok (not (same_text computed id)) epoch_commitment_mismatch e2 in
      record {
        computed = computed;
        computes = ec;
        same = not-false _ matched;
        well_formed = not-false _ formed;
      }

  scales_inv :
      (input : DirectSettlementInput)
      → assert_settlement_decimal_scales input ≡ ok tt
      → scales_match
          (find_asset input.trader_input_token input.portfolio.assets)
          (find_asset input.trader_output_token input.portfolio.assets)
          input.price_protection
          input.portfolio.value_decimals
        ≡ true
  unfolding assert_settlement_decimal_scales
  scales_inv input e = not-false _ (throw_if-eq-ok (not _) decimal_scales_mismatch e)

  epoch_state_inv :
      (input : DirectSettlementInput) (read baseline : ℕ) {n : ℕ}
      → epoch_consumption input read baseline ≡ ok n
      → (read ≡ baseline) × (to_uint256 input.capacity_epoch.consumed_before ≡ ok n)
  epoch_state_inv input read baseline e = ground arith

  check_commitments-IsCommitted :
      (input : DirectSettlementInput) (baseline consumed : ℕ)
      → to_uint256 input.capacity_baseline_value ≡ ok baseline
      → to_uint256 input.consumed_before ≡ ok consumed
      → check_commitments keccak_256 input baseline consumed ≡ ok tt
      → IsCommitted input
  unfolding check_commitments
  check_commitments-IsCommitted input baseline consumed eb ec e =
      let (paid, e1) = throw_if_inv (not _ || not _) fee_token_mismatch _ e in
      let (read, er, e2) =
        >>=-eq-ok (to_uint256 input.capacity_epoch.capacity_baseline_value) _ e1 in
      let (used, eu, e3) = >>=-eq-ok (epoch_consumption input read baseline) _ e2 in
      let (same, e4) = throw_if_inv (not (used == consumed)) epoch_state_mismatch _ e3 in
      let (direction, e5) = throw_if_inv (not _ || not _) epoch_direction_mismatch _ e4 in
      let (_, escale, e6) = >>=-eq-ok (assert_settlement_decimal_scales input) _ e5 in
      let (_, eid, e7) =
        >>=-eq-ok (assert_capacity_epoch keccak_256 input.capacity_epoch input.capacity_epoch_id) _
          e6 in
      let (tokens, e8) = throw_if_inv (not _ || not _) price_token_mismatch _ e7 in
      let (_, eprice, _) =
        >>=-eq-ok (assert_settlement_price_protection input.price_protection) _ e8 in
      let (mode, token) = nor-both _ _ paid in
      let (from, to) = nor-both _ _ direction in
      let (bought, sold) = nor-both _ _ tokens in
      let (read_is, used_reads) = epoch_state_inv input read baseline eu in
      let used_is : used ≡ consumed = ground (arith, same) in
      record {
        baseline = baseline;
        consumed = consumed;
        paid_in_output = text_eq→eq _ _ mode;
        fee_token = token;
        baseline_reads = eb;
        consumed_reads = ec;
        epoch_baseline = er ∙ ap ok read_is;
        epoch_consumed = used_reads ∙ ap ok used_is;
        epoch_input = from;
        epoch_output = to;
        scales = scales_inv input escale;
        epoch_id = assert_capacity_epoch-IsEpochId input.capacity_epoch input.capacity_epoch_id eid;
        price_input = bought;
        price_output = sold;
        protected =
            assert_settlement_price_protection-IsProtectedSettlement input.price_protection eprice;
      }

  -- Whenever a settlement is returned: the fee is paid in the output token; the epoch's baseline,
  -- consumption and direction are the settlement's own; its identifier is the hash of the epoch;
  -- the decimals of prices and portfolio agree; the prices are of the two tokens; and the prices are
  -- fresh, approved, within the deviation, and the exchange at them keeps its value.
  pub calculate_direct_settlement-IsCommitted :
      (input : DirectSettlementInput) {r : DirectSettlementResult}
      → calculate_direct_settlement keccak_256 input ≡ ok r
      → IsCommitted input
  unfolding calculate_direct_settlement
  calculate_direct_settlement-IsCommitted input {r} e =
      let (requested, er, e1) = >>=-eq-ok (to_uint256 input.requested_value) _ e in
      let (consumed, eu, e2) = >>=-eq-ok (to_uint256 input.consumed_before) _ e1 in
      let (baseline, eb, e3) = >>=-eq-ok (to_uint256 input.capacity_baseline_value) _ e2 in
      let (_, e4) = throw_if_inv (ltb baseline consumed) consumed_exceeds_capacity _ e3 in
      let (_, checked, _) = >>=-eq-ok (check_commitments keccak_256 input baseline consumed) _ e4 in
      check_commitments-IsCommitted input baseline consumed eb eu checked
