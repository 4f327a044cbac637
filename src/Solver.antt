-- ===== src/Solver.antt =====
-- packages/services/src/solver/proposals.ts: the validation of submitted proposals and their ranking.
pub mod Ranking
pub mod Order
pub mod Tests
use aurka.Prelude.{
  ℕ, Bool, true, false, ◌&&◌, not, List, [], ◌∷◌, Option, none, some, ltb, ◌==◌, if◌then◌else◌,
}
use aurka.Prelude.Text.{Text, text_eq}
use aurka.Financial.Constraints.{BindingConstraint}

-- A proposal that has passed its schema; a decimal string is the number that it denotes.
pub record AtomicSettlementProposal : Type 0 where
  pub intent_hash : Text
  pub solver : Text
  pub balances_hash : Text
  pub price_snapshot_hash : Text
  pub policy_nonce : ℕ
  pub risk_certificate_hash : Text
  pub trader_input_token : Text
  pub trader_output_token : Text
  pub trader_input_amount : ℕ
  pub trader_output_amount : ℕ
  pub solver_fee_amount : ℕ
  pub protocol_fee_amount : ℕ
  pub trader_input_value : ℕ
  pub trader_output_value : ℕ
  pub treasury_output_value : ℕ
  pub fee_bps_scaled : ℕ
  pub base_fee_amount : ℕ
  pub treasury_base_fee_amount : ℕ
  pub option_space_premium_amount : ℕ
  pub total_fee_amount : ℕ
  pub treasury_amount : ℕ
  pub solver_amount : ℕ
  pub protocol_amount : ℕ
  pub fee_token : Text
  pub fee_payment_mode : Text
  pub initial_portfolio_hash : Text
  pub capacity_baseline_value : ℕ
  pub consumed_before : ℕ
  pub consumed_after : ℕ
  pub capacity_epoch_id : Text
  pub utilization_before : ℕ
  pub utilization_after : ℕ
  pub binding_constraint : BindingConstraint
  pub binding_asset : Option Text
  pub expected_post_state_hash : Text
  pub aqua_strategy_hash : Text
  pub swap_vm_calldata_hash : Text
  pub deadline : ℕ
  pub signature : Option Text

pub data SimulationStatus : Type 0 where
  succeeded : SimulationStatus
  reverted : SimulationStatus
  stale : SimulationStatus
  authorization_pending : SimulationStatus

pub record ProposalSimulation : Type 0 where
  pub status : SimulationStatus
  pub gas_estimate : ℕ

pub record CollectedProposal : Type 0 where
  pub proposal : AtomicSettlementProposal
  pub proposal_hash : Text
  pub simulation : ProposalSimulation

abbrev pub has_succeeded : SimulationStatus → Bool
has_succeeded succeeded = true
has_succeeded reverted = false
has_succeeded stale = false
has_succeeded authorization_pending = false

-- What the collector is given: the hash of the intent, the hash of a proposal and the check of its
-- signature, which packages/services/src/solver computes with third-party curves, the simulator,
-- and localeCompare of two hashes, as the test that it is at most 0.
pub record Collector : Type 0 where
  pub intent_hash : Text
  pub hash_proposal : AtomicSettlementProposal → Text
  pub verify_proposal_signature : AtomicSettlementProposal → Text → Bool
  pub simulate : AtomicSettlementProposal → ProposalSimulation
  pub locale_le : Text → Text → Bool

module _ (collector : Collector) where
  -- The comparator is at most 0: more input, then more output, then less fee, then the hash.
  unfoldable pub ranks : CollectedProposal → CollectedProposal → Bool
  ranks left right =
      if not (left.proposal.trader_input_value == right.proposal.trader_input_value)
      then ltb right.proposal.trader_input_value left.proposal.trader_input_value
      else if not (left.proposal.trader_output_value == right.proposal.trader_output_value)
      then ltb right.proposal.trader_output_value left.proposal.trader_output_value
      else if not (left.proposal.total_fee_amount == right.proposal.total_fee_amount)
      then ltb left.proposal.total_fee_amount right.proposal.total_fee_amount
      else collector.locale_le left.proposal_hash right.proposal_hash

  unfoldable pub is_accepted : AtomicSettlementProposal → Bool
  is_accepted proposal =
      text_eq proposal.intent_hash collector.intent_hash
      && collector.verify_proposal_signature proposal (collector.hash_proposal proposal)
      && has_succeeded (collector.simulate proposal).status

  abbrev pub collected_proposal : AtomicSettlementProposal → CollectedProposal
  collected_proposal proposal = record {
    proposal = proposal;
    proposal_hash = collector.hash_proposal proposal;
    simulation = collector.simulate proposal;
  }

  unfoldable pub collect_accepted : List AtomicSettlementProposal → List CollectedProposal
  collect_accepted [] = []
  collect_accepted (proposal ∷ proposals) =
      let rest = collect_accepted proposals in
      if is_accepted proposal then collected_proposal proposal ∷ rest else rest

  -- The sort, which is stable.
  unfoldable pub insert_ranked : CollectedProposal → List CollectedProposal → List CollectedProposal
  insert_ranked entry [] = entry ∷ []
  insert_ranked entry (other ∷ others) =
      if ranks entry other then entry ∷ other ∷ others else other ∷ insert_ranked entry others

  unfoldable pub sort_ranked : List CollectedProposal → List CollectedProposal
  unfolding insert_ranked
  sort_ranked [] = []
  sort_ranked (entry ∷ entries) = insert_ranked entry (sort_ranked entries)

  unfoldable pub collect : List AtomicSettlementProposal → List CollectedProposal
  unfolding collect_accepted sort_ranked
  collect proposals = sort_ranked (collect_accepted proposals)

  abbrev pub first : List CollectedProposal → Option CollectedProposal
  first [] = none
  first (entry ∷ entries) = some entry

  -- Less the fill, which the direct solver recomputes.
  unfoldable pub select : List AtomicSettlementProposal → Option CollectedProposal
  unfolding collect
  select proposals = first (collect proposals)
