-- ===== src/Epoch/Commitment.antt =====
-- What the pre-image of an epoch's identifier determines.
use aurka.Prelude.{
  ℕ, zero, suc, inl, inr, Bool-cases, ◌≡◌, refl, sym, ◌∙◌, ap, subst, List, [], ◌∷◌, length, All,
  ok, ◌>>=◌, >>=-eq-ok, ok-injective,
}
use aurka.Prelude.Text.{Text}
use aurka.Financial.Integer.{IntegerLike, to_uint256}
use aurka.Price.{is_address}
use aurka.Slots.{bytes32_slot, uint_slot, address_slot, concat_slots}
use aurka.Slots.Laws.{uint_slot-inv, bytes32_slot-inv, address_slot-inv, concat_slots-injective}
use aurka.Epoch.{CapacityEpoch, hash_identifier, token_id, epoch_slots}

-- The slot at a place.
abbrev nth : ℕ → List (List ℕ) → List ℕ
nth i [] = []
nth zero (s ∷ ss) = s
nth (suc i) (s ∷ ss) = nth i ss

module _ (keccak_256 : List ℕ → List ℕ) where
  -- Each slot of an epoch, and its length.
  record HasSlots (e : CapacityEpoch) (slots : List (List ℕ)) : Type 0 where
    pub count : length slots ≡ 12
    pub sizes : All (λ s. length s ≡ 32) slots
    pub position : (hash_identifier keccak_256 e.position_id >>= bytes32_slot) ≡ ok (nth 0 slots)
    pub input : token_id keccak_256 e.trader_input_token ≡ ok (nth 1 slots)
    pub output : token_id keccak_256 e.trader_output_token ≡ ok (nth 2 slots)
    pub balance : bytes32_slot e.balance_snapshot ≡ ok (nth 3 slots)
    pub price : bytes32_slot e.price_snapshot ≡ ok (nth 4 slots)
    pub portfolio_price : bytes32_slot e.portfolio_price_snapshot ≡ ok (nth 5 slots)
    pub nonce : uint_slot e.policy_nonce ≡ ok (nth 6 slots)
    pub certificate : bytes32_slot e.risk_certificate_hash ≡ ok (nth 7 slots)
    pub strategy : bytes32_slot e.aqua_strategy_hash ≡ ok (nth 8 slots)
    pub baseline : uint_slot e.capacity_baseline_value ≡ ok (nth 9 slots)
    pub chain : uint_slot e.chain_id ≡ ok (nth 10 slots)
    pub contract : address_slot e.verifying_contract ≡ ok (nth 11 slots)

  token_id-inv : (v : Text) {slot : List ℕ} → token_id keccak_256 v ≡ ok slot → length slot ≡ 32
  unfolding token_id
  token_id-inv v e = elim (Bool-cases (is_address v)) [
    | inl is_one ↦ address_slot-inv v (rw is_one at e)
    | inr symbol ↦
        let (id, _, e1) = >>=-eq-ok (hash_identifier keccak_256 v) bytes32_slot (rw symbol at e) in
        bytes32_slot-inv id e1
  ]

  -- The slots, from the calls that made them.
  HasSlots-of :
      (e : CapacityEpoch) (s0 s1 s2 s3 s4 s5 s6 s7 s8 s9 s10 s11 : List ℕ)
      → length s0 ≡ 32
      → (hash_identifier keccak_256 e.position_id >>= bytes32_slot) ≡ ok s0
      → token_id keccak_256 e.trader_input_token ≡ ok s1
      → token_id keccak_256 e.trader_output_token ≡ ok s2
      → bytes32_slot e.balance_snapshot ≡ ok s3
      → bytes32_slot e.price_snapshot ≡ ok s4
      → bytes32_slot e.portfolio_price_snapshot ≡ ok s5
      → uint_slot e.policy_nonce ≡ ok s6
      → bytes32_slot e.risk_certificate_hash ≡ ok s7
      → bytes32_slot e.aqua_strategy_hash ≡ ok s8
      → uint_slot e.capacity_baseline_value ≡ ok s9
      → uint_slot e.chain_id ≡ ok s10
      → address_slot e.verifying_contract ≡ ok s11
      → HasSlots e (s0 ∷ s1 ∷ s2 ∷ s3 ∷ s4 ∷ s5 ∷ s6 ∷ s7 ∷ s8 ∷ s9 ∷ s10 ∷ s11 ∷ [])
  HasSlots-of e s0 s1 s2 s3 s4 s5 s6 s7 s8 s9 s10 s11 size0 e0 e1 e2 e3 e4 e5 e6 e7 e8 e9 e10 e11 =
      record {
        count = refl;
        sizes = (
          size0,
          (
            token_id-inv e.trader_input_token e1,
            (
              token_id-inv e.trader_output_token e2,
              (
                bytes32_slot-inv e.balance_snapshot e3,
                (
                  bytes32_slot-inv e.price_snapshot e4,
                  (
                    bytes32_slot-inv e.portfolio_price_snapshot e5,
                    (
                      (uint_slot-inv e.policy_nonce e6).0,
                      (
                        bytes32_slot-inv e.risk_certificate_hash e7,
                        (
                          bytes32_slot-inv e.aqua_strategy_hash e8,
                          (
                            (uint_slot-inv e.capacity_baseline_value e9).0,
                            (
                              (uint_slot-inv e.chain_id e10).0,
                              (address_slot-inv e.verifying_contract e11, tt),
                            ),
                          ),
                        ),
                      ),
                    ),
                  ),
                ),
              ),
            ),
          ),
        );
        position = e0;
        input = e1;
        output = e2;
        balance = e3;
        price = e4;
        portfolio_price = e5;
        nonce = e6;
        certificate = e7;
        strategy = e8;
        baseline = e9;
        chain = e10;
        contract = e11;
      }

  epoch_slots-HasSlots :
      (e : CapacityEpoch) {slots : List (List ℕ)}
      → epoch_slots keccak_256 e ≡ ok slots
      → HasSlots e slots
  unfolding epoch_slots
  epoch_slots-HasSlots e h =
      let (id, ei, h0) = >>=-eq-ok (hash_identifier keccak_256 e.position_id) _ h in
      let (s0, e0, h1) = >>=-eq-ok (bytes32_slot id) _ h0 in
      let (s1, e1, h2) = >>=-eq-ok (token_id keccak_256 e.trader_input_token) _ h1 in
      let (s2, e2, h3) = >>=-eq-ok (token_id keccak_256 e.trader_output_token) _ h2 in
      let (s3, e3, h4) = >>=-eq-ok (bytes32_slot e.balance_snapshot) _ h3 in
      let (s4, e4, h5) = >>=-eq-ok (bytes32_slot e.price_snapshot) _ h4 in
      let (s5, e5, h6) = >>=-eq-ok (bytes32_slot e.portfolio_price_snapshot) _ h5 in
      let (s6, e6, h7) = >>=-eq-ok (uint_slot e.policy_nonce) _ h6 in
      let (s7, e7, h8) = >>=-eq-ok (bytes32_slot e.risk_certificate_hash) _ h7 in
      let (s8, e8, h9) = >>=-eq-ok (bytes32_slot e.aqua_strategy_hash) _ h8 in
      let (s9, e9, h10) = >>=-eq-ok (uint_slot e.capacity_baseline_value) _ h9 in
      let (s10, e10, h11) = >>=-eq-ok (uint_slot e.chain_id) _ h10 in
      let (s11, e11, h12) = >>=-eq-ok (address_slot e.verifying_contract) _ h11 in
      let there : (hash_identifier keccak_256 e.position_id >>= bytes32_slot) ≡ ok s0 =
        ap (λ r. r >>= bytes32_slot) ei ∙ e0 in
      subst (HasSlots e) (ok-injective h12) (
        HasSlots-of e s0 s1 s2 s3 s4 s5 s6 s7 s8 s9 s10 s11 (bytes32_slot-inv id e0) there e1 e2 e3
          e4 e5 e6 e7 e8 e9 e10 e11)

  -- The two epochs have the same committed fields: the same hash of the position, the same slots of the
  -- tokens, hashes and contract, and the same numbers.
  pub record AreSameEpoch (a b : CapacityEpoch) : Type 0 where
    pub position_same :
        (hash_identifier keccak_256 a.position_id >>= bytes32_slot)
        ≡ (hash_identifier keccak_256 b.position_id >>= bytes32_slot)
    pub input_same :
        token_id keccak_256 a.trader_input_token ≡ token_id keccak_256 b.trader_input_token
    pub output_same :
        token_id keccak_256 a.trader_output_token ≡ token_id keccak_256 b.trader_output_token
    pub balance_same : bytes32_slot a.balance_snapshot ≡ bytes32_slot b.balance_snapshot
    pub price_same : bytes32_slot a.price_snapshot ≡ bytes32_slot b.price_snapshot
    pub portfolio_price_same :
        bytes32_slot a.portfolio_price_snapshot ≡ bytes32_slot b.portfolio_price_snapshot
    pub nonce_same : to_uint256 a.policy_nonce ≡ to_uint256 b.policy_nonce
    pub certificate_same :
        bytes32_slot a.risk_certificate_hash ≡ bytes32_slot b.risk_certificate_hash
    pub strategy_same : bytes32_slot a.aqua_strategy_hash ≡ bytes32_slot b.aqua_strategy_hash
    pub baseline_same : to_uint256 a.capacity_baseline_value ≡ to_uint256 b.capacity_baseline_value
    pub chain_same : to_uint256 a.chain_id ≡ to_uint256 b.chain_id
    pub contract_same : address_slot a.verifying_contract ≡ address_slot b.verifying_contract

  number-same :
      (a b : IntegerLike) (s : List ℕ)
      → uint_slot a ≡ ok s
      → uint_slot b ≡ ok s
      → to_uint256 a ≡ to_uint256 b
  number-same a b s ea eb = (uint_slot-inv a ea).1 ∙ sym (uint_slot-inv b eb).1

  same_of :
      (a b : CapacityEpoch) (slots : List (List ℕ))
      → HasSlots a slots
      → HasSlots b slots
      → AreSameEpoch a b
  same_of a b slots ha hb = record {
    position_same = ha.position ∙ sym hb.position;
    input_same = ha.input ∙ sym hb.input;
    output_same = ha.output ∙ sym hb.output;
    balance_same = ha.balance ∙ sym hb.balance;
    price_same = ha.price ∙ sym hb.price;
    portfolio_price_same = ha.portfolio_price ∙ sym hb.portfolio_price;
    nonce_same = number-same a.policy_nonce b.policy_nonce (nth 6 slots) ha.nonce hb.nonce;
    certificate_same = ha.certificate ∙ sym hb.certificate;
    strategy_same = ha.strategy ∙ sym hb.strategy;
    baseline_same =
        number-same a.capacity_baseline_value b.capacity_baseline_value (nth 9 slots) ha.baseline
          hb.baseline;
    chain_same = number-same a.chain_id b.chain_id (nth 10 slots) ha.chain hb.chain;
    contract_same = ha.contract ∙ sym hb.contract;
  }

  -- Two epochs whose slots, concatenated, are the same bytes have the same committed fields: the same
  -- hash of the position, the same slots of the tokens, of the snapshots, hashes and contract, and
  -- the same nonce, baseline and chain.
  pub epoch_slots-AreSameEpoch :
      (a b : CapacityEpoch) {sa sb : List (List ℕ)}
      → epoch_slots keccak_256 a ≡ ok sa
      → epoch_slots keccak_256 b ≡ ok sb
      → concat_slots sa ≡ concat_slots sb
      → AreSameEpoch a b
  epoch_slots-AreSameEpoch a b {sa} {sb} ea eb same =
      let ha = epoch_slots-HasSlots a ea in
      let hb = epoch_slots-HasSlots b eb in
      let slots_same =
        concat_slots-injective sa sb (ha.count ∙ sym hb.count) ha.sizes hb.sizes same in
      same_of a b sb (subst (HasSlots a) slots_same ha) hb
