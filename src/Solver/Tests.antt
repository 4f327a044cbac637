-- ===== src/Solver/Tests.antt =====
-- Runs of the model of packages/services/src/solver/proposals.ts, with the order of the codes as
-- localeCompare, which it is for hashes of digits and small letters.
use aurka.Prelude.{
  ℕ, ◌≡◌, refl, ap, sym, subst, ◌∙◌, ◌⊎◌, inl, inr, Bool, true, false, ◌&&◌, ◌||◌, [], ◌∷◌, none,
  some, arith, ltb, ◌==◌, Bool-cases,
}
use aurka.Prelude.Text.{Text, codes, text_eq, text_eq_refl}
use aurka.Financial.Constraints.{unbound}
use aurka.Solver.{
  AtomicSettlementProposal, Collector, succeeded, ranks, is_accepted, collected_proposal,
  collect_accepted, insert_ranked, sort_ranked, collect, select,
}
use aurka.Solver.Ranking.{IsOrder, In, IsAccepted, select-IsBest}
use aurka.Solver.Order.{swap, HaveOwnHashes, collect-Reordered}

lexicographic : Text → Text → Bool
lexicographic [] t = true
lexicographic (c ∷ s) [] = false
lexicographic (c ∷ s) (d ∷ t) = ltb c d || (c == d && lexicographic s t)

lexicographic_total : (a b : Text) → (lexicographic a b ≡ true) ⊎ (lexicographic b a ≡ true)
unfolding lexicographic
lexicographic_total [] b = inl refl
lexicographic_total (c ∷ s) [] = inr refl
lexicographic_total (c ∷ s) (d ∷ t) = elim (lexicographic_total s t) [
  | inl h ↦ elim (Bool-cases (ltb d c)) [ inl k ↦ inr (ground arith) | inr k ↦ inl (ground arith) ]
  | inr h ↦ elim (Bool-cases (ltb c d)) [ inl k ↦ inl (ground arith) | inr k ↦ inr (ground arith) ]
]

lexicographic_trans :
    (a b c : Text) → lexicographic a b ≡ true → lexicographic b c ≡ true → lexicographic a c ≡ true
unfolding lexicographic
lexicographic_trans [] b c h k = refl
lexicographic_trans (x ∷ a) [] c h k = cc
lexicographic_trans (x ∷ a) (y ∷ b) [] h k = cc
lexicographic_trans (x ∷ a) (y ∷ b) (z ∷ c) h k = ground (arith, lexicographic_trans a b c)

lexicographic_antisym : (a b : Text) → lexicographic a b ≡ true → lexicographic b a ≡ true → a ≡ b
unfolding lexicographic
lexicographic_antisym [] [] h k = refl
lexicographic_antisym [] (d ∷ b) h k = cc
lexicographic_antisym (c ∷ a) [] h k = cc
lexicographic_antisym (c ∷ a) (d ∷ b) h k = ground (arith, lexicographic_antisym a b)

lexicographic-IsOrder : IsOrder lexicographic
lexicographic-IsOrder = record {
  total = lexicographic_total;
  trans = lexicographic_trans;
  antisym = lexicographic_antisym;
}

abbrev proposal : Text → ℕ → AtomicSettlementProposal
proposal solver value = record {
  intent_hash = codes "0x1";
  solver = solver;
  balances_hash = [];
  price_snapshot_hash = [];
  policy_nonce = 0;
  risk_certificate_hash = [];
  trader_input_token = [];
  trader_output_token = [];
  trader_input_amount = 0;
  trader_output_amount = 0;
  solver_fee_amount = 0;
  protocol_fee_amount = 0;
  trader_input_value = value;
  trader_output_value = 0;
  treasury_output_value = 0;
  fee_bps_scaled = 0;
  base_fee_amount = 0;
  treasury_base_fee_amount = 0;
  option_space_premium_amount = 0;
  total_fee_amount = 0;
  treasury_amount = 0;
  solver_amount = 0;
  protocol_amount = 0;
  fee_token = [];
  fee_payment_mode = [];
  initial_portfolio_hash = [];
  capacity_baseline_value = 0;
  consumed_before = 0;
  consumed_after = 0;
  capacity_epoch_id = [];
  utilization_before = 0;
  utilization_after = 0;
  binding_constraint = unbound;
  binding_asset = none;
  expected_post_state_hash = [];
  aqua_strategy_hash = [];
  swap_vm_calldata_hash = [];
  deadline = 0;
  signature = none;
}

abbrev low : AtomicSettlementProposal
low = proposal (codes "0xa") 5

abbrev high : AtomicSettlementProposal
high = proposal (codes "0xb") 9

-- A proposal's hash is its solver here.
abbrev collector : Collector
collector = record {
  intent_hash = codes "0x1";
  hash_proposal = λ p. p.solver;
  verify_proposal_signature = λ p hash. true;
  simulate = λ p. record { status = succeeded; gas_estimate = 21000 };
  locale_le = lexicographic;
}

select_run : select collector (low ∷ high ∷ []) ≡ some (collected_proposal collector high)
unfolding select collect collect_accepted sort_ranked insert_ranked is_accepted ranks text_eq
select_run = refl

select-IsBest_example :
    ((select collector (low ∷ high ∷ []) ≡ none)
      × ((q : AtomicSettlementProposal) → In q (low ∷ high ∷ []) → IsAccepted collector q → ⊥))
    ⊎ ((best : AtomicSettlementProposal) × In best (low ∷ high ∷ [])
        × IsAccepted collector best
        × (select collector (low ∷ high ∷ []) ≡ some (collected_proposal collector best))
        × ((q : AtomicSettlementProposal)
            → In q (low ∷ high ∷ [])
            → IsAccepted collector q
            → ranks collector (collected_proposal collector best) (collected_proposal collector q)
              ≡ true))
select-IsBest_example = select-IsBest collector lexicographic-IsOrder (low ∷ high ∷ [])

low-high : low.solver ≡ high.solver → ⊥
unfolding text_eq
low-high e = let same = (subst (λ t. text_eq low.solver t ≡ true) e (text_eq_refl low.solver)) in cc

own_hashes : HaveOwnHashes collector (low ∷ high ∷ [])
own_hashes p q (inl h) (inl k) e = h ∙ sym k
own_hashes p q (inl h) (inr (inl k)) e =
    absurd (low-high (sym (ap (λ x. x.solver) h) ∙ e ∙ ap (λ x. x.solver) k))
own_hashes p q (inr (inl h)) (inl k) e =
    absurd (low-high (sym (ap (λ x. x.solver) k) ∙ sym e ∙ ap (λ x. x.solver) h))
own_hashes p q (inr (inl h)) (inr (inl k)) e = h ∙ sym k
own_hashes p q (inr (inr h)) k e = absurd h
own_hashes p q (inl h) (inr (inr k)) e = absurd k
own_hashes p q (inr (inl h)) (inr (inr k)) e = absurd k

collect-Reordered_example :
    collect collector (low ∷ high ∷ []) ≡ collect collector (high ∷ low ∷ [])
collect-Reordered_example =
    collect-Reordered collector lexicographic-IsOrder (low ∷ high ∷ []) (high ∷ low ∷ []) own_hashes
      (swap low high [])
