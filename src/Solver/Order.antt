-- ===== src/Solver/Order.antt =====
-- The ranking of packages/services/src/solver/proposals.ts does not depend on the order in which the
-- proposals were submitted.
use aurka.Prelude.{◌≡◌, refl, ◌∙◌, ap, inl, inr, true, List, [], ◌∷◌, arith, Bool-cases}
use aurka.Solver.{
  AtomicSettlementProposal, CollectedProposal, Collector, ranks, is_accepted, collected_proposal,
  collect_accepted, insert_ranked, sort_ranked, collect,
}
use aurka.Solver.Ranking.{IsOrder, In, ranks_total, ranks_trans, ranks-same_hash}

-- The same proposals in another order.
pub data Reordered : List AtomicSettlementProposal → List AtomicSettlementProposal → Type 0 where
  same : (ps : List AtomicSettlementProposal) → Reordered ps ps
  keep :
      (p : AtomicSettlementProposal) (ps qs : List AtomicSettlementProposal)
      → Reordered ps qs
      → Reordered (p ∷ ps) (p ∷ qs)
  swap :
      (p q : AtomicSettlementProposal) (ps : List AtomicSettlementProposal)
      → Reordered (p ∷ q ∷ ps) (q ∷ p ∷ ps)
  chain :
      (ps qs rs : List AtomicSettlementProposal)
      → Reordered ps qs
      → Reordered qs rs
      → Reordered ps rs

Reordered-In :
    (p : AtomicSettlementProposal) {ps qs : List AtomicSettlementProposal}
    → Reordered ps qs
    → In p qs
    → In p ps
Reordered-In p (same ps) h = h
Reordered-In p (keep q ps qs r) (inl here) = inl here
Reordered-In p (keep q ps qs r) (inr there) = inr (Reordered-In p r there)
Reordered-In p (swap q s ps) (inl here) = inr (inl here)
Reordered-In p (swap q s ps) (inr (inl here)) = inl here
Reordered-In p (swap q s ps) (inr (inr there)) = inr (inr there)
Reordered-In p (chain ps qs rs r t) h = Reordered-In p r (Reordered-In p t h)

-- No two of the proposals have one hash.
abbrev pub HaveOwnHashes : Collector → List AtomicSettlementProposal → Type 0
HaveOwnHashes collector ps =
    (p q : AtomicSettlementProposal)
    → In p ps
    → In q ps
    → collector.hash_proposal p ≡ collector.hash_proposal q
    → p ≡ q

module _ (collector : Collector) (order : IsOrder collector.locale_le) where
  insert_ranked_comm :
      (a b : CollectedProposal) (entries : List CollectedProposal)
      → (ranks collector a b ≡ true → ranks collector b a ≡ true → a ≡ b)
      → insert_ranked collector a (insert_ranked collector b entries)
        ≡ insert_ranked collector b (insert_ranked collector a entries)
  unfolding insert_ranked
  insert_ranked_comm a b [] tie = ground (arith, tie, ranks_total collector order a b)
  insert_ranked_comm a b (c ∷ entries) tie = ground (
    arith,
    tie,
    ranks_total collector order a b,
    ranks_trans collector order a b c,
    ranks_trans collector order b a c,
    insert_ranked_comm a b entries tie,
  )

  -- Two proposals that tie in rank are one.
  tie :
      (ps : List AtomicSettlementProposal) (p q : AtomicSettlementProposal)
      → HaveOwnHashes collector ps
      → In p ps
      → In q ps
      → ranks collector (collected_proposal collector p) (collected_proposal collector q) ≡ true
      → ranks collector (collected_proposal collector q) (collected_proposal collector p) ≡ true
      → collected_proposal collector p ≡ collected_proposal collector q
  tie ps p q own p_in q_in h k = ap (collected_proposal collector) (
      own p q p_in q_in (
        ranks-same_hash collector order (collected_proposal collector p)
          (collected_proposal collector q) h k))

  collect-keep :
      (p : AtomicSettlementProposal) (ps qs : List AtomicSettlementProposal)
      → collect collector ps ≡ collect collector qs
      → collect collector (p ∷ ps) ≡ collect collector (p ∷ qs)
  unfolding collect collect_accepted sort_ranked
  collect-keep p ps qs e = elim (Bool-cases (is_accepted collector p)) [
    | inl accepted ↦ rw accepted (ap (insert_ranked collector (collected_proposal collector p)) e)
    | inr rejected ↦ rw rejected e
  ]

  collect-swap :
      (p q : AtomicSettlementProposal) (ps : List AtomicSettlementProposal)
      → HaveOwnHashes collector (p ∷ q ∷ ps)
      → collect collector (p ∷ q ∷ ps) ≡ collect collector (q ∷ p ∷ ps)
  unfolding collect collect_accepted sort_ranked
  collect-swap p q ps own =
      let swapped =
        insert_ranked_comm (collected_proposal collector p) (collected_proposal collector q)
          (sort_ranked collector (collect_accepted collector ps))
          (tie (p ∷ q ∷ ps) p q own (inl refl) (inr (inl refl))) in
      elim (Bool-cases (is_accepted collector p)) [
        | inl p_in ↦ elim (Bool-cases (is_accepted collector q)) [
          | inl q_in ↦ rw p_in (rw q_in swapped)
          | inr q_out ↦ rw p_in (rw q_out refl)
        ]
        | inr p_out ↦ elim (Bool-cases (is_accepted collector q)) [
          | inl q_in ↦ rw p_out (rw q_in refl)
          | inr q_out ↦ rw p_out (rw q_out refl)
        ]
      ]

  -- The ranked list is the same for any order of submission, when localeCompare is a total order and
  -- no two of the proposals have one hash.
  pub collect-Reordered :
      (ps qs : List AtomicSettlementProposal)
      → HaveOwnHashes collector ps
      → Reordered ps qs
      → collect collector ps ≡ collect collector qs
  collect-Reordered ps qs own (same _) = refl
  collect-Reordered ps qs own (keep p rest others r) =
      collect-keep p rest others
        (collect-Reordered rest others (λ a b a_in b_in. own a b (inr a_in) (inr b_in)) r)
  collect-Reordered ps qs own (swap p q rest) = collect-swap p q rest own
  collect-Reordered ps qs own (chain _ middle _ r t) =
      collect-Reordered ps middle own r
      ∙ collect-Reordered middle qs
          (λ a b a_in b_in. own a b (Reordered-In a r a_in) (Reordered-In b r b_in)) t
