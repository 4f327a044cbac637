-- ===== src/Solver/Ranking.antt =====
-- The proposal that packages/services/src/solver/proposals.ts selects.
use aurka.Prelude.{
  ◌≡◌, ◌↔◌, refl, ◌∙◌, ap, sym, ◌⊎◌, inl, inr, Bool, true, false, List, [], ◌∷◌, none, some, arith,
  Bool-cases, All, subst, some_injective,
}
use aurka.Prelude.Text.{Text, text_eq, text_eq→eq, text_eq_refl}
use aurka.Solver.{
  AtomicSettlementProposal, CollectedProposal, Collector, ranks, is_accepted, collected_proposal,
  collect_accepted, insert_ranked, sort_ranked, collect, first, select, has_succeeded,
  SimulationStatus, succeeded, reverted, stale, authorization_pending,
}

-- localeCompare is a total order of the hashes.
pub record IsOrder (locale_le : Text → Text → Bool) : Type 0 where
  pub total : (a b : Text) → (locale_le a b ≡ true) ⊎ (locale_le b a ≡ true)
  pub trans : (a b c : Text) → locale_le a b ≡ true → locale_le b c ≡ true → locale_le a c ≡ true
  pub antisym : (a b : Text) → locale_le a b ≡ true → locale_le b a ≡ true → a ≡ b

abbrev pub In : {A : Type 0} → A → List A → Type 0
In x [] = ⊥
In x (y ∷ ys) = (x ≡ y) ⊎ In x ys

module _ (collector : Collector) where
  -- A proposal for the intent, with a valid signature, whose simulation succeeds.
  pub record IsAccepted (proposal : AtomicSettlementProposal) : Type 0 where
    pub same_intent : proposal.intent_hash ≡ collector.intent_hash
    pub verifies :
        collector.verify_proposal_signature proposal (collector.hash_proposal proposal) ≡ true
    pub succeeds : (collector.simulate proposal).status ≡ succeeded

  has_succeeded-eq : (status : SimulationStatus) → has_succeeded status ≡ true → status ≡ succeeded
  has_succeeded-eq succeeded h = refl
  has_succeeded-eq reverted h = cc
  has_succeeded-eq stale h = cc
  has_succeeded-eq authorization_pending h = cc

  same_text_eq : {s t : Text} → s ≡ t → text_eq s t ≡ true
  same_text_eq {s} e = subst (λ t. text_eq s t ≡ true) e (text_eq_refl s)

  is_accepted-IsAccepted :
      (proposal : AtomicSettlementProposal)
      → (is_accepted collector proposal ≡ true) ↔ IsAccepted proposal
  unfolding is_accepted
  is_accepted-IsAccepted proposal = (
    λ h. record {
      same_intent = text_eq→eq _ _ (ground arith);
      verifies = ground arith;
      succeeds = has_succeeded-eq _ (ground arith);
    },
    λ h. rw (same_text_eq h.same_intent) (rw h.verifies (rw h.succeeds refl)),
  )

  collect_accepted-In :
      (proposals : List AtomicSettlementProposal) (entry : CollectedProposal)
      → In entry (collect_accepted collector proposals)
      → (proposal : AtomicSettlementProposal) × In proposal proposals
        × (is_accepted collector proposal ≡ true)
        × (entry ≡ collected_proposal collector proposal)
  unfolding collect_accepted
  collect_accepted-In [] entry h = absurd h
  collect_accepted-In (p ∷ proposals) entry h = elim (Bool-cases (is_accepted collector p)) [
    | inl accepted ↦ elim (rw accepted at h) [
      | inl here ↦ (p, inl refl, accepted, here)
      | inr there ↦
          let (q, among, ok_q, is) = collect_accepted-In proposals entry there in
          (q, inr among, ok_q, is)
    ]
    | inr rejected ↦
        let (q, among, ok_q, is) = collect_accepted-In proposals entry (rw rejected at h) in
        (q, inr among, ok_q, is)
  ]

  In-collect_accepted :
      (proposals : List AtomicSettlementProposal) (p : AtomicSettlementProposal)
      → In p proposals
      → is_accepted collector p ≡ true
      → In (collected_proposal collector p) (collect_accepted collector proposals)
  unfolding collect_accepted
  In-collect_accepted [] p among accepted = absurd among
  In-collect_accepted (q ∷ proposals) p (inl here) accepted = rw (sym here) (rw accepted (inl refl))
  In-collect_accepted (q ∷ proposals) p (inr there) accepted =
      let rest = In-collect_accepted proposals p there accepted in
      elim (Bool-cases (is_accepted collector q)) [
        | inl taken ↦ rw taken (inr rest)
        | inr passed ↦ rw passed rest
      ]

  All-In :
      (P : CollectedProposal → Type 0) (entries : List CollectedProposal)
      (entry : CollectedProposal)
      → All P entries
      → In entry entries
      → P entry
  All-In P [] entry all among = absurd among
  All-In P (e ∷ entries) entry all (inl here) = subst P (sym here) all.0
  All-In P (e ∷ entries) entry all (inr there) = All-In P entries entry all.1 there

module _ (collector : Collector) (order : IsOrder collector.locale_le) where
  pub ranks_total :
      (a b : CollectedProposal) → ranks collector a b ≡ false → ranks collector b a ≡ true
  unfolding ranks
  ranks_total a b h = ground (arith, order.total a.proposal_hash b.proposal_hash)

  pub ranks_trans :
      (a b c : CollectedProposal)
      → ranks collector a b ≡ true
      → ranks collector b c ≡ true
      → ranks collector a c ≡ true
  unfolding ranks
  ranks_trans a b c h k =
      ground (arith, order.trans a.proposal_hash b.proposal_hash c.proposal_hash)

  pub ranks-same_hash :
      (a b : CollectedProposal)
      → ranks collector a b ≡ true
      → ranks collector b a ≡ true
      → a.proposal_hash ≡ b.proposal_hash
  unfolding ranks
  ranks-same_hash a b h k = ground (arith, order.antisym a.proposal_hash b.proposal_hash)

  ranks_refl : (a : CollectedProposal) → ranks collector a a ≡ true
  ranks_refl a = elim (Bool-cases (ranks collector a a)) [
    | inl yes_it ↦ yes_it
    | inr not_it ↦ ranks_total a a not_it
  ]

  -- The first of the list, which ranks before each of the others.
  abbrev IsHead : CollectedProposal → List CollectedProposal → Type 0
  IsHead best entries = In best entries × All (λ other. ranks collector best other ≡ true) entries

  weaken :
      (a b : CollectedProposal) (entries : List CollectedProposal)
      → ranks collector a b ≡ true
      → All (λ other. ranks collector b other ≡ true) entries
      → All (λ other. ranks collector a other ≡ true) entries
  weaken a b [] h all = tt
  weaken a b (c ∷ entries) h all = (ranks_trans a b c h all.0, weaken a b entries h all.1)

  insert_ranked-IsHead :
      (entry best : CollectedProposal) (entries sorted : List CollectedProposal)
      → IsHead best entries
      → first collector sorted ≡ some best
      → (head : CollectedProposal) × (first collector (insert_ranked collector entry sorted)
          ≡ some head)
        × IsHead head (entry ∷ entries)
  unfolding insert_ranked
  insert_ranked-IsHead entry best entries [] is_head e = cc
  insert_ranked-IsHead entry best entries (other ∷ sorted) is_head e =
      elim (Bool-cases (ranks collector entry other)) [
        | inl before ↦
            let to_best : ranks collector entry best ≡ true =
              subst (λ b. ranks collector entry b ≡ true) (some_injective e) before in
            (
              entry,
              rw before refl,
              (inl refl, (ranks_refl entry, weaken entry best entries to_best is_head.1)),
            )
        | inr after ↦
            let from_best : ranks collector best entry ≡ true =
              subst (λ b. ranks collector b entry ≡ true) (some_injective e)
                (ranks_total entry other after) in
            (best, rw after e, (inr is_head.0, (from_best, is_head.1)))
      ]

  sort_ranked-IsHead :
      (entry : CollectedProposal) (entries : List CollectedProposal)
      → (head : CollectedProposal) × (first collector (sort_ranked collector (entry ∷ entries))
          ≡ some head)
        × IsHead head (entry ∷ entries)
  unfolding sort_ranked insert_ranked
  sort_ranked-IsHead entry [] = (entry, refl, (inl refl, (ranks_refl entry, tt)))
  sort_ranked-IsHead entry (other ∷ entries) =
      let (best, e, is_head) = sort_ranked-IsHead other entries in
      insert_ranked-IsHead entry best (other ∷ entries) (sort_ranked collector (other ∷ entries))
        is_head e

  select_of :
      (accepted : List CollectedProposal)
      → ((accepted ≡ []) × (first collector (sort_ranked collector accepted) ≡ none))
        ⊎ ((best : CollectedProposal) × (first collector (sort_ranked collector accepted)
              ≡ some best)
            × IsHead best accepted)
  unfolding sort_ranked
  select_of [] = inl (refl, refl)
  select_of (entry ∷ entries) = inr (sort_ranked-IsHead entry entries)

  -- When localeCompare is a total order of the hashes, a selected proposal is an accepted one that was submitted, and ranks no later than any accepted
  -- one; nothing is selected only when none is accepted.
  pub select-IsBest :
      (proposals : List AtomicSettlementProposal)
      → ((select collector proposals ≡ none)
          × ((q : AtomicSettlementProposal) → In q proposals → IsAccepted collector q → ⊥))
        ⊎ ((best : AtomicSettlementProposal) × In best proposals
            × IsAccepted collector best
            × (select collector proposals ≡ some (collected_proposal collector best))
            × ((q : AtomicSettlementProposal)
                → In q proposals
                → IsAccepted collector q
                → ranks collector
                    (collected_proposal collector best)
                    (collected_proposal collector q)
                  ≡ true))
  unfolding select collect
  select-IsBest proposals = elim (select_of (collect_accepted collector proposals)) [
    | inl (nothing, e) ↦ inl (
      e,
      λ q among accepted.
          subst (λ l. In (collected_proposal collector q) l) nothing
            (In-collect_accepted collector proposals q among
              ((is_accepted-IsAccepted collector q).1 accepted)),
    )
    | inr (head, e, is_head) ↦
        let (best, among, accepted, is) = collect_accepted-In collector proposals head is_head.0 in
        inr (
          best,
          among,
          (is_accepted-IsAccepted collector best).0 accepted,
          e ∙ ap some is,
          λ q q_among q_accepted.
              subst (λ b. ranks collector b (collected_proposal collector q) ≡ true) is
                (All-In collector (λ b. ranks collector head b ≡ true)
                  (collect_accepted collector proposals) (collected_proposal collector q) is_head.1
                  (In-collect_accepted collector proposals q q_among
                    ((is_accepted-IsAccepted collector q).1 q_accepted))),
        )
  ]
