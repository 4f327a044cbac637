-- ===== src/Repository/Trades/Budget.antt =====
-- The reservations of a session never exceed its plan, whatever the order of operations.
use aurka.Prelude.{
  ℕ, ◌+◌, ◌≤◌, ◌≡◌, refl, sym, ◌∙◌, ap, subst, inl, inr, true, not, List, [], ◌∷◌, Option, none,
  some, ok, arith, >>=-eq-ok, ok-injective, throw_if_inv, ltb, leb, All, Bool-cases, Option-cases,
}
use aurka.Prelude.Text.{Text, text_eq}
use aurka.Repository.Trades.{
  SessionState, TradeStatus, is_active, reserved, is_releasable, DelegatedSession, DelegatedTrade,
  TradeTables, session_not_active, session_expired, count_exhausted, budget_exhausted,
  trade_not_found, find_session, find_trade, find_existing, update_session, set_status,
  required_session, reserve_new, reserve_delegated_trade, is_claimable_trade,
  claim_delegated_trade_for_signing, release_found, release_delegated_trade, is_found,
  update_delegated_trade, update_delegated_session,
}

pub record IsWithinPlan (s : DelegatedSession) : Type 0 where
  pub budget : s.consumed_input_amount ≤ s.cumulative_input_budget
  pub count : s.trade_count ≤ s.max_trade_count

-- An update that keeps the plan on the row it finds keeps it on all rows.
update-IsWithinPlan :
    (id : Text) (change : DelegatedSession → DelegatedSession) (rows : List DelegatedSession)
    → ((s : DelegatedSession)
        → find_session id rows ≡ some s
        → IsWithinPlan s
        → IsWithinPlan (change s))
    → All IsWithinPlan rows
    → All IsWithinPlan (update_session id change rows)
unfolding find_session update_session
update-IsWithinPlan id change [] keeps h = tt
update-IsWithinPlan id change (r ∷ rows) keeps (h, hs) = elim (Bool-cases (text_eq r.id id)) [
  | inl same ↦ rw same (keeps r (rw same refl) h, hs)
  | inr other ↦
      rw other (h, update-IsWithinPlan id change rows (λ s found. keeps s (rw other found)) hs)
]

-- What a new reservation has checked, and what it writes.
pub record IsReserved (tables : TradeTables) (now : ℕ) (input : DelegatedTrade)
    (after : TradeTables) (trade : DelegatedTrade) : Type 0 where
  pub session : DelegatedSession
  pub found : find_session input.session_id tables.sessions ≡ some session
  pub is_live : is_active session.state ≡ true
  pub unexpired : now ≤ session.expires_at
  pub counted : session.trade_count + 1 ≤ session.max_trade_count
  pub afforded :
      session.consumed_input_amount + input.input_amount ≤ session.cumulative_input_budget
  pub trade_is : trade ≡ record input { status = reserved }
  pub sessions_are :
      after.sessions
      ≡ update_session input.session_id
          (λ row. record row {
            consumed_input_amount = session.consumed_input_amount + input.input_amount;
            trade_count = session.trade_count + 1;
          })
          tables.sessions
  pub trades_are : after.trades ≡ trade ∷ tables.trades

required-inv :
    (o : Option DelegatedSession) {s : DelegatedSession} → required_session o ≡ ok s → o ≡ some s
required-inv none e = cc
required-inv (some s) e = ap some (ok-injective e)

pub reserve_new-IsReserved :
    (tables : TradeTables) (now : ℕ) (input : DelegatedTrade) {after : TradeTables}
    {trade : DelegatedTrade}
    → reserve_new tables now input ≡ ok (after, trade)
    → IsReserved tables now input after trade
unfolding reserve_new
reserve_new-IsReserved tables now input e =
    let (s, es, e1) =
      >>=-eq-ok (required_session (find_session input.session_id tables.sessions)) _ e in
    let (live, e2) = throw_if_inv (not (is_active s.state)) session_not_active _ e1 in
    let (early, e3) = throw_if_inv (leb s.expires_at now) session_expired _ e2 in
    let (counted, e4) = throw_if_inv (leb s.max_trade_count s.trade_count) count_exhausted _ e3 in
    let (afforded, e5) =
      throw_if_inv (ltb s.cumulative_input_budget (s.consumed_input_amount + input.input_amount))
        budget_exhausted _ e4 in
    subst (λ (p : TradeTables × DelegatedTrade). IsReserved tables now input p.0 p.1)
      (ok-injective e5)
      (record {
        session = s;
        found = required-inv _ es;
        is_live = ground (arith, live);
        unexpired = ground (arith, early);
        counted = ground (arith, counted);
        afforded = ground (arith, afforded);
        trade_is = refl;
        sessions_are = refl;
        trades_are = refl;
      })

pub some-injective : {A : Type 0} {a b : A} → some a ≡ some b → a ≡ b
some-injective {a} e = ap (λ o. elim o [ some x ↦ x | none ↦ a ]) e

reserve-IsWithinPlan :
    (tables : TradeTables) (now : ℕ) (input : DelegatedTrade) {after : TradeTables}
    {trade : DelegatedTrade}
    → reserve_delegated_trade tables now input ≡ ok (after, trade)
    → All IsWithinPlan tables.sessions
    → All IsWithinPlan after.sessions
unfolding reserve_delegated_trade
reserve-IsWithinPlan tables now input {after} e h =
    elim (Option-cases (find_existing input.id input.idempotency_key tables.trades)) [
      | inl new ↦
          let r = reserve_new-IsReserved tables now input (rw new at e) in
          subst (All IsWithinPlan) (sym r.sessions_are) (
            update-IsWithinPlan input.session_id _ tables.sessions
              (λ s found was.
                let same : r.session ≡ s = some-injective (sym r.found ∙ found) in
                let budget : r.session.cumulative_input_budget ≡ s.cumulative_input_budget =
                  ap (λ x. x.cumulative_input_budget) same in
                let most : r.session.max_trade_count ≡ s.max_trade_count =
                  ap (λ x. x.max_trade_count) same in
                record { budget = omega (arith, r.afforded); count = omega (arith, r.counted) })
              h)
      | inr (existing, found) ↦
          let unchanged : tables ≡ after = ap (λ p. p.0) (ok-injective (rw found at e)) in
          subst (λ t. All IsWithinPlan t.sessions) unchanged h
    ]

release_found-IsWithinPlan :
    (tables : TradeTables) (o : Option DelegatedTrade)
    → All IsWithinPlan tables.sessions
    → All IsWithinPlan (release_found tables o).sessions
release_found-IsWithinPlan tables none h = h
release_found-IsWithinPlan tables (some trade) h = elim (Bool-cases (is_releasable trade.status)) [
  | inr kept ↦ rw kept h
  | inl out ↦ elim (Option-cases (find_session trade.session_id tables.sessions)) [
    | inl missing ↦ rw (out, missing) h
    | inr (session, found) ↦
        rw (out, found)
          (update-IsWithinPlan trade.session_id _ tables.sessions
            (λ s there was.
              let same : session ≡ s = some-injective (sym found ∙ there) in
              let consumed : session.consumed_input_amount ≡ s.consumed_input_amount =
                ap (λ x. x.consumed_input_amount) same in
              let count : session.trade_count ≡ s.trade_count = ap (λ x. x.trade_count) same in
              record { budget = omega (arith, was.budget); count = omega (arith, was.count) })
            h)
  ]
]

-- One operation on the two tables. An update writes any status, RESERVED too.
pub data TradeStep : TradeTables → TradeTables → Type 0 where
  reserving :
      (tables : TradeTables) (now : ℕ) (input : DelegatedTrade) (after : TradeTables)
      (trade : DelegatedTrade)
      → reserve_delegated_trade tables now input ≡ ok (after, trade)
      → TradeStep tables after
  claiming :
      (tables : TradeTables) (id : Text)
      → TradeStep tables (claim_delegated_trade_for_signing tables id).0
  releasing :
      (tables : TradeTables) (id : Text) → TradeStep tables (release_delegated_trade tables id)
  updating :
      (tables : TradeTables) (id : Text) (status : TradeStatus) (after : TradeTables)
      → update_delegated_trade tables id status ≡ ok after
      → TradeStep tables after
  moving :
      (tables : TradeTables) (id : Text) (state : SessionState)
      → TradeStep tables (update_delegated_session tables id state)

pub data TradeSteps : TradeTables → TradeTables → Type 0 where
  none_yet : (tables : TradeTables) → TradeSteps tables tables
  and_then : (a b c : TradeTables) → TradeSteps a b → TradeStep b c → TradeSteps a c

claim-sessions :
    (tables : TradeTables) (id : Text)
    → (claim_delegated_trade_for_signing tables id).0.sessions ≡ tables.sessions
unfolding claim_delegated_trade_for_signing
claim-sessions tables id = elim (Bool-cases (is_claimable_trade (find_trade id tables.trades))) [
  | inl open_trade ↦ rw open_trade refl
  | inr other ↦ rw other refl
]

pub update_trade-inv :
    (tables : TradeTables) (id : Text) (status : TradeStatus) {after : TradeTables}
    → update_delegated_trade tables id status ≡ ok after
    → after ≡ record tables { trades = set_status id status tables.trades }
unfolding update_delegated_trade
update_trade-inv tables id status e =
    let (_, e1) = throw_if_inv (not (is_found (find_trade id tables.trades))) trade_not_found _ e in
    sym (ok-injective e1)

step-IsWithinPlan :
    (a b : TradeTables) → TradeStep a b → All IsWithinPlan a.sessions → All IsWithinPlan b.sessions
unfolding release_delegated_trade update_delegated_session
step-IsWithinPlan _ _ (reserving a now input b trade e) h = reserve-IsWithinPlan a now input e h
step-IsWithinPlan _ _ (claiming a id) h = subst (All IsWithinPlan) (sym (claim-sessions a id)) h
step-IsWithinPlan _ _ (releasing a id) h = release_found-IsWithinPlan a (find_trade id a.trades) h
step-IsWithinPlan _ _ (updating a id status b e) h =
    subst (λ t. All IsWithinPlan t.sessions) (sym (update_trade-inv a id status e)) h
step-IsWithinPlan _ _ (moving a id state) h =
    update-IsWithinPlan id _ a.sessions
      (λ s found was. record { budget = was.budget; count = was.count }) h

-- Over any history of reservations, claims, releases, updates of trades to any status and updates of
-- session states, no session's consumed amount exceeds its budget and no trade count its maximum,
-- provided that none did at the start.
pub history-IsWithinPlan :
    (a b : TradeTables) → TradeSteps a b → All IsWithinPlan a.sessions → All IsWithinPlan b.sessions
history-IsWithinPlan _ _ (none_yet a) h = h
history-IsWithinPlan _ _ (and_then a b c before step) h =
    step-IsWithinPlan b c step (history-IsWithinPlan a b before h)
