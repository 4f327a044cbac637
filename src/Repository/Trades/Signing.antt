-- ===== src/Repository/Trades/Signing.antt =====
-- A trade is reserved once for its key, and claimed once for signing.
use aurka.Prelude.{
  ℕ, ◌≡◌, refl, sym, ◌∙◌, ap, subst, ◌⊎◌, inl, inr, true, false, List, [], ◌∷◌, Option, none, some,
  ok, arith, ok-injective, Bool-cases, Option-cases,
}
use aurka.Prelude.Text.{Text, text_eq, text_eq→eq, text_eq_refl}
use aurka.Repository.Trades.{
  TradeStatus, signing, released, is_reserved, is_releasable, DelegatedTrade, TradeTables,
  find_session, find_trade, find_existing, set_status, reserve_delegated_trade, is_claimable_trade,
  claim_delegated_trade_for_signing, release_found, release_delegated_trade,
  update_delegated_session,
}
use aurka.Repository.Trades.Budget.{
  reserve_new-IsReserved, some-injective, update_trade-inv, TradeStep, reserving, claiming,
  releasing, updating, moving, TradeSteps, none_yet, and_then,
}

find_existing-head :
    (input trade : DelegatedTrade) (rows : List DelegatedTrade)
    → trade.id ≡ input.id
    → find_existing input.id input.idempotency_key (trade ∷ rows) ≡ some trade
unfolding find_existing
find_existing-head input trade rows same =
    let hit : text_eq trade.id input.id ≡ true =
      ap (λ t. text_eq t input.id) same ∙ text_eq_refl input.id in
    ground (arith, hit)

-- A reservation repeated with the same identifier and key returns the same trade and writes nothing.
pub reserve_again :
    (tables : TradeTables) (now later : ℕ) (input : DelegatedTrade) {after : TradeTables}
    {trade : DelegatedTrade}
    → reserve_delegated_trade tables now input ≡ ok (after, trade)
    → reserve_delegated_trade after later input ≡ ok (after, trade)
unfolding reserve_delegated_trade
reserve_again tables now later input {after} {trade} e =
    elim (Option-cases (find_existing input.id input.idempotency_key tables.trades)) [
      | inl new ↦
          let r = reserve_new-IsReserved tables now input (rw new at e) in
          let there =
            ap (find_existing input.id input.idempotency_key) r.trades_are
            ∙ find_existing-head input trade tables.trades (ap (λ t. t.id) r.trade_is) in
          rw there refl
      | inr (existing, found) ↦
          let same = ok-injective (rw found at e) in
          subst
            (λ (p : TradeTables × DelegatedTrade). reserve_delegated_trade p.0 later input ≡ ok p)
            same (rw found refl)
    ]

-- The trade exists and is no longer merely reserved.
pub record IsClaimed (trades : List DelegatedTrade) (id : Text) : Type 0 where
  pub trade : DelegatedTrade
  pub found : find_trade id trades ≡ some trade
  pub past_reserved : is_reserved trade.status ≡ false

abbrev with_status : TradeStatus → DelegatedTrade → Option DelegatedTrade
with_status status x = some (record x { status = status })

set_status_lem :
    (id other : Text) (status : TradeStatus) (rows : List DelegatedTrade) (trade : DelegatedTrade)
    → find_trade id rows ≡ some trade
    → (find_trade id (set_status other status rows) ≡ some trade)
      ⊎ (find_trade id (set_status other status rows) ≡ some (record trade { status = status }))
unfolding find_trade set_status
set_status_lem id other status [] trade found = cc
set_status_lem id other status (r ∷ rows) trade found = elim (Bool-cases (text_eq r.id other)) [
  | inl changed ↦ elim (Bool-cases (text_eq r.id id)) [
    | inl here ↦
        let same : r ≡ trade = some-injective (rw here at found) in
        inr (rw (changed, here) (ap (λ (x : DelegatedTrade). with_status status x) same))
    | inr elsewhere ↦ inl (rw (changed, elsewhere) (rw elsewhere at found))
  ]
  | inr kept ↦ elim (Bool-cases (text_eq r.id id)) [
    | inl here ↦ inl (rw (kept, here) (rw here at found))
    | inr elsewhere ↦
        rw (kept, elsewhere) (set_status_lem id other status rows trade (rw elsewhere at found))
  ]
]

set_status-IsClaimed :
    (id other : Text) (status : TradeStatus) (rows : List DelegatedTrade)
    → is_reserved status ≡ false
    → IsClaimed rows id
    → IsClaimed (set_status other status rows) id
set_status-IsClaimed id other status rows fresh h =
    elim (set_status_lem id other status rows h.trade h.found) [
      | inl kept ↦ record { trade = h.trade; found = kept; past_reserved = h.past_reserved }
      | inr changed ↦ record {
        trade = record h.trade { status = status };
        found = changed;
        past_reserved = fresh;
      }
    ]

find_existing_of :
    (id other key : Text) (rows : List DelegatedTrade) (trade : DelegatedTrade)
    → find_trade id rows ≡ some trade
    → text_eq other id ≡ true
    → find_existing other key rows ≡ none
    → ⊥
unfolding find_trade find_existing
find_existing_of id other key [] trade found same none_found = cc
find_existing_of id other key (r ∷ rows) trade found same none_found =
    let swap : text_eq r.id other ≡ text_eq r.id id =
      ap (text_eq r.id) (text_eq→eq other id same) in
    elim (Bool-cases (text_eq r.id id)) [
      | inl here ↦ (let clash = rw (swap, here) at none_found in cc)
      | inr elsewhere ↦ elim (Bool-cases (text_eq r.idempotency_key key)) [
        | inl keyed ↦ (let clash = rw (swap, elsewhere, keyed) at none_found in cc)
        | inr unkeyed ↦
            find_existing_of id other key rows trade (rw elsewhere at found) same
              (rw (swap, elsewhere, unkeyed) at none_found)
      ]
    ]

other_trade :
    (trade input : DelegatedTrade) (rows : List DelegatedTrade) (id : Text)
    → IsClaimed rows id
    → trade.id ≡ input.id
    → find_existing input.id input.idempotency_key rows ≡ none
    → text_eq trade.id id ≡ false
other_trade trade input rows id h same new = elim (Bool-cases (text_eq trade.id id)) [
  | inr other ↦ other
  | inl clash ↦ ground (
    arith,
    find_existing_of id input.id input.idempotency_key rows h.trade h.found
        (ap (λ t. text_eq t id) (sym same) ∙ clash) new,
  )
]

behind-IsClaimed :
    (trade : DelegatedTrade) (rows : List DelegatedTrade) (id : Text)
    → text_eq trade.id id ≡ false
    → IsClaimed rows id
    → IsClaimed (trade ∷ rows) id
unfolding find_trade
behind-IsClaimed trade rows id other h = record {
  trade = h.trade;
  found = rw other h.found;
  past_reserved = h.past_reserved;
}

-- The write of a claim, on the row that it finds.
signed-IsClaimed :
    (id : Text) (rows : List DelegatedTrade) (trade : DelegatedTrade)
    → find_trade id rows ≡ some trade
    → IsClaimed (set_status id signing rows) id
unfolding find_trade set_status
signed-IsClaimed id [] trade found = cc
signed-IsClaimed id (r ∷ rows) trade found = elim (Bool-cases (text_eq r.id id)) [
  | inl here ↦
      rw here (record {
        trade = record r { status = signing };
        found = rw here refl;
        past_reserved = refl;
      })
  | inr elsewhere ↦
      let later = signed-IsClaimed id rows trade (rw elsewhere at found) in
      rw elsewhere (record {
        trade = later.trade;
        found = rw elsewhere later.found;
        past_reserved = later.past_reserved;
      })
]

reserve-IsClaimed :
    (tables : TradeTables) (now : ℕ) (input : DelegatedTrade) {after : TradeTables}
    {trade : DelegatedTrade} (id : Text)
    → reserve_delegated_trade tables now input ≡ ok (after, trade)
    → IsClaimed tables.trades id
    → IsClaimed after.trades id
unfolding reserve_delegated_trade
reserve-IsClaimed tables now input {after} {trade} id e h =
    elim (Option-cases (find_existing input.id input.idempotency_key tables.trades)) [
      | inl new ↦
          let r = reserve_new-IsReserved tables now input (rw new at e) in
          subst (λ t. IsClaimed t id) (sym r.trades_are)
            (behind-IsClaimed trade tables.trades id
              (other_trade trade input tables.trades id h (ap (λ t. t.id) r.trade_is) new) h)
      | inr (existing, found) ↦
          subst (λ t. IsClaimed t id)
            (ap (λ (p : TradeTables × DelegatedTrade). p.0.trades) (ok-injective (rw found at e))) h
    ]

claim-IsClaimed :
    (tables : TradeTables) (other id : Text)
    → IsClaimed tables.trades id
    → IsClaimed (claim_delegated_trade_for_signing tables other).0.trades id
unfolding claim_delegated_trade_for_signing
claim-IsClaimed tables other id h =
    elim (Bool-cases (is_claimable_trade (find_trade other tables.trades))) [
      | inl free ↦ rw free (set_status-IsClaimed id other signing tables.trades refl h)
      | inr taken ↦ rw taken h
    ]

release-IsClaimed :
    (tables : TradeTables) (o : Option DelegatedTrade) (id : Text)
    → IsClaimed tables.trades id
    → IsClaimed (release_found tables o).trades id
release-IsClaimed tables none id h = h
release-IsClaimed tables (some trade) id h = elim (Bool-cases (is_releasable trade.status)) [
  | inr kept ↦ rw kept h
  | inl out ↦ elim (Option-cases (find_session trade.session_id tables.sessions)) [
    | inl missing ↦ rw (out, missing) h
    | inr (session, found) ↦
        rw (out, found) (set_status-IsClaimed id trade.id released tables.trades refl h)
  ]
]

-- The operation does not set a status back to RESERVED.
abbrev pub NeverReserves : {a b : TradeTables} → TradeStep a b → Type 0
NeverReserves (reserving a now input b trade e) = Unit {0}
NeverReserves (claiming a id) = Unit {0}
NeverReserves (releasing a id) = Unit {0}
NeverReserves (updating a id status b e) = is_reserved status ≡ false
NeverReserves (moving a id state) = Unit {0}

-- No operation of the history does.
abbrev pub NoneReserves : {a b : TradeTables} → TradeSteps a b → Type 0
NoneReserves (none_yet a) = Unit {0}
NoneReserves (and_then a b c before step) = NoneReserves before × NeverReserves step

step-IsClaimed :
    (id : Text) {a b : TradeTables} (step : TradeStep a b)
    → NeverReserves step
    → IsClaimed a.trades id
    → IsClaimed b.trades id
unfolding release_delegated_trade update_delegated_session
step-IsClaimed id (reserving a now input b trade e) fresh h = reserve-IsClaimed a now input id e h
step-IsClaimed id (claiming a other) fresh h = claim-IsClaimed a other id h
step-IsClaimed id (releasing a other) fresh h = release-IsClaimed a (find_trade other a.trades) id h
step-IsClaimed id (updating a other status b e) fresh h =
    subst (λ t. IsClaimed t.trades id) (sym (update_trade-inv a other status e))
      (set_status-IsClaimed id other status a.trades fresh h)
step-IsClaimed id (moving a other state) fresh h = h

steps-IsClaimed :
    (id : Text) {a b : TradeTables} (steps : TradeSteps a b)
    → NoneReserves steps
    → IsClaimed a.trades id
    → IsClaimed b.trades id
steps-IsClaimed id (none_yet a) fresh h = h
steps-IsClaimed id (and_then a b c before step) (earlier, last) h =
    step-IsClaimed id step last (steps-IsClaimed id before earlier h)

IsClaimed-of :
    (tables after : TradeTables) (id : Text)
    → claim_delegated_trade_for_signing tables id ≡ (after, true)
    → IsClaimed after.trades id
unfolding claim_delegated_trade_for_signing
IsClaimed-of tables after id e = elim (Option-cases (find_trade id tables.trades)) [
  | inl missing ↦ (let refused = ap (λ p. p.1) (rw missing at e) in cc)
  | inr (trade, found) ↦ elim (Bool-cases (is_reserved trade.status)) [
    | inr taken ↦ (let refused = ap (λ p. p.1) (rw (found, taken) at e) in cc)
    | inl free ↦
        let is_after = ap (λ p. p.0.trades) (rw (found, free) at e) in
        subst (λ t. IsClaimed t id) is_after (signed-IsClaimed id tables.trades trade found)
  ]
]

-- A trade that has been claimed for signing is never claimed again, whatever operations follow, as
-- long as none sets a status back to RESERVED.
pub claim_once :
    (tables claimed after : TradeTables) (id : Text)
    → claim_delegated_trade_for_signing tables id ≡ (claimed, true)
    → (steps : TradeSteps claimed after) → NoneReserves steps
    → claim_delegated_trade_for_signing after id ≡ (after, false)
unfolding claim_delegated_trade_for_signing
claim_once tables claimed after id e steps fresh =
    let h = steps-IsClaimed id steps fresh (IsClaimed-of tables claimed id e) in
    rw (h.found, h.past_reserved) refl
