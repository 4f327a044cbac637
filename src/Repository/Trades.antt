-- ===== src/Repository/Trades.antt =====
-- packages/services/src/db/repository.ts: the trades of a delegated session, which reserve a part of
-- its input budget. The fields that no guard reads are left out of the rows.
pub mod Budget
pub mod Signing
use aurka.Prelude.{
  ℕ, suc, ◌+◌, ◌-◌, Bool, true, false, ◌&&◌, ◌||◌, not, List, [], ◌∷◌, Option, none, some, Result,
  ok, err, ◌>>=◌, ◌>>◌, throw_if, ltb, leb, if◌then◌else◌,
}
use aurka.Prelude.Text.{Text, text_eq}

pub data SessionState : Type 0 where
  authorized : SessionState
  active : SessionState
  stopped : SessionState
  expired : SessionState
  exhausted : SessionState
  revoke_pending : SessionState
  session_unreconciled : SessionState

abbrev pub is_active : SessionState → Bool
is_active authorized = false
is_active active = true
is_active stopped = false
is_active expired = false
is_active exhausted = false
is_active revoke_pending = false
is_active session_unreconciled = false

pub data TradeStatus : Type 0 where
  reserved : TradeStatus
  signing : TradeStatus
  submitted : TradeStatus
  confirmed : TradeStatus
  reverted : TradeStatus
  trade_unreconciled : TradeStatus
  released : TradeStatus

abbrev pub is_reserved : TradeStatus → Bool
is_reserved reserved = true
is_reserved signing = false
is_reserved submitted = false
is_reserved confirmed = false
is_reserved reverted = false
is_reserved trade_unreconciled = false
is_reserved released = false

abbrev pub is_releasable : TradeStatus → Bool
is_releasable reserved = true
is_releasable signing = true
is_releasable submitted = false
is_releasable confirmed = false
is_releasable reverted = false
is_releasable trade_unreconciled = false
is_releasable released = false

-- The three limits of `planJson`, and the session's counters.
pub record DelegatedSession : Type 0 where
  pub id : Text
  pub state : SessionState
  pub expires_at : ℕ
  pub cumulative_input_budget : ℕ
  pub max_trade_count : ℕ
  pub consumed_input_amount : ℕ
  pub trade_count : ℕ

pub record DelegatedTrade : Type 0 where
  pub id : Text
  pub session_id : Text
  pub intent_hash : Text
  pub proposal_hash : Text
  pub input_amount : ℕ
  pub status : TradeStatus
  pub idempotency_key : Text

pub record TradeTables : Type 0 where
  pub sessions : List DelegatedSession
  pub trades : List DelegatedTrade

pub data TradeError : Type 0 where
  session_not_found : TradeError
  session_not_active : TradeError
  session_expired : TradeError
  count_exhausted : TradeError
  budget_exhausted : TradeError
  trade_not_found : TradeError

unfoldable pub find_session : Text → List DelegatedSession → Option DelegatedSession
find_session id [] = none
find_session id (row ∷ rows) = if text_eq row.id id then some row else find_session id rows

unfoldable pub find_trade : Text → List DelegatedTrade → Option DelegatedTrade
find_trade id [] = none
find_trade id (row ∷ rows) = if text_eq row.id id then some row else find_trade id rows

-- The select by the identifier or the idempotency key: the newest row, where each belongs to another.
unfoldable pub find_existing :
    (id idempotency_key : Text) → List DelegatedTrade → Option DelegatedTrade
find_existing id idempotency_key [] = none
find_existing id idempotency_key (row ∷ rows) =
    if text_eq row.id id || text_eq row.idempotency_key idempotency_key
    then some row
    else find_existing id idempotency_key rows

-- The update of the row with the primary key.
unfoldable pub update_session :
    Text → (DelegatedSession → DelegatedSession) → List DelegatedSession → List DelegatedSession
update_session id change [] = []
update_session id change (row ∷ rows) =
    if text_eq row.id id then change row ∷ rows else row ∷ update_session id change rows

unfoldable pub set_status : Text → TradeStatus → List DelegatedTrade → List DelegatedTrade
set_status id status [] = []
set_status id status (row ∷ rows) =
    if text_eq row.id id
    then record row { status = status } ∷ rows
    else row ∷ set_status id status rows

abbrev pub required_session : Option DelegatedSession → Result TradeError DelegatedSession
required_session none = err session_not_found
required_session (some session) = ok session

-- The guards, and both writes, of a new reservation.
unfoldable pub reserve_new :
    TradeTables → (now : ℕ) → DelegatedTrade → Result TradeError (TradeTables × DelegatedTrade)
reserve_new tables now input = do
  session ← required_session (find_session input.session_id tables.sessions)
  throw_if (not (is_active session.state)) session_not_active
  throw_if (leb session.expires_at now) session_expired
  throw_if (leb session.max_trade_count session.trade_count) count_exhausted
  throw_if
      (ltb session.cumulative_input_budget (session.consumed_input_amount + input.input_amount))
      budget_exhausted
  let trade = record input { status = reserved }
  ok (
    record {
      sessions =
          update_session input.session_id
            (λ row. record row {
              consumed_input_amount = session.consumed_input_amount + input.input_amount;
              trade_count = session.trade_count + 1;
            })
            tables.sessions;
      trades = trade ∷ tables.trades;
    },
    trade,
  )

abbrev pub reserve_found :
    TradeTables
    → (now : ℕ) → DelegatedTrade
    → Option DelegatedTrade
    → Result TradeError (TradeTables × DelegatedTrade)
reserve_found tables now input none = reserve_new tables now input
reserve_found tables now input (some existing) = ok (tables, existing)

-- The status of `input` is not read.
unfoldable pub reserve_delegated_trade :
    TradeTables → (now : ℕ) → DelegatedTrade → Result TradeError (TradeTables × DelegatedTrade)
reserve_delegated_trade tables now input =
    reserve_found tables now input (find_existing input.id input.idempotency_key tables.trades)

-- Whether the update changed a row: one that is still reserved.
abbrev pub is_claimable_trade : Option DelegatedTrade → Bool
is_claimable_trade none = false
is_claimable_trade (some trade) = is_reserved trade.status

unfoldable pub claim_delegated_trade_for_signing : TradeTables → Text → TradeTables × Bool
claim_delegated_trade_for_signing tables id =
    if is_claimable_trade (find_trade id tables.trades)
    then (record tables { trades = set_status id signing tables.trades }, true)
    else (tables, false)

-- Both writes of a release.
abbrev pub release_from : TradeTables → DelegatedTrade → Option DelegatedSession → TradeTables
release_from tables trade none = tables
release_from tables trade (some session) = record {
  sessions =
      update_session trade.session_id
        (λ row. record row {
          consumed_input_amount = session.consumed_input_amount - trade.input_amount;
          trade_count = session.trade_count - 1;
        })
        tables.sessions;
  trades = set_status trade.id released tables.trades;
}

abbrev pub release_found : TradeTables → Option DelegatedTrade → TradeTables
release_found tables none = tables
release_found tables (some trade) =
    if is_releasable trade.status
    then release_from tables trade (find_session trade.session_id tables.sessions)
    else tables

unfoldable pub release_delegated_trade : TradeTables → Text → TradeTables
release_delegated_trade tables id = release_found tables (find_trade id tables.trades)

abbrev pub is_found : Option DelegatedTrade → Bool
is_found none = false
is_found (some trade) = true

unfoldable pub update_delegated_trade :
    TradeTables → Text → TradeStatus → Result TradeError TradeTables
update_delegated_trade tables id status = do
  throw_if (not (is_found (find_trade id tables.trades))) trade_not_found
  ok (record tables { trades = set_status id status tables.trades })

-- The state of a session; its limits and counters are not among what this operation writes.
unfoldable pub update_delegated_session : TradeTables → Text → SessionState → TradeTables
update_delegated_session tables id state = record tables {
  sessions = update_session id (λ row. record row { state = state }) tables.sessions;
}
