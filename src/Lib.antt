-- ===== src/Lib.antt =====
-- AURKA: a treasury lends its portfolio to direct swaps, inside a governance policy.
--
-- The parts that are modelled, and how they interact:
--
-- Errors.antt and Prelude.antt are shared. A call that may throw is a Result; an error keeps its
-- kind and drops the names in its message. A string is the list of its ASCII codes, so that
-- toLowerCase and trim are those of ASCII. A JavaScript bigint is a number of ℕ, with the test for
-- 2^256 written where the source has it, or a ℤ where it can be negative. A JavaScript number is a
-- Num: an integer, or any other value.
--
-- Bisect.antt holds the two bisection loops, used by the weights, the safe fill and the settlement.
-- Their fuel is the upper end of the interval; each round shrinks the interval by one at least, and
-- Bisect/Laws.antt proves the fuel enough.
--
-- Financial.antt and below model packages/shared/src/financial.ts:
--   Integer     UINT256_MAX, toUint256, requireBps and the canonical decimal strings
--   Checked     checkedAdd, checkedSub, checkedMul, ceilDiv, floorMulDiv, bpsOfDown, bpsOfUp, scale10
--   Weight      weightBps
--   Asset       calculateAssetValue, its Down and Exact forms, and the amount adjustment. The fuel of
--               the greatest common divisor is the divisor, which falls in each round.
--   Policy      normalizeToken, policyBounds, validatePolicy
--   Portfolio   calculatePortfolioValuation, assetIndex
--   Trade       applyTrade, applyFeeInclusiveTrade
--   Constraints evaluateConstraints
--   SafeFill    findMaximumSafeFill, findFirstUnsafeBinding
--   Capacity    calculateUtilization and the directional capacity: calculate, establish, consume,
--               reverse
--   Fees        calculateOptionSpaceFee, calculateOptionSpacePremiumBps, distributeFees
-- The functions keep their names in snake case. Each has a child module with its laws.
--
-- Price.antt models packages/shared/src/price.ts: freshness, approval and deviation of snapshots,
-- and the least value that an exchange brings in. It calls Financial for the values of the amounts.
--
-- Slots.antt and Epoch.antt model packages/shared/src/epoch.ts, the hash of an epoch's fields in
-- 32-byte slots. keccak_256 of @noble/hashes is a parameter of the definitions.
--
-- Settlement.antt models packages/shared/src/settlement.ts. calculateDirectSettlement checks the
-- epoch (Epoch), the prices (Price) and the decimals, bisects for the largest fill whose fees
-- (Financial/Fees), trade (Financial/Trade) and constraints (Financial/Constraints) hold, and
-- reports what binds the next unit. A candidate that throws counts as unsafe, as in the source.
--
-- Watchtower.antt and below model evaluateRisk of packages/agents/watchtower/src/index.ts:
--   Observation the validity of an observation and the filter
--   Triggers    the sources that trigger each mode, and their quorum
--   Bounds      the bound set of a mode, and its check against the hard policy
--   Evaluation  the mode, with fail-safe and recovery, and the result
-- Its decimal strings are the numbers that they denote. The bounds and caps that it selects become
-- the policy that a settlement is held to, by way of a signed certificate.
--
-- Repository.antt and below model operations of packages/services/src/db/repository.ts, over the
-- tables of packages/services/src/db/schema.ts:
--   Leases      claimDelegatedWorkerLease, releaseDelegatedWorkerLease
--   Jobs        ownsRiskJob and the claim, release, ensure, save, complete and fail of a
--               risk job
--   Trades      reserveDelegatedTrade, claimDelegatedTradeForSigning, releaseDelegatedTrade,
--               updateDelegatedTrade, updateDelegatedSession
-- A table is the list of its rows. A select by the primary key finds the first row with it, and an
-- update by it writes that row. Each operation is one transaction, hence one step; histories are
-- sequences of steps of any workers. The time that the source reads from the clock is an argument.
--
-- Indexer.antt and below model packages/services/src/indexer.ts over the checkpoint, the headers and
-- the raw events of one contract (Indexer/Tables, of repository.ts). sync is ChainEventIndexer.sync;
-- the answers of the node are a record of functions, so that they do not change during one run; its
-- fuel counts the calls of sync by itself, and Indexer/Termination proves two rounds enough. The
-- walk to a common ancestor is recursion on the block number. A bigint block is a number, and the
-- loss of precision of Number above 2^53 is not modelled. Indexer/Canonical relates the tables to the
-- node's chain, and Indexer/Repeated repeats a run. The projections of capacity and settlement that
-- the repository derives from the events are left out, and the parsing of a payload by
-- packages/shared/src/events.ts is an argument. retryBounded returns what its call returns, or throws.
--
-- Risk.antt and below model the certificates of packages/services/src/risk-service.ts, with the hashes
-- of packages/shared/src/risk.ts: Certificate is saveCertificate with its writes, and the certificate
-- that packages/services/src/risk-worker.ts makes of an evaluation. Certificate/Accepted joins it with
-- the evaluation of Watchtower. keccak_256 and the recovery of a signer are parameters. Risk/Worker is
-- one pass of RiskCertificateWorker.tick: a step reads and writes the stored workflow, the tables and
-- the list of certificates handed to the wallet, or throws; the answers of the awaited calls and the
-- readings of the clock are a record, one field for each call, and an answer is an error where the
-- call throws or the lease is lost by then. Its modules are Steps (what a step returns or hands over),
-- Saving, Decisions (the stored workflow), Signing (a new certificate) and Guards (a whole pass). The
-- worker's diagnostics and audit events, and what the evaluation saves, are left out.
--
-- Solver.antt and below model packages/services/src/solver/proposals.ts: the validation and the
-- ranking of submitted proposals (ProposalCollector). The hash of a proposal, its signature check, the
-- simulator and localeCompare are fields of a record that the definitions take; select is modelled
-- less the fill that the direct solver recomputes.
--
-- Auth.antt and below model the login by a wallet, AuthService of packages/services/src/api/auth.ts
-- (Auth/Service), over the challenges and sessions of packages/services/src/db/repository.ts: a table
-- is the list of its rows, a second row with a key is refused, and a call that throws keeps what it
-- has written by then. What the source draws (identifiers, nonces, tokens) and the clock are
-- arguments; new URL, SHA-256 and the recovery of a signer are fields of a record. Auth/Consumption
-- and Auth/Checks are about one login, Auth/Once about sequences of calls. The cookie's text and the
-- headers of a request are left out.
--
-- Loops over lists are structural recursion.
--
-- Not modelled: zod schemas (apart from the tests that a parsed value can still fail), display
-- text, EIP-712 digests apart from the certificate's, signatures, the rest of the services (the
-- other tables, the agents, the HTTP routes), the start and stop of the risk worker, the
-- wallet, the SDK, the graph, the applications, and the Solidity contracts. Of an evaluation's
-- result the summary text and the hashes are left out.
pub mod Prelude
pub mod Errors
pub mod Bisect
pub mod Financial
pub mod Price
pub mod Slots
pub mod Epoch
pub mod Settlement
pub mod Watchtower
pub mod Repository
pub mod Indexer
pub mod Risk
pub mod Solver
pub mod Auth
