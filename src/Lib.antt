-- ===== src/Lib.antt =====
-- Verification library of the QuataTrade backend: a peer-to-peer market for USDT in which trades are
-- paid outside the platform while the coins wait in escrow.
--
-- The parts and how they interact. Every movement of money is a journal of the double-entry ledger.
-- The escrow service turns the steps of a trade (fund, release, refund) into journals and is the
-- only writer of a trade's status; a money transaction around each of its calls commits everything
-- or nothing. A withdrawal takes the money out of a user's account when it is requested, and its
-- settlement or its refund moves it on. A trade is opened from an offer and funded in one
-- transaction; a dispute freezes it until an admin decides. A transfer moves coins between two
-- users behind a PIN. A transfer of the chain becomes a row of the deposits when it is scanned, and
-- money when it is deep enough and passes the gates. The fee functions say what a trade locks and
-- pays out, the risk rules score a login, a trade or a withdrawal.
--
-- Files, and the code of each (paths from the repository's root):
--   Prelude, Prelude/*   shared names; integers over the native numbers (Prelude/Int)
--   Domain, Errors, Db   the enumerations of shared/src/constants.ts, the error classes, the rows of
--                        backend/src/db/types.ts
--   Tx, Tx/*             withMoneyTransaction of backend/src/modules/ledger/ledger.service.ts: a
--                        transaction is a function from a state to a result and the next state, a
--                        service call keeps the state of the last commit
--   Ledger, Ledger/*     LedgerService in backend/src/modules/ledger/ledger.service.ts
--   Fees, Fees/Bounds    backend/src/modules/fees/fees.ts
--   Risk, Risk/Score     backend/src/modules/risk/risk.rules.ts and the inputs that RiskService
--                        makes, backend/src/modules/withdrawals/withdrawal-risk.ts
--   Escrow, Escrow/*     EscrowService in backend/src/modules/escrow/escrow.service.ts (Rows: the
--                        tables and `transition`; Money: the journals), with the trigger of
--                        backend/src/db/migrations/0004_trading.ts
--   Withdrawals/*        WithdrawalsService in
--                        backend/src/modules/withdrawals/withdrawals.service.ts (Request and Factors:
--                        the request; Whitelist: the saved destinations; Decide: approval and
--                        rejection; Settle: signing to payment; Reads: quote and getForUser),
--                        with the trigger of
--                        backend/src/db/migrations/0017_dual_approval_trigger.ts
--   Tables               what the services share: look-up of users, newId, the outbox, the audit log
--   Postings             the pattern by which they move money: two or three accounts, one journal
--   Trades, Trades/*     TradesService in backend/src/modules/trades/trades.service.ts (Open: opening;
--                        Calls: sequences of calls of trades, escrow and disputes)
--   Disputes, Disputes/* DisputesService and `resolve` of DisputesAdminService in
--                        backend/src/modules/disputes
--   Offers, Offers/*     OffersService in backend/src/modules/offers/offers.service.ts
--   Wallet, Wallet/*     `internalTransfer` of backend/src/modules/wallet/wallet.service.ts, and
--                        PinService of backend/src/modules/auth/pin.service.ts (Pin)
--   Deposits, Deposits/* DepositConfirmationService and DepositScannerService in
--                        backend/src/modules/deposits (Scan: the scanner; Passes: the passes and the
--                        sweep; Policy: holdReason), HeldDepositsService in
--                        backend/src/modules/admin/held-deposits.service.ts (Held)
--   Amounts              amounts as text, shared/src/money.ts
--   Tests, Tests/*       concrete inputs
--
-- Correspondence. A table is a list of records, a look-up takes the first match, an id from newId()
-- is the next unused number. A bigint is an exact number, as in the source: there is no wrap-around
-- before the columns' 64 bits, whose overflow is not modelled. Idempotency keys are lists of pieces,
-- so that a key made of a word and an id is compared by its parts. Dates are numbers of
-- milliseconds, and `now` is an argument. What the database does to the attempts of a transaction is
-- an argument too: a function from the number of the attempt to the code it is aborted with, if any.
-- Concurrent transactions are serialised by the row locks; the race for an idempotency key is a
-- second look-up in the insert.
--
-- Fuel: the retry loop is bounded by the source's own three attempts, and writing a number's digits
-- by the number itself, which a division by ten per digit never uses up.
--
-- Not modelled: the network, the chain, sessions, the administration console (but for held deposits)
-- and the frontend, which move no money by themselves. What a request for a withdrawal or a trade, or
-- a pass over the deposits, learns from the settings, the promotions, from otplib, argon2, TronWeb,
-- the node and the screening is an argument.
pub mod Prelude
pub mod Domain
pub mod Errors
pub mod Tx
pub mod Ledger
pub mod Fees
pub mod Risk
pub mod Db
pub mod Tables
pub mod Postings
pub mod Escrow
pub mod Trades
pub mod Disputes
pub mod Wallet
pub mod Offers
pub mod Withdrawals
pub mod Deposits
pub mod Amounts
pub mod Tests
