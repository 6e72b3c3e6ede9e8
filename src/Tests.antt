-- ===== src/Tests.antt =====
-- Concrete inputs at which the theorems apply.
mod Data
mod Amounts
mod Scores
mod Transactions
mod Journals
mod Trades
mod Payouts
mod Payments
mod Market
mod Wallet
mod Withdrawing
mod Offers
mod Deposits
