-- ===== src/Withdrawals.antt =====
-- WithdrawalsService (backend/src/modules/withdrawals/withdrawals.service.ts): the request
-- (Request, with Factors), the saved destinations (Whitelist), the admins' decisions (Decide),
-- signing, settlement and failure (Settle), and what is read (Reads).
pub mod Rows
pub mod Factors
pub mod Request
pub mod Secrets
pub mod Decide
pub mod Settle
pub mod Updates
pub mod Life
pub mod History
pub mod Calls
pub mod Refused
pub mod Untouched
pub mod Payback
pub mod Whitelist
pub mod Cooldown
pub mod Reads
pub mod Recorded
pub mod Granted
