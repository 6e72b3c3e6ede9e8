-- ===== src/Tests/Data.antt =====
-- A small marketplace: a seller (user 7) with a balance, a buyer (user 8), the outside world.
use quata_trade.Prelude.{pos, negsuc, none, some, [], ◌∷◌}
use quata_trade.Domain.{
  usdt_trc20, user_available, user_escrow, platform_treasury, external, opened, escrow_locked,
  payment_submitted,
}
use quata_trade.Domain
use quata_trade.Ledger.{JournalInput, Ledger, word, num, system, transfer_ref}
use quata_trade.Db.{Db, Trade}

abbrev pub deposited : JournalInput
deposited = record {
  reason = Domain.deposit_credit;
  reference_type = transfer_ref;
  reference_id = 900;
  idempotency_key = word "deposit" ∷ num 900 ∷ [];
  created_by = system;
  asset = usdt_trc20;
  legs =
      record { account_id = 1; amount = negsuc 499 }
      ∷ record { account_id = 2; amount = pos 500 }
      ∷ [];
}

abbrev pub two_accounts : Ledger
two_accounts = record {
  accounts =
      record { id = 1; owner = none; kind = external; asset = usdt_trc20 }
      ∷ record { id = 2; owner = some 7; kind = user_available; asset = usdt_trc20 }
      ∷ [];
  balances =
      record { account_id = 1; kind = external; balance = pos 0; version = 0 }
      ∷ record { account_id = 2; kind = user_available; balance = pos 0; version = 0 }
      ∷ [];
  journals = [];
  entries = [];
  next_id = 3;
}

abbrev pub deposited_ledger : Ledger
deposited_ledger = record {
  accounts = two_accounts.accounts;
  balances =
      record { account_id = 1; kind = external; balance = negsuc 499; version = 1 }
      ∷ record { account_id = 2; kind = user_available; balance = pos 500; version = 1 }
      ∷ [];
  journals =
      record {
        id = 3;
        reason = Domain.deposit_credit;
        reference_type = transfer_ref;
        reference_id = 900;
        idempotency_key = word "deposit" ∷ num 900 ∷ [];
        created_by = system;
      }
      ∷ [];
  entries =
      record { journal_id = 3; account_id = 1; asset = usdt_trc20; amount = negsuc 499 }
      ∷ record { journal_id = 3; account_id = 2; asset = usdt_trc20; amount = pos 500 }
      ∷ [];
  next_id = 4;
}

abbrev pub new_trade : Trade
new_trade = record {
  id = 40;
  country = 237;
  offer_id = 30;
  seller_id = 7;
  buyer_id = 8;
  asset = usdt_trc20;
  amount = 200;
  price_xaf_per_unit = 655;
  fiat_amount_xaf = 131;
  payment_method = 1;
  fee_bps = 100;
  fee_amount = 2;
  seller_fee_bps = 100;
  seller_fee_amount = 2;
  status = opened;
  payment_deadline = none;
  completed_at = none;
  escrow_journal_id = none;
  release_journal_id = none;
}

abbrev pub db_with : Ledger → Trade → Db
db_with l t = record {
  ledger = l;
  trades = t ∷ [];
  offers = [];
  trade_events = [];
  trade_payments = [];
  withdrawals = [];
  deposits = [];
  disputes = [];
  evidence = [];
  users = [];
  withdrawal_addresses = [];
  deposit_addresses = [];
  enabled_countries = [];
  outbox = [];
  audit_log = [];
  next_id = 100;
}
