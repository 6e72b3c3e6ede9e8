-- ===== src/Tests/Journals.antt =====
-- The ledger at concrete journals.
use quata_trade.Prelude.{
  inl, inr, neg_ℤ, ◌≡◌, refl, pos, ◌+ℤ◌, true, false, none, some, [], ◌∷◌, arith,
}
use quata_trade.Domain.{usdt_trc20, user_available, external}
use quata_trade.Tx.{ok, IsOk}
use quata_trade.Ledger.{
  Ledger, find_journal, post_journal, insert_journal, lock_order, find_cache_mismatches, Account,
  Balance, validate, scan_legs, key_length, post_in_trx, post_new, lock_balances, select_balances,
  find_balance, find_account_row, check_accounts, compute_updates, new_balance, apply_updates,
  key_eq, set_balance, to_entry,
}
use quata_trade.Ledger.Legs.{IsBalanced}
use quata_trade.Ledger.Invariant.{IsConsistent}
use quata_trade.Ledger.Outcome.{Ends, post_journal-Ends}
use quata_trade.Ledger.History.{
  post, open_account, run_calls, empty_ledger, run_calls_consistent, reconciliation_finds_nothing,
}
use quata_trade.Ledger.Success.{CanPost, post_journal_succeeds}
use quata_trade.Ledger.Idempotency.{post_journal_twice}
use quata_trade.Tests.Data.{deposited, two_accounts, deposited_ledger}

deposited-IsBalanced : IsBalanced deposited
unfolding key_length ◌+ℤ◌
deposited-IsBalanced = record {
  two_legs = omega arith;
  distinct = ((ground arith, tt), (tt, tt));
  non_zero = (ground arith, (ground arith, tt));
  balanced = refl;
  long_key = omega arith;
}

posted_once :
    post_journal deposited two_accounts
    ≡ ok (record { journal_id = 3; replayed = false }, deposited_ledger)
unfolding post_journal validate scan_legs ◌+ℤ◌ key_length post_in_trx find_journal post_new
    lock_balances select_balances lock_order find_balance check_accounts find_account_row
    compute_updates new_balance insert_journal apply_updates key_eq set_balance to_entry neg_ℤ
posted_once = refl

post_journal_twice_example :
    post_journal deposited deposited_ledger
    ≡ ok (record { journal_id = 3; replayed = true }, deposited_ledger)
post_journal_twice_example =
    post_journal_twice deposited deposited two_accounts posted_once refl deposited-IsBalanced

run_calls_consistent_example : IsConsistent (
    run_calls
      (open_account none external usdt_trc20
        ∷ open_account (some 7) user_available usdt_trc20
        ∷ post deposited
        ∷ [])
      empty_ledger)
run_calls_consistent_example = run_calls_consistent (
    open_account none external usdt_trc20
    ∷ open_account (some 7) user_available usdt_trc20
    ∷ post deposited
    ∷ [])

reconciliation_finds_nothing_example :
    find_cache_mismatches
      (run_calls (open_account none external usdt_trc20 ∷ post deposited ∷ []) empty_ledger)
    ≡ []
reconciliation_finds_nothing_example =
    reconciliation_finds_nothing (open_account none external usdt_trc20 ∷ post deposited ∷ [])

post_journal-Ends_example : Ends deposited two_accounts
post_journal-Ends_example = post_journal-Ends deposited two_accounts

abbrev known : Account
known = record { id = 1; owner = none; kind = external; asset = usdt_trc20 }

abbrev user : Account
user = record { id = 2; owner = some 7; kind = user_available; asset = usdt_trc20 }

abbrev outside : Balance
outside = record { account_id = 1; kind = external; balance = pos 0; version = 0 }

abbrev wallet : Balance
wallet = record { account_id = 2; kind = user_available; balance = pos 0; version = 0 }

two_accounts-CanPost : CanPost deposited two_accounts
unfolding find_account_row find_balance ◌+ℤ◌
two_accounts-CanPost = record {
  valid = deposited-IsBalanced;
  accounts = ((known, refl, refl), ((user, refl, refl), tt));
  affords = ((outside, refl, inl refl), ((wallet, refl, inr (omega arith)), tt));
}

posts_on_two : IsOk (post_journal deposited two_accounts)
posts_on_two = post_journal_succeeds deposited two_accounts two_accounts-CanPost
