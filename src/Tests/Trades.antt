-- ===== src/Tests/Trades.antt =====
-- A trade that is funded, and cancelled by its buyer.
use quata_trade.Prelude.{ℕ, ◌≡◌, refl, Option, none, some, List, [], ◌∷◌}
use quata_trade.Errors.{PgCode}
use quata_trade.Ledger.{Ledger, seller_actor, user_actor, withdrawal_ref, find_journal, key_eq}
use quata_trade.Domain.{cancelled, payment_submitted, withdrawal_debit}
use quata_trade.Db.{Trade}
use quata_trade.Escrow.{find_trade, trade_key, confirm_release}
use quata_trade.Escrow.Replay.{used_key_moves_nothing}
use quata_trade.Escrow.Progress.{Follows}
use quata_trade.Escrow.History.{
  EscrowCall, fund, cancel, run_escrows, trade_obeys_transitions, final_status_stays,
}
use quata_trade.Tests.Data.{deposited_ledger, new_trade, db_with}

abbrev no_aborts : ℕ → Option PgCode
no_aborts n = none

abbrev two_calls : List ((ℕ → Option PgCode) × EscrowCall)
two_calls = (no_aborts, fund 40 (seller_actor 7) 1_000) ∷ (no_aborts, cancel 40 8) ∷ []

trade_obeys_transitions_example :
    Follows new_trade (run_escrows two_calls (db_with deposited_ledger new_trade))
unfolding find_trade
trade_obeys_transitions_example =
    trade_obeys_transitions two_calls (db_with deposited_ledger new_trade) new_trade refl

abbrev cancelled_trade : Trade
cancelled_trade = record new_trade { status = cancelled }

final_status_stays_example :
    (u : Trade) × (find_trade 40
        (run_escrows two_calls (db_with deposited_ledger cancelled_trade)).trades
      ≡ some u)
    × (u.status ≡ cancelled)
unfolding find_trade
final_status_stays_example =
    final_status_stays two_calls (db_with deposited_ledger cancelled_trade) cancelled_trade refl
      refl

-- The key of the release, squatted by a withdrawal of the buyer's.
abbrev squatted : Ledger
squatted = record deposited_ledger {
  journals =
      record {
        id = 50;
        reason = withdrawal_debit;
        reference_type = withdrawal_ref;
        reference_id = 51;
        idempotency_key = trade_key 40 "release";
        created_by = user_actor 8;
      }
      ∷ deposited_ledger.journals;
}

abbrev paid_trade : Trade
paid_trade = record new_trade { status = payment_submitted }

used_key_moves_nothing_example :
    (confirm_release no_aborts 5 40 7 (db_with squatted paid_trade)).1.ledger.entries
    ≡ deposited_ledger.entries
unfolding find_journal key_eq
used_key_moves_nothing_example =
    used_key_moves_nothing no_aborts 5 40 7 (db_with squatted paid_trade)
      (record {
        id = 50;
        reason = withdrawal_debit;
        reference_type = withdrawal_ref;
        reference_id = 51;
        idempotency_key = trade_key 40 "release";
        created_by = user_actor 8;
      })
      refl
