-- ===== src/Wallet/Transfer.antt =====
-- What an internal transfer moves (backend/src/modules/wallet/wallet.service.ts).
use quata_trade.Prelude.{
  ℕ, ◌+◌, ◌≡◌, refl, ap, ◌∙◌, ℤ, pos, neg_ℤ, ◌+ℤ◌, Bool, true, false, Option, none, some, List, [],
  ◌∷◌, if◌then◌else◌,
}
use quata_trade.Domain.{user_available}
use quata_trade.Errors.{PgCode}
use quata_trade.Tx.{ok, pure, ◌>>◌, with_money_transaction}
use quata_trade.Tx.Guards.{ok_inj}
use quata_trade.Tx.Retry.{with_money_transaction-IsAtomic}
use quata_trade.Ledger.{JournalResult, find_journal}
use quata_trade.Ledger.Holdings.{Ref, IsIndexed, moved, holding}
use quata_trade.Ledger.Transfers.{ref}
use quata_trade.Postings.{pair_posting_ok}
use quata_trade.Db.{Db, internal_transferred, audit_internal_transfer}
use quata_trade.Tables.{new_id, enqueue_outbox, audit}
use quata_trade.Wallet.{
  TransferRequest, transfer_key, transfer_input, announce_transfer, transfer_tx,
}

abbrev pub balance_ref : ℕ → TransferRequest → Ref
balance_ref user_id dto = ref (some user_id) user_available dto.asset

-- The amount, out of one balance and into the other.
abbrev pub transfer_moves : ℕ → ℕ → TransferRequest → List (Ref × ℤ)
transfer_moves user_id recipient_id dto =
    (balance_ref user_id dto, neg_ℤ (pos dto.amount))
    ∷ (balance_ref recipient_id dto, pos dto.amount)
    ∷ []

announced :
    (user to : ℕ) (dto : TransferRequest) (r x : JournalResult) (db db' : Db)
    → announce_transfer user to dto r db ≡ ok (x, db')
    → db'.ledger ≡ db.ledger
unfolding announce_transfer enqueue_outbox audit
announced user to dto r x db db' h = go r.replayed r h
  where
    go :
        (b : Bool) (r : JournalResult)
        → (if b then pure r else (do
          enqueue_outbox (internal_transferred r.journal_id user to dto.amount)
          audit (audit_internal_transfer user to dto.amount)
          pure r))
            db
          ≡ ok (x, db')
        → db'.ledger ≡ db.ledger
    go true r h = ap (λ p. p.1.ledger) (ok_inj h)
    go false r h = ap (λ p. p.1.ledger) (ok_inj h)

committed :
    (aborts : ℕ → Option PgCode) (user to : ℕ) (dto : TransferRequest) (db : Db) (r : JournalResult)
    (db' : Db)
    → with_money_transaction aborts (transfer_tx user to dto) db ≡ (ok r, db')
    → transfer_tx user to dto db ≡ ok (r, db')
committed aborts user to dto db r db' h =
    rw h at (with_money_transaction-IsAtomic aborts (transfer_tx user to dto) db)

-- A transfer under a fresh key that goes through takes the amount from the sender's balance and adds
-- it to the recipient's, and leaves what everyone else holds: where account ids are unique and older
-- than the next id.
pub internal_transfer_moves :
    (aborts : ℕ → Option PgCode) (user to : ℕ) (dto : TransferRequest) (db : Db) (r : JournalResult)
    (db' : Db)
    → IsIndexed db.ledger
    → find_journal (transfer_key user dto.idempotency_key) db.ledger.journals ≡ none
    → with_money_transaction aborts (transfer_tx user to dto) db ≡ (ok r, db')
    → (s : Ref) → holding db'.ledger s ≡ moved (transfer_moves user to dto) s +ℤ holding db.ledger s
unfolding transfer_tx new_id
internal_transfer_moves aborts user to dto db r db' x unused h s =
    let run = committed aborts user to dto db r db' h in
    let (p, a, b, l, done, rest) =
      pair_posting_ok (some user) (some to) user_available user_available dto.asset
        (neg_ℤ (pos dto.amount)) (pos dto.amount) (transfer_input user db.next_id dto)
        (announce_transfer user to dto) (record db { next_id = db.next_id + 1 }) db' x (λ a b. refl)
        (λ a b. unused) run in
    ap (λ k. holding k s) (announced user to dto p r _ db' rest) ∙ done.moves s
