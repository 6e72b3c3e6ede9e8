-- ===== src/Tables.antt =====
-- What the services share beside the ledger: users by their ids, ids for new rows, the outbox
-- (`INSERT INTO outbox`) and the audit log (backend/src/common/audit).
use quata_trade.Prelude.{ℕ, ◌+◌, ◌==◌, Option, none, some, List, [], ◌∷◌, if◌then◌else◌}
use quata_trade.Tx.{ok, Tx, modify}
use quata_trade.Db.{Db, User, OutboxEvent, AuditEntry}

unfoldable pub find_user : ℕ → List User → Option User
find_user id [] = none
find_user id (u ∷ us) = if u.id == id then some u else find_user id us

-- An UPDATE of a user's row, as `set` makes it.
unfoldable pub update_user : ℕ → (User → User) → List User → List User
update_user id set [] = []
update_user id set (u ∷ us) = if u.id == id then set u ∷ us else u ∷ update_user id set us

-- `newId()`
unfoldable pub new_id : Tx Db ℕ
new_id db = ok (db.next_id, record db { next_id = db.next_id + 1 })

unfoldable pub enqueue_outbox : OutboxEvent → Tx Db (Unit {0})
enqueue_outbox event = modify λ db. record db { outbox = event ∷ db.outbox }

unfoldable pub audit : AuditEntry → Tx Db (Unit {0})
audit entry = modify λ db. record db { audit_log = entry ∷ db.audit_log }
