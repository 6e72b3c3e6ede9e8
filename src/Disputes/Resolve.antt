-- ===== src/Disputes/Resolve.antt =====
-- `resolve` of DisputesAdminService (backend/src/modules/disputes/disputes-admin.service.ts).
use quata_trade.Prelude.{ℕ, String, Bool, true, false, not, Option, none, some, if◌then◌else◌}
use quata_trade.Domain.{resolved, DisputeResolution, release_to_buyer, refund_to_seller}
use quata_trade.Errors.{PgCode, dispute_not_found, conflicting_resolution}
use quata_trade.Tx.{Result, ok, err, Tx, Service, pure, modify, ◌>>=◌, ◌>>◌, execute}
use quata_trade.Db.{Db, Trade, Dispute, dispute_resolved_event, audit_dispute_resolved}
use quata_trade.Tables.{enqueue_outbox, audit}
use quata_trade.Escrow.{resolve_dispute}
use quata_trade.Disputes.Rows.{find_dispute, set_dispute, dispute_status_eq}

pub record ResolveResult : Type 0 where
  pub dispute_id : ℕ
  pub trade_id : ℕ
  pub resolution : DisputeResolution
  pub already_resolved : Bool

unfoldable pub resolution_eq : DisputeResolution → DisputeResolution → Bool
resolution_eq release_to_buyer release_to_buyer = true
resolution_eq refund_to_seller refund_to_seller = true
resolution_eq _ _ = false

abbrev pub same_resolution : Option DisputeResolution → DisputeResolution → Bool
same_resolution none r = false
same_resolution (some q) r = resolution_eq q r

-- The guarded UPDATE, and the event and the audit row where it matched; whether it did.
unfoldable pub record_resolution : ℕ → ℕ → ℕ → DisputeResolution → String → Tx Db Bool
record_resolution now dispute_id admin_id resolution notes db =
    elim (find_dispute dispute_id db.disputes) [
      | none ↦ ok (false, db)
      | some d ↦
          if dispute_status_eq d.status resolved
          then ok (false, db)
          else (do
            modify (λ s. record s {
              disputes =
                  set_dispute
                    (record d {
                      status = resolved;
                      resolution = some resolution;
                      resolved_by = some admin_id;
                      resolution_notes = some notes;
                      resolved_at = some now;
                    })
                    s.disputes;
            })
            enqueue_outbox (dispute_resolved_event dispute_id resolution admin_id)
            audit (audit_dispute_resolved admin_id dispute_id)
            pure true)
              db
    ]

unfoldable pub after_money :
    ℕ → Dispute → ℕ → DisputeResolution → String → Result Trade × Db → Result ResolveResult × Db
after_money now d admin_id resolution notes (err e, db) = (err e, db)
after_money now d admin_id resolution notes (ok t, db) =
    execute
      (do
        applied ← record_resolution now d.id admin_id resolution notes
        pure (record {
          dispute_id = d.id;
          trade_id = d.trade_id;
          resolution = resolution;
          already_resolved = not applied;
        }))
      db

unfoldable pub resolve :
    (ℕ → Option PgCode) → ℕ → ℕ → ℕ → DisputeResolution → String → Service Db ResolveResult
unfolding after_money
resolve aborts now dispute_id admin_id resolution notes db =
    elim (find_dispute dispute_id db.disputes) [
      | none ↦ (err dispute_not_found, db)
      | some d ↦
          if dispute_status_eq d.status resolved
          then (if same_resolution d.resolution resolution
              then (
                ok (record {
                  dispute_id = dispute_id;
                  trade_id = d.trade_id;
                  resolution = resolution;
                  already_resolved = true;
                }),
                db,
              )
              else (err conflicting_resolution, db))
          else after_money now d admin_id resolution notes
              (resolve_dispute aborts now d.trade_id admin_id resolution db)
    ]
