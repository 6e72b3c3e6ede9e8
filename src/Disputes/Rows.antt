-- ===== src/Disputes/Rows.antt =====
-- The table of disputes (backend/src/modules/disputes, backend/src/db/migrations/0005_disputes_chat.ts).
use quata_trade.Prelude.{
  ℕ, Bool, true, false, Option, none, some, List, [], ◌∷◌, ◌==◌, if◌then◌else◌,
}
use quata_trade.Domain.{DisputeStatus, open_dispute, awaiting_evidence, under_review, resolved}
use quata_trade.Db.{Dispute}

unfoldable pub find_dispute : ℕ → List Dispute → Option Dispute
find_dispute id [] = none
find_dispute id (d ∷ ds) = if d.id == id then some d else find_dispute id ds

-- What the UNIQUE trade id looks at.
unfoldable pub has_dispute : ℕ → List Dispute → Bool
has_dispute trade_id [] = false
has_dispute trade_id (d ∷ ds) = if d.trade_id == trade_id then true else has_dispute trade_id ds

unfoldable pub set_dispute : Dispute → List Dispute → List Dispute
set_dispute d [] = []
set_dispute d (e ∷ es) = if e.id == d.id then d ∷ es else e ∷ set_dispute d es

unfoldable pub dispute_status_eq : DisputeStatus → DisputeStatus → Bool
dispute_status_eq open_dispute open_dispute = true
dispute_status_eq awaiting_evidence awaiting_evidence = true
dispute_status_eq under_review under_review = true
dispute_status_eq resolved resolved = true
dispute_status_eq _ _ = false
