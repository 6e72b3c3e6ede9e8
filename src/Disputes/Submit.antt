-- ===== src/Disputes/Submit.antt =====
-- `submitEvidence` of DisputesService (backend/src/modules/disputes/disputes.service.ts).
use text.Mathlib.Text.{starts_with, find?}
use Prim.Native.String.{◌++◌}
use quata_trade.Prelude.{
  ℕ, String, Bool, true, false, not, ◌&&◌, Option, none, some, List, [], ◌∷◌, ◌==◌, if◌then◌else◌,
}
use quata_trade.Domain.{DisputeStatus, open_dispute, awaiting_evidence, under_review, resolved}
use quata_trade.Errors.{dispute_not_found, dispute_resolved, invalid_evidence_file, no_result}
use quata_trade.Tx.{Result, ok, err, Tx, Service, pure, gets, modify, ◌>>=◌, ◌>>◌, execute}
use quata_trade.Db.{Db, Dispute, Evidence}
use quata_trade.Escrow.{find_trade}
use quata_trade.Disputes.Rows.{find_dispute, set_dispute, dispute_status_eq}

pub record Party : Type 0 where
  pub dispute : Dispute
  pub buyer_id : ℕ
  pub seller_id : ℕ

-- A stranger gets the answer for a missing dispute.
unfoldable pub require_party : ℕ → ℕ → Db → Result Party
require_party dispute_id user_id db = elim (find_dispute dispute_id db.disputes) [
  | none ↦ err dispute_not_found
  | some d ↦ elim (find_trade d.trade_id db.trades) [
    | none ↦ err no_result
    | some t ↦
        if not (t.buyer_id == user_id) && not (t.seller_id == user_id)
        then err dispute_not_found
        else ok (record { dispute = d; buyer_id = t.buyer_id; seller_id = t.seller_id })
  ]
]

abbrev pub no_dots : Option ℕ → Bool
no_dots none = true
no_dots (some i) = false

-- `key.startsWith("<dispute id>/") && !key.includes("..")`; `text` writes an id out.
unfoldable pub all_evidence_keys : (ℕ → String) → ℕ → List String → Bool
all_evidence_keys text id [] = true
all_evidence_keys text id (key ∷ keys) =
    starts_with key (text id ++ "/") && no_dots (find? key "..") && all_evidence_keys text id keys

-- `sides.has(user)`
unfoldable pub has_submitted : ℕ → ℕ → List Evidence → Bool
has_submitted dispute_id user_id [] = false
has_submitted dispute_id user_id (e ∷ es) =
    if e.dispute_id == dispute_id && e.submitted_by == user_id
    then true
    else has_submitted dispute_id user_id es

-- The status after another piece of evidence, where it moves.
unfoldable pub next_status : DisputeStatus → Bool → Option DisputeStatus
next_status open_dispute both_sides = some (if both_sides then under_review else awaiting_evidence)
next_status awaiting_evidence both_sides = if both_sides then some under_review else none
next_status under_review both_sides = none
next_status resolved both_sides = none

-- UPDATE … WHERE id AND status = `from`; a lost race changes nothing.
unfoldable pub step_dispute : ℕ → DisputeStatus → DisputeStatus → Tx Db (Unit {0})
step_dispute id from to db = elim (find_dispute id db.disputes) [
  | none ↦ ok (tt, db)
  | some d ↦
      if dispute_status_eq d.status from
      then ok (tt, record db { disputes = set_dispute (record d { status = to }) db.disputes })
      else ok (tt, db)
]

pub record SubmitEvidence : Type 0 where
  pub kind : String
  pub files : List String
  pub note : Option String

abbrev both_sides : Party → Db → Bool
both_sides p db =
    has_submitted p.dispute.id p.buyer_id db.evidence
    && has_submitted p.dispute.id p.seller_id db.evidence

unfoldable pub submit_evidence_tx : Party → ℕ → SubmitEvidence → Tx Db (Unit {0})
submit_evidence_tx p user_id dto = do
  modify (λ db. record db {
    evidence =
        record {
          dispute_id = p.dispute.id;
          submitted_by = user_id;
          kind = dto.kind;
          files = dto.files;
          note = dto.note;
        }
        ∷ db.evidence;
  })
  both ← gets (both_sides p)
  elim (next_status p.dispute.status both) [
    | none ↦ pure tt
    | some next ↦ step_dispute p.dispute.id p.dispute.status next
  ]

-- What `requireParty` read is as old as the call.
unfoldable pub submit_evidence : (ℕ → String) → ℕ → ℕ → SubmitEvidence → Service Db (Unit {0})
submit_evidence text dispute_id user_id dto db = elim (require_party dispute_id user_id db) [
  | err e ↦ (err e, db)
  | ok p ↦
      if dispute_status_eq p.dispute.status resolved
      then (err dispute_resolved, db)
      else if not (all_evidence_keys text dispute_id dto.files)
      then (err invalid_evidence_file, db)
      else execute (submit_evidence_tx p user_id dto) db
]
