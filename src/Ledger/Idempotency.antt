-- ===== src/Ledger/Idempotency.antt =====
-- A key moves money once: a second call is a replay.
use text.Mathlib.TextPositions.{eq_refl}
use quata_trade.Prelude.{ℕ, ◌≡◌, refl, true, Option, none, some, [], ◌∷◌, ==_self}
use quata_trade.Ledger.{
  Key, Piece, word, uuid, num, hash, piece_eq, key_eq, Journal, JournalInput, JournalResult, Ledger,
  find_journal, post_in_trx, post_journal, to_journal,
}
use quata_trade.Ledger.Legs.{IsBalanced}
use quata_trade.Ledger.Post.{PostOutcome, post_journal-PostOutcome}
use quata_trade.Ledger.Success.{validate_ok}
use quata_trade.Tx.{ok}

piece_eq_self : (p : Piece) → piece_eq p p ≡ true
piece_eq_self (word w) = eq_refl w
piece_eq_self (uuid n) = ==_self n
piece_eq_self (num n) = ==_self n
piece_eq_self (hash n) = ==_self n

pub key_eq_self : (k : Key) → key_eq k k ≡ true
unfolding key_eq
key_eq_self [] = refl
key_eq_self (p ∷ k) = rw (piece_eq_self p, key_eq_self k) refl

-- The journal that holds a key, and its id.
abbrev pub Holds : Key → ℕ → Ledger → Type 0
Holds k id l = (j : Journal) × (find_journal k l.journals ≡ some j) × (j.id ≡ id)

outcome-Holds :
    (input : JournalInput) (l : Ledger) (found : Option Journal) (r : JournalResult) (l' : Ledger)
    → find_journal input.idempotency_key l.journals ≡ found
    → PostOutcome input l found (ok (r, l'))
    → Holds input.idempotency_key r.journal_id l'
unfolding find_journal
outcome-Holds input l (some j) r l' e h = (j, rw h.1 e, rw h.0 refl)
outcome-Holds input l none r l' e (h, p) =
    (to_journal l.next_id input, rw (p.journals, key_eq_self input.idempotency_key) refl, rw h refl)

-- What a posting leaves behind holds its key.
pub post_journal-Holds :
    (input : JournalInput) (l : Ledger) {r : JournalResult} {l' : Ledger}
    → post_journal input l ≡ ok (r, l')
    → Holds input.idempotency_key r.journal_id l'
post_journal-Holds input l {r} {l'} h =
    outcome-Holds input l (find_journal input.idempotency_key l.journals) r l' refl
      (rw h at (post_journal-PostOutcome input l))

-- After a posting, any balanced journal under the same key answers with the first journal's id,
-- is marked as replayed, and writes nothing.
pub post_journal_twice :
    (input again : JournalInput) (l : Ledger) {r : JournalResult} {l' : Ledger}
    → post_journal input l ≡ ok (r, l')
    → again.idempotency_key ≡ input.idempotency_key
    → IsBalanced again
    → post_journal again l' ≡ ok (record { journal_id = r.journal_id; replayed = true }, l')
unfolding post_journal post_in_trx
post_journal_twice input again l {r} {l'} h same v =
    let (j, found, id) = post_journal-Holds input l h in
    let held : find_journal again.idempotency_key l'.journals ≡ some j = rw same found in
    rw (validate_ok again v, held, post_in_trx, id) refl
