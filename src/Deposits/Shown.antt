-- ===== src/Deposits/Shown.antt =====
-- The balances as the table of deposits shows them
-- (backend/src/modules/deposits/deposit-confirmation.service.ts): what the credited rows have moved,
-- and the updates of rows that change nothing of it.
use quata_trade.Prelude.{
  ℕ, ℤ, pos, neg_ℤ, ◌+ℤ◌, ◌-ℤ◌, ◌≡◌, refl, sym, ◌∙◌, Bool, true, false, ◌&&◌, none, some, List, [],
  ◌∷◌, All, ◌==◌, if◌then◌else◌, Bool-cases, inl, inr,
}
use quata_trade.Domain.{external, user_available, platform_treasury}
use quata_trade.Ledger.{find_journal}
use quata_trade.Ledger.Holdings.{Ref, IsIndexed, moved, holding}
use quata_trade.Ledger.Transfers.{ref}
use quata_trade.Db.{Db, Deposit}
use quata_trade.Deposits.Rows.{is_pending, update_deposit, is_transfer, has_transfer}
use quata_trade.Deposits.{deposit_key}

-- The gross amount comes from outside, the user gets it less the fee, the treasury gets the fee.
abbrev pub moves_of : Deposit → ℕ → List (Ref × ℤ)
moves_of d fee =
    (ref none external d.asset, neg_ℤ (pos d.amount))
    ∷ (ref (some d.user_id) user_available d.asset, pos d.amount -ℤ pos fee)
    ∷ (ref none platform_treasury d.asset, pos fee)
    ∷ []

abbrev pub is_paid : Deposit → Bool
is_paid d = elim d.credited_journal_id [ none ↦ false | some _ ↦ true ]

abbrev pub row_moves : Deposit → Ref → ℤ
row_moves d t = if is_paid d then moved (moves_of d d.fee) t else pos 0

-- What the table says was moved on an account.
abbrev pub deposit_moves : List Deposit → Ref → ℤ
deposit_moves [] t = pos 0
deposit_moves (d ∷ ds) t = row_moves d t +ℤ deposit_moves ds t

abbrev pub paid : ℕ → ℕ → List Deposit → Bool
paid tx log [] = false
paid tx log (d ∷ ds) = if is_transfer tx log d && is_paid d then true else paid tx log ds

abbrev pub UniqueTransfers : List Deposit → Type 0
UniqueTransfers [] = Unit
UniqueTransfers (d ∷ ds) = (has_transfer d.tx_hash d.log_index ds ≡ false) × UniqueTransfers ds

-- A deposit that waits has not been paid.
abbrev pub Waits : Deposit → Type 0
Waits d = is_pending d.status ≡ true → is_paid d ≡ false

-- Everyone holds what `base` says and what the table shows.
pub record Shown (base : Ref → ℤ) (db : Db) : Type 0 where
  pub indexed : IsIndexed db.ledger
  pub unique : UniqueTransfers db.deposits
  pub waiting : All Waits db.deposits
  pub free :
      (tx log : ℕ)
      → paid tx log db.deposits ≡ false
      → find_journal (deposit_key tx log) db.ledger.journals ≡ none
  pub shows : (t : Ref) → holding db.ledger t ≡ deposit_moves db.deposits t +ℤ base t

-- ---------------------------------------------------------------- updates that move nothing

pub record SameMoney (d e : Deposit) : Type 0 where
  pub tx : e.tx_hash ≡ d.tx_hash
  pub log : e.log_index ≡ d.log_index
  pub is_paid_same : is_paid e ≡ is_paid d
  pub moves : (t : Ref) → row_moves e t ≡ row_moves d t
  pub pending : is_pending e.status ≡ true → is_pending d.status ≡ true

pub same_money : (d : Deposit) → SameMoney d d
same_money d = record {
  tx = refl;
  log = refl;
  is_paid_same = refl;
  moves = λ t. refl;
  pending = λ h. h;
}

abbrev pub Quiet : List Deposit → List Deposit → Type 0
Quiet [] [] = Unit
Quiet [] (e ∷ es) = ⊥
Quiet (d ∷ ds) [] = ⊥
Quiet (d ∷ ds) (e ∷ es) = SameMoney d e × Quiet ds es

pub Quiet-self : (ds : List Deposit) → Quiet ds ds
Quiet-self [] = tt
Quiet-self (d ∷ ds) = (same_money d, Quiet-self ds)

pub update_deposit-Quiet :
    (id : ℕ) (set : Deposit → Deposit) (ds : List Deposit)
    → ((d : Deposit) → SameMoney d (set d))
    → Quiet ds (update_deposit id set ds)
unfolding update_deposit
update_deposit-Quiet id set [] k = tt
update_deposit-Quiet id set (d ∷ ds) k = elim (Bool-cases (d.id == id)) [
  | inl found ↦ rw found (k d, Quiet-self ds)
  | inr other ↦ rw other (same_money d, update_deposit-Quiet id set ds k)
]

deposit_moves-Quiet :
    (ds es : List Deposit) (t : Ref) → Quiet ds es → deposit_moves es t ≡ deposit_moves ds t
deposit_moves-Quiet [] [] t q = refl
deposit_moves-Quiet [] (e ∷ es) t q = absurd q
deposit_moves-Quiet (d ∷ ds) [] t q = absurd q
deposit_moves-Quiet (d ∷ ds) (e ∷ es) t q = rw (q.0.moves t, deposit_moves-Quiet ds es t q.1) refl

paid-Quiet : (tx log : ℕ) (ds es : List Deposit) → Quiet ds es → paid tx log es ≡ paid tx log ds
paid-Quiet tx log [] [] q = refl
paid-Quiet tx log [] (e ∷ es) q = absurd q
paid-Quiet tx log (d ∷ ds) [] q = absurd q
paid-Quiet tx log (d ∷ ds) (e ∷ es) q =
    rw (q.0.tx, q.0.log, q.0.is_paid_same, paid-Quiet tx log ds es q.1) refl

has_transfer-Quiet :
    (tx log : ℕ) (ds es : List Deposit)
    → Quiet ds es
    → has_transfer tx log es ≡ has_transfer tx log ds
unfolding has_transfer
has_transfer-Quiet tx log [] [] q = refl
has_transfer-Quiet tx log [] (e ∷ es) q = absurd q
has_transfer-Quiet tx log (d ∷ ds) [] q = absurd q
has_transfer-Quiet tx log (d ∷ ds) (e ∷ es) q =
    rw (q.0.tx, q.0.log, has_transfer-Quiet tx log ds es q.1) refl

UniqueTransfers-Quiet :
    (ds es : List Deposit) → Quiet ds es → UniqueTransfers ds → UniqueTransfers es
UniqueTransfers-Quiet [] [] q u = tt
UniqueTransfers-Quiet [] (e ∷ es) q u = absurd q
UniqueTransfers-Quiet (d ∷ ds) [] q u = absurd q
UniqueTransfers-Quiet (d ∷ ds) (e ∷ es) q u = (
  has_transfer-Quiet e.tx_hash e.log_index ds es q.1 ∙ rw (q.0.tx, q.0.log) u.0,
  UniqueTransfers-Quiet ds es q.1 u.1,
)

waiting-Quiet : (ds es : List Deposit) → Quiet ds es → All Waits ds → All Waits es
waiting-Quiet [] [] q u = tt
waiting-Quiet [] (e ∷ es) q u = absurd q
waiting-Quiet (d ∷ ds) [] q u = absurd q
waiting-Quiet (d ∷ ds) (e ∷ es) q u =
    (λ p. q.0.is_paid_same ∙ u.0 (q.0.pending p), waiting-Quiet ds es q.1 u.1)

-- The same ledger, and rows that were updated quietly.
pub Shown-Quiet :
    {base : Ref → ℤ} (db db' : Db)
    → Shown base db
    → db'.ledger ≡ db.ledger
    → Quiet db.deposits db'.deposits
    → Shown base db'
Shown-Quiet db db' h e q = record {
  indexed = rw e h.indexed;
  unique = UniqueTransfers-Quiet db.deposits db'.deposits q h.unique;
  waiting = waiting-Quiet db.deposits db'.deposits q h.waiting;
  free = λ tx log p. rw e (h.free tx log (sym (paid-Quiet tx log db.deposits db'.deposits q) ∙ p));
  shows = λ t. rw (e, deposit_moves-Quiet db.deposits db'.deposits t q) (h.shows t);
}
