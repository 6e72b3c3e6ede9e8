-- ===== src/Ledger/Outside.antt =====
-- Opening accounts (`getOrCreateAccount`) leaves the rows that are there, and the row of an external
-- account may go below zero.
use quata_trade.Prelude.{
  ℕ, pos, ap, ◌<◌, ◌≡◌, refl, sym, ◌∙◌, true, Option, none, some, Option-cases, inl, inr, List, [],
  ◌∷◌, All, arith,
}
use quata_trade.Domain.{AccountKind, AssetCode, external, is_external}
use mathlib.Core.Path.{subst}
use quata_trade.Tx.{ok}
use quata_trade.Tx.Guards.{ok_inj}
use quata_trade.Ledger.{
  Balance, Ledger, find_account, find_balance, ensure_balance, get_or_create_account,
}
use quata_trade.Ledger.Holdings.{IsIndexed}

-- The row of the external account, if there is one, says so.
abbrev pub KnowsOutside : AssetCode → Ledger → Type 0
KnowsOutside c l =
    (a : ℕ) (b : Balance)
    → find_account none external c l.accounts ≡ some a
    → find_balance a l.balances ≡ some b
    → is_external b.kind ≡ true

row-ensure :
    (a n : ℕ) (k : AccountKind) (bs : List Balance) {b : Balance}
    → find_balance a bs ≡ some b
    → find_balance a (ensure_balance n k bs) ≡ some b
unfolding ensure_balance find_balance
row-ensure a n k bs h = ground arith

pub row_kept :
    (a : ℕ) (o : Option ℕ) (k : AccountKind) (c : AssetCode) (l l' : Ledger) {n : ℕ} {b : Balance}
    → get_or_create_account o k c l ≡ ok (n, l')
    → find_balance a l.balances ≡ some b
    → find_balance a l'.balances ≡ some b
unfolding get_or_create_account
row_kept a o k c l l' e h = elim (Option-cases (find_account o k c l.accounts)) [
  | inl absent ↦
      let opened = ok_inj (rw (absent, get_or_create_account) at e) in
      ap (λ p. find_balance a p.1.balances) opened ∙ row-ensure a l.next_id k l.balances h
  | inr (m, found) ↦
      let opened = ok_inj (rw (found, get_or_create_account) at e) in
      ap (λ p. find_balance a p.1.balances) opened ∙ row-ensure a m k l.balances h
]

no_row_above :
    (n : ℕ) (bs : List Balance) → All (λ b. b.account_id < n) bs → find_balance n bs ≡ none
unfolding find_balance
no_row_above n [] h = refl
no_row_above n (b ∷ bs) h = ground (arith, no_row_above n bs h.1)

abbrev HasOutside : ℕ → List Balance → Type 0
HasOutside a bs = (b : Balance) × (find_balance a bs ≡ some b) × (is_external b.kind ≡ true)

new_row-HasOutside :
    (a : ℕ) (bs : List Balance)
    → find_balance a bs ≡ none
    → HasOutside a (ensure_balance a external bs)
unfolding ensure_balance find_balance
new_row-HasOutside a bs h =
    (record { account_id = a; kind = external; balance = pos 0; version = 0 }, ground arith, refl)

-- The external account that is found or opened has a row that may go below zero.
pub opened_outside :
    (c : AssetCode) (l l' : Ledger) {a : ℕ}
    → IsIndexed l
    → KnowsOutside c l
    → get_or_create_account none external c l ≡ ok (a, l')
    → HasOutside a l'.balances
unfolding get_or_create_account
opened_outside c l l' {a} x knows e =
    elim (Option-cases (find_account none external c l.accounts)) [
      | inl absent ↦
          let opened = ok_inj (rw (absent, get_or_create_account) at e) in
          subst (λ (p : ℕ × Ledger). HasOutside p.0 p.1.balances) (sym opened)
            (new_row-HasOutside l.next_id l.balances
              (no_row_above l.next_id l.balances x.rows_below))
      | inr (m, found) ↦
          let opened = ok_inj (rw (found, get_or_create_account) at e) in
          subst (λ (p : ℕ × Ledger). HasOutside p.0 p.1.balances) (sym opened)
            (elim (Option-cases (find_balance m l.balances)) [
              | inl bare ↦ new_row-HasOutside m l.balances bare
              | inr (b, row) ↦ (b, row-ensure m m external l.balances row, knows m b found row)
            ])
    ]
