-- ===== src/Ledger/Locks.antt =====
-- The rows that `postInTrx` locks: every account of the legs.
use quata_trade.Prelude.{
  ℕ, ◌≡◌, refl, ◌∙◌, sym, true, none, Option-cases, inl, inr, List, [], ◌∷◌, All, contains, ◌==◌,
  if◌then◌else◌, arith,
}
use quata_trade.Ledger.{
  Leg, Balance, find_balance, lock_order, insert_sorted, select_balances, lock_balances,
}
use quata_trade.Ledger.Rows.{Agrees, find_balance-id}
use quata_trade.Tx.{ok}

contains-insert_sorted :
    (x a : ℕ) (ids : List ℕ)
    → contains (insert_sorted a ids) x ≡ (if a == x then true else contains ids x)
unfolding insert_sorted
contains-insert_sorted x a [] = refl
contains-insert_sorted x a (b ∷ ids) = ground (arith, contains-insert_sorted x a ids)

find_balance-select :
    (a : ℕ) (ids : List ℕ) (bs : List Balance)
    → find_balance a (select_balances ids bs) ≡ (if contains ids a then find_balance a bs else none)
unfolding select_balances find_balance
find_balance-select a [] bs = refl
find_balance-select a (x ∷ ids) bs = elim (Option-cases (find_balance x bs)) [
  | inl absent ↦ ground (arith, find_balance-select a ids bs)
  | inr (b, found) ↦ ground (arith, find_balance-select a ids bs, find_balance-id x bs found)
]

-- Among the rows that are locked for the legs, each leg's account has its row.
select-Agrees :
    (ids : List ℕ) (legs : List Leg) (bs : List Balance)
    → All (λ leg. contains ids leg.account_id ≡ true) legs
    → Agrees legs (select_balances ids bs) bs
select-Agrees ids [] bs h = tt
select-Agrees ids (leg ∷ legs) bs h =
    (sym (find_balance-select leg.account_id ids bs ∙ rw h.0 refl), select-Agrees ids legs bs h.1)

weaken :
    (a : ℕ) (ids : List ℕ) (legs : List Leg)
    → All (λ leg. contains ids leg.account_id ≡ true) legs
    → All (λ leg. contains (insert_sorted a ids) leg.account_id ≡ true) legs
weaken a ids [] h = tt
weaken a ids (leg ∷ legs) h =
    (ground (arith, contains-insert_sorted leg.account_id a ids, h.0), weaken a ids legs h.1)

pub lock_order-All :
    (legs : List Leg) → All (λ leg. contains (lock_order legs) leg.account_id ≡ true) legs
unfolding lock_order
lock_order-All [] = tt
lock_order-All (leg ∷ legs) = (
  ground (arith, contains-insert_sorted leg.account_id leg.account_id (lock_order legs)),
  weaken leg.account_id (lock_order legs) legs (lock_order-All legs),
)

pub lock_balances-select :
    (ids : List ℕ) (bs : List Balance) {locked : List Balance}
    → lock_balances ids bs ≡ ok locked
    → locked ≡ select_balances ids bs
unfolding lock_balances
lock_balances-select ids bs h = ground arith

pub lock_order-Agrees :
    (legs : List Leg) (bs : List Balance) → Agrees legs (select_balances (lock_order legs) bs) bs
lock_order-Agrees legs bs = select-Agrees (lock_order legs) legs bs (lock_order-All legs)
