-- ===== src/Ledger/Invariant.antt =====
-- The invariant of the four tables, and that posting and opening accounts keep it.
use quata_trade.Prelude.{
  ℕ, suc, ◌<◌, ◌≡◌, ◌≢◌, refl, sym, ℤ, pos, ◌+ℤ◌, int_laws, zero_+ℤ, +ℤ_assoc, none, List, [], ◌∷◌,
  ◌++◌, map, All, ◌==◌, if◌then◌else◌, arith,
}
use quata_trade.Domain.{AssetCode}
use quata_trade.Ledger.{
  Leg, Balance, Journal, Entry, Ledger, find_journal, find_balance, balance_of, recompute_balance,
  to_entry,
}
use quata_trade.Ledger.Legs.{legs_sum, net}
use quata_trade.Ledger.Rows.{apply_legs, credit, total, NonNegative}

-- The sum of the entries of one journal.
abbrev pub journal_sum : ℕ → List Entry → ℤ
journal_sum j [] = pos 0
journal_sum j (e ∷ es) =
    if e.journal_id == j then e.amount +ℤ journal_sum j es else journal_sum j es

abbrev pub UniqueRows : List Balance → Type 0
UniqueRows [] = Unit
UniqueRows (b ∷ bs) = (find_balance b.account_id bs ≡ none) × UniqueRows bs

abbrev pub UniqueKeys : List Journal → Type 0
UniqueKeys [] = Unit
UniqueKeys (j ∷ js) = (find_journal j.idempotency_key js ≡ none) × UniqueKeys js

pub record IsConsistent (l : Ledger) : Type 0 where
  -- the cached balance of every account is the sum of its entries
  pub cached : (a : ℕ) → balance_of a l.balances ≡ recompute_balance a l.entries
  -- no money is made or lost: the balances, the external one included, sum to zero
  pub conserved : total l.balances ≡ pos 0
  pub non_negative : NonNegative l.balances
  -- what the deferred trigger on the entries tests
  pub balanced : (j : ℕ) → journal_sum j l.entries ≡ pos 0
  pub old_entries : All (λ e. e.journal_id < l.next_id) l.entries
  pub rows : UniqueRows l.balances
  pub keys : UniqueKeys l.journals

-- ------------------------------------------------- the entries of a new journal

pub recompute-entries :
    (a j : ℕ) (c : AssetCode) (legs : List Leg) (es : List Entry)
    → recompute_balance a (map (to_entry j c) legs ++ es) ≡ net a legs +ℤ recompute_balance a es
unfolding recompute_balance to_entry
recompute-entries a j c [] es = sym (zero_+ℤ _)
recompute-entries a j c (leg ∷ legs) es = grind (
  int_laws,
  recompute-entries a j c legs es,
  +ℤ_assoc leg.amount (net a legs) (recompute_balance a es),
)

pub journal_sum-same :
    (j : ℕ) (c : AssetCode) (legs : List Leg) (es : List Entry)
    → journal_sum j (map (to_entry j c) legs ++ es) ≡ legs_sum legs +ℤ journal_sum j es
unfolding to_entry
journal_sum-same j c [] es = sym (zero_+ℤ _)
journal_sum-same j c (leg ∷ legs) es =
    grind (
      int_laws,
      journal_sum-same j c legs es,
      +ℤ_assoc leg.amount (legs_sum legs) (journal_sum j es),
    )

pub journal_sum-other :
    (i j : ℕ) (c : AssetCode) (legs : List Leg) (es : List Entry)
    → i ≢ j
    → journal_sum i (map (to_entry j c) legs ++ es) ≡ journal_sum i es
unfolding to_entry
journal_sum-other i j c [] es h = refl
journal_sum-other i j c (leg ∷ legs) es h = ground (arith, journal_sum-other i j c legs es h)

pub journal_sum-unused :
    (j : ℕ) (es : List Entry) → All (λ e. e.journal_id < j) es → journal_sum j es ≡ pos 0
journal_sum-unused j [] h = refl
journal_sum-unused j (e ∷ es) h = ground (arith, journal_sum-unused j es h.1)

pub older :
    (n : ℕ) (es : List Entry) → All (λ e. e.journal_id < n) es → All (λ e. e.journal_id < suc n) es
older n [] h = tt
older n (e ∷ es) h = (omega arith, older n es h.1)

pub old-entries :
    (n : ℕ) (c : AssetCode) (legs : List Leg) (es : List Entry)
    → All (λ e. e.journal_id < suc n) es
    → All (λ e. e.journal_id < suc n) (map (to_entry n c) legs ++ es)
unfolding to_entry
old-entries n c [] es h = h
old-entries n c (leg ∷ legs) es h = (omega arith, old-entries n c legs es h)

-- ------------------------------------------------- the rows

find_balance-credit-none :
    (a : ℕ) (leg : Leg) (bs : List Balance)
    → find_balance a bs ≡ none
    → find_balance a (credit leg bs) ≡ none
unfolding find_balance credit
find_balance-credit-none a leg [] h = refl
find_balance-credit-none a leg (b ∷ bs) h = ground (arith, find_balance-credit-none a leg bs)

UniqueRows-credit : (leg : Leg) (bs : List Balance) → UniqueRows bs → UniqueRows (credit leg bs)
unfolding credit
UniqueRows-credit leg [] h = tt
UniqueRows-credit leg (b ∷ bs) h =
    ground (arith, UniqueRows-credit leg bs h.1, find_balance-credit-none b.account_id leg bs h.0)

pub UniqueRows-apply_legs :
    (legs : List Leg) (bs : List Balance) → UniqueRows bs → UniqueRows (apply_legs legs bs)
unfolding apply_legs
UniqueRows-apply_legs [] bs h = h
UniqueRows-apply_legs (leg ∷ legs) bs h =
    UniqueRows-apply_legs legs (credit leg bs) (UniqueRows-credit leg bs h)
