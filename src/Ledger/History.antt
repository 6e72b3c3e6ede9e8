-- ===== src/Ledger/History.antt =====
-- Any sequence of postings and openings of accounts keeps the ledger consistent, and the
-- reconciliation (`findCacheMismatches`) finds nothing.
use quata_trade.Prelude.{
  ℕ, ◌≡◌, ◌≢◌, refl, ◌∙◌, sym, Option, none, List, [], ◌∷◌, All, filter, eqb_ℤ_self, arith,
}
use quata_trade.Domain.{AccountKind, AssetCode}
use quata_trade.Ledger.{
  Balance, Entry, JournalInput, Ledger, find_balance, balance_of, is_mismatch,
  find_cache_mismatches, recompute_balance, get_or_create_account, post_journal,
}
use quata_trade.Ledger.Invariant.{IsConsistent, UniqueRows}
use quata_trade.Tx.{Result, ok, err}
use quata_trade.Ledger.Consistency.{Keeps, post_journal-Keeps, get_or_create_account-Keeps}

-- ------------------------------------------------- any history

-- What the services ask of the ledger.
pub data LedgerCall : Type 0 where
  post : JournalInput → LedgerCall
  open_account : Option ℕ → AccountKind → AssetCode → LedgerCall

-- Each call in a transaction of its own: one that fails is rolled back.
abbrev committed : {A : Type 0} → Ledger → Result (A × Ledger) → Ledger
committed l (ok (a, l')) = l'
committed l (err e) = l

unfoldable pub run_call : LedgerCall → Ledger → Ledger
run_call (post input) l = committed l (post_journal input l)
run_call (open_account o k c) l = committed l (get_or_create_account o k c l)

unfoldable pub run_calls : List LedgerCall → Ledger → Ledger
run_calls [] l = l
run_calls (call ∷ calls) l = run_calls calls (run_call call l)

abbrev pub empty_ledger : Ledger
empty_ledger = record { accounts = []; balances = []; journals = []; entries = []; next_id = 0 }

committed-IsConsistent :
    {A : Type 0} (l : Ledger) (r : Result (A × Ledger))
    → Keeps l r
    → IsConsistent l
    → IsConsistent (committed l r)
committed-IsConsistent l (ok (a, l')) k h = k h
committed-IsConsistent l (err e) k h = h

run_call-IsConsistent :
    (call : LedgerCall) (l : Ledger) → IsConsistent l → IsConsistent (run_call call l)
unfolding run_call
run_call-IsConsistent (post input) l h = committed-IsConsistent l _ (post_journal-Keeps input l) h
run_call-IsConsistent (open_account o k c) l h =
    committed-IsConsistent l _ (get_or_create_account-Keeps o k c l) h

run_calls-IsConsistent :
    (calls : List LedgerCall) (l : Ledger) → IsConsistent l → IsConsistent (run_calls calls l)
unfolding run_calls
run_calls-IsConsistent [] l h = h
run_calls-IsConsistent (call ∷ calls) l h =
    run_calls-IsConsistent calls (run_call call l) (run_call-IsConsistent call l h)

empty_ledger-IsConsistent : IsConsistent empty_ledger
unfolding balance_of find_balance recompute_balance
empty_ledger-IsConsistent = record {
  cached = λ a. refl;
  conserved = refl;
  non_negative = tt;
  balanced = λ j. refl;
  old_entries = tt;
  rows = tt;
  keys = tt;
}

-- After any sequence of postings and openings of accounts, failed ones among them, from empty
-- tables: cached balances equal the sums of their entries, all balances together and the entries
-- of each journal sum to zero, no account but an external one is below zero, and no balance row
-- and no idempotency key occurs twice.
pub run_calls_consistent : (calls : List LedgerCall) → IsConsistent (run_calls calls empty_ledger)
run_calls_consistent calls = run_calls-IsConsistent calls empty_ledger empty_ledger-IsConsistent

-- ------------------------------------------------- reconciliation

no_mismatch :
    (es : List Entry) (bs : List Balance)
    → All (λ b. recompute_balance b.account_id es ≡ b.balance) bs
    → filter (is_mismatch es) bs ≡ []
no_mismatch es [] h = refl
no_mismatch es (b ∷ bs) h = ground (arith, no_mismatch es bs h.1, eqb_ℤ_self b.balance)

absent→others :
    (a : ℕ) (bs : List Balance) → find_balance a bs ≡ none → All (λ b. b.account_id ≢ a) bs
unfolding find_balance
absent→others a [] h = tt
absent→others a (b ∷ bs) h = (ground arith, absent→others a bs (ground arith))

shift :
    (b : Balance) (bs rest : List Balance)
    → All (λ x. x.account_id ≢ b.account_id) rest
    → All (λ x. balance_of x.account_id bs ≡ x.balance) rest
    → All (λ x. balance_of x.account_id (b ∷ bs) ≡ x.balance) rest
unfolding balance_of find_balance
shift b bs [] h k = tt
shift b bs (x ∷ rest) h k = (ground (arith, h.0, k.0), shift b bs rest h.1 k.1)

own_balance :
    (bs : List Balance) → UniqueRows bs → All (λ x. balance_of x.account_id bs ≡ x.balance) bs
own_balance [] h = tt
own_balance (b ∷ bs) h = (
  unfold balance_of find_balance in ground arith,
  shift b bs bs (absent→others b.account_id bs h.0) (own_balance bs h.1),
)

from_entries :
    (l : Ledger) (bs : List Balance)
    → ((a : ℕ) → balance_of a l.balances ≡ recompute_balance a l.entries)
    → All (λ x. balance_of x.account_id l.balances ≡ x.balance) bs
    → All (λ x. recompute_balance x.account_id l.entries ≡ x.balance) bs
from_entries l [] c h = tt
from_entries l (b ∷ bs) c h = (sym (c b.account_id) ∙ h.0, from_entries l bs c h.1)

-- After any such history the reconciliation of cached balances with the entries finds nothing.
pub reconciliation_finds_nothing :
    (calls : List LedgerCall) → find_cache_mismatches (run_calls calls empty_ledger) ≡ []
unfolding find_cache_mismatches
reconciliation_finds_nothing calls =
    let l : Ledger = run_calls calls empty_ledger in
    let c : IsConsistent l = run_calls_consistent calls in
    rw
      (no_mismatch l.entries l.balances
        (from_entries l l.balances c.cached (own_balance l.balances c.rows)))
      refl
