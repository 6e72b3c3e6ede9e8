-- ===== src/Ledger.antt =====
-- LedgerService (backend/src/modules/ledger/ledger.service.ts), method by method. A query is a
-- function of the tables; a transaction is a `Tx` over them.
mod Types
pub mod Legs
pub mod Rows
pub mod Locks
pub mod Post
pub mod Invariant
pub mod Consistency
pub mod History
pub mod Success
pub mod Outcome
pub mod Outside
pub mod Idempotency
pub mod Holdings
pub mod Opening
pub mod Movements
pub mod Transfers
unfoldable pub use Types.*
use quata_trade.Prelude.{
  ℕ, suc, ◌+◌, ◌<◌, ℤ, pos, ◌+ℤ◌, neg_ℤ, ltb_ℤ, eqb_ℤ, Bool, true, false, not, ◌&&◌, Option, none,
  some, List, [], ◌∷◌, ◌++◌, map, length, filter, contains, ltb, leb, ◌==◌, if◌then◌else◌,
}
use quata_trade.Domain.{AssetCode, AccountKind, kind_eq, asset_eq, is_external}
use quata_trade.Errors.{
  Error, insufficient_funds, unbalanced_journal, invalid_journal, unknown_account, too_few_legs,
  zero_leg, short_key, duplicate_account,
}
use quata_trade.Tx.{Result, ok, err, Tx, pure, lift, gets, ◌>>=◌, ◌>>◌}

-- ---------------------------------------------------------------- queries

unfoldable pub find_journal : Key → List Journal → Option Journal
find_journal k [] = none
find_journal k (j ∷ js) = if key_eq j.idempotency_key k then some j else find_journal k js

unfoldable pub find_balance : ℕ → List Balance → Option Balance
find_balance a [] = none
find_balance a (b ∷ bs) = if b.account_id == a then some b else find_balance a bs

unfoldable pub find_account_row : ℕ → List Account → Option Account
find_account_row a [] = none
find_account_row a (r ∷ rs) = if r.id == a then some r else find_account_row a rs

abbrev pub owner_eq : Option ℕ → Option ℕ → Bool
owner_eq none none = true
owner_eq (some u) (some v) = u == v
owner_eq _ _ = false

-- The row of UNIQUE NULLS NOT DISTINCT (owner_user_id, kind, asset).
unfoldable pub find_account : Option ℕ → AccountKind → AssetCode → List Account → Option ℕ
find_account o k c [] = none
find_account o k c (r ∷ rs) =
    if owner_eq r.owner o && (kind_eq r.kind k && asset_eq r.asset c)
    then some r.id
    else find_account o k c rs

-- ---------------------------------------------------------------- validate

-- The `for` loop over the legs, with the accounts seen and the sum so far.
unfoldable pub scan_legs : List Leg → List ℕ → ℤ → Result ℤ
scan_legs [] seen sum = ok sum
scan_legs (leg ∷ legs) seen sum =
    let rest = scan_legs legs (leg.account_id ∷ seen) (sum +ℤ leg.amount) in
    if eqb_ℤ leg.amount (pos 0)
    then err (invalid_journal zero_leg)
    else if contains seen leg.account_id
    then err (invalid_journal (duplicate_account leg.account_id))
    else rest

check_sum : Result ℤ → Key → Result (Unit {0})
check_sum (err e) k = err e
check_sum (ok sum) k =
    if not (eqb_ℤ sum (pos 0))
    then err (unbalanced_journal sum)
    else if ltb (key_length k) 8
    then err (invalid_journal short_key)
    else ok tt

unfoldable pub validate : JournalInput → Result (Unit {0})
unfolding check_sum
validate input =
    if ltb (length input.legs) 2
    then err (invalid_journal too_few_legs)
    else check_sum (scan_legs input.legs [] (pos 0)) input.idempotency_key

-- ---------------------------------------------------------------- postInTrx

insert_sorted : ℕ → List ℕ → List ℕ
insert_sorted a [] = a ∷ []
insert_sorted a (b ∷ bs) = if leb a b then a ∷ b ∷ bs else b ∷ insert_sorted a bs

-- `input.legs.map((l) => l.accountId).sort()`
unfoldable pub lock_order : List Leg → List ℕ
unfolding insert_sorted
lock_order [] = []
lock_order (leg ∷ legs) = insert_sorted leg.account_id (lock_order legs)

-- WHERE account_id IN ids ORDER BY account_id FOR UPDATE: account_id is the primary key, and `ids`
-- is sorted and without duplicates.
unfoldable pub select_balances : List ℕ → List Balance → List Balance
select_balances [] bs = []
select_balances (a ∷ ids) bs =
    let rest = select_balances ids bs in
    elim (find_balance a bs) [ none ↦ rest | some b ↦ b ∷ rest ]

-- The first id that has no row among those found.
first_missing : List ℕ → List Balance → ℕ
first_missing [] found = 0
first_missing (a ∷ ids) found = elim (find_balance a found) [
  | none ↦ a
  | some _ ↦ first_missing ids found
]

unfoldable pub lock_balances : List ℕ → List Balance → Result (List Balance)
unfolding first_missing
lock_balances ids bs =
    let found = select_balances ids bs in
    if length found == length ids then ok found else err (unknown_account (first_missing ids found))

-- Step 3: every account exists, in the asset of the journal.
unfoldable pub check_accounts : List ℕ → AssetCode → List Account → Result (Unit {0})
check_accounts [] c rs = ok tt
check_accounts (a ∷ ids) c rs = elim (find_account_row a rs) [
  | none ↦ err (unknown_account a)
  | some r ↦ if asset_eq r.asset c then check_accounts ids c rs else err (unknown_account a)
]

-- Step 4 for one leg.
unfoldable pub new_balance : Leg → List Balance → Result ℤ
new_balance leg locked = elim (find_balance leg.account_id locked) [
  | none ↦ err (unknown_account leg.account_id)
  | some row ↦
      let sum = row.balance +ℤ leg.amount in
      if not (is_external row.kind) && ltb_ℤ sum (pos 0)
      then err (insufficient_funds leg.account_id row.balance (neg_ℤ leg.amount))
      else ok sum
]

unfoldable pub compute_updates : List Leg → List Balance → Result (List (ℕ × ℤ))
compute_updates [] locked = ok []
compute_updates (leg ∷ legs) locked = elim (new_balance leg locked) [
  | err e ↦ err e
  | ok b ↦ elim (compute_updates legs locked) [
    | err e ↦ err e
    | ok us ↦ ok ((leg.account_id, b) ∷ us)
  ]
]

-- Step 6 for one account: the row's balance, and its version plus one.
unfoldable pub set_balance : ℕ → ℤ → List Balance → List Balance
set_balance a v [] = []
set_balance a v (b ∷ bs) =
    if b.account_id == a
    then (record b { balance = v; version = b.version + 1 }) ∷ bs
    else b ∷ set_balance a v bs

unfoldable pub apply_updates : List (ℕ × ℤ) → List Balance → List Balance
apply_updates [] bs = bs
apply_updates ((a, v) ∷ us) bs = apply_updates us (set_balance a v bs)

unfoldable pub to_entry : ℕ → AssetCode → Leg → Entry
to_entry j c leg = record {
  journal_id = j;
  account_id = leg.account_id;
  asset = c;
  amount = leg.amount;
}

abbrev pub to_journal : ℕ → JournalInput → Journal
to_journal j input = record {
  id = j;
  reason = input.reason;
  reference_type = input.reference_type;
  reference_id = input.reference_id;
  idempotency_key = input.idempotency_key;
  created_by = input.created_by;
}

abbrev replay_of : Journal → JournalResult
replay_of j = record { journal_id = j.id; replayed = true }

-- Steps 5 and 6 on the tables as they are then: the insert fails on the UNIQUE key if another
-- transaction has committed the same key since step 1, and then the winner's journal is returned.
unfoldable pub insert_journal : JournalInput → List (ℕ × ℤ) → Tx Ledger JournalResult
unfolding to_entry
insert_journal input updates l = elim (find_journal input.idempotency_key l.journals) [
  | some winner ↦ ok (replay_of winner, l)
  | none ↦ ok (
    record { journal_id = l.next_id; replayed = false },
    record l {
      balances = apply_updates updates l.balances;
      journals = to_journal l.next_id input ∷ l.journals;
      entries = map (to_entry l.next_id input.asset) input.legs ++ l.entries;
      next_id = suc l.next_id;
    },
  )
]

-- Steps 2 to 6.
unfoldable pub post_new : JournalInput → Tx Ledger JournalResult
post_new input = do
  let ids = lock_order input.legs
  balances ← gets (λ l. l.balances)
  locked ← lift (lock_balances ids balances)
  accounts ← gets (λ l. l.accounts)
  lift (check_accounts ids input.asset accounts)
  updates ← lift (compute_updates input.legs locked)
  insert_journal input updates

unfoldable pub post_in_trx : JournalInput → Tx Ledger JournalResult
post_in_trx input l = elim (find_journal input.idempotency_key l.journals) [
  | some existing ↦ ok (replay_of existing, l)
  | none ↦ post_new input l
]

-- `postJournal(input, trx)`: the caller owns the transaction.
unfoldable pub post_journal : JournalInput → Tx Ledger JournalResult
post_journal input = do lift (validate input); post_in_trx input

-- ---------------------------------------------------------------- accounts and reads

-- ON CONFLICT (account_id) DO NOTHING
unfoldable pub ensure_balance : ℕ → AccountKind → List Balance → List Balance
ensure_balance a k bs = elim (find_balance a bs) [
  | some _ ↦ bs
  | none ↦ record { account_id = a; kind = k; balance = pos 0; version = 0 } ∷ bs
]

unfoldable pub get_or_create_account : Option ℕ → AccountKind → AssetCode → Tx Ledger ℕ
unfolding ensure_balance
get_or_create_account o k c l = elim (find_account o k c l.accounts) [
  | some a ↦ ok (a, record l { balances = ensure_balance a k l.balances })
  | none ↦ ok (
    l.next_id,
    record l {
      accounts = record { id = l.next_id; owner = o; kind = k; asset = c } ∷ l.accounts;
      balances = ensure_balance l.next_id k l.balances;
      next_id = suc l.next_id;
    },
  )
]

-- `row?.balance ?? 0n`
unfoldable pub balance_of : ℕ → List Balance → ℤ
balance_of a bs = elim (find_balance a bs) [ none ↦ pos 0 | some b ↦ b.balance ]

-- `COALESCE(SUM(amount), 0)` over the entries of an account
unfoldable pub recompute_balance : ℕ → List Entry → ℤ
recompute_balance a [] = pos 0
recompute_balance a (e ∷ es) =
    let rest = recompute_balance a es in if e.account_id == a then e.amount +ℤ rest else rest

abbrev is_mismatch : List Entry → Balance → Bool
is_mismatch es b = not (eqb_ℤ (recompute_balance b.account_id es) b.balance)

unfoldable pub find_cache_mismatches : Ledger → List (ℕ × ℤ × ℤ)
find_cache_mismatches l =
    map (λ (b : Balance). (b.account_id, b.balance, recompute_balance b.account_id l.entries))
      (filter (is_mismatch l.entries) l.balances)
