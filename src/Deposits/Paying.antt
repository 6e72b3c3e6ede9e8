-- ===== src/Deposits/Paying.antt =====
-- What marking a waiting row as credited does to what the table shows.
use quata_trade.Prelude.{
  ℕ, ℤ, pos, neg_ℤ, ◌+ℤ◌, ◌-ℤ◌, int_laws, ◌≡◌, refl, ap, sym, ◌∙◌, true, false, none, some, List,
  [], ◌∷◌, All, ◌==◌, arith, Bool-cases, inl, inr, zero_+ℤ,
}
use quata_trade.Domain.{external, user_available, platform_treasury}
use quata_trade.Ledger.{key_eq}
use quata_trade.Ledger.Holdings.{Ref, moved, ref_eq}
use quata_trade.Ledger.Transfers.{ref}
use quata_trade.Db.{Deposit}
use quata_trade.Deposits.Rows.{find_deposit, update_deposit, is_transfer, has_transfer}
use quata_trade.Deposits.{deposit_key, Terms, credited_row}
use quata_trade.Deposits.Shown.{
  moves_of, is_paid, row_moves, deposit_moves, paid, UniqueTransfers, Waits,
}

pub some_inj : {A : Type 0} {a b : A} → some a ≡ some b → a ≡ b
some_inj h = cc

pub Waits-at :
    (id : ℕ) (ds : List Deposit) (d : Deposit)
    → find_deposit id ds ≡ some d
    → All Waits ds
    → Waits d
unfolding find_deposit
Waits-at id [] d h w = cc
Waits-at id (e ∷ es) d h w = elim (Bool-cases (e.id == id)) [
  | inl here ↦ let same : e ≡ d = some_inj (rw here at h) in rw (sym same) w.0
  | inr other ↦ Waits-at id es d (rw other at h) w.1
]

pub found_id : (id : ℕ) (ds : List Deposit) (d : Deposit) → find_deposit id ds ≡ some d → d.id ≡ id
unfolding find_deposit
found_id id [] d h = cc
found_id id (e ∷ es) d h = ground (arith, found_id id es d)

has_transfer_self :
    (id : ℕ) (ds : List Deposit) (d : Deposit)
    → find_deposit id ds ≡ some d
    → has_transfer d.tx_hash d.log_index ds ≡ true
unfolding find_deposit has_transfer
has_transfer_self id [] d h = cc
has_transfer_self id (e ∷ es) d h = ground (arith, has_transfer_self id es d)

unpaid_of_absent :
    (tx log : ℕ) (ds : List Deposit) → has_transfer tx log ds ≡ false → paid tx log ds ≡ false
unfolding has_transfer
unpaid_of_absent tx log [] h = refl
unpaid_of_absent tx log (d ∷ ds) h = ground (arith, unpaid_of_absent tx log ds)

same_transfer :
    (d e : Deposit) (ds : List Deposit)
    → is_transfer d.tx_hash d.log_index e ≡ true
    → has_transfer d.tx_hash d.log_index ds ≡ has_transfer e.tx_hash e.log_index ds
unfolding has_transfer
same_transfer d e [] h = refl
same_transfer d e (x ∷ xs) h = ground (arith, same_transfer d e xs h)

-- A transfer whose row waits has not been paid by any row.
pub unpaid :
    (id : ℕ) (ds : List Deposit) (d : Deposit)
    → find_deposit id ds ≡ some d
    → UniqueTransfers ds
    → is_paid d ≡ false
    → paid d.tx_hash d.log_index ds ≡ false
unfolding find_deposit
unpaid id [] d h u w = cc
unpaid id (e ∷ es) d h u w = elim (Bool-cases (e.id == id)) [
  | inl here ↦
      let same : e ≡ d = some_inj (rw here at h) in
      let clear : is_paid e ≡ false = rw same w in
      let rest : paid d.tx_hash d.log_index es ≡ false =
        ap (λ (q : Deposit). paid q.tx_hash q.log_index es) (sym same)
        ∙ unpaid_of_absent e.tx_hash e.log_index es u.0 in
      ground arith
  | inr other ↦
      let later : find_deposit id es ≡ some d = rw other at h in
      elim (Bool-cases (is_transfer d.tx_hash d.log_index e)) [
        | inl alike ↦ cc (sym (has_transfer_self id es d later) ∙ same_transfer d e es alike ∙ u.0)
        | inr apart ↦ rw apart (unpaid id es d later u.1 w)
      ]
]

module _ (t : Terms) (fee journal_id id : ℕ) where
  abbrev after : List Deposit → List Deposit
  after ds = update_deposit id (credited_row t fee journal_id) ds

  pub has_transfer-credited :
      (tx log : ℕ) (ds : List Deposit) → has_transfer tx log (after ds) ≡ has_transfer tx log ds
  unfolding has_transfer update_deposit
  has_transfer-credited tx log [] = refl
  has_transfer-credited tx log (d ∷ ds) = ground (arith, has_transfer-credited tx log ds)

  pub UniqueTransfers-credited :
      (ds : List Deposit) → UniqueTransfers ds → UniqueTransfers (after ds)
  unfolding update_deposit
  UniqueTransfers-credited [] u = tt
  UniqueTransfers-credited (d ∷ ds) u = elim (Bool-cases (d.id == id)) [
    | inl here ↦ rw here u
    | inr other ↦
        rw other
          (has_transfer-credited d.tx_hash d.log_index ds ∙ u.0, UniqueTransfers-credited ds u.1)
  ]

  pub waiting-credited : (ds : List Deposit) → All Waits ds → All Waits (after ds)
  unfolding update_deposit
  waiting-credited [] u = tt
  waiting-credited (d ∷ ds) u = elim (Bool-cases (d.id == id)) [
    | inl here ↦ rw here (λ p. cc, u.1)
    | inr other ↦ rw other (u.0, waiting-credited ds u.1)
  ]

  -- A transfer that is unpaid afterwards is another one, and was unpaid.
  pub unpaid_after :
      (tx log : ℕ) (ds : List Deposit) (d : Deposit)
      → find_deposit id ds ≡ some d
      → is_paid d ≡ false
      → paid tx log (after ds) ≡ false
      → (is_transfer tx log d ≡ false) × (paid tx log ds ≡ false)
  unfolding update_deposit find_deposit
  unpaid_after tx log [] d h w p = cc
  unpaid_after tx log (e ∷ es) d h w p = elim (Bool-cases (e.id == id)) [
    | inl here ↦
        let same : e ≡ d = some_inj (rw here at h) in
        let clear : paid tx log (credited_row t fee journal_id e ∷ es) ≡ false = rw here at p in
        rw (sym same) (ground arith)
    | inr other ↦
        let rest : paid tx log (e ∷ after es) ≡ false = rw other at p in
        ground (arith, unpaid_after tx log es d (rw other at h) w)
  ]

  -- The table shows the moves of the new credit on top.
  pub deposit_moves-credited :
      (r : Ref) (ds : List Deposit) (d : Deposit)
      → find_deposit id ds ≡ some d
      → is_paid d ≡ false
      → deposit_moves (after ds) r ≡ moved (moves_of d fee) r +ℤ deposit_moves ds r
  unfolding update_deposit find_deposit
  deposit_moves-credited r [] d h w = cc
  deposit_moves-credited r (e ∷ es) d h w = elim (Bool-cases (e.id == id)) [
    | inl here ↦
        let same : e ≡ d = some_inj (rw here at h) in
        let clear : is_paid e ≡ false = rw same w in
        rw here (
          rw clear (
            ap (λ x. x +ℤ deposit_moves es r) (ap (λ (q : Deposit). moved (moves_of q fee) r) same)
            ∙ ap (λ x. moved (moves_of d fee) r +ℤ x) (sym (zero_+ℤ (deposit_moves es r)))))
    | inr other ↦ rw other (
        ap (λ x. row_moves e r +ℤ x) (deposit_moves-credited r es d (rw other at h) w)
        ∙ swap (row_moves e r) (moved (moves_of d fee) r) (deposit_moves es r))
  ]
    where
      swap : (a b c : ℤ) → a +ℤ (b +ℤ c) ≡ b +ℤ (a +ℤ c)
      swap a b c = omega int_laws

-- Without a fee nothing goes to the treasury.
pub moved_plain :
    (d : Deposit) (r : Ref)
    → moved
        ((ref none external d.asset, neg_ℤ (pos d.amount))
          ∷ (ref (some d.user_id) user_available d.asset, pos d.amount)
          ∷ [])
        r
      ≡ moved (moves_of d 0) r
moved_plain d r = elim (Bool-cases (ref_eq (ref none platform_treasury d.asset) r)) [
  | inl e ↦ rw e (ground (arith, no_fee (pos d.amount), zero_last))
  | inr e ↦ rw e (rw (no_fee (pos d.amount)) refl)
]
  where
    no_fee : (a : ℤ) → a -ℤ pos 0 ≡ a
    no_fee a = omega int_laws

    zero_last : pos 0 +ℤ pos 0 ≡ pos 0
    zero_last = omega int_laws

-- The key of another transfer is another key.
pub other_key :
    (d : Deposit) (tx log : ℕ)
    → is_transfer tx log d ≡ false
    → key_eq (deposit_key d.tx_hash d.log_index) (deposit_key tx log) ≡ false
unfolding key_eq
other_key d tx log h = ground arith
