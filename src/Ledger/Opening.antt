-- ===== src/Ledger/Opening.antt =====
-- Finding or opening an account (`getOrCreateAccount`): it is known afterwards, and no one holds more
-- or less than before.
use quata_trade.Prelude.{
  ℕ, suc, ◌<◌, ◌≡◌, ◌≢◌, refl, ap, ◌∙◌, sym, pos, false, Option, none, some, Option-cases,
  Bool-cases, inl, inr, List, [], ◌∷◌, All, arith,
}
use quata_trade.Domain.{AccountKind, AssetCode}
use quata_trade.Ledger.{
  Balance, Account, Ledger, find_account, find_account_row, find_balance, balance_of,
  ensure_balance, get_or_create_account,
}
use quata_trade.Ledger.Consistency.{balance_of-ensure}
use quata_trade.Tx.{ok}
use quata_trade.Ledger.Holdings.{
  Ref, ref_eq, account_of, holding, IsIndexed, ref_eq→eq, ref_eq_self, holding_known,
  holding_unknown,
}

no_row : (a : ℕ) (bs : List Balance) → All (λ b. b.account_id < a) bs → balance_of a bs ≡ pos 0
unfolding balance_of find_balance
no_row a [] h = refl
no_row a (b ∷ bs) h = ground (arith, no_row a bs h.1)

pub rows-suc :
    (n : ℕ) (bs : List Balance)
    → All (λ b. b.account_id < n) bs
    → All (λ b. b.account_id < suc n) bs
rows-suc n [] h = tt
rows-suc n (b ∷ bs) h = (omega arith, rows-suc n bs h.1)

pub accounts-suc : (n : ℕ) (rs : List Account) → All (λ r. r.id < n) rs → All (λ r. r.id < suc n) rs
accounts-suc n [] h = tt
accounts-suc n (r ∷ rs) h = (omega arith, accounts-suc n rs h.1)

rows-ensure :
    (n a : ℕ) (k : AccountKind) (bs : List Balance)
    → a < n
    → All (λ b. b.account_id < n) bs
    → All (λ b. b.account_id < n) (ensure_balance a k bs)
unfolding ensure_balance
rows-ensure n a k bs below h = elim (Option-cases (find_balance a bs)) [
  | inl absent ↦ rw (absent, ensure_balance) (below, h)
  | inr (b, found) ↦ rw (found, ensure_balance) h
]

new_id_unused : (n : ℕ) (rs : List Account) → All (λ r. r.id < n) rs → find_account_row n rs ≡ none
unfolding find_account_row
new_id_unused n [] h = refl
new_id_unused n (r ∷ rs) h = ground (arith, new_id_unused n rs h.1)

pub known_below :
    (t : Ref) (n a : ℕ) (rs : List Account)
    → All (λ r. r.id < n) rs
    → account_of t rs ≡ some a
    → a < n
unfolding find_account
known_below t n a [] h e = absurd (cc)
known_below t n a (r ∷ rs) h e = ground (arith, known_below t n a rs h.1)

-- An account was found or opened: it is known now, the others are where they were, and no one
-- holds more or less than before.
pub record Opened (t : Ref) (a : ℕ) (l l' : Ledger) : Type 0 where
  pub found : account_of t l'.accounts ≡ some a
  pub keeps :
      (s : Ref) (b : ℕ) → account_of s l.accounts ≡ some b → account_of s l'.accounts ≡ some b
  pub same : (s : Ref) → holding l' s ≡ holding l s
  pub indexed : IsIndexed l'
  pub journals : l'.journals ≡ l.journals
  pub entries : l'.entries ≡ l.entries
  pub row : find_balance a l'.balances ≢ none

has_row :
    (a : ℕ) (k : AccountKind) (bs : List Balance) → find_balance a (ensure_balance a k bs) ≢ none
unfolding ensure_balance find_balance
has_row a k bs = ground arith

module _ (o : Option ℕ) (k : AccountKind) (c : AssetCode) (l : Ledger) (x : IsIndexed l) where
  abbrev wanted : Ref
  wanted = record { owner = o; kind = k; asset = c }

  abbrev opened_ledger : Ledger
  opened_ledger = record l {
    accounts = record { id = l.next_id; owner = o; kind = k; asset = c } ∷ l.accounts;
    balances = ensure_balance l.next_id k l.balances;
    next_id = suc l.next_id;
  }

  not_before :
      (s : Ref) (b : ℕ)
      → account_of wanted l.accounts ≡ none
      → account_of s l.accounts ≡ some b
      → ref_eq wanted s ≡ false
  not_before s b absent h = elim (Bool-cases (ref_eq wanted s)) [
    | inr other ↦ other
    | inl same ↦
        cc (sym absent ∙ ap (λ (r : Ref). account_of r l.accounts) (ref_eq→eq wanted s same) ∙ h)
  ]

  new_keeps :
      (s : Ref) (b : ℕ)
      → account_of wanted l.accounts ≡ none
      → account_of s l.accounts ≡ some b
      → account_of s opened_ledger.accounts ≡ some b
  unfolding find_account
  new_keeps s b absent h = rw (not_before s b absent h) h

  new_same : account_of wanted l.accounts ≡ none → (s : Ref) → holding opened_ledger s ≡ holding l s
  unfolding find_account
  new_same absent s = elim (Option-cases (account_of s l.accounts)) [
    | inr (b, h) ↦
        holding_known s opened_ledger (new_keeps s b absent h)
        ∙ balance_of-ensure b l.next_id k l.balances
        ∙ sym (holding_known s l h)
    | inl h ↦ elim (Bool-cases (ref_eq wanted s)) [
      | inl same ↦
          holding_known s opened_ledger {a = l.next_id} (rw same refl)
          ∙ balance_of-ensure l.next_id l.next_id k l.balances
          ∙ no_row l.next_id l.balances x.rows_below
          ∙ sym (holding_unknown s l h)
      | inr other ↦ holding_unknown s opened_ledger (rw other h) ∙ sym (holding_unknown s l h)
    ]
  ]

  new_Opened : account_of wanted l.accounts ≡ none → Opened wanted l.next_id l opened_ledger
  new_Opened absent = record {
    found = unfold find_account in rw (ref_eq_self wanted) refl;
    keeps = λ s b h. new_keeps s b absent h;
    same = new_same absent;
    indexed = record {
      ids = (new_id_unused l.next_id l.accounts x.accounts_below, x.ids);
      accounts_below = (omega arith, accounts-suc l.next_id l.accounts x.accounts_below);
      rows_below =
          rows-ensure (suc l.next_id) l.next_id k l.balances (omega arith)
            (rows-suc l.next_id l.balances x.rows_below);
    };
    journals = refl;
    entries = refl;
    row = has_row l.next_id k l.balances;
  }

  old_Opened :
      (a : ℕ)
      → account_of wanted l.accounts ≡ some a
      → Opened wanted a l (record l { balances = ensure_balance a k l.balances })
  old_Opened a h = record {
    found = h;
    keeps = λ s b e. e;
    same = λ s. elim (Option-cases (account_of s l.accounts)) [
      | inl absent ↦ holding_unknown s _ absent ∙ sym (holding_unknown s l absent)
      | inr (b, found) ↦
          holding_known s _ found
          ∙ balance_of-ensure b a k l.balances
          ∙ sym (holding_known s l found)
    ];
    indexed = record {
      ids = x.ids;
      accounts_below = x.accounts_below;
      rows_below =
          rows-ensure l.next_id a k l.balances
            (known_below wanted l.next_id a l.accounts x.accounts_below h) x.rows_below;
    };
    journals = refl;
    entries = refl;
    row = has_row a k l.balances;
  }

  pub get_or_create_account-Opened :
      (a : ℕ) × (l' : Ledger) × (get_or_create_account o k c l ≡ ok (a, l')) × Opened wanted a l l'
  unfolding get_or_create_account
  get_or_create_account-Opened = elim (Option-cases (account_of wanted l.accounts)) [
    | inl absent ↦
        (l.next_id, opened_ledger, rw (absent, get_or_create_account) refl, new_Opened absent)
    | inr (a, found) ↦ (a, _, rw (found, get_or_create_account) refl, old_Opened a found)
  ]
