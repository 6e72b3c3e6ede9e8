-- ===== src/Ledger/Movements.antt =====
-- A posting, in terms of who holds what.
use quata_trade.Prelude.{
  ℕ, ◌<◌, ◌≡◌, refl, ap, ◌∙◌, sym, ℤ, pos, ◌+ℤ◌, zero_+ℤ, none, some, Option-cases, Bool-cases, inl,
  inr, List, [], ◌∷◌, All, arith,
}
use quata_trade.Ledger.{Leg, Balance, Account, JournalInput, Ledger, balance_of}
use quata_trade.Ledger.Legs.{net}
use quata_trade.Ledger.Rows.{apply_legs, credit, balance_of-apply_legs}
use quata_trade.Ledger.Post.{Posted}
use quata_trade.Ledger.Holdings.{
  Ref, ref_eq, account_of, holding, moved, IsIndexed, ids-ref_eq, ref_eq→eq, holding_known,
  holding_unknown,
}
use quata_trade.Ledger.Opening.{accounts-suc, rows-suc}

-- The legs of a journal name the accounts of a list of movements.
abbrev pub Names : List (Ref × ℤ) → List Leg → List Account → Type 0
Names [] [] rs = Unit
Names [] (leg ∷ legs) rs = ⊥
Names (m ∷ ms) [] rs = ⊥
Names ((t, v) ∷ ms) (leg ∷ legs) rs =
    (account_of t rs ≡ some leg.account_id) × (leg.amount ≡ v) × Names ms legs rs

net-moved :
    (l : Ledger) (x : IsIndexed l) (t : Ref) (a : ℕ) (ms : List (Ref × ℤ)) (legs : List Leg)
    → account_of t l.accounts ≡ some a
    → Names ms legs l.accounts
    → net a legs ≡ moved ms t
net-moved l x t a [] [] h n = refl
net-moved l x t a [] (leg ∷ legs) h n = absurd n
net-moved l x t a (m ∷ ms) [] h n = absurd n
net-moved l x t a ((r, v) ∷ ms) (leg ∷ legs) h n =
    rw (ids-ref_eq r t l x n.0 h, n.1, net-moved l x t a ms legs h n.2) refl

unmoved :
    (l : Ledger) (t : Ref) (ms : List (Ref × ℤ)) (legs : List Leg)
    → account_of t l.accounts ≡ none
    → Names ms legs l.accounts
    → moved ms t ≡ pos 0
unmoved l t [] legs h n = refl
unmoved l t (m ∷ ms) [] h n = absurd n
unmoved l t ((r, v) ∷ ms) (leg ∷ legs) h n = elim (Bool-cases (ref_eq r t)) [
  | inl same ↦
      cc (sym h ∙ ap (λ (q : Ref). account_of q l.accounts) (sym (ref_eq→eq r t same)) ∙ n.0)
  | inr other ↦ rw other (unmoved l t ms legs h n.2)
]

rows-credit :
    (n : ℕ) (leg : Leg) (bs : List Balance)
    → All (λ b. b.account_id < n) bs
    → All (λ b. b.account_id < n) (credit leg bs)
unfolding credit
rows-credit n leg [] h = tt
rows-credit n leg (b ∷ bs) h = ground (arith, rows-credit n leg bs h.1)

rows-apply_legs :
    (n : ℕ) (legs : List Leg) (bs : List Balance)
    → All (λ b. b.account_id < n) bs
    → All (λ b. b.account_id < n) (apply_legs legs bs)
unfolding apply_legs
rows-apply_legs n [] bs h = h
rows-apply_legs n (leg ∷ legs) bs h =
    rows-apply_legs n legs (credit leg bs) (rows-credit n leg bs h)

module _ {input : JournalInput} {l l' : Ledger} (p : Posted input l l') (x : IsIndexed l) where
  pub Posted-IsIndexed : IsIndexed l'
  Posted-IsIndexed = record {
    ids = rw p.accounts x.ids;
    accounts_below =
        rw (p.accounts, p.next_id) (accounts-suc l.next_id l.accounts x.accounts_below);
    rows_below =
        rw (p.balances, p.next_id)
          (rows-suc l.next_id _ (rows-apply_legs l.next_id input.legs l.balances x.rows_below));
  }

  -- A posting moves on every account what its legs say.
  pub holding-Posted :
      (ms : List (Ref × ℤ))
      → Names ms input.legs l.accounts
      → (t : Ref) → holding l' t ≡ moved ms t +ℤ holding l t
  holding-Posted ms n t = elim (Option-cases (account_of t l.accounts)) [
    | inl h ↦
        holding_unknown t l' (rw p.accounts h)
        ∙ rw (unmoved l t ms input.legs h n, holding_unknown t l h) (sym (zero_+ℤ _))
    | inr (a, h) ↦
        holding_known t l' (rw p.accounts h)
        ∙ ap (balance_of a) p.balances
        ∙ balance_of-apply_legs a input.legs l.balances p.present
        ∙ rw (net-moved l x t a ms input.legs h n, holding_known t l h) refl
  ]
