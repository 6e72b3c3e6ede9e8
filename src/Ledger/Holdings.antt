-- ===== src/Ledger/Holdings.antt =====
-- The ledger as its clients see it: what an owner holds in accounts of one kind, without account
-- ids.
use quata_trade.Prelude.{
  ℕ, ◌<◌, ◌≡◌, ◌≢◌, refl, ap, ◌∙◌, sym, ℤ, pos, ◌+ℤ◌, Bool, true, ◌&&◌, Option, none, some,
  Bool-cases, inl, inr, List, [], ◌∷◌, All, ◌==◌, if◌then◌else◌, arith,
}
use quata_trade.Domain.{AccountKind, AssetCode, kind_eq, asset_eq}
use quata_trade.Ledger.{Account, Ledger, find_account, find_account_row, balance_of, owner_eq}

-- An account by what identifies it for a client.
pub record Ref : Type 0 where
  pub owner : Option ℕ
  pub kind : AccountKind
  pub asset : AssetCode

abbrev pub ref_eq : Ref → Ref → Bool
ref_eq a b = owner_eq a.owner b.owner && (kind_eq a.kind b.kind && asset_eq a.asset b.asset)

abbrev pub account_of : Ref → List Account → Option ℕ
account_of t rs = find_account t.owner t.kind t.asset rs

pub holding : Ledger → Ref → ℤ
holding l t = elim (account_of t l.accounts) [ none ↦ pos 0 | some a ↦ balance_of a l.balances ]

-- The amounts that a list of movements makes on one account.
abbrev pub moved : List (Ref × ℤ) → Ref → ℤ
moved [] t = pos 0
moved ((r, v) ∷ ms) t = if ref_eq r t then v +ℤ moved ms t else moved ms t

abbrev pub UniqueIds : List Account → Type 0
UniqueIds [] = Unit
UniqueIds (r ∷ rs) = (find_account_row r.id rs ≡ none) × UniqueIds rs

-- Account ids are unique, and everything is older than the next id.
pub record IsIndexed (l : Ledger) : Type 0 where
  pub ids : UniqueIds l.accounts
  pub accounts_below : All (λ r. r.id < l.next_id) l.accounts
  pub rows_below : All (λ b. b.account_id < l.next_id) l.balances

-- ------------------------------------------------- an account has one id, an id one account

owner_eq→eq : (o p : Option ℕ) → owner_eq o p ≡ true → o ≡ p
owner_eq→eq none none h = refl
owner_eq→eq none (some v) h = cc
owner_eq→eq (some u) none h = cc
owner_eq→eq (some u) (some v) h = ground arith

owner_eq_self : (o : Option ℕ) → owner_eq o o ≡ true
owner_eq_self none = refl
owner_eq_self (some u) = ground arith

kind_eq→eq : (k m : AccountKind) → kind_eq k m ≡ true → k ≡ m
kind_eq→eq k m h = ground arith

asset_eq→eq : (c d : AssetCode) → asset_eq c d ≡ true → c ≡ d
asset_eq→eq c d h = ground arith

pub ref_eq→eq : (s t : Ref) → ref_eq s t ≡ true → s ≡ t
ref_eq→eq s t h =
    ground
      (arith, owner_eq→eq s.owner t.owner, kind_eq→eq s.kind t.kind, asset_eq→eq s.asset t.asset)

pub ref_eq_self : (t : Ref) → ref_eq t t ≡ true
ref_eq_self t = ground (arith, owner_eq_self t.owner)

abbrev pub ref_of : Account → Ref
ref_of r = record { owner = r.owner; kind = r.kind; asset = r.asset }

row_absent :
    (a : ℕ) (t : Ref) (rs : List Account) → find_account_row a rs ≡ none → account_of t rs ≢ some a
unfolding find_account find_account_row
row_absent a t [] h e = cc
row_absent a t (r ∷ rs) h e = ground (arith, row_absent a t rs)

pub account-row :
    (t : Ref) (rs : List Account) (a : ℕ)
    → UniqueIds rs
    → account_of t rs ≡ some a
    → (r : Account) × (find_account_row a rs ≡ some r) × (ref_of r ≡ t)
unfolding find_account find_account_row
account-row t [] a u h = absurd (cc)
account-row t (r ∷ rs) a u h = elim (Bool-cases (ref_eq (ref_of r) t)) [
  | inl same ↦ (r, ground arith, ref_eq→eq (ref_of r) t same)
  | inr other ↦
      let older : account_of t rs ≡ some a = rw other at h in
      let (q, found, e) = account-row t rs a u.1 older in
      (
        q,
        let ne : r.id ≢ a = λ e. row_absent r.id t rs u.0 (older ∙ ap some (sym e)) in ground arith,
        e,
      )
]

some_inj : {A : Type 0} {a b : A} → some a ≡ some b → a ≡ b
some_inj h = cc

-- Two accounts are the same exactly when their ids are.
pub ids-ref_eq :
    (s t : Ref) (l : Ledger) {a b : ℕ}
    → IsIndexed l
    → account_of s l.accounts ≡ some a
    → account_of t l.accounts ≡ some b
    → (a == b) ≡ ref_eq s t
ids-ref_eq s t l {a} {b} x hs ht = elim (Bool-cases (ref_eq s t)) [
  | inl same ↦
      let e : s ≡ t = ref_eq→eq s t same in
      rw same (
        let same_id : a ≡ b = cc (sym hs ∙ ap (λ (r : Ref). account_of r l.accounts) e ∙ ht) in
        ground arith)
  | inr other ↦
      let (r, found_r, of_r) = account-row s l.accounts a x.ids hs in
      let (q, found_q, of_q) = account-row t l.accounts b x.ids ht in
      let differ : a ≢ b = λ e.
        let same_row : r ≡ q =
          some_inj (sym found_r ∙ ap (λ n. find_account_row n l.accounts) e ∙ found_q) in
        let same : s ≡ t = sym of_r ∙ ap ref_of same_row ∙ of_q in
        cc (sym other ∙ ap (ref_eq s) (sym same) ∙ ref_eq_self s) in
      rw other (ground arith)
]

pub holding_known :
    (t : Ref) (l : Ledger) {a : ℕ}
    → account_of t l.accounts ≡ some a
    → holding l t ≡ balance_of a l.balances
unfolding holding
holding_known t l h = rw (h, holding) refl

pub holding_unknown : (t : Ref) (l : Ledger) → account_of t l.accounts ≡ none → holding l t ≡ pos 0
unfolding holding
holding_unknown t l h = rw (h, holding) refl
