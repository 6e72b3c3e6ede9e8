-- ===== src/Ledger/Consistency.antt =====
-- Posting a journal and opening an account keep the ledger consistent, whatever the calls.
use quata_trade.Prelude.{
  ℕ, ◌<◌, ◌≡◌, refl, ◌∙◌, pos, int_laws, zero_+ℤ, Option, none, some, Option-cases, Bool-cases, inl,
  inr, List, All, ◌==◌, arith,
}
use quata_trade.Domain.{AccountKind, AssetCode}
use quata_trade.Ledger.{
  Balance, JournalInput, JournalResult, Ledger, Journal, find_balance, balance_of,
  recompute_balance, ensure_balance, get_or_create_account, post_journal, find_account,
}
use quata_trade.Ledger.Rows.{total, NonNegative, balance_of-apply_legs, total-apply_legs}
use quata_trade.Ledger.Invariant.{
  IsConsistent, UniqueRows, recompute-entries, journal_sum, journal_sum-same, journal_sum-other,
  older, old-entries, UniqueRows-apply_legs,
}
use quata_trade.Ledger.Post.{Posted, PostOutcome, post_journal-PostOutcome}
use quata_trade.Tx.{Result, ok, err}

module _ {input : JournalInput} {l l' : Ledger} (p : Posted input l l') (c : IsConsistent l) where
  Posted-cached : (a : ℕ) → balance_of a l'.balances ≡ recompute_balance a l'.entries
  Posted-cached a =
      rw
        (
          p.balances,
          p.entries,
          balance_of-apply_legs a input.legs l.balances p.present,
          recompute-entries a l.next_id input.asset input.legs l.entries,
          c.cached a,
        )
        refl

  Posted-conserved : total l'.balances ≡ pos 0
  Posted-conserved =
      rw
        (
          p.balances,
          total-apply_legs input.legs l.balances p.present,
          c.conserved,
          p.valid.balanced,
        )
        (omega int_laws)

  Posted-balanced : (j : ℕ) → journal_sum j l'.entries ≡ pos 0
  Posted-balanced j = rw p.entries (elim (Bool-cases (j == l.next_id)) [
    | inl same ↦
        rw
          (
            let e : j ≡ l.next_id = ground arith in e,
            journal_sum-same l.next_id input.asset input.legs l.entries,
            p.valid.balanced,
            c.balanced l.next_id,
          )
          (omega int_laws)
    | inr other ↦
        journal_sum-other j l.next_id input.asset input.legs l.entries (ground arith) ∙ c.balanced j
  ])

  -- A new journal keeps the ledger consistent.
  Posted-IsConsistent : IsConsistent l'
  Posted-IsConsistent = record {
    cached = Posted-cached;
    conserved = Posted-conserved;
    non_negative = p.non_negative c.non_negative;
    balanced = Posted-balanced;
    old_entries =
        rw (p.entries, p.next_id)
          (old-entries l.next_id input.asset input.legs l.entries
            (older l.next_id l.entries c.old_entries));
    rows = rw p.balances (UniqueRows-apply_legs input.legs l.balances c.rows);
    keys = rw p.journals (p.fresh, c.keys);
  }

-- ------------------------------------------------- opening an account

pub balance_of-ensure :
    (a x : ℕ) (k : AccountKind) (bs : List Balance)
    → balance_of a (ensure_balance x k bs) ≡ balance_of a bs
unfolding balance_of ensure_balance find_balance
balance_of-ensure a x k bs = ground arith

total-ensure :
    (x : ℕ) (k : AccountKind) (bs : List Balance) → total (ensure_balance x k bs) ≡ total bs
unfolding ensure_balance
total-ensure x k bs = grind (int_laws, zero_+ℤ (total bs))

NonNegative-ensure :
    (x : ℕ) (k : AccountKind) (bs : List Balance)
    → NonNegative bs
    → NonNegative (ensure_balance x k bs)
unfolding ensure_balance
NonNegative-ensure x k bs h = elim (Option-cases (find_balance x bs)) [
  | inl absent ↦ rw (absent, ensure_balance) (inr (omega arith), h)
  | inr (b, found) ↦ rw (found, ensure_balance) h
]

UniqueRows-ensure :
    (x : ℕ) (k : AccountKind) (bs : List Balance)
    → UniqueRows bs
    → UniqueRows (ensure_balance x k bs)
unfolding ensure_balance
UniqueRows-ensure x k bs h = elim (Option-cases (find_balance x bs)) [
  | inl absent ↦ rw (absent, ensure_balance) (absent, h)
  | inr (b, found) ↦ rw (found, ensure_balance) h
]

ensured :
    (x : ℕ) (k : AccountKind) (l l' : Ledger)
    → l'.balances ≡ ensure_balance x k l.balances
    → l'.entries ≡ l.entries
    → l'.journals ≡ l.journals
    → All (λ e. e.journal_id < l'.next_id) l.entries
    → IsConsistent l
    → IsConsistent l'
ensured x k l l' hb he hj ho c = record {
  cached = λ a. rw (hb, he, balance_of-ensure a x k l.balances) (c.cached a);
  conserved = rw (hb, total-ensure x k l.balances) c.conserved;
  non_negative = rw hb (NonNegative-ensure x k l.balances c.non_negative);
  balanced = λ j. rw he (c.balanced j);
  old_entries = rw he ho;
  rows = rw hb (UniqueRows-ensure x k l.balances c.rows);
  keys = rw hj c.keys;
}

abbrev pub Keeps : {A : Type 0} → Ledger → Result (A × Ledger) → Type 0
Keeps l (ok (a, l')) = IsConsistent l → IsConsistent l'
Keeps l (err e) = Unit

pub get_or_create_account-Keeps :
    (o : Option ℕ) (k : AccountKind) (c : AssetCode) (l : Ledger)
    → Keeps l (get_or_create_account o k c l)
unfolding get_or_create_account
get_or_create_account-Keeps o k c l = elim (Option-cases (find_account o k c l.accounts)) [
  | inl absent ↦
      rw (absent, get_or_create_account)
        λ h. ensured l.next_id k l _ refl refl refl (older l.next_id l.entries h.old_entries) h
  | inr (a, found) ↦
      rw (found, get_or_create_account) λ h. ensured a k l _ refl refl refl h.old_entries h
]

outcome-Keeps :
    (input : JournalInput) (l : Ledger) (found : Option Journal)
    (r : Result (JournalResult × Ledger))
    → PostOutcome input l found r
    → Keeps l r
outcome-Keeps input l (some j) (ok (r, l')) h = λ c. rw h.1 c
outcome-Keeps input l none (ok (r, l')) h = Posted-IsConsistent h.1
outcome-Keeps input l none (err e) h = tt
outcome-Keeps input l (some j) (err e) h = tt

pub post_journal-Keeps : (input : JournalInput) (l : Ledger) → Keeps l (post_journal input l)
post_journal-Keeps input l = outcome-Keeps input l _ _ (post_journal-PostOutcome input l)
