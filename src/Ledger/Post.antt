-- ===== src/Ledger/Post.antt =====
-- What `postJournal` does: it replays, or it adds the legs to the balances and records them.
use quata_trade.Prelude.{
  ℕ, ℤ, suc, ◌≡◌, refl, ◌∙◌, true, false, Option, none, some, Option-cases, inl, inr, List, ◌∷◌,
  ◌++◌, map, arith,
}
use quata_trade.Errors.{Error}
use quata_trade.Ledger.{
  Balance, Journal, JournalInput, JournalResult, Ledger, find_journal, lock_order, apply_updates,
  lock_balances, check_accounts, compute_updates, insert_journal, post_new, post_in_trx,
  post_journal, to_journal, to_entry, validate,
}
use quata_trade.Ledger.Legs.{IsBalanced, validate-IsBalanced}
use quata_trade.Ledger.Rows.{
  Agrees, apply_legs, apply_updates-eq-apply_legs, Present, compute_updates-Present, NonNegative,
  NonNegative-apply_legs,
}
use quata_trade.Ledger.Locks.{lock_balances-select, lock_order-Agrees}
use quata_trade.Tx.{Result, ok, err, Result-cases}

-- The tables after a journal was posted.
pub record Posted (input : JournalInput) (l l' : Ledger) : Type 0 where
  pub valid : IsBalanced input
  pub fresh : find_journal input.idempotency_key l.journals ≡ none
  pub present : Present input.legs l.balances
  pub accounts : l'.accounts ≡ l.accounts
  pub balances : l'.balances ≡ apply_legs input.legs l.balances
  pub journals : l'.journals ≡ to_journal l.next_id input ∷ l.journals
  pub entries : l'.entries ≡ map (to_entry l.next_id input.asset) input.legs ++ l.entries
  pub next_id : l'.next_id ≡ suc l.next_id
  pub non_negative : NonNegative l.balances → NonNegative l'.balances

-- What a result of `postJournal` means, by whether the key has been used.
abbrev pub PostOutcome :
    JournalInput → Ledger → Option Journal → Result (JournalResult × Ledger) → Type 0
PostOutcome input l (some j) (ok (r, l')) =
    (r ≡ record { journal_id = j.id; replayed = true }) × (l' ≡ l)
PostOutcome input l none (ok (r, l')) =
    (r ≡ record { journal_id = l.next_id; replayed = false }) × Posted input l l'
PostOutcome input l found (err e) = Unit

pub post_new_steps :
    (input : JournalInput) (l : Ledger) {r : JournalResult} {l' : Ledger}
    → post_new input l ≡ ok (r, l')
    → (locked : List Balance) × (us : List (ℕ × ℤ)) × (lock_balances
          (lock_order input.legs)
          l.balances
        ≡ ok locked)
      × (check_accounts (lock_order input.legs) input.asset l.accounts ≡ ok tt)
      × (compute_updates input.legs locked ≡ ok us)
      × (insert_journal input us l ≡ ok (r, l'))
unfolding post_new
post_new_steps input l h = elim (Result-cases (lock_balances (lock_order input.legs) l.balances)) [
  | inr (e, bad) ↦ cc (rw (bad, post_new) at h)
  | inl (locked, good) ↦
      elim (Result-cases (check_accounts (lock_order input.legs) input.asset l.accounts)) [
        | inr (e, bad) ↦ cc (rw (good, bad, post_new) at h)
        | inl (u, fine) ↦ elim (Result-cases (compute_updates input.legs locked)) [
          | inr (e, bad) ↦ cc (rw (good, fine, bad, post_new) at h)
          | inl (us, done) ↦ (locked, us, good, fine, done, rw (good, fine, done, post_new) at h)
        ]
      ]
]

insert_journal_fresh :
    (input : JournalInput) (us : List (ℕ × ℤ)) (l : Ledger) {r : JournalResult} {l' : Ledger}
    → find_journal input.idempotency_key l.journals ≡ none
    → insert_journal input us l ≡ ok (r, l')
    → (r ≡ record { journal_id = l.next_id; replayed = false })
      × (l'.accounts ≡ l.accounts)
      × (l'.balances ≡ apply_updates us l.balances)
      × (l'.journals ≡ to_journal l.next_id input ∷ l.journals)
      × (l'.entries ≡ map (to_entry l.next_id input.asset) input.legs ++ l.entries)
      × (l'.next_id ≡ suc l.next_id)
unfolding insert_journal
insert_journal_fresh input us l unused h = ground arith

pub post_new-Posted :
    (input : JournalInput) (l : Ledger) {r : JournalResult} {l' : Ledger}
    → IsBalanced input
    → find_journal input.idempotency_key l.journals ≡ none
    → post_new input l ≡ ok (r, l')
    → (r ≡ record { journal_id = l.next_id; replayed = false }) × Posted input l l'
post_new-Posted input l {l' = l'} v unused h =
    let (locked, us, hl, hc, hu, hi) = post_new_steps input l h in
    let (hr, ha, hb, hj, he, hn) = insert_journal_fresh input us l unused hi in
    let agrees : Agrees input.legs locked l.balances =
      rw (lock_balances-select (lock_order input.legs) l.balances hl)
        (lock_order-Agrees input.legs l.balances) in
    let same : l'.balances ≡ apply_legs input.legs l.balances =
      hb ∙ apply_updates-eq-apply_legs input.legs locked l.balances v.distinct agrees hu in
    (
      hr,
      record {
        valid = v;
        fresh = unused;
        present = compute_updates-Present input.legs locked l.balances agrees hu;
        accounts = ha;
        balances = same;
        journals = hj;
        entries = he;
        next_id = hn;
        non_negative = λ n.
            rw same (NonNegative-apply_legs input.legs locked l.balances v.distinct agrees hu n);
      },
    )

-- What a result of `postJournal` means, under a used key and under a fresh one.
pub post_journal-PostOutcome :
    (input : JournalInput) (l : Ledger)
    → PostOutcome input l (find_journal input.idempotency_key l.journals) (post_journal input l)
unfolding post_journal post_in_trx
post_journal-PostOutcome input l = elim (Result-cases (validate input)) [
  | inr (e, bad) ↦ rw bad (failure (find_journal input.idempotency_key l.journals) e)
  | inl (u, good) ↦ rw good (in_trx (validate-IsBalanced input good))
]
  where
    failure : (found : Option Journal) (e : Error) → PostOutcome input l found (err e)
    failure none e = tt
    failure (some j) e = tt

    fresh :
        (v : IsBalanced input) (r : Result (JournalResult × Ledger))
        → find_journal input.idempotency_key l.journals ≡ none
        → post_new input l ≡ r
        → PostOutcome input l none r
    fresh v (ok (r, l')) unused h = post_new-Posted input l v unused h
    fresh v (err e) unused h = tt

    in_trx :
        IsBalanced input
        → PostOutcome input l (find_journal input.idempotency_key l.journals) (post_in_trx input l)
    in_trx v = elim (Option-cases (find_journal input.idempotency_key l.journals)) [
      | inl unused ↦ rw (unused, post_in_trx) (fresh v (post_new input l) unused refl)
      | inr (j, used) ↦ rw (used, post_in_trx) (refl, refl)
    ]
