-- ===== src/Escrow/Effects.antt =====
-- What the escrow's journals do to everyone's holdings
-- (backend/src/modules/escrow/escrow.service.ts).
use quata_trade.Prelude.{
  ℕ, ℤ, String, pos, neg_ℤ, ◌+◌, ◌+ℤ◌, +ℤ_zero, Bool-cases, inl, inr, ◌-ℤ◌, ◌≡◌, refl, sym, ap, ◌∙◌,
  Bool, true, false, not, ltb, if◌then◌else◌, arith, none, some, List, [], ◌∷◌,
}
use quata_trade.Domain.{user_available, user_escrow, platform_treasury, escrow_locked}
use quata_trade.Tx.{ok}
use quata_trade.Tx.Guards.{ok_inj}
use quata_trade.Ledger.{Actor, Journal, JournalInput, Ledger, find_journal, to_journal}
use quata_trade.Ledger.Holdings.{Ref, IsIndexed, account_of, ref_eq, moved, holding}
use quata_trade.Ledger.Movements.{Names}
use quata_trade.Ledger.Transfers.{ref, Transferred}
use quata_trade.Postings.{pair_posting_ok, triple_posting_ok}
use quata_trade.Db.{Db, Trade}
use quata_trade.Escrow.{
  escrow_locked_amount, trade_key, lock_escrow, post_refund, post_release, release_legs, no_extra,
}
use quata_trade.Escrow.Progress.{Transitioned, transition_ok}

abbrev pub available : Trade → Ref
available t = ref (some t.seller_id) user_available t.asset

abbrev pub escrowed : Trade → Ref
escrowed t = ref (some t.seller_id) user_escrow t.asset

-- What `lockEscrow` moves: amount and seller fee, from the seller's balance into escrow.
abbrev pub lock_moves : Trade → List (Ref × ℤ)
lock_moves t =
    (available t, neg_ℤ (pos (escrow_locked_amount t)))
    ∷ (escrowed t, pos (escrow_locked_amount t))
    ∷ []

abbrev pub refund_moves : Trade → List (Ref × ℤ)
refund_moves t =
    (escrowed t, neg_ℤ (pos (escrow_locked_amount t)))
    ∷ (available t, pos (escrow_locked_amount t))
    ∷ []

-- One journal of the trade was posted: its movements and its key, in the ledger `l'`.
pub record Posting (t : Trade) (action : String) (ms : List (Ref × ℤ)) (l l' : Ledger)
    : Type 0 where
  pub moves : (s : Ref) → holding l' s ≡ moved ms s +ℤ holding l s
  pub indexed : IsIndexed l'
  pub recorded :
      (j : Journal) × (l'.journals ≡ j ∷ l.journals) × (j.idempotency_key ≡ trade_key t.id action)

posting :
    {t : Trade} {action : String} {ms ms' : List (Ref × ℤ)} {input : JournalInput} {l l' : Ledger}
    → Transferred ms' input l l'
    → ((s : Ref) → moved ms' s ≡ moved ms s)
    → input.idempotency_key ≡ trade_key t.id action
    → Posting t action ms l l'
posting {t} {action} {ms} {ms'} {input} {l} {l'} done same key =
    let (id, newest) = done.recorded in
    record {
      moves = λ s. done.moves s ∙ ap (λ v. v +ℤ holding l s) (same s);
      indexed = done.indexed;
      recorded = (to_journal id input, newest, key);
    }

pub post_refund_ok :
    (t : Trade) (actor : Actor) (db db' : Db) {id : ℕ}
    → IsIndexed db.ledger
    → find_journal (trade_key t.id "refund") db.ledger.journals ≡ none
    → post_refund t actor db ≡ ok (id, db')
    → (l : Ledger) × Posting t "refund" (refund_moves t) db.ledger l
      × (db' ≡ record db { ledger = l })
unfolding post_refund
post_refund_ok t actor db db' x unused h =
    let (r, a, b, l, done, rest) =
      pair_posting_ok _ _ _ _ _ (neg_ℤ (pos (escrow_locked_amount t)))
        (pos (escrow_locked_amount t)) _ _ db db' x (λ a b. refl) (λ a b. unused) h in
    (l, posting done (λ s. refl) refl, ap (λ p. p.1) (ok_inj rest))

pub lock_escrow_ok :
    (t : Trade) (actor : Actor) (deadline : ℕ) (db db' : Db) {u : Unit {0}}
    → IsIndexed db.ledger
    → find_journal (trade_key t.id "lock") db.ledger.journals ≡ none
    → lock_escrow t actor deadline db ≡ ok (u, db')
    → (l : Ledger) × Posting t "lock" (lock_moves t) db.ledger l
      × (id : ℕ) × Transitioned t escrow_locked actor none
          (record no_extra { escrow_journal_id = some id; payment_deadline = some deadline })
          (record db { ledger = l })
          db'
unfolding lock_escrow
lock_escrow_ok t actor deadline db db' x unused h =
    let (r, a, b, l, done, rest) =
      pair_posting_ok _ _ _ _ _ (neg_ℤ (pos (escrow_locked_amount t)))
        (pos (escrow_locked_amount t)) _ _ db db' x (λ a b. refl) (λ a b. unused) h in
    (
      l,
      posting done (λ s. refl) refl,
      r.journal_id,
      transition_ok t escrow_locked actor none _ _ rest,
    )

abbrev pub bought : Trade → Ref
bought t = ref (some t.buyer_id) user_available t.asset

abbrev pub treasury : Trade → Ref
treasury t = ref none platform_treasury t.asset

-- What a release moves: out of escrow, to the buyer without the fee, and both fees to the platform.
abbrev pub release_moves : Trade → List (Ref × ℤ)
release_moves t =
    (escrowed t, neg_ℤ (pos (escrow_locked_amount t)))
    ∷ (bought t, pos t.amount -ℤ pos t.fee_amount)
    ∷ (treasury t, pos (t.fee_amount + t.seller_fee_amount))
    ∷ []

abbrev release_moves_free : Trade → List (Ref × ℤ)
release_moves_free t =
    (escrowed t, neg_ℤ (pos (escrow_locked_amount t)))
    ∷ (bought t, pos t.amount -ℤ pos t.fee_amount)
    ∷ []

pub no_share : (b : Bool) (n : ℕ) → n ≡ 0 → (if b then pos n +ℤ pos 0 else pos 0) ≡ pos 0
no_share true n h = rw h (+ℤ_zero (pos 0))
no_share false n h = refl

nothing_more :
    (t : Trade) (s : Ref)
    → ltb 0 (t.fee_amount + t.seller_fee_amount) ≡ false
    → moved (release_moves_free t) s ≡ moved (release_moves t) s
nothing_more t s h =
    let none_left : t.fee_amount + t.seller_fee_amount ≡ 0 = ground (arith, h) in
    sym (rw (no_share (ref_eq (treasury t) s) (t.fee_amount + t.seller_fee_amount) none_left) refl)

release-Names :
    (t : Trade) (a b d : ℕ) (l : Ledger)
    → account_of (escrowed t) l.accounts ≡ some a
    → account_of (bought t) l.accounts ≡ some b
    → account_of (treasury t) l.accounts ≡ some d
    → (free : Bool) → ltb 0 (t.fee_amount + t.seller_fee_amount) ≡ not free
    → Names
        (if free then release_moves_free t else release_moves t)
        (release_legs t a b d)
        l.accounts
release-Names t a b d l at_a at_b at_d true h = rw h (at_a, refl, (at_b, refl, tt))
release-Names t a b d l at_a at_b at_d false h = rw h (at_a, refl, (at_b, refl, (at_d, refl, tt)))

pub post_release_ok :
    (t : Trade) (actor : Actor) (db db' : Db) {id : ℕ}
    → IsIndexed db.ledger
    → find_journal (trade_key t.id "release") db.ledger.journals ≡ none
    → post_release t actor db ≡ ok (id, db')
    → (l : Ledger) × Posting t "release" (release_moves t) db.ledger l
      × (db' ≡ record db { ledger = l })
unfolding post_release
post_release_ok t actor db db' x unused h =
    elim (Bool-cases (ltb 0 (t.fee_amount + t.seller_fee_amount))) [
      | inl fees ↦
          let (r, a, b, d, l, done, rest) =
            triple_posting_ok _ _ _ _ _ _ _ (release_moves t) _ _ db db' x
              (λ a b d l at_a at_b at_d. release-Names t a b d l at_a at_b at_d false fees)
              (λ a b d. unused) h in
          (l, posting done (λ s. refl) refl, ap (λ p. p.1) (ok_inj rest))
      | inr free ↦
          let (r, a, b, d, l, done, rest) =
            triple_posting_ok _ _ _ _ _ _ _ (release_moves_free t) _ _ db db' x
              (λ a b d l at_a at_b at_d. release-Names t a b d l at_a at_b at_d true free)
              (λ a b d. unused) h in
          (l, posting done (λ s. nothing_more t s free) refl, ap (λ p. p.1) (ok_inj rest))
    ]
